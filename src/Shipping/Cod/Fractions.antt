-- ===== src/Shipping/Cod/Fractions.antt =====
-- `fractions.Fraction` as cod.py uses it: values of zero or more. The library keeps lowest terms;
-- the model keeps the numerator and denominator that the arithmetic gives, and uses only operations
-- that depend on the value alone.
use native.Mathlib.Nat.{mul-le-mul_right, div-mul-le_self, lt-div-mul-add}
use zdrovena_reconciliation.Prelude.{
  ℕ, ◌+◌, ◌*◌, ◌/◌, ◌%◌, ◌≤◌, ◌<◌, ◌≡◌, ap, List, [], ◌∷◌, map, arith, All, length, sum,
}

pub record Fraction : Type 0 where
  pub num : ℕ
  pub den : ℕ

-- `Fraction(n)`
abbrev pub whole : ℕ → Fraction
whole n = record { num = n; den = 1 }

abbrev pub plus : Fraction → Fraction → Fraction
plus f g = record { num = f.num * g.den + g.num * f.den; den = f.den * g.den }

-- `Fraction(total) * weight / denominator`
abbrev pub scale : ℕ → Fraction → Fraction → Fraction
scale total w d = record { num = total * w.num * d.den; den = w.den * d.num }

-- `int(f)`
abbrev pub floor : Fraction → ℕ
floor f = f.num / f.den

-- the numerator of `f - int(f)` over `f.den`
abbrev pub excess : Fraction → ℕ
excess f = f.num % f.den

-- `sum(fs)`
unfoldable pub total_of : List Fraction → Fraction
total_of [] = whole 0
total_of (f ∷ fs) = plus f (total_of fs)

abbrev pub IsFraction : Fraction → Type 0
IsFraction f = 0 < f.den

pub total_of-IsFraction : (fs : List Fraction) → All IsFraction fs → IsFraction (total_of fs)
unfolding total_of
total_of-IsFraction [] h = omega arith
total_of-IsFraction (f ∷ fs) h =
    let rest = total_of-IsFraction fs h.1 in let here = h.0 in grind arith

floor_step_lower : (a d n s e m : ℕ) → a * d ≤ n → s * e ≤ m → (a + s) * (d * e) ≤ n * e + m * d
floor_step_lower a d n s e m h k = omega (arith, mul-le-mul_right e h, mul-le-mul_right d k)

floor_step_upper :
    (a d n s e m l : ℕ)
    → n ≤ (a + 1) * d
    → m ≤ (s + l) * e
    → n * e + m * d ≤ (a + s + (l + 1)) * (d * e)
floor_step_upper a d n s e m l h k = omega (arith, mul-le-mul_right e h, mul-le-mul_right d k)

floor_upper : (f : Fraction) → IsFraction f → f.num ≤ (floor f + 1) * f.den
floor_upper f h = let bound = lt-div-mul-add {a = f.num} h in omega (arith, bound)

-- The floors add up to no more than the sum, and miss it by at most one for each term.
pub floors_lower :
    (fs : List Fraction)
    → All IsFraction fs
    → sum (map floor fs) * (total_of fs).den ≤ (total_of fs).num
unfolding total_of
floors_lower [] h = omega arith
floors_lower (f ∷ fs) h =
    floor_step_lower (floor f) f.den f.num (sum (map floor fs)) (total_of fs).den (total_of fs).num
      (div-mul-le_self f.num f.den) (floors_lower fs h.1)

pub floors_upper :
    (fs : List Fraction)
    → All IsFraction fs
    → (total_of fs).num ≤ (sum (map floor fs) + length fs) * (total_of fs).den
unfolding total_of
floors_upper [] h = omega arith
floors_upper (f ∷ fs) h =
    let bound =
      floor_step_upper (floor f) f.den f.num (sum (map floor fs)) (total_of fs).den
        (total_of fs).num (length fs) (floor_upper f h.0) (floors_upper fs h.1) in
    omega (arith, bound)

scale_step :
    (t n d e m w k x y : ℕ)
    → x * (e * w) ≡ t * k * m * y
    → (t * n * k * y + x * (d * w)) * (d * e * w) ≡ t * k * (n * e + m * d) * (d * w * y)
scale_step t n d e m w k x y h = omega (arith, ap (λ (z : ℕ). z * (d * d * w)) h)

-- Scaled to `t` over `g`, the weights `fs` add up to `t` times their sum over `g`.
pub total_of-scale :
    (t : ℕ) (g : Fraction) (fs : List Fraction)
    → (total_of (map (λ f. scale t f g) fs)).num * ((total_of fs).den * g.num)
      ≡ t * g.den * (total_of fs).num * (total_of (map (λ f. scale t f g) fs)).den
unfolding total_of
total_of-scale t g [] = omega arith
total_of-scale t g (f ∷ fs) =
    scale_step t f.num f.den (total_of fs).den (total_of fs).num g.num g.den
      (total_of (map (λ f. scale t f g) fs)).num (total_of (map (λ f. scale t f g) fs)).den
      (total_of-scale t g fs)
