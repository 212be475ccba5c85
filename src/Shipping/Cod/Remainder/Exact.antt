-- ===== src/Shipping/Cod/Remainder/Exact.antt =====
-- The parts that `_largest_remainder` returns add up to the total, to the grosz.
use native.Mathlib.Nat.{le_of_mul-le-mul_right, mul-le-mul_right, mul-pos}
use zdrovena_reconciliation.Prelude.{
  ℕ, zero, suc, ◌+◌, ◌-◌, ◌*◌, ◌≤◌, ◌<◌, ◌≡◌, inl, inr, refl, ◌∙◌, Option, none, some, List, [],
  ◌∷◌, map, arith, sum, length, length-map, take, replicate, All, Bool-cases, ◌==◌, ==→eq, ==-ne,
}
use zdrovena_reconciliation.Shipping.Cod.Fractions.{
  Fraction, scale, floor, total_of, IsFraction, total_of-IsFraction, floors_lower, floors_upper,
  total_of-scale,
}
use zdrovena_reconciliation.Shipping.Cod.Remainder.{
  Share, number_from, before, insert_share, sort_shares, indices, increment, increment_each,
  exact_shares, distribute, largest_remainder,
}

cancel_bound : (s t d n k : ℕ) → 0 < k → 0 < d → s * d ≤ n → n * k ≡ t * k * d → s ≤ t
cancel_bound s t d n k pk pd h e =
    le_of_mul-le-mul_right {k = k * d} (omega (arith, e, mul-le-mul_right k h)) (mul-pos pk pd)

exact_shares-IsFraction :
    (total : ℕ) (g : Fraction) (ws : List Fraction)
    → 0 < g.num
    → All IsFraction ws
    → All IsFraction (map (λ w. scale total w g) ws)
exact_shares-IsFraction total g [] pos h = tt
exact_shares-IsFraction total g (w ∷ ws) pos h =
    (mul-pos h.0 pos, exact_shares-IsFraction total g ws pos h.1)

cancel_upper : (s t d n k : ℕ) → 0 < k → 0 < d → n ≤ s * d → n * k ≡ t * k * d → t ≤ s
cancel_upper s t d n k pk pd h e =
    le_of_mul-le-mul_right {k = k * d} (omega (arith, e, mul-le-mul_right k h)) (mul-pos pk pd)

module _ (total : ℕ) (ws : List Fraction) (fractions : All IsFraction ws)
    (pos : 0 < (total_of ws).num) where
  weighed : All IsFraction (exact_shares total ws)
  weighed = exact_shares-IsFraction total (total_of ws) ws pos fractions

  common : 0 < (total_of ws).den * (total_of ws).num
  common = mul-pos (total_of-IsFraction ws fractions) pos

  balance :
      (total_of (exact_shares total ws)).num * ((total_of ws).den * (total_of ws).num)
      ≡ total * ((total_of ws).den * (total_of ws).num) * (total_of (exact_shares total ws)).den
  balance = omega (arith, total_of-scale total (total_of ws) ws)

  -- the floors never exceed the total
  pub floors-le-total : sum (map floor (exact_shares total ws)) ≤ total
  floors-le-total =
      cancel_bound _ total _ _ _ common (total_of-IsFraction (exact_shares total ws) weighed)
        (floors_lower (exact_shares total ws) weighed) balance

  -- there are enough parts to take the grosze that are left
  pub total-le-floors : total ≤ sum (map floor (exact_shares total ws)) + length ws
  total-le-floors =
      let bound =
        cancel_upper _ total _ _ _ common (total_of-IsFraction (exact_shares total ws) weighed)
          (floors_upper (exact_shares total ws) weighed) balance in
      omega (arith, bound, length-map (λ w. scale total w (total_of ws)) ws)

pub length-increment : (ps : List ℕ) (i : ℕ) → length (increment ps i) ≡ length ps
unfolding increment
length-increment [] i = refl
length-increment (p ∷ ps) zero = refl
length-increment (p ∷ ps) (suc i) = omega (arith, length-increment ps i)

sum-increment : (ps : List ℕ) (i : ℕ) → i < length ps → sum (increment ps i) ≡ sum ps + 1
unfolding increment
sum-increment [] i h = absurd (omega arith)
sum-increment (p ∷ ps) zero h = omega arith
sum-increment (p ∷ ps) (suc i) h = omega (arith, sum-increment ps i (omega arith))

pub length-increment_each : (ps is : List ℕ) → length (increment_each ps is) ≡ length ps
unfolding increment_each
length-increment_each ps [] = refl
length-increment_each ps (i ∷ is) =
    length-increment_each (increment ps i) is ∙ length-increment ps i

sum-increment_each :
    (ps is : List ℕ) → All (λ i. i < length ps) is → sum (increment_each ps is) ≡ sum ps + length is
unfolding increment_each
sum-increment_each ps [] h = omega arith
sum-increment_each ps (i ∷ is) h =
    let same : length (increment ps i) ≡ length ps = length-increment ps i in
    let rest : All (λ j. j < length (increment ps i)) is = rw same h.1 in
    omega (arith, sum-increment_each (increment ps i) is rest, sum-increment ps i h.0)

-- Sorting keeps the number of shares, and what holds of all of them.
pub length-insert_share :
    (x : Share) (ys : List Share) → length (insert_share x ys) ≡ suc (length ys)
unfolding insert_share
length-insert_share x [] = refl
length-insert_share x (y ∷ ys) = ground (arith, length-insert_share x ys)

pub length-sort_shares : (xs : List Share) → length (sort_shares xs) ≡ length xs
unfolding sort_shares
length-sort_shares [] = refl
length-sort_shares (x ∷ xs) =
    omega (arith, length-insert_share x (sort_shares xs), length-sort_shares xs)

insert_share-All :
    (n : ℕ) (x : Share) (ys : List Share)
    → x.0 < n
    → All (λ i. i < n) (indices ys)
    → All (λ i. i < n) (indices (insert_share x ys))
unfolding insert_share
insert_share-All n x [] h k = (h, tt)
insert_share-All n x (y ∷ ys) h k = elim (Bool-cases (before y x)) [
  | inl e ↦ rw e (k.0, insert_share-All n x ys h k.1)
  | inr e ↦ rw e (h, k)
]

sort_shares-All :
    (n : ℕ) (xs : List Share)
    → All (λ i. i < n) (indices xs)
    → All (λ i. i < n) (indices (sort_shares xs))
unfolding sort_shares
sort_shares-All n [] h = tt
sort_shares-All n (x ∷ xs) h = insert_share-All n x (sort_shares xs) h.0 (sort_shares-All n xs h.1)

number_from-All :
    (first n : ℕ) (fs : List Fraction)
    → first + length fs ≤ n
    → All (λ i. i < n) (indices (number_from first fs))
number_from-All first n [] h = tt
number_from-All first n (f ∷ fs) h = (omega arith, number_from-All (first + 1) n fs (omega arith))

length-number_from : (first : ℕ) (fs : List Fraction) → length (number_from first fs) ≡ length fs
length-number_from first [] = refl
length-number_from first (f ∷ fs) = omega (arith, length-number_from (first + 1) fs)

take-All : (n k : ℕ) (is : List ℕ) → All (λ i. i < n) is → All (λ i. i < n) (take k is)
take-All n zero is h = tt
take-All n (suc k) [] h = tt
take-All n (suc k) (i ∷ is) h = (h.0, take-All n k is h.1)

length-take : (k : ℕ) (is : List ℕ) → k ≤ length is → length (take k is) ≡ k
length-take zero is h = refl
length-take (suc k) [] h = absurd (omega arith)
length-take (suc k) (i ∷ is) h = omega (arith, length-take k is (omega arith))

sum-replicate : (n : ℕ) → sum (replicate n 0) ≡ 0
sum-replicate zero = refl
sum-replicate (suc n) = omega (arith, sum-replicate n)

-- the order in which the spare grosze go out
abbrev pub order_of : List Fraction → List ℕ
order_of exact = indices (sort_shares (number_from 0 exact))

length-order_of : (exact : List Fraction) → length (order_of exact) ≡ length exact
length-order_of exact =
    length-map (λ (s : Share). s.0) (sort_shares (number_from 0 exact))
    ∙ (length-sort_shares (number_from 0 exact) ∙ length-number_from 0 exact)

sum-distribute :
    (total : ℕ) (exact : List Fraction)
    → sum (map floor exact) ≤ total
    → total ≤ sum (map floor exact) + length exact
    → sum (distribute total exact) ≡ total
unfolding distribute
sum-distribute total exact low high =
    let parts = map floor exact in
    let spare = total - sum parts in
    let count : length parts ≡ length exact = length-map floor exact in
    let in_range : All (λ i. i < length parts) (order_of exact) = rw count (
      sort_shares-All (length exact) (number_from 0 exact)
        (number_from-All 0 (length exact) exact (omega arith))) in
    let enough : spare ≤ length (order_of exact) = omega (arith, length-order_of exact) in
    omega (
      arith,
      sum-increment_each parts (take spare (order_of exact))
          (take-All (length parts) spare (order_of exact) in_range),
      length-take spare (order_of exact) enough,
    )

length-distribute :
    (total : ℕ) (exact : List Fraction) → length (distribute total exact) ≡ length exact
unfolding distribute
length-distribute total exact =
    length-increment_each (map floor exact) (take (total - sum (map floor exact)) (order_of exact))
    ∙ length-map floor exact

length-replicate : (n : ℕ) → length (replicate n (zero)) ≡ n
length-replicate zero = refl
length-replicate (suc n) = omega (arith, length-replicate n)

-- what a split promises: as many parts as weights, and no grosz lost or made
abbrev pub Splits : ℕ → List Fraction → Option (List ℕ) → Type 0
Splits total ws none = ⊥
Splits total ws (some parts) = (sum parts ≡ total) × (length parts ≡ length ws)

-- Weights whose sum is above zero split any amount: the call returns, with one part for each weight,
-- and the parts add up to the amount exactly.
pub largest_remainder-Splits :
    (total : ℕ) (ws : List Fraction)
    → All IsFraction ws
    → 0 < (total_of ws).num
    → Splits total ws (largest_remainder total ws)
unfolding largest_remainder
largest_remainder-Splits total ws h pos = elim (Bool-cases (total == 0)) [
  | inl e ↦
      rw (e, Splits)
        (omega (arith, sum-replicate (length ws), ==→eq total 0 e), length-replicate (length ws))
  | inr e ↦
      rw (e, ==-ne (total_of ws).num 0 (omega arith), Splits)
        (
          sum-distribute total (exact_shares total ws) (floors-le-total total ws h pos) (
              omega (
                arith,
                total-le-floors total ws h pos,
                length-map (λ w. scale total w (total_of ws)) ws,
              )),
          length-distribute total (exact_shares total ws)
              ∙ length-map (λ w. scale total w (total_of ws)) ws,
        )
]
