-- ===== src/Shipping/Cod/Allocation/Weights.antt =====
-- `_parcel_weights` gives one weight for each parcel, and their sum is above zero.
use native.Mathlib.Nat.{mul-pos}
use zdrovena_reconciliation.Prelude.{
  ℕ, zero, suc, ◌+◌, ◌≤◌, ◌<◌, ◌≡◌, refl, ◌∙◌, ap, String, Bool, true, false, ◌||◌, Option, none,
  some, List, [], ◌∷◌, map, length, get_elem?, arith, All, inl, inr, Bool-cases, Option-cases, ltb,
  ltb→lt, ◌==◌,
}
use zdrovena_reconciliation.Prelude.Text.{strip}
use zdrovena_reconciliation.Prelude.Result.{Result, ok, err, ◌>>=◌}
use zdrovena_reconciliation.Shipping.Parcels.{PhysicalParcel}
use zdrovena_reconciliation.Shipping.Planning.{
  ProductNames, OrderItem, product_name, half_packs_for_item,
}
use zdrovena_reconciliation.Shipping.Cod.Fractions.{
  Fraction, total_of, IsFraction, total_of-IsFraction,
}
use zdrovena_reconciliation.Shipping.Cod.Money.{
  Decimal, Field, CodError, no_cod, invalid, sub_grosz, shipping_exceeds, empty_parcel,
  beyond_precision, grosze, grosze_of, line_total,
}
use zdrovena_reconciliation.Shipping.Cod.Assign.{Line, Counts, packable_lines, assign_half_packs}
use zdrovena_reconciliation.Shipping.Cod.Assign.Conserves.{length-assign_half_packs}
use zdrovena_reconciliation.Shipping.Cod.Assign.Keys.{Keys, assign_half_packs-Keys}
use zdrovena_reconciliation.Shipping.Cod.Allocation.{
  Basis, find, with_value, totals_of, ones, share_weight, share_weights, weights_or_equal,
  line_values, weights_of, parcel_weights,
}

-- The errors that come from the draft's own texts and amounts; the others are failures of the code's
-- bookkeeping. All but one are `CodAllocationError`s: `beyond_precision` is the
-- `decimal.InvalidOperation` that `_grosze` does not catch (cod.py:63), on more than 28 digits.
abbrev pub IsRefusal : CodError → Type 0
IsRefusal no_cod = Unit
IsRefusal (invalid f) = Unit
IsRefusal (sub_grosz f) = Unit
IsRefusal (shipping_exceeds s t) = Unit
IsRefusal (empty_parcel p n) = Unit
IsRefusal (beyond_precision f) = Unit
IsRefusal _ = ⊥

-- A call returns a value with the property, or refuses.
abbrev pub Ensures : {A : Type 0} → (A → Type 0) → Result CodError A → Type 0
Ensures P (ok a) = P a
Ensures P (err e) = IsRefusal e

pub Ensures-bind :
    {A B : Type 0} (P : A → Type 0) (Q : B → Type 0) (m : Result CodError A)
    (f : A → Result CodError B)
    → Ensures P m
    → ((a : A) → P a → Ensures Q (f a))
    → Ensures Q (m >>= f)
Ensures-bind P Q (ok a) f h k = k a h
Ensures-bind P Q (err e) f h k = h

-- nothing is said of the value
abbrev pub Any : {A : Type 0} → A → Type 0
Any a = Unit

grosze_of-Ensures : (d : Decimal) (field : Field) → Ensures Any (grosze_of d field)
unfolding grosze_of
grosze_of-Ensures Decimal.special field = tt
grosze_of-Ensures (Decimal.scaled n c e) field = ground arith
grosze_of-Ensures (Decimal.fractional n c e) field = ground arith

pub grosze-Ensures :
    (decimal : String → Option Decimal) (raw : String) (field : Field)
    → Ensures Any (grosze decimal raw field)
unfolding grosze
grosze-Ensures decimal raw field = elim (Option-cases (decimal (strip raw))) [
  | inl e ↦ rw (e, grosze) tt
  | inr (d, e) ↦ rw (e, grosze) (grosze_of-Ensures d field)
]

-- the keys of a dict, and whether one is there
abbrev keys : Counts → List ℕ
keys = map (λ e. e.0)

abbrev has : ℕ → List ℕ → Bool
has k [] = false
has k (j ∷ js) = (k == j) || has k js

find-Ensures :
    (P : ℕ → Type 0) (k : ℕ) (counts : Counts)
    → All (λ e. P e.1) counts
    → has k (keys counts) ≡ true
    → Ensures P (find k counts)
unfolding find
find-Ensures P k [] p h = cc
find-Ensures P k ((j, n) ∷ counts) p h = elim (Bool-cases (k == j)) [
  | inl e ↦ rw e p.0
  | inr e ↦ rw e (find-Ensures P k counts p.1 (rw e at h))
]

All-Any : (counts : Counts) → All (λ e. Any e.1) counts
All-Any [] = tt
All-Any (e ∷ counts) = (tt, All-Any counts)

share_weight-Ensures :
    (values totals share : Counts)
    → All (λ e. 0 < e.1) totals
    → keys values ≡ keys totals
    → Keys (λ k. has k (keys totals) ≡ true) share
    → Ensures IsFraction (share_weight values totals share)
unfolding share_weight
share_weight-Ensures values totals [] pos same h = omega arith
share_weight-Ensures values totals ((k, n) ∷ share) pos same h =
    Ensures-bind Any IsFraction (find k values) _
      (find-Ensures Any k values (All-Any values) (rw same h.0))
      λ v _.
        Ensures-bind (λ t. 0 < t) IsFraction (find k totals) _
          (find-Ensures (λ t. 0 < t) k totals pos h.0)
          λ t p.
            Ensures-bind IsFraction IsFraction (share_weight values totals share) _
              (share_weight-Ensures values totals share pos same h.1) λ w q. mul-pos p q

abbrev IsWeights : ℕ → List Fraction → Type 0
IsWeights n ws = All IsFraction ws × (length ws ≡ n)

share_weights-Ensures :
    (values totals : Counts) (shares : List Counts)
    → All (λ e. 0 < e.1) totals
    → keys values ≡ keys totals
    → All (Keys (λ k. has k (keys totals) ≡ true)) shares
    → Ensures (IsWeights (length shares)) (share_weights values totals shares)
unfolding share_weights
share_weights-Ensures values totals [] pos same h = (tt, refl)
share_weights-Ensures values totals (share ∷ shares) pos same h =
    Ensures-bind IsFraction (IsWeights (suc (length shares))) (share_weight values totals share) _
      (share_weight-Ensures values totals share pos same h.0)
      λ w p.
        Ensures-bind (IsWeights (length shares)) (IsWeights (suc (length shares)))
          (share_weights values totals shares) _
          (share_weights-Ensures values totals shares pos same h.1) λ ws q. ((p, q.0), ap suc q.1)

-- what is known of the packed lines: they stand in the order's items, and each fills some box
IsPacked : ℕ → List Line → Type 0
IsPacked n lines = All (λ line. (line.index < n) × (0 < line.half_packs)) lines

packable_lines-IsPacked :
    (names : ProductNames) (index n : ℕ) (items : List OrderItem)
    → index + length items ≤ n
    → IsPacked n (packable_lines names index items)
unfolding packable_lines IsPacked
packable_lines-IsPacked names index n [] h = tt
packable_lines-IsPacked names index n (item ∷ items) h =
    let rest = packable_lines-IsPacked names (index + 1) n items (omega arith) in
    elim (Bool-cases (names.skips (product_name item))) [
      | inl e ↦ rw e rest
      | inr e ↦ elim (Bool-cases (ltb 0 (half_packs_for_item names item))) [
        | inl l ↦ rw (e, l) ((omega arith, ltb→lt 0 (half_packs_for_item names item) l), rest)
        | inr l ↦ rw (e, l) rest
      ]
    ]

get_elem?-lt-length :
    (items : List OrderItem) (i : ℕ)
    → i < length items
    → (item : OrderItem) × (get_elem? items i ≡ some item)
get_elem?-lt-length [] i h = absurd (omega arith)
get_elem?-lt-length (item ∷ items) zero h = (item, refl)
get_elem?-lt-length (item ∷ items) (suc i) h = get_elem?-lt-length items i (omega arith)

-- the dict of values has the lines as its keys
abbrev IsValued : List Line → Option Counts → Type 0
IsValued lines none = Unit
IsValued lines (some values) = keys values ≡ keys (totals_of lines)

with_value-IsValued :
    (line : Line) (lines : List Line) (v : ℕ) (rest : Option Counts)
    → IsValued lines rest
    → IsValued (line ∷ lines) (with_value line.index v rest)
with_value-IsValued line lines v none h = tt
with_value-IsValued line lines v (some values) h = ap (λ (ks : List ℕ). line.index ∷ ks) h

line_values-Ensures :
    (names : ProductNames) (decimal : String → Option Decimal) (items : List OrderItem)
    (lines : List Line)
    → IsPacked (length items) lines
    → Ensures (IsValued lines) (line_values names decimal items lines)
unfolding line_values IsPacked
line_values-Ensures names decimal items [] h = refl
line_values-Ensures names decimal items (line ∷ lines) h =
    let (item, found) = get_elem?-lt-length items line.index h.0.0 in
    elim (Option-cases item.line_total) [
      | inl e ↦ rw (found, line_values) (rw (e, line_values) tt)
      | inr (raw, e) ↦
          rw (found, line_values)
            (rw (e, line_values)
              (Ensures-bind Any (IsValued (line ∷ lines))
                (grosze decimal raw (line_total line.index)) _
                (grosze-Ensures decimal raw (line_total line.index))
                λ v _.
                  Ensures-bind (IsValued lines) (IsValued (line ∷ lines))
                    (line_values names decimal items lines) _
                    (line_values-Ensures names decimal items lines h.1)
                    λ rest q. with_value-IsValued line lines v rest q))
    ]

has_weaken :
    (i : ℕ) (ks : List ℕ) (lines : List Line)
    → All (λ line. has line.index ks ≡ true) lines
    → All (λ line. has line.index (i ∷ ks) ≡ true) lines
has_weaken i ks [] h = tt
has_weaken i ks (line ∷ lines) h = (ground arith, has_weaken i ks lines h.1)

lines_have_keys :
    (lines : List Line) → All (λ line. has line.index (keys (totals_of lines)) ≡ true) lines
lines_have_keys [] = tt
lines_have_keys (line ∷ lines) =
    (ground arith, has_weaken line.index (keys (totals_of lines)) lines (lines_have_keys lines))

totals_positive :
    (n : ℕ) (lines : List Line) → IsPacked n lines → All (λ e. 0 < e.1) (totals_of lines)
unfolding IsPacked
totals_positive n [] h = tt
totals_positive n (line ∷ lines) h = (h.0.1, totals_positive n lines h.1)

-- one weight for each of `n` parcels, with a sum above zero
abbrev pub IsWeighed : ℕ → List Fraction × Basis → Type 0
IsWeighed n (ws, basis) = All IsFraction ws × (length ws ≡ n) × (0 < (total_of ws).num)

pub ones-IsFraction : (n : ℕ) → All IsFraction (ones n)
ones-IsFraction zero = tt
ones-IsFraction (suc n) = (omega arith, ones-IsFraction n)

pub length-ones : (n : ℕ) → length (ones n) ≡ n
length-ones zero = refl
length-ones (suc n) = omega (arith, length-ones n)

pub total_of-ones : (n : ℕ) → 0 < n → 0 < (total_of (ones n)).num
unfolding total_of
total_of-ones zero h = h
total_of-ones (suc n) h = omega (arith, total_of-IsFraction (ones n) (ones-IsFraction n))

ones-IsWeighed : (n : ℕ) (basis : Basis) → 0 < n → IsWeighed n (ones n, basis)
ones-IsWeighed n basis h = (ones-IsFraction n, length-ones n, total_of-ones n h)

weights_or_equal-IsWeighed :
    (parcels : List PhysicalParcel) (ws : List Fraction)
    → 0 < length parcels
    → IsWeights (length parcels) ws
    → IsWeighed (length parcels) (weights_or_equal parcels ws)
unfolding weights_or_equal
weights_or_equal-IsWeighed parcels ws h (q, n) = elim (Bool-cases ((total_of ws).num == 0)) [
  | inl e ↦ rw e (ones-IsWeighed (length parcels) Basis.equal h)
  | inr e ↦ rw e (q, n, ground arith)
]

weights_of-Ensures :
    (names : ProductNames) (decimal : String → Option Decimal) (n : ℕ) (lines : List Line)
    (parcels : List PhysicalParcel) (values : Option Counts)
    → 0 < length parcels
    → IsPacked n lines
    → IsValued lines values
    → Ensures (IsWeighed (length parcels)) (weights_of names decimal lines parcels values)
unfolding weights_of
weights_of-Ensures names decimal n lines parcels none h packed v =
    ones-IsWeighed (length parcels) Basis.equal h
weights_of-Ensures names decimal n lines parcels (some values) h packed v =
    let totals = totals_of lines in
    let shares = assign_half_packs lines parcels in
    let known =
      assign_half_packs-Keys (λ k. has k (keys totals) ≡ true) lines parcels
        (lines_have_keys lines) in
    Ensures-bind (IsWeights (length shares)) (IsWeighed (length parcels))
      (share_weights values totals shares) _
      (share_weights-Ensures values totals shares (totals_positive n lines packed) v known)
      λ ws q.
        weights_or_equal-IsWeighed parcels ws h (q.0, q.1 ∙ length-assign_half_packs lines parcels)

-- Whatever the draft holds, weighing the parcels either refuses a money text (with the uncaught
-- `decimal.InvalidOperation` where it has more than 28 digits), or gives one weight for each parcel with a
-- sum above zero, so nothing is divided by zero later.
pub parcel_weights-Ensures :
    (names : ProductNames) (decimal : String → Option Decimal) (items : List OrderItem)
    (parcels : List PhysicalParcel)
    → 0 < length parcels
    → Ensures (IsWeighed (length parcels)) (parcel_weights names decimal items parcels)
unfolding parcel_weights
parcel_weights-Ensures names decimal items parcels h =
    let lines = packable_lines names 0 items in
    let packed = packable_lines-IsPacked names 0 (length items) items (omega arith) in
    Ensures-bind (IsValued lines) (IsWeighed (length parcels))
      (line_values names decimal items lines) _
      (line_values-Ensures names decimal items lines packed)
      λ values v. weights_of-Ensures names decimal (length items) lines parcels values h packed v
