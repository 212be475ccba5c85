-- ===== src/Shipping/Cod/Remainder/Fair.antt =====
-- Each part that `_largest_remainder` returns is the exact share rounded down or up.
use zdrovena_reconciliation.Prelude.{
  ℕ, zero, suc, ◌+◌, ◌-◌, ◌≤◌, ◌<◌, ◌≡◌, inl, inr, refl, List, [], ◌∷◌, map, arith, sum, take,
  Bool-cases, ◌==◌, if◌then◌else◌,
}
use zdrovena_reconciliation.Shipping.Cod.Fractions.{Fraction, floor}
use zdrovena_reconciliation.Shipping.Cod.Remainder.{
  Share, number_from, before, insert_share, sort_shares, indices, increment, increment_each,
  distribute,
}

-- how often a part is raised
count : ℕ → List ℕ → ℕ
count i [] = 0
count i (j ∷ js) = (if i == j then 1 else 0) + count i js

abbrev pub part_or_zero : List ℕ → ℕ → ℕ
part_or_zero [] i = 0
part_or_zero (p ∷ ps) zero = p
part_or_zero (p ∷ ps) (suc i) = part_or_zero ps i

part-increment :
    (ps : List ℕ) (i j : ℕ)
    → (part_or_zero ps i ≤ part_or_zero (increment ps j) i)
      × (part_or_zero (increment ps j) i ≤ part_or_zero ps i + (if i == j then 1 else 0))
unfolding increment
part-increment [] i j = omega arith
part-increment (p ∷ ps) zero zero = omega arith
part-increment (p ∷ ps) zero (suc j) = ground arith
part-increment (p ∷ ps) (suc i) zero = ground arith
part-increment (p ∷ ps) (suc i) (suc j) = ground (arith, part-increment ps i j)

part-increment_each :
    (ps : List ℕ) (i : ℕ) (is : List ℕ)
    → (part_or_zero ps i ≤ part_or_zero (increment_each ps is) i)
      × (part_or_zero (increment_each ps is) i ≤ part_or_zero ps i + count i is)
unfolding increment_each count
part-increment_each ps i [] = omega arith
part-increment_each ps i (j ∷ js) =
    omega (arith, part-increment ps i j, part-increment_each (increment ps j) i js)

count-insert_share :
    (i : ℕ) (x : Share) (ys : List Share)
    → count i (indices (insert_share x ys)) ≡ count i (x.0 ∷ indices ys)
unfolding count insert_share
count-insert_share i x [] = refl
count-insert_share i x (y ∷ ys) = elim (Bool-cases (before y x)) [
  | inl e ↦ rw e (omega (arith, count-insert_share i x ys))
  | inr e ↦ rw e refl
]

count-sort_shares :
    (i : ℕ) (xs : List Share) → count i (indices (sort_shares xs)) ≡ count i (indices xs)
unfolding count sort_shares
count-sort_shares i [] = refl
count-sort_shares i (x ∷ xs) =
    omega (arith, count-insert_share i x (sort_shares xs), count-sort_shares i xs)

count-number_from :
    (i first : ℕ) (fs : List Fraction)
    → (count i (indices (number_from first fs)) ≤ 1)
      × (i < first → count i (indices (number_from first fs)) ≡ 0)
unfolding count
count-number_from i first [] = omega arith
count-number_from i first (f ∷ fs) = ground (arith, count-number_from i (first + 1) fs)

count-take : (i k : ℕ) (is : List ℕ) → count i (take k is) ≤ count i is
unfolding count
count-take i zero is = omega arith
count-take i (suc k) [] = omega arith
count-take i (suc k) (j ∷ js) = omega (arith, count-take i k js)

-- No part is less than its exact share rounded down, and none is more than one grosz above that.
pub distribute_quota :
    (total : ℕ) (exact : List Fraction) (i : ℕ)
    → (part_or_zero (map floor exact) i ≤ part_or_zero (distribute total exact) i)
      × (part_or_zero (distribute total exact) i ≤ part_or_zero (map floor exact) i + 1)
unfolding distribute
distribute_quota total exact i =
    let order = indices (sort_shares (number_from 0 exact)) in
    let spare = total - sum (map floor exact) in
    omega (
      arith,
      part-increment_each (map floor exact) i (take spare order),
      count-take i spare order,
      count-sort_shares i (number_from 0 exact),
      count-number_from i 0 exact,
    )
