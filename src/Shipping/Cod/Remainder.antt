-- ===== src/Shipping/Cod/Remainder.antt =====
-- `_largest_remainder` of cod.py: whole grosze split by weight.
pub mod Exact
pub mod Fair
use zdrovena_reconciliation.Prelude.{
  ℕ, zero, suc, ◌+◌, ◌-◌, ◌*◌, ◌/◌, ◌%◌, Bool, true, false, ◌&&◌, ◌||◌, Option, none, some, List,
  [], ◌∷◌, map, sum, length, take, replicate, ltb, ◌==◌, if◌then◌else◌,
}
use zdrovena_reconciliation.Shipping.Cod.Fractions.{Fraction, plus, scale, floor, excess, total_of}

-- an index with the exact share that it stands for
abbrev pub Share : Type 0
Share = ℕ × Fraction

-- `enumerate`, from `first`
abbrev pub number_from : ℕ → List Fraction → List Share
number_from first [] = []
number_from first (f ∷ fs) = (first, f) ∷ number_from (first + 1) fs

-- The sort key `(parts[index] - exact[index], index)`, ascending: the larger excess goes first, and
-- of equal ones the earlier index.
unfoldable pub before : Share → Share → Bool
before (i, f) (j, g) =
    ltb (excess g * f.den) (excess f * g.den) || ((excess g * f.den == excess f * g.den) && ltb i j)

unfoldable pub insert_share : Share → List Share → List Share
insert_share x [] = x ∷ []
insert_share x (y ∷ ys) = if before y x then y ∷ insert_share x ys else x ∷ y ∷ ys

-- `sorted(range(count), key=...)`
unfoldable pub sort_shares : List Share → List Share
unfolding insert_share before
sort_shares [] = []
sort_shares (x ∷ xs) = insert_share x (sort_shares xs)

abbrev pub indices : List Share → List ℕ
indices = map (λ s. s.0)

-- `parts[index] += 1`
unfoldable pub increment : List ℕ → ℕ → List ℕ
increment [] i = []
increment (p ∷ ps) zero = (p + 1) ∷ ps
increment (p ∷ ps) (suc i) = p ∷ increment ps i

unfoldable pub increment_each : List ℕ → List ℕ → List ℕ
unfolding increment
increment_each parts [] = parts
increment_each parts (i ∷ order) = increment_each (increment parts i) order

-- the shares of the total, in exact arithmetic
abbrev pub exact_shares : ℕ → List Fraction → List Fraction
exact_shares total weights = map (λ w. scale total w (total_of weights)) weights

unfoldable pub distribute : ℕ → List Fraction → List ℕ
unfolding sort_shares increment_each
distribute total exact =
    let parts = map floor exact in
    let spare = total - sum parts in
    increment_each parts (take spare (indices (sort_shares (number_from 0 exact))))

-- A division by a sum of weights that is zero raises `ZeroDivisionError`, which is `none` here.
unfoldable pub largest_remainder : ℕ → List Fraction → Option (List ℕ)
unfolding distribute
largest_remainder total weights =
    if total == 0
    then some (replicate (length weights) 0)
    else if ((total_of weights).num == 0) && ltb 0 (length weights)
    then none
    else some (distribute total (exact_shares total weights))
