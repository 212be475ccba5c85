-- ===== src/Shipping/Cod/Allocation/Sound.antt =====
-- `cod_allocation` as a whole: what it returns, and what it can raise.
use zdrovena_reconciliation.Prelude.{
  ℕ, ◌+◌, ◌-◌, ◌≤◌, ◌<◌, ◌≡◌, refl, ◌∙◌, String, Option, none, some, List, [], ◌∷◌, length, sum,
  arith, All, inl, inr, Bool-cases, Option-cases, ltb, ◌==◌,
}
use zdrovena_reconciliation.Prelude.Result.{Result, ok, err}
use zdrovena_reconciliation.Shipping.Parcels.{PhysicalParcel, BreakdownRow}
use zdrovena_reconciliation.Shipping.Planning.{ProductNames, physical_parcels, or_text}
use zdrovena_reconciliation.Shipping.Planning.Physical.{length-physical_parcels}
use zdrovena_reconciliation.Shipping.Cod.Fractions.{Fraction, total_of, IsFraction}
use zdrovena_reconciliation.Shipping.Cod.Remainder.{largest_remainder}
use zdrovena_reconciliation.Shipping.Cod.Remainder.Exact.{Splits, largest_remainder-Splits}
use zdrovena_reconciliation.Shipping.Cod.Money.{
  Decimal, CodError, cod_amount, shipping_price, grosze,
}
use zdrovena_reconciliation.Shipping.Cod.Allocation.{
  Basis, CodDraft, CodAllocation, text_of, ones, zip_add, first_empty, or_division_error,
  parcel_weights, checked, split_parts, allocate, collect, cod_allocation,
}
use zdrovena_reconciliation.Shipping.Cod.Allocation.Weights.{
  Ensures, Ensures-bind, Any, grosze-Ensures, IsWeighed, parcel_weights-Ensures, ones-IsFraction,
  length-ones, total_of-ones,
}

-- parts for each of `n` parcels that add up to `total`
abbrev IsSplit : ℕ → ℕ → List ℕ → Type 0
IsSplit total n parts = (sum parts ≡ total) × (length parts ≡ n)

largest_remainder-Ensures :
    (total n : ℕ) (ws : List Fraction)
    → All IsFraction ws
    → 0 < (total_of ws).num
    → length ws ≡ n
    → Ensures (IsSplit total n) (or_division_error (largest_remainder total ws))
largest_remainder-Ensures total n ws h pos count =
    go (largest_remainder total ws) (largest_remainder-Splits total ws h pos)
  where
    go : (r : Option (List ℕ)) → Splits total ws r → Ensures (IsSplit total n) (or_division_error r)
    go none s = absurd s
    go (some parts) s = (s.0, s.1 ∙ count)

zip_add-Ensures :
    (a b n : ℕ) (xs ys : List ℕ)
    → IsSplit a n xs
    → IsSplit b n ys
    → Ensures (IsSplit (a + b) n) (zip_add xs ys)
unfolding zip_add
zip_add-Ensures a b n [] [] x y = omega arith
zip_add-Ensures a b n [] (y ∷ ys) p q = absurd (omega arith)
zip_add-Ensures a b n (x ∷ xs) [] p q = absurd (omega arith)
zip_add-Ensures a b n (x ∷ xs) (y ∷ ys) p q =
    Ensures-bind (IsSplit (sum xs + sum ys) (length xs)) (IsSplit (a + b) n) (zip_add xs ys) _
      (zip_add-Ensures (sum xs) (sum ys) (length xs) xs ys (refl, refl) (refl, omega arith))
      λ rest r. omega arith

abbrev IsPositive : List ℕ → Type 0
IsPositive parts = All (λ p. 0 < p) parts

first_empty-none : (first : ℕ) (parts : List ℕ) → first_empty first parts ≡ none → IsPositive parts
unfolding first_empty
first_empty-none first [] h = tt
first_empty-none first (p ∷ ps) h = elim (Bool-cases (p == 0)) [
  | inl e ↦ ground arith
  | inr e ↦ (ground arith, first_empty-none (first + 1) ps (rw e at h))
]

Ensures-mono :
    {A : Type 0} {P Q : A → Type 0}
    → ((a : A) → P a → Q a)
    → (m : Result CodError A) → Ensures P m
    → Ensures Q m
Ensures-mono f (ok a) h = f a h
Ensures-mono f (err e) h = h

-- a call that can only refuse, with the equation of its value
Ensures-self : (m : Result CodError ℕ) → Ensures Any m → Ensures (λ a. m ≡ ok a) m
Ensures-self (ok a) h = refl
Ensures-self (err e) h = h

-- what an allocation promises
pub record IsAllocation (total n : ℕ) (a : CodAllocation) : Type 0 where
  pub exact : sum a.amounts ≡ total
  pub positive : All (λ p. 0 < p) a.amounts
  pub aligned : length a.amounts ≡ n

checked-Ensures :
    (total n : ℕ) (basis : Basis) (parts : List ℕ)
    → IsSplit total n parts
    → Ensures (IsAllocation total n) (checked total basis parts)
unfolding checked
checked-Ensures total n basis parts (s, l) = elim (Bool-cases (sum parts == total)) [
  | inr e ↦ absurd (ground arith)
  | inl e ↦ elim (Option-cases (first_empty 1 parts)) [
    | inl f ↦
        rw (e, checked)
          (rw (f, checked)
            (record { exact = s; positive = first_empty-none 1 parts f; aligned = l }))
    | inr (i, f) ↦ rw (e, checked) (rw (f, checked) tt)
  ]
]

split_parts-Ensures :
    (total shipping : ℕ) (parcels : List PhysicalParcel) (weighed : List Fraction × Basis)
    → 0 < length parcels
    → shipping ≤ total
    → IsWeighed (length parcels) weighed
    → Ensures (IsAllocation total (length parcels)) (split_parts total shipping parcels weighed)
unfolding split_parts
split_parts-Ensures total shipping parcels (ws, basis) some_parcel enough (f, l, p) =
    let n = length parcels in
    Ensures-bind (IsSplit shipping n) (IsAllocation total n) _ _
      (largest_remainder-Ensures shipping n (ones n) (ones-IsFraction n)
        (total_of-ones n some_parcel) (length-ones n))
      λ xs x.
        Ensures-bind (IsSplit (total - shipping) n) (IsAllocation total n) _ _
          (largest_remainder-Ensures (total - shipping) n ws f p l)
          λ ys y.
            Ensures-bind (IsSplit (shipping + (total - shipping)) n) (IsAllocation total n) _ _
              (zip_add-Ensures shipping (total - shipping) n xs ys x y)
              λ parts q. checked-Ensures total n basis parts (omega arith, q.1)

some_parcel : (rows : List BreakdownRow) → 0 < length (physical_parcels rows)
some_parcel rows = omega (arith, length-physical_parcels rows)

module _ (names : ProductNames) (decimal : String → Option Decimal) (draft : CodDraft) where
  -- the draft's collection amount reads as `total` grosze
  abbrev pub Collects : ℕ → Type 0
  Collects total =
      (amount : Option String) × (draft.cod ≡ some amount)
      × (grosze decimal (text_of amount) cod_amount ≡ ok total)

  -- an allocation of the amount that the customer owes, one part for each parcel of the draft
  abbrev pub Allocates : CodAllocation → Type 0
  Allocates a =
      (total : ℕ) × Collects total
      × IsAllocation total (length (physical_parcels draft.packages_breakdown)) a

  allocate-Ensures :
      (total shipping : ℕ)
      → Collects total
      → Ensures Allocates (allocate names decimal draft total shipping)
  unfolding allocate
  allocate-Ensures total shipping c = elim (Bool-cases (ltb total shipping)) [
    | inl e ↦ rw (e, allocate) tt
    | inr e ↦
        let parcels = physical_parcels draft.packages_breakdown in
        rw (e, allocate)
          (Ensures-bind (IsWeighed (length parcels)) Allocates
            (parcel_weights names decimal draft.order_items parcels) _
            (parcel_weights-Ensures names decimal draft.order_items parcels
              (some_parcel draft.packages_breakdown))
            λ weighed w.
              Ensures-mono (λ a h. (total, c, h)) (split_parts total shipping parcels weighed)
                (split_parts-Ensures total shipping parcels weighed
                  (some_parcel draft.packages_breakdown) (ground arith) w))
  ]

  collect-Ensures :
      (cod : Option (Option String))
      → draft.cod ≡ cod
      → Ensures Allocates (collect names decimal draft cod)
  unfolding collect
  collect-Ensures none e = tt
  collect-Ensures (some amount) e =
      let read = grosze decimal (text_of amount) cod_amount in
      let fare = grosze decimal (or_text draft.shipping "0") shipping_price in
      Ensures-bind (λ total. read ≡ ok total) Allocates read _
        (Ensures-self read (grosze-Ensures decimal (text_of amount) cod_amount))
        λ total t.
          Ensures-bind Any Allocates fare _
            (grosze-Ensures decimal (or_text draft.shipping "0") shipping_price)
            λ shipping _. allocate-Ensures total shipping (amount, e, t)

  -- Splitting a draft's collection amount ends in one of two ways. It returns one amount for each
  -- physical parcel, none of them zero, that add up to the draft's amount to the grosz. Or it
  -- refuses: there is no amount, a text is no amount of whole grosze, the shipping price exceeds the
  -- amount, or a parcel would collect nothing; or a text has more than 28 digits, where the source raises
  -- an uncaught `decimal.InvalidOperation`. The guards on its own arithmetic never fire: no
  -- division by zero, no missing key, no parts that do not add up.
  pub cod_allocation-Ensures : Ensures Allocates (cod_allocation names decimal draft)
  unfolding cod_allocation
  cod_allocation-Ensures = collect-Ensures draft.cod refl
