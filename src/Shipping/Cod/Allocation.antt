-- ===== src/Shipping/Cod/Allocation.antt =====
-- `_parcel_weights` and `cod_allocation` of cod.py.
pub mod Weights
pub mod Sound
use zdrovena_reconciliation.Prelude.{
  ℕ, zero, suc, ◌+◌, ◌-◌, ◌*◌, String, Bool, true, false, not, ◌&&◌, Option, none, some, List, [],
  ◌∷◌, map, length, replicate, sum, get_elem?, ltb, leb, ◌==◌, str_eq, if◌then◌else◌,
}
use zdrovena_reconciliation.Prelude.Result.{Result, ok, err, ◌>>=◌}
use zdrovena_reconciliation.Shipping.Parcels.{PhysicalParcel, BreakdownRow}
use zdrovena_reconciliation.Shipping.Planning.{ProductNames, OrderItem, or_text, physical_parcels}
use zdrovena_reconciliation.Shipping.Cod.Fractions.{Fraction, whole, plus, total_of}
use zdrovena_reconciliation.Shipping.Cod.Remainder.{largest_remainder}
use zdrovena_reconciliation.Shipping.Cod.Money.{
  Decimal, Field, cod_amount, shipping_price, line_total, CodError, no_cod, shipping_exceeds,
  split_mismatch, empty_parcel, zero_division, key_error, index_error, zip_mismatch, grosze,
}
use zdrovena_reconciliation.Shipping.Cod.Assign.{Line, Counts, packable_lines, assign_half_packs}

pub data Basis : Type 0 where
  value equal : Basis

-- The draft's keys that the split reads. `cod` is `none` where it is missing or empty, and its amount
-- is `none` where that key is missing.
pub record CodDraft : Type 0 where
  pub cod : Option (Option String)
  pub shipping : Option String
  pub order_items : List OrderItem
  pub packages_breakdown : List BreakdownRow

-- amounts in grosze; the source divides each by 100 into a `Decimal` of two digits
pub record CodAllocation : Type 0 where
  pub amounts : List ℕ
  pub basis : Basis

-- `str(raw)` of a value that may be missing
abbrev pub text_of : Option String → String
text_of none = "None"
text_of (some t) = t

-- `d[key]`
unfoldable pub find : ℕ → Counts → Result CodError ℕ
find k [] = err (key_error k)
find k ((j, n) ∷ counts) = if k == j then ok n else find k counts

abbrev pub with_value : ℕ → ℕ → Option Counts → Option Counts
with_value index v none = none
with_value index v (some values) = some ((index, v) ∷ values)

-- `totals`
abbrev pub totals_of : List Line → Counts
totals_of = map (λ line. (line.index, line.half_packs))

-- `[Fraction(1)] * n`
abbrev pub ones : ℕ → List Fraction
ones n = replicate n (whole 1)

-- `[a + b for a, b in zip(xs, ys, strict=True)]`
unfoldable pub zip_add : List ℕ → List ℕ → Result CodError (List ℕ)
zip_add [] [] = ok []
zip_add [] (y ∷ ys) = err zip_mismatch
zip_add (x ∷ xs) [] = err zip_mismatch
zip_add (x ∷ xs) (y ∷ ys) = do rest ← zip_add xs ys; ok ((x + y) ∷ rest)

-- the position of the first part that is zero, from `first` on
unfoldable pub first_empty : ℕ → List ℕ → Option ℕ
first_empty first [] = none
first_empty first (p ∷ ps) =
    let rest = first_empty (first + 1) ps in if p == 0 then some first else rest

abbrev pub or_division_error : Option (List ℕ) → Result CodError (List ℕ)
or_division_error none = err zero_division
or_division_error (some parts) = ok parts

-- `sum(Fraction(values[i] * taken, totals[i]) for i, taken in share.items())`
unfoldable pub share_weight : Counts → Counts → Counts → Result CodError Fraction
unfolding find
share_weight values totals [] = ok (whole 0)
share_weight values totals ((index, taken) ∷ share) = do
  v ← find index values
  t ← find index totals
  rest ← share_weight values totals share
  ok (plus (record { num = v * taken; den = t }) rest)

unfoldable pub share_weights : Counts → Counts → List Counts → Result CodError (List Fraction)
unfolding share_weight
share_weights values totals [] = ok []
share_weights values totals (share ∷ shares) = do
  w ← share_weight values totals share
  rest ← share_weights values totals shares
  ok (w ∷ rest)

unfoldable pub weights_or_equal : List PhysicalParcel → List Fraction → List Fraction × Basis
weights_or_equal parcels weights =
    if (total_of weights).num == 0 then (ones (length parcels), equal) else (weights, Basis.value)

-- the checks on the parts, at the end of `cod_allocation`
unfoldable pub checked : ℕ → Basis → List ℕ → Result CodError CodAllocation
unfolding first_empty
checked total basis parts =
    if sum parts == total
    then elim (first_empty 1 parts) [
      | some position ↦ err (empty_parcel position (length parts))
      | none ↦ ok (record { amounts = parts; basis = basis })
    ]
    else err (split_mismatch total (sum parts))

unfoldable pub split_parts :
    ℕ → ℕ → List PhysicalParcel → List Fraction × Basis → Result CodError CodAllocation
unfolding checked zip_add
split_parts total shipping parcels (weights, basis) = do
  shipping_parts ← or_division_error (largest_remainder shipping (ones (length parcels)))
  goods_parts ← or_division_error (largest_remainder (total - shipping) weights)
  parts ← zip_add shipping_parts goods_parts
  checked total basis parts

module _ (names : ProductNames) (decimal : String → Option Decimal) where
  -- the value of every line, or `none` once a line has none
  unfoldable pub line_values : List OrderItem → List Line → Result CodError (Option Counts)
  line_values items [] = ok (some [])
  line_values items (line ∷ lines) = elim (get_elem? items line.index) [
    | none ↦ err (index_error line.index)
    | some item ↦ elim item.line_total [
      | none ↦ ok none
      | some raw ↦ do
        v ← grosze decimal raw (line_total line.index)
        rest ← line_values items lines
        ok (with_value line.index v rest)
    ]
  ]

  weights_of :
      List Line → List PhysicalParcel → Option Counts → Result CodError (List Fraction × Basis)
  unfolding share_weights weights_or_equal
  weights_of lines parcels none = ok (ones (length parcels), equal)
  weights_of lines parcels (some values) = do
    weights ← share_weights values (totals_of lines) (assign_half_packs lines parcels)
    ok (weights_or_equal parcels weights)

  unfoldable pub parcel_weights :
      List OrderItem → List PhysicalParcel → Result CodError (List Fraction × Basis)
  unfolding line_values weights_of
  parcel_weights items parcels =
      let lines = packable_lines names 0 items in
      do values ← line_values items lines; weights_of lines parcels values

  allocate : CodDraft → ℕ → ℕ → Result CodError CodAllocation
  unfolding parcel_weights split_parts
  allocate draft total shipping =
      let parcels = physical_parcels draft.packages_breakdown in
      elim (ltb total shipping) [
        | true ↦ err (shipping_exceeds shipping total)
        | false ↦ (do
          weighed ← parcel_weights draft.order_items parcels
          split_parts total shipping parcels weighed)
      ]

  -- by whether `draft.get("cod")` holds anything
  collect : CodDraft → Option (Option String) → Result CodError CodAllocation
  unfolding allocate
  collect draft none = err no_cod
  collect draft (some amount) = do
    total ← grosze decimal (text_of amount) cod_amount
    shipping ← grosze decimal (or_text draft.shipping "0") shipping_price
    allocate draft total shipping

  unfoldable pub cod_allocation : CodDraft → Result CodError CodAllocation
  unfolding collect
  cod_allocation draft = collect draft draft.cod
