-- ===== src/Tests/Cod.antt =====
-- The split of a collection amount: runs and instances.
use zdrovena_reconciliation.Prelude.{
  ◌≤◌, ◌+◌, ◌≡◌, refl, String, true, false, Option, none, some, List, [], ◌∷◌, map, str_eq,
  if◌then◌else◌, arith,
}
use zdrovena_reconciliation.Prelude.Text.{strip}
use zdrovena_reconciliation.Prelude.Result.{ok}
use zdrovena_reconciliation.Shipping.Parcels.{
  three_pak, one_pak, half_pak, glass_box, PhysicalParcel, BreakdownRow,
}
use zdrovena_reconciliation.Shipping.Planning.{half_packs_for_item, product_name, physical_parcels}
use zdrovena_reconciliation.Shipping.Cod.Fractions.{Fraction, total_of, floor}
use zdrovena_reconciliation.Shipping.Cod.Remainder.{largest_remainder, distribute, exact_shares}
use zdrovena_reconciliation.Shipping.Cod.Remainder.Exact.{Splits, largest_remainder-Splits}
use zdrovena_reconciliation.Shipping.Cod.Remainder.Fair.{part_or_zero, distribute_quota}
use zdrovena_reconciliation.Shipping.Cod.Money.{Decimal, fractional, grosze}
use zdrovena_reconciliation.Shipping.Cod.Assign.{Line, packable_lines, assign_half_packs}
use zdrovena_reconciliation.Shipping.Cod.Assign.Materials.{AreApart, assign_half_packs-AreApart}
use zdrovena_reconciliation.Shipping.Cod.Assign.Conserves.{
  amount_in_all, amount_of, assign_half_packs-conserves,
}
use zdrovena_reconciliation.Shipping.Cod.Allocation.{
  Basis, CodDraft, cod_allocation, parcel_weights,
}
use zdrovena_reconciliation.Shipping.Cod.Allocation.Weights.{
  Ensures, IsWeighed, parcel_weights-Ensures,
}
use zdrovena_reconciliation.Shipping.Cod.Allocation.Sound.{Allocates, cod_allocation-Ensures}
use zdrovena_reconciliation.Tests.Planning.{names, items}

-- a reader of the few money texts below
abbrev pub decimal : String → Option Decimal
decimal s =
    if str_eq s "130.01"
    then some (fractional false 13001 2)
    else if str_eq s "20.00"
    then some (fractional false 2000 2)
    else if str_eq s "80.00"
    then some (fractional false 8000 2)
    else if str_eq s "30.01"
    then some (fractional false 3001 2)
    else none

abbrev rows : List BreakdownRow
rows =
    (record { row_type = some three_pak; qty = some 1 })
    ∷ (record { row_type = some one_pak; qty = some 1 })
    ∷ (record { row_type = some glass_box; qty = some 1 })
    ∷ []

abbrev pub draft : CodDraft
draft = record {
  cod = some (some "130.01");
  shipping = some "20.00";
  order_items = items;
  packages_breakdown = rows;
}

-- 20.00 of shipping in three, and 110.01 by value: 80.00 of plastic over 6 and 2 half-packs, 30.01 of
-- glass
cod_allocation_run :
    cod_allocation names decimal draft
    ≡ ok (record { amounts = 6667 ∷ 2667 ∷ 3667 ∷ []; basis = Basis.value })
unfolding cod_allocation grosze largest_remainder total_of packable_lines half_packs_for_item
    product_name strip assign_half_packs physical_parcels
cod_allocation_run = refl

abbrev weights : List Fraction
weights =
    (record { num = 1; den = 3 })
    ∷ (record { num = 1; den = 3 })
    ∷ (record { num = 1; den = 3 })
    ∷ []

largest_remainder-Splits_example : Splits 100 weights (largest_remainder 100 weights)
unfolding total_of
largest_remainder-Splits_example = largest_remainder-Splits 100 weights (omega arith) (omega arith)

distribute_quota_example :
    (part_or_zero (map floor (exact_shares 100 weights)) 0
      ≤ part_or_zero (distribute 100 (exact_shares 100 weights)) 0)
    × (part_or_zero (distribute 100 (exact_shares 100 weights)) 0
        ≤ part_or_zero (map floor (exact_shares 100 weights)) 0 + 1)
distribute_quota_example = distribute_quota 100 (exact_shares 100 weights) 0

abbrev parcels : List PhysicalParcel
parcels =
    (record { package_type = one_pak; position = 1; count_for_type = 2 })
    ∷ (record { package_type = one_pak; position = 2; count_for_type = 2 })
    ∷ []

abbrev lines : List Line
lines =
    (record { index = 0; half_packs = 3; is_glass = false })
    ∷ (record { index = 1; half_packs = 2; is_glass = true })
    ∷ []

assign_half_packs-conserves_example :
    amount_in_all 1 (assign_half_packs lines parcels) ≡ amount_of 1 lines
assign_half_packs-conserves_example = assign_half_packs-conserves 1 lines parcels (omega arith)

-- three boxes of two materials, with more glass than the glass box holds
abbrev mixed : List PhysicalParcel
mixed =
    (record { package_type = one_pak; position = 1; count_for_type = 1 })
    ∷ (record { package_type = glass_box; position = 1; count_for_type = 1 })
    ∷ (record { package_type = half_pak; position = 1; count_for_type = 1 })
    ∷ []

abbrev mixed_lines : List Line
mixed_lines =
    (record { index = 0; half_packs = 3; is_glass = false })
    ∷ (record { index = 1; half_packs = 7; is_glass = true })
    ∷ []

assign_half_packs-AreApart_example : AreApart 1 true mixed (assign_half_packs mixed_lines mixed)
assign_half_packs-AreApart_example =
    assign_half_packs-AreApart 1 true mixed_lines mixed ((λ e. cc), ((λ e. refl), tt)) refl

parcel_weights-Ensures_example : Ensures (IsWeighed 2) (parcel_weights names decimal items parcels)
parcel_weights-Ensures_example = parcel_weights-Ensures names decimal items parcels (omega arith)

cod_allocation-Ensures_example :
    Ensures (Allocates names decimal draft) (cod_allocation names decimal draft)
cod_allocation-Ensures_example = cod_allocation-Ensures names decimal draft
