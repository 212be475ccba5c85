-- ===== src/Tests/Planning.antt =====
-- Order lines, boxes and lockers: runs and instances.
use zdrovena_reconciliation.Prelude.{
  ◌/◌, ◌*◌, ◌+◌, ◌≡◌, ◌≤◌, refl, true, false, none, some, List, [], ◌∷◌, map, sum, length, str_eq,
  if◌then◌else◌, All,
}
use zdrovena_reconciliation.Prelude.Text.{strip}
use zdrovena_reconciliation.Shipping.Parcels.{
  three_pak, one_pak, glass_box, glass_two_pak, BreakdownRow, to_legacy_row,
}
use zdrovena_reconciliation.Shipping.Planning.{
  ProductNames, OrderItem, calc_packages, plastic_rows, quantities, physical_parcels,
  half_packs_for_item, product_name,
}
use zdrovena_reconciliation.Shipping.Planning.Capacity.{
  held, half_packs_of, calc_packages_holds, plastic_rows_minimal, plastic_choice,
}
use zdrovena_reconciliation.Shipping.Planning.Physical.{
  IsBookable, package_count-eq-length, physical_parcels-IsBookable,
}
use zdrovena_reconciliation.Shipping.Planning.Load.{
  Covers, parcel_weight_and_dims, parcel_weight_and_dims-Covers, volume_of,
}

-- two product names: a plastic pack of 12 bottles and a glass one
abbrev pub names : ProductNames
names = record {
  bottles_per_unit = λ s. if str_eq s "Woda 12" then 12 else if str_eq s "Szklo 12" then 12 else 0;
  is_glass = λ s. str_eq s "Szklo 12";
  skips = λ s. str_eq s "Kaucja";
}

abbrev pub plastic_line : OrderItem
plastic_line = record {
  name = some " Woda 12 ";
  title = none;
  quantity = some 4;
  line_total = some "80.00";
}

abbrev pub glass_line : OrderItem
glass_line = record {
  name = none;
  title = some "Szklo 12";
  quantity = none;
  line_total = some "30.01";
}

abbrev pub items : List OrderItem
items = plastic_line ∷ glass_line ∷ []

plan-items : calc_packages names items ≡ record {
  package_count = 3;
  breakdown =
      (record { package_type = three_pak; quantity = 1 })
      ∷ (record { package_type = one_pak; quantity = 1 })
      ∷ (record { package_type = glass_box; quantity = 1 })
      ∷ [];
}
unfolding calc_packages half_packs_for_item product_name strip
plan-items = refl

calc_packages_holds_example :
    (held false (calc_packages names items).breakdown ≡ half_packs_of names false items)
    × (held true (calc_packages names items).breakdown
        ≡ 2 * ((half_packs_of names true items + 1) / 2))
calc_packages_holds_example = calc_packages_holds names items

plastic_rows_minimal_example :
    sum (quantities (plastic_rows 7)) ≤ sum (quantities (plastic_choice 0 1 1 1))
plastic_rows_minimal_example = plastic_rows_minimal 7 0 1 1 1 refl

abbrev rows : List BreakdownRow
rows =
    (record { row_type = some glass_two_pak; qty = some 2 })
    ∷ (record { row_type = none; qty = none })
    ∷ []

package_count-eq-length_example :
    (calc_packages names items).package_count
    ≡ length (physical_parcels (map to_legacy_row (calc_packages names items).breakdown))
package_count-eq-length_example = package_count-eq-length names items

physical_parcels-IsBookable_example : All IsBookable (physical_parcels rows)
physical_parcels-IsBookable_example = physical_parcels-IsBookable rows

parcel_weight_and_dims-Covers_example : Covers (volume_of (parcel_weight_and_dims rows).1) rows
parcel_weight_and_dims-Covers_example = parcel_weight_and_dims-Covers rows
