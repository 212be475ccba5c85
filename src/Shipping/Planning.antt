-- ===== src/Shipping/Planning.antt =====
-- zdrovena/shipping/domain/planning.py: from order lines to boxes, and from stored rows to parcels.
-- A quantity is a natural number. The source divides floats: below 2 ^ 50 bottles in a line the
-- rounded quotient has the same ceiling as the exact one, which the model computes.
pub mod Capacity
pub mod Physical
pub mod Lockers
pub mod Load
pub mod Reference
use zdrovena_reconciliation.Prelude.{
  ℕ, zero, suc, ◌+◌, ◌-◌, ◌*◌, ◌/◌, ◌%◌, max, String, Bool, true, false, not, ◌&&◌, Option, none,
  some, List, [], ◌∷◌, ◌++◌, map, sum, ltb, leb, ◌==◌, str_eq, if◌then◌else◌,
}
use zdrovena_reconciliation.Prelude.Text.{strip}
use zdrovena_reconciliation.Shipping.Parcels.{
  PackageType, three_pak, two_pak, one_pak, half_pak, glass_box, glass_two_pak, ParcelSpec,
  parcel_specs, default_dims, PackageBreakdownItem, PhysicalParcel, PackagePlan, BreakdownRow,
}

-- What planning reads out of a product's name; zdrovena/common/bottles.py provides it.
pub record ProductNames : Type 0 where
  pub bottles_per_unit : String → ℕ
  pub is_glass : String → Bool
  pub skips : String → Bool

-- An order line, after its JSON is read: the keys that planning uses.
pub record OrderItem : Type 0 where
  pub name : Option String
  pub title : Option String
  pub quantity : Option ℕ
  pub line_total : Option String

abbrev pub glass_2pak_suspended : Bool
glass_2pak_suspended = true

abbrev pub glass_2pak_boxes : ℕ
glass_2pak_boxes = 2

-- `x or y` on texts that may be missing
abbrev pub or_text : Option String → String → String
or_text none y = y
or_text (some x) y = if str_eq x "" then y else x

unfoldable pub product_name : OrderItem → String
product_name item = strip (or_text item.name (or_text item.title ""))

abbrev quantity_or_one : Option ℕ → ℕ
quantity_or_one none = 1
quantity_or_one (some q) = q

module _ (names : ProductNames) where
  unfoldable pub half_packs_for_item : OrderItem → ℕ
  half_packs_for_item item =
      let qty = quantity_or_one item.quantity in
      let bottle_count = names.bottles_per_unit (product_name item) in
      if bottle_count == 0 then qty * 2 else (qty * bottle_count + 5) / 6

  -- the loop over the lines: the plastic and the glass half-packs so far
  unfoldable pub count_half_packs : List OrderItem → ℕ × ℕ → ℕ × ℕ
  count_half_packs [] acc = acc
  count_half_packs (item ∷ items) (plastic, glass) =
      let half_packs = half_packs_for_item item in
      count_half_packs items (
        if names.is_glass (product_name item)
        then (plastic, glass + half_packs)
        else (plastic + half_packs, glass))

abbrev pub box_sizes : List (ℕ × PackageType)
box_sizes = (3, three_pak) ∷ (2, two_pak) ∷ (1, one_pak) ∷ []

-- the loop over the box sizes, on what remains of the plastic
unfoldable pub fill_boxes : List (ℕ × PackageType) → ℕ → List PackageBreakdownItem
fill_boxes [] remaining = []
fill_boxes ((box_size, label) ∷ boxes) remaining =
    let count = remaining / box_size in
    let rest =
      fill_boxes boxes
        (if leb box_size remaining then remaining - count * box_size else remaining) in
    if leb box_size remaining
    then (record { package_type = label; quantity = count }) ∷ rest
    else rest

unfoldable pub plastic_rows : ℕ → List PackageBreakdownItem
unfolding fill_boxes
plastic_rows half_packs =
    fill_boxes box_sizes (half_packs / 2)
    ++ (if half_packs % 2 == 0 then [] else (record { package_type = half_pak; quantity = 1 }) ∷ [])

unfoldable pub single_glass_rows : ℕ → List PackageBreakdownItem
single_glass_rows boxes =
    if ltb 0 boxes then (record { package_type = glass_box; quantity = boxes }) ∷ [] else []

unfoldable pub glass_rows : ℕ → List PackageBreakdownItem
unfolding single_glass_rows
glass_rows half_packs =
    let boxes = (half_packs + 1) / 2 in
    if not glass_2pak_suspended && leb glass_2pak_boxes boxes
    then (record { package_type = glass_two_pak; quantity = boxes / glass_2pak_boxes })
      ∷ single_glass_rows (boxes - boxes / glass_2pak_boxes * glass_2pak_boxes)
    else single_glass_rows boxes

abbrev pub quantities : List PackageBreakdownItem → List ℕ
quantities = map (λ item. item.quantity)

unfoldable pub plan_of : ℕ × ℕ → PackagePlan
unfolding plastic_rows glass_rows
plan_of (plastic, glass) =
    let breakdown = plastic_rows plastic ++ glass_rows glass in
    record { package_count = max (sum (quantities breakdown)) 1; breakdown = breakdown }

unfoldable pub calc_packages : ProductNames → List OrderItem → PackagePlan
unfolding count_half_packs plan_of
calc_packages names items = plan_of (count_half_packs names items (0, 0))

unfoldable pub unreadable_product_names : ProductNames → List OrderItem → List String
unreadable_product_names names [] = []
unreadable_product_names names (item ∷ items) =
    let name = product_name item in
    let rest = unreadable_product_names names items in
    if not (str_eq name "") && names.bottles_per_unit name == 0 then name ∷ rest else rest

-- `str(box.get("type") or "1-pak")` and `int(box.get("qty") or 1)`
abbrev pub row_package_type : Option PackageType → PackageType
row_package_type none = one_pak
row_package_type (some t) = t

abbrev pub row_quantity : Option ℕ → ℕ
row_quantity none = 1
row_quantity (some q) = if q == 0 then 1 else q

abbrev pub is_glass_two_pak : PackageType → Bool
is_glass_two_pak glass_two_pak = true
is_glass_two_pak _ = false

-- `PhysicalParcel(...) for position in range(first, first + left)`
unfoldable pub parcels_from : PackageType → ℕ → ℕ → ℕ → List PhysicalParcel
parcels_from t quantity first zero = []
parcels_from t quantity first (suc left) =
    (record { package_type = t; position = first; count_for_type = quantity })
    ∷ parcels_from t quantity (first + 1) left

unfoldable pub expand_row : BreakdownRow → List PhysicalParcel
unfolding parcels_from
expand_row box =
    let package_type = row_package_type box.row_type in
    let quantity = row_quantity box.qty in
    if glass_2pak_suspended && is_glass_two_pak package_type
    then parcels_from glass_box (quantity * glass_2pak_boxes) 1 (quantity * glass_2pak_boxes)
    else parcels_from package_type quantity 1 quantity

unfoldable pub expand_rows : List BreakdownRow → List PhysicalParcel
unfolding expand_row
expand_rows [] = []
expand_rows (box ∷ boxes) = expand_row box ++ expand_rows boxes

abbrev pub or_default : List PhysicalParcel → List PhysicalParcel
or_default [] = (record { package_type = one_pak; position = 1; count_for_type = 1 }) ∷ []
or_default (p ∷ ps) = p ∷ ps

-- `physical_parcels(draft)`, on the draft's `packages_breakdown`
unfoldable pub physical_parcels : List BreakdownRow → List PhysicalParcel
unfolding expand_rows
physical_parcels rows = or_default (expand_rows rows)
