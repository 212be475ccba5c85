-- ===== src/Shipping/Planning/Capacity.antt =====
-- The plan of planning.py against what it has to hold: the boxes of each material take the
-- half-packs of that material's lines, and no plan with fewer plastic boxes does.
use zdrovena_reconciliation.Prelude.{
  ℕ, ◌+◌, ◌*◌, ◌/◌, ◌≤◌, ◌≡◌, Bool, true, false, Option, none, some, List, [], ◌∷◌, ◌++◌, arith,
  sum, if◌then◌else◌,
}
use zdrovena_reconciliation.Shipping.Parcels.{
  PackageType, three_pak, two_pak, one_pak, half_pak, glass_box, glass_two_pak, parcel_half_packs,
  PackageBreakdownItem,
}
use zdrovena_reconciliation.Shipping.Planning.{
  ProductNames, OrderItem, product_name, half_packs_for_item, count_half_packs, plastic_rows,
  glass_rows, quantities, calc_packages, plan_of,
}

-- the half-packs of the lines of one material
abbrev pub half_packs_of : ProductNames → Bool → List OrderItem → ℕ
half_packs_of names material [] = 0
half_packs_of names material (item ∷ items) =
    (if names.is_glass (product_name item)
      then if material then half_packs_for_item names item else 0
      else if material
      then 0
      else half_packs_for_item names item)
    + half_packs_of names material items

count_half_packs_lem :
    (names : ProductNames) (items : List OrderItem) (p g : ℕ)
    → count_half_packs names items (p, g)
      ≡ (p + half_packs_of names false items, g + half_packs_of names true items)
unfolding count_half_packs
count_half_packs_lem names [] p g = ground arith
count_half_packs_lem names (item ∷ items) p g = ground (
  arith,
  count_half_packs_lem names items p (g + half_packs_for_item names item),
  count_half_packs_lem names items (p + half_packs_for_item names item) g,
)

abbrev pub is_glass_type : PackageType → Bool
is_glass_type glass_box = true
is_glass_type glass_two_pak = true
is_glass_type _ = false

abbrev capacity_or_zero : Option ℕ → ℕ
capacity_or_zero none = 0
capacity_or_zero (some c) = c

-- the half-packs that the boxes of one material hold
abbrev pub held : Bool → List PackageBreakdownItem → ℕ
held material [] = 0
held material (item ∷ items) =
    (if is_glass_type item.package_type
      then if material
        then capacity_or_zero (parcel_half_packs item.package_type) * item.quantity
        else 0
      else if material
      then 0
      else capacity_or_zero (parcel_half_packs item.package_type) * item.quantity)
    + held material items

held-append :
    (m : Bool) (xs ys : List PackageBreakdownItem) → held m (xs ++ ys) ≡ held m xs + held m ys
held-append m [] ys = omega arith
held-append m (x ∷ xs) ys = omega (arith, held-append m xs ys)

held-plastic_rows : (h : ℕ) → (held false (plastic_rows h) ≡ h) × (held true (plastic_rows h) ≡ 0)
unfolding plastic_rows
held-plastic_rows h = ground arith

held-glass_rows :
    (h : ℕ) → (held true (glass_rows h) ≡ 2 * ((h + 1) / 2)) × (held false (glass_rows h) ≡ 0)
unfolding glass_rows
held-glass_rows h = ground arith

-- Of any order lines, the plan's plastic boxes hold exactly the half-packs of the plastic lines, and
-- its glass boxes those of the glass lines, rounded up to whole boxes of two half-packs.
pub calc_packages_holds :
    (names : ProductNames) (items : List OrderItem)
    → (held false (calc_packages names items).breakdown ≡ half_packs_of names false items)
      × (held true (calc_packages names items).breakdown
          ≡ 2 * ((half_packs_of names true items + 1) / 2))
unfolding calc_packages plan_of
calc_packages_holds names items =
    let p = half_packs_of names false items in
    let g = half_packs_of names true items in
    rw (count_half_packs_lem names items 0 0)
      (grind (arith, held-append, held-plastic_rows p, held-glass_rows g))

boxes-append :
    (xs ys : List PackageBreakdownItem)
    → sum (quantities (xs ++ ys)) ≡ sum (quantities xs) + sum (quantities ys)
boxes-append [] ys = omega arith
boxes-append (x ∷ xs) ys = omega (arith, boxes-append xs ys)

-- Rows of plastic boxes of the four sizes that together hold `h` half-packs.
abbrev pub plastic_choice : ℕ → ℕ → ℕ → ℕ → List PackageBreakdownItem
plastic_choice a b c d =
    (record { package_type = three_pak; quantity = a })
    ∷ (record { package_type = two_pak; quantity = b })
    ∷ (record { package_type = one_pak; quantity = c })
    ∷ (record { package_type = half_pak; quantity = d })
    ∷ []

-- The greedy filling is optimal: any choice of 3-, 2-, 1- and half-packs that holds exactly the
-- plastic half-packs has at least as many boxes as the plan's plastic rows.
pub plastic_rows_minimal :
    (h a b c d : ℕ)
    → held false (plastic_choice a b c d) ≡ h
    → sum (quantities (plastic_rows h)) ≤ sum (quantities (plastic_choice a b c d))
unfolding plastic_rows
plastic_rows_minimal h a b c d exact = ground arith
