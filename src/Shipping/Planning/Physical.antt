-- ===== src/Shipping/Planning/Physical.antt =====
-- The parcels that a stored breakdown stands for, and those of a fresh plan.
use zdrovena_reconciliation.Prelude.{
  ℕ, zero, suc, ◌+◌, ◌*◌, ◌<◌, ◌≡◌, inl, inr, refl, false, List, [], ◌∷◌, ◌++◌, map, arith, max,
  sum, length, length-append, if◌then◌else◌, Bool-cases, ◌∙◌, All,
}
use zdrovena_reconciliation.Shipping.Parcels.{
  PackageType, glass_box, PackageBreakdownItem, PhysicalParcel, BreakdownRow, to_legacy_row,
}
use zdrovena_reconciliation.Shipping.Planning.{
  ProductNames, OrderItem, calc_packages, plan_of, count_half_packs, plastic_rows, glass_rows,
  quantities, row_package_type, row_quantity, is_glass_two_pak, parcels_from, expand_row,
  expand_rows, or_default, physical_parcels,
}

length-parcels_from :
    (t : PackageType) (q first left : ℕ) → length (parcels_from t q first left) ≡ left
unfolding parcels_from
length-parcels_from t q first zero = refl
length-parcels_from t q first (suc left) = omega (arith, length-parcels_from t q (first + 1) left)

-- the boxes that a row stands for: a suspended glass 2-pak is two
abbrev pub boxes_of_row : BreakdownRow → ℕ
boxes_of_row row =
    if is_glass_two_pak (row_package_type row.row_type)
    then row_quantity row.qty * 2
    else row_quantity row.qty

length-expand_row : (row : BreakdownRow) → length (expand_row row) ≡ boxes_of_row row
unfolding expand_row
length-expand_row row = elim (Bool-cases (is_glass_two_pak (row_package_type row.row_type))) [
  | inl e ↦ rw e (length-parcels_from glass_box _ 1 _)
  | inr e ↦ rw e (length-parcels_from _ _ 1 _)
]

length-expand_rows :
    (rows : List BreakdownRow) → length (expand_rows rows) ≡ sum (map boxes_of_row rows)
unfolding expand_rows
length-expand_rows [] = refl
length-expand_rows (row ∷ rows) =
    length-append (expand_row row) (expand_rows rows)
    ∙ omega (arith, length-expand_row row, length-expand_rows rows)

-- what `calc_packages` writes: rows of at least one box, none of the suspended type
abbrev IsPlain : PackageBreakdownItem → Type 0
IsPlain item = (0 < item.quantity) × (is_glass_two_pak item.package_type ≡ false)

All-append :
    (xs ys : List PackageBreakdownItem) → All IsPlain xs → All IsPlain ys → All IsPlain (xs ++ ys)
All-append [] ys h k = k
All-append (x ∷ xs) ys h k = (h.0, All-append xs ys h.1 k)

plastic_rows-IsPlain : (h : ℕ) → All IsPlain (plastic_rows h)
unfolding plastic_rows
plastic_rows-IsPlain h = ground arith

glass_rows-IsPlain : (h : ℕ) → All IsPlain (glass_rows h)
unfolding glass_rows
glass_rows-IsPlain h = ground arith

boxes_of_plain :
    (items : List PackageBreakdownItem)
    → All IsPlain items
    → sum (map boxes_of_row (map to_legacy_row items)) ≡ sum (quantities items)
boxes_of_plain [] h = refl
boxes_of_plain (item ∷ items) h = ground (arith, boxes_of_plain items h.1)

length-or_default : (ps : List PhysicalParcel) → length (or_default ps) ≡ max (length ps) 1
length-or_default [] = refl
length-or_default (p ∷ ps) = omega arith

-- A draft's stored rows expand into one parcel for each box that they stand for, a suspended glass
-- 2-pak being two, and into one parcel where they stand for none.
pub length-physical_parcels :
    (rows : List BreakdownRow)
    → length (physical_parcels rows) ≡ max (sum (map boxes_of_row rows)) 1
unfolding physical_parcels
length-physical_parcels rows =
    length-or_default (expand_rows rows) ∙ omega (arith, length-expand_rows rows)

-- The parcel count that a plan announces is the number of physical parcels that its breakdown
-- expands into once it is stored.
pub package_count-eq-length :
    (names : ProductNames) (items : List OrderItem)
    → let plan = calc_packages names items in
      plan.package_count ≡ length (physical_parcels (map to_legacy_row plan.breakdown))
unfolding calc_packages plan_of
package_count-eq-length names items =
    let (p, g) = count_half_packs names items (0, 0) in
    let rows = plastic_rows p ++ glass_rows g in
    let plain =
      All-append (plastic_rows p) (glass_rows g) (plastic_rows-IsPlain p) (glass_rows-IsPlain g) in
    omega (arith, length-physical_parcels (map to_legacy_row rows), boxes_of_plain rows plain)

-- parcels of one row are numbered from `first` on, each below `first + left`
abbrev pub IsNumbered : PackageType → ℕ → ℕ → ℕ → List PhysicalParcel → Type 0
IsNumbered t quantity first end [] = first ≡ end
IsNumbered t quantity first end (p ∷ ps) =
    (p.package_type ≡ t)
    × (p.position ≡ first)
    × (p.count_for_type ≡ quantity)
    × IsNumbered t quantity (first + 1) end ps

parcels_from-IsNumbered :
    (t : PackageType) (quantity first left : ℕ)
    → IsNumbered t quantity first (first + left) (parcels_from t quantity first left)
unfolding parcels_from
parcels_from-IsNumbered t quantity first zero = omega arith
parcels_from-IsNumbered t quantity first (suc left) =
    let e : first + suc left ≡ first + 1 + left = omega arith in
    (refl, refl, refl, rw e (parcels_from-IsNumbered t quantity (first + 1) left))

-- the box that a row stands for: a suspended glass 2-pak is glass boxes
abbrev pub box_of_row : BreakdownRow → PackageType
box_of_row row =
    if is_glass_two_pak (row_package_type row.row_type)
    then glass_box
    else row_package_type row.row_type

-- Each row becomes parcels of one type, numbered from 1 up to the count of boxes of the row, and
-- each parcel carries that count.
pub expand_row-IsNumbered :
    (row : BreakdownRow)
    → let n = boxes_of_row row in IsNumbered (box_of_row row) n 1 (1 + n) (expand_row row)
unfolding expand_row
expand_row-IsNumbered row = elim (Bool-cases (is_glass_two_pak (row_package_type row.row_type))) [
  | inl e ↦ rw e (parcels_from-IsNumbered glass_box _ 1 _)
  | inr e ↦ rw e (parcels_from-IsNumbered _ _ 1 _)
]

abbrev pub IsBookable : PhysicalParcel → Type 0
IsBookable p = is_glass_two_pak p.package_type ≡ false

parcels_from-IsBookable :
    (t : PackageType) (quantity first left : ℕ)
    → is_glass_two_pak t ≡ false
    → All IsBookable (parcels_from t quantity first left)
unfolding parcels_from
parcels_from-IsBookable t quantity first zero h = tt
parcels_from-IsBookable t quantity first (suc left) h =
    (h, parcels_from-IsBookable t quantity (first + 1) left h)

expand_row-IsBookable : (row : BreakdownRow) → All IsBookable (expand_row row)
unfolding expand_row
expand_row-IsBookable row = elim (Bool-cases (is_glass_two_pak (row_package_type row.row_type))) [
  | inl e ↦ rw e (parcels_from-IsBookable glass_box _ 1 _ refl)
  | inr e ↦ rw e (parcels_from-IsBookable _ _ 1 _ e)
]

All-append_parcels :
    (xs ys : List PhysicalParcel)
    → All IsBookable xs
    → All IsBookable ys
    → All IsBookable (xs ++ ys)
All-append_parcels [] ys h k = k
All-append_parcels (x ∷ xs) ys h k = (h.0, All-append_parcels xs ys h.1 k)

expand_rows-IsBookable : (rows : List BreakdownRow) → All IsBookable (expand_rows rows)
unfolding expand_rows
expand_rows-IsBookable [] = tt
expand_rows-IsBookable (row ∷ rows) =
    All-append_parcels (expand_row row) (expand_rows rows) (expand_row-IsBookable row)
      (expand_rows-IsBookable rows)

or_default-IsBookable :
    (ps : List PhysicalParcel) → All IsBookable ps → All IsBookable (or_default ps)
or_default-IsBookable [] h = (refl, tt)
or_default-IsBookable (p ∷ ps) h = h

-- Whatever rows are stored, no parcel of the suspended glass 2-pak is ever booked.
pub physical_parcels-IsBookable :
    (rows : List BreakdownRow) → All IsBookable (physical_parcels rows)
unfolding physical_parcels
physical_parcels-IsBookable rows =
    or_default-IsBookable (expand_rows rows) (expand_rows-IsBookable rows)
