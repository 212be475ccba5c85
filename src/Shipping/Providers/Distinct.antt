-- ===== src/Shipping/Providers/Distinct.antt =====
-- When no two of a draft's parcels have the same type and number.
use zdrovena_reconciliation.Prelude.{
  ℕ, zero, suc, ◌+◌, ◌*◌, ◌≤◌, ◌≡◌, refl, ap, ◌&&◌, List, [], ◌∷◌, ◌++◌, map, arith, if◌then◌else◌,
  inl, inr, Bool-cases, leb, ltb,
}
use zdrovena_reconciliation.Shipping.Parcels.{
  PackageType, glass_box, BreakdownRow, PhysicalParcel, to_legacy_row,
}
use zdrovena_reconciliation.Shipping.Planning.{
  ProductNames, OrderItem, calc_packages, plan_of, count_half_packs, plastic_rows, glass_rows,
  single_glass_rows, fill_boxes, parcels_from, expand_row, expand_rows, or_default,
  physical_parcels, row_package_type, row_quantity, is_glass_two_pak,
}
use zdrovena_reconciliation.Shipping.Planning.Physical.{box_of_row}
use zdrovena_reconciliation.Shipping.Providers.Calls.{Key, parcel_key, same_type, same_parcel_key}
use zdrovena_reconciliation.Shipping.Providers.Keys.{
  count, count-append, same_parcel_key_refl, AreDistinct,
}

count-parcels_from :
    (t s : PackageType) (n q first left : ℕ)
    → count (t, n) (map parcel_key (parcels_from s q first left))
      ≡ (if same_type t s && leb first n && ltb n (first + left) then 1 else 0)
unfolding parcels_from count same_parcel_key
count-parcels_from t s n q first zero = ground arith
count-parcels_from t s n q first (suc left) =
    ground (arith, count-parcels_from t s n q (first + 1) left)

abbrev counted_type : PackageType → List PackageType → ℕ
counted_type t [] = 0
counted_type t (s ∷ ss) = (if same_type t s then 1 else 0) + counted_type t ss

-- no two rows stand for boxes of one type
abbrev pub HasOneRowEach : List BreakdownRow → Type 0
HasOneRowEach rows = (t : PackageType) → counted_type t (map box_of_row rows) ≤ 1

count-expand_row :
    (t : PackageType) (n : ℕ) (row : BreakdownRow)
    → count (t, n) (map parcel_key (expand_row row))
      ≤ (if same_type t (box_of_row row) then 1 else 0)
unfolding expand_row
count-expand_row t n row = elim (Bool-cases (is_glass_two_pak (row_package_type row.row_type))) [
  | inl e ↦ rw e (
      ground (
        arith,
        count-parcels_from t glass_box n (row_quantity row.qty * 2) 1 (row_quantity row.qty * 2),
      ))
  | inr e ↦ rw e (
      ground (
        arith,
        count-parcels_from t (row_package_type row.row_type) n (row_quantity row.qty) 1
            (row_quantity row.qty),
      ))
]

keys-append :
    (ps qs : List PhysicalParcel)
    → map parcel_key (ps ++ qs) ≡ map parcel_key ps ++ map parcel_key qs
keys-append [] qs = refl
keys-append (p ∷ ps) qs = ap (λ ks. parcel_key p ∷ ks) (keys-append ps qs)

count-expand_rows :
    (t : PackageType) (n : ℕ) (rows : List BreakdownRow)
    → count (t, n) (map parcel_key (expand_rows rows)) ≤ counted_type t (map box_of_row rows)
unfolding expand_rows count
count-expand_rows t n [] = omega arith
count-expand_rows t n (row ∷ rows) = rw (keys-append (expand_row row) (expand_rows rows)) (
    omega (
      arith,
      count-append (t, n) (map parcel_key (expand_row row)) (map parcel_key (expand_rows rows)),
      count-expand_row t n row,
      count-expand_rows t n rows,
    ))

AreDistinct-count : (ks : List Key) → ((k : Key) → count k ks ≤ 1) → AreDistinct ks
unfolding count
AreDistinct-count [] h = tt
AreDistinct-count (k ∷ ks) h =
    (ground (arith, same_parcel_key_refl k, h k), AreDistinct-count ks λ j. omega (arith, h j))

or_default-AreDistinct :
    (ps : List PhysicalParcel)
    → AreDistinct (map parcel_key ps)
    → AreDistinct (map parcel_key (or_default ps))
unfolding count
or_default-AreDistinct [] h = (refl, tt)
or_default-AreDistinct (p ∷ ps) h = h

physical_parcels-AreDistinct :
    (rows : List BreakdownRow)
    → HasOneRowEach rows
    → AreDistinct (map parcel_key (physical_parcels rows))
unfolding physical_parcels
physical_parcels-AreDistinct rows h = or_default-AreDistinct (expand_rows rows) (
    AreDistinct-count (map parcel_key (expand_rows rows))
      λ (t, n). omega (arith, count-expand_rows t n rows, h t))

plan-HasOneRowEach : (p g : ℕ) → HasOneRowEach (map to_legacy_row (plastic_rows p ++ glass_rows g))
unfolding plastic_rows fill_boxes glass_rows single_glass_rows same_type
plan-HasOneRowEach p g t = ground arith

-- No two parcels that a fresh plan stands for have the same type and number, once it is stored.
pub calc_packages-AreDistinct :
    (names : ProductNames) (items : List OrderItem)
    → AreDistinct (
        map parcel_key (physical_parcels (map to_legacy_row (calc_packages names items).breakdown)))
unfolding calc_packages plan_of
calc_packages-AreDistinct names items =
    let (p, g) = count_half_packs names items (0, 0) in
    physical_parcels-AreDistinct (map to_legacy_row (plastic_rows p ++ glass_rows g))
      (plan-HasOneRowEach p g)
