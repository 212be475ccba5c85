-- ===== src/Shipping/Planning/Lockers.antt =====
-- planning.py: the boxes that do not fit a carrier's largest locker slot. A warning is the record of
-- what its text names.
use zdrovena_reconciliation.Prelude.{
  ℕ, ◌≡◌, refl, Bool, ◌||◌, Option, none, some, List, [], ◌∷◌, ◌++◌, inl, inr, Option-cases, arith,
  min, max, ltb, if◌then◌else◌,
}
use zdrovena_reconciliation.Shipping.Parcels.{
  PackageType, ParcelSpec, parcel_specs, Carrier, Slot, locker_large_slot, BreakdownRow,
}

-- `sorted([a, b, c])`
sorted_sides : ℕ → ℕ → ℕ → ℕ × ℕ × ℕ
sorted_sides a b c = (min a (min b c), max (min a b) (max (min b c) (min a c)), max a (max b c))

pub data Warning : Type 0 where
  exceeds_slot : PackageType → ParcelSpec → Carrier → Slot → Warning
  too_heavy : PackageType → ParcelSpec → Carrier → Slot → Warning

too_large : ParcelSpec → Slot → Bool
unfolding sorted_sides
too_large spec slot =
    let (p1, p2, p3) = sorted_sides spec.length spec.width spec.height in
    let (s1, s2, s3) = sorted_sides slot.height slot.width slot.depth in
    ltb s1 p1 || (ltb s2 p2 || ltb s3 p3)

warnings_of_box : PackageType → ParcelSpec → Carrier → Slot → List Warning
unfolding too_large
warnings_of_box t spec carrier slot =
    (if too_large spec slot then exceeds_slot t spec carrier slot ∷ [] else [])
    ++ (if ltb slot.max_weight_kg spec.weight_kg then too_heavy t spec carrier slot ∷ [] else [])

-- one turn of the loop; a box with no record in the catalogue is passed over
warnings_of_type : Carrier → Slot → Option PackageType → List Warning
unfolding warnings_of_box parcel_specs
warnings_of_type carrier slot none = []
warnings_of_type carrier slot (some t) = elim (parcel_specs t) [
  | none ↦ []
  | some spec ↦ warnings_of_box t spec carrier slot
]

warnings_of_rows : Carrier → Slot → List BreakdownRow → List Warning
unfolding warnings_of_type
warnings_of_rows carrier slot [] = []
warnings_of_rows carrier slot (row ∷ rows) =
    warnings_of_type carrier slot row.row_type ++ warnings_of_rows carrier slot rows

pub package_fit_warnings : List BreakdownRow → Carrier → List Warning
unfolding warnings_of_rows locker_large_slot
package_fit_warnings breakdown carrier = elim (locker_large_slot carrier) [
  | none ↦ []
  | some slot ↦ warnings_of_rows carrier slot breakdown
]

known_slot :
    (carrier : Carrier) (slot : Slot) (t : Option PackageType)
    → locker_large_slot carrier ≡ some slot
    → warnings_of_type carrier slot t ≡ []
unfolding warnings_of_type locker_large_slot
known_slot carrier slot none h = refl
known_slot carrier slot (some t) h = ground arith

known_slot_rows :
    (carrier : Carrier) (slot : Slot) (rows : List BreakdownRow)
    → locker_large_slot carrier ≡ some slot
    → warnings_of_rows carrier slot rows ≡ []
unfolding warnings_of_rows
known_slot_rows carrier slot [] h = refl
known_slot_rows carrier slot (row ∷ rows) h =
    rw (known_slot carrier slot row.row_type h) (known_slot_rows carrier slot rows h)

-- With the catalogue as it stands every box fits the large slot of every carrier: no breakdown has a
-- warning, of size or of weight.
pub package_fit_warnings-nil :
    (rows : List BreakdownRow) (carrier : Carrier) → package_fit_warnings rows carrier ≡ []
unfolding package_fit_warnings
package_fit_warnings-nil rows carrier = elim (Option-cases (locker_large_slot carrier)) [
  | inl e ↦ rw (e, package_fit_warnings)
  | inr (slot, e) ↦ rw (e, package_fit_warnings) (known_slot_rows carrier slot rows e)
]
