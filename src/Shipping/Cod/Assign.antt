-- ===== src/Shipping/Cod/Assign.antt =====
-- `_packable_lines` and `_assign_half_packs` of cod.py: which line lies in which parcel.
pub mod Conserves
pub mod Materials
pub mod Keys
use zdrovena_reconciliation.Prelude.{
  ℕ, zero, suc, ◌+◌, ◌-◌, Bool, true, false, not, ◌&&◌, Option, none, some, List, [], ◌∷◌, map,
  length, replicate, ltb, leb, ◌==◌, if◌then◌else◌,
}
use zdrovena_reconciliation.Shipping.Parcels.{
  PackageType, glass_box, glass_two_pak, parcel_half_packs, PhysicalParcel,
}
use zdrovena_reconciliation.Shipping.Planning.{
  ProductNames, OrderItem, product_name, half_packs_for_item,
}

-- `(line_index, half_packs, is_glass)`
pub record Line : Type 0 where
  pub index : ℕ
  pub half_packs : ℕ
  pub is_glass : Bool

-- `_packable_lines`, on the items from the position `index` on
unfoldable pub packable_lines : ProductNames → ℕ → List OrderItem → List Line
packable_lines names index [] = []
packable_lines names index (item ∷ items) =
    let name = product_name item in
    let rest = packable_lines names (index + 1) items in
    let half_packs = half_packs_for_item names item in
    if names.skips name
    then rest
    else if ltb 0 half_packs
    then (record { index = index; half_packs = half_packs; is_glass = names.is_glass name }) ∷ rest
    else rest

-- A dict from line indices to half-packs, and a queue of lines with what is left of them.
abbrev pub Counts : Type 0
Counts = List (ℕ × ℕ)

-- `share[line] = share.get(line, 0) + n`
unfoldable pub add_to : ℕ → ℕ → Counts → Counts
add_to line n [] = (line, n) ∷ []
add_to line n ((k, m) ∷ share) =
    let rest = add_to line n share in if line == k then (k, m + n) ∷ share else (k, m) ∷ rest

-- `queues[material]`
unfoldable pub queue_of : Bool → List Line → Counts
queue_of material [] = []
queue_of material (line ∷ lines) =
    let rest = queue_of material lines in
    if (if line.is_glass then material else not material)
    then (line.index, line.half_packs) ∷ rest
    else rest

-- `_capacity`
abbrev pub capacity : PackageType → ℕ
capacity t = elim (parcel_half_packs t) [ none ↦ 2 | some c ↦ c ]

-- `package_type in GLASS_PACKAGE_TYPES`
abbrev pub is_glass_type : PackageType → Bool
is_glass_type glass_box = true
is_glass_type glass_two_pak = true
is_glass_type _ = false

-- The `while` loop on one parcel: what stays in the queue, and the parcel's share. When a line is
-- not used up the parcel is full, which is where the loop ends.
unfoldable pub take_from : ℕ → Counts → Counts → Counts × Counts
unfolding add_to
take_from remaining [] share = ([], share)
take_from remaining ((line, available) ∷ queue) share =
    let next = take_from (remaining - available) queue (add_to line available share) in
    if remaining == 0
    then ((line, available) ∷ queue, share)
    else if ltb remaining available
    then ((line, available - remaining) ∷ queue, add_to line remaining share)
    else next

pub record Packing : Type 0 where
  pub shares : List Counts
  pub glass : Counts
  pub other : Counts

-- the `for` loop over the parcels
unfoldable pub fill_parcels : List PhysicalParcel → Counts → Counts → Packing
unfolding take_from
fill_parcels [] glass other = record { shares = []; glass = glass; other = other }
fill_parcels (parcel ∷ parcels) glass other = elim (is_glass_type parcel.package_type) [
  | true ↦
      let (queue, share) = take_from (capacity parcel.package_type) glass [] in
      let rest = fill_parcels parcels queue other in record rest { shares = share ∷ rest.shares }
  | false ↦
      let (queue, share) = take_from (capacity parcel.package_type) other [] in
      let rest = fill_parcels parcels glass queue in record rest { shares = share ∷ rest.shares }
]

-- `matching[-1] if matching else len(parcels) - 1`
unfoldable pub last_matching : Bool → List PhysicalParcel → Option ℕ
last_matching material [] = none
last_matching material (parcel ∷ parcels) = elim (last_matching material parcels) [
  | some i ↦ some (suc i)
  | none ↦
      if (if is_glass_type parcel.package_type then material else not material)
      then some 0
      else none
]

unfoldable pub target_of : Bool → List PhysicalParcel → ℕ
unfolding last_matching
target_of material parcels = elim (last_matching material parcels) [
  | some i ↦ i
  | none ↦ length parcels - 1
]

-- `for line_index, remainder in queue: shares[target][line_index] += remainder`
unfoldable pub add_all : Counts → Counts → Counts
unfolding add_to
add_all [] share = share
add_all ((line, remainder) ∷ queue) share = add_all queue (add_to line remainder share)

unfoldable pub add_at : ℕ → Counts → List Counts → List Counts
unfolding add_all
add_at target queue [] = []
add_at zero queue (share ∷ shares) = add_all queue share ∷ shares
add_at (suc target) queue (share ∷ shares) = share ∷ add_at target queue shares

unfoldable pub assign_half_packs : List Line → List PhysicalParcel → List Counts
unfolding queue_of fill_parcels target_of add_at
assign_half_packs lines parcels =
    let packed = fill_parcels parcels (queue_of true lines) (queue_of false lines) in
    add_at (target_of false parcels) packed.other
      (add_at (target_of true parcels) packed.glass packed.shares)
