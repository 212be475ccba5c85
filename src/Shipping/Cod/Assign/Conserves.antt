-- ===== src/Shipping/Cod/Assign/Conserves.antt =====
-- `_assign_half_packs` loses and invents no goods: every line's half-packs lie in the parcels.
use zdrovena_reconciliation.Prelude.{
  ℕ, zero, suc, ◌+◌, ◌-◌, ◌<◌, ◌≡◌, inl, inr, refl, Bool, true, false, some, List, [], ◌∷◌, arith,
  length, Option-cases, ◌==◌, if◌then◌else◌,
}
use zdrovena_reconciliation.Shipping.Parcels.{PhysicalParcel}
use zdrovena_reconciliation.Shipping.Cod.Assign.{
  Line, Counts, add_to, queue_of, capacity, take_from, fill_parcels, last_matching, target_of,
  add_all, add_at, assign_half_packs,
}

-- the half-packs of a line in a share or in a queue
abbrev pub amount_in : ℕ → Counts → ℕ
amount_in l [] = 0
amount_in l ((k, n) ∷ counts) = (if l == k then n else 0) + amount_in l counts

-- the half-packs of a line in all the parcels
abbrev pub amount_in_all : ℕ → List Counts → ℕ
amount_in_all l [] = 0
amount_in_all l (share ∷ shares) = amount_in l share + amount_in_all l shares

-- the half-packs that a line brings
abbrev pub amount_of : ℕ → List Line → ℕ
amount_of l [] = 0
amount_of l (line ∷ lines) = (if l == line.index then line.half_packs else 0) + amount_of l lines

module _ (l : ℕ) where
  amount_in-add_to :
      (k n : ℕ) (share : Counts)
      → amount_in l (add_to k n share) ≡ amount_in l share + (if l == k then n else 0)
  unfolding add_to
  amount_in-add_to k n [] = omega arith
  amount_in-add_to k n ((j, m) ∷ share) = ground (arith, amount_in-add_to k n share)

  amount_in-queues :
      (lines : List Line)
      → amount_in l (queue_of true lines) + amount_in l (queue_of false lines) ≡ amount_of l lines
  unfolding queue_of
  amount_in-queues [] = refl
  amount_in-queues (line ∷ lines) = ground (arith, amount_in-queues lines)

  pub amount_in-take_from :
      (remaining : ℕ) (queue share : Counts)
      → let (queue', share') = take_from remaining queue share in
        amount_in l queue' + amount_in l share' ≡ amount_in l queue + amount_in l share
  unfolding take_from
  amount_in-take_from remaining [] share = refl
  amount_in-take_from remaining ((k, n) ∷ queue) share = ground (
    arith,
    amount_in-take_from (remaining - n) queue (add_to k n share),
    amount_in-add_to k n share,
    amount_in-add_to k remaining share,
  )

  amount_in-fill_parcels :
      (parcels : List PhysicalParcel) (glass other : Counts)
      → let packed = fill_parcels parcels glass other in
        amount_in_all l packed.shares + amount_in l packed.glass + amount_in l packed.other
        ≡ amount_in l glass + amount_in l other
  unfolding fill_parcels
  amount_in-fill_parcels [] glass other = omega arith
  amount_in-fill_parcels (parcel ∷ parcels) glass other = ground (
    arith,
    amount_in-take_from (capacity parcel.package_type) glass [],
    amount_in-take_from (capacity parcel.package_type) other [],
    amount_in-fill_parcels parcels (take_from (capacity parcel.package_type) glass []).0 other,
    amount_in-fill_parcels parcels glass (take_from (capacity parcel.package_type) other []).0,
  )

  pub amount_in-add_all :
      (queue share : Counts)
      → amount_in l (add_all queue share) ≡ amount_in l share + amount_in l queue
  unfolding add_all
  amount_in-add_all [] share = omega arith
  amount_in-add_all ((k, n) ∷ queue) share =
      omega (arith, amount_in-add_all queue (add_to k n share), amount_in-add_to k n share)

  amount_in-add_at :
      (target : ℕ) (queue : Counts) (shares : List Counts)
      → target < length shares
      → amount_in_all l (add_at target queue shares) ≡ amount_in_all l shares + amount_in l queue
  unfolding add_at
  amount_in-add_at target queue [] h = absurd (omega arith)
  amount_in-add_at zero queue (share ∷ shares) h = omega (arith, amount_in-add_all queue share)
  amount_in-add_at (suc target) queue (share ∷ shares) h =
      omega (arith, amount_in-add_at target queue shares (omega arith))

pub length-fill_parcels :
    (parcels : List PhysicalParcel) (glass other : Counts)
    → length (fill_parcels parcels glass other).shares ≡ length parcels
unfolding fill_parcels
length-fill_parcels [] glass other = refl
length-fill_parcels (parcel ∷ parcels) glass other = ground (
  arith,
  length-fill_parcels parcels (take_from (capacity parcel.package_type) glass []).0 other,
  length-fill_parcels parcels glass (take_from (capacity parcel.package_type) other []).0,
)

pub length-add_at :
    (target : ℕ) (queue : Counts) (shares : List Counts)
    → length (add_at target queue shares) ≡ length shares
unfolding add_at
length-add_at target queue [] = refl
length-add_at zero queue (share ∷ shares) = refl
length-add_at (suc target) queue (share ∷ shares) = omega (arith, length-add_at target queue shares)

last_matching-lt-length :
    (material : Bool) (parcels : List PhysicalParcel) (i : ℕ)
    → last_matching material parcels ≡ some i
    → i < length parcels
unfolding last_matching
last_matching-lt-length material [] i h = cc
last_matching-lt-length material (parcel ∷ parcels) i h =
    elim (Option-cases (last_matching material parcels)) [
      | inl e ↦ ground arith
      | inr (j, e) ↦ ground (arith, last_matching-lt-length material parcels j e)
    ]

target_of-lt-length :
    (material : Bool) (parcels : List PhysicalParcel)
    → 0 < length parcels
    → target_of material parcels < length parcels
unfolding target_of
target_of-lt-length material parcels h = elim (Option-cases (last_matching material parcels)) [
  | inl e ↦ ground arith
  | inr (j, e) ↦ ground (arith, last_matching-lt-length material parcels j e)
]

-- As soon as there is a parcel, every line's half-packs are found in the parcels, all of them and no
-- more, whether or not the parcels have room for them.
pub assign_half_packs-conserves :
    (l : ℕ) (lines : List Line) (parcels : List PhysicalParcel)
    → 0 < length parcels
    → amount_in_all l (assign_half_packs lines parcels) ≡ amount_of l lines
unfolding assign_half_packs
assign_half_packs-conserves l lines parcels h =
    let packed = fill_parcels parcels (queue_of true lines) (queue_of false lines) in
    let count : length packed.shares ≡ length parcels = length-fill_parcels parcels _ _ in
    let first = add_at (target_of true parcels) packed.glass packed.shares in
    omega (
      arith,
      amount_in-add_at l (target_of false parcels) packed.other first (
          omega (
            arith,
            length-add_at (target_of true parcels) packed.glass packed.shares,
            target_of-lt-length false parcels h,
          )),
      amount_in-add_at l (target_of true parcels) packed.glass packed.shares
          (omega (arith, target_of-lt-length true parcels h)),
      amount_in-fill_parcels l parcels (queue_of true lines) (queue_of false lines),
      amount_in-queues l lines,
    )

pub length-assign_half_packs :
    (lines : List Line) (parcels : List PhysicalParcel)
    → length (assign_half_packs lines parcels) ≡ length parcels
unfolding assign_half_packs
length-assign_half_packs lines parcels =
    let packed = fill_parcels parcels (queue_of true lines) (queue_of false lines) in
    omega (
      arith,
      length-fill_parcels parcels (queue_of true lines) (queue_of false lines),
      length-add_at (target_of true parcels) packed.glass packed.shares,
      length-add_at (target_of false parcels) packed.other
          (add_at (target_of true parcels) packed.glass packed.shares),
    )
