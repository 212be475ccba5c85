-- ===== src/Shipping/Cod/Assign/Keys.antt =====
-- The parcels' shares name only lines that were packed.
use zdrovena_reconciliation.Prelude.{
  ℕ, zero, suc, ◌-◌, Bool, true, false, List, [], ◌∷◌, arith, All, inl, inr, Bool-cases, ltb, ◌==◌,
}
use zdrovena_reconciliation.Shipping.Parcels.{PhysicalParcel}
use zdrovena_reconciliation.Shipping.Cod.Assign.{
  Line, Counts, add_to, queue_of, capacity, is_glass_type, take_from, fill_parcels, target_of,
  add_all, add_at, assign_half_packs,
}

-- every key of a share or a queue has the property
abbrev pub Keys : (ℕ → Type 0) → Counts → Type 0
Keys P counts = All (λ e. P e.0) counts

module _ (P : ℕ → Type 0) where
  add_to-Keys : (k n : ℕ) (share : Counts) → P k → Keys P share → Keys P (add_to k n share)
  unfolding add_to
  add_to-Keys k n [] p h = (p, tt)
  add_to-Keys k n ((j, m) ∷ share) p h = elim (Bool-cases (k == j)) [
    | inl e ↦ rw e h
    | inr e ↦ rw e (h.0, add_to-Keys k n share p h.1)
  ]

  queue_of-Keys :
      (material : Bool) (lines : List Line)
      → All (λ line. P line.index) lines
      → Keys P (queue_of material lines)
  unfolding queue_of
  queue_of-Keys material [] h = tt
  queue_of-Keys material (line ∷ lines) h = ground (arith, queue_of-Keys material lines h.1)

  take_from-Keys :
      (remaining : ℕ) (queue share : Counts)
      → Keys P queue
      → Keys P share
      → let (queue', share') = take_from remaining queue share in Keys P queue' × Keys P share'
  unfolding take_from
  take_from-Keys remaining [] share q s = (tt, s)
  take_from-Keys remaining ((k, n) ∷ queue) share q s = elim (Bool-cases (remaining == 0)) [
    | inl e ↦ rw e (q, s)
    | inr e ↦ elim (Bool-cases (ltb remaining n)) [
      | inl l ↦ rw (e, l) (q, add_to-Keys k remaining share q.0 s)
      | inr l ↦
          rw (e, l)
            (take_from-Keys (remaining - n) queue (add_to k n share) q.1
              (add_to-Keys k n share q.0 s))
    ]
  ]

  fill_parcels-Keys :
      (parcels : List PhysicalParcel) (glass other : Counts)
      → Keys P glass
      → Keys P other
      → let packed = fill_parcels parcels glass other in
        All (Keys P) packed.shares × Keys P packed.glass × Keys P packed.other
  unfolding fill_parcels
  fill_parcels-Keys [] glass other g o = (tt, g, o)
  fill_parcels-Keys (parcel ∷ parcels) glass other g o =
      elim (Bool-cases (is_glass_type parcel.package_type)) [
        | inl e ↦
            let cap = capacity parcel.package_type in
            let (q, s) = take_from-Keys cap glass [] g tt in
            let (a, b, c) = fill_parcels-Keys parcels (take_from cap glass []).0 other q o in
            rw (e, fill_parcels) ((s, a), b, c)
        | inr e ↦
            let cap = capacity parcel.package_type in
            let (q, s) = take_from-Keys cap other [] o tt in
            let (a, b, c) = fill_parcels-Keys parcels glass (take_from cap other []).0 g q in
            rw (e, fill_parcels) ((s, a), b, c)
      ]

  add_all-Keys : (queue share : Counts) → Keys P queue → Keys P share → Keys P (add_all queue share)
  unfolding add_all
  add_all-Keys [] share q s = s
  add_all-Keys ((k, n) ∷ queue) share q s =
      add_all-Keys queue (add_to k n share) q.1 (add_to-Keys k n share q.0 s)

  add_at-Keys :
      (target : ℕ) (queue : Counts) (shares : List Counts)
      → Keys P queue
      → All (Keys P) shares
      → All (Keys P) (add_at target queue shares)
  unfolding add_at
  add_at-Keys target queue [] q s = tt
  add_at-Keys zero queue (share ∷ shares) q s = (add_all-Keys queue share q s.0, s.1)
  add_at-Keys (suc target) queue (share ∷ shares) q s = (s.0, add_at-Keys target queue shares q s.1)

  pub assign_half_packs-Keys :
      (lines : List Line) (parcels : List PhysicalParcel)
      → All (λ line. P line.index) lines
      → All (Keys P) (assign_half_packs lines parcels)
  unfolding assign_half_packs
  assign_half_packs-Keys lines parcels h =
      let glass = queue_of true lines in
      let other = queue_of false lines in
      let packed = fill_parcels parcels glass other in
      let (a, b, c) =
        fill_parcels-Keys parcels glass other (queue_of-Keys true lines h)
          (queue_of-Keys false lines h) in
      add_at-Keys (target_of false parcels) packed.other
        (add_at (target_of true parcels) packed.glass packed.shares) c
        (add_at-Keys (target_of true parcels) packed.glass packed.shares b a)
