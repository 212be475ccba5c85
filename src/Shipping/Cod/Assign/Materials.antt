-- ===== src/Shipping/Cod/Assign/Materials.antt =====
-- `_assign_half_packs` keeps glass and plastic apart, where there are boxes of both.
use zdrovena_reconciliation.Prelude.{
  ℕ, zero, suc, ◌≡◌, inl, inr, refl, subst, Bool, true, false, not, ◌||◌, none, some, List, [], ◌∷◌,
  arith, Option-cases, Bool-cases, ◌==◌, if◌then◌else◌, All,
}
use mathlib.Core.Option.{some-injective}
use zdrovena_reconciliation.Shipping.Parcels.{PhysicalParcel}
use zdrovena_reconciliation.Shipping.Cod.Assign.{
  Line, Counts, queue_of, capacity, is_glass_type, take_from, fill_parcels, last_matching,
  target_of, add_all, add_at, assign_half_packs,
}
use zdrovena_reconciliation.Shipping.Cod.Assign.Conserves.{
  amount_in, amount_in-take_from, amount_in-add_all,
}

-- whether a glass (or, for `false`, another) box is among the parcels
abbrev pub has_box : Bool → List PhysicalParcel → Bool
has_box material [] = false
has_box material (parcel ∷ parcels) =
    (if is_glass_type parcel.package_type then material else not material)
    || has_box material parcels

own_foreign :
    (glass material : Bool)
    → (if glass then material else not material) ≡ true
    → glass ≡ not material
    → ⊥
own_foreign true true h g = cc
own_foreign true false h g = cc
own_foreign false true h g = cc
own_foreign false false h g = cc

target_of-last_matching :
    (material : Bool) (parcels : List PhysicalParcel) (j : ℕ)
    → last_matching material parcels ≡ some j
    → j ≡ target_of material parcels
unfolding target_of
target_of-last_matching material parcels j q = rw (q, target_of)

has_box-last_matching :
    (material : Bool) (parcels : List PhysicalParcel)
    → has_box material parcels ≡ true
    → (j : ℕ) × (last_matching material parcels ≡ some j)
unfolding last_matching
has_box-last_matching material [] h = cc
has_box-last_matching material (parcel ∷ parcels) h =
    elim (Option-cases (last_matching material parcels)) [
      | inr (i, q) ↦ (suc i, rw q)
      | inl q ↦
          let mine = if is_glass_type parcel.package_type then material else not material in
          elim (Bool-cases mine) [
            | inl own ↦ (0, rw (q, own))
            | inr foreign ↦
                let (j, f) = has_box-last_matching material parcels (rw foreign at h) in (j, cc)
          ]
    ]

module _ (l : ℕ) where
  -- every line with this index is of the material
  abbrev pub IsOf : Bool → List Line → Type 0
  IsOf material lines = All (λ line. l == line.index ≡ true → line.is_glass ≡ material) lines

  -- nothing of the line lies in a parcel of the other material
  abbrev pub AreApart : Bool → List PhysicalParcel → List Counts → Type 0
  AreApart material [] [] = Unit
  AreApart material (parcel ∷ parcels) (share ∷ shares) =
      (is_glass_type parcel.package_type ≡ not material → amount_in l share ≡ 0)
      × AreApart material parcels shares
  AreApart material _ _ = ⊥

  queue_of-foreign :
      (material : Bool) (lines : List Line)
      → IsOf material lines
      → amount_in l (queue_of (not material) lines) ≡ 0
  unfolding queue_of
  queue_of-foreign material [] h = refl
  queue_of-foreign true (line ∷ lines) (h, hs) = ground (arith, h, queue_of-foreign true lines hs)
  queue_of-foreign false (line ∷ lines) (h, hs) = ground (arith, h, queue_of-foreign false lines hs)

  fill_parcels-glass :
      (parcels : List PhysicalParcel) (glass other : Counts)
      → amount_in l other ≡ 0
      → let packed = fill_parcels parcels glass other in
        AreApart true parcels packed.shares × (amount_in l packed.other ≡ 0)
  unfolding fill_parcels
  fill_parcels-glass [] glass other h = (tt, h)
  fill_parcels-glass (parcel ∷ parcels) glass other h =
      elim (Bool-cases (is_glass_type parcel.package_type)) [
        | inl g ↦
            let queue = (take_from (capacity parcel.package_type) glass []).0 in
            let (apart, left) = fill_parcels-glass parcels queue other h in
            rw (g, fill_parcels) ((λ f. cc, apart), left)
        | inr g ↦
            let moved = amount_in-take_from l (capacity parcel.package_type) other [] in
            let queue = (take_from (capacity parcel.package_type) other []).0 in
            let (apart, left) = fill_parcels-glass parcels glass queue (omega (arith, moved)) in
            rw (g, fill_parcels) ((λ f. omega (arith, moved), apart), left)
      ]

  fill_parcels-other :
      (parcels : List PhysicalParcel) (glass other : Counts)
      → amount_in l glass ≡ 0
      → let packed = fill_parcels parcels glass other in
        AreApart false parcels packed.shares × (amount_in l packed.glass ≡ 0)
  unfolding fill_parcels
  fill_parcels-other [] glass other h = (tt, h)
  fill_parcels-other (parcel ∷ parcels) glass other h =
      elim (Bool-cases (is_glass_type parcel.package_type)) [
        | inl g ↦
            let moved = amount_in-take_from l (capacity parcel.package_type) glass [] in
            let queue = (take_from (capacity parcel.package_type) glass []).0 in
            let (apart, left) = fill_parcels-other parcels queue other (omega (arith, moved)) in
            rw (g, fill_parcels) ((λ f. omega (arith, moved), apart), left)
        | inr g ↦
            let queue = (take_from (capacity parcel.package_type) other []).0 in
            let (apart, left) = fill_parcels-other parcels glass queue h in
            rw (g, fill_parcels) ((λ f. cc, apart), left)
      ]

  -- what is none of the line's goods may be added to any parcel
  add_at-foreign :
      (material : Bool) (target : ℕ) (queue : Counts) (parcels : List PhysicalParcel)
      (shares : List Counts)
      → amount_in l queue ≡ 0
      → AreApart material parcels shares
      → AreApart material parcels (add_at target queue shares)
  unfolding add_at
  add_at-foreign material target queue [] [] z h = h
  add_at-foreign material target queue [] (share ∷ shares) z h = elim h [ ]
  add_at-foreign material target queue (parcel ∷ parcels) [] z h = elim h [ ]
  add_at-foreign material zero queue (parcel ∷ parcels) (share ∷ shares) z (h, hs) =
      (λ f. omega (arith, h f, amount_in-add_all l queue share), hs)
  add_at-foreign material (suc target) queue (parcel ∷ parcels) (share ∷ shares) z (h, hs) =
      (h, add_at-foreign material target queue parcels shares z hs)

  -- the last box of the material may be given anything
  add_at-own :
      (material : Bool) (target : ℕ) (queue : Counts) (parcels : List PhysicalParcel)
      (shares : List Counts)
      → last_matching material parcels ≡ some target
      → AreApart material parcels shares
      → AreApart material parcels (add_at target queue shares)
  unfolding last_matching add_at
  add_at-own material target queue [] shares e h = cc
  add_at-own material target queue (parcel ∷ parcels) [] e h = elim h [ ]
  add_at-own material target queue (parcel ∷ parcels) (share ∷ shares) e (h, hs) =
      let full = share ∷ shares in
      let Goal = λ (t : ℕ). AreApart material (parcel ∷ parcels) (add_at t queue full) in
      elim (Option-cases (last_matching material parcels)) [
        | inr (i, q) ↦
            let f : some (suc i) ≡ some target = rw q at e in
            subst Goal (some-injective (suc i) target f)
              (h, add_at-own material i queue parcels shares q hs)
        | inl q ↦
            let mine = if is_glass_type parcel.package_type then material else not material in
            elim (Bool-cases mine) [
              | inl own ↦
                  let f : some 0 ≡ some target = rw (q, own) at e in
                  let head : is_glass_type parcel.package_type ≡ not material
                      → amount_in l (add_all queue share) ≡ 0 =
                    λ g. absurd (own_foreign (is_glass_type parcel.package_type) material own g) in
                  subst Goal (some-injective 0 target f) (head, hs)
              | inr foreign ↦ let f : none ≡ some target = rw (q, foreign) at e in cc
            ]
      ]

-- Where there is a box of a line's material among the parcels, the line's goods lie in boxes of that
-- material only, also those for which the boxes have no room: no glass is counted into a parcel of
-- plastic, and no plastic into one of glass. All lines with the line's index are of its material.
pub assign_half_packs-AreApart :
    (l : ℕ) (material : Bool) (lines : List Line) (parcels : List PhysicalParcel)
    → IsOf l material lines
    → has_box material parcels ≡ true
    → AreApart l material parcels (assign_half_packs lines parcels)
unfolding assign_half_packs
assign_half_packs-AreApart l true lines parcels h b =
    let glass = queue_of true lines in
    let other = queue_of false lines in
    let packed = fill_parcels parcels glass other in
    let (apart, left) =
      fill_parcels-glass l parcels glass other (queue_of-foreign l true lines h) in
    let (j, q) = has_box-last_matching true parcels b in
    let inner = add_at-own l true j packed.glass parcels packed.shares q apart in
    let target = target_of-last_matching true parcels j q in
    subst
      (λ t.
        AreApart l true parcels
          (add_at (target_of false parcels) packed.other (add_at t packed.glass packed.shares)))
      target
      (add_at-foreign l true (target_of false parcels) packed.other parcels
        (add_at j packed.glass packed.shares) left inner)
assign_half_packs-AreApart l false lines parcels h b =
    let glass = queue_of true lines in
    let other = queue_of false lines in
    let packed = fill_parcels parcels glass other in
    let (apart, left) =
      fill_parcels-other l parcels glass other (queue_of-foreign l false lines h) in
    let (j, q) = has_box-last_matching false parcels b in
    let first = add_at (target_of true parcels) packed.glass packed.shares in
    let inner =
      add_at-foreign l false (target_of true parcels) packed.glass parcels packed.shares left
        apart in
    let target = target_of-last_matching false parcels j q in
    subst (λ t. AreApart l false parcels (add_at t packed.other first)) target
      (add_at-own l false j packed.other parcels first q inner)
