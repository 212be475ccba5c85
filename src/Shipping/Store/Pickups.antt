-- ===== src/Shipping/Store/Pickups.antt =====
-- `try_claim_pickup` of shipping_store.py, and the writes that give a claimed pickup back, as
-- zdrovena/api/routers/shipping/fulfillment.py does when the order of a pickup fails or is in progress.
use zdrovena_reconciliation.Prelude.{
  ℕ, ◌+◌, ◌≤◌, ◌≡◌, String, Bool, true, false, not, ◌&&◌, ◌||◌, Option, none, some, List, [], ◌∷◌,
  arith, inl, inr, Bool-cases, Option-cases, str_eq, eq_iff, if◌then◌else◌,
}
use zdrovena_reconciliation.Prelude.Dict.{
  lookup, insert, lookup-insert, lookup-insert_self, lookup-insert_ne, update,
}
use zdrovena_reconciliation.Shipping.Draft.{flag, Draft, truthy}
use zdrovena_reconciliation.Shipping.Store.{Store, try_claim_pickup, update_draft}

-- One step of those that share the draft's `pickup_ordered`: a claim, or a write of fields.
pub data PickupStep : Type 0 where
  claims : String → PickupStep
  writes : String → Draft → PickupStep

-- the write gives the pickup back: it sets `pickup_ordered` to a false value
abbrev pub gives_back : Draft → Bool
gives_back [] = false
gives_back ((k, v) ∷ fields) =
    (str_eq "pickup_ordered" k && not (truthy (some v))) || gives_back fields

-- how many claims of the pickup of the draft `i` win, in the order of the file lock
unfoldable pub pickup_wins : String → List PickupStep → Store → ℕ
pickup_wins i [] store = 0
pickup_wins i (claims j ∷ steps) store =
    let (won, store') = try_claim_pickup j store in
    (if won && str_eq i j then 1 else 0) + pickup_wins i steps store'
pickup_wins i (writes j fields ∷ steps) store = pickup_wins i steps (update_draft j fields store).1

-- how many writes give the pickup of the draft `i` back
abbrev pub given_back : String → List PickupStep → ℕ
given_back i [] = 0
given_back i (claims j ∷ steps) = given_back i steps
given_back i (writes j fields ∷ steps) =
    (if str_eq i j && gives_back fields then 1 else 0) + given_back i steps

abbrev is_free_draft : Option Draft → Bool
is_free_draft none = false
is_free_draft (some draft) = not (truthy (lookup "pickup_ordered" draft))

abbrev is_free : String → Store → Bool
is_free i store = is_free_draft (lookup i store.drafts)

-- fields that do not give the pickup back keep it
update-ordered :
    (fields draft : Draft)
    → gives_back fields ≡ false
    → truthy (lookup "pickup_ordered" draft) ≡ true
    → truthy (lookup "pickup_ordered" (update draft fields)) ≡ true
update-ordered [] draft g t = t
update-ordered ((k, v) ∷ fields) draft g t =
    update-ordered fields (insert k v draft) (ground (arith, g)) (
      rw (lookup-insert k "pickup_ordered" v draft) (elim (Bool-cases (str_eq "pickup_ordered" k)) [
        | inl e ↦ rw e (ground (arith, g, e))
        | inr e ↦ rw e t
      ]))

-- a write frees no pickup but the one that it gives back
is_free-update_draft :
    (i j : String) (fields : Draft) (store : Store)
    → is_free i store ≡ false
    → str_eq i j && gives_back fields ≡ false
    → is_free i (update_draft j fields store).1 ≡ false
unfolding update_draft
is_free-update_draft i j fields store h g = elim (Option-cases (lookup j store.drafts)) [
  | inl e ↦ rw (e, update_draft) h
  | inr (draft, e) ↦ elim (Bool-cases (str_eq i j)) [
    | inr ne ↦
        rw (e, update_draft) (rw (lookup-insert_ne j i (update draft fields) store.drafts ne) h)
    | inl same ↦
        let kept : gives_back fields ≡ false = ground (arith, g, same) in
        let taken : not (truthy (lookup "pickup_ordered" draft)) ≡ false =
          rw ((eq_iff i j).0 same, e) at h in
        rw (e, update_draft, lookup-insert j i (update draft fields) store.drafts, same)
          (rw (update-ordered fields draft kept (ground (arith, taken))))
  ]
]

-- a claim takes the pickup that it wins, and frees none
is_free-try_claim_pickup :
    (i j : String) (store : Store)
    → is_free i (try_claim_pickup j store).1 ≡ (if str_eq i j then false else is_free i store)
unfolding try_claim_pickup
is_free-try_claim_pickup i j store = elim (Option-cases (lookup j store.drafts)) [
  | inl e ↦
      rw (e, try_claim_pickup)
        (elim (Bool-cases (str_eq i j)) [
          | inl same ↦ rw (same, (eq_iff i j).0 same, e)
          | inr ne ↦ rw ne
        ])
  | inr (draft, e) ↦ elim (Bool-cases (truthy (lookup "pickup_ordered" draft))) [
    | inl t ↦
        rw (e, try_claim_pickup)
          (rw (t, try_claim_pickup)
            (elim (Bool-cases (str_eq i j)) [
              | inl same ↦ rw (same, (eq_iff i j).0 same, e, t)
              | inr ne ↦ rw ne
            ]))
    | inr t ↦
        let ordered = insert "pickup_ordered" (flag true) draft in
        rw (e, try_claim_pickup)
          (rw (t, try_claim_pickup, lookup-insert j i ordered store.drafts)
            (elim (Bool-cases (str_eq i j)) [
              | inl same ↦ rw (same, lookup-insert_self "pickup_ordered" (flag true) draft)
              | inr ne ↦ rw ne
            ]))
  ]
]

won-is_free : (j : String) (store : Store) → (try_claim_pickup j store).0 ≡ is_free j store
unfolding try_claim_pickup
won-is_free j store = elim (Option-cases (lookup j store.drafts)) [
  | inl e ↦ rw (e, try_claim_pickup)
  | inr (draft, e) ↦ elim (Bool-cases (truthy (lookup "pickup_ordered" draft))) [
    | inl t ↦ rw (e, try_claim_pickup) (rw (t, try_claim_pickup))
    | inr t ↦ rw (e, try_claim_pickup) (rw (t, try_claim_pickup))
  ]
]

pickup_wins-le-free :
    (i : String) (steps : List PickupStep) (store : Store)
    → pickup_wins i steps store ≤ (if is_free i store then 1 else 0) + given_back i steps
unfolding pickup_wins
pickup_wins-le-free i [] store = omega arith
pickup_wins-le-free i (claims j ∷ steps) store = ground (
  arith,
  eq_iff i j,
  won-is_free j store,
  is_free-try_claim_pickup i j store,
  pickup_wins-le-free i steps (try_claim_pickup j store).1,
)
pickup_wins-le-free i (writes j fields ∷ steps) store =
    let later = pickup_wins-le-free i steps (update_draft j fields store).1 in
    elim (Bool-cases (str_eq i j && gives_back fields)) [
      | inl g ↦ rw g (ground (arith, later))
      | inr g ↦ rw g (elim (Bool-cases (is_free i store)) [
        | inl f ↦ rw f (ground (arith, later))
        | inr f ↦
            let sharper = rw (is_free-update_draft i j fields store f g) at later in
            rw f (omega (arith, sharper))
      ])
    ]

-- Of claims of pickups and writes of draft fields in any order, of any drafts, the claims that win one
-- draft's pickup are at most one more than the writes to that draft that set `pickup_ordered` back to a
-- false value.
pub pickup_wins-le-given_back :
    (i : String) (steps : List PickupStep) (store : Store)
    → pickup_wins i steps store ≤ 1 + given_back i steps
pickup_wins-le-given_back i steps store = ground (arith, pickup_wins-le-free i steps store)
