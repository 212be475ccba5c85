-- ===== src/Shipping/Store/Claims.antt =====
-- The claims of shipping_store.py: a draft is executed by one caller at most.
use zdrovena_reconciliation.Prelude.{
  ℕ, ◌+◌, ◌≤◌, ◌≡◌, refl, sym, ◌∙◌, String, Bool, true, false, ◌&&◌, Option, none, some, List, [],
  ◌∷◌, arith, inl, inr, Bool-cases, Option-cases, str_eq, eq_iff, if◌then◌else◌,
}
use zdrovena_reconciliation.Prelude.Dict.{
  Dict, lookup, insert, lookup-insert, lookup-insert_self, lookup-insert_ne,
}
use zdrovena_reconciliation.Shipping.State.{executing, can_execute}
use zdrovena_reconciliation.Shipping.Draft.{text, Draft, status_of}
use zdrovena_reconciliation.Shipping.Store.{Store, claimed, started_at, try_claim_execution}

-- A claimed draft reads as `executing`.
pub status_of-claimed :
    (draft : Draft) (now : String) → status_of (claimed draft now) ≡ some executing
unfolding status_of
status_of-claimed draft now =
    let e =
      lookup-insert_ne "execution_started_at" "status" (started_at draft now)
        (insert "status" (text "executing") draft) refl
      ∙ lookup-insert_self "status" (text "executing") draft in
    rw e

-- whether a claim on the draft would win
abbrev claimable_draft : Option Draft → Bool
claimable_draft none = false
claimable_draft (some draft) = can_execute (status_of draft)

abbrev pub claimable : String → Store → Bool
claimable i store = claimable_draft (lookup i store.drafts)

pub try_claim_loses :
    (now j : String) (store : Store)
    → claimable j store ≡ false
    → try_claim_execution now j store ≡ (false, store)
unfolding try_claim_execution
try_claim_loses now j store h = elim (Option-cases (lookup j store.drafts)) [
  | inl e ↦ rw (e, try_claim_execution)
  | inr (draft, e) ↦
      let refused : can_execute (status_of draft) ≡ false = rw e at h in
      rw (e, try_claim_execution) (rw (refused, try_claim_execution))
]

try_claim_wins :
    (now j : String) (store : Store)
    → claimable j store ≡ true
    → (draft : Draft) × (lookup j store.drafts ≡ some draft)
      × (try_claim_execution now j store
          ≡ (true, record store { drafts = insert j (claimed draft now) store.drafts }))
unfolding try_claim_execution
try_claim_wins now j store h = elim (Option-cases (lookup j store.drafts)) [
  | inl e ↦ let f : false ≡ true = rw e at h in cc
  | inr (draft, e) ↦
      let accepted : can_execute (status_of draft) ≡ true = rw e at h in
      (draft, e, rw (e, try_claim_execution) (rw (accepted, try_claim_execution)))
]

claimable_after :
    (now j i : String) (draft : Draft) (drafts : Dict Draft)
    → claimable_draft (lookup i (insert j (claimed draft now) drafts))
      ≡ (if str_eq i j then false else claimable_draft (lookup i drafts))
claimable_after now j i draft drafts = elim (Bool-cases (str_eq i j)) [
  | inl e ↦ rw (lookup-insert, e, status_of-claimed) (unfold can_execute in refl)
  | inr e ↦ rw (lookup-insert, e) refl
]

claimable-try_claim_execution :
    (now j i : String) (store : Store)
    → claimable i (try_claim_execution now j store).1
      ≡ (if str_eq i j then false else claimable i store)
claimable-try_claim_execution now j i store = elim (Bool-cases (claimable j store)) [
  | inl h ↦
      let (draft, e, q) = try_claim_wins now j store h in
      rw q (claimable_after now j i draft store.drafts)
  | inr h ↦
      rw (try_claim_loses now j store h)
        (elim (Bool-cases (str_eq i j)) [ inl e ↦ rw (e, (eq_iff i j).0 e) h | inr e ↦ rw e ])
]

-- A claim that wins takes a draft that was there in an executable status, writes `executing` over it
-- and touches no other draft; one that loses changes nothing.
pub try_claim_execution_lem :
    (now j : String) (store : Store)
    → let (won, store') = try_claim_execution now j store in
      (won ≡ claimable j store)
      × ((i : String) → str_eq i j ≡ false → lookup i store'.drafts ≡ lookup i store.drafts)
      × (won ≡ false → store' ≡ store)
      × (won ≡ true
          → (draft : Draft) × (lookup j store'.drafts ≡ some draft)
            × (status_of draft ≡ some executing))
try_claim_execution_lem now j store = elim (Bool-cases (claimable j store)) [
  | inl h ↦
      let (draft, e, q) = try_claim_wins now j store h in
      rw q (
        sym h,
        λ i ne. lookup-insert_ne j i (claimed draft now) store.drafts ne,
        λ f. cc,
        λ t. (
          claimed draft now,
          lookup-insert_self j (claimed draft now) store.drafts,
          status_of-claimed draft now,
        ),
      )
  | inr h ↦ rw (try_claim_loses now j store h) (sym h, λ i ne. refl, λ f. refl, λ f. cc)
]

-- Callers that race for drafts, one claim after the other as the file lock orders them: how many win
-- the draft `i`.
unfoldable pub wins : String → List (String × String) → Store → ℕ
wins i [] store = 0
wins i ((now, j) ∷ claims) store =
    let (won, store') = try_claim_execution now j store in
    (if won && str_eq i j then 1 else 0) + wins i claims store'

wins_unclaimable :
    (i : String) (claims : List (String × String)) (store : Store)
    → claimable i store ≡ false
    → wins i claims store ≡ 0
unfolding wins
wins_unclaimable i [] store h = refl
wins_unclaimable i ((now, j) ∷ claims) store h = ground (
  arith,
  eq_iff i j,
  wins_unclaimable i claims (try_claim_execution now j store).1,
  claimable-try_claim_execution now j i store,
  (try_claim_execution_lem now j store).0,
)

-- However many callers race for drafts, at most one of them wins any given draft.
pub wins-le-one :
    (i : String) (claims : List (String × String)) (store : Store) → wins i claims store ≤ 1
unfolding wins
wins-le-one i [] store = omega arith
wins-le-one i ((now, j) ∷ claims) store = ground (
  arith,
  eq_iff i j,
  wins-le-one i claims (try_claim_execution now j store).1,
  wins_unclaimable i claims (try_claim_execution now j store).1,
  claimable-try_claim_execution now j i store,
  (try_claim_execution_lem now j store).0,
)
