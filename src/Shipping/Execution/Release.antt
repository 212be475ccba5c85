-- ===== src/Shipping/Execution/Release.antt =====
-- A failed execution does not leave its draft claimed.
use zdrovena_reconciliation.Prelude.{
  String, Bool, true, false, Option, none, some, [], ◌∷◌, ◌++◌, ◌≡◌, ◌⊎◌, refl, ◌∙◌, inl, inr,
  Option-cases,
}
use zdrovena_reconciliation.Prelude.Dict.{
  lookup, insert, update, lookup-insert_self, lookup-insert_ne,
}
use zdrovena_reconciliation.Shipping.State.{error, same}
use zdrovena_reconciliation.Shipping.Draft.{text, Draft, status_of}
use zdrovena_reconciliation.Shipping.Store.{Store, get_draft, update_draft}
use zdrovena_reconciliation.Shipping.Ports.{Exc, Action, ◌>>=◌}
use zdrovena_reconciliation.Shipping.Execution.{
  logged, release_if, release_if_executing, release_execution_claim,
}
use zdrovena_reconciliation.Shipping.Patches.{error_fields, still_executing}
use zdrovena_reconciliation.Shipping.Execution.Local.{
  Effect, World, StoreCall, reads, updates, Storage, stored, with_store, local_repository,
  local_effects,
}

status_of-error_fields :
    (draft : Draft) (message : String)
    → status_of (update draft (error_fields message)) ≡ some error
unfolding status_of
status_of-error_fields draft message =
    let e =
      lookup-insert_ne "error" "status" (text message) (insert "status" (text "error") draft) refl
      ∙ lookup-insert_self "status" (text "error") draft in
    rw e

pub update_draft_present :
    (i : String) (fields draft : Draft) (store : Store)
    → lookup i store.drafts ≡ some draft
    → update_draft i fields store
      ≡ (true, record store { drafts = insert i (update draft fields) store.drafts })
unfolding update_draft
update_draft_present i fields draft store q = rw (q, update_draft)

-- whether the stored draft is still in the claimed state
abbrev pub is_claimed : String → World → Bool
is_claimed i w = still_executing (lookup i w.store.drafts)

-- The handler's own read or write of the draft raised: it logs that, last of all, and the draft stays.
abbrev pub IsLeftAsIs : Storage → String → World → Type 0
IsLeftAsIs storage i w' =
    (before : World) × (call : StoreCall) × (e : Exc) × (call ≡ reads i
      ⊎ (fields : Draft) × (call ≡ updates i fields))
    × (storage call before ≡ some e)
    × (w' ≡ record before {
      trace = before.trace ++ Effect.logged "Failed to release execution claim" ∷ [];
    })

abbrev pub IsReleasedOrLeft : Storage → String → World → Type 0
IsReleasedOrLeft storage i w' = is_claimed i w' ≡ false ⊎ IsLeftAsIs storage i w'

module _ (now uuid : String) (storage : Storage) (faults : Effect → Option Exc) (i : String)
    (e : Exc) (w : World) where
  abbrev left : World
  left = record w { trace = w.trace ++ Effect.logged "Failed to release execution claim" ∷ [] }

  released_draft :
      (draft : Draft)
      → lookup i w.store.drafts ≡ some draft
      → is_claimed i (with_store w (update_draft i (error_fields e.message) w.store).1) ≡ false
  released_draft draft q = rw (update_draft_present i (error_fields e.message) draft w.store q) (
      rw (lookup-insert_self i (update draft (error_fields e.message)) w.store.drafts)
        (rw (status_of-error_fields draft e.message, still_executing) (unfold same in refl)))

  -- the handler, given what each of its two store calls raises and whether the draft is claimed
  finished : Option Exc → Bool → Option Exc → World
  finished (some x) claimed failed = left
  finished none false failed = w
  finished none true (some x) = left
  finished none true none = with_store w (update_draft i (error_fields e.message) w.store).1

  abbrev handled : {A : Type 0} → Action World A → World
  handled body =
      logged (local_repository now uuid storage) (local_effects faults)
        "Failed to release execution claim" body w

  written-finished :
      (failed : Option Exc)
      → handled (stored failed (update_draft i (error_fields e.message) w.store))
        ≡ finished none true failed
  unfolding logged finished
  written-finished none = refl
  written-finished (some x) = refl

  tested-finished :
      (claimed : Bool)
      → handled (release_if (local_repository now uuid storage) (local_effects faults) claimed i e)
        ≡ finished none claimed (storage (updates i (error_fields e.message)) w)
  unfolding logged release_if finished
  tested-finished false = refl
  tested-finished true = written-finished (storage (updates i (error_fields e.message)) w)

  read-finished :
      (read : Option Exc)
      → handled (
          stored read (get_draft i w.store, w.store)
          >>= release_if_executing (local_repository now uuid storage) (local_effects faults) i e)
        ≡ finished read (is_claimed i w) (storage (updates i (error_fields e.message)) w)
  unfolding logged finished get_draft
  read-finished none = tested-finished (is_claimed i w)
  read-finished (some x) = refl

  released-finished :
      release_execution_claim (local_repository now uuid storage) (local_effects faults) i e w
      ≡ finished
          (storage (reads i) w)
          (is_claimed i w)
          (storage (updates i (error_fields e.message)) w)
  unfolding release_execution_claim logged
  released-finished = read-finished (storage (reads i) w)

  finished-IsReleasedOrLeft :
      (read : Option Exc) (claimed : Bool) (failed : Option Exc)
      → storage (reads i) w ≡ read
      → is_claimed i w ≡ claimed
      → storage (updates i (error_fields e.message)) w ≡ failed
      → IsReleasedOrLeft storage i (finished read claimed failed)
  unfolding finished
  finished-IsReleasedOrLeft (some x) claimed failed r c f = inr (w, reads i, x, inl refl, r, refl)
  finished-IsReleasedOrLeft none false failed r c f = inl c
  finished-IsReleasedOrLeft none true (some x) r c f =
      inr (w, updates i (error_fields e.message), x, inr (error_fields e.message, refl), f, refl)
  finished-IsReleasedOrLeft none true none r c f = elim (Option-cases (lookup i w.store.drafts)) [
    | inl q ↦ let g : false ≡ true = rw q at c in cc
    | inr (draft, q) ↦ inl (released_draft draft q)
  ]

  -- The handler that releases the claim leaves no draft in `executing`, unless the store fails it.
  pub release_execution_claim_local :
      IsReleasedOrLeft storage i
        (release_execution_claim (local_repository now uuid storage) (local_effects faults) i e w)
  release_execution_claim_local = rw released-finished (
      finished-IsReleasedOrLeft (storage (reads i) w) (is_claimed i w)
        (storage (updates i (error_fields e.message)) w) refl refl refl)
