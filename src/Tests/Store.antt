-- ===== src/Tests/Store.antt =====
-- The draft store: runs and instances.
use zdrovena_reconciliation.Prelude.{
  ◌≡◌, ◌≤◌, ◌+◌, refl, String, false, some, List, [], ◌∷◌, str_eq,
}
use zdrovena_reconciliation.Prelude.Dict.{lookup}
use zdrovena_reconciliation.Shipping.State.{can_execute}
use zdrovena_reconciliation.Shipping.Draft.{text, flag, number, Draft, truthy}
use zdrovena_reconciliation.Shipping.Store.{
  Store, try_claim_execution, try_claim_pickup, update_draft, upsert_draft, supersedes,
}
use zdrovena_reconciliation.Shipping.Store.Claims.{wins, wins-le-one}
use zdrovena_reconciliation.Shipping.Store.Pickups.{
  PickupStep, claims, writes, pickup_wins, given_back, pickup_wins-le-given_back,
}
use zdrovena_reconciliation.Shipping.Store.Orders.{IsKeptOrSuperseded, upsert_draft_unique}

abbrev pub order : String → Draft
order status =
    ("source", text "allegro") ∷ ("external_order_id", text "A1") ∷ ("status", text status) ∷ []

abbrev pub store : Store
store = record { drafts = ("d1", order "pending") ∷ ("d2", order "error") ∷ []; dlq = [] }

abbrev race : List (String × String)
race = ("10:00", "d1") ∷ ("10:00", "d2") ∷ ("10:01", "d1") ∷ ("10:02", "d2") ∷ []

race_run : wins "d1" race store ≡ 1
unfolding wins try_claim_execution can_execute
race_run = refl

wins-le-one_example : wins "d1" race store ≤ 1
wins-le-one_example = wins-le-one "d1" race store

-- the second claim loses, and the one after the pickup was given back wins
abbrev pickups : List PickupStep
pickups =
    claims "d1" ∷ claims "d1" ∷ writes "d1" (("pickup_ordered", flag false) ∷ []) ∷ claims "d1" ∷ []

pickups_run : pickup_wins "d1" pickups store ≡ 2
unfolding pickup_wins try_claim_pickup update_draft
pickups_run = refl

pickup_wins-le-given_back_example : pickup_wins "d1" pickups store ≤ 1 + given_back "d1" pickups
pickup_wins-le-given_back_example = pickup_wins-le-given_back "d1" pickups store

upsert_draft_unique_example :
    let store' = upsert_draft "d3" (order "pending") store in
    (lookup "d3" store'.drafts ≡ some (order "pending"))
    × ((k : String) (draft : Draft)
        → str_eq k "d3" ≡ false
        → lookup k store'.drafts ≡ some draft
        → (lookup k store.drafts ≡ some draft)
          × (truthy (lookup "is_replacement" (order "pending")) ≡ false
              → supersedes "d3" (order "pending") k draft ≡ false))
    × ((k : String)
        → str_eq k "d3" ≡ false
        → IsKeptOrSuperseded "d3" (order "pending") k store store')
upsert_draft_unique_example = upsert_draft_unique "d3" (order "pending") store

-- an id that the shop sent as a number is the same order's as its text
abbrev numbered : Draft
numbered = ("source", text "allegro") ∷ ("external_order_id", number 4021) ∷ []

numbered_run :
    (upsert_draft "d4"
      (("source", text "allegro") ∷ ("external_order_id", text "4021") ∷ [])
      (record { drafts = ("d5", numbered) ∷ []; dlq = [] })).drafts
    ≡ ("d4", ("source", text "allegro") ∷ ("external_order_id", text "4021") ∷ []) ∷ []
unfolding upsert_draft
numbered_run = refl

upsert_run : (upsert_draft "d3" (order "pending") store).drafts ≡ ("d3", order "pending") ∷ []
unfolding upsert_draft
upsert_run = refl

abbrev failed : Store
failed = record { drafts = ("d2", order "error") ∷ []; dlq = [] }
