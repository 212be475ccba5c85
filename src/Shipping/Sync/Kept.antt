-- ===== src/Shipping/Sync/Kept.antt =====
-- What a synchronisation leaves as it was.
use zdrovena_reconciliation.Prelude.{
  ◌≡◌, ◌⊎◌, refl, ap, ◌∙◌, String, Bool, true, false, ◌&&◌, ◌||◌, some, List, [], ◌∷◌, str_eq,
  eq_iff, inl, inr, Bool-cases, arith,
}
use zdrovena_reconciliation.Prelude.Dict.{lookup, update, lookup-insert_self}
use zdrovena_reconciliation.Shipping.Draft.{Value, text, Draft}
use zdrovena_reconciliation.Shipping.Sync.{
  preserved_fields, match_fields, has, or_null, is_terminal, is_busy, copied, choose, is_filled,
  origin_fields, fulfilled_fields, status_fields, fulfillment_fields, matched_fields,
  apaczka_fields, plan_fields, service_fields, cod_fields, tracking_fields, preserved, with_status,
  with_service, completed, merge_synced_draft,
}
use zdrovena_reconciliation.Shipping.Sync.Fields.{
  is_in, KeysIn, lookup-update_absent, keys_in_absent, only-KeysIn, choose-KeysIn, keys_in-copied,
  lookup-update-copied, disjoint,
}

-- the fields that are written after the status
abbrev pub late_fields : List String
late_fields =
    "fulfillment_status" ∷ "apaczka_service_id" ∷ "shipping_service_match_status"
    ∷ "shipping_service_match_source" ∷ "shipping_service_match_detail" ∷ "packages_breakdown"
    ∷ "packages_count" ∷ "packages_source" ∷ "service" ∷ "courier" ∷ "cod" ∷ "cod_error"
    ∷ "shipping_price" ∷ "order_items" ∷ "tracking_number" ∷ "tracking_company" ∷ []

-- fields that are written after the status
abbrev pub IsLate : Draft → Type 0
IsLate = KeysIn late_fields

-- the status goes with the time of the fulfilment and with the error
abbrev pub status_keys : List String
status_keys = "status" ∷ "fulfilled_at" ∷ "error" ∷ []

module _ (existing incoming : Draft) where
  fulfillment-IsLate : IsLate (fulfillment_fields existing incoming)
  fulfillment-IsLate = only-KeysIn _ _ (record { keys = refl })

  match-IsLate : IsLate (matched_fields existing)
  match-IsLate =
      only-KeysIn _ _ (record { keys = keys_in-copied late_fields match_fields existing refl })

  apaczka-IsLate : IsLate (apaczka_fields existing incoming)
  apaczka-IsLate = only-KeysIn _ _ (record { keys = match-IsLate.keys })

  plan-IsLate : IsLate (plan_fields existing)
  plan-IsLate = only-KeysIn _ _ (record { keys = refl })

  service-IsLate : (merged : Draft) → IsLate (service_fields existing merged)
  service-IsLate merged = only-KeysIn _ _ (record { keys = refl })

  cod-IsLate : IsLate (cod_fields existing)
  cod-IsLate = only-KeysIn _ _ (record {
    keys = keys_in-copied late_fields ("shipping_price" ∷ "order_items" ∷ []) existing refl;
  })

  pub tracking-IsLate : IsLate (tracking_fields existing)
  tracking-IsLate = only-KeysIn _ _ (record { keys = refl })

  -- the parts after the status leave every other field alone
  completed_same :
      (k : String)
      → is_in k late_fields ≡ false
      → (merged : Draft) → lookup k (completed existing incoming merged) ≡ lookup k merged
  completed_same k other merged =
      let same : (fields m : Draft) → IsLate fields → lookup k (update m fields) ≡ lookup k m =
        λ fields m l.
          lookup-update_absent k fields m (keys_in_absent k late_fields fields other l.keys) in
      let m1 = update merged (fulfillment_fields existing incoming) in
      let m2 = update m1 (apaczka_fields existing incoming) in
      let m3 = update m2 (plan_fields existing) in
      let m4 = with_service existing m3 in
      let m5 = update m4 (cod_fields existing) in
      same (tracking_fields existing) m5 tracking-IsLate
      ∙ same (cod_fields existing) m4 cod-IsLate
      ∙ same (service_fields existing m3) m3 (service-IsLate m3)
      ∙ same (plan_fields existing) m2 plan-IsLate
      ∙ same (apaczka_fields existing incoming) m1 apaczka-IsLate
      ∙ same (fulfillment_fields existing incoming) merged fulfillment-IsLate

  status-KeysIn :
      (digits_of : String → String) (merged : Draft)
      → KeysIn status_keys (status_fields digits_of existing incoming merged)
  status-KeysIn digits_of merged =
      let one : (v : Value) → KeysIn status_keys (("status", v) ∷ []) =
        λ v. record { keys = refl } in
      let dated : (v : Value) → KeysIn status_keys (("fulfilled_at", v) ∷ []) =
        λ v. record { keys = refl } in
      choose-KeysIn _ _ _ (one _) (
        choose-KeysIn _ _ _ (one _) (
          choose-KeysIn _ _ _ (record { keys = (only-KeysIn _ _ (dated _)).keys })
            (choose-KeysIn _ _ _ (one _) (
              choose-KeysIn _ _ _ (record { keys = refl }) (choose-KeysIn _ _ _ (one _) (one _))))))

-- `shipment_origin` is kept unless it is empty
abbrev pub lasting_fields : List String
lasting_fields =
    "id" ∷ "created_at" ∷ "execution_started_at" ∷ "courier_draft_id" ∷ "courier_shipments"
    ∷ "dispatch_order_id" ∷ "allegro_shipment_id" ∷ "allegro_dispatch_id"
    ∷ "allegro_pickup_command_id" ∷ "pickup_ordered" ∷ "fakturownia_invoice_id"
    ∷ "fakturownia_invoice_number" ∷ "fakturownia_invoice_error" ∷ "fakturownia_invoice_attempts"
    ∷ "fakturownia_invoice_attempted_at" ∷ "allegro_fulfillment_status" ∷ []

module _ (digits_of : String → String) (existing incoming : Draft) where
  abbrev pub before_status : Draft
  before_status = let kept = preserved existing incoming in update kept (origin_fields kept)

  -- A synchronisation keeps what the program has recorded of a draft: its identity, when its execution
  -- began, its shipments, pickups and commands at the couriers, and its invoice. Whatever the shop sends,
  -- each of these fields that the stored draft has stays as it is.
  pub merge_synced_draft_lasting :
      (field : String) (v : Value)
      → is_in field lasting_fields ≡ true
      → lookup field existing ≡ some v
      → lookup field (merge_synced_draft digits_of existing incoming).0 ≡ some v
  merge_synced_draft_lasting field v h q =
      let kept = preserved existing incoming in
      let late : is_in field late_fields ≡ false =
        disjoint field lasting_fields late_fields refl h in
      let status : is_in field status_keys ≡ false =
        disjoint field lasting_fields status_keys refl h in
      let origin : is_in field ("shipment_origin" ∷ []) ≡ false =
        disjoint field lasting_fields ("shipment_origin" ∷ []) refl h in
      let fulfilled : is_in field ("fulfilled_at" ∷ []) ≡ false =
        disjoint field lasting_fields ("fulfilled_at" ∷ []) refl h in
      let listed : is_in field preserved_fields ≡ true = ground (arith, h) in
      let copied_value =
        lookup-update-copied field v preserved_fields existing (update existing incoming) q
          listed in
      let origin_only : KeysIn ("shipment_origin" ∷ []) (origin_fields kept) =
        only-KeysIn _ _ (record { keys = refl }) in
      let fulfilled_only : KeysIn ("fulfilled_at" ∷ []) (fulfilled_fields existing incoming) =
        only-KeysIn _ _ (record { keys = refl }) in
      let base = update (update existing incoming) (copied preserved_fields existing) in
      unfold merge_synced_draft in
      (completed_same existing incoming field late
          (with_status digits_of existing incoming before_status)
        ∙ lookup-update_absent field (status_fields digits_of existing incoming before_status)
            before_status
            (keys_in_absent field status_keys
              (status_fields digits_of existing incoming before_status) status
              (status-KeysIn existing incoming digits_of before_status).keys)
        ∙ lookup-update_absent field (origin_fields kept) kept (
            keys_in_absent field ("shipment_origin" ∷ []) (origin_fields kept) origin
              origin_only.keys)
        ∙ lookup-update_absent field (fulfilled_fields existing incoming) base (
            keys_in_absent field ("fulfilled_at" ∷ []) (fulfilled_fields existing incoming)
              fulfilled fulfilled_only.keys)
        ∙ copied_value)

  choose-true : (b : Bool) (x y : Draft) → b ≡ true → choose b x y ≡ x
  choose-true b x y e = rw e (unfold choose in refl)

  choose-false : (b : Bool) (x y : Draft) → b ≡ false → choose b x y ≡ y
  choose-false b x y e = rw e (unfold choose in refl)

  merged_status :
      lookup "status" (merge_synced_draft digits_of existing incoming).0
      ≡ lookup "status" (with_status digits_of existing incoming before_status)
  merged_status =
      unfold merge_synced_draft in
      (completed_same existing incoming "status" refl
        (with_status digits_of existing incoming before_status))

  waits_for :
      (status : String) (b : Bool)
      → lookup "status" existing ≡ some (text status)
      → has "status" "pending_confirmation" existing && b ≡ true
      → status ≡ "pending_confirmation"
  waits_for status b q w =
      let w' : str_eq status "pending_confirmation" && b ≡ true = rw q at w in
      (eq_iff status "pending_confirmation").0 (ground (arith, w'))

  abbrev pub settled_statuses : List String
  settled_statuses = "created" ∷ "cancelled" ∷ "executing" ∷ "pending_confirmation" ∷ []

  -- A synchronisation never takes back how far a draft has come: one that is created, cancelled, or being
  -- executed keeps its status whatever the shop says, and one that waits for a confirmation keeps it or
  -- becomes created.
  pub merge_synced_draft_settled :
      (status : String)
      → is_in status settled_statuses ≡ true
      → lookup "status" existing ≡ some (text status)
      → (lookup "status" (merge_synced_draft digits_of existing incoming).0 ≡ some (text status))
        ⊎ ((status ≡ "pending_confirmation")
            × (lookup "status" (merge_synced_draft digits_of existing incoming).0
                ≡ some (text "created")))
  merge_synced_draft_settled status h q =
      let waiting =
        has "status" "pending_confirmation" existing
        && is_filled (lookup "tracking_number" before_status) in
      let settled : (is_terminal existing || is_busy existing) ≡ true = rw q (ground (arith, h)) in
      let chosen : (fields : Draft)
          → status_fields digits_of existing incoming before_status ≡ fields
          → lookup "status" (merge_synced_draft digits_of existing incoming).0
            ≡ lookup "status" (update before_status fields) =
        λ fields e. merged_status ∙ ap (λ fs. lookup "status" (update before_status fs)) e in
      elim (Bool-cases waiting) [
        | inl w ↦ inr (
          waits_for status _ q w,
          chosen _ (choose-true waiting _ _ w)
              ∙ lookup-insert_self "status" (text "created") before_status,
        )
        | inr w ↦ inl (
            chosen _ (
              choose-false waiting _ _ w
              ∙ choose-true (is_terminal existing || is_busy existing) _ _ settled)
            ∙ lookup-insert_self "status" (or_null (lookup "status" existing)) before_status
            ∙ ap (λ o. some (or_null o)) q)
      ]
