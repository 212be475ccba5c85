-- ===== src/Shipping/Sync/Frozen.antt =====
-- Once execution has begun, a synchronisation leaves alone what a draft collects and how it is split.
use zdrovena_reconciliation.Prelude.{
  ◌≡◌, refl, ap, ◌∙◌, String, true, false, ◌||◌, some, List, [], ◌∷◌, str_eq, eq_iff, inl, inr,
  Bool-cases, arith,
}
use zdrovena_reconciliation.Prelude.Dict.{lookup, insert, update}
use zdrovena_reconciliation.Shipping.Draft.{Value, Draft, truthy}
use zdrovena_reconciliation.Shipping.Sync.{
  or_null, is_started, copied, only, fulfillment_fields, apaczka_fields, plan_fields, cod_fields,
  tracking_fields, with_status, with_service, merge_synced_draft,
}
use zdrovena_reconciliation.Shipping.Sync.Fields.{
  is_in, KeysIn, lookup-update_absent, lookup-update_head, keys_in_absent, only-KeysIn,
  copied_absent, lookup-update-copied, disjoint,
}
use zdrovena_reconciliation.Shipping.Sync.Kept.{before_status}

abbrev pub money_fields : List String
money_fields = "cod" ∷ "cod_error" ∷ "shipping_price" ∷ "order_items" ∷ []

abbrev split_fields : List String
split_fields = "shipping_price" ∷ "order_items" ∷ []

abbrev frozen : Draft → Draft
frozen existing =
    ("cod", or_null (lookup "cod" existing))
    ∷ ("cod_error", or_null (lookup "cod_error" existing))
    ∷ copied split_fields existing

lookup-frozen :
    (k : String) (v : Value) (existing m : Draft)
    → is_in k money_fields ≡ true
    → lookup k existing ≡ some v
    → lookup k (update m (frozen existing)) ≡ some v
lookup-frozen k v existing m h q = elim (Bool-cases (is_in k split_fields)) [
  | inl s ↦
      lookup-update-copied k v split_fields existing
        (insert "cod_error" (or_null (lookup "cod_error" existing))
          (insert "cod" (or_null (lookup "cod" existing)) m))
        q s
  | inr s ↦ elim (Bool-cases (str_eq k "cod")) [
    | inl e ↦ by_cod k ((eq_iff k "cod").0 e) q
    | inr e ↦ by_error k ((eq_iff k "cod_error").0 (ground (arith, h, s, e))) q
  ]
]
  where
    by_cod :
        (k : String)
        → k ≡ "cod"
        → lookup k existing ≡ some v
        → lookup k (update m (frozen existing)) ≡ some v
    by_cod k e q =
        let q' : lookup "cod" existing ≡ some v = rw e at q in
        rw e (
          lookup-update_head "cod" (or_null (lookup "cod" existing))
            (("cod_error", or_null (lookup "cod_error" existing)) ∷ copied split_fields existing) m
            (copied_absent "cod" split_fields existing refl)
          ∙ ap (λ o. some (or_null o)) q')

    by_error :
        (k : String)
        → k ≡ "cod_error"
        → lookup k existing ≡ some v
        → lookup k (update m (frozen existing)) ≡ some v
    by_error k e q =
        let q' : lookup "cod_error" existing ≡ some v = rw e at q in
        rw e (
          lookup-update_head "cod_error" (or_null (lookup "cod_error" existing))
            (copied split_fields existing) (insert "cod" (or_null (lookup "cod" existing)) m)
            (copied_absent "cod_error" split_fields existing refl)
          ∙ ap (λ o. some (or_null o)) q')

-- As soon as a draft's execution has begun, a synchronisation keeps the amount to collect, its error, the
-- shipping price and the order's lines: each of these four fields that the stored draft has stays as it
-- is. The stored plan of parcels, which the division of the amount reads too, is not among them.
pub merge_synced_draft_frozen :
    (digits_of : String → String) (existing incoming : Draft) (field : String) (v : Value)
    → (truthy (lookup "execution_started_at" existing) || is_started existing) ≡ true
    → is_in field money_fields ≡ true
    → lookup field existing ≡ some v
    → lookup field (merge_synced_draft digits_of existing incoming).0 ≡ some v
merge_synced_draft_frozen digits_of existing incoming field v begun h q =
    let merged =
      with_status digits_of existing incoming (before_status digits_of existing incoming) in
    let m = with_service existing (
      update
        (update (update merged (fulfillment_fields existing incoming))
          (apaczka_fields existing incoming))
        (plan_fields existing)) in
    let tracking_only : KeysIn ("tracking_number" ∷ "tracking_company" ∷ [])
        (tracking_fields existing) =
      only-KeysIn _ _ (record { keys = refl }) in
    let other : is_in field ("tracking_number" ∷ "tracking_company" ∷ []) ≡ false =
      disjoint field money_fields ("tracking_number" ∷ "tracking_company" ∷ []) refl h in
    let written : cod_fields existing ≡ frozen existing = rw begun (unfold only in refl) in
    unfold merge_synced_draft in
    (lookup-update_absent field (tracking_fields existing) (update m (cod_fields existing)) (
        keys_in_absent field ("tracking_number" ∷ "tracking_company" ∷ [])
          (tracking_fields existing) other tracking_only.keys)
      ∙ ap (λ fields. lookup field (update m fields)) written
      ∙ lookup-frozen field v existing m h q)
