-- ===== src/Shipping/Store/Orders.antt =====
-- One draft for one external order: what an upsert removes, and which draft a lookup prefers.
use zdrovena_reconciliation.Prelude.{
  ◌≡◌, ◌⊎◌, refl, sym, ◌∙◌, String, Bool, true, false, ◌||◌, Option, none, some, List, [], ◌∷◌,
  arith, inl, inr, Bool-cases, Option-cases, str_eq, eq_iff, if◌then◌else◌, All,
}
use mathlib.Core.Path.{subst}
use mathlib.Core.Option.{some-injective}
use zdrovena_reconciliation.Prelude.Dict.{
  Dict, lookup, without, lookup-insert_self, lookup-insert_ne, lookup-without,
}
use zdrovena_reconciliation.Shipping.Draft.{Draft, truthy}
use zdrovena_reconciliation.Shipping.Store.{
  Store, supersedes, duplicate_ids, local_duplicate_ids, without_all, upsert_draft, is_errored,
  first_healthy, preferred, find_drafts_by_external_id, find_draft_by_external_id,
}

abbrev mem : String → List String → Bool
mem k [] = false
mem k (j ∷ js) = str_eq k j || mem k js

lookup-without_all :
    (k : String) (ids : List String) (drafts : Dict Draft)
    → lookup k (without_all ids drafts) ≡ (if mem k ids then none else lookup k drafts)
unfolding without_all
lookup-without_all k [] drafts = refl
lookup-without_all k (i ∷ ids) drafts =
    lookup-without_all k ids (without i drafts) ∙ ground (arith, lookup-without i k drafts)

mem-duplicate_ids :
    (record_id : String) (r : Draft) (k : String) (draft : Draft) (drafts : Dict Draft)
    → lookup k drafts ≡ some draft
    → supersedes record_id r k draft ≡ true
    → mem k (duplicate_ids record_id r drafts) ≡ true
unfolding duplicate_ids
mem-duplicate_ids record_id r k draft [] e h = cc
mem-duplicate_ids record_id r k draft ((i, d) ∷ drafts) e h = elim (Bool-cases (str_eq k i)) [
  | inl same ↦ let found : some d ≡ some draft = rw same at e in ground (arith, eq_iff k i, found)
  | inr differ ↦
      let found : lookup k drafts ≡ some draft = rw differ at e in
      ground (arith, mem-duplicate_ids record_id r k draft drafts found h)
]

survivor :
    (record_id k : String) (r draft : Draft) (drafts : Dict Draft)
    → lookup k (without_all (local_duplicate_ids record_id r drafts) drafts) ≡ some draft
    → (lookup k drafts ≡ some draft)
      × (truthy (lookup "is_replacement" r) ≡ false → supersedes record_id r k draft ≡ false)
survivor record_id k r draft drafts found =
    let ids = local_duplicate_ids record_id r drafts in
    let kept : (if mem k ids then none else lookup k drafts) ≡ some draft =
      sym (lookup-without_all k ids drafts) ∙ found in
    elim (Bool-cases (mem k ids)) [
      | inl m ↦ let f : ◌≡◌ {A = Option Draft} none (some draft) = rw m at kept in cc
      | inr m ↦
          let old : lookup k drafts ≡ some draft = rw m at kept in
          (
            old,
            λ fresh. elim (Bool-cases (supersedes record_id r k draft)) [
              | inr no_match ↦ no_match
              | inl match ↦
                  let flagged : mem k ids ≡ true =
                    unfold local_duplicate_ids in
                    rw fresh (mem-duplicate_ids record_id r k draft drafts old match) in
                  cc
            ],
          )
    ]

-- the draft is stored under the id
abbrev pub IsEntry : String → Draft → Dict Draft → Type 0
IsEntry k draft [] = ⊥
IsEntry k draft ((i, d) ∷ drafts) = (i ≡ k) × (d ≡ draft) ⊎ IsEntry k draft drafts

-- a draft that `r` replaces is stored under the id
abbrev pub IsSuperseded : String → Draft → String → Dict Draft → Type 0
IsSuperseded record_id r k drafts =
    (truthy (lookup "is_replacement" r) ≡ false)
    × ((old : Draft) × IsEntry k old drafts × (supersedes record_id r k old ≡ true))

mem-superseded :
    (record_id : String) (r : Draft) (k : String) (drafts : Dict Draft)
    → mem k (duplicate_ids record_id r drafts) ≡ true
    → (old : Draft) × IsEntry k old drafts × (supersedes record_id r k old ≡ true)
unfolding duplicate_ids
mem-superseded record_id r k [] h = cc
mem-superseded record_id r k ((i, d) ∷ drafts) h =
    let later = λ (m : mem k (duplicate_ids record_id r drafts) ≡ true).
      let (old, e, q) = mem-superseded record_id r k drafts m in
      let there : IsEntry k old ((i, d) ∷ drafts) = inr e in
      let found : (old : Draft) × IsEntry k old ((i, d) ∷ drafts)
          × (supersedes record_id r k old ≡ true) =
        (old, there, q) in
      found in
    elim (Bool-cases (supersedes record_id r i d)) [
      | inr q ↦ later (rw q at h)
      | inl q ↦ elim (Bool-cases (str_eq k i)) [
        | inr differ ↦ later (rw (q, differ) at h)
        | inl same ↦
            let e = (eq_iff k i).0 same in
            (d, inl (sym e, refl), subst (λ j. supersedes record_id r j d ≡ true) (sym e) q)
      ]
    ]

mem-IsSuperseded :
    (record_id : String) (r : Draft) (k : String) (drafts : Dict Draft)
    → mem k (local_duplicate_ids record_id r drafts) ≡ true
    → IsSuperseded record_id r k drafts
unfolding local_duplicate_ids
mem-IsSuperseded record_id r k drafts h = elim (Bool-cases (truthy (lookup "is_replacement" r))) [
  | inl replacement ↦ let f : false ≡ true = rw replacement at h in cc
  | inr fresh ↦ (fresh, mem-superseded record_id r k drafts (rw fresh at h))
]

-- what `upsert_draft` makes of the draft under another id: it stays, or it is superseded and gone
abbrev pub IsKeptOrSuperseded : String → Draft → String → Store → Store → Type 0
IsKeptOrSuperseded record_id r k store store' =
    lookup k store'.drafts ≡ lookup k store.drafts
    ⊎ (lookup k store'.drafts ≡ none) × IsSuperseded record_id r k store.drafts

kept_or_superseded :
    (record_id k : String) (r : Draft) (store : Store)
    → str_eq k record_id ≡ false
    → IsKeptOrSuperseded record_id r k store (upsert_draft record_id r store)
unfolding upsert_draft
kept_or_superseded record_id k r store ne =
    let ids = local_duplicate_ids record_id r store.drafts in
    let after : lookup k (upsert_draft record_id r store).drafts
        ≡ (if mem k ids then none else lookup k store.drafts) =
      lookup-insert_ne record_id k r _ ne ∙ lookup-without_all k ids store.drafts in
    elim (Bool-cases (mem k ids)) [
      | inl m ↦ inr (after ∙ rw m, mem-IsSuperseded record_id r k store.drafts m)
      | inr m ↦ inl (after ∙ rw m)
    ]

-- After an order's draft is written, it is stored under its id. Every draft that is then stored under
-- another id was there before, unchanged; and where the written draft is no replacement, it is one that
-- the written draft does not supersede: a replacement itself, or of another order. What was stored
-- under another id is still there, unless the written draft is no replacement and supersedes it.
pub upsert_draft_unique :
    (record_id : String) (r : Draft) (store : Store)
    → let store' = upsert_draft record_id r store in
      (lookup record_id store'.drafts ≡ some r)
      × ((k : String) (draft : Draft)
          → str_eq k record_id ≡ false
          → lookup k store'.drafts ≡ some draft
          → (lookup k store.drafts ≡ some draft)
            × (truthy (lookup "is_replacement" r) ≡ false → supersedes record_id r k draft ≡ false))
      × ((k : String) → str_eq k record_id ≡ false → IsKeptOrSuperseded record_id r k store store')
unfolding upsert_draft
upsert_draft_unique record_id r store = (
  lookup-insert_self record_id r _,
  λ k draft ne found.
      survivor record_id k r draft store.drafts (sym (lookup-insert_ne record_id k r _ ne) ∙ found),
  λ k ne. kept_or_superseded record_id k r store ne,
)

healthy_or_errored :
    (drafts : List Draft) → first_healthy drafts ≡ none → All (λ d. is_errored d ≡ true) drafts
unfolding first_healthy
healthy_or_errored [] h = tt
healthy_or_errored (d ∷ drafts) h = elim (Bool-cases (is_errored d)) [
  | inl e ↦ (e, healthy_or_errored drafts (rw e at h))
  | inr e ↦ let f : some d ≡ none = rw e at h in cc
]

first_healthy_lem :
    (drafts : List Draft) (d : Draft) → first_healthy drafts ≡ some d → is_errored d ≡ false
unfolding first_healthy
first_healthy_lem [] d h = cc
first_healthy_lem (x ∷ drafts) d h = elim (Bool-cases (is_errored x)) [
  | inl e ↦ first_healthy_lem drafts d (rw e at h)
  | inr e ↦
      let f : some x ≡ some d = rw e at h in
      subst (λ z. is_errored z ≡ false) (some-injective x d f) e
]

preferred_lem :
    (drafts : List Draft) (draft : Draft)
    → preferred drafts ≡ some draft
    → is_errored draft ≡ true
    → All (λ d. is_errored d ≡ true) drafts
unfolding preferred
preferred_lem [] draft h e = tt
preferred_lem (x ∷ drafts) draft h e = elim (Option-cases (first_healthy (x ∷ drafts))) [
  | inl none_healthy ↦ healthy_or_errored (x ∷ drafts) none_healthy
  | inr (d, found) ↦
      let same : some d ≡ some draft = rw (found, preferred) at h in
      let sound = first_healthy_lem (x ∷ drafts) d found in
      let f : is_errored draft ≡ false =
        subst (λ z. is_errored z ≡ false) (some-injective d draft same) sound in
      cc
]

-- An errored draft is returned for an order only where every draft of the order is errored: a healthy
-- one always wins.
pub find_draft_by_external_id_healthy :
    (source external_order_id : String) (store : Store) (draft : Draft)
    → find_draft_by_external_id source external_order_id store ≡ some draft
    → is_errored draft ≡ true
    → All
        (λ d. is_errored d ≡ true)
        (find_drafts_by_external_id source external_order_id store.drafts)
unfolding find_draft_by_external_id
find_draft_by_external_id_healthy source external_order_id store draft =
    preferred_lem (find_drafts_by_external_id source external_order_id store.drafts) draft
