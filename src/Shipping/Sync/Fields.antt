-- ===== src/Shipping/Sync/Fields.antt =====
-- Fields that are written on a draft, by their names.
use zdrovena_reconciliation.Prelude.{
  ◌≡◌, refl, ◌∙◌, String, Bool, true, false, not, ◌&&◌, ◌||◌, none, some, List, [], ◌∷◌, str_eq,
  eq_iff, inl, inr, Bool-cases, Option-cases, arith,
}
use zdrovena_reconciliation.Prelude.Dict.{
  lookup, insert, update, lookup-insert_self, lookup-insert_ne,
}
use zdrovena_reconciliation.Shipping.Draft.{Value, Draft}
use zdrovena_reconciliation.Shipping.Sync.{copied, only, choose}

abbrev pub is_in : String → List String → Bool
is_in k [] = false
is_in k (f ∷ fs) = str_eq k f || is_in k fs

pub lookup-update_absent :
    (k : String) (fields m : Draft)
    → lookup k fields ≡ none
    → lookup k (update m fields) ≡ lookup k m
lookup-update_absent k [] m h = refl
lookup-update_absent k ((j, v) ∷ fields) m h = elim (Bool-cases (str_eq k j)) [
  | inl e ↦ let f = rw e at h in cc
  | inr e ↦ lookup-update_absent k fields (insert j v m) (rw e at h) ∙ lookup-insert_ne j k v m e
]

pub lookup-update_head :
    (k : String) (v : Value) (rest m : Draft)
    → lookup k rest ≡ none
    → lookup k (update m ((k, v) ∷ rest)) ≡ some v
lookup-update_head k v rest m h =
    lookup-update_absent k rest (insert k v m) h ∙ lookup-insert_self k v m

-- all keys are among the names
abbrev pub keys_in : List String → Draft → Bool
keys_in fs [] = true
keys_in fs ((j, v) ∷ d) = is_in j fs && keys_in fs d

abbrev all_in : List String → List String → Bool
all_in [] fs = true
all_in (g ∷ gs) fs = is_in g fs && all_in gs fs

differs :
    (k j : String) (fs : List String) → is_in k fs ≡ false → is_in j fs ≡ true → str_eq k j ≡ false
differs k j [] h l = cc
differs k j (f ∷ fs) h l = ground (arith, eq_iff k j, eq_iff k f, eq_iff j f, h, l, differs k j fs)

pub keys_in_absent :
    (k : String) (fs : List String) (d : Draft)
    → is_in k fs ≡ false
    → keys_in fs d ≡ true
    → lookup k d ≡ none
keys_in_absent k fs [] h l = refl
keys_in_absent k fs ((j, v) ∷ d) h l =
    let (a, b) : (is_in j fs ≡ true) × (keys_in fs d ≡ true) =
      (ground (arith, l), ground (arith, l)) in
    rw (differs k j fs h a) (keys_in_absent k fs d h b)

pub record KeysIn (fs : List String) (d : Draft) : Type 0 where
  pub keys : keys_in fs d ≡ true

-- the fields of a part that is written under a condition
pub only-KeysIn :
    {fs : List String} (b : Bool) (fields : Draft) → KeysIn fs fields → KeysIn fs (only b fields)
only-KeysIn true fields l = unfold only in l
only-KeysIn false fields l = unfold only in (record { keys = refl })

pub choose-KeysIn :
    {fs : List String} (b : Bool) (x y : Draft)
    → KeysIn fs x
    → KeysIn fs y
    → KeysIn fs (choose b x y)
choose-KeysIn true x y l m = unfold choose in l
choose-KeysIn false x y l m = unfold choose in m

pub keys_in-copied :
    (fs gs : List String) (d : Draft) → all_in gs fs ≡ true → keys_in fs (copied gs d) ≡ true
unfolding copied
keys_in-copied fs [] d h = refl
keys_in-copied fs (g ∷ gs) d h =
    let (a, b) : (is_in g fs ≡ true) × (all_in gs fs ≡ true) =
      (ground (arith, h), ground (arith, h)) in
    let later = keys_in-copied fs gs d b in
    elim (Option-cases (lookup g d)) [
      | inl q ↦ rw (q, copied) later
      | inr (v, q) ↦ rw (q, copied) (rw (a, later))
    ]

pub copied_absent :
    (k : String) (fs : List String) (d : Draft) → is_in k fs ≡ false → lookup k (copied fs d) ≡ none
unfolding copied
copied_absent k [] d h = refl
copied_absent k (f ∷ fs) d h = elim (Bool-cases (str_eq k f)) [
  | inl e ↦ let x = rw e at h in cc
  | inr e ↦
      let later = copied_absent k fs d (rw e at h) in
      elim (Option-cases (lookup f d)) [
        | inl q ↦ rw (q, copied) later
        | inr (v, q) ↦ rw (q, copied) (rw e later)
      ]
]

pub lookup-update-copied :
    (k : String) (v : Value) (fs : List String) (d m : Draft)
    → lookup k d ≡ some v
    → is_in k fs ≡ true
    → lookup k (update m (copied fs d)) ≡ some v
unfolding copied
lookup-update-copied k v [] d m q h = cc
lookup-update-copied k v (f ∷ fs) d m q h = elim (Bool-cases (is_in k fs)) [
  | inl l ↦ elim (Option-cases (lookup f d)) [
    | inl e ↦ rw (e, copied) (lookup-update-copied k v fs d m q l)
    | inr (w, e) ↦ rw (e, copied) (lookup-update-copied k v fs d (insert f w m) q l)
  ]
  | inr l ↦
      let same : k ≡ f = (eq_iff k f).0 (ground (arith, h, l)) in
      let e : lookup f d ≡ some v = rw (← same) q in
      let written = lookup-update_head k v (copied fs d) m (copied_absent k fs d l) in
      rw (e, copied) (rw (← same) written)
]

abbrev none_in : List String → List String → Bool
none_in [] fs = true
none_in (g ∷ gs) fs = not (is_in g fs) && none_in gs fs

pub disjoint :
    (k : String) (gs fs : List String)
    → none_in gs fs ≡ true
    → is_in k gs ≡ true
    → is_in k fs ≡ false
disjoint k [] fs n h = cc
disjoint k (g ∷ gs) fs n h = elim (Bool-cases (str_eq k g)) [
  | inl e ↦ rw ((eq_iff k g).0 e) (ground (arith, n))
  | inr e ↦ disjoint k gs fs (ground (arith, n)) (rw e at h)
]
