-- ===== src/Shipping/Providers/Keys.antt =====
-- The keys of parcels and of stored shipments, counted; and what `pending` leaves of a plan.
use zdrovena_reconciliation.Prelude.{
  ℕ, ◌+◌, ◌≤◌, ◌≡◌, refl, ap, true, List, [], ◌∷◌, ◌++◌, map, arith, if◌then◌else◌, inl, inr,
  Bool-cases, eq_iff, ltb,
}
use zdrovena_reconciliation.Shipping.Parcels.{PackageType, unlisted}
use zdrovena_reconciliation.Shipping.Providers.Calls.{
  Checkpoint, Key, Call, key_of, stored_key, same_type, same_parcel_key, is_checkpointed, pending,
}

same_type-eq : (s t : PackageType) → same_type s t ≡ true → s ≡ t
unfolding same_type
same_type-eq (unlisted s) (unlisted t) h = ap unlisted (ground (arith, eq_iff s t))
same_type-eq s t h = ground arith

pub same_parcel_key-eq : (k j : Key) → same_parcel_key k j ≡ true → k ≡ j
unfolding same_parcel_key
same_parcel_key-eq (s, m) (t, n) h =
    let e : s ≡ t = same_type-eq s t (ground arith) in let f : m ≡ n = ground arith in cc

same_type_refl : (t : PackageType) → same_type t t ≡ true
unfolding same_type
same_type_refl (unlisted s) = ground (arith, eq_iff s s)
same_type_refl t = ground arith

pub same_parcel_key_refl : (k : Key) → same_parcel_key k k ≡ true
unfolding same_parcel_key
same_parcel_key_refl (t, n) = ground (arith, same_type_refl t)

-- how often a key stands in a list
unfoldable pub count : Key → List Key → ℕ
unfolding same_parcel_key
count k [] = 0
count k (j ∷ js) = (if same_parcel_key k j then 1 else 0) + count k js

pub count-append : (k : Key) (js is : List Key) → count k (js ++ is) ≡ count k js + count k is
unfolding count
count-append k [] is = omega arith
count-append k (j ∷ js) is = omega (arith, count-append k js is)

pub count-snoc :
    (k : Key) (cs : List Checkpoint) (c : Checkpoint)
    → count k (map stored_key (cs ++ c ∷ []))
      ≡ count k (map stored_key cs) + (if same_parcel_key k (stored_key c) then 1 else 0)
unfolding count
count-snoc k [] c = omega arith
count-snoc k (b ∷ cs) c = omega (arith, count-snoc k cs c)

-- no two of the parcels have the same key
abbrev pub AreDistinct : List Key → Type 0
AreDistinct [] = Unit
AreDistinct (k ∷ ks) = (count k ks ≡ 0) × AreDistinct ks

pub count_le : (k : Key) (ks : List Key) → AreDistinct ks → count k ks ≤ 1
unfolding count
count_le k [] d = omega arith
count_le k (j ∷ js) d = elim (Bool-cases (same_parcel_key k j)) [
  | inl e ↦ let f = same_parcel_key-eq k j e in let g : count k js ≡ 0 = rw f d.0 in ground arith
  | inr e ↦ ground (arith, count_le k js d.1)
]

-- a checkpoint's key is one that is counted
pub is_checkpointed-count :
    (k : Key) (cs : List Checkpoint) → is_checkpointed k cs ≡ ltb 0 (count k (map stored_key cs))
unfolding is_checkpointed count
is_checkpointed-count k [] = refl
is_checkpointed-count k (c ∷ cs) = ground (arith, is_checkpointed-count k cs)

module _ {A : Type 0} where
  -- what `pending` leaves of a plan: of each key all the calls, or none
  pub count-pending :
      (k : Key) (cs : List Checkpoint) (specs : List (Call A))
      → count k (map key_of (pending cs specs))
        ≡ (if is_checkpointed k cs then 0 else count k (map key_of specs))
  unfolding pending count
  count-pending k cs [] = ground arith
  count-pending k cs (spec ∷ specs) = elim (Bool-cases (same_parcel_key k (key_of spec))) [
    | inl e ↦
        let f : is_checkpointed k cs ≡ is_checkpointed (key_of spec) cs =
          ap (λ j. is_checkpointed j cs) (same_parcel_key-eq k (key_of spec) e) in
        ground (arith, count-pending k cs specs)
    | inr e ↦ ground (arith, count-pending k cs specs)
  ]
