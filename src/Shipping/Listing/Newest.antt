-- ===== src/Shipping/Listing/Newest.antt =====
-- A listing shows the newest records, all of them where the limit allows.
use zdrovena_reconciliation.Prelude.{
  ℕ, ◌≡◌, refl, String, Bool, true, false, List, [], ◌∷◌, length, take, if◌then◌else◌, inl, inr,
  Bool-cases, suc, ltb, arith,
}
use mathlib.Core.List.{Permᴰ}
use mathlib.Core.List.Permᴰ
use zdrovena_reconciliation.Shipping.Store.{Store}
use zdrovena_reconciliation.Prelude.Text.{precedes, precedes_asymmetric}
use zdrovena_reconciliation.Shipping.Listing.{
  Notice, truncated, partition_scan, insert_newest, sort_newest, draft_created_at, entry_created_at,
  stored_drafts, stored_entries, list_drafts, list_dlq,
}

module _ {A : Type 0} (created_at : A → String) where
  abbrev is_head_newest : A → List A → Bool
  is_head_newest x [] = true
  is_head_newest x (y ∷ ys) = if precedes (created_at x) (created_at y) then false else true

  -- no record is older than its successor
  abbrev pub is_newest_first : List A → Bool
  is_newest_first [] = true
  is_newest_first (x ∷ xs) = if is_head_newest x xs then is_newest_first xs else false

  is_newest_first-insert_newest :
      (x : A) (xs : List A)
      → is_newest_first xs ≡ true
      → is_newest_first (insert_newest created_at x xs) ≡ true
  unfolding insert_newest
  is_newest_first-insert_newest x [] h = refl
  is_newest_first-insert_newest x (y ∷ []) h =
      ground (arith, precedes_asymmetric (created_at x) (created_at y))
  is_newest_first-insert_newest x (y ∷ z ∷ zs) h = ground (
    arith,
    precedes_asymmetric (created_at x) (created_at y),
    is_newest_first-insert_newest x (z ∷ zs),
  )

  is_newest_first-sort_newest : (xs : List A) → is_newest_first (sort_newest created_at xs) ≡ true
  unfolding sort_newest
  is_newest_first-sort_newest [] = refl
  is_newest_first-sort_newest (x ∷ xs) =
      is_newest_first-insert_newest x (sort_newest created_at xs) (is_newest_first-sort_newest xs)

  insert_newest-Perm : (x : A) (xs : List A) → Permᴰ (insert_newest created_at x xs) (x ∷ xs)
  unfolding insert_newest
  insert_newest-Perm x [] = Permᴰ.refl (x ∷ [])
  insert_newest-Perm x (y ∷ ys) = elim (Bool-cases (precedes (created_at x) (created_at y))) [
    | inl e ↦
        rw (e, insert_newest)
          (Permᴰ.trans (Permᴰ.cons refl (insert_newest-Perm x ys)) (Permᴰ.swap refl refl))
    | inr e ↦ rw (e, insert_newest) (Permᴰ.refl (x ∷ y ∷ ys))
  ]

  sort_newest-Perm : (xs : List A) → Permᴰ (sort_newest created_at xs) xs
  unfolding sort_newest
  sort_newest-Perm [] = Permᴰ.nil
  sort_newest-Perm (x ∷ xs) =
      Permᴰ.trans (insert_newest-Perm x (sort_newest created_at xs))
        (Permᴰ.cons refl (sort_newest-Perm xs))

  length-insert_newest :
      (x : A) (xs : List A) → length (insert_newest created_at x xs) ≡ suc (length xs)
  unfolding insert_newest
  length-insert_newest x [] = refl
  length-insert_newest x (y ∷ ys) = ground (arith, length-insert_newest x ys)

  length-sort_newest : (xs : List A) → length (sort_newest created_at xs) ≡ length xs
  unfolding sort_newest
  length-sort_newest [] = refl
  length-sort_newest (x ∷ xs) =
      omega (arith, length-insert_newest x (sort_newest created_at xs), length-sort_newest xs)

-- the first `limit` records of an order of all the records in which none is older than its successor
abbrev pub Listed : {A : Type 0} → (A → String) → ℕ → List A → List A → Type 0
Listed {A} created_at limit stored listed =
    (records : List A) × Permᴰ records stored
    × (is_newest_first created_at records ≡ true)
    × (listed ≡ take limit records)

abbrev pub warns : List Notice → Bool
warns [] = false
warns (partition_scan rows returned ∷ notices) = warns notices
warns (truncated rows limit ∷ notices) = true

-- `list_drafts` returns the newest drafts, as many as the limit allows, out of all that are stored; and it
-- warns of a truncated list exactly when more drafts are stored than the limit.
pub list_drafts-Listed :
    (limit : ℕ) (store : Store)
    → let (notices, listed) = list_drafts limit store in
      Listed draft_created_at limit (stored_drafts store) listed
      × (warns notices ≡ ltb limit (length (stored_drafts store)))
unfolding list_drafts
list_drafts-Listed limit store =
    let drafts = stored_drafts store in
    (
      (
        sort_newest draft_created_at drafts,
        sort_newest-Perm draft_created_at drafts,
        is_newest_first-sort_newest draft_created_at drafts,
        refl,
      ),
      (rw (length-sort_newest draft_created_at drafts) (ground arith)),
    )

-- `list_dlq` returns the newest entries of the dead-letter queue, as many as the limit allows.
pub list_dlq-Listed :
    (limit : ℕ) (store : Store)
    → Listed entry_created_at limit (stored_entries store) (list_dlq limit store)
unfolding list_dlq
list_dlq-Listed limit store =
    let entries = stored_entries store in
    (
      sort_newest entry_created_at entries,
      sort_newest-Perm entry_created_at entries,
      is_newest_first-sort_newest entry_created_at entries,
      refl,
    )
