-- ===== src/Shipping/Providers/Yields.antt =====
-- What an action of a provider yields when it returns, whichever client and callback it is run with.
use zdrovena_reconciliation.Prelude.{
  ◌+◌, ◌==◌, ◌≡◌, refl, sym, ap, ◌∙◌, List, [], ◌∷◌, ◌++◌, map, arith, if◌then◌else◌,
}
use zdrovena_reconciliation.Prelude.Result.{Result, ok, err}
use zdrovena_reconciliation.Shipping.State.{created, pending_confirmation}
use zdrovena_reconciliation.Shipping.Planning.{physical_parcels}
use zdrovena_reconciliation.Shipping.Providers.Calls.{
  Checkpoint, ShipmentDraft, ShipmentPatch, is_confirmed, parcel_key, Key, Call, key_of, stored_key,
  pending, ProviderRaised, Action, ◌>>=◌, ◌>>◌, Created, checkpoint_of, book_all, same_parcel_key,
  ProviderError,
}
use zdrovena_reconciliation.Shipping.Providers.Keys.{count, is_checkpointed-count, count-pending}

abbrev pub OnOk : {E A : Type 0} → (A → Type 0) → Result E A → Type 0
OnOk P (err e) = Unit
OnOk P (ok a) = P a

abbrev pub Yields : {S A : Type 0} → (A → Type 0) → Action S A → Type 0
Yields {S = S} P m = (s : S) → OnOk P (m s).0

pub Yields-bind :
    {S A B : Type 0} (P : A → Type 0) (Q : B → Type 0) (m : Action S A) (f : A → Action S B)
    → Yields P m
    → ((a : A) → P a → Yields Q (f a))
    → Yields Q (m >>= f)
Yields-bind {S = S} {A = A} P Q m f h k s = go (m s).0 (m s).1 (h s)
  where
    go :
        (r : Result ProviderRaised A) (after : S)
        → OnOk P r
        → OnOk Q (((λ s. (r, s)) >>= f) after).0
    go (err e) after p = tt
    go (ok a) after p = k a p after

-- nothing is known of the value
pub Yields-any : {S A : Type 0} (m : Action S A) → Yields (λ a. Unit {0}) m
Yields-any {A = A} m s = go (m s).0
  where
    go : (r : Result ProviderRaised A) → OnOk (λ a. Unit {0}) r
    go (err e) = tt
    go (ok a) = tt

pub Yields-mono :
    {S A : Type 0} (P Q : A → Type 0) (m : Action S A)
    → ((a : A) → P a → Q a)
    → Yields P m
    → Yields Q m
Yields-mono {A = A} P Q m f h s = go (m s).0 (h s)
  where
    go : (r : Result ProviderRaised A) → OnOk P r → OnOk Q r
    go (err e) p = tt
    go (ok a) p = f a p

-- The stored shipment is the courier's answer to this call: in some state the courier's API, asked for
-- the call, answered with the shipment's id and tracking number, and the shipment is under the call's
-- type and number.
abbrev pub IsReply : {S A : Type 0} → (Call A → Action S Created) → Call A → Checkpoint → Type 0
IsReply {S = S} request call c =
    (s : S) × (result : Created) × ((request call s).0 ≡ ok result)
    × (c.id ≡ result.id)
    × (c.tracking_number ≡ result.tracking_number)
    × (c.package_type ≡ call.package_type)
    × (c.package_number ≡ call.package_number)

-- one stored shipment for each call, in the order of the calls
abbrev pub AreReplies :
    {S A : Type 0} → (Call A → Action S Created) → List (Call A) → List Checkpoint → Type 0
AreReplies request [] [] = Unit
AreReplies request (call ∷ calls) (c ∷ cs) = IsReply request call c × AreReplies request calls cs
AreReplies request _ _ = ⊥

-- The new shipments are those of the parcels whose key no stored shipment has: of such a key one for
-- each parcel, and of any other key none.
abbrev pub AreMissing : List Key → List Checkpoint → List Checkpoint → Type 0
AreMissing parcels existing new =
    (k : Key)
    → count k (map stored_key new)
      ≡ (if count k (map stored_key existing) == 0 then count k parcels else 0)

-- What a booking leaves in the patch: the stored shipments as they were, then the courier's answers to
-- the planned calls, which are those for the missing parcels. The order is `created` when each
-- shipment has its tracking number.
abbrev pub IsBooked :
    {S A : Type 0}
    → (Call A → Action S Created)
    → Result ProviderError (List (Call A))
    → List Key
    → List Checkpoint
    → ShipmentPatch
    → Type 0
IsBooked {A = A} request plan parcels existing patch =
    (calls : List (Call A)) × (new : List Checkpoint) × (plan ≡ ok calls)
    × (patch.courier_shipments ≡ existing ++ new)
    × AreReplies request calls new
    × AreMissing parcels existing new
    × (patch.status
        ≡ (if is_confirmed patch.courier_shipments then created else pending_confirmation))

-- the keys of a draft's parcels
abbrev pub parcel_keys : ShipmentDraft → List Key
parcel_keys draft = map parcel_key (physical_parcels draft.money.packages_breakdown)

++-assoc : {A : Type 0} (xs ys zs : List A) → (xs ++ ys) ++ zs ≡ xs ++ (ys ++ zs)
++-assoc [] ys zs = refl
++-assoc (x ∷ xs) ys zs = ap (λ l. x ∷ l) (++-assoc xs ys zs)

++-nil : {A : Type 0} (xs : List A) → xs ++ [] ≡ xs
++-nil [] = refl
++-nil (x ∷ xs) = ap (λ l. x ∷ l) (++-nil xs)

-- The shipments that a loop over `calls` ends with.
abbrev pub IsExtended :
    {S A : Type 0}
    → (Call A → Action S Created)
    → List (Call A)
    → List Checkpoint
    → List Checkpoint
    → Type 0
IsExtended request calls existing shipments =
    (new : List Checkpoint) × (shipments ≡ existing ++ new) × AreReplies request calls new

module _ {S A : Type 0} (request : Call A → Action S Created) where
  count-AreReplies :
      (k : Key) (calls : List (Call A)) (new : List Checkpoint)
      → AreReplies request calls new
      → count k (map stored_key new) ≡ count k (map key_of calls)
  unfolding count
  count-AreReplies k [] [] h = refl
  count-AreReplies k [] (c ∷ cs) h = elim h [ ]
  count-AreReplies k (call ∷ calls) [] h = elim h [ ]
  count-AreReplies k (call ∷ calls) (c ∷ cs) ((s, result, e, i, t, p, n), h) =
      rw (p, n)
        (ap (λ m. (if same_parcel_key k (key_of call) then 1 else 0) + m)
          (count-AreReplies k calls cs h))

  -- the calls of a plan that are pending book the missing parcels
  pub AreReplies-AreMissing :
      (specs : List (Call A)) (existing new : List Checkpoint)
      → AreReplies request (pending existing specs) new
      → AreMissing (map key_of specs) existing new
  AreReplies-AreMissing specs existing new h k = ground (
    arith,
    count-AreReplies k (pending existing specs) new h,
    count-pending k existing specs,
    is_checkpointed-count k existing,
  )

  module _ (create : Call A → Action S Created)
      (on_shipment_created : Checkpoint → Action S (Unit {0}))
      (answered : (call : Call A)
        → Yields (λ r. IsReply request call (checkpoint_of call r)) (create call)) where
    pub book_all-IsExtended :
        (calls : List (Call A)) (existing : List Checkpoint)
        → Yields
            (IsExtended request calls existing)
            (book_all create on_shipment_created calls existing)
    unfolding book_all
    book_all-IsExtended [] existing = λ s. ([], sym (++-nil existing), tt)
    book_all-IsExtended (call ∷ calls) existing =
        let after = λ (result : Created).
          book_all create on_shipment_created calls (existing ++ checkpoint_of call result ∷ []) in
        let Q = IsExtended request (call ∷ calls) existing in
        Yields-bind (λ result. IsReply request call (checkpoint_of call result)) Q (create call)
          (λ result. on_shipment_created (checkpoint_of call result) >> after result)
          (answered call)
          λ result reply.
            let c = checkpoint_of call result in
            Yields-bind (λ x. Unit {0}) Q (on_shipment_created c) (λ x. after result)
              (Yields-any (on_shipment_created c))
              λ x v.
                Yields-mono (IsExtended request calls (existing ++ c ∷ [])) Q (after result)
                  (λ shipments (new, e, h).
                    (c ∷ new, e ∙ ++-assoc existing (c ∷ []) new, (reply, h)))
                  (book_all-IsExtended calls (existing ++ c ∷ []))
