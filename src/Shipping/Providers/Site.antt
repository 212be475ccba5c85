-- ===== src/Shipping/Providers/Site.antt =====
-- What the couriers' APIs, the store and the network do to one run of a provider: every call may be
-- answered, refused, or carried out with its answer lost, which also stands for a process that dies;
-- every write of a checkpoint may be made or not, and raise or not.
use zdrovena_reconciliation.Prelude.{
  ◌+◌, ◌≤◌, ◌≡◌, refl, sym, subst, ◌∙◌, Bool, Option, none, some, List, [], ◌∷◌, ◌++◌, map, arith,
  if◌then◌else◌, inl, inr, Option-cases,
}
use zdrovena_reconciliation.Prelude.Result.{Result, ok, err}
use zdrovena_reconciliation.Shipping.Ports.{Exc}
use zdrovena_reconciliation.Shipping.Providers.Calls.{
  Checkpoint, Key, Call, key_of, stored_key, pending, ProviderRaised, communication, Action, ◌>>=◌,
  ◌>>◌, Created, checkpoint_of, pure, book_all,
}
use zdrovena_reconciliation.Shipping.Providers.Yields.{OnOk}
use zdrovena_reconciliation.Shipping.Providers.Keys.{
  count, count-snoc, AreDistinct, count_le, is_checkpointed-count, count-pending,
}

pub data Answer : Type 0 where
  created : Created → Answer
  refused lost : Exc → Answer

pub record Write : Type 0 where
  pub is_written : Bool
  pub raises : Option Exc

-- Of one execution: what each parcel's call is answered with, and what becomes of its checkpoint.
pub record Weather : Type 0 where
  pub answer : Key → Answer
  pub write : Key → Write

-- The parcels that were booked at the courier, those of them of which no checkpoint was written, and
-- the checkpoints of the stored draft.
pub record Site : Type 0 where
  pub booked : List Key
  pub unrecorded : List Key
  pub stored : List Checkpoint

abbrev write_raises : Option Exc → Result ProviderRaised (Unit {0})
write_raises none = ok tt
write_raises (some e) = err (communication e)

-- a booking counts as unrecorded until its checkpoint is written
unfoldable pub order_answered : {A : Type 0} → Call A → Answer → Action Site Created
order_answered call (refused e) site = (err (communication e), site)
order_answered call (lost e) site = (
  err (communication e),
  record site { booked = key_of call ∷ site.booked; unrecorded = key_of call ∷ site.unrecorded },
)
order_answered call (created result) site =
    (ok result, record site { booked = key_of call ∷ site.booked })

unfoldable checkpoint_write : Checkpoint → Write → Action Site (Unit {0})
checkpoint_write c write site = (
  write_raises write.raises,
  if write.is_written
      then record site { stored = site.stored ++ c ∷ [] }
      else record site { unrecorded = stored_key c ∷ site.unrecorded },
)

unfoldable pub create : {A : Type 0} → Weather → Call A → Action Site Created
unfolding order_answered
create weather call = order_answered call (weather.answer (key_of call))

unfoldable pub persist : Weather → Checkpoint → Action Site (Unit {0})
unfolding checkpoint_write
persist weather c = checkpoint_write c (weather.write (stored_key c))

-- Bookings of one key, what is stored of them, and what is not: the first is the sum of the others.
abbrev pub IsLedger : Key → Site → Type 0
IsLedger k site =
    count k site.booked ≡ count k (map stored_key site.stored) + count k site.unrecorded

-- what one turn of the loop may do to the bookings of a key
abbrev IsTurn : {A : Type 0} → Key → Call A → Site → Site → Type 0
IsTurn k call site after =
    IsLedger k after
    × (count k (map stored_key after.stored)
        ≤ count k (map stored_key site.stored) + count k (key_of call ∷ []))

order_answered-IsTurn :
    {A : Type 0} (k : Key) (weather : Weather) (call : Call A) (a : Answer) (site : Site)
    → IsLedger k site
    → IsTurn k call site
        ((order_answered call a >>= λ result. persist weather (checkpoint_of call result)) site).1
unfolding order_answered checkpoint_write persist count
order_answered-IsTurn k weather call (refused e) site h = ground arith
order_answered-IsTurn k weather call (lost e) site h = ground arith
order_answered-IsTurn k weather call (created result) site h =
    ground (arith, count-snoc k site.stored (checkpoint_of call result))

-- What the loop over the planned calls may do: the bookings stay accounted for, and no key gets more
-- checkpoints than it has calls.
abbrev IsBooked : Key → List Key → Site → Site → Type 0
IsBooked k keys site after =
    IsLedger k after
    × (count k (map stored_key after.stored) ≤ count k (map stored_key site.stored) + count k keys)

after_write :
    {A : Type 0} (k : Key) (call : Call A) (keys : List Key) (site site' after : Site)
    → IsTurn k call site site'
    → IsBooked k keys site' after
    → IsBooked k (key_of call ∷ keys) site after
unfolding count
after_write k call keys site site' after t b = ground arith

stopped :
    {A : Type 0} (k : Key) (call : Call A) (keys : List Key) (site site' : Site)
    → IsTurn k call site site'
    → IsBooked k (key_of call ∷ keys) site site'
unfolding count
stopped k call keys site site' t = ground arith

module _ {A : Type 0} (k : Key) (weather : Weather) where
  abbrev Onwards : List (Call A) → Type 0
  Onwards calls =
      (existing : List Checkpoint) (site : Site)
      → IsLedger k site
      → IsBooked k (map key_of calls) site
          (book_all (create weather) (persist weather) calls existing site).1

  first_call :
      (call : Call A) (calls : List (Call A)) (existing : List Checkpoint) (site : Site)
      (a : Answer)
      → Onwards calls
      → IsLedger k site
      → IsBooked k
          (map key_of (call ∷ calls))
          site
          ((order_answered call a >>= λ result.
              persist weather (checkpoint_of call result)
              >> book_all
                  (create weather)
                  (persist weather)
                  calls
                  (existing ++ checkpoint_of call result ∷ []))
            site).1
  unfolding order_answered persist checkpoint_write
  first_call call calls existing site (refused e) next h =
      stopped k call (map key_of calls) site _
        (order_answered-IsTurn k weather call (refused e) site h)
  first_call call calls existing site (lost e) next h =
      stopped k call (map key_of calls) site _
        (order_answered-IsTurn k weather call (lost e) site h)
  first_call call calls existing site (created result) next h =
      let t = order_answered-IsTurn k weather call (created result) site h in
      elim (Option-cases (weather.write (key_of call)).raises) [
        | inr (e, f) ↦ rw f (stopped k call (map key_of calls) site _ t)
        | inl f ↦ rw f (
            after_write k call (map key_of calls) site _ _ t
              (next (existing ++ checkpoint_of call result ∷ []) _ t.0))
      ]

  pub book_all-IsBooked : (calls : List (Call A)) → Onwards calls
  unfolding book_all create count
  book_all-IsBooked [] existing site h = ground arith
  book_all-IsBooked (call ∷ calls) existing site h =
      first_call call calls existing site (weather.answer (key_of call)) (book_all-IsBooked calls) h

-- A key has one checkpoint at most, and every booking is accounted for.
abbrev pub IsSound : Site → Type 0
IsSound site = (k : Key) → IsLedger k site × (count k (map stored_key site.stored) ≤ 1)

-- a draft of which nothing is booked yet
abbrev pub empty_site : Site
empty_site = record { booked = []; unrecorded = []; stored = [] }

pub empty_site-IsSound : IsSound empty_site
unfolding count
empty_site-IsSound k = omega arith

-- The loop over what `pending` leaves of a plan without two parcels of one key.
pub book_all-IsSound :
    {A : Type 0} (weather : Weather) (specs : List (Call A)) (existing : List Checkpoint)
    (site : Site)
    → AreDistinct (map key_of specs)
    → IsSound site
    → IsSound
        (book_all (create weather) (persist weather) (pending site.stored specs) existing site).1
book_all-IsSound weather specs existing site d h k =
    let b = book_all-IsBooked k weather (pending site.stored specs) existing site (h k).0 in
    (
      b.0,
      ground (
        arith,
        b.1,
        (h k).1,
        count_le k (map key_of specs) d,
        count-pending k site.stored specs,
        is_checkpointed-count k site.stored,
      ),
    )

-- an action that books and stores nothing
abbrev pub Reads : {A : Type 0} → Action Site A → Type 0
Reads m = (site : Site) → (m site).1 ≡ site

pub Reads-bind :
    {A B : Type 0} (m : Action Site A) (f : A → Action Site B)
    → Reads m
    → ((a : A) → Reads (f a))
    → Reads (m >>= f)
Reads-bind {A = A} m f h k site = go (m site).0 (m site).1 (h site)
  where
    go :
        (r : Result ProviderRaised A) (after : Site)
        → after ≡ site
        → (((λ s. (r, s)) >>= f) after).1 ≡ site
    go (err e) after g = g
    go (ok a) after g = k a after ∙ g

pub Reads-map :
    {A B : Type 0} (m : Action Site A) (g : A → B) → Reads m → Reads (m >>= λ a. pure (g a))
Reads-map m g h = Reads-bind m (λ a. pure (g a)) h λ a site. refl

-- what follows an action leaves the site as the action left it
pub after-Reads :
    {A B : Type 0} (m : Action Site A) (f : A → Action Site B)
    → ((a : A) → Reads (f a))
    → (site : Site) → ((m >>= f) site).1 ≡ (m site).1
after-Reads {A = A} m f k site = go (m site).0 (m site).1
  where
    go : (r : Result ProviderRaised A) (after : Site) → (((λ s. (r, s)) >>= f) after).1 ≡ after
    go (err e) after = refl
    go (ok a) after = k a after

-- checks that book nothing, and then what they allow
pub checked-IsSound :
    {A B : Type 0} (P : A → Type 0) (m : Action Site A) (f : A → Action Site B) (site : Site)
    → Reads m
    → OnOk P (m site).0
    → ((a : A) → P a → IsSound (f a site).1)
    → IsSound site
    → IsSound ((m >>= f) site).1
checked-IsSound {A = A} P m f site r y k h = go (m site).0 (m site).1 (r site) y
  where
    go :
        (x : Result ProviderRaised A) (after : Site)
        → after ≡ site
        → OnOk P x
        → IsSound (((λ s. (x, s)) >>= f) after).1
    go (err e) after g p = subst IsSound (sym g) h
    go (ok a) after g p = rw g (k a p)
