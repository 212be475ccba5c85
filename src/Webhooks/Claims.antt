-- ===== src/Webhooks/Claims.antt =====
-- A delivery is processed once: of the calls of `mark_seen_if_new` within the lifetime of an entry, one
-- wins at most.
use zdrovena_reconciliation.Prelude.{
  ℕ, ◌+◌, ◌≤◌, ◌<◌, ◌≡◌, refl, sym, subst, String, Bool, true, false, not, ◌&&◌, Option, some, List,
  [], ◌∷◌, leb, All, str_eq, eq_iff, if◌then◌else◌, inl, inr, Bool-cases, Option-cases, arith,
}
use zdrovena_reconciliation.Prelude.Result.{Result, ok, err}
use zdrovena_reconciliation.Prelude.Dict.{Dict, lookup, lookup-insert, lookup-insert_self}
use zdrovena_reconciliation.Sending.{Timestamp, instant}
use zdrovena_reconciliation.Webhooks.{
  DedupStoreError, Stored, corrupt, entries, ttl, is_expired, pruned, mark_seen_if_new,
  is_duplicate,
}

-- a call: whether its write succeeds, its time and its delivery
abbrev pub Call : Type 0
Call = Bool × ℕ × String

abbrev pub is_win : Result DedupStoreError Bool → Bool
is_win (ok b) = b
is_win (err e) = false

-- how many of the calls, in the order in which they got the lock, win the delivery `i`
unfoldable pub wins : String → List Call → Stored → ℕ
wins i [] stored = 0
wins i ((saves, now, j) ∷ calls) stored =
    let (r, stored') = mark_seen_if_new saves now j stored in
    (if is_win r && str_eq i j then 1 else 0) + wins i calls stored'

-- an entry from within the window that starts at `from`
abbrev is_recent : ℕ → Option Timestamp → Bool
is_recent from (some (instant t)) = leb from t
is_recent from _ = false

-- a file that does not load lets nobody win
abbrev pub is_taken : ℕ → String → Stored → Bool
is_taken from i corrupt = true
is_taken from i (entries seen) = is_recent from (lookup i seen)

abbrev pub InWindow : ℕ → Call → Type 0
InWindow from (saves, now, j) = (from ≤ now) × (now < from + ttl)

is_recent-pruned :
    (from now : ℕ) (i : String) (seen : Dict Timestamp)
    → now < from + ttl
    → is_recent from (lookup i seen) ≡ true
    → is_recent from (lookup i (pruned now seen)) ≡ true
unfolding pruned is_expired
is_recent-pruned from now i [] w h = h
is_recent-pruned from now i ((k, t) ∷ rest) w h =
    ground (arith, eq_iff i k, is_recent-pruned from now i rest w)

taken_loses :
    (from : ℕ) (i : String) (saves : Bool) (now : ℕ) (stored : Stored)
    → InWindow from (saves, now, i)
    → is_taken from i stored ≡ true
    → is_win (mark_seen_if_new saves now i stored).0 ≡ false
unfolding mark_seen_if_new is_expired
taken_loses from i saves now corrupt w h = ground arith
taken_loses from i saves now (entries seen) w h = ground arith

still_taken :
    (from : ℕ) (i : String) (saves : Bool) (now : ℕ) (j : String) (stored : Stored)
    → InWindow from (saves, now, j)
    → is_taken from i stored ≡ true
    → is_taken from i (mark_seen_if_new saves now j stored).1 ≡ true
unfolding mark_seen_if_new
still_taken from i saves now j corrupt w h = ground arith
still_taken from i saves now j (entries seen) w h = ground (
  arith,
  is_recent-pruned from now i seen w.1 h,
  lookup-insert j i (instant now) (pruned now seen),
)

win_takes :
    (from : ℕ) (i : String) (saves : Bool) (now : ℕ) (stored : Stored)
    → InWindow from (saves, now, i)
    → is_win (mark_seen_if_new saves now i stored).0 ≡ true
    → is_taken from i (mark_seen_if_new saves now i stored).1 ≡ true
unfolding mark_seen_if_new
win_takes from i saves now corrupt w h = ground arith
win_takes from i saves now (entries seen) w h =
    ground (arith, lookup-insert_self i (instant now) (pruned now seen))

wins_taken :
    (from : ℕ) (i : String) (calls : List Call) (stored : Stored)
    → All (InWindow from) calls
    → is_taken from i stored ≡ true
    → wins i calls stored ≡ 0
unfolding wins
wins_taken from i [] stored w h = refl
wins_taken from i ((saves, now, j) ∷ calls) stored (first, w) h = elim (Bool-cases (str_eq i j)) [
  | inl e ↦
      let next =
        wins_taken from i calls (mark_seen_if_new saves now j stored).1 w
          (still_taken from i saves now j stored first h) in
      let lost =
        subst (λ k. is_win (mark_seen_if_new saves now k stored).0 ≡ false) ((eq_iff i j).0 e)
          (taken_loses from i saves now stored first h) in
      rw (lost, next)
  | inr e ↦
      let next =
        wins_taken from i calls (mark_seen_if_new saves now j stored).1 w
          (still_taken from i saves now j stored first h) in
      ground (arith, e, next)
]

-- Of all the calls within one lifetime (24 hours), in any order and for any deliveries, with any of their
-- writes failing, at most one is told that a given delivery is new.
pub dedup_wins-le-one :
    (from : ℕ) (i : String) (calls : List Call) (stored : Stored)
    → All (InWindow from) calls
    → wins i calls stored ≤ 1
unfolding wins
dedup_wins-le-one from i [] stored w = omega arith
dedup_wins-le-one from i ((saves, now, j) ∷ calls) stored (first, w) =
    let (r, stored') = mark_seen_if_new saves now j stored in
    let later = dedup_wins-le-one from i calls stored' w in
    elim (Bool-cases (is_win r)) [
      | inl won ↦ elim (Bool-cases (str_eq i j)) [
        | inl e ↦
            let taken =
              subst (λ k. is_taken from k stored' ≡ true) (sym ((eq_iff i j).0 e))
                (win_takes from j saves now stored first won) in
            let none_later = wins_taken from i calls stored' w taken in
            ground (arith, e, won, none_later)
        | inr e ↦ ground (arith, e, later)
      ]
      | inr lost ↦ ground (arith, lost, later)
    ]

-- For a delivery with an id, the question and the claim agree: where the file loads and the writes succeed,
-- `mark_seen_if_new` wins exactly when `is_duplicate` at the same time answers that there is no duplicate.
pub is_duplicate-mark_seen_if_new :
    (now : ℕ) (i : String) (seen : Dict Timestamp)
    → str_eq i "" ≡ false
    → (b : Bool) × ((is_duplicate true now i (entries seen)).0 ≡ ok b)
      × ((mark_seen_if_new true now i (entries seen)).0 ≡ ok (not b))
unfolding is_duplicate mark_seen_if_new
is_duplicate-mark_seen_if_new now i seen h = elim (Option-cases (lookup i seen)) [
  | inl e ↦ (
    false,
    rw (h, is_duplicate) (rw (e, is_duplicate)),
    rw (h, mark_seen_if_new) (rw (e, mark_seen_if_new)),
  )
  | inr (t, e) ↦ elim (Bool-cases (is_expired t now)) [
    | inl x ↦ (
      false,
      rw (h, is_duplicate) (rw (e, is_duplicate) (rw (x, is_duplicate))),
      rw (h, mark_seen_if_new) (rw (e, mark_seen_if_new) (rw (x, mark_seen_if_new))),
    )
    | inr x ↦ (
      true,
      rw (h, is_duplicate) (rw (e, is_duplicate) (rw (x, is_duplicate))),
      rw (h, mark_seen_if_new) (rw (e, mark_seen_if_new) (rw (x, mark_seen_if_new))),
    )
  ]
]
