-- ===== src/Tests/Sending.antt =====
-- Sent messages and webhook deliveries: runs and instances.
use zdrovena_reconciliation.Prelude.{◌≡◌, ◌≤◌, ◌+◌, refl, true, false, none, List, [], ◌∷◌, arith}
use zdrovena_reconciliation.Prelude.Dict.{Dict}
use zdrovena_reconciliation.Sending.{Timestamp, instant, default_stale_after}
use zdrovena_reconciliation.Sending.Once.{
  Happening, asks, accepted, decided, history, outstanding, empty, sends_once,
}
use zdrovena_reconciliation.Webhooks.{entries, mark_seen_if_new}
use zdrovena_reconciliation.Webhooks.Claims.{Call, wins, dedup_wins-le-one}

-- a crash after the first send; an operator finds that nothing arrived, and the second send is confirmed
abbrev crash : List Happening
crash =
    asks "a1" "digest" 0
    ∷ asks "a2" "digest" 700000000
    ∷ decided 800000000 false "anna" ""
    ∷ asks "a3" "digest" 900000000
    ∷ accepted 900000001 none
    ∷ asks "a4" "digest" 900000002
    ∷ []

crash_run : (history default_stale_after crash empty).sends ≡ 2
unfolding history
crash_run = refl

sends_once_example :
    let log = history default_stale_after crash empty in
    (log.sends ≡ log.not_delivered + outstanding log.attempt) × (log.sends ≤ log.not_delivered + 1)
sends_once_example = sends_once default_stale_after crash

abbrev deliveries : List Call
deliveries = (true, 5, "w1") ∷ (true, 6, "w2") ∷ (false, 7, "w1") ∷ (true, 8, "w1") ∷ []

deliveries_run : wins "w1" deliveries (entries []) ≡ 1
unfolding wins mark_seen_if_new
deliveries_run = refl

dedup_wins-le-one_example : wins "w1" deliveries (entries []) ≤ 1
dedup_wins-le-one_example = dedup_wins-le-one 0 "w1" deliveries (entries []) (
  (omega arith, omega arith),
  ((omega arith, omega arith), ((omega arith, omega arith), ((omega arith, omega arith), tt))),
)

abbrev seen_once : Dict Timestamp
seen_once = ("w1", instant 5) ∷ []
