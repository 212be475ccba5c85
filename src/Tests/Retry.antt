-- ===== src/Tests/Retry.antt =====
-- A request that is answered at the third attempt.
use zdrovena_reconciliation.Prelude.{ℕ, ◌==◌, ◌≡◌, refl, String, Option, none, some, if◌then◌else◌}
use zdrovena_reconciliation.Prelude.Result.{ok}
use zdrovena_reconciliation.Retry.{Reply, replied, request_failed, retry_request, wait_after}
use zdrovena_reconciliation.Retry.Attempts.{Log, scripted, failures, Ends, retry_request-Ends}

abbrev unread : String → Option ℕ
unread s = none

abbrev thirty : String → Option ℕ
thirty s = some 30

abbrev script : ℕ → Reply String
script n =
    if n == 2
    then replied "ok"
    else request_failed (record { status = some 503; retry_after = none; message = "" })

abbrev nothing_sent : Log
nothing_sent = record { sent = 0; waits = 0 }

retry_request_run :
    retry_request unread unread (scripted script (λ n. n)) (λ t. t) 3 2 nothing_sent
    ≡ (ok "ok", record { sent = 3; waits = 2 })
unfolding retry_request
retry_request_run = refl

-- the header is followed where it asks for longer than the delay
wait_after_run :
    wait_after thirty unread 0 4
      (record { status = some 429; retry_after = some "30"; message = "" })
    ≡ 30
unfolding wait_after
wait_after_run = refl

retry_request-Ends_example :
    Ends unread unread
      (λ t. t)
      (λ n. n)
      script
      3
      (failures script 0 3)
      nothing_sent
      (retry_request unread unread (scripted script (λ n. n)) (λ t. t) 3 2 nothing_sent)
retry_request-Ends_example = retry_request-Ends unread unread (λ t. t) (λ n. n) script 3 2
