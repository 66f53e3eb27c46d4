-- ===== src/Repositories/Outbox/Examples.antt =====
-- repositories/outbox.py: two consumers and three events.
use mini_ai_cloud.Prelude.{ℕ, ◌≡◌, refl, Bool, false, none, some, List, [], ◌∷◌, All, arith}
use mini_ai_cloud.Repositories.Outbox.Events.{
  OutboxEvent, get_event, pending_query, claim_batch, backoff, claims, reports_processed,
  reports_failed, Call, run_all,
}
use mini_ai_cloud.Repositories.Outbox.Lease.{run_all-processed}
use mini_ai_cloud.Repositories.Outbox.Selection.{Selects, pending_query-oldest}
use mini_ai_cloud.Repositories.Outbox.Claims.{claim_batch-leases}

abbrev event : ℕ → ℕ → OutboxEvent
event id created_at = record {
  id = id;
  created_at = created_at;
  available_at = created_at;
  processed_at = none;
  locked_by = none;
  locked_until = none;
  attempts = 0;
  last_error = none;
}

abbrev done : OutboxEvent
done = record (event 3 5) { processed_at = some 6 }

abbrev none_busy : ℕ → Bool
none_busy i = false

abbrev queue : List OutboxEvent
queue = event 1 20 ∷ event 2 10 ∷ done ∷ []

abbrev other_calls : List Call
other_calls =
    record { owner = 9; now = 110; action = claims none_busy 5 30 }
    ∷ record { owner = 9; now = 120; action = reports_processed 2 }
    ∷ record { owner = 9; now = 130; action = reports_failed 1 "late" 60 }
    ∷ []

oldest_first :
    (claim_batch none_busy 8 1 50 100 queue).0
    ≡ record (event 2 10) { locked_by = some 8; locked_until = some 150 } ∷ []
unfolding claim_batch
oldest_first = refl

backoff_example : (backoff 3 60_000_000 ≡ 4_000_000) × (backoff 12 60_000_000 ≡ 60_000_000)
unfolding backoff
backoff_example = (refl, refl)

run_all-processed_example : get_event 3 (run_all other_calls queue) ≡ some done
run_all-processed_example =
    run_all-processed queue done other_calls ((refl, (refl, tt)), ((refl, tt), (tt, tt))) refl refl

claim_batch-leases_example :
    All
      (λ e.
        get_event e.id (run_all other_calls (claim_batch none_busy 8 2 50 100 queue).1) ≡ some e)
      (claim_batch none_busy 8 2 50 100 queue).0
claim_batch-leases_example =
    claim_batch-leases none_busy 8 2 50 100 queue other_calls
      ((refl, (refl, tt)), ((refl, tt), (tt, tt)))
      ((refl, omega arith), ((refl, omega arith), ((refl, omega arith), tt)))

pending_query-oldest_example : Selects none_busy 1 100 queue (pending_query none_busy 1 100 queue)
pending_query-oldest_example = pending_query-oldest none_busy 1 100 queue
