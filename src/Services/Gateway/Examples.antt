-- ===== src/Services/Gateway/Examples.antt =====
-- api/services/gateway.py: two requests to one service, of which one is over.
use mini_ai_cloud.Prelude.{ℕ, ◌≡◌, refl, some, [], ◌∷◌}
use mini_ai_cloud.Prelude.Int.{pos}
use mini_ai_cloud.Services.Gateway.{
  GatewayMetrics, no_metrics, request_started, request_finished, snapshot, replica_snapshot,
  Request, Trace, nothing, starts, finishes,
}
use mini_ai_cloud.Services.Gateway.Counts.{requests_of, replica_requests_of}
use mini_ai_cloud.Services.Gateway.Loads.{reported, Trace-reported}

abbrev first : Request
first = record { service = 4; replica = some 7 }

abbrev second : Request
second = record { service = 4; replica = some 8 }

abbrev metrics : GatewayMetrics
metrics =
    request_finished (request_started (request_started no_metrics 4 (some 7) 10) 4 (some 8) 20) 4
      (some 7) 30

abbrev two_starts : Trace metrics (second ∷ [])
two_starts = finishes (second ∷ []) first [] (starts (starts nothing first 10) second 20) 30

latest_load : snapshot metrics 4 ≡ some (record { active_requests = pos 1; observed_at = 30 })
unfolding snapshot request_started request_finished
latest_load = refl

Trace-reported_example :
    ((service : ℕ) → reported (snapshot metrics service) ≡ pos (requests_of service (second ∷ [])))
    × ((service replica : ℕ)
        → reported (replica_snapshot metrics service replica)
          ≡ pos (replica_requests_of service replica (second ∷ [])))
Trace-reported_example = Trace-reported two_starts
