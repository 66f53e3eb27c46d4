-- ===== src/Services/Gateway.antt =====
-- api/services/gateway.py: `GatewayMetrics`, the live counts of requests that the autoscaler reads. A
-- `dict` is a function from its keys to what it holds; the gauges of the metrics exporter are left out.
pub mod Counts
pub mod Loads
mod Examples
use mini_ai_cloud.Prelude.{
  ℕ, ◌+◌, ◌-◌, Bool, true, false, ◌&&◌, Option, none, some, List, [], ◌∷◌, ◌++◌, leb, ◌==◌,
  if◌then◌else◌,
}
use mini_ai_cloud.Prelude.Int.{pos}
use mini_ai_cloud.Services.Autoscaler.{ServiceLoad}

pub record GatewayMetrics : Type 0 where
  pub active : ℕ → Option ℕ
  pub replica_active : ℕ → ℕ → Option ℕ
  pub observed_at : ℕ → Option ℕ

abbrev pub no_metrics : GatewayMetrics
no_metrics = record { active = λ i. none; replica_active = λ i j. none; observed_at = λ i. none }

-- `d.get(key, 0)`
abbrev pub get_or_zero : Option ℕ → ℕ
get_or_zero none = 0
get_or_zero (some n) = n

-- `d[key] = value`, and for the replicas also `d.pop(key, None)`.
abbrev pub put : (ℕ → Option ℕ) → ℕ → ℕ → ℕ → Option ℕ
put d key value i = if i == key then some value else d i

abbrev pub put_replica : (ℕ → ℕ → Option ℕ) → ℕ → ℕ → Option ℕ → ℕ → ℕ → Option ℕ
put_replica d service replica value i j = if (i == service) && (j == replica) then value else d i j

abbrev pub start_replica : (ℕ → ℕ → Option ℕ) → ℕ → Option ℕ → ℕ → ℕ → Option ℕ
start_replica d service none = d
start_replica d service (some replica) =
    put_replica d service replica (some (get_or_zero (d service replica) + 1))

unfoldable pub request_started : GatewayMetrics → ℕ → Option ℕ → ℕ → GatewayMetrics
request_started m service replica now = record {
  active = put m.active service (get_or_zero (m.active service) + 1);
  replica_active = start_replica m.replica_active service replica;
  observed_at = put m.observed_at service now;
}

abbrev pub finish_replica : (ℕ → ℕ → Option ℕ) → ℕ → Option ℕ → ℕ → ℕ → Option ℕ
finish_replica d service none = d
finish_replica d service (some replica) = put_replica d service replica (
    if leb (get_or_zero (d service replica)) 1
    then none
    else some (get_or_zero (d service replica) - 1))

unfoldable pub request_finished : GatewayMetrics → ℕ → Option ℕ → ℕ → GatewayMetrics
request_finished m service replica now =
    if leb (get_or_zero (m.active service)) 0 then m else record {
      active = put m.active service (get_or_zero (m.active service) - 1);
      replica_active = finish_replica m.replica_active service replica;
      observed_at = put m.observed_at service now;
    }

abbrev pub load : Option ℕ → ℕ → Option ServiceLoad
load none count = none
load (some at) count = some (record { active_requests = pos count; observed_at = at })

unfoldable pub snapshot : GatewayMetrics → ℕ → Option ServiceLoad
snapshot m service = load (m.observed_at service) (get_or_zero (m.active service))

unfoldable pub replica_snapshot : GatewayMetrics → ℕ → ℕ → Option ServiceLoad
replica_snapshot m service replica =
    load (m.observed_at service) (get_or_zero (m.replica_active service replica))

-- A request that is open: its service, and the replica that it was sent to, if any.
pub record Request : Type 0 where
  pub service : ℕ
  pub replica : Option ℕ

-- The metrics that starts and finishes of requests lead to, with the requests that are open: each
-- finish is that of an open request.
pub data Trace : GatewayMetrics → List Request → Type 0 where
  nothing : Trace no_metrics []
  starts :
      {m : GatewayMetrics} {open_requests : List Request}
      → Trace m open_requests
      → (r : Request) (now : ℕ)
      → Trace (request_started m r.service r.replica now) (r ∷ open_requests)
  finishes :
      {m : GatewayMetrics} (before : List Request) (r : Request) (after : List Request)
      → Trace m (before ++ r ∷ after)
      → (now : ℕ) → Trace (request_finished m r.service r.replica now) (before ++ after)
