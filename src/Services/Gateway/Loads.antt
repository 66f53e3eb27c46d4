-- ===== src/Services/Gateway/Loads.antt =====
-- api/services/gateway.py: what the loads report.
use mini_ai_cloud.Prelude.{
  ℕ, ◌≤◌, ◌≡◌, sym, ap, ◌⊎◌, true, false, Option, none, some, List, [], ◌∷◌, is_some, arith,
}
use mini_ai_cloud.Prelude.Int.{ℤ, pos}
use mini_ai_cloud.Services.Autoscaler.{ServiceLoad}
use mini_ai_cloud.Services.Gateway.{
  GatewayMetrics, get_or_zero, load, snapshot, replica_snapshot, Request, Trace,
}
use mini_ai_cloud.Services.Gateway.Counts.{requests_of, replica_requests_of, Trace-Counted}

replica_le :
    (i j : ℕ) (open_requests : List Request)
    → replica_requests_of i j open_requests ≤ requests_of i open_requests
replica_le i j [] = omega arith
replica_le i j (r ∷ rest) = ground (arith, replica_le i j rest)

-- The number of requests that a load reports; that of no load is 0.
abbrev pub reported : Option ServiceLoad → ℤ
reported none = pos 0
reported (some l) = l.active_requests

absent : (n : ℕ) → (false ≡ true) ⊎ (n ≡ 0) → n ≡ 0
absent n h = ground arith

load-reported :
    (o : Option ℕ) (count n : ℕ)
    → count ≡ n
    → (is_some o ≡ true) ⊎ (n ≡ 0)
    → reported (load o count) ≡ pos n
load-reported none count n e h = ap pos (sym (absent n h))
load-reported (some at) count n e h = ap pos e

least :
    (i j : ℕ) (m : GatewayMetrics) (open_requests : List Request)
    → (is_some (m.observed_at i) ≡ true) ⊎ (requests_of i open_requests ≡ 0)
    → (is_some (m.observed_at i) ≡ true) ⊎ (replica_requests_of i j open_requests ≡ 0)
least i j m open_requests h = let le = replica_le i j open_requests in ground arith

-- After any starts of requests and any finishes of open ones, the load of each service reports as
-- many requests as are open for it, and the load of each replica as many as are open there.
pub Trace-reported :
    {m : GatewayMetrics} {open_requests : List Request}
    → Trace m open_requests
    → ((service : ℕ) → reported (snapshot m service) ≡ pos (requests_of service open_requests))
      × ((service replica : ℕ)
          → reported (replica_snapshot m service replica)
            ≡ pos (replica_requests_of service replica open_requests))
unfolding snapshot replica_snapshot
Trace-reported {m} {open_requests} t =
    let c = Trace-Counted t in
    (
      (λ i.
          load-reported (m.observed_at i) (get_or_zero (m.active i)) (requests_of i open_requests)
            (c.services i) (c.observed i)),
      (λ i j.
          load-reported (m.observed_at i) (get_or_zero (m.replica_active i j))
            (replica_requests_of i j open_requests) (c.replicas i j)
            (least i j m open_requests (c.observed i))),
    )
