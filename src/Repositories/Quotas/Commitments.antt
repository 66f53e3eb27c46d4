-- ===== src/Repositories/Quotas/Commitments.antt =====
-- repositories/quotas.py: `QuotaRepository.replace_service_commitment`, and `replace`. A
-- difference that the source compares with 0 is written as its two sides.
use mini_ai_cloud.Prelude.{
  ℕ, ◌+◌, ◌-◌, ◌*◌, Bool, ◌||◌, Option, none, some, List, [], ◌∷◌, ◌==◌, ltb, if◌then◌else◌, Result,
  ok, err, ◌>>=◌, ◌>>◌, raise_if,
}
use mini_ai_cloud.Prelude.Int.{ℤ, pos, negsuc, ltb_ℤ, pos_part}
use mini_ai_cloud.Prelude.Text.{String}
use mini_ai_cloud.Core.Enums.{AcceleratorVendor}
use mini_ai_cloud.Repositories.Quotas.Model.{
  ProjectQuota, ProjectQuotaState, QuotaError, not_found, below_commitment, negative_value,
  QuotaSnapshot, Session, Claim, claim, check_limits, normalize_accelerator_vendor, touch_state,
  nvidia_share, ascend_share,
}
use mini_ai_cloud.Repositories.Quotas.Operations.{initialize, get_locked, save}

-- The change that a service asks for, once its arguments are known not to be negative.
pub record Change : Type 0 where
  pub current_replicas : ℕ
  pub desired_replicas : ℕ
  pub cpu_millicores : ℕ
  pub memory_mb : ℕ
  pub gpu_count : ℕ
  pub vendor : Option AcceleratorVendor

-- `int(replicas > 0)`
abbrev pub one_if_any : ℕ → ℕ
one_if_any replicas = if ltb 0 replicas then 1 else 0

-- The amount `count + each * (desired - current)`, and whether it is negative.
abbrev pub moved : ℕ → ℕ → Change → ℕ
moved count each c = count + each * c.desired_replicas - each * c.current_replicas

abbrev pub is_negative : ℕ → ℕ → Change → Bool
is_negative count each c = ltb (count + each * c.desired_replicas) (each * c.current_replicas)

-- `min(...) < 0` over the prospective counters.
unfoldable pub is_below_commitment : ProjectQuotaState → Change → Bool
is_below_commitment s c =
    ltb (s.service_count + one_if_any c.desired_replicas) (one_if_any c.current_replicas)
    || is_negative s.service_replicas 1 c
    || is_negative s.service_reserved_cpu_millicores c.cpu_millicores c
    || is_negative s.service_reserved_memory_mb c.memory_mb c
    || is_negative (s.service_reserved_nvidia_gpus + s.service_reserved_ascend_npus)
        (nvidia_share c.vendor c.gpu_count + ascend_share c.vendor c.gpu_count) c
    || is_negative s.service_reserved_nvidia_gpus (nvidia_share c.vendor c.gpu_count) c
    || is_negative s.service_reserved_ascend_npus (ascend_share c.vendor c.gpu_count) c

-- The counters with the prospective amounts.
unfoldable pub commit : ProjectQuotaState → Change → ProjectQuotaState
commit s c =
    let prospective_nvidia =
      moved s.service_reserved_nvidia_gpus (nvidia_share c.vendor c.gpu_count) c in
    let prospective_ascend =
      moved s.service_reserved_ascend_npus (ascend_share c.vendor c.gpu_count) c in
    record s {
      service_count =
          s.service_count + one_if_any c.desired_replicas - one_if_any c.current_replicas;
      service_replicas = moved s.service_replicas 1 c;
      service_reserved_cpu_millicores = moved s.service_reserved_cpu_millicores c.cpu_millicores c;
      service_reserved_memory_mb = moved s.service_reserved_memory_mb c.memory_mb c;
      service_reserved_gpus = prospective_nvidia + prospective_ascend;
      service_reserved_nvidia_gpus = prospective_nvidia;
      service_reserved_ascend_npus = prospective_ascend;
    }

-- The limits that are checked, at the prospective amounts of `p`.
unfoldable pub commitment_claims : ProjectQuota → ProjectQuotaState → List Claim
commitment_claims q p =
    claim "services" q.max_services p.service_count
    ∷ claim "service_replicas" q.max_service_replicas p.service_replicas
    ∷ claim "running_tasks" q.max_running_tasks (p.running_tasks + p.service_replicas)
    ∷ claim "cpu_millicores" q.max_cpu_millicores
        (p.reserved_cpu_millicores + p.service_reserved_cpu_millicores)
    ∷ claim "memory_mb" q.max_memory_mb (p.reserved_memory_mb + p.service_reserved_memory_mb)
    ∷ claim "gpus" q.max_gpus (p.reserved_gpus + p.service_reserved_gpus)
    ∷ claim "nvidia_gpus" q.max_nvidia_gpus
        (p.reserved_nvidia_gpus + p.service_reserved_nvidia_gpus)
    ∷ claim "ascend_npus" q.max_ascend_npus
        (p.reserved_ascend_npus + p.service_reserved_ascend_npus)
    ∷ []

pub record ServiceCommitment : Type 0 where
  pub current_replicas : ℤ
  pub desired_replicas : ℤ
  pub cpu_millicores : ℤ
  pub memory_mb : ℤ
  pub gpu_count : ℤ
  pub accelerator_vendor : Option String

unfoldable pub validate_service_commitment : ServiceCommitment → Result QuotaError (Unit {0})
validate_service_commitment c =
    raise_if
      (ltb_ℤ c.current_replicas (pos 0)
        || ltb_ℤ c.desired_replicas (pos 0)
        || ltb_ℤ c.cpu_millicores (pos 0)
        || ltb_ℤ c.memory_mb (pos 0)
        || ltb_ℤ c.gpu_count (pos 0))
      negative_value

unfoldable pub change : ServiceCommitment → Option AcceleratorVendor → Change
change c vendor = record {
  current_replicas = pos_part c.current_replicas;
  desired_replicas = pos_part c.desired_replicas;
  cpu_millicores = pos_part c.cpu_millicores;
  memory_mb = pos_part c.memory_mb;
  gpu_count = pos_part c.gpu_count;
  vendor = vendor;
}

-- `get_locked`, or `initialize` where that raises `QuotaNotFoundError`.
unfoldable pub or_initialize :
    Session → Result QuotaError QuotaSnapshot → Result QuotaError QuotaSnapshot
unfolding initialize
or_initialize db (ok rows) = ok rows
or_initialize db (err not_found) = initialize db
or_initialize db (err e) = err e

-- Where no replica is added or taken away, the counters are returned as they are.
unfoldable pub write_commitment :
    ℕ → ProjectQuotaState → Change → Result QuotaError ProjectQuotaState
unfolding touch_state commit
write_commitment now s c =
    if c.desired_replicas == c.current_replicas then ok s else touch_state now (commit s c)

unfoldable pub replace_service_commitment : Session → ServiceCommitment → Result QuotaError Session
unfolding validate_service_commitment get_locked or_initialize normalize_accelerator_vendor
    is_below_commitment check_limits commitment_claims commit write_commitment change
replace_service_commitment db r = do
  validate_service_commitment r
  rows ← or_initialize db (get_locked db)
  vendor ← normalize_accelerator_vendor r.accelerator_vendor (pos_part r.gpu_count)
  let c = change r vendor
  raise_if (is_below_commitment rows.state c) below_commitment
  check_limits (commitment_claims rows.quota (commit rows.state c))
  state ← write_commitment db.now rows.state c
  ok (save db rows.quota state)

-- The limits that `replace` is given, as integers.
pub record Limits : Type 0 where
  pub max_queued_tasks : Option ℤ
  pub max_running_tasks : Option ℤ
  pub max_cpu_millicores : Option ℤ
  pub max_memory_mb : Option ℤ
  pub max_gpus : Option ℤ
  pub max_nvidia_gpus : Option ℤ
  pub max_ascend_npus : Option ℤ
  pub max_services : Option ℤ
  pub max_service_replicas : Option ℤ
  pub max_artifact_bytes : Option ℤ
  pub daily_cost_limit : Option ℤ

unfoldable pub natural_limit : Option ℤ → Result QuotaError (Option ℕ)
natural_limit none = ok none
natural_limit (some (pos n)) = ok (some n)
natural_limit (some (negsuc n)) = err negative_value

-- The loop over `values`, which raises on a negative one: a row with the limits, whose version and
-- time are still to be written.
unfoldable pub new_limits : Limits → Result QuotaError ProjectQuota
unfolding natural_limit
new_limits l = do
  queued ← natural_limit l.max_queued_tasks
  running ← natural_limit l.max_running_tasks
  cpu ← natural_limit l.max_cpu_millicores
  memory ← natural_limit l.max_memory_mb
  gpus ← natural_limit l.max_gpus
  nvidia_gpus ← natural_limit l.max_nvidia_gpus
  ascend_npus ← natural_limit l.max_ascend_npus
  services ← natural_limit l.max_services
  replicas ← natural_limit l.max_service_replicas
  artifacts ← natural_limit l.max_artifact_bytes
  cost ← natural_limit l.daily_cost_limit
  ok (record {
    max_queued_tasks = queued;
    max_running_tasks = running;
    max_cpu_millicores = cpu;
    max_memory_mb = memory;
    max_gpus = gpus;
    max_nvidia_gpus = nvidia_gpus;
    max_ascend_npus = ascend_npus;
    max_services = services;
    max_service_replicas = replicas;
    max_artifact_bytes = artifacts;
    daily_cost_limit = cost;
    version = 0;
    updated_at = 0;
  })

-- The limits that `replace` checks: those of `q` at the counters as they are.
unfoldable pub held_claims : ProjectQuota → ProjectQuotaState → List Claim
held_claims q s =
    claim "queued_tasks" q.max_queued_tasks s.queued_tasks
    ∷ claim "running_tasks" q.max_running_tasks (s.running_tasks + s.service_replicas)
    ∷ claim "cpu_millicores" q.max_cpu_millicores
        (s.reserved_cpu_millicores + s.service_reserved_cpu_millicores)
    ∷ claim "memory_mb" q.max_memory_mb (s.reserved_memory_mb + s.service_reserved_memory_mb)
    ∷ claim "gpus" q.max_gpus (s.reserved_gpus + s.service_reserved_gpus)
    ∷ claim "nvidia_gpus" q.max_nvidia_gpus
        (s.reserved_nvidia_gpus + s.service_reserved_nvidia_gpus)
    ∷ claim "ascend_npus" q.max_ascend_npus
        (s.reserved_ascend_npus + s.service_reserved_ascend_npus)
    ∷ claim "services" q.max_services s.service_count
    ∷ claim "service_replicas" q.max_service_replicas s.service_replicas
    ∷ claim "artifact_bytes" q.max_artifact_bytes s.artifact_bytes
    ∷ claim "daily_cost" q.daily_cost_limit (s.daily_reserved_cost + s.daily_settled_cost)
    ∷ []

unfoldable pub replace : Session → Limits → Result QuotaError Session
unfolding new_limits get_locked check_limits held_claims
replace db l = do
  limits ← new_limits l
  rows ← get_locked db
  let quota = record limits { version = rows.quota.version + 1; updated_at = db.now }
  check_limits (held_claims quota rows.state)
  ok (save db quota rows.state)
