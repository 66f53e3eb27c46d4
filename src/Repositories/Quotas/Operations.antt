-- ===== src/Repositories/Quotas/Operations.antt =====
-- repositories/quotas.py: `QuotaRepository`, the rows and the counters of tasks. An operation returns
-- the rows that it leaves; where it raises, the transaction is aborted and the rows stay as they were.
use mini_ai_cloud.Prelude.{
  ℕ, ◌+◌, ◌-◌, Bool, true, false, not, ◌&&◌, ◌||◌, Option, none, some, List, [], ◌∷◌, ◌==◌, ltb,
  if◌then◌else◌, Result, ok, err, ◌>>=◌, ◌>>◌, raise_if,
}
use mini_ai_cloud.Prelude.Int.{ℤ, pos, ltb_ℤ, pos_part}
use mini_ai_cloud.Prelude.Text.{String}
use mini_ai_cloud.Core.Enums.{AcceleratorVendor, nvidia, huawei_ascend}
use mini_ai_cloud.Repositories.Quotas.Model.{
  ProjectStatus, active, ProjectQuota, ProjectQuotaState, QuotaError, not_found, below_reservation,
  no_queued_task, negative_cost, negative_value, QuotaSnapshot, Session, date_of, Claim, claim,
  check_limits, validate_reservation, assert_state_nonnegative, normalize_accelerator_vendor,
  roll_daily_state, touch_state, nvidia_share, ascend_share,
}

unfoldable pub project_is_active : Option ProjectStatus → Bool
project_is_active (some active) = true
project_is_active _ = false

-- `ProjectQuota(project_id=project_id, updated_at=now)`: the defaults of the columns.
abbrev pub new_quota : ℕ → ProjectQuota
new_quota now = record {
  max_queued_tasks = none;
  max_running_tasks = none;
  max_cpu_millicores = none;
  max_memory_mb = none;
  max_gpus = none;
  max_nvidia_gpus = none;
  max_ascend_npus = some 0;
  max_services = none;
  max_service_replicas = none;
  max_artifact_bytes = none;
  daily_cost_limit = none;
  version = 1;
  updated_at = now;
}

-- `ProjectQuotaState(project_id=project_id, accounting_date=now.date(), updated_at=now)`
abbrev pub new_state : ℕ → ProjectQuotaState
new_state now = record {
  queued_tasks = 0;
  running_tasks = 0;
  reserved_cpu_millicores = 0;
  reserved_memory_mb = 0;
  reserved_gpus = 0;
  reserved_nvidia_gpus = 0;
  reserved_ascend_npus = 0;
  service_count = 0;
  service_replicas = 0;
  service_reserved_cpu_millicores = 0;
  service_reserved_memory_mb = 0;
  service_reserved_gpus = 0;
  service_reserved_nvidia_gpus = 0;
  service_reserved_ascend_npus = 0;
  artifact_bytes = 0;
  accounting_date = date_of now;
  daily_reserved_cost = 0;
  daily_settled_cost = 0;
  version = 1;
  updated_at = now;
}

abbrev pub or_new {ℓ} : {A : Type ℓ} → Option A → A → A
or_new none new = new
or_new (some row) new = row

unfoldable pub initialize : Session → Result QuotaError QuotaSnapshot
unfolding project_is_active assert_state_nonnegative
initialize db = do
  raise_if (not (project_is_active db.project)) not_found
  let quota = or_new db.quota (new_quota db.now)
  let state = or_new db.state (new_state db.now)
  assert_state_nonnegative state
  ok (record { quota = quota; state = state })

unfoldable pub read_rows :
    Option ProjectQuota → Option ProjectQuotaState → Result QuotaError QuotaSnapshot
read_rows (some quota) (some state) = ok (record { quota = quota; state = state })
read_rows _ _ = err not_found

unfoldable pub get_snapshot : Session → Result QuotaError QuotaSnapshot
unfolding read_rows assert_state_nonnegative
get_snapshot db = do
  rows ← read_rows db.quota db.state
  assert_state_nonnegative rows.state
  ok rows

-- `get_locked`, with `reset_daily` as by default.
unfoldable pub get_locked : Session → Result QuotaError QuotaSnapshot
unfolding get_snapshot roll_daily_state
get_locked db = do
  rows ← get_snapshot db
  ok (record rows { state = roll_daily_state db.now rows.state })

-- The session once the rows of a snapshot are written.
abbrev pub save : Session → ProjectQuota → ProjectQuotaState → Session
save db quota state = record db { quota = some quota; state = some state }

unfoldable pub admit_queued : Session → Result QuotaError Session
unfolding get_locked check_limits touch_state
admit_queued db = do
  rows ← get_locked db
  let prospective = rows.state.queued_tasks + 1
  check_limits (claim "queued_tasks" rows.quota.max_queued_tasks prospective ∷ [])
  state ← touch_state db.now (record rows.state { queued_tasks = prospective })
  ok (save db rows.quota state)

unfoldable pub release_queued : Session → Result QuotaError Session
unfolding get_locked touch_state
release_queued db = do
  rows ← get_locked db
  raise_if (ltb rows.state.queued_tasks 1) no_queued_task
  state ← touch_state db.now (record rows.state { queued_tasks = rows.state.queued_tasks - 1 })
  ok (save db rows.quota state)

-- What an execution takes.
pub record Amounts : Type 0 where
  pub cpu_millicores : ℕ
  pub memory_mb : ℕ
  pub gpu_count : ℕ
  pub cost : ℕ
  pub vendor : Option AcceleratorVendor

-- The limits that `reserve_execution` checks.
unfoldable pub reservation_claims : ProjectQuota → ProjectQuotaState → Amounts → List Claim
reservation_claims q s a =
    claim "running_tasks" q.max_running_tasks (s.running_tasks + s.service_replicas + 1)
    ∷ claim "cpu_millicores" q.max_cpu_millicores
        (s.reserved_cpu_millicores + s.service_reserved_cpu_millicores + a.cpu_millicores)
    ∷ claim "memory_mb" q.max_memory_mb
        (s.reserved_memory_mb + s.service_reserved_memory_mb + a.memory_mb)
    ∷ claim "gpus" q.max_gpus (s.reserved_gpus + s.service_reserved_gpus + a.gpu_count)
    ∷ claim "nvidia_gpus" q.max_nvidia_gpus (
        s.reserved_nvidia_gpus + nvidia_share a.vendor a.gpu_count + s.service_reserved_nvidia_gpus)
    ∷ claim "ascend_npus" q.max_ascend_npus (
        s.reserved_ascend_npus + ascend_share a.vendor a.gpu_count + s.service_reserved_ascend_npus)
    ∷ claim "daily_cost" q.daily_cost_limit (s.daily_settled_cost + s.daily_reserved_cost + a.cost)
    ∷ []

-- The counters that it leaves.
unfoldable pub reserve : ProjectQuotaState → Amounts → ProjectQuotaState
reserve s a =
    let prospective_nvidia = s.reserved_nvidia_gpus + nvidia_share a.vendor a.gpu_count in
    let prospective_ascend = s.reserved_ascend_npus + ascend_share a.vendor a.gpu_count in
    record s {
      queued_tasks = s.queued_tasks - 1;
      running_tasks = s.running_tasks + 1;
      reserved_cpu_millicores = s.reserved_cpu_millicores + a.cpu_millicores;
      reserved_memory_mb = s.reserved_memory_mb + a.memory_mb;
      reserved_nvidia_gpus = prospective_nvidia;
      reserved_ascend_npus = prospective_ascend;
      reserved_gpus = prospective_nvidia + prospective_ascend;
      daily_reserved_cost = s.daily_reserved_cost + a.cost;
    }

-- The arguments of a reservation; the estimated cost stands in `cost`.
pub record Reservation : Type 0 where
  pub cpu_millicores : ℤ
  pub memory_mb : ℤ
  pub gpu_count : ℤ
  pub cost : ℤ
  pub accelerator_vendor : Option String

-- `_validate_reservation` and `_normalize_accelerator_vendor` on the arguments. Nothing is written
-- between the two calls.
unfoldable pub amounts : Reservation → Option AcceleratorVendor → Amounts
amounts r vendor = record {
  cpu_millicores = pos_part r.cpu_millicores;
  memory_mb = pos_part r.memory_mb;
  gpu_count = pos_part r.gpu_count;
  cost = pos_part r.cost;
  vendor = vendor;
}

unfoldable pub reserve_execution : Session → Reservation → Result QuotaError Session
unfolding validate_reservation get_locked normalize_accelerator_vendor check_limits
    reservation_claims reserve touch_state amounts
reserve_execution db r = do
  validate_reservation r.cpu_millicores r.memory_mb r.gpu_count r.cost
  rows ← get_locked db
  vendor ← normalize_accelerator_vendor r.accelerator_vendor (pos_part r.gpu_count)
  raise_if (ltb rows.state.queued_tasks 1) no_queued_task
  check_limits (reservation_claims rows.quota rows.state (amounts r vendor))
  state ← touch_state db.now (reserve rows.state (amounts r vendor))
  ok (save db rows.quota state)

-- `typed_reserved`
unfoldable pub typed_reserved : ProjectQuotaState → Option AcceleratorVendor → ℕ
typed_reserved s (some nvidia) = s.reserved_nvidia_gpus
typed_reserved s (some huawei_ascend) = s.reserved_ascend_npus
typed_reserved s none = 0

-- Whether the counters are below the reservation that is to be released.
unfoldable pub is_below : ProjectQuotaState → Amounts → Bool
unfolding typed_reserved
is_below s a =
    ltb s.running_tasks 1
    || ltb s.reserved_cpu_millicores a.cpu_millicores
    || ltb s.reserved_memory_mb a.memory_mb
    || ltb s.reserved_gpus a.gpu_count
    || ltb (typed_reserved s a.vendor) a.gpu_count

-- `reservation_accounting_date is None or reservation_accounting_date == state.accounting_date`
unfoldable pub is_cost_of_today : Option ℕ → ProjectQuotaState → Bool
is_cost_of_today none s = true
is_cost_of_today (some date) s = date == s.accounting_date

-- The counters that `release` leaves.
unfoldable pub unreserve : ProjectQuotaState → Amounts → ℕ → Bool → ProjectQuotaState
unreserve s a settled_cost today =
    let nvidia_left = s.reserved_nvidia_gpus - nvidia_share a.vendor a.gpu_count in
    let ascend_left = s.reserved_ascend_npus - ascend_share a.vendor a.gpu_count in
    record s {
      running_tasks = s.running_tasks - 1;
      reserved_cpu_millicores = s.reserved_cpu_millicores - a.cpu_millicores;
      reserved_memory_mb = s.reserved_memory_mb - a.memory_mb;
      reserved_nvidia_gpus = nvidia_left;
      reserved_ascend_npus = ascend_left;
      reserved_gpus = nvidia_left + ascend_left;
      daily_reserved_cost = if today then s.daily_reserved_cost - a.cost else s.daily_reserved_cost;
      daily_settled_cost = s.daily_settled_cost + settled_cost;
    }

-- `release`, where `r.cost` is the reserved cost.
unfoldable pub release : Session → Reservation → ℤ → Option ℕ → Result QuotaError Session
unfolding validate_reservation get_locked normalize_accelerator_vendor is_below is_cost_of_today
    unreserve touch_state amounts
release db r settled_cost date = do
  validate_reservation r.cpu_millicores r.memory_mb r.gpu_count r.cost
  raise_if (ltb_ℤ settled_cost (pos 0)) negative_value
  rows ← get_locked db
  vendor ← normalize_accelerator_vendor r.accelerator_vendor (pos_part r.gpu_count)
  let a = amounts r vendor
  raise_if (is_below rows.state a) below_reservation
  let today = is_cost_of_today date rows.state
  raise_if (today && ltb rows.state.daily_reserved_cost a.cost) negative_cost
  state ← touch_state db.now (unreserve rows.state a (pos_part settled_cost) today)
  ok (save db rows.quota state)
