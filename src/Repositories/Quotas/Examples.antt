-- ===== src/Repositories/Quotas/Examples.antt =====
-- Runs of repositories/quotas.py on the rows of one project.
use mini_ai_cloud.Prelude.{◌≡◌, refl, ◌↔◌, arith, none, some, [], ◌∷◌, ok, err}
use mini_ai_cloud.Prelude.Int.{pos}
use mini_ai_cloud.Repositories.Quotas.Model.{
  active, ProjectQuota, ProjectQuotaState, exceeded, below_commitment, Session, check_limit,
  check_limits, validate_reservation, normalize_accelerator_vendor, assert_state_nonnegative,
  roll_daily_state, touch_state,
}
use mini_ai_cloud.Repositories.Quotas.Operations.{
  initialize, project_is_active, get_snapshot, get_locked, read_rows, save, reserve_execution,
  release, reserve, reservation_claims, amounts, Reservation, new_quota, new_state,
}
use mini_ai_cloud.Repositories.Quotas.Commitments.{
  is_below_commitment, commit, commitment_claims, ServiceCommitment, validate_service_commitment,
  change, or_initialize, write_commitment, replace_service_commitment,
}
use mini_ai_cloud.Repositories.Quotas.Fit.{
  ensure_task_can_fit, fit_claims, fit_choice, normalize_all, candidate_limits,
}
use mini_ai_cloud.Repositories.Quotas.Steps.{IsSound}
use mini_ai_cloud.Repositories.Quotas.Reach.{done, step, waits, reserves, Steps-IsSound}
use mini_ai_cloud.Repositories.Quotas.Reserved.{Reserves, reserve_execution_iff}
use mini_ai_cloud.Repositories.Quotas.Restore.{dequeued, release-reserve_execution}
use mini_ai_cloud.Repositories.Quotas.Feasible.{needs_of, reserve_execution-fits}

-- A project with at most two running tasks, whose counters are those of the first day.
abbrev quota : ProjectQuota
quota = record (new_quota 0) { max_running_tasks = some 2; max_ascend_npus = some 4 }

abbrev one_queued : Session
one_queued = record {
  now = 90000000000;
  project = some active;
  quota = some quota;
  state = some (record (new_state 0) { queued_tasks = 1; daily_settled_cost = 5 });
}

abbrev request : Reservation
request = record {
  cpu_millicores = pos 500;
  memory_mb = pos 256;
  gpu_count = pos 2;
  cost = pos 7;
  accelerator_vendor = some "huawei-ascend";
}

-- The counters of the next day, on which nothing is settled yet.
abbrev today : ProjectQuotaState
today = record (new_state 0) {
  queued_tasks = 1;
  accounting_date = 1;
  version = 2;
  updated_at = 90000000000;
}

abbrev running : Session
running = record one_queued {
  state = some (record today {
    queued_tasks = 0;
    running_tasks = 1;
    reserved_cpu_millicores = 500;
    reserved_memory_mb = 256;
    reserved_gpus = 2;
    reserved_ascend_npus = 2;
    daily_reserved_cost = 7;
    version = 3;
  });
}

locked : get_locked one_queued ≡ ok (record { quota = quota; state = today })
unfolding get_locked get_snapshot read_rows assert_state_nonnegative roll_daily_state
locked = refl

reserved : reserve_execution one_queued request ≡ ok running
unfolding reserve_execution validate_reservation get_locked get_snapshot read_rows
    assert_state_nonnegative roll_daily_state normalize_accelerator_vendor check_limits check_limit
    reservation_claims reserve touch_state amounts
reserved = refl

-- Three more devices would pass the limit of four.
too_many :
    reserve_execution
      (record running {
        state = some (record today { reserved_gpus = 2; reserved_ascend_npus = 2 });
      })
      (record request { gpu_count = pos 3 })
    ≡ err (exceeded "ascend_npus" 4 5)
unfolding reserve_execution validate_reservation get_locked get_snapshot read_rows
    assert_state_nonnegative roll_daily_state normalize_accelerator_vendor check_limits check_limit
    reservation_claims reserve touch_state amounts
too_many = refl

-- A service goes from no replica to two, on rows that are added for it.
abbrev scale_up : ServiceCommitment
scale_up = record {
  current_replicas = pos 0;
  desired_replicas = pos 2;
  cpu_millicores = pos 100;
  memory_mb = pos 64;
  gpu_count = pos 1;
  accelerator_vendor = none;
}

abbrev empty : Session
empty = record { now = 90000000000; project = some active; quota = none; state = none }

committed :
    replace_service_commitment empty scale_up
    ≡ ok (
        save empty (new_quota 90000000000) (record (new_state 90000000000) {
          service_count = 1;
          service_replicas = 2;
          service_reserved_cpu_millicores = 200;
          service_reserved_memory_mb = 128;
          service_reserved_gpus = 2;
          service_reserved_nvidia_gpus = 2;
          version = 2;
        }))
unfolding replace_service_commitment validate_service_commitment or_initialize initialize
    project_is_active get_locked get_snapshot read_rows assert_state_nonnegative
    normalize_accelerator_vendor is_below_commitment check_limits check_limit commitment_claims
    commit write_commitment touch_state change
committed = refl

no_commitment :
    replace_service_commitment empty (record scale_up { current_replicas = pos 3 })
    ≡ err below_commitment
unfolding replace_service_commitment validate_service_commitment or_initialize initialize
    project_is_active get_locked get_snapshot read_rows assert_state_nonnegative
    normalize_accelerator_vendor is_below_commitment change
no_commitment = refl

-- A choice of vendors fits where one of them has a limit that is high enough.
choice :
    ensure_task_can_fit quota (record (needs_of request) {
      gpu_count = pos 5;
      accelerator_vendor = none;
      accelerator_vendors = some ("huawei-ascend" ∷ []);
    })
    ≡ err (exceeded "vendor_accelerators" 4 5)
unfolding ensure_task_can_fit validate_reservation check_limits check_limit fit_claims fit_choice
    normalize_all normalize_accelerator_vendor candidate_limits
choice = refl

one_queued-IsSound : IsSound one_queued
one_queued-IsSound = record {
  typed = record { tasks = refl; services = refl };
  within = record {
    queued = tt;
    running = omega arith;
    cpu = tt;
    memory = tt;
    gpus = tt;
    nvidia_gpus = tt;
    ascend_npus = omega arith;
    services = tt;
    replicas = tt;
    artifacts = tt;
  };
}

Steps-IsSound_example : IsSound (record running { now = 0 })
Steps-IsSound_example =
    Steps-IsSound {db = one_queued} {after = record running { now = 0 }}
      (step (reserves request reserved) (step (waits 0) done)) one_queued-IsSound

reserve_execution_iff_example :
    (reserve_execution one_queued request ≡ ok running)
    ↔ Reserves one_queued request running (record { quota = quota; state = today })
reserve_execution_iff_example = reserve_execution_iff one_queued request running locked

release-reserve_execution_example :
    release (record running { now = 90000000001 }) request (pos 0) none
    ≡ ok (record running { now = 90000000001; state = some (dequeued 90000000001 today) })
release-reserve_execution_example =
    release-reserve_execution one_queued request 90000000001 locked reserved refl

reserve_execution-fits_example : ensure_task_can_fit quota (needs_of request) ≡ ok tt
reserve_execution-fits_example = reserve_execution-fits one_queued request locked reserved
