-- ===== src/Repositories/Tasks/Examples.antt =====
-- Runs of repositories/tasks.py on one task.
use mini_ai_cloud.Prelude.{
  min, ◌≤◌, ℕ, ◌+◌, ◌-◌, ◌*◌, ◌/◌, ◌≡◌, refl, true, false, none, some, [], ◌∷◌, ok, err,
}
use mini_ai_cloud.Prelude.Int.{pos}
use mini_ai_cloud.Prelude.Order.{by_nat}
use mini_ai_cloud.Prelude.Floats.{Floats}
use mini_ai_cloud.Core.Enums.{
  exponential, queued, pulling, starting, running, is_in, is_final, is_active, same_status,
}
use mini_ai_cloud.Core.StateMachine.{ensure_transition, allowed_transitions}
use mini_ai_cloud.Repositories.Quotas.Model.{
  active, Session, assert_state_nonnegative, roll_daily_state, touch_state,
}
use mini_ai_cloud.Repositories.Quotas.Operations.{
  new_quota, new_state, get_locked, get_snapshot, read_rows, release_queued,
}
use mini_ai_cloud.Repositories.Tasks.Model.{
  stale_execution, Task, Rows, transition, stamp, event_of,
}
use mini_ai_cloud.Repositories.Tasks.Lifecycle.{
  Claimant, session_owns_execution, session_fits, owned_task, runtime_lease_expiry, move, advance,
  mark_running,
}
use mini_ai_cloud.Repositories.Tasks.Cancel.{cancel}
use mini_ai_cloud.Repositories.Tasks.History.{Chained}
use mini_ai_cloud.Repositories.Tasks.Steps.{IsKept}
use mini_ai_cloud.Repositories.Tasks.Reach.{done, step, runs, Steps-IsKept}
use mini_ai_cloud.Repositories.Tasks.Fence.{Owns, Leaves, mark_running-Owns}
use mini_ai_cloud.Repositories.Tasks.Retry.{retry_delay_seconds, retry_delay_seconds-grows}
use mini_ai_cloud.Repositories.Tasks.Cancelled.{HasExecution, Cancels, cancel_total}

-- Floats as whole numbers of thousandths.
abbrev pub thousandths : Floats
thousandths = record {
  F = ℕ;
  ratio = λ a b. a * 1000 / b;
  of_nat = λ n. n * 1000;
  add = λ a b. a + b;
  mul = λ a b. a * b / 1000;
  div = λ a b. a * 1000 / b;
  round = λ a. a / 1000;
  neg = λ a. 1_000_000 - a;
  order = by_nat;
}

abbrev pub waiting : Task thousandths
waiting = record {
  status = queued;
  version = 4;
  is_kubernetes = false;
  queued_at = some 10;
  assigned_at = none;
  started_at = none;
  finished_at = none;
  worker_id = none;
  execution_id = none;
  lease_expires_at = none;
  exit_code = none;
  error_message = none;
  failure_category = none;
  error_category = none;
  error_code = none;
  duration_ms = none;
  cpu_seconds = none;
  gpu_seconds = none;
  wall_time_seconds = none;
  estimated_cost = none;
  runtime_handle = none;
  gpu_device_ids = [];
  cancel_requested = false;
  requeue_on_preempt = true;
  next_attempt_at = none;
  retry_count = 0;
  recovery_count = 0;
  max_retries = 3;
  retry_backoff = exponential;
  retry_base_seconds = 1_000_000;
  retry_max_seconds = 60_000_000;
  retry_on_exit_codes = pos 1 ∷ [];
  unschedulable_reason = none;
  timeout_seconds = 60;
  cpu_limit = 1000;
  memory_limit_mb = 256;
  gpu_count = 0;
}

abbrev pub held : Task thousandths
held = record waiting {
  status = pulling;
  version = 6;
  worker_id = some "w1";
  execution_id = some 7;
}

abbrev pub session : Session
session = record {
  now = 100;
  project = some active;
  quota = some (new_quota 0);
  state = some (record (new_state 0) { queued_tasks = 1 });
}

abbrev pub rows : Task thousandths → Rows thousandths
rows t = record {
  task = some t;
  workers =
      record {
        id = "w1";
        worker_session_id = some 3;
        is_offline = false;
        running_tasks = 1;
        reserved_cpu = 1000;
        reserved_memory_mb = 256;
        reserved_gpus = 0;
        version = 2;
      }
      ∷ [];
  reservations =
      record { execution_id = 7; worker_id = "w1"; worker_session_id = some 3; released_at = none }
      ∷ [];
  quota = session;
  events = [];
  outbox = [];
}

abbrev reporter : Claimant thousandths
reporter = record { worker_id = "w1"; execution_id = 7; worker_session_id = some 3 }

abbrev started : Rows thousandths
started = record (rows held) {
  task = some (record held {
    status = running;
    version = 7;
    started_at = some 100;
    lease_expires_at = some 130;
  });
  events =
      record {
        event_type = "task.status_changed";
        sequence = 7;
        from_status = some pulling;
        status = running;
        execution_id = some 7;
        worker_id = some "w1";
        created_at = 100;
      }
      ∷ [];
}

runs_now : mark_running thousandths (rows held) reporter 30 (pos 0) ≡ ok started
unfolding mark_running advance owned_task session_fits session_owns_execution move transition
    ensure_transition allowed_transitions is_in same_status stamp event_of runtime_lease_expiry
runs_now = refl

-- Another session of the worker is refused.
stale :
    mark_running thousandths (rows held) (record reporter { worker_session_id = some 4 }) 30 (pos 0)
    ≡ err stale_execution
unfolding mark_running advance owned_task session_fits session_owns_execution
stale = refl

abbrev slot_back : Session
slot_back = record session { state = some (record (new_state 0) { version = 2; updated_at = 100 }) }

gives_back : release_queued session ≡ ok slot_back
unfolding release_queued get_locked get_snapshot read_rows assert_state_nonnegative roll_daily_state
    touch_state
gives_back = refl

not_ended : is_final queued ≡ false
unfolding is_final is_in same_status
not_ended = refl

no_execution : HasExecution thousandths waiting
unfolding is_active is_in same_status
no_execution = refl

held-IsKept : IsKept thousandths (rows held)
unfolding is_final is_in same_status Chained
held-IsKept = record { stamped = refl; chained = tt }

Steps-IsKept_example : IsKept thousandths started
Steps-IsKept_example =
    Steps-IsKept thousandths {db = rows held} {after = started}
      (step (runs reporter 30 (pos 0) runs_now) done) held-IsKept

mark_running-Owns_example :
    (t : Task thousandths) × Owns thousandths (rows held) t reporter
    × (is_in t.status (pulling ∷ starting ∷ running ∷ []) ≡ true)
    × Leaves thousandths (rows held) started 30 (λ u. u.status ≡ running)
mark_running-Owns_example = mark_running-Owns thousandths (rows held) reporter 30 (pos 0) runs_now

cancel_total_example : Cancels thousandths (rows waiting) (cancel thousandths (rows waiting))
cancel_total_example =
    cancel_total thousandths (rows waiting) waiting refl not_ended no_execution gives_back

retry_delay_seconds-grows_example :
    (d : ℕ) × (later : ℕ) × (retry_delay_seconds (pos 2) (pos 60) exponential (pos 4) ≡ ok d)
    × (retry_delay_seconds (pos 5) (pos 60) exponential (pos 4) ≡ ok later)
    × (min 4 60 ≤ d)
    × (d ≤ later)
    × (later ≤ 60)
retry_delay_seconds-grows_example = retry_delay_seconds-grows exponential 3 59 1 3
