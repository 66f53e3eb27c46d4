-- ===== src/Repositories/Tasks/Model.antt =====
-- models/task.py and repositories/tasks.py: the rows that the transactions on one task lock, and the
-- two helpers through which its status changes. A time is a number of microseconds since the epoch,
-- a UUID is the number that it stands for. Columns that no operation here reads or writes are left
-- out.
use mini_ai_cloud.Prelude.{
  ℕ, ◌+◌, ◌≡◌, ap, ok_injective, Bool, false, Option, none, some, List, [], ◌∷◌, Result, ok, err,
  ◌>>◌,
}
use mini_ai_cloud.Prelude.Int.{ℤ}
use mini_ai_cloud.Prelude.Text.{String}
use mini_ai_cloud.Prelude.Floats.{Floats}
use mini_ai_cloud.Core.Enums.{
  TaskStatus, queued, assigned, running, succeeded, failed, cancelled, timed_out, preempted,
  retrying, RetryBackoff,
}
use mini_ai_cloud.Core.StateMachine.{InvalidTaskTransition, ensure_transition}
use mini_ai_cloud.Repositories.Quotas.Model.{QuotaError, Session}

pub record TaskEvent : Type 0 where
  pub event_type : String
  pub sequence : ℕ
  pub from_status : Option TaskStatus
  pub status : TaskStatus
  pub execution_id : Option ℕ
  pub worker_id : Option String
  pub created_at : ℕ

-- An event for other services: its type and the status that it names, if any.
pub record OutboxEvent : Type 0 where
  pub event_type : String
  pub status : Option TaskStatus
  pub available_at : ℕ

pub record ResourceReservation : Type 0 where
  pub execution_id : ℕ
  pub worker_id : String
  pub worker_session_id : Option ℕ
  pub released_at : Option ℕ

pub data TaskError : Type 0 where
  stale_execution negative_grace : TaskError
  invalid_transition : InvalidTaskTransition → TaskError
  quota_error : QuotaError → TaskError

-- A call whose exception is passed on.
abbrev pub lifted {ℓ κ μ} :
    {E : Type ℓ} {F : Type κ} {A : Type μ} → (E → F) → Result E A → Result F A
lifted f (ok a) = ok a
lifted f (err e) = err (f e)

pub lifted-ok {ℓ κ μ} :
    {E : Type ℓ} {F : Type κ} {A : Type μ} (f : E → F) (m : Result E A) {a : A}
    → lifted f m ≡ ok a
    → m ≡ ok a
lifted-ok f (ok a) h = ap ok (ok_injective h)
lifted-ok f (err e) h = cc

module _ (fl : Floats) where
  -- `runtime_handle` is the name of the runtime's resource, in place of its description. The base and
  -- the maximum of the delays between retries are whole microseconds.
  pub record Task : Type 0 where
    pub status : TaskStatus
    pub version : ℕ
    pub is_kubernetes : Bool
    pub queued_at : Option ℕ
    pub assigned_at : Option ℕ
    pub started_at : Option ℕ
    pub finished_at : Option ℕ
    pub worker_id : Option String
    pub execution_id : Option ℕ
    pub lease_expires_at : Option ℕ
    pub exit_code : Option ℤ
    pub error_message : Option String
    pub failure_category : Option String
    pub error_category : Option String
    pub error_code : Option String
    pub duration_ms : Option ℕ
    pub cpu_seconds : Option fl.F
    pub gpu_seconds : Option fl.F
    pub wall_time_seconds : Option fl.F
    pub estimated_cost : Option fl.F
    pub runtime_handle : Option String
    pub gpu_device_ids : List String
    pub cancel_requested : Bool
    pub requeue_on_preempt : Bool
    pub next_attempt_at : Option ℕ
    pub retry_count : ℕ
    pub recovery_count : ℕ
    pub max_retries : ℕ
    pub retry_backoff : RetryBackoff
    pub retry_base_seconds : ℕ
    pub retry_max_seconds : ℕ
    pub retry_on_exit_codes : List ℤ
    pub unschedulable_reason : Option String
    pub timeout_seconds : ℕ
    pub cpu_limit : fl.F
    pub memory_limit_mb : ℕ
    pub gpu_count : ℕ

  pub record Worker : Type 0 where
    pub id : String
    pub worker_session_id : Option ℕ
    pub is_offline : Bool
    pub running_tasks : ℕ
    pub reserved_cpu : fl.F
    pub reserved_memory_mb : ℕ
    pub reserved_gpus : ℕ
    pub version : ℕ

  -- What a transaction sees; the events are those of the task, the latest first. The quota's rows
  -- carry the database's clock.
  pub record Rows : Type 0 where
    pub task : Option Task
    pub workers : List Worker
    pub reservations : List ResourceReservation
    pub quota : Session
    pub events : List TaskEvent
    pub outbox : List OutboxEvent

  -- The times that a change to a status writes.
  unfoldable pub stamp : Task → TaskStatus → ℕ → Task
  stamp t queued now = record t { queued_at = some now; finished_at = none }
  stamp t assigned now = record t { assigned_at = some now }
  stamp t running now = record t { started_at = some now }
  stamp t succeeded now = record t { finished_at = some now }
  stamp t failed now = record t { finished_at = some now }
  stamp t cancelled now = record t { finished_at = some now }
  stamp t timed_out now = record t { finished_at = some now }
  stamp t preempted now = record t { finished_at = some now }
  stamp t retrying now = record t { finished_at = none }
  stamp t _ now = t

  -- The task and its events once `_transition` is done.
  pub record Moved : Type 0 where
    pub task : Task
    pub events : List TaskEvent

  unfoldable pub event_of : Task → TaskStatus → ℕ → String → TaskEvent
  event_of t target now event_type = record {
    event_type = event_type;
    sequence = t.version + 1;
    from_status = some t.status;
    status = target;
    execution_id = t.execution_id;
    worker_id = t.worker_id;
    created_at = now;
  }

  unfoldable pub transition :
      Task → List TaskEvent → TaskStatus → ℕ → String → Result TaskError Moved
  unfolding ensure_transition stamp event_of
  transition t events target now event_type = do
    lifted invalid_transition (ensure_transition t.status target)
    ok (record {
      task = stamp (record t { status = target; version = t.version + 1 }) target now;
      events = event_of t target now event_type ∷ events;
    })

  -- `_prepare_for_assignment`
  unfoldable pub prepare_for_assignment : Task → Task
  prepare_for_assignment t = record t {
    started_at = none;
    finished_at = none;
    exit_code = none;
    error_message = none;
    failure_category = none;
    error_category = none;
    error_code = none;
    duration_ms = none;
    cpu_seconds = none;
    gpu_seconds = none;
    wall_time_seconds = none;
    estimated_cost = none;
    runtime_handle = none;
    gpu_device_ids = [];
    cancel_requested = false;
    next_attempt_at = none;
    unschedulable_reason = none;
  }
