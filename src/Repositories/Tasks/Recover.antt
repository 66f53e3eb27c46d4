-- ===== src/Repositories/Tasks/Recover.antt =====
-- repositories/tasks.py: `recover_expired` on one of the tasks that it goes through: an execution whose
-- lease has run out loses its task.
use mini_ai_cloud.Prelude.{
  ℕ, ◌+◌, Bool, true, false, not, ◌&&◌, ◌||◌, Option, none, some, List, ◌∷◌, ltb, if◌then◌else◌,
  is_some, Result, ok, ◌>>=◌,
}
use mini_ai_cloud.Prelude.Text.{String, same_text, concat}
use mini_ai_cloud.Prelude.Floats.{Floats}
use mini_ai_cloud.Core.Enums.{
  TaskStatus, preempting, preempted, failed, cancelled, same_status, is_active, ErrorCategory,
  infra_error, preempted_error, cancelled_error,
}
use mini_ai_cloud.Repositories.Quotas.Operations.{get_locked, save}
use mini_ai_cloud.Repositories.Tasks.Model.{lifted, Task, Worker, Rows, transition}
use mini_ai_cloud.Repositories.Tasks.Lifecycle.{find_worker}
use mini_ai_cloud.Repositories.Tasks.Cancel.{cancelled_value, release_on, outbox_event}
use mini_ai_cloud.Repositories.Tasks.Ending.{Ending, category_value, status_value}
use mini_ai_cloud.Repositories.Tasks.Conclude.{
  FinishError, task_error, settlement_error, quota_error, admit_retry, schedule_retry,
}
use mini_ai_cloud.Repositories.Tasks.Finish.{
  FinishRows, settlement_of, settled_rows, complete_preemption_plans, explain_error, task_or,
}
use mini_ai_cloud.Repositories.Reservations.Settlement.{
  SettlementError, SettlementRows, release_and_settle,
}

-- What becomes of a task whose lease has run out, and why.
pub record Reason : Type 0 where
  pub target : TaskStatus
  pub event_type : String
  pub error_message : String
  pub error_category : ErrorCategory
  pub error_code : Option String

module _ (fl : Floats) where
  abbrev pub is_lost : Option (Worker fl) → Bool
  is_lost none = true
  is_lost (some w) = w.is_offline

  abbrev pub worker_at : Option String → List (Worker fl) → Option (Worker fl)
  worker_at none workers = none
  worker_at (some id) workers = find_worker fl id workers

  abbrev pub recovery_code : Option (Worker fl) → String
  recovery_code w = if is_lost w then "WORKER_LOST" else "LEASE_EXPIRED"

  -- A request to stop is followed, but for that of a task that was being preempted before a user asked.
  unfoldable pub recovery_reason : Task fl → List (Worker fl) → Reason
  unfolding same_status
  recovery_reason t workers =
      let preemption_requested = same_status t.status preempting in
      let user_cancelled = preemption_requested && same_text t.failure_category cancelled_value in
      if t.cancel_requested && (not preemption_requested || user_cancelled)
      then record {
        target = cancelled;
        event_type = "task.status_changed";
        error_message = "task was cancelled before its execution lease expired";
        error_category = cancelled_error;
        error_code = none;
      }
      else if preemption_requested
      then record {
        target = preempted;
        event_type = "task.preempted";
        error_message = "preempted execution lease expired; worker ownership was revoked";
        error_category = preempted_error;
        error_code = none;
      }
      else record {
        target = failed;
        event_type = "task.status_changed";
        error_message = "execution lease expired; worker ownership was revoked";
        error_category = infra_error;
        error_code = some (recovery_code (worker_at t.worker_id workers));
      }

  unfoldable pub blame : Task fl → Reason → Task fl
  unfolding category_value
  blame t r = record t {
    error_message = some r.error_message;
    failure_category = some (category_value r.error_category);
    error_category = some (category_value r.error_category);
    error_code = r.error_code;
  }

  -- The row of the execution says what that of the task says.
  abbrev pub ending_like : Reason → Ending
  ending_like r = record {
    target = r.target;
    exit_code = none;
    error_message = some r.error_message;
    error_category = some r.error_category;
    error_code = r.error_code;
  }

  -- Whether it is to be run again: after a preemption, or while it was recovered less often than allowed.
  unfoldable pub wants_recovery : Task fl → Reason → ℕ → Bool
  unfolding same_status
  wants_recovery t r max_recovery_attempts =
      (same_status r.target preempted && t.requeue_on_preempt)
      || (same_status r.target failed && ltb t.recovery_count max_recovery_attempts)

  unfoldable pub count_recovery : Task fl → Reason → Task fl
  unfolding same_status
  count_recovery t r =
      if same_status r.target failed then record t { recovery_count = t.recovery_count + 1 } else t

  unfoldable pub suppress : Task fl → Reason → Bool → Task fl
  suppress t r wanted =
      if wanted
      then record t {
        error_message = some (concat r.error_message "; retry suppressed by project queue quota");
      }
      else t

  -- The IDs of the recovered tasks have this one where the result is true. The worker and the
  -- execution that `schedule_retry` takes off the task are none by then.
  unfoldable pub requeue : Rows fl → Task fl → Reason → ℕ → ℕ → Result FinishError (Bool × Rows fl)
  unfolding wants_recovery admit_retry schedule_retry count_recovery suppress same_status
  requeue rows t r max_recovery_attempts grace = do
    let wanted = wants_recovery t r max_recovery_attempts
    room ← (if wanted then lifted quota_error (admit_retry rows.quota) else ok (false, rows.quota))
    let kept = record rows { quota = room.1 }
    if wanted && room.0
        then (schedule_retry fl kept (count_recovery t r) grace >>= λ after. ok (true, after))
        else ok (
          same_status r.target cancelled,
          record kept {
            task = some (suppress t r wanted);
            outbox = outbox_event fl "task.terminal" (some r.target) rows.quota.now ∷ rows.outbox;
          },
        )

  -- The task, which nothing holds any more, moves to the status of the reason.
  unfoldable pub move_on :
      Rows fl → Task fl → Reason → ℕ → ℕ → ℕ → Result FinishError (Bool × Rows fl)
  unfolding transition blame requeue
  move_on rows t r max_recovery_attempts grace now = do
    moved ← lifted task_error (transition fl t rows.events r.target now r.event_type)
    requeue (record rows { events = moved.events }) (blame moved.task r) r max_recovery_attempts
        grace

module _ (fl : Floats) (quantize : ℕ → ℕ) (cost_float : ℕ → fl.F) where
  abbrev pub idle : Task fl → Task fl
  idle t = record t { lease_expires_at = none }

  -- What the execution held is settled, where the task has one.
  abbrev pub settled_for :
      Option ℕ
      → SettlementRows fl quantize cost_float
      → Reason
      → ℕ
      → Result SettlementError (Bool × SettlementRows fl quantize cost_float)
  settled_for none db r now = ok (false, db)
  settled_for (some execution_id) db r now =
      release_and_settle fl quantize cost_float db (status_value r.target) now
        "execution_lease_expired"

  abbrev pub execution_or : ℕ → Option ℕ → ℕ
  execution_or default none = default
  execution_or default (some id) = id

  -- The task is taken off its worker, which gets back what it held.
  unfoldable pub revoke :
      FinishRows fl quantize cost_float
      → Task fl
      → Reason
      → Result SettlementError (FinishRows fl quantize cost_float)
  unfolding release_and_settle release_on status_value
  revoke db t r = do
    settled ←
        settled_for t.execution_id (settlement_of fl quantize cost_float db (idle t)) r
          db.rows.quota.now
    ok (
        settled_rows fl quantize cost_float db (execution_or 0 t.execution_id) db.rows.quota.now
          settled
          (if settled.0
            then settled.1.workers
            else release_on fl t.worker_id settled.1.task settled.1.workers))

  abbrev pub free_task : Option (Task fl) → Task fl → Task fl
  free_task task t = record (task_or fl quantize cost_float task t) {
    worker_id = none;
    execution_id = none;
  }

  unfoldable pub recover_task :
      FinishRows fl quantize cost_float
      → Task fl
      → ℕ
      → ℕ
      → Result FinishError (Bool × FinishRows fl quantize cost_float)
  unfolding recovery_reason revoke move_on same_status complete_preemption_plans
  recover_task db t max_recovery_attempts grace = do
    let now = db.rows.quota.now
    let r = recovery_reason fl t db.rows.workers
    settled ← lifted settlement_error (revoke db t r)
    done ← move_on fl settled.rows (free_task settled.rows.task t) r max_recovery_attempts grace now
    ok (
      done.0,
      record settled {
        rows = done.1;
        execution =
            if is_some t.execution_id
            then explain_error fl quantize cost_float (ending_like fl r) settled.execution
            else settled.execution;
        plans =
            if same_status t.status preempting
            then complete_preemption_plans now db.plans
            else db.plans;
      },
    )

  -- What the query selects.
  abbrev pub is_past : Option ℕ → ℕ → Bool
  is_past none now = false
  is_past (some expires) now = ltb expires now

  abbrev pub is_expired : Task fl → ℕ → Bool
  is_expired t now = is_active t.status && is_past t.lease_expires_at now

  -- The quota is locked first, and the counters of a new day are written then.
  unfoldable pub recover_expired :
      FinishRows fl quantize cost_float
      → ℕ
      → ℕ
      → Result FinishError (Bool × FinishRows fl quantize cost_float)
  unfolding get_locked recover_task is_active
  recover_expired db max_recovery_attempts grace = elim db.rows.task [
    | none ↦ ok (false, db)
    | some t ↦
        if not (is_expired t db.rows.quota.now)
        then ok (false, db)
        else (lifted quota_error (get_locked db.rows.quota) >>= λ locked.
            recover_task
              (record db {
                rows = record (db.rows) { quota = save db.rows.quota locked.quota locked.state };
              })
              t max_recovery_attempts grace)
  ]
