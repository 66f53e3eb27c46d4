-- ===== src/Repositories/Tasks/Finish.antt =====
-- repositories/tasks.py: `finish_execution`, the report that an execution has ended. A category of
-- errors is its member of the enumeration, a code its text.
use mini_ai_cloud.Prelude.{
  ℕ, Bool, false, not, ◌&&◌, Option, none, some, List, map, ◌==◌, if◌then◌else◌, is_none, Result,
  ok, ◌>>=◌,
}
use mini_ai_cloud.Prelude.Text.{concat}
use mini_ai_cloud.Prelude.Floats.{Floats}
use mini_ai_cloud.Core.Enums.{TaskStatus, preempting, is_active, same_status}
use mini_ai_cloud.Repositories.Quotas.Operations.{get_locked, save}
use mini_ai_cloud.Repositories.Tasks.Model.{
  ResourceReservation, lifted, Task, Worker, Rows, transition,
}
use mini_ai_cloud.Repositories.Tasks.Lifecycle.{Claimant, holds, session_owns_execution}
use mini_ai_cloud.Repositories.Tasks.Cancel.{release_on}
use mini_ai_cloud.Repositories.Reservations.Settlement.{
  Reserved, Execution, UsageLedger, SettlementError, SettlementRows, release_and_settle,
}
use mini_ai_cloud.Repositories.Tasks.Ending.{
  status_value, Ending, Prices, category_text, ending_of, describe, measure,
}
use mini_ai_cloud.Repositories.Tasks.Conclude.{
  FinishError, task_error, settlement_error, quota_error, ExecutionResult, refused, conclude,
}

pub record PreemptionPlan : Type 0 where
  pub is_requested : Bool
  pub completed_at : Option ℕ

-- `_complete_preemption_plans`, on the plans whose victim is the task.
unfoldable pub complete_preemption_plans : ℕ → List PreemptionPlan → List PreemptionPlan
complete_preemption_plans now plans =
    map
      (λ (p : PreemptionPlan).
        if p.is_requested then record { is_requested = false; completed_at = some now } else p)
      plans

module _ (fl : Floats) (quantize : ℕ → ℕ) (cost_float : ℕ → fl.F) where
  -- What the transaction sees: the rows of the task, and those of the execution that it settles.
  pub record FinishRows : Type 0 where
    pub rows : Rows fl
    pub reservation : Option Reserved
    pub links : List (Option ℕ)
    pub execution : Option Execution
    pub ledger : List UsageLedger
    pub plans : List PreemptionPlan

  abbrev pub settlement_of : FinishRows → Task fl → SettlementRows fl quantize cost_float
  settlement_of db t = record {
    task = t;
    workers = db.rows.workers;
    reservation = db.reservation;
    links = db.links;
    execution = db.execution;
    ledger = db.ledger;
    quota = db.rows.quota;
  }

  abbrev pub release_row : ℕ → ℕ → ResourceReservation → ResourceReservation
  release_row execution_id now r =
      if (r.execution_id == execution_id) && is_none r.released_at
      then record r { released_at = some now }
      else r

  -- The rows once the settlement is done; `reservations` shows the same row to the fence.
  abbrev pub settled_rows :
      FinishRows
      → ℕ
      → ℕ
      → Bool × SettlementRows fl quantize cost_float
      → List (Worker fl)
      → FinishRows
  settled_rows db execution_id now (released, s) workers = record db {
    rows = record (db.rows) {
      task = some s.task;
      workers = workers;
      quota = s.quota;
      reservations =
          if released
          then map (release_row execution_id now) db.rows.reservations
          else db.rows.reservations;
    };
    reservation = s.reservation;
    links = s.links;
    execution = s.execution;
    ledger = s.ledger;
  }

  -- An execution that has no active reservation gives its capacity back to the worker directly.
  unfoldable pub release_capacity :
      FinishRows → Task fl → Claimant fl → TaskStatus → Result SettlementError FinishRows
  unfolding release_and_settle release_on status_value
  release_capacity db t c target = do
    settled ←
        release_and_settle fl quantize cost_float (settlement_of db t) (status_value target)
          db.rows.quota.now (status_value target)
    ok (
        settled_rows db c.execution_id db.rows.quota.now settled (
          if settled.0
          then settled.1.workers
          else release_on fl (some c.worker_id) settled.1.task settled.1.workers))

  abbrev pub explain_error : Ending → Option Execution → Option Execution
  explain_error e none = none
  explain_error e (some x) = some (record x {
    error_category = category_text e.error_category;
    error_code = e.error_code;
    error_message = e.error_message;
  })

  abbrev pub task_or : Option (Task fl) → Task fl → Task fl
  task_or none t = t
  task_or (some u) t = u

  -- An execution that its holder reports as ended.
  unfoldable pub finish_owned :
      FinishRows
      → Task fl
      → Claimant fl
      → Ending
      → ℕ
      → Prices fl
      → Result FinishError (ExecutionResult × FinishRows)
  unfolding ending_of transition describe measure release_capacity conclude status_value
  finish_owned db t c report retry_max_backoff prices = do
    let now = db.rows.quota.now
    let e = ending_of fl t report
    moved ←
        lifted task_error
          (transition fl t db.rows.events e.target now (concat "task." (status_value e.target)))
    let ended = measure fl (describe fl moved.task e) moved.task.started_at now prices
    settled ← lifted settlement_error (
        release_capacity (record db { rows = record (db.rows) { events = moved.events } }) ended c
          e.target)
    let plans =
        if same_status t.status preempting then complete_preemption_plans now db.plans else db.plans
    done ← conclude fl settled.rows (task_or settled.rows.task ended) e retry_max_backoff
    ok (
      done.0,
      record settled {
        rows = done.1;
        execution = explain_error e settled.execution;
        plans = plans;
      },
    )

  -- The session is checked with the project locked, whose counters of a new day stay written.
  unfoldable pub finish_fenced :
      FinishRows
      → Task fl
      → Claimant fl
      → Option ℕ
      → Ending
      → ℕ
      → Prices fl
      → Result FinishError (ExecutionResult × FinishRows)
  unfolding session_owns_execution get_locked finish_owned
  finish_fenced db t c none report retry_max_backoff prices =
      finish_owned db t c report retry_max_backoff prices
  finish_fenced db t c (some session) report retry_max_backoff prices = do
    locked ← lifted quota_error (get_locked db.rows.quota)
    let fenced = record db {
      rows = record (db.rows) { quota = save db.rows.quota locked.quota locked.state };
    }
    if not (session_owns_execution fl fenced.rows c.worker_id c.execution_id session)
        then ok (refused none, fenced)
        else finish_owned fenced t c report retry_max_backoff prices

  unfoldable pub finish_execution :
      FinishRows
      → Claimant fl
      → Ending
      → ℕ
      → Prices fl
      → Result FinishError (ExecutionResult × FinishRows)
  unfolding is_active finish_fenced
  finish_execution db c report retry_max_backoff prices = elim db.rows.task [
    | none ↦ ok (refused none, db)
    | some t ↦
        if not (holds fl t c)
        then ok (refused none, db)
        else if not (is_active t.status)
        then ok (refused (some t.status), db)
        else finish_fenced db t c c.worker_session_id report retry_max_backoff prices
  ]
