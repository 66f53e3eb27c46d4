-- ===== src/Repositories/Tasks/Finished.antt =====
-- repositories/tasks.py: what `finish_execution` leaves.
use mini_ai_cloud.Prelude.{ℕ, ◌≡◌, ◌≢◌, ◌⊎◌, true, false, none, some, ok}
use mini_ai_cloud.Prelude.Floats.{Floats}
use mini_ai_cloud.Core.Enums.{TaskStatus, preempting, preempted, cancelled, is_active, same_status}
use mini_ai_cloud.Repositories.Quotas.Model.{Session, QuotaSnapshot}
use mini_ai_cloud.Repositories.Quotas.Operations.{get_locked, save}
use mini_ai_cloud.Repositories.Tasks.Model.{Task}
use mini_ai_cloud.Repositories.Tasks.Lifecycle.{Claimant, holds}
use mini_ai_cloud.Repositories.Tasks.Steps.{IsKept}
use mini_ai_cloud.Repositories.Tasks.Ending.{Ending, ending_of}
use mini_ai_cloud.Repositories.Tasks.Conclude.{ExecutionResult}
use mini_ai_cloud.Repositories.Tasks.Finish.{FinishRows}
use mini_ai_cloud.Repositories.Reservations.Settlement.{active_row, locked}
use mini_ai_cloud.Repositories.Tasks.Owned.{Ends, Releases}

module _ (fl : Floats) (quantize : ℕ → ℕ) (cost_float : ℕ → fl.F) where
  -- The rows of a project once they are locked and the counters of a new day are written.
  abbrev pub Locks : Session → Session → Type 0
  Locks before quota =
      (rows : QuotaSnapshot) × (get_locked before ≡ ok rows)
      × (quota ≡ save before rows.quota rows.state)

  -- How the execution ends: as reported, or as the row of the task overrules the report.
  abbrev pub EndsAs : Task fl → Ending → TaskStatus → Type 0
  EndsAs t report target =
      ((t.cancel_requested ≡ true)
        × ((t.status ≢ preempting) ⊎ (t.failure_category ≡ some "CANCELLED"))
        × (target ≡ cancelled))
      ⊎ ((t.status ≡ preempting)
          × ((t.cancel_requested ≡ false) ⊎ (t.failure_category ≢ some "CANCELLED"))
          × (target ≡ preempted))
      ⊎ ((t.status ≢ preempting) × (t.cancel_requested ≡ false) × (target ≡ report.target))

  -- What a report that is taken says and leaves.
  pub record Finished (db : FinishRows fl quantize cost_float) (c : Claimant fl) (report : Ending)
      (r : ExecutionResult) (after : FinishRows fl quantize cost_float) : Type 0 where
    pub task : Task fl
    pub there : db.rows.task ≡ some task
    pub held : holds fl task c ≡ true
    pub running : is_active task.status ≡ true
    pub target : EndsAs task report (ending_of fl task report).target
    pub ends : Ends fl quantize cost_float task (ending_of fl task report) r after
    pub quota : Session
    pub locked : (quota ≡ db.rows.quota) ⊎ Locks db.rows.quota quota
    pub releases :
        Releases fl quantize cost_float
          (record db { rows = record (db.rows) { quota = quota } })
          task
          c
          (ending_of fl task report)
          r.retry_scheduled
          after
    pub asked :
        task.cancel_requested ≡ true
        → same_status task.status preempting ≡ false
        → r.status ≡ some cancelled
    pub released : active_row after.reservation ≡ none
    pub consistent : IsKept fl after.rows

  clash : true ≡ false → ⊥
  clash h = cc
