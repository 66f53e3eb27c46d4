-- ===== src/Repositories/Tasks/Expired.antt =====
-- repositories/tasks.py: what `recover_expired` leaves of a task.
use mini_ai_cloud.Prelude.{
  ℕ, ◌<◌, ◌≡◌, ◌≢◌, ◌⊎◌, Bool, true, false, Option, none, some, is_some, ok,
}
use mini_ai_cloud.Prelude.Floats.{Floats}
use mini_ai_cloud.Core.Enums.{TaskStatus, preempting, preempted, failed, cancelled, is_active}
use mini_ai_cloud.Repositories.Quotas.Model.{QuotaSnapshot}
use mini_ai_cloud.Repositories.Quotas.Operations.{get_locked, save}
use mini_ai_cloud.Repositories.Tasks.Model.{Task}
use mini_ai_cloud.Repositories.Tasks.Recovery.{Readmits}
use mini_ai_cloud.Repositories.Tasks.GivenUp.{GivesUp}
use mini_ai_cloud.Repositories.Tasks.Steps.{IsKept}
use mini_ai_cloud.Repositories.Tasks.Recover.{recovery_reason}
use mini_ai_cloud.Repositories.Tasks.Recovered.{IsFree, Requeued}
use mini_ai_cloud.Repositories.Reservations.Settlement.{active_row}
use mini_ai_cloud.Repositories.Tasks.Revoked.{Db}

module _ (fl : Floats) (quantize : ℕ → ℕ) (cost_float : ℕ → fl.F) where
  -- The status that the recovery is to leave, as the row of the task has it.
  abbrev pub RecoversTo : Task fl → TaskStatus → Type 0
  RecoversTo t target =
      ((t.cancel_requested ≡ true)
        × ((t.status ≢ preempting) ⊎ (t.failure_category ≡ some "CANCELLED"))
        × (target ≡ cancelled))
      ⊎ ((t.status ≡ preempting)
          × ((t.cancel_requested ≡ false) ⊎ (t.failure_category ≢ some "CANCELLED"))
          × (target ≡ preempted))
      ⊎ ((t.status ≢ preempting) × (t.cancel_requested ≡ false) × (target ≡ failed))

  -- What the recovery of the task leaves.
  pub record Recovers (db : Db fl quantize cost_float) (t : Task fl) (attempts : ℕ)
      (recovered : Bool) (after : Db fl quantize cost_float) : Type 0 where
    pub u : Task fl
    pub there : after.rows.task ≡ some u
    pub free : IsFree fl u
    pub now : ℕ
    pub left :
        Requeued fl t
          (recovery_reason fl t db.rows.workers)
          attempts
          now
          db.rows.outbox
          recovered
          after.rows
          u
    pub target : RecoversTo t (recovery_reason fl t db.rows.workers).target
    pub settled : Db fl quantize cost_float
    pub gives_up : GivesUp fl quantize cost_float db t settled
    pub workers : after.rows.workers ≡ settled.rows.workers
    pub reservation : after.reservation ≡ settled.reservation
    pub links : after.links ≡ settled.links
    pub ledger : after.ledger ≡ settled.ledger
    pub queue :
        Readmits fl t
          (recovery_reason fl t db.rows.workers)
          attempts
          settled.rows.quota
          recovered
          after.rows.quota
    pub released : is_some t.execution_id ≡ true → active_row after.reservation ≡ none
    pub consistent : IsKept fl after.rows

  -- The rows once the project is locked and the counters of a new day are written.
  abbrev pub locked_rows : Db fl quantize cost_float → QuotaSnapshot → Db fl quantize cost_float
  locked_rows db locked = record db {
    rows = record (db.rows) { quota = save db.rows.quota locked.quota locked.state };
  }

  -- The lease of a task has run out while the task was active.
  abbrev pub HasExpired : Db fl quantize cost_float → Task fl → Type 0
  HasExpired db t =
      (db.rows.task ≡ some t)
      × (is_active t.status ≡ true)
      × ((expires : ℕ) × (t.lease_expires_at ≡ some expires) × (expires < db.rows.quota.now))

  -- A task whose lease has run out is recovered, and any other is left as it is.
  abbrev pub Outcome : Db fl quantize cost_float → ℕ → Bool → Db fl quantize cost_float → Type 0
  Outcome db attempts recovered after =
      (((t : Task fl) → ¬ HasExpired db t) × (recovered ≡ false) × (after ≡ db))
      ⊎ ((t : Task fl) × (locked : QuotaSnapshot) × HasExpired db t
          × (get_locked db.rows.quota ≡ ok locked)
          × Recovers (locked_rows db locked) t attempts recovered after)
