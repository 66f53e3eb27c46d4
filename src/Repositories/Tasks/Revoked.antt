-- ===== src/Repositories/Tasks/Revoked.antt =====
-- repositories/tasks.py: a task whose lease has run out is taken off its worker.
use mini_ai_cloud.Prelude.{
  ℕ, ◌≡◌, refl, sym, subst, Bool, true, false, Option, none, some, List, is_some, ok, ok_parts,
  ok_injective, arith,
}
use mini_ai_cloud.Prelude.Floats.{Floats}
use mini_ai_cloud.Repositories.Tasks.Model.{TaskEvent, Task}
use mini_ai_cloud.Repositories.Tasks.History.{Kept, same_Kept}
use mini_ai_cloud.Repositories.Tasks.Ending.{status_value}
use mini_ai_cloud.Repositories.Tasks.Finish.{FinishRows, settlement_of}
use mini_ai_cloud.Repositories.Tasks.Freed.{SameBut, settled-SameBut}
use mini_ai_cloud.Repositories.Tasks.Recover.{Reason, idle, free_task, settled_for, revoke}
use mini_ai_cloud.Repositories.Tasks.Recovered.{IsFree}
use mini_ai_cloud.Repositories.Reservations.Settlement.{
  SettlementRows, active_row, active_reservation,
}

module _ (fl : Floats) (quantize : ℕ → ℕ) (cost_float : ℕ → fl.F) where
  abbrev pub Db : Type 0
  Db = FinishRows fl quantize cost_float

  settled_for-SameBut :
      (execution_id : Option ℕ) (db : SettlementRows fl quantize cost_float) (r : Reason) (now : ℕ)
      {x : Bool × SettlementRows fl quantize cost_float}
      → settled_for fl quantize cost_float execution_id db r now ≡ ok x
      → SameBut fl quantize cost_float db.task x.1.task
        × (is_some execution_id ≡ true → active_reservation fl quantize cost_float x.1 ≡ none)
  settled_for-SameBut none db r now {x} h =
      subst
        (λ (x : Bool × SettlementRows fl quantize cost_float).
          SameBut fl quantize cost_float db.task x.1.task
          × (false ≡ true → active_reservation fl quantize cost_float x.1 ≡ none))
        (ok_injective h) ((db.task.estimated_cost, refl), λ no_execution. cc)
  settled_for-SameBut (some id) db r now {x} h =
      let (same, gone) =
        settled-SameBut fl quantize cost_float db (status_value r.target) now
          "execution_lease_expired" h in
      (same, λ there. gone)

  -- What is left of the task and the reservation; the events and the queue of events stay.
  pub record Revoked (db : Db) (t : Task fl) (after : Db) : Type 0 where
    pub u : Task fl
    pub there : after.rows.task ≡ some u
    pub same : SameBut fl quantize cost_float (idle fl quantize cost_float t) u
    pub events : after.rows.events ≡ db.rows.events
    pub outbox : after.rows.outbox ≡ db.rows.outbox
    pub released : is_some t.execution_id ≡ true → active_row after.reservation ≡ none

  pub revoke-Revoked :
      (db : Db) (t : Task fl) (r : Reason) {after : Db}
      → revoke fl quantize cost_float db t r ≡ ok after
      → Revoked db t after
  unfolding revoke
  revoke-Revoked db t r h =
      let before = settlement_of fl quantize cost_float db (idle fl quantize cost_float t) in
      let (settled, found, made) =
        ok_parts (settled_for fl quantize cost_float t.execution_id before r db.rows.quota.now) _
          h in
      let (same, gone) = settled_for-SameBut t.execution_id before r db.rows.quota.now found in
      subst (Revoked db t) (ok_injective made) (record {
        u = settled.1.task;
        there = refl;
        same = same;
        events = refl;
        outbox = refl;
        released = gone;
      })

  -- The task once nothing holds it.
  pub freed :
      (t u : Task fl) (events : List TaskEvent)
      → SameBut fl quantize cost_float (idle fl quantize cost_float t) u
      → Kept fl t events
      → (let v = free_task fl quantize cost_float (some u) t in
          Kept fl v events
          × IsFree fl v
          × (v.recovery_count ≡ t.recovery_count)
          × (v.requeue_on_preempt ≡ t.requeue_on_preempt))
  freed t u events (cost, same) kept =
      subst
        (λ (u : Task fl).
          let v = free_task fl quantize cost_float (some u) t in
          Kept fl v events
          × IsFree fl v
          × (v.recovery_count ≡ t.recovery_count)
          × (v.requeue_on_preempt ≡ t.requeue_on_preempt))
        (sym same)
        (same_Kept fl t _ events refl refl (omega arith) kept, (refl, refl, refl), refl, refl)
