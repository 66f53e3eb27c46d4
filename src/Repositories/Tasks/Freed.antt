-- ===== src/Repositories/Tasks/Freed.antt =====
-- repositories/tasks.py: the row of a task once the capacity of its execution is given back.
use mini_ai_cloud.Prelude.{
  ℕ, ◌≡◌, refl, sym, subst, inl, inr, Bool, Option, none, some, ok, ok_parts, ok_injective, arith,
}
use mini_ai_cloud.Prelude.Text.{String}
use mini_ai_cloud.Prelude.Floats.{Floats}
use mini_ai_cloud.Core.Enums.{TaskStatus}
use mini_ai_cloud.Repositories.Tasks.Model.{Task}
use mini_ai_cloud.Repositories.Tasks.Lifecycle.{Claimant}
use mini_ai_cloud.Repositories.Tasks.Ending.{status_value}
use mini_ai_cloud.Repositories.Tasks.Finish.{FinishRows, settlement_of, release_capacity}
use mini_ai_cloud.Repositories.Reservations.Settlement.{
  Reserved, SettlementRows, active_reservation, active_row, mark_released, release_and_settle,
}
use mini_ai_cloud.Repositories.Reservations.Settled.{release_and_settle_cases}

module _ (fl : Floats) (quantize : ℕ → ℕ) (cost_float : ℕ → fl.F) where
  abbrev Db : Type 0
  Db = SettlementRows fl quantize cost_float

  -- The two tasks differ in their estimated cost at most.
  abbrev pub SameBut : Task fl → Task fl → Type 0
  SameBut t u = (cost : Option fl.F) × (u ≡ record t { estimated_cost = cost })

  inactive :
      (db : Db) (r : Reserved) (now : ℕ) (reason : String)
      → db.reservation ≡ some (mark_released r now reason)
      → active_reservation fl quantize cost_float db ≡ none
  inactive db r now reason h = ground (arith, h)

  pub settled-SameBut :
      (db : Db) (status : String) (now : ℕ) (reason : String) {x : Bool × Db}
      → release_and_settle fl quantize cost_float db status now reason ≡ ok x
      → SameBut db.task x.1.task × (active_reservation fl quantize cost_float x.1 ≡ none)
  settled-SameBut db status now reason {x} h =
      elim (release_and_settle_cases fl quantize cost_float db status now reason h) [
        | inl (_, same, missing) ↦
            subst
              (λ (y : Db).
                SameBut db.task y.task × (active_reservation fl quantize cost_float y ≡ none))
              (sym same) ((db.task.estimated_cost, refl), missing)
        | inr (_, done) ↦ (done.task, inactive x.1 done.r now reason done.released)
      ]

  -- The row of the task, its events and the reservation once the capacity is given back.
  pub release_capacity-SameBut :
      (db : FinishRows fl quantize cost_float) (t : Task fl) (c : Claimant fl) (target : TaskStatus)
      {after : FinishRows fl quantize cost_float}
      → release_capacity fl quantize cost_float db t c target ≡ ok after
      → (u : Task fl) × (after.rows.task ≡ some u)
        × SameBut t u
        × (after.rows.events ≡ db.rows.events)
        × (active_row after.reservation ≡ none)
  unfolding release_capacity
  release_capacity-SameBut db t c target h =
      let (settled, found, made) =
        ok_parts
          (release_and_settle fl quantize cost_float (settlement_of fl quantize cost_float db t)
            (status_value target) db.rows.quota.now (status_value target))
          _ h in
      let (same, gone) =
        settled-SameBut (settlement_of fl quantize cost_float db t) (status_value target)
          db.rows.quota.now (status_value target) found in
      subst
        (λ (x : FinishRows fl quantize cost_float).
          (u : Task fl) × (x.rows.task ≡ some u)
          × SameBut t u
          × (x.rows.events ≡ db.rows.events)
          × (active_row x.reservation ≡ none))
        (ok_injective made) (settled.1.task, refl, same, refl, gone)
