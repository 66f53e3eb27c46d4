-- ===== src/Repositories/Tasks/Owned.antt =====
-- repositories/tasks.py: what `finish_execution` leaves, where it is the holder that reports.
use mini_ai_cloud.Prelude.{
  ℕ, ◌≡◌, refl, sym, ap, ◌∙◌, subst, ◌⊎◌, inl, inr, Bool, true, false, Option, none, some, List, ok,
  ok_parts, ok_injective, arith,
}
use mini_ai_cloud.Prelude.Text.{concat}
use mini_ai_cloud.Prelude.Floats.{Floats}
use mini_ai_cloud.Core.Enums.{retrying}
use mini_ai_cloud.Repositories.Tasks.Model.{lifted-ok, TaskEvent, lifted, Task, transition}
use mini_ai_cloud.Repositories.Tasks.Lifecycle.{Claimant}
use mini_ai_cloud.Repositories.Tasks.History.{Kept, transition-Kept, transition-status, same_Kept}
use mini_ai_cloud.Repositories.Tasks.Steps.{IsKept}
use mini_ai_cloud.Repositories.Tasks.Ending.{
  Ending, Prices, ending_of, describe, measure, status_value,
}
use mini_ai_cloud.Repositories.Tasks.Conclude.{
  task_error, settlement_error, ExecutionResult, conclude,
}
use mini_ai_cloud.Repositories.Tasks.Concluded.{Retried, Concluded, conclude-Concluded}
use mini_ai_cloud.Repositories.Tasks.Finish.{FinishRows, release_capacity, task_or, finish_owned}
use mini_ai_cloud.Repositories.Tasks.GivenUp.{GivesBackOf, release_capacity-GivesBackOf}
use mini_ai_cloud.Repositories.Tasks.Rerun.{
  IsAlike, MayRunAgain-same, Queues, Queues-same, ended-IsAlike, Alike-SameBut,
}
use mini_ai_cloud.Repositories.Tasks.Queued.{conclude-Queues}
use mini_ai_cloud.Repositories.Reservations.Settlement.{active_row}
use mini_ai_cloud.Repositories.Tasks.Freed.{SameBut, release_capacity-SameBut}

module _ (fl : Floats) (quantize : ℕ → ℕ) (cost_float : ℕ → fl.F) where
  -- How the row `task` and the result are left, where the execution ends as `e`.
  abbrev pub Ends : Task fl → Ending → ExecutionResult → FinishRows fl quantize cost_float → Type 0
  Ends task e r after =
      (r.accepted ≡ true)
      × (((r.retry_scheduled ≡ false)
            × (r.status ≡ some e.target)
            × ((u : Task fl) × (after.rows.task ≡ some u) × (u.status ≡ e.target)))
          ⊎ ((r.retry_scheduled ≡ true)
              × (r.status ≡ some retrying)
              × ((u : Task fl) × (after.rows.task ≡ some u) × Retried fl task e u)))

  -- What the execution held is given back, and the queue of the project says whether the task runs again.
  pub record Releases (db : FinishRows fl quantize cost_float) (t : Task fl) (c : Claimant fl)
      (e : Ending) (retried : Bool) (after : FinishRows fl quantize cost_float) : Type 0 where
    pub ended : Task fl
    pub alike : IsAlike fl t ended
    pub events : List TaskEvent
    pub settled : FinishRows fl quantize cost_float
    pub gives_back :
        GivesBackOf fl quantize cost_float
          (record db { rows = record (db.rows) { events = events } })
          ended
          (some c.worker_id)
          (status_value e.target)
          settled
    pub workers : after.rows.workers ≡ settled.rows.workers
    pub reservation : after.reservation ≡ settled.reservation
    pub links : after.links ≡ settled.links
    pub ledger : after.ledger ≡ settled.ledger
    pub queue : Queues fl t e settled.rows.quota retried after.rows.quota

  described :
      (t : Task fl) (e : Ending) (start : Option ℕ) (now : ℕ) (prices : Prices fl)
      → ((measure fl (describe fl t e) start now prices).status ≡ t.status)
        × ((measure fl (describe fl t e) start now prices).finished_at ≡ t.finished_at)
        × ((measure fl (describe fl t e) start now prices).version ≡ t.version)
  unfolding describe measure
  described t e none now prices = (refl, refl, refl)
  described t e (some start) now prices = (refl, refl, refl)

  described-Kept :
      (t u v : Task fl) (events : List TaskEvent)
      → (u.status ≡ t.status) × (u.finished_at ≡ t.finished_at) × (u.version ≡ t.version)
      → SameBut fl quantize cost_float u v
      → Kept fl t events
      → (v.status ≡ t.status) × Kept fl v events
  described-Kept t u v events (status, ended, version) (cost, same) kept =
      subst (λ (x : Task fl). (x.status ≡ t.status) × Kept fl x events) (sym same)
        (status, same_Kept fl t _ events status ended (omega (arith, version)) kept)

  Concluded-Ends :
      (row t : Task fl) (e : Ending) (r : ExecutionResult)
      (after : FinishRows fl quantize cost_float)
      → IsAlike fl row t
      → t.status ≡ e.target
      → Concluded fl t e r after.rows.task
      → Ends row e r after
  Concluded-Ends row t e r after alike status (accepted, inl (none_due, same, task)) =
      (accepted, inl (none_due, same ∙ ap some status, (t, task, status)))
  Concluded-Ends row t e r after alike status (accepted, inr (due, same, (u, task, retried))) = (
    accepted,
    inr (
      due,
      same,
      (
        u,
        task,
        record {
          wanted = MayRunAgain-same fl row t e alike retried.wanted;
          status = retried.status;
          worker = retried.worker;
          execution = retried.execution;
          request = retried.request;
        },
      ),
    ),
  )

  SameBut-IsAlike :
      (row t u : Task fl) → IsAlike fl row t → SameBut fl quantize cost_float t u → IsAlike fl row u
  SameBut-IsAlike row t u alike (cost, same) =
      subst (IsAlike fl row) (sym same) (Alike-SameBut fl row t cost alike)

  pub finish_owned-Ends :
      (db : FinishRows fl quantize cost_float) (t : Task fl) (c : Claimant fl) (report : Ending)
      (limit : ℕ) (prices : Prices fl) {r : ExecutionResult}
      {after : FinishRows fl quantize cost_float}
      → Kept fl t db.rows.events
      → finish_owned fl quantize cost_float db t c report limit prices ≡ ok (r, after)
      → Ends t (ending_of fl t report) r after
        × (active_row after.reservation ≡ none)
        × IsKept fl after.rows
        × Releases db t c (ending_of fl t report) r.retry_scheduled after
  unfolding finish_owned
  finish_owned-Ends db t c report limit prices {r} {after} kept h =
      let now = db.rows.quota.now in
      let e = ending_of fl t report in
      let name = concat "task." (status_value e.target) in
      let (m, moved, h1) =
        ok_parts {B = ExecutionResult × FinishRows fl quantize cost_float}
          (lifted task_error (transition fl t db.rows.events e.target now name)) _ h in
      let went = lifted-ok task_error _ moved in
      let ended = measure fl (describe fl m.task e) m.task.started_at now prices in
      let middle = record db { rows = record (db.rows) { events = m.events } } in
      let (settled, freed, h2) =
        ok_parts {B = ExecutionResult × FinishRows fl quantize cost_float}
          (lifted settlement_error
            (release_capacity fl quantize cost_float middle ended c e.target))
          _ h1 in
      let (u, there, same, events, gone) =
        release_capacity-SameBut fl quantize cost_float middle ended c e.target
          (lifted-ok settlement_error _ freed) in
      let (status, kept_u) =
        described-Kept m.task ended u m.events (described m.task e m.task.started_at now prices)
          same (transition-Kept fl t db.rows.events e.target now name kept went) in
      let alike =
        SameBut-IsAlike t ended u
          (ended-IsAlike fl t db.rows.events e.target now name e prices went) same in
      let (done, concluded, made) =
        ok_parts {B = ExecutionResult × FinishRows fl quantize cost_float}
          (conclude fl settled.rows (task_or fl quantize cost_float settled.rows.task ended) e
            limit)
          _ h2 in
      let queued = conclude-Queues fl settled.rows u e limit (
        subst
          (λ (o : Option (Task fl)).
            conclude fl settled.rows (task_or fl quantize cost_float o ended) e limit ≡ ok done)
          there concluded) in
      let (left, consistent) =
        conclude-Concluded fl settled.rows u e limit (subst (Kept fl u) (sym events) kept_u) (
          subst
            (λ (o : Option (Task fl)).
              conclude fl settled.rows (task_or fl quantize cost_float o ended) e limit ≡ ok done)
            there concluded) in
      subst
        (λ (x : ExecutionResult × FinishRows fl quantize cost_float).
          Ends t e x.0 x.1
          × (active_row x.1.reservation ≡ none)
          × IsKept fl x.1.rows
          × Releases db t c e x.0.retry_scheduled x.1)
        (ok_injective made)
        (
          Concluded-Ends t u e done.0 (record settled { rows = done.1 }) alike
              (status ∙ transition-status fl t db.rows.events e.target now name went) left,
          gone,
          consistent,
          record {
            ended = ended;
            alike = ended-IsAlike fl t db.rows.events e.target now name e prices went;
            events = m.events;
            settled = settled;
            gives_back =
                release_capacity-GivesBackOf fl quantize cost_float middle ended c e.target
                  (lifted-ok settlement_error _ freed);
            workers = queued.1;
            reservation = refl;
            links = refl;
            ledger = refl;
            queue = Queues-same fl t u e alike queued.0;
          },
        )
