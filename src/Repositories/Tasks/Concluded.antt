-- ===== src/Repositories/Tasks/Concluded.antt =====
-- repositories/tasks.py: what the end of `finish_execution` leaves.
use mini_ai_cloud.Prelude.{
  ℕ, ◌+◌, ◌≡◌, refl, subst, ◌⊎◌, inl, inr, Bool, true, false, ◌&&◌, ◌||◌, &&_parts, Option, none,
  some, if◌then◌else◌, ok, ok_parts, ok_injective, either_ok, arith,
}
use mini_ai_cloud.Prelude.Floats.{Floats}
use mini_ai_cloud.Core.Enums.{retrying}
use mini_ai_cloud.Repositories.Tasks.Model.{lifted-ok, lifted, Task, Rows, transition}
use mini_ai_cloud.Repositories.Tasks.History.{transition-status, Kept, transition-Kept, same_Kept}
use mini_ai_cloud.Repositories.Tasks.Steps.{IsKept}
use mini_ai_cloud.Repositories.Tasks.Ending.{Ending}
use mini_ai_cloud.Repositories.Tasks.Conclude.{
  task_error, quota_error, ExecutionResult, admit_retry, wants_requeue, wants_retry, schedule_retry,
  retry_delay, conclude,
}
use mini_ai_cloud.Repositories.Tasks.Rerun.{MayRunAgain, may_run_again}

module _ (fl : Floats) where
  -- The task that ended as `t` is to run again as `u`, on no worker and with no request to stop it.
  pub record Retried (t : Task fl) (e : Ending) (u : Task fl) : Type 0 where
    pub wanted : MayRunAgain fl t e
    pub status : u.status ≡ retrying
    pub worker : u.worker_id ≡ none
    pub execution : u.execution_id ≡ none
    pub request : u.cancel_requested ≡ false

  -- The row and the result, where the task ended as `t`.
  abbrev pub Concluded : Task fl → Ending → ExecutionResult → Option (Task fl) → Type 0
  Concluded t e r task =
      (r.accepted ≡ true)
      × (((r.retry_scheduled ≡ false) × (r.status ≡ some t.status) × (task ≡ some t))
          ⊎ ((r.retry_scheduled ≡ true)
              × (r.status ≡ some retrying)
              × ((u : Task fl) × (task ≡ some u) × Retried t e u)))

  schedule_retry-Retried :
      (rows : Rows fl) (t v : Task fl) (e : Ending) (delay : ℕ) {after : Rows fl}
      → (wants_requeue fl t e || wants_retry fl t e) ≡ true
      → Kept fl v rows.events
      → schedule_retry fl rows v delay ≡ ok after
      → ((u : Task fl) × (after.task ≡ some u) × Retried t e u) × IsKept fl after
  unfolding schedule_retry
  schedule_retry-Retried rows t v e delay {after} wanted kept h =
      let (m, moved, made) =
        ok_parts
          (lifted task_error
            (transition fl v rows.events retrying rows.quota.now "task.status_changed"))
          _ h in
      subst (λ (r : Rows fl). ((u : Task fl) × (r.task ≡ some u) × Retried t e u) × IsKept fl r)
        (ok_injective made)
        (
          (
            record m.task {
              next_attempt_at = some (rows.quota.now + delay);
              worker_id = none;
              execution_id = none;
              cancel_requested = false;
            },
            refl,
            record {
              wanted = (may_run_again fl t e).0 wanted;
              status =
                  transition-status fl v rows.events retrying rows.quota.now "task.status_changed"
                    (lifted-ok task_error _ moved);
              worker = refl;
              execution = refl;
              request = refl;
            },
          ),
          same_Kept fl m.task _ m.events refl refl (omega arith) (
              transition-Kept fl v rows.events retrying rows.quota.now "task.status_changed" kept
                (lifted-ok task_error _ moved)),
        )

  or_left : (a b : Bool) → b ≡ true → (a || b) ≡ true
  or_left a b h = ground arith

  or_right : (a b : Bool) → a ≡ true → (a || b) ≡ true
  or_right a b h = ground arith

  pub conclude-Concluded :
      (rows : Rows fl) (t : Task fl) (e : Ending) (limit : ℕ) {r : ExecutionResult}
      {after : Rows fl}
      → Kept fl t rows.events
      → conclude fl rows t e limit ≡ ok (r, after)
      → Concluded t e r after.task × IsKept fl after
  unfolding conclude
  conclude-Concluded rows t e limit {r} {after} kept h =
      let again = wants_requeue fl t e in
      let retry = wants_retry fl t e in
      let (room, found, h1) =
        ok_parts {B = ExecutionResult × Rows fl}
          (if again || retry
            then lifted quota_error (admit_retry rows.quota)
            else ok (false, rows.quota))
          _ h in
      let middle = record rows { quota = room.1 } in
      elim (either_ok (retry && room.0) _ _ h1) [
        | inl (yes_retry, h2) ↦
            let (delay, timed, h3) =
              ok_parts {B = ExecutionResult × Rows fl} (retry_delay fl t limit) _ h2 in
            let (next, made, same) =
              ok_parts {B = ExecutionResult × Rows fl}
                (schedule_retry fl middle (record t { retry_count = t.retry_count + 1 }) delay) _
                h3 in
            let (retried, ok_rows) =
              schedule_retry-Retried middle t (record t { retry_count = t.retry_count + 1 }) e delay
                (or_left again retry (&&_parts retry room.0 yes_retry).0)
                (same_Kept fl t _ rows.events refl refl (omega arith) kept) made in
            subst (λ (x : ExecutionResult × Rows fl). Concluded t e x.0 x.1.task × IsKept fl x.1)
              (ok_injective same) ((refl, inr (refl, refl, retried)), ok_rows)
        | inr (not_retry, h2) ↦ elim (either_ok (again && room.0) _ _ h2) [
          | inl (yes_again, h3) ↦
              let (next, made, same) =
                ok_parts {B = ExecutionResult × Rows fl} (schedule_retry fl middle t 0) _ h3 in
              let (retried, ok_rows) =
                schedule_retry-Retried middle t t e 0
                  (or_right again retry (&&_parts again room.0 yes_again).0) kept made in
              subst (λ (x : ExecutionResult × Rows fl). Concluded t e x.0 x.1.task × IsKept fl x.1)
                (ok_injective same) ((refl, inr (refl, refl, retried)), ok_rows)
          | inr (not_again, h3) ↦
              subst (λ (x : ExecutionResult × Rows fl). Concluded t e x.0 x.1.task × IsKept fl x.1)
                (ok_injective h3) ((refl, inl (refl, refl, refl)), kept)
        ]
      ]
