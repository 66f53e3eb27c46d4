-- ===== src/Repositories/Tasks/Queued.antt =====
-- repositories/tasks.py: what the queue of a project says to a task that may be run again, at the end of
-- `finish_execution`.
use mini_ai_cloud.Prelude.{
  ℕ, ◌+◌, ◌≡◌, refl, sym, ap, ◌∙◌, subst, inl, inr, Bool, true, false, ◌&&◌, ◌||◌, &&_parts,
  if◌then◌else◌, Result, ok, ok_parts, ok_injective, either_ok, Bool-cases, arith,
}
use mini_ai_cloud.Prelude.Floats.{Floats}
use mini_ai_cloud.Repositories.Quotas.Model.{Session}
use mini_ai_cloud.Repositories.Tasks.Model.{lifted-ok, lifted, Task, Rows}
use mini_ai_cloud.Repositories.Tasks.Ending.{Ending}
use mini_ai_cloud.Repositories.Tasks.Conclude.{
  FinishError, quota_error, ExecutionResult, admit_retry, wants_requeue, wants_retry,
  schedule_retry, retry_delay, conclude,
}
use mini_ai_cloud.Repositories.Tasks.Recovery.{schedule_retry-same}
use mini_ai_cloud.Repositories.Tasks.Rerun.{may_run_again, Queues}

module _ (fl : Floats) where
  clash : true ≡ false → ⊥
  clash h = cc

  found_admits :
      (quota : Session) (wanted : Bool) {room : Bool × Session}
      → ◌≡◌ {A = Result FinishError (Bool × Session)}
          (if wanted then lifted quota_error (admit_retry quota) else ok (false, quota))
          (ok room)
      → wanted ≡ true
      → admit_retry quota ≡ ok room
  found_admits quota true found h = lifted-ok quota_error _ found
  found_admits quota false found h = absurd (clash (sym h))

  found_same :
      (quota : Session) (wanted : Bool) {room : Bool × Session}
      → ◌≡◌ {A = Result FinishError (Bool × Session)}
          (if wanted then lifted quota_error (admit_retry quota) else ok (false, quota))
          (ok room)
      → wanted ≡ false
      → quota ≡ room.1
  found_same quota true found h = absurd (clash h)
  found_same quota false found h = ap (λ (x : Bool × Session). x.1) (ok_injective found)

  no_room : (a b c : Bool) → (b && c) ≡ false → (a && c) ≡ false → (a || b) ≡ true → c ≡ false
  no_room a b c h k l = ground arith

  either_left : (a b : Bool) → b ≡ true → (a || b) ≡ true
  either_left a b h = ground arith

  either_right : (a b : Bool) → a ≡ true → (a || b) ≡ true
  either_right a b h = ground arith

  pair : (y : Bool × Session) {b : Bool} {q : Session} → y.0 ≡ b → y.1 ≡ q → y ≡ (b, q)
  pair y f g = cc

  scheduled-Queues :
      (rows : Rows fl) (t v : Task fl) (e : Ending) (delay : ℕ) (room : Bool × Session)
      {after : Rows fl}
      → (wants_requeue fl t e || wants_retry fl t e) ≡ true
      → admit_retry rows.quota ≡ ok room
      → room.0 ≡ true
      → schedule_retry fl (record rows { quota = room.1 }) v delay ≡ ok after
      → Queues fl t e rows.quota true after.quota × (after.workers ≡ rows.workers)
  scheduled-Queues rows t v e delay room wanted admits some_room made =
      let (quota, workers) = schedule_retry-same fl (record rows { quota = room.1 }) v delay made in
      (
        inr ((may_run_again fl t e).0 wanted, admits ∙ ap ok (pair room some_room (sym quota))),
        workers,
      )

  pub conclude-Queues :
      (rows : Rows fl) (t : Task fl) (e : Ending) (limit : ℕ) {x : ExecutionResult × Rows fl}
      → conclude fl rows t e limit ≡ ok x
      → Queues fl t e rows.quota x.0.retry_scheduled x.1.quota × (x.1.workers ≡ rows.workers)
  unfolding conclude
  conclude-Queues rows t e limit {x} h =
      let again = wants_requeue fl t e in
      let retry = wants_retry fl t e in
      let (room, found, h1) =
        ok_parts {B = ExecutionResult × Rows fl}
          (if again || retry
            then lifted quota_error (admit_retry rows.quota)
            else ok (false, rows.quota))
          _ h in
      let middle = record rows { quota = room.1 } in
      let goal = λ (y : ExecutionResult × Rows fl).
        Queues fl t e rows.quota y.0.retry_scheduled y.1.quota × (y.1.workers ≡ rows.workers) in
      let wanted_room = found_admits rows.quota (again || retry) found in
      elim (either_ok (retry && room.0) _ _ h1) [
        | inl (yes_retry, h2) ↦
            let (delay, timed, h3) =
              ok_parts {B = ExecutionResult × Rows fl} (retry_delay fl t limit) _ h2 in
            let (next, made, same) =
              ok_parts {B = ExecutionResult × Rows fl}
                (schedule_retry fl middle (record t { retry_count = t.retry_count + 1 }) delay) _
                h3 in
            let (wanted, some_room) = &&_parts retry room.0 yes_retry in
            subst goal (ok_injective same) (
              scheduled-Queues rows t (record t { retry_count = t.retry_count + 1 }) e delay room
                (either_left again retry wanted) (wanted_room (either_left again retry wanted))
                some_room made)
        | inr (not_retry, h2) ↦ elim (either_ok (again && room.0) _ _ h2) [
          | inl (yes_again, h3) ↦
              let (next, made, same) =
                ok_parts {B = ExecutionResult × Rows fl} (schedule_retry fl middle t 0) _ h3 in
              let (wanted, some_room) = &&_parts again room.0 yes_again in
              subst goal (ok_injective same) (
                scheduled-Queues rows t t e 0 room (either_right again retry wanted)
                  (wanted_room (either_right again retry wanted)) some_room made)
          | inr (not_again, h3) ↦ subst goal (ok_injective h3) (elim (Bool-cases (again || retry)) [
            | inl wanted ↦ (
              inr (
                (may_run_again fl t e).0 wanted,
                wanted_room wanted
                    ∙ ap ok
                        (pair room (no_room again retry room.0 not_retry not_again wanted) refl),
              ),
              refl,
            )
            | inr unwanted ↦ (
              inl (
                λ may. clash (sym ((may_run_again fl t e).1 may) ∙ unwanted),
                refl,
                sym (found_same rows.quota (again || retry) found unwanted),
              ),
              refl,
            )
          ])
        ]
      ]
