-- ===== src/Repositories/Tasks/Recovered.antt =====
-- repositories/tasks.py: what `recover_expired` leaves.
use mini_ai_cloud.Prelude.{
  ℕ, ◌+◌, ◌≡◌, refl, ap, ◌∙◌, subst, ◌⊎◌, inl, inr, Bool, true, false, ◌&&◌, &&_parts, none, some,
  List, ◌∷◌, if◌then◌else◌, ok, ok_parts, ok_injective, either_ok, Bool-cases, arith,
}
use mini_ai_cloud.Prelude.Floats.{Floats}
use mini_ai_cloud.Core.Enums.{retrying, failed, cancelled, same_status}
use mini_ai_cloud.Repositories.Tasks.Model.{
  lifted-ok, lifted, TaskEvent, OutboxEvent, Task, Rows, transition,
}
use mini_ai_cloud.Repositories.Tasks.Cancel.{outbox_event}
use mini_ai_cloud.Repositories.Tasks.History.{Kept, transition-Kept, transition-status, same_Kept}
use mini_ai_cloud.Repositories.Tasks.Steps.{IsKept}
use mini_ai_cloud.Repositories.Tasks.Conclude.{task_error, quota_error, schedule_retry, admit_retry}
use mini_ai_cloud.Repositories.Tasks.Recover.{
  Reason, blame, wants_recovery, count_recovery, suppress, requeue, move_on,
}
use mini_ai_cloud.Repositories.Tasks.Recovery.{
  transition-Carries, MayRecover, may_recover, MayRecover-same,
}

module _ (fl : Floats) where
  -- A task that nothing holds.
  abbrev pub IsFree : Task fl → Type 0
  IsFree t = (t.lease_expires_at ≡ none) × (t.worker_id ≡ none) × (t.execution_id ≡ none)

  -- How the task `t`, which was recovered for `r`, is left: as it ended, of which other services are
  -- told, or to be run again.
  abbrev pub Requeued :
      Task fl → Reason → ℕ → ℕ → List OutboxEvent → Bool → Rows fl → Task fl → Type 0
  Requeued t r attempts now outbox recovered after u =
      ((recovered ≡ same_status r.target cancelled)
        × (u.status ≡ r.target)
        × (after.outbox ≡ outbox_event fl "task.terminal" (some r.target) now ∷ outbox))
      ⊎ ((recovered ≡ true)
          × (u.status ≡ retrying)
          × (u.cancel_requested ≡ false)
          × MayRecover fl t r attempts
          × (r.target ≡ failed → u.recovery_count ≡ t.recovery_count + 1)
          × (after.outbox ≡ outbox))

  -- Two rows of one task, as far as its events and its holder go.
  abbrev IsLike : Task fl → Task fl → Type 0
  IsLike t u =
      (u.status ≡ t.status)
      × (u.finished_at ≡ t.finished_at)
      × (u.version ≡ t.version)
      × (IsFree t → IsFree u)

  like-Kept :
      (t u : Task fl) (events : List TaskEvent) → IsLike t u → Kept fl t events → Kept fl u events
  like-Kept t u events (status, finished, version, free) kept =
      same_Kept fl t u events status finished (omega (arith, version)) kept

  count_recovery-IsLike : (t : Task fl) (r : Reason) → IsLike t (count_recovery fl t r)
  unfolding count_recovery
  count_recovery-IsLike t r = elim (Bool-cases (same_status r.target failed)) [
    | inl failing ↦ rw failing (refl, refl, refl, λ free. free)
    | inr other ↦ rw other (refl, refl, refl, λ free. free)
  ]

  counted :
      (t : Task fl) (r : Reason)
      → r.target ≡ failed
      → (count_recovery fl t r).recovery_count ≡ t.recovery_count + 1
  unfolding count_recovery same_status
  counted t r h = rw h refl

  suppress-IsLike : (t : Task fl) (r : Reason) (wanted : Bool) → IsLike t (suppress fl t r wanted)
  unfolding suppress
  suppress-IsLike t r true = (refl, refl, refl, λ free. free)
  suppress-IsLike t r false = (refl, refl, refl, λ free. free)

  abbrev pub Left : Task fl → Reason → ℕ → ℕ → List OutboxEvent → Bool × Rows fl → Type 0
  Left t r attempts now outbox (recovered, after) =
      ((u : Task fl) × (after.task ≡ some u)
        × IsFree u
        × Requeued t r attempts now outbox recovered after u)
      × IsKept fl after

  again-Left :
      (rows : Rows fl) (t : Task fl) (r : Reason) (attempts grace now : ℕ) {after : Rows fl}
      → Kept fl t rows.events
      → IsFree t
      → wants_recovery fl t r attempts ≡ true
      → schedule_retry fl rows (count_recovery fl t r) grace ≡ ok after
      → Left t r attempts now rows.outbox (true, after)
  unfolding schedule_retry
  again-Left rows t r attempts grace now {after} kept free wanted h =
      let v = count_recovery fl t r in
      let like = count_recovery-IsLike t r in
      let (m, moved, made) =
        ok_parts
          (lifted task_error
            (transition fl v rows.events retrying rows.quota.now "task.status_changed"))
          _ h in
      let went = lifted-ok task_error _ moved in
      let (count, lease, worker, execution, requeue) =
        transition-Carries fl v rows.events retrying rows.quota.now "task.status_changed" went in
      subst (λ x. Left t r attempts now rows.outbox (true, x)) (ok_injective made)
        (
          (
            record m.task {
              next_attempt_at = some (rows.quota.now + grace);
              worker_id = none;
              execution_id = none;
              cancel_requested = false;
            },
            refl,
            (lease ∙ (like.3 free).0, refl, refl),
            inr (
              refl,
              transition-status fl v rows.events retrying rows.quota.now "task.status_changed" went,
              refl,
              (may_recover fl t r attempts).0 wanted,
              λ failing. count ∙ counted t r failing,
              refl,
            ),
          ),
          same_Kept fl m.task _ m.events refl refl (omega arith) (
              transition-Kept fl v rows.events retrying rows.quota.now "task.status_changed"
                (like-Kept t v rows.events like kept) went),
        )

  pub requeue-Left :
      (rows : Rows fl) (t : Task fl) (r : Reason) (attempts grace : ℕ) {x : Bool × Rows fl}
      → Kept fl t rows.events
      → IsFree t
      → t.status ≡ r.target
      → requeue fl rows t r attempts grace ≡ ok x
      → Left t r attempts rows.quota.now rows.outbox x
  unfolding requeue
  requeue-Left rows t r attempts grace {x} kept free status h =
      let wanted = wants_recovery fl t r attempts in
      let (room, found, h1) =
        ok_parts {B = Bool × Rows fl}
          (if wanted then lifted quota_error (admit_retry rows.quota) else ok (false, rows.quota)) _
          h in
      let middle = record rows { quota = room.1 } in
      elim (either_ok (wanted && room.0) _ _ h1) [
        | inl (retry, h2) ↦
            let (next, made, same) =
              ok_parts {B = Bool × Rows fl} (schedule_retry fl middle (count_recovery fl t r) grace)
                _ h2 in
            subst (Left t r attempts rows.quota.now rows.outbox) (ok_injective same) (
              again-Left middle t r attempts grace rows.quota.now kept free
                (&&_parts wanted room.0 retry).0 made)
        | inr (over, h2) ↦
            let like = suppress-IsLike t r wanted in
            subst (Left t r attempts rows.quota.now rows.outbox) (ok_injective h2) (
              (suppress fl t r wanted, refl, like.3 free, inl (refl, like.0 ∙ status, refl)),
              like-Kept t (suppress fl t r wanted) rows.events like kept,
            )
      ]

  pub Requeued-same :
      (t u v : Task fl) (r : Reason) (attempts now : ℕ) (outbox : List OutboxEvent)
      (recovered : Bool) (after : Rows fl)
      → u.recovery_count ≡ t.recovery_count
      → u.requeue_on_preempt ≡ t.requeue_on_preempt
      → Requeued u r attempts now outbox recovered after v
      → Requeued t r attempts now outbox recovered after v
  Requeued-same t u v r attempts now outbox recovered after count requeue (inl ended) = inl ended
  Requeued-same t u v r attempts now outbox recovered after count requeue
        (inr (yes_recovered, status, request, wanted, counts, told)) =
      inr (
        yes_recovered,
        status,
        request,
        MayRecover-same fl t u r attempts count requeue wanted,
        λ failing. counts failing ∙ ap (λ n. n + 1) count,
        told,
      )

  -- The task `t`, that nothing holds, moves on as `r` has it.
  pub move_on-Left :
      (rows : Rows fl) (t : Task fl) (r : Reason) (attempts grace now : ℕ) {x : Bool × Rows fl}
      → Kept fl t rows.events
      → IsFree t
      → move_on fl rows t r attempts grace now ≡ ok x
      → Left t r attempts rows.quota.now rows.outbox x
  unfolding move_on blame
  move_on-Left rows t r attempts grace now {x} kept free h =
      let (m, moved, h1) =
        ok_parts {B = Bool × Rows fl}
          (lifted task_error (transition fl t rows.events r.target now r.event_type)) _ h in
      let went = lifted-ok task_error _ moved in
      let (count, lease, worker, execution, requeue) =
        transition-Carries fl t rows.events r.target now r.event_type went in
      let kept_m = transition-Kept fl t rows.events r.target now r.event_type kept went in
      let ((u, there, idle, left), consistent) =
        requeue-Left (record rows { events = m.events }) (blame fl m.task r) r attempts grace
          (same_Kept fl m.task (blame fl m.task r) m.events refl refl (omega arith) kept_m)
          (lease ∙ free.0, worker ∙ free.1, execution ∙ free.2)
          (transition-status fl t rows.events r.target now r.event_type went) h1 in
      (
        (
          u,
          there,
          idle,
          Requeued-same t (blame fl m.task r) u r attempts rows.quota.now rows.outbox x.0 x.1 count
              requeue left,
        ),
        consistent,
      )
