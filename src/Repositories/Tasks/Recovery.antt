-- ===== src/Repositories/Tasks/Recovery.antt =====
-- repositories/tasks.py: which task is recovered, and what the queue of its project says to it.
use mini_ai_cloud.Prelude.{
  ℕ, ◌+◌, ◌<◌, ◌≡◌, ◌↔◌, refl, sym, ap, ◌∙◌, subst, ◌⊎◌, inl, inr, Bool, true, false, ◌&&◌, ◌||◌,
  &&_parts, some, List, ◌∷◌, ltb, ltb→lt, if◌then◌else◌, ok, ◌>>=◌, ok_parts, ok_injective, arith,
}
use mini_ai_cloud.Prelude.Text.{String}
use mini_ai_cloud.Prelude.Floats.{Floats}
use mini_ai_cloud.Core.Enums.{
  TaskStatus, retrying, preempted, failed, cancelled, same_status, same_status_iff,
}
use mini_ai_cloud.Repositories.Quotas.Model.{Session}
use mini_ai_cloud.Repositories.Tasks.Model.{
  lifted-ok, lifted, TaskEvent, Task, Rows, invalid_transition, stamp, transition,
}
use mini_ai_cloud.Repositories.Tasks.Cancel.{outbox_event}
use mini_ai_cloud.Core.StateMachine.{ensure_transition}
use mini_ai_cloud.Repositories.Tasks.Conclude.{task_error, quota_error, schedule_retry, admit_retry}
use mini_ai_cloud.Repositories.Tasks.Recover.{
  Reason, blame, wants_recovery, count_recovery, suppress, requeue, move_on,
}

module _ (fl : Floats) where
  -- A change to the status leaves the holder, the lease and the recoveries.
  abbrev pub Carries : Task fl → Task fl → Type 0
  Carries t u =
      (u.recovery_count ≡ t.recovery_count)
      × (u.lease_expires_at ≡ t.lease_expires_at)
      × (u.worker_id ≡ t.worker_id)
      × (u.execution_id ≡ t.execution_id)
      × (u.requeue_on_preempt ≡ t.requeue_on_preempt)

  stamp-Carries : (t : Task fl) (target : TaskStatus) (now : ℕ) → Carries t (stamp fl t target now)
  unfolding stamp
  stamp-Carries t target now = ground arith

  pub transition-Carries :
      (t : Task fl) (events : List TaskEvent) (target : TaskStatus) (now : ℕ) (name : String)
      {m : _}
      → transition fl t events target now name ≡ ok m
      → Carries t m.task
  unfolding transition
  transition-Carries t events target now name {m} h =
      let (u, allowed, same) =
        ok_parts (lifted invalid_transition (ensure_transition t.status target)) _ h in
      subst (λ m. Carries t m.task) (ok_injective same)
        (stamp-Carries (record t { status = target; version = t.version + 1 }) target now)

  clash : true ≡ false → ⊥
  clash h = cc

  either_true : (a b : Bool) → (a || b) ≡ true → (a ≡ true) ⊎ (b ≡ true)
  either_true a b h = ground arith

  -- A task may be recovered after a preemption, where its row says so, and after a failure while it was
  -- recovered less often than is allowed.
  abbrev pub MayRecover : Task fl → Reason → ℕ → Type 0
  MayRecover t r attempts =
      ((r.target ≡ preempted) × (t.requeue_on_preempt ≡ true))
      ⊎ ((r.target ≡ failed) × (t.recovery_count < attempts))

  pub may_recover :
      (t : Task fl) (r : Reason) (attempts : ℕ)
      → (wants_recovery fl t r attempts ≡ true) ↔ MayRecover t r attempts
  unfolding wants_recovery
  may_recover t r attempts = (
    λ h. elim (either_true (same_status r.target preempted && t.requeue_on_preempt) _ h) [
      | inl p ↦
          let (target, again) = &&_parts (same_status r.target preempted) t.requeue_on_preempt p in
          inl ((same_status_iff r.target preempted).0 target, again)
      | inr p ↦
          let (target, less) =
            &&_parts (same_status r.target failed) (ltb t.recovery_count attempts) p in
          inr ((same_status_iff r.target failed).0 target, ltb→lt t.recovery_count attempts less)
    ],
    λ h. elim h [
      | inl p ↦ ground (arith, p.1, (same_status_iff r.target preempted).1 p.0)
      | inr p ↦ ground (arith, p.1, (same_status_iff r.target failed).1 p.0)
    ],
  )

  pub MayRecover-same :
      (t u : Task fl) (r : Reason) (attempts : ℕ)
      → u.recovery_count ≡ t.recovery_count
      → u.requeue_on_preempt ≡ t.requeue_on_preempt
      → MayRecover u r attempts
      → MayRecover t r attempts
  MayRecover-same t u r attempts count requeue (inl (target, again)) =
      inl (target, sym requeue ∙ again)
  MayRecover-same t u r attempts count requeue (inr (target, less)) =
      inr (target, omega (arith, count, less))

  -- Where a task may be recovered it is, unless the queue of the project is full; the counters of the
  -- project are those that are left by this.
  abbrev pub Readmits : Task fl → Reason → ℕ → Session → Bool → Session → Type 0
  Readmits t r attempts quota recovered after =
      ((¬ MayRecover t r attempts) × (recovered ≡ same_status r.target cancelled) × (after ≡ quota))
      ⊎ (MayRecover t r attempts × (admit_retry quota ≡ ok (recovered, after)))

  pub Readmits-same :
      (t u : Task fl) (r : Reason) (attempts : ℕ) {quota after : Session} {recovered : Bool}
      → u.recovery_count ≡ t.recovery_count
      → u.requeue_on_preempt ≡ t.requeue_on_preempt
      → Readmits u r attempts quota recovered after
      → Readmits t r attempts quota recovered after
  Readmits-same t u r attempts count requeue (inl (not_so, over, same)) =
      inl (λ may. not_so (MayRecover-same u t r attempts (sym count) (sym requeue) may), over, same)
  Readmits-same t u r attempts count requeue (inr (may, admits)) =
      inr (MayRecover-same t u r attempts count requeue may, admits)

  -- What the queue says, and that the workers stay.
  abbrev Requeues : Rows fl → Task fl → Reason → ℕ → Bool × Rows fl → Type 0
  Requeues rows t r attempts (recovered, after) =
      Readmits t r attempts rows.quota recovered after.quota × (after.workers ≡ rows.workers)

  pub schedule_retry-same :
      (rows : Rows fl) (t : Task fl) (delay : ℕ) {after : Rows fl}
      → schedule_retry fl rows t delay ≡ ok after
      → (after.quota ≡ rows.quota) × (after.workers ≡ rows.workers)
  unfolding schedule_retry
  schedule_retry-same rows t delay {after} h =
      let (m, moved, made) =
        ok_parts
          (lifted task_error
            (transition fl t rows.events retrying rows.quota.now "task.status_changed"))
          _ h in
      subst (λ (x : Rows fl). (x.quota ≡ rows.quota) × (x.workers ≡ rows.workers))
        (ok_injective made) (refl, refl)

  not_cancelled :
      (t : Task fl) (r : Reason) (attempts : ℕ)
      → wants_recovery fl t r attempts ≡ true
      → same_status r.target cancelled ≡ false
  unfolding wants_recovery same_status
  not_cancelled t r attempts h = elim ((may_recover t r attempts).0 h) [
    | inl p ↦ rw (p.0) refl
    | inr p ↦ rw (p.0) refl
  ]

  finish_requeue :
      (rows : Rows fl) (t : Task fl) (r : Reason) (attempts grace : ℕ) (wanted : Bool)
      (room : Bool × Session) {x : Bool × Rows fl}
      → wants_recovery fl t r attempts ≡ wanted
      → (if wanted then lifted quota_error (admit_retry rows.quota) else ok (false, rows.quota))
        ≡ ok room
      → (if wanted && room.0
          then (schedule_retry fl (record rows { quota = room.1 }) (count_recovery fl t r) grace
              >>= λ after. ok (true, after))
          else ok (
            same_status r.target cancelled,
            record rows {
              quota = room.1;
              task = some (suppress fl t r wanted);
              outbox = outbox_event fl "task.terminal" (some r.target) rows.quota.now ∷ rows.outbox;
            },
          ))
        ≡ ok x
      → Requeues rows t r attempts x
  finish_requeue rows t r attempts grace false room unwanted found h =
      subst (Requeues rows t r attempts) (ok_injective h) (
        inl (
          λ may. clash (sym ((may_recover t r attempts).1 may) ∙ unwanted),
          refl,
          ap (λ (y : Bool × Session). y.1) (sym (ok_injective found)),
        ),
        refl,
      )
  finish_requeue rows t r attempts grace true (true, quota) wanted found h =
      let (after, made, same) =
        ok_parts {B = Bool × Rows fl}
          (schedule_retry fl (record rows { quota = quota }) (count_recovery fl t r) grace) _ h in
      let (quota_same, workers_same) =
        schedule_retry-same (record rows { quota = quota }) (count_recovery fl t r) grace made in
      subst (Requeues rows t r attempts) (ok_injective same) (
        inr (
          (may_recover t r attempts).0 wanted,
          lifted-ok quota_error _ found ∙ ap (λ q. ok (true, q)) (sym quota_same),
        ),
        workers_same,
      )
  finish_requeue rows t r attempts grace true (false, quota) wanted found h =
      subst (Requeues rows t r attempts) (ok_injective h) (
        inr (
          (may_recover t r attempts).0 wanted,
          lifted-ok quota_error _ found
              ∙ ap (λ b. ok (b, quota)) (sym (not_cancelled t r attempts wanted)),
        ),
        refl,
      )

  requeue-Requeues :
      (rows : Rows fl) (t : Task fl) (r : Reason) (attempts grace : ℕ) {x : Bool × Rows fl}
      → requeue fl rows t r attempts grace ≡ ok x
      → Requeues rows t r attempts x
  unfolding requeue
  requeue-Requeues rows t r attempts grace h =
      let wanted = wants_recovery fl t r attempts in
      let (room, found, h1) =
        ok_parts {B = Bool × Rows fl}
          (if wanted then lifted quota_error (admit_retry rows.quota) else ok (false, rows.quota)) _
          h in
      finish_requeue rows t r attempts grace wanted room refl found h1

  pub move_on-Readmits :
      (rows : Rows fl) (t : Task fl) (r : Reason) (attempts grace now : ℕ) {x : Bool × Rows fl}
      → move_on fl rows t r attempts grace now ≡ ok x
      → Readmits t r attempts rows.quota x.0 x.1.quota × (x.1.workers ≡ rows.workers)
  unfolding move_on blame
  move_on-Readmits rows t r attempts grace now {x} h =
      let (m, moved, h1) =
        ok_parts {B = Bool × Rows fl}
          (lifted task_error (transition fl t rows.events r.target now r.event_type)) _ h in
      let went = lifted-ok task_error _ moved in
      let (count, lease, worker, execution, requeues) =
        transition-Carries t rows.events r.target now r.event_type went in
      let (admits, workers) =
        requeue-Requeues (record rows { events = m.events }) (blame fl m.task r) r attempts grace
          h1 in
      (Readmits-same t (blame fl m.task r) r attempts count requeues admits, workers)
