-- ===== src/Repositories/Tasks/Cancelled.antt =====
-- repositories/tasks.py: what a cancellation does.
use mini_ai_cloud.Prelude.{
  ℕ, ◌+◌, ◌≡◌, refl, subst, inl, inr, true, false, not, ◌&&◌, none, some, List, [], ◌∷◌, is_some,
  Result, ok, ok_parts, ok_injective, Bool-cases, arith,
}
use mini_ai_cloud.Prelude.Text.{String}
use mini_ai_cloud.Prelude.Floats.{Floats}
use mini_ai_cloud.Core.Enums.{
  TaskStatus, is_in, is_final, is_active, same_status, queued, stopping, cancelled, retrying,
  preempting, pending, scheduling,
}
use mini_ai_cloud.Core.StateMachine.{ensure_transition, can_transition}
use mini_ai_cloud.Core.StateMachine.Runs.{ensure_transition_iff}
use mini_ai_cloud.Repositories.Quotas.Model.{Session}
use mini_ai_cloud.Repositories.Quotas.Operations.{release_queued}
use mini_ai_cloud.Repositories.Tasks.Model.{
  TaskEvent, TaskError, lifted, Task, Rows, Moved, transition, stamp, event_of, invalid_transition,
}
use mini_ai_cloud.Repositories.Tasks.Cancel.{
  cancelled_value, outbox_event, cancel_now, request_stop, cancel_preempting, cancel,
  release_queue_slot, release_on,
}
use mini_ai_cloud.Repositories.Tasks.History.{transition-status}

module _ (fl : Floats) where
  -- A task has an execution exactly while it is active and past its scheduling.
  abbrev pub HasExecution : Task fl → Type 0
  HasExecution t =
      is_some t.execution_id ≡ (is_active t.status && not (same_status t.status scheduling))

  can_stop :
      (s : TaskStatus)
      → (is_active s && not (same_status s scheduling)) ≡ true
      → same_status s preempting ≡ false
      → same_status s stopping ≡ false
      → can_transition s stopping ≡ true
  unfolding is_active is_in same_status can_transition
  can_stop s h p q = ground arith

  can_end :
      (s : TaskStatus)
      → is_final s ≡ false
      → (is_active s && (is_active s && not (same_status s scheduling))) ≡ false
      → can_transition s cancelled ≡ true
  unfolding is_active is_final is_in same_status can_transition
  can_end s h p = ground arith

  transition_total :
      (t : Task fl) (events : List TaskEvent) (target : TaskStatus) (now : ℕ) (name : String)
      → can_transition t.status target ≡ true
      → (m : Moved fl) × (transition fl t events target now name ≡ ok m)
  unfolding transition
  transition_total t events target now name edge = (
    record {
      task = stamp fl (record t { status = target; version = t.version + 1 }) target now;
      events = event_of fl t target now name ∷ events;
    },
    ground (arith, edge, ensure_transition_iff t.status target),
  )

  slot_total :
      (s : TaskStatus) (q : Session) {r : Session}
      → release_queued q ≡ ok r
      → (p : Session) × (release_queue_slot s q ≡ ok p)
  unfolding release_queue_slot
  slot_total s q {r} h =
      elim (Bool-cases
        (is_in s (pending ∷ queued ∷ scheduling ∷ retrying ∷ []) && is_some q.state)) [
          | inl e ↦ (r, ground arith)
          | inr e ↦ (q, ground arith)
        ]

  live_of :
      (t : Task fl)
      → HasExecution t
      → (is_active t.status && is_some t.execution_id) ≡ true
      → (is_active t.status && not (same_status t.status scheduling)) ≡ true
  live_of t has live = ground (arith, has, live)

  dead_of :
      (t : Task fl)
      → HasExecution t
      → (is_active t.status && is_some t.execution_id) ≡ false
      → (is_active t.status && (is_active t.status && not (same_status t.status scheduling)))
        ≡ false
  dead_of t has dead = ground (arith, has, dead)

  -- What a cancellation leaves of a task that had not ended.
  pub record Cancelling (u : Task fl) : Type 0 where
    pub asked : u.cancel_requested ≡ true
    pub ending : is_in u.status (preempting ∷ stopping ∷ cancelled ∷ []) ≡ true

  abbrev pub Cancels : Rows fl → Result TaskError (Rows fl) → Type 0
  Cancels db result =
      (after : Rows fl) × (u : Task fl) × (result ≡ ok after) × (after.task ≡ some u) × Cancelling u

  ending_stopping :
      (s : TaskStatus) → s ≡ stopping → is_in s (preempting ∷ stopping ∷ cancelled ∷ []) ≡ true
  unfolding is_in same_status
  ending_stopping s e = ground arith

  ending_cancelled :
      (s : TaskStatus) → s ≡ cancelled → is_in s (preempting ∷ stopping ∷ cancelled ∷ []) ≡ true
  unfolding is_in same_status
  ending_cancelled s e = ground arith

  same_stopping : (s : TaskStatus) → same_status s stopping ≡ true → s ≡ stopping
  unfolding same_status
  same_stopping s e = ground arith

  same_preempting :
      (s : TaskStatus)
      → same_status s preempting ≡ true
      → is_in s (preempting ∷ stopping ∷ cancelled ∷ []) ≡ true
  unfolding is_in same_status
  same_preempting s e = ground arith

  stamp_asked :
      (t : Task fl) (target : TaskStatus) (now : ℕ)
      → (stamp fl t target now).cancel_requested ≡ t.cancel_requested
  unfolding stamp
  stamp_asked t target now = ground arith

  transition-asked :
      (t : Task fl) (events : List TaskEvent) (target : TaskStatus) (now : ℕ) (name : String)
      {m : Moved fl}
      → transition fl t events target now name ≡ ok m
      → m.task.cancel_requested ≡ t.cancel_requested
  unfolding transition
  transition-asked t events target now name h =
      let (u, allowed, same) =
        ok_parts (lifted invalid_transition (ensure_transition t.status target)) _ h in
      subst (λ (m : Moved fl). m.task.cancel_requested ≡ t.cancel_requested) (ok_injective same)
        (stamp_asked (record t { status = target; version = t.version + 1 }) target now)

  request_stop-Cancels :
      (db : Rows fl) (t : Task fl)
      → (is_active t.status && not (same_status t.status scheduling)) ≡ true
      → same_status t.status preempting ≡ false
      → Cancels db (request_stop fl db t)
  unfolding request_stop
  request_stop-Cancels db t live p = elim (Bool-cases (same_status t.status stopping)) [
    | inl e ↦
        let after = record t { cancel_requested = true } in
        (
          record db { task = some after },
          after,
          ground (arith, e),
          refl,
          record { asked = refl; ending = ending_stopping t.status (same_stopping t.status e) },
        )
    | inr e ↦
        let before = record t { cancel_requested = true } in
        let (m, moved) =
          transition_total before db.events stopping db.quota.now "task.stop_requested"
            (can_stop t.status live p e) in
        (
          record db { task = some m.task; events = m.events },
          m.task,
          ground (arith, e, moved),
          refl,
          record {
            asked =
                transition-asked before db.events stopping db.quota.now "task.stop_requested" moved;
            ending = ending_stopping m.task.status (
                transition-status fl before db.events stopping db.quota.now "task.stop_requested"
                  moved);
          },
        )
  ]

  cancel_now-Cancels :
      (db : Rows fl) (t : Task fl) {r : Session}
      → can_transition t.status cancelled ≡ true
      → release_queued db.quota ≡ ok r
      → Cancels db (cancel_now fl db t)
  unfolding cancel_now
  cancel_now-Cancels db t edge h =
      let (m, moved) =
        transition_total t db.events cancelled db.quota.now "task.status_changed" edge in
      let (q, released) = slot_total t.status db.quota h in
      let ended = record m.task {
        cancel_requested = true;
        failure_category = cancelled_value;
        error_category = cancelled_value;
        error_code = none;
        lease_expires_at = none;
        execution_id = none;
      } in
      (
        record db {
          task = some ended;
          workers = release_on fl t.worker_id ended db.workers;
          quota = q;
          events = m.events;
          outbox = outbox_event fl "task.terminal" (some cancelled) db.quota.now ∷ db.outbox;
        },
        ended,
        ground (arith, moved, released),
        refl,
        record {
          asked = refl;
          ending =
              ending_cancelled m.task.status (
                transition-status fl t db.events cancelled db.quota.now "task.status_changed"
                  moved);
        },
      )

  -- A task that has not ended, that has an execution exactly while it is active and past its
  -- scheduling, and whose project can give back a queued task, can always be cancelled: it is
  -- CANCELLED then, or is asked to stop, or is being preempted.
  pub cancel_total :
      (db : Rows fl) (t : Task fl) {r : Session}
      → db.task ≡ some t
      → is_final t.status ≡ false
      → HasExecution t
      → release_queued db.quota ≡ ok r
      → Cancels db (cancel fl db)
  unfolding cancel cancel_preempting
  cancel_total db t found alive has h = elim (Bool-cases (same_status t.status preempting)) [
    | inl e ↦
        let after = record t {
          cancel_requested = true;
          requeue_on_preempt = false;
          failure_category = cancelled_value;
          error_category = cancelled_value;
          error_code = none;
          version = t.version + 1;
        } in
        (
          record db { task = some after },
          after,
          ground (arith, found, alive, e),
          refl,
          record { asked = refl; ending = same_preempting t.status e },
        )
    | inr e ↦ elim (Bool-cases (is_active t.status && is_some t.execution_id)) [
      | inl live ↦
          let (after, u, made, there, stops) = request_stop-Cancels db t (live_of t has live) e in
          (after, u, ground (arith, found, alive, e, live, made), there, stops)
      | inr dead ↦
          let (after, u, made, there, stops) =
            cancel_now-Cancels db t (can_end t.status alive (dead_of t has dead)) h in
          (after, u, ground (arith, found, alive, e, dead, made), there, stops)
    ]
  ]
