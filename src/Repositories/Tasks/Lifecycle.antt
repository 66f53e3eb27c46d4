-- ===== src/Repositories/Tasks/Lifecycle.antt =====
-- repositories/tasks.py: what the worker that holds an execution reports of it. A duration is a
-- number of microseconds; the grace of a cleanup may be negative, and is refused then.
use mini_ai_cloud.Prelude.{
  ℕ, ◌+◌, ◌*◌, max, Bool, true, false, not, ◌&&◌, ◌||◌, Option, none, some, List, [], ◌∷◌, any,
  ◌==◌, if◌then◌else◌, is_none, Result, ok, err, ◌>>=◌, ◌>>◌, raise_if,
}
use mini_ai_cloud.Prelude.Int.{ℤ, pos, negsuc}
use mini_ai_cloud.Prelude.Text.{String, ◌===◌, same_text}
use mini_ai_cloud.Prelude.Floats.{Floats}
use mini_ai_cloud.Core.Enums.{
  TaskStatus, assigned, preparing, pulling, starting, running, cancelled, is_in, is_active,
  same_status,
}
use mini_ai_cloud.Repositories.Tasks.Model.{
  ResourceReservation, TaskError, stale_execution, negative_grace, Task, Worker, Rows, transition,
}

-- `left == right` of UUIDs that may be None.
abbrev pub same_id : Option ℕ → Option ℕ → Bool
same_id none none = true
same_id (some a) (some b) = a == b
same_id _ _ = false

module _ (fl : Floats) where
  abbrev pub find_worker : String → List (Worker fl) → Option (Worker fl)
  find_worker id [] = none
  find_worker id (w ∷ ws) = if w.id === id then some w else find_worker id ws

  -- Who reports: the worker, its execution, and its session where the caller knows it.
  pub record Claimant : Type 0 where
    pub worker_id : String
    pub execution_id : ℕ
    pub worker_session_id : Option ℕ

  abbrev pub is_session : Option (Worker fl) → ℕ → Bool
  is_session none session = false
  is_session (some w) session = same_id w.worker_session_id (some session)

  unfoldable pub session_owns_execution : Rows fl → String → ℕ → ℕ → Bool
  session_owns_execution db worker_id execution_id session =
      if not (is_session (find_worker worker_id db.workers) session)
      then false
      else any
          (λ (r : ResourceReservation).
            (r.execution_id == execution_id)
            && (r.worker_id === worker_id)
            && same_id r.worker_session_id (some session)
            && is_none r.released_at)
          db.reservations

  unfoldable pub session_fits : Rows fl → Claimant → Bool
  unfolding session_owns_execution
  session_fits db c = elim c.worker_session_id [
    | none ↦ true
    | some session ↦ session_owns_execution db c.worker_id c.execution_id session
  ]

  abbrev pub holds : Task fl → Claimant → Bool
  holds t c =
      same_text t.worker_id (some c.worker_id) && same_id t.execution_id (some c.execution_id)

  unfoldable pub owned_task : Rows fl → Claimant → Result TaskError (Task fl)
  unfolding session_fits
  owned_task db c = elim db.task [
    | none ↦ err stale_execution
    | some t ↦
        raise_if (not (holds t c)) stale_execution
        >> raise_if (not (session_fits db c)) stale_execution
        >> ok t
  ]

  -- `started_at if task.started_at is not None else now`
  abbrev pub start_of : Task fl → ℕ → ℕ
  start_of t now = elim t.started_at [ none ↦ now | some start ↦ start ]

  abbrev pub seconds : ℕ → ℕ
  seconds n = n * 1000000

  unfoldable pub runtime_lease_expiry : Task fl → ℕ → ℕ → ℤ → Result TaskError ℕ
  runtime_lease_expiry t now lease (negsuc n) = err negative_grace
  runtime_lease_expiry t now lease (pos grace) =
      if not t.is_kubernetes || is_none t.runtime_handle
      then ok (now + lease)
      else ok (max (now + lease) (start_of t now + (seconds t.timeout_seconds + grace)))

  -- The lease of a task whose status stays, and that of one that was just moved.
  unfoldable pub extend : Rows fl → Task fl → ℕ → ℤ → Result TaskError (Rows fl)
  unfolding runtime_lease_expiry
  extend db t lease grace = do
    expiry ← runtime_lease_expiry t db.quota.now lease grace
    ok (record db {
      task = some (record t { lease_expires_at = some expiry; version = t.version + 1 });
    })

  unfoldable pub move : Rows fl → Task fl → TaskStatus → ℕ → ℤ → Result TaskError (Rows fl)
  unfolding transition runtime_lease_expiry
  move db t target lease grace = do
    moved ← transition fl t db.events target db.quota.now "task.status_changed"
    expiry ← runtime_lease_expiry moved.task db.quota.now lease grace
    ok (record db {
      task = some (record moved.task { lease_expires_at = some expiry });
      events = moved.events;
    })

  -- The three reports of progress share their shape: they extend the lease of a task that is
  -- already there, and move one that is at the step before.
  unfoldable pub advance :
      List TaskStatus
      → List TaskStatus
      → TaskStatus
      → Rows fl
      → Claimant
      → ℕ
      → ℤ
      → Result TaskError (Rows fl)
  unfolding owned_task extend move is_in
  advance there before target db c lease grace = do
    t ← owned_task db c
    if is_in t.status there
        then extend db t lease grace
        else raise_if (not (is_in t.status before)) stale_execution >> move db t target lease grace

  unfoldable pub mark_pulling : Rows fl → Claimant → ℕ → ℤ → Result TaskError (Rows fl)
  unfolding advance
  mark_pulling = advance (pulling ∷ starting ∷ running ∷ []) (assigned ∷ preparing ∷ []) pulling

  unfoldable pub mark_starting : Rows fl → Claimant → ℕ → ℤ → Result TaskError (Rows fl)
  unfolding advance
  mark_starting = advance (starting ∷ running ∷ []) (pulling ∷ []) starting

  unfoldable pub mark_running : Rows fl → Claimant → ℕ → ℤ → Result TaskError (Rows fl)
  unfolding advance
  mark_running = advance (running ∷ []) (pulling ∷ starting ∷ []) running

  -- `renew_lease`: false, with nothing written, for an execution that is not held or not active.
  unfoldable pub renew_lease : Rows fl → Claimant → ℕ → ℤ → Result TaskError (Bool × Rows fl)
  unfolding session_fits extend is_active
  renew_lease db c lease grace = elim db.task [
    | none ↦ ok (false, db)
    | some t ↦
        if not (holds t c) || not (is_active t.status)
        then ok (false, db)
        else if not (session_fits db c)
        then ok (false, db)
        else extend db t lease grace >>= λ after. ok (true, after)
  ]

  -- `preserve_kubernetes_handoff_lease`, with the grace in seconds.
  unfoldable pub preserve_kubernetes_handoff_lease :
      Rows fl → Claimant → ℤ → Result TaskError (Rows fl)
  unfolding owned_task
  preserve_kubernetes_handoff_lease db c grace = do
    t ← owned_task db c
    raise_if (not t.is_kubernetes || is_none t.runtime_handle) stale_execution
    expiry ← handoff_expiry t db.quota.now grace
    ok (record db {
      task = some (record t { lease_expires_at = some expiry; version = t.version + 1 });
    })
    where
      handoff_expiry : Task fl → ℕ → ℤ → Result TaskError ℕ
      handoff_expiry t now (pos grace) = ok (now + seconds (t.timeout_seconds + grace))
      handoff_expiry t now (negsuc n) = err negative_grace

  unfoldable pub cancellation_requested : Rows fl → Claimant → Result TaskError Bool
  unfolding owned_task same_status
  cancellation_requested db c = do
    t ← owned_task db c
    ok (t.cancel_requested || same_status t.status cancelled)
