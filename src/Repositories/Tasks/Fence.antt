-- ===== src/Repositories/Tasks/Fence.antt =====
-- repositories/tasks.py: who may report on an execution.
use mini_ai_cloud.Prelude.{
  ℕ, ◌+◌, ◌≤◌, ◌≡◌, refl, ◌∙◌, subst, ◌⊎◌, inl, inr, Bool, true, not, Option, none, some, [], ◌∷◌,
  ok, err, ◌>>◌, raise_if, ok_parts, ok_injective, either_ok, arith,
}
use mini_ai_cloud.Prelude.Int.{ℤ, pos, negsuc}
use mini_ai_cloud.Prelude.Floats.{Floats}
use mini_ai_cloud.Core.Enums.{TaskStatus, is_in, same_status, pulling, starting, running}
use mini_ai_cloud.Repositories.Tasks.History.{transition-status}
use mini_ai_cloud.Repositories.Tasks.Model.{TaskError, stale_execution, Task, Rows, transition}
use mini_ai_cloud.Repositories.Tasks.Lifecycle.{
  Claimant, holds, session_fits, owned_task, runtime_lease_expiry, extend, move, advance,
  mark_running,
}

module _ (fl : Floats) where
  -- The claimant holds the execution of the task, and its session, where it names one, owns it.
  pub record Owns (db : Rows fl) (t : Task fl) (c : Claimant fl) : Type 0 where
    pub found : db.task ≡ some t
    pub held : holds fl t c ≡ true
    pub session : session_fits fl db c ≡ true

  not_raised : (b : Bool) (e : TaskError) → raise_if (not b) e ≡ ok tt → b ≡ true
  not_raised b e h = ground arith

  pub owned_task-Owns :
      (db : Rows fl) (c : Claimant fl) {t : Task fl} → owned_task fl db c ≡ ok t → Owns db t c
  unfolding owned_task
  owned_task-Owns db c {t} h = go db.task refl h
    where
      go :
          (o : Option (Task fl))
          → db.task ≡ o
          → (elim o [
            | none ↦ err stale_execution
            | some u ↦
                raise_if (not (holds fl u c)) stale_execution
                >> raise_if (not (session_fits fl db c)) stale_execution
                >> ok u
          ])
            ≡ ok t
          → Owns db t c
      go none found e = cc
      go (some u) found e =
          let (v, checks, same) =
            ok_parts
              (raise_if (not (holds fl u c)) stale_execution
                >> raise_if (not (session_fits fl db c)) stale_execution)
              _ e in
          let (w, held, fits) = ok_parts (raise_if (not (holds fl u c)) stale_execution) _ checks in
          subst (λ x. Owns db x c) (ok_injective same)
            (record {
              found = found;
              held = not_raised (holds fl u c) stale_execution held;
              session = not_raised (session_fits fl db c) stale_execution fits;
            })

  -- The lease lasts at least as long as asked.
  pub LeasedFor : Rows fl → ℕ → Task fl → Type 0
  LeasedFor db lease t =
      (expiry : ℕ) × (t.lease_expires_at ≡ some expiry) × (db.quota.now + lease ≤ expiry)

  runtime_lease_expiry-le :
      (t : Task fl) (now lease : ℕ) (grace : ℤ) {expiry : ℕ}
      → runtime_lease_expiry fl t now lease grace ≡ ok expiry
      → now + lease ≤ expiry
  unfolding runtime_lease_expiry
  runtime_lease_expiry-le t now lease (pos n) h = ground arith
  runtime_lease_expiry-le t now lease (negsuc n) h = cc

  -- The task that a report leaves.
  abbrev pub Leaves : Rows fl → Rows fl → ℕ → (Task fl → Type 0) → Type 0
  Leaves db after lease P = (t : Task fl) × (after.task ≡ some t) × P t × LeasedFor db lease t

  extend-Leaves :
      (db : Rows fl) (t : Task fl) (lease : ℕ) (grace : ℤ) {after : Rows fl}
      → extend fl db t lease grace ≡ ok after
      → Leaves db after lease (λ u. u.status ≡ t.status)
  unfolding extend LeasedFor
  extend-Leaves db t lease grace h =
      let (expiry, e, same) = ok_parts (runtime_lease_expiry fl t db.quota.now lease grace) _ h in
      subst (λ (x : Rows fl). Leaves db x lease (λ u. u.status ≡ t.status)) (ok_injective same)
        (_, refl, refl, (expiry, refl, runtime_lease_expiry-le t db.quota.now lease grace e))

  move-Leaves :
      (db : Rows fl) (t : Task fl) (target : TaskStatus) (lease : ℕ) (grace : ℤ) {after : Rows fl}
      → move fl db t target lease grace ≡ ok after
      → Leaves db after lease (λ u. u.status ≡ target)
  unfolding move LeasedFor
  move-Leaves db t target lease grace h =
      let (m, moved, h1) =
        ok_parts (transition fl t db.events target db.quota.now "task.status_changed") _ h in
      let (expiry, e, same) =
        ok_parts (runtime_lease_expiry fl m.task db.quota.now lease grace) _ h1 in
      subst (λ (x : Rows fl). Leaves db x lease (λ u. u.status ≡ target)) (ok_injective same)
        (
          _,
          refl,
          transition-status fl t db.events target db.quota.now "task.status_changed" moved,
          (expiry, refl, runtime_lease_expiry-le m.task db.quota.now lease grace e),
        )

  is_running : (s : TaskStatus) → is_in s (running ∷ []) ≡ true → s ≡ running
  unfolding is_in same_status
  is_running s h = ground arith

  ready_or_running :
      (s : TaskStatus)
      → (is_in s (running ∷ []) ≡ true) ⊎ (is_in s (pulling ∷ starting ∷ []) ≡ true)
      → is_in s (pulling ∷ starting ∷ running ∷ []) ≡ true
  unfolding is_in same_status
  ready_or_running s h = ground arith

  -- A report that the task runs is taken only from the worker and the execution that hold it, and
  -- from the session that holds it where the caller names a session, and only from PULLING, STARTING or RUNNING; the task is RUNNING then, and its lease is
  -- at least as long as asked.
  pub mark_running-Owns :
      (db : Rows fl) (c : Claimant fl) (lease : ℕ) (grace : ℤ) {after : Rows fl}
      → mark_running fl db c lease grace ≡ ok after
      → (t : Task fl) × Owns db t c
        × (is_in t.status (pulling ∷ starting ∷ running ∷ []) ≡ true)
        × Leaves db after lease (λ u. u.status ≡ running)
  unfolding mark_running advance
  mark_running-Owns db c lease grace {after} h =
      let (t, owned, h1) = ok_parts (owned_task fl db c) _ h in
      let owns = owned_task-Owns db c owned in
      elim (either_ok (is_in t.status (running ∷ [])) _ _ h1) [
        | inl (at, e) ↦
            let (u, here, same, leased) = extend-Leaves db t lease grace e in
            (
              t,
              owns,
              ready_or_running t.status (inl at),
              (u, here, same ∙ is_running t.status at, leased),
            )
        | inr (_, e) ↦
            let (v, ready, e1) =
              ok_parts (raise_if (not (is_in t.status (pulling ∷ starting ∷ []))) stale_execution) _
                e in
            (
              t,
              owns,
              ready_or_running t.status (
                  inr
                    (not_raised (is_in t.status (pulling ∷ starting ∷ [])) stale_execution ready)),
              move-Leaves db t running lease grace e1,
            )
      ]
