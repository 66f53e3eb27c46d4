-- ===== src/Repositories/Tasks/Reach.antt =====
-- repositories/tasks.py: the transactions on a task as steps, and what they keep.
use mini_ai_cloud.Prelude.{
  ℕ, ◌≡◌, refl, subst, inl, inr, Bool, true, false, not, ◌&&◌, ◌||◌, Option, none, some, List, [],
  ◌∷◌, is_some, Result, ok, ok_parts, ok_injective, either_ok, arith,
}
use mini_ai_cloud.Prelude.Int.{ℤ}
use mini_ai_cloud.Prelude.Floats.{Floats}
use mini_ai_cloud.Core.Enums.{
  is_final, is_active, same_status, queued, stopping, cancelled, retrying, preempting, pulling,
  starting, running, assigned, preparing,
}
use mini_ai_cloud.Repositories.Tasks.Model.{TaskEvent, TaskError, Task, Rows, transition}
use mini_ai_cloud.Repositories.Tasks.Lifecycle.{
  Claimant, holds, session_fits, extend, mark_pulling, mark_starting, mark_running, renew_lease,
}
use mini_ai_cloud.Repositories.Tasks.Cancel.{
  cancel_now, request_stop, cancel_preempting, cancel, release_queue_slot, is_time, release_retry,
  release_due_retry,
}
use mini_ai_cloud.Repositories.Tasks.History.{Kept, transition-Kept, same_Kept}
use mini_ai_cloud.Repositories.Tasks.Steps.{KeptBy, IsKept, extend-IsKept, advance-IsKept}

module _ (fl : Floats) where
  -- An operation that reads the row of the task first.
  on_task {ℓ} :
      {R : Type ℓ} (P : R → Type 0) (o : Option (Task fl)) (events : List TaskEvent)
      (missing : Result TaskError R) (f : Task fl → Result TaskError R) {after : R}
      → KeptBy fl o events
      → (elim o [ none ↦ missing | some t ↦ f t ]) ≡ ok after
      → (missing ≡ ok after → P after)
      → ((t : Task fl) → o ≡ some t → Kept fl t events → f t ≡ ok after → P after)
      → P after
  on_task P none events missing f kept h p q = p h
  on_task P (some t) events missing f kept h p q = q t refl kept h

  renew_lease-IsKept :
      (db : Rows fl) (c : Claimant fl) (lease : ℕ) (grace : ℤ) {after : Bool × Rows fl}
      → IsKept fl db
      → renew_lease fl db c lease grace ≡ ok after
      → IsKept fl after.1
  unfolding renew_lease
  renew_lease-IsKept db c lease grace {after} kept h =
      on_task (λ (x : Bool × Rows fl). IsKept fl x.1) db.task db.events (ok (false, db)) _ kept h
        (λ e. subst (λ (x : Bool × Rows fl). IsKept fl x.1) (ok_injective e) kept)
        (λ t _ k e. elim (either_ok (not (holds fl t c) || not (is_active t.status)) _ _ e) [
          | inl (_, e1) ↦ subst (λ (x : Bool × Rows fl). IsKept fl x.1) (ok_injective e1) kept
          | inr (_, e1) ↦ elim (either_ok (not (session_fits fl db c)) _ _ e1) [
            | inl (_, e2) ↦ subst (λ (x : Bool × Rows fl). IsKept fl x.1) (ok_injective e2) kept
            | inr (_, e2) ↦
                let (db2, extended, same) = ok_parts (extend fl db t lease grace) _ e2 in
                subst (λ (x : Bool × Rows fl). IsKept fl x.1) (ok_injective same)
                  (extend-IsKept fl db t lease grace k extended)
          ]
        ])

  cancel_now-IsKept :
      (db : Rows fl) (t : Task fl) {after : Rows fl}
      → Kept fl t db.events
      → cancel_now fl db t ≡ ok after
      → IsKept fl after
  unfolding cancel_now
  cancel_now-IsKept db t kept h =
      let (m, moved, h1) =
        ok_parts (transition fl t db.events cancelled db.quota.now "task.status_changed") _ h in
      let (quota, released, same) = ok_parts (release_queue_slot t.status db.quota) _ h1 in
      subst (IsKept fl) (ok_injective same) (
        same_Kept fl m.task _ m.events refl refl (omega arith)
          (transition-Kept fl t db.events cancelled db.quota.now "task.status_changed" kept moved))

  request_stop-IsKept :
      (db : Rows fl) (t : Task fl) {after : Rows fl}
      → Kept fl t db.events
      → request_stop fl db t ≡ ok after
      → IsKept fl after
  unfolding request_stop
  request_stop-IsKept db t kept h =
      let asked = record t { cancel_requested = true } in
      let k = same_Kept fl t asked db.events refl refl (omega arith) kept in
      elim (either_ok (same_status t.status stopping) _ _ h) [
        | inl (_, e) ↦ subst (IsKept fl) (ok_injective e) k
        | inr (_, e) ↦
            let (m, moved, same) =
              ok_parts (transition fl asked db.events stopping db.quota.now "task.stop_requested") _
                e in
            subst (IsKept fl) (ok_injective same) (
              transition-Kept fl asked db.events stopping db.quota.now "task.stop_requested" k
                moved)
      ]

  cancel-IsKept :
      (db : Rows fl) {after : Rows fl} → IsKept fl db → cancel fl db ≡ ok after → IsKept fl after
  unfolding cancel cancel_preempting
  cancel-IsKept db kept h =
      on_task (IsKept fl) db.task db.events (ok db) _ kept h
        (λ e. subst (IsKept fl) (ok_injective e) kept)
        (λ t _ k e. elim (either_ok (is_final t.status) _ _ e) [
          | inl (_, e1) ↦ subst (IsKept fl) (ok_injective e1) kept
          | inr (_, e1) ↦ elim (either_ok (same_status t.status preempting) _ _ e1) [
            | inl (_, e2) ↦
                subst (IsKept fl) (ok_injective e2)
                  (same_Kept fl t _ db.events refl refl (omega arith) k)
            | inr (_, e2) ↦ elim (either_ok (is_active t.status && is_some t.execution_id) _ _ e2) [
              | inl (_, e3) ↦ request_stop-IsKept db t k e3
              | inr (_, e3) ↦ cancel_now-IsKept db t k e3
            ]
          ]
        ])

  release_retry-IsKept :
      (db : Rows fl) (t : Task fl) {after : Rows fl}
      → Kept fl t db.events
      → release_retry fl db t ≡ ok after
      → IsKept fl after
  unfolding release_retry
  release_retry-IsKept db t kept h = elim (either_ok t.cancel_requested _ _ h) [
    | inl (_, e) ↦
        let (m, moved, same) =
          ok_parts (transition fl t db.events cancelled db.quota.now "task.status_changed") _ e in
        subst (IsKept fl) (ok_injective same) (
          same_Kept fl m.task _ m.events refl refl (omega arith) (
            transition-Kept fl t db.events cancelled db.quota.now "task.status_changed" kept moved))
    | inr (_, e) ↦
        let (m, moved, same) =
          ok_parts (transition fl t db.events queued db.quota.now "task.status_changed") _ e in
        subst (IsKept fl) (ok_injective same) (
          same_Kept fl m.task _ m.events refl refl (omega arith)
            (transition-Kept fl t db.events queued db.quota.now "task.status_changed" kept moved))
  ]

  release_due_retry-IsKept :
      (db : Rows fl) {after : Rows fl}
      → IsKept fl db
      → release_due_retry fl db ≡ ok after
      → IsKept fl after
  unfolding release_due_retry
  release_due_retry-IsKept db kept h =
      on_task (IsKept fl) db.task db.events (ok db) _ kept h
        (λ e. subst (IsKept fl) (ok_injective e) kept)
        (λ t _ k e.
          elim (either_ok
            (same_status t.status retrying && is_time fl t.next_attempt_at db.quota.now) _ _ e) [
              | inl (_, e1) ↦ release_retry-IsKept db t k e1
              | inr (_, e1) ↦ subst (IsKept fl) (ok_injective e1) kept
            ])

  -- What can happen to the rows of one task, once it is assigned.
  pub data Step (db : Rows fl) : Rows fl → Type 0 where
    pulls :
        (c : Claimant fl) (lease : ℕ) (grace : ℤ) {after : Rows fl}
        → mark_pulling fl db c lease grace ≡ ok after
        → Step db after
    starts :
        (c : Claimant fl) (lease : ℕ) (grace : ℤ) {after : Rows fl}
        → mark_starting fl db c lease grace ≡ ok after
        → Step db after
    runs :
        (c : Claimant fl) (lease : ℕ) (grace : ℤ) {after : Rows fl}
        → mark_running fl db c lease grace ≡ ok after
        → Step db after
    renews :
        (c : Claimant fl) (lease : ℕ) (grace : ℤ) {after : Bool × Rows fl}
        → renew_lease fl db c lease grace ≡ ok after
        → Step db after.1
    cancels : {after : Rows fl} → cancel fl db ≡ ok after → Step db after
    requeues : {after : Rows fl} → release_due_retry fl db ≡ ok after → Step db after
    waits : (time : ℕ) → Step db (record db { quota = record (db.quota) { now = time } })

  pub data Steps : Rows fl → Rows fl → Type 0 where
    done : {db : Rows fl} → Steps db db
    step : {db next after : Rows fl} → Step db next → Steps next after → Steps db after

  Step-IsKept : {db after : Rows fl} → Step db after → IsKept fl db → IsKept fl after
  unfolding mark_pulling mark_starting mark_running
  Step-IsKept {db} (pulls c lease grace e) kept =
      advance-IsKept fl (pulling ∷ starting ∷ running ∷ []) (assigned ∷ preparing ∷ []) pulling db c
        lease grace kept e
  Step-IsKept {db} (starts c lease grace e) kept =
      advance-IsKept fl (starting ∷ running ∷ []) (pulling ∷ []) starting db c lease grace kept e
  Step-IsKept {db} (runs c lease grace e) kept =
      advance-IsKept fl (running ∷ []) (pulling ∷ starting ∷ []) running db c lease grace kept e
  Step-IsKept {db} (renews c lease grace e) kept = renew_lease-IsKept db c lease grace kept e
  Step-IsKept {db} (cancels e) kept = cancel-IsKept db kept e
  Step-IsKept {db} (requeues e) kept = release_due_retry-IsKept db kept e
  Step-IsKept (waits time) kept = kept

  -- Over any sequence of these transactions, the row says when the task ended exactly while its
  -- status is final, and the events lead to its status along the graph of the statuses, each under
  -- a number greater than those before.
  pub Steps-IsKept : {db after : Rows fl} → Steps db after → IsKept fl db → IsKept fl after
  Steps-IsKept done kept = kept
  Steps-IsKept (step s rest) kept = Steps-IsKept rest (Step-IsKept s kept)
