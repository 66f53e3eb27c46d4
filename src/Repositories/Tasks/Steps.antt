-- ===== src/Repositories/Tasks/Steps.antt =====
-- repositories/tasks.py: what the reports on an execution keep.
use mini_ai_cloud.Prelude.{
  ℕ, ◌≡◌, refl, subst, inl, inr, not, Option, none, some, List, ok, err, ◌>>◌, raise_if, ok_parts,
  ok_injective, either_ok, arith,
}
use mini_ai_cloud.Prelude.Int.{ℤ}
use mini_ai_cloud.Prelude.Floats.{Floats}
use mini_ai_cloud.Core.Enums.{TaskStatus, is_in}
use mini_ai_cloud.Repositories.Tasks.Model.{TaskEvent, stale_execution, Task, Rows, transition}
use mini_ai_cloud.Repositories.Tasks.Lifecycle.{
  Claimant, holds, session_fits, owned_task, runtime_lease_expiry, extend, move, advance,
}
use mini_ai_cloud.Repositories.Tasks.History.{Kept, transition-Kept, same_Kept}

module _ (fl : Floats) where
  abbrev pub KeptBy : Option (Task fl) → List TaskEvent → Type 0
  KeptBy none events = Unit
  KeptBy (some t) events = Kept fl t events

  -- The row of the task and its events are consistent.
  abbrev pub IsKept : Rows fl → Type 0
  IsKept db = KeptBy db.task db.events

  pub extend-IsKept :
      (db : Rows fl) (t : Task fl) (lease : ℕ) (grace : ℤ) {after : Rows fl}
      → Kept fl t db.events
      → extend fl db t lease grace ≡ ok after
      → IsKept after
  unfolding extend
  extend-IsKept db t lease grace kept h =
      let (expiry, e, same) = ok_parts (runtime_lease_expiry fl t db.quota.now lease grace) _ h in
      subst IsKept (ok_injective same) (same_Kept fl t _ db.events refl refl (omega arith) kept)

  move-IsKept :
      (db : Rows fl) (t : Task fl) (target : TaskStatus) (lease : ℕ) (grace : ℤ) {after : Rows fl}
      → Kept fl t db.events
      → move fl db t target lease grace ≡ ok after
      → IsKept after
  unfolding move
  move-IsKept db t target lease grace kept h =
      let (m, moved, h1) =
        ok_parts (transition fl t db.events target db.quota.now "task.status_changed") _ h in
      let (expiry, e, same) =
        ok_parts (runtime_lease_expiry fl m.task db.quota.now lease grace) _ h1 in
      subst IsKept (ok_injective same) (
        same_Kept fl m.task _ m.events refl refl (omega arith)
          (transition-Kept fl t db.events target db.quota.now "task.status_changed" kept moved))

  pub owned_task-Kept :
      (db : Rows fl) (c : Claimant fl) {t : Task fl}
      → IsKept db
      → owned_task fl db c ≡ ok t
      → Kept fl t db.events
  unfolding owned_task
  owned_task-Kept db c {t} kept h = go db.task kept h
    where
      go :
          (o : Option (Task fl))
          → KeptBy o db.events
          → (elim o [
            | none ↦ err stale_execution
            | some u ↦
                raise_if (not (holds fl u c)) stale_execution
                >> raise_if (not (session_fits fl db c)) stale_execution
                >> ok u
          ])
            ≡ ok t
          → Kept fl t db.events
      go none k e = cc
      go (some u) k e =
          let (v, fits, same) =
            ok_parts
              (raise_if (not (holds fl u c)) stale_execution
                >> raise_if (not (session_fits fl db c)) stale_execution)
              _ e in
          subst (λ x. Kept fl x db.events) (ok_injective same) k

  pub advance-IsKept :
      (there before : List TaskStatus) (target : TaskStatus) (db : Rows fl) (c : Claimant fl)
      (lease : ℕ) (grace : ℤ) {after : Rows fl}
      → IsKept db
      → advance fl there before target db c lease grace ≡ ok after
      → IsKept after
  unfolding advance
  advance-IsKept there before target db c lease grace {after} kept h =
      let (t, owned, h1) = ok_parts (owned_task fl db c) _ h in
      let k = owned_task-Kept db c kept owned in
      elim (either_ok (is_in t.status there) _ _ h1) [
        | inl (at, e) ↦ extend-IsKept db t lease grace k e
        | inr (other, e) ↦
            let (v, ready, e1) =
              ok_parts (raise_if (not (is_in t.status before)) stale_execution) _ e in
            move-IsKept db t target lease grace k e1
      ]
