-- ===== src/Repositories/Tasks/Rerun.antt =====
-- repositories/tasks.py: which task is run again once its execution has ended, and what the queue of
-- its project says to it.
use mini_ai_cloud.Prelude.{
  ℕ, ◌+◌, ◌<◌, ◌≡◌, ◌↔◌, sym, ap, ◌∙◌, subst, ◌⊎◌, inl, inr, Bool, true, false, ◌||◌, &&_parts,
  Option, none, some, List, ltb→lt, ok, ok_parts, ok_injective, arith,
}
use mini_ai_cloud.Prelude.Text.{String}
use mini_ai_cloud.Prelude.Floats.{Floats}
use mini_ai_cloud.Core.Enums.{
  TaskStatus, preempted, failed, timed_out, is_in, same_status, same_status_iff,
}
use mini_ai_cloud.Core.StateMachine.{ensure_transition}
use mini_ai_cloud.Repositories.Quotas.Model.{Session}
use mini_ai_cloud.Repositories.Tasks.Model.{
  lifted, TaskEvent, Task, invalid_transition, stamp, transition,
}
use mini_ai_cloud.Repositories.Tasks.Ending.{
  Ending, Prices, should_retry_failure, describe, measure,
}
use mini_ai_cloud.Repositories.Tasks.Conclude.{admit_retry, is_failure, wants_requeue, wants_retry}

module _ (fl : Floats) where
  -- A task may be run again after a preemption, where its row says so, and after a failure that may
  -- pass, while it has retries left.
  abbrev pub MayRunAgain : Task fl → Ending → Type 0
  MayRunAgain t e =
      ((e.target ≡ preempted) × (t.requeue_on_preempt ≡ true))
      ⊎ (((e.target ≡ failed) ⊎ (e.target ≡ timed_out))
          × (t.retry_count < t.max_retries)
          × (should_retry_failure e.error_category e.exit_code t.retry_on_exit_codes ≡ true))

  clash : true ≡ false → ⊥
  clash h = cc

  either_true : (a b : Bool) → (a || b) ≡ true → (a ≡ true) ⊎ (b ≡ true)
  either_true a b h = ground arith

  failure_iff :
      (target : TaskStatus)
      → (is_failure fl target ≡ true) ↔ ((target ≡ failed) ⊎ (target ≡ timed_out))
  unfolding is_in same_status
  failure_iff target = ground arith

  pub may_run_again :
      (t : Task fl) (e : Ending)
      → ((wants_requeue fl t e || wants_retry fl t e) ≡ true) ↔ MayRunAgain t e
  unfolding wants_requeue wants_retry
  may_run_again t e = (
    λ h. elim (either_true (wants_requeue fl t e) (wants_retry fl t e) h) [
      | inl p ↦
          let (target, again) = &&_parts (same_status e.target preempted) t.requeue_on_preempt p in
          inl ((same_status_iff e.target preempted).0 target, again)
      | inr p ↦ inr (retry_parts p)
    ],
    λ h. elim h [
      | inl p ↦ ground (arith, p.1, (same_status_iff e.target preempted).1 p.0)
      | inr p ↦ ground (arith, p.1, p.2, (failure_iff e.target).1 p.0)
    ],
  )
    where
      retry_parts :
          wants_retry fl t e ≡ true
          → ((e.target ≡ failed) ⊎ (e.target ≡ timed_out))
            × (t.retry_count < t.max_retries)
            × (should_retry_failure e.error_category e.exit_code t.retry_on_exit_codes ≡ true)
      retry_parts p = (
        (failure_iff e.target).0 (ground arith),
        ltb→lt t.retry_count t.max_retries (ground arith),
        ground arith,
      )

  -- Where a task may run again it does, unless the queue of the project is full; the counters of the
  -- project are those that are left by this.
  abbrev pub Queues : Task fl → Ending → Session → Bool → Session → Type 0
  Queues t e quota retried after =
      ((¬ MayRunAgain t e) × (retried ≡ false) × (after ≡ quota))
      ⊎ (MayRunAgain t e × (admit_retry quota ≡ ok (retried, after)))

  -- Two rows that may be run again alike, and hold as much.
  pub record IsAlike (t u : Task fl) : Type 0 where
    pub requeue : u.requeue_on_preempt ≡ t.requeue_on_preempt
    pub count : u.retry_count ≡ t.retry_count
    pub most : u.max_retries ≡ t.max_retries
    pub codes : u.retry_on_exit_codes ≡ t.retry_on_exit_codes
    pub cpu : u.cpu_limit ≡ t.cpu_limit
    pub memory : u.memory_limit_mb ≡ t.memory_limit_mb
    pub gpus : u.gpu_count ≡ t.gpu_count

  pub MayRunAgain-same :
      (t u : Task fl) (e : Ending) → IsAlike t u → MayRunAgain u e → MayRunAgain t e
  MayRunAgain-same t u e same (inl (target, again)) = inl (target, sym same.requeue ∙ again)
  MayRunAgain-same t u e same (inr (target, less, passes)) = inr (
    target,
    omega (arith, same.count, same.most, less),
    ap (should_retry_failure e.error_category e.exit_code) (sym same.codes) ∙ passes,
  )

  IsAlike-sym : (t u : Task fl) → IsAlike t u → IsAlike u t
  IsAlike-sym t u same = record {
    requeue = sym same.requeue;
    count = sym same.count;
    most = sym same.most;
    codes = sym same.codes;
    cpu = sym same.cpu;
    memory = sym same.memory;
    gpus = sym same.gpus;
  }

  pub Queues-same :
      (t u : Task fl) (e : Ending) {quota after : Session} {retried : Bool}
      → IsAlike t u
      → Queues u e quota retried after
      → Queues t e quota retried after
  Queues-same t u e same (inl (not_so, over, left)) =
      inl (λ may. not_so (MayRunAgain-same u t e (IsAlike-sym t u same) may), over, left)
  Queues-same t u e same (inr (may, admits)) = inr (MayRunAgain-same t u e same may, admits)

  stamp-IsAlike :
      (t : Task fl) (target : TaskStatus) (now : ℕ)
      → IsAlike t (stamp fl (record t { status = target; version = t.version + 1 }) target now)
  unfolding stamp
  stamp-IsAlike t target now = ground arith

  -- What the report writes to the row leaves it alike.
  pub ended-IsAlike :
      (t : Task fl) (events : List TaskEvent) (target : TaskStatus) (now : ℕ) (name : String)
      (e : Ending) (prices : Prices fl) {m : _}
      → transition fl t events target now name ≡ ok m
      → IsAlike t (measure fl (describe fl m.task e) m.task.started_at now prices)
  unfolding transition describe measure
  ended-IsAlike t events target now name e prices {m} h =
      let (u, allowed, same) =
        ok_parts (lifted invalid_transition (ensure_transition t.status target)) _ h in
      let alike = subst (λ m. IsAlike t m.task) (ok_injective same) (stamp-IsAlike t target now) in
      measured m.task m.task.started_at alike
    where
      measured :
          (v : Task fl) (start : _)
          → IsAlike t v
          → IsAlike t (measure fl (describe fl v e) start now prices)
      measured v none like = ground arith
      measured v (some start) like = ground arith

  pub Alike-SameBut :
      (t u : Task fl) (cost : Option fl.F)
      → IsAlike t u
      → IsAlike t (record u { estimated_cost = cost })
  Alike-SameBut t u cost same = record {
    requeue = same.requeue;
    count = same.count;
    most = same.most;
    codes = same.codes;
    cpu = same.cpu;
    memory = same.memory;
    gpus = same.gpus;
  }
