-- ===== src/Repositories/Dag/Summary/Agrees.antt =====
-- repositories/dag.py: the status of a job group and the numbers of its tasks.
use mini_ai_cloud.Prelude.{
  ℕ, suc, ◌+◌, ◌≤◌, ◌<◌, ◌≡◌, ◌≢◌, ◌↔◌, ◌⊎◌, inl, inr, Any, All, refl, sym, ap, ◌∙◌, subst, Bool,
  true, false, not, ◌&&◌, ◌||◌, &&_parts, none, List, [], ◌∷◌, any, all, length, map, ◌==◌, ==_iff,
  ok, ok_parts, raise_if, ok_injective, arith,
}
use mini_ai_cloud.Core.Enums.{is_active}
use mini_ai_cloud.Repositories.Dag.Resolution.{
  blocked, cancelled, waiting, DagInvariantViolation, missing_tasks, TaskDependency,
  DependencyResolution, Statuses, resolve_task,
}
use mini_ai_cloud.Repositories.Dag.Summary.Status.{
  choice-succeeded, choice-failed, statuses_of, HasSucceeded, EndedOtherwise, StuckState, IsStuck,
  resolved_iff, ids-Any, succeeded_status, failed_status,
}
use mini_ai_cloud.Repositories.Dag.Summary.{
  group_succeeded, group_failed, GroupTask, JobGroupSummary, task_ids, count, in_state, is_done,
  is_lost, is_runnable, is_over, group_status, resolve_each, summary_of, same_set, ids_of,
  summarize_loaded_group,
}

module _ {ℓ} {A : Type ℓ} (test : A → Bool) where
  count-le : (xs : List A) → count test xs ≤ length xs
  count-le [] = omega arith
  count-le (x ∷ xs) = ground (arith, count-le xs)

  all-count : (xs : List A) → all test xs ≡ (count test xs == length xs)
  all-count [] = refl
  all-count (x ∷ xs) = ground (arith, all-count xs, count-le xs)

  any-count : (xs : List A) → any test xs ≡ not (count test xs == 0)
  any-count [] = refl
  any-count (x ∷ xs) = ground (arith, any-count xs)

either-count :
    (rs : List DependencyResolution)
    → any (λ r. in_state blocked r || in_state cancelled r) rs
      ≡ not (count (in_state blocked) rs + count (in_state cancelled) rs == 0)
either-count [] = refl
either-count (r ∷ rs) = ground (arith, either-count rs)

states-le :
    (rs : List DependencyResolution)
    → count is_runnable rs
        + count (in_state waiting) rs
        + count (in_state blocked) rs
        + count (in_state cancelled) rs
      ≤ length rs
states-le [] = omega arith
states-le (r ∷ rs) = ground (arith, states-le rs)

ends-le : (tasks : List GroupTask) → count is_done tasks + count is_lost tasks ≤ length tasks
ends-le [] = omega arith
ends-le (t ∷ tasks) = ground (arith, ends-le tasks)

length-resolve_each :
    (ids : List ℕ) (statuses : Statuses) (edges : List TaskDependency)
    {rs : List DependencyResolution}
    → resolve_each ids statuses edges ≡ ok rs
    → length rs ≡ length ids
unfolding resolve_each
length-resolve_each [] statuses edges h = ap length (sym (ok_injective h))
length-resolve_each (id ∷ ids) statuses edges h =
    let (r, found, h1) =
      ok_parts {B = List DependencyResolution} (resolve_task id statuses edges) _ h in
    let (rest, others, made) =
      ok_parts {B = List DependencyResolution} (resolve_each ids statuses edges) _ h1 in
    ap length (sym (ok_injective made)) ∙ ap suc (length-resolve_each ids statuses edges others)

succeeded_iff :
    (tasks : List GroupTask) (rs : List DependencyResolution)
    → (group_status tasks rs ≡ group_succeeded)
      ↔ ((1 ≤ length tasks) × (count is_done tasks ≡ length tasks))
unfolding group_status
succeeded_iff [] rs = (λ h. cc, λ h. absurd (omega (arith, h.0)))
succeeded_iff (t ∷ ts) rs =
    let tasks = t ∷ ts in
    let ended = any is_lost tasks || any (λ r. in_state blocked r || in_state cancelled r) rs in
    let (to, from) =
      choice-succeeded (all is_done tasks) ended
        (any (λ (x : GroupTask). is_active x.status) tasks) in
    (
      λ h. (
        omega arith,
        (==_iff (count is_done tasks) (length tasks)).0 (sym (all-count is_done tasks) ∙ to h),
      ),
      λ h. from (all-count is_done tasks ∙ (==_iff (count is_done tasks) (length tasks)).1 h.1),
    )

fewer_and_lost :
    (a b c : Bool) (done most lost stuck : ℕ)
    → a ≡ (done == most)
    → b ≡ not (lost == 0)
    → c ≡ not (stuck == 0)
    → done ≤ most
    → a ≡ false
    → (b || c) ≡ true
    → (done < most) × (1 ≤ lost + stuck)
fewer_and_lost a b c done most lost stuck p q r le x y = ground arith

not_all_and_some :
    (a b c : Bool) (done most lost stuck : ℕ)
    → a ≡ (done == most)
    → b ≡ not (lost == 0)
    → c ≡ not (stuck == 0)
    → done < most
    → 1 ≤ lost + stuck
    → (a ≡ false) × ((b || c) ≡ true)
not_all_and_some a b c done most lost stuck p q r less some_lost = ground arith

failed_iff :
    (tasks : List GroupTask) (rs : List DependencyResolution)
    → (group_status tasks rs ≡ group_failed) ↔ (
        (count is_done tasks < length tasks)
        × (1 ≤ count is_lost tasks + count (in_state blocked) rs + count (in_state cancelled) rs))
unfolding group_status
failed_iff [] rs = (λ h. cc, λ h. absurd (omega (arith, h.0)))
failed_iff (t ∷ ts) rs =
    let tasks = t ∷ ts in
    let ended = any is_lost tasks || any (λ r. in_state blocked r || in_state cancelled r) rs in
    let (to, from) =
      choice-failed (all is_done tasks) ended (any (λ (x : GroupTask). is_active x.status) tasks) in
    let done = all-count is_done tasks in
    let lost = any-count is_lost tasks in
    let stuck = either-count rs in
    let most = count-le is_done tasks in
    (
      λ h.
          let (other, over) = to h in
          let (fewer, some_lost) = fewer_and_lost _ _ _ _ _ _ _ done lost stuck most other over in
          (fewer, omega (arith, some_lost)),
      λ h. from (not_all_and_some _ _ _ _ _ _ _ done lost stuck h.0 (omega (arith, h.1))),
    )

-- What a summary says of the tasks and their edges, and of its numbers.
pub record Agrees (tasks : List GroupTask) (edges : List TaskDependency) (s : JobGroupSummary)
    : Type 0 where
  pub tasks_succeeded : (s.status ≡ group_succeeded) ↔ ((tasks ≢ []) × All HasSucceeded tasks)
  pub tasks_failed : (s.status ≡ group_failed) ↔ (
      (¬ All HasSucceeded tasks)
      × (Any EndedOtherwise tasks ⊎ Any (IsStuck tasks edges) (ids_of tasks)))
  pub all_succeeded :
      (s.status ≡ group_succeeded) ↔ ((1 ≤ s.task_count) × (s.succeeded_tasks ≡ s.task_count))
  pub some_failed : (s.status ≡ group_failed) ↔ (
      (s.succeeded_tasks < s.task_count)
      × (1 ≤ s.failed_tasks + s.blocked_tasks + s.cancelled_tasks))
  pub states : s.ready_tasks + s.waiting_tasks + s.blocked_tasks + s.cancelled_tasks ≤ s.task_count
  pub ends : s.succeeded_tasks + s.failed_tasks ≤ s.task_count
  pub open_end : is_over s.status ≡ false → s.finished_at ≡ none

passes : (b : Bool) (e : DagInvariantViolation) → raise_if (not b) e ≡ ok tt → b ≡ true
passes true e h = refl
passes false e h = cc

summary-Agrees :
    (n : ℕ) (ids : List ℕ) (tasks : List GroupTask) (edges : List TaskDependency)
    (rs : List DependencyResolution)
    → same_set (ids_of tasks) ids ≡ true
    → resolve_each ids (statuses_of tasks) edges ≡ ok rs
    → length ids ≡ n
    → length tasks ≡ n
    → length rs ≡ n
    → Agrees tasks edges (summary_of ids tasks rs)
summary-Agrees n ids tasks edges rs set found a b c =
    let same : length tasks ≡ length ids = b ∙ sym a in
    let stuck = resolved_iff StuckState ids (statuses_of tasks) edges found in
    let listed = ids-Any (IsStuck tasks edges) tasks ids set in
    let failed = failed_status tasks rs in
    record {
      tasks_succeeded = succeeded_status tasks rs;
      tasks_failed = (
        λ h.
            let (not_all, some) = failed.0 h in
            (not_all, elim some [ inl lost ↦ inl lost | inr p ↦ inr (listed.0 (stuck.0 p)) ]),
        λ h.
            failed.1 (h.0, elim (h.1) [ inl lost ↦ inl lost | inr p ↦ inr (stuck.1 (listed.1 p)) ]),
      );
      all_succeeded =
          subst
            (λ k. (group_status tasks rs ≡ group_succeeded) ↔ ((1 ≤ k) × (count is_done tasks ≡ k)))
            same (succeeded_iff tasks rs);
      some_failed =
          subst
            (λ k. (group_status tasks rs ≡ group_failed) ↔ (
              (count is_done tasks < k)
              × (1
                  ≤ count is_lost tasks
                    + count (in_state blocked) rs
                    + count (in_state cancelled) rs)))
            same (failed_iff tasks rs);
      states = omega (arith, states-le rs, a, c);
      ends = omega (arith, ends-le tasks, same);
      open_end = λ h. rw h refl;
    }

-- A group has succeeded just where it has tasks and all of them have succeeded; it has failed just where
-- not all have, and some have FAILED, TIMED_OUT, been CANCELLED or PREEMPTED, or resolve to BLOCKED or
-- CANCELLED. The numbers of tasks say the same; those by state and by end are no more than the tasks, and
-- a group that has neither succeeded nor failed has no time of its end.
pub summarize_loaded_group-Agrees :
    (tasks : List GroupTask) (edges : List TaskDependency) {s : JobGroupSummary}
    → summarize_loaded_group tasks edges ≡ ok s
    → Agrees tasks edges s
unfolding summarize_loaded_group
summarize_loaded_group-Agrees tasks edges h =
    let ids = task_ids edges in
    let statuses : Statuses = map (λ (t : GroupTask). (t.id, t.status)) tasks in
    let (_, checked, h1) =
      ok_parts {B = JobGroupSummary}
        (raise_if (not (length tasks == length ids && same_set (ids_of tasks) ids)) missing_tasks) _
        h in
    let (rs, found, made) = ok_parts {B = JobGroupSummary} (resolve_each ids statuses edges) _ h1 in
    let parts = &&_parts _ _ (passes _ missing_tasks checked) in
    let many = (==_iff (length tasks) (length ids)).0 parts.0 in
    subst (Agrees tasks edges) (ok_injective made) (
      summary-Agrees (length ids) ids tasks edges rs (parts.1) found refl many
        (length-resolve_each ids statuses edges found))
