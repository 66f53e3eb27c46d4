-- ===== src/Repositories/Dag/Summary.antt =====
-- repositories/dag.py: `_summarize_loaded_group`, the summary of a job group.
pub mod Status
pub mod Agrees
mod Examples
use mini_ai_cloud.Prelude.{
  ℕ, max, Bool, true, false, not, ◌&&◌, ◌||◌, Option, none, some, List, [], ◌∷◌, any, all, keep,
  length, map, ◌==◌, if◌then◌else◌, Result, ok, err, ◌>>=◌, ◌>>◌, raise_if,
}
use mini_ai_cloud.Prelude.Sets.{has, add_new}
use mini_ai_cloud.Core.Enums.{
  TaskStatus, pending, queued, retrying, succeeded, same_status, is_in, is_final, is_active,
}
use mini_ai_cloud.Repositories.Dag.Resolution.{
  DependencyState, ready, waiting, blocked, cancelled, DagInvariantViolation, missing_tasks,
  TaskDependency, DependencyResolution, Statuses, resolve_task,
}

pub data JobGroupStatus : Type 0 where
  group_pending group_running group_succeeded group_failed : JobGroupStatus

pub record GroupTask : Type 0 where
  pub id : ℕ
  pub status : TaskStatus
  pub finished_at : Option ℕ

pub record JobGroupSummary : Type 0 where
  pub status : JobGroupStatus
  pub task_count : ℕ
  pub ready_tasks : ℕ
  pub waiting_tasks : ℕ
  pub blocked_tasks : ℕ
  pub cancelled_tasks : ℕ
  pub succeeded_tasks : ℕ
  pub failed_tasks : ℕ
  pub finished_at : Option ℕ

-- `_task_ids`
unfoldable pub task_ids : List TaskDependency → List ℕ
task_ids [] = []
task_ids (e ∷ es) = add_new e.task_id (add_new e.depends_on_task_id (task_ids es))

abbrev pub ids_of : List GroupTask → List ℕ
ids_of tasks = map (λ (t : GroupTask). t.id) tasks

abbrev pub same_set : List ℕ → List ℕ → Bool
same_set xs ys = all (λ x. has x ys) xs && all (λ y. has y xs) ys

abbrev pub same_state : DependencyState → DependencyState → Bool
same_state ready s = elim s [ ready ↦ true | _ ↦ false ]
same_state waiting s = elim s [ waiting ↦ true | _ ↦ false ]
same_state blocked s = elim s [ blocked ↦ true | _ ↦ false ]
same_state cancelled s = elim s [ cancelled ↦ true | _ ↦ false ]

abbrev pub count {ℓ} : {A : Type ℓ} → (A → Bool) → List A → ℕ
count test xs = length (keep test xs)

abbrev pub in_state : DependencyState → DependencyResolution → Bool
in_state s r = same_state r.state s

-- `_count_state`
abbrev pub count_state : List DependencyResolution → DependencyState → ℕ
count_state resolutions state = count (in_state state) resolutions

abbrev pub is_done : GroupTask → Bool
is_done t = same_status t.status succeeded

abbrev pub is_lost : GroupTask → Bool
is_lost t = is_final t.status && not (same_status t.status succeeded)

unfoldable pub group_status : List GroupTask → List DependencyResolution → JobGroupStatus
group_status [] resolutions = group_pending
group_status (t ∷ ts) resolutions =
    let tasks = t ∷ ts in
    if all is_done tasks
    then group_succeeded
    else if any is_lost tasks || any (λ r. in_state blocked r || in_state cancelled r) resolutions
    then group_failed
    else if any (λ (x : GroupTask). is_active x.status) tasks
    then group_running
    else group_pending

abbrev pub is_over : JobGroupStatus → Bool
is_over group_succeeded = true
is_over group_failed = true
is_over _ = false

-- `max(terminal_times)`, where there is one.
abbrev pub later : Option ℕ → Option ℕ → Option ℕ
later none b = b
later (some a) none = some a
later (some a) (some b) = some (max a b)

unfoldable pub last_finish : List GroupTask → Option ℕ
last_finish [] = none
last_finish (t ∷ ts) = later t.finished_at (last_finish ts)

unfoldable pub resolve_each :
    List ℕ
    → Statuses
    → List TaskDependency
    → Result DagInvariantViolation (List DependencyResolution)
unfolding resolve_task
resolve_each [] statuses edges = ok []
resolve_each (id ∷ ids) statuses edges = do
  r ← resolve_task id statuses edges
  rest ← resolve_each ids statuses edges
  ok (r ∷ rest)

abbrev pub is_runnable : DependencyResolution → Bool
is_runnable r = in_state ready r && is_in r.task_status (pending ∷ queued ∷ retrying ∷ [])

abbrev pub summary_of : List ℕ → List GroupTask → List DependencyResolution → JobGroupSummary
summary_of ids tasks resolutions =
    let status = group_status tasks resolutions in
    record {
      status = status;
      task_count = length ids;
      ready_tasks = count is_runnable resolutions;
      waiting_tasks = count_state resolutions waiting;
      blocked_tasks = count_state resolutions blocked;
      cancelled_tasks = count_state resolutions cancelled;
      succeeded_tasks = count is_done tasks;
      failed_tasks = count is_lost tasks;
      finished_at = if is_over status then last_finish tasks else none;
    }

unfoldable pub summarize_loaded_group :
    List GroupTask → List TaskDependency → Result DagInvariantViolation JobGroupSummary
unfolding task_ids resolve_each group_status last_finish is_in is_final same_status
summarize_loaded_group tasks edges = do
  let ids = task_ids edges
  raise_if (not (length tasks == length ids && same_set (ids_of tasks) ids)) missing_tasks
  resolutions ← resolve_each ids (map (λ (t : GroupTask). (t.id, t.status)) tasks) edges
  ok (summary_of ids tasks resolutions)
