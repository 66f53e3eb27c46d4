-- ===== src/Repositories/Dag/Adding.antt =====
-- repositories/dag.py: `_add_dependencies_locked` and `add_dependency`; repositories/tasks.py: the
-- dependencies of a task that is created. The set of the keys of `edge_map` is `combined`.
pub mod Linked
pub mod Attached
pub mod Added
pub mod Asked
pub mod Sound
pub mod NewRows
pub mod Created
pub mod Acyclic
mod Examples
use mini_ai_cloud.Prelude.{
  ℕ, Bool, true, false, not, ◌&&◌, ◌||◌, Option, none, some, List, [], ◌∷◌, ◌++◌, any, keep, length,
  map, ◌==◌, ltb, if◌then◌else◌, Result, ok, err, raise_if, ◌>>=◌, ◌>>◌,
}
use mini_ai_cloud.Prelude.Sets.{has, add_new}
use mini_ai_cloud.Prelude.Text.{String, ◌===◌}
use mini_ai_cloud.Core.Enums.{TaskStatus, pending, queued, retrying, is_in}
use mini_ai_cloud.Repositories.Dag.Resolution.{
  DependencyFailurePolicy, cancel, block, TaskDependency,
}
use mini_ai_cloud.Repositories.Dag.Cycle.{Edge, contains_cycle}

pub record Task : Type 0 where
  pub id : ℕ
  pub project_id : ℕ
  pub status : TaskStatus

pub record JobGroup : Type 0 where
  pub id : ℕ
  pub project_id : ℕ

pub record DependencySpec : Type 0 where
  pub task_id : ℕ
  pub depends_on_task_id : ℕ
  pub failure_policy : DependencyFailurePolicy

-- `active_projects`: the IDs of the projects whose status is ACTIVE.
pub record Tables : Type 0 where
  pub active_projects : List ℕ
  pub groups : List JobGroup
  pub tasks : List Task
  pub dependencies : List TaskDependency

-- `key_error` is the KeyError of `tasks_by_id` and `index_error` the IndexError of `rows[0]`; `no_answer` is a cycle test that ran out of fuel.
pub data DagError : Type 0 where
  no_project no_group too_many on_itself tasks_missing other_group other_policy would_cycle :
      DagError
  started key_error index_error no_answer repeated bad_policy : DagError

abbrev pub text_of : DependencyFailurePolicy → String
text_of cancel = "cancel"
text_of block = "block"

abbrev pub key_of : TaskDependency → Edge
key_of e = (e.task_id, e.depends_on_task_id)

abbrev pub requested_task_ids : List DependencySpec → List ℕ
requested_task_ids [] = []
requested_task_ids (d ∷ ds) =
    add_new d.task_id (add_new d.depends_on_task_id (requested_task_ids ds))

abbrev pub found_tasks : ℕ → List ℕ → List Task → List Task
found_tasks project_id ids tasks =
    keep (λ (t : Task). t.project_id == project_id && has t.id ids) tasks

abbrev pub touches : List ℕ → TaskDependency → Bool
touches ids e = has e.task_id ids || has e.depends_on_task_id ids

abbrev pub in_group : ℕ → TaskDependency → Bool
in_group group_id e = elim e.job_group_id [ none ↦ false | some id ↦ id == group_id ]

abbrev pub edge_at : ℕ → ℕ → List TaskDependency → Option TaskDependency
edge_at u v [] = none
edge_at u v (e ∷ es) =
    if e.task_id == u && e.depends_on_task_id == v then some e else edge_at u v es

abbrev pub status_at : ℕ → List Task → Option TaskStatus
status_at id [] = none
status_at id (t ∷ ts) = if t.id == id then some t.status else status_at id ts

-- The variables of the loop; `rows` is the table with the rows that the session has added to it.
pub record Draft : Type 0 where
  pub edge_map : List TaskDependency
  pub created : List TaskDependency
  pub rows : List TaskDependency

abbrev pub attachable : List TaskStatus
attachable = pending ∷ queued ∷ retrying ∷ []

abbrev pub row_of : ℕ → DependencySpec → TaskDependency
row_of group_id d = record {
  task_id = d.task_id;
  depends_on_task_id = d.depends_on_task_id;
  job_group_id = some group_id;
  failure_policy = text_of d.failure_policy;
}

abbrev pub insert_row : TaskDependency → Draft → Draft
insert_row row draft = record {
  edge_map = row ∷ draft.edge_map;
  created = draft.created ++ row ∷ [];
  rows = row ∷ draft.rows;
}

-- `status`: that of the task in `tasks_by_id`.
abbrev pub admit_row : Option TaskStatus → TaskDependency → Draft → Result DagError Draft
admit_row none row draft = err key_error
admit_row (some status) row draft =
    raise_if (not (is_in status attachable)) started >> ok (insert_row row draft)

-- `answer`: that of the cycle test.
abbrev pub admit_candidate :
    Option Bool → Option TaskStatus → TaskDependency → Draft → Result DagError Draft
admit_candidate none status row draft = err no_answer
admit_candidate (some cyclic) status row draft =
    raise_if cyclic would_cycle >> admit_row status row draft

-- `existing`: the row that `edge_map` has at the key.
abbrev pub attach_at :
    Option TaskDependency → List Task → TaskDependency → Draft → Result DagError Draft
attach_at (some existing) tasks row draft =
    raise_if (not (existing.failure_policy === row.failure_policy)) other_policy
    >> ok (record draft { created = draft.created ++ existing ∷ [] })
attach_at none tasks row draft =
    admit_candidate (contains_cycle (key_of row ∷ map key_of draft.edge_map))
      (status_at row.task_id tasks) row draft

unfoldable pub attach : List Task → ℕ → DependencySpec → Draft → Result DagError Draft
attach tasks group_id d draft =
    attach_at (edge_at d.task_id d.depends_on_task_id draft.edge_map) tasks (row_of group_id d)
      draft

unfoldable pub attach_all : List Task → ℕ → List DependencySpec → Draft → Result DagError Draft
unfolding attach
attach_all tasks group_id [] draft = ok draft
attach_all tasks group_id (d ∷ ds) draft =
    attach tasks group_id d draft >>= λ next. attach_all tasks group_id ds next

unfoldable pub add_dependencies_locked :
    JobGroup → List DependencySpec → Tables → Result DagError (List TaskDependency × Tables)
unfolding attach_all
add_dependencies_locked group dependencies db =
    let ids = requested_task_ids dependencies in
    let tasks = found_tasks group.project_id ids db.tasks in
    raise_if (ltb 1000 (length dependencies)) too_many
    >> raise_if (any (λ (d : DependencySpec). d.task_id == d.depends_on_task_id) dependencies)
        on_itself
    >> raise_if (not (length tasks == length ids)) tasks_missing
    >> raise_if (any (λ e. touches ids e && not (in_group group.id e)) db.dependencies) other_group
    >> (attach_all tasks group.id dependencies (record {
      edge_map = keep (in_group group.id) db.dependencies;
      created = [];
      rows = db.dependencies;
    })
        >>= λ draft. ok (draft.created, record db { dependencies = draft.rows }))

abbrev pub group_at : ℕ → ℕ → List JobGroup → Option JobGroup
group_at project_id group_id [] = none
group_at project_id group_id (g ∷ gs) =
    if g.id == group_id && g.project_id == project_id
    then some g
    else group_at project_id group_id gs

unfoldable pub add_to :
    Option JobGroup → DependencySpec → Tables → Result DagError (TaskDependency × Tables)
unfolding add_dependencies_locked
add_to none dependency db = err no_group
add_to (some group) dependency db =
    add_dependencies_locked group (dependency ∷ []) db >>= λ (rows, after). elim rows [
      | [] ↦ err index_error
      | row ∷ more ↦ ok (row, after)
    ]

unfoldable pub add_dependency :
    ℕ → ℕ → DependencySpec → Tables → Result DagError (TaskDependency × Tables)
unfolding add_to
add_dependency project_id group_id dependency db =
    raise_if (not (has project_id db.active_projects)) no_project
    >> add_to (group_at project_id group_id db.groups) dependency db

abbrev pub new_rows : ℕ → String → List ℕ → List TaskDependency
new_rows task_id failure_policy ids =
    map
      (λ id. record {
        task_id = task_id;
        depends_on_task_id = id;
        job_group_id = none;
        failure_policy = failure_policy;
      })
      ids

abbrev pub distinct_of : List ℕ → List ℕ
distinct_of [] = []
distinct_of (x ∷ xs) = add_new x (distinct_of xs)

-- What `create_queued` reads and writes of the dependencies of a task, which gets the ID `task_id`. Its quota
-- is admitted between, and it may be moved on after that.
unfoldable pub create_queued : ℕ → ℕ → List ℕ → String → Tables → Result DagError Tables
create_queued project_id task_id dependency_ids policy db =
    raise_if (not (length dependency_ids == length (distinct_of dependency_ids))) repeated
    >> raise_if (not (policy === "block" || policy === "cancel")) bad_policy
    >> raise_if
        (not (length (found_tasks project_id dependency_ids db.tasks) == length dependency_ids))
        tasks_missing
    >> ok (record db {
      tasks = record { id = task_id; project_id = project_id; status = pending } ∷ db.tasks;
      dependencies = new_rows task_id policy dependency_ids ++ db.dependencies;
    })
