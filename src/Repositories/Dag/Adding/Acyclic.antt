-- ===== src/Repositories/Dag/Adding/Acyclic.antt =====
-- repositories/dag.py and repositories/tasks.py: the dependencies of the tasks, whatever is done to them.
use mini_ai_cloud.Prelude.{ℕ, ◌≡◌, sym, subst, false, List, ok}
use mini_ai_cloud.Prelude.Sets.{has, IsDistinct}
use mini_ai_cloud.Prelude.Text.{String}
use mini_ai_cloud.Repositories.Dag.Resolution.{TaskDependency}
use mini_ai_cloud.Repositories.Dag.Cycle.Walks.{Walk}
use mini_ai_cloud.Repositories.Dag.Adding.{
  Task, JobGroup, DependencySpec, Tables, add_dependencies_locked, create_queued,
}
use mini_ai_cloud.Repositories.Dag.Adding.Linked.{keys}
use mini_ai_cloud.Repositories.Dag.Adding.Attached.{IsSound}
use mini_ai_cloud.Repositories.Dag.Adding.Asked.{ids_of, AreSound}
use mini_ai_cloud.Repositories.Dag.Adding.Sound.{Outcome, add_dependencies_locked-Outcome}
use mini_ai_cloud.Repositories.Dag.Adding.Created.{Keeps, create_queued-Keeps}

-- A transaction: dependencies are added to a group, a task is created under a new ID, tasks change
-- but for their IDs, or the projects and the groups change.
pub data Step : Tables → Tables → Type 0 where
  added :
      {db after : Tables} {created : List TaskDependency} (group : JobGroup)
      (ds : List DependencySpec)
      → add_dependencies_locked group ds db ≡ ok (created, after)
      → Step db after
  started_task :
      {db after : Tables} (project_id task_id : ℕ) (ids : List ℕ) (policy : String)
      → has task_id (ids_of db.tasks) ≡ false
      → create_queued project_id task_id ids policy db ≡ ok after
      → Step db after
  moved :
      {db : Tables} (tasks : List Task)
      → ids_of tasks ≡ ids_of db.tasks
      → Step db (record db { tasks = tasks })
  regrouped :
      {db : Tables} (projects : List ℕ) (groups : List JobGroup)
      → Step db (record db { active_projects = projects; groups = groups })

pub data Steps : Tables → Tables → Type 0 where
  done : {db : Tables} → Steps db db
  step : {db next after : Tables} → Step db next → Steps next after → Steps db after

Step-AreSound : (db after : Tables) → Step db after → AreSound db → AreSound after
Step-AreSound db after (added group ds h) sound =
    (subst (Outcome group ds db) h (add_dependencies_locked-Outcome group ds db sound)).0
Step-AreSound db after (started_task project_id task_id ids policy fresh h) sound =
    subst Keeps h (create_queued-Keeps project_id task_id ids policy db sound fresh)
Step-AreSound db _ (moved tasks same) sound = record {
  ids_once = subst IsDistinct (sym same) sound.ids_once;
  rows = subst (λ ids. IsSound ids db.dependencies) (sym same) sound.rows;
}
Step-AreSound db _ (regrouped projects groups) sound = record {
  ids_once = sound.ids_once;
  rows = sound.rows;
}

Steps-AreSound : (db after : Tables) → Steps db after → AreSound db → AreSound after
Steps-AreSound db after done sound = sound
Steps-AreSound db after (step {next = next} first rest) sound =
    Steps-AreSound next after rest (Step-AreSound db next first sound)

-- From sound tables, no sequence of transactions makes a task need itself, through whichever groups
-- and tasks.
pub Steps-acyclic :
    (db after : Tables)
    → Steps db after
    → AreSound db
    → (v : ℕ) → ¬ Walk (keys after.dependencies) v v
Steps-acyclic db after steps sound = (Steps-AreSound db after steps sound).rows.acyclic
