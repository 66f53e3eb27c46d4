-- ===== src/Repositories/Dag/Adding/Examples.antt =====
-- Runs of the addition of dependencies.
use mini_ai_cloud.Prelude.{ℕ, ◌≡◌, refl, some, none, List, [], ◌∷◌, ok, err}
use mini_ai_cloud.Core.Enums.{pending, queued, is_in, same_status}
use mini_ai_cloud.Repositories.Dag.Resolution.{TaskDependency, cancel}
use mini_ai_cloud.Repositories.Dag.Cycle.{add_edge, build, visit, drain, contains_cycle}
use mini_ai_cloud.Repositories.Dag.Cycle.Walks.{Walk, last, next}
use mini_ai_cloud.Repositories.Dag.Adding.{
  Task, JobGroup, DependencySpec, Tables, would_cycle, other_group, add_dependencies_locked,
  attach_all, attach, add_to, add_dependency, create_queued,
}
use mini_ai_cloud.Repositories.Dag.Adding.Linked.{keys}
use mini_ai_cloud.Repositories.Dag.Adding.Asked.{AreSound}
use mini_ai_cloud.Repositories.Dag.Adding.Sound.{Outcome, add_dependencies_locked-Outcome}
use mini_ai_cloud.Repositories.Dag.Adding.Acyclic.{step, done, added, started_task, Steps-acyclic}

abbrev group : JobGroup
group = record { id = 9; project_id = 7 }

abbrev task : ℕ → Task
task id = record { id = id; project_id = 7; status = queued }

abbrev spec : ℕ → ℕ → DependencySpec
spec u v = record { task_id = u; depends_on_task_id = v; failure_policy = cancel }

abbrev row : ℕ → ℕ → TaskDependency
row u v = record {
  task_id = u;
  depends_on_task_id = v;
  job_group_id = some 9;
  failure_policy = "cancel";
}

abbrev single : ℕ → ℕ → TaskDependency
single u v = record {
  task_id = u;
  depends_on_task_id = v;
  job_group_id = none;
  failure_policy = "block";
}

abbrev with_rows : List TaskDependency → Tables
with_rows rows = record {
  active_projects = 7 ∷ [];
  groups = group ∷ [];
  tasks = task 1 ∷ task 2 ∷ task 3 ∷ [];
  dependencies = rows;
}

abbrev with_fourth : Tables
with_fourth = record {
  active_projects = 7 ∷ [];
  groups = group ∷ [];
  tasks = record { id = 4; project_id = 7; status = pending } ∷ task 1 ∷ task 2 ∷ task 3 ∷ [];
  dependencies = single 4 1 ∷ row 2 3 ∷ row 1 2 ∷ [];
}

no-Walk : (u v : ℕ) → ¬ Walk [] u v
no-Walk u v (last e) = cc e
no-Walk u v (next e walk) = cc e

at_first : AreSound (with_rows [])
at_first = record {
  ids_once = (refl, (refl, (refl, tt)));
  rows = record {
    once = tt;
    linked = λ r s a. absurd a;
    known = λ r v a. absurd a;
    acyclic = λ v. no-Walk v v;
  };
}

abbrev chain : List DependencySpec
chain = spec 1 2 ∷ spec 2 3 ∷ []

chain_added :
    add_dependencies_locked group chain (with_rows [])
    ≡ ok (row 1 2 ∷ row 2 3 ∷ [], with_rows (row 2 3 ∷ row 1 2 ∷ []))
unfolding add_dependencies_locked attach_all attach contains_cycle drain visit build add_edge is_in
    same_status
chain_added = refl

-- The third dependency would close the chain.
circle_refused :
    add_dependency 7 9 (spec 3 1) (with_rows (row 2 3 ∷ row 1 2 ∷ [])) ≡ err would_cycle
unfolding add_dependency add_to add_dependencies_locked attach_all attach contains_cycle drain visit
    build add_edge is_in same_status
circle_refused = refl

fourth_created :
    create_queued 7 4 (1 ∷ []) "block" (with_rows (row 2 3 ∷ row 1 2 ∷ [])) ≡ ok with_fourth
unfolding create_queued
fourth_created = refl

-- A task that depends on one of a group keeps that one from more dependencies in the group.
fourth_holds : add_dependency 7 9 (spec 3 1) with_fourth ≡ err other_group
unfolding add_dependency add_to add_dependencies_locked
fourth_holds = refl

add_dependencies_locked-Outcome_example :
    Outcome group chain (with_rows []) (add_dependencies_locked group chain (with_rows []))
add_dependencies_locked-Outcome_example =
    add_dependencies_locked-Outcome group chain (with_rows []) at_first

Steps-acyclic_example : ¬ Walk (keys with_fourth.dependencies) 4 4
Steps-acyclic_example =
    Steps-acyclic (with_rows []) with_fourth
      (step (added group chain chain_added)
        (step (started_task 7 4 (1 ∷ []) "block" refl fourth_created) done))
      at_first 4
