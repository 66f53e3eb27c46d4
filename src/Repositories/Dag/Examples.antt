-- ===== src/Repositories/Dag/Examples.antt =====
-- Runs of the resolution of dependencies.
use mini_ai_cloud.Prelude.{ℕ, ◌≡◌, ◌⊎◌, true, false, none, some, refl, List, [], ◌∷◌, ok, err}
use mini_ai_cloud.Prelude.Sort.{sort}
use mini_ai_cloud.Core.Enums.{pending, failed, running, is_in, is_final, same_status}
use mini_ai_cloud.Repositories.Dag.Resolution.{
  TaskDependency, DependencyResolution, Statuses, cancelled, invalid_policy, parse_policy,
  judge_status, judge, judge_all, state_of, resolve_task,
}
use mini_ai_cloud.Repositories.Dag.Readiness.{
  Agrees, is_selected, readiness_action, end, resolve_task-Agrees,
}
use mini_ai_cloud.Repositories.Dag.Cycle.{Edge, add_edge, build, visit, drain, contains_cycle}
use mini_ai_cloud.Repositories.Dag.Cycle.Walks.{Walk}
use mini_ai_cloud.Repositories.Dag.Cycle.Decides.{contains_cycle_decides}

abbrev edges : List TaskDependency
edges =
    record { task_id = 1; depends_on_task_id = 3; job_group_id = none; failure_policy = "cancel" }
    ∷ record { task_id = 1; depends_on_task_id = 2; job_group_id = none; failure_policy = "block" }
    ∷ record { task_id = 4; depends_on_task_id = 1; job_group_id = none; failure_policy = "never" }
    ∷ []

abbrev statuses : Statuses
statuses = (1, pending) ∷ (2, failed) ∷ (3, failed) ∷ (4, pending) ∷ []

abbrev resolution : DependencyResolution
resolution = record {
  task_id = 1;
  task_status = pending;
  state = cancelled;
  dependency_ids = 2 ∷ 3 ∷ [];
  waiting_on_task_ids = [];
  failed_dependency_ids = 2 ∷ 3 ∷ [];
}

resolved : resolve_task 1 statuses edges ≡ ok resolution
unfolding resolve_task judge_all judge judge_status parse_policy is_final is_in same_status state_of
    sort
resolved = refl

ended : readiness_action pending (("cancel", failed) ∷ ("block", running) ∷ []) ≡ end
unfolding readiness_action is_selected is_final is_in same_status
ended = refl

-- A policy is read only where the task that is depended on has failed.
unread : resolve_task 4 ((1, failed) ∷ (4, pending) ∷ []) edges ≡ err invalid_policy
unfolding resolve_task judge_all judge judge_status parse_policy is_final is_in same_status
unread = refl

resolve_task-Agrees_example : Agrees 1 statuses edges resolution
resolve_task-Agrees_example = resolve_task-Agrees 1 statuses edges resolved

-- A task that needs itself through two others, and a chain without that.
abbrev circle : List Edge
circle = (1, 2) ∷ (2, 3) ∷ (3, 1) ∷ (3, 4) ∷ []

abbrev chain : List Edge
chain = (1, 2) ∷ (2, 3) ∷ (1, 3) ∷ []

circle_found : contains_cycle circle ≡ some true
unfolding contains_cycle drain visit build add_edge
circle_found = refl

chain_passed : contains_cycle chain ≡ some false
unfolding contains_cycle drain visit build add_edge
chain_passed = refl

contains_cycle_decides_example :
    ((contains_cycle circle ≡ some true) × (v : ℕ) × Walk circle v v)
    ⊎ ((contains_cycle circle ≡ some false) × ((v : ℕ) → ¬ Walk circle v v))
contains_cycle_decides_example = contains_cycle_decides circle (refl, (refl, (refl, (refl, tt))))
