-- ===== src/Repositories/Dag/Summary/Examples.antt =====
-- repositories/dag.py: the summary of a group whose first task can not be started any more.
use mini_ai_cloud.Prelude.{◌≡◌, refl, some, none, List, [], ◌∷◌, ok, err}
use mini_ai_cloud.Prelude.Sort.{sort}
use mini_ai_cloud.Core.Enums.{pending, running, failed, is_in, is_final, is_active, same_status}
use mini_ai_cloud.Repositories.Dag.Resolution.{
  TaskDependency, missing_tasks, parse_policy, judge_status, judge, judge_all, state_of,
  resolve_task,
}
use mini_ai_cloud.Repositories.Dag.Summary.{
  GroupTask, JobGroupSummary, group_failed, task_ids, group_status, last_finish, resolve_each,
  summarize_loaded_group,
}
use mini_ai_cloud.Repositories.Dag.Summary.Agrees.{Agrees, summarize_loaded_group-Agrees}

abbrev edges : List TaskDependency
edges =
    record { task_id = 1; depends_on_task_id = 2; job_group_id = some 9; failure_policy = "cancel" }
    ∷ record {
      task_id = 1;
      depends_on_task_id = 3;
      job_group_id = some 9;
      failure_policy = "block";
    }
    ∷ []

abbrev tasks : List GroupTask
tasks =
    record { id = 1; status = pending; finished_at = none }
    ∷ record { id = 2; status = failed; finished_at = some 40 }
    ∷ record { id = 3; status = running; finished_at = none }
    ∷ []

abbrev summary : JobGroupSummary
summary = record {
  status = group_failed;
  task_count = 3;
  ready_tasks = 0;
  waiting_tasks = 0;
  blocked_tasks = 0;
  cancelled_tasks = 1;
  succeeded_tasks = 0;
  failed_tasks = 1;
  finished_at = some 40;
}

summarized : summarize_loaded_group tasks edges ≡ ok summary
unfolding summarize_loaded_group task_ids resolve_each resolve_task judge_all judge judge_status
    parse_policy state_of group_status last_finish is_final is_active is_in same_status sort
summarized = refl

unknown_task : summarize_loaded_group [] edges ≡ err missing_tasks
unfolding summarize_loaded_group task_ids
unknown_task = refl

summarize_loaded_group-Agrees_example : Agrees tasks edges summary
summarize_loaded_group-Agrees_example = summarize_loaded_group-Agrees tasks edges summarized
