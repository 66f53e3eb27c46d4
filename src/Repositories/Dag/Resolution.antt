-- ===== src/Repositories/Dag/Resolution.antt =====
-- repositories/dag.py: `_resolve_task`. A UUID is the number that it stands for; the order of these
-- numbers is that of their texts.
use mini_ai_cloud.Prelude.{
  ℕ, Bool, true, false, Option, none, some, List, [], ◌∷◌, any, keep, map, ◌==◌, if◌then◌else◌,
  Result, ok, err, ◌>>=◌,
}
use mini_ai_cloud.Prelude.Order.{by_nat}
use mini_ai_cloud.Prelude.Sort.{sort}
use mini_ai_cloud.Prelude.Text.{String, ◌===◌}
use mini_ai_cloud.Core.Enums.{TaskStatus, succeeded, is_final, same_status}

pub data DependencyFailurePolicy : Type 0 where
  cancel block : DependencyFailurePolicy

pub data DependencyState : Type 0 where
  ready waiting blocked cancelled : DependencyState

pub data DagInvariantViolation : Type 0 where
  missing_status invalid_policy missing_tasks : DagInvariantViolation

pub record TaskDependency : Type 0 where
  pub task_id : ℕ
  pub depends_on_task_id : ℕ
  pub job_group_id : Option ℕ
  pub failure_policy : String

pub record DependencyResolution : Type 0 where
  pub task_id : ℕ
  pub task_status : TaskStatus
  pub state : DependencyState
  pub dependency_ids : List ℕ
  pub waiting_on_task_ids : List ℕ
  pub failed_dependency_ids : List ℕ

-- `statuses`: a dict from the IDs of tasks.
abbrev pub Statuses : Type 0
Statuses = List (ℕ × TaskStatus)

abbrev pub status_of : ℕ → Statuses → Option TaskStatus
status_of id [] = none
status_of id (entry ∷ entries) = if entry.0 == id then some entry.1 else status_of id entries

abbrev pub incoming : ℕ → List TaskDependency → List TaskDependency
incoming task_id edges = keep (λ (e : TaskDependency). e.task_id == task_id) edges

-- What the loop makes of one edge: it is satisfied, it failed under a policy, or it is waited for.
pub data Verdict : Type 0 where
  satisfied unfinished : Verdict
  failing : DependencyFailurePolicy → Verdict

unfoldable pub parse_policy : String → Result DagInvariantViolation DependencyFailurePolicy
parse_policy text =
    if text === "cancel"
    then ok cancel
    else if text === "block"
    then ok block
    else err invalid_policy

unfoldable pub judge_status : String → TaskStatus → Result DagInvariantViolation Verdict
unfolding parse_policy is_final same_status
judge_status policy status =
    if same_status status succeeded
    then ok satisfied
    else if is_final status
    then (parse_policy policy >>= λ p. ok (failing p))
    else ok unfinished

unfoldable pub judge : Statuses → TaskDependency → Result DagInvariantViolation Verdict
unfolding judge_status
judge statuses e = elim (status_of e.depends_on_task_id statuses) [
  | none ↦ err missing_status
  | some status ↦ judge_status e.failure_policy status
]

pub record Judged : Type 0 where
  pub dependency : ℕ
  pub verdict : Verdict

-- The loop over the incoming edges: `waiting`, `failed` and `failed_policies` are what it finds of
-- each kind, in its order.
unfoldable pub judge_all :
    Statuses → List TaskDependency → Result DagInvariantViolation (List Judged)
unfolding judge
judge_all statuses [] = ok []
judge_all statuses (e ∷ es) = do
  verdict ← judge statuses e
  others ← judge_all statuses es
  ok (record { dependency = e.depends_on_task_id; verdict = verdict } ∷ others)

abbrev pub is_unfinished : Judged → Bool
is_unfinished j = elim j.verdict [ unfinished ↦ true | _ ↦ false ]

abbrev pub is_failing : Judged → Bool
is_failing j = elim j.verdict [ failing p ↦ true | _ ↦ false ]

abbrev pub is_cancelling : Judged → Bool
is_cancelling j = elim j.verdict [
  | failing p ↦ elim p [ cancel ↦ true | block ↦ false ]
  | _ ↦ false
]

unfoldable pub state_of : List Judged → DependencyState
state_of judged =
    if any is_cancelling judged
    then cancelled
    else if any is_failing judged
    then blocked
    else if any is_unfinished judged
    then waiting
    else ready

abbrev pub ids_of : (Judged → Bool) → List Judged → List ℕ
ids_of test judged = sort by_nat (map (λ (j : Judged). j.dependency) (keep test judged))

unfoldable pub resolve_task :
    ℕ → Statuses → List TaskDependency → Result DagInvariantViolation DependencyResolution
unfolding judge_all state_of sort
resolve_task task_id statuses edges = do
  judged ← judge_all statuses (incoming task_id edges)
  elim (status_of task_id statuses) [
    | none ↦ err missing_status
    | some status ↦ ok (record {
      task_id = task_id;
      task_status = status;
      state = state_of judged;
      dependency_ids =
          sort by_nat (map (λ (e : TaskDependency). e.depends_on_task_id) (incoming task_id edges));
      waiting_on_task_ids = ids_of is_unfinished judged;
      failed_dependency_ids = ids_of is_failing judged;
    })
  ]
