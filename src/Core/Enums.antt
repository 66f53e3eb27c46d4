-- ===== src/Core/Enums.antt =====
-- core/enums.py: the enumerations that the control plane shares, with the sets of task statuses.
use mini_ai_cloud.Prelude.{ℕ, ◌≡◌, ◌↔◌, Bool, true, List, [], ◌∷◌, ◌==◌, any, arith}

pub data AcceleratorVendor : Type 0 where
  nvidia huawei_ascend : AcceleratorVendor

pub data AcceleratorKind : Type 0 where
  gpu npu : AcceleratorKind

pub data AcceleratorSelectionPolicy : Type 0 where
  any_vendor nvidia_only ascend_only prefer_nvidia prefer_ascend : AcceleratorSelectionPolicy

pub data AllocationAuthority : Type 0 where
  control_plane_exact_device kubernetes_device_plugin : AllocationAuthority

pub data TaskStatus : Type 0 where
  pending queued scheduling assigned preparing pulling starting running : TaskStatus
  preempting preempted stopping succeeded failed cancelled timed_out retrying : TaskStatus

pub data WorkerStatus : Type 0 where
  online offline draining : WorkerStatus

pub data RetryBackoff : Type 0 where
  exponential linear fixed : RetryBackoff

pub data ErrorCategory : Type 0 where
  user_error infra_error resource_error timeout preempted_error cancelled_error : ErrorCategory
  internal_error : ErrorCategory

pub data ProjectRole : Type 0 where
  owner admin member viewer : ProjectRole

-- The place of a status among the members, by which statuses are compared.
index : TaskStatus → ℕ
index pending = 0
index queued = 1
index scheduling = 2
index assigned = 3
index preparing = 4
index pulling = 5
index starting = 6
index running = 7
index preempting = 8
index preempted = 9
index stopping = 10
index succeeded = 11
index failed = 12
index cancelled = 13
index timed_out = 14
index retrying = 15

unfoldable pub same_status : TaskStatus → TaskStatus → Bool
unfolding index
same_status s t = index s == index t

pub same_status_iff : (s t : TaskStatus) → (same_status s t ≡ true) ↔ (s ≡ t)
unfolding same_status index
same_status_iff s t = ground arith

-- `status in statuses`
unfoldable pub is_in : TaskStatus → List TaskStatus → Bool
unfolding same_status
is_in s statuses = any (same_status s) statuses

abbrev pub final_task_statuses : List TaskStatus
final_task_statuses = succeeded ∷ failed ∷ cancelled ∷ timed_out ∷ preempted ∷ []

abbrev pub active_task_statuses : List TaskStatus
active_task_statuses =
    scheduling ∷ assigned ∷ preparing ∷ pulling ∷ starting ∷ running ∷ preempting ∷ stopping ∷ []

unfoldable pub is_final : TaskStatus → Bool
unfolding is_in
is_final s = is_in s final_task_statuses

unfoldable pub is_active : TaskStatus → Bool
unfolding is_in
is_active s = is_in s active_task_statuses
