-- ===== src/Scheduler/Policies/Precheck.antt =====
-- scheduler/policies.py: the pre-check of a stored worker and a stored task, `evaluate`. The
-- reserved amounts are columns that are never null, so `or 0` does not change them.
use mini_ai_cloud.Prelude.{
  ℕ, ◌+◌, ◌≤◌, ◌≡◌, refl, ◌≢◌, Bool, true, false, not, ◌&&◌, Option, none, some, ltb, leb,
  if◌then◌else◌, arith,
}
use mini_ai_cloud.Prelude.Text.{String, Dict}
use mini_ai_cloud.Prelude.Floats.{Floats, float_gt}
use mini_ai_cloud.Core.Enums.{TaskStatus, WorkerStatus, queued, same_status}
use mini_ai_cloud.Scheduler.Policies.Snapshots.{
  RejectionReason, is_online, labels_match, task_not_found, task_not_queued, task_cancelled,
  worker_not_found, worker_not_online, worker_at_capacity, insufficient_cpu, insufficient_memory,
  insufficient_gpu, label_mismatch,
}

-- `SchedulingDecision(True)` is `allowed`.
pub data SchedulingDecision : Type 0 where
  allowed : SchedulingDecision
  rejected : RejectionReason → SchedulingDecision

module _ (fl : Floats) where
  -- The columns of a worker that the pre-check reads.
  pub record Worker : Type 0 where
    pub status : WorkerStatus
    pub running_tasks : ℕ
    pub concurrency : ℕ
    pub reserved_cpu : fl.F
    pub cpu_count : ℕ
    pub reserved_memory_mb : ℕ
    pub memory_total_mb : ℕ
    pub reserved_gpus : ℕ
    pub gpu_count : ℕ
    pub labels : Dict String

  -- The columns of a task that the pre-check reads.
  pub record Task : Type 0 where
    pub status : TaskStatus
    pub cancel_requested : Bool
    pub cpu_limit : fl.F
    pub memory_limit_mb : ℕ
    pub gpu_count : ℕ
    pub labels : Dict String

  unfoldable pub worker_accepts_new_tasks : Option Worker → Bool
  worker_accepts_new_tasks none = false
  worker_accepts_new_tasks (some w) = is_online w.status && ltb w.running_tasks w.concurrency

  evaluate_pair : Worker → Task → SchedulingDecision
  unfolding labels_match same_status
  evaluate_pair w t =
      if not (same_status t.status queued)
      then rejected task_not_queued
      else if t.cancel_requested
      then rejected task_cancelled
      else if float_gt fl (fl.add w.reserved_cpu t.cpu_limit) (fl.of_nat w.cpu_count)
      then rejected insufficient_cpu
      else if ltb w.memory_total_mb (w.reserved_memory_mb + t.memory_limit_mb)
      then rejected insufficient_memory
      else if ltb w.gpu_count (w.reserved_gpus + t.gpu_count)
      then rejected insufficient_gpu
      else if not (labels_match t.labels w.labels)
      then rejected label_mismatch
      else allowed

  evaluate_worker : Worker → Option Task → SchedulingDecision
  unfolding evaluate_pair
  evaluate_worker w task =
      if not (is_online w.status)
      then rejected worker_not_online
      else if leb w.concurrency w.running_tasks
      then rejected worker_at_capacity
      else elim task [ none ↦ rejected task_not_found | some t ↦ evaluate_pair w t ]

  unfoldable pub evaluate : Option Worker → Option Task → SchedulingDecision
  unfolding evaluate_worker
  evaluate none task = rejected worker_not_found
  evaluate (some w) task = evaluate_worker w task

  -- A worker that accepts no new tasks turns every task down for the same reason, which the
  -- pre-check also gives with no task at hand, and which is never `TASK_NOT_FOUND`.
  pub evaluate_unavailable :
      (worker : Option Worker) (task : Option Task)
      → worker_accepts_new_tasks worker ≡ false
      → (evaluate worker task ≡ evaluate worker none)
        × (evaluate worker none ≢ rejected task_not_found)
  unfolding evaluate worker_accepts_new_tasks
  evaluate_unavailable none task h = (refl, λ e. cc)
  evaluate_unavailable (some w) task h = ground arith

  -- A pre-check that passes has a worker that accepts new tasks, and a task that waits in the
  -- queue, is not being cancelled, and fits what the worker has left.
  pub evaluate_allowed :
      (worker : Option Worker) (task : Option Task)
      → evaluate worker task ≡ allowed
      → (w : Worker) × (t : Task) × (worker ≡ some w)
        × (task ≡ some t)
        × (worker_accepts_new_tasks (some w) ≡ true)
        × (t.status ≡ queued)
        × (t.cancel_requested ≡ false)
        × (fl.order.le (fl.add w.reserved_cpu t.cpu_limit) (fl.of_nat w.cpu_count) ≡ true)
        × (w.reserved_memory_mb + t.memory_limit_mb ≤ w.memory_total_mb)
        × (w.reserved_gpus + t.gpu_count ≤ w.gpu_count)
        × (labels_match t.labels w.labels ≡ true)
  unfolding evaluate worker_accepts_new_tasks
  evaluate_allowed none task h = cc
  evaluate_allowed (some w) none h = ground arith
  evaluate_allowed (some w) (some t) h = (
    w,
    t,
    refl,
    refl,
    ground arith,
    ground arith,
    ground arith,
    ground arith,
    ground arith,
    ground arith,
    ground arith,
  )
