-- ===== src/Scheduler/Policies/Snapshots.antt =====
-- scheduler/policies.py: the immutable snapshots and the test of one worker against one task.
-- Quantities are non-negative integers; instants count microseconds, since the epoch and in UTC.
use mini_ai_cloud.Prelude.{
  ℕ, ◌+◌, Bool, true, false, not, ◌&&◌, Option, none, some, List, [], ◌∷◌, map, any, all, keep,
  take, length, ◌==◌, ltb, leb, if◌then◌else◌, Result, ok, err, ◌>>=◌, ◌>>◌, raise_if,
}
use mini_ai_cloud.Prelude.Text.{String, Dict, lookup, ◌===◌, same_text, by_text}
use mini_ai_cloud.Prelude.Order.{Order, on, by_nat, ◌then_by◌}
use mini_ai_cloud.Prelude.Sort.{sort}
use mini_ai_cloud.Core.Enums.{TaskStatus, WorkerStatus, online}

pub data RejectionReason : Type 0 where
  task_not_found task_not_queued task_cancelled worker_not_found : RejectionReason
  worker_not_online worker_at_capacity insufficient_cpu insufficient_memory : RejectionReason
  insufficient_gpu label_mismatch runtime_mismatch taint_not_tolerated : RejectionReason
  gpu_model_mismatch insufficient_gpu_memory worker_overcommitted : RejectionReason

pub record GpuDeviceSnapshot : Type 0 where
  pub id : String
  pub uuid : String
  pub model : String
  pub memory_total_mb : ℕ
  pub memory_free_mb : Option ℕ
  pub healthy : Bool
  pub allocated : Bool

pub record WorkerSnapshot : Type 0 where
  pub id : String
  pub status : WorkerStatus
  pub runtime_types : List String
  pub running_tasks : ℕ
  pub concurrency : ℕ
  pub cpu_allocatable_millicores : ℕ
  pub reserved_cpu_millicores : ℕ
  pub memory_allocatable_mb : ℕ
  pub reserved_memory_mb : ℕ
  pub labels : Dict String
  pub taints : List (Dict String)
  pub gpu_devices : List GpuDeviceSnapshot
  pub overcommitted : Bool

pub record TaskSnapshot : Type 0 where
  pub id : String
  pub project_id : String
  pub status : TaskStatus
  pub runtime_type : String
  pub cpu_millicores : ℕ
  pub memory_mb : ℕ
  pub gpu_count : ℕ
  pub gpu_memory_mb : ℕ
  pub gpu_model : Option String
  pub labels : Dict String
  pub tolerations : List (Dict String)
  pub priority : ℕ
  pub queued_at : Option ℕ
  pub queue_order : ℕ

abbrev pub is_online : WorkerStatus → Bool
is_online online = true
is_online _ = false

-- `device.memory_total_mb if device.memory_free_mb is None else device.memory_free_mb`
unfoldable pub available_gpu_memory_mb : GpuDeviceSnapshot → ℕ
available_gpu_memory_mb d = elim d.memory_free_mb [ none ↦ d.memory_total_mb | some free ↦ free ]

-- `d.get(key, default)`, where the default may be `None` too.
abbrev pub get_or : Option String → Option String → Option String
get_or none default = default
get_or (some v) default = some v

unfoldable pub tolerates : Dict String → Dict String → Bool
tolerates taint tolerance =
    same_text (lookup "key" tolerance) (lookup "key" taint)
    && same_text (get_or (lookup "value" tolerance) (lookup "value" taint)) (lookup "value" taint)

-- The loop skips a taint of another effect, and stops at the first that nothing tolerates.
unfoldable pub taints_tolerated : List (Dict String) → List (Dict String) → Bool
unfolding tolerates
taints_tolerated [] tolerations = true
taints_tolerated (taint ∷ taints) tolerations =
    if same_text (get_or (lookup "effect" taint) (some "NoSchedule")) (some "NoSchedule")
    then any (tolerates taint) tolerations && taints_tolerated taints tolerations
    else taints_tolerated taints tolerations

unfoldable pub labels_match : Dict String → Dict String → Bool
labels_match required offered =
    all (λ (entry : String × String). same_text (lookup entry.0 offered) (some entry.1)) required

-- `device.healthy and not device.allocated`
abbrev pub is_free : GpuDeviceSnapshot → Bool
is_free d = d.healthy && not d.allocated

-- `if task.gpu_model:`, which an empty text fails too.
abbrev pub wanted_model : TaskSnapshot → Option String
wanted_model task = elim task.gpu_model [ none ↦ none | some m ↦ if m === "" then none else some m ]

unfoldable pub restrict_model :
    TaskSnapshot → List GpuDeviceSnapshot → Result RejectionReason (List GpuDeviceSnapshot)
restrict_model task available = elim (wanted_model task) [
  | none ↦ ok available
  | some model ↦
      let model_devices = keep (λ (d : GpuDeviceSnapshot). d.model === model) available in
      if ltb (length model_devices) task.gpu_count then err gpu_model_mismatch else ok model_devices
]

unfoldable pub restrict_memory :
    TaskSnapshot → List GpuDeviceSnapshot → Result RejectionReason (List GpuDeviceSnapshot)
unfolding available_gpu_memory_mb
restrict_memory task available =
    let memory_devices =
      keep (λ (d : GpuDeviceSnapshot). leb task.gpu_memory_mb (available_gpu_memory_mb d))
        available in
    if task.gpu_memory_mb == 0
    then ok available
    else if ltb (length memory_devices) task.gpu_count
    then err insufficient_gpu_memory
    else ok memory_devices

-- Best-fit keeps larger devices available for workloads that need them.
abbrev pub best_fit : Order GpuDeviceSnapshot
best_fit =
    on (λ d. available_gpu_memory_mb d) by_nat
    then_by on (λ d. d.memory_total_mb) by_nat
    then_by on (λ d. d.uuid) by_text

-- The part of `evaluate_snapshot` on accelerators.
unfoldable pub select_devices :
    TaskSnapshot → List GpuDeviceSnapshot → Result RejectionReason (List GpuDeviceSnapshot)
unfolding restrict_model restrict_memory
select_devices task devices = do
  of_model ← restrict_model task (keep is_free devices)
  available ← restrict_memory task of_model
  raise_if (ltb (length available) task.gpu_count) insufficient_gpu
  ok (take task.gpu_count (sort best_fit available))

-- `ok ids` stands for `(None, ids)`, and `err reason` for `(reason, ())`.
unfoldable pub evaluate_snapshot :
    WorkerSnapshot → TaskSnapshot → Result RejectionReason (List String)
unfolding taints_tolerated labels_match select_devices
evaluate_snapshot worker task = do
  raise_if (not (is_online worker.status)) worker_not_online
  raise_if worker.overcommitted worker_overcommitted
  raise_if (leb worker.concurrency worker.running_tasks) worker_at_capacity
  raise_if (not (any (λ r. task.runtime_type === r) worker.runtime_types)) runtime_mismatch
  raise_if
      (ltb worker.cpu_allocatable_millicores (worker.reserved_cpu_millicores + task.cpu_millicores))
      insufficient_cpu
  raise_if (ltb worker.memory_allocatable_mb (worker.reserved_memory_mb + task.memory_mb))
      insufficient_memory
  raise_if (not (labels_match task.labels worker.labels)) label_mismatch
  raise_if (not (taints_tolerated worker.taints task.tolerations)) taint_not_tolerated
  selected ← select_devices task worker.gpu_devices
  ok (map (λ (d : GpuDeviceSnapshot). d.id) selected)
