-- ===== src/Scheduler/Policies/Placements.antt =====
-- scheduler/policies.py: `choose_placement`, `effective_priority` and `dominant_share`.
use mini_ai_cloud.Prelude.{
  ℕ, ◌+◌, ◌-◌, ◌*◌, ◌/◌, min, max, Bool, not, ◌&&◌, ◌||◌, Option, none, some, List, [], ◌∷◌, ◌++◌,
  keep, length, ◌==◌, if◌then◌else◌, Result, ok, err,
}
use mini_ai_cloud.Prelude.Text.{String, Dict, insert, ◌===◌, by_text}
use mini_ai_cloud.Prelude.Order.{Order, on, by_list, ◌then_by◌}
use mini_ai_cloud.Prelude.Sort.{sort}
use mini_ai_cloud.Prelude.Floats.{Floats, float_max}
use mini_ai_cloud.Scheduler.Policies.Snapshots.{
  GpuDeviceSnapshot, WorkerSnapshot, TaskSnapshot, RejectionReason, evaluate_snapshot,
}

pub data PolicyError : Type 0 where
  aging_interval_too_short unknown_policy : PolicyError

-- `int(waited // aging_interval_seconds)`, the wait in microseconds.
unfoldable pub effective_priority : TaskSnapshot → ℕ → ℕ → Result PolicyError ℕ
effective_priority task now aging_interval_seconds =
    if aging_interval_seconds == 0 then err aging_interval_too_short else elim task.queued_at [
      | none ↦ ok task.priority
      | some queued_at ↦
          ok (min 100 (task.priority + (now - queued_at) / (aging_interval_seconds * 1_000_000)))
    ]

-- `placements[0]`, or `None` where there is none.
abbrev pub first {ℓ} : {A : Type ℓ} → List A → Option A
first [] = none
first (x ∷ xs) = some x

module _ (fl : Floats) where
  pub record Placement : Type 0 where
    pub worker_id : String
    pub gpu_device_ids : List String
    pub score : List fl.F

  unfoldable pub dominant_share : ℕ → ℕ → ℕ → ℕ → ℕ → ℕ → fl.F
  unfolding float_max
  dominant_share cpu memory gpus cluster_cpu cluster_memory cluster_gpus =
      float_max fl
        (float_max fl (fl.ratio cpu (max 1 cluster_cpu)) (fl.ratio memory (max 1 cluster_memory)))
        (if not (cluster_gpus == 0)
          then fl.ratio gpus (max 1 cluster_gpus)
          else if not (gpus == 0)
          then fl.of_nat 1
          else fl.of_nat 0)

  -- `sum(device.allocated for device in devices)`
  pub allocated_count : List GpuDeviceSnapshot → ℕ
  allocated_count devices = length (keep (λ (d : GpuDeviceSnapshot). d.allocated) devices)

  abbrev pub has_devices : WorkerSnapshot → Bool
  has_devices worker = not (length worker.gpu_devices == 0)

  -- The body of the loop for a worker that takes the task.
  unfoldable pub place : String → TaskSnapshot → WorkerSnapshot → List String → Placement
  unfolding allocated_count float_max
  place policy task worker device_ids =
      let cpu_fraction =
        fl.ratio (worker.reserved_cpu_millicores + task.cpu_millicores)
          (max 1 worker.cpu_allocatable_millicores) in
      let memory_fraction =
        fl.ratio (worker.reserved_memory_mb + task.memory_mb)
          (max 1 worker.memory_allocatable_mb) in
      let gpu_fraction : fl.F =
        if has_devices worker
        then fl.ratio (allocated_count worker.gpu_devices + task.gpu_count)
            (max 1 (length worker.gpu_devices))
        else fl.of_nat 0 in
      let dominant = float_max fl (float_max fl cpu_fraction memory_fraction) gpu_fraction in
      let scarce_gpu_penalty : fl.F =
        if task.gpu_count == 0 && has_devices worker then fl.of_nat 1 else fl.of_nat 0 in
      record {
        worker_id = worker.id;
        gpu_device_ids = device_ids;
        score =
            if policy === "spread"
            then dominant ∷ scarce_gpu_penalty ∷ fl.of_nat worker.running_tasks ∷ []
            else scarce_gpu_penalty
              ∷ fl.neg dominant
              ∷ fl.neg cpu_fraction
              ∷ fl.neg memory_fraction
              ∷ [];
      }

  -- `(*item.score, item.worker_id, item.gpu_device_ids)`
  abbrev pub by_score : Order Placement
  by_score =
      on (λ p. p.score) (by_list fl.order)
      then_by on (λ p. p.worker_id) by_text
      then_by on (λ p. p.gpu_device_ids) (by_list by_text)

  -- `placements` and `rejected`
  abbrev pub Scan : Type 0
  Scan = List Placement × Dict RejectionReason

  unfoldable pub consider : String → TaskSnapshot → Scan → WorkerSnapshot → Scan
  consider policy task (placements, rejected) worker = elim (evaluate_snapshot worker task) [
    | ok device_ids ↦ (placements ++ place policy task worker device_ids ∷ [], rejected)
    | err reason ↦ (placements, insert worker.id reason rejected)
  ]

  unfoldable pub scan : String → TaskSnapshot → Scan → List WorkerSnapshot → Scan
  scan policy task s [] = s
  scan policy task s (worker ∷ workers) = scan policy task (consider policy task s worker) workers

  unfoldable pub choose_placement :
      TaskSnapshot
      → List WorkerSnapshot
      → String
      → Result PolicyError (Option Placement × Dict RejectionReason)
  unfolding scan
  choose_placement task workers policy =
      if not (policy === "binpack" || policy === "spread")
      then err unknown_policy
      else let (placements, rejected) = scan policy task ([], []) workers in
        ok (first (sort by_score placements), rejected)
