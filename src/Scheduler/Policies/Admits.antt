-- ===== src/Scheduler/Policies/Admits.antt =====
-- scheduler/policies.py: when `evaluate_snapshot` lets a task onto a worker, and which devices the
-- task then gets.
use mini_ai_cloud.Prelude.{
  ◌+◌, ◌≤◌, ◌<◌, ◌≡◌, refl, ap, ◌∙◌, inl, inr, ◌↔◌, Bool, true, false, ◌&&◌, none, some, List, ◌++◌,
  map, any, keep, take, drop, length, ◌==◌, leb, All, ok, arith, Option-cases, Bool-cases,
  length-keep-le, All-keep_test, keep-All, All-of, All-take, length-take-le, Result-cases, ok_parts,
  keep-keep, take-append-drop,
}
use mathlib.Core.List.{Perm}
use mini_ai_cloud.Prelude.Text.{String, ◌===◌}
use mini_ai_cloud.Prelude.Sort.{
  sort, sort-perm, sort-All, length-sort, sort-IsSorted, IsSorted-take-drop,
}
use mini_ai_cloud.Scheduler.Policies.Snapshots.{
  GpuDeviceSnapshot, WorkerSnapshot, TaskSnapshot, is_online, is_free, wanted_model,
  available_gpu_memory_mb, restrict_model, restrict_memory, select_devices, evaluate_snapshot,
  best_fit, labels_match, taints_tolerated,
}

abbrev has_model : TaskSnapshot → GpuDeviceSnapshot → Bool
has_model task d = elim (wanted_model task) [ none ↦ true | some m ↦ d.model === m ]

abbrev has_memory : TaskSnapshot → GpuDeviceSnapshot → Bool
has_memory task d = leb task.gpu_memory_mb (available_gpu_memory_mb d)

-- A device that may serve the task: healthy, free, of the wanted model and with enough memory.
abbrev pub suits : TaskSnapshot → GpuDeviceSnapshot → Bool
suits task d = is_free d && (has_model task d && has_memory task d)

-- The devices that the task gets.
abbrev pub chosen : TaskSnapshot → List GpuDeviceSnapshot → List GpuDeviceSnapshot
chosen task devices = take task.gpu_count (sort best_fit (keep (suits task) devices))

restrict_model-keep :
    (task : TaskSnapshot) (xs : List GpuDeviceSnapshot) {ys : List GpuDeviceSnapshot}
    → restrict_model task xs ≡ ok ys
    → ys ≡ keep (has_model task) xs
unfolding restrict_model
restrict_model-keep task xs {ys} h = elim (Option-cases (wanted_model task)) [
  | inl unset ↦ ground (
    arith,
    keep-All (has_model task) xs
        (All-of (λ d. has_model task d ≡ true) (λ d. rw (unset, has_model) refl) xs),
  )
  | inr (m, e) ↦ ground arith
]

restrict_memory-keep :
    (task : TaskSnapshot) (xs : List GpuDeviceSnapshot) {ys : List GpuDeviceSnapshot}
    → restrict_memory task xs ≡ ok ys
    → ys ≡ keep (has_memory task) xs
unfolding restrict_memory
restrict_memory-keep task xs {ys} h = elim (Bool-cases (task.gpu_memory_mb == 0)) [
  | inl zero_mb ↦ ground (
    arith,
    keep-All (has_memory task) xs (All-of (λ d. has_memory task d ≡ true) (λ d. ground arith) xs),
  )
  | inr some_mb ↦ ground arith
]

restrict_model-enough :
    (task : TaskSnapshot) (xs : List GpuDeviceSnapshot)
    → task.gpu_count ≤ length (keep (has_model task) xs)
    → restrict_model task xs ≡ ok (keep (has_model task) xs)
unfolding restrict_model
restrict_model-enough task xs enough = elim (Option-cases (wanted_model task)) [
  | inl unset ↦ ground (
    arith,
    keep-All (has_model task) xs
        (All-of (λ d. has_model task d ≡ true) (λ d. rw (unset, has_model) refl) xs),
  )
  | inr (m, e) ↦ ground arith
]

restrict_memory-enough :
    (task : TaskSnapshot) (xs : List GpuDeviceSnapshot)
    → task.gpu_count ≤ length (keep (has_memory task) xs)
    → restrict_memory task xs ≡ ok (keep (has_memory task) xs)
unfolding restrict_memory
restrict_memory-enough task xs enough = elim (Bool-cases (task.gpu_memory_mb == 0)) [
  | inl zero_mb ↦ ground (
    arith,
    keep-All (has_memory task) xs (All-of (λ d. has_memory task d ≡ true) (λ d. ground arith) xs),
  )
  | inr some_mb ↦ ground arith
]

keep-suits :
    (task : TaskSnapshot) (xs : List GpuDeviceSnapshot)
    → keep (has_memory task) (keep (has_model task) (keep is_free xs)) ≡ keep (suits task) xs
keep-suits task xs =
    keep-keep (has_memory task) (has_model task) (keep is_free xs)
    ∙ keep-keep (λ d. has_model task d && has_memory task d) is_free xs

-- The selection succeeds when enough devices suit the task, and then takes the best fitting.
pub select_devices-enough :
    (task : TaskSnapshot) (devices : List GpuDeviceSnapshot)
    → task.gpu_count ≤ length (keep (suits task) devices)
    → select_devices task devices ≡ ok (chosen task devices)
unfolding select_devices
select_devices-enough task devices enough = ground (
  arith,
  keep-suits task devices,
  restrict_model-enough task (keep is_free devices),
  restrict_memory-enough task (keep (has_model task) (keep is_free devices)),
  length-keep-le (has_memory task) (keep (has_model task) (keep is_free devices)),
)

-- It fails where fewer devices suit the task.
select_devices-suits :
    (task : TaskSnapshot) (devices : List GpuDeviceSnapshot) {selected : List GpuDeviceSnapshot}
    → select_devices task devices ≡ ok selected
    → (task.gpu_count ≤ length (keep (suits task) devices)) × (selected ≡ chosen task devices)
unfolding select_devices
select_devices-suits task devices {selected} h =
    let free = keep is_free devices in
    let (of_model, e, h₁) = ok_parts (restrict_model task free) _ h in
    let (available, e₂, h₂) = ok_parts (restrict_memory task of_model) _ h₁ in
    let available_eq : available ≡ keep (suits task) devices =
      restrict_memory-keep task of_model e₂
      ∙ ap (keep (has_memory task)) (restrict_model-keep task free e)
      ∙ keep-suits task devices in
    ground (arith, available_eq)

-- What a task and a worker need for the worker to take the task.
pub record Admits (worker : WorkerSnapshot) (task : TaskSnapshot) : Type 0 where
  pub is_up : is_online worker.status ≡ true
  pub within_allocatable : worker.overcommitted ≡ false
  pub has_slot : worker.running_tasks < worker.concurrency
  pub has_runtime : any (λ r. task.runtime_type === r) worker.runtime_types ≡ true
  pub cpu_fits :
      worker.reserved_cpu_millicores + task.cpu_millicores ≤ worker.cpu_allocatable_millicores
  pub memory_fits : worker.reserved_memory_mb + task.memory_mb ≤ worker.memory_allocatable_mb
  pub labels_offered : labels_match task.labels worker.labels ≡ true
  pub taints_met : taints_tolerated worker.taints task.tolerations ≡ true
  pub devices_suit : task.gpu_count ≤ length (keep (suits task) worker.gpu_devices)

-- A worker takes a task exactly when it is online, is not overcommitted, has a free slot, the
-- runtime, the CPU, the memory and the labels, its taints are tolerated, and enough of its devices
-- are healthy, free, of the wanted model and large enough; the task then gets the best fitting of
-- these devices.
pub evaluate_snapshot_iff :
    (worker : WorkerSnapshot) (task : TaskSnapshot) (ids : List String)
    → (evaluate_snapshot worker task ≡ ok ids) ↔ (
        Admits worker task
        × (ids ≡ map (λ (d : GpuDeviceSnapshot). d.id) (chosen task worker.gpu_devices)))
unfolding evaluate_snapshot
evaluate_snapshot_iff worker task ids = (ok→admits, admits→ok)
  where
    ok→admits :
        evaluate_snapshot worker task ≡ ok ids
        → Admits worker task
          × (ids ≡ map (λ (d : GpuDeviceSnapshot). d.id) (chosen task worker.gpu_devices))
    ok→admits h = elim (Result-cases (select_devices task worker.gpu_devices)) [
      | inl (selected, e) ↦
          ground (arith, select_devices-suits task worker.gpu_devices {selected = selected} e)
      | inr (reason, e) ↦ ground arith
    ]

    admits→ok :
        Admits worker task
          × (ids ≡ map (λ (d : GpuDeviceSnapshot). d.id) (chosen task worker.gpu_devices))
        → evaluate_snapshot worker task ≡ ok ids
    admits→ok (a, e) = ground (arith, select_devices-enough task worker.gpu_devices a.devices_suit)

-- The devices that are given out and those left over are together the healthy and free devices of
-- the worker that have the wanted model and enough memory; as many are given out as the task asks
-- for; and none that is left over fits better than one that is given out.
pub evaluate_snapshot-devices :
    (worker : WorkerSnapshot) (task : TaskSnapshot) {ids : List String}
    → evaluate_snapshot worker task ≡ ok ids
    → (devices left : List GpuDeviceSnapshot) × (ids
        ≡ map (λ (d : GpuDeviceSnapshot). d.id) devices)
      × Perm (devices ++ left) (keep (suits task) worker.gpu_devices)
      × (length devices ≡ task.gpu_count)
      × All (λ d. suits task d ≡ true) devices
      × All (λ c. All (λ d. best_fit.le c d ≡ true) left) devices
evaluate_snapshot-devices worker task {ids} h =
    let (a, e) = (evaluate_snapshot_iff worker task ids).0 h in
    let suitable = keep (suits task) worker.gpu_devices in
    let sorted = sort best_fit suitable in
    (
      take task.gpu_count sorted,
      drop task.gpu_count sorted,
      e,
      rw (take-append-drop task.gpu_count sorted) (sort-perm best_fit suitable),
      length-take-le task.gpu_count sorted
          (omega (arith, a.devices_suit, length-sort best_fit suitable)),
      All-take (λ d. suits task d ≡ true) task.gpu_count sorted
          (sort-All best_fit (λ d. suits task d ≡ true) suitable
            (All-keep_test (suits task) worker.gpu_devices)),
      IsSorted-take-drop best_fit task.gpu_count sorted (sort-IsSorted best_fit suitable),
    )
