-- ===== src/Scheduler/Policies/Examples.antt =====
-- Runs of scheduler/policies.py on one small cluster.
use mini_ai_cloud.Prelude.{
  ℕ, ◌≡◌, refl, ◌≤◌, Bool, true, false, Option, none, some, List, [], ◌∷◌, ok, arith, length, All,
  keep, ◌++◌, ◌*◌, ◌/◌, ◌-◌, ◌+◌, map, leb,
}
use mathlib.Core.List.{Perm}
use mini_ai_cloud.Prelude.Text.{String, lookup, insert}
use mini_ai_cloud.Prelude.Order.{by_nat, list_le}
use mini_ai_cloud.Prelude.Sort.{sort}
use mini_ai_cloud.Prelude.Floats.{Floats}
use mini_ai_cloud.Core.Enums.{online, queued}
use mini_ai_cloud.Scheduler.Policies.Snapshots.{
  GpuDeviceSnapshot, WorkerSnapshot, TaskSnapshot, evaluate_snapshot, best_fit, insufficient_cpu,
  insufficient_gpu_memory, labels_match,
}
use mini_ai_cloud.Scheduler.Policies.Placements.{
  choose_placement, effective_priority, place, consider,
}
use mini_ai_cloud.Scheduler.Policies.Admits.{
  Admits, evaluate_snapshot_iff, evaluate_snapshot-devices, suits,
}
use mini_ai_cloud.Scheduler.Policies.Choice.{
  choose_placement-best, choose_placement-none, NoBetter, Reported,
}
use mini_ai_cloud.Scheduler.Policies.Priority.{
  effective_priority_bounds, effective_priority_mono, effective_priority_no_starvation,
}
use mini_ai_cloud.Scheduler.Policies.Precheck.{
  Worker, Task, evaluate, allowed, evaluate_unavailable, evaluate_allowed, worker_accepts_new_tasks,
}

-- Floats as whole numbers of thousandths, the smaller the better: enough to run the scoring.
abbrev thousandths : Floats
thousandths = record {
  F = ℕ;
  ratio = λ a b. a * 1000 / b;
  of_nat = λ n. n * 1000;
  add = λ a b. a + b;
  mul = λ a b. a * b / 1000;
  div = λ a b. a * 1000 / b;
  round = λ a. a / 1000;
  neg = λ a. 1_000_000 - a;
  order = by_nat;
}

abbrev device : String → String → ℕ → Bool → GpuDeviceSnapshot
device id model memory allocated = record {
  id = id;
  uuid = id;
  model = model;
  memory_total_mb = memory;
  memory_free_mb = none;
  healthy = true;
  allocated = allocated;
}

abbrev worker : String → ℕ → List GpuDeviceSnapshot → WorkerSnapshot
worker id reserved devices = record {
  id = id;
  status = online;
  runtime_types = "docker" ∷ [];
  running_tasks = 1;
  concurrency = 4;
  cpu_allocatable_millicores = 8000;
  reserved_cpu_millicores = reserved;
  memory_allocatable_mb = 16_384;
  reserved_memory_mb = 1024;
  labels = ("zone", "a") ∷ [];
  taints = (("key", "gpu") ∷ ("value", "only") ∷ []) ∷ [];
  gpu_devices = devices;
  overcommitted = false;
}

abbrev job : ℕ → Option String → TaskSnapshot
job gpus model = record {
  id = "t1";
  project_id = "p";
  status = queued;
  runtime_type = "docker";
  cpu_millicores = 1000;
  memory_mb = 2048;
  gpu_count = gpus;
  gpu_memory_mb = 4096;
  gpu_model = model;
  labels = ("zone", "a") ∷ [];
  tolerations = (("key", "gpu") ∷ []) ∷ [];
  priority = 50;
  queued_at = some 5_000_000;
  queue_order = 0;
}

abbrev mixed : List GpuDeviceSnapshot
mixed =
    device "g1" "a100" 40_960 false
    ∷ device "g2" "t4" 16_384 false
    ∷ device "g3" "t4" 8192 true
    ∷ device "g4" "t4" 8192 false
    ∷ []

abbrev cluster : List WorkerSnapshot
cluster = worker "w1" 7500 mixed ∷ worker "w2" 2000 mixed ∷ worker "w3" 4000 [] ∷ []

-- The smallest free device is taken; the one with 8 GiB that is allocated is not.
evaluate-mixed : evaluate_snapshot (worker "w2" 2000 mixed) (job 1 none) ≡ ok ("g4" ∷ [])
unfolding evaluate_snapshot sort lookup
evaluate-mixed = refl

abbrev w2 : WorkerSnapshot
w2 = worker "w2" 2000 mixed

-- On the cluster the first worker lacks CPU, and the second is fuller than the third.
choose-cluster :
    choose_placement thousandths (job 1 none) cluster "binpack"
    ≡ ok (
      some (place thousandths "binpack" (job 1 none) w2 ("g4" ∷ [])),
      ("w1", insufficient_cpu) ∷ ("w3", insufficient_gpu_memory) ∷ [],
    )
unfolding choose_placement evaluate_snapshot sort insert place consider list_le lookup
choose-cluster = refl

choose-none :
    choose_placement thousandths (job 9 none) (w2 ∷ []) "spread"
    ≡ ok (none, ("w2", insufficient_gpu_memory) ∷ [])
unfolding choose_placement evaluate_snapshot sort insert place consider list_le lookup
choose-none = refl

evaluate_snapshot_iff_example : Admits w2 (job 1 none)
evaluate_snapshot_iff_example =
    ((evaluate_snapshot_iff w2 (job 1 none) ("g4" ∷ [])).0 evaluate-mixed).0

evaluate_snapshot-devices_example :
    (devices left : List GpuDeviceSnapshot) × ("g4" ∷ []
      ≡ map (λ (d : GpuDeviceSnapshot). d.id) devices)
    × Perm (devices ++ left) (keep (suits (job 1 none)) mixed)
    × (length devices ≡ 1)
    × All (λ d. suits (job 1 none) d ≡ true) devices
    × All (λ c. All (λ d. best_fit.le c d ≡ true) left) devices
evaluate_snapshot-devices_example = evaluate_snapshot-devices w2 (job 1 none) evaluate-mixed

choose_placement-best_example :
    All
      (NoBetter thousandths "binpack"
        (job 1 none)
        (place thousandths "binpack" (job 1 none) w2 ("g4" ∷ [])))
      cluster
choose_placement-best_example =
    (choose_placement-best thousandths (job 1 none) cluster "binpack" choose-cluster).1

choose_placement-none_example :
    All
      (Reported thousandths "spread" (job 9 none) (("w2", insufficient_gpu_memory) ∷ []))
      (w2 ∷ [])
choose_placement-none_example =
    choose_placement-none thousandths (job 9 none) (w2 ∷ []) "spread" choose-none

aged : effective_priority (job 1 none) 65_000_000 10 ≡ ok 56
unfolding effective_priority
aged = refl

aged_later : effective_priority (job 1 none) 75_000_000 10 ≡ ok 57
unfolding effective_priority
aged_later = refl

effective_priority_bounds_example : (50 ≤ 56) × (56 ≤ 100)
effective_priority_bounds_example =
    effective_priority_bounds (job 1 none) 65_000_000 10 (omega arith) aged

effective_priority_mono_example : 56 ≤ 57
effective_priority_mono_example =
    effective_priority_mono (job 1 none) 65_000_000 75_000_000 10 (omega arith) aged aged_later

effective_priority_no_starvation_example : effective_priority (job 1 none) 2_000_000_000 10 ≡ ok 100
effective_priority_no_starvation_example =
    effective_priority_no_starvation (job 1 none) 5_000_000 2_000_000_000 10 refl (omega arith)
      (omega arith)

abbrev stored_worker : ℕ → Worker thousandths
stored_worker running = record {
  status = online;
  running_tasks = running;
  concurrency = 2;
  reserved_cpu = 500;
  cpu_count = 4;
  reserved_memory_mb = 1024;
  memory_total_mb = 8192;
  reserved_gpus = 0;
  gpu_count = 1;
  labels = ("zone", "a") ∷ [];
}

abbrev stored_task : Task thousandths
stored_task = record {
  status = queued;
  cancel_requested = false;
  cpu_limit = 1000;
  memory_limit_mb = 256;
  gpu_count = 1;
  labels = ("zone", "a") ∷ [];
}

full : worker_accepts_new_tasks thousandths (some (stored_worker 2)) ≡ false
unfolding worker_accepts_new_tasks
full = refl

passes : evaluate thousandths (some (stored_worker 1)) (some stored_task) ≡ allowed
unfolding evaluate lookup
passes = refl

evaluate_unavailable_example :
    evaluate thousandths (some (stored_worker 2)) (some stored_task)
    ≡ evaluate thousandths (some (stored_worker 2)) none
evaluate_unavailable_example =
    (evaluate_unavailable thousandths (some (stored_worker 2)) (some stored_task) full).0

evaluate_allowed_example :
    (w : Worker thousandths) × (t : Task thousandths) × (some (stored_worker 1) ≡ some w)
    × (some stored_task ≡ some t)
    × (worker_accepts_new_tasks thousandths (some w) ≡ true)
    × (t.status ≡ queued)
    × (t.cancel_requested ≡ false)
    × (leb (w.reserved_cpu + t.cpu_limit) (w.cpu_count * 1000) ≡ true)
    × (w.reserved_memory_mb + t.memory_limit_mb ≤ w.memory_total_mb)
    × (w.reserved_gpus + t.gpu_count ≤ w.gpu_count)
    × (labels_match t.labels w.labels ≡ true)
evaluate_allowed_example =
    evaluate_allowed thousandths (some (stored_worker 1)) (some stored_task) passes
