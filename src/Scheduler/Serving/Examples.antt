-- ===== src/Scheduler/Serving/Examples.antt =====
-- Runs of scheduler/serving.py on two workers.
use mini_ai_cloud.Prelude.{ℕ, ◌≡◌, refl, false, none, some, List, [], ◌∷◌, ok, err, arith, inl}
use mini_ai_cloud.Prelude.Int.{pos, negsuc}
use mini_ai_cloud.Prelude.Text.{String, is_blank, insert, write_all}
use mini_ai_cloud.Prelude.Order.{list_le}
use mini_ai_cloud.Prelude.Sort.{sort}
use mini_ai_cloud.Scheduler.Serving.{
  ServingGpuDeviceSnapshot, ServingWorkerSnapshot, ServingPlacementRequest, ServingPlacement,
  choose_single_node_gang_placement, negative_requirement, Outcome,
}
use mini_ai_cloud.Scheduler.Serving.Decision.{
  Decided, Asks, choose_single_node_gang_placement-Decided,
  choose_single_node_gang_placement_complete,
}

abbrev device : String → ℕ → ℕ → ServingGpuDeviceSnapshot
device uuid index memory = record {
  uuid = uuid;
  index = index;
  model = "a100";
  memory_free_mb = memory;
  fake = false;
}

abbrev workers : List ServingWorkerSnapshot
workers =
    record {
      id = "w1";
      gpu_devices = device "a" 0 4000 ∷ device "b" 1 9000 ∷ device "c" 2 8000 ∷ [];
    }
    ∷ record { id = "w2"; gpu_devices = device "d" 0 8000 ∷ [] }
    ∷ []

abbrev request : ServingPlacementRequest
request = record {
  gpu_count = pos 2;
  gpu_model = some "a100";
  gpu_memory_mb = pos 6000;
  allow_fake = false;
}

-- The two devices with enough memory, the smaller first.
two_gpus :
    choose_single_node_gang_placement request workers
    ≡ ok (some (record { worker_id = "w1"; gpu_device_ids = "c" ∷ "b" ∷ [] }), none)
unfolding choose_single_node_gang_placement is_blank insert sort list_le write_all
two_gpus = refl

negative :
    choose_single_node_gang_placement (record request { gpu_count = negsuc 0 }) workers
    ≡ err negative_requirement
unfolding choose_single_node_gang_placement
negative = refl

asked : Asks request 2 6000
unfolding is_blank
asked = (refl, refl, refl, omega arith)

choose_single_node_gang_placement-Decided_example :
    (out : Outcome) × (choose_single_node_gang_placement request workers ≡ ok out)
    × Decided request 2 6000 workers out
choose_single_node_gang_placement-Decided_example =
    choose_single_node_gang_placement-Decided request 2 6000 workers asked (refl, (refl, tt))

choose_single_node_gang_placement_complete_example :
    (p : ServingPlacement) × (choose_single_node_gang_placement request workers ≡ ok (some p, none))
choose_single_node_gang_placement_complete_example =
    choose_single_node_gang_placement_complete request 2 6000 workers asked (refl, (refl, tt))
      (inl (omega arith))
