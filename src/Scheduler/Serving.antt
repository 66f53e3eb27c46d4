-- ===== src/Scheduler/Serving.antt =====
-- scheduler/serving.py: all GPUs of one replica come from one worker, or none is placed. The two
-- amounts that a request carries may be negative, and are refused then.
pub mod Gang
pub mod Choice
pub mod Decision
mod Examples
use mini_ai_cloud.Prelude.{
  ℕ, ◌+◌, ◌-◌, max, ◌≡◌, Bool, true, false, not, ◌&&◌, ◌||◌, Option, none, some, List, [], ◌∷◌, map,
  keep, take, length, ◌==◌, ltb, leb, if◌then◌else◌, Result, ok, err, ◌>>=◌, ◌>>◌, raise_if,
}
use mini_ai_cloud.Prelude.Int.{ℤ, pos, negsuc}
use mini_ai_cloud.Prelude.Text.{String, Dict, write_all, ◌===◌, by_text, is_blank}
use mini_ai_cloud.Prelude.Order.{Order, on, by_nat, by_list, ◌then_by◌}
use mini_ai_cloud.Prelude.Sort.{sort}

pub data ServingPlacementReason : Type 0 where
  insufficient_contiguous_gpus gpu_model_mismatch insufficient_gpu_memory : ServingPlacementReason

pub record ServingGpuDeviceSnapshot : Type 0 where
  pub uuid : String
  pub index : ℕ
  pub model : String
  pub memory_free_mb : ℕ
  pub fake : Bool

pub record ServingWorkerSnapshot : Type 0 where
  pub id : String
  pub gpu_devices : List ServingGpuDeviceSnapshot

pub record ServingPlacementRequest : Type 0 where
  pub gpu_count : ℤ
  pub gpu_model : Option String
  pub gpu_memory_mb : ℤ
  pub allow_fake : Bool

pub record ServingPlacement : Type 0 where
  pub worker_id : String
  pub gpu_device_ids : List String

pub record ServingPlacementExplain : Type 0 where
  pub reason : ServingPlacementReason
  pub requested_gpu_count : ℤ
  pub largest_available_worker_gpu_count : ℕ
  pub requested_gpu_model : Option String
  pub required_gpu_memory_mb : ℤ

pub data ServingError : Type 0 where
  negative_requirement blank_model : ServingError

pub explain : ServingPlacementRequest → ServingPlacementReason → ℕ → ServingPlacementExplain
explain request reason largest = record {
  reason = reason;
  requested_gpu_count = request.gpu_count;
  largest_available_worker_gpu_count = largest;
  requested_gpu_model = request.gpu_model;
  required_gpu_memory_mb = request.gpu_memory_mb;
}

-- What the call returns: a placement, or an explanation.
abbrev pub Outcome : Type 0
Outcome = Option ServingPlacement × Option ServingPlacementExplain

-- The devices that each worker can offer.
abbrev pub Offers : Type 0
Offers = Dict (List ServingGpuDeviceSnapshot)

-- `request.allow_fake or not device.fake`
abbrev pub is_usable : Bool → ServingGpuDeviceSnapshot → Bool
is_usable allow_fake d = allow_fake || not d.fake

-- `gpu_model is None or device.model == gpu_model`
abbrev pub has_model : Option String → ServingGpuDeviceSnapshot → Bool
has_model none d = true
has_model (some m) d = d.model === m

abbrev pub has_memory : ℕ → ServingGpuDeviceSnapshot → Bool
has_memory memory d = leb memory d.memory_free_mb

-- `{worker.id: tuple(device for ... if allowed) for worker in workers}`
pub available_by_worker : Bool → List ServingWorkerSnapshot → Offers
available_by_worker allow_fake workers =
    write_all [] (
      map (λ (w : ServingWorkerSnapshot). (w.id, keep (is_usable allow_fake) w.gpu_devices))
        workers)

-- `{worker_id: tuple(device for device in devices if test) for worker_id, devices in ...}`
pub narrow : (ServingGpuDeviceSnapshot → Bool) → Offers → Offers
narrow test [] = []
narrow test (offer ∷ offers) = (offer.0, keep test offer.1) ∷ narrow test offers

-- `max((len(devices) for devices in offers.values()), default=0)`
pub largest : Offers → ℕ
largest [] = 0
largest (offer ∷ offers) = max (length offer.1) (largest offers)

pub best_fit : Order ServingGpuDeviceSnapshot
best_fit =
    on (λ d. d.memory_free_mb) by_nat
    then_by on (λ d. d.index) by_nat
    then_by on (λ d. d.uuid) by_text

abbrev pub memory_sum : List ServingGpuDeviceSnapshot → ℕ
memory_sum [] = 0
memory_sum (d ∷ ds) = d.memory_free_mb + memory_sum ds

pub record Candidate : Type 0 where
  pub spare : ℕ
  pub memory : ℕ
  pub placement : ServingPlacement

pub candidate : ℕ → String × List ServingGpuDeviceSnapshot → Candidate
unfolding best_fit
candidate count (worker_id, devices) =
    let selected = take count (sort best_fit devices) in
    record {
      spare = length devices - count;
      memory = memory_sum selected;
      placement = record {
        worker_id = worker_id;
        gpu_device_ids = map (λ (d : ServingGpuDeviceSnapshot). d.uuid) selected;
      };
    }

-- The loop over the offers skips those that are too small.
pub candidates : ℕ → Offers → List Candidate
unfolding candidate
candidates count [] = []
candidates count (offer ∷ offers) =
    if ltb (length offer.1) count
    then candidates count offers
    else candidate count offer ∷ candidates count offers

pub by_score : Order Candidate
by_score =
    on (λ c. c.spare) by_nat
    then_by on (λ c. c.memory) by_nat
    then_by on (λ c. c.placement.worker_id) by_text
    then_by on (λ c. c.placement.gpu_device_ids) (by_list by_text)

abbrev pub first_placement : List Candidate → Option ServingPlacement
first_placement [] = none
first_placement (c ∷ cs) = some c.placement

abbrev pub first_id : List String → Option ServingPlacement
first_id [] = none
first_id (id ∷ ids) = some (record { worker_id = id; gpu_device_ids = [] })

-- `min(worker.id for worker in workers)`, and an explanation where there is no worker.
pub place_without_gpu : ServingPlacementRequest → List ServingWorkerSnapshot → Outcome
unfolding explain
place_without_gpu request [] = (none, some (explain request insufficient_contiguous_gpus 0))
place_without_gpu request (w ∷ ws) =
    (first_id (sort by_text (map (λ (v : ServingWorkerSnapshot). v.id) (w ∷ ws))), none)

pub place_gang : ServingPlacementRequest → ℕ → ℕ → List ServingWorkerSnapshot → Outcome
unfolding explain available_by_worker narrow largest candidates by_score
place_gang request count memory workers =
    let available = available_by_worker request.allow_fake workers in
    let of_model = narrow (has_model request.gpu_model) available in
    let eligible = narrow (has_memory memory) of_model in
    if ltb (largest available) count
    then (none, some (explain request insufficient_contiguous_gpus (largest available)))
    else if ltb (largest of_model) count
    then (none, some (explain request gpu_model_mismatch (largest of_model)))
    else if ltb (largest eligible) count
    then (none, some (explain request insufficient_gpu_memory (largest eligible)))
    else (first_placement (sort by_score (candidates count eligible)), none)

-- A number that is not negative.
pub natural : ℤ → Result ServingError ℕ
natural (pos n) = ok n
natural (negsuc n) = err negative_requirement

abbrev pub is_blank_model : Option String → Bool
is_blank_model none = false
is_blank_model (some m) = is_blank m

pub choose_single_node_gang_placement :
    ServingPlacementRequest → List ServingWorkerSnapshot → Result ServingError Outcome
unfolding natural place_without_gpu place_gang
choose_single_node_gang_placement request workers = do
  count ← natural request.gpu_count
  memory ← natural request.gpu_memory_mb
  raise_if (is_blank_model request.gpu_model) blank_model
  ok (
      if count == 0
      then place_without_gpu request workers
      else place_gang request count memory workers)
