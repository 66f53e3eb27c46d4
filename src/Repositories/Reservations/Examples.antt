-- ===== src/Repositories/Reservations/Examples.antt =====
-- repositories/reservations.py: an observation of two devices.
use mini_ai_cloud.Prelude.{◌≡◌, refl, Bool, true, false, none, some, List, [], ◌∷◌, ok, err}
use mini_ai_cloud.Prelude.Text.{String}
use mini_ai_cloud.Repositories.Reservations.Observation.{
  Observed, Rows, duplicate_id, normalize_observation, observed_of, record_observed_allocation,
}
use mini_ai_cloud.Repositories.Reservations.Once.{record_observed_allocation_once}

abbrev nothing_yet : Observed
nothing_yet = record { device_ids = none; vendor = none; at = none }

abbrev before : Rows
before = record {
  reservation = some (record {
    allocation_authority = "kubernetes_device_plugin";
    requested_vendor = some "nvidia";
    gpu_count = 2;
    released_at = none;
    observed = nothing_yet;
    version = 1;
  });
  execution =
      some
        (record { allocation_authority = some "kubernetes_device_plugin"; observed = nothing_yet });
  exact_links = 0;
}

abbrev seen : Observed
seen = observed_of (record { vendor = "nvidia"; device_ids = "gpu-a" ∷ "gpu-b" ∷ [] }) 70

abbrev after : Rows
after = record {
  reservation = some (record {
    allocation_authority = "kubernetes_device_plugin";
    requested_vendor = some "nvidia";
    gpu_count = 2;
    released_at = none;
    observed = seen;
    version = 2;
  });
  execution =
      some (record { allocation_authority = some "kubernetes_device_plugin"; observed = seen });
  exact_links = 0;
}

abbrev given : List String
given = " gpu-a" ∷ "gpu-b " ∷ []

normalize_observation_example :
    normalize_observation "nvidia" (" gpu-a" ∷ "gpu-a" ∷ []) ≡ err duplicate_id
unfolding normalize_observation
normalize_observation_example = refl

first_call : record_observed_allocation before "nvidia" given 70 ≡ ok (true, after)
unfolding record_observed_allocation
first_call = refl

record_observed_allocation_once_example :
    ((b2 : Bool) (last : Rows)
      → record_observed_allocation after "nvidia" given 95 ≡ ok (b2, last)
      → (b2 ≡ false) × (last ≡ after))
    × (normalize_observation "nvidia" given ≡ normalize_observation "nvidia" given
        → record_observed_allocation after "nvidia" given 95 ≡ ok (false, after))
record_observed_allocation_once_example =
    record_observed_allocation_once before "nvidia" given 70 first_call "nvidia" given 95
