-- ===== src/Services/Autoscaler/Examples.antt =====
-- Runs of api/services/autoscaler.py.
use mini_ai_cloud.Prelude.{◌≡◌, refl, arith, true, false, some}
use mini_ai_cloud.Prelude.Int.{pos, negsuc}
use mini_ai_cloud.Services.Autoscaler.{
  ModelService, minimum_replicas, target_replicas, in_cooldown, usable_load,
}
use mini_ai_cloud.Services.Autoscaler.Scaling.{IsScalable, SuitsLoad, target_replicas-SuitsLoad}

abbrev service : ModelService
service = record {
  autoscaling_min_replicas = 0;
  autoscaling_max_replicas = 4;
  autoscaling_target_concurrency = 8;
  autoscaling_cooldown_seconds = 60;
  last_scaled_at = some 1000000;
}

seventeen : target_replicas service 17 false ≡ 3
unfolding target_replicas minimum_replicas
seventeen = refl

idle : target_replicas service 0 false ≡ 1
unfolding target_replicas minimum_replicas
idle = refl

-- The cooldown ends as the sixtieth second does.
cooling : in_cooldown service 60999999 ≡ true
unfolding in_cooldown
cooling = refl

cool : in_cooldown service 61000000 ≡ false
unfolding in_cooldown
cool = refl

-- An observation may be five seconds ahead of the database's clock.
ahead :
    usable_load
      (some (record { active_requests = pos 3; observed_at = 15000000 }))
      10000000
      30000000
    ≡ true
unfolding usable_load
ahead = refl

negative :
    usable_load
      (some (record { active_requests = negsuc 0; observed_at = 10000000 }))
      10000000
      30000000
    ≡ false
unfolding usable_load
negative = refl

scalable : IsScalable service
scalable = record { some_replica = omega arith; ordered = omega arith; concurrency = omega arith }

target_replicas-SuitsLoad_example : SuitsLoad service 17 false (target_replicas service 17 false)
target_replicas-SuitsLoad_example = target_replicas-SuitsLoad service 17 false scalable
