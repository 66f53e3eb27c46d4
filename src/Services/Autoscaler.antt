-- ===== src/Services/Autoscaler.antt =====
-- api/services/autoscaler.py: how many replicas a load asks for, and whether the load may be acted on.
-- A time is a number of microseconds since the epoch, a duration one of microseconds. The quotient
-- of the source is one of floats: rounded up it is the number here for a load below 2^53.
pub mod Scaling
mod Examples
use mini_ai_cloud.Prelude.{
  ℕ, ◌+◌, ◌-◌, ◌*◌, ◌/◌, max, min, Bool, true, false, ◌&&◌, Option, none, some, leb, ltb,
  if◌then◌else◌,
}
use mini_ai_cloud.Prelude.Int.{ℤ, pos, negsuc}

-- The columns of a service that the autoscaler reads.
pub record ModelService : Type 0 where
  pub autoscaling_min_replicas : ℕ
  pub autoscaling_max_replicas : ℕ
  pub autoscaling_target_concurrency : ℕ
  pub autoscaling_cooldown_seconds : ℕ
  pub last_scaled_at : Option ℕ

pub record ServiceLoad : Type 0 where
  pub active_requests : ℤ
  pub observed_at : ℕ

-- `math.ceil(a / b)`
abbrev pub ceil_div : ℕ → ℕ → ℕ
ceil_div a b = (a + b - 1) / b

unfoldable pub minimum_replicas : ModelService → Bool → ℕ
minimum_replicas s scale_to_zero_enabled =
    if scale_to_zero_enabled then s.autoscaling_min_replicas else max 1 s.autoscaling_min_replicas

-- It is called for a load that is usable, which is not negative.
unfoldable pub target_replicas : ModelService → ℕ → Bool → ℕ
unfolding minimum_replicas
target_replicas s active_requests scale_to_zero_enabled =
    let requested = ceil_div active_requests s.autoscaling_target_concurrency in
    min s.autoscaling_max_replicas (max (minimum_replicas s scale_to_zero_enabled) requested)

-- `elapsed < cooldown`, with the time of the last change carried to the other side.
unfoldable pub in_cooldown : ModelService → ℕ → Bool
in_cooldown s now = elim s.last_scaled_at [
  | none ↦ false
  | some scaled ↦ ltb now (scaled + s.autoscaling_cooldown_seconds * 1000000)
]

-- `-5.0 <= age <= max_age_seconds`, with the time of the observation carried to the other side.
unfoldable pub usable_load : Option ServiceLoad → ℕ → ℕ → Bool
usable_load none now max_age = false
usable_load (some load) now max_age = elim load.active_requests [
  | negsuc n ↦ false
  | pos n ↦ leb load.observed_at (now + 5000000) && leb now (load.observed_at + max_age)
]
