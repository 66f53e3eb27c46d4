-- ===== src/Services/Autoscaler/Scaling.antt =====
-- api/services/autoscaler.py: the target lies within the bounds of the service and suits the load.
use mini_ai_cloud.Prelude.{
  ℕ, ◌+◌, ◌-◌, ◌*◌, ◌≤◌, ◌<◌, max, min, ◌≡◌, refl, subst, ◌⊎◌, inl, inr, Bool, arith,
}
use native.Mathlib.Nat.{div-mul-le_self, lt-div-mul-add, mul-le-mul_right}
use mini_ai_cloud.Services.Autoscaler.{ModelService, ceil_div, minimum_replicas, target_replicas}

-- What the columns are constrained to.
pub record IsScalable (s : ModelService) : Type 0 where
  pub some_replica : 1 ≤ s.autoscaling_max_replicas
  pub ordered : s.autoscaling_min_replicas ≤ s.autoscaling_max_replicas
  pub concurrency : 1 ≤ s.autoscaling_target_concurrency

pub record SuitsLoad (s : ModelService) (active : ℕ) (to_zero : Bool) (target : ℕ) : Type 0 where
  pub at_least : minimum_replicas s to_zero ≤ target
  pub at_most : target ≤ s.autoscaling_max_replicas
  pub enough :
      (target ≡ s.autoscaling_max_replicas) ⊎ (active ≤ target * s.autoscaling_target_concurrency)
  pub not_more :
      (target ≡ minimum_replicas s to_zero)
      ⊎ (target * s.autoscaling_target_concurrency < active + s.autoscaling_target_concurrency)

ceil_div-enough : (a b : ℕ) → 1 ≤ b → a ≤ ceil_div a b * b
ceil_div-enough a b h = omega (arith, h, lt-div-mul-add {a = a + b - 1} {b = b} h)

ceil_div-tight : (a b : ℕ) → 1 ≤ b → ceil_div a b * b < a + b
ceil_div-tight a b h = omega (arith, h, div-mul-le_self (a + b - 1) b)

minimum-le :
    (s : ModelService) (to_zero : Bool)
    → IsScalable s
    → minimum_replicas s to_zero ≤ s.autoscaling_max_replicas
unfolding minimum_replicas
minimum-le s to_zero ok = ground (arith, ok.some_replica, ok.ordered)

-- A number kept within bounds is one of the two bounds, or is left as it is.
data Kept (least most r : ℕ) : ℕ → Type 0 where
  raised : r ≤ least → Kept least most r least
  inside : least ≤ r → r ≤ most → Kept least most r r
  lowered : least ≤ most → most ≤ r → Kept least most r most

order : (a b : ℕ) → (a ≤ b) ⊎ (b ≤ a)
order a b = omega arith

kept : (least most r : ℕ) → least ≤ most → Kept least most r (min most (max least r))
kept least most r h = elim (order r least) [
  | inl p ↦ subst (Kept least most r) (omega (arith, p, h)) (raised p)
  | inr p ↦ elim (order r most) [
    | inl q ↦ subst (Kept least most r) (omega (arith, p, q)) (inside p q)
    | inr q ↦ subst (Kept least most r) (omega (arith, p, q)) (lowered h q)
  ]
]

suits :
    (s : ModelService) (active : ℕ) (to_zero : Bool) (r n : ℕ)
    → Kept (minimum_replicas s to_zero) s.autoscaling_max_replicas r n
    → minimum_replicas s to_zero ≤ s.autoscaling_max_replicas
    → active ≤ r * s.autoscaling_target_concurrency
    → r * s.autoscaling_target_concurrency < active + s.autoscaling_target_concurrency
    → SuitsLoad s active to_zero n
suits s active to_zero r n (raised p) h enough tight = record {
  at_least = omega arith;
  at_most = h;
  enough = inr (omega (arith, enough, mul-le-mul_right s.autoscaling_target_concurrency p));
  not_more = inl refl;
}
suits s active to_zero r n (inside p q) h enough tight = record {
  at_least = p;
  at_most = q;
  enough = inr enough;
  not_more = inr tight;
}
suits s active to_zero r n (lowered p q) h enough tight = record {
  at_least = h;
  at_most = omega arith;
  enough = inl refl;
  not_more = inr (omega (arith, tight, mul-le-mul_right s.autoscaling_target_concurrency q));
}

-- The target is between the least and the greatest number of replicas. Unless it is the greatest the
-- replicas can take the load at the concurrency that is aimed at; unless it is the least, one replica
-- fewer could not.
pub target_replicas-SuitsLoad :
    (s : ModelService) (active : ℕ) (to_zero : Bool)
    → IsScalable s
    → SuitsLoad s active to_zero (target_replicas s active to_zero)
unfolding target_replicas
target_replicas-SuitsLoad s active to_zero scalable =
    let r = ceil_div active s.autoscaling_target_concurrency in
    let bound = minimum-le s to_zero scalable in
    suits s active to_zero r _
      (kept (minimum_replicas s to_zero) s.autoscaling_max_replicas r bound) bound
      (ceil_div-enough active s.autoscaling_target_concurrency scalable.concurrency)
      (ceil_div-tight active s.autoscaling_target_concurrency scalable.concurrency)
