-- ===== src/Scheduler/Policies/Priority.antt =====
-- scheduler/policies.py: aging raises a task's priority within its bounds, and never lowers it.
use mini_ai_cloud.Prelude.{
  ℕ, ◌+◌, ◌-◌, ◌*◌, ◌/◌, ◌≤◌, ◌<◌, ◌≡◌, some, ok, arith, Option-cases, inl, inr,
}
use mini_ai_cloud.Scheduler.Policies.Snapshots.{TaskSnapshot}
use mini_ai_cloud.Scheduler.Policies.Placements.{effective_priority}

-- With a priority of at most 100 the effective priority is at least the priority and at most 100.
pub effective_priority_bounds :
    (task : TaskSnapshot) (now interval : ℕ) {p : ℕ}
    → task.priority ≤ 100
    → effective_priority task now interval ≡ ok p
    → (task.priority ≤ p) × (p ≤ 100)
unfolding effective_priority
effective_priority_bounds task now interval {p} low h = ground arith

div_mono : (a b d : ℕ) → a ≤ b → a / d ≤ b / d
div_mono a b d h = grind arith

-- The effective priority never falls as time passes.
pub effective_priority_mono :
    (task : TaskSnapshot) (now later interval : ℕ) {p q : ℕ}
    → now ≤ later
    → effective_priority task now interval ≡ ok p
    → effective_priority task later interval ≡ ok q
    → p ≤ q
unfolding effective_priority
effective_priority_mono task now later interval {p} {q} le hp hq =
    elim (Option-cases task.queued_at) [
      | inl unset ↦ ground arith
      | inr (t, e) ↦ ground (arith, div_mono (now - t) (later - t) (interval * 1_000_000))
    ]

le_div : (k a d : ℕ) → 0 < d → k * d ≤ a → k ≤ a / d
le_div k a d pos h = grind arith

-- A queued task of any priority reaches 100, the highest, once it has waited long enough.
pub effective_priority_no_starvation :
    (task : TaskSnapshot) (queued_at now interval : ℕ)
    → task.queued_at ≡ some queued_at
    → 0 < interval
    → queued_at + 100 * (interval * 1_000_000) ≤ now
    → effective_priority task now interval ≡ ok 100
unfolding effective_priority
effective_priority_no_starvation task queued_at now interval e pos long = ground (arith, waited)
  where
    waited : 100 ≤ (now - queued_at) / (interval * 1_000_000)
    waited = le_div 100 (now - queued_at) (interval * 1_000_000) (omega arith) (omega arith)
