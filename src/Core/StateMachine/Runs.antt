-- ===== src/Core/StateMachine/Runs.antt =====
-- What the status graph of core/state_machine.py allows over any number of transitions.
use mini_ai_cloud.Prelude.{
  ◌≡◌, refl, subst, ◌∙◌, ◌≢◌, ◌⊎◌, inl, inr, true, arith, ok, err, if◌then◌else◌,
}
use mini_ai_cloud.Core.Enums.{
  TaskStatus, pending, queued, scheduling, assigned, preparing, pulling, starting, running,
  preempting, stopping, succeeded, failed, cancelled, retrying, is_final, is_active,
}
use mini_ai_cloud.Core.StateMachine.{can_transition, ensure_transition, illegal}

TaskStatus-discrete : Discrete TaskStatus
TaskStatus-discrete = hlevel

-- A task's history, oldest transition first.
pub data Run : TaskStatus → TaskStatus → Type 0 where
  here : {s : TaskStatus} → Run s s
  step : {s t u : TaskStatus} → can_transition s t ≡ true → Run t u → Run s u

-- The run enters `v` after its start.
abbrev pub Visits : TaskStatus → {s t : TaskStatus} → Run s t → Type 0
Visits v here = ⊥
Visits v (step {t = t} h r) = (t ≡ v) ⊎ Visits v r

pub final_retries :
    (s t : TaskStatus) → is_final s ≡ true → can_transition s t ≡ true → t ≡ retrying
unfolding is_final can_transition
final_retries s t f h = ground arith

into_succeeded : (s : TaskStatus) → can_transition s succeeded ≡ true → s ≡ running
unfolding can_transition
into_succeeded s h = ground arith

from_retrying : (t : TaskStatus) → can_transition retrying t ≡ true → (t ≡ queued) ⊎ (t ≡ cancelled)
unfolding can_transition
from_retrying t h = ground arith

no_exit : (s t : TaskStatus) → (s ≡ succeeded) ⊎ (s ≡ cancelled) → can_transition s t ≡ true → ⊥
unfolding can_transition
no_exit s t e h = ground arith

-- A task whose status is SUCCEEDED or CANCELLED keeps that status, whatever transitions follow.
pub Run-absorbed : {s t : TaskStatus} → (s ≡ succeeded) ⊎ (s ≡ cancelled) → Run s t → t ≡ s
Run-absorbed e here = refl
Run-absorbed {s} e (step {t = t} h r) = absurd (no_exit s t e h)

dec_succeeded : (s : TaskStatus) → (s ≡ succeeded) ⊎ (s ≢ succeeded)
dec_succeeded s = elim (TaskStatus-discrete s succeeded) [ yes e ↦ inl e | no n ↦ inr n ]

final_not_active : (s : TaskStatus) → is_final s ≡ true → is_active s ≡ true → ⊥
unfolding is_final is_active
final_not_active s f a = ground arith

-- After RETRYING an active status is reached through QUEUED.
after_retrying :
    {s t : TaskStatus} (r : Run s t) → s ≡ retrying → is_active t ≡ true → Visits queued r
unfolding is_active
after_retrying here e a = ground arith
after_retrying {s} (step {t = u} h r) e a =
    elim (from_retrying u (subst (λ v. can_transition v u ≡ true) e h)) [
      | inl q ↦ inl q
      | inr c ↦ cc (subst (λ v. is_active v ≡ true) (Run-absorbed (inr c) r ∙ c) a)
    ]

-- A run that ends in SUCCEEDED, from any other status, passes through RUNNING or starts there.
pub Run-succeeded-running :
    {s t : TaskStatus} (r : Run s t)
    → t ≡ succeeded
    → s ≢ succeeded
    → (s ≡ running) ⊎ Visits running r
Run-succeeded-running here e n = absurd (n e)
Run-succeeded-running {s} (step {t = u} h r) e n = elim (dec_succeeded u) [
  | inl done ↦ inl (into_succeeded s (subst (λ v. can_transition s v ≡ true) done h))
  | inr more ↦ inr (Run-succeeded-running r e more)
]

-- From a final status a run reaches an active status only by way of RETRYING and QUEUED: an attempt
-- that ended is not resumed, it is queued again.
pub Run-active-queued :
    {s t : TaskStatus} (r : Run s t)
    → is_final s ≡ true
    → is_active t ≡ true
    → Visits retrying r × Visits queued r
Run-active-queued here f a = absurd (final_not_active _ f a)
Run-active-queued {s} (step {t = u} h r) f a =
    let e : u ≡ retrying = final_retries s u f h in (inl e, inr (after_retrying r e a))

from_queued : Run queued succeeded
unfolding can_transition
from_queued =
    step {t = assigned} refl
      (step {t = pulling} refl (step {t = running} refl (step {t = succeeded} refl here)))

-- From every status but SUCCEEDED and CANCELLED a task can still succeed, by retries if need be.
pub succeeded_reachable : (s : TaskStatus) → s ≢ cancelled → Run s succeeded
unfolding can_transition
succeeded_reachable cancelled n = absurd (n refl)
succeeded_reachable succeeded n = here
succeeded_reachable running n = step {t = succeeded} refl here
succeeded_reachable pulling n = step {t = running} refl (step {t = succeeded} refl here)
succeeded_reachable starting n = step {t = running} refl (step {t = succeeded} refl here)
succeeded_reachable preparing n =
    step {t = starting} refl (step {t = running} refl (step {t = succeeded} refl here))
succeeded_reachable assigned n =
    step {t = pulling} refl (step {t = running} refl (step {t = succeeded} refl here))
succeeded_reachable queued n = from_queued
succeeded_reachable pending n = step {t = queued} refl from_queued
succeeded_reachable scheduling n = step {t = queued} refl from_queued
succeeded_reachable retrying n = step {t = queued} refl from_queued
succeeded_reachable stopping n =
    step {t = failed} refl (step {t = retrying} refl (step {t = queued} refl from_queued))
succeeded_reachable preempting n =
    step {t = failed} refl (step {t = retrying} refl (step {t = queued} refl from_queued))
succeeded_reachable _ n = step {t = retrying} refl (step {t = queued} refl from_queued)

-- The guard passes exactly the transitions of the graph, and an error names the two statuses.
pub ensure_transition_iff :
    (current target : TaskStatus)
    → ensure_transition current target
      ≡ (if can_transition current target then ok tt else err (illegal current target))
unfolding ensure_transition can_transition
ensure_transition_iff current target = ground arith
