-- ===== src/Core/StateMachine.antt =====
-- core/state_machine.py: the graph of the task statuses and its guard.
pub mod Runs
mod Examples
use mini_ai_cloud.Prelude.{Bool, List, [], ◌∷◌, Result, ok, err, raise_if, not}
use mini_ai_cloud.Core.Enums.{
  TaskStatus, pending, queued, scheduling, assigned, preparing, pulling, starting, running,
  preempting, preempted, stopping, succeeded, failed, cancelled, timed_out, retrying, is_in,
}

-- `ALLOWED_TRANSITIONS`
unfoldable pub allowed_transitions : TaskStatus → List TaskStatus
allowed_transitions pending = queued ∷ cancelled ∷ []
allowed_transitions queued = scheduling ∷ assigned ∷ cancelled ∷ []
allowed_transitions scheduling = queued ∷ assigned ∷ cancelled ∷ []
allowed_transitions assigned =
    preparing ∷ pulling ∷ stopping ∷ preempting ∷ cancelled ∷ failed ∷ timed_out ∷ []
allowed_transitions preparing = pulling ∷ starting ∷ stopping ∷ preempting ∷ failed ∷ timed_out ∷ []
allowed_transitions pulling =
    starting ∷ running ∷ stopping ∷ preempting ∷ cancelled ∷ failed ∷ timed_out ∷ []
allowed_transitions starting = running ∷ stopping ∷ preempting ∷ failed ∷ timed_out ∷ []
allowed_transitions running =
    stopping ∷ preempting ∷ succeeded ∷ failed ∷ cancelled ∷ timed_out ∷ []
allowed_transitions stopping = cancelled ∷ failed ∷ timed_out ∷ []
allowed_transitions preempting = preempted ∷ failed ∷ cancelled ∷ []
allowed_transitions preempted = retrying ∷ []
allowed_transitions failed = retrying ∷ []
allowed_transitions timed_out = retrying ∷ []
allowed_transitions retrying = queued ∷ cancelled ∷ []
allowed_transitions succeeded = []
allowed_transitions cancelled = []

unfoldable pub can_transition : TaskStatus → TaskStatus → Bool
unfolding allowed_transitions is_in
can_transition current target = is_in target (allowed_transitions current)

pub data InvalidTaskTransition : Type 0 where
  illegal : (current target : TaskStatus) → InvalidTaskTransition

unfoldable pub ensure_transition : TaskStatus → TaskStatus → Result InvalidTaskTransition (Unit {0})
unfolding allowed_transitions is_in
ensure_transition current target =
    raise_if (not (is_in target (allowed_transitions current))) (illegal current target)
