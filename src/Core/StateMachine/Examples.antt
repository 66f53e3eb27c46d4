-- ===== src/Core/StateMachine/Examples.antt =====
-- Histories of one task in the status graph of core/state_machine.py.
use mini_ai_cloud.Prelude.{◌≡◌, refl, ◌⊎◌, inl, err}
use mini_ai_cloud.Core.Enums.{
  queued, assigned, running, succeeded, failed, retrying, pulling, stopping, is_final, is_active,
}
use mini_ai_cloud.Core.StateMachine.{can_transition, ensure_transition, illegal}
use mini_ai_cloud.Core.StateMachine.Runs.{
  Run, here, step, Visits, Run-absorbed, Run-succeeded-running, Run-active-queued,
  succeeded_reachable,
}

skipping_the_worker : ensure_transition queued running ≡ err (illegal queued running)
unfolding ensure_transition
skipping_the_worker = refl

abbrev assigned_to_success : Run assigned succeeded
unfolding can_transition
assigned_to_success =
    step {t = pulling} refl (step {t = running} refl (step {t = succeeded} refl here))

abbrev failed_to_running : Run failed running
unfolding can_transition
failed_to_running = step {t = retrying} refl (
    step {t = queued} refl
      (step {t = assigned} refl (step {t = pulling} refl (step {t = running} refl here))))

abbrev absorbed : Run succeeded succeeded
absorbed = here

Run-absorbed_example : succeeded ≡ succeeded
Run-absorbed_example = Run-absorbed (inl refl) absorbed

Run-succeeded-running_example : (assigned ≡ running) ⊎ Visits running assigned_to_success
Run-succeeded-running_example = Run-succeeded-running assigned_to_success refl (λ e. cc)

Run-active-queued_example : Visits retrying failed_to_running × Visits queued failed_to_running
unfolding is_final is_active
Run-active-queued_example = Run-active-queued failed_to_running refl refl

succeeded_reachable_example : Run stopping succeeded
succeeded_reachable_example = succeeded_reachable stopping (λ e. cc)
