-- ===== src/Repositories/Tasks/RecoverExamples.antt =====
-- repositories/tasks.py: an execution whose lease has run out, and which is run again.
use mini_ai_cloud.Prelude.{◌*◌, ◌≡◌, refl, Bool, false, some, ok}
use mini_ai_cloud.Repositories.Tasks.Finish.{FinishRows}
use mini_ai_cloud.Repositories.Tasks.Recover.{recover_expired}
use mini_ai_cloud.Repositories.Tasks.Examples.{thousandths}
use mini_ai_cloud.Repositories.Tasks.FinishExamples.{
  hundredths, as_float, second, on_worker, before, value_or,
}

abbrev late : FinishRows thousandths hundredths as_float
late = record before {
  rows = record (before.rows) {
    task = some (record on_worker { lease_expires_at = some (59 * second) });
  };
}

recovery : Bool × FinishRows thousandths hundredths as_float
unfolding recover_expired
recovery =
    value_or (false, late) (recover_expired thousandths hundredths as_float late 3 (30 * second))

-- The last recovery that is allowed has been used.
stays_failed :
    recover_expired thousandths hundredths as_float late 0 (30 * second)
    ≡ ok (
      false,
      (value_or
          (false, late)
          (recover_expired thousandths hundredths as_float late 0 (30 * second))).1,
    )
unfolding recover_expired
stays_failed = refl
