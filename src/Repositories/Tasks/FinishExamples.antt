-- ===== src/Repositories/Tasks/FinishExamples.antt =====
-- repositories/tasks.py and repositories/reservations.py: an execution that succeeds after 50 seconds,
-- and one that fails and is run again.
use mini_ai_cloud.Prelude.{
  ℕ, ◌*◌, ◌/◌, ◌≡◌, refl, Bool, true, false, none, some, [], ◌∷◌, map, Result, ok, err,
}
use mini_ai_cloud.Prelude.Text.{String}
use mini_ai_cloud.Prelude.Int.{pos}
use mini_ai_cloud.Core.Enums.{running, retrying, failed, infra_error}
use mini_ai_cloud.Repositories.Quotas.Model.{Session, active}
use mini_ai_cloud.Repositories.Quotas.Operations.{new_quota, new_state}
use mini_ai_cloud.Repositories.Reservations.Settlement.{
  Reserved, Execution, UsageLedger, SettlementRows, release_and_settle,
}
use mini_ai_cloud.Repositories.Reservations.Settled.{Settles, release_and_settle-Settles}
use mini_ai_cloud.Repositories.Tasks.Model.{Task}
use mini_ai_cloud.Repositories.Tasks.Lifecycle.{Claimant}
use mini_ai_cloud.Repositories.Tasks.Examples.{thousandths, held, rows}
use mini_ai_cloud.Repositories.Tasks.Ending.{Ending, Prices}
use mini_ai_cloud.Repositories.Tasks.Conclude.{ExecutionResult, refused}
use mini_ai_cloud.Repositories.Tasks.Finish.{FinishRows, finish_execution}
use mini_ai_cloud.Repositories.Tasks.Finished.{Finished}

abbrev pub hundredths : ℕ → ℕ
hundredths n = n / 3_686_400_000_000_000

abbrev pub as_float : ℕ → ℕ
as_float n = n / 100_000

abbrev pub second : ℕ
second = 1_000_000

abbrev busy : Session
busy = record {
  now = 60 * second;
  project = some active;
  quota = some (new_quota 0);
  state = some (record (new_state 0) {
    running_tasks = 1;
    reserved_cpu_millicores = 1000;
    reserved_memory_mb = 256;
  });
}

abbrev pub on_worker : Task thousandths
on_worker = record held { status = running; started_at = some (10 * second) }

abbrev reserved : Reserved
reserved = record {
  worker_id = "w1";
  cpu_millicores = 1000;
  memory_mb = 256;
  gpu_count = 0;
  requested_vendor = none;
  created_at = 5 * second;
  is_released = false;
  released_at = none;
  release_reason = none;
  version = 1;
}

abbrev execution : Execution
execution = record {
  status = "running";
  started_at = none;
  finished_at = none;
  cpu_millicores = 1000;
  memory_mb = 256;
  gpu_count = 0;
  gpu_model = none;
  cpu_price_per_hour = 5_000_000;
  memory_price_per_gb_hour = 500_000;
  gpu_price_per_hour = 0;
  error_category = none;
  error_code = none;
  error_message = none;
}

abbrev settlement : SettlementRows thousandths hundredths as_float
settlement = record {
  task = on_worker;
  workers = (rows on_worker).workers;
  reservation = some reserved;
  links = [];
  execution = some execution;
  ledger = [];
  quota = busy;
}

abbrev pub value_or {ℓ κ} : {E : Type ℓ} {A : Type κ} → A → Result E A → A
value_or a (ok x) = x
value_or a (err e) = a

settled : Bool × SettlementRows thousandths hundredths as_float
unfolding release_and_settle
settled =
    value_or (false, settlement)
      (release_and_settle thousandths hundredths as_float settlement "succeeded" (60 * second)
        "succeeded")

settled_once :
    release_and_settle thousandths hundredths as_float settlement "succeeded"
      (60 * second)
      "succeeded"
    ≡ ok (true, settled.1)
unfolding release_and_settle settled
settled_once = refl

release_and_settle-Settles_example :
    Settles thousandths hundredths as_float settlement settled.1 (60 * second) "succeeded"
    × ((status2 : String) (now2 : ℕ) (reason2 : String)
        → release_and_settle thousandths hundredths as_float settled.1 status2 now2 reason2
          ≡ ok (false, settled.1))
release_and_settle-Settles_example =
    release_and_settle-Settles thousandths hundredths as_float settlement "succeeded" (60 * second)
      "succeeded" settled_once

abbrev pub before : FinishRows thousandths hundredths as_float
before = record {
  rows = record (rows on_worker) { quota = busy };
  reservation = some reserved;
  links = [];
  execution = some execution;
  ledger = [];
  plans = [];
}

abbrev holder : Claimant thousandths
holder = record { worker_id = "w1"; execution_id = 7; worker_session_id = some 3 }

abbrev prices : Prices thousandths
prices = record { cpu_price_per_hour = 50; gpu_price_per_hour = 0 }

abbrev crash : Ending
crash = record {
  target = failed;
  exit_code = some (pos 1);
  error_message = some "node lost";
  error_category = some infra_error;
  error_code = none;
}

finished : ExecutionResult × FinishRows thousandths hundredths as_float
unfolding finish_execution
finished =
    value_or (refused none, before)
      (finish_execution thousandths hundredths as_float before holder crash (60 * second) prices)

is_retried : finished.0 ≡ record { accepted = true; status = some retrying; retry_scheduled = true }
unfolding finished
is_retried = refl

fifty_seconds : map (λ (entry : UsageLedger). entry.cost) settled.1.ledger ≡ 71_180 ∷ []
unfolding settled
fifty_seconds = refl
