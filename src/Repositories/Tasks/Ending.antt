-- ===== src/Repositories/Tasks/Ending.antt =====
-- repositories/tasks.py: how an execution ends, by `finish_execution`. A category of errors is its member
-- of the enumeration, a code its text.
use mini_ai_cloud.Prelude.{
  ℕ, ◌-◌, Bool, true, false, not, ◌&&◌, ◌||◌, Option, none, some, List, any, if◌then◌else◌, is_some,
}
use mini_ai_cloud.Prelude.Int.{ℤ, same_ℤ}
use mini_ai_cloud.Prelude.Text.{String, same_text}
use mini_ai_cloud.Prelude.Floats.{Floats}
use mini_ai_cloud.Core.Enums.{
  TaskStatus, pending, queued, scheduling, assigned, preparing, pulling, starting, running,
  preempting, preempted, stopping, succeeded, failed, cancelled, timed_out, retrying, same_status,
  ErrorCategory, user_error, infra_error, resource_error, timeout, preempted_error, cancelled_error,
  internal_error,
}
use mini_ai_cloud.Repositories.Tasks.Model.{Task}
use mini_ai_cloud.Repositories.Tasks.Cancel.{cancelled_value}

unfoldable pub status_value : TaskStatus → String
status_value pending = "pending"
status_value queued = "queued"
status_value scheduling = "scheduling"
status_value assigned = "assigned"
status_value preparing = "preparing"
status_value pulling = "pulling"
status_value starting = "starting"
status_value running = "running"
status_value preempting = "preempting"
status_value preempted = "preempted"
status_value stopping = "stopping"
status_value succeeded = "succeeded"
status_value failed = "failed"
status_value cancelled = "cancelled"
status_value timed_out = "timed_out"
status_value retrying = "retrying"

unfoldable pub category_value : ErrorCategory → String
category_value user_error = "USER_ERROR"
category_value infra_error = "INFRA_ERROR"
category_value resource_error = "RESOURCE_ERROR"
category_value timeout = "TIMEOUT"
category_value preempted_error = "PREEMPTED"
category_value cancelled_error = "CANCELLED"
category_value internal_error = "INTERNAL_ERROR"

-- `exit_code is not None and exit_code in retry_on_exit_codes`
abbrev pub is_listed : Option ℤ → List ℤ → Bool
is_listed none codes = false
is_listed (some code) codes = any (same_ℤ code) codes

unfoldable pub should_retry_failure : Option ErrorCategory → Option ℤ → List ℤ → Bool
should_retry_failure none exit_code codes = true
should_retry_failure (some infra_error) exit_code codes = true
should_retry_failure (some internal_error) exit_code codes = true
should_retry_failure (some timeout) exit_code codes = true
should_retry_failure (some user_error) exit_code codes = is_listed exit_code codes
should_retry_failure (some resource_error) exit_code codes = is_listed exit_code codes
should_retry_failure (some preempted_error) exit_code codes = false
should_retry_failure (some cancelled_error) exit_code codes = false

-- How the execution ended, as the report says it or as the row overrules it.
pub record Ending : Type 0 where
  pub target : TaskStatus
  pub exit_code : Option ℤ
  pub error_message : Option String
  pub error_category : Option ErrorCategory
  pub error_code : Option String

-- The category of a report that has none.
unfoldable pub default_category : TaskStatus → Option ℤ → Option ErrorCategory
default_category timed_out exit_code = some timeout
default_category cancelled exit_code = some cancelled_error
default_category preempted exit_code = some preempted_error
default_category failed exit_code = some (if is_some exit_code then user_error else internal_error)
default_category _ exit_code = none

abbrev pub or_default {ℓ} : {A : Type ℓ} → Option A → Option A → Option A
or_default none other = other
or_default (some a) other = some a

abbrev pub category_text : Option ErrorCategory → Option String
category_text none = none
category_text (some c) = some (category_value c)

module _ (fl : Floats) where
  pub record Prices : Type 0 where
    pub cpu_price_per_hour : fl.F
    pub gpu_price_per_hour : fl.F

  unfoldable pub ending_of : Task fl → Ending → Ending
  unfolding same_status default_category
  ending_of t report =
      let preemption_requested = same_status t.status preempting in
      let user_cancelled = preemption_requested && same_text t.failure_category cancelled_value in
      if t.cancel_requested && (not preemption_requested || user_cancelled)
      then record report {
        target = cancelled;
        error_message = some "task was cancelled by user request";
        error_category = some cancelled_error;
        error_code = none;
      }
      else if preemption_requested
      then record report {
        target = preempted;
        error_message = some "task was stopped to admit a higher-priority workload";
        error_category = some preempted_error;
        error_code = none;
      }
      else record report {
        error_category =
            or_default report.error_category (default_category report.target report.exit_code);
      }

  -- What the row says of the end, and of the use where the task has started.
  unfoldable pub describe : Task fl → Ending → Task fl
  unfolding category_value
  describe t e = record t {
    exit_code = e.exit_code;
    error_message = e.error_message;
    failure_category = category_text e.error_category;
    error_category = category_text e.error_category;
    error_code = e.error_code;
    lease_expires_at = none;
  }

  unfoldable pub measure : Task fl → Option ℕ → ℕ → Prices → Task fl
  measure t none now prices = t
  measure t (some start) now prices =
      let duration = fl.ratio (now - start) 1_000_000 in
      let cpu_seconds = fl.mul duration t.cpu_limit in
      let gpu_seconds = fl.mul duration (fl.of_nat t.gpu_count) in
      record t {
        duration_ms = some (fl.round (fl.mul duration (fl.of_nat 1000)));
        wall_time_seconds = some duration;
        cpu_seconds = some cpu_seconds;
        gpu_seconds = some gpu_seconds;
        estimated_cost = some (
            fl.add (fl.div (fl.mul cpu_seconds prices.cpu_price_per_hour) (fl.of_nat 3600))
              (fl.div (fl.mul gpu_seconds prices.gpu_price_per_hour) (fl.of_nat 3600)));
      }
