-- ===== src/Repositories/Tasks/Conclude.antt =====
-- repositories/tasks.py: how `finish_execution` ends: the task is scheduled again, or stays as it ended.
use mini_ai_cloud.Prelude.{
  ℕ, ◌+◌, min, Bool, true, false, ◌&&◌, ◌||◌, Option, none, some, [], ◌∷◌, ltb, if◌then◌else◌,
  is_none, Result, ok, err, ◌>>=◌,
}
use mini_ai_cloud.Prelude.Int.{pos}
use mini_ai_cloud.Prelude.Floats.{Floats}
use mini_ai_cloud.Core.Enums.{
  TaskStatus, preempted, failed, timed_out, retrying, is_in, same_status,
}
use mini_ai_cloud.Repositories.Quotas.Model.{QuotaError, exceeded, Session}
use mini_ai_cloud.Repositories.Quotas.Operations.{get_locked, save, admit_queued}
use mini_ai_cloud.Repositories.Tasks.Model.{TaskError, lifted, Task, Rows, transition}
use mini_ai_cloud.Repositories.Tasks.Cancel.{outbox_event}
use mini_ai_cloud.Repositories.Tasks.Retry.{RetryError, retry_delay_seconds}
use mini_ai_cloud.Repositories.Reservations.Settlement.{SettlementError}
use mini_ai_cloud.Repositories.Tasks.Ending.{should_retry_failure, Ending}

pub data FinishError : Type 0 where
  task_error : TaskError → FinishError
  settlement_error : SettlementError → FinishError
  quota_error : QuotaError → FinishError
  retry_error : RetryError → FinishError

-- `_admit_retry`: where the limit is passed, the counters that were locked are kept.
admitted : Session → Result QuotaError Session → Result QuotaError (Bool × Session)
admitted locked (ok after) = ok (true, after)
admitted locked (err (exceeded resource limit requested)) = ok (false, locked)
admitted locked (err e) = err e

unfoldable pub admit_retry : Session → Result QuotaError (Bool × Session)
unfolding get_locked admit_queued admitted
admit_retry quota =
    if is_none quota.state
    then ok (true, quota)
    else (get_locked quota >>= λ rows.
        admitted (save quota rows.quota rows.state) (admit_queued quota))

pub record ExecutionResult : Type 0 where
  pub accepted : Bool
  pub status : Option TaskStatus
  pub retry_scheduled : Bool

abbrev pub refused : Option TaskStatus → ExecutionResult
refused status = record { accepted = false; status = status; retry_scheduled = false }

module _ (fl : Floats) where
  abbrev pub is_failure : TaskStatus → Bool
  is_failure target = is_in target (failed ∷ timed_out ∷ [])

  -- Whether the task is to be run again: once it was preempted, or since its failure may pass.
  unfoldable pub wants_requeue : Task fl → Ending → Bool
  unfolding same_status
  wants_requeue t e = same_status e.target preempted && t.requeue_on_preempt

  unfoldable pub wants_retry : Task fl → Ending → Bool
  unfolding is_in should_retry_failure
  wants_retry t e =
      is_failure e.target
      && ltb t.retry_count t.max_retries
      && should_retry_failure e.error_category e.exit_code t.retry_on_exit_codes

  -- A task that is to be run again, after `delay`.
  unfoldable pub schedule_retry : Rows fl → Task fl → ℕ → Result FinishError (Rows fl)
  unfolding transition
  schedule_retry rows t delay = do
    moved ←
        lifted task_error
          (transition fl t rows.events retrying rows.quota.now "task.status_changed")
    ok (record rows {
      task = some (record moved.task {
        next_attempt_at = some (rows.quota.now + delay);
        worker_id = none;
        execution_id = none;
        cancel_requested = false;
      });
      events = moved.events;
    })

  unfoldable pub retry_delay : Task fl → ℕ → Result FinishError ℕ
  unfolding retry_delay_seconds
  retry_delay t retry_max_backoff = lifted retry_error (
      retry_delay_seconds (pos (t.retry_count + 1))
        (pos (min t.retry_max_seconds retry_max_backoff)) t.retry_backoff
        (pos t.retry_base_seconds))

  -- The end of the transaction: the task is scheduled again, or other services are told of its end.
  unfoldable pub conclude :
      Rows fl → Task fl → Ending → ℕ → Result FinishError (ExecutionResult × Rows fl)
  unfolding wants_requeue wants_retry admit_retry retry_delay schedule_retry
  conclude rows t e retry_max_backoff = do
    let again = wants_requeue t e
    let retry = wants_retry t e
    room ←
        (if again || retry
          then lifted quota_error (admit_retry rows.quota)
          else ok (false, rows.quota))
    let kept = record rows { quota = room.1 }
    if retry && room.0
        then (retry_delay t retry_max_backoff >>= λ delay.
            schedule_retry kept (record t { retry_count = t.retry_count + 1 }) delay >>= λ after.
            ok (record { accepted = true; status = some retrying; retry_scheduled = true }, after))
        else if again && room.0
        then (schedule_retry kept t 0 >>= λ after.
            ok (record { accepted = true; status = some retrying; retry_scheduled = true }, after))
        else ok (
          record { accepted = true; status = some t.status; retry_scheduled = false },
          record kept {
            task = some t;
            outbox = outbox_event fl "task.terminal" (some t.status) rows.quota.now ∷ rows.outbox;
          },
        )
