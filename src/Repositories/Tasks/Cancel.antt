-- ===== src/Repositories/Tasks/Cancel.antt =====
-- repositories/tasks.py: `cancel`, and `release_due_retries` on one of the tasks that it goes through.
use mini_ai_cloud.Prelude.{
  ℕ, ◌+◌, ◌-◌, Bool, true, false, ◌&&◌, Option, none, some, List, [], ◌∷◌, leb, if◌then◌else◌,
  is_some, Result, ok, ◌>>=◌,
}
use mini_ai_cloud.Prelude.Text.{String, ◌===◌}
use mini_ai_cloud.Prelude.Floats.{Floats, float_max}
use mini_ai_cloud.Core.Enums.{
  TaskStatus, pending, queued, scheduling, preempting, stopping, cancelled, retrying, is_in,
  is_final, is_active, same_status,
}
use mini_ai_cloud.Repositories.Quotas.Model.{Session}
use mini_ai_cloud.Repositories.Quotas.Operations.{release_queued}
use mini_ai_cloud.Repositories.Tasks.Model.{
  OutboxEvent, TaskError, quota_error, lifted, Task, Worker, Rows, transition,
}

abbrev pub cancelled_value : Option String
cancelled_value = some "CANCELLED"

-- The project's queued task is given back for a status that counts as queued.
unfoldable pub release_queue_slot : TaskStatus → Session → Result TaskError Session
unfolding is_in release_queued
release_queue_slot previous quota =
    if is_in previous (pending ∷ queued ∷ scheduling ∷ retrying ∷ []) && is_some quota.state
    then lifted quota_error (release_queued quota)
    else ok quota

module _ (fl : Floats) where
  unfoldable pub release_worker_capacity : Worker fl → Task fl → Worker fl
  unfolding float_max
  release_worker_capacity w t = record w {
    running_tasks = w.running_tasks - 1;
    reserved_cpu = float_max fl (fl.of_nat 0) (fl.add w.reserved_cpu (fl.neg t.cpu_limit));
    reserved_memory_mb = w.reserved_memory_mb - t.memory_limit_mb;
    reserved_gpus = w.reserved_gpus - t.gpu_count;
    version = w.version + 1;
  }

  -- The worker of that name gives back what the task held; where there is none, nothing is done.
  unfoldable pub release_on : Option String → Task fl → List (Worker fl) → List (Worker fl)
  unfolding release_worker_capacity
  release_on none t ws = ws
  release_on (some id) t [] = []
  release_on (some id) t (w ∷ ws) =
      let rest = release_on (some id) t ws in
      if w.id === id then release_worker_capacity w t ∷ ws else w ∷ rest

  -- A task that runs nowhere, or nowhere any more, ends at once.
  unfoldable pub cancel_now : Rows fl → Task fl → Result TaskError (Rows fl)
  unfolding transition release_queue_slot release_on
  cancel_now db t = do
    moved ← transition fl t db.events cancelled db.quota.now "task.status_changed"
    let ended = record moved.task {
      cancel_requested = true;
      failure_category = cancelled_value;
      error_category = cancelled_value;
      error_code = none;
      lease_expires_at = none;
      execution_id = none;
    }
    quota ← release_queue_slot t.status db.quota
    ok (record db {
      task = some ended;
      workers = release_on t.worker_id ended db.workers;
      quota = quota;
      events = moved.events;
      outbox =
          record {
            event_type = "task.terminal";
            status = some cancelled;
            available_at = db.quota.now;
          }
          ∷ db.outbox;
    })

  -- One that runs is asked to stop.
  unfoldable pub request_stop : Rows fl → Task fl → Result TaskError (Rows fl)
  unfolding transition same_status
  request_stop db t =
      let asked = record t { cancel_requested = true } in
      if same_status t.status stopping
      then ok (record db { task = some asked })
      else (transition fl asked db.events stopping db.quota.now "task.stop_requested" >>= λ moved.
          ok (record db { task = some moved.task; events = moved.events }))

  -- One that is being preempted will not be queued again.
  unfoldable pub cancel_preempting : Rows fl → Task fl → Rows fl
  cancel_preempting db t = record db {
    task = some (record t {
      cancel_requested = true;
      requeue_on_preempt = false;
      failure_category = cancelled_value;
      error_category = cancelled_value;
      error_code = none;
      version = t.version + 1;
    });
  }

  unfoldable pub cancel : Rows fl → Result TaskError (Rows fl)
  unfolding is_final is_active same_status cancel_preempting request_stop cancel_now
  cancel db = elim db.task [
    | none ↦ ok db
    | some t ↦
        if is_final t.status
        then ok db
        else if same_status t.status preempting
        then ok (cancel_preempting db t)
        else if is_active t.status && is_some t.execution_id
        then request_stop db t
        else cancel_now db t
  ]

  -- The tasks that `release_due_retries` selects.
  abbrev pub is_time : Option ℕ → ℕ → Bool
  is_time none now = true
  is_time (some time) now = leb time now

  abbrev pub outbox_event : String → Option TaskStatus → ℕ → OutboxEvent
  outbox_event event_type status now = record {
    event_type = event_type;
    status = status;
    available_at = now;
  }

  unfoldable pub release_retry : Rows fl → Task fl → Result TaskError (Rows fl)
  unfolding transition
  release_retry db t =
      if t.cancel_requested
      then (transition fl t db.events cancelled db.quota.now "task.status_changed" >>= λ moved.
          ok (record db {
            task = some (record moved.task {
              next_attempt_at = none;
              failure_category = cancelled_value;
              error_category = cancelled_value;
              error_code = none;
            });
            events = moved.events;
            outbox = outbox_event "task.terminal" (some cancelled) db.quota.now ∷ db.outbox;
          }))
      else (transition fl t db.events queued db.quota.now "task.status_changed" >>= λ moved.
          ok (record db {
            task = some (record moved.task { next_attempt_at = none; cancel_requested = false });
            events = moved.events;
            outbox = outbox_event "task.ready" none db.quota.now ∷ db.outbox;
          }))

  unfoldable pub release_due_retry : Rows fl → Result TaskError (Rows fl)
  unfolding same_status release_retry
  release_due_retry db = elim db.task [
    | none ↦ ok db
    | some t ↦
        if same_status t.status retrying && is_time t.next_attempt_at db.quota.now
        then release_retry db t
        else ok db
  ]
