-- ===== src/Repositories/Reservations/Settlement.antt =====
-- repositories/reservations.py: `ReservationRepository.release_and_settle`. A duration is a number of
-- microseconds, an amount of use that number times what was used: thousandths of a CPU, MB, GPUs. The
-- cost of the use is exact in a small unit (`exact_cost`), and `quantize` is its rounding to the unit
-- of the columns, 10^-8, in which the quota counts; `cost_float` is the exact cost as a float.
use mini_ai_cloud.Prelude.{
  ℕ, ◌+◌, ◌-◌, ◌*◌, Bool, true, false, ◌||◌, Option, none, some, List, [], ◌∷◌, map, ltb,
  if◌then◌else◌, is_none, Result, ok, err, ◌>>=◌, ◌>>◌, raise_if,
}
use mini_ai_cloud.Prelude.Int.{pos}
use mini_ai_cloud.Prelude.Text.{String, ◌===◌}
use mini_ai_cloud.Prelude.Floats.{Floats, float_gt}
use mini_ai_cloud.Repositories.Quotas.Model.{QuotaError, Session, date_of}
use mini_ai_cloud.Repositories.Quotas.Operations.{Reservation, get_locked, save, release}
use mini_ai_cloud.Repositories.Tasks.Model.{Task, Worker, lifted}

-- The columns of the reservation that a settlement reads or writes.
pub record Reserved : Type 0 where
  pub worker_id : String
  pub cpu_millicores : ℕ
  pub memory_mb : ℕ
  pub gpu_count : ℕ
  pub requested_vendor : Option String
  pub created_at : ℕ
  pub is_released : Bool
  pub released_at : Option ℕ
  pub release_reason : Option String
  pub version : ℕ

-- And those of the execution. A price is a number of the unit of its column, 10^-8 an hour.
pub record Execution : Type 0 where
  pub status : String
  pub started_at : Option ℕ
  pub finished_at : Option ℕ
  pub cpu_millicores : ℕ
  pub memory_mb : ℕ
  pub gpu_count : ℕ
  pub gpu_model : Option String
  pub cpu_price_per_hour : ℕ
  pub memory_price_per_gb_hour : ℕ
  pub gpu_price_per_hour : ℕ
  pub error_category : Option String
  pub error_code : Option String
  pub error_message : Option String

pub record UsageLedger : Type 0 where
  pub started_at : ℕ
  pub finished_at : ℕ
  pub cpu_use : ℕ
  pub memory_use : ℕ
  pub gpu_use : ℕ
  pub gpu_model : Option String
  pub cost : ℕ

pub data SettlementError : Type 0 where
  below_reservation missing_execution : SettlementError
  quota_error : QuotaError → SettlementError

-- `max(0.0, (finished_at - started_at).total_seconds())`
abbrev pub duration_of : ℕ → ℕ → ℕ
duration_of started_at finished_at = finished_at - started_at

-- The cost in units of a price's unit over 3600 · 10^6 · 1000 · 1024: an hour in microseconds, a CPU in
-- thousandths, a GB in MB.
unfoldable pub exact_cost : Execution → ℕ → ℕ
exact_cost e duration =
    duration * e.cpu_millicores * e.cpu_price_per_hour * 1024
    + duration * e.memory_mb * e.memory_price_per_gb_hour * 1000
    + duration * e.gpu_count * e.gpu_price_per_hour * 1_024_000

abbrev pub release_link : ℕ → Option ℕ → Option ℕ
release_link now link = if is_none link then some now else link

-- The arguments of `QuotaRepository.release`; no reserved cost is given back.
abbrev pub released_amounts : Reserved → Reservation
released_amounts r = record {
  cpu_millicores = pos r.cpu_millicores;
  memory_mb = pos r.memory_mb;
  gpu_count = pos r.gpu_count;
  cost = pos 0;
  accelerator_vendor = r.requested_vendor;
}

abbrev pub mark_released : Reserved → ℕ → String → Reserved
mark_released r now reason = record r {
  is_released = true;
  released_at = some now;
  release_reason = some reason;
  version = r.version + 1;
}

abbrev pub active_row : Option Reserved → Option Reserved
active_row none = none
active_row (some r) = if is_none r.released_at then some r else none

module _ (fl : Floats) (quantize : ℕ → ℕ) (cost_float : ℕ → fl.F) where
  -- What a settlement sees: the task, the workers, the rows of the execution and those of the project.
  -- `links` has the time of release of each device that is bound to the reservation.
  pub record SettlementRows : Type 0 where
    pub task : Task fl
    pub workers : List (Worker fl)
    pub reservation : Option Reserved
    pub links : List (Option ℕ)
    pub execution : Option Execution
    pub ledger : List UsageLedger
    pub quota : Session

  -- Whether the counters of a worker are below what is to be given back.
  unfoldable pub is_short : Worker fl → Reserved → Bool
  is_short w r =
      ltb w.running_tasks 1
      || float_gt fl (fl.ratio r.cpu_millicores 1000)
          (fl.add w.reserved_cpu (fl.ratio 1 1_000_000_000))
      || ltb w.reserved_memory_mb r.memory_mb
      || ltb w.reserved_gpus r.gpu_count

  unfoldable pub give_back : Worker fl → Reserved → Worker fl
  give_back w r = record w {
    running_tasks = w.running_tasks - 1;
    reserved_cpu = fl.add w.reserved_cpu (fl.neg (fl.ratio r.cpu_millicores 1000));
    reserved_memory_mb = w.reserved_memory_mb - r.memory_mb;
    reserved_gpus = w.reserved_gpus - r.gpu_count;
    version = w.version + 1;
  }

  -- The worker of the reservation gives back what it held; where there is none, nothing is done.
  unfoldable pub settle_worker :
      Reserved → List (Worker fl) → Result SettlementError (List (Worker fl))
  unfolding is_short give_back
  settle_worker r [] = ok []
  settle_worker r (w ∷ ws) =
      let rest = settle_worker r ws >>= λ after. ok (w ∷ after) in
      if w.id === r.worker_id
      then raise_if (is_short w r) below_reservation >> ok (give_back w r ∷ ws)
      else rest

  -- The entry of an execution from `started_at` on.
  unfoldable pub ledger_entry : Execution → ℕ → ℕ → UsageLedger
  unfolding exact_cost
  ledger_entry e started_at now =
      let duration = duration_of started_at now in
      record {
        started_at = started_at;
        finished_at = now;
        cpu_use = duration * e.cpu_millicores;
        memory_use = duration * e.memory_mb;
        gpu_use = duration * e.gpu_count;
        gpu_model = e.gpu_model;
        cost = quantize (exact_cost e duration);
      }

  abbrev pub released_quota : Session → Reserved → ℕ → Result SettlementError Session
  released_quota quota r cost =
      lifted quota_error
        (release quota (released_amounts r) (pos cost) (some (date_of r.created_at)))

  -- The use of an execution is written once, where its task has started.
  unfoldable pub enter_use :
      SettlementRows
      → Reserved
      → Execution
      → ℕ
      → Option ℕ
      → List UsageLedger
      → Result SettlementError SettlementRows
  unfolding ledger_entry exact_cost release
  enter_use db r e now none entries =
      released_quota db.quota r 0 >>= λ quota. ok (record db { execution = some e; quota = quota })
  enter_use db r e now (some started_at) [] =
      let entry = ledger_entry e started_at now in
      released_quota db.quota r entry.cost >>= λ quota. ok (record db {
        task = record (db.task) {
          estimated_cost = some (cost_float (exact_cost e (duration_of started_at now)));
        };
        execution = some (record e { started_at = some started_at });
        ledger = entry ∷ [];
        quota = quota;
      })
  enter_use db r e now (some started_at) (entry ∷ entries) =
      released_quota db.quota r 0 >>= λ quota.
      ok (record db { execution = some (record e { started_at = some started_at }); quota = quota })

  unfoldable pub settle_use :
      SettlementRows → Reserved → Execution → ℕ → Result SettlementError SettlementRows
  unfolding enter_use
  settle_use db r e now = enter_use db r e now db.task.started_at db.ledger

  abbrev pub active_reservation : SettlementRows → Option Reserved
  active_reservation db = active_row db.reservation

  abbrev pub present : Option Execution → Result SettlementError Execution
  present none = err missing_execution
  present (some e) = ok e

  -- `get_locked` writes the counters of a new day.
  abbrev pub locked : Session → Result SettlementError Session
  locked quota =
      lifted quota_error (get_locked quota >>= λ rows. ok (save quota rows.quota rows.state))

  unfoldable pub settle :
      SettlementRows → Reserved → String → ℕ → String → Result SettlementError SettlementRows
  unfolding settle_worker settle_use get_locked
  settle db r final_status now release_reason = do
    quota ← locked db.quota
    workers ← settle_worker r db.workers
    e ← present db.execution
    settle_use
        (record db {
          workers = workers;
          reservation = some (mark_released r now release_reason);
          links = map (release_link now) db.links;
          quota = quota;
        })
        r (record e { status = final_status; finished_at = some now }) now

  unfoldable pub release_and_settle :
      SettlementRows → String → ℕ → String → Result SettlementError (Bool × SettlementRows)
  unfolding settle
  release_and_settle db final_status now release_reason = elim (active_reservation db) [
    | none ↦ ok (false, db)
    | some r ↦ settle db r final_status now release_reason >>= λ after. ok (true, after)
  ]
