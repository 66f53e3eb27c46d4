-- ===== src/Repositories/Quotas/Feasible.antt =====
-- repositories/quotas.py: a task that `ensure_task_can_fit` turns away is never reserved.
use mini_ai_cloud.Prelude.{◌≡◌, Option, none, some, ok, All, arith}
use mini_ai_cloud.Prelude.Int.{pos_part}
use mini_ai_cloud.Core.Enums.{AcceleratorVendor, nvidia, huawei_ascend}
use mini_ai_cloud.Repositories.Quotas.Model.{QuotaSnapshot, Session}
use mini_ai_cloud.Repositories.Quotas.Operations.{
  get_locked, reserve_execution, reservation_claims, amounts, Reservation,
}
use mini_ai_cloud.Repositories.Quotas.Invariant.{Fits-mono, Meets, check_limits_iff}
use mini_ai_cloud.Repositories.Quotas.Execution.{reserve_execution-TakesUp}
use mini_ai_cloud.Repositories.Quotas.Fit.{
  TaskNeeds, fit_claims, vendor_claims, fit_vendor, ensure_task_can_fit,
}

-- What the task of a reservation needs.
abbrev pub needs_of : Reservation → TaskNeeds
needs_of r = record {
  cpu_millicores = r.cpu_millicores;
  memory_mb = r.memory_mb;
  gpu_count = r.gpu_count;
  accelerator_vendor = r.accelerator_vendor;
  accelerator_vendors = none;
}

common_claims :
    (rows : QuotaSnapshot) (r : Reservation) (vendor : Option AcceleratorVendor)
    → All Meets (reservation_claims rows.quota rows.state (amounts r vendor))
    → All Meets (fit_claims rows.quota (needs_of r))
unfolding fit_claims reservation_claims amounts
common_claims rows r vendor (running, (cpu, (memory, (gpus, others)))) =
    let q = rows.quota in
    (
      Fits-mono q.max_running_tasks 1 _ (omega arith) running,
      (
        Fits-mono q.max_cpu_millicores (pos_part r.cpu_millicores) _ (omega arith) cpu,
        (
          Fits-mono q.max_memory_mb (pos_part r.memory_mb) _ (omega arith) memory,
          (Fits-mono q.max_gpus (pos_part r.gpu_count) _ (omega arith) gpus, tt),
        ),
      ),
    )

typed_claims :
    (rows : QuotaSnapshot) (r : Reservation) (vendor : Option AcceleratorVendor)
    → All Meets (reservation_claims rows.quota rows.state (amounts r vendor))
    → All Meets (vendor_claims rows.quota vendor (pos_part r.gpu_count))
unfolding vendor_claims reservation_claims amounts
typed_claims rows r none h = tt
typed_claims rows r (some nvidia) (_, (_, (_, (_, (nvidia_gpus, others))))) =
    (Fits-mono rows.quota.max_nvidia_gpus (pos_part r.gpu_count) _ (omega arith) nvidia_gpus, tt)
typed_claims rows r (some huawei_ascend) (_, (_, (_, (_, (_, (ascend_npus, others)))))) =
    (Fits-mono rows.quota.max_ascend_npus (pos_part r.gpu_count) _ (omega arith) ascend_npus, tt)

-- A reservation that is made is of a task that fits the hard limits of the project, with the
-- vendor of the reservation.
pub reserve_execution-fits :
    (db : Session) (r : Reservation) {rows : QuotaSnapshot} {after : Session}
    → get_locked db ≡ ok rows
    → reserve_execution db r ≡ ok after
    → ensure_task_can_fit rows.quota (needs_of r) ≡ ok tt
unfolding ensure_task_can_fit fit_vendor
reserve_execution-fits db r {rows} {after} locked made =
    let (vendor, able, e) = (reserve_execution-TakesUp db r after locked).0 made in
    let common = common_claims rows r vendor able.fits in
    let typed = typed_claims rows r vendor able.fits in
    ground (
      arith,
      able.valid,
      able.known,
      (check_limits_iff (fit_claims rows.quota (needs_of r))).1 common,
      (check_limits_iff (vendor_claims rows.quota vendor (pos_part r.gpu_count))).1 typed,
    )
