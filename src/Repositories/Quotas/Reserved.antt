-- ===== src/Repositories/Quotas/Reserved.antt =====
-- repositories/quotas.py: the limits that a reservation has to meet and the counters that it leaves, in
-- the numbers of the rows.
use mini_ai_cloud.Prelude.{
  ℕ, ◌+◌, ◌-◌, ◌≤◌, ◌≡◌, sym, ap, ◌∙◌, subst, ◌↔◌, ◌⊎◌, Option, none, some, ok, arith,
}
use text.Mathlib.TextEquality.{eq_iff}
use mini_ai_cloud.Prelude.Int.{pos, pos_part}
use mini_ai_cloud.Prelude.Text.{String}
use mini_ai_cloud.Core.Enums.{AcceleratorVendor, nvidia, huawei_ascend}
use mini_ai_cloud.Repositories.Quotas.Model.{
  ProjectQuotaState, QuotaSnapshot, Session, validate_reservation, normalize_accelerator_vendor,
  nvidia_share, ascend_share,
}
use mini_ai_cloud.Repositories.Quotas.Operations.{
  get_locked, save, reserve_execution, reserve, reservation_claims, amounts, Reservation,
}
use mini_ai_cloud.Repositories.Quotas.Invariant.{Fits, Typed, touched}
use mini_ai_cloud.Repositories.Quotas.Execution.{
  Reservable, TakesUp, reserve_execution-TakesUp, get_locked-Current,
}

-- The vendor whose devices `gpus` devices are.
abbrev pub IsVendorOf : Option AcceleratorVendor → Option String → ℕ → Type 0
IsVendorOf vendor text gpus =
    ((gpus ≡ 0) × (vendor ≡ none))
    ⊎ ((1 ≤ gpus)
        × (((vendor ≡ some nvidia) × ((text ≡ none) ⊎ (text ≡ some "nvidia")))
            ⊎ ((vendor ≡ some huawei_ascend) × (text ≡ some "huawei-ascend"))))

-- The numbers that a reservation asks for, on the rows that are locked.
pub record Allows (rows : QuotaSnapshot) (r : Reservation) (cpu memory gpus cost : ℕ)
    (vendor : Option AcceleratorVendor) : Type 0 where
  pub asks_cpu : r.cpu_millicores ≡ pos cpu
  pub asks_memory : r.memory_mb ≡ pos memory
  pub asks_gpus : r.gpu_count ≡ pos gpus
  pub asks_cost : r.cost ≡ pos cost
  pub vendor_known : IsVendorOf vendor r.accelerator_vendor gpus
  pub some_queued : 1 ≤ rows.state.queued_tasks
  pub tasks_fit :
      Fits rows.quota.max_running_tasks (rows.state.running_tasks + rows.state.service_replicas + 1)
  pub cpu_fits :
      Fits rows.quota.max_cpu_millicores
        (rows.state.reserved_cpu_millicores + rows.state.service_reserved_cpu_millicores + cpu)
  pub memory_fits :
      Fits rows.quota.max_memory_mb
        (rows.state.reserved_memory_mb + rows.state.service_reserved_memory_mb + memory)
  pub gpus_fit :
      Fits rows.quota.max_gpus (rows.state.reserved_gpus + rows.state.service_reserved_gpus + gpus)
  pub nvidia_fits : Fits rows.quota.max_nvidia_gpus (
      rows.state.reserved_nvidia_gpus
      + nvidia_share vendor gpus
      + rows.state.service_reserved_nvidia_gpus)
  pub ascend_fits : Fits rows.quota.max_ascend_npus (
      rows.state.reserved_ascend_npus
      + ascend_share vendor gpus
      + rows.state.service_reserved_ascend_npus)
  pub cost_fits :
      Fits rows.quota.daily_cost_limit
        (rows.state.daily_settled_cost + rows.state.daily_reserved_cost + cost)

-- One task goes from the queue to those that run, and takes what it asks for.
abbrev pub with_task :
    ℕ → ProjectQuotaState → ℕ → ℕ → ℕ → ℕ → Option AcceleratorVendor → ProjectQuotaState
with_task now s cpu memory gpus cost vendor = record s {
  queued_tasks = s.queued_tasks - 1;
  running_tasks = s.running_tasks + 1;
  reserved_cpu_millicores = s.reserved_cpu_millicores + cpu;
  reserved_memory_mb = s.reserved_memory_mb + memory;
  reserved_gpus = s.reserved_gpus + gpus;
  reserved_nvidia_gpus = s.reserved_nvidia_gpus + nvidia_share vendor gpus;
  reserved_ascend_npus = s.reserved_ascend_npus + ascend_share vendor gpus;
  daily_reserved_cost = s.daily_reserved_cost + cost;
  version = s.version + 1;
  updated_at = now;
}

abbrev pub Reserves : Session → Reservation → Session → QuotaSnapshot → Type 0
Reserves db r after rows =
    (cpu : ℕ) × (memory : ℕ) × (gpus : ℕ) × (cost : ℕ) × (vendor : Option AcceleratorVendor)
    × Allows rows r cpu memory gpus cost vendor
    × (after ≡ save db rows.quota (with_task db.now rows.state cpu memory gpus cost vendor))

pub known_vendor :
    (text : Option String) (gpus : ℕ) (vendor : Option AcceleratorVendor)
    → (normalize_accelerator_vendor text gpus ≡ ok vendor) ↔ IsVendorOf vendor text gpus
unfolding normalize_accelerator_vendor
known_vendor text gpus vendor = (to text, from text)
  where
    to :
        (text : Option String)
        → normalize_accelerator_vendor text gpus ≡ ok vendor
        → IsVendorOf vendor text gpus
    to none h = ground arith
    to (some t) h = ground (arith, (eq_iff t "nvidia").0, (eq_iff t "huawei-ascend").0)

    from :
        (text : Option String)
        → IsVendorOf vendor text gpus
        → normalize_accelerator_vendor text gpus ≡ ok vendor
    from text h = ground arith

shares_add :
    (text : Option String) (gpus : ℕ) (vendor : Option AcceleratorVendor)
    → IsVendorOf vendor text gpus
    → nvidia_share vendor gpus + ascend_share vendor gpus ≡ gpus
shares_add text gpus vendor h = ground arith

valid_parts :
    (r : Reservation)
    → validate_reservation r.cpu_millicores r.memory_mb r.gpu_count r.cost ≡ ok tt
    → (r.cpu_millicores ≡ pos (pos_part r.cpu_millicores))
      × (r.memory_mb ≡ pos (pos_part r.memory_mb))
      × (r.gpu_count ≡ pos (pos_part r.gpu_count))
      × (r.cost ≡ pos (pos_part r.cost))
unfolding validate_reservation
valid_parts r h = ground arith

reserved_same :
    (now : ℕ) (s : ProjectQuotaState) (r : Reservation) (vendor : Option AcceleratorVendor)
    → Typed s
    → IsVendorOf vendor r.accelerator_vendor (pos_part r.gpu_count)
    → touched now (reserve s (amounts r vendor))
      ≡ with_task now s
          (pos_part r.cpu_millicores)
          (pos_part r.memory_mb)
          (pos_part r.gpu_count)
          (pos_part r.cost)
          vendor
unfolding touched reserve amounts
reserved_same now s r vendor typed known =
    ap
      (λ n.
        record (with_task now s (pos_part r.cpu_millicores) (pos_part r.memory_mb)
          (pos_part r.gpu_count) (pos_part r.cost) vendor) { reserved_gpus = n })
      (omega
        (arith, typed.tasks, shares_add r.accelerator_vendor (pos_part r.gpu_count) vendor known))

TakesUp-Reserves :
    (db : Session) (r : Reservation) (after : Session) (rows : QuotaSnapshot)
    → Typed rows.state
    → TakesUp db r after rows
    → Reserves db r after rows
unfolding reservation_claims amounts
TakesUp-Reserves db r after rows typed (vendor, able, e) =
    let known = (known_vendor r.accelerator_vendor (pos_part r.gpu_count) vendor).0 able.known in
    let (asks_cpu, asks_memory, asks_gpus, asks_cost) = valid_parts r able.valid in
    let (tasks, (cpu, (memory, (gpus, (nvidia_gpus, (ascend_npus, (cost, _))))))) = able.fits in
    (
      pos_part r.cpu_millicores,
      pos_part r.memory_mb,
      pos_part r.gpu_count,
      pos_part r.cost,
      vendor,
      record {
        asks_cpu = asks_cpu;
        asks_memory = asks_memory;
        asks_gpus = asks_gpus;
        asks_cost = asks_cost;
        vendor_known = known;
        some_queued = able.queued;
        tasks_fit = tasks;
        cpu_fits = cpu;
        memory_fits = memory;
        gpus_fit = gpus;
        nvidia_fits = nvidia_gpus;
        ascend_fits = ascend_npus;
        cost_fits = cost;
      },
      e ∙ ap (save db rows.quota) (reserved_same db.now rows.state r vendor typed known),
    )

-- The amounts of a reservation are the natural numbers that it asks for.
amounts_asked :
    (rows : QuotaSnapshot) (r : Reservation) {cpu memory gpus cost : ℕ}
    {vendor : Option AcceleratorVendor}
    → Allows rows r cpu memory gpus cost vendor
    → (cpu ≡ pos_part r.cpu_millicores)
      × (memory ≡ pos_part r.memory_mb)
      × (gpus ≡ pos_part r.gpu_count)
      × (cost ≡ pos_part r.cost)
amounts_asked rows r a = (
  sym (ap pos_part a.asks_cpu),
  sym (ap pos_part a.asks_memory),
  sym (ap pos_part a.asks_gpus),
  sym (ap pos_part a.asks_cost),
)

Allows-Reservable :
    (rows : QuotaSnapshot) (r : Reservation) (vendor : Option AcceleratorVendor)
    → Allows rows r
        (pos_part r.cpu_millicores)
        (pos_part r.memory_mb)
        (pos_part r.gpu_count)
        (pos_part r.cost)
        vendor
    → Reservable rows r vendor
unfolding reservation_claims amounts validate_reservation
Allows-Reservable rows r vendor a = record {
  valid = ground (arith, a.asks_cpu, a.asks_memory, a.asks_gpus, a.asks_cost);
  known = (known_vendor r.accelerator_vendor (pos_part r.gpu_count) vendor).1 a.vendor_known;
  queued = a.some_queued;
  fits = (
    a.tasks_fit,
    (
      a.cpu_fits,
      (a.memory_fits, (a.gpus_fit, (a.nvidia_fits, (a.ascend_fits, (a.cost_fits, tt))))),
    ),
  );
}

replaced :
    (P : ℕ → ℕ → ℕ → ℕ → Type 0) {a b c d x y z w : ℕ}
    → a ≡ x
    → b ≡ y
    → c ≡ z
    → d ≡ w
    → P a b c d
    → P x y z w
replaced P {a} {b} {c} {d} {x} {y} {z} {w} h1 h2 h3 h4 p =
    subst (λ n. P n y z w) h1
      (subst (λ n. P a n z w) h2 (subst (λ n. P a b n w) h3 (subst (P a b c) h4 p)))

Reserves-TakesUp :
    (db : Session) (r : Reservation) (after : Session) (rows : QuotaSnapshot)
    → Typed rows.state
    → Reserves db r after rows
    → TakesUp db r after rows
Reserves-TakesUp db r after rows typed (cpu, memory, gpus, cost, vendor, a, e) =
    let (same_cpu, same_memory, same_gpus, same_cost) = amounts_asked rows r a in
    let (b, same) =
      replaced
        (λ c m g k.
          Allows rows r c m g k vendor
          × (after ≡ save db rows.quota (with_task db.now rows.state c m g k vendor)))
        same_cpu same_memory same_gpus same_cost (a, e) in
    (
      vendor,
      Allows-Reservable rows r vendor b,
      same
          ∙ ap (save db rows.quota)
              (sym (reserved_same db.now rows.state r vendor typed b.vendor_known)),
    )

-- On locked rows a reservation is made exactly when it asks for natural numbers, a task is queued, the
-- vendor is one that is known, and no limit on the tasks and replicas that run, on CPU, memory, devices,
-- devices of a vendor, or the cost of a day is passed; one task then goes from the queue to those that
-- run, with what it asks for, and nothing else changes.
pub reserve_execution_iff :
    (db : Session) (r : Reservation) {rows : QuotaSnapshot} (after : Session)
    → get_locked db ≡ ok rows
    → (reserve_execution db r ≡ ok after) ↔ Reserves db r after rows
reserve_execution_iff db r {rows} after locked =
    let typed = (get_locked-Current db locked).0 in
    let takes = reserve_execution-TakesUp db r after locked in
    (
      λ h. TakesUp-Reserves db r after rows typed (takes.0 h),
      λ h. takes.1 (Reserves-TakesUp db r after rows typed h),
    )
