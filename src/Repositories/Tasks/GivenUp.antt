-- ===== src/Repositories/Tasks/GivenUp.antt =====
-- repositories/tasks.py: what a worker, a project and a reservation have back once an execution has
-- ended or its lease has run out.
use mini_ai_cloud.Prelude.{
  found, passed, ℕ, ◌-◌, ◌≡◌, refl, sym, ap, subst, ◌⊎◌, inl, inr, Bool, true, false, Option, none,
  some, List, [], ◌∷◌, is_some, if◌then◌else◌, ok, ok_parts, ok_injective, Bool-cases,
}
use mini_ai_cloud.Prelude.Text.{String, ◌===◌}
use mini_ai_cloud.Prelude.Floats.{Floats, float_max}
use mini_ai_cloud.Repositories.Tasks.Model.{Task, Worker}
use mini_ai_cloud.Repositories.Tasks.Lifecycle.{find_worker, Claimant}
use mini_ai_cloud.Core.Enums.{TaskStatus}
use mini_ai_cloud.Repositories.Tasks.Cancel.{release_worker_capacity, release_on}
use mini_ai_cloud.Repositories.Tasks.Ending.{status_value}
use mini_ai_cloud.Repositories.Tasks.Finish.{
  FinishRows, settlement_of, settled_rows, release_capacity,
}
use mini_ai_cloud.Repositories.Tasks.Recover.{Reason, idle, settled_for, execution_or, revoke}
use mini_ai_cloud.Repositories.Reservations.Settlement.{
  Reserved, SettlementRows, active_row, release_and_settle,
}
use mini_ai_cloud.Repositories.Reservations.Settled.{Settles, release_and_settle_cases}

module _ (fl : Floats) where
  -- The counters of a worker before and after a task is taken off it, none of them below 0.
  pub record Frees (w v : Worker fl) (t : Task fl) : Type 0 where
    pub running : v.running_tasks ≡ w.running_tasks - 1
    pub cpu :
        v.reserved_cpu ≡ float_max fl (fl.of_nat 0) (fl.add w.reserved_cpu (fl.neg t.cpu_limit))
    pub memory : v.reserved_memory_mb ≡ w.reserved_memory_mb - t.memory_limit_mb
    pub gpus : v.reserved_gpus ≡ w.reserved_gpus - t.gpu_count

  release-Frees : (w : Worker fl) (t : Task fl) → Frees w (release_worker_capacity fl w t) t
  unfolding release_worker_capacity
  release-Frees w t = record { running = refl; cpu = refl; memory = refl; gpus = refl }

  released_first :
      (w : Worker fl) (t : Task fl) (id : String) (ws : List (Worker fl))
      → (w.id === id) ≡ true
      → find_worker fl id (release_worker_capacity fl w t ∷ ws)
        ≡ some (release_worker_capacity fl w t)
  unfolding release_worker_capacity
  released_first w t id ws hit = rw hit

  pub release_on-Frees :
      (id : String) (t : Task fl) (ws : List (Worker fl)) {w : Worker fl}
      → find_worker fl id ws ≡ some w
      → (v : Worker fl) × (find_worker fl id (release_on fl (some id) t ws) ≡ some v) × Frees w v t
  unfolding release_on
  release_on-Frees id t [] h = cc
  release_on-Frees id t (x ∷ xs) {w} h = elim (Bool-cases (x.id === id)) [
    | inl hit ↦ (
      release_worker_capacity fl x t,
      rw hit (released_first x t id xs hit),
      subst (λ (y : Worker fl). Frees y (release_worker_capacity fl x t) t)
          (found x w (find_worker fl id xs) (x.id === id) hit h) (release-Frees x t),
    )
    | inr miss ↦
        let (v, there, frees) =
          release_on-Frees id t xs (passed x w (find_worker fl id xs) (x.id === id) miss h) in
        (v, rw (miss, miss) there, frees)
  ]

module _ (fl : Floats) (quantize : ℕ → ℕ) (cost_float : ℕ → fl.F) where
  abbrev Db : Type 0
  Db = FinishRows fl quantize cost_float

  -- The reservation is settled, for the task `t`.
  pub record IsSettled (db : Db) (t : Task fl) (reason : String) (after : Db) : Type 0 where
    pub rows : SettlementRows fl quantize cost_float
    pub settles :
        Settles fl quantize cost_float
          (settlement_of fl quantize cost_float db t)
          rows
          db.rows.quota.now
          reason
    pub workers : after.rows.workers ≡ rows.workers
    pub quota : after.rows.quota ≡ rows.quota
    pub reservation : after.reservation ≡ rows.reservation
    pub links : after.links ≡ rows.links
    pub ledger : after.ledger ≡ rows.ledger

  -- The worker gets back what the task holds, and nothing else is settled.
  pub record IsReleased (db : Db) (t : Task fl) (worker_id : Option String) (after : Db)
      : Type 0 where
    pub workers :
        (id : String) (w : Worker fl)
        → worker_id ≡ some id
        → find_worker fl id db.rows.workers ≡ some w
        → (v : Worker fl) × (find_worker fl id after.rows.workers ≡ some v) × Frees fl w v t
    pub quota : after.rows.quota ≡ db.rows.quota
    pub reservation : after.reservation ≡ db.reservation
    pub links : after.links ≡ db.links
    pub ledger : after.ledger ≡ db.ledger

  -- What the end of an execution gives back: which of the two it is depends on whether its reservation
  -- is active.
  abbrev pub GivesBackOf : Db → Task fl → Option String → String → Db → Type 0
  GivesBackOf db t worker_id reason after =
      (((r : Reserved) × (active_row db.reservation ≡ some r)) × IsSettled db t reason after)
      ⊎ ((active_row db.reservation ≡ none) × IsReleased db t worker_id after)

  -- A task without an execution has its worker alone.
  abbrev pub GivesUp : Db → Task fl → Db → Type 0
  GivesUp db t after =
      ((is_some t.execution_id ≡ true)
        × GivesBackOf db (idle fl quantize cost_float t) t.worker_id "execution_lease_expired"
            after)
      ⊎ ((t.execution_id ≡ none) × IsReleased db (idle fl quantize cost_float t) t.worker_id after)

  abbrev left_by : Db → ℕ → Option String → Bool × SettlementRows fl quantize cost_float → Db
  left_by db execution_id worker_id x =
      settled_rows fl quantize cost_float db execution_id db.rows.quota.now x
        (if x.0 then x.1.workers else release_on fl worker_id x.1.task x.1.workers)

  unsettled-IsReleased :
      (db : Db) (t : Task fl) (execution_id : ℕ) (worker_id : Option String)
      → IsReleased db t worker_id
          (left_by db execution_id worker_id (false, settlement_of fl quantize cost_float db t))
  unsettled-IsReleased db t execution_id worker_id = record {
    workers = λ id w held there. released worker_id id w held there;
    quota = refl;
    reservation = refl;
    links = refl;
    ledger = refl;
  }
    where
      released :
          (worker_id : Option String) (id : String) (w : Worker fl)
          → worker_id ≡ some id
          → find_worker fl id db.rows.workers ≡ some w
          → (v : Worker fl) × (find_worker fl id (release_on fl worker_id t db.rows.workers)
              ≡ some v)
            × Frees fl w v t
      released worker_id id w held there =
          subst
            (λ (o : Option String).
              (v : Worker fl) × (find_worker fl id (release_on fl o t db.rows.workers) ≡ some v)
              × Frees fl w v t)
            (sym held) (release_on-Frees fl id t db.rows.workers there)

  pair :
      (y : Bool × SettlementRows fl quantize cost_float) {b : Bool}
      {s : SettlementRows fl quantize cost_float}
      → y.0 ≡ b
      → y.1 ≡ s
      → y ≡ (b, s)
  pair y e f = cc

  settled-GivesBackOf :
      (db : Db) (t : Task fl) (execution_id : ℕ) (worker_id : Option String)
      (status reason : String) {x : Bool × SettlementRows fl quantize cost_float}
      → release_and_settle fl quantize cost_float
          (settlement_of fl quantize cost_float db t)
          status
          db.rows.quota.now
          reason
        ≡ ok x
      → GivesBackOf db t worker_id reason (left_by db execution_id worker_id x)
  settled-GivesBackOf db t execution_id worker_id status reason {x} h =
      elim (release_and_settle_cases fl quantize cost_float
        (settlement_of fl quantize cost_float db t) status db.rows.quota.now reason h) [
          | inl (nothing, same, missing) ↦
              subst
                (λ (y : Bool × SettlementRows fl quantize cost_float).
                  GivesBackOf db t worker_id reason (left_by db execution_id worker_id y))
                (sym (pair x nothing same))
                (inr (missing, unsettled-IsReleased db t execution_id worker_id))
          | inr (released, done) ↦ inl (
            (done.r, done.active),
            record {
              rows = x.1;
              settles = done;
              workers =
                  ap (λ b. if b then x.1.workers else release_on fl worker_id x.1.task x.1.workers)
                    released;
              quota = refl;
              reservation = refl;
              links = refl;
              ledger = refl;
            },
          )
        ]

  settled_for-GivesUp :
      (db : Db) (t : Task fl) (execution_id : Option ℕ) (r : Reason)
      {x : Bool × SettlementRows fl quantize cost_float}
      → t.execution_id ≡ execution_id
      → settled_for fl quantize cost_float execution_id
          (settlement_of fl quantize cost_float db (idle fl quantize cost_float t))
          r
          db.rows.quota.now
        ≡ ok x
      → GivesUp db t
          (left_by db (execution_or fl quantize cost_float 0 t.execution_id) t.worker_id x)
  settled_for-GivesUp db t none r no_execution h =
      subst
        (λ (x : Bool × SettlementRows fl quantize cost_float).
          GivesUp db t
            (left_by db (execution_or fl quantize cost_float 0 t.execution_id) t.worker_id x))
        (ok_injective h)
        (inr (
          no_execution,
          unsettled-IsReleased db (idle fl quantize cost_float t)
              (execution_or fl quantize cost_float 0 t.execution_id) t.worker_id,
        ))
  settled_for-GivesUp db t (some id) r has_execution h = inl (
    ap is_some has_execution,
    settled-GivesBackOf db (idle fl quantize cost_float t)
        (execution_or fl quantize cost_float 0 t.execution_id) t.worker_id (status_value r.target)
        "execution_lease_expired" h,
  )

  -- A task that is taken off its worker gives up what it holds.
  pub revoke-GivesUp :
      (db : Db) (t : Task fl) (r : Reason) {after : Db}
      → revoke fl quantize cost_float db t r ≡ ok after
      → GivesUp db t after
  unfolding revoke
  revoke-GivesUp db t r h =
      let before = settlement_of fl quantize cost_float db (idle fl quantize cost_float t) in
      let (settled, found, made) =
        ok_parts (settled_for fl quantize cost_float t.execution_id before r db.rows.quota.now) _
          h in
      subst (GivesUp db t) (ok_injective made)
        (settled_for-GivesUp db t t.execution_id r refl found)

  -- What the execution that is reported as ended holds is given back.
  pub release_capacity-GivesBackOf :
      (db : Db) (t : Task fl) (c : Claimant fl) (target : TaskStatus) {after : Db}
      → release_capacity fl quantize cost_float db t c target ≡ ok after
      → GivesBackOf db t (some c.worker_id) (status_value target) after
  unfolding release_capacity
  release_capacity-GivesBackOf db t c target h =
      let (settled, found, made) =
        ok_parts
          (release_and_settle fl quantize cost_float (settlement_of fl quantize cost_float db t)
            (status_value target) db.rows.quota.now (status_value target))
          _ h in
      subst (GivesBackOf db t (some c.worker_id) (status_value target)) (ok_injective made) (
        settled-GivesBackOf db t c.execution_id (some c.worker_id) (status_value target)
          (status_value target) found)
