-- ===== src/Repositories/Reservations/Settled.antt =====
-- repositories/reservations.py: what a settlement leaves.
use mini_ai_cloud.Prelude.{
  ℕ, ◌+◌, ◌≤◌, ◌≡◌, refl, sym, ap, ◌∙◌, subst, inl, inr, ◌⊎◌, Bool, true, false, Option, none, some,
  List, [], ◌∷◌, map, All, length, is_some, ok, ok_parts, ok_injective, Option-cases, arith,
}
use mini_ai_cloud.Prelude.Text.{String}
use mini_ai_cloud.Prelude.Floats.{Floats}
use mini_ai_cloud.Repositories.Quotas.Model.{ProjectQuotaState, QuotaSnapshot, Session, date_of}
use mini_ai_cloud.Repositories.Quotas.Operations.{get_locked, save}
use mini_ai_cloud.Repositories.Quotas.Execution.{get_locked-Current, locked_as_is}
use mini_ai_cloud.Repositories.Tasks.Model.{lifted-ok, Worker}
use mini_ai_cloud.Repositories.Tasks.Lifecycle.{find_worker}
use mini_ai_cloud.Repositories.Reservations.Settlement.{
  Reserved, Execution, quota_error, release_link, mark_released, SettlementRows, settle_worker,
  released_quota, settle_use, active_reservation, present, locked, settle, release_and_settle,
}
use mini_ai_cloud.Repositories.Reservations.Used.{costs, Prices, enter_use-Used}
use mini_ai_cloud.Repositories.Reservations.Returned.{
  Returned, release-parts, GivesBack, settle_worker-GivesBack,
}

module _ (fl : Floats) (quantize : ℕ → ℕ) (cost_float : ℕ → fl.F) where
  abbrev Db : Type 0
  Db = SettlementRows fl quantize cost_float

  -- What a settlement leaves, where the reservation `r` was active.
  pub record Settles (db after : Db) (now : ℕ) (reason : String) : Type 0 where
    pub r : Reserved
    pub active : active_reservation fl quantize cost_float db ≡ some r
    pub released : after.reservation ≡ some (mark_released r now reason)
    pub links : All (λ link. is_some link ≡ true) after.links
    pub worker :
        (w : Worker fl)
        → find_worker fl r.worker_id db.workers ≡ some w
        → (v : Worker fl) × (find_worker fl r.worker_id after.workers ≡ some v) × GivesBack fl w v r
    pub task : (c : Option fl.F) × (after.task ≡ record (db.task) { estimated_cost = c })
    pub execution : Execution
    pub executed : db.execution ≡ some execution
    pub cost : ℕ
    pub prices :
        Prices fl quantize cost_float execution now db.task.started_at db.ledger cost
          db.task.estimated_cost after.task.estimated_cost
    pub entered : costs after.ledger ≡ costs db.ledger + cost
    pub recorded : is_some db.task.started_at ≡ true → 1 ≤ length after.ledger
    pub few : length db.ledger ≤ 1 → length after.ledger ≤ 1
    pub quota :
        (rows : QuotaSnapshot) × (t : ProjectQuotaState) × (get_locked db.quota ≡ ok rows)
        × (after.quota ≡ save db.quota rows.quota t)
        × Returned rows.state t r cost

  present-some :
      (row : Option Execution) {e : Execution}
      → present fl quantize cost_float row ≡ ok e
      → row ≡ some e
  present-some none h = cc
  present-some (some x) h = ap some (ok_injective h)

  links_released :
      (now : ℕ) (links : List (Option ℕ))
      → All (λ link. is_some link ≡ true) (map (release_link now) links)
  links_released now [] = tt
  links_released now (none ∷ links) = (refl, links_released now links)
  links_released now (some time ∷ links) = (refl, links_released now links)

  -- The counters that are locked a second time are those that were locked first.
  paid-Returned :
      (db : Session) (r : Reserved) (cost : ℕ) {middle after : Session}
      → locked fl quantize cost_float db ≡ ok middle
      → released_quota fl quantize cost_float middle r cost ≡ ok after
      → (rows : QuotaSnapshot) × (t : ProjectQuotaState) × (get_locked db ≡ ok rows)
        × (after ≡ save db rows.quota t)
        × Returned rows.state t r cost
  paid-Returned db r cost {middle} {after} h k =
      let (rows, got, same) = ok_parts (get_locked db) _ (lifted-ok quota_error _ h) in
      subst
        (λ (m : Session).
          released_quota fl quantize cost_float m r cost ≡ ok after
          → (rows : QuotaSnapshot) × (t : ProjectQuotaState) × (get_locked db ≡ ok rows)
            × (after ≡ save db rows.quota t)
            × Returned rows.state t r cost)
        (ok_injective same)
        (λ paid.
          let (again, t, twice, saved, returned) =
            release-parts (save db rows.quota rows.state) r cost (some (date_of r.created_at))
              (lifted-ok quota_error _ paid) in
          let (typed, today) = get_locked-Current db got in
          let e = ok_injective (sym twice ∙ locked_as_is db rows.quota rows.state typed today) in
          (
            rows,
            t,
            got,
            saved ∙ ap (λ (x : QuotaSnapshot). save db x.quota t) e,
            subst (λ (x : QuotaSnapshot). Returned x.state t r cost) e returned,
          ))
        k

  worker_left :
      (ws vs us : List (Worker fl)) (r : Reserved) {w : Worker fl}
      → settle_worker fl quantize cost_float r ws ≡ ok vs
      → us ≡ vs
      → find_worker fl r.worker_id ws ≡ some w
      → (v : Worker fl) × (find_worker fl r.worker_id us ≡ some v) × GivesBack fl w v r
  worker_left ws vs us r {w} h e k =
      subst
        (λ (xs : List (Worker fl)).
          (v : Worker fl) × (find_worker fl r.worker_id xs ≡ some v) × GivesBack fl w v r)
        (sym e) (settle_worker-GivesBack fl quantize cost_float r ws h k)

  settle-Settles :
      (db : Db) (r : Reserved) (status : String) (now : ℕ) (reason : String) {after : Db}
      → active_reservation fl quantize cost_float db ≡ some r
      → settle fl quantize cost_float db r status now reason ≡ ok after
      → Settles db after now reason
  unfolding settle settle_use
  settle-Settles db r status now reason {after} active h =
      let (quota, lock, h1) = ok_parts (locked fl quantize cost_float db.quota) _ h in
      let (workers, gave, h2) = ok_parts (settle_worker fl quantize cost_float r db.workers) _ h1 in
      let (e, there, h3) = ok_parts (present fl quantize cost_float db.execution) _ h2 in
      let middle = record db {
        workers = workers;
        reservation = some (mark_released r now reason);
        links = map (release_link now) db.links;
        quota = quota;
      } in
      let used =
        enter_use-Used fl quantize cost_float middle r
          (record e { status = status; finished_at = some now }) now db.task.started_at db.ledger
          refl h3 in
      record {
        r = r;
        active = active;
        released = used.reservation;
        links =
            subst (All (λ link. is_some link ≡ true)) (sym used.links)
              (links_released now db.links);
        worker = λ w k. worker_left db.workers workers after.workers r gave used.workers k;
        task = used.task;
        execution = e;
        executed = present-some db.execution there;
        cost = used.cost;
        prices = used.prices;
        entered = used.entered;
        recorded = used.recorded;
        few = used.few;
        quota = paid-Returned db.quota r used.cost lock used.paid;
      }

  settled_again :
      (db : Db) (r : Reserved) (now : ℕ) (reason : String)
      → db.reservation ≡ some (mark_released r now reason)
      → (status2 : String) (now2 : ℕ) (reason2 : String)
      → release_and_settle fl quantize cost_float db status2 now2 reason2 ≡ ok (false, db)
  unfolding release_and_settle
  settled_again db r now reason h status2 now2 reason2 = ground (arith, h)

  -- Nothing is there to be released, or all of it is.
  pub release_and_settle_cases :
      (db : Db) (status : String) (now : ℕ) (reason : String) {b : Bool} {after : Db}
      → release_and_settle fl quantize cost_float db status now reason ≡ ok (b, after)
      → ((b ≡ false) × (after ≡ db) × (active_reservation fl quantize cost_float db ≡ none))
        ⊎ ((b ≡ true) × Settles db after now reason)
  unfolding release_and_settle
  release_and_settle_cases db status now reason {b} {after} h =
      elim (Option-cases (active_reservation fl quantize cost_float db)) [
        | inl missing ↦
            let same = ok_injective (rw (missing, release_and_settle) at h) in
            inl (
              sym (ap (λ (x : Bool × Db). x.0) same),
              sym (ap (λ (x : Bool × Db). x.1) same),
              missing,
            )
        | inr (r, active) ↦
            let (left, settled, made) =
              ok_parts (settle fl quantize cost_float db r status now reason)
                (λ after. ok (true, after)) (rw (active, release_and_settle) at h) in
            let same = ok_injective made in
            inr (
              sym (ap (λ (x : Bool × Db). x.0) same),
              settle-Settles db r status now reason active
                  (settled ∙ ap ok (ap (λ (x : Bool × Db). x.1) same)),
            )
      ]

  -- A settlement that releases something finds an active reservation and marks it and its devices
  -- released; the worker that held it and the project get back what it held. Where the task has started
  -- and no use is entered, the use from the start on is priced and its cost noted on the task, and
  -- otherwise the cost is nothing and the note stays; the cost that is added to the entries of use is the
  -- one that the project pays; an execution that has started has an entry then, and one alone if it had at
  -- most one. After that a settlement does nothing.
  pub release_and_settle-Settles :
      (db : Db) (status : String) (now : ℕ) (reason : String) {after : Db}
      → release_and_settle fl quantize cost_float db status now reason ≡ ok (true, after)
      → Settles db after now reason
        × ((status2 : String) (now2 : ℕ) (reason2 : String)
            → release_and_settle fl quantize cost_float after status2 now2 reason2
              ≡ ok (false, after))
  release_and_settle-Settles db status now reason {after} h =
      elim (release_and_settle_cases db status now reason h) [
        | inl (nothing, _, _) ↦ cc
        | inr (_, done) ↦ (
          done,
          λ status2 now2 reason2.
              settled_again after done.r now reason done.released status2 now2 reason2,
        )
      ]
