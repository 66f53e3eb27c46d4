-- ===== src/Repositories/Quotas/Execution.antt =====
-- repositories/quotas.py: when an execution is reserved.
use mini_ai_cloud.Prelude.{
  ℕ, ◌≤◌, ◌≡◌, refl, sym, ap, ◌∙◌, subst, ◌↔◌, inl, inr, Option, ◌==◌, ltb, ok, raise_if, ok_parts,
  ok_injective, All, arith, Bool-cases,
}
use mini_ai_cloud.Prelude.Int.{pos_part}
use mini_ai_cloud.Core.Enums.{AcceleratorVendor}
use mini_ai_cloud.Repositories.Quotas.Model.{
  ProjectQuota, ProjectQuotaState, QuotaError, no_queued_task, QuotaSnapshot, Session, check_limits,
  date_of, validate_reservation, normalize_accelerator_vendor, assert_state_nonnegative,
  roll_daily_state, touch_state,
}
use mini_ai_cloud.Repositories.Quotas.Operations.{
  get_snapshot, get_locked, read_rows, save, reserve_execution, reserve, reservation_claims,
  Amounts, amounts, Reservation,
}
use mini_ai_cloud.Repositories.Quotas.Invariant.{
  Meets, check_limits_iff, Typed, assert_iff, touched, touch_state-ok,
}

roll-ok :
    (now : ℕ) (s : ProjectQuotaState)
    → Typed s
    → Typed (roll_daily_state now s) × ((roll_daily_state now s).accounting_date ≡ date_of now)
unfolding roll_daily_state
roll-ok now s t = elim (Bool-cases (s.accounting_date == date_of now)) [
  | inl same ↦ ground arith
  | inr other ↦ ground arith
]

-- What the rows are once they are locked: the totals fit, and the counters are those of the day.
abbrev pub Current : Session → QuotaSnapshot → Type 0
Current db rows = Typed rows.state × (rows.state.accounting_date ≡ date_of db.now)

pub get_locked-Current :
    (db : Session) {rows : QuotaSnapshot} → get_locked db ≡ ok rows → Current db rows
unfolding get_locked get_snapshot
get_locked-Current db {rows} h =
    let (read, snapshot, rolled) = ok_parts (get_snapshot db) _ h in
    let (first, found, checked) = ok_parts (read_rows db.quota db.state) _ snapshot in
    let (u, fine, same) = ok_parts (assert_state_nonnegative first.state) _ checked in
    subst (Current db) (ok_injective rolled) (
      roll-ok db.now read.state (
        subst (λ (r : QuotaSnapshot). Typed r.state) (ok_injective same)
          ((assert_iff first.state).0 fine)))

-- Rows of today whose totals fit are locked as they are.
pub locked_as_is :
    (db : Session) (q : ProjectQuota) (s : ProjectQuotaState)
    → Typed s
    → s.accounting_date ≡ date_of db.now
    → get_locked (save db q s) ≡ ok (record { quota = q; state = s })
unfolding get_locked get_snapshot read_rows roll_daily_state
locked_as_is db q s t d = ground (arith, (assert_iff s).1 t)

pub touch_state_complete :
    (now : ℕ) (s : ProjectQuotaState) → Typed s → touch_state now s ≡ ok (touched now s)
unfolding touch_state touched
touch_state_complete now s t = ground (arith, (assert_iff s).1 t)

pub Typed-reserve : (s : ProjectQuotaState) (a : Amounts) → Typed s → Typed (reserve s a)
unfolding reserve
Typed-reserve s a t = record { tasks = refl; services = t.services }

-- The conditions under which a reservation is made on the rows `rows`.
pub record Reservable (rows : QuotaSnapshot) (r : Reservation) (vendor : Option AcceleratorVendor)
    : Type 0 where
  pub valid : validate_reservation r.cpu_millicores r.memory_mb r.gpu_count r.cost ≡ ok tt
  pub known : normalize_accelerator_vendor r.accelerator_vendor (pos_part r.gpu_count) ≡ ok vendor
  pub queued : 1 ≤ rows.state.queued_tasks
  pub fits : All Meets (reservation_claims rows.quota rows.state (amounts r vendor))

abbrev pub TakesUp : Session → Reservation → Session → QuotaSnapshot → Type 0
TakesUp db r after rows =
    (vendor : Option AcceleratorVendor) × Reservable rows r vendor
    × (after ≡ save db rows.quota (touched db.now (reserve rows.state (amounts r vendor))))

one_queued : (n : ℕ) (e : QuotaError) → raise_if (ltb n 1) e ≡ ok tt → 1 ≤ n
one_queued n e h = ground arith

reserve_execution-parts :
    (db : Session) (r : Reservation) {after : Session}
    → reserve_execution db r ≡ ok after
    → (rows : QuotaSnapshot) × (get_locked db ≡ ok rows) × TakesUp db r after rows
unfolding reserve_execution
reserve_execution-parts db r h =
    let (u, valid, h1) =
      ok_parts (validate_reservation r.cpu_millicores r.memory_mb r.gpu_count r.cost) _ h in
    let (rows, locked, h2) = ok_parts (get_locked db) _ h1 in
    let (vendor, normal, h3) =
      ok_parts (normalize_accelerator_vendor r.accelerator_vendor (pos_part r.gpu_count)) _ h2 in
    let (v, queued, h4) = ok_parts (raise_if (ltb rows.state.queued_tasks 1) _) _ h3 in
    let claims = reservation_claims rows.quota rows.state (amounts r vendor) in
    let (w, limits, h5) = ok_parts (check_limits claims) _ h4 in
    let (t, touch, same) =
      ok_parts (touch_state db.now (reserve rows.state (amounts r vendor))) _ h5 in
    (
      rows,
      locked,
      (
        vendor,
        record {
          valid = valid;
          known = normal;
          queued = one_queued rows.state.queued_tasks no_queued_task queued;
          fits = (check_limits_iff claims).0 limits;
        },
        sym (ok_injective same)
            ∙ ap (save db rows.quota)
                (touch_state-ok db.now (reserve rows.state (amounts r vendor)) touch).1,
      ),
    )

-- On locked rows a reservation is made exactly when its amounts are not negative, its vendor is
-- known, a task is queued and no limit is passed; the rows are then those that it should leave.
pub reserve_execution-TakesUp :
    (db : Session) (r : Reservation) {rows : QuotaSnapshot} (after : Session)
    → get_locked db ≡ ok rows
    → (reserve_execution db r ≡ ok after) ↔ TakesUp db r after rows
unfolding reserve_execution
reserve_execution-TakesUp db r {rows} after locked = (to, from)
  where
    to : reserve_execution db r ≡ ok after → TakesUp db r after rows
    to h =
        let (found, locked_too, reserved) = reserve_execution-parts db r h in
        subst (TakesUp db r after) (ok_injective (sym locked_too ∙ locked)) reserved

    from : TakesUp db r after rows → reserve_execution db r ≡ ok after
    from (vendor, able, e) =
        let a = amounts r vendor in
        ground (
          arith,
          locked,
          e,
          able.valid,
          able.known,
          able.queued,
          (check_limits_iff (reservation_claims rows.quota rows.state a)).1 able.fits,
          touch_state_complete db.now (reserve rows.state a)
              (Typed-reserve rows.state a (get_locked-Current db locked).0),
        )
