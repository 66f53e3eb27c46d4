-- ===== src/Repositories/Quotas/Restore.antt =====
-- repositories/quotas.py: a release gives back what a reservation took.
use mini_ai_cloud.Prelude.{
  ℕ, ◌+◌, ◌-◌, ◌≡◌, refl, sym, ap, ◌∙◌, subst, inl, inr, Bool, true, false, ◌&&◌, Option, none,
  some, ltb, ok, arith, Option-cases,
}
use mini_ai_cloud.Prelude.Int.{pos, pos_part}
use mini_ai_cloud.Prelude.Text.{String}
use mini_ai_cloud.Core.Enums.{AcceleratorVendor}
use mini_ai_cloud.Repositories.Quotas.Model.{
  ProjectQuota, ProjectQuotaState, QuotaSnapshot, Session, date_of, validate_reservation,
  normalize_accelerator_vendor, touch_state,
}
use mini_ai_cloud.Repositories.Quotas.Operations.{
  typed_reserved, get_locked, save, reserve_execution, release, reserve, unreserve, is_below,
  is_cost_of_today, Amounts, amounts, Reservation,
}
use mini_ai_cloud.Repositories.Quotas.Invariant.{Typed, Typed-touched, touched, shares-le}
use mini_ai_cloud.Repositories.Quotas.Execution.{
  reserve_execution-TakesUp, get_locked-Current, locked_as_is, touch_state_complete, Typed-reserve,
}

-- A release on the same day finds what the reservation took.
known_none : (text : Option String) (n : ℕ) → normalize_accelerator_vendor text n ≡ ok none → n ≡ 0
unfolding normalize_accelerator_vendor
known_none text n h = ground arith

reserve-is_below :
    (s : ProjectQuotaState) (a : Amounts) (now : ℕ)
    → ((a.vendor ≡ none) → a.gpu_count ≡ 0)
    → is_below (touched now (reserve s a)) a ≡ false
unfolding is_below typed_reserved touched reserve
reserve-is_below s a now h = elim (Option-cases a.vendor) [
  | inl e ↦ ground (arith, h e)
  | inr (v, e) ↦ ground (arith, shares-le a.vendor a.gpu_count)
]

-- What is left: one task fewer is queued, and the row was written twice.
abbrev pub dequeued : ℕ → ProjectQuotaState → ProjectQuotaState
dequeued time s = record s {
  queued_tasks = s.queued_tasks - 1;
  version = s.version + 1 + 1;
  updated_at = time;
}

unreserve-reserve :
    (s : ProjectQuotaState) (a : Amounts) (now later : ℕ)
    → Typed s
    → touched later (unreserve (touched now (reserve s a)) a 0 true) ≡ dequeued later s
unfolding touched reserve unreserve
unreserve-reserve s a now later t = ground (arith, t.tasks)

Typed-unreserve :
    (s : ProjectQuotaState) (a : Amounts) (settled : ℕ) (today : Bool)
    → Typed s
    → Typed (unreserve s a settled today)
unfolding unreserve
Typed-unreserve s a settled today t = record { tasks = refl; services = t.services }

reserve-cost :
    (s : ProjectQuotaState) (a : Amounts) (now : ℕ)
    → (true && ltb (touched now (reserve s a)).daily_reserved_cost a.cost) ≡ false
unfolding touched reserve
reserve-cost s a now = ground arith

day-reserve :
    (s : ProjectQuotaState) (a : Amounts) (now : ℕ)
    → (touched now (reserve s a)).accounting_date ≡ s.accounting_date
unfolding touched reserve
day-reserve s a now = refl

released :
    (db : Session) (q : ProjectQuota) (s t : ProjectQuotaState) (r : Reservation)
    (vendor : Option AcceleratorVendor)
    → validate_reservation r.cpu_millicores r.memory_mb r.gpu_count r.cost ≡ ok tt
    → normalize_accelerator_vendor r.accelerator_vendor (pos_part r.gpu_count) ≡ ok vendor
    → get_locked (save db q s) ≡ ok (record { quota = q; state = s })
    → is_below s (amounts r vendor) ≡ false
    → (true && ltb s.daily_reserved_cost (amounts r vendor).cost) ≡ false
    → touch_state db.now (unreserve s (amounts r vendor) 0 true) ≡ ok t
    → release (save db q s) r (pos 0) none ≡ ok (save db q t)
unfolding release is_cost_of_today
released db q s t r vendor valid known locked above cost touch = ground arith

normal_none :
    (r : Reservation) (vendor : Option AcceleratorVendor)
    → normalize_accelerator_vendor r.accelerator_vendor (pos_part r.gpu_count) ≡ ok vendor
    → (amounts r vendor).vendor ≡ none
    → (amounts r vendor).gpu_count ≡ 0
unfolding amounts
normal_none r vendor h e = known_none r.accelerator_vendor (pos_part r.gpu_count) (
    subst (λ v. normalize_accelerator_vendor r.accelerator_vendor (pos_part r.gpu_count) ≡ ok v) e
      h)

-- What a reservation took, a release of the same amounts on the same day gives back, whatever the
-- time of the day: the release succeeds, and but for the queued task, the version and the time of
-- the row the counters are those that were locked.
pub release-reserve_execution :
    (db : Session) (r : Reservation) {rows : QuotaSnapshot} {middle : Session} (later : ℕ)
    → get_locked db ≡ ok rows
    → reserve_execution db r ≡ ok middle
    → date_of later ≡ date_of db.now
    → release (record middle { now = later }) r (pos 0) none
      ≡ ok (record middle { now = later; state = some (dequeued later rows.state) })
release-reserve_execution db r {rows} {middle} later locked made same_day =
    let (vendor, able, e) = (reserve_execution-TakesUp db r middle locked).0 made in
    let (typed, today) = get_locked-Current db locked in
    let a = amounts r vendor in
    let s = touched db.now (reserve rows.state a) in
    let typed_s = Typed-touched db.now (reserve rows.state a) (Typed-reserve rows.state a typed) in
    let day = day-reserve rows.state a db.now ∙ today ∙ sym same_day in
    subst
      (λ (m : Session).
        release (record m { now = later }) r (pos 0) none
        ≡ ok (record m { now = later; state = some (dequeued later rows.state) }))
      (sym e)
      (released (record db { now = later }) rows.quota s (dequeued later rows.state) r vendor
        able.valid able.known (locked_as_is (record db { now = later }) rows.quota s typed_s day)
        (reserve-is_below rows.state a db.now (normal_none r vendor able.known))
        (reserve-cost rows.state a db.now)
        (touch_state_complete later (unreserve s a 0 true) (Typed-unreserve s a 0 true typed_s)
          ∙ ap ok (unreserve-reserve rows.state a db.now later typed)))
