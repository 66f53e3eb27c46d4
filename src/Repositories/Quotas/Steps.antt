-- ===== src/Repositories/Quotas/Steps.antt =====
-- repositories/quotas.py: the transactions on the rows of a project as steps, and what they keep.
use mini_ai_cloud.Prelude.{
  ℕ, ◌+◌, ◌-◌, ◌≡◌, sym, subst, ◌&&◌, Option, none, some, [], ◌∷◌, ltb, ok, ◌>>=◌, raise_if,
  ok_parts, ok_injective, arith,
}
use mini_ai_cloud.Prelude.Int.{ℤ, pos, ltb_ℤ, pos_part}
use mini_ai_cloud.Repositories.Quotas.Model.{
  ProjectQuota, ProjectQuotaState, QuotaSnapshot, Session, claim, check_limits,
  validate_reservation, normalize_accelerator_vendor, assert_state_nonnegative, touch_state,
}
use mini_ai_cloud.Repositories.Quotas.Operations.{
  get_snapshot, get_locked, read_rows, save, admit_queued, release_queued, reserve_execution,
  release, reserve, unreserve, reservation_claims, is_below, is_cost_of_today, amounts, Reservation,
  or_new, new_quota, new_state,
}
use mini_ai_cloud.Repositories.Quotas.Invariant.{
  check_limits_iff, Sound, touch_state-ok, touched-Sound, roll-Sound, reserve-Sound,
  unreserve-Sound, Lower-Within,
}

-- The rows fit together, a missing row being the one that `initialize` would add.
abbrev pub IsSound : Session → Type 0
IsSound db = Sound (or_new db.quota (new_quota db.now)) (or_new db.state (new_state db.now))

rows-Sound :
    (now : ℕ) (oq : Option ProjectQuota) (os : Option ProjectQuotaState) {rows : QuotaSnapshot}
    → read_rows oq os ≡ ok rows
    → Sound (or_new oq (new_quota now)) (or_new os (new_state now))
    → Sound rows.quota rows.state
unfolding read_rows
rows-Sound now (some q) (some s) h k =
    subst (λ (r : QuotaSnapshot). Sound r.quota r.state) (ok_injective h) k
rows-Sound now (some q) none h k = cc
rows-Sound now none os h k = cc

pub get_locked-Sound :
    (db : Session) {rows : QuotaSnapshot}
    → IsSound db
    → get_locked db ≡ ok rows
    → Sound rows.quota rows.state
unfolding get_locked get_snapshot
get_locked-Sound db sound h =
    let (read, snapshot, rolled) = ok_parts (get_snapshot db) _ h in
    let (first, found, checked) = ok_parts (read_rows db.quota db.state) _ snapshot in
    let (u, v, same) = ok_parts (assert_state_nonnegative first.state) _ checked in
    subst (λ (r : QuotaSnapshot). Sound r.quota r.state) (ok_injective rolled)
      (roll-Sound db.now read.quota read.state (
        subst (λ (r : QuotaSnapshot). Sound r.quota r.state) (ok_injective same)
          (rows-Sound db.now db.quota db.state found sound)))

pub touch_state-Sound :
    (now : ℕ) (q : ProjectQuota) (s : ProjectQuotaState) {t : ProjectQuotaState}
    → Sound q s
    → touch_state now s ≡ ok t
    → Sound q t
touch_state-Sound now q s h e =
    subst (Sound q) (sym (touch_state-ok now s e).1) (touched-Sound now q s h)

-- An operation that ends by touching and saving counters that are sound.
pub saved-Sound :
    (db : Session) (q : ProjectQuota) (s : ProjectQuotaState) {after : Session}
    → Sound q s
    → (touch_state db.now s >>= λ t. ok (save db q t)) ≡ ok after
    → IsSound after
saved-Sound db q s sound h =
    let (t, touch, same) = ok_parts (touch_state db.now s) _ h in
    subst IsSound (ok_injective same) (touch_state-Sound db.now q s sound touch)

pub admit_queued-Sound :
    (db : Session) {after : Session} → IsSound db → admit_queued db ≡ ok after → IsSound after
unfolding admit_queued
admit_queued-Sound db sound h =
    let (rows, locked, h1) = ok_parts (get_locked db) _ h in
    let asked =
      claim "queued_tasks" rows.quota.max_queued_tasks (rows.state.queued_tasks + 1) ∷ [] in
    let (u, limits, h2) = ok_parts (check_limits asked) _ h1 in
    let before = get_locked-Sound db sound locked in
    let fits = (check_limits_iff asked).0 limits in
    saved-Sound db rows.quota (record rows.state { queued_tasks = rows.state.queued_tasks + 1 })
      (record {
        typed = record { tasks = before.typed.tasks; services = before.typed.services };
        within = record {
          queued = fits.0;
          running = before.within.running;
          cpu = before.within.cpu;
          memory = before.within.memory;
          gpus = before.within.gpus;
          nvidia_gpus = before.within.nvidia_gpus;
          ascend_npus = before.within.ascend_npus;
          services = before.within.services;
          replicas = before.within.replicas;
          artifacts = before.within.artifacts;
        };
      })
      h2

dequeued-Sound :
    (q : ProjectQuota) (s : ProjectQuotaState)
    → Sound q s
    → Sound q (record s { queued_tasks = s.queued_tasks - 1 })
dequeued-Sound q s h =
    ground (arith, Lower-Within q s (record s { queued_tasks = s.queued_tasks - 1 }))

pub release_queued-Sound :
    (db : Session) {after : Session} → IsSound db → release_queued db ≡ ok after → IsSound after
unfolding release_queued
release_queued-Sound db sound h =
    let (rows, locked, h1) = ok_parts (get_locked db) _ h in
    let (u, some_queued, h2) = ok_parts (raise_if (ltb rows.state.queued_tasks 1) _) _ h1 in
    saved-Sound db rows.quota (record rows.state { queued_tasks = rows.state.queued_tasks - 1 })
      (dequeued-Sound rows.quota rows.state (get_locked-Sound db sound locked)) h2

pub reserve_execution-Sound :
    (db : Session) (r : Reservation) {after : Session}
    → IsSound db
    → reserve_execution db r ≡ ok after
    → IsSound after
unfolding reserve_execution
reserve_execution-Sound db r sound h =
    let (u, valid, h1) =
      ok_parts (validate_reservation r.cpu_millicores r.memory_mb r.gpu_count r.cost) _ h in
    let (rows, locked, h2) = ok_parts (get_locked db) _ h1 in
    let (vendor, normal, h3) =
      ok_parts (normalize_accelerator_vendor r.accelerator_vendor (pos_part r.gpu_count)) _ h2 in
    let (v, some_queued, h4) = ok_parts (raise_if (ltb rows.state.queued_tasks 1) _) _ h3 in
    let (w, limits, h5) =
      ok_parts (check_limits (reservation_claims rows.quota rows.state (amounts r vendor))) _ h4 in
    saved-Sound db rows.quota (reserve rows.state (amounts r vendor))
      (reserve-Sound rows.quota rows.state (amounts r vendor) (get_locked-Sound db sound locked)
        ((check_limits_iff (reservation_claims rows.quota rows.state (amounts r vendor))).0 limits))
      h5

pub release-Sound :
    (db : Session) (r : Reservation) (settled : ℤ) (date : Option ℕ) {after : Session}
    → IsSound db
    → release db r settled date ≡ ok after
    → IsSound after
unfolding release
release-Sound db r settled date sound h =
    let (u, valid, h1) =
      ok_parts (validate_reservation r.cpu_millicores r.memory_mb r.gpu_count r.cost) _ h in
    let (v, paid, h2) = ok_parts (raise_if (ltb_ℤ settled (pos 0)) _) _ h1 in
    let (rows, locked, h3) = ok_parts (get_locked db) _ h2 in
    let (vendor, normal, h4) =
      ok_parts (normalize_accelerator_vendor r.accelerator_vendor (pos_part r.gpu_count)) _ h3 in
    let (w, enough, h5) = ok_parts (raise_if (is_below rows.state (amounts r vendor)) _) _ h4 in
    let today = is_cost_of_today date rows.state in
    let (x, cost, h6) =
      ok_parts (raise_if (today && ltb rows.state.daily_reserved_cost (amounts r vendor).cost) _) _
        h5 in
    saved-Sound db rows.quota (unreserve rows.state (amounts r vendor) (pos_part settled) today)
      (unreserve-Sound rows.quota rows.state (amounts r vendor) (pos_part settled) today
        (get_locked-Sound db sound locked))
      h6
