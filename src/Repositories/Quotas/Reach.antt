-- ===== src/Repositories/Quotas/Reach.antt =====
-- repositories/quotas.py and artifacts.py: commitments and new limits, and any sequence of the
-- transactions that write the rows of a project.
use mini_ai_cloud.Prelude.{
  ℕ, ◌+◌, ◌≡◌, refl, subst, inl, inr, Bool, not, Option, none, some, ◌==◌, Result, ok, err,
  raise_if, ok_parts, ok_injective, All, arith, Bool-cases,
}
use mini_ai_cloud.Prelude.Int.{ℤ, pos_part}
use mini_ai_cloud.Repositories.Quotas.Model.{
  ProjectQuota, ProjectQuotaState, QuotaError, not_found, QuotaSnapshot, Session, check_limits,
  normalize_accelerator_vendor, assert_state_nonnegative,
}
use mini_ai_cloud.Repositories.Quotas.Operations.{
  project_is_active, initialize, get_locked, admit_queued, release_queued, reserve_execution,
  release, Reservation, save, or_new, new_quota, new_state,
}
use mini_ai_cloud.Repositories.Quotas.Commitments.{
  validate_service_commitment, Change, is_below_commitment, commit, commitment_claims,
  ServiceCommitment, change, or_initialize, write_commitment, replace_service_commitment, Limits,
  new_limits, held_claims, replace,
}
use mini_ai_cloud.Repositories.Quotas.Invariant.{Meets, check_limits_iff, Sound, commit-Sound}
use mini_ai_cloud.Repositories.Quotas.Artifacts.{
  create_pending, release_quota_bytes, create_pending-Sound, release_quota_bytes-Sound,
}
use mini_ai_cloud.Repositories.Quotas.Steps.{
  IsSound, get_locked-Sound, admit_queued-Sound, release_queued-Sound, reserve_execution-Sound,
  release-Sound, touch_state-Sound,
}

initialize-Sound :
    (db : Session) {rows : QuotaSnapshot}
    → IsSound db
    → initialize db ≡ ok rows
    → Sound rows.quota rows.state
unfolding initialize
initialize-Sound db sound h =
    let (u, active, h1) = ok_parts (raise_if (not (project_is_active db.project)) not_found) _ h in
    let (v, checked, same) =
      ok_parts (assert_state_nonnegative (or_new db.state (new_state db.now))) _ h1 in
    subst (λ (r : QuotaSnapshot). Sound r.quota r.state) (ok_injective same) sound

or_initialize-Sound :
    (db : Session) (m : Result QuotaError QuotaSnapshot) {rows : QuotaSnapshot}
    → IsSound db
    → ((r : QuotaSnapshot) → m ≡ ok r → Sound r.quota r.state)
    → or_initialize db m ≡ ok rows
    → Sound rows.quota rows.state
unfolding or_initialize
or_initialize-Sound db (ok r) sound f h =
    subst (λ (r : QuotaSnapshot). Sound r.quota r.state) (ok_injective h) (f r refl)
or_initialize-Sound db (err not_found) sound f h = initialize-Sound db sound h
or_initialize-Sound db (err _) sound f h = cc

write_commitment-Sound :
    (now : ℕ) (q : ProjectQuota) (s : ProjectQuotaState) (c : Change) {t : ProjectQuotaState}
    → Sound q s
    → All Meets (commitment_claims q (commit s c))
    → write_commitment now s c ≡ ok t
    → Sound q t
unfolding write_commitment
write_commitment-Sound now q s c h k e =
    elim (Bool-cases (c.desired_replicas == c.current_replicas)) [
      | inl same ↦ subst (Sound q) (ground arith) h
      | inr other ↦ touch_state-Sound now q (commit s c) (commit-Sound q s c h k) (ground arith)
    ]

pub replace_service_commitment-Sound :
    (db : Session) (r : ServiceCommitment) {after : Session}
    → IsSound db
    → replace_service_commitment db r ≡ ok after
    → IsSound after
unfolding replace_service_commitment
replace_service_commitment-Sound db r sound h =
    let (u, valid, h1) = ok_parts (validate_service_commitment r) _ h in
    let (rows, found, h2) = ok_parts (or_initialize db (get_locked db)) _ h1 in
    let (vendor, normal, h3) =
      ok_parts (normalize_accelerator_vendor r.accelerator_vendor (pos_part r.gpu_count)) _ h2 in
    let c = change r vendor in
    let (v, enough, h4) = ok_parts (raise_if (is_below_commitment rows.state c) _) _ h3 in
    let (w, limits, h5) =
      ok_parts (check_limits (commitment_claims rows.quota (commit rows.state c))) _ h4 in
    let (t, write, same) = ok_parts (write_commitment db.now rows.state c) _ h5 in
    subst IsSound (ok_injective same) (
      write_commitment-Sound db.now rows.quota rows.state c
        (or_initialize-Sound db (get_locked db) sound (λ x e. get_locked-Sound db sound e) found)
        ((check_limits_iff (commitment_claims rows.quota (commit rows.state c))).0 limits) write)

held-Sound :
    (q p : ProjectQuota) (s : ProjectQuotaState)
    → Sound p s
    → All Meets (held_claims q s)
    → Sound q s
unfolding held_claims
held-Sound q p s h k = ground arith

pub replace-Sound :
    (db : Session) (l : Limits) {after : Session}
    → IsSound db
    → replace db l ≡ ok after
    → IsSound after
unfolding replace
replace-Sound db l sound h =
    let (limits, valid, h1) = ok_parts (new_limits l) _ h in
    let (rows, locked, h2) = ok_parts (get_locked db) _ h1 in
    let quota = record limits { version = rows.quota.version + 1; updated_at = db.now } in
    let (u, held, same) = ok_parts (check_limits (held_claims quota rows.state)) _ h2 in
    subst IsSound (ok_injective same) (
      held-Sound quota rows.quota rows.state (get_locked-Sound db sound locked)
        ((check_limits_iff (held_claims quota rows.state)).0 held))

-- What can happen to the rows: the clock goes on, or a transaction is committed.
pub data Step (db : Session) : Session → Type 0 where
  waits : (time : ℕ) → Step db (record db { now = time })
  admits : {after : Session} → admit_queued db ≡ ok after → Step db after
  withdraws : {after : Session} → release_queued db ≡ ok after → Step db after
  reserves : (r : Reservation) {after : Session} → reserve_execution db r ≡ ok after → Step db after
  releases :
      (r : Reservation) (settled : ℤ) (date : Option ℕ) {after : Session}
      → release db r settled date ≡ ok after
      → Step db after
  commits :
      (c : ServiceCommitment) {after : Session}
      → replace_service_commitment db c ≡ ok after
      → Step db after
  limits : (l : Limits) {after : Session} → replace db l ≡ ok after → Step db after
  initializes :
      {rows : QuotaSnapshot} → initialize db ≡ ok rows → Step db (save db rows.quota rows.state)
  stores :
      (size_bytes : ℤ) (normalized : Bool) {after : Session}
      → create_pending db size_bytes normalized ≡ ok after
      → Step db after
  discards :
      (size_bytes : Option ℕ) {after : Session}
      → release_quota_bytes db size_bytes ≡ ok after
      → Step db after

pub data Steps : Session → Session → Type 0 where
  done : {db : Session} → Steps db db
  step : {db next after : Session} → Step db next → Steps next after → Steps db after

-- The time of a row that `initialize` adds plays no part.
waits-Sound :
    (t u : ℕ) (q : Option ProjectQuota) (s : Option ProjectQuotaState)
    → Sound (or_new q (new_quota t)) (or_new s (new_state t))
    → Sound (or_new q (new_quota u)) (or_new s (new_state u))
waits-Sound t u (some q) (some s) h = h
waits-Sound t u none (some s) h = ground arith
waits-Sound t u (some q) none h = ground arith
waits-Sound t u none none h = ground arith

Step-IsSound : {db after : Session} → Step db after → IsSound db → IsSound after
Step-IsSound {db} (waits time) sound = waits-Sound db.now time db.quota db.state sound
Step-IsSound {db} (admits e) sound = admit_queued-Sound db sound e
Step-IsSound {db} (withdraws e) sound = release_queued-Sound db sound e
Step-IsSound {db} (reserves r e) sound = reserve_execution-Sound db r sound e
Step-IsSound {db} (releases r settled date e) sound = release-Sound db r settled date sound e
Step-IsSound {db} (commits c e) sound = replace_service_commitment-Sound db c sound e
Step-IsSound {db} (limits l e) sound = replace-Sound db l sound e
Step-IsSound {db} (initializes e) sound = initialize-Sound db sound e
Step-IsSound {db} (stores size normalized e) sound = create_pending-Sound db size normalized sound e
Step-IsSound {db} (discards size e) sound = release_quota_bytes-Sound db size sound e

-- Over any sequence of transactions of QuotaRepository, of artifacts that are stored and of artifacts
-- that are discarded, at any times, the typed counters add up to the totals and all amounts, the bytes
-- of the artifacts too, stay within the limits on capacity.
pub Steps-IsSound : {db after : Session} → Steps db after → IsSound db → IsSound after
Steps-IsSound done sound = sound
Steps-IsSound (step s rest) sound = Steps-IsSound rest (Step-IsSound s sound)
