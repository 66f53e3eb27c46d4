-- ===== src/Repositories/Quotas/Artifacts.antt =====
-- repositories/artifacts.py: what the storage of artifacts writes to the counters of a project. The
-- rows of the artifacts themselves are not modelled.
use mini_ai_cloud.Prelude.{
  ℕ, ◌+◌, ◌-◌, ◌≡◌, subst, Bool, not, Option, none, some, ltb, Result, ok, err, ◌>>=◌, ◌>>◌,
  raise_if, ok_parts, ok_injective, arith,
}
use mini_ai_cloud.Prelude.Int.{ℤ, pos, ltb_ℤ, pos_part}
use mini_ai_cloud.Repositories.Quotas.Model.{
  ProjectQuota, ProjectQuotaState, QuotaSnapshot, Session,
}
use mini_ai_cloud.Repositories.Quotas.Operations.{project_is_active, save}
use mini_ai_cloud.Repositories.Quotas.Invariant.{Fits, Sound, Lower-Within}
use mini_ai_cloud.Repositories.Quotas.Steps.{IsSound}

pub data ArtifactError : Type 0 where
  negative_size invalid_digest project_unavailable accounting_invariant : ArtifactError
  quota_exceeded : ℕ → ℕ → ℕ → ArtifactError

-- The rows that `session.get` finds.
unfoldable pub accounting_rows :
    Option ProjectQuota → Option ProjectQuotaState → Result ArtifactError QuotaSnapshot
accounting_rows (some quota) (some state) = ok (record { quota = quota; state = state })
accounting_rows _ _ = err accounting_invariant

unfoldable pub check_artifact_limit : Option ℕ → ℕ → ℕ → Result ArtifactError (Unit {0})
check_artifact_limit none used requested = ok tt
check_artifact_limit (some limit) used requested =
    raise_if (ltb limit (used + requested)) (quota_exceeded limit used requested)

-- The counters once `bytes` are stored.
abbrev pub with_bytes : ℕ → ProjectQuotaState → ℕ → ProjectQuotaState
with_bytes now s bytes = record s {
  artifact_bytes = bytes;
  version = s.version + 1;
  updated_at = now;
}

-- `create_pending`; `normalized` says whether `normalize_sha256` takes the digest.
unfoldable pub create_pending : Session → ℤ → Bool → Result ArtifactError Session
unfolding project_is_active accounting_rows check_artifact_limit
create_pending db size_bytes normalized = do
  raise_if (ltb_ℤ size_bytes (pos 0)) negative_size
  raise_if (not normalized) invalid_digest
  raise_if (not (project_is_active db.project)) project_unavailable
  rows ← accounting_rows db.quota db.state
  let size = pos_part size_bytes
  check_artifact_limit rows.quota.max_artifact_bytes rows.state.artifact_bytes size
  ok (save db rows.quota (with_bytes db.now rows.state (rows.state.artifact_bytes + size)))

-- `artifact.size_bytes or 0`
abbrev pub size_or_zero : Option ℕ → ℕ
size_or_zero none = 0
size_or_zero (some size) = size

-- `_release_quota_bytes`, on the size of the artifact.
unfoldable pub release_bytes :
    ℕ → ℕ → Option ProjectQuotaState → Result ArtifactError ProjectQuotaState
release_bytes now size none = err accounting_invariant
release_bytes now size (some s) =
    raise_if (ltb s.artifact_bytes size) accounting_invariant
    >> ok (with_bytes now s (s.artifact_bytes - size))

unfoldable pub release_quota_bytes : Session → Option ℕ → Result ArtifactError Session
unfolding release_bytes
release_quota_bytes db size_bytes =
    release_bytes db.now (size_or_zero size_bytes) db.state >>= λ state.
    ok (record db { state = some state })

accounting-Sound :
    (db : Session) (oq : Option ProjectQuota) (os : Option ProjectQuotaState) {rows : QuotaSnapshot}
    → accounting_rows oq os ≡ ok rows
    → IsSound (record db { quota = oq; state = os })
    → Sound rows.quota rows.state
unfolding accounting_rows
accounting-Sound db (some q) (some s) h k =
    subst (λ (r : QuotaSnapshot). Sound r.quota r.state) (ok_injective h) k
accounting-Sound db (some q) none h k = cc
accounting-Sound db none os h k = cc

check_artifact_limit-Fits :
    (limit : Option ℕ) (used size : ℕ)
    → check_artifact_limit limit used size ≡ ok tt
    → Fits limit (used + size)
unfolding check_artifact_limit
check_artifact_limit-Fits none used size h = tt
check_artifact_limit-Fits (some limit) used size h = ground arith

-- Bytes within their limit leave the rest as it is.
with_bytes-Sound :
    (now : ℕ) (q : ProjectQuota) (s : ProjectQuotaState) (bytes : ℕ)
    → Sound q s
    → Fits q.max_artifact_bytes bytes
    → Sound q (with_bytes now s bytes)
with_bytes-Sound now q s bytes h fits = record {
  typed = record { tasks = h.typed.tasks; services = h.typed.services };
  within = record {
    queued = h.within.queued;
    running = h.within.running;
    cpu = h.within.cpu;
    memory = h.within.memory;
    gpus = h.within.gpus;
    nvidia_gpus = h.within.nvidia_gpus;
    ascend_npus = h.within.ascend_npus;
    services = h.within.services;
    replicas = h.within.replicas;
    artifacts = fits;
  };
}

fewer_bytes-Sound :
    (now : ℕ) (q : ProjectQuota) (s : ProjectQuotaState) (size : ℕ)
    → Sound q s
    → Sound q (with_bytes now s (s.artifact_bytes - size))
fewer_bytes-Sound now q s size h =
    ground (arith, Lower-Within q s (with_bytes now s (s.artifact_bytes - size)))

pub create_pending-Sound :
    (db : Session) (size_bytes : ℤ) (normalized : Bool) {after : Session}
    → IsSound db
    → create_pending db size_bytes normalized ≡ ok after
    → IsSound after
unfolding create_pending
create_pending-Sound db size_bytes normalized sound h =
    let (u, sized, h1) = ok_parts (raise_if (ltb_ℤ size_bytes (pos 0)) negative_size) _ h in
    let (v, digest, h2) = ok_parts (raise_if (not normalized) invalid_digest) _ h1 in
    let (w, active, h3) =
      ok_parts (raise_if (not (project_is_active db.project)) project_unavailable) _ h2 in
    let (rows, found, h4) = ok_parts (accounting_rows db.quota db.state) _ h3 in
    let (x, limit, same) =
      ok_parts
        (check_artifact_limit rows.quota.max_artifact_bytes rows.state.artifact_bytes
          (pos_part size_bytes))
        _ h4 in
    subst IsSound (ok_injective same) (
      with_bytes-Sound db.now rows.quota rows.state
        (rows.state.artifact_bytes + pos_part size_bytes)
        (accounting-Sound db db.quota db.state found sound)
        (check_artifact_limit-Fits rows.quota.max_artifact_bytes rows.state.artifact_bytes
          (pos_part size_bytes) limit))

released-Sound :
    (db : Session) (size : ℕ) (os : Option ProjectQuotaState) {t : ProjectQuotaState}
    → IsSound (record db { state = os })
    → release_bytes db.now size os ≡ ok t
    → IsSound (record db { state = some t })
unfolding release_bytes
released-Sound db size none sound h = cc
released-Sound db size (some s) sound h =
    let (u, enough, same) =
      ok_parts (raise_if (ltb s.artifact_bytes size) accounting_invariant) _ h in
    subst (λ t. IsSound (record db { state = some t })) (ok_injective same)
      (fewer_bytes-Sound db.now _ s size sound)

pub release_quota_bytes-Sound :
    (db : Session) (size_bytes : Option ℕ) {after : Session}
    → IsSound db
    → release_quota_bytes db size_bytes ≡ ok after
    → IsSound after
unfolding release_quota_bytes
release_quota_bytes-Sound db size_bytes sound h =
    let (t, released, same) =
      ok_parts (release_bytes db.now (size_or_zero size_bytes) db.state) _ h in
    subst IsSound (ok_injective same)
      (released-Sound db (size_or_zero size_bytes) db.state sound released)
