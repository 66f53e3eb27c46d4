-- ===== src/Scheduler/Admission/Eligible.antt =====
-- scheduler/admission.py: what passes the hard filters.
use text.Mathlib.TextEquality.{eq_iff}
use mini_ai_cloud.Prelude.{
  ◌≤◌, ◌≡◌, refl, ◌↔◌, ◌⊎◌, inl, inr, true, false, Option, none, some, List, [], ◌∷◌, all, Any, All,
  arith,
}
use mini_ai_cloud.Prelude.Decide.{any_iff, all_iff}
use mini_ai_cloud.Prelude.Text.{String, ◌===◌}
use mini_ai_cloud.Core.Enums.{
  AcceleratorVendor, nvidia, huawei_ascend, AcceleratorKind, AcceleratorSelectionPolicy, any_vendor,
  nvidia_only, ascend_only, prefer_nvidia, prefer_ascend,
}
use mini_ai_cloud.Scheduler.Admission.Model.{
  AdmissionRequest, AdmissionCandidate, policy_vendor, same_vendor, same_kind, has_text, is_nil,
}
use mini_ai_cloud.Scheduler.Admission.Choose.{
  policy_allows_vendor, profile_matches, differs, evaluate_admission_candidate,
}
use mini_ai_cloud.Scheduler.Admission.Filters.{passes_tests}

-- What is required is offered.
abbrev pub Matches : Option String → Option String → Type 0
Matches required offered = (v : String) → required ≡ some v → offered ≡ some v

-- What the tests say, in the values of the request and the candidate.
pub record Eligible (r : AdmissionRequest) (c : AdmissionCandidate) : Type 0 where
  pub for_nvidia : r.selection_policy ≡ nvidia_only → c.vendor ≡ nvidia
  pub for_ascend : r.selection_policy ≡ ascend_only → c.vendor ≡ huawei_ascend
  pub vendor_allowed : Any (λ v. c.vendor ≡ v) r.allowed_vendors
  pub kind_allowed : Any (λ k. c.kind ≡ k) r.allowed_kinds
  pub model_allowed : (r.allowed_models ≡ []) ⊎ Any (λ m. c.model ≡ m) r.allowed_models
  pub profile_id : Matches r.runtime_profile_id c.runtime_profile_id
  pub profile_version : Matches r.runtime_profile_version c.runtime_profile_version
  pub profile_digest : Matches r.runtime_profile_digest c.runtime_profile_digest
  pub profile_up : c.profile_ready ≡ true
  pub variant_fits : Matches r.model_variant_id c.model_variant_id
  pub variant_up : c.model_variant_ready ≡ true
  pub is_healthy : c.healthy ≡ true
  pub capable : All (λ x. Any (λ y. x ≡ y) c.capabilities) r.required_capabilities
  pub quota_left : r.count ≤ c.available_quota
  pub capacity_left : r.count ≤ c.available_capacity

policy_iff :
    (p : AcceleratorSelectionPolicy) (v : AcceleratorVendor)
    → (policy_allows_vendor p v ≡ true)
      ↔ ((p ≡ nvidia_only → v ≡ nvidia) × (p ≡ ascend_only → v ≡ huawei_ascend))
unfolding policy_allows_vendor policy_vendor
policy_iff nvidia_only v = (λ h. (λ e. ground arith, λ e. cc), λ h. ground (arith, h.0 refl))
policy_iff ascend_only v = (λ h. (λ e. cc, λ e. ground arith), λ h. ground (arith, h.1 refl))
policy_iff any_vendor v = (λ h. (λ e. cc, λ e. cc), λ h. refl)
policy_iff prefer_nvidia v = (λ h. (λ e. cc, λ e. cc), λ h. refl)
policy_iff prefer_ascend v = (λ h. (λ e. cc, λ e. cc), λ h. refl)

vendor_iff : (v w : AcceleratorVendor) → (same_vendor v w ≡ true) ↔ (v ≡ w)
vendor_iff v w = ground arith

kind_iff : (k l : AcceleratorKind) → (same_kind k l ≡ true) ↔ (k ≡ l)
kind_iff k l = ground arith

model_iff :
    (model : String) (models : List String)
    → ((is_nil models ≡ true) ⊎ (has_text model models ≡ true))
      ↔ ((models ≡ []) ⊎ Any (λ m. model ≡ m) models)
model_iff model [] = (λ h. inl refl, λ h. inl refl)
model_iff model (m ∷ models) =
    let has = any_iff (λ t. model === t) (λ t. model ≡ t) (λ t. eq_iff model t) (m ∷ models) in
    (
      λ h. elim h [ inl e ↦ cc | inr e ↦ inr (has.0 e) ],
      λ h. elim h [ inl e ↦ cc | inr e ↦ inr (has.1 e) ],
    )

differs_iff :
    (required offered : Option String)
    → (differs required offered ≡ false) ↔ Matches required offered
differs_iff none offered = (λ h v e. cc, λ h. refl)
differs_iff (some v) none = (λ h. cc, λ h. absurd (cc (h v refl)))
differs_iff (some v) (some w) =
    (λ h u e. ground (arith, (eq_iff w v).0), λ h. ground (arith, (eq_iff w v).1, h v refl))

profile_iff :
    (r : AdmissionRequest) (c : AdmissionCandidate)
    → (profile_matches r c ≡ true) ↔ (
        Matches r.runtime_profile_id c.runtime_profile_id
        × Matches r.runtime_profile_version c.runtime_profile_version
        × Matches r.runtime_profile_digest c.runtime_profile_digest)
unfolding profile_matches
profile_iff r c =
    let id = differs_iff r.runtime_profile_id c.runtime_profile_id in
    let version = differs_iff r.runtime_profile_version c.runtime_profile_version in
    let digest = differs_iff r.runtime_profile_digest c.runtime_profile_digest in
    (
      λ h. (id.0 (ground arith), version.0 (ground arith), digest.0 (ground arith)),
      λ h. ground (arith, id.1 h.0, version.1 h.1, digest.1 h.2),
    )

capable_iff :
    (c : AdmissionCandidate) (required : List String)
    → (all (λ x. has_text x c.capabilities) required ≡ true)
      ↔ All (λ x. Any (λ y. x ≡ y) c.capabilities) required
capable_iff c required =
    all_iff (λ x. has_text x c.capabilities) (λ x. Any (λ y. x ≡ y) c.capabilities)
      (λ x. any_iff (λ t. x === t) (λ t. x ≡ t) (λ t. eq_iff x t) c.capabilities) required

-- A candidate passes exactly when its vendor is the one that the policy asks for, if it does, and is
-- allowed, as are its kind and its model; each part of the profile, and the variant, that are required
-- are those that it offers; the profile and the variant are ready; it is healthy, has every capability
-- that is required, and has as much quota and capacity left as the request counts.
pub evaluate_admission_candidate_iff :
    (r : AdmissionRequest) (c : AdmissionCandidate)
    → (evaluate_admission_candidate r c ≡ none) ↔ Eligible r c
evaluate_admission_candidate_iff r c =
    let policy = policy_iff r.selection_policy c.vendor in
    let vendors =
      any_iff (same_vendor c.vendor) (λ v. c.vendor ≡ v) (vendor_iff c.vendor) r.allowed_vendors in
    let kinds = any_iff (same_kind c.kind) (λ k. c.kind ≡ k) (kind_iff c.kind) r.allowed_kinds in
    let models = model_iff c.model r.allowed_models in
    let profile = profile_iff r c in
    let variant = differs_iff r.model_variant_id c.model_variant_id in
    let capable = capable_iff c r.required_capabilities in
    (
      λ h.
          let t = (passes_tests r c).0 h in
          record {
            for_nvidia = (policy.0 t.policy_allows).0;
            for_ascend = (policy.0 t.policy_allows).1;
            vendor_allowed = vendors.0 t.vendor_allowed;
            kind_allowed = kinds.0 t.kind_allowed;
            model_allowed = models.0 t.model_allowed;
            profile_id = (profile.0 t.profile_fits).0;
            profile_version = (profile.0 t.profile_fits).1;
            profile_digest = (profile.0 t.profile_fits).2;
            profile_up = t.profile_up;
            variant_fits = variant.0 t.variant_fits;
            variant_up = t.variant_up;
            is_healthy = t.is_healthy;
            capable = capable.0 t.capable;
            quota_left = t.quota_left;
            capacity_left = t.capacity_left;
          },
      λ e. (passes_tests r c).1 (record {
        policy_allows = policy.1 (e.for_nvidia, e.for_ascend);
        vendor_allowed = vendors.1 e.vendor_allowed;
        kind_allowed = kinds.1 e.kind_allowed;
        model_allowed = models.1 e.model_allowed;
        profile_fits = profile.1 (e.profile_id, e.profile_version, e.profile_digest);
        profile_up = e.profile_up;
        variant_fits = variant.1 e.variant_fits;
        variant_up = e.variant_up;
        is_healthy = e.is_healthy;
        capable = capable.1 e.capable;
        quota_left = e.quota_left;
        capacity_left = e.capacity_left;
      }),
    )
