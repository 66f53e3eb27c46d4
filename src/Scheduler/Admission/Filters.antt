-- ===== src/Scheduler/Admission/Filters.antt =====
-- scheduler/admission.py: the hard filters as a list of tests.
use mini_ai_cloud.Prelude.{◌≤◌, ◌≡◌, ap, ◌↔◌, ◌⊎◌, true, false, Option, none, some, any, all, arith}
use mini_ai_cloud.Scheduler.Admission.Reasons.{
  AdmissionRejectionReason, RejectionCategory, vendor_reason,
}
use mini_ai_cloud.Scheduler.Admission.Model.{
  AdmissionRequest, AdmissionCandidate, same_vendor, same_kind, has_text, is_nil,
}
use mini_ai_cloud.Scheduler.Admission.Choose.{
  policy_allows_vendor, profile_matches, differs, failed_supply, failed_profile, failed_filter,
  evaluate_admission_candidate,
}

-- The tests, one by one.
pub record PassesTests (r : AdmissionRequest) (c : AdmissionCandidate) : Type 0 where
  pub policy_allows : policy_allows_vendor r.selection_policy c.vendor ≡ true
  pub vendor_allowed : any (same_vendor c.vendor) r.allowed_vendors ≡ true
  pub kind_allowed : any (same_kind c.kind) r.allowed_kinds ≡ true
  pub model_allowed : (is_nil r.allowed_models ≡ true) ⊎ (has_text c.model r.allowed_models ≡ true)
  pub profile_fits : profile_matches r c ≡ true
  pub profile_up : c.profile_ready ≡ true
  pub variant_fits : differs r.model_variant_id c.model_variant_id ≡ false
  pub variant_up : c.model_variant_ready ≡ true
  pub is_healthy : c.healthy ≡ true
  pub capable : all (λ x. has_text x c.capabilities) r.required_capabilities ≡ true
  pub quota_left : r.count ≤ c.available_quota
  pub capacity_left : r.count ≤ c.available_capacity

label :
    AdmissionRequest
    → AdmissionCandidate
    → Option RejectionCategory
    → Option AdmissionRejectionReason
label r c failed = elim failed [
  | none ↦ none
  | some category ↦ some (vendor_reason c.vendor category)
]

passes_all :
    (r : AdmissionRequest) (c : AdmissionCandidate)
    → evaluate_admission_candidate r c ≡ none
    → failed_filter r c ≡ none
unfolding evaluate_admission_candidate
passes_all r c h = ground arith

-- The facts that each part of the filters tests.
record Supplies (r : AdmissionRequest) (c : AdmissionCandidate) : Type 0 where
  is_healthy : c.healthy ≡ true
  capable : all (λ x. has_text x c.capabilities) r.required_capabilities ≡ true
  quota_left : r.count ≤ c.available_quota
  capacity_left : r.count ≤ c.available_capacity

record HasProfile (r : AdmissionRequest) (c : AdmissionCandidate) : Type 0 where
  profile_fits : profile_matches r c ≡ true
  profile_up : c.profile_ready ≡ true
  variant_fits : differs r.model_variant_id c.model_variant_id ≡ false
  variant_up : c.model_variant_ready ≡ true
  supplied : failed_supply r c ≡ none

failed_supply-none :
    (r : AdmissionRequest) (c : AdmissionCandidate) → (failed_supply r c ≡ none) ↔ Supplies r c
unfolding failed_supply
failed_supply-none r c = (λ h. ground arith, λ s. ground arith)

failed_profile-none :
    (r : AdmissionRequest) (c : AdmissionCandidate) → (failed_profile r c ≡ none) ↔ HasProfile r c
unfolding failed_profile
failed_profile-none r c = (λ h. ground arith, λ p. ground arith)

failed_filter-none :
    (r : AdmissionRequest) (c : AdmissionCandidate)
    → (failed_filter r c ≡ none) ↔ (
        (policy_allows_vendor r.selection_policy c.vendor ≡ true)
        × (any (same_vendor c.vendor) r.allowed_vendors ≡ true)
        × (any (same_kind c.kind) r.allowed_kinds ≡ true)
        × ((is_nil r.allowed_models ≡ true) ⊎ (has_text c.model r.allowed_models ≡ true))
        × (failed_profile r c ≡ none))
unfolding failed_filter
failed_filter-none r c = (λ h. ground arith, λ p. ground arith)

pub passes_tests :
    (r : AdmissionRequest) (c : AdmissionCandidate)
    → (evaluate_admission_candidate r c ≡ none) ↔ PassesTests r c
unfolding evaluate_admission_candidate label
passes_tests r c = (to_passing, from_passing)
  where
    to_passing : evaluate_admission_candidate r c ≡ none → PassesTests r c
    to_passing h =
        let f = (failed_filter-none r c).0 (passes_all r c h) in
        let p = (failed_profile-none r c).0 f.4 in
        let s = (failed_supply-none r c).0 p.supplied in
        record {
          policy_allows = f.0;
          vendor_allowed = f.1;
          kind_allowed = f.2;
          model_allowed = f.3;
          profile_fits = p.profile_fits;
          profile_up = p.profile_up;
          variant_fits = p.variant_fits;
          variant_up = p.variant_up;
          is_healthy = s.is_healthy;
          capable = s.capable;
          quota_left = s.quota_left;
          capacity_left = s.capacity_left;
        }

    from_passing : PassesTests r c → evaluate_admission_candidate r c ≡ none
    from_passing e =
        let s = (failed_supply-none r c).1 (record {
          is_healthy = e.is_healthy;
          capable = e.capable;
          quota_left = e.quota_left;
          capacity_left = e.capacity_left;
        }) in
        let p = (failed_profile-none r c).1 (record {
          profile_fits = e.profile_fits;
          profile_up = e.profile_up;
          variant_fits = e.variant_fits;
          variant_up = e.variant_up;
          supplied = s;
        }) in
        ap (label r c) (
          (failed_filter-none r c).1
            (e.policy_allows, e.vendor_allowed, e.kind_allowed, e.model_allowed, p))
