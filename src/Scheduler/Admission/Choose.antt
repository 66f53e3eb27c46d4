-- ===== src/Scheduler/Admission/Choose.antt =====
-- scheduler/admission.py: the hard filters, the sort keys, and `choose_admission`.
use mini_ai_cloud.Prelude.{
  ℕ, Bool, true, false, not, ◌&&◌, ◌||◌, Option, none, some, List, [], ◌∷◌, ◌++◌, map, any, all,
  take, ltb, if◌then◌else◌, is_some, Result, ok, ◌>>◌, raise_if,
}
use mini_ai_cloud.Prelude.Text.{String, same_text, by_text}
use mini_ai_cloud.Prelude.Order.{Order, on, by_nat, ◌then_by◌}
use mini_ai_cloud.Prelude.Sort.{sort}
use mini_ai_cloud.Core.Enums.{
  AcceleratorVendor, nvidia, huawei_ascend, AcceleratorKind, gpu, npu, AcceleratorSelectionPolicy,
  prefer_nvidia, prefer_ascend, control_plane_exact_device, kubernetes_device_plugin,
}
use mini_ai_cloud.Scheduler.Admission.Reasons.{
  AdmissionRejectionReason, RejectionCategory, vendor_reason, reason_value, policy_excluded,
  vendor_not_allowed, kind_not_allowed, model_incompatible, profile_incompatible,
  profile_unavailable, model_variant_incompatible, unhealthy, capability_mismatch, quota_exceeded,
  capacity_unavailable,
}
use mini_ai_cloud.Scheduler.Admission.Model.{
  AdmissionError, duplicate_ids, AdmissionRequest, AdmissionCandidate, AdmissionRejection,
  AdmissionDecision, policy_vendor, same_vendor, same_kind, has_text, all_distinct, is_nil,
  check_decision,
}

-- `required is not None and offered != required`
abbrev pub differs : Option String → Option String → Bool
differs required offered = is_some required && not (same_text offered required)

unfoldable pub profile_matches : AdmissionRequest → AdmissionCandidate → Bool
profile_matches r c =
    if differs r.runtime_profile_id c.runtime_profile_id
    then false
    else if differs r.runtime_profile_version c.runtime_profile_version
    then false
    else not (differs r.runtime_profile_digest c.runtime_profile_digest)

abbrev pub is_required : Option AcceleratorVendor → AcceleratorVendor → Bool
is_required none vendor = true
is_required (some v) vendor = same_vendor vendor v

unfoldable pub policy_allows_vendor : AcceleratorSelectionPolicy → AcceleratorVendor → Bool
unfolding policy_vendor
policy_allows_vendor policy vendor = is_required (policy_vendor policy) vendor

-- The category of the first filter that the candidate fails, in three parts: the last four filters,
unfoldable pub failed_supply : AdmissionRequest → AdmissionCandidate → Option RejectionCategory
failed_supply r c =
    if not c.healthy
    then some unhealthy
    else if not (all (λ x. has_text x c.capabilities) r.required_capabilities)
    then some capability_mismatch
    else if ltb c.available_quota r.count
    then some quota_exceeded
    else if ltb c.available_capacity r.count
    then some capacity_unavailable
    else none

-- those on the profile and the variant,
unfoldable pub failed_profile : AdmissionRequest → AdmissionCandidate → Option RejectionCategory
unfolding failed_supply
failed_profile r c =
    if not (profile_matches r c)
    then some profile_incompatible
    else if not c.profile_ready
    then some profile_unavailable
    else if differs r.model_variant_id c.model_variant_id || not c.model_variant_ready
    then some model_variant_incompatible
    else failed_supply r c

-- and the first four.
unfoldable pub failed_filter : AdmissionRequest → AdmissionCandidate → Option RejectionCategory
unfolding failed_profile
failed_filter r c =
    if not (policy_allows_vendor r.selection_policy c.vendor)
    then some policy_excluded
    else if not (any (same_vendor c.vendor) r.allowed_vendors)
    then some vendor_not_allowed
    else if not (any (same_kind c.kind) r.allowed_kinds)
    then some kind_not_allowed
    else if not (is_nil r.allowed_models) && not (has_text c.model r.allowed_models)
    then some model_incompatible
    else failed_profile r c

unfoldable pub evaluate_admission_candidate :
    AdmissionRequest → AdmissionCandidate → Option AdmissionRejectionReason
unfolding failed_filter
evaluate_admission_candidate r c = elim (failed_filter r c) [
  | none ↦ none
  | some category ↦ some (vendor_reason c.vendor category)
]

unfoldable pub preference_rank : AcceleratorSelectionPolicy → AcceleratorVendor → ℕ
preference_rank prefer_nvidia vendor = if same_vendor vendor nvidia then 0 else 1
preference_rank prefer_ascend vendor = if same_vendor vendor huawei_ascend then 0 else 1
preference_rank _ vendor = 0

-- `_CANONICAL_VENDOR_ORDER`
unfoldable pub canonical_vendor_order : AcceleratorVendor → ℕ
canonical_vendor_order nvidia = 0
canonical_vendor_order huawei_ascend = 1

abbrev pub kind_value : AcceleratorKind → String
kind_value gpu = "gpu"
kind_value npu = "npu"

-- `text or ""`
abbrev pub or_empty : Option String → String
or_empty none = ""
or_empty (some t) = t

unfoldable pub candidate_order : AdmissionRequest → Order AdmissionCandidate
unfolding preference_rank canonical_vendor_order
candidate_order r =
    on (λ c. preference_rank r.selection_policy c.vendor) by_nat
    then_by on (λ c. canonical_vendor_order c.vendor) by_nat
    then_by on (λ c. kind_value c.kind) by_text
    then_by on (λ c. c.model) by_text
    then_by on (λ c. or_empty c.runtime_profile_id) by_text
    then_by on (λ c. or_empty c.runtime_profile_version) by_text
    then_by on (λ c. or_empty c.runtime_profile_digest) by_text
    then_by on (λ c. or_empty c.model_variant_id) by_text
    then_by on (λ c. c.candidate_id) by_text

-- A candidate with the reason for which it was rejected.
abbrev pub Rejected : Type 0
Rejected = AdmissionCandidate × AdmissionRejectionReason

unfoldable pub rejected_order : AdmissionRequest → Order Rejected
unfolding candidate_order reason_value
rejected_order r =
    on (λ (x : Rejected). x.0) (candidate_order r)
    then_by on (λ (x : Rejected). reason_value x.1) by_text

-- The loop that fills `eligible` and `rejected`.
unfoldable pub sift :
    AdmissionRequest
    → List AdmissionCandidate × List Rejected
    → List AdmissionCandidate
    → List AdmissionCandidate × List Rejected
sift r s [] = s
sift r (eligible, rejected) (c ∷ cs) =
    sift r
      (elim (evaluate_admission_candidate r c) [
        | none ↦ (eligible ++ c ∷ [], rejected)
        | some reason ↦ (eligible, rejected ++ (c, reason) ∷ [])
      ])
      cs

abbrev pub to_rejection : Rejected → AdmissionRejection
to_rejection (c, reason) = record {
  candidate_id = c.candidate_id;
  vendor = c.vendor;
  reason = reason;
}

-- The sorted device IDs of an exact-device pool, cut to the count.
unfoldable pub take_devices : AdmissionRequest → AdmissionCandidate → List String
take_devices r c = elim c.allocation_authority [
  | kubernetes_device_plugin ↦ []
  | control_plane_exact_device ↦ take r.count (sort by_text c.concrete_device_ids)
]

-- The decision for the sorted eligible candidates.
unfoldable pub decide :
    AdmissionRequest → List AdmissionCandidate → List AdmissionRejection → AdmissionDecision
unfolding take_devices
decide r [] rejections = record {
  accelerator_count = r.count;
  selected_candidate = none;
  concrete_device_ids = [];
  rejections = rejections;
}
decide r (selected ∷ others) rejections = record {
  accelerator_count = r.count;
  selected_candidate = some selected;
  concrete_device_ids = take_devices r selected;
  rejections = rejections;
}

unfoldable pub choose_admission :
    AdmissionRequest → List AdmissionCandidate → Result AdmissionError AdmissionDecision
unfolding sift decide check_decision
choose_admission r candidates = do
  raise_if (not (all_distinct (map (λ (c : AdmissionCandidate). c.candidate_id) candidates)))
      duplicate_ids
  let s = sift r ([], []) candidates
  let d = decide r (sort (candidate_order r) s.0) (map to_rejection (sort (rejected_order r) s.1))
  check_decision d
  ok d
