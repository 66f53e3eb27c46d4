-- ===== src/Scheduler/Admission/Examples.antt =====
-- Runs of scheduler/admission.py on three pools.
use mini_ai_cloud.Prelude.{
  ◌≡◌, refl, ◌↔◌, ◌⊎◌, true, false, none, some, List, [], ◌∷◌, ok, All, inl, inr,
}
use mini_ai_cloud.Prelude.Text.{is_blank, insert}
use mini_ai_cloud.Prelude.Order.{list_le}
use mini_ai_cloud.Prelude.Sort.{sort}
use mini_ai_cloud.Core.Enums.{
  nvidia, huawei_ascend, gpu, npu, prefer_ascend, control_plane_exact_device,
  kubernetes_device_plugin,
}
use mini_ai_cloud.Scheduler.Admission.Reasons.{nvidia_unhealthy, vendor_reason, reason_value}
use mini_ai_cloud.Scheduler.Admission.Model.{
  AdmissionRequest, AdmissionCandidate, AdmissionDecision, check_request, check_candidate,
  check_decision, check_profile, check_authority, check_selected, vendor_kind_is_compatible,
  policy_vendor,
}
use mini_ai_cloud.Scheduler.Admission.Choose.{
  evaluate_admission_candidate, failed_filter, failed_profile, failed_supply, profile_matches,
  policy_allows_vendor, preference_rank, canonical_vendor_order, candidate_order, rejected_order,
  sift, take_devices, decide, choose_admission,
}
use mini_ai_cloud.Scheduler.Admission.Eligible.{Eligible, evaluate_admission_candidate_iff}
use mini_ai_cloud.Scheduler.Admission.Sifted.{Passes}
use mini_ai_cloud.Scheduler.Admission.Decisions.{
  Reports, RejectsAll, Selects, choose_admission-Decides, preferred, choose_admission-preferred,
}
use mini_ai_cloud.Scheduler.Admission.Total.{choose_admission-total}

abbrev request : AdmissionRequest
request = record {
  count = 1;
  allowed_vendors = nvidia ∷ huawei_ascend ∷ [];
  allowed_kinds = gpu ∷ npu ∷ [];
  allowed_models = [];
  required_capabilities = "bf16" ∷ [];
  runtime_profile_id = none;
  runtime_profile_version = none;
  runtime_profile_digest = none;
  model_variant_id = none;
  selection_policy = prefer_ascend;
}

abbrev cuda : AdmissionCandidate
cuda = record {
  candidate_id = "cuda";
  vendor = nvidia;
  kind = gpu;
  model = "a100";
  runtime_profile_id = none;
  runtime_profile_version = none;
  runtime_profile_digest = none;
  model_variant_id = none;
  allocation_authority = control_plane_exact_device;
  available_capacity = 2;
  available_quota = 4;
  healthy = true;
  capabilities = "bf16" ∷ [];
  profile_ready = true;
  model_variant_ready = true;
  concrete_device_ids = "g2" ∷ "g1" ∷ [];
}

abbrev cann : AdmissionCandidate
cann = record cuda {
  candidate_id = "cann";
  vendor = huawei_ascend;
  kind = npu;
  model = "910b";
  runtime_profile_id = some "cann";
  runtime_profile_version = some "1";
  runtime_profile_digest = some "d";
  allocation_authority = kubernetes_device_plugin;
  concrete_device_ids = [];
}

abbrev broken : AdmissionCandidate
broken = record cuda { candidate_id = "broken"; healthy = false }

abbrev pools : List AdmissionCandidate
pools = cuda ∷ broken ∷ cann ∷ []

abbrev decision : AdmissionDecision
decision = record {
  accelerator_count = 1;
  selected_candidate = some cann;
  concrete_device_ids = [];
  rejections = record { candidate_id = "broken"; vendor = nvidia; reason = nvidia_unhealthy } ∷ [];
}

-- The preferred vendor comes first.
chosen : choose_admission request pools ≡ ok decision
unfolding choose_admission sift evaluate_admission_candidate failed_filter failed_profile
    failed_supply profile_matches policy_allows_vendor policy_vendor candidate_order rejected_order
    preference_rank canonical_vendor_order decide take_devices check_decision check_selected sort
    insert list_le vendor_reason reason_value
chosen = refl

-- Without that vendor, the devices are those of the pool, the first by name.
exact :
    choose_admission request (cuda ∷ [])
    ≡ ok (record decision {
      selected_candidate = some cuda;
      concrete_device_ids = "g1" ∷ [];
      rejections = [];
    })
unfolding choose_admission sift evaluate_admission_candidate failed_filter failed_profile
    failed_supply profile_matches policy_allows_vendor policy_vendor candidate_order preference_rank
    decide take_devices check_decision check_selected sort insert list_le
exact = refl

cuda-Passes : Passes request cuda
unfolding evaluate_admission_candidate failed_filter failed_profile failed_supply profile_matches
    policy_allows_vendor policy_vendor
cuda-Passes = refl

cann-Passes : Passes request cann
unfolding evaluate_admission_candidate failed_filter failed_profile failed_supply profile_matches
    policy_allows_vendor policy_vendor
cann-Passes = refl

broken_reason : evaluate_admission_candidate request broken ≡ some nvidia_unhealthy
unfolding evaluate_admission_candidate failed_filter failed_profile failed_supply profile_matches
    policy_allows_vendor policy_vendor vendor_reason
broken_reason = refl

request_ok : check_request request ≡ ok tt
unfolding check_request policy_vendor is_blank
request_ok = refl

pools_ok : All (λ c. check_candidate c ≡ ok tt) pools
unfolding check_candidate check_profile check_authority vendor_kind_is_compatible is_blank
pools_ok = (refl, (refl, (refl, tt)))

preferred_ascend : preferred prefer_ascend ≡ some huawei_ascend
unfolding preferred
preferred_ascend = refl

evaluate_admission_candidate_iff_example :
    (evaluate_admission_candidate request cuda ≡ none) ↔ Eligible request cuda
evaluate_admission_candidate_iff_example = evaluate_admission_candidate_iff request cuda

choose_admission-Decides_example :
    (decision.accelerator_count ≡ request.count)
    × Reports request pools decision.rejections
    × (RejectsAll request pools decision
        ⊎ ((s : AdmissionCandidate) × Selects request pools decision s))
choose_admission-Decides_example = choose_admission-Decides request pools chosen

choose_admission-preferred_example :
    (s : AdmissionCandidate) × (decision.selected_candidate ≡ some s) × (s.vendor ≡ huawei_ascend)
choose_admission-preferred_example =
    choose_admission-preferred request pools huawei_ascend preferred_ascend
      (inr (inr (inl (cann-Passes, refl)))) chosen

choose_admission-total_example : (d : AdmissionDecision) × (choose_admission request pools ≡ ok d)
choose_admission-total_example = choose_admission-total request pools request_ok pools_ok refl
