-- ===== src/Scheduler/Admission/Model.antt =====
-- scheduler/admission.py: the value objects and the checks that their constructors make. A count,
-- a capacity and a quota are natural numbers: a negative count fails the test that zero fails, and
-- the capacities of a pool are counts of what the database holds. A `frozenset` is a list.
use mini_ai_cloud.Prelude.{
  ℕ, Bool, true, false, not, ◌&&◌, ◌||◌, Option, none, some, List, [], ◌∷◌, any, all, length, ◌==◌,
  leb, is_none, is_some, Result, ◌>>◌, raise_if,
}
use mini_ai_cloud.Prelude.Text.{String, ◌===◌, is_blank}
use mini_ai_cloud.Core.Enums.{
  AcceleratorVendor, nvidia, huawei_ascend, AcceleratorKind, gpu, npu, AcceleratorSelectionPolicy,
  nvidia_only, ascend_only, AllocationAuthority, control_plane_exact_device,
  kubernetes_device_plugin,
}
use mini_ai_cloud.Scheduler.Admission.Reasons.{AdmissionRejectionReason}

pub data AdmissionError : Type 0 where
  count_out_of_range no_vendors no_kinds blank_text profile_without_id : AdmissionError
  vendor_not_in_request incomplete_profile incompatible_kind duplicate_ids : AdmissionError
  ids_under_kubernetes profile_required capacity_mismatch rejected_with_ids : AdmissionError
  wrong_id_count foreign_ids : AdmissionError

abbrev pub same_vendor : AcceleratorVendor → AcceleratorVendor → Bool
same_vendor nvidia nvidia = true
same_vendor huawei_ascend huawei_ascend = true
same_vendor _ _ = false

abbrev pub same_kind : AcceleratorKind → AcceleratorKind → Bool
same_kind gpu gpu = true
same_kind npu npu = true
same_kind _ _ = false

-- `vendor_kind_is_compatible` of core/accelerators.py
unfoldable pub vendor_kind_is_compatible : AcceleratorVendor → AcceleratorKind → Bool
vendor_kind_is_compatible nvidia kind = same_kind gpu kind
vendor_kind_is_compatible huawei_ascend kind = same_kind npu kind

-- `text in texts`
abbrev pub has_text : String → List String → Bool
has_text text texts = any (λ t. text === t) texts

-- `len(texts) == len(set(texts))`
abbrev pub all_distinct : List String → Bool
all_distinct [] = true
all_distinct (t ∷ ts) = not (has_text t ts) && all_distinct ts

-- `value is not None and not value.strip()`
abbrev pub is_blank_option : Option String → Bool
is_blank_option none = false
is_blank_option (some t) = is_blank t

pub record AdmissionRequest : Type 0 where
  pub count : ℕ
  pub allowed_vendors : List AcceleratorVendor
  pub allowed_kinds : List AcceleratorKind
  pub allowed_models : List String
  pub required_capabilities : List String
  pub runtime_profile_id : Option String
  pub runtime_profile_version : Option String
  pub runtime_profile_digest : Option String
  pub model_variant_id : Option String
  pub selection_policy : AcceleratorSelectionPolicy

unfoldable pub policy_vendor : AcceleratorSelectionPolicy → Option AcceleratorVendor
policy_vendor nvidia_only = some nvidia
policy_vendor ascend_only = some huawei_ascend
policy_vendor _ = none

abbrev pub is_nil {ℓ} : {A : Type ℓ} → List A → Bool
is_nil [] = true
is_nil (x ∷ xs) = false

-- `1 <= count <= 64`
abbrev pub is_count : ℕ → Bool
is_count count = leb 1 count && leb count 64

abbrev pub misses_vendor : Option AcceleratorVendor → List AcceleratorVendor → Bool
misses_vendor none vendors = false
misses_vendor (some v) vendors = not (any (same_vendor v) vendors)

-- `AdmissionRequest.__post_init__`
unfoldable pub check_request : AdmissionRequest → Result AdmissionError (Unit {0})
unfolding policy_vendor is_blank
check_request r = do
  raise_if (not (is_count r.count)) count_out_of_range
  raise_if (is_nil r.allowed_vendors) no_vendors
  raise_if (is_nil r.allowed_kinds) no_kinds
  raise_if (any is_blank r.allowed_models) blank_text
  raise_if (any is_blank r.required_capabilities) blank_text
  raise_if (is_blank_option r.runtime_profile_id) blank_text
  raise_if (is_blank_option r.runtime_profile_version) blank_text
  raise_if (is_blank_option r.runtime_profile_digest) blank_text
  raise_if (is_blank_option r.model_variant_id) blank_text
  raise_if
      (is_none r.runtime_profile_id
        && (is_some r.runtime_profile_version || is_some r.runtime_profile_digest))
      profile_without_id
  raise_if (misses_vendor (policy_vendor r.selection_policy) r.allowed_vendors)
      vendor_not_in_request

pub record AdmissionCandidate : Type 0 where
  pub candidate_id : String
  pub vendor : AcceleratorVendor
  pub kind : AcceleratorKind
  pub model : String
  pub runtime_profile_id : Option String
  pub runtime_profile_version : Option String
  pub runtime_profile_digest : Option String
  pub model_variant_id : Option String
  pub allocation_authority : AllocationAuthority
  pub available_capacity : ℕ
  pub available_quota : ℕ
  pub healthy : Bool
  pub capabilities : List String
  pub profile_ready : Bool
  pub model_variant_ready : Bool
  pub concrete_device_ids : List String

-- `value is not None and value.strip()`
abbrev pub is_written : Option String → Bool
is_written none = false
is_written (some t) = not (is_blank t)

unfoldable pub check_profile : AdmissionCandidate → Result AdmissionError (Unit {0})
unfolding is_blank
check_profile c =
    raise_if
      ((is_some c.runtime_profile_id
          || is_some c.runtime_profile_version
          || is_some c.runtime_profile_digest)
        && not (
            is_written c.runtime_profile_id
            && is_written c.runtime_profile_version
            && is_written c.runtime_profile_digest))
      incomplete_profile

unfoldable pub check_authority : AdmissionCandidate → Result AdmissionError (Unit {0})
check_authority c = elim c.allocation_authority [
  | kubernetes_device_plugin ↦
      raise_if (not (is_nil c.concrete_device_ids)) ids_under_kubernetes
      >> raise_if (is_none c.runtime_profile_id) profile_required
  | control_plane_exact_device ↦
      raise_if (not (length c.concrete_device_ids == c.available_capacity)) capacity_mismatch
]

-- `AdmissionCandidate.__post_init__`
unfoldable pub check_candidate : AdmissionCandidate → Result AdmissionError (Unit {0})
unfolding check_profile vendor_kind_is_compatible check_authority is_blank
check_candidate c = do
  raise_if (is_blank c.candidate_id) blank_text
  raise_if (is_blank c.model) blank_text
  check_profile c
  raise_if (is_blank_option c.model_variant_id) blank_text
  raise_if (not (vendor_kind_is_compatible c.vendor c.kind)) incompatible_kind
  raise_if (any is_blank c.capabilities) blank_text
  raise_if (not (all_distinct c.concrete_device_ids)) duplicate_ids
  raise_if (any is_blank c.concrete_device_ids) blank_text
  check_authority c

pub record AdmissionRejection : Type 0 where
  pub candidate_id : String
  pub vendor : AcceleratorVendor
  pub reason : AdmissionRejectionReason

pub record AdmissionDecision : Type 0 where
  pub accelerator_count : ℕ
  pub selected_candidate : Option AdmissionCandidate
  pub concrete_device_ids : List String
  pub rejections : List AdmissionRejection

-- `AdmissionDecision.__post_init__` where a candidate is selected.
unfoldable pub check_selected :
    AdmissionDecision → AdmissionCandidate → Result AdmissionError (Unit {0})
check_selected d c = elim c.allocation_authority [
  | kubernetes_device_plugin ↦ raise_if (not (is_nil d.concrete_device_ids)) ids_under_kubernetes
  | control_plane_exact_device ↦
      raise_if (not (length d.concrete_device_ids == d.accelerator_count)) wrong_id_count
      >> raise_if (not (all (λ i. has_text i c.concrete_device_ids) d.concrete_device_ids))
          foreign_ids
]

-- `AdmissionDecision.__post_init__`
unfoldable pub check_decision : AdmissionDecision → Result AdmissionError (Unit {0})
unfolding check_selected
check_decision d =
    raise_if (not (is_count d.accelerator_count)) count_out_of_range >> (elim d.selected_candidate [
      | none ↦ raise_if (not (is_nil d.concrete_device_ids)) rejected_with_ids
      | some c ↦ check_selected d c
    ])
