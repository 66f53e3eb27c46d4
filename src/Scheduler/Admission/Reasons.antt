-- ===== src/Scheduler/Admission/Reasons.antt =====
-- scheduler/admission.py: the reasons for which a candidate is rejected, by vendor and category.
use mini_ai_cloud.Prelude.Text.{String}
use mini_ai_cloud.Core.Enums.{AcceleratorVendor, nvidia, huawei_ascend}

pub data AdmissionRejectionReason : Type 0 where
  nvidia_policy_excluded nvidia_vendor_not_allowed : AdmissionRejectionReason
  ascend_policy_excluded ascend_vendor_not_allowed : AdmissionRejectionReason
  nvidia_kind_not_allowed nvidia_model_incompatible : AdmissionRejectionReason
  ascend_kind_not_allowed ascend_model_incompatible : AdmissionRejectionReason
  nvidia_profile_incompatible nvidia_profile_unavailable : AdmissionRejectionReason
  ascend_profile_incompatible ascend_profile_unavailable : AdmissionRejectionReason
  nvidia_model_variant_incompatible nvidia_unhealthy : AdmissionRejectionReason
  ascend_model_variant_incompatible ascend_unhealthy : AdmissionRejectionReason
  nvidia_capability_mismatch nvidia_quota_exceeded : AdmissionRejectionReason
  ascend_capability_mismatch ascend_quota_exceeded : AdmissionRejectionReason
  nvidia_capacity_unavailable : AdmissionRejectionReason
  ascend_capacity_unavailable : AdmissionRejectionReason

pub data RejectionCategory : Type 0 where
  policy_excluded vendor_not_allowed kind_not_allowed model_incompatible : RejectionCategory
  profile_incompatible profile_unavailable model_variant_incompatible unhealthy : RejectionCategory
  capability_mismatch quota_exceeded capacity_unavailable : RejectionCategory

-- `_VENDOR_REASONS`
unfoldable pub vendor_reason : AcceleratorVendor → RejectionCategory → AdmissionRejectionReason
vendor_reason nvidia policy_excluded = nvidia_policy_excluded
vendor_reason nvidia vendor_not_allowed = nvidia_vendor_not_allowed
vendor_reason nvidia kind_not_allowed = nvidia_kind_not_allowed
vendor_reason nvidia model_incompatible = nvidia_model_incompatible
vendor_reason nvidia profile_incompatible = nvidia_profile_incompatible
vendor_reason nvidia profile_unavailable = nvidia_profile_unavailable
vendor_reason nvidia model_variant_incompatible = nvidia_model_variant_incompatible
vendor_reason nvidia unhealthy = nvidia_unhealthy
vendor_reason nvidia capability_mismatch = nvidia_capability_mismatch
vendor_reason nvidia quota_exceeded = nvidia_quota_exceeded
vendor_reason nvidia capacity_unavailable = nvidia_capacity_unavailable
vendor_reason huawei_ascend policy_excluded = ascend_policy_excluded
vendor_reason huawei_ascend vendor_not_allowed = ascend_vendor_not_allowed
vendor_reason huawei_ascend kind_not_allowed = ascend_kind_not_allowed
vendor_reason huawei_ascend model_incompatible = ascend_model_incompatible
vendor_reason huawei_ascend profile_incompatible = ascend_profile_incompatible
vendor_reason huawei_ascend profile_unavailable = ascend_profile_unavailable
vendor_reason huawei_ascend model_variant_incompatible = ascend_model_variant_incompatible
vendor_reason huawei_ascend unhealthy = ascend_unhealthy
vendor_reason huawei_ascend capability_mismatch = ascend_capability_mismatch
vendor_reason huawei_ascend quota_exceeded = ascend_quota_exceeded
vendor_reason huawei_ascend capacity_unavailable = ascend_capacity_unavailable

-- The text of a reason.
unfoldable pub reason_value : AdmissionRejectionReason → String
reason_value nvidia_policy_excluded = "nvidia_policy_excluded"
reason_value nvidia_vendor_not_allowed = "nvidia_vendor_not_allowed"
reason_value nvidia_kind_not_allowed = "nvidia_kind_not_allowed"
reason_value nvidia_model_incompatible = "nvidia_model_incompatible"
reason_value nvidia_profile_incompatible = "nvidia_profile_incompatible"
reason_value nvidia_profile_unavailable = "nvidia_profile_unavailable"
reason_value nvidia_model_variant_incompatible = "nvidia_model_variant_incompatible"
reason_value nvidia_unhealthy = "nvidia_unhealthy"
reason_value nvidia_capability_mismatch = "nvidia_capability_mismatch"
reason_value nvidia_quota_exceeded = "nvidia_quota_exceeded"
reason_value nvidia_capacity_unavailable = "nvidia_capacity_unavailable"
reason_value ascend_policy_excluded = "ascend_policy_excluded"
reason_value ascend_vendor_not_allowed = "ascend_vendor_not_allowed"
reason_value ascend_kind_not_allowed = "ascend_kind_not_allowed"
reason_value ascend_model_incompatible = "ascend_model_incompatible"
reason_value ascend_profile_incompatible = "ascend_profile_incompatible"
reason_value ascend_profile_unavailable = "ascend_profile_unavailable"
reason_value ascend_model_variant_incompatible = "ascend_model_variant_incompatible"
reason_value ascend_unhealthy = "ascend_unhealthy"
reason_value ascend_capability_mismatch = "ascend_capability_mismatch"
reason_value ascend_quota_exceeded = "ascend_quota_exceeded"
reason_value ascend_capacity_unavailable = "ascend_capacity_unavailable"
