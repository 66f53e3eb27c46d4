-- ===== src/Repositories/Quotas/Fit.antt =====
-- repositories/quotas.py: `QuotaRepository.ensure_task_can_fit`.
use mini_ai_cloud.Prelude.{
  ℕ, Bool, true, false, not, ◌||◌, Option, none, some, List, [], ◌∷◌, any, leb, is_none, is_some,
  max, Result, ok, ◌>>=◌, ◌>>◌, raise_if,
}
use mini_ai_cloud.Prelude.Int.{ℤ, pos, pos_part}
use mini_ai_cloud.Prelude.Text.{String}
use mini_ai_cloud.Core.Enums.{AcceleratorVendor, nvidia, huawei_ascend}
use mini_ai_cloud.Repositories.Quotas.Model.{
  ProjectQuota, QuotaError, exceeded, both_vendors, no_vendor, Claim, claim, check_limits,
  validate_reservation, normalize_accelerator_vendor,
}

-- What the task asks for: one vendor or none, or a choice of several.
pub record TaskNeeds : Type 0 where
  pub cpu_millicores : ℤ
  pub memory_mb : ℤ
  pub gpu_count : ℤ
  pub accelerator_vendor : Option String
  pub accelerator_vendors : Option (List String)

unfoldable pub normalize_all : List String → ℕ → Result QuotaError (List (Option AcceleratorVendor))
unfolding normalize_accelerator_vendor
normalize_all [] gpu_count = ok []
normalize_all (value ∷ values) gpu_count = do
  vendor ← normalize_accelerator_vendor (some value) gpu_count
  vendors ← normalize_all values gpu_count
  ok (vendor ∷ vendors)

-- `limits[vendor]` of the vendors that are not None.
unfoldable pub candidate_limits : ProjectQuota → List (Option AcceleratorVendor) → List (Option ℕ)
candidate_limits q [] = []
candidate_limits q (none ∷ vendors) = candidate_limits q vendors
candidate_limits q (some nvidia ∷ vendors) = q.max_nvidia_gpus ∷ candidate_limits q vendors
candidate_limits q (some huawei_ascend ∷ vendors) = q.max_ascend_npus ∷ candidate_limits q vendors

-- `limit is None or gpu_count <= limit`
abbrev pub admits : ℕ → Option ℕ → Bool
admits gpu_count none = true
admits gpu_count (some limit) = leb gpu_count limit

-- `max(int(limit or 0) for limit in candidate_limits)`
abbrev pub largest : List (Option ℕ) → ℕ
largest [] = 0
largest (none ∷ limits) = largest limits
largest (some limit ∷ limits) = max limit (largest limits)

abbrev pub no_choice : List (Option AcceleratorVendor) → Bool
no_choice [] = true
no_choice (vendor ∷ vendors) = false

unfoldable pub fit_choice : ProjectQuota → TaskNeeds → List String → Result QuotaError (Unit {0})
unfolding normalize_all candidate_limits
fit_choice q needs values = do
  raise_if (is_some needs.accelerator_vendor) both_vendors
  vendors ← normalize_all values (pos_part needs.gpu_count)
  raise_if (no_choice vendors || any (λ v. is_none v) vendors) no_vendor
  raise_if (not (any (admits (pos_part needs.gpu_count)) (candidate_limits q vendors))) (
      exceeded "vendor_accelerators" (largest (candidate_limits q vendors))
        (pos_part needs.gpu_count))

-- The limit of the vendor, where the task needs one.
unfoldable pub vendor_claims : ProjectQuota → Option AcceleratorVendor → ℕ → List Claim
vendor_claims q none gpu_count = []
vendor_claims q (some nvidia) gpu_count = claim "nvidia_gpus" q.max_nvidia_gpus gpu_count ∷ []
vendor_claims q (some huawei_ascend) gpu_count =
    claim "ascend_npus" q.max_ascend_npus gpu_count ∷ []

unfoldable pub fit_vendor : ProjectQuota → TaskNeeds → Result QuotaError (Unit {0})
unfolding normalize_accelerator_vendor check_limits vendor_claims
fit_vendor q needs = do
  vendor ← normalize_accelerator_vendor needs.accelerator_vendor (pos_part needs.gpu_count)
  check_limits (vendor_claims q vendor (pos_part needs.gpu_count))

-- The limits that every task meets.
unfoldable pub fit_claims : ProjectQuota → TaskNeeds → List Claim
fit_claims q needs =
    claim "running_tasks" q.max_running_tasks 1
    ∷ claim "cpu_millicores" q.max_cpu_millicores (pos_part needs.cpu_millicores)
    ∷ claim "memory_mb" q.max_memory_mb (pos_part needs.memory_mb)
    ∷ claim "gpus" q.max_gpus (pos_part needs.gpu_count)
    ∷ []

unfoldable pub ensure_task_can_fit : ProjectQuota → TaskNeeds → Result QuotaError (Unit {0})
unfolding validate_reservation check_limits fit_claims fit_choice fit_vendor
ensure_task_can_fit q needs =
    validate_reservation needs.cpu_millicores needs.memory_mb needs.gpu_count (pos 0)
    >> check_limits (fit_claims q needs)
    >> (elim needs.accelerator_vendors [
      | some values ↦ fit_choice q needs values
      | none ↦ fit_vendor q needs
    ])
