-- ===== src/Repositories/Quotas/Model.antt =====
-- models/usage.py and repositories/quotas.py: the rows of one project, and the checks that the
-- operations make. A counter is a natural number, as the constraints of the tables have it; a cost
-- is a number of the smallest unit that its columns hold, 10^-8. An argument is an integer. A time is
-- the number of microseconds since the epoch.
use mini_ai_cloud.Prelude.{
  ℕ, ◌+◌, ◌/◌, not, ◌||◌, Option, none, some, List, [], ◌∷◌, ◌==◌, ltb, if◌then◌else◌, Result, ok,
  err, ◌>>◌, raise_if,
}
use mini_ai_cloud.Prelude.Int.{ℤ, pos, ltb_ℤ}
use mini_ai_cloud.Prelude.Text.{String, ◌===◌}
use mini_ai_cloud.Core.Enums.{AcceleratorVendor, nvidia, huawei_ascend}

pub data ProjectStatus : Type 0 where
  active suspended deleted : ProjectStatus

pub record ProjectQuota : Type 0 where
  pub max_queued_tasks : Option ℕ
  pub max_running_tasks : Option ℕ
  pub max_cpu_millicores : Option ℕ
  pub max_memory_mb : Option ℕ
  pub max_gpus : Option ℕ
  pub max_nvidia_gpus : Option ℕ
  pub max_ascend_npus : Option ℕ
  pub max_services : Option ℕ
  pub max_service_replicas : Option ℕ
  pub max_artifact_bytes : Option ℕ
  pub daily_cost_limit : Option ℕ
  pub version : ℕ
  pub updated_at : ℕ

pub record ProjectQuotaState : Type 0 where
  pub queued_tasks : ℕ
  pub running_tasks : ℕ
  pub reserved_cpu_millicores : ℕ
  pub reserved_memory_mb : ℕ
  pub reserved_gpus : ℕ
  pub reserved_nvidia_gpus : ℕ
  pub reserved_ascend_npus : ℕ
  pub service_count : ℕ
  pub service_replicas : ℕ
  pub service_reserved_cpu_millicores : ℕ
  pub service_reserved_memory_mb : ℕ
  pub service_reserved_gpus : ℕ
  pub service_reserved_nvidia_gpus : ℕ
  pub service_reserved_ascend_npus : ℕ
  pub artifact_bytes : ℕ
  pub accounting_date : ℕ
  pub daily_reserved_cost : ℕ
  pub daily_settled_cost : ℕ
  pub version : ℕ
  pub updated_at : ℕ

-- What the exceptions carry: the resource, its limit and the amount that was asked for.
pub data QuotaError : Type 0 where
  not_found : QuotaError
  aggregate_mismatch below_reservation no_queued_task negative_cost : QuotaError
  below_commitment : QuotaError
  exceeded : String → ℕ → ℕ → QuotaError
  negative_value unsupported_vendor both_vendors no_vendor : QuotaError

pub record QuotaSnapshot : Type 0 where
  pub quota : ProjectQuota
  pub state : ProjectQuotaState

-- The rows of one project that a transaction sees, and the database's clock.
pub record Session : Type 0 where
  pub now : ℕ
  pub project : Option ProjectStatus
  pub quota : Option ProjectQuota
  pub state : Option ProjectQuotaState

-- `value.date()`: the day of a time.
abbrev pub date_of : ℕ → ℕ
date_of time = time / 86400000000

unfoldable pub check_limit : String → Option ℕ → ℕ → Result QuotaError (Unit {0})
check_limit resource none requested = ok tt
check_limit resource (some limit) requested =
    raise_if (ltb limit requested) (exceeded resource limit requested)

-- A call of `_check_limit`, and a run of such calls.
pub record Claim : Type 0 where
  pub resource : String
  pub limit : Option ℕ
  pub requested : ℕ

abbrev pub claim : String → Option ℕ → ℕ → Claim
claim resource limit requested = record {
  resource = resource;
  limit = limit;
  requested = requested;
}

unfoldable pub check_limits : List Claim → Result QuotaError (Unit {0})
unfolding check_limit
check_limits [] = ok tt
check_limits (c ∷ cs) = check_limit c.resource c.limit c.requested >> check_limits cs

unfoldable pub validate_reservation : ℤ → ℤ → ℤ → ℤ → Result QuotaError (Unit {0})
validate_reservation cpu_millicores memory_mb gpu_count cost =
    raise_if
      (ltb_ℤ cpu_millicores (pos 0)
        || ltb_ℤ memory_mb (pos 0)
        || ltb_ℤ gpu_count (pos 0)
        || ltb_ℤ cost (pos 0))
      negative_value

-- `_assert_state_nonnegative`, on counters that are natural numbers.
unfoldable pub assert_state_nonnegative : ProjectQuotaState → Result QuotaError (Unit {0})
assert_state_nonnegative s =
    raise_if (not (s.reserved_gpus == s.reserved_nvidia_gpus + s.reserved_ascend_npus))
      aggregate_mismatch
    >> raise_if
        (not (
          s.service_reserved_gpus
          == s.service_reserved_nvidia_gpus + s.service_reserved_ascend_npus))
        aggregate_mismatch

abbrev pub nvidia_value : String
nvidia_value = "nvidia"

abbrev pub ascend_value : String
ascend_value = "huawei-ascend"

unfoldable pub normalize_accelerator_vendor :
    Option String → ℕ → Result QuotaError (Option AcceleratorVendor)
normalize_accelerator_vendor value gpu_count = if gpu_count == 0 then ok none else (elim value [
  | none ↦ ok (some nvidia)
  | some text ↦
      if text === nvidia_value
      then ok (some nvidia)
      else if text === ascend_value
      then ok (some huawei_ascend)
      else err unsupported_vendor
])

-- `_roll_daily_state`, and the time that its caller then writes.
unfoldable pub roll_daily_state : ℕ → ProjectQuotaState → ProjectQuotaState
roll_daily_state now s = if s.accounting_date == date_of now then s else record s {
  accounting_date = date_of now;
  daily_reserved_cost = 0;
  daily_settled_cost = 0;
  version = s.version + 1;
  updated_at = now;
}

unfoldable pub touch_state : ℕ → ProjectQuotaState → Result QuotaError ProjectQuotaState
unfolding assert_state_nonnegative
touch_state now s =
    assert_state_nonnegative s >> ok (record s { version = s.version + 1; updated_at = now })

-- The amount that counts for a vendor: `gpu_count if vendor == counted else 0`.
abbrev pub nvidia_share : Option AcceleratorVendor → ℕ → ℕ
nvidia_share (some nvidia) amount = amount
nvidia_share _ amount = 0

abbrev pub ascend_share : Option AcceleratorVendor → ℕ → ℕ
ascend_share (some huawei_ascend) amount = amount
ascend_share _ amount = 0
