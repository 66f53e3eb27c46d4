-- ===== src/Repositories/Quotas/Invariant.antt =====
-- repositories/quotas.py: what every operation keeps.
use mini_ai_cloud.Prelude.{
  ℕ, ◌+◌, ◌≤◌, ◌≡◌, refl, sym, ◌↔◌, inl, inr, Bool, Option, none, some, List, [], ◌∷◌, ◌==◌, ok,
  ok_parts, ok_injective, All, arith, Bool-cases,
}
use mini_ai_cloud.Prelude.Text.{String}
use mini_ai_cloud.Core.Enums.{AcceleratorVendor}
use mini_ai_cloud.Repositories.Quotas.Model.{
  ProjectQuota, ProjectQuotaState, Claim, check_limit, check_limits, date_of,
  assert_state_nonnegative, roll_daily_state, touch_state, nvidia_share, ascend_share,
}
use mini_ai_cloud.Repositories.Quotas.Operations.{reserve, unreserve, reservation_claims, Amounts}
use mini_ai_cloud.Repositories.Quotas.Commitments.{Change, commit, commitment_claims}

-- The amount is within the limit, where there is one.
abbrev pub Fits : Option ℕ → ℕ → Type 0
Fits none requested = Unit
Fits (some limit) requested = requested ≤ limit

abbrev pub Meets : Claim → Type 0
Meets c = Fits c.limit c.requested

pub Fits-mono : (limit : Option ℕ) (m n : ℕ) → m ≤ n → Fits limit n → Fits limit m
Fits-mono none m n h k = tt
Fits-mono (some limit) m n h k = omega (arith, h, k)

check_limit_iff :
    (name : String) (limit : Option ℕ) (n : ℕ) → (check_limit name limit n ≡ ok tt) ↔ Fits limit n
unfolding check_limit
check_limit_iff name none n = (λ h. tt, λ h. refl)
check_limit_iff name (some limit) n = ground arith

pub check_limits_iff : (cs : List Claim) → (check_limits cs ≡ ok tt) ↔ All Meets cs
unfolding check_limits
check_limits_iff [] = (λ h. tt, λ h. refl)
check_limits_iff (c ∷ cs) =
    ground (arith, check_limit_iff c.resource c.limit c.requested, check_limits_iff cs)

-- The typed counters add up to the totals.
pub record Typed (s : ProjectQuotaState) : Type 0 where
  pub tasks : s.reserved_gpus ≡ s.reserved_nvidia_gpus + s.reserved_ascend_npus
  pub services :
      s.service_reserved_gpus ≡ s.service_reserved_nvidia_gpus + s.service_reserved_ascend_npus

-- The counters are within the limits on capacity: all of them but that on the cost of a day.
pub record Within (q : ProjectQuota) (s : ProjectQuotaState) : Type 0 where
  pub queued : Fits q.max_queued_tasks s.queued_tasks
  pub running : Fits q.max_running_tasks (s.running_tasks + s.service_replicas)
  pub cpu :
      Fits q.max_cpu_millicores (s.reserved_cpu_millicores + s.service_reserved_cpu_millicores)
  pub memory : Fits q.max_memory_mb (s.reserved_memory_mb + s.service_reserved_memory_mb)
  pub gpus : Fits q.max_gpus (s.reserved_gpus + s.service_reserved_gpus)
  pub nvidia_gpus : Fits q.max_nvidia_gpus (s.reserved_nvidia_gpus + s.service_reserved_nvidia_gpus)
  pub ascend_npus : Fits q.max_ascend_npus (s.reserved_ascend_npus + s.service_reserved_ascend_npus)
  pub services : Fits q.max_services s.service_count
  pub replicas : Fits q.max_service_replicas s.service_replicas
  pub artifacts : Fits q.max_artifact_bytes s.artifact_bytes

pub record Sound (q : ProjectQuota) (s : ProjectQuotaState) : Type 0 where
  pub typed : Typed s
  pub within : Within q s

-- `_assert_state_nonnegative` asks for no more than the typed totals.
pub assert_iff : (s : ProjectQuotaState) → (assert_state_nonnegative s ≡ ok tt) ↔ Typed s
unfolding assert_state_nonnegative
assert_iff s = (
  λ h. record { tasks = ground arith; services = ground arith },
  λ t. ground (arith, t.tasks, t.services),
)

unfoldable pub touched : ℕ → ProjectQuotaState → ProjectQuotaState
touched now s = record s { version = s.version + 1; updated_at = now }

pub touch_state-ok :
    (now : ℕ) (s : ProjectQuotaState) {t : ProjectQuotaState}
    → touch_state now s ≡ ok t
    → Typed s × (t ≡ touched now s)
unfolding touch_state touched
touch_state-ok now s {t} h =
    let (u, a, e) = ok_parts (assert_state_nonnegative s) (λ _. ok (touched now s)) h in
    ((assert_iff s).0 a, sym (ok_injective e))

-- Sums that are no larger than those of a state within the limits are within them.
pub record Lower (t s : ProjectQuotaState) : Type 0 where
  queued : t.queued_tasks ≤ s.queued_tasks
  running : t.running_tasks + t.service_replicas ≤ s.running_tasks + s.service_replicas
  cpu :
      t.reserved_cpu_millicores + t.service_reserved_cpu_millicores
      ≤ s.reserved_cpu_millicores + s.service_reserved_cpu_millicores
  memory :
      t.reserved_memory_mb + t.service_reserved_memory_mb
      ≤ s.reserved_memory_mb + s.service_reserved_memory_mb
  gpus : t.reserved_gpus + t.service_reserved_gpus ≤ s.reserved_gpus + s.service_reserved_gpus
  nvidia_gpus :
      t.reserved_nvidia_gpus + t.service_reserved_nvidia_gpus
      ≤ s.reserved_nvidia_gpus + s.service_reserved_nvidia_gpus
  ascend_npus :
      t.reserved_ascend_npus + t.service_reserved_ascend_npus
      ≤ s.reserved_ascend_npus + s.service_reserved_ascend_npus
  services : t.service_count ≤ s.service_count
  replicas : t.service_replicas ≤ s.service_replicas
  artifacts : t.artifact_bytes ≤ s.artifact_bytes

pub Lower-Within :
    (q : ProjectQuota) (s t : ProjectQuotaState) → Lower t s → Within q s → Within q t
Lower-Within q s t l w = record {
  queued = Fits-mono q.max_queued_tasks _ _ l.queued w.queued;
  running = Fits-mono q.max_running_tasks _ _ l.running w.running;
  cpu = Fits-mono q.max_cpu_millicores _ _ l.cpu w.cpu;
  memory = Fits-mono q.max_memory_mb _ _ l.memory w.memory;
  gpus = Fits-mono q.max_gpus _ _ l.gpus w.gpus;
  nvidia_gpus = Fits-mono q.max_nvidia_gpus _ _ l.nvidia_gpus w.nvidia_gpus;
  ascend_npus = Fits-mono q.max_ascend_npus _ _ l.ascend_npus w.ascend_npus;
  services = Fits-mono q.max_services _ _ l.services w.services;
  replicas = Fits-mono q.max_service_replicas _ _ l.replicas w.replicas;
  artifacts = Fits-mono q.max_artifact_bytes _ _ l.artifacts w.artifacts;
}

pub Typed-touched : (now : ℕ) (s : ProjectQuotaState) → Typed s → Typed (touched now s)
unfolding touched
Typed-touched now s t = record { tasks = t.tasks; services = t.services }

pub touched-Sound :
    (now : ℕ) (q : ProjectQuota) (s : ProjectQuotaState) → Sound q s → Sound q (touched now s)
unfolding touched
touched-Sound now q s h = ground (arith, Lower-Within q s (touched now s))

pub roll-Sound :
    (now : ℕ) (q : ProjectQuota) (s : ProjectQuotaState)
    → Sound q s
    → Sound q (roll_daily_state now s)
unfolding roll_daily_state
roll-Sound now q s h = elim (Bool-cases (s.accounting_date == date_of now)) [
  | inl same ↦ ground arith
  | inr other ↦ ground (arith, Lower-Within q s (roll_daily_state now s))
]

pub shares-le : (v : Option AcceleratorVendor) (n : ℕ) → nvidia_share v n + ascend_share v n ≤ n
shares-le v n = ground arith

pub reserve-Sound :
    (q : ProjectQuota) (s : ProjectQuotaState) (a : Amounts)
    → Sound q s
    → All Meets (reservation_claims q s a)
    → Sound q (reserve s a)
unfolding reserve reservation_claims
reserve-Sound q s a h (running, (cpu, (memory, (gpus, (nvidia_gpus, (ascend_npus, cost)))))) =
    record {
      typed = record { tasks = refl; services = h.typed.services };
      within = record {
        queued = Fits-mono q.max_queued_tasks _ s.queued_tasks (omega arith) h.within.queued;
        running = Fits-mono q.max_running_tasks _ _ (omega arith) running;
        cpu = Fits-mono q.max_cpu_millicores _ _ (omega arith) cpu;
        memory = Fits-mono q.max_memory_mb _ _ (omega arith) memory;
        gpus =
            Fits-mono q.max_gpus _ _ (omega (arith, shares-le a.vendor a.gpu_count, h.typed.tasks))
              gpus;
        nvidia_gpus = nvidia_gpus;
        ascend_npus = ascend_npus;
        services = h.within.services;
        replicas = h.within.replicas;
        artifacts = h.within.artifacts;
      };
    }

pub unreserve-Sound :
    (q : ProjectQuota) (s : ProjectQuotaState) (a : Amounts) (settled : ℕ) (today : Bool)
    → Sound q s
    → Sound q (unreserve s a settled today)
unfolding unreserve
unreserve-Sound q s a settled today h =
    ground (arith, Lower-Within q s (unreserve s a settled today))

pub commit-Sound :
    (q : ProjectQuota) (s : ProjectQuotaState) (c : Change)
    → Sound q s
    → All Meets (commitment_claims q (commit s c))
    → Sound q (commit s c)
unfolding commit commitment_claims
commit-Sound q s c h
      (services, (replicas, (running, (cpu, (memory, (gpus, (nvidia_gpus, (ascend_npus, u)))))))) =
    record {
      typed = record { tasks = h.typed.tasks; services = refl };
      within = record {
        queued = h.within.queued;
        running = running;
        cpu = cpu;
        memory = memory;
        gpus = gpus;
        nvidia_gpus = nvidia_gpus;
        ascend_npus = ascend_npus;
        services = services;
        replicas = replicas;
        artifacts = h.within.artifacts;
      };
    }
