-- ===== src/Repositories/Reservations/Returned.antt =====
-- repositories/reservations.py: what a project and a worker are given back.
use mini_ai_cloud.Prelude.{
  found, passed, ℕ, ◌+◌, ◌≤◌, ◌≡◌, refl, sym, subst, inl, inr, Bool, true, false, ◌&&◌, Option,
  some, List, [], ◌∷◌, ltb, ok, raise_if, ok_parts, ok_injective, either_ok, arith,
}
use mini_ai_cloud.Prelude.Int.{pos, ltb_ℤ}
use mini_ai_cloud.Prelude.Text.{◌===◌}
use mini_ai_cloud.Prelude.Floats.{Floats}
use mini_ai_cloud.Core.Enums.{AcceleratorVendor}
use mini_ai_cloud.Repositories.Quotas.Model.{
  ProjectQuotaState, QuotaSnapshot, Session, validate_reservation, normalize_accelerator_vendor,
  touch_state, nvidia_share, ascend_share,
}
use mini_ai_cloud.Repositories.Quotas.Operations.{
  typed_reserved, get_locked, save, release, unreserve, is_below, is_cost_of_today, amounts,
}
use mini_ai_cloud.Repositories.Quotas.Invariant.{Typed, touched, touch_state-ok}
use mini_ai_cloud.Repositories.Quotas.Execution.{get_locked-Current}
use mini_ai_cloud.Repositories.Quotas.Reserved.{IsVendorOf, known_vendor}
use mini_ai_cloud.Repositories.Tasks.Model.{Worker}
use mini_ai_cloud.Repositories.Tasks.Lifecycle.{find_worker}
use mini_ai_cloud.Repositories.Reservations.Settlement.{
  Reserved, below_reservation, released_amounts, is_short, give_back, settle_worker,
}

-- The counters of a project before and after it is given back what a reservation held.
pub record Returned (s t : ProjectQuotaState) (r : Reserved) (cost : ℕ) : Type 0 where
  pub running : t.running_tasks + 1 ≡ s.running_tasks
  pub cpu : t.reserved_cpu_millicores + r.cpu_millicores ≡ s.reserved_cpu_millicores
  pub memory : t.reserved_memory_mb + r.memory_mb ≡ s.reserved_memory_mb
  pub gpus : t.reserved_gpus + r.gpu_count ≡ s.reserved_gpus
  pub vendor : Option AcceleratorVendor
  pub vendor_known : IsVendorOf vendor r.requested_vendor r.gpu_count
  pub nvidia_gpus :
      t.reserved_nvidia_gpus + nvidia_share vendor r.gpu_count ≡ s.reserved_nvidia_gpus
  pub ascend_npus :
      t.reserved_ascend_npus + ascend_share vendor r.gpu_count ≡ s.reserved_ascend_npus
  pub settled : t.daily_settled_cost ≡ s.daily_settled_cost + cost
  pub queued : t.queued_tasks ≡ s.queued_tasks
  pub reserved_cost : t.daily_reserved_cost ≡ s.daily_reserved_cost

-- The counter of a vendor has the devices where the test for it has passed.
typed_left :
    (s : ProjectQuotaState) (r : Reserved) (vendor : Option AcceleratorVendor)
    → IsVendorOf vendor r.requested_vendor r.gpu_count
    → is_below s (amounts (released_amounts r) vendor) ≡ false
    → (nvidia_share vendor r.gpu_count ≤ s.reserved_nvidia_gpus)
      × (ascend_share vendor r.gpu_count ≤ s.reserved_ascend_npus)
      × (nvidia_share vendor r.gpu_count + ascend_share vendor r.gpu_count ≡ r.gpu_count)
unfolding is_below typed_reserved amounts
typed_left s r vendor known above = ground arith

unreserve-Returned :
    (s : ProjectQuotaState) (r : Reserved) (vendor : Option AcceleratorVendor) (cost now : ℕ)
    (today : Bool)
    → Typed s
    → normalize_accelerator_vendor r.requested_vendor r.gpu_count ≡ ok vendor
    → is_below s (amounts (released_amounts r) vendor) ≡ false
    → Returned s (touched now (unreserve s (amounts (released_amounts r) vendor) cost today)) r cost
unfolding is_below unreserve touched amounts
unreserve-Returned s r vendor cost now today typed normal above =
    let known = (known_vendor r.requested_vendor r.gpu_count vendor).0 normal in
    let (nvidia_left, ascend_left, shares) = typed_left s r vendor known above in
    record {
      running = ground arith;
      cpu = ground arith;
      memory = ground arith;
      gpus = omega (arith, typed.tasks, shares, nvidia_left, ascend_left);
      vendor = vendor;
      vendor_known = known;
      nvidia_gpus = omega (arith, nvidia_left);
      ascend_npus = omega (arith, ascend_left);
      settled = refl;
      queued = refl;
      reserved_cost = ground arith;
    }

pub not_raised {ℓ} : {E : Type ℓ} (b : Bool) (e : E) → raise_if b e ≡ ok tt → b ≡ false
not_raised b e h = ground arith

pub release-parts :
    (db : Session) (r : Reserved) (cost : ℕ) (date : Option ℕ) {after : Session}
    → release db (released_amounts r) (pos cost) date ≡ ok after
    → (rows : QuotaSnapshot) × (t : ProjectQuotaState) × (get_locked db ≡ ok rows)
      × (after ≡ save db rows.quota t)
      × Returned rows.state t r cost
unfolding release
release-parts db r cost date {after} h =
    let a = released_amounts r in
    let (u, valid, h1) =
      ok_parts (validate_reservation a.cpu_millicores a.memory_mb a.gpu_count a.cost) _ h in
    let (v, paid, h2) = ok_parts (raise_if (ltb_ℤ (pos cost) (pos 0)) _) _ h1 in
    let (rows, got, h3) = ok_parts (get_locked db) _ h2 in
    let (vendor, normal, h4) =
      ok_parts (normalize_accelerator_vendor r.requested_vendor r.gpu_count) _ h3 in
    let (w, enough, h5) = ok_parts (raise_if (is_below rows.state (amounts a vendor)) _) _ h4 in
    let today = is_cost_of_today date rows.state in
    let (x, costs, h6) =
      ok_parts (raise_if (today && ltb rows.state.daily_reserved_cost (amounts a vendor).cost) _) _
        h5 in
    let (t, touch, same) =
      ok_parts (touch_state db.now (unreserve rows.state (amounts a vendor) cost today)) _ h6 in
    (
      rows,
      t,
      got,
      sym (ok_injective same),
      subst (λ s. Returned rows.state s r cost) (sym (touch_state-ok db.now _ touch).1)
          (unreserve-Returned rows.state r vendor cost db.now today (get_locked-Current db got).0
            normal (not_raised (is_below rows.state (amounts a vendor)) _ enough)),
    )

pub add_zero : (n : ℕ) → n ≡ n + 0
add_zero n = omega arith

module _ (fl : Floats) where
  -- The counters of a worker before and after it gives back what the reservation held.
  pub record GivesBack (w v : Worker fl) (r : Reserved) : Type 0 where
    pub running : v.running_tasks + 1 ≡ w.running_tasks
    pub cpu : v.reserved_cpu ≡ fl.add w.reserved_cpu (fl.neg (fl.ratio r.cpu_millicores 1000))
    pub memory : v.reserved_memory_mb + r.memory_mb ≡ w.reserved_memory_mb
    pub gpus : v.reserved_gpus + r.gpu_count ≡ w.reserved_gpus

module _ (fl : Floats) (quantize : ℕ → ℕ) (cost_float : ℕ → fl.F) where
  give_back-GivesBack :
      (w : Worker fl) (r : Reserved)
      → is_short fl quantize cost_float w r ≡ false
      → GivesBack fl w (give_back fl quantize cost_float w r) r
  unfolding is_short give_back
  give_back-GivesBack w r h = ground arith

  given :
      (w : Worker fl) (r : Reserved) (ws : List (Worker fl))
      → (w.id === r.worker_id) ≡ true
      → find_worker fl r.worker_id (give_back fl quantize cost_float w r ∷ ws)
        ≡ some (give_back fl quantize cost_float w r)
  unfolding give_back
  given w r ws hit = rw hit

  pub settle_worker-GivesBack :
      (r : Reserved) (ws : List (Worker fl)) {after : List (Worker fl)} {w : Worker fl}
      → settle_worker fl quantize cost_float r ws ≡ ok after
      → find_worker fl r.worker_id ws ≡ some w
      → (v : Worker fl) × (find_worker fl r.worker_id after ≡ some v) × GivesBack fl w v r
  unfolding settle_worker
  settle_worker-GivesBack r [] h k = cc
  settle_worker-GivesBack r (x ∷ xs) {after} {w} h k =
      elim (either_ok (x.id === r.worker_id) _ _ h) [
        | inl (hit, h1) ↦
            let (u, fine, made) =
              ok_parts (raise_if (is_short fl quantize cost_float x r) below_reservation) _ h1 in
            let same = found x w (find_worker fl r.worker_id xs) (x.id === r.worker_id) hit k in
            (
              give_back fl quantize cost_float x r,
              subst
                  (λ (ws : List (Worker fl)).
                    find_worker fl r.worker_id ws ≡ some (give_back fl quantize cost_float x r))
                  (ok_injective made) (given x r xs hit),
              subst (λ (y : Worker fl). GivesBack fl y (give_back fl quantize cost_float x r) r)
                  same
                  (give_back-GivesBack x r
                    (not_raised (is_short fl quantize cost_float x r) _ fine)),
            )
        | inr (miss, h1) ↦
            let (rest, settled, made) = ok_parts (settle_worker fl quantize cost_float r xs) _ h1 in
            let (v, there, back) =
              settle_worker-GivesBack r xs settled
                (passed x w (find_worker fl r.worker_id xs) (x.id === r.worker_id) miss k) in
            (
              v,
              subst (λ (ws : List (Worker fl)). find_worker fl r.worker_id ws ≡ some v)
                  (ok_injective made) (rw miss there),
              back,
            )
      ]
