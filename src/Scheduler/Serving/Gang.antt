-- ===== src/Scheduler/Serving/Gang.antt =====
-- scheduler/serving.py: the offers of the workers as lists, and the largest of them.
use mini_ai_cloud.Prelude.{
  ℕ, ◌≤◌, ◌<◌, ◌≡◌, refl, ap, ◌∙◌, ◌⊎◌, Any-map, inl, inr, Bool, true, ◌&&◌, List, [], ◌∷◌, map,
  keep, length, ltb, arith, All, Any, Bool-cases, keep-keep, ltb→lt, ap,
}
use mini_ai_cloud.Prelude.Text.{String, write_all, write_all-distinct, HasDistinctKeys, is_key}
use mini_ai_cloud.Scheduler.Serving.{
  ServingGpuDeviceSnapshot, ServingWorkerSnapshot, Offers, is_usable, available_by_worker, narrow,
  largest,
}

-- What the workers offer of the devices that pass the test.
abbrev pub offers : (ServingGpuDeviceSnapshot → Bool) → List ServingWorkerSnapshot → Offers
offers test [] = []
offers test (w ∷ ws) = (w.id, keep test w.gpu_devices) ∷ offers test ws

abbrev pub HasDistinctIds : List ServingWorkerSnapshot → Type 0
HasDistinctIds ws = HasDistinctKeys (offers (λ d. true) ws)

is_key-offers :
    (p q : ServingGpuDeviceSnapshot → Bool) (id : String) (ws : List ServingWorkerSnapshot)
    → is_key id (offers p ws) ≡ is_key id (offers q ws)
is_key-offers p q id [] = refl
is_key-offers p q id (w ∷ ws) = ground (arith, is_key-offers p q id ws)

offers-HasDistinctKeys :
    (p : ServingGpuDeviceSnapshot → Bool) (ws : List ServingWorkerSnapshot)
    → HasDistinctIds ws
    → HasDistinctKeys (offers p ws)
offers-HasDistinctKeys p [] h = tt
offers-HasDistinctKeys p (w ∷ ws) h =
    (is_key-offers p (λ d. true) w.id ws ∙ h.0, offers-HasDistinctKeys p ws h.1)

map-offers :
    (p : ServingGpuDeviceSnapshot → Bool) (ws : List ServingWorkerSnapshot)
    → map (λ (w : ServingWorkerSnapshot). (w.id, keep p w.gpu_devices)) ws ≡ offers p ws
map-offers p [] = refl
map-offers p (w ∷ ws) = ap (◌∷◌ (w.id, keep p w.gpu_devices)) (map-offers p ws)

pub available-offers :
    (allow_fake : Bool) (ws : List ServingWorkerSnapshot)
    → HasDistinctIds ws
    → available_by_worker allow_fake ws ≡ offers (is_usable allow_fake) ws
unfolding available_by_worker
available-offers allow_fake ws h =
    ap (write_all []) (map-offers (is_usable allow_fake) ws)
    ∙ write_all-distinct (offers (is_usable allow_fake) ws)
        (offers-HasDistinctKeys (is_usable allow_fake) ws h)

pub narrow-offers :
    (p q : ServingGpuDeviceSnapshot → Bool) (ws : List ServingWorkerSnapshot)
    → narrow p (offers q ws) ≡ offers (λ d. q d && p d) ws
unfolding narrow
narrow-offers p q [] = refl
narrow-offers p q (w ∷ ws) = ground (arith, keep-keep p q w.gpu_devices, narrow-offers p q ws)

-- The number of devices that the best supplied worker offers.
pub largest-bound :
    (p : ServingGpuDeviceSnapshot → Bool) (ws : List ServingWorkerSnapshot) (n : ℕ)
    → largest (offers p ws) ≤ n
    → All (λ w. length (keep p w.gpu_devices) ≤ n) ws
unfolding largest
largest-bound p [] n h = tt
largest-bound p (w ∷ ws) n h = (omega arith, largest-bound p ws n (omega arith))

pub largest-Any :
    (p : ServingGpuDeviceSnapshot → Bool) (ws : List ServingWorkerSnapshot) (n : ℕ)
    → 0 < n
    → n ≤ largest (offers p ws)
    → Any (λ w. n ≤ length (keep p w.gpu_devices)) ws
unfolding largest
largest-Any p [] n some_wanted h = absurd (omega arith)
largest-Any p (w ∷ ws) n some_wanted h = elim (Bool-cases (ltb (length (keep p w.gpu_devices)) n)) [
  | inl short ↦ inr (
      largest-Any p ws n some_wanted
        (omega (arith, ltb→lt (length (keep p w.gpu_devices)) n short)))
  | inr enough ↦ inl (ground arith)
]

pub Any-largest :
    (p : ServingGpuDeviceSnapshot → Bool) (ws : List ServingWorkerSnapshot) (n : ℕ)
    → Any (λ w. n ≤ length (keep p w.gpu_devices)) ws
    → n ≤ largest (offers p ws)
unfolding largest
Any-largest p [] n h = elim h [ ]
Any-largest p (w ∷ ws) n (inl h) = omega arith
Any-largest p (w ∷ ws) n (inr h) = omega (arith, Any-largest p ws n h)

-- Some worker has just that number, unless there is no worker.
pub largest-attained :
    (p : ServingGpuDeviceSnapshot → Bool) (ws : List ServingWorkerSnapshot)
    → Any (λ w. length (keep p w.gpu_devices) ≡ largest (offers p ws)) ws
      ⊎ ((ws ≡ []) × (largest (offers p ws) ≡ 0))
unfolding largest
largest-attained p [] = inr (refl, refl)
largest-attained p (w ∷ ws) =
    elim (Bool-cases (ltb (length (keep p w.gpu_devices)) (largest (offers p ws)))) [
      | inl less ↦ elim (largest-attained p ws) [
        | inl h ↦ inl (inr (Any-map ws (λ v k. omega (arith, ltb→lt _ _ less, k)) h))
        | inr h ↦ absurd (omega (arith, ltb→lt _ _ less, h.1))
      ]
      | inr enough ↦ inl (inl (ground arith))
    ]
