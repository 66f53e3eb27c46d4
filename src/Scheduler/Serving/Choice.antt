-- ===== src/Scheduler/Serving/Choice.antt =====
-- scheduler/serving.py: the gang of one worker, and the candidates of all of them.
use mini_ai_cloud.Prelude.{
  ℕ, ◌≤◌, ◌≡◌, refl, sym, subst, ◌≢◌, ◌⊎◌, inl, inr, Bool, true, ◌&&◌, none, some, List, [], ◌∷◌,
  ◌++◌, map, keep, take, drop, length, ltb, if◌then◌else◌, arith, All, Any, Bool-cases,
  take-append-drop, length-take-le,
}
use mathlib.Core.List.{Perm}
use mini_ai_cloud.Prelude.Sort.{sort, sort-perm, length-sort, sort-IsSorted, IsSorted-take-drop}
use mini_ai_cloud.Scheduler.Serving.{
  ServingGpuDeviceSnapshot, ServingWorkerSnapshot, ServingPlacementRequest, ServingPlacement,
  Candidate, is_usable, has_model, has_memory, largest, best_fit, candidate, candidates, by_score,
  first_placement, place_gang, explain, insufficient_contiguous_gpus, gpu_model_mismatch,
  insufficient_gpu_memory,
}
use mini_ai_cloud.Scheduler.Serving.Gang.{offers, HasDistinctIds, available-offers, narrow-offers}

-- The device passes the request's first test, its first two, or all three.
abbrev pub usable : ServingPlacementRequest → ServingGpuDeviceSnapshot → Bool
usable request = is_usable request.allow_fake

abbrev pub of_model : ServingPlacementRequest → ServingGpuDeviceSnapshot → Bool
of_model request d = usable request d && has_model request.gpu_model d

abbrev pub eligible : ServingPlacementRequest → ℕ → ServingGpuDeviceSnapshot → Bool
eligible request memory d = of_model request d && has_memory memory d

-- The gang that the placement names: so many eligible devices of the worker, the best fitting.
abbrev pub Gang :
    ServingPlacementRequest → ℕ → ℕ → ServingPlacement → ServingWorkerSnapshot → Type 0
Gang request count memory p w =
    (p.worker_id ≡ w.id)
    × (gang left : List ServingGpuDeviceSnapshot) × (p.gpu_device_ids
        ≡ map (λ (d : ServingGpuDeviceSnapshot). d.uuid) gang)
    × (length gang ≡ count)
    × Perm (gang ++ left) (keep (eligible request memory) w.gpu_devices)
    × All (λ c. All (λ d. best_fit.le c d ≡ true) left) gang

candidate-Gang :
    (request : ServingPlacementRequest) (count memory : ℕ) (w : ServingWorkerSnapshot)
    → count ≤ length (keep (eligible request memory) w.gpu_devices)
    → Gang request count memory
        (candidate count (w.id, keep (eligible request memory) w.gpu_devices)).placement
        w
unfolding candidate
candidate-Gang request count memory w enough =
    let devices = keep (eligible request memory) w.gpu_devices in
    let sorted = sort best_fit devices in
    (
      refl,
      take count sorted,
      drop count sorted,
      refl,
      length-take-le count sorted (omega (arith, enough, length-sort best_fit devices)),
      rw (take-append-drop count sorted) (sort-perm best_fit devices),
      IsSorted-take-drop best_fit count sorted (sort-IsSorted best_fit devices),
    )

pub candidates-Any :
    (request : ServingPlacementRequest) (count memory : ℕ) (ws : List ServingWorkerSnapshot)
    (c : Candidate)
    → Any (λ x. c ≡ x) (candidates count (offers (eligible request memory) ws))
    → Any (Gang request count memory c.placement) ws
unfolding candidates
candidates-Any request count memory [] c h = h
candidates-Any request count memory (w ∷ ws) c h =
    elim (Bool-cases (ltb (length (keep (eligible request memory) w.gpu_devices)) count)) [
      | inl short ↦ inr (candidates-Any request count memory ws c (rw short at h))
      | inr enough ↦
          let h' : (c ≡ candidate count (w.id, keep (eligible request memory) w.gpu_devices))
              ⊎ Any (λ x. c ≡ x) (candidates count (offers (eligible request memory) ws)) =
            rw enough at h in
          elim h' [
            | inl e ↦ inl (
                subst (λ x. Gang request count memory x.placement w) (sym e)
                  (candidate-Gang request count memory w (ground arith)))
            | inr r ↦ inr (candidates-Any request count memory ws c r)
          ]
    ]

pub candidates-ne_nil :
    (p : ServingGpuDeviceSnapshot → Bool) (count : ℕ) (ws : List ServingWorkerSnapshot)
    → Any (λ w. count ≤ length (keep p w.gpu_devices)) ws
    → candidates count (offers p ws) ≢ []
unfolding candidates
candidates-ne_nil p count [] h = absurd h
candidates-ne_nil p count (w ∷ ws) h = ground (arith, candidates-ne_nil p count ws)

first_placement-some :
    (cs : List Candidate) {p : ServingPlacement}
    → first_placement cs ≡ some p
    → (c : Candidate) × (rest : List Candidate) × (cs ≡ c ∷ rest) × (c.placement ≡ p)
first_placement-some [] e = cc
first_placement-some (c ∷ cs) e = (c, cs, refl, ground arith)

pub place_gang-offers :
    (request : ServingPlacementRequest) (count memory : ℕ) (ws : List ServingWorkerSnapshot)
    → HasDistinctIds ws
    → place_gang request count memory ws ≡ (
        if ltb (largest (offers (usable request) ws)) count
        then (
          none,
          some
              (explain request insufficient_contiguous_gpus (largest (offers (usable request) ws))),
        )
        else if ltb (largest (offers (of_model request) ws)) count
        then (
          none,
          some (explain request gpu_model_mismatch (largest (offers (of_model request) ws))),
        )
        else if ltb (largest (offers (eligible request memory) ws)) count
        then (
          none,
          some (
              explain request insufficient_gpu_memory
                (largest (offers (eligible request memory) ws))),
        )
        else (
          first_placement (sort by_score (candidates count (offers (eligible request memory) ws))),
          none,
        ))
unfolding place_gang
place_gang-offers request count memory ws distinct = rw (
  available-offers request.allow_fake ws distinct,
  narrow-offers (has_model request.gpu_model) (usable request) ws,
  narrow-offers (has_memory memory) (of_model request) ws,
)
