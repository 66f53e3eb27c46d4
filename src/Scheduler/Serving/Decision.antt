-- ===== src/Scheduler/Serving/Decision.antt =====
-- scheduler/serving.py: a replica gets all its GPUs from one worker, whenever some worker has
-- enough of them, and otherwise an explanation of what is missing.
use mini_ai_cloud.Prelude.{
  ℕ, ◌≤◌, ◌<◌, ◌≡◌, refl, ap, ◌∙◌, ◌⊎◌, inl, inr, Bool, false, none, some, List, [], ◌∷◌, keep,
  length, ltb, ok, arith, All, Any, Any-map, Bool-cases, keep-keep, length-keep-le, ltb→lt,
}
use mini_ai_cloud.Prelude.Int.{pos}
use mini_ai_cloud.Prelude.Sort.{sort, sort-head-Any, sort-nil}
use mini_ai_cloud.Scheduler.Serving.{
  ServingGpuDeviceSnapshot, ServingWorkerSnapshot, ServingPlacementRequest, ServingPlacement,
  ServingPlacementReason, ServingPlacementExplain, Outcome, Candidate, has_model, has_memory,
  largest, candidates, by_score, first_placement, place_gang, choose_single_node_gang_placement,
  is_blank_model, explain, insufficient_contiguous_gpus, gpu_model_mismatch,
  insufficient_gpu_memory,
}
use mini_ai_cloud.Scheduler.Serving.Gang.{
  offers, HasDistinctIds, largest-bound, largest-attained, largest-Any, Any-largest,
}
use mini_ai_cloud.Scheduler.Serving.Choice.{
  usable, of_model, eligible, Gang, candidates-Any, candidates-ne_nil, place_gang-offers,
}

module _ (request : ServingPlacementRequest) (count memory : ℕ)
    (ws : List ServingWorkerSnapshot) where
  abbrev pub Supplies : (ServingGpuDeviceSnapshot → Bool) → ServingWorkerSnapshot → Type 0
  Supplies test w = count ≤ length (keep test w.gpu_devices)

  -- The tests before the one that failed passed, on some worker each.
  abbrev pub PassedBefore : ServingPlacementReason → Type 0
  PassedBefore insufficient_contiguous_gpus = Unit
  PassedBefore gpu_model_mismatch = Any (Supplies (usable request)) ws
  PassedBefore insufficient_gpu_memory = Any (Supplies (of_model request)) ws

  -- The tests up to the one that failed.
  abbrev pub failed_test : ServingPlacementReason → ServingGpuDeviceSnapshot → Bool
  failed_test insufficient_contiguous_gpus = usable request
  failed_test gpu_model_mismatch = of_model request
  failed_test insufficient_gpu_memory = eligible request memory

  abbrev pub IsAttained : ServingPlacementReason → ℕ → Type 0
  IsAttained reason n =
      Any (λ w. length (keep (failed_test reason) w.gpu_devices) ≡ n) ws ⊎ ((ws ≡ []) × (n ≡ 0))

  -- The reported number is too few; no worker has more devices that pass, and one has as many, if there
  -- is a worker at all.
  abbrev pub Explains : ServingPlacementExplain → Type 0
  Explains x =
      (x.largest_available_worker_gpu_count < count)
      × All
          (λ w.
            length (keep (failed_test x.reason) w.gpu_devices)
            ≤ x.largest_available_worker_gpu_count)
          ws
      × IsAttained x.reason x.largest_available_worker_gpu_count
      × PassedBefore x.reason

  abbrev pub Decided : Outcome → Type 0
  Decided out =
      ((p : ServingPlacement) × (out ≡ (some p, none)) × Any (Gang request count memory p) ws)
      ⊎ ((x : ServingPlacementExplain) × (out ≡ (none, some x)) × Explains x)

module _ (request : ServingPlacementRequest) (count memory : ℕ) (ws : List ServingWorkerSnapshot)
    (distinct : HasDistinctIds ws) (some_wanted : 0 < count) where
  enough_left :
      ltb (largest (offers (eligible request memory) ws)) count ≡ false
      → (c : Candidate) × (rest : List Candidate) × (sort by_score
            (candidates count (offers (eligible request memory) ws))
          ≡ c ∷ rest)
  enough_left enough = go (sort by_score found) refl
    where
      found : List Candidate
      found = candidates count (offers (eligible request memory) ws)

      supplied : Any (Supplies request count memory ws (eligible request memory)) ws
      supplied = largest-Any (eligible request memory) ws count some_wanted (ground arith)

      go :
          (cs : List Candidate)
          → sort by_score found ≡ cs
          → (c : Candidate) × (rest : List Candidate) × (sort by_score found ≡ c ∷ rest)
      go [] e = absurd (
          candidates-ne_nil (eligible request memory) count ws supplied (sort-nil by_score found e))
      go (c ∷ rest) e = (c, rest, e)

  of_explain :
      (reason : ServingPlacementReason) (n : ℕ)
      → n < count
      → All (λ w. length (keep (failed_test request count memory ws reason) w.gpu_devices) ≤ n) ws
      → IsAttained request count memory ws reason n
      → PassedBefore request count memory ws reason
      → Decided request count memory ws (none, some (explain request reason n))
  unfolding explain
  of_explain reason n short bound attained passed =
      inr (explain request reason n, refl, (short, bound, attained, passed))

  of_candidate :
      (c : Candidate) (rest : List Candidate)
      → sort by_score (candidates count (offers (eligible request memory) ws)) ≡ c ∷ rest
      → Decided request count memory ws (
        first_placement (sort by_score (candidates count (offers (eligible request memory) ws))),
        none,
      )
  of_candidate c rest e = inl (
    c.placement,
    ap (λ cs. (first_placement cs, none)) e,
    candidates-Any request count memory ws c
        (sort-head-Any by_score (candidates count (offers (eligible request memory) ws)) e),
  )

  place_gang-Decided : Decided request count memory ws (place_gang request count memory ws)
  place_gang-Decided =
      rw (place_gang-offers request count memory ws distinct)
        (elim (Bool-cases (ltb (largest (offers (usable request) ws)) count)) [
          | inl short ↦ rw short (
              of_explain insufficient_contiguous_gpus (largest (offers (usable request) ws))
                (ltb→lt _ _ short) (largest-bound (usable request) ws _ (omega arith))
                (largest-attained (usable request) ws) tt)
          | inr enough ↦
              rw enough (elim (Bool-cases (ltb (largest (offers (of_model request) ws)) count)) [
                | inl short ↦ rw short (
                    of_explain gpu_model_mismatch (largest (offers (of_model request) ws))
                      (ltb→lt _ _ short) (largest-bound (of_model request) ws _ (omega arith))
                      (largest-attained (of_model request) ws)
                      (largest-Any (usable request) ws count some_wanted (ground arith)))
                | inr enough₂ ↦
                    rw enough₂
                      (elim (Bool-cases
                        (ltb (largest (offers (eligible request memory) ws)) count)) [
                          | inl short ↦ rw short (
                              of_explain insufficient_gpu_memory
                                (largest (offers (eligible request memory) ws)) (ltb→lt _ _ short)
                                (largest-bound (eligible request memory) ws _ (omega arith))
                                (largest-attained (eligible request memory) ws)
                                (largest-Any (of_model request) ws count some_wanted
                                  (ground arith)))
                          | inr enough₃ ↦
                              let (c, rest, e) = enough_left enough₃ in
                              rw enough₃ (of_candidate c rest e)
                        ])
              ])
        ])

  keep-le_keep_of :
      (w : ServingWorkerSnapshot)
      → (length (keep (eligible request memory) w.gpu_devices)
          ≤ length (keep (of_model request) w.gpu_devices))
        × (length (keep (of_model request) w.gpu_devices)
            ≤ length (keep (usable request) w.gpu_devices))
  keep-le_keep_of w = (
    rw (← keep-keep (has_memory memory) (of_model request) w.gpu_devices)
        (length-keep-le (has_memory memory) (keep (of_model request) w.gpu_devices)),
    rw (← keep-keep (has_model request.gpu_model) (usable request) w.gpu_devices)
        (length-keep-le (has_model request.gpu_model) (keep (usable request) w.gpu_devices)),
  )

  place_gang-some :
      Any (Supplies request count memory ws (eligible request memory)) ws
      → (p : ServingPlacement) × (place_gang request count memory ws ≡ (some p, none))
  place_gang-some supplied =
      let all_left = Any-largest (eligible request memory) ws count supplied in
      let (c, rest, e) = enough_left (ground arith) in
      (
        c.placement,
        ground (
          arith,
          place_gang-offers request count memory ws distinct,
          Any-largest (of_model request) ws count
              (Any-map ws (λ w h. omega (arith, keep-le_keep_of w, h)) supplied),
          Any-largest (usable request) ws count
              (Any-map ws (λ w h. omega (arith, keep-le_keep_of w, h)) supplied),
        ),
      )

abbrev pub Asks : ServingPlacementRequest → ℕ → ℕ → Type 0
Asks request count memory =
    (request.gpu_count ≡ pos count)
    × (request.gpu_memory_mb ≡ pos memory)
    × (is_blank_model request.gpu_model ≡ false)
    × (0 < count)

checked :
    (request : ServingPlacementRequest) (count memory : ℕ) (ws : List ServingWorkerSnapshot)
    → Asks request count memory
    → choose_single_node_gang_placement request ws ≡ ok (place_gang request count memory ws)
unfolding choose_single_node_gang_placement
checked request count memory ws asks = ground arith

-- A request for GPUs is either placed on a gang of one worker's eligible devices, the best fitting,
-- or explained by the first test at which no worker has enough devices left, with the number that
-- the best supplied worker has there; never both, and never neither.
pub choose_single_node_gang_placement-Decided :
    (request : ServingPlacementRequest) (count memory : ℕ) (ws : List ServingWorkerSnapshot)
    → Asks request count memory
    → HasDistinctIds ws
    → (out : Outcome) × (choose_single_node_gang_placement request ws ≡ ok out)
      × Decided request count memory ws out
choose_single_node_gang_placement-Decided request count memory ws asks distinct = (
  place_gang request count memory ws,
  checked request count memory ws asks,
  place_gang-Decided request count memory ws distinct asks.3,
)

-- Where one worker has enough eligible devices the request is placed.
pub choose_single_node_gang_placement_complete :
    (request : ServingPlacementRequest) (count memory : ℕ) (ws : List ServingWorkerSnapshot)
    → Asks request count memory
    → HasDistinctIds ws
    → Any (λ w. count ≤ length (keep (eligible request memory) w.gpu_devices)) ws
    → (p : ServingPlacement) × (choose_single_node_gang_placement request ws ≡ ok (some p, none))
choose_single_node_gang_placement_complete request count memory ws asks distinct supplied =
    let (p, e) = place_gang-some request count memory ws distinct asks.3 supplied in
    (p, checked request count memory ws asks ∙ ap ok e)
