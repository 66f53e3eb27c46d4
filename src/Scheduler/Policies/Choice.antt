-- ===== src/Scheduler/Policies/Choice.antt =====
-- scheduler/policies.py: what `choose_placement` chooses, and what it says of the others.
use mini_ai_cloud.Prelude.{
  ◌≡◌, refl, sym, ◌∙◌, subst, ◌⊎◌, inl, inr, ◌≢◌, true, Option, none, some, List, [], ◌∷◌, ◌++◌,
  Result, ok, err, All, Any, Result-cases, ok_injective, arith,
}
use mathlib.Core.List.{append_assoc, append-nil}
use text.Mathlib.TextEquality.{eq_iff}
use mini_ai_cloud.Prelude.Text.{String, Dict, lookup, lookup-insert}
use mini_ai_cloud.Prelude.Sort.{sort, sort-head-le, sort-head-Any, sort-nil}
use mini_ai_cloud.Prelude.Floats.{Floats}
use mini_ai_cloud.Scheduler.Policies.Snapshots.{
  WorkerSnapshot, TaskSnapshot, RejectionReason, evaluate_snapshot,
}
use mini_ai_cloud.Scheduler.Policies.Placements.{
  Placement, place, by_score, Scan, consider, scan, first, choose_placement,
}

module _ (fl : Floats) (policy : String) (task : TaskSnapshot) where
  -- The placements of the workers that take the task, in the order of the workers.
  placed : List WorkerSnapshot → List (Placement fl)
  placed [] = []
  placed (w ∷ ws) = elim (evaluate_snapshot w task) [
    | ok ids ↦ place fl policy task w ids ∷ placed ws
    | err r ↦ placed ws
  ]

  scan-placed :
      (s : Scan fl) (ws : List WorkerSnapshot) → (scan fl policy task s ws).0 ≡ s.0 ++ placed ws
  unfolding scan consider placed
  scan-placed s [] = sym (append-nil s.0)
  scan-placed s (w ∷ ws) = elim (Result-cases (evaluate_snapshot w task)) [
    | inl (ids, e) ↦ ground (
      arith,
      scan-placed (consider fl policy task s w) ws,
      append_assoc s.0 (place fl policy task w ids ∷ []) (placed ws),
    )
    | inr (r, e) ↦ ground (arith, scan-placed (consider fl policy task s w) ws)
  ]

  abbrev pub PlacedAt : Placement fl → WorkerSnapshot → Type 0
  PlacedAt p w =
      (ids : List String) × (evaluate_snapshot w task ≡ ok ids) × (p ≡ place fl policy task w ids)

  abbrev pub NoBetter : Placement fl → WorkerSnapshot → Type 0
  NoBetter p w =
      (ids : List String)
      → evaluate_snapshot w task ≡ ok ids
      → (by_score fl).le p (place fl policy task w ids) ≡ true

  placed-Any :
      (p : Placement fl) (ws : List WorkerSnapshot)
      → Any (λ q. p ≡ q) (placed ws)
      → Any (PlacedAt p) ws
  unfolding placed
  placed-Any p [] h = h
  placed-Any p (w ∷ ws) h = go (evaluate_snapshot w task) refl h (placed-Any p ws)
    where
      go :
          (r : Result RejectionReason (List String))
          → evaluate_snapshot w task ≡ r
          → Any
              (λ q. p ≡ q)
              (elim r [ ok ids ↦ place fl policy task w ids ∷ placed ws | err e ↦ placed ws ])
          → (Any (λ q. p ≡ q) (placed ws) → Any (PlacedAt p) ws)
          → PlacedAt p w ⊎ Any (PlacedAt p) ws
      go (ok ids) e (inl q) ih = inl (ids, e, q)
      go (ok ids) e (inr q) ih = inr (ih q)
      go (err r) e q ih = inr (ih q)

  placed-NoBetter :
      (p : Placement fl) (ws : List WorkerSnapshot)
      → All (λ q. (by_score fl).le p q ≡ true) (placed ws)
      → All (NoBetter p) ws
  unfolding placed
  placed-NoBetter p [] h = tt
  placed-NoBetter p (w ∷ ws) h = go (evaluate_snapshot w task) refl h (placed-NoBetter p ws)
    where
      go :
          (r : Result RejectionReason (List String))
          → evaluate_snapshot w task ≡ r
          → All
              (λ q. (by_score fl).le p q ≡ true)
              (elim r [ ok ids ↦ place fl policy task w ids ∷ placed ws | err e ↦ placed ws ])
          → (All (λ q. (by_score fl).le p q ≡ true) (placed ws) → All (NoBetter p) ws)
          → NoBetter p w × All (NoBetter p) ws
      go (ok ids) e q ih = (
        (λ ids' e'.
            subst (λ r. (by_score fl).le p (place fl policy task w r) ≡ true)
              (ok_injective (sym e ∙ e')) q.0),
        ih q.1,
      )
      go (err r) e q ih = ((λ ids' e'. cc), ih q)

  -- Names of the workers that turned the task down, as `choose_placement` reports them.
  abbrev pub Reported : Dict RejectionReason → WorkerSnapshot → Type 0
  Reported rejected w =
      (r : RejectionReason) × (evaluate_snapshot w task ≡ err r) × (lookup w.id rejected ≢ none)

  consider-keeps :
      (s : Scan fl) (w : WorkerSnapshot) (id : String)
      → lookup id s.1 ≢ none
      → lookup id (consider fl policy task s w).1 ≢ none
  unfolding consider
  consider-keeps s w id h = elim (Result-cases (evaluate_snapshot w task)) [
    | inl (ids, e) ↦ ground arith
    | inr (r, e) ↦ ground (arith, lookup-insert s.1 id w.id r)
  ]

  scan-keeps :
      (s : Scan fl) (ws : List WorkerSnapshot) (id : String)
      → lookup id s.1 ≢ none
      → lookup id (scan fl policy task s ws).1 ≢ none
  unfolding scan
  scan-keeps s [] id h = h
  scan-keeps s (w ∷ ws) id h =
      scan-keeps (consider fl policy task s w) ws id (consider-keeps s w id h)

  reported :
      (s : Scan fl) (w : WorkerSnapshot) (r : RejectionReason)
      → evaluate_snapshot w task ≡ err r
      → lookup w.id (consider fl policy task s w).1 ≢ none
  unfolding consider
  reported s w r e = ground (arith, lookup-insert s.1 w.id w.id r, eq_iff w.id w.id)

  scan-Reported :
      (s : Scan fl) (ws : List WorkerSnapshot)
      → placed ws ≡ []
      → All (Reported (scan fl policy task s ws).1) ws
  unfolding scan placed
  scan-Reported s [] none_placed = tt
  scan-Reported s (w ∷ ws) none_placed = elim (Result-cases (evaluate_snapshot w task)) [
    | inl (ids, e) ↦ ground arith
    | inr (r, e) ↦ (
      (r, e, scan-keeps (consider fl policy task s w) ws w.id (reported s w r e)),
      scan-Reported (consider fl policy task s w) ws (ground arith),
    )
  ]

first-some {ℓ} :
    {A : Type ℓ} (xs : List A) {x : A} → first xs ≡ some x → (rest : List A) × (xs ≡ x ∷ rest)
first-some (y ∷ ys) e = (ys, ground arith)
first-some [] e = cc

first-none {ℓ} : {A : Type ℓ} (xs : List A) → first xs ≡ none → xs ≡ []
first-none [] e = refl
first-none (x ∷ xs) e = cc

chosen_result :
    (fl : Floats) (task : TaskSnapshot) (workers : List WorkerSnapshot) (policy : String)
    {choice : Option (Placement fl)} {rejected : Dict RejectionReason}
    → choose_placement fl task workers policy ≡ ok (choice, rejected)
    → (choice ≡ first (sort (by_score fl) (placed fl policy task workers)))
      × (rejected ≡ (scan fl policy task ([], []) workers).1)
unfolding choose_placement
chosen_result fl task workers policy h = ground (arith, scan-placed fl policy task ([], []) workers)

-- The placement that is chosen is that of a worker which takes the task, and no worker that takes
-- the task has a placement that comes before it by score, worker and devices.
pub choose_placement-best :
    (fl : Floats) (task : TaskSnapshot) (workers : List WorkerSnapshot) (policy : String)
    {p : Placement fl} {rejected : Dict RejectionReason}
    → choose_placement fl task workers policy ≡ ok (some p, rejected)
    → Any (PlacedAt fl policy task p) workers × All (NoBetter fl policy task p) workers
unfolding choose_placement
choose_placement-best fl task workers policy {p} {rejected} h =
    let (e, _) = chosen_result fl task workers policy h in
    let (rest, sorted) = first-some (sort (by_score fl) (placed fl policy task workers)) (sym e) in
    (
      placed-Any fl policy task p workers
          (sort-head-Any (by_score fl) (placed fl policy task workers) sorted),
      placed-NoBetter fl policy task p workers
          (sort-head-le (by_score fl) (placed fl policy task workers) sorted),
    )

-- Where no placement is chosen every worker turned the task down and is named among the rejected.
pub choose_placement-none :
    (fl : Floats) (task : TaskSnapshot) (workers : List WorkerSnapshot) (policy : String)
    {rejected : Dict RejectionReason}
    → choose_placement fl task workers policy ≡ ok (none, rejected)
    → All (Reported fl policy task rejected) workers
unfolding choose_placement
choose_placement-none fl task workers policy {rejected} h =
    let (e, f) = chosen_result fl task workers policy h in
    subst (λ r. All (Reported fl policy task r) workers) (sym f)
      (scan-Reported fl policy task ([], []) workers
        (sort-nil (by_score fl) (placed fl policy task workers) (first-none _ (sym e))))
