-- ===== src/Repositories/Dag/Cycle/Walks.antt =====
-- repositories/dag.py: walks along the edges that `_contains_cycle` is given.
use mini_ai_cloud.Prelude.{
  ℕ, zero, suc, ◌+◌, ◌≤◌, ◌<◌, ◌≡◌, refl, sym, ap, ◌∙◌, inl, inr, true, false, List, [], ◌∷◌,
  length, ◌==◌, ==_iff, if◌then◌else◌, Bool-cases, arith,
}
use mini_ai_cloud.Prelude.Sets.{has, IsDistinct, IsSubset, length-le_of_subset, not_same, cons_in}
use mini_ai_cloud.Repositories.Dag.Cycle.{Edge, build}
use mini_ai_cloud.Repositories.Dag.Cycle.Build.{==_comm, has_edge, has_edge-keys, waiting_on-pos}
use mini_ai_cloud.Repositories.Dag.Cycle.Invariant.{IsOrdered, IsAt}

-- One edge or more, from a task to one that it needs.
pub data Walk (edges : List Edge) : ℕ → ℕ → Type 0 where
  last : {u v : ℕ} → has_edge u v edges ≡ true → Walk edges u v
  next : {u v w : ℕ} → has_edge u v edges ≡ true → Walk edges v w → Walk edges u w

-- The place of a node in the order in which they were popped; 0 of a node that was not.
rank : List ℕ → ℕ → ℕ
rank [] v = 0
rank (n ∷ done) v = if n == v then suc (length done) else rank done v

rank-le : (done : List ℕ) (v : ℕ) → rank done v ≤ length done
unfolding rank
rank-le [] v = omega arith
rank-le (n ∷ done) v = ground (arith, rank-le done v)

edge-rank :
    (edges : List Edge) (done : List ℕ) (u v : ℕ)
    → IsOrdered edges done
    → IsDistinct done
    → has_edge u v edges ≡ true
    → has v done ≡ true
    → (has u done ≡ true) × (rank done u < rank done v)
unfolding rank
edge-rank edges [] u v o d e h = cc
edge-rank edges (n ∷ done) u v o d e h = elim (Bool-cases (n == v)) [
  | inl same ↦
      let there = o.0 u (ap (λ x. has_edge u x edges) ((==_iff n v).0 same) ∙ e) in
      ground (arith, there, not_same n u done d.0 there, rank-le done u)
  | inr other ↦
      let (there, below) = edge-rank edges done u v o.1 d.1 e (ground (arith, h, other)) in
      ground (arith, there, below, other, not_same n u done d.0 there)
]

Walk-rank :
    (edges : List Edge) (done : List ℕ)
    → IsOrdered edges done
    → IsDistinct done
    → (u v : ℕ) → Walk edges u v
    → has v done ≡ true
    → (has u done ≡ true) × (rank done u < rank done v)
Walk-rank edges done o d u v (last e) h = edge-rank edges done u v o d e h
Walk-rank edges done o d u v (next {v = w} e walk) h =
    let (there, below) = Walk-rank edges done o d w v walk h in
    let (here, lower) = edge-rank edges done u w o d e there in (here, omega arith)

Walk-key : (edges : List Edge) (u v : ℕ) → Walk edges u v → has u (build edges).keys ≡ true
Walk-key edges u v (last e) = (has_edge-keys edges u v e).0
Walk-key edges u v (next {v = w} e walk) = (has_edge-keys edges u w e).0

-- No walk comes back where every key was popped.
pub all_done-acyclic :
    (edges : List Edge) (done : List ℕ) (left : ℕ → ℕ)
    → IsAt edges done [] left
    → IsSubset (build edges).keys done
    → (v : ℕ) → ¬ Walk edges v v
all_done-acyclic edges done left at all v walk = omega (
  arith,
  (Walk-rank edges done at.ordered at.done_once v v walk (all v (Walk-key edges v v walk))).1,
)

-- Each node of a trail has an edge to the next one.
IsTrail : List Edge → List ℕ → Type 0
IsTrail edges [] = Unit
IsTrail edges (x ∷ []) = Unit
IsTrail edges (x ∷ y ∷ rest) = (has_edge x y edges ≡ true) × IsTrail edges (y ∷ rest)

trail-Walk :
    (edges : List Edge) (rest : List ℕ) (u x w : ℕ)
    → has_edge u x edges ≡ true
    → IsTrail edges (x ∷ rest)
    → has w (x ∷ rest) ≡ true
    → Walk edges u w
unfolding IsTrail
trail-Walk edges [] u x w e t h =
    last (ap (λ n. has_edge u n edges) (sym ((==_iff x w).0 (ground (arith, h)))) ∙ e)
trail-Walk edges (y ∷ rest) u x w e t h = elim (Bool-cases (x == w)) [
  | inl same ↦ last (ap (λ n. has_edge u n edges) (sym ((==_iff x w).0 same)) ∙ e)
  | inr other ↦ next e (trail-Walk edges rest x y w t.0 t.1 (ground (arith, h, other)))
]

waits-back :
    (edges : List Edge) (done : List ℕ) (left : ℕ → ℕ) (v : ℕ)
    → IsAt edges done [] left
    → has v (build edges).keys ≡ true
    → has v done ≡ false
    → (u : ℕ) × (has_edge u v edges ≡ true) × (has u done ≡ false)
waits-back edges done left v at key fresh =
    waiting_on-pos edges done v (ground (arith, at.counts v, at.ready v key))

-- Back from a node that was not popped to one that was not popped, over and over, comes to a node
-- again once it has been at more nodes than there are keys.
back-Walk :
    (edges : List Edge) (done : List ℕ) (left : ℕ → ℕ)
    → IsAt edges done [] left
    → (fuel x : ℕ) (rest : List ℕ) → IsTrail edges (x ∷ rest)
    → IsDistinct (x ∷ rest)
    → IsSubset (x ∷ rest) (build edges).keys
    → has x done ≡ false
    → length rest + fuel ≡ length (build edges).keys
    → (v : ℕ) × Walk edges v v
unfolding IsTrail
back-Walk edges done left at zero x rest t d sub fresh enough =
    absurd (omega (arith, length-le_of_subset (x ∷ rest) (build edges).keys d sub, enough))
back-Walk edges done left at (suc fuel) x rest t d sub fresh enough =
    let (u, edge, waiting) =
      waits-back edges done left x at (sub x (ground (arith, ==_comm x x))) fresh in
    elim (Bool-cases (has u (x ∷ rest))) [
      | inl again ↦ (u, trail-Walk edges rest u x u edge t again)
      | inr new ↦
          back-Walk edges done left at fuel u (x ∷ rest) (edge, t) (new, d)
            (λ v. cons_in u v (x ∷ rest) (build edges).keys (has_edge-keys edges u x edge).0 sub)
            waiting (omega (arith, enough))
    ]

-- A walk comes back where a key was not popped.
pub not_done-cycle :
    (edges : List Edge) (done : List ℕ) (left : ℕ → ℕ) (x : ℕ)
    → IsAt edges done [] left
    → has x (build edges).keys ≡ true
    → has x done ≡ false
    → (v : ℕ) × Walk edges v v
unfolding IsTrail
not_done-cycle edges done left x at key fresh =
    back-Walk edges done left at (length (build edges).keys) x [] tt (refl, tt)
      (λ v. cons_in x v [] (build edges).keys key (λ w h. cc)) fresh (omega arith)
