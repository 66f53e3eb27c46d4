-- ===== src/Repositories/Dag/Cycle/Decides.antt =====
-- repositories/dag.py: what `_contains_cycle` returns.
use mini_ai_cloud.Prelude.{
  ℕ, ◌≡◌, ap, ◌∙◌, ◌⊎◌, inl, inr, true, false, not, some, List, [], ◌∷◌, length, keep, ◌==◌, arith,
}
use mathlib.Core.Option
use mini_ai_cloud.Prelude.Sets.{cons_in, length-le_of_subset, subset_or}
use mini_ai_cloud.Repositories.Dag.Cycle.{Edge, build, drain, contains_cycle}
use mini_ai_cloud.Repositories.Dag.Cycle.Build.{AreDistinct, keys-IsDistinct}
use mini_ai_cloud.Repositories.Dag.Cycle.Invariant.{build-IsAt, drain-IsAt}
use mini_ai_cloud.Repositories.Dag.Cycle.Walks.{Walk, all_done-acyclic, not_done-cycle}

returns :
    (edges : List Edge) (visited : ℕ)
    → (let b = build edges in
        drain (length b.keys) b.graph (keep (λ n. b.indegree n == 0) b.keys) b.indegree 0
        ≡ some visited)
    → contains_cycle edges ≡ some (not (visited == length (build edges).keys))
unfolding contains_cycle
returns edges visited h = ap (Option.map (λ n. not (n == length (build edges).keys))) h

-- For each set of edges the cycle test returns: true where some task comes back to itself along the
-- edges, and false where none does.
pub contains_cycle_decides :
    (edges : List Edge)
    → AreDistinct edges
    → ((contains_cycle edges ≡ some true) × (v : ℕ) × Walk edges v v)
      ⊎ ((contains_cycle edges ≡ some false) × ((v : ℕ) → ¬ Walk edges v v))
contains_cycle_decides edges d =
    let b = build edges in
    let (over, left, ends, at) =
      drain-IsAt edges (length b.keys) [] (keep (λ n. b.indegree n == 0) b.keys) b.indegree d
        (build-IsAt edges) (omega arith) in
    let returned = returns edges (length over) ends in
    let few = length-le_of_subset over b.keys at.done_once at.done_keys in
    elim (subset_or b.keys over) [
      | inl all ↦
          let same : length over == length b.keys ≡ true =
            ground (arith, few, length-le_of_subset b.keys over (keys-IsDistinct edges) all) in
          inr (returned ∙ ap (λ t. some (not t)) same, all_done-acyclic edges over left at all)
      | inr (x, key, fresh) ↦
          let (v, walk) = not_done-cycle edges over left x at key fresh in
          let fewer =
            length-le_of_subset (x ∷ over) b.keys (fresh, at.done_once)
              (λ w. cons_in x w over b.keys key at.done_keys) in
          let other : length over == length b.keys ≡ false = ground (arith, fewer) in
          inl (returned ∙ ap (λ t. some (not t)) other, v, walk)
    ]
