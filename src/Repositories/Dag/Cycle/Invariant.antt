-- ===== src/Repositories/Dag/Cycle/Invariant.antt =====
-- repositories/dag.py: the invariant of the `while` loop of `_contains_cycle`.
use mini_ai_cloud.Prelude.{
  ℕ, zero, suc, ◌+◌, ◌≡◌, refl, sym, ap, ◌∙◌, inl, inr, Bool, true, false, ◌||◌, some, List, [],
  ◌∷◌, length, keep, ◌==◌, Bool-cases, arith,
}
use mini_ai_cloud.Prelude.Sets.{
  has, IsDistinct, IsSubset, length-le_of_subset, not_same, cons_in, has-keep, keep-IsDistinct,
}
use mini_ai_cloud.Repositories.Dag.Cycle.{Edge, build, visit, drain}
use mini_ai_cloud.Repositories.Dag.Cycle.Build.{
  has_edge, AreDistinct, one_if, waiting_on, ==_comm, graph-has_edge, graph-IsDistinct,
  has_edge-keys, waiting_on-done, waiting_on-zero, indegree-waiting_on, keys-IsDistinct,
}
use mini_ai_cloud.Repositories.Dag.Cycle.Drain.{visit-indegree, visit-roots, visit-IsDistinct}

-- Each task with an edge to a node that is done was done before it.
abbrev pub IsOrdered : List Edge → List ℕ → Type 0
IsOrdered edges [] = Unit
IsOrdered edges (n ∷ done) =
    ((u : ℕ) → has_edge u n edges ≡ true → has u done ≡ true) × IsOrdered edges done

-- Where the loop is when the nodes of `done` have been popped, the latest first.
pub record IsAt (edges : List Edge) (done roots : List ℕ) (indegree : ℕ → ℕ) : Type 0 where
  pub counts : (v : ℕ) → indegree v ≡ waiting_on edges done v
  pub ready :
      (v : ℕ) → has v (build edges).keys ≡ true → (indegree v == 0) ≡ (has v done || has v roots)
  pub done_once : IsDistinct done
  pub roots_once : IsDistinct roots
  pub apart : (v : ℕ) → has v roots ≡ true → has v done ≡ false
  pub done_keys : IsSubset done (build edges).keys
  pub roots_keys : IsSubset roots (build edges).keys
  pub ordered : IsOrdered edges done

-- A neighbour of the node that is popped waits on it, so it is neither done nor a root.
neighbor_waits :
    (edges : List Edge) (done roots : List ℕ) (indegree : ℕ → ℕ) (n v : ℕ)
    → IsAt edges done (n ∷ roots) indegree
    → has v ((build edges).graph n) ≡ true
    → (indegree v == 0 ≡ false) × (has v done ≡ false) × (has v roots ≡ false) × ((n == v) ≡ false)
neighbor_waits edges done roots indegree n v at h =
    let edge : has_edge n v edges ≡ true = sym (graph-has_edge edges n v) ∙ h in
    let fresh = at.apart n (ground (arith, ==_comm n n)) in
    let key = (has_edge-keys edges n v edge).1 in
    let waits : indegree v == 0 ≡ false =
      ground (arith, at.counts v, waiting_on-zero edges done n v edge, fresh) in
    ground (arith, at.ready v key, waits)

-- One round of the loop keeps the invariant.
pub visit-IsAt :
    (edges : List Edge) (done roots : List ℕ) (indegree : ℕ → ℕ) (n : ℕ)
    → AreDistinct edges
    → IsAt edges done (n ∷ roots) indegree
    → (let after = visit ((build edges).graph n) roots indegree in
        IsAt edges (n ∷ done) after.0 after.1)
visit-IsAt edges done roots indegree n d at =
    let ns = (build edges).graph n in
    let ns_once = graph-IsDistinct edges n in
    let fresh = at.apart n (ground (arith, ==_comm n n)) in
    let root : has n (n ∷ roots) ≡ true = ground (arith, ==_comm n n) in
    let idle : waiting_on edges done n ≡ 0 =
      ground (arith, at.counts n, at.ready n (at.roots_keys n root), root) in
    let waits = λ (v : ℕ). neighbor_waits edges done roots indegree n v at in
    let fewer = λ (v : ℕ). visit-indegree ns roots indegree v ns_once in
    let more = λ (v : ℕ). visit-roots ns roots indegree v ns_once in
    let edge = λ (v : ℕ). graph-has_edge edges n v in
    let less = λ (v : ℕ). waiting_on-done edges done n v d fresh in
    record {
      counts = λ v. omega (arith, fewer v, at.counts v, ap one_if (edge v), less v);
      ready = λ v key. elim (Bool-cases (has v ns)) [
        | inl h ↦ ground (arith, fewer v, more v, waits v h)
        | inr h ↦ ground (arith, fewer v, more v, at.ready v key)
      ];
      done_once = (fresh, at.done_once);
      roots_once =
          visit-IsDistinct ns roots indegree ns_once at.roots_once.1 (λ v h. (waits v h).2);
      apart = λ v h. elim (Bool-cases (has v ns)) [
        | inl k ↦ ground (arith, waits v k)
        | inr k ↦ ground (arith, more v, at.roots_once.0, not_same n v roots, at.apart v)
      ];
      done_keys = λ v h. cons_in n v done (build edges).keys (at.roots_keys n root) at.done_keys h;
      roots_keys = λ v h. elim (Bool-cases (has v ns)) [
        | inl k ↦ (has_edge-keys edges n v (sym (edge v) ∙ k)).1
        | inr k ↦ ground (arith, more v, at.roots_keys v)
      ];
      ordered = (λ u h. waiting_on-zero edges done u n h idle, at.ordered);
    }

-- The loop starts with the nodes that no edge comes to.
pub build-IsAt :
    (edges : List Edge)
    → (let b = build edges in IsAt edges [] (keep (λ n. b.indegree n == 0) b.keys) b.indegree)
build-IsAt edges =
    let b = build edges in
    let starts : ℕ → Bool = λ n. b.indegree n == 0 in
    record {
      counts = indegree-waiting_on edges;
      ready = λ v key. ground (arith, has-keep starts v b.keys);
      done_once = tt;
      roots_once = keep-IsDistinct starts b.keys (keys-IsDistinct edges);
      apart = λ v h. refl;
      done_keys = λ v h. cc;
      roots_keys = λ v h. ground (arith, has-keep starts v b.keys);
      ordered = tt;
    }

-- The loop ends, and has counted the nodes that are done.
pub drain-IsAt :
    (edges : List Edge) (fuel : ℕ) (done roots : List ℕ) (indegree : ℕ → ℕ)
    → AreDistinct edges
    → IsAt edges done roots indegree
    → length done + fuel ≡ length (build edges).keys
    → (over : List ℕ) × (left : ℕ → ℕ) × (drain fuel
          (build edges).graph
          roots
          indegree
          (length done)
        ≡ some (length over))
      × IsAt edges over [] left
unfolding drain
drain-IsAt edges fuel done [] indegree d at enough = (done, indegree, refl, at)
drain-IsAt edges zero done (n ∷ roots) indegree d at enough =
    let fresh = at.apart n (ground (arith, ==_comm n n)) in
    absurd (
      omega (
        arith,
        length-le_of_subset (n ∷ done) (build edges).keys (fresh, at.done_once)
            (λ v h.
              cons_in n v done (build edges).keys (at.roots_keys n (ground (arith, ==_comm n n)))
                at.done_keys h),
      ))
drain-IsAt edges (suc fuel) done (n ∷ roots) indegree d at enough =
    let after = visit ((build edges).graph n) roots indegree in
    let rest =
      drain-IsAt edges fuel (n ∷ done) after.0 after.1 d
        (visit-IsAt edges done roots indegree n d at) (omega (arith, enough)) in
    (
      rest.0,
      rest.1,
      ap (drain fuel (build edges).graph after.0 after.1) (omega arith) ∙ rest.2,
      rest.3,
    )
