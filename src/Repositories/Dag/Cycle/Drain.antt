-- ===== src/Repositories/Dag/Cycle/Drain.antt =====
-- repositories/dag.py: the loops of `_contains_cycle`.
use mini_ai_cloud.Prelude.{
  ℕ, ◌-◌, ◌≡◌, ap, ◌∙◌, inl, inr, Bool, true, false, ◌&&◌, ◌||◌, List, [], ◌∷◌, ◌==◌, ==_iff,
  if◌then◌else◌, Bool-cases, arith,
}
use mini_ai_cloud.Prelude.Sets.{has, IsDistinct, not_same}
use mini_ai_cloud.Repositories.Dag.Cycle.{decrement, visit}
use mini_ai_cloud.Repositories.Dag.Cycle.Build.{one_if, ==_comm}

-- A visit takes one from each neighbour, and those that come to 0 are roots then.
pub visit-indegree :
    (ns roots : List ℕ) (indegree : ℕ → ℕ) (v : ℕ)
    → IsDistinct ns
    → (visit ns roots indegree).1 v ≡ indegree v - one_if (has v ns)
unfolding visit
visit-indegree [] roots indegree v d = omega arith
visit-indegree (n ∷ ns) roots indegree v d =
    let less = decrement n indegree in
    let rest = visit-indegree ns (if less n == 0 then n ∷ roots else roots) less v d.1 in
    elim (Bool-cases (v == n)) [
      | inl same ↦
          let once : has v ns ≡ false = ap (λ x. has x ns) ((==_iff v n).0 same) ∙ d.0 in
          ground (arith, ==_comm n v)
      | inr other ↦ ground (arith, ==_comm n v)
    ]

pub visit-roots :
    (ns roots : List ℕ) (indegree : ℕ → ℕ) (v : ℕ)
    → IsDistinct ns
    → has v (visit ns roots indegree).0 ≡ (has v roots || (has v ns && (indegree v - 1 == 0)))
unfolding visit
visit-roots [] roots indegree v d = ground arith
visit-roots (n ∷ ns) roots indegree v d =
    let less = decrement n indegree in
    let rest = visit-roots ns (if less n == 0 then n ∷ roots else roots) less v d.1 in
    elim (Bool-cases (v == n)) [
      | inl same ↦
          let once : has v ns ≡ false = ap (λ x. has x ns) ((==_iff v n).0 same) ∙ d.0 in
          let alike : less v ≡ less n = ap less ((==_iff v n).0 same) in
          elim (Bool-cases (less n == 0)) [
            | inl last ↦ ground (arith, ==_comm n v)
            | inr more ↦ ground (arith, ==_comm n v)
          ]
      | inr other ↦ elim (Bool-cases (less n == 0)) [
        | inl last ↦ ground (arith, ==_comm n v)
        | inr more ↦ ground (arith, ==_comm n v)
      ]
    ]

push-IsDistinct :
    (last : Bool) (n : ℕ) (roots : List ℕ)
    → has n roots ≡ false
    → IsDistinct roots
    → IsDistinct (if last then n ∷ roots else roots)
push-IsDistinct true n roots new r = (new, r)
push-IsDistinct false n roots new r = r

push-apart :
    (last : Bool) (n : ℕ) (roots ns : List ℕ)
    → has n ns ≡ false
    → ((v : ℕ) → has v (n ∷ ns) ≡ true → has v roots ≡ false)
    → (v : ℕ) → has v ns ≡ true
    → has v (if last then n ∷ roots else roots) ≡ false
push-apart true n roots ns new h v k =
    ground (arith, not_same n v ns new k, h v (ground (arith, k)))
push-apart false n roots ns new h v k = h v (ground (arith, k))

pub visit-IsDistinct :
    (ns roots : List ℕ) (indegree : ℕ → ℕ)
    → IsDistinct ns
    → IsDistinct roots
    → ((v : ℕ) → has v ns ≡ true → has v roots ≡ false)
    → IsDistinct (visit ns roots indegree).0
unfolding visit
visit-IsDistinct [] roots indegree d r h = r
visit-IsDistinct (n ∷ ns) roots indegree d r h =
    let last = decrement n indegree n == 0 in
    visit-IsDistinct ns (if last then n ∷ roots else roots) (decrement n indegree) d.1
      (push-IsDistinct last n roots (h n (ground (arith, ==_comm n n))) r)
      (λ v k. push-apart last n roots ns d.0 h v k)
