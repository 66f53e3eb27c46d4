-- ===== src/Repositories/Dag/Cycle/Build.antt =====
-- repositories/dag.py: what the two dicts of `_contains_cycle` hold.
use mini_ai_cloud.Prelude.{
  ℕ, ◌+◌, ◌≤◌, ◌≡◌, refl, ap, ◌∙◌, inl, inr, Bool, true, false, ◌&&◌, ◌||◌, List, [], ◌∷◌, ◌==◌,
  ==_iff, if◌then◌else◌, Bool-cases, arith,
}
use mini_ai_cloud.Prelude.Sets.{has, add_new, IsDistinct, has-add_new, add_new-IsDistinct}
use mini_ai_cloud.Repositories.Dag.Cycle.{Edge, add_edge, build}

abbrev pub has_edge : ℕ → ℕ → List Edge → Bool
has_edge u v [] = false
has_edge u v (e ∷ edges) = ((e.0 == u) && (e.1 == v)) || has_edge u v edges

-- The edges are a set.
abbrev pub AreDistinct : List Edge → Type 0
AreDistinct [] = Unit
AreDistinct (e ∷ edges) = (has_edge e.0 e.1 edges ≡ false) × AreDistinct edges

abbrev pub one_if : Bool → ℕ
one_if true = 1
one_if false = 0

-- The number of the edges to `v` whose task is not done.
abbrev pub waiting_on : List Edge → List ℕ → ℕ → ℕ
waiting_on [] done v = 0
waiting_on (e ∷ edges) done v =
    (if e.1 == v then (if has e.0 done then 0 else 1) else 0) + waiting_on edges done v

pub ==_comm : (a b : ℕ) → (a == b) ≡ (b == a)
==_comm a b = ground arith

pub graph-has_edge :
    (edges : List Edge) (u v : ℕ) → has v ((build edges).graph u) ≡ has_edge u v edges
unfolding build add_edge
graph-has_edge [] u v = refl
graph-has_edge (e ∷ edges) u v = elim (Bool-cases (u == e.0)) [
  | inl same ↦
      rw (same, ==_comm e.0 u ∙ same)
        (has-add_new v e.1 ((build edges).graph u)
          ∙ ap (λ b. e.1 == v || b) (graph-has_edge edges u v))
  | inr other ↦ rw (other, ==_comm e.0 u ∙ other) (graph-has_edge edges u v)
]

pub graph-IsDistinct : (edges : List Edge) (u : ℕ) → IsDistinct ((build edges).graph u)
unfolding build add_edge
graph-IsDistinct [] u = tt
graph-IsDistinct (e ∷ edges) u = elim (Bool-cases (u == e.0)) [
  | inl same ↦ rw same (add_new-IsDistinct e.1 ((build edges).graph u) (graph-IsDistinct edges u))
  | inr other ↦ rw other (graph-IsDistinct edges u)
]

pub keys-IsDistinct : (edges : List Edge) → IsDistinct (build edges).keys
unfolding build add_edge
keys-IsDistinct [] = tt
keys-IsDistinct (e ∷ edges) =
    add_new-IsDistinct e.1 (add_new e.0 (build edges).keys)
      (add_new-IsDistinct e.0 (build edges).keys (keys-IsDistinct edges))

pub indegree-waiting_on :
    (edges : List Edge) (v : ℕ) → (build edges).indegree v ≡ waiting_on edges [] v
unfolding build add_edge
indegree-waiting_on [] v = refl
indegree-waiting_on (e ∷ edges) v =
    ground (arith, indegree-waiting_on edges v, ==_iff v e.1, ==_iff e.1 v)

-- Both ends of an edge are keys.
pub has_edge-keys :
    (edges : List Edge) (u v : ℕ)
    → has_edge u v edges ≡ true
    → (has u (build edges).keys ≡ true) × (has v (build edges).keys ≡ true)
unfolding build add_edge
has_edge-keys [] u v h = cc
has_edge-keys (e ∷ edges) u v h =
    let ks = (build edges).keys in
    ground (
      arith,
      has-add_new u e.1 (add_new e.0 ks),
      has-add_new u e.0 ks,
      has-add_new v e.1 (add_new e.0 ks),
      has-add_new v e.0 ks,
      has_edge-keys edges u v,
    )

same_edge :
    (e : Edge) (n v : ℕ) (edges : List Edge)
    → e.0 ≡ n
    → e.1 ≡ v
    → has_edge e.0 e.1 edges ≡ false
    → has_edge n v edges ≡ false
same_edge e n v edges p q h = cc

-- Once `n` is done, each of its edges is waited on no longer.
pub waiting_on-done :
    (edges : List Edge) (done : List ℕ) (n v : ℕ)
    → AreDistinct edges
    → has n done ≡ false
    → waiting_on edges (n ∷ done) v + one_if (has_edge n v edges) ≡ waiting_on edges done v
waiting_on-done [] done n v d h = omega arith
waiting_on-done (e ∷ edges) done n v d h =
    let rest = waiting_on-done edges done n v d.1 h in
    elim (Bool-cases (e.0 == n)) [
      | inl tail ↦
          let not_done : has e.0 done ≡ false = ap (λ x. has x done) ((==_iff e.0 n).0 tail) ∙ h in
          elim (Bool-cases (e.1 == v)) [
            | inl head ↦
                let once : has_edge n v edges ≡ false =
                  same_edge e n v edges ((==_iff e.0 n).0 tail) ((==_iff e.1 v).0 head) d.0 in
                ground (arith, ==_comm n e.0)
            | inr other ↦ ground (arith, ==_comm n e.0)
          ]
      | inr other ↦ ground (arith, ==_comm n e.0)
    ]

pub waiting_on-pos :
    (edges : List Edge) (done : List ℕ) (v : ℕ)
    → 1 ≤ waiting_on edges done v
    → (u : ℕ) × (has_edge u v edges ≡ true) × (has u done ≡ false)
waiting_on-pos [] done v h = absurd (omega arith)
waiting_on-pos (e ∷ edges) done v h = elim (Bool-cases (e.1 == v)) [
  | inl head ↦ elim (Bool-cases (has e.0 done)) [
    | inl over ↦
        let (u, edge, fresh) = waiting_on-pos edges done v (ground arith) in
        (u, ground (arith, edge), fresh)
    | inr fresh ↦ (e.0, ground (arith, head, ==_comm e.0 e.0), fresh)
  ]
  | inr other ↦
      let (u, edge, fresh) = waiting_on-pos edges done v (ground arith) in
      (u, ground (arith, edge), fresh)
]

pub waiting_on-zero :
    (edges : List Edge) (done : List ℕ) (u v : ℕ)
    → has_edge u v edges ≡ true
    → waiting_on edges done v ≡ 0
    → has u done ≡ true
waiting_on-zero [] done u v h z = cc
waiting_on-zero (e ∷ edges) done u v h z = elim (Bool-cases (e.0 == u)) [
  | inl tail ↦
      let alike : has e.0 done ≡ has u done = ap (λ x. has x done) ((==_iff e.0 u).0 tail) in
      ground (arith, waiting_on-zero edges done u v)
  | inr other ↦ ground (arith, waiting_on-zero edges done u v)
]
