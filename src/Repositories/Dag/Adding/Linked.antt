-- ===== src/Repositories/Dag/Adding/Linked.antt =====
-- repositories/dag.py: how the rows of a job group hang together, and where a walk along rows can go.
use mini_ai_cloud.Prelude.{
  ℕ, ◌≡◌, refl, sym, ap, ◌∙◌, ◌⊎◌, inl, inr, Bool, true, ◌&&◌, ◌||◌, List, [], ◌∷◌, Any, keep, map,
  ◌==◌, ==_iff, Bool-cases, arith,
}
use mini_ai_cloud.Repositories.Dag.Resolution.{TaskDependency}
use mini_ai_cloud.Repositories.Dag.Cycle.{Edge}
use mini_ai_cloud.Repositories.Dag.Cycle.Build.{has_edge}
use mini_ai_cloud.Repositories.Dag.Cycle.Walks.{Walk, last, next}
use mini_ai_cloud.Repositories.Dag.Adding.{key_of, in_group}

abbrev pub IsRow : TaskDependency → List TaskDependency → Type 0
IsRow r rows = Any (λ x. x ≡ r) rows

abbrev pub is_end : ℕ → TaskDependency → Bool
is_end v r = r.task_id == v || r.depends_on_task_id == v

abbrev pub keys : List TaskDependency → List Edge
keys rows = map key_of rows

-- The edge that leaves a task is in each job group that an edge of the task is in.
abbrev pub AreLinked : List TaskDependency → Type 0
AreLinked rows =
    (r s : TaskDependency)
    → IsRow r rows
    → IsRow s rows
    → is_end r.task_id s ≡ true
    → (group_id : ℕ) → in_group group_id s ≡ true
    → in_group group_id r ≡ true

pub edge-IsRow :
    (rows : List TaskDependency) (u v : ℕ)
    → has_edge u v (keys rows) ≡ true
    → (r : TaskDependency) × IsRow r rows × (r.task_id ≡ u) × (r.depends_on_task_id ≡ v)
edge-IsRow [] u v h = cc
edge-IsRow (r ∷ rows) u v h = elim (Bool-cases ((r.task_id == u) && (r.depends_on_task_id == v))) [
  | inl here ↦ (
    r,
    inl refl,
    (==_iff r.task_id u).0 (ground (arith, here)),
    (==_iff r.depends_on_task_id v).0 (ground (arith, here)),
  )
  | inr other ↦
      let (s, at, tail, head) = edge-IsRow rows u v (ground (arith, h, other)) in
      (s, inr at, tail, head)
]

pub row-edge :
    (rows : List TaskDependency) (test : TaskDependency → Bool) (r : TaskDependency)
    → IsRow r rows
    → test r ≡ true
    → has_edge r.task_id r.depends_on_task_id (keys (keep test rows)) ≡ true
row-edge [] test r at t = absurd at
row-edge (x ∷ rows) test r (inl same) t = ground (
  arith,
  ap test same ∙ t,
  ap (λ (e : TaskDependency). e.task_id) same,
  ap (λ (e : TaskDependency). e.depends_on_task_id) same,
)
row-edge (x ∷ rows) test r (inr at) t = ground (arith, row-edge rows test r at t)

pub row-has_edge :
    (rows : List TaskDependency) (r : TaskDependency)
    → IsRow r rows
    → has_edge r.task_id r.depends_on_task_id (keys rows) ≡ true
row-has_edge [] r at = absurd at
row-has_edge (x ∷ rows) r (inl same) = ground (
  arith,
  ap (λ (e : TaskDependency). e.task_id) same,
  ap (λ (e : TaskDependency). e.depends_on_task_id) same,
)
row-has_edge (x ∷ rows) r (inr at) = ground (arith, row-has_edge rows r at)

-- A task that an edge of the group begins or ends at.
abbrev pub IsMember : ℕ → ℕ → List TaskDependency → Type 0
IsMember group_id v rows =
    (s : TaskDependency) × IsRow s rows × (in_group group_id s ≡ true) × (is_end v s ≡ true)

leaves :
    (rows : List TaskDependency) (group_id u v : ℕ)
    → AreLinked rows
    → has_edge u v (keys rows) ≡ true
    → IsMember group_id u rows
    → (has_edge u v (keys (keep (in_group group_id) rows)) ≡ true) × IsMember group_id v rows
leaves rows group_id u v linked e (s, at, group, end) =
    let (r, row, tail, head) = edge-IsRow rows u v e in
    let same = linked r s row at (ap (λ x. is_end x s) tail ∙ end) group_id group in
    (
      ap (λ x. has_edge x v (keys (keep (in_group group_id) rows))) (sym tail)
          ∙ ap (λ x. has_edge r.task_id x (keys (keep (in_group group_id) rows))) (sym head)
          ∙ row-edge rows (in_group group_id) r row same,
      (r, row, same, ground (arith, head)),
    )

-- From a member of a group, a walk stays in the group.
pub stays :
    (rows : List TaskDependency) (group_id : ℕ)
    → AreLinked rows
    → (u w : ℕ) → Walk (keys rows) u w
    → IsMember group_id u rows
    → Walk (keys (keep (in_group group_id) rows)) u w × IsMember group_id w rows
stays rows group_id linked u w (last e) m =
    let (edge, member) = leaves rows group_id u w linked e m in (last edge, member)
stays rows group_id linked u w (next {v = v} e walk) m =
    let (edge, member) = leaves rows group_id u v linked e m in
    let (rest, ends) = stays rows group_id linked v w walk member in (next edge rest, ends)

old_or_new :
    (rows : List TaskDependency) (group_id : ℕ) (row : TaskDependency) (u v : ℕ)
    → in_group group_id row ≡ true
    → has_edge u v (keys (row ∷ rows)) ≡ true
    → (has_edge u v (keys rows) ≡ true) ⊎ IsMember group_id v (row ∷ rows)
old_or_new rows group_id row u v new e = elim (Bool-cases (has_edge u v (keys rows))) [
  | inl old ↦ inl old
  | inr other ↦ inr (row, inl refl, new, ground (arith, e, other))
]

-- A walk keeps off a row that is new to the group, or it ends in the group.
pub keeps_off :
    (rows : List TaskDependency) (group_id : ℕ) (row : TaskDependency)
    → AreLinked (row ∷ rows)
    → in_group group_id row ≡ true
    → (u w : ℕ) → Walk (keys (row ∷ rows)) u w
    → Walk (keys rows) u w ⊎ IsMember group_id w (row ∷ rows)
keeps_off rows group_id row linked new u w (last e) =
    elim (old_or_new rows group_id row u w new e) [
      | inl old ↦ inl (last old)
      | inr member ↦ inr member
    ]
keeps_off rows group_id row linked new u w (next {v = v} e walk) =
    elim (old_or_new rows group_id row u v new e) [
      | inr member ↦ inr (stays (row ∷ rows) group_id linked v w walk member).1
      | inl old ↦ elim (keeps_off rows group_id row linked new v w walk) [
        | inl rest ↦ inl (next old rest)
        | inr member ↦ inr member
      ]
    ]

-- A row that closes no walk of its group closes none at all.
pub new_row-acyclic :
    (rows : List TaskDependency) (group_id : ℕ) (row : TaskDependency)
    → AreLinked (row ∷ rows)
    → in_group group_id row ≡ true
    → ((v : ℕ) → ¬ Walk (keys rows) v v)
    → ((v : ℕ) → ¬ Walk (keys (keep (in_group group_id) (row ∷ rows))) v v)
    → (v : ℕ) → ¬ Walk (keys (row ∷ rows)) v v
new_row-acyclic rows group_id row linked new old group v walk =
    elim (keeps_off rows group_id row linked new v v walk) [
      | inl before ↦ old v before
      | inr member ↦ group v (stays (row ∷ rows) group_id linked v v walk member).0
    ]
