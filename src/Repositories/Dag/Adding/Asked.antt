-- ===== src/Repositories/Dag/Adding/Asked.antt =====
-- repositories/dag.py: the tasks that are asked for, and the rows that touch them.
use mini_ai_cloud.Prelude.{
  suc, ℕ, ◌≡◌, refl, sym, ap, ◌∙◌, inl, inr, Bool, true, false, not, ◌&&◌, ◌||◌, List, [], ◌∷◌,
  ◌++◌, All, any, keep, length, map, ◌==◌, ==_iff, Bool-cases, arith,
}
use mini_ai_cloud.Prelude.Sets.{
  has, IsDistinct, IsSubset, length-le_of_subset, subset_or, cons_in, add_new, has-add_new,
}
use mini_ai_cloud.Repositories.Dag.Resolution.{TaskDependency}
use mini_ai_cloud.Repositories.Dag.Cycle.{Edge}
use mini_ai_cloud.Repositories.Dag.Cycle.Build.{has_edge}
use mini_ai_cloud.Repositories.Dag.Adding.{
  Task, DependencySpec, Tables, in_group, touches, requested_task_ids, found_tasks,
}
use mini_ai_cloud.Repositories.Dag.Adding.Linked.{IsRow}
use mini_ai_cloud.Repositories.Dag.Adding.Attached.{IsSound}
use mini_ai_cloud.Repositories.Dag.Adding.Added.{spec_key, IsWithin, IsAsked}

abbrev pub ids_of : List Task → List ℕ
ids_of tasks = map (λ (t : Task). t.id) tasks

-- The tables hold each task once, and their rows are sound.
pub record AreSound (db : Tables) : Type 0 where
  pub ids_once : IsDistinct (ids_of db.tasks)
  pub rows : IsSound (ids_of db.tasks) db.dependencies

pub has-keep_tasks :
    (test : Task → Bool) (v : ℕ) (tasks : List Task)
    → has v (ids_of (keep test tasks)) ≡ true
    → has v (ids_of tasks) ≡ true
has-keep_tasks test v [] h = h
has-keep_tasks test v (t ∷ tasks) h = ground (arith, has-keep_tasks test v tasks)

keep_tasks-IsDistinct :
    (test : Task → Bool) (tasks : List Task)
    → IsDistinct (ids_of tasks)
    → IsDistinct (ids_of (keep test tasks))
keep_tasks-IsDistinct test [] d = tt
keep_tasks-IsDistinct test (t ∷ tasks) d = elim (Bool-cases (test t)) [
  | inl kept ↦ rw kept (
    elim (Bool-cases (has t.id (ids_of (keep test tasks)))) [
      | inl old ↦ cc (has-keep_tasks test t.id tasks old, d.0)
      | inr new ↦ new
    ],
    keep_tasks-IsDistinct test tasks d.1,
  )
  | inr dropped ↦ rw dropped (keep_tasks-IsDistinct test tasks d.1)
]

found-asked :
    (project_id : ℕ) (ids : List ℕ) (tasks : List Task)
    → IsSubset (ids_of (found_tasks project_id ids tasks)) ids
found-asked project_id ids [] v h = cc
found-asked project_id ids (t ∷ tasks) v h = elim (Bool-cases (t.id == v)) [
  | inl same ↦
      let alike = ap (λ x. has x ids) ((==_iff t.id v).0 same) in
      ground (arith, alike, found-asked project_id ids tasks v)
  | inr other ↦ ground (arith, found-asked project_id ids tasks v)
]

length-ids_of : (tasks : List Task) → length (ids_of tasks) ≡ length tasks
length-ids_of [] = refl
length-ids_of (t ∷ tasks) = ap suc (length-ids_of tasks)

-- As many tasks were found as were asked for, so that each of them was.
pub all_found :
    (project_id : ℕ) (ids : List ℕ) (tasks : List Task)
    → IsDistinct (ids_of tasks)
    → length (found_tasks project_id ids tasks) ≡ length ids
    → IsSubset ids (ids_of (found_tasks project_id ids tasks))
all_found project_id ids tasks d h =
    let found = ids_of (found_tasks project_id ids tasks) in
    elim (subset_or ids found) [
      | inl all ↦ all
      | inr (x, there, missing) ↦
          let once =
            keep_tasks-IsDistinct (λ (t : Task). t.project_id == project_id && has t.id ids) tasks
              d in
          absurd (
            omega (
              arith,
              length-le_of_subset (x ∷ found) ids (missing, once)
                  (λ v. cons_in x v found ids there (found-asked project_id ids tasks)),
              length-ids_of (found_tasks project_id ids tasks),
              h,
            ))
    ]

pub joined_rows :
    (rows : List TaskDependency) (group_id : ℕ) (ids : List ℕ)
    → any (λ e. touches ids e && not (in_group group_id e)) rows ≡ false
    → (r : TaskDependency) → IsRow r rows
    → touches ids r ≡ true
    → in_group group_id r ≡ true
joined_rows [] group_id ids h r at t = absurd at
joined_rows (x ∷ rows) group_id ids h r (inr at) t =
    joined_rows rows group_id ids (ground (arith, h)) r at t
joined_rows (x ∷ rows) group_id ids h r (inl at) t =
    ap (in_group group_id) (sym at) ∙ ground (arith, h, ap (touches ids) at ∙ t)

has_edge-append :
    (xs ys : List Edge) (u v : ℕ) → has_edge u v (xs ++ ys) ≡ (has_edge u v xs || has_edge u v ys)
has_edge-append [] ys u v = refl
has_edge-append (x ∷ xs) ys u v = ground (arith, has_edge-append xs ys u v)

pub has_edge-right : (xs ys : List Edge) → IsWithin ys (xs ++ ys)
has_edge-right xs ys u v h = ground (arith, has_edge-append xs ys u v, h)

pub has_edge-left : (xs ys : List Edge) → IsWithin xs (xs ++ ys)
has_edge-left xs ys u v h = ground (arith, has_edge-append xs ys u v, h)

pub IsAsked-All :
    (group_id : ℕ) (tasks : List Task) (ids task_ids : List ℕ) (edges : List Edge)
    (known : (v : ℕ) → has v ids ≡ true → has v task_ids ≡ true)
    (found : (v : ℕ) → has v ids ≡ true → has v (ids_of tasks) ≡ true) (ds : List DependencySpec)
    → IsSubset (requested_task_ids ds) ids
    → IsWithin (map spec_key ds) edges
    → All (IsAsked tasks group_id ids task_ids edges known found) ds
IsAsked-All group_id tasks ids task_ids edges known found [] h k = tt
IsAsked-All group_id tasks ids task_ids edges known found (d ∷ ds) h k =
    let inner = add_new d.depends_on_task_id (requested_task_ids ds) in
    let asked = λ (v : ℕ). has-add_new v d.task_id inner in
    let depended = λ (v : ℕ). has-add_new v d.depends_on_task_id (requested_task_ids ds) in
    (
      (
        (
          h d.task_id (asked d.task_id ∙ ground arith),
          h d.depends_on_task_id
              (asked d.depends_on_task_id ∙ ground (arith, depended d.depends_on_task_id)),
        ),
        k d.task_id d.depends_on_task_id (ground arith),
      ),
      IsAsked-All group_id tasks ids task_ids edges known found ds
          (λ v there. h v (asked v ∙ ground (arith, depended v, there)))
          (λ u v there. k u v (ground (arith, there))),
    )
