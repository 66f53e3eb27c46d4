-- ===== src/Repositories/Dag/Adding/Created.antt =====
-- repositories/tasks.py: the dependencies of a task that is created keep the tables sound.
use mini_ai_cloud.Prelude.{
  ℕ, ◌≡◌, refl, sym, ap, ◌∙◌, ◌⊎◌, inl, inr, true, false, ◌&&◌, ◌||◌, List, ◌∷◌, ◌++◌, length, none,
  ◌==◌, ==_iff, Bool-cases, arith, Result, ok, err,
}
use mini_ai_cloud.Prelude.Sets.{has, IsDistinct, IsSubset}
use mini_ai_cloud.Prelude.Text.{String, ◌===◌}
use mini_ai_cloud.Repositories.Dag.Resolution.{TaskDependency}
use mini_ai_cloud.Repositories.Dag.Cycle.Build.{has_edge}
use mini_ai_cloud.Repositories.Dag.Cycle.Walks.{Walk, last, next}
use mini_ai_cloud.Repositories.Dag.Adding.{
  Task, Tables, DagError, in_group, found_tasks, new_rows, distinct_of, create_queued,
}
use mini_ai_cloud.Repositories.Dag.Adding.Linked.{
  keys, IsRow, is_end, AreLinked, edge-IsRow, row-has_edge,
}
use mini_ai_cloud.Repositories.Dag.Adding.Attached.{IsSound, at_end}
use mini_ai_cloud.Repositories.Dag.Adding.Asked.{ids_of, AreSound, all_found, has-keep_tasks}
use mini_ai_cloud.Repositories.Dag.Adding.NewRows.{
  distinct_of-IsDistinct, IsRow-either, new_row-parts, new_rows-AreDistinct,
}

module _ (task_id : ℕ) (policy : String) (ids : List ℕ) (task_ids : List ℕ)
    (rows : List TaskDependency) (sound : IsSound task_ids rows)
    (fresh : has task_id task_ids ≡ false) (there : IsSubset ids task_ids) where
  grown : List TaskDependency
  grown = new_rows task_id policy ids ++ rows

  -- No row that was there is of the new task.
  old-apart : (r : TaskDependency) (v : ℕ) → IsRow r rows → is_end v r ≡ true → v ≡ task_id → ⊥
  old-apart r v at end same = cc (sound.known r v at end, ap (λ x. has x task_ids) same, fresh)

  -- An edge is one that was there, or it leaves the new task; and none comes to the new task.
  grown-edge :
      (u v : ℕ)
      → has_edge u v (keys grown) ≡ true
      → ((u ≡ task_id) ⊎ (has_edge u v (keys rows) ≡ true)) × (v ≡ task_id → ⊥)
  unfolding grown
  grown-edge u v e =
      let (r, at, tail, head) = edge-IsRow grown u v e in
      elim (IsRow-either (new_rows task_id policy ids) rows r at) [
        | inl new ↦
            let (left, needed, alone) = new_row-parts task_id policy ids r new in
            (
              inl (sym tail ∙ left),
              λ same. cc (
                there r.depends_on_task_id needed,
                ap (λ x. has x task_ids) (head ∙ same),
                fresh,
              ),
            )
        | inr old ↦ (inr (old_edge r old tail head), old-apart r v old (ground (arith, head)))
      ]
    where
      old_edge :
          (r : TaskDependency)
          → IsRow r rows
          → r.task_id ≡ u
          → r.depends_on_task_id ≡ v
          → has_edge u v (keys rows) ≡ true
      old_edge r old tail head = cc (row-has_edge rows r old, tail, head)

  grown-Walk :
      (u w : ℕ)
      → Walk (keys grown) u w
      → (w ≡ task_id → ⊥) × ((u ≡ task_id → ⊥) → Walk (keys rows) u w)
  grown-Walk u w (last e) =
      let (where_from, apart) = grown-edge u w e in
      (apart, λ other. elim where_from [ inl same ↦ absurd (other same) | inr old ↦ last old ])
  grown-Walk u w (next {v = v} e walk) =
      let (where_from, apart) = grown-edge u v e in
      let (ends, rest) = grown-Walk v w walk in
      (
        ends,
        λ other. elim where_from [
          | inl same ↦ absurd (other same)
          | inr old ↦ next old (rest apart)
        ],
      )

  grown-AreLinked : AreLinked grown
  unfolding grown
  grown-AreLinked r s a b end g h = elim (IsRow-either (new_rows task_id policy ids) rows s b) [
    | inl new ↦ cc (ap_group s (new_row-parts task_id policy ids s new).2 g, h)
    | inr old ↦ elim (IsRow-either (new_rows task_id policy ids) rows r a) [
      | inl new ↦ absurd (old-apart s r.task_id old end (new_row-parts task_id policy ids r new).0)
      | inr older ↦ sound.linked r s older old end g h
    ]
  ]
    where
      ap_group : (s : TaskDependency) → s.job_group_id ≡ none → (g : ℕ) → in_group g s ≡ false
      ap_group s alone g = rw alone refl

  grown-known :
      (r : TaskDependency) (v : ℕ)
      → IsRow r grown
      → is_end v r ≡ true
      → has v (task_id ∷ task_ids) ≡ true
  unfolding grown
  grown-known r v a end = elim (IsRow-either (new_rows task_id policy ids) rows r a) [
    | inr old ↦ ground (arith, sound.known r v old end)
    | inl new ↦
        let (left, needed, alone) = new_row-parts task_id policy ids r new in
        elim (at_end r v end) [
          | inl tail ↦ ground (arith, left, tail)
          | inr head ↦
              ground
                (arith, ap (λ x. has x task_ids) (sym head) ∙ there r.depends_on_task_id needed)
        ]
  ]

  pub grown-IsSound :
      IsDistinct ids → IsSound (task_id ∷ task_ids) (new_rows task_id policy ids ++ rows)
  unfolding grown
  grown-IsSound once = record {
    once = new_rows-AreDistinct task_id policy ids rows once unmet sound.once;
    linked = grown-AreLinked;
    known = grown-known;
    acyclic = λ v walk. let (ends, old) = grown-Walk v v walk in sound.acyclic v (old ends);
  }
    where
      unmet : (v : ℕ) → has_edge task_id v (keys rows) ≡ false
      unmet v = elim (Bool-cases (has_edge task_id v (keys rows))) [
        | inr other ↦ other
        | inl met ↦
            let (r, at, tail, head) = edge-IsRow rows task_id v met in
            absurd (old-apart r r.task_id at (ground arith) tail)
      ]

abbrev pub Keeps : Result DagError Tables → Type 0
Keeps (ok after) = AreSound after
Keeps (err e) = Unit

-- A task that is created under an ID of its own leaves sound tables.
pub create_queued-Keeps :
    (project_id task_id : ℕ) (ids : List ℕ) (policy : String) (db : Tables)
    → AreSound db
    → has task_id (ids_of db.tasks) ≡ false
    → Keeps (create_queued project_id task_id ids policy db)
unfolding create_queued
create_queued-Keeps project_id task_id ids policy db sound fresh =
    let found = found_tasks project_id ids db.tasks in
    elim (Bool-cases (length ids == length (distinct_of ids))) [
      | inr twice ↦ rw twice tt
      | inl once ↦ elim (Bool-cases (policy === "block" || policy === "cancel")) [
        | inr unknown ↦ rw (once, unknown) tt
        | inl policy_known ↦ elim (Bool-cases (length found == length ids)) [
          | inr missing ↦ rw (once, policy_known, missing) tt
          | inl many ↦
              let all =
                all_found project_id ids db.tasks sound.ids_once
                  ((==_iff (length found) (length ids)).0 many) in
              let there : IsSubset ids (ids_of db.tasks) = λ v h.
                has-keep_tasks (λ (t : Task). t.project_id == project_id && has t.id ids) v db.tasks
                  (all v h) in
              let distinct =
                distinct_of-IsDistinct ids
                  ((==_iff (length ids) (length (distinct_of ids))).0 once) in
              rw (once, policy_known, many)
                (record {
                  ids_once = (fresh, sound.ids_once);
                  rows =
                      grown-IsSound task_id policy ids (ids_of db.tasks) db.dependencies sound.rows
                        fresh there distinct;
                })
        ]
      ]
    ]
