-- ===== src/Repositories/Dag/Adding/Sound.antt =====
-- repositories/dag.py: what `_add_dependencies_locked` returns, and the tables that it leaves.
use mini_ai_cloud.Prelude.{
  ℕ, ◌≡◌, refl, inl, inr, true, false, not, ◌&&◌, List, [], ◌++◌, any, keep, length, map, ◌==◌,
  ==_iff, ltb, Bool-cases, Result, ok, err, ◌>>=◌,
}
use mini_ai_cloud.Prelude.Sets.{has}
use mini_ai_cloud.Repositories.Dag.Resolution.{TaskDependency}
use mini_ai_cloud.Repositories.Dag.Cycle.{Edge}
use mini_ai_cloud.Repositories.Dag.Adding.{
  Task, JobGroup, DependencySpec, Tables, Draft, DagError, in_group, touches, requested_task_ids,
  found_tasks, add_dependencies_locked, attach_all,
}
use mini_ai_cloud.Repositories.Dag.Adding.Linked.{keys}
use mini_ai_cloud.Repositories.Dag.Adding.Added.{spec_key, Fails, Goes, attach_all-Goes}
use mini_ai_cloud.Repositories.Dag.Adding.Asked.{
  ids_of, AreSound, has-keep_tasks, all_found, joined_rows, has_edge-right, has_edge-left,
  IsAsked-All,
}

-- Where it returns, the tables are sound, nothing else of them has changed, and each dependency has
-- its row; where it refuses a cycle, the dependencies would make one with the rows of the group.
abbrev pub Outcome :
    JobGroup
    → List DependencySpec
    → Tables
    → Result DagError (List TaskDependency × Tables)
    → Type 0
Outcome group ds db (ok (created, after)) =
    AreSound after
    × (after ≡ record db { dependencies = after.dependencies })
    × (keys created ≡ map spec_key ds)
Outcome group ds db (err e) =
    Fails (map spec_key ds ++ keys (keep (in_group group.id) db.dependencies)) e

group_edges : JobGroup → List DependencySpec → Tables → List Edge
group_edges group ds db = map spec_key ds ++ keys (keep (in_group group.id) db.dependencies)

abbrev start : JobGroup → Tables → Draft
start group db = record {
  edge_map = keep (in_group group.id) db.dependencies;
  created = [];
  rows = db.dependencies;
}

saved :
    (group : JobGroup) (ds : List DependencySpec) (db : Tables) (tasks : List Task)
    (known : (v : ℕ) → has v (requested_task_ids ds) ≡ true → has v (ids_of db.tasks) ≡ true)
    (found : (v : ℕ) → has v (requested_task_ids ds) ≡ true → has v (ids_of tasks) ≡ true)
    (m : Result DagError Draft)
    → AreSound db
    → Goes tasks group.id
        (requested_task_ids ds)
        (ids_of db.tasks)
        (group_edges group ds db)
        known
        found
        ds
        (start group db)
        m
    → Outcome group ds db
        (m >>= λ draft. ok (draft.created, record db { dependencies = draft.rows }))
unfolding group_edges
saved group ds db tasks known found (err e) sound h = h
saved group ds db tasks known found (ok draft) sound (loops, created) =
    (record { ids_once = sound.ids_once; rows = loops.0.sound }, refl, created)

loop-Outcome :
    (group : JobGroup) (ds : List DependencySpec) (db : Tables)
    → AreSound db
    → (let ids = requested_task_ids ds in
        let tasks = found_tasks group.project_id ids db.tasks in
        length tasks ≡ length ids
        → any (λ e. touches ids e && not (in_group group.id e)) db.dependencies ≡ false
        → Outcome group ds db (
            attach_all tasks group.id ds (start group db) >>= λ draft.
            ok (draft.created, record db { dependencies = draft.rows })))
unfolding group_edges
loop-Outcome group ds db sound many same =
    let ids = requested_task_ids ds in
    let tasks = found_tasks group.project_id ids db.tasks in
    let edges = group_edges group ds db in
    let found : (v : ℕ) → has v ids ≡ true → has v (ids_of tasks) ≡ true =
      all_found group.project_id ids db.tasks sound.ids_once many in
    let known : (v : ℕ) → has v ids ≡ true → has v (ids_of db.tasks) ≡ true = λ v h.
      has-keep_tasks (λ (t : Task). t.project_id == group.project_id && has t.id ids) v db.tasks
        (found v h) in
    saved group ds db tasks known found (attach_all tasks group.id ds (start group db)) sound (
      attach_all-Goes tasks group.id ids (ids_of db.tasks) edges known found ds (start group db)
        (
          record {
            sound = sound.rows;
            mapped = refl;
            joined = joined_rows db.dependencies group.id ids same;
          },
          has_edge-right (map spec_key ds) (keys (keep (in_group group.id) db.dependencies)),
        )
        (IsAsked-All group.id tasks ids (ids_of db.tasks) edges known found ds (λ v h. h)
          (has_edge-left (map spec_key ds) (keys (keep (in_group group.id) db.dependencies)))))

-- From sound tables, the addition of dependencies leaves sound ones, in which no task needs itself,
-- changes nothing but their rows, and returns a row for each dependency; it refuses a cycle only where
-- the dependencies and the rows of the group make one; and it looks up no task in vain.
pub add_dependencies_locked-Outcome :
    (group : JobGroup) (ds : List DependencySpec) (db : Tables)
    → AreSound db
    → Outcome group ds db (add_dependencies_locked group ds db)
unfolding add_dependencies_locked
add_dependencies_locked-Outcome group ds db sound =
    let ids = requested_task_ids ds in
    let tasks = found_tasks group.project_id ids db.tasks in
    elim (Bool-cases (ltb 1000 (length ds))) [
      | inl many ↦ rw many tt
      | inr few ↦
          elim (Bool-cases (any (λ (d : DependencySpec). d.task_id == d.depends_on_task_id) ds)) [
            | inl itself ↦ rw (few, itself) tt
            | inr apart ↦ elim (Bool-cases (length tasks == length ids)) [
              | inr missing ↦ rw (few, apart, missing) tt
              | inl there ↦
                  elim (Bool-cases
                    (any (λ e. touches ids e && not (in_group group.id e)) db.dependencies)) [
                      | inl other ↦ rw (few, apart, there, other) tt
                      | inr same ↦
                          rw (few, apart, there, same)
                            (loop-Outcome group ds db sound
                              ((==_iff (length tasks) (length ids)).0 there) same)
                    ]
            ]
          ]
    ]
