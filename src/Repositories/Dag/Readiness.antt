-- ===== src/Repositories/Dag/Readiness.antt =====
-- repositories/tasks.py: the decision that `TaskRepository.resolve_dependency_readiness` makes for one
-- task, and that it agrees with repositories/dag.py.
use mini_ai_cloud.Prelude.{
  ℕ, ◌≡◌, refl, sym, ap, ◌∙◌, subst, ◌↔◌, ◌⊎◌, inl, inr, Bool, true, false, not, ◌&&◌, ◌||◌, none,
  some, List, [], ◌∷◌, any, all, keep, if◌then◌else◌, ok, arith, ok_parts, ok_injective,
  Option-cases,
}
use mini_ai_cloud.Prelude.Text.{String, ◌===◌}
use mini_ai_cloud.Core.Enums.{TaskStatus, pending, queued, succeeded, is_in, is_final, same_status}
use mini_ai_cloud.Repositories.Dag.Resolution.{
  ready, cancelled, TaskDependency, DependencyResolution, Statuses, status_of, incoming, Verdict,
  parse_policy, judge_status, judge, Judged, judge_all, is_unfinished, is_failing, is_cancelling,
  state_of, resolve_task,
}

-- A row of the query: the policy of an edge and the status of the task that it depends on.
abbrev pub Row : Type 0
Row = String × TaskStatus

pub data Action : Type 0 where
  leave promote end : Action

abbrev pub has_succeeded : Row → Bool
has_succeeded row = same_status row.1 succeeded

abbrev pub has_failed : Row → Bool
has_failed row = is_final row.1 && not (same_status row.1 succeeded)

abbrev pub cancels : Row → Bool
cancels row = row.0 === "cancel"

abbrev pub is_empty {ℓ} : {A : Type ℓ} → List A → Bool
is_empty [] = true
is_empty (x ∷ xs) = false

-- The statuses that the query selects.
unfoldable pub is_selected : TaskStatus → Bool
is_selected status = is_in status (pending ∷ queued ∷ [])

-- A task is left as it is, moved from PENDING to QUEUED, or cancelled.
unfoldable pub readiness_action : TaskStatus → List Row → Action
unfolding is_selected
readiness_action status rows =
    if not (is_selected status)
    then leave
    else if is_empty rows
    then leave
    else if all has_succeeded rows
    then (if same_status status pending then promote else leave)
    else if any cancels (keep has_failed rows)
    then end
    else leave

-- The join of the edges with the tasks that they depend on, which leaves out an edge whose task is
-- missing.
unfoldable pub rows_of : Statuses → List TaskDependency → List Row
rows_of statuses [] = []
rows_of statuses (e ∷ es) = elim (status_of e.depends_on_task_id statuses) [
  | none ↦ rows_of statuses es
  | some status ↦ (e.failure_policy, status) ∷ rows_of statuses es
]

-- One edge is judged alike by the two.
judged_alike :
    (policy : String) (status : TaskStatus) (id : ℕ) {v : Verdict}
    → judge_status policy status ≡ ok v
    → (is_cancelling (record { dependency = id; verdict = v })
        ≡ (has_failed (policy, status) && cancels (policy, status)))
      × (has_succeeded (policy, status)
          ≡ not (
              is_failing (record { dependency = id; verdict = v })
              || is_unfinished (record { dependency = id; verdict = v })))
unfolding judge_status parse_policy
judged_alike policy status id {v} h = ground arith

-- So are all edges.
record Alike (rows : List Row) (js : List Judged) : Type 0 where
  cancelling : any is_cancelling js ≡ any cancels (keep has_failed rows)
  succeeding : all has_succeeded rows ≡ not (any is_failing js || any is_unfinished js)

cons-Alike :
    (row : Row) (rows : List Row) (j : Judged) (js : List Judged)
    → is_cancelling j ≡ (has_failed row && cancels row)
    → has_succeeded row ≡ not (is_failing j || is_unfinished j)
    → Alike rows js
    → Alike (row ∷ rows) (j ∷ js)
cons-Alike row rows j js c s h = record {
  cancelling =
      cancelling_cons (is_cancelling j) (has_failed row) (cancels row) (any is_cancelling js)
        (keep has_failed rows) row c h.cancelling;
  succeeding =
      succeeding_cons (has_succeeded row) (is_failing j) (is_unfinished j) (all has_succeeded rows)
        (any is_failing js) (any is_unfinished js) s h.succeeding;
}
  where
    cancelling_cons :
        (a f c b : Bool) (rest : List Row) (r : Row)
        → a ≡ (f && cancels r)
        → b ≡ any cancels rest
        → (a || b) ≡ any cancels (if f then r ∷ rest else rest)
    cancelling_cons a true c b rest r h k = ground (arith, h, k)
    cancelling_cons a false c b rest r h k = ground (arith, h, k)

    succeeding_cons :
        (x f u y g v : Bool)
        → x ≡ not (f || u)
        → y ≡ not (g || v)
        → (x && y) ≡ not ((f || g) || (u || v))
    succeeding_cons x f u y g v h k = ground (arith, h, k)

rows_cons :
    (statuses : Statuses) (e : TaskDependency) (es : List TaskDependency) (status : TaskStatus)
    → status_of e.depends_on_task_id statuses ≡ some status
    → rows_of statuses (e ∷ es) ≡ (e.failure_policy, status) ∷ rows_of statuses es
unfolding rows_of
rows_cons statuses e es status there = ground (arith, there)

judge_row :
    (statuses : Statuses) (e : TaskDependency) {v : Verdict}
    → judge statuses e ≡ ok v
    → (status : TaskStatus) × (status_of e.depends_on_task_id statuses ≡ some status)
      × (judge_status e.failure_policy status ≡ ok v)
unfolding judge
judge_row statuses e {v} h = elim (Option-cases (status_of e.depends_on_task_id statuses)) [
  | inl none_there ↦ absurd (ground (arith, none_there))
  | inr (status, there) ↦ (status, there, ground (arith, there))
]

judge_all-Alike :
    (statuses : Statuses) (es : List TaskDependency) {js : List Judged}
    → judge_all statuses es ≡ ok js
    → Alike (rows_of statuses es) js × (is_empty (rows_of statuses es) ≡ is_empty es)
unfolding judge_all rows_of
judge_all-Alike statuses [] h =
    (subst (Alike []) (ok_injective h) (record { cancelling = refl; succeeding = refl }), refl)
judge_all-Alike statuses (e ∷ es) {js = found} h =
    let (v, judged, h1) = ok_parts (judge statuses e) _ h in
    let (js, others, same) = ok_parts (judge_all statuses es) _ h1 in
    let (status, there, verdict) = judge_row statuses e judged in
    let (c, s) = judged_alike e.failure_policy status e.depends_on_task_id verdict in
    let rows = rows_cons statuses e es status there in
    (
      subst (λ rs. Alike rs found) (sym rows)
          (subst (Alike ((e.failure_policy, status) ∷ rows_of statuses es)) (ok_injective same) (
            cons-Alike (e.failure_policy, status) (rows_of statuses es) _ js c s
              (judge_all-Alike statuses es others).0)),
      ap (λ rs. is_empty rs) rows,
    )

failing_if_cancelling : (js : List Judged) → any is_cancelling js ≡ true → any is_failing js ≡ true
failing_if_cancelling [] h = h
failing_if_cancelling (j ∷ js) h = ground (arith, failing_if_cancelling js)

-- The two readings of a task's dependencies.
pub record Agrees (task_id : ℕ) (statuses : Statuses) (edges : List TaskDependency)
    (r : DependencyResolution) : Type 0 where
  pub ends :
      (readiness_action r.task_status (rows_of statuses (incoming task_id edges)) ≡ end)
      ↔ (((r.task_status ≡ pending) ⊎ (r.task_status ≡ queued)) × (r.state ≡ cancelled))
  pub promotes :
      (readiness_action r.task_status (rows_of statuses (incoming task_id edges)) ≡ promote) ↔ (
        (is_empty (incoming task_id edges) ≡ false) × (r.state ≡ ready) × (r.task_status ≡ pending))

agree :
    (status : TaskStatus) (rows : List Row) (empty : Bool) (js : List Judged)
    → is_empty rows ≡ empty
    → any is_cancelling js ≡ any cancels (keep has_failed rows)
    → all has_succeeded rows ≡ not (any is_failing js || any is_unfinished js)
    → ((readiness_action status rows ≡ end)
        ↔ (((status ≡ pending) ⊎ (status ≡ queued)) × (state_of js ≡ cancelled)))
      × ((readiness_action status rows ≡ promote)
          ↔ ((empty ≡ false) × (state_of js ≡ ready) × (status ≡ pending)))
unfolding readiness_action is_selected is_in same_status state_of
agree status [] empty js size c s = ground (arith, size, c, s)
agree status (row ∷ rows) empty js size c s = ground (arith, size, c, s, failing_if_cancelling js)

-- Where the dependencies of a task resolve, the pass over the tasks cancels it exactly when it is
-- PENDING or QUEUED and they resolve to CANCELLED, and queues it exactly when it has dependencies, they
-- resolve to READY, and it is PENDING.
pub resolve_task-Agrees :
    (task_id : ℕ) (statuses : Statuses) (edges : List TaskDependency) {r : DependencyResolution}
    → resolve_task task_id statuses edges ≡ ok r
    → Agrees task_id statuses edges r
unfolding resolve_task
resolve_task-Agrees task_id statuses edges {r} h =
    let es = incoming task_id edges in
    let (js, judged, h1) = ok_parts (judge_all statuses es) _ h in
    let (alike, size) = judge_all-Alike statuses es judged in
    let state : r.state ≡ state_of js = ground (arith, h1) in
    let (ends, promotes) =
      agree r.task_status (rows_of statuses es) (is_empty es) js size alike.cancelling
        alike.succeeding in
    record {
      ends = (
        λ e. let (selected, c) = ends.0 e in (selected, state ∙ c),
        λ e. ends.1 (e.0, sym state ∙ e.1),
      );
      promotes = (
        λ e.
            let (some_edge, all_ready, waits) = promotes.0 e in
            (some_edge, state ∙ all_ready, waits),
        λ e.
            let (some_edge, all_ready, waits) = e in
            promotes.1 (some_edge, sym state ∙ all_ready, waits),
      );
    }
