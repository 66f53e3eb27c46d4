-- ===== src/Repositories/Dag/Summary/Status.antt =====
-- repositories/dag.py: the status of a job group, by its tasks and by the resolutions of their edges.
use mini_ai_cloud.Prelude.{
  ℕ, ◌≡◌, ◌≢◌, ◌↔◌, ◌⊎◌, refl, sym, ◌∙◌, subst, inl, inr, Bool, true, false, not, ◌&&◌, ◌||◌,
  &&_parts, List, [], ◌∷◌, any, all, map, if◌then◌else◌, ◌==◌, ==_iff, Any, All, ok, ok_parts,
  ok_injective, Bool-cases, arith,
}
use mini_ai_cloud.Prelude.Sets.{has}
use mini_ai_cloud.Prelude.Decide.{any_iff, all_iff}
use mini_ai_cloud.Core.Enums.{
  TaskStatus, succeeded, failed, cancelled, timed_out, preempted, same_status, same_status_iff,
  is_in, is_final, is_active,
}
use mini_ai_cloud.Repositories.Dag.Resolution.{
  TaskDependency, DependencyResolution, Statuses, resolve_task, blocked, cancelled as to_cancel,
}
use mini_ai_cloud.Repositories.Dag.Summary.{
  JobGroupStatus, group_pending, group_running, group_succeeded, group_failed, GroupTask, in_state,
  is_done, is_lost, group_status, resolve_each, ids_of, same_set,
}

-- The statuses of the tasks, as the resolutions read them.
abbrev pub statuses_of : List GroupTask → Statuses
statuses_of tasks = map (λ (t : GroupTask). (t.id, t.status)) tasks

abbrev pub HasSucceeded : GroupTask → Type 0
HasSucceeded t = t.status ≡ succeeded

abbrev pub EndedOtherwise : GroupTask → Type 0
EndedOtherwise t =
    (t.status ≡ failed) ⊎ (t.status ≡ cancelled) ⊎ (t.status ≡ timed_out) ⊎ (t.status ≡ preempted)

abbrev pub StuckState : DependencyResolution → Type 0
StuckState r = (r.state ≡ blocked) ⊎ (r.state ≡ to_cancel)

-- The edges of the task resolve to BLOCKED or CANCELLED.
abbrev pub IsStuck : List GroupTask → List TaskDependency → ℕ → Type 0
IsStuck tasks edges id =
    (r : DependencyResolution) × (resolve_task id (statuses_of tasks) edges ≡ ok r) × StuckState r

done_iff : (t : GroupTask) → (is_done t ≡ true) ↔ HasSucceeded t
done_iff t = same_status_iff t.status succeeded

lost_status :
    (s : TaskStatus)
    → ((is_final s && not (same_status s succeeded)) ≡ true)
      ↔ ((s ≡ failed) ⊎ (s ≡ cancelled) ⊎ (s ≡ timed_out) ⊎ (s ≡ preempted))
unfolding is_final is_in same_status
lost_status s = ground arith

lost_iff : (t : GroupTask) → (is_lost t ≡ true) ↔ EndedOtherwise t
lost_iff t = lost_status t.status

stuck_iff :
    (r : DependencyResolution)
    → ((in_state blocked r || in_state to_cancel r) ≡ true) ↔ StuckState r
stuck_iff r = ground arith

-- What holds of some resolution holds of that of some ID.
pub resolved_iff :
    (P : DependencyResolution → Type 0) (ids : List ℕ) (statuses : Statuses)
    (edges : List TaskDependency) {rs : List DependencyResolution}
    → resolve_each ids statuses edges ≡ ok rs
    → Any P rs
      ↔ Any (λ id. (r : DependencyResolution) × (resolve_task id statuses edges ≡ ok r) × P r) ids
unfolding resolve_each
resolved_iff P [] statuses edges h = subst (λ rs. Any P rs ↔ ⊥) (ok_injective h) (λ x. x, λ x. x)
resolved_iff P (id ∷ ids) statuses edges h =
    let (r, found, h1) =
      ok_parts {B = List DependencyResolution} (resolve_task id statuses edges) _ h in
    let (rest, others, made) =
      ok_parts {B = List DependencyResolution} (resolve_each ids statuses edges) _ h1 in
    let (to, from) = resolved_iff P ids statuses edges others in
    subst
      (λ rs.
        Any P rs
        ↔ Any (λ id. (r : DependencyResolution) × (resolve_task id statuses edges ≡ ok r) × P r)
            (id ∷ ids))
      (ok_injective made)
      (
        λ x. elim x [ inl p ↦ inl (r, found, p) | inr p ↦ inr (to p) ],
        λ x. elim x [
          | inl (s, same, p) ↦ inl (subst P (ok_injective (sym same ∙ found)) p)
          | inr p ↦ inr (from p)
        ],
      )

has-Any : (P : ℕ → Type 0) (y : ℕ) (zs : List ℕ) → has y zs ≡ true → P y → Any P zs
has-Any P y [] h p = cc
has-Any P y (z ∷ zs) h p = elim (Bool-cases (z == y)) [
  | inl same ↦ inl (subst P (sym ((==_iff z y).0 same)) p)
  | inr other ↦ inr (has-Any P y zs (rw other at h) p)
]

within-Any : (P : ℕ → Type 0) (xs zs : List ℕ) → all (λ x. has x zs) xs ≡ true → Any P xs → Any P zs
within-Any P [] zs h p = absurd p
within-Any P (x ∷ xs) zs h (inl p) =
    has-Any P x zs (&&_parts (has x zs) (all (λ y. has y zs) xs) h).0 p
within-Any P (x ∷ xs) zs h (inr p) =
    within-Any P xs zs (&&_parts (has x zs) (all (λ y. has y zs) xs) h).1 p

-- The tasks and the ends of the edges are the same set of IDs.
pub ids-Any :
    (P : ℕ → Type 0) (tasks : List GroupTask) (ids : List ℕ)
    → same_set (ids_of tasks) ids ≡ true
    → Any P ids ↔ Any P (ids_of tasks)
ids-Any P tasks ids h =
    let (to, from) = &&_parts _ _ h in
    (within-Any P ids (ids_of tasks) from, within-Any P (ids_of tasks) ids to)

abbrev pub choice : Bool → Bool → Bool → JobGroupStatus
choice a b c =
    if a
    then group_succeeded
    else if b
    then group_failed
    else if c
    then group_running
    else group_pending

pub choice-succeeded : (a b c : Bool) → (choice a b c ≡ group_succeeded) ↔ (a ≡ true)
choice-succeeded true b c = (λ h. refl, λ h. refl)
choice-succeeded false true c = (λ h. cc, λ h. cc)
choice-succeeded false false true = (λ h. cc, λ h. cc)
choice-succeeded false false false = (λ h. cc, λ h. cc)

pub choice-failed : (a b c : Bool) → (choice a b c ≡ group_failed) ↔ ((a ≡ false) × (b ≡ true))
choice-failed true b c = (λ h. cc, λ h. cc)
choice-failed false true c = (λ h. (refl, refl), λ h. refl)
choice-failed false false true = (λ h. cc, λ h. cc)
choice-failed false false false = (λ h. cc, λ h. cc)

pub succeeded_status :
    (tasks : List GroupTask) (rs : List DependencyResolution)
    → (group_status tasks rs ≡ group_succeeded) ↔ ((tasks ≢ []) × All HasSucceeded tasks)
unfolding group_status
succeeded_status [] rs = (λ h. cc, λ h. absurd (h.0 refl))
succeeded_status (t ∷ ts) rs =
    let tasks = t ∷ ts in
    let ended = any is_lost tasks || any (λ r. in_state blocked r || in_state to_cancel r) rs in
    let (to, from) =
      choice-succeeded (all is_done tasks) ended
        (any (λ (x : GroupTask). is_active x.status) tasks) in
    let (every, back) = all_iff is_done HasSucceeded done_iff tasks in
    (λ h. (λ e. cc, every (to h)), λ h. from (back h.1))

either_iff : (a b : Bool) → ((a || b) ≡ true) ↔ ((a ≡ true) ⊎ (b ≡ true))
either_iff a b = ground arith

not_iff : (a : Bool) → (a ≡ false) ↔ (¬ (a ≡ true))
not_iff true = (λ h. cc, λ h. absurd (h refl))
not_iff false = (λ h e. cc, λ h. refl)

pub failed_status :
    (tasks : List GroupTask) (rs : List DependencyResolution)
    → (group_status tasks rs ≡ group_failed)
      ↔ ((¬ All HasSucceeded tasks) × (Any EndedOtherwise tasks ⊎ Any StuckState rs))
unfolding group_status
failed_status [] rs = (λ h. cc, λ h. absurd (h.0 tt))
failed_status (t ∷ ts) rs =
    let tasks = t ∷ ts in
    let lost = any is_lost tasks in
    let stuck = any (λ r. in_state blocked r || in_state to_cancel r) rs in
    let (to, from) =
      choice-failed (all is_done tasks) (lost || stuck)
        (any (λ (x : GroupTask). is_active x.status) tasks) in
    let every = all_iff is_done HasSucceeded done_iff tasks in
    let some_lost = any_iff is_lost EndedOtherwise lost_iff tasks in
    let some_stuck =
      any_iff (λ r. in_state blocked r || in_state to_cancel r) StuckState stuck_iff rs in
    (
      λ h.
          let (other, over) = to h in
          (
            λ all_done. (not_iff (all is_done tasks)).0 other (every.1 all_done),
            elim ((either_iff lost stuck).0 over) [
              | inl p ↦ inl (some_lost.0 p)
              | inr p ↦ inr (some_stuck.0 p)
            ],
          ),
      λ h. from (
        (not_iff (all is_done tasks)).1 (λ all_done. h.0 (every.0 all_done)),
        (either_iff lost stuck).1
            (elim (h.1) [ inl p ↦ inl (some_lost.1 p) | inr p ↦ inr (some_stuck.1 p) ]),
      ),
    )
