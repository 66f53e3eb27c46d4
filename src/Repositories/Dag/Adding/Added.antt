-- ===== src/Repositories/Dag/Adding/Added.antt =====
-- repositories/dag.py: what the loop of `_add_dependencies_locked` returns.
use mini_ai_cloud.Prelude.{
  ℕ, ◌≡◌, refl, sym, ap, ◌∙◌, subst, inl, inr, Bool, true, false, ◌&&◌, Option, none, some, List,
  [], ◌∷◌, ◌++◌, map, ◌==◌, ==_iff, if◌then◌else◌, Bool-cases, arith, Result, ok, err, ◌>>=◌, All,
}
use mathlib.Core.List.{append_assoc, append-nil}
use mathlib.Core.Option.{some-injective}
use mini_ai_cloud.Prelude.Sets.{has}
use mini_ai_cloud.Prelude.Text.{◌===◌}
use mini_ai_cloud.Core.Enums.{TaskStatus, is_in}
use mini_ai_cloud.Repositories.Dag.Resolution.{TaskDependency}
use mini_ai_cloud.Repositories.Dag.Cycle.{Edge}
use mini_ai_cloud.Repositories.Dag.Cycle.Build.{has_edge, AreDistinct}
use mini_ai_cloud.Repositories.Dag.Cycle.Walks.{Walk, last, next}
use mini_ai_cloud.Repositories.Dag.Cycle.Decides.{contains_cycle_decides}
use mini_ai_cloud.Repositories.Dag.Adding.{
  Task, DependencySpec, Draft, DagError, would_cycle, key_error, index_error, no_answer, key_of,
  in_group, touches, text_of, edge_at, status_at, attachable, row_of, admit_row, admit_candidate,
  attach_at, attach, attach_all,
}
use mini_ai_cloud.Repositories.Dag.Adding.Linked.{keys, IsRow}
use mini_ai_cloud.Repositories.Dag.Adding.Attached.{
  Drafted, keep-AreDistinct, Asks, row-mapped, row-IsSound, edge_at-none,
}

abbrev pub spec_key : DependencySpec → Edge
spec_key d = (d.task_id, d.depends_on_task_id)

-- A refusal for a cycle shows one along `edges`; an exception that the code does not mean is none.
abbrev pub Fails : List Edge → DagError → Type 0
Fails edges would_cycle = (v : ℕ) × Walk edges v v
Fails edges key_error = ⊥
Fails edges index_error = ⊥
Fails edges no_answer = ⊥
Fails edges _ = Unit

abbrev pub IsWithin : List Edge → List Edge → Type 0
IsWithin some_edges edges = (u v : ℕ) → has_edge u v some_edges ≡ true → has_edge u v edges ≡ true

Walk-within :
    (some_edges edges : List Edge)
    → IsWithin some_edges edges
    → (u v : ℕ) → Walk some_edges u v
    → Walk edges u v
Walk-within es edges h u v (last e) = last (h u v e)
Walk-within es edges h u v (next {v = w} e walk) = next (h u w e) (Walk-within es edges h w v walk)

cons-IsWithin :
    (e : Edge) (es edges : List Edge)
    → IsWithin es edges
    → has_edge e.0 e.1 edges ≡ true
    → IsWithin (e ∷ es) edges
cons-IsWithin e es edges h there u v k = elim (Bool-cases ((e.0 == u) && (e.1 == v))) [
  | inl here ↦
      cc (there, (==_iff e.0 u).0 (ground (arith, here)), (==_iff e.1 v).0 (ground (arith, here)))
  | inr other ↦ h u v (ground (arith, k, other))
]

keys-append : (xs ys : List TaskDependency) → keys (xs ++ ys) ≡ keys xs ++ keys ys
keys-append [] ys = refl
keys-append (x ∷ xs) ys = ap (λ es. key_of x ∷ es) (keys-append xs ys)

status_at-found :
    (tasks : List Task) (id : ℕ)
    → has id (map (λ (t : Task). t.id) tasks) ≡ true
    → status_at id tasks ≡ none
    → ⊥
status_at-found [] id h n = cc
status_at-found (t ∷ tasks) id h n = ground (arith, status_at-found tasks id)

edge_at-key :
    (rows : List TaskDependency) (u v : ℕ) {e : TaskDependency}
    → edge_at u v rows ≡ some e
    → key_of e ≡ (u, v)
edge_at-key [] u v h = cc
edge_at-key (r ∷ rows) u v {e = e} h =
    elim (Bool-cases ((r.task_id == u) && (r.depends_on_task_id == v))) [
      | inl here ↦
          let same : r ≡ e =
            some-injective r e (ap (λ b. if b then some r else edge_at u v rows) (sym here) ∙ h) in
          ap key_of (sym same)
          ∙ cc (
            (==_iff r.task_id u).0 (ground (arith, here)),
            (==_iff r.depends_on_task_id v).0 (ground (arith, here)),
          )
      | inr other ↦
          edge_at-key rows u v (ap (λ b. if b then some r else edge_at u v rows) (sym other) ∙ h)
    ]

module _ (tasks : List Task) (group_id : ℕ) (ids task_ids : List ℕ) (edges : List Edge)
    (known : (v : ℕ) → has v ids ≡ true → has v task_ids ≡ true)
    (found : (v : ℕ) → has v ids ≡ true → has v (map (λ (t : Task). t.id) tasks) ≡ true) where
  abbrev pub Loops : Draft → Type 0
  Loops draft = Drafted group_id ids task_ids draft × IsWithin (keys draft.edge_map) edges

  abbrev pub IsAsked : DependencySpec → Type 0
  IsAsked d =
      Asks group_id ids task_ids known d × (has_edge d.task_id d.depends_on_task_id edges ≡ true)

  -- Where it returns, each dependency has its row.
  abbrev pub Goes : List DependencySpec → Draft → Result DagError Draft → Type 0
  Goes ds draft (ok after) =
      Loops after × (keys after.created ≡ keys draft.created ++ map spec_key ds)
  Goes ds draft (err e) = Fails edges e

  joins :
      (d : DependencySpec) (draft : Draft)
      → Drafted group_id ids task_ids draft
      → (r : TaskDependency) → IsRow r (row_of group_id d ∷ draft.rows)
      → touches ids r ≡ true
      → in_group group_id r ≡ true
  joins d draft at r (inl a) t = ap (in_group group_id) (sym a) ∙ ground arith
  joins d draft at r (inr a) t = at.joined r a t

  admit_row-Goes :
      (d : DependencySpec) (draft : Draft)
      → Loops draft
      → IsAsked d
      → has_edge d.task_id d.depends_on_task_id (keys draft.edge_map) ≡ false
      → ((v : ℕ) → ¬ Walk (spec_key d ∷ keys draft.edge_map) v v)
      → (status : Option TaskStatus) → status_at d.task_id tasks ≡ status
      → Goes (d ∷ []) draft (admit_row status (row_of group_id d) draft)
  admit_row-Goes d draft (at, within) (asks, there) fresh group none h =
      status_at-found tasks d.task_id (found d.task_id asks.0) h
  admit_row-Goes d draft (at, within) (asks, there) fresh group (some status) h =
      elim (Bool-cases (is_in status attachable)) [
        | inr late ↦ rw late tt
        | inl early ↦ rw early (
          (
            record {
              sound = row-IsSound group_id ids task_ids known d draft (asks, at) fresh group;
              mapped = row-mapped group_id ids task_ids known d draft (asks, at);
              joined = λ r a t. joins d draft at r a t;
            },
            cons-IsWithin (spec_key d) (keys draft.edge_map) edges within there,
          ),
          keys-append draft.created (row_of group_id d ∷ []),
        )
      ]

  admit_candidate-Goes :
      (d : DependencySpec) (draft : Draft)
      → Loops draft
      → IsAsked d
      → edge_at d.task_id d.depends_on_task_id draft.edge_map ≡ none
      → Goes (d ∷ []) draft (attach_at none tasks (row_of group_id d) draft)
  admit_candidate-Goes d draft (at, within) (asks, there) new =
      let fresh = edge_at-none draft.edge_map d.task_id d.depends_on_task_id new in
      let distinct =
        subst (λ rows. AreDistinct (keys rows)) (sym at.mapped)
          (keep-AreDistinct draft.rows (in_group group_id) at.sound.once) in
      let goes : Option Bool → Type 0 = λ answer.
        Goes (d ∷ []) draft
          (admit_candidate answer (status_at d.task_id tasks) (row_of group_id d) draft) in
      elim (contains_cycle_decides (spec_key d ∷ keys draft.edge_map) (fresh, distinct)) [
        | inl (cyclic, v, walk) ↦ subst goes (sym cyclic) (
          v,
          Walk-within (spec_key d ∷ keys draft.edge_map) edges
              (cons-IsWithin (spec_key d) (keys draft.edge_map) edges within there) v v walk,
        )
        | inr (straight, group) ↦ subst goes (sym straight) (
            admit_row-Goes d draft (at, within) (asks, there) fresh group
              (status_at d.task_id tasks) refl)
      ]

  attach-Goes :
      (d : DependencySpec) (draft : Draft)
      → Loops draft
      → IsAsked d
      → (existing : Option TaskDependency)
      → edge_at d.task_id d.depends_on_task_id draft.edge_map ≡ existing
      → Goes (d ∷ []) draft (attach_at existing tasks (row_of group_id d) draft)
  attach-Goes d draft loops asked none h = admit_candidate-Goes d draft loops asked h
  attach-Goes d draft loops asked (some existing) h =
      elim (Bool-cases (existing.failure_policy === text_of d.failure_policy)) [
        | inl same ↦ rw same (
          (
            record { sound = loops.0.sound; mapped = loops.0.mapped; joined = loops.0.joined },
            loops.1,
          ),
          keys-append draft.created (existing ∷ [])
              ∙ ap (λ e. keys draft.created ++ e ∷ [])
                  (edge_at-key draft.edge_map d.task_id d.depends_on_task_id h),
        )
        | inr other ↦ rw other tt
      ]

  followed :
      (d : DependencySpec) (ds : List DependencySpec) (draft : Draft)
      (first : Result DagError Draft) (more : Draft → Result DagError Draft)
      → Goes (d ∷ []) draft first
      → ((after : Draft) → Loops after → Goes ds after (more after))
      → Goes (d ∷ ds) draft (first >>= more)
  followed d ds draft (err e) more h rest = h
  followed d ds draft (ok middle) more (loops, keys_then) rest =
      extended (more middle) (rest middle loops)
    where
      extended : (m : Result DagError Draft) → Goes ds middle m → Goes (d ∷ ds) draft m
      extended (err e) h = h
      extended (ok after) (loops, keys_now) = (
        loops,
        keys_now
            ∙ ap (λ es. es ++ map spec_key ds) keys_then
            ∙ append_assoc (keys draft.created) (spec_key d ∷ []) (map spec_key ds),
      )

  pub attach_all-Goes :
      (ds : List DependencySpec) (draft : Draft)
      → Loops draft
      → All IsAsked ds
      → Goes ds draft (attach_all tasks group_id ds draft)
  unfolding attach_all attach
  attach_all-Goes [] draft loops asked = (loops, sym (append-nil (keys draft.created)))
  attach_all-Goes (d ∷ ds) draft loops asked =
      followed d ds draft (attach tasks group_id d draft) (attach_all tasks group_id ds)
        (attach-Goes d draft loops asked.0 (edge_at d.task_id d.depends_on_task_id draft.edge_map)
          refl)
        (λ after l. attach_all-Goes ds after l asked.1)
