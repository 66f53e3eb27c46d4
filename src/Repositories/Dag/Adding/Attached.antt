-- ===== src/Repositories/Dag/Adding/Attached.antt =====
-- repositories/dag.py: the loop of `_add_dependencies_locked` keeps the rows sound.
use mini_ai_cloud.Prelude.{
  ℕ, ◌≡◌, refl, sym, ap, ◌∙◌, subst, ◌⊎◌, inl, inr, Bool, true, false, none, List, [], ◌∷◌, keep,
  ◌==◌, ==_iff, Bool-cases, arith,
}
use mini_ai_cloud.Prelude.Sets.{has}
use mini_ai_cloud.Repositories.Dag.Resolution.{TaskDependency}
use mini_ai_cloud.Repositories.Dag.Cycle.Build.{has_edge, AreDistinct}
use mini_ai_cloud.Repositories.Dag.Cycle.Walks.{Walk}
use mini_ai_cloud.Repositories.Dag.Adding.{
  DependencySpec, Draft, in_group, touches, edge_at, row_of,
}
use mini_ai_cloud.Repositories.Dag.Adding.Linked.{
  IsRow, is_end, keys, AreLinked, edge-IsRow, row-edge, new_row-acyclic,
}

-- What holds of the table between transactions: no two rows have one key, the tasks are there, and no
-- task needs itself.
pub record IsSound (task_ids : List ℕ) (rows : List TaskDependency) : Type 0 where
  pub once : AreDistinct (keys rows)
  pub linked : AreLinked rows
  pub known :
      (r : TaskDependency) (v : ℕ) → IsRow r rows → is_end v r ≡ true → has v task_ids ≡ true
  pub acyclic : (v : ℕ) → ¬ Walk (keys rows) v v

pub record Drafted (group_id : ℕ) (ids task_ids : List ℕ) (draft : Draft) : Type 0 where
  pub sound : IsSound task_ids draft.rows
  pub mapped : draft.edge_map ≡ keep (in_group group_id) draft.rows
  pub joined :
      (r : TaskDependency) → IsRow r draft.rows → touches ids r ≡ true → in_group group_id r ≡ true

pub edge_at-none :
    (rows : List TaskDependency) (u v : ℕ)
    → edge_at u v rows ≡ none
    → has_edge u v (keys rows) ≡ false
edge_at-none [] u v h = refl
edge_at-none (r ∷ rows) u v h = ground (arith, edge_at-none rows u v)

has_edge-keep :
    (rows : List TaskDependency) (test : TaskDependency → Bool) (u v : ℕ)
    → has_edge u v (keys rows) ≡ false
    → has_edge u v (keys (keep test rows)) ≡ false
has_edge-keep [] test u v h = refl
has_edge-keep (r ∷ rows) test u v h = ground (arith, has_edge-keep rows test u v)

pub keep-AreDistinct :
    (rows : List TaskDependency) (test : TaskDependency → Bool)
    → AreDistinct (keys rows)
    → AreDistinct (keys (keep test rows))
keep-AreDistinct [] test d = tt
keep-AreDistinct (r ∷ rows) test d = elim (Bool-cases (test r)) [
  | inl kept ↦
      rw kept
        (has_edge-keep rows test r.task_id r.depends_on_task_id d.0, keep-AreDistinct rows test d.1)
  | inr dropped ↦ rw dropped (keep-AreDistinct rows test d.1)
]

pub same_group : (s : TaskDependency) (g h : ℕ) → in_group g s ≡ true → in_group h s ≡ true → g ≡ h
same_group s g h a b = ground arith

pub cons-AreLinked :
    (rows : List TaskDependency) (row : TaskDependency)
    → AreLinked rows
    → ((s : TaskDependency)
        → IsRow s rows
        → is_end row.task_id s ≡ true
        → (g : ℕ) → in_group g s ≡ true
        → in_group g row ≡ true)
    → ((r : TaskDependency)
        → IsRow r rows
        → is_end r.task_id row ≡ true
        → (g : ℕ) → in_group g row ≡ true
        → in_group g r ≡ true)
    → AreLinked (row ∷ rows)
cons-AreLinked rows row old out back r s (inr a) (inr b) end g h = old r s a b end g h
cons-AreLinked rows row old out back r s (inl a) (inl b) end g h = ap (in_group g) (sym a ∙ b) ∙ h
cons-AreLinked rows row old out back r s (inl a) (inr b) end g h =
    ap (in_group g) (sym a) ∙ out s b (ap (λ (x : TaskDependency). is_end x.task_id s) a ∙ end) g h
cons-AreLinked rows row old out back r s (inr a) (inl b) end g h =
    back r a (ap (is_end r.task_id) b ∙ end) g (ap (in_group g) b ∙ h)

pub at_end :
    (r : TaskDependency) (v : ℕ) → is_end v r ≡ true → (r.task_id ≡ v) ⊎ (r.depends_on_task_id ≡ v)
at_end r v h = elim (Bool-cases (r.task_id == v)) [
  | inl tail ↦ inl ((==_iff r.task_id v).0 tail)
  | inr other ↦ inr ((==_iff r.depends_on_task_id v).0 (ground (arith, h, other)))
]

pub end-touches :
    (ids : List ℕ) (r : TaskDependency) (v : ℕ)
    → has v ids ≡ true
    → is_end v r ≡ true
    → touches ids r ≡ true
end-touches ids r v there h = elim (at_end r v h) [
  | inl tail ↦ ground (arith, ap (λ x. has x ids) tail, there)
  | inr head ↦ ground (arith, ap (λ x. has x ids) head, there)
]

module _ (group_id : ℕ) (ids task_ids : List ℕ)
    (known : (v : ℕ) → has v ids ≡ true → has v task_ids ≡ true) where
  abbrev pub Asks : DependencySpec → Type 0
  Asks d = (has d.task_id ids ≡ true) × (has d.depends_on_task_id ids ≡ true)

  abbrev pub Fits : DependencySpec → Draft → Type 0
  Fits d draft = Asks d × Drafted group_id ids task_ids draft

  row-new :
      (d : DependencySpec) (draft : Draft)
      → Fits d draft
      → has_edge d.task_id d.depends_on_task_id (keys draft.edge_map) ≡ false
      → has_edge d.task_id d.depends_on_task_id (keys draft.rows) ≡ false
  row-new d draft (asks, at) new =
      elim (Bool-cases (has_edge d.task_id d.depends_on_task_id (keys draft.rows))) [
        | inr other ↦ other
        | inl old ↦
            let (r, row, tail, head) = edge-IsRow draft.rows d.task_id d.depends_on_task_id old in
            let group =
              at.joined r row (end-touches ids r d.task_id asks.0 (ground (arith, tail))) in
            let there = row-edge draft.rows (in_group group_id) r row group in
            cc (at.mapped, there, new, tail, head)
      ]

  row-AreLinked :
      (d : DependencySpec) (draft : Draft)
      → Fits d draft
      → AreLinked (row_of group_id d ∷ draft.rows)
  row-AreLinked d draft (asks, at) =
      cons-AreLinked draft.rows (row_of group_id d) at.sound.linked
        (λ s b end g h.
          let group = at.joined s b (end-touches ids s d.task_id asks.0 end) in
          ground (arith, same_group s group_id g group h))
        (λ r a end g h.
          let there : has r.task_id ids ≡ true = elim (at_end (row_of group_id d) r.task_id end) [
            | inl tail ↦ ap (λ x. has x ids) (sym tail) ∙ asks.0
            | inr head ↦ ap (λ x. has x ids) (sym head) ∙ asks.1
          ] in
          ap (λ x. in_group x r) (sym ((==_iff group_id g).0 h))
          ∙ at.joined r a (ground (arith, there)))

  row-known :
      (d : DependencySpec) (draft : Draft) (r : TaskDependency) (v : ℕ)
      → Fits d draft
      → IsRow r (row_of group_id d ∷ draft.rows)
      → is_end v r ≡ true
      → has v task_ids ≡ true
  row-known d draft r v (asks, at) (inr a) end = at.sound.known r v a end
  row-known d draft r v (asks, at) (inl a) end =
      elim (at_end (row_of group_id d) v (ap (is_end v) a ∙ end)) [
        | inl tail ↦ known v (ap (λ x. has x ids) (sym tail) ∙ asks.0)
        | inr head ↦ known v (ap (λ x. has x ids) (sym head) ∙ asks.1)
      ]

  pub row-mapped :
      (d : DependencySpec) (draft : Draft)
      → Fits d draft
      → row_of group_id d ∷ draft.edge_map
        ≡ keep (in_group group_id) (row_of group_id d ∷ draft.rows)
  row-mapped d draft (asks, at) = ground (arith, at.mapped)

  pub row-IsSound :
      (d : DependencySpec) (draft : Draft)
      → Fits d draft
      → has_edge d.task_id d.depends_on_task_id (keys draft.edge_map) ≡ false
      → ((v : ℕ) → ¬ Walk ((d.task_id, d.depends_on_task_id) ∷ keys draft.edge_map) v v)
      → IsSound task_ids (row_of group_id d ∷ draft.rows)
  row-IsSound d draft fits new group = record {
    once = (row-new d draft fits new, fits.1.sound.once);
    linked = row-AreLinked d draft fits;
    known = λ r v. row-known d draft r v fits;
    acyclic =
        new_row-acyclic draft.rows group_id (row_of group_id d) (row-AreLinked d draft fits)
          (ground arith) fits.1.sound.acyclic
          (λ v walk.
            group v (subst (λ rows. Walk (keys rows) v v) (sym (row-mapped d draft fits)) walk));
  }
