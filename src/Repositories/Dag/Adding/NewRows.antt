-- ===== src/Repositories/Dag/Adding/NewRows.antt =====
-- repositories/tasks.py: the rows of the dependencies of a new task.
use mini_ai_cloud.Prelude.{
  ℕ, ◌≤◌, ◌≡◌, refl, sym, ap, ◌∙◌, ◌⊎◌, inl, inr, true, false, ◌||◌, List, [], ◌∷◌, ◌++◌, length,
  none, ◌==◌, Bool-cases, arith,
}
use mini_ai_cloud.Prelude.Sets.{has, has-add_new, IsDistinct}
use mini_ai_cloud.Prelude.Text.{String}
use mini_ai_cloud.Repositories.Dag.Resolution.{TaskDependency}
use mini_ai_cloud.Repositories.Dag.Cycle.Build.{has_edge, AreDistinct}
use mini_ai_cloud.Repositories.Dag.Adding.{new_rows, distinct_of}
use mini_ai_cloud.Repositories.Dag.Adding.Linked.{keys, IsRow}

has-distinct_of : (v : ℕ) (xs : List ℕ) → has v (distinct_of xs) ≡ has v xs
has-distinct_of v [] = refl
has-distinct_of v (x ∷ xs) =
    has-add_new v x (distinct_of xs) ∙ ap (λ b. x == v || b) (has-distinct_of v xs)

length-distinct_of : (xs : List ℕ) → length (distinct_of xs) ≤ length xs
length-distinct_of [] = omega arith
length-distinct_of (x ∷ xs) = ground (arith, length-distinct_of xs)

-- A list that is as long as the set of its items has none of them twice.
pub distinct_of-IsDistinct : (xs : List ℕ) → length xs ≡ length (distinct_of xs) → IsDistinct xs
distinct_of-IsDistinct [] h = tt
distinct_of-IsDistinct (x ∷ xs) h = elim (Bool-cases (has x xs)) [
  | inl twice ↦ absurd (ground (arith, has-distinct_of x xs, length-distinct_of xs, h))
  | inr once ↦ (once, distinct_of-IsDistinct xs (ground (arith, has-distinct_of x xs, once, h)))
]

pub IsRow-either :
    (xs ys : List TaskDependency) (r : TaskDependency)
    → IsRow r (xs ++ ys)
    → IsRow r xs ⊎ IsRow r ys
IsRow-either [] ys r at = inr at
IsRow-either (x ∷ xs) ys r (inl at) = inl (inl at)
IsRow-either (x ∷ xs) ys r (inr at) = elim (IsRow-either xs ys r at) [
  | inl a ↦ inl (inr a)
  | inr b ↦ inr b
]

module _ (task_id : ℕ) (policy : String) where
  pub new_row-parts :
      (ids : List ℕ) (r : TaskDependency)
      → IsRow r (new_rows task_id policy ids)
      → (r.task_id ≡ task_id) × (has r.depends_on_task_id ids ≡ true) × (r.job_group_id ≡ none)
  new_row-parts [] r at = absurd at
  new_row-parts (id ∷ ids) r (inl at) = (
    ap (λ (x : TaskDependency). x.task_id) (sym at),
    ground (arith, ap (λ (x : TaskDependency). x.depends_on_task_id) at),
    ap (λ (x : TaskDependency). x.job_group_id) (sym at),
  )
  new_row-parts (id ∷ ids) r (inr at) =
      let (tail, head, alone) = new_row-parts ids r at in (tail, ground (arith, head), alone)

  pub has_edge-new :
      (ids : List ℕ) (rows : List TaskDependency) (v : ℕ)
      → has_edge task_id v (keys (new_rows task_id policy ids ++ rows))
        ≡ (has v ids || has_edge task_id v (keys rows))
  has_edge-new [] rows v = refl
  has_edge-new (id ∷ ids) rows v = ground (arith, has_edge-new ids rows v)

  pub new_rows-AreDistinct :
      (ids : List ℕ) (rows : List TaskDependency)
      → IsDistinct ids
      → ((v : ℕ) → has_edge task_id v (keys rows) ≡ false)
      → AreDistinct (keys rows)
      → AreDistinct (keys (new_rows task_id policy ids ++ rows))
  new_rows-AreDistinct [] rows d fresh old = old
  new_rows-AreDistinct (id ∷ ids) rows d fresh old = (
    ground (arith, has_edge-new ids rows id, d.0, fresh id),
    new_rows-AreDistinct ids rows d.1 fresh old,
  )
