-- ===== src/Repositories/Dag/Cycle.antt =====
-- repositories/dag.py: `_contains_cycle`. A `dict` is a function from its keys, which are listed with
-- the latest first; so `roots`, a list from whose end is popped, has its last item first. The edges are
-- a set, which the source goes through in an order of its own: here the last edge comes first.
pub mod Build
pub mod Drain
pub mod Invariant
pub mod Walks
pub mod Decides
use mini_ai_cloud.Prelude.{
  ℕ, zero, suc, ◌+◌, ◌-◌, Bool, true, false, not, ◌&&◌, ◌||◌, Option, none, some, List, [], ◌∷◌,
  any, keep, length, ◌==◌, if◌then◌else◌,
}
use mathlib.Core.Option
use mini_ai_cloud.Prelude.Sets.{add_new}

-- A task, and a task on which it depends.
abbrev pub Edge : Type 0
Edge = ℕ × ℕ

pub record Degrees : Type 0 where
  pub graph : ℕ → List ℕ
  pub keys : List ℕ
  pub indegree : ℕ → ℕ

unfoldable pub add_edge : Edge → Degrees → Degrees
add_edge (task_id, dependency_id) b = record {
  graph = λ i. if i == task_id then add_new dependency_id (b.graph i) else b.graph i;
  keys = add_new dependency_id (add_new task_id b.keys);
  indegree = λ i. if i == dependency_id then b.indegree i + 1 else b.indegree i;
}

unfoldable pub build : List Edge → Degrees
unfolding add_edge
build [] = record { graph = λ i. []; keys = []; indegree = λ i. 0 }
build (e ∷ edges) = add_edge e (build edges)

-- The roots and the numbers of dependants that are left.
abbrev pub Left : Type 0
Left = List ℕ × (ℕ → ℕ)

-- `indegree[neighbor] -= 1`. The number is not 0 then: it counts the edges whose task is not visited,
-- of which one is that by which the neighbour is reached.
abbrev pub decrement : ℕ → (ℕ → ℕ) → ℕ → ℕ
decrement neighbor indegree i = if i == neighbor then indegree i - 1 else indegree i

unfoldable pub visit : List ℕ → List ℕ → (ℕ → ℕ) → Left
visit [] roots indegree = (roots, indegree)
visit (neighbor ∷ neighbors) roots indegree =
    let less = decrement neighbor indegree in
    visit neighbors (if less neighbor == 0 then neighbor ∷ roots else roots) less

-- The number of visited nodes; `none` where the fuel runs out.
unfoldable pub drain : ℕ → (ℕ → List ℕ) → List ℕ → (ℕ → ℕ) → ℕ → Option ℕ
unfolding visit
drain fuel graph [] indegree visited = some visited
drain zero graph (node ∷ roots) indegree visited = none
drain (suc fuel) graph (node ∷ roots) indegree visited =
    let (more, less) = visit (graph node) roots indegree in drain fuel graph more less (visited + 1)

-- As many nodes are visited as there are keys at most, which is the fuel.
unfoldable pub contains_cycle : List Edge → Option Bool
unfolding build drain
contains_cycle edges =
    let b = build edges in
    Option.map (λ visited. not (visited == length b.keys))
      (drain (length b.keys) b.graph (keep (λ n. b.indegree n == 0) b.keys) b.indegree 0)
