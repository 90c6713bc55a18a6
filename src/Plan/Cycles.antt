-- ===== src/Plan/Cycles.antt =====
-- The search for cycles in `_check_task_ids_and_dependencies` of loop/plan.py: a depth-first search
-- with an explicit stack of iterators. A round takes one dependency from the iterator on top, or
-- pops an iterator that is at its end; the loop takes fuel, and `none` is that it ran out.
pub mod Ends
pub mod Order
pub mod Walks
use loop_engineer.Common.{
  ℕ, zero, suc, ◌+◌, String, Bool, true, false, not, Option, none, some, List, [], ◌∷◌, ◌++◌, ◌==◌,
  is_empty, if◌then◌else◌, length,
}
use loop_engineer.Common.Texts.{contains}
use loop_engineer.Json.{Fields}
use loop_engineer.Plan.{task_ids, edges_at, or_no_edges}

pub data Color : Type 0 where
  white gray black : Color

-- `cyclic` is a set in the code, here the list of its insertions.
pub record Search : Type 0 where
  pub color : String → Color
  pub stack : List (String × List String)
  pub cyclic : List String

-- `color[x] = c`
abbrev pub paint : String → Color → (String → Color) → String → Color
paint x c color y = if y == x then c else color y

abbrev pub is_white : Color → Bool
is_white white = true
is_white c = false

module _ (known : List String) (edges : String → List String) where
  -- A known dependency of the node on top, by its color.
  unfoldable pub meet :
      Color → String → String → List String → List (String × List String) → Search → Search
  meet white node dep deps rest s = record s {
    color = paint dep gray s.color;
    stack = (dep, edges dep) ∷ (node, deps) ∷ rest;
  }
  meet gray node dep deps rest s = record s {
    stack = (node, deps) ∷ rest;
    cyclic = node ∷ dep ∷ s.cyclic;
  }
  meet black node dep deps rest s = record s { stack = (node, deps) ∷ rest }

  -- One round, with the stack taken apart.
  unfoldable pub round : List (String × List String) → Search → Search
  unfolding meet
  round [] s = s
  round ((node, []) ∷ rest) s = record s { color = paint node black s.color; stack = rest }
  round ((node, dep ∷ deps) ∷ rest) s =
      if contains known dep
      then meet (s.color dep) node dep deps rest s
      else record s { stack = (node, deps) ∷ rest }

  -- `while stack`
  unfoldable pub run : ℕ → Search → Option Search
  unfolding round
  run zero s = if is_empty s.stack then some s else none
  run (suc fuel) s =
      let rest = run fuel (round s.stack s) in if is_empty s.stack then some s else rest

  abbrev pub opened : String → Search → Search
  opened start s = record s { color = paint start gray s.color; stack = (start, edges start) ∷ [] }

  -- `for start in ids`
  unfoldable pub from_all : ℕ → List String → Search → Option Search
  unfolding run
  from_all fuel [] s = some s
  from_all fuel (start ∷ starts) s =
      if is_white (s.color start)
      then (elim (run fuel (opened start s)) [ none ↦ none | some s' ↦ from_all fuel starts s' ])
      else from_all fuel starts s

abbrev pub fresh : Search
fresh = record { color = λ x. white; stack = []; cyclic = [] }

-- One round for each node and each edge.
abbrev pub total_work : (String → List String) → List String → ℕ
total_work edges [] = 0
total_work edges (x ∷ xs) = suc (length (edges x)) + total_work edges xs

abbrev pub edges_in : List Fields → String → List String
edges_in tasks id = or_no_edges (edges_at id tasks)

-- The nodes that the search names, for a list of tasks.
unfoldable pub cyclic_nodes : List Fields → Option (List String)
unfolding from_all
cyclic_nodes tasks =
    let ids = task_ids tasks in
    elim (from_all ids (edges_in tasks) (total_work (edges_in tasks) ids) ids fresh) [
      | none ↦ none
      | some s ↦ some s.cyclic
    ]
