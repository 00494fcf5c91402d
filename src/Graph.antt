-- ===== src/Graph.antt =====
-- pkg/structs/graph/graph.go: a graph of named nodes and its topological sort. Nodes are known by
-- `name`, as in the maps of the source; a name that `edges` lacks has the empty list.
pub mod Reach
pub mod Finished
mod Walks
mod Search
pub mod Build
pub mod Nodes
pub mod Sort
use framingo.Prelude.{
  ℕ, zero, suc, List, [], ◌∷◌, ◌++◌, Bool, true, false, Option, none, some, if◌then◌else◌, ite,
  length,
}
use framingo.Prelude.Int.{pos}
use framingo.Prelude.Sets.{KeySet, has, add, remove}
use framingo.Staque.Simple.{Simple, new_simple, push, size, must_pop, is_empty}

pub record Graph (K T : Type 0) : Type 0 where
  pub added : KeySet K
  pub nodes : List T
  pub edges : K → List T
  pub visited : KeySet K
  pub exists : KeySet K

pub data Conflict : Type 0 where
  contains_cycle : Conflict

unfoldable pub new_graph : {K T : Type 0} → Graph K T
new_graph = record { added = []; nodes = []; edges = λ k. []; visited = []; exists = [] }

-- What a search changes.
pub record Walk (K T : Type 0) : Type 0 where
  pub visited : KeySet K
  pub exists : KeySet K
  pub stack : Simple T

module _ {K T : Type 0} (dec : Discrete K) (name : T → K) where
  unfoldable pub add_node : Graph K T → T → Graph K T
  add_node g node =
      if has dec g.added (name node)
      then g
      else record g { added = add dec g.added (name node); nodes = g.nodes ++ node ∷ [] }

  -- g.edges[k] = append(g.edges[k], node)
  unfoldable pub append_edge : (K → List T) → K → T → K → List T
  append_edge edges k node j = ite (dec k j) (edges j ++ node ∷ []) (edges j)

  unfoldable pub add_dependencies : Graph K T → T → List T → Graph K T
  unfolding add_node append_edge
  add_dependencies g node [] = g
  add_dependencies g node (dep ∷ deps) =
      let g' = add_node g dep in
      add_dependencies (record g' { edges = append_edge g'.edges (name dep) node }) node deps

  unfoldable pub add_with : Graph K T → T → List T → Graph K T
  unfolding add_node add_dependencies
  add_with g node deps = add_dependencies (add_node g node) node deps

  unfoldable pub enter : T → Walk K T → Walk K T
  enter v s = record s { visited = add dec s.visited (name v); exists = add dec s.exists (name v) }

  unfoldable pub leave : T → Walk K T → Walk K T
  leave v s = record s { exists = remove dec s.exists (name v); stack = push s.stack (v ∷ []) }

  -- The loop over the neighbors in `dfs`: `true` means that a cycle was met.
  unfoldable pub scan :
      (T → Walk K T → Option (Bool × Walk K T)) → List T → Walk K T → Option (Bool × Walk K T)
  scan visit [] s = some (false, s)
  scan visit (y ∷ ys) s = elim (has dec s.visited (name y)) [
    | false ↦ elim (visit y s) [
      | none ↦ none
      | some (met, s') ↦ elim met [ true ↦ some (true, s') | false ↦ scan visit ys s' ]
    ]
    | true ↦ elim (has dec s.exists (name y)) [ true ↦ some (true, s) | false ↦ scan visit ys s ]
  ]

  -- `none` means that the fuel, a bound on the depth of the calls, ran out.
  unfoldable pub dfs : (K → List T) → ℕ → T → Walk K T → Option (Bool × Walk K T)
  unfolding enter leave scan
  dfs edges zero v s = none
  dfs edges (suc fuel) v s = elim (scan (dfs edges fuel) (edges (name v)) (enter v s)) [
    | none ↦ none
    | some (met, s') ↦ elim met [ true ↦ some (true, s') | false ↦ some (false, leave v s') ]
  ]

  -- The loop over the nodes in `TopoSort`.
  unfoldable pub search_from :
      (T → Walk K T → Option (Bool × Walk K T)) → List T → Walk K T → Option (Bool × Walk K T)
  search_from visit [] s = some (false, s)
  search_from visit (v ∷ vs) s = elim (has dec s.visited (name v)) [
    | false ↦ elim (visit v s) [
      | none ↦ none
      | some (met, s') ↦ elim met [ true ↦ some (true, s') | false ↦ search_from visit vs s' ]
    ]
    | true ↦ search_from visit vs s
  ]

  -- `for !stack.IsEmpty()`; the size of the stack bounds the rounds.
  unfoldable pub drain : T → ℕ → Simple T → List T
  drain zero_value zero s = []
  drain zero_value (suc fuel) s = elim (is_empty s) [
    | true ↦ []
    | false ↦ let (v, s') = must_pop zero_value s in v ∷ drain zero_value fuel s'
  ]

  unfoldable pub topo_sort : T → Graph K T → Option (Option Conflict × Graph K T)
  unfolding dfs search_from drain
  topo_sort zero_value g =
      let start : Walk K T = record {
        visited = [];
        exists = [];
        stack = new_simple (pos (length g.nodes));
      } in
      elim (search_from (dfs g.edges (length g.nodes)) g.nodes start) [
        | none ↦ none
        | some (met, s) ↦
            let g' = record g { visited = s.visited; exists = s.exists } in
            elim met [
              | true ↦ some (some contains_cycle, g')
              | false ↦ some (none, record g' { nodes = drain zero_value (size s.stack) s.stack })
            ]
      ]
