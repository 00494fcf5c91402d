-- ===== src/Tests/Structs.antt =====
-- pkg/structs at concrete inputs.
use framingo.Prelude.{ℕ, ◌≡◌, refl, ◌⊎◌, ◌↔◌, List, [], ◌∷◌, Option, none, some, ℕ_discrete}
use framingo.Prelude.Int.{pos}
use framingo.Prelude.Sets.{has, add, remove}
use framingo.Staque.Simple.{Simple, new_simple, push, pop, must_pop, is_empty, size}
use framingo.Staque.Simple.Bounds.{Call, pushes, pops, shifts_n}
use framingo.Graph.{
  Graph, Conflict, contains_cycle, new_graph, add_with, topo_sort, dfs, scan, search_from,
}
use framingo.Graph.Reach.{Among, HasCycle}
use framingo.Graph.Finished.{IsOrdered}
use framingo.Graph.Build.{IsWellFormed, build, build-IsWellFormed, new_graph-IsWellFormed}
use framingo.Graph.Sort.{topo_sort-sorts}

abbrev three : Simple ℕ
three = record { elements = 1 ∷ 2 ∷ 3 ∷ []; max_size = 3 }

push_cut : (push three (4 ∷ 5 ∷ [])).elements ≡ 3 ∷ 4 ∷ 5 ∷ []
unfolding push
push_cut = refl

abbrev calls : List (Call ℕ)
calls = pushes (1 ∷ 2 ∷ 3 ∷ []) ∷ pops ∷ pushes (4 ∷ 5 ∷ []) ∷ shifts_n (pos 1) ∷ []

abbrev two : Simple ℕ
two = record { elements = 1 ∷ 2 ∷ []; max_size = 3 }

-- A number is its own name.
abbrev own : ℕ → ℕ
own n = n

abbrev shown : Option (Option Conflict × Graph ℕ ℕ) → Option (Option Conflict × List ℕ)
shown none = none
shown (some (e, g)) = some (e, g.nodes)

-- 3 depends on 1 and 2, and 2 on 1.
abbrev adds : List (ℕ × List ℕ)
adds = (3, 2 ∷ 1 ∷ []) ∷ (2, 1 ∷ []) ∷ []

abbrev graph : Graph ℕ ℕ
graph = build ℕ_discrete own new_graph adds

abbrev looped : Graph ℕ ℕ
looped = build ℕ_discrete own new_graph ((1, 2 ∷ []) ∷ (2, 1 ∷ []) ∷ [])

graph_sorted : shown (topo_sort ℕ_discrete own 0 graph) ≡ some (none, 1 ∷ 2 ∷ 3 ∷ [])
unfolding topo_sort build add_with new_graph has add remove push size pop must_pop is_empty
    new_simple ℕ_discrete dfs search_from scan
graph_sorted = refl

looped_refused : shown (topo_sort ℕ_discrete own 0 looped) ≡ some (some contains_cycle, 1 ∷ 2 ∷ [])
unfolding topo_sort build add_with new_graph has add remove push size pop must_pop is_empty
    new_simple ℕ_discrete dfs search_from scan
looped_refused = refl

build-IsWellFormed_example : IsWellFormed ℕ_discrete own graph
build-IsWellFormed_example =
    build-IsWellFormed ℕ_discrete own new_graph adds (new_graph-IsWellFormed ℕ_discrete own)

topo_sort-sorts_example :
    (h : Graph ℕ ℕ) × (h.edges ≡ graph.edges)
    × (h.added ≡ graph.added)
    × (((topo_sort ℕ_discrete own 0 graph ≡ some (none, h))
          × (¬ HasCycle own graph.edges)
          × IsOrdered own graph.edges h.nodes
          × ((k : ℕ) → Among own graph.nodes k ↔ Among own h.nodes k))
        ⊎ ((topo_sort ℕ_discrete own 0 graph ≡ some (some contains_cycle, h))
            × HasCycle own graph.edges
            × (h.nodes ≡ graph.nodes)))
topo_sort-sorts_example = topo_sort-sorts ℕ_discrete own 0 graph build-IsWellFormed_example
