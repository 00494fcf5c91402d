-- ===== src/Graph/Nodes.antt =====
-- The nodes of a graph after `Add` of pkg/structs/graph/graph.go.
use framingo.Prelude.{◌≡◌, ◌⊎◌, inl, inr, List, [], ◌∷◌, Bool-cases}
use framingo.Prelude.Sets.{has}
use framingo.Graph.Reach.{Among, Among-append_cases}
use framingo.Graph.Build.{IsWellFormed, build, build-IsWellFormed, edges-add_with}
use framingo.Graph.{Graph, add_node, append_edge, add_dependencies, add_with}

module _ {K T : Type 0} (dec : Discrete K) (name : T → K) where
  nodes-add_node_cases :
      (g : Graph K T) (x : T) (k : K)
      → Among name (add_node dec name g x).nodes k
      → Among name g.nodes k ⊎ (name x ≡ k)
  unfolding add_node
  nodes-add_node_cases g x k m = elim (Bool-cases (has dec g.added (name x))) [
    | inl old ↦ inl (rw (old, add_node) at m)
    | inr new ↦ elim (Among-append_cases name g.nodes (x ∷ []) k (rw (new, add_node) at m)) [
      | inl l ↦ inl l
      | inr (inl e) ↦ inr e
      | inr (inr n) ↦ absurd n
    ]
  ]

  nodes-add_dependencies_cases :
      (g : Graph K T) (x : T) (deps : List T) (k : K)
      → Among name (add_dependencies dec name g x deps).nodes k
      → Among name g.nodes k ⊎ Among name deps k
  unfolding add_dependencies
  nodes-add_dependencies_cases g x [] k m = inl m
  nodes-add_dependencies_cases g x (dep ∷ deps) k m =
      let g' : Graph K T = add_node dec name g dep in
      elim (nodes-add_dependencies_cases
        (record g' { edges = append_edge dec name g'.edges (name dep) x }) x deps k m) [
          | inr d ↦ inr (inr d)
          | inl l ↦ elim (nodes-add_node_cases g dep k l) [
            | inl old ↦ inl old
            | inr e ↦ inr (inl e)
          ]
        ]

  -- `Add` adds no node but the given one and its dependencies.
  pub nodes-add_with_cases :
      (g : Graph K T) (x : T) (deps : List T) (k : K)
      → Among name (add_with dec name g x deps).nodes k
      → Among name g.nodes k ⊎ ((name x ≡ k) ⊎ Among name deps k)
  unfolding add_with
  nodes-add_with_cases g x deps k m =
      elim (nodes-add_dependencies_cases (add_node dec name g x) x deps k m) [
        | inr d ↦ inr (inr d)
        | inl l ↦ elim (nodes-add_node_cases g x k l) [ inl old ↦ inl old | inr e ↦ inr (inl e) ]
      ]

  pub add_with-IsWellFormed :
      (g : Graph K T) (x : T) (deps : List T)
      → IsWellFormed dec name g
      → IsWellFormed dec name (add_with dec name g x deps)
  unfolding build
  add_with-IsWellFormed g x deps w = build-IsWellFormed dec name g ((x, deps) ∷ []) w

  -- An edge stays when `Add` is called.
  pub edges-add_with_keeps :
      (g : Graph K T) (x : T) (deps : List T) (a b : K)
      → Among name (g.edges a) b
      → Among name ((add_with dec name g x deps).edges a) b
  edges-add_with_keeps g x deps a b m = (edges-add_with dec name g x deps a b).1 (inl m)
