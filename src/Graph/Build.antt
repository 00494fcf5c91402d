-- ===== src/Graph/Build.antt =====
-- `Add` of pkg/structs/graph/graph.go.
use framingo.Prelude.{
  ◌≡◌, refl, sym, subst, ◌⊎◌, inl, inr, ◌↔◌, List, [], ◌∷◌, true, arith, Bool-cases, if_pos, if_neg,
}
use framingo.Prelude.Sets.{has, has-add}
use framingo.Graph.Reach.{Among, Among-append, Among-append_right, Among-append_cases}
use framingo.Graph.{Graph, new_graph, add_node, append_edge, add_dependencies, add_with}

module _ {K T : Type 0} (dec : Discrete K) (name : T → K) where
  -- The names in `added` are those of the nodes, and edges join nodes.
  pub record IsWellFormed (g : Graph K T) : Type 0 where
    pub added_known : (k : K) → has dec g.added k ≡ true → Among name g.nodes k
    pub sources_known : (a b : K) → Among name (g.edges a) b → Among name g.nodes a
    pub targets_known : (a b : K) → Among name (g.edges a) b → Among name g.nodes b

  add_node-nodes :
      (g : Graph K T) (x : T) (k : K)
      → Among name g.nodes k
      → Among name (add_node dec name g x).nodes k
  unfolding add_node
  add_node-nodes g x k m = elim (Bool-cases (has dec g.added (name x))) [
    | inl old ↦ rw (old, add_node) m
    | inr new ↦ rw (new, add_node) (Among-append name g.nodes (x ∷ []) k m)
  ]

  add_node_self :
      (g : Graph K T) (x : T) → IsWellFormed g → Among name (add_node dec name g x).nodes (name x)
  unfolding add_node
  add_node_self g x w = elim (Bool-cases (has dec g.added (name x))) [
    | inl old ↦ rw (old, add_node) (w.added_known (name x) old)
    | inr new ↦ rw (new, add_node) (Among-append_right name g.nodes (x ∷ []) (name x) (inl refl))
  ]

  edges-add_node : (g : Graph K T) (x : T) → (add_node dec name g x).edges ≡ g.edges
  unfolding add_node
  edges-add_node g x = ground arith

  add_node-IsWellFormed :
      (g : Graph K T) (x : T) → IsWellFormed g → IsWellFormed (add_node dec name g x)
  unfolding add_node
  add_node-IsWellFormed g x w = elim (Bool-cases (has dec g.added (name x))) [
    | inl old ↦ rw (old, add_node) w
    | inr new ↦
        rw (new, add_node)
          (record {
            added_known = λ k m. elim (dec (name x) k) [
              | yes same ↦ Among-append_right name g.nodes (x ∷ []) k (inl same)
              | no other ↦
                  Among-append name g.nodes (x ∷ []) k
                    (w.added_known k (ground (arith, m, other, has-add dec g.added (name x) k)))
            ];
            sources_known = λ a b e. Among-append name g.nodes (x ∷ []) a (w.sources_known a b e);
            targets_known = λ a b e. Among-append name g.nodes (x ∷ []) b (w.targets_known a b e);
          })
  ]

  append_edge-cases :
      (edges : K → List T) (k : K) (x : T) (a b : K)
      → Among name (append_edge dec name edges k x a) b
      → Among name (edges a) b ⊎ ((k ≡ a) × (name x ≡ b))
  unfolding append_edge
  append_edge-cases edges k x a b m = elim (dec k a) [
    | yes same ↦ elim (Among-append_cases name (edges a) (x ∷ []) b (rw (if_pos _ same) at m)) [
      | inl l ↦ inl l
      | inr (inl e) ↦ inr (same, e)
      | inr (inr n) ↦ absurd n
    ]
    | no other ↦ inl (rw (if_neg _ other) at m)
  ]

  append_edge-keeps :
      (edges : K → List T) (k : K) (x : T) (a b : K)
      → Among name (edges a) b
      → Among name (append_edge dec name edges k x a) b
  unfolding append_edge
  append_edge-keeps edges k x a b m = elim (dec k a) [
    | yes same ↦ rw (if_pos _ same) (Among-append name (edges a) (x ∷ []) b m)
    | no other ↦ rw (if_neg _ other) m
  ]

  append_edge-new :
      (edges : K → List T) (k : K) (x : T) (a b : K)
      → k ≡ a
      → name x ≡ b
      → Among name (append_edge dec name edges k x a) b
  unfolding append_edge
  append_edge-new edges k x a b same e = elim (dec k a) [
    | yes p ↦ rw (if_pos _ p) (Among-append_right name (edges a) (x ∷ []) b (inl e))
    | no other ↦ absurd (other same)
  ]

  add_dependencies-IsWellFormed :
      (g : Graph K T) (x : T) (deps : List T)
      → IsWellFormed g
      → Among name g.nodes (name x)
      → IsWellFormed (add_dependencies dec name g x deps)
  unfolding add_dependencies
  add_dependencies-IsWellFormed g x [] w m = w
  add_dependencies-IsWellFormed g x (dep ∷ deps) w m =
      let g' : Graph K T = add_node dec name g dep in
      let w' : IsWellFormed g' = add_node-IsWellFormed g dep w in
      add_dependencies-IsWellFormed
        (record g' { edges = append_edge dec name g'.edges (name dep) x }) x deps
        (record {
          added_known = w'.added_known;
          sources_known = λ a b e. elim (append_edge-cases g'.edges (name dep) x a b e) [
            | inl old ↦ w'.sources_known a b old
            | inr (same, _) ↦ subst (Among name g'.nodes) same (add_node_self g dep w)
          ];
          targets_known = λ a b e. elim (append_edge-cases g'.edges (name dep) x a b e) [
            | inl old ↦ w'.targets_known a b old
            | inr (_, same) ↦ subst (Among name g'.nodes) same (add_node-nodes g dep (name x) m)
          ];
        })
        (add_node-nodes g dep (name x) m)

  -- The calls of `Add` that build a graph.
  unfoldable pub build : Graph K T → List (T × List T) → Graph K T
  build g [] = g
  build g ((x, deps) ∷ rest) = build (add_with dec name g x deps) rest

  -- Every sequence of calls of Add keeps a graph well formed: its set of added names is covered by
  -- the nodes, and each edge joins two nodes.
  pub build-IsWellFormed :
      (g : Graph K T) (calls : List (T × List T)) → IsWellFormed g → IsWellFormed (build g calls)
  unfolding build add_with
  build-IsWellFormed g [] w = w
  build-IsWellFormed g ((x, deps) ∷ rest) w = build-IsWellFormed (add_with dec name g x deps) rest (
      add_dependencies-IsWellFormed (add_node dec name g x) x deps (add_node-IsWellFormed g x w)
        (add_node_self g x w))

  pub new_graph-IsWellFormed : IsWellFormed (new_graph {K = K} {T = T})
  unfolding new_graph has
  new_graph-IsWellFormed = record {
    added_known = λ k m. cc;
    sources_known = λ a b m. m;
    targets_known = λ a b m. absurd m;
  }

  edges-append_edge :
      (g : Graph K T) (x dep : T) (deps : List T) (a b : K)
      → Among name (append_edge dec name (add_node dec name g dep).edges (name dep) x a) b
        ⊎ (Among name deps a × (name x ≡ b))
      → Among name (g.edges a) b ⊎ (Among name (dep ∷ deps) a × (name x ≡ b))
  edges-append_edge g x dep deps a b (inr (d, e)) = inr (inr d, e)
  edges-append_edge g x dep deps a b (inl m) =
      elim (append_edge-cases (add_node dec name g dep).edges (name dep) x a b m) [
        | inl old ↦ inl (subst (λ f. Among name (f a) b) (edges-add_node g dep) old)
        | inr (same, e) ↦ inr (inl same, e)
      ]

  append_edge-edges :
      (g : Graph K T) (x dep : T) (deps : List T) (a b : K)
      → Among name (g.edges a) b ⊎ (Among name (dep ∷ deps) a × (name x ≡ b))
      → Among name (append_edge dec name (add_node dec name g dep).edges (name dep) x a) b
        ⊎ (Among name deps a × (name x ≡ b))
  append_edge-edges g x dep deps a b (inl old) = inl (
      append_edge-keeps (add_node dec name g dep).edges (name dep) x a b
        (subst (λ f. Among name (f a) b) (sym (edges-add_node g dep)) old))
  append_edge-edges g x dep deps a b (inr (inl same, e)) =
      inl (append_edge-new (add_node dec name g dep).edges (name dep) x a b same e)
  append_edge-edges g x dep deps a b (inr (inr d, e)) = inr (d, e)

  edges-add_dependencies :
      (g : Graph K T) (x : T) (deps : List T) (a b : K)
      → Among name ((add_dependencies dec name g x deps).edges a) b
        ↔ (Among name (g.edges a) b ⊎ (Among name deps a × (name x ≡ b)))
  unfolding add_dependencies
  edges-add_dependencies g x [] a b = (λ m. inl m, λ m. elim m [ inl l ↦ l | inr r ↦ absurd r.0 ])
  edges-add_dependencies g x (dep ∷ deps) a b =
      let g' : Graph K T = add_node dec name g dep in
      let rest =
        edges-add_dependencies (record g' { edges = append_edge dec name g'.edges (name dep) x }) x
          deps a b in
      (
        λ m. edges-append_edge g x dep deps a b (rest.0 m),
        λ m. rest.1 (append_edge-edges g x dep deps a b m),
      )

  -- Add draws an edge from each of the dependencies to the node, and no other.
  pub edges-add_with :
      (g : Graph K T) (x : T) (deps : List T) (a b : K)
      → Among name ((add_with dec name g x deps).edges a) b
        ↔ (Among name (g.edges a) b ⊎ (Among name deps a × (name x ≡ b)))
  unfolding add_with
  edges-add_with g x deps a b =
      subst
        (λ f.
          Among name ((add_dependencies dec name (add_node dec name g x) x deps).edges a) b
          ↔ (Among name (f a) b ⊎ (Among name deps a × (name x ≡ b))))
        (edges-add_node g x) (edges-add_dependencies (add_node dec name g x) x deps a b)
