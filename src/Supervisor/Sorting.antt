-- ===== src/Supervisor/Sorting.antt =====
-- `TopoSort` of pkg/services/supervisor after `Register`.
use framingo.Prelude.{
  ◌≡◌, refl, sym, subst, ap, ◌∙◌, ◌⊎◌, inl, inr, ◌↔◌, List, [], ◌∷◌, Option, none, some,
  Option-cases,
}
use framingo.Prelude.Sets.{has}
use framingo.Graph.{Graph, new_graph, contains_cycle}
use framingo.Graph.Reach.{Among, HasCycle}
use framingo.Graph.Build.{IsWellFormed, new_graph-IsWellFormed}
use framingo.Graph.Finished.{IsOrdered}
use framingo.Graph.Sort.{topo_sort-sorts}
use framingo.Supervisor.{
  Env, Controller, new_controller, itself, register, add_dependency, append_late, note_service,
  sort_services,
}
use framingo.Supervisor.Batches.{add_dependencies, register_all}
use framingo.Supervisor.Registry.{IsConsistent}
use framingo.Supervisor.Order.{
  Holds, Before, Before-IsOrdered, register_all-IsConsistent, register_all-edges,
}

module _ {N E : Type 0} (env : Env N E) where
  pub new_controller-IsConsistent : IsConsistent env (new_controller {N = N} {E = E})
  unfolding new_graph
  new_controller-IsConsistent = record {
    graph_valid = new_graph-IsWellFormed env.dec itself;
    nodes_known = λ n m. absurd m;
    services_known = λ n m. absurd m;
  }

  -- The sorted services: those of the graph, each behind the services that have an edge to it.
  pub record IsSorted (c c' : Controller N E) : Type 0 where
    pub same_services : (n : N) → Among itself c.graph.nodes n ↔ Among itself c'.services n
    pub in_order : (d n : N) → Among itself (c.graph.edges d) n → Before c'.services d n
    pub consistent : IsConsistent env c'
    pub acyclic : ¬ HasCycle itself c.graph.edges
    pub ordered : IsOrdered itself c.graph.edges c'.services

  -- The sorted graph is well formed if the graph is.
  sorted_graph :
      (g h : Graph N N)
      → h.edges ≡ g.edges
      → h.added ≡ g.added
      → ((k : N) → Among itself g.nodes k ↔ Among itself h.nodes k)
      → IsWellFormed env.dec itself g
      → IsWellFormed env.dec itself h
  sorted_graph g h edges added same w = record {
    added_known = λ k m. (same k).0 (w.added_known k (ap (λ s. has env.dec s k) (sym added) ∙ m));
    sources_known =
        λ a b m. (same a).0 (w.sources_known a b (subst (λ f. Among itself (f a) b) edges m));
    targets_known =
        λ a b m. (same b).0 (w.targets_known a b (subst (λ f. Among itself (f a) b) edges m));
  }

  -- Before the first sort, registration leaves the list of the sorted services empty.
  services-register :
      (c : Controller N E) (n : N) → c.services ≡ [] → (register env c n).services ≡ []
  unfolding register
  services-register c n h = elim (Option-cases (c.stats n)) [
    | inl p ↦ ap (λ o. (note_service env c n o).services) p ∙ ap (λ ss. append_late env ss n) h
    | inr (s, p) ↦ ap (λ o. (note_service env c n o).services) p ∙ h
  ]

  services-add_dependencies :
      (c : Controller N E) (n : N) (deps : List (Option N))
      → c.services ≡ []
      → (add_dependencies env c n deps).services ≡ []
  unfolding add_dependencies add_dependency
  services-add_dependencies c n [] h = h
  services-add_dependencies c n (none ∷ deps) h = services-add_dependencies c n deps h
  services-add_dependencies c n (some d ∷ deps) h =
      services-add_dependencies (add_dependency env c n d) n deps (services-register c d h)

  services-register_all :
      (c : Controller N E) (services : List (Option N))
      → c.services ≡ []
      → (register_all env c services).services ≡ []
  unfolding register_all
  services-register_all c [] h = h
  services-register_all c (none ∷ services) h = services-register_all c services h
  services-register_all c (some n ∷ services) h =
      services-register_all (add_dependencies env (register env c n) n (env.service n).dependencies)
        services
        (services-add_dependencies (register env c n) n (env.service n).dependencies
          (services-register c n h))

  sort_services-sorts :
      (zero_value : N) (c : Controller N E)
      → IsConsistent env c
      → (c' : Controller N E) × (((sort_services env zero_value c ≡ some (none, c'))
            × IsSorted c c')
          ⊎ ((sort_services env zero_value c ≡ some (some contains_cycle, c'))
              × HasCycle itself c.graph.edges
              × (c'.services ≡ c.services)))
  unfolding sort_services
  sort_services-sorts zero_value c s =
      let (h, edges, added, result) =
        topo_sort-sorts env.dec itself zero_value c.graph s.graph_valid in
      elim result [
        | inl (e, acyclic, ordered, same) ↦ (
          record c { graph = h; services = h.nodes },
          inl (
            rw (e, sort_services) refl,
            record {
              same_services = same;
              in_order = λ d n m.
                  Before-IsOrdered c.graph.edges h.nodes d n ordered
                    ((same d).0 (s.graph_valid.sources_known d n m)) m;
              consistent = record {
                graph_valid = sorted_graph c.graph h edges added same s.graph_valid;
                nodes_known = λ n m. s.nodes_known n ((same n).1 m);
                services_known = λ n m. s.nodes_known n ((same n).1 m);
              };
              acyclic = acyclic;
              ordered = ordered;
            },
          ),
        )
        | inr (e, cycle, same) ↦
            (record c { graph = h }, inr (rw (e, sort_services) refl, cycle, refl))
      ]

  -- After any registrations, TopoSort ends. If the graph of the dependencies has a cycle, it fails
  -- and sorts nothing. Otherwise there is no cycle, no service stands twice in the list of
  -- services, each registered service stands behind each of its dependencies in it, and every
  -- service of the list has statistics.
  pub sort_services-register_all :
      (zero_value : N) (services : List (Option N))
      → (c' : Controller N E) × (((sort_services env zero_value
                (register_all env new_controller services)
              ≡ some (none, c'))
            × (¬ HasCycle itself (register_all env (new_controller {E = E}) services).graph.edges)
            × IsConsistent env c'
            × IsOrdered itself
                (register_all env (new_controller {E = E}) services).graph.edges
                c'.services
            × ((n d : N)
                → Holds services n
                → Holds (env.service n).dependencies d
                → Before c'.services d n))
          ⊎ ((sort_services env zero_value (register_all env new_controller services)
                ≡ some (some contains_cycle, c'))
              × HasCycle itself (register_all env (new_controller {E = E}) services).graph.edges
              × (c'.services ≡ [])))
  sort_services-register_all zero_value services =
      let c = register_all env new_controller services in
      let (c', result) =
        sort_services-sorts zero_value c
          (register_all-IsConsistent env new_controller services new_controller-IsConsistent) in
      (
        c',
        elim result [
          | inl (e, s) ↦ inl (
            e,
            s.acyclic,
            s.consistent,
            s.ordered,
            λ n d h k. s.in_order d n (register_all-edges env new_controller services n d h k),
          )
          | inr (e, cycle, same) ↦
              inr (e, cycle, same ∙ services-register_all new_controller services refl)
        ],
      )
