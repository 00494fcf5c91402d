-- ===== src/Graph/Sort.antt =====
-- `TopoSort` of pkg/structs/graph/graph.go.
use framingo.Prelude.{
  ℕ, ◌≡◌, refl, ap, ◌∙◌, ◌⊎◌, inl, inr, ◌↔◌, List, [], ◌∷◌, reverse, false, none, some, length,
  length-reverse, arith, ◌==◌,
}
use mathlib.Core.List.{reverse-cons}
use framingo.Prelude.Int.{pos}
use framingo.Prelude.Sets.{has}
use framingo.Staque.Simple.{new_simple, size, must_pop, is_empty}
use framingo.Staque.Simple.Order.{pop-snoc}
use framingo.Graph.Reach.{Among, Reach-first, HasCycle}
use framingo.Graph.Finished.{IsOrdered, not-Reach-IsOrdered, unseen-nil}
use framingo.Graph.Walks.{Inv}
use framingo.Graph.Search.{search_from-Result}
use framingo.Graph.{Graph, Walk, contains_cycle, drain, topo_sort}
use framingo.Graph.Build.{IsWellFormed}

module _ {K T : Type 0} (dec : Discrete K) (name : T → K) where
  drain_lem :
      (zero_value : T) (m : ℕ) (fs : List T)
      → drain dec name zero_value (length fs) (record { elements = reverse fs; max_size = m }) ≡ fs
  unfolding drain is_empty must_pop
  drain_lem zero_value m [] = refl
  drain_lem zero_value m (x ∷ fs) =
      let e : (length (reverse (x ∷ fs)) == 0) ≡ false = ground (arith, length-reverse (x ∷ fs)) in
      rw (e, drain)
        (rw (reverse-cons x fs)
          (rw (pop-snoc m (reverse fs) x, must_pop) (rw (drain_lem zero_value m fs))))

  start-Inv :
      (g : Graph K T)
      → Inv dec name g.edges g.nodes
          (record { visited = []; exists = []; stack = new_simple (pos (length g.nodes)) })
          []
  unfolding new_simple has
  start-Inv g = record {
    stacked = refl;
    limited = refl;
    ordered = tt;
    done_known = λ k m. absurd m;
    done_seen = λ k m. absurd m;
    open_seen = λ k m. m;
    open_or_done = λ k m. cc;
    open_not_done = λ k m d. d;
    room = omega (arith, unseen-nil dec name g.nodes);
  }

  drain-Inv :
      (zero_value : T) (g : Graph K T) (t : Walk K T) (gs : List T)
      → Inv dec name g.edges g.nodes t gs
      → drain dec name zero_value (size t.stack) t.stack ≡ gs
  unfolding size
  drain-Inv zero_value g t gs i =
      ap
        (λ es.
          drain dec name zero_value (length es)
            (record { elements = es; max_size = t.stack.max_size }))
        i.stacked
      ∙ rw (length-reverse gs) (drain_lem zero_value t.stack.max_size gs)

  no_cycle :
      (g : Graph K T) (gs : List T)
      → IsWellFormed dec name g
      → IsOrdered name g.edges gs
      → ((k : K) → Among name g.nodes k → Among name gs k)
      → ¬ HasCycle name g.edges
  no_cycle g gs w o all (a, r) =
      let (c, e) = Reach-first r in
      not-Reach-IsOrdered name g.edges gs a o (all a (w.sources_known a c e)) r

  -- On a well-formed graph TopoSort always ends. If the graph has a cycle, it fails and leaves
  -- nodes and edges alone. Otherwise it succeeds: the nodes have the names that they had, none
  -- twice, and every edge leads from a node to a later one.
  pub topo_sort-sorts :
      (zero_value : T) (g : Graph K T)
      → IsWellFormed dec name g
      → (h : Graph K T) × (h.edges ≡ g.edges)
        × (h.added ≡ g.added)
        × (((topo_sort dec name zero_value g ≡ some (none, h))
              × (¬ HasCycle name g.edges)
              × IsOrdered name g.edges h.nodes
              × ((k : K) → Among name g.nodes k ↔ Among name h.nodes k))
            ⊎ ((topo_sort dec name zero_value g ≡ some (some contains_cycle, h))
                × HasCycle name g.edges
                × (h.nodes ≡ g.nodes)))
  unfolding topo_sort size
  topo_sort-sorts zero_value g w =
      elim (search_from-Result dec name g.edges g.nodes w.targets_known (length g.nodes) g.nodes _
        [] (start-Inv g) (omega (arith, unseen-nil dec name g.nodes)) (λ k. unfold has in refl)
        (λ b m. m)) [
          | inl (t, gs, e, g', all) ↦ (
            record g { visited = t.visited; exists = t.exists; nodes = gs },
            refl,
            refl,
            inl (
              rw (e, topo_sort) (rw (drain-Inv zero_value g t gs g'.valid)),
              no_cycle g gs w g'.valid.ordered all,
              g'.valid.ordered,
              λ k. (all k, g'.valid.done_known k),
            ),
          )
          | inr (t, e, c) ↦ (
            record g { visited = t.visited; exists = t.exists },
            refl,
            refl,
            inr (rw (e, topo_sort), c, refl),
          )
        ]
