-- ===== src/Supervisor/Order.antt =====
-- The order in which the services of pkg/services/supervisor stand after `Register` and `TopoSort`.
use framingo.Prelude.{◌≡◌, refl, sym, subst, ◌⊎◌, inl, inr, List, [], ◌∷◌, Option, none, some}
use framingo.Graph.{Graph}
use framingo.Graph.Reach.{Among}
use framingo.Graph.Finished.{IsOrdered}
use framingo.Graph.Build.{edges-add_with}
use framingo.Graph.Nodes.{edges-add_with_keeps}
use framingo.Supervisor.{Env, Controller, itself, register, add_dependency}
use framingo.Supervisor.Batches.{add_dependencies, register_all}
use framingo.Supervisor.Registry.{
  HasStats, IsConsistent, register-IsConsistent, register-HasStats, graph-register,
  add_dependency-IsConsistent,
}

-- The name stands in the list.
abbrev pub Holds : {N : Type 0} → List (Option N) → N → Type 0
Holds [] n = ⊥
Holds (none ∷ os) n = Holds os n
Holds (some m ∷ os) n = (m ≡ n) ⊎ Holds os n

-- The first name stands in the list, and the second behind it.
abbrev pub Before : {N : Type 0} → List N → N → N → Type 0
Before [] d n = ⊥
Before (x ∷ xs) d n = ((x ≡ d) × Among itself xs n) ⊎ Before xs d n

pub Before-IsOrdered :
    {N : Type 0} (edges : N → List N) (xs : List N) (d n : N)
    → IsOrdered itself edges xs
    → Among itself xs d
    → Among itself (edges d) n
    → Before xs d n
Before-IsOrdered edges [] d n o m e = m
Before-IsOrdered edges (x ∷ xs) d n o (inl same) e =
    inl (same, o.1 n (subst (λ k. Among itself (edges k) n) (sym same) e))
Before-IsOrdered edges (x ∷ xs) d n o (inr m) e = inr (Before-IsOrdered edges xs d n o.2 m e)

module _ {N E : Type 0} where
  -- What further registrations keep of a controller.
  pub record Extends (c c' : Controller N E) : Type 0 where
    pub stats_kept : (n : N) → HasStats c.stats n → HasStats c'.stats n
    pub edges_kept :
        (d n : N) → Among itself (c.graph.edges d) n → Among itself (c'.graph.edges d) n

  Extends-trans : (a b c : Controller N E) → Extends a b → Extends b c → Extends a c
  Extends-trans a b c p q = record {
    stats_kept = λ n h. q.stats_kept n (p.stats_kept n h);
    edges_kept = λ d n m. q.edges_kept d n (p.edges_kept d n m);
  }

  Extends-refl : (c : Controller N E) → Extends c c
  Extends-refl c = record { stats_kept = λ n h. h; edges_kept = λ d n m. m }

module _ {N E : Type 0} (env : Env N E) where
  register-Extends : (c : Controller N E) (n : N) → Extends c (register env c n)
  register-Extends c n = record {
    stats_kept = λ k h. register-HasStats env c n k (inl h);
    edges_kept = λ a b m.
        subst (λ (g : Graph N N). Among itself (g.edges a) b) (sym (graph-register env c n))
          (edges-add_with_keeps env.dec itself c.graph n [] a b m);
  }

  add_dependency-Extends : (c : Controller N E) (n d : N) → Extends c (add_dependency env c n d)
  unfolding add_dependency
  add_dependency-Extends c n d =
      let r = register-Extends c d in
      record {
        stats_kept = r.stats_kept;
        edges_kept = λ a b m.
            edges-add_with_keeps env.dec itself (register env c d).graph n (d ∷ []) a b
              (r.edges_kept a b m);
      }

  add_dependency-edge :
      (c : Controller N E) (n d k : N)
      → d ≡ k
      → Among itself ((add_dependency env c n d).graph.edges k) n
  unfolding add_dependency
  add_dependency-edge c n d k same =
      (edges-add_with env.dec itself (register env c d).graph n (d ∷ []) k n).1
        (inr (inl same, refl))

  add_dependencies-Extends :
      (c : Controller N E) (n : N) (deps : List (Option N))
      → Extends c (add_dependencies env c n deps)
  unfolding add_dependencies
  add_dependencies-Extends c n [] = Extends-refl c
  add_dependencies-Extends c n (none ∷ deps) = add_dependencies-Extends c n deps
  add_dependencies-Extends c n (some d ∷ deps) =
      Extends-trans c (add_dependency env c n d)
        (add_dependencies env (add_dependency env c n d) n deps) (add_dependency-Extends c n d)
        (add_dependencies-Extends (add_dependency env c n d) n deps)

  add_dependencies-IsConsistent :
      (c : Controller N E) (n : N) (deps : List (Option N))
      → HasStats c.stats n
      → IsConsistent env c
      → IsConsistent env (add_dependencies env c n deps)
  unfolding add_dependencies
  add_dependencies-IsConsistent c n [] h s = s
  add_dependencies-IsConsistent c n (none ∷ deps) h s = add_dependencies-IsConsistent c n deps h s
  add_dependencies-IsConsistent c n (some d ∷ deps) h s =
      add_dependencies-IsConsistent (add_dependency env c n d) n deps
        ((add_dependency-Extends c n d).stats_kept n h) (add_dependency-IsConsistent env c n d h s)

  add_dependencies-edges :
      (c : Controller N E) (n : N) (deps : List (Option N)) (d : N)
      → Holds deps d
      → Among itself ((add_dependencies env c n deps).graph.edges d) n
  unfolding add_dependencies
  add_dependencies-edges c n [] d h = absurd h
  add_dependencies-edges c n (none ∷ deps) d h = add_dependencies-edges c n deps d h
  add_dependencies-edges c n (some x ∷ deps) d (inl same) =
      (add_dependencies-Extends (add_dependency env c n x) n deps).edges_kept d n
        (add_dependency-edge c n x d same)
  add_dependencies-edges c n (some x ∷ deps) d (inr h) =
      add_dependencies-edges (add_dependency env c n x) n deps d h

  -- One service with its dependencies.
  abbrev with_deps : Controller N E → N → Controller N E
  with_deps c n = add_dependencies env (register env c n) n (env.service n).dependencies

  with_deps-Extends : (c : Controller N E) (n : N) → Extends c (with_deps c n)
  with_deps-Extends c n =
      Extends-trans c (register env c n) (with_deps c n) (register-Extends c n)
        (add_dependencies-Extends (register env c n) n (env.service n).dependencies)

  -- Whatever services are registered on a consistent controller, it stays consistent: its graph is
  -- well formed, and each node and each sorted service has statistics, so that no operation on a
  -- service of the list meets a missing one.
  pub register_all-IsConsistent :
      (c : Controller N E) (services : List (Option N))
      → IsConsistent env c
      → IsConsistent env (register_all env c services)
  unfolding register_all
  register_all-IsConsistent c [] s = s
  register_all-IsConsistent c (none ∷ services) s = register_all-IsConsistent c services s
  register_all-IsConsistent c (some n ∷ services) s =
      register_all-IsConsistent (with_deps c n) services (
        add_dependencies-IsConsistent (register env c n) n (env.service n).dependencies
          (register-HasStats env c n n (inr refl)) (register-IsConsistent env c n s))

  register_all-Extends :
      (c : Controller N E) (services : List (Option N)) → Extends c (register_all env c services)
  unfolding register_all
  register_all-Extends c [] = Extends-refl c
  register_all-Extends c (none ∷ services) = register_all-Extends c services
  register_all-Extends c (some n ∷ services) =
      Extends-trans c (with_deps c n) (register_all env (with_deps c n) services)
        (with_deps-Extends c n) (register_all-Extends (with_deps c n) services)

  -- Registration draws the edge from each dependency to its service.
  pub register_all-edges :
      (c : Controller N E) (services : List (Option N)) (n d : N)
      → Holds services n
      → Holds (env.service n).dependencies d
      → Among itself ((register_all env c services).graph.edges d) n
  unfolding register_all
  register_all-edges c [] n d h k = absurd h
  register_all-edges c (none ∷ services) n d h k = register_all-edges c services n d h k
  register_all-edges c (some m ∷ services) n d (inl same) k =
      (register_all-Extends (with_deps c m) services).edges_kept d n (
        subst (λ x. Among itself ((with_deps c m).graph.edges d) x) same
          (add_dependencies-edges (register env c m) m (env.service m).dependencies d
            (subst (λ x. Holds (env.service x).dependencies d) (sym same) k)))
  register_all-edges c (some m ∷ services) n d (inr h) k =
      register_all-edges (with_deps c m) services n d h k
