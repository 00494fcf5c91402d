-- ===== src/Supervisor/Batches.antt =====
-- The loops over all services of pkg/services/supervisor/controller.go, and `Register` of
-- business.go. The counters that are only logged are left out.
use framingo.Prelude.{
  List, [], ◌∷◌, ◌++◌, reverse, Bool, true, false, ◌&&◌, Option, none, some, if◌then◌else◌, Outcome,
  ok, panics, ◌>>=◌,
}
use framingo.Supervisor.{Env, Controller, register, add_dependency, init, start, stop, set_stat}

module _ {N E : Type 0} (env : Env N E) where
  -- A service or a dependency that is nil is passed over.
  unfoldable pub add_dependencies : Controller N E → N → List (Option N) → Controller N E
  add_dependencies c n [] = c
  add_dependencies c n (none ∷ deps) = add_dependencies c n deps
  add_dependencies c n (some d ∷ deps) = add_dependencies (add_dependency env c n d) n deps

  unfoldable pub register_all : Controller N E → List (Option N) → Controller N E
  unfolding add_dependencies
  register_all c [] = c
  register_all c (none ∷ services) = register_all c services
  register_all c (some n ∷ services) =
      register_all (add_dependencies (register env c n) n (env.service n).dependencies) services

  -- Whether the dependencies are initialized, as far as there are statistics of them.
  unfoldable pub deps_ready : Controller N E → List (Option N) → Outcome E Bool
  deps_ready c [] = ok true
  deps_ready c (none ∷ deps) = panics
  deps_ready c (some d ∷ deps) =
      let rest = deps_ready c deps in
      elim (c.stats d) [ none ↦ rest | some s ↦ if s.initialized then rest else ok false ]

  -- A service that fails adds its error to those of the loop.
  abbrev pub note_failure : List (Option E) → N → Option E → List (Option E)
  note_failure errs n none = errs
  note_failure errs n (some e) = errs ++ (some (env.wrap e n) ∷ [])

  -- One round of `initAll`, by whether the dependencies are ready.
  unfoldable pub init_round :
      Controller N E → N → List (Option E) → Bool → Outcome E (Controller N E × List (Option E))
  init_round c n errs true = init env c n >>= λ (r : Controller N E × Bool × Option E).
      ok (r.0, (if r.1 then note_failure errs n r.2 else errs))
  init_round c n errs false = elim (c.stats n) [
    | none ↦ panics
    | some s ↦ ok (
      set_stat env c n (record s { initialization_err = some env.not_ready }),
      note_failure errs n (some env.not_ready),
    )
  ]

  unfoldable pub init_one :
      Controller N E → N → List (Option E) → Outcome E (Controller N E × List (Option E))
  unfolding deps_ready init_round
  init_one c n errs = deps_ready c (env.service n).dependencies >>= λ (all_ready : Bool).
      init_round c n errs all_ready

  unfoldable pub init_each :
      Controller N E → List N → List (Option E) → Outcome E (Controller N E × List (Option E))
  unfolding init_one
  init_each c [] errs = ok (c, errs)
  init_each c (n ∷ services) errs =
      init_one c n errs >>= λ (r : Controller N E × List (Option E)). init_each r.0 services r.1

  abbrev pub combined :
      Outcome E (Controller N E × List (Option E)) → Outcome E (Controller N E × Option E)
  combined o = o >>= λ (r : Controller N E × List (Option E)). ok (r.0, env.combine r.1)

  unfoldable pub init_all : Controller N E → Outcome E (Controller N E × Option E)
  unfolding init_each
  init_all c = combined (init_each c c.services [])

  -- The loops of `startAll` and `stopAllServices`, which differ in what they do with a service.
  unfoldable pub each_service :
      (Controller N E → N → Outcome E (Controller N E × Bool × Option E))
      → Controller N E
      → List N
      → List (Option E)
      → Outcome E (Controller N E × List (Option E))
  each_service act c [] errs = ok (c, errs)
  each_service act c (n ∷ services) errs = act c n >>= λ (r : Controller N E × Bool × Option E).
      each_service act r.0 services (if r.1 then note_failure errs n r.2 else errs)

  unfoldable pub start_all : Controller N E → Outcome E (Controller N E × Option E)
  unfolding each_service
  start_all c = combined (each_service (start env) c c.services [])

  unfoldable pub stop_all_services : Controller N E → Outcome E (Controller N E × Option E)
  unfolding each_service
  stop_all_services c = combined (each_service (stop env) c (reverse c.services) [])

  -- With a time limit, the services stop in a goroutine: `late` says that the limit passes first, and
  -- the state is that at the goroutine's end.
  unfoldable pub stop_all : Controller N E → Bool → Bool → Outcome E (Controller N E × Option E)
  unfolding stop_all_services
  stop_all c limited late = stop_all_services c >>= λ (r : Controller N E × Option E).
      ok (r.0, (if limited && late then some env.exceeded else r.1))
