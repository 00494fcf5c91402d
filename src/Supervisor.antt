-- ===== src/Supervisor.antt =====
-- pkg/services/supervisor/controller.go, with types/entity/supervisor.go: the controller of the
-- services, its statistics and what it does with one service. A service is known by its name, and
-- what its interfaces are and how its methods answer are in `Env`; `calls` lists the calls that have
-- been made of them, in order, and an answer may depend on all of those. Instants and durations are
-- not modelled, nor the logger and the configuration that the context carries.
pub mod Batches
pub mod Lifecycle
pub mod Monitor
pub mod Registry
pub mod Order
pub mod Sorting
pub mod Rounds
pub mod Starting
pub mod Sequence
pub mod Repair
pub mod Depth
pub mod Counts
pub mod Checks
use framingo.Prelude.{
  ℕ, ◌+◌, ◌≡◌, List, [], ◌∷◌, ◌++◌, Bool, true, false, Option, none, some, if◌then◌else◌, ite,
  Outcome, ok, err, panics, ◌>>=◌,
}
use framingo.Graph.{Graph, Conflict, new_graph, add_with, topo_sort}

pub data Method : Type 0 where
  init_of start_of stop_of alive_of ready_of : Method

abbrev pub Call : Type 0 → Type 0
Call N = Method × N

-- Which interfaces of pkg/types/common a service has, and its `Dependencies`, of which one may be
-- nil.
pub record Service (N : Type 0) : Type 0 where
  pub dependencies : List (Option N)
  pub initializable : Bool
  pub daemon : Bool
  pub liveness : Bool
  pub readiness : Bool

-- The services and the errors: `reply` is what a method returns after the given calls, and the others
-- are functions of github.com/xhanio/errors.
pub record Env (N E : Type 0) : Type 0 where
  pub dec : Discrete N
  pub service : N → Service N
  pub reply : List (Call N) → Call N → Option E
  pub combine : List (Option E) → Option E
  pub wrap : E → N → E
  pub unavailable : N → E
  pub not_ready : E
  pub not_found : N → E
  pub exceeded : E

-- An error that is combined is nil if and only if all its parts are.
pub record CombineLaws {N E : Type 0} (env : Env N E) : Type 0 where
  pub combine-nil : env.combine [] ≡ none
  pub combine_none :
      (e : Option E) (es : List (Option E))
      → env.combine (e ∷ es) ≡ none
      → (e ≡ none) × (env.combine es ≡ none)
  pub combine-all :
      (e : Option E) (es : List (Option E))
      → e ≡ none
      → env.combine es ≡ none
      → env.combine (e ∷ es) ≡ none

-- SupervisorStats.
pub record Stats (E : Type 0) : Type 0 where
  pub initialized : Bool
  pub initialization_err : Option E
  pub started : Bool
  pub start_err : Option E
  pub stopped : Bool
  pub stop_err : Option E
  pub healthcheck_err : Option E
  pub liveness_err : Option E
  pub ready : Bool
  pub readiness_err : Option E
  pub restarts : ℕ

abbrev pub new_stats : {E : Type 0} → Stats E
new_stats = record {
  initialized = false;
  initialization_err = none;
  started = false;
  start_err = none;
  stopped = false;
  stop_err = none;
  healthcheck_err = none;
  liveness_err = none;
  ready = false;
  readiness_err = none;
  restarts = 0;
}

pub record Controller (N E : Type 0) : Type 0 where
  pub graph : Graph N N
  pub services : List N
  pub stats : N → Option (Stats E)
  pub calls : List (Call N)

abbrev pub new_controller : {N E : Type 0} → Controller N E
new_controller = record { graph = new_graph; services = []; stats = λ n. none; calls = [] }

abbrev pub is_nil : {E : Type 0} → Option E → Bool
is_nil none = true
is_nil (some e) = false

-- A node of the graph is its own name.
abbrev pub itself : {N : Type 0} → N → N
itself n = n

module _ {N E : Type 0} (env : Env N E) where
  -- A call of a method and its answer.
  abbrev pub invoke : Controller N E → Method → N → Controller N E × Option E
  invoke c m n = (record c { calls = c.calls ++ ((m, n) ∷ []) }, env.reply c.calls (m, n))

  abbrev pub put_stat : (N → Option (Stats E)) → N → Stats E → N → Option (Stats E)
  put_stat stats n s k = ite (env.dec n k) (some s) (stats k)

  abbrev pub set_stat : Controller N E → N → Stats E → Controller N E
  set_stat c n s = record c { stats = put_stat c.stats n s }

  abbrev pub wrap_error : N → Option E → Option E
  wrap_error n none = none
  wrap_error n (some e) = some (env.wrap e n)

  -- `SupervisorStats.Healthcheck`.
  unfoldable pub stats_healthcheck : N → Stats E → Option E
  stats_healthcheck n s = env.combine (
      (if s.stopped then some (env.unavailable n) else none)
      ∷ wrap_error n s.initialization_err
      ∷ wrap_error n s.start_err
      ∷ [])

  -- A service registered after the sort goes to the end of the sorted list.
  abbrev pub append_late : List N → N → List N
  append_late [] n = []
  append_late (s ∷ ss) n = (s ∷ ss) ++ (n ∷ [])

  -- The first part of `register`, by what statistics there are of the service.
  abbrev pub note_service : Controller N E → N → Option (Stats E) → Controller N E
  note_service c n (some s) = c
  note_service c n none = record (set_stat c n new_stats) { services = append_late c.services n }

  unfoldable pub register : Controller N E → N → Controller N E
  register c n =
      let known = note_service c n (c.stats n) in
      record known { graph = add_with env.dec itself known.graph n [] }

  unfoldable pub add_dependency : Controller N E → N → N → Controller N E
  unfolding register
  add_dependency c n dep =
      let c' = register c dep in record c' { graph = add_with env.dec itself c'.graph n (dep ∷ []) }

  -- The zero value is that of the type of services. Where the sort fails, the error is the graph's.
  unfoldable pub sort_services : N → Controller N E → Option (Option Conflict × Controller N E)
  sort_services zero_value c = elim (topo_sort env.dec itself zero_value c.graph) [
    | none ↦ none
    | some (some e, g) ↦ some (some e, record c { graph = g })
    | some (none, g) ↦ some (none, record c { graph = g; services = g.nodes })
  ]

  unfoldable pub find : List N → N → Option N
  find [] n = none
  find (s ∷ ss) n = ite (env.dec s n) (some s) (find ss n)

  -- Whether the service has the interface, and the error. A service with no statistics makes the
  -- program panic.
  unfoldable pub init : Controller N E → N → Outcome E (Controller N E × Bool × Option E)
  init c n =
      if (env.service n).initializable
      then elim (c.stats n) [
        | none ↦ panics
        | some s ↦
            let (c', e) = invoke c init_of n in
            ok (
              set_stat c' n
                  (record s { initialized = is_nil e; initialization_err = e; ready = is_nil e }),
              true,
              e,
            )
      ]
      else ok (
        elim (c.stats n) [
          | none ↦ c
          | some s ↦ set_stat c n (record s { initialized = true; ready = true })
        ],
        false,
        none,
      )

  unfoldable pub start : Controller N E → N → Outcome E (Controller N E × Bool × Option E)
  start c n =
      if (env.service n).daemon
      then elim (c.stats n) [
        | none ↦ panics
        | some s ↦
            let (c', e) = invoke c start_of n in
            ok (
              set_stat c' n
                  (record s { started = true; stopped = false; start_err = e; ready = is_nil e }),
              true,
              e,
            )
      ]
      else ok (c, false, none)

  unfoldable pub stop : Controller N E → N → Outcome E (Controller N E × Bool × Option E)
  stop c n =
      if (env.service n).daemon
      then elim (c.stats n) [
        | none ↦ panics
        | some s ↦
            let (c', e) = invoke c stop_of n in
            ok (set_stat c' n (record s { stopped = true; ready = false; stop_err = e }), true, e)
      ]
      else ok (c, false, none)

  -- The end of `restart`: one restart more, and no error of the last health check if it succeeded.
  abbrev pub count_restart : Controller N E → N → Option E → Outcome E (Controller N E × Option E)
  count_restart c n e = elim (c.stats n) [
    | none ↦ panics
    | some s ↦
        let s' = record s { restarts = s.restarts + 1 } in
        ok (set_stat c n (if is_nil e then record s' { healthcheck_err = none } else s'), e)
  ]

  -- The first part of `restart`; an error of `Stop` is only logged.
  abbrev pub restop : Controller N E → N → Outcome E (Controller N E)
  restop c n = elim (c.stats n) [
    | none ↦ panics
    | some s ↦
        if (env.service n).daemon
        then ok (set_stat (invoke c stop_of n).0 n (record s { stopped = false }))
        else ok c
  ]

  unfoldable pub restart : Controller N E → N → Outcome E (Controller N E × Option E)
  unfolding init start
  restart c n = restop c n >>= λ (c1 : Controller N E).
      init c1 n >>= λ (r : Controller N E × Bool × Option E). elim r.2 [
        | some e ↦ count_restart r.0 n (some e)
        | none ↦ start r.0 n >>= λ (q : Controller N E × Bool × Option E). count_restart q.0 n q.2
      ]
