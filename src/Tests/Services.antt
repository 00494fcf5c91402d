-- ===== src/Tests/Services.antt =====
-- Runs of the definitions about pkg/services/supervisor on concrete services.
use framingo.Prelude.{
  ℕ, zero, suc, ◌≡◌, refl, subst, ◌⊎◌, inl, inr, List, [], ◌∷◌, Bool, true, false, Option, none,
  some, ok, err, panics, arith, ℕ_discrete,
}
use framingo.Prelude.Int.{pos}
use framingo.Graph.{contains_cycle, new_graph}
use framingo.Graph.Reach.{Among, HasCycle}
use framingo.Supervisor.{
  Env, CombineLaws, Stats, start_of, Call, Controller, new_controller, new_stats, itself,
  sort_services, start, restart, stats_healthcheck,
}
use framingo.Graph.Finished.{IsOrdered}
use framingo.Supervisor.Batches.{register_all, init_all, start_all, each_service}
use framingo.Supervisor.Registry.{IsConsistent}
use framingo.Supervisor.Order.{Holds, Before, register_all-IsConsistent}
use framingo.Supervisor.Sorting.{sort_services-register_all, new_controller-IsConsistent}
use framingo.Supervisor.Sequence.{ActsAll, start_all-calls}
use framingo.Supervisor.Rounds.{AllPresent}
use framingo.Supervisor.Starting.{
  AllDistinct, IsClosed, is_initialized, init_all-nil, init_all-IsClosed,
}
use framingo.Supervisor.Lifecycle.{Manager, start_manager, stop_manager, stop-start_failed}
use framingo.Supervisor.Monitor.{healthcheck, check_all}
use framingo.Supervisor.Depth.{IsShallow, healthcheck-sorted}
use framingo.Supervisor.Repair.{restart-unhealthy}
use framingo.Supervisor.Checks.{check_all-AtMost}
use framingo.Supervisor.Counts.{AtMost}

-- Services 0, 1, 2 and the others: each depends on those named; all but 2 have `Init`.
abbrev needs : ℕ → List (Option ℕ)
needs zero = some 1 ∷ some 2 ∷ []
needs (suc zero) = some 2 ∷ []
needs (suc (suc n)) = []

abbrev plain : ℕ → Bool
plain zero = true
plain (suc zero) = true
plain (suc (suc n)) = false

-- The error of the first part that has one.
abbrev first_error : List (Option ℕ) → Option ℕ
first_error [] = none
first_error (none ∷ es) = first_error es
first_error (some e ∷ es) = some e

-- Service 1 fails to start.
abbrev answer : List (Call ℕ) → Call ℕ → Option ℕ
answer calls (start_of, suc zero) = some 41
answer calls c = none

abbrev small : Env ℕ ℕ
small = record {
  dec = ℕ_discrete;
  service = λ n. record {
    dependencies = needs n;
    initializable = plain n;
    daemon = true;
    liveness = true;
    readiness = false;
  };
  reply = answer;
  combine = first_error;
  wrap = λ e n. e;
  unavailable = λ n. 7;
  not_ready = 8;
  not_found = λ n. 9;
  exceeded = 10;
}

first_error-none :
    (e : Option ℕ) (es : List (Option ℕ))
    → first_error (e ∷ es) ≡ none
    → (e ≡ none) × (first_error es ≡ none)
first_error-none none es h = (refl, h)
first_error-none (some e) es h = ground arith

first_error-all :
    (e : Option ℕ) (es : List (Option ℕ))
    → e ≡ none
    → first_error es ≡ none
    → first_error (e ∷ es) ≡ none
first_error-all none es h k = k
first_error-all (some e) es h k = ground arith

small_laws : CombineLaws small
small_laws = record {
  combine-nil = refl;
  combine_none = first_error-none;
  combine-all = first_error-all;
}

needs_present : (n : ℕ) → AllPresent (needs n)
needs_present zero = tt
needs_present (suc zero) = tt
needs_present (suc (suc n)) = tt

abbrev requested : List (Option ℕ)
requested = some 0 ∷ none ∷ []

register_all-IsConsistent_example : IsConsistent small (register_all small new_controller requested)
register_all-IsConsistent_example =
    register_all-IsConsistent small new_controller requested (new_controller-IsConsistent small)

sort_services-register_all_example :
    (c' : Controller ℕ ℕ) × (((sort_services small 0 (register_all small new_controller requested)
          ≡ some (none, c'))
        × (¬ HasCycle itself (register_all small (new_controller {E = ℕ}) requested).graph.edges)
        × IsConsistent small c'
        × IsOrdered itself
            (register_all small (new_controller {E = ℕ}) requested).graph.edges
            c'.services
        × ((n d : ℕ) → Holds requested n → Holds (needs n) d → Before c'.services d n))
      ⊎ ((sort_services small 0 (register_all small new_controller requested)
            ≡ some (some contains_cycle, c'))
          × HasCycle itself (register_all small (new_controller {E = ℕ}) requested).graph.edges
          × (c'.services ≡ [])))
sort_services-register_all_example = sort_services-register_all small 0 requested

-- The services as the sort leaves them.
abbrev sorted : Controller ℕ ℕ
unfolding new_graph
sorted = record {
  graph = new_graph;
  services = 2 ∷ 1 ∷ 0 ∷ [];
  stats = λ n. some new_stats;
  calls = [];
}

sorted-IsConsistent : IsConsistent small sorted
unfolding sorted
sorted-IsConsistent = record {
  graph_valid = (new_controller-IsConsistent small).graph_valid;
  nodes_known = λ n m. (new_stats, refl);
  services_known = λ n m. (new_stats, refl);
}

start_all-calls_example :
    (c' : Controller ℕ ℕ) × (e : Option ℕ) × (start_all small sorted ≡ ok (c', e))
    × ActsAll small start_of sorted sorted.services c'
start_all-calls_example = start_all-calls small sorted sorted-IsConsistent

init_all-nil_example :
    (c' : Controller ℕ ℕ) × (e : Option ℕ) × (init_all small sorted ≡ ok (c', e))
    × (c'.services ≡ sorted.services)
    × (e ≡ none → (n : ℕ) → Among itself sorted.services n → is_initialized (c'.stats n) ≡ true)
init_all-nil_example = init_all-nil small sorted small_laws sorted-IsConsistent needs_present

not_two : (n : ℕ) → Among itself (1 ∷ 0 ∷ []) n → ¬ (n ≡ 2)
not_two n (inl h) e = ground arith
not_two n (inr (inl h)) e = ground arith
not_two n (inr (inr h)) e = h

sorted_distinct : AllDistinct small (2 ∷ 1 ∷ 0 ∷ [])
sorted_distinct =
    (λ m. not_two 2 m refl, ((λ m. elim m [ inl h ↦ ground arith | inr h ↦ h ]), ((λ m. m), tt)))

init_all-IsClosed_example :
    (c' : Controller ℕ ℕ) × (e : Option ℕ) × (init_all small sorted ≡ ok (c', e))
    × IsClosed small c'.stats
unfolding sorted
init_all-IsClosed_example =
    init_all-IsClosed small sorted sorted-IsConsistent needs_present sorted_distinct (λ k m. refl)
      (λ n d on h. ground arith)

needs-Before :
    (m d : ℕ) → Among itself (2 ∷ 1 ∷ 0 ∷ []) m → Holds (needs m) d → Before (2 ∷ 1 ∷ 0 ∷ []) d m
needs-Before zero d a (inl e) = inr (inl (e, inl refl))
needs-Before zero d a (inr (inl e)) = inl (e, inr (inl refl))
needs-Before zero d a (inr (inr h)) = absurd h
needs-Before (suc zero) d a (inl e) = inl (e, inl refl)
needs-Before (suc zero) d a (inr h) = absurd h
needs-Before (suc (suc m)) d a h = absurd h

healthcheck-sorted_example :
    (r : Controller ℕ ℕ × Option ℕ) × (healthcheck small 3 sorted 0 ≡ some r)
healthcheck-sorted_example =
    healthcheck-sorted small sorted (2 ∷ 1 ∷ 0 ∷ []) 0 sorted_distinct needs-Before
      (inr (inr (inl refl)))

-- Service 2, found with a dependency that is not ready.
abbrev blocked : Controller ℕ ℕ
unfolding new_graph
blocked = record {
  graph = new_graph;
  services = 2 ∷ 1 ∷ 0 ∷ [];
  stats = λ n. some (record new_stats { initialization_err = some 8 });
  calls = [];
}

restart-unhealthy_example :
    (c' : Controller ℕ ℕ) × (s' : Stats ℕ) × (r : Option ℕ) × (restart small blocked 2 ≡ ok (c', r))
    × (c'.stats 2 ≡ some s')
    × (s'.initialization_err ≡ some 8)
    × (¬ (stats_healthcheck small 2 s' ≡ none))
unfolding blocked
restart-unhealthy_example =
    restart-unhealthy small blocked 2 (record new_stats { initialization_err = some 8 }) 8
      small_laws refl refl refl

IsShallow-two : (k : ℕ) → IsShallow small (suc k) 2
IsShallow-two k = λ d h. absurd h

IsShallow-one : (k : ℕ) → IsShallow small (suc (suc k)) 1
IsShallow-one k =
    λ d h. elim h [ inl e ↦ subst (IsShallow small (suc k)) e (IsShallow-two k) | inr x ↦ absurd x ]

shallow : (n : ℕ) → Among itself (2 ∷ 1 ∷ 0 ∷ []) n → IsShallow small (suc (suc (suc zero))) n
shallow zero m = λ d h. elim h [
  | inl e ↦ subst (IsShallow small (suc (suc zero))) e (IsShallow-one zero)
  | inr (inl e) ↦ subst (IsShallow small (suc (suc zero))) e (IsShallow-two (suc zero))
  | inr (inr x) ↦ absurd x
]
shallow (suc zero) m = IsShallow-one (suc zero)
shallow (suc (suc n)) m = λ d h. absurd h

check_all-AtMost_example :
    (c' : Controller ℕ ℕ) × (check_all small (pos 2) 3 blocked (2 ∷ 1 ∷ 0 ∷ []) false
      ≡ some (ok c'))
    × AtMost 2 c'
unfolding blocked
check_all-AtMost_example =
    check_all-AtMost small 2 3 blocked (2 ∷ 1 ∷ 0 ∷ []) false (λ n m. (_, refl)) shallow
      (λ k s h. ground arith)

abbrev idle_manager : Manager ℕ ℕ
idle_manager = record { active = false; c = sorted; has_time_limit = false }

-- The manager after a `Start` in which service 1 fails.
abbrev failed_manager : Manager ℕ ℕ
unfolding start_manager
failed_manager = elim (start_manager small idle_manager) [
  | ok (k, e) ↦ k
  | err e ↦ idle_manager
  | panics ↦ idle_manager
]

-- All three services have been started.
three_started : failed_manager.c.calls ≡ (start_of, 2) ∷ (start_of, 1) ∷ (start_of, 0) ∷ []
unfolding failed_manager sorted start_manager start_all each_service start ℕ_discrete
three_started = refl

stop-start_failed_example : stop_manager small failed_manager false ≡ ok (failed_manager, none)
unfolding failed_manager sorted start_manager start_all each_service start ℕ_discrete
stop-start_failed_example = stop-start_failed small idle_manager failed_manager 41 false refl refl
