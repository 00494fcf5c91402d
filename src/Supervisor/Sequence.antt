-- ===== src/Supervisor/Sequence.antt =====
-- In what order the services of pkg/services/supervisor are started and stopped.
use framingo.Prelude.{
  ◌≡◌, refl, sym, subst, ap, ◌∙◌, inl, inr, List, [], ◌∷◌, ◌++◌, append_assoc, append-nil, reverse,
  map, Bool, true, false, Option, none, if◌then◌else◌, Bool-cases, Outcome, ok, arith,
}
use mathlib.Core.List.{reverse-cons}
use framingo.Graph.Reach.{Among, Among-append_cases}
use framingo.Supervisor.{
  Env, Controller, Method, Call, start_of, stop_of, is_nil, itself, set_stat, start, stop, invoke,
}
use framingo.Supervisor.Batches.{each_service, start_all, stop_all_services, note_failure, combined}
use framingo.Supervisor.Registry.{HasStats, IsConsistent, put_stat-HasStats}

Among-reverse : {N : Type 0} (ns : List N) (n : N) → Among itself (reverse ns) n → Among itself ns n
Among-reverse [] n m = m
Among-reverse (x ∷ xs) n m =
    elim (Among-append_cases itself (reverse xs) (x ∷ []) n
      (subst (λ ys. Among itself ys n) (reverse-cons x xs) m)) [
        | inl l ↦ inr (Among-reverse xs n l)
        | inr (inl e) ↦ inl e
        | inr (inr none_left) ↦ absurd none_left
      ]

module _ {N E : Type 0} (env : Env N E) where
  -- The services with the interface `Daemon`.
  abbrev pub daemons : List N → List N
  daemons [] = []
  daemons (n ∷ ns) = if (env.service n).daemon then n ∷ daemons ns else daemons ns

  abbrev pub calls_of : Method → List N → List (Call N)
  calls_of m ns = map (λ n. (m, n)) ns

  -- What an operation on one service makes of a controller that has its statistics: it calls the
  -- method if the service is a daemon, and keeps services, graph and the services with statistics.
  pub record Acts (m : Method) (c : Controller N E) (n : N) (c' : Controller N E) : Type 0 where
    pub called : c'.calls ≡ c.calls ++ calls_of m (daemons (n ∷ []))
    pub services_same : c'.services ≡ c.services
    pub graph_same : c'.graph ≡ c.graph
    pub stats_kept : (k : N) → HasStats c.stats k → HasStats c'.stats k

  abbrev pub Action : Type 0
  Action = Controller N E → N → Outcome E (Controller N E × Bool × Option E)

  abbrev pub IsAction : Action → Method → Type 0
  IsAction act m =
      (c : Controller N E) (n : N)
      → HasStats c.stats n
      → (c' : Controller N E) × (done : Bool) × (e : Option E) × (act c n ≡ ok (c', done, e))
        × Acts m c n c'

  start-IsAction : IsAction (start env) start_of
  unfolding start
  start-IsAction c n (s, h) = elim (Bool-cases (env.service n).daemon) [
    | inl d ↦ (
      set_stat env (invoke env c start_of n).0 n (record s {
        started = true;
        stopped = false;
        start_err = (invoke env c start_of n).1;
        ready = is_nil (invoke env c start_of n).1;
      }),
      true,
      (invoke env c start_of n).1,
      rw (d, h, start) refl,
      record {
        called = rw (d) refl;
        services_same = refl;
        graph_same = refl;
        stats_kept = λ k. put_stat-HasStats env c.stats n k _;
      },
    )
    | inr d ↦ (
      c,
      false,
      none,
      rw (d, start) refl,
      record {
        called = rw (d) (sym (append-nil c.calls));
        services_same = refl;
        graph_same = refl;
        stats_kept = λ k x. x;
      },
    )
  ]

  stop-IsAction : IsAction (stop env) stop_of
  unfolding stop
  stop-IsAction c n (s, h) = elim (Bool-cases (env.service n).daemon) [
    | inl d ↦ (
      set_stat env (invoke env c stop_of n).0 n
          (record s { stopped = true; ready = false; stop_err = (invoke env c stop_of n).1 }),
      true,
      (invoke env c stop_of n).1,
      rw (d, h, stop) refl,
      record {
        called = rw (d) refl;
        services_same = refl;
        graph_same = refl;
        stats_kept = λ k. put_stat-HasStats env c.stats n k _;
      },
    )
    | inr d ↦ (
      c,
      false,
      none,
      rw (d, stop) refl,
      record {
        called = rw (d) (sym (append-nil c.calls));
        services_same = refl;
        graph_same = refl;
        stats_kept = λ k x. x;
      },
    )
  ]

  calls_of-daemons :
      (m : Method) (n : N) (ns : List N)
      → calls_of m (daemons (n ∷ [])) ++ calls_of m (daemons ns) ≡ calls_of m (daemons (n ∷ ns))
  calls_of-daemons m n ns = ground arith

  -- What the loop over some services makes of a controller.
  pub record ActsAll (m : Method) (c : Controller N E) (ns : List N) (c' : Controller N E)
      : Type 0 where
    pub called_all : c'.calls ≡ c.calls ++ calls_of m (daemons ns)
    pub services_same : c'.services ≡ c.services
    pub graph_same : c'.graph ≡ c.graph
    pub stats_kept : (k : N) → HasStats c.stats k → HasStats c'.stats k

  ActsAll-step :
      (m : Method) (c a b : Controller N E) (n : N) (ns : List N)
      → Acts m c n a
      → ActsAll m a ns b
      → ActsAll m c (n ∷ ns) b
  ActsAll-step m c a b n ns p q = record {
    called_all =
        q.called_all
        ∙ ap (λ x. x ++ calls_of m (daemons ns)) p.called
        ∙ append_assoc c.calls (calls_of m (daemons (n ∷ []))) (calls_of m (daemons ns))
        ∙ ap (λ x. c.calls ++ x) (calls_of-daemons m n ns);
    services_same = q.services_same ∙ p.services_same;
    graph_same = q.graph_same ∙ p.graph_same;
    stats_kept = λ k h. q.stats_kept k (p.stats_kept k h);
  }

  -- The loop meets no missing statistics, and calls the daemons in the order of the list.
  each_service-ActsAll :
      (act : Action) (m : Method) (c : Controller N E) (ns : List N) (errs : List (Option E))
      → IsAction act m
      → ((n : N) → Among itself ns n → HasStats c.stats n)
      → (c' : Controller N E) × (errs' : List (Option E)) × (each_service env act c ns errs
          ≡ ok (c', errs'))
        × ActsAll m c ns c'
  unfolding each_service
  each_service-ActsAll act m c [] errs a h = (
    c,
    errs,
    refl,
    record {
      called_all = sym (append-nil c.calls);
      services_same = refl;
      graph_same = refl;
      stats_kept = λ k x. x;
    },
  )
  each_service-ActsAll act m c (n ∷ ns) errs a h =
      let (c1, done, e, eq, p) = a c n (h n (inl refl)) in
      let (c2, errs', eq', q) =
        each_service-ActsAll act m c1 ns (if done then note_failure env errs n e else errs) a
          (λ k x. p.stats_kept k (h k (inr x))) in
      (c2, errs', rw (eq, each_service) eq', ActsAll-step m c c1 c2 n ns p q)

  -- On a consistent controller, startAll comes to its end and calls Start of the daemons, of each
  -- once for each time that it stands in the list and in the order of the services, whatever
  -- errors they give; services and graph are kept, and no statistics are lost.
  pub start_all-calls :
      (c : Controller N E)
      → IsConsistent env c
      → (c' : Controller N E) × (e : Option E) × (start_all env c ≡ ok (c', e))
        × ActsAll start_of c c.services c'
  unfolding start_all
  start_all-calls c s =
      let (c', errs, eq, p) =
        each_service-ActsAll (start env) start_of c c.services [] start-IsAction s.services_known in
      (c', env.combine errs, ap (combined env) eq, p)

  daemons-append : (xs ys : List N) → daemons (xs ++ ys) ≡ daemons xs ++ daemons ys
  daemons-append [] ys = refl
  daemons-append (x ∷ xs) ys = ground (arith, daemons-append xs ys)

  daemons-reverse : (ns : List N) → daemons (reverse ns) ≡ reverse (daemons ns)
  daemons-reverse [] = refl
  daemons-reverse (n ∷ ns) =
      ap daemons (reverse-cons n ns)
      ∙ daemons-append (reverse ns) (n ∷ [])
      ∙ ap (λ ds. ds ++ daemons (n ∷ [])) (daemons-reverse ns)
      ∙ elim (Bool-cases (env.service n).daemon) [
        | inl d ↦ rw (d) (sym (reverse-cons n (daemons ns)))
        | inr d ↦ rw (d) (append-nil (reverse (daemons ns)))
      ]

  -- On a consistent controller, stopAllServices comes to its end and calls Stop of the daemons in
  -- the reverse order of the services, whatever errors they give; services and graph are kept, and
  -- no statistics are lost.
  pub stop_all_services-calls :
      (c : Controller N E)
      → IsConsistent env c
      → (c' : Controller N E) × (e : Option E) × (stop_all_services env c ≡ ok (c', e))
        × ActsAll stop_of c (reverse c.services) c'
        × (c'.calls ≡ c.calls ++ calls_of stop_of (reverse (daemons c.services)))
  unfolding stop_all_services
  stop_all_services-calls c s =
      let (c', errs, eq, p) =
        each_service-ActsAll (stop env) stop_of c (reverse c.services) [] stop-IsAction
          (λ n m. s.services_known n (Among-reverse c.services n m)) in
      (
        c',
        env.combine errs,
        ap (combined env) eq,
        p,
        p.called_all ∙ ap (λ ds. c.calls ++ calls_of stop_of ds) (daemons-reverse c.services),
      )
