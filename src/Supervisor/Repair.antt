-- ===== src/Supervisor/Repair.antt =====
-- What `restart` of pkg/services/supervisor/controller.go makes of the statistics.
use framingo.Prelude.{
  ◌+◌, ◌≡◌, refl, sym, ap, ◌∙◌, inl, inr, Bool, true, false, Option, none, some, if_pos, if_neg,
  Bool-cases, Option-cases, ok, arith,
}
use framingo.Supervisor.{
  Env, CombineLaws, Stats, Controller, init_of, start_of, stop_of, is_nil, put_stat, set_stat,
  invoke, init, start, restart, restop, wrap_error, count_restart, stats_healthcheck,
}

module _ {N E : Type 0} (env : Env N E) where
  -- A step on the statistics of one service: those of the others, and the services, are kept; so is
  -- the error of its initialization if it is not initializable.
  pub record Turns (n : N) (c : Controller N E) (s : Stats E) (c' : Controller N E) (s' : Stats E)
      : Type 0 where
    pub there : c'.stats n ≡ some s'
    pub others : (k : N) → ¬ (n ≡ k) → c'.stats k ≡ c.stats k
    pub same_services : c'.services ≡ c.services
    pub fault_kept :
        (env.service n).initializable ≡ false → s'.initialization_err ≡ s.initialization_err

  Turns-trans :
      (n : N) (a b c : Controller N E) (s t u : Stats E)
      → Turns n a s b t
      → Turns n b t c u
      → Turns n a s c u
  Turns-trans n a b c s t u p q = record {
    there = q.there;
    others = λ k h. q.others k h ∙ p.others k h;
    same_services = q.same_services ∙ p.same_services;
    fault_kept = λ h. q.fault_kept h ∙ p.fault_kept h;
  }

  Turns-refl : (n : N) (c : Controller N E) (s : Stats E) → c.stats n ≡ some s → Turns n c s c s
  Turns-refl n c s h = record {
    there = h;
    others = λ k x. refl;
    same_services = refl;
    fault_kept = λ x. refl;
  }

  put_Turns :
      (n : N) (c c' : Controller N E) (s s' : Stats E)
      → c'.stats ≡ put_stat env c.stats n s'
      → c'.services ≡ c.services
      → ((env.service n).initializable ≡ false → s'.initialization_err ≡ s.initialization_err)
      → Turns n c s c' s'
  put_Turns n c c' s s' at same f = record {
    there = ap (λ g. g n) at ∙ if_pos (env.dec n n) refl (some s') (c.stats n);
    others = λ k h. ap (λ g. g k) at ∙ if_neg (env.dec n k) h (some s') (c.stats k);
    same_services = same;
    fault_kept = f;
  }

  -- What each part of `restart` gives where there are statistics.
  restop-Turns :
      (c : Controller N E) (n : N) (s : Stats E)
      → c.stats n ≡ some s
      → (c' : Controller N E) × (s' : Stats E) × (restop env c n ≡ ok c')
        × Turns n c s c' s'
        × (s'.restarts ≡ s.restarts)
  restop-Turns c n s h = elim (Bool-cases (env.service n).daemon) [
    | inl d ↦ (
      set_stat env (invoke env c stop_of n).0 n (record s { stopped = false }),
      record s { stopped = false },
      rw (h, restop, d) refl,
      put_Turns n c _ s _ refl refl (λ x. refl),
      refl,
    )
    | inr d ↦ (c, s, rw (h, restop, d) refl, Turns-refl n c s h, refl)
  ]

  init-Turns :
      (c : Controller N E) (n : N) (s : Stats E)
      → c.stats n ≡ some s
      → (c' : Controller N E) × (s' : Stats E) × (done : Bool) × (e : Option E) × (init env c n
          ≡ ok (c', done, e))
        × Turns n c s c' s'
        × (s'.restarts ≡ s.restarts)
  unfolding init
  init-Turns c n s h = elim (Bool-cases (env.service n).initializable) [
    | inl d ↦
        let e = env.reply c.calls (init_of, n) in
        let s' : Stats E = record s {
          initialized = is_nil e;
          initialization_err = e;
          ready = is_nil e;
        } in
        (
          set_stat env (invoke env c init_of n).0 n s',
          s',
          true,
          e,
          rw (d, h, init) refl,
          put_Turns n c _ s s' refl refl (λ x. ground arith),
          refl,
        )
    | inr d ↦
        let s' : Stats E = record s { initialized = true; ready = true } in
        (
          set_stat env c n s',
          s',
          false,
          none,
          rw (d, h, init) refl,
          put_Turns n c _ s s' refl refl (λ x. refl),
          refl,
        )
  ]

  start-Turns :
      (c : Controller N E) (n : N) (s : Stats E)
      → c.stats n ≡ some s
      → (c' : Controller N E) × (s' : Stats E) × (done : Bool) × (e : Option E) × (start env c n
          ≡ ok (c', done, e))
        × Turns n c s c' s'
        × (s'.restarts ≡ s.restarts)
  unfolding start
  start-Turns c n s h = elim (Bool-cases (env.service n).daemon) [
    | inl d ↦
        let e = env.reply c.calls (start_of, n) in
        let s' : Stats E = record s {
          started = true;
          stopped = false;
          start_err = e;
          ready = is_nil e;
        } in
        (
          set_stat env (invoke env c start_of n).0 n s',
          s',
          true,
          e,
          rw (d, h, start) refl,
          put_Turns n c _ s s' refl refl (λ x. refl),
          refl,
        )
    | inr d ↦ (c, s, false, none, rw (d, start) refl, Turns-refl n c s h, refl)
  ]

  count_restart-Turns :
      (c : Controller N E) (n : N) (s : Stats E) (e : Option E)
      → c.stats n ≡ some s
      → (c' : Controller N E) × (s' : Stats E) × (count_restart env c n e ≡ ok (c', e))
        × Turns n c s c' s'
        × (s'.restarts ≡ s.restarts + 1)
  count_restart-Turns c n s none h =
      let s' : Stats E = record s { restarts = s.restarts + 1; healthcheck_err = none } in
      (
        set_stat env c n s',
        s',
        rw (h, count_restart) refl,
        put_Turns n c _ s s' refl refl (λ x. refl),
        refl,
      )
  count_restart-Turns c n s (some e) h =
      let s' : Stats E = record s { restarts = s.restarts + 1 } in
      (
        set_stat env c n s',
        s',
        rw (h, count_restart) refl,
        put_Turns n c _ s s' refl refl (λ x. refl),
        refl,
      )

  -- Restarting a service with statistics comes to its end and counts one restart, whatever errors
  -- the service gives; the statistics of the others, and the services, are kept, and so is the
  -- error of its initialization if it is not initializable.
  pub restart-Turns :
      (c : Controller N E) (n : N) (s : Stats E)
      → c.stats n ≡ some s
      → (c' : Controller N E) × (s' : Stats E) × (e : Option E) × (restart env c n ≡ ok (c', e))
        × Turns n c s c' s'
        × (s'.restarts ≡ s.restarts + 1)
  unfolding restart
  restart-Turns c n s h =
      let (c1, s1, eq1, t1, r1) = restop-Turns c n s h in
      let (c2, s2, done, e, eq2, t2, r2) = init-Turns c1 n s1 t1.there in
      let t12 = Turns-trans n c c1 c2 s s1 s2 t1 t2 in
      elim (Option-cases e) [
        | inr (x, failed) ↦
            let (c3, s3, eq3, t3, r3) = count_restart-Turns c2 n s2 (some x) t2.there in
            (
              c3,
              s3,
              some x,
              rw (eq1, restart, eq2, failed) eq3,
              Turns-trans n c c2 c3 s s2 s3 t12 t3,
              r3 ∙ ap (λ i. i + 1) (r2 ∙ r1),
            )
        | inl fine ↦
            let (c3, s3, done', e', eq3, t3, r3) = start-Turns c2 n s2 t2.there in
            let (c4, s4, eq4, t4, r4) = count_restart-Turns c3 n s3 e' t3.there in
            (
              c4,
              s4,
              e',
              rw (eq1, restart, eq2, fine, eq3) eq4,
              Turns-trans n c c3 c4 s s3 s4 (Turns-trans n c c2 c3 s s2 s3 t12 t3) t4,
              r4 ∙ ap (λ i. i + 1) (r3 ∙ r2 ∙ r1),
            )
      ]

  wrapped-error :
      (s : Stats E) (n : N) (e : E)
      → CombineLaws env
      → s.initialization_err ≡ some e
      → ¬ (stats_healthcheck env n s ≡ none)
  unfolding stats_healthcheck
  wrapped-error s n e laws h eq =
      let second : wrap_error env n s.initialization_err ≡ none =
        (laws.combine_none _ _ (laws.combine_none _ _ eq).1).0 in
      let none_here : some (env.wrap e n) ≡ none = sym (ap (wrap_error env n) h) ∙ second in
      ground arith

  -- With a combination of errors that is nil only if all its parts are: if a service is not
  -- initializable and its statistics have an error of its initialization, as initAll leaves it
  -- where a dependency is not ready, then a restart comes to its end and keeps that error, and the
  -- statistics do not count as healthy after it.
  pub restart-unhealthy :
      (c : Controller N E) (n : N) (s : Stats E) (e : E)
      → CombineLaws env
      → (env.service n).initializable ≡ false
      → c.stats n ≡ some s
      → s.initialization_err ≡ some e
      → (c' : Controller N E) × (s' : Stats E) × (r : Option E) × (restart env c n ≡ ok (c', r))
        × (c'.stats n ≡ some s')
        × (s'.initialization_err ≡ some e)
        × (¬ (stats_healthcheck env n s' ≡ none))
  restart-unhealthy c n s e laws plain h fault =
      let (c', s', r, eq, t, _) = restart-Turns c n s h in
      (
        c',
        s',
        r,
        eq,
        t.there,
        t.fault_kept plain ∙ fault,
        wrapped-error s' n e laws (t.fault_kept plain ∙ fault),
      )
