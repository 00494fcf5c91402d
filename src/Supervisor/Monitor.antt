-- ===== src/Supervisor/Monitor.antt =====
-- pkg/services/supervisor/monitor.go: the health checks, and the restarts that follow them.
use framingo.Prelude.{
  ℕ, zero, suc, List, [], ◌∷◌, ◌++◌, Bool, true, false, not, ◌&&◌, ◌||◌, Option, none, some,
  if◌then◌else◌, Outcome, ok, err, panics, ◌>>=◌, leb,
}
use framingo.Prelude.Int.{ℤ, pos, negsuc}
use framingo.Supervisor.{
  Env, Stats, Controller, alive_of, ready_of, is_nil, invoke, set_stat, stats_healthcheck, restart,
}

-- `mon.maxRetries >= 0 && stat.Restarts >= mon.maxRetries`.
abbrev pub is_exhausted : ℤ → ℕ → Bool
is_exhausted (pos max) restarts = leb max restarts
is_exhausted (negsuc k) restarts = false

abbrev pub never_restarts : ℤ → Bool
never_restarts (pos zero) = true
never_restarts _ = false

module _ {N E : Type 0} (env : Env N E) where
  abbrev pub wrapped : N → Option E → List (Option E)
  wrapped n none = []
  wrapped n (some e) = some (env.wrap e n) ∷ []

  -- The part of `healthcheck` about `Liveness`: the call is made and noted.
  unfoldable pub check_alive :
      Controller N E → N → Stats E → Controller N E × Stats E × List (Option E)
  check_alive c n s =
      if (env.service n).liveness
      then (
        (invoke env c alive_of n).0,
        record s { liveness_err = (invoke env c alive_of n).1 },
        wrapped n (invoke env c alive_of n).1,
      )
      else (c, record s { liveness_err = none }, [])

  unfoldable pub check_ready :
      Controller N E → N → Stats E → Controller N E × Stats E × List (Option E)
  check_ready c n s =
      if (env.service n).readiness
      then (
        (invoke env c ready_of n).0,
        record s {
          readiness_err = (invoke env c ready_of n).1;
          ready = is_nil (invoke env c ready_of n).1;
        },
        wrapped n (invoke env c ready_of n).1,
      )
      else (c, record s { readiness_err = none }, [])

  -- What `healthcheck` does with the service itself, after its dependencies.
  unfoldable pub check_self : Controller N E → N → List (Option E) → Controller N E × Option E
  unfolding check_alive check_ready
  check_self c n errs = elim (c.stats n) [
    | none ↦ (c, env.combine errs)
    | some s ↦
        let (c1, s1, alive) = check_alive c n s in
        let (c2, s2, ready) = check_ready c1 n s1 in
        let e = env.combine (errs ++ (stats_healthcheck env n s ∷ alive) ++ ready) in
        (set_stat env c2 n (record s2 { healthcheck_err = e }), e)
  ]

  -- The loop of `healthcheck` over the dependencies; a nil one is checked without error.
  unfoldable pub check_deps :
      (Controller N E → N → Option (Controller N E × Option E))
      → Controller N E
      → List (Option N)
      → List (Option E)
      → Option (Controller N E × List (Option E))
  check_deps check c [] errs = some (c, errs)
  check_deps check c (none ∷ deps) errs = check_deps check c deps (errs ++ (none ∷ []))
  check_deps check c (some d ∷ deps) errs = elim (check c d) [
    | none ↦ none
    | some (c', e) ↦ check_deps check c' deps (errs ++ (e ∷ []))
  ]

  -- `none` means that the fuel, a bound on the depth of the calls, ran out.
  unfoldable pub healthcheck : ℕ → Controller N E → N → Option (Controller N E × Option E)
  unfolding check_self check_deps
  healthcheck zero c n = none
  healthcheck (suc fuel) c n =
      elim (check_deps (healthcheck fuel) c (env.service n).dependencies []) [
        | none ↦ none
        | some (c', errs) ↦ some (check_self c' n errs)
      ]

  -- Whether a service has failed in a way that calls for a restart.
  unfoldable pub has_failed : N → Stats E → Bool
  has_failed n s = not (is_nil s.liveness_err && is_nil (stats_healthcheck env n s))

  -- The rest of a round of `checkAll` after the health check. The Boolean says that the context is
  -- found done before the restart.
  unfoldable pub after_check : ℤ → Controller N E → N → Bool → Outcome E (Controller N E)
  after_check max_retries c n done = elim (c.stats n) [
    | none ↦ panics
    | some s ↦
        if not (has_failed n s)
          || never_restarts max_retries
          || done
          || is_exhausted max_retries s.restarts
        then ok c
        else restart env c n >>= λ (r : Controller N E × Option E). ok r.0
  ]

  -- A round of `checkAll`.
  unfoldable pub check_one : ℤ → ℕ → Controller N E → N → Bool → Option (Outcome E (Controller N E))
  unfolding healthcheck after_check
  check_one max_retries fuel c n done = elim (c.stats n) [
    | none ↦ some panics
    | some s ↦ if s.stopped then some (ok c) else elim (healthcheck fuel c n) [
      | none ↦ none
      | some (c', e) ↦ some (after_check max_retries c' n done)
    ]
  ]

  -- `checkAll` on the services that it comes to before the context is done; `done` is whether the
  -- context is done before the restart of the last of them.
  unfoldable pub check_all :
      ℤ → ℕ → Controller N E → List N → Bool → Option (Outcome E (Controller N E))
  unfolding check_one
  check_all max_retries fuel c [] done = some (ok c)
  check_all max_retries fuel c (n ∷ services) done =
      elim (check_one max_retries fuel c n (elim services [ [] ↦ done | s ∷ ss ↦ false ])) [
        | some (ok c') ↦ check_all max_retries fuel c' services done
        | some (err e) ↦ some (err e)
        | some panics ↦ some panics
        | none ↦ none
      ]
