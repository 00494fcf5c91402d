-- ===== src/Supervisor/Checks.antt =====
-- The rounds of `checkAll` in pkg/services/supervisor/monitor.go: that they end, and how often they
-- restart a service.
use framingo.Prelude.{
  ℕ, ◌≤◌, ◌≡◌, refl, sym, subst, ap, ◌∙◌, inl, inr, List, [], ◌∷◌, Bool, false, not, ◌||◌, some,
  Bool-cases, ok, leb,
}
use framingo.Prelude.Int.{pos}
use framingo.Graph.Reach.{Among}
use framingo.Supervisor.{Env, Stats, Controller, itself}
use framingo.Supervisor.Monitor.{has_failed, never_restarts, after_check, check_one, check_all}
use framingo.Supervisor.Repair.{restart-Turns}
use framingo.Supervisor.Depth.{IsShallow, healthcheck-ends}
use framingo.Supervisor.Counts.{
  restarts_of, AtMost, AllKnown, counted, leaves_room, SameCounts-AtMost, SameCounts-AllKnown,
  healthcheck-SameCounts, Turns-AtMost, Turns-known,
}

module _ {N E : Type 0} (env : Env N E) where
  -- The restart that may follow a check.
  after_check-AtMost :
      (max : ℕ) (c : Controller N E) (n : N) (s : Stats E) (done : Bool)
      → c.stats n ≡ some s
      → AtMost max c
      → (c' : Controller N E) × (after_check env (pos max) c n done ≡ ok c')
        × AtMost max c'
        × ((k : N) (t : Stats E) → c.stats k ≡ some t → (u : Stats E) × (c'.stats k ≡ some u))
  unfolding after_check
  after_check-AtMost max c n s done h most =
      elim (Bool-cases
        (not (has_failed env n s) || never_restarts (pos max) || done || leb max s.restarts)) [
          | inl quiet ↦ (c, rw (h, after_check, quiet) refl, most, λ k t x. (t, x))
          | inr restarts ↦
              let (c', s', e, eq, turns, i) = restart-Turns env c n s h in
              (
                c',
                rw (h, after_check, restarts, eq) refl,
                Turns-AtMost env max c c' n s s' turns
                    (subst (λ j. j ≤ max) (sym i)
                      (leaves_room (not (has_failed env n s)) (never_restarts (pos max)) done max
                        s.restarts restarts))
                    most,
                Turns-known env c c' n s s' turns,
              )
        ]

  check_one-AtMost :
      (max fuel : ℕ) (c : Controller N E) (n : N) (s : Stats E) (done : Bool)
      → c.stats n ≡ some s
      → IsShallow env fuel n
      → AtMost max c
      → (c' : Controller N E) × (check_one env (pos max) fuel c n done ≡ some (ok c'))
        × AtMost max c'
        × ((ns : List N) → AllKnown c ns → AllKnown c' ns)
  unfolding check_one
  check_one-AtMost max fuel c n s done h shallow most = elim (Bool-cases s.stopped) [
    | inl off ↦ (c, rw (h, check_one, off) refl, most, λ ns known. known)
    | inr on ↦
        let ((a, e), eq) = healthcheck-ends env fuel c n shallow in
        let same = healthcheck-SameCounts env fuel c n (a, e) eq in
        let (t, at, i) = counted (a.stats n) s.restarts (same n ∙ ap restarts_of h) in
        let (c', eq', most', known) =
          after_check-AtMost max a n t done at (SameCounts-AtMost max c a same most) in
        (
          c',
          rw (h, check_one, on, eq) (ap some eq'),
          most',
          λ ns k x m. let (u, g) = SameCounts-AllKnown c a ns same k x m in known x u g,
        )
  ]

  -- A round of the monitor over services with statistics, whose dependencies go no deeper than the
  -- fuel, comes to its end, and with a limit on restarts it restarts no service that has had so
  -- many: the counts stay within the limit.
  pub check_all-AtMost :
      (max fuel : ℕ) (c : Controller N E) (ns : List N) (done : Bool)
      → AllKnown c ns
      → ((n : N) → Among itself ns n → IsShallow env fuel n)
      → AtMost max c
      → (c' : Controller N E) × (check_all env (pos max) fuel c ns done ≡ some (ok c'))
        × AtMost max c'
  unfolding check_all
  check_all-AtMost max fuel c [] done known shallow most = (c, refl, most)
  check_all-AtMost max fuel c (n ∷ ns) done known shallow most =
      let (s, h) = known n (inl refl) in
      let (a, eq, most', keeps) =
        check_one-AtMost max fuel c n s (elim ns [ [] ↦ done | x ∷ xs ↦ false ]) h
          (shallow n (inl refl)) most in
      let (c', eq', bound) =
        check_all-AtMost max fuel a ns done (keeps ns (λ k m. known k (inr m)))
          (λ k m. shallow k (inr m)) most' in
      (c', rw (eq, check_all) eq', bound)
