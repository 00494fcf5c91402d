-- ===== src/Supervisor/Counts.antt =====
-- What health checks and restarts of pkg/services/supervisor make of the numbers of restarts.
use framingo.Prelude.{
  ℕ, zero, suc, ◌+◌, ◌≤◌, ◌≡◌, refl, sym, subst, ap, ◌∙◌, inl, inr, List, [], ◌∷◌, ◌++◌, Bool,
  false, ◌||◌, Option, none, some, if_pos, if_neg, Bool-cases, Option-cases, arith, leb,
}
use framingo.Graph.Reach.{Among}
use framingo.Supervisor.{Env, Stats, Controller, put_stat, set_stat, itself, stats_healthcheck}
use framingo.Supervisor.Monitor.{check_alive, check_ready, check_self, check_deps, healthcheck}
use framingo.Supervisor.Repair.{Turns}

-- How often a service has been restarted, if it has statistics.
abbrev pub restarts_of : {E : Type 0} → Option (Stats E) → Option ℕ
restarts_of none = none
restarts_of (some s) = some s.restarts

some_injective : {A : Type 0} (x y : A) → some x ≡ some y → x ≡ y
some_injective x y h = ap (λ o. elim o [ none ↦ x | some z ↦ z ]) h

none_is_some : {A : Type 0} (y : A) → none ≡ some y → ⊥
none_is_some y h = ground arith

-- What the test before a restart says of the counts, when it lets the restart pass.
pub leaves_room : (p q r : Bool) (max i : ℕ) → (p || q || r || leb max i) ≡ false → i + 1 ≤ max
leaves_room p q r max i h = ground arith

pub counted :
    {E : Type 0} (o : Option (Stats E)) (i : ℕ)
    → restarts_of o ≡ some i
    → (s : Stats E) × (o ≡ some s) × (s.restarts ≡ i)
counted none i h = ground arith
counted (some s) i h = (s, refl, ground arith)

module _ {N E : Type 0} where
  -- The same services have statistics, with the same numbers of restarts.
  abbrev pub SameCounts : Controller N E → Controller N E → Type 0
  SameCounts c c' = (k : N) → restarts_of (c'.stats k) ≡ restarts_of (c.stats k)

  -- No service has been restarted more often.
  abbrev pub AtMost : ℕ → Controller N E → Type 0
  AtMost max c = (k : N) (s : Stats E) → c.stats k ≡ some s → s.restarts ≤ max

  -- The services of the list have statistics.
  abbrev pub AllKnown : Controller N E → List N → Type 0
  AllKnown c ns = (n : N) → Among itself ns n → (s : Stats E) × (c.stats n ≡ some s)

  pub SameCounts-AtMost :
      (max : ℕ) (c c' : Controller N E) → SameCounts c c' → AtMost max c → AtMost max c'
  SameCounts-AtMost max c c' same most k s h =
      let (t, eq, i) = counted (c.stats k) s.restarts (sym (same k) ∙ ap restarts_of h) in
      subst (λ j. j ≤ max) i (most k t eq)

  pub SameCounts-AllKnown :
      (c c' : Controller N E) (ns : List N) → SameCounts c c' → AllKnown c ns → AllKnown c' ns
  SameCounts-AllKnown c c' ns same known n m =
      let (s, h) = known n m in
      let (t, eq, i) = counted (c'.stats n) s.restarts (same n ∙ ap restarts_of h) in (t, eq)

module _ {N E : Type 0} (env : Env N E) where
  put-SameCounts :
      (c c' : Controller N E) (n : N) (s s' : Stats E)
      → c.stats n ≡ some s
      → s'.restarts ≡ s.restarts
      → c'.stats ≡ put_stat env c.stats n s'
      → SameCounts c c'
  put-SameCounts c c' n s s' h same at k = ap (λ g. restarts_of (g k)) at ∙ elim (env.dec n k) [
    | yes here ↦
        ap restarts_of (if_pos (env.dec n k) here (some s') (c.stats k))
        ∙ ap some same
        ∙ sym (ap restarts_of h)
        ∙ ap (λ x. restarts_of (c.stats x)) here
    | no other ↦ ap restarts_of (if_neg (env.dec n k) other (some s') (c.stats k))
  ]

  check_alive-keeps :
      (c : Controller N E) (n : N) (s : Stats E)
      → ((check_alive env c n s).0.stats ≡ c.stats)
        × ((check_alive env c n s).1.restarts ≡ s.restarts)
  unfolding check_alive
  check_alive-keeps c n s = elim (Bool-cases (env.service n).liveness) [
    | inl d ↦ rw (d) (refl, refl)
    | inr d ↦ rw (d) (refl, refl)
  ]

  check_ready-keeps :
      (c : Controller N E) (n : N) (s : Stats E)
      → ((check_ready env c n s).0.stats ≡ c.stats)
        × ((check_ready env c n s).1.restarts ≡ s.restarts)
  unfolding check_ready
  check_ready-keeps c n s = elim (Bool-cases (env.service n).readiness) [
    | inl d ↦ rw (d) (refl, refl)
    | inr d ↦ rw (d) (refl, refl)
  ]

  check_self-SameCounts :
      (c : Controller N E) (n : N) (errs : List (Option E))
      → SameCounts c (check_self env c n errs).0
  unfolding check_self
  check_self-SameCounts c n errs = elim (Option-cases (c.stats n)) [
    | inl h ↦ rw (h, check_self) (λ k. refl)
    | inr (s, h) ↦
        rw (h, check_self)
          (let alive = check_alive env c n s in
            let ready = check_ready env alive.0 n alive.1 in
            let e = env.combine (errs ++ (stats_healthcheck env n s ∷ alive.2) ++ ready.2) in
            let s' : Stats E = record (ready.1) { healthcheck_err = e } in
            let p = check_alive-keeps c n s in
            let q = check_ready-keeps alive.0 n alive.1 in
            put-SameCounts c (set_stat env ready.0 n s') n s s' h (q.1 ∙ p.1)
              (ap (λ g. put_stat env g n s') (q.0 ∙ p.0)))
  ]

  -- A check keeps the counts, whatever it finds.
  abbrev Quiet : (Controller N E → N → Option (Controller N E × Option E)) → Type 0
  Quiet check =
      (c : Controller N E) (n : N) (r : Controller N E × Option E)
      → check c n ≡ some r
      → SameCounts c r.0

  check_deps-SameCounts :
      (check : Controller N E → N → Option (Controller N E × Option E)) (c : Controller N E)
      (deps : List (Option N)) (errs : List (Option E)) (r : Controller N E × List (Option E))
      → Quiet check
      → check_deps env check c deps errs ≡ some r
      → SameCounts c r.0
  unfolding check_deps
  check_deps-SameCounts check c [] errs r quiet h =
      subst (λ (q : Controller N E × List (Option E)). SameCounts c q.0)
        (some_injective (c, errs) r h) (λ k. refl)
  check_deps-SameCounts check c (none ∷ deps) errs r quiet h =
      check_deps-SameCounts check c deps (errs ++ (none ∷ [])) r quiet h
  check_deps-SameCounts check c (some d ∷ deps) errs r quiet h = elim (Option-cases (check c d)) [
    | inl p ↦ absurd (none_is_some r (rw (p, check_deps) at h))
    | inr ((a, e), p) ↦ λ k.
        check_deps-SameCounts check a deps (errs ++ (e ∷ [])) r quiet (rw (p, check_deps) at h) k
        ∙ quiet c d (a, e) p k
  ]

  pub healthcheck-SameCounts : (fuel : ℕ) → Quiet (healthcheck env fuel)
  unfolding healthcheck
  healthcheck-SameCounts zero c n r h = absurd (none_is_some r h)
  healthcheck-SameCounts (suc fuel) c n r h =
      elim (Option-cases
        (check_deps env (healthcheck env fuel) c (env.service n).dependencies [])) [
          | inl p ↦ absurd (none_is_some r (rw (p, healthcheck) at h))
          | inr ((a, errs), p) ↦
              subst (λ (q : Controller N E × Option E). SameCounts c q.0)
                (some_injective (check_self env a n errs) r (rw (p, healthcheck) at h))
                (λ k.
                  check_self-SameCounts a n errs k
                  ∙ check_deps-SameCounts (healthcheck env fuel) c (env.service n).dependencies []
                      (a, errs) (healthcheck-SameCounts fuel) p k)
        ]

  pub Turns-AtMost :
      (max : ℕ) (c c' : Controller N E) (n : N) (s s' : Stats E)
      → Turns env n c s c' s'
      → s'.restarts ≤ max
      → AtMost max c
      → AtMost max c'
  Turns-AtMost max c c' n s s' t bound most k u h = elim (env.dec n k) [
    | yes here ↦
        subst (λ (x : Stats E). x.restarts ≤ max)
          (some_injective s' u (sym t.there ∙ ap c'.stats here ∙ h)) bound
    | no other ↦ most k u (sym (t.others k other) ∙ h)
  ]

  pub Turns-known :
      (c c' : Controller N E) (n : N) (s s' : Stats E)
      → Turns env n c s c' s'
      → (k : N) (v : Stats E) → c.stats k ≡ some v
      → (u : Stats E) × (c'.stats k ≡ some u)
  Turns-known c c' n s s' t k v h = elim (env.dec n k) [
    | yes here ↦ (s', ap c'.stats (sym here) ∙ t.there)
    | no other ↦ (v, t.others k other ∙ h)
  ]
