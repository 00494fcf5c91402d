-- ===== src/Supervisor/Rounds.antt =====
-- One round of `initAll` of pkg/services/supervisor/controller.go.
use framingo.Prelude.{
  ◌≡◌, refl, sym, subst, ap, ◌∙◌, ◌⊎◌, inl, inr, List, [], ◌∷◌, ◌++◌, Bool, true, false, Option,
  none, some, if◌then◌else◌, if_pos, if_neg, Bool-cases, Option-cases, ok, arith,
}
use framingo.Supervisor.{
  Env, CombineLaws, Stats, Controller, init_of, put_stat, set_stat, init, invoke,
}
use framingo.Supervisor.Batches.{deps_ready, init_round, init_one}
use framingo.Supervisor.Registry.{HasStats, put_stat-HasStats}
use framingo.Supervisor.Order.{Holds}

-- No dependency is nil.
abbrev pub AllPresent : {N : Type 0} → List (Option N) → Type 0
AllPresent [] = Unit {0}
AllPresent (none ∷ deps) = ⊥
AllPresent (some d ∷ deps) = AllPresent deps

-- Whether a service with statistics is initialized; one that has none does not keep others waiting.
abbrev pub is_ready : {E : Type 0} → Option (Stats E) → Bool
is_ready none = true
is_ready (some s) = s.initialized

-- Some error of the list is not nil.
abbrev pub HasError : {E : Type 0} → List (Option E) → Type 0
HasError [] = ⊥
HasError (none ∷ es) = HasError es
HasError (some e ∷ es) = Unit {0}

if_true : (b c : Bool) → (if b then c else false) ≡ true → (b ≡ true) × (c ≡ true)
if_true true c h = (refl, h)
if_true false c h = (h, ground arith)

pub HasError-append : {E : Type 0} (es es' : List (Option E)) → HasError es → HasError (es ++ es')
HasError-append [] es' h = absurd h
HasError-append (none ∷ es) es' h = HasError-append es es' h
HasError-append (some e ∷ es) es' h = h

HasError-snoc : {E : Type 0} (es : List (Option E)) (e : E) → HasError (es ++ (some e ∷ []))
HasError-snoc [] e = tt
HasError-snoc (none ∷ es) e = HasError-snoc es e
HasError-snoc (some x ∷ es) e = tt

module _ {N E : Type 0} (env : Env N E) where
  pub combine-HasError :
      (es : List (Option E)) → CombineLaws env → HasError es → env.combine es ≡ none → ⊥
  combine-HasError [] laws h eq = h
  combine-HasError (none ∷ es) laws h eq =
      combine-HasError es laws h (laws.combine_none none es eq).1
  combine-HasError (some e ∷ es) laws h eq =
      let none_here : some e ≡ none = (laws.combine_none (some e) es eq).0 in ground arith

  -- Whether the dependencies are ready, as a test on each.
  abbrev pub all_ready : (N → Option (Stats E)) → List (Option N) → Bool
  all_ready stats [] = true
  all_ready stats (none ∷ deps) = all_ready stats deps
  all_ready stats (some d ∷ deps) = if is_ready (stats d) then all_ready stats deps else false

  deps_ready-all :
      (c : Controller N E) (deps : List (Option N))
      → AllPresent deps
      → deps_ready env c deps ≡ ok (all_ready c.stats deps)
  unfolding deps_ready
  deps_ready-all c [] p = refl
  deps_ready-all c (none ∷ deps) p = absurd p
  deps_ready-all c (some d ∷ deps) p = elim (Option-cases (c.stats d)) [
    | inl h ↦ rw (h, deps_ready) (deps_ready-all c deps p)
    | inr (s, h) ↦ elim (Bool-cases s.initialized) [
      | inl i ↦ rw (h, i, deps_ready) (deps_ready-all c deps p)
      | inr i ↦ rw (h, i, deps_ready) refl
    ]
  ]

  pub all_ready-Holds :
      (stats : N → Option (Stats E)) (deps : List (Option N)) (d : N)
      → all_ready stats deps ≡ true
      → Holds deps d
      → is_ready (stats d) ≡ true
  all_ready-Holds stats [] d a h = absurd h
  all_ready-Holds stats (none ∷ deps) d a h = all_ready-Holds stats deps d a h
  all_ready-Holds stats (some x ∷ deps) d a (inl same) =
      subst (λ y. is_ready (stats y) ≡ true) same
        (if_true (is_ready (stats x)) (all_ready stats deps) a).0
  all_ready-Holds stats (some x ∷ deps) d a (inr h) =
      all_ready-Holds stats deps d (if_true (is_ready (stats x)) (all_ready stats deps) a).1 h

  -- What a round of the loop makes of a controller: either all is well with the service, or its
  -- error is appended.
  abbrev pub Succeeds :
      Controller N E → N → List (Option E) → Controller N E → List (Option E) → Type 0
  Succeeds c n errs c' errs' =
      (errs' ≡ errs)
      × (is_ready (c'.stats n) ≡ true)
      × ((k : N) → is_ready (c.stats k) ≡ true → is_ready (c'.stats k) ≡ true)

  abbrev pub Fails : List (Option E) → List (Option E) → Type 0
  Fails errs errs' = (e : E) × (errs' ≡ errs ++ (some e ∷ []))

  pub record Round (c : Controller N E) (n : N) (errs : List (Option E)) (c' : Controller N E)
      (errs' : List (Option E)) : Type 0 where
    pub outcome : Succeeds c n errs c' errs' ⊎ Fails errs errs'
    pub services_same : c'.services ≡ c.services
    pub stats_kept : (k : N) → HasStats c.stats k → HasStats c'.stats k
    pub others_same : (k : N) → ¬ (n ≡ k) → c'.stats k ≡ c.stats k
    pub turned_on :
        is_ready (c'.stats n) ≡ true
        → (is_ready (c.stats n) ≡ true) ⊎ (all_ready c.stats (env.service n).dependencies ≡ true)

  put_stat_ne :
      (stats : N → Option (Stats E)) (n k : N) (s : Stats E)
      → ¬ (n ≡ k)
      → put_stat env stats n s k ≡ stats k
  put_stat_ne stats n k s other = if_neg (env.dec n k) other (some s) (stats k)

  put_stat-is_ready :
      (stats : N → Option (Stats E)) (n k : N) (s : Stats E)
      → s.initialized ≡ true
      → is_ready (stats k) ≡ true
      → is_ready (put_stat env stats n s k) ≡ true
  put_stat-is_ready stats n k s i h = elim (env.dec n k) [
    | yes same ↦ ap is_ready (if_pos (env.dec n k) same (some s) (stats k)) ∙ i
    | no other ↦ ap is_ready (if_neg (env.dec n k) other (some s) (stats k)) ∙ h
  ]

  put_stat-ready_self :
      (stats : N → Option (Stats E)) (n : N) (s : Stats E)
      → s.initialized ≡ true
      → is_ready (put_stat env stats n s n) ≡ true
  put_stat-ready_self stats n s i = ap is_ready (if_pos (env.dec n n) refl (some s) (stats n)) ∙ i

  -- `init` on a service with statistics.
  init_round-ready :
      (c : Controller N E) (n : N) (errs : List (Option E))
      → HasStats c.stats n
      → all_ready c.stats (env.service n).dependencies ≡ true
      → (c' : Controller N E) × (errs' : List (Option E)) × (init_round env c n errs true
          ≡ ok (c', errs'))
        × Round c n errs c' errs'
  unfolding init_round init
  init_round-ready c n errs (s, h) all = elim (Bool-cases (env.service n).initializable) [
    | inl d ↦ elim (Option-cases (env.reply c.calls (init_of, n))) [
      | inl r ↦ (
        set_stat env (invoke env c init_of n).0 n
            (record s { initialized = true; initialization_err = none; ready = true }),
        errs,
        rw (d, h, r, init_round, init) refl,
        record {
          outcome = inl (
            refl,
            put_stat-ready_self c.stats n _ refl,
            λ k x. put_stat-is_ready c.stats n k _ refl x,
          );
          services_same = refl;
          stats_kept = λ k. put_stat-HasStats env c.stats n k _;
          others_same = λ k. put_stat_ne c.stats n k _;
          turned_on = λ x. inr all;
        },
      )
      | inr (e, r) ↦ (
        set_stat env (invoke env c init_of n).0 n
            (record s { initialized = false; initialization_err = some e; ready = false }),
        errs ++ (some (env.wrap e n) ∷ []),
        rw (d, h, r, init_round, init) refl,
        record {
          outcome = inr (env.wrap e n, refl);
          services_same = refl;
          stats_kept = λ k. put_stat-HasStats env c.stats n k _;
          others_same = λ k. put_stat_ne c.stats n k _;
          turned_on = λ x. inr all;
        },
      )
    ]
    | inr d ↦ (
      set_stat env c n (record s { initialized = true; ready = true }),
      errs,
      rw (d, h, init_round, init) refl,
      record {
        outcome = inl (
          refl,
          put_stat-ready_self c.stats n _ refl,
          λ k x. put_stat-is_ready c.stats n k _ refl x,
        );
        services_same = refl;
        stats_kept = λ k. put_stat-HasStats env c.stats n k _;
        others_same = λ k. put_stat_ne c.stats n k _;
        turned_on = λ x. inr all;
      },
    )
  ]

  init_round-blocked :
      (c : Controller N E) (n : N) (errs : List (Option E))
      → HasStats c.stats n
      → (c' : Controller N E) × (errs' : List (Option E)) × (init_round env c n errs false
          ≡ ok (c', errs'))
        × Round c n errs c' errs'
  unfolding init_round
  init_round-blocked c n errs (s, h) = (
    set_stat env c n (record s { initialization_err = some env.not_ready }),
    errs ++ (some (env.wrap env.not_ready n) ∷ []),
    rw (h, init_round) refl,
    record {
      outcome = inr (env.wrap env.not_ready n, refl);
      services_same = refl;
      stats_kept = λ k. put_stat-HasStats env c.stats n k _;
      others_same = λ k. put_stat_ne c.stats n k _;
      turned_on = λ x.
          inl (ap is_ready h ∙ sym (ap is_ready (if_pos (env.dec n n) refl _ (c.stats n))) ∙ x);
    },
  )

  pub init_one-Round :
      (c : Controller N E) (n : N) (errs : List (Option E))
      → AllPresent (env.service n).dependencies
      → HasStats c.stats n
      → (c' : Controller N E) × (errs' : List (Option E)) × (init_one env c n errs ≡ ok (c', errs'))
        × Round c n errs c' errs'
  unfolding init_one
  init_one-Round c n errs p h = elim (Bool-cases (all_ready c.stats (env.service n).dependencies)) [
    | inl r ↦
        let (c', errs', eq, round) = init_round-ready c n errs h r in
        (c', errs', rw (deps_ready-all c (env.service n).dependencies p, r, init_one) eq, round)
    | inr r ↦
        let (c', errs', eq, round) = init_round-blocked c n errs h in
        (c', errs', rw (deps_ready-all c (env.service n).dependencies p, r, init_one) eq, round)
  ]
