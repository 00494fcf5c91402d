-- ===== src/Supervisor/Starting.antt =====
-- `initAll` of pkg/services/supervisor/controller.go.
use framingo.Prelude.{
  ◌≡◌, refl, sym, subst, ap, ◌∙◌, ◌⊎◌, inl, inr, List, [], ◌∷◌, ◌++◌, append_assoc, Bool, true,
  false, Option, none, some, not-both, ok,
}
use framingo.Graph.Reach.{Among}
use framingo.Supervisor.{Env, CombineLaws, Stats, Controller, itself}
use framingo.Supervisor.Batches.{init_each, init_all, combined}
use framingo.Supervisor.Registry.{HasStats, IsConsistent}
use framingo.Supervisor.Order.{Holds}
use framingo.Supervisor.Rounds.{
  AllPresent, is_ready, HasError, combine-HasError, all_ready-Holds, Round, init_one-Round,
}

abbrev pub is_initialized : {E : Type 0} → Option (Stats E) → Bool
is_initialized none = false
is_initialized (some s) = s.initialized

ready_of_initialized :
    {E : Type 0} (o : Option (Stats E)) → is_initialized o ≡ true → is_ready o ≡ true
ready_of_initialized none h = refl
ready_of_initialized (some s) h = h

initialized_of_ready :
    {N E : Type 0} (stats : N → Option (Stats E)) (n : N)
    → HasStats stats n
    → is_ready (stats n) ≡ true
    → is_initialized (stats n) ≡ true
initialized_of_ready stats n (s, e) h = ap is_initialized e ∙ (sym (ap is_ready e) ∙ h)

module _ {N E : Type 0} (env : Env N E) where
  -- Every service that is initialized has its dependencies initialized, as far as there are statistics
  -- of them.
  abbrev pub IsClosed : (N → Option (Stats E)) → Type 0
  IsClosed stats =
      (n d : N)
      → is_initialized (stats n) ≡ true
      → Holds (env.service n).dependencies d
      → is_ready (stats d) ≡ true

  abbrev pub NoneReady : (N → Option (Stats E)) → List N → Type 0
  NoneReady stats ns = (k : N) → Among itself ns k → is_ready (stats k) ≡ false

  abbrev pub AllDistinct : List N → Type 0
  AllDistinct [] = Unit {0}
  AllDistinct (n ∷ ns) = (¬ Among itself ns n) × AllDistinct ns

  Round-IsClosed :
      (c c' : Controller N E) (n : N) (errs errs' : List (Option E))
      → Round env c n errs c' errs'
      → is_ready (c.stats n) ≡ false
      → IsClosed c.stats
      → IsClosed c'.stats
  Round-IsClosed c c' n errs errs' r off closed k d on h = elim (env.dec n d) [
    | yes same ↦ elim (env.dec n k) [
      | yes here ↦
          subst (λ x. is_ready (c'.stats x) ≡ true) same
            (ready_of_initialized (c'.stats n)
              (subst (λ x. is_initialized (c'.stats x) ≡ true) (sym here) on))
      | no other ↦ absurd (
          not-both (is_ready (c.stats n)) off (
            subst (λ x. is_ready (c.stats x) ≡ true) (sym same)
              (closed k d (ap is_initialized (sym (r.others_same k other)) ∙ on) h)))
    ]
    | no apart ↦ ap is_ready (r.others_same d apart) ∙ elim (env.dec n k) [
      | yes here ↦
          elim (r.turned_on (
            ready_of_initialized (c'.stats n)
              (subst (λ x. is_initialized (c'.stats x) ≡ true) (sym here) on))) [
                | inl already ↦ absurd (not-both (is_ready (c.stats n)) off already)
                | inr all ↦
                    all_ready-Holds env c.stats (env.service n).dependencies d all
                      (subst (λ x. Holds (env.service x).dependencies d) (sym here) h)
              ]
      | no other ↦ closed k d (ap is_initialized (sym (r.others_same k other)) ∙ on) h
    ]
  ]

  -- What the loop makes of a controller.
  pub record Rounds (c : Controller N E) (ns : List N) (errs : List (Option E))
      (c' : Controller N E) (errs' : List (Option E)) : Type 0 where
    pub outcome :
        ((errs' ≡ errs)
          × ((k : N) → Among itself ns k → is_ready (c'.stats k) ≡ true)
          × ((k : N) → is_ready (c.stats k) ≡ true → is_ready (c'.stats k) ≡ true))
        ⊎ ((new : List (Option E)) × (errs' ≡ errs ++ new) × HasError new)
    pub services_same : c'.services ≡ c.services
    pub stats_kept : (k : N) → HasStats c.stats k → HasStats c'.stats k
    pub closes : AllDistinct ns → NoneReady c.stats ns → IsClosed c.stats → IsClosed c'.stats

  -- Rounds after one that succeeds, and after one that fails.
  join :
      (c a b : Controller N E) (n : N) (ns : List N) (errs errs1 errs2 : List (Option E))
      → Round env c n errs a errs1
      → Rounds a ns errs1 b errs2
      → Rounds c (n ∷ ns) errs b errs2
  join c a b n ns errs errs1 errs2 p q = record {
    outcome = elim p.outcome [
      | inl (same, ready, keeps) ↦ elim q.outcome [
        | inl (same', all, keeps') ↦ inl (
          same' ∙ same,
          λ k m. elim m [
            | inl e ↦ keeps' k (subst (λ x. is_ready (a.stats x) ≡ true) e ready)
            | inr r ↦ all k r
          ],
          λ k h. keeps' k (keeps k h),
        )
        | inr (new, eq, h) ↦ inr (new, eq ∙ ap (λ x. x ++ new) same, h)
      ]
      | inr (e, eq) ↦ elim q.outcome [
        | inl (same', all, keeps') ↦ inr (some e ∷ [], same' ∙ eq, tt)
        | inr (new, eq', h) ↦
            inr
              (some e ∷ new, eq' ∙ ap (λ x. x ++ new) eq ∙ append_assoc errs (some e ∷ []) new, tt)
      ]
    ];
    services_same = q.services_same ∙ p.services_same;
    stats_kept = λ k h. q.stats_kept k (p.stats_kept k h);
    closes = λ distinct off closed.
        q.closes distinct.1
          (λ k m.
            ap is_ready
              (p.others_same k (λ same. distinct.0 (subst (Among itself ns) (sym same) m)))
            ∙ off k (inr m))
          (Round-IsClosed c a n errs errs1 p (off n (inl refl)) closed);
  }

  init_each-Rounds :
      (c : Controller N E) (ns : List N) (errs : List (Option E))
      → ((n : N) → AllPresent (env.service n).dependencies)
      → ((n : N) → Among itself ns n → HasStats c.stats n)
      → (c' : Controller N E) × (errs' : List (Option E)) × (init_each env c ns errs
          ≡ ok (c', errs'))
        × Rounds c ns errs c' errs'
  unfolding init_each
  init_each-Rounds c [] errs p h = (
    c,
    errs,
    refl,
    record {
      outcome = inl (refl, λ k m. absurd m, λ k x. x);
      services_same = refl;
      stats_kept = λ k x. x;
      closes = λ d o x. x;
    },
  )
  init_each-Rounds c (n ∷ ns) errs p h =
      let (a, errs1, eq, round) = init_one-Round env c n errs (p n) (h n (inl refl)) in
      let (b, errs2, eq', rounds) =
        init_each-Rounds a ns errs1 p (λ k m. round.stats_kept k (h k (inr m))) in
      (b, errs2, rw (eq, init_each) eq', join c a b n ns errs errs1 errs2 round rounds)

  -- On a consistent controller of services with no nil dependency, and with a combination of
  -- errors that is nil only if all its parts are, initAll comes to its end and keeps the list of
  -- services. If it returns no error, every service of the list has statistics and is initialized.
  pub init_all-nil :
      (c : Controller N E)
      → CombineLaws env
      → IsConsistent env c
      → ((n : N) → AllPresent (env.service n).dependencies)
      → (c' : Controller N E) × (e : Option E) × (init_all env c ≡ ok (c', e))
        × (c'.services ≡ c.services)
        × (e ≡ none → (n : N) → Among itself c.services n → is_initialized (c'.stats n) ≡ true)
  unfolding init_all
  init_all-nil c laws s p =
      let (c', errs, eq, rounds) = init_each-Rounds c c.services [] p s.services_known in
      (
        c',
        env.combine errs,
        ap (combined env) eq,
        rounds.services_same,
        elim rounds.outcome [
          | inl (same, all, keeps) ↦ λ e n m.
              initialized_of_ready c'.stats n (rounds.stats_kept n (s.services_known n m)) (all n m)
          | inr (new, same, h) ↦
              λ e n m. absurd (combine-HasError env errs laws (subst HasError (sym same) h) e)
        ],
      )

  -- On a consistent controller of services with no nil dependency, where no name stands twice in
  -- the list of services, none of the list is initialized, and every service that is initialized
  -- has its dependencies initialized as far as there are statistics of them: initAll comes to its
  -- end, and the last of these holds after it too, whichever services failed.
  pub init_all-IsClosed :
      (c : Controller N E)
      → IsConsistent env c
      → ((n : N) → AllPresent (env.service n).dependencies)
      → AllDistinct c.services
      → NoneReady c.stats c.services
      → IsClosed c.stats
      → (c' : Controller N E) × (e : Option E) × (init_all env c ≡ ok (c', e)) × IsClosed c'.stats
  unfolding init_all
  init_all-IsClosed c s p distinct off closed =
      let (c', errs, eq, rounds) = init_each-Rounds c c.services [] p s.services_known in
      (c', env.combine errs, ap (combined env) eq, rounds.closes distinct off closed)
