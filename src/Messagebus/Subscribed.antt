-- ===== src/Messagebus/Subscribed.antt =====
-- The subscriptions of the modules of pkg/services/messagebus, over its calls.
use framingo.Prelude.{
  ◌+◌, ◌≡◌, refl, sym, ap, subst, ◌∙◌, List, [], ◌∷◌, Bool, true, false, ◌&&◌, Option, none, some,
  if◌then◌else◌, if_cases, All, Bool-cases, Option-cases, inl, inr, arith,
}
use framingo.Prelude.Dicts.{Dict, Keyed, lookup, insert, lookup-insert}
use framingo.Prelude.Dicts.Entries.{IsUnique, insert-IsUnique, All-insert}
use framingo.Messagebus.{
  Module, Bus, Task, subscribes, has_handler, subscribe, perform, perform_all, register_locked,
  subscribe_tasks, unsubscribe_tasks, start_locked, stop_locked, Call, registers, starts, stops,
  finish, call, calls,
}
use framingo.Messagebus.Counts.{
  one_if, times, want, wanted, expected, times-subscribe, perform-modules, perform-started,
  perform_all-modules, perform_all-started, times-subscribe_tasks, times-unsubscribe_tasks, emptied,
  left,
}

module _ {N : Type 0} (key : Keyed N) (accepts : N → Bool) where
  -- A module stands once, under its name, and is subscribed once while the bus is started, and not
  -- at all else; one that handles no messages or that the bus refuses never is.
  pub record IsSubscribed (b : Bus N) : Type 0 where
    pub unique : IsUnique key b.modules
    pub named : All (λ e. e.1.name ≡ e.0) b.modules
    pub exact : (n : N) → times key accepts n b.subscriptions ≡ expected key accepts b n

module _ {N : Type 0} (key : Keyed N) (accepts : N → Bool) where
  made-IsSubscribed :
      (c : Bus N) (ms : Dict N (Module N)) (st : Bool)
      → c.modules ≡ ms
      → c.started ≡ st
      → IsUnique key ms
      → All (λ e. e.1.name ≡ e.0) ms
      → ((n : N)
          → times key accepts n c.subscriptions ≡ (if st then wanted key accepts ms n else 0))
      → IsSubscribed key accepts c
  made-IsSubscribed c ms st p q u h f = record {
    unique = subst (IsUnique key) (sym p) u;
    named = subst (All (λ e. e.1.name ≡ e.0)) (sym p) h;
    exact = λ n.
        f n
        ∙ sym (
            ap (λ x. if x then wanted key accepts c.modules n else 0) q
            ∙ ap (λ d. if st then wanted key accepts d n else 0) p);
  }

  start-IsSubscribed :
      (b : Bus N)
      → IsSubscribed key accepts b
      → IsSubscribed key accepts (finish key accepts (start_locked key accepts b))
  unfolding start_locked finish perform_all
  start-IsSubscribed b h =
      if_cases (λ (p : Bus N × List (Task N)). IsSubscribed key accepts (finish key accepts p))
        b.started (λ _. h)
        (λ stopped.
          let c : Bus N = record b { started = true } in
          let ts = subscribe_tasks key accepts b.modules in
          made-IsSubscribed (perform_all key accepts c ts) b.modules true
            (perform_all-modules key accepts ts c) (perform_all-started key accepts ts c) h.unique
            h.named
            (λ n. omega (
              arith,
              times-subscribe_tasks key accepts b.modules c n h.unique h.named,
              h.exact n ∙ ap (λ x. if x then wanted key accepts b.modules n else 0) stopped,
            )))

  stop-IsSubscribed :
      (b : Bus N)
      → IsSubscribed key accepts b
      → IsSubscribed key accepts (finish key accepts (stop_locked key accepts b))
  unfolding stop_locked finish perform_all
  stop-IsSubscribed b h =
      if_cases (λ (p : Bus N × List (Task N)). IsSubscribed key accepts (finish key accepts p))
        b.started
        (λ started.
          let c : Bus N = record b { started = false } in
          let ts = unsubscribe_tasks key accepts b.modules in
          made-IsSubscribed (perform_all key accepts c ts) b.modules false
            (perform_all-modules key accepts ts c) (perform_all-started key accepts ts c) h.unique
            h.named
            (λ n.
              times-unsubscribe_tasks key accepts b.modules c n
              ∙ ap (left key accepts b.modules n)
                  (h.exact n ∙ ap (λ x. if x then wanted key accepts b.modules n else 0) started)
              ∙ elim (lookup key b.modules n)
                  as (λ o. emptied key accepts o (want key accepts o) ≡ 0) [
                    | none ↦ refl
                    | some _ ↦ refl
                  ]))
        (λ _. h)

  registered-exact :
      (b : Bus N) (s : Module N) (n : N)
      → IsSubscribed key accepts b
      → lookup key b.modules s.name ≡ none
      → wanted key accepts (insert key b.modules s.name s) n
        ≡ wanted key accepts b.modules n
          + (if key.same s.name n then one_if (has_handler s && accepts s.name) else 0)
  registered-exact b s n h fresh =
      ap (want key accepts) (lookup-insert key b.modules s.name n s)
      ∙ elim (Bool-cases (key.same s.name n)) [
        | inl p ↦ omega (
          arith,
          ap (λ x. want key accepts (if x then some s else lookup key b.modules n)) p,
          ap (want key accepts) (ap (lookup key b.modules) (sym (key.same_eq s.name n p)) ∙ fresh),
          ap (λ x. if x then one_if (has_handler s && accepts s.name) else 0) p,
        )
        | inr p ↦ omega (
          arith,
          ap (λ x. want key accepts (if x then some s else lookup key b.modules n)) p,
          ap (λ x. if x then one_if (has_handler s && accepts s.name) else 0) p,
        )
      ]

  abbrev registering : Bus N → Module N → Option (Module N) → Bus N × List (Task N)
  registering b s o = elim o [
    | some _ ↦ (b, [])
    | none ↦ (
      record b { modules = insert key b.modules s.name s },
      if b.started then subscribes s ∷ [] else [],
    )
  ]

  inserted :
      (b : Bus N) (s : Module N)
      → IsSubscribed key accepts b
      → lookup key b.modules s.name ≡ none
      → IsSubscribed key accepts (finish key accepts (registering b s none))
  unfolding finish perform_all perform
  inserted b s h e =
      let d = insert key b.modules s.name s in
      let c : Bus N = record b { modules = d } in
      let unique = insert-IsUnique key b.modules s.name s h.unique in
      let named : All (λ e. e.1.name ≡ e.0) d =
        All-insert key (λ e. e.1.name ≡ e.0) (λ e. e.1.name ≡ e.0) b.modules s.name s h.unique
          (λ j w ne at. at) refl h.named in
      if_cases (λ (ts : List (Task N)). IsSubscribed key accepts (perform_all key accepts c ts))
        b.started
        (λ p.
          made-IsSubscribed (subscribe key accepts c s) d true
            (perform-modules key accepts c (subscribes s))
            (perform-started key accepts c (subscribes s) ∙ p) unique named
            (λ n. omega (
              arith,
              times-subscribe key accepts c s n,
              h.exact n ∙ ap (λ x. if x then wanted key accepts b.modules n else 0) p,
              registered-exact b s n h e,
            )))
        (λ p.
          made-IsSubscribed c d false refl p unique named
            (λ n. h.exact n ∙ ap (λ x. if x then wanted key accepts b.modules n else 0) p))

  register-IsSubscribed :
      (b : Bus N) (s : Module N)
      → IsSubscribed key accepts b
      → IsSubscribed key accepts (finish key accepts (register_locked key accepts b s))
  unfolding register_locked finish perform_all
  register-IsSubscribed b s h = elim (Option-cases (lookup key b.modules s.name)) [
    | inr (t, e) ↦
        subst (λ o. IsSubscribed key accepts (finish key accepts (registering b s o))) (sym e) h
    | inl e ↦
        subst (λ o. IsSubscribed key accepts (finish key accepts (registering b s o))) (sym e)
          (inserted b s h e)
  ]

  -- Whatever calls of Register, Start and Stop follow on a new bus, or on one as described, none
  -- interrupted: while the bus is started each module that handles messages and that the bus takes
  -- is subscribed exactly once, and all else never; after a stop nothing is.
  pub calls-IsSubscribed :
      (b : Bus N) (cs : List (Call N))
      → IsSubscribed key accepts b
      → IsSubscribed key accepts (calls key accepts b cs)
  unfolding calls call
  calls-IsSubscribed b [] h = h
  calls-IsSubscribed b (registers s ∷ cs) h =
      calls-IsSubscribed (call key accepts b (registers s)) cs (register-IsSubscribed b s h)
  calls-IsSubscribed b (starts ∷ cs) h =
      calls-IsSubscribed (call key accepts b starts) cs (start-IsSubscribed b h)
  calls-IsSubscribed b (stops ∷ cs) h =
      calls-IsSubscribed (call key accepts b stops) cs (stop-IsSubscribed b h)
