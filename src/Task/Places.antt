-- ===== src/Task/Places.antt =====
-- The workers of pkg/utils/task/manager.go and their places.
use framingo.Prelude.{
  ℕ, zero, suc, ◌+◌, ◌≤◌, ◌<◌, ◌≡◌, refl, ap, subst, List, [], ◌∷◌, ◌++◌, Bool, true, ◌&&◌, ltb,
  ◌==◌, if_cases, Option, none, some, arith, ltb→lt,
}
use framingo.Task.{
  Task, is_valid, Fetcher, popping, clearing, offering, handed, draining, gone, Manager, Event,
  pops, pops_exiting, clears, sends, counts, drains, quits, dispatches, ends, cancels, finishes,
  wakes, leaves, start, without, count, pop, hand, add_one, finish, close, fetch_pops,
  fetch_exiting, fetch_clears, fetch_sends, fetch_counts, fetch_drains, fetch_quits, dispatch, step,
  run,
}

pub count-snoc : (ts : List Task) (t : Task) → count (ts ++ (t ∷ [])) ≡ suc (count ts)
count-snoc [] t = refl
count-snoc (u ∷ ts) t = ap suc (count-snoc ts t)

pub count-without : (i : ℕ) (ts : List Task) → i < count ts → suc (count (without i ts)) ≡ count ts
count-without i [] h = absurd (omega arith)
count-without zero (t ∷ ts) h = refl
count-without (suc i) (t ∷ ts) h = ap suc (count-without i ts (omega arith))

-- What holds of a manager, unless the program has panicked.
abbrev pub After : (Manager → Type 0) → Option Manager → Type 0
After P none = Unit {0}
After P (some n) = P n

module _ (c : ℕ) where
  -- Each worker holds a place, and there are no more places than were asked for.
  pub record IsPlaced (m : Manager) : Type 0 where
    pub limit : m.concurrent ≡ c
    pub held : m.places ≡ m.waiting + count m.executing + m.leaving
    pub bounded : m.places ≤ c

  fetch_sends-IsPlaced : (m : Manager) (f : Fetcher) → IsPlaced m → IsPlaced (fetch_sends m f)
  unfolding hand
  fetch_sends-IsPlaced m (offering t) p =
      if_cases IsPlaced (ltb 0 m.waiting)
        (λ w.
          if_cases IsPlaced (is_valid t)
            (λ v. record {
              held = omega (arith, ltb→lt 0 m.waiting w, p.held, count-snoc m.executing t);
              limit = p.limit;
              bounded = p.bounded;
            })
            (λ v. record {
              held = omega (arith, ltb→lt 0 m.waiting w, p.held);
              limit = p.limit;
              bounded = p.bounded;
            }))
        (λ w. p)
  fetch_sends-IsPlaced m popping p = p
  fetch_sends-IsPlaced m (clearing t) p = p
  fetch_sends-IsPlaced m (handed t) p = p
  fetch_sends-IsPlaced m draining p = p
  fetch_sends-IsPlaced m gone p = p

  fetch_pops-IsPlaced :
      (m : Manager) (u : Task) (f : Fetcher) → IsPlaced m → IsPlaced (fetch_pops m u f)
  unfolding pop
  fetch_pops-IsPlaced m u popping p =
      if_cases IsPlaced (is_valid u)
        (λ v. record { held = p.held; limit = p.limit; bounded = p.bounded }) (λ v. p)
  fetch_pops-IsPlaced m u (clearing t) p = p
  fetch_pops-IsPlaced m u (offering t) p = p
  fetch_pops-IsPlaced m u (handed t) p = p
  fetch_pops-IsPlaced m u draining p = p
  fetch_pops-IsPlaced m u gone p = p

  fetch_exiting-IsPlaced : (m : Manager) (f : Fetcher) → IsPlaced m → IsPlaced (fetch_exiting m f)
  fetch_exiting-IsPlaced m popping p = record {
    held = p.held;
    limit = p.limit;
    bounded = p.bounded;
  }
  fetch_exiting-IsPlaced m (clearing t) p = p
  fetch_exiting-IsPlaced m (offering t) p = p
  fetch_exiting-IsPlaced m (handed t) p = p
  fetch_exiting-IsPlaced m draining p = p
  fetch_exiting-IsPlaced m gone p = p

  fetch_clears-IsPlaced : (m : Manager) (f : Fetcher) → IsPlaced m → IsPlaced (fetch_clears m f)
  fetch_clears-IsPlaced m (clearing t) p =
      if_cases IsPlaced (m.counter == 0)
        (λ v. record { held = p.held; limit = p.limit; bounded = p.bounded }) (λ v. p)
  fetch_clears-IsPlaced m popping p = p
  fetch_clears-IsPlaced m (offering t) p = p
  fetch_clears-IsPlaced m (handed t) p = p
  fetch_clears-IsPlaced m draining p = p
  fetch_clears-IsPlaced m gone p = p

  fetch_counts-IsPlaced : (m : Manager) (f : Fetcher) → IsPlaced m → IsPlaced (fetch_counts m f)
  unfolding add_one
  fetch_counts-IsPlaced m (handed t) p = record {
    held = p.held;
    limit = p.limit;
    bounded = p.bounded;
  }
  fetch_counts-IsPlaced m popping p = p
  fetch_counts-IsPlaced m (clearing t) p = p
  fetch_counts-IsPlaced m (offering t) p = p
  fetch_counts-IsPlaced m draining p = p
  fetch_counts-IsPlaced m gone p = p

  fetch_drains-IsPlaced : (m : Manager) (f : Fetcher) → IsPlaced m → IsPlaced (fetch_drains m f)
  fetch_drains-IsPlaced m draining p =
      if_cases IsPlaced (m.counter == 0)
        (λ v. record { held = p.held; limit = p.limit; bounded = p.bounded }) (λ v. p)
  fetch_drains-IsPlaced m popping p = p
  fetch_drains-IsPlaced m (clearing t) p = p
  fetch_drains-IsPlaced m (offering t) p = p
  fetch_drains-IsPlaced m (handed t) p = p
  fetch_drains-IsPlaced m gone p = p

  fetch_quits-IsPlaced : (m : Manager) (f : Fetcher) → IsPlaced m → IsPlaced (fetch_quits m f)
  unfolding close
  fetch_quits-IsPlaced m (offering t) p =
      if_cases IsPlaced m.canceled
        (λ v. record { held = p.held; limit = p.limit; bounded = p.bounded }) (λ v. p)
  fetch_quits-IsPlaced m popping p = p
  fetch_quits-IsPlaced m (clearing t) p = p
  fetch_quits-IsPlaced m (handed t) p = p
  fetch_quits-IsPlaced m draining p = p
  fetch_quits-IsPlaced m gone p = p

  and_left : (b c : Bool) → (b && c) ≡ true → b ≡ true
  and_left b c h = ground arith

  dispatch-IsPlaced : (m : Manager) → IsPlaced m → After IsPlaced (dispatch m)
  unfolding dispatch
  dispatch-IsPlaced m p =
      if_cases (After IsPlaced) m.dispatching
        (λ d.
          if_cases (After IsPlaced) m.closed (λ c. tt)
            (λ c.
              if_cases IsPlaced (ltb m.places m.concurrent)
                (λ l. record {
                  held = omega (arith, p.held);
                  limit = p.limit;
                  bounded = omega (arith, ltb→lt m.places m.concurrent l, p.limit);
                })
                (λ l. p)))
        (λ d. p)

  pub step-IsPlaced : (m : Manager) (e : Event) → IsPlaced m → After IsPlaced (step m e)
  unfolding step finish
  step-IsPlaced m (pops t) p = fetch_pops-IsPlaced m t m.fetcher p
  step-IsPlaced m pops_exiting p = fetch_exiting-IsPlaced m m.fetcher p
  step-IsPlaced m clears p = fetch_clears-IsPlaced m m.fetcher p
  step-IsPlaced m sends p = fetch_sends-IsPlaced m m.fetcher p
  step-IsPlaced m counts p = fetch_counts-IsPlaced m m.fetcher p
  step-IsPlaced m drains p = fetch_drains-IsPlaced m m.fetcher p
  step-IsPlaced m quits p = fetch_quits-IsPlaced m m.fetcher p
  step-IsPlaced m dispatches p = dispatch-IsPlaced m p
  step-IsPlaced m ends p =
      if_cases IsPlaced (m.dispatching && m.canceled)
        (λ h. record { held = p.held; limit = p.limit; bounded = p.bounded }) (λ h. p)
  step-IsPlaced m cancels p = record { held = p.held; limit = p.limit; bounded = p.bounded }
  step-IsPlaced m (finishes i) p =
      if_cases (After IsPlaced) (ltb i (count m.executing))
        (λ l.
          if_cases (After IsPlaced) (m.counter == 0) (λ z. tt)
            (λ z. record {
              held =
                  omega
                    (arith, p.held, count-without i m.executing (ltb→lt i (count m.executing) l));
              limit = p.limit;
              bounded = p.bounded;
            }))
        (λ l. p)
  step-IsPlaced m wakes p =
      if_cases IsPlaced (ltb 0 m.waiting && m.closed)
        (λ h. record {
          held = omega (arith, p.held, ltb→lt 0 m.waiting (and_left (ltb 0 m.waiting) m.closed h));
          limit = p.limit;
          bounded = p.bounded;
        })
        (λ h. p)
  step-IsPlaced m leaves p =
      if_cases IsPlaced (ltb 0 m.leaving)
        (λ h. record {
          held = omega (arith, p.held, ltb→lt 0 m.leaving h);
          limit = p.limit;
          bounded = omega (arith, p.bounded);
        })
        (λ h. p)

-- A property that every step keeps is kept by a run.
pub run-After :
    (P : Manager → Type 0)
    → ((m : Manager) (e : Event) → P m → After P (step m e))
    → (m : Manager) (es : List Event) → P m
    → After P (run m es)
unfolding run
run-After P keep m [] p = p
run-After P keep m (e ∷ es) p =
    elim (step m e) as (λ o. After P o → After P (elim o [ none ↦ none | some n ↦ run n es ])) [
      | none ↦ λ h. tt
      | some n ↦ λ h. run-After P keep n es h
    ]
      (keep m e p)

-- However the two loops and the workers take turns: as long as nothing panics, no more tasks
-- execute at a time than the manager was made for; with the default of 0, none ever does.
pub run-bounded :
    (concurrent counter : ℕ) (es : List Event) (n : Manager)
    → run (start concurrent counter) es ≡ some n
    → count n.executing ≤ concurrent
unfolding start
run-bounded concurrent counter es n e =
    let placed : IsPlaced concurrent n = subst (After (IsPlaced concurrent)) e (
      run-After (IsPlaced concurrent) (step-IsPlaced concurrent) (start concurrent counter) es
        record { limit = refl; held = omega arith; bounded = omega arith }) in
    omega (arith, placed.held, placed.bounded)
