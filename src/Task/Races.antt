-- ===== src/Task/Races.antt =====
-- Interleavings of the two loops of pkg/utils/task/manager.go that end in a panic.
use framingo.Prelude.{
  ℕ, ◌<◌, ◌≡◌, refl, ap, ◌∙◌, List, [], ◌∷◌, Bool, true, false, if◌then◌else◌, Option, none, some,
  lt→ltb,
}
use framingo.Task.{
  Task, is_valid, offering, handed, Manager, Event, pops, sends, finishes, dispatches, start, pop,
  hand, dispatch, step, run,
}

-- A manager at rest with one worker that waits.
abbrev one_waiting : ℕ → Manager
unfolding start
one_waiting c = record (start c 0) { places = 1; waiting = 1 }

abbrev run_on : Option Manager → List Event → Option Manager
unfolding run
run_on none es = none
run_on (some m) es = run m es

run-cons : (m : Manager) (e : Event) (es : List Event) → run m (e ∷ es) ≡ run_on (step m e) es
unfolding run run_on
run-cons m e es = cases (step m e)
  where
    cases :
        (o : Option Manager)
        → elim o as (λ _. Option Manager) [ none ↦ none | some n ↦ run n es ] ≡ run_on o es
    cases none = refl
    cases (some n) = refl

first_place : (c : ℕ) → 0 < c → step (start c 0) dispatches ≡ some (one_waiting c)
unfolding step dispatch start one_waiting
first_place c h = ap (λ (b : Bool). some (if b then one_waiting c else start c 0)) (lt→ltb 0 c h)

popped :
    (c : ℕ) (t : Task)
    → is_valid t ≡ true
    → t.exclusive ≡ false
    → step (one_waiting c) (pops t) ≡ some (record (one_waiting c) { fetcher = offering t })
unfolding step pop start one_waiting
popped c t v x = rw (v, x) refl

sent :
    (c : ℕ) (t : Task)
    → is_valid t ≡ true
    → step (record (one_waiting c) { fetcher = offering t }) sends
      ≡ some (record (one_waiting c) { fetcher = handed t; waiting = 0; executing = t ∷ [] })
unfolding step hand start one_waiting
sent c t v =
    ap
      (λ (b : Bool). some (
        if b
        then record (one_waiting c) { fetcher = handed t; waiting = 0; executing = t ∷ [] }
        else record (one_waiting c) { fetcher = handed t; waiting = 0; leaving = 1 }))
      v

finished :
    (c : ℕ) (t : Task)
    → step
        (record (one_waiting c) { fetcher = handed t; waiting = 0; executing = t ∷ [] })
        (finishes 0)
      ≡ none
unfolding step start one_waiting
finished c t = refl

-- On a first start with a place for a worker: if the worker is done with its first task before the
-- loop that fetches has counted it, the program panics, whatever would follow.
pub run-early_finish :
    (c : ℕ) (t : Task) (es : List Event)
    → 0 < c
    → is_valid t ≡ true
    → t.exclusive ≡ false
    → run (start c 0) (dispatches ∷ pops t ∷ sends ∷ finishes 0 ∷ es) ≡ none
unfolding run_on
run-early_finish c t es h v x =
    run-cons (start c 0) dispatches (pops t ∷ sends ∷ finishes 0 ∷ es)
    ∙ ap (λ o. run_on o (pops t ∷ sends ∷ finishes 0 ∷ es)) (first_place c h)
    ∙ run-cons (one_waiting c) (pops t) (sends ∷ finishes 0 ∷ es)
    ∙ ap (λ o. run_on o (sends ∷ finishes 0 ∷ es)) (popped c t v x)
    ∙ run-cons (record (one_waiting c) { fetcher = offering t }) sends (finishes 0 ∷ es)
    ∙ ap (λ o. run_on o (finishes 0 ∷ es)) (sent c t v)
    ∙ run-cons (record (one_waiting c) { fetcher = handed t; waiting = 0; executing = t ∷ [] })
        (finishes 0) es
    ∙ ap (λ o. run_on o es) (finished c t)
