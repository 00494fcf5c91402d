-- ===== src/Tests/Tasks.antt =====
-- Runs of the definitions about pkg/utils/task on concrete inputs.
use framingo.Prelude.{ℕ, ◌≤◌, ◌≡◌, refl, List, [], ◌∷◌, true, false, Option, none, some, arith}
use framingo.Task.{
  Task, draining, Manager, Event, pops, pops_exiting, clears, sends, counts, quits, dispatches,
  ends, cancels, finishes, start, count, pop, hand, add_one, close, dispatch, step, run,
}
use framingo.Task.Places.{run-bounded}
use framingo.Task.Exclusive.{run-exclusive}
use framingo.Task.Races.{run-early_finish}

abbrev alone : Task
alone = record { id = 1; has_job = true; exclusive = true }

abbrev common : Task
common = record { id = 2; has_job = true; exclusive = false }

abbrev exclusive_events : List Event
exclusive_events = dispatches ∷ dispatches ∷ pops alone ∷ clears ∷ sends ∷ counts ∷ pops common ∷ []

abbrev after_exclusive : Manager
after_exclusive = record {
  concurrent = 2;
  canceled = false;
  fetcher = draining;
  dispatching = true;
  places = 2;
  waiting = 1;
  executing = alone ∷ [];
  leaving = 0;
  counter = 1;
  closed = false;
}

exclusive-run : run (start 2 0) exclusive_events ≡ some after_exclusive
unfolding run step start dispatch pop hand add_one
exclusive-run = refl

run-bounded_example : count after_exclusive.executing ≤ 2
run-bounded_example = run-bounded 2 0 exclusive_events after_exclusive exclusive-run

run-exclusive_example : after_exclusive.executing ≡ alone ∷ []
run-exclusive_example =
    run-exclusive 2 exclusive_events after_exclusive 0 alone exclusive-run refl refl

run-early_finish_example :
    run (start 1 0) (dispatches ∷ pops common ∷ sends ∷ finishes 0 ∷ []) ≡ none
run-early_finish_example = run-early_finish 1 common [] (omega arith) refl refl

-- The loop that fetches closes the places while the other is still at its `select`.
closed_places : run (start 1 0) (pops common ∷ cancels ∷ quits ∷ dispatches ∷ []) ≡ none
unfolding run step start dispatch pop close
closed_places = refl

abbrev lost_counter : Option Manager → ℕ
lost_counter none = 0
lost_counter (some m) = m.counter

-- The task that says that the manager is exiting has gone to a worker, and stays counted when
-- everything has ended.
exiting-counted :
    lost_counter (
      run
        (start 1 0)
        (dispatches ∷ cancels ∷ ends ∷ pops_exiting ∷ sends ∷ counts ∷ pops_exiting ∷ quits ∷ []))
    ≡ 1
unfolding run step start dispatch hand add_one close
exiting-counted = refl
