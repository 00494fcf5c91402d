-- ===== src/Task.antt =====
-- pkg/utils/task/manager.go: the two loops of `Start`, that which fetches tasks and that which lets
-- workers execute them, with `Stop` and the workers. What a loop does between two points where it
-- may wait is one event, and a history is a list of events in any order. The task that the queue
-- gives stands with the event, so any queue is allowed for. A worker is one of three counts or
-- lists: those that wait for a task, the tasks of those that execute, and those that are about to
-- give their place back. `counter` is the wait group of executions, whose `Done` panics at 0.
pub mod Places
pub mod Exclusive
pub mod Races
use framingo.Prelude.{
  ℕ, zero, suc, ◌+◌, ◌-◌, List, [], ◌∷◌, ◌++◌, Bool, true, false, ◌&&◌, ◌||◌, not, ltb, ◌==◌,
  if◌then◌else◌, Option, none, some,
}

-- `Task`, with the fields that the loops read. A task without a job is not valid, and `exiting` is
-- one of these.
pub record Task : Type 0 where
  pub id : ℕ
  pub has_job : Bool
  pub exclusive : Bool

abbrev pub is_valid : Task → Bool
is_valid t = t.has_job

-- Where the loop that fetches is: before `Pop`, before the execution of an exclusive task, at the
-- `select`, behind a send and before `Add`, behind an exclusive task, or at its end.
pub data Fetcher : Type 0 where
  popping : Fetcher
  clearing offering handed : Task → Fetcher
  draining : Fetcher
  gone : Fetcher

pub record Manager : Type 0 where
  pub concurrent : ℕ
  pub canceled : Bool
  pub fetcher : Fetcher
  pub dispatching : Bool
  pub places : ℕ
  pub waiting : ℕ
  pub executing : List Task
  pub leaving : ℕ
  pub counter : ℕ
  pub closed : Bool

-- `finishes` names the worker by its place among those that execute.
pub data Event : Type 0 where
  pops : Task → Event
  pops_exiting clears sends counts drains quits : Event
  dispatches ends cancels : Event
  finishes : ℕ → Event
  wakes leaves : Event

-- `Start`, on the counter that an earlier run has left.
unfoldable pub start : ℕ → ℕ → Manager
start concurrent counter = record {
  concurrent = concurrent;
  canceled = false;
  fetcher = popping;
  dispatching = true;
  places = 0;
  waiting = 0;
  executing = [];
  leaving = 0;
  counter = counter;
  closed = false;
}

abbrev pub without : ℕ → List Task → List Task
without i [] = []
without zero (t ∷ ts) = ts
without (suc i) (t ∷ ts) = t ∷ without i ts

abbrev pub count : List Task → ℕ
count [] = 0
count (t ∷ ts) = suc (count ts)

-- `exiting`
abbrev pub exiting_task : Task
exiting_task = record { id = 0; has_job = false; exclusive = false }

-- After `Pop`, where it has not given `exiting`. A task that is not valid is dropped.
unfoldable pub pop : Manager → Task → Manager
pop m t =
    if is_valid t then record m { fetcher = if t.exclusive then clearing t else offering t } else m

-- The worker that takes the task: it executes it, or leaves if it is not valid.
unfoldable pub hand : Manager → Task → Manager
hand m t =
    let n = record m { fetcher = handed t; waiting = m.waiting - 1 } in
    if is_valid t
    then record n { executing = m.executing ++ (t ∷ []) }
    else record n { leaving = m.leaving + 1 }

-- `m.ew.Add(1)`, and what follows for an exclusive task.
unfoldable pub add_one : Manager → Task → Manager
add_one m t = record m {
  counter = m.counter + 1;
  fetcher = if t.exclusive then draining else popping;
}

-- A worker's function has returned: its task is no longer executing, and `Done` counts it.
unfoldable pub finish : Manager → ℕ → Manager
finish m i = record m {
  executing = without i m.executing;
  counter = m.counter - 1;
  leaving = m.leaving + 1;
}

-- The loop that fetches has ended: the channels of tasks and of places are closed.
unfoldable pub close : Manager → Manager
close m = record m { fetcher = gone; closed = true }

abbrev pub fetch_pops : Manager → Task → Fetcher → Manager
fetch_pops m t popping = pop m t
fetch_pops m t _ = m

abbrev pub fetch_exiting : Manager → Fetcher → Manager
fetch_exiting m popping = record m { fetcher = offering exiting_task }
fetch_exiting m _ = m

abbrev pub fetch_clears : Manager → Fetcher → Manager
fetch_clears m (clearing t) = if m.counter == 0 then record m { fetcher = offering t } else m
fetch_clears m _ = m

abbrev pub fetch_sends : Manager → Fetcher → Manager
fetch_sends m (offering t) = if ltb 0 m.waiting then hand m t else m
fetch_sends m _ = m

abbrev pub fetch_counts : Manager → Fetcher → Manager
fetch_counts m (handed t) = add_one m t
fetch_counts m _ = m

abbrev pub fetch_drains : Manager → Fetcher → Manager
fetch_drains m draining = if m.counter == 0 then record m { fetcher = popping } else m
fetch_drains m _ = m

abbrev pub fetch_quits : Manager → Fetcher → Manager
fetch_quits m (offering t) = if m.canceled then close m else m
fetch_quits m _ = m

-- The loop that lets workers execute takes a place for a new one. A send on the closed channel of
-- places is a panic.
unfoldable pub dispatch : Manager → Option Manager
dispatch m =
    if m.dispatching
    then (if m.closed
        then none
        else (some (
            if ltb m.places m.concurrent
            then record m { places = m.places + 1; waiting = m.waiting + 1 }
            else m)))
    else some m

-- What an event makes of the manager; nothing where it cannot happen, and `none` where the program
-- panics.
unfoldable pub step : Manager → Event → Option Manager
step m (pops t) = some (fetch_pops m t m.fetcher)
step m pops_exiting = some (fetch_exiting m m.fetcher)
step m clears = some (fetch_clears m m.fetcher)
step m sends = some (fetch_sends m m.fetcher)
step m counts = some (fetch_counts m m.fetcher)
step m drains = some (fetch_drains m m.fetcher)
step m quits = some (fetch_quits m m.fetcher)
step m dispatches = dispatch m
step m ends = some (if m.dispatching && m.canceled then record m { dispatching = false } else m)
step m cancels = some record m { canceled = true }
step m (finishes i) =
    if ltb i (count m.executing)
    then (if m.counter == 0 then none else some (finish m i))
    else some m
step m wakes = some (
    if ltb 0 m.waiting && m.closed
    then record m { waiting = m.waiting - 1; leaving = m.leaving + 1 }
    else m)
step m leaves =
    some
      (if ltb 0 m.leaving then record m { leaving = m.leaving - 1; places = m.places - 1 } else m)

unfoldable pub run : Manager → List Event → Option Manager
run m [] = some m
run m (e ∷ es) = elim (step m e) [ none ↦ none | some n ↦ run n es ]
