-- ===== src/Job.antt =====
-- pkg/utils/job/job.go, model.go and util.go: a job, its state and the goroutines that run it. Each
-- section under the lock is one event, and so is each access of `ctx`, `cancel` and `err` outside
-- it, so a history is a list of events in any order. `workers` are the goroutines that `Run` has
-- started, each with how far it got; `cancels` counts the calls of `Cancel` that have passed their
-- test and not yet changed the state, `calling` those that have and not yet called `j.cancel`, which
-- crashes the program if it is nil; what follows that is of no account. Times are numbers, given
-- with the events.
pub mod Runs
pub mod Quiet
pub mod Whole
pub mod Races
pub mod Attended
use framingo.Prelude.{
  ℕ, zero, suc, ◌+◌, ◌-◌, List, [], ◌∷◌, ◌++◌, Bool, true, false, Option, none, some, ltb, ◌&&◌,
  ◌||◌, if◌then◌else◌,
}

pub data State : Type 0 where
  created running canceling succeeded failed canceled : State

abbrev pub is_done : State → Bool
is_done succeeded = true
is_done failed = true
is_done canceled = true
is_done _ = false

abbrev pub is_pending : State → Bool
is_pending running = true
is_pending canceling = true
is_pending _ = false

abbrev pub is_running : State → Bool
is_running running = true
is_running _ = false

abbrev pub is_canceling : State → Bool
is_canceling canceling = true
is_canceling _ = false

-- How the job's function ended: its error, or the error that was made of a panic.
pub data Ending (E : Type 0) : Type 0 where
  returned : Option E → Ending E
  panicked : E → Ending E

-- `started` before `initialize`, `ready` after it, `working` once the context is set, `ended` when
-- the function is through.
pub data Phase (P E : Type 0) : Type 0 where
  started : P → Phase P E
  ready : Phase P E
  working : Phase P E
  ended : Ending E → Phase P E

pub record Job (P R E : Type 0) : Type 0 where
  pub state : State
  pub params : Option P
  pub result : Option R
  pub error : Option E
  pub progress : Option ℕ
  pub started_at : ℕ
  pub ended_at : ℕ
  pub has_cancel : Bool
  pub workers : List (Phase P E)
  pub cancels : ℕ
  pub calling : ℕ
  pub crashed : Bool

pub data Event (P R E : Type 0) : Type 0 where
  runs : P → Event P R E
  begins : ℕ → ℕ → Event P R E
  sets_context : ℕ → Event P R E
  sets_progress : ℕ → Event P R E
  sets_result : R → Event P R E
  ends : ℕ → Ending E → Event P R E
  finishes : ℕ → ℕ → Event P R E
  tests_cancel : Event P R E
  marks_canceling : Event P R E
  calls_cancel : Event P R E

module _ {P E : Type 0} where
  abbrev pub pick : List (Phase P E) → ℕ → Option (Phase P E)
  pick [] i = none
  pick (w ∷ ws) zero = some w
  pick (w ∷ ws) (suc i) = pick ws i

  abbrev pub place : List (Phase P E) → ℕ → Phase P E → List (Phase P E)
  place [] i v = []
  place (w ∷ ws) zero v = v ∷ ws
  place (w ∷ ws) (suc i) v = w ∷ place ws i v

  abbrev pub discard : List (Phase P E) → ℕ → List (Phase P E)
  discard [] i = []
  discard (w ∷ ws) zero = ws
  discard (w ∷ ws) (suc i) = w ∷ discard ws i

module _ {E : Type 0} where
  -- `j.err = j.fn(j)`, which a panic skips.
  abbrev pub returned_error : Ending E → Option E → Option E
  returned_error (returned e) old = e
  returned_error (panicked e) old = old

  -- What `recover` gives.
  abbrev pub recovered_error : Ending E → Option E → Option E
  recovered_error (returned e) old = old
  recovered_error (panicked e) old = some e

  abbrev pub has_error : Option E → Bool
  has_error none = false
  has_error (some e) = true

  abbrev pub final_state : State → Option E → State
  final_state state error =
      if is_canceling state then canceled else (if has_error error then failed else succeeded)

module _ {P R E : Type 0} where
  -- A progress of -1 is `none`.
  unfoldable pub new_job : Job P R E
  new_job = record {
    state = created;
    params = none;
    result = none;
    error = none;
    progress = none;
    started_at = 0;
    ended_at = 0;
    has_cancel = false;
    workers = [];
    cancels = 0;
    calling = 0;
    crashed = false;
  }

  unfoldable pub run : Job P R E → P → Job P R E × Bool
  run j p =
      if is_pending j.state
      then (j, false)
      else (record j { workers = started p ∷ j.workers }, true)

  unfoldable pub initialize : Job P R E → ℕ → Job P R E
  initialize j now = record j { state = running; started_at = now; ended_at = 0; result = none }

  -- The deferred function.
  unfoldable pub finalize : Job P R E → Ending E → ℕ → Job P R E
  finalize j e now =
      let error = recovered_error e j.error in
      record j { error = error; ended_at = now; state = final_state j.state error }

  unfoldable pub test_cancel : Job P R E → Bool
  test_cancel j = is_running j.state && j.has_cancel

  unfoldable pub mark_canceling : Job P R E → Job P R E
  mark_canceling j = record j {
    state = canceling;
    cancels = j.cancels - 1;
    calling = j.calling + 1;
  }

  -- `j.cancel()` and `j.cancel = nil`.
  unfoldable pub call_cancel : Job P R E → Job P R E
  call_cancel j =
      if j.has_cancel
      then record j { has_cancel = false; calling = j.calling - 1 }
      else record j { crashed = true; calling = j.calling - 1 }

  -- An event whose worker is not at that point does not happen.
  unfoldable pub step : Job P R E → Event P R E → Job P R E
  unfolding run initialize finalize test_cancel mark_canceling call_cancel
  step j (runs p) = (run j p).0
  step j (begins i now) = elim (pick j.workers i) [
    | some (started p) ↦ record (initialize j now) {
      params = some p;
      workers = place j.workers i ready;
    }
    | _ ↦ j
  ]
  step j (sets_context i) = elim (pick j.workers i) [
    | some ready ↦ record j { has_cancel = true; workers = place j.workers i working }
    | _ ↦ j
  ]
  step j (sets_progress n) = record j { progress = some n }
  step j (sets_result r) = record j { result = some r }
  step j (ends i e) = elim (pick j.workers i) [
    | some working ↦ record j {
      error = returned_error e j.error;
      workers = place j.workers i (ended e);
    }
    | _ ↦ j
  ]
  step j (finishes i now) = elim (pick j.workers i) [
    | some (ended e) ↦ record (finalize j e now) { workers = discard j.workers i }
    | _ ↦ j
  ]
  step j tests_cancel = if test_cancel j then record j { cancels = j.cancels + 1 } else j
  step j marks_canceling = if ltb 0 j.cancels then mark_canceling j else j
  step j calls_cancel = if ltb 0 j.calling then call_cancel j else j

  unfoldable pub steps : Job P R E → List (Event P R E) → Job P R E
  steps j [] = j
  steps j (e ∷ es) = steps (step j e) es
