-- ===== src/Tests/Jobs.antt =====
-- Runs of the definitions about pkg/utils/job on concrete inputs.
use framingo.Prelude.{ℕ, ◌≡◌, refl, List, [], ◌∷◌, true, false, none, some, arith}
use framingo.Job.{
  Job, running, run, initialize, test_cancel, started, ended, returned, panicked, runs, finishes,
  marks_canceling, calls_cancel, mark_canceling, call_cancel, new_job, step, steps, canceling,
  begins, sets_result, sets_context, ends, tests_cancel,
}
use framingo.Job.Quiet.{run_among}
use framingo.Job.Whole.{HasRunAmong, steps-run_among}
use framingo.Job.Races.{steps-late_cancel, accepts}
use framingo.Job.Attended.{Action, happens, cancels_whole, IsAttended, actions-IsAttended, actions}

abbrev idle_job : Job ℕ ℕ ℕ
unfolding new_job
idle_job = record new_job { result = some 9; error = some 8 }

-- A job whose function has returned while a `Cancel` is past its test.
abbrev late_job : Job ℕ ℕ ℕ
unfolding new_job
late_job = record new_job {
  state = running;
  params = some 1;
  started_at = 5;
  has_cancel = true;
  workers = ended (returned none) ∷ [];
  cancels = 1;
}

late_job_reached :
    steps new_job
      (runs 1 ∷ begins 0 5 ∷ sets_context 0 ∷ tests_cancel ∷ ends 0 (returned none) ∷ [])
    ≡ late_job
unfolding new_job steps step run initialize test_cancel
late_job_reached = refl

-- The second of two calls of `Cancel` that have passed their test calls nil.
second_cancel :
    (steps
      (record late_job { cancels = 2 })
      (marks_canceling ∷ calls_cancel ∷ marks_canceling ∷ calls_cancel ∷ [])).crashed
    ≡ true
unfolding new_job steps step mark_canceling call_cancel
second_cancel = refl

steps-run_among_example : HasRunAmong 4 10 (panicked 7) 20 (some 6) (
    steps idle_job (
      run_among 4
        (sets_result 1 ∷ [])
        10
        (runs 5 ∷ [])
        (sets_result 2 ∷ sets_result 6 ∷ [])
        (panicked 7)
        (tests_cancel ∷ [])
        20))
unfolding new_job
steps-run_among_example =
    steps-run_among idle_job 4 (sets_result 1 ∷ []) 10 (runs 5 ∷ [])
      (sets_result 2 ∷ sets_result 6 ∷ []) (panicked 7) (tests_cancel ∷ []) 20 refl refl (tt, tt)
      (tt, tt) (tt, (tt, tt)) (tt, tt)

steps-late_cancel_example :
    (steps late_job (finishes 0 9 ∷ marks_canceling ∷ runs 3 ∷ [])).state ≡ canceling
    × (steps late_job (finishes 0 9 ∷ marks_canceling ∷ runs 3 ∷ [])).workers ≡ []
    × accepts (steps late_job (finishes 0 9 ∷ marks_canceling ∷ runs 3 ∷ [])) 6 ≡ false
unfolding new_job
steps-late_cancel_example =
    steps-late_cancel late_job (returned none) 9 (runs 3 ∷ []) 6 refl (ground arith)

-- Two calls of `Run` before the first goroutine takes the lock both start one.
two_runs : (steps idle_job (runs 1 ∷ runs 2 ∷ [])).workers ≡ started 2 ∷ started 1 ∷ []
unfolding new_job steps step run
two_runs = refl

abbrev some_actions : List (Action ℕ ℕ ℕ)
some_actions =
    happens (runs 1) refl
    ∷ happens (begins 0 5) refl
    ∷ happens (sets_context 0) refl
    ∷ cancels_whole
    ∷ happens (ends 0 (returned none)) refl
    ∷ []

actions-IsAttended_example : IsAttended (actions idle_job some_actions)
unfolding new_job
actions-IsAttended_example =
    actions-IsAttended idle_job some_actions
      (record { attended = λ h. ground arith; settled = refl })
