-- ===== src/Job/Runs.antt =====
-- One run of a job of pkg/utils/job/job.go, from `Run` to its end.
use framingo.Prelude.{ℕ, ◌≡◌, refl, List, [], ◌∷◌, false, Option, none, some, arith}
use framingo.Job.{
  State, succeeded, failed, canceled, is_pending, Ending, returned, panicked, started, Job, Event,
  runs, begins, sets_context, ends, finishes, tests_cancel, marks_canceling, calls_cancel,
  call_cancel, run, initialize, finalize, test_cancel, mark_canceling, step, steps,
}

-- The error that an ending leaves.
abbrev pub error_of : {E : Type 0} → Ending E → Option E
error_of (returned e) = e
error_of (panicked e) = some e

-- The state that an ending leads to, if nothing cancels the job.
abbrev pub verdict : {E : Type 0} → Ending E → State
verdict (returned none) = succeeded
verdict (returned (some x)) = failed
verdict (panicked x) = failed

module _ {P R E : Type 0} where
  -- A run that nothing disturbs: started, begun, worked and finished at the given times.
  abbrev pub whole_run : P → ℕ → Ending E → ℕ → List (Event P R E)
  whole_run p begin e end =
      runs p ∷ begins 0 begin ∷ sets_context 0 ∷ ends 0 e ∷ finishes 0 end ∷ []

  -- The same with a `Cancel` while the function works.
  abbrev pub canceled_run : P → ℕ → Ending E → ℕ → List (Event P R E)
  canceled_run p begin e end =
      runs p
      ∷ begins 0 begin
      ∷ sets_context 0
      ∷ tests_cancel
      ∷ marks_canceling
      ∷ calls_cancel
      ∷ ends 0 e
      ∷ finishes 0 end
      ∷ []

  -- The job ran on `p` between the given times, ended by `e`, and is in `state`.
  pub record HasRun (p : P) (begin : ℕ) (e : Ending E) (end : ℕ) (state : State) (k : Job P R E)
      : Type 0 where
    pub idle : k.workers ≡ []
    pub input : k.params ≡ some p
    pub started_then : k.started_at ≡ begin
    pub ended_then : k.ended_at ≡ end
    pub result_reset : k.result ≡ none
    pub error_kept : k.error ≡ error_of e
    pub state_is : k.state ≡ state

  run-idle :
      (j : Job P R E) (p : P)
      → is_pending j.state ≡ false
      → j.workers ≡ []
      → step j (runs p) ≡ record j { workers = started p ∷ [] }
  unfolding step run
  run-idle j p h w = ground arith

  whole_run-started :
      (j : Job P R E) (p : P) (begin : ℕ) (e : Ending E) (end : ℕ)
      → HasRun p begin e end (verdict e) (
          steps
            (record j { workers = started p ∷ [] })
            (begins 0 begin ∷ sets_context 0 ∷ ends 0 e ∷ finishes 0 end ∷ []))
  unfolding steps step initialize finalize
  whole_run-started j p begin (returned none) end = record {
    idle = refl;
    input = refl;
    started_then = refl;
    ended_then = refl;
    result_reset = refl;
    error_kept = refl;
    state_is = refl;
  }
  whole_run-started j p begin (returned (some x)) end = record {
    idle = refl;
    input = refl;
    started_then = refl;
    ended_then = refl;
    result_reset = refl;
    error_kept = refl;
    state_is = refl;
  }
  whole_run-started j p begin (panicked x) end = record {
    idle = refl;
    input = refl;
    started_then = refl;
    ended_then = refl;
    result_reset = refl;
    error_kept = refl;
    state_is = refl;
  }

  canceled_run-started :
      (j : Job P R E) (p : P) (begin : ℕ) (e : Ending E) (end : ℕ)
      → j.cancels ≡ 0
      → j.calling ≡ 0
      → HasRun p begin e end canceled (
          steps
            (record j { workers = started p ∷ [] })
            (begins 0 begin
              ∷ sets_context 0
              ∷ tests_cancel
              ∷ marks_canceling
              ∷ calls_cancel
              ∷ ends 0 e
              ∷ finishes 0 end
              ∷ []))
  unfolding steps step initialize finalize test_cancel mark_canceling call_cancel
  canceled_run-started j p begin (returned x) end c d =
      rw (c, d)
        (record {
          idle = refl;
          input = refl;
          started_then = refl;
          ended_then = refl;
          result_reset = refl;
          error_kept = refl;
          state_is = refl;
        })
  canceled_run-started j p begin (panicked x) end c d =
      rw (c, d)
        (record {
          idle = refl;
          input = refl;
          started_then = refl;
          ended_then = refl;
          result_reset = refl;
          error_kept = refl;
          state_is = refl;
        })

  -- A job that is not pending and has no goroutine runs to its end: it succeeds if its function
  -- returns no error, and fails, with the error kept, if it returns one or panics. An earlier
  -- result is gone.
  pub steps-whole_run :
      (j : Job P R E) (p : P) (begin : ℕ) (e : Ending E) (end : ℕ)
      → is_pending j.state ≡ false
      → j.workers ≡ []
      → HasRun p begin e end (verdict e) (steps j (whole_run p begin e end))
  unfolding steps
  steps-whole_run j p begin e end h w =
      rw (run-idle j p h w, steps) (whole_run-started j p begin e end)

  -- A job that is not pending, with no goroutine and no call of Cancel past its test, and that is
  -- run and canceled while its function works, ends canceled, however the function ends; an
  -- earlier result is gone, and the error is that of the function.
  pub steps-canceled_run :
      (j : Job P R E) (p : P) (begin : ℕ) (e : Ending E) (end : ℕ)
      → is_pending j.state ≡ false
      → j.workers ≡ []
      → j.cancels ≡ 0
      → j.calling ≡ 0
      → HasRun p begin e end canceled (steps j (canceled_run p begin e end))
  unfolding steps
  steps-canceled_run j p begin e end h w c d =
      rw (run-idle j p h w, steps) (canceled_run-started j p begin e end c d)
