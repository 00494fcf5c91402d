-- ===== src/Job/Whole.antt =====
-- A whole run of a job of pkg/utils/job/job.go among events that do not end or cancel it.
use framingo.Prelude.{
  ℕ, ◌≡◌, refl, sym, subst, ap, ◌∙◌, List, [], ◌∷◌, false, Option, none, some, All,
}
use framingo.Job.{
  running, is_pending, Ending, returned, panicked, started, ready, working, ended, Job, Event, runs,
  begins, sets_context, ends, finishes, run, initialize, finalize, place, discard, returned_error,
  recovered_error, final_state, step, steps,
}
use framingo.Job.Quiet.{
  IsCalm, IsQuiet, last_result, run_among, steps-append, IsWaiting, IsDuring, calms-IsWaiting,
  quiets-IsDuring,
}
use framingo.Job.Runs.{error_of, verdict}

left_error :
    {E : Type 0} (e : Ending E) (old : Option E)
    → recovered_error e (returned_error e old) ≡ error_of e
left_error (returned x) old = refl
left_error (panicked x) old = refl

final_verdict : {E : Type 0} (e : Ending E) → final_state running (error_of e) ≡ verdict e
final_verdict (returned none) = refl
final_verdict (returned (some x)) = refl
final_verdict (panicked x) = refl

module _ {P R E : Type 0} where
  runs-IsWaiting :
      (j : Job P R E) (p : P)
      → is_pending j.state ≡ false
      → j.workers ≡ []
      → IsWaiting p (step j (runs p))
  unfolding step run
  runs-IsWaiting j p h w =
      rw (h, step, run) (record { not_pending = h; waits = ap (λ ws. started p ∷ ws) w })

  begins-IsDuring :
      (k : Job P R E) (p : P) (begin : ℕ)
      → IsWaiting p k
      → IsDuring p begin ready k.error none (step k (begins 0 begin))
  unfolding step initialize
  begins-IsDuring k p begin h =
      rw (h.waits, step)
        (record {
          state_is = refl;
          input = refl;
          started_then = refl;
          one_worker = ap (λ ws. place ws 0 ready) h.waits;
          error_is = refl;
          result_is = refl;
        })

  sets_context-IsDuring :
      (k : Job P R E) (p : P) (begin : ℕ) (error : Option E) (result : Option R)
      → IsDuring p begin ready error result k
      → IsDuring p begin working error result (step k (sets_context 0))
  unfolding step
  sets_context-IsDuring k p begin error result h =
      rw (h.one_worker, step)
        (record {
          state_is = h.state_is;
          input = h.input;
          started_then = h.started_then;
          one_worker = ap (λ ws. place ws 0 working) h.one_worker;
          error_is = h.error_is;
          result_is = h.result_is;
        })

  ends-IsDuring :
      (k : Job P R E) (p : P) (begin : ℕ) (error : Option E) (result : Option R) (e : Ending E)
      → IsDuring p begin working error result k
      → IsDuring p begin (ended e) (returned_error e error) result (step k (ends 0 e))
  unfolding step
  ends-IsDuring k p begin error result e h =
      rw (h.one_worker, step)
        (record {
          state_is = h.state_is;
          input = h.input;
          started_then = h.started_then;
          one_worker = ap (λ ws. place ws 0 (ended e)) h.one_worker;
          error_is = ap (returned_error e) h.error_is;
          result_is = h.result_is;
        })

  -- The job ran on `p` between the given times, ended by `e`, with its result.
  pub record HasRunAmong (p : P) (begin : ℕ) (e : Ending E) (end : ℕ) (result : Option R)
      (k : Job P R E) : Type 0 where
    pub idle : k.workers ≡ []
    pub input : k.params ≡ some p
    pub started_then : k.started_at ≡ begin
    pub ended_then : k.ended_at ≡ end
    pub result_is : k.result ≡ result
    pub error_kept : k.error ≡ error_of e
    pub state_is : k.state ≡ verdict e

  finishes-HasRunAmong :
      (k : Job P R E) (p : P) (begin : ℕ) (old : Option E) (result : Option R) (e : Ending E)
      (end : ℕ)
      → IsDuring p begin (ended e) (returned_error e old) result k
      → HasRunAmong p begin e end result (step k (finishes 0 end))
  unfolding step finalize
  finishes-HasRunAmong k p begin old result e end h =
      let error : recovered_error e k.error ≡ error_of e =
        ap (recovered_error e) h.error_is ∙ left_error e old in
      rw (h.one_worker, step)
        (record {
          idle = ap (λ ws. discard ws 0) h.one_worker;
          input = h.input;
          started_then = h.started_then;
          ended_then = refl;
          result_is = h.result_is;
          error_kept = error;
          state_is =
              ap (λ s. final_state s (recovered_error e k.error)) h.state_is
              ∙ ap (final_state running) error
              ∙ final_verdict e;
        })

  -- A job that is not pending and has no goroutine is run, Run is not called again until its
  -- goroutine has begun, and until it finishes no Cancel comes further than its test: it succeeds
  -- if its function returns no error, and fails, with the error kept, if it returns one or panics,
  -- whatever else is called. It has the result that was set last since it began, if any was, and
  -- no earlier one.
  pub steps-run_among :
      (j : Job P R E) (p : P) (before : List (Event P R E)) (begin : ℕ)
      (early busy : List (Event P R E)) (e : Ending E) (late : List (Event P R E)) (end : ℕ)
      → is_pending j.state ≡ false
      → j.workers ≡ []
      → All IsCalm before
      → All IsQuiet early
      → All IsQuiet busy
      → All IsQuiet late
      → HasRunAmong p begin e end
          (last_result (last_result (last_result none early) busy) late)
          (steps j (run_among p before begin early busy e late end))
  unfolding steps
  steps-run_among j p before begin early busy e late end h w c0 c1 c2 c3 =
      let k0 = steps (step j (runs p)) before in
      let k1 = steps (step k0 (begins 0 begin)) early in
      let k2 = steps (step k1 (sets_context 0)) busy in
      let k3 = steps (step k2 (ends 0 e)) late in
      let r1 = last_result none early in
      let r2 = last_result r1 busy in
      let d0 = calms-IsWaiting p (step j (runs p)) before c0 (runs-IsWaiting j p h w) in
      let d1 =
        quiets-IsDuring p begin ready k0.error none (step k0 (begins 0 begin)) early c1
          (begins-IsDuring k0 p begin d0) in
      let d2 =
        quiets-IsDuring p begin working k0.error r1 (step k1 (sets_context 0)) busy c2
          (sets_context-IsDuring k1 p begin k0.error r1 d1) in
      let d3 =
        quiets-IsDuring p begin (ended e) (returned_error e k0.error) r2 (step k2 (ends 0 e)) late
          c3 (ends-IsDuring k2 p begin k0.error r2 e d2) in
      subst (HasRunAmong p begin e end (last_result r2 late))
        (sym (
          steps-append (step j (runs p)) before _
          ∙ steps-append (step k0 (begins 0 begin)) early _
          ∙ steps-append (step k1 (sets_context 0)) busy _
          ∙ steps-append (step k2 (ends 0 e)) late (finishes 0 end ∷ [])))
        (finishes-HasRunAmong k3 p begin k0.error (last_result r2 late) e end d3)
