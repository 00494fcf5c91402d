-- ===== src/Job/Races.antt =====
-- What the events of pkg/utils/job/job.go do when they interleave: the window between the two halves of
-- `Cancel`.
use framingo.Prelude.{ℕ, ◌≡◌, refl, List, [], ◌∷◌, Bool, false, ltb, ◌<◌, if_cases, lt→ltb}
use framingo.Job.{
  canceling, Ending, ended, Job, Event, runs, begins, sets_context, sets_progress, sets_result,
  ends, finishes, tests_cancel, marks_canceling, calls_cancel, call_cancel, run, finalize,
  test_cancel, mark_canceling, step, steps,
}

-- Whether a call of `Run` would start the job.
abbrev pub accepts : {P R E : Type 0} → Job P R E → P → Bool
unfolding run
accepts j p = (run j p).1

module _ {P R E : Type 0} where
  -- No goroutine runs, and yet the job is being canceled.
  pub record IsStuck (j : Job P R E) : Type 0 where
    pub being_canceled : j.state ≡ canceling
    pub idle : j.workers ≡ []

  module _ (j : Job P R E) (s : IsStuck j) where
    step-canceling : (e : Event P R E) → (step j e).state ≡ canceling
    unfolding step run test_cancel mark_canceling call_cancel
    step-canceling (runs p) = rw (s.being_canceled) refl
    step-canceling (begins i now) = rw (s.idle) s.being_canceled
    step-canceling (sets_context i) = rw (s.idle) s.being_canceled
    step-canceling (sets_progress n) = s.being_canceled
    step-canceling (sets_result r) = s.being_canceled
    step-canceling (ends i e) = rw (s.idle) s.being_canceled
    step-canceling (finishes i now) = rw (s.idle) s.being_canceled
    step-canceling tests_cancel = rw (s.being_canceled) refl
    step-canceling marks_canceling =
        if_cases (λ (k : Job P R E). k.state ≡ canceling) (ltb 0 j.cancels) (λ h. refl)
          (λ h. s.being_canceled)
    step-canceling calls_cancel =
        if_cases (λ (k : Job P R E). k.state ≡ canceling) (ltb 0 j.calling)
          (λ h.
            if_cases (λ (k : Job P R E). k.state ≡ canceling) j.has_cancel (λ c. s.being_canceled)
              (λ c. s.being_canceled))
          (λ h. s.being_canceled)

    step-idle : (e : Event P R E) → (step j e).workers ≡ []
    unfolding step run test_cancel mark_canceling call_cancel
    step-idle (runs p) = rw (s.being_canceled) s.idle
    step-idle (begins i now) = rw (s.idle) refl
    step-idle (sets_context i) = rw (s.idle) refl
    step-idle (sets_progress n) = s.idle
    step-idle (sets_result r) = s.idle
    step-idle (ends i e) = rw (s.idle) refl
    step-idle (finishes i now) = rw (s.idle) refl
    step-idle tests_cancel =
        if_cases (λ (k : Job P R E). k.workers ≡ []) (test_cancel j) (λ h. s.idle) (λ h. s.idle)
    step-idle marks_canceling =
        if_cases (λ (k : Job P R E). k.workers ≡ []) (ltb 0 j.cancels) (λ h. s.idle) (λ h. s.idle)
    step-idle calls_cancel =
        if_cases (λ (k : Job P R E). k.workers ≡ []) (ltb 0 j.calling)
          (λ h.
            if_cases (λ (k : Job P R E). k.workers ≡ []) j.has_cancel (λ c. s.idle) (λ c. s.idle))
          (λ h. s.idle)

  steps-IsStuck : (j : Job P R E) (es : List (Event P R E)) → IsStuck j → IsStuck (steps j es)
  unfolding steps
  steps-IsStuck j [] s = s
  steps-IsStuck j (e ∷ es) s =
      steps-IsStuck (step j e) es
        record { being_canceled = step-canceling j s e; idle = step-idle j s e }

  late_cancel-IsStuck :
      (j : Job P R E) (e : Ending E) (end : ℕ)
      → j.workers ≡ ended e ∷ []
      → 0 < j.cancels
      → IsStuck (step (step j (finishes 0 end)) marks_canceling)
  unfolding step finalize mark_canceling
  late_cancel-IsStuck j e end w c = record {
    being_canceled = rw (w, lt→ltb 0 j.cancels c) refl;
    idle = rw (w, lt→ltb 0 j.cancels c) refl;
  }

  refuses-IsStuck : (j : Job P R E) (p : P) → IsStuck j → accepts j p ≡ false
  unfolding run
  refuses-IsStuck j p s = rw (s.being_canceled) refl

  -- If Cancel has made its test when the last goroutine finishes, the job is left canceling for
  -- good: whatever happens after it, no goroutine runs and Run never starts another.
  pub steps-late_cancel :
      (j : Job P R E) (e : Ending E) (end : ℕ) (es : List (Event P R E)) (p : P)
      → j.workers ≡ ended e ∷ []
      → 0 < j.cancels
      → (steps j (finishes 0 end ∷ marks_canceling ∷ es)).state ≡ canceling
        × (steps j (finishes 0 end ∷ marks_canceling ∷ es)).workers ≡ []
        × accepts (steps j (finishes 0 end ∷ marks_canceling ∷ es)) p ≡ false
  unfolding steps
  steps-late_cancel j e end es p w c =
      let s =
        steps-IsStuck (step (step j (finishes 0 end)) marks_canceling) es
          (late_cancel-IsStuck j e end w c) in
      (
        s.being_canceled,
        s.idle,
        refuses-IsStuck (steps (step (step j (finishes 0 end)) marks_canceling) es) p s,
      )
