-- ===== src/Job/Quiet.antt =====
-- What a job of pkg/utils/job/job.go keeps over events that do not end or cancel its run.
use framingo.Prelude.{
  ℕ, ◌≡◌, refl, sym, subst, ap, List, [], ◌∷◌, ◌++◌, Bool, true, false, Option, some, All, if_cases,
  if◌then◌else◌,
}
use framingo.Job.{
  running, is_pending, Ending, Phase, started, Job, Event, runs, begins, sets_context,
  sets_progress, sets_result, ends, finishes, tests_cancel, marks_canceling, calls_cancel, run,
  test_cancel, step, steps,
}

module _ {P R E : Type 0} where
  -- Progress and results that are set, and calls of `Cancel` that come no further than their test.
  abbrev pub IsCalm : Event P R E → Type 0
  IsCalm (sets_progress n) = Unit {0}
  IsCalm (sets_result r) = Unit {0}
  IsCalm tests_cancel = Unit {0}
  IsCalm _ = ⊥

  -- The same, and other calls of `Run`.
  abbrev pub IsQuiet : Event P R E → Type 0
  IsQuiet (sets_progress n) = Unit {0}
  IsQuiet (sets_result r) = Unit {0}
  IsQuiet tests_cancel = Unit {0}
  IsQuiet (runs p) = Unit {0}
  IsQuiet _ = ⊥

  abbrev pub set_by : Option R → Event P R E → Option R
  set_by old (sets_result r) = some r
  set_by old _ = old

  -- The result that is set last, if any is.
  abbrev pub last_result : Option R → List (Event P R E) → Option R
  last_result old [] = old
  last_result old (e ∷ es) = last_result (set_by old e) es

  -- A run with what happens before it begins, until its context is set, while the function works,
  -- and until it finishes.
  abbrev pub run_among :
      P
      → List (Event P R E)
      → ℕ
      → List (Event P R E)
      → List (Event P R E)
      → Ending E
      → List (Event P R E)
      → ℕ
      → List (Event P R E)
  run_among p before begin early busy e late end =
      runs p
      ∷ (before
          ++ (begins 0 begin
              ∷ (early
                  ++ (sets_context 0 ∷ (busy ++ (ends 0 e ∷ (late ++ (finishes 0 end ∷ []))))))))

  pub steps-append :
      (j : Job P R E) (es fs : List (Event P R E)) → steps j (es ++ fs) ≡ steps (steps j es) fs
  unfolding steps
  steps-append j [] fs = refl
  steps-append j (e ∷ es) fs = steps-append (step j e) es fs

  -- Before the goroutine begins.
  pub record IsWaiting (p : P) (k : Job P R E) : Type 0 where
    pub not_pending : is_pending k.state ≡ false
    pub waits : k.workers ≡ started p ∷ []

  -- While the one goroutine runs.
  pub record IsDuring (p : P) (begin : ℕ) (w : Phase P E) (error : Option E) (result : Option R)
      (k : Job P R E) : Type 0 where
    pub state_is : k.state ≡ running
    pub input : k.params ≡ some p
    pub started_then : k.started_at ≡ begin
    pub one_worker : k.workers ≡ w ∷ []
    pub error_is : k.error ≡ error
    pub result_is : k.result ≡ result

  calm-IsWaiting :
      (p : P) (k : Job P R E) (e : Event P R E) → IsCalm e → IsWaiting p k → IsWaiting p (step k e)
  unfolding step
  calm-IsWaiting p k (sets_progress n) c h = record { not_pending = h.not_pending; waits = h.waits }
  calm-IsWaiting p k (sets_result r) c h = record { not_pending = h.not_pending; waits = h.waits }
  calm-IsWaiting p k tests_cancel c h =
      if_cases (λ (j : Job P R E). IsWaiting p j) (test_cancel k)
        (λ t. record { not_pending = h.not_pending; waits = h.waits }) (λ t. h)
  calm-IsWaiting p k (runs q) c h = absurd c
  calm-IsWaiting p k (begins i now) c h = absurd c
  calm-IsWaiting p k (sets_context i) c h = absurd c
  calm-IsWaiting p k (ends i e) c h = absurd c
  calm-IsWaiting p k (finishes i now) c h = absurd c
  calm-IsWaiting p k marks_canceling c h = absurd c
  calm-IsWaiting p k calls_cancel c h = absurd c

  pub calms-IsWaiting :
      (p : P) (k : Job P R E) (es : List (Event P R E))
      → All IsCalm es
      → IsWaiting p k
      → IsWaiting p (steps k es)
  unfolding steps
  calms-IsWaiting p k [] c h = h
  calms-IsWaiting p k (e ∷ es) c h =
      calms-IsWaiting p (step k e) es c.1 (calm-IsWaiting p k e c.0 h)

  module _ (p : P) (begin : ℕ) (w : Phase P E) (error : Option E) where
    quiet-IsDuring :
        (result : Option R) (k : Job P R E) (e : Event P R E)
        → IsQuiet e
        → IsDuring p begin w error result k
        → IsDuring p begin w error (set_by result e) (step k e)
    unfolding step run
    quiet-IsDuring result k (sets_progress n) c h = record {
      state_is = h.state_is;
      input = h.input;
      started_then = h.started_then;
      one_worker = h.one_worker;
      error_is = h.error_is;
      result_is = h.result_is;
    }
    quiet-IsDuring result k (sets_result r) c h = record {
      state_is = h.state_is;
      input = h.input;
      started_then = h.started_then;
      one_worker = h.one_worker;
      error_is = h.error_is;
      result_is = refl;
    }
    quiet-IsDuring result k tests_cancel c h =
        if_cases (λ (j : Job P R E). IsDuring p begin w error result j) (test_cancel k)
          (λ t. record {
            state_is = h.state_is;
            input = h.input;
            started_then = h.started_then;
            one_worker = h.one_worker;
            error_is = h.error_is;
            result_is = h.result_is;
          })
          (λ t. h)
    quiet-IsDuring result k (runs q) c h =
        subst (IsDuring p begin w error result)
          (sym (
            ap
              (λ b.
                let r : Job P R E × Bool =
                  if b then (k, false) else (record k { workers = started q ∷ k.workers }, true) in
                r.0)
              (ap is_pending h.state_is)))
          h
    quiet-IsDuring result k (begins i now) c h = absurd c
    quiet-IsDuring result k (sets_context i) c h = absurd c
    quiet-IsDuring result k (ends i e) c h = absurd c
    quiet-IsDuring result k (finishes i now) c h = absurd c
    quiet-IsDuring result k marks_canceling c h = absurd c
    quiet-IsDuring result k calls_cancel c h = absurd c

    pub quiets-IsDuring :
        (result : Option R) (k : Job P R E) (es : List (Event P R E))
        → All IsQuiet es
        → IsDuring p begin w error result k
        → IsDuring p begin w error (last_result result es) (steps k es)
    unfolding steps
    quiets-IsDuring result k [] c h = h
    quiets-IsDuring result k (e ∷ es) c h =
        quiets-IsDuring (set_by result e) (step k e) es c.1 (quiet-IsDuring result k e c.0 h)
