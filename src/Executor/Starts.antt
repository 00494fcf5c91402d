-- ===== src/Executor/Starts.antt =====
-- What a second `Start` of pkg/utils/job/executor gives after a first.
use framingo.Prelude.{
  ℕ, ◌+◌, ltb, ◌≡◌, refl, ap, ◌∙◌, [], Bool, true, false, Option, none, some, if◌then◌else◌,
}
use framingo.Job.{Ending, returned, panicked, is_done, is_pending, steps}
use framingo.Job.Runs.{whole_run, steps-whole_run, verdict}
use framingo.Executor.{
  Executor, Failure, still_pending, only_once, in_cooldown, Cooldown, Play, RetryDo, run, refusal,
  is_cooling, begin_cooldown, attempt, complete, failure, start,
}

-- What the options refuse at the instant `again`, after a start that has come to its end at `later`:
-- for once all, else nothing but what comes before the duration of the cooldown is over.
abbrev pub refused_after : {E : Type 0} → Bool → Option Cooldown → ℕ → ℕ → Option (Failure E)
refused_after true cooldown later again = some only_once
refused_after false none later again = none
refused_after false (some c) later again =
    if ltb again (later + c.duration) then some in_cooldown else none

-- What the executor makes of it.
refused-begin_cooldown :
    {E : Type 0} (once : Bool) (cooldown : Option Cooldown) (later again : ℕ)
    → (if once
        then some only_once
        else (if is_cooling (begin_cooldown cooldown later) again then some in_cooldown else none))
      ≡ refused_after {E = E} once cooldown later again
refused-begin_cooldown true cooldown later again = refl
refused-begin_cooldown false none later again = refl
refused-begin_cooldown false (some c) later again = refl

verdict-is_done : {E : Type 0} (e : Ending E) → is_done (verdict e) ≡ true
verdict-is_done (returned none) = refl
verdict-is_done (returned (some x)) = refl
verdict-is_done (panicked x) = refl

module _ {P R E : Type 0} (retry_do : RetryDo P R E) (play : Play P R E) where
  -- The executor after a start that runs the job.
  abbrev pub after_run : Executor P R E → P → ℕ → Executor P R E
  after_run x p later = record x {
    j = steps x.j (whole_run p (play x.j).0 (play x.j).1 (play x.j).2);
    cooldown = begin_cooldown x.cooldown later;
  }

  run-idle :
      (x : Executor P R E) (p : P)
      → is_pending x.j.state ≡ false
      → run play p x ≡ (
        record x { j = steps x.j (whole_run p (play x.j).0 (play x.j).1 (play x.j).2) },
        failure (steps x.j (whole_run p (play x.j).0 (play x.j).1 (play x.j).2)).error,
      )
  unfolding run
  run-idle x p h =
      let k = steps x.j (whole_run p (play x.j).0 (play x.j).1 (play x.j).2) in
      ap (λ b. if b then (x, some still_pending) else (record x { j = k }, failure k.error)) h

  start-runs :
      (x : Executor P R E) (p : P) (now later : ℕ)
      → x.retry ≡ none
      → refusal x now ≡ none
      → is_pending x.j.state ≡ false
      → start retry_do play p now later x ≡ (
        after_run x p later,
        failure (steps x.j (whole_run p (play x.j).0 (play x.j).1 (play x.j).2)).error,
      )
  unfolding start
  start-runs x p now later r f h =
      ap
        (λ (o : Option (Failure E)). elim o as (λ z. Executor P R E × Option (Failure E)) [
          | some e ↦ (x, some e)
          | none ↦ complete later (attempt retry_do play p x x.retry)
        ])
        f
      ∙ ap (λ o. complete later (attempt retry_do play p x o)) r
      ∙ ap (complete later) (run-idle x p h)

  -- Without retries, if a job is not pending and has no goroutine and a start is not refused:
  -- after that start, whether the job succeeded or failed, a second start is refused if the
  -- executor is for once; else, with a cooldown, exactly at the instants before its duration has
  -- passed since the end of the first start; else not.
  pub refusal-start :
      (x : Executor P R E) (p : P) (now later again : ℕ)
      → x.retry ≡ none
      → refusal x now ≡ none
      → is_pending x.j.state ≡ false
      → x.j.workers ≡ []
      → refusal (start retry_do play p now later x).0 again
        ≡ refused_after x.once x.cooldown later again
  unfolding refusal
  refusal-start x p now later again r f h w =
      let ran = steps-whole_run x.j p (play x.j).0 (play x.j).1 (play x.j).2 h w in
      ap (λ (q : Executor P R E × Option (Failure E)). refusal q.0 again)
        (start-runs x p now later r f h)
      ∙ ap
          (λ b.
            if b
            then (if x.once
                then some only_once
                else (if is_cooling (begin_cooldown x.cooldown later) again
                    then some in_cooldown
                    else none))
            else none)
          (ap is_done ran.state_is ∙ verdict-is_done (play x.j).1)
      ∙ refused-begin_cooldown x.once x.cooldown later again
