-- ===== src/Executor.antt =====
-- pkg/utils/job/executor, executor.go and option.go: an executor that runs a job of pkg/utils/job to
-- its end, once or again, after a cooldown. `Play` is how the job's function behaves each time, with
-- the instants at which the run begins and ends, and `retry_do` stands for `retry.Do` of
-- github.com/avast/retry-go. The timeout only shortens the context of the function, and the callback
-- for completion is not modelled.
pub mod Starts
use framingo.Prelude.{
  ℕ, ◌+◌, List, [], ◌∷◌, Bool, true, false, Option, none, some, ◌&&◌, ltb, if◌then◌else◌,
}
use framingo.Prelude.Int.{ℤ, is_pos, pos_part}
use framingo.Job.{Job, Ending, is_done, is_pending, steps}
use framingo.Job.Runs.{whole_run}

pub data Failure (E : Type 0) : Type 0 where
  of_job : E → Failure E
  still_pending only_once in_cooldown : Failure E

-- `attempted` and the errors by attempt, the last first.
pub record Retry (E : Type 0) : Type 0 where
  pub attempts : ℕ
  pub attempted : ℕ
  pub errs : List (ℕ × Failure E)

pub record Cooldown : Type 0 where
  pub duration : ℕ
  pub ended_at : ℕ

pub record Executor (P R E : Type 0) : Type 0 where
  pub j : Job P R E
  pub once : Bool
  pub retry : Option (Retry E)
  pub cooldown : Option Cooldown

-- Begin, ending and end of a run of the job as it is.
abbrev pub Play : Type 0 → Type 0 → Type 0 → Type 0
Play P R E = Job P R E → ℕ × Ending E × ℕ

-- A state, the error of the last attempt, and what each failed attempt does.
abbrev pub RetryDo : Type 0 → Type 0 → Type 0 → Type 0
RetryDo P R E =
    ℕ
    → (Executor P R E → Executor P R E × Option (Failure E))
    → (ℕ → Failure E → Executor P R E → Executor P R E)
    → Executor P R E
    → Executor P R E × Option (Failure E)

abbrev pub reset_retry : {E : Type 0} → Option (Retry E) → Option (Retry E)
reset_retry none = none
reset_retry (some r) = some (record r { attempted = 0; errs = [] })

abbrev pub end_cooldown : Option Cooldown → ℕ → Option Cooldown
end_cooldown none at = none
end_cooldown (some c) at = some (record c { ended_at = at })

abbrev pub failure : {E : Type 0} → Option E → Option (Failure E)
failure none = none
failure (some e) = some (of_job e)

abbrev pub is_cooling : Option Cooldown → ℕ → Bool
is_cooling none now = false
is_cooling (some c) now = ltb now c.ended_at

-- The cooldown ends its duration after `later`, the instant at which the job has completed.
abbrev pub begin_cooldown : Option Cooldown → ℕ → Option Cooldown
begin_cooldown none later = none
begin_cooldown (some c) later = some (record c { ended_at = later + c.duration })

module _ {P R E : Type 0} where
  abbrev pub new_executor : Job P R E → Executor P R E
  new_executor j = record { j = j; once = false; retry = none; cooldown = none }

  -- `WithRetry`, `WithCooldown` and `Once`; numbers that are not positive are ignored.
  abbrev pub with_retry : ℤ → Executor P R E → Executor P R E
  with_retry n x =
      if is_pos n
      then record x { retry = some (record { attempts = pos_part n; attempted = 0; errs = [] }) }
      else x

  abbrev pub with_cooldown : ℤ → Executor P R E → Executor P R E
  with_cooldown n x =
      if is_pos n
      then record x { cooldown = some (record { duration = pos_part n; ended_at = 0 }) }
      else x

  abbrev pub only_once_option : Executor P R E → Executor P R E
  only_once_option x = record x { once = true }

  unfoldable pub reset : Executor P R E → Executor P R E
  reset x = record x { retry = reset_retry x.retry; cooldown = end_cooldown x.cooldown 0 }

  -- `run`: the job runs from `Run` to the end that `Wait` waits for.
  unfoldable pub run : Play P R E → P → Executor P R E → Executor P R E × Option (Failure E)
  run play p x =
      let (begin, e, end) = play x.j in
      let k = steps x.j (whole_run p begin e end) in
      if is_pending x.j.state
      then (x, some still_pending)
      else (record x { j = k }, failure k.error)

  -- The error with which `Start` refuses at once.
  unfoldable pub refusal : Executor P R E → ℕ → Option (Failure E)
  refusal x now =
      if is_done x.j.state
      then (if x.once
          then some only_once
          else (if is_cooling x.cooldown now then some in_cooldown else none))
      else none

  abbrev pub note_retry : ℕ → Failure E → Executor P R E → Executor P R E
  note_retry n e x = elim x.retry [
    | none ↦ x
    | some r ↦ record x { retry = some (record r { attempted = n + 1; errs = (n, e) ∷ r.errs }) }
  ]

  abbrev pub attempt :
      RetryDo P R E
      → Play P R E
      → P
      → Executor P R E
      → Option (Retry E)
      → Executor P R E × Option (Failure E)
  attempt retry_do play p x none = run play p x
  attempt retry_do play p x (some r) = retry_do r.attempts (run play p) note_retry x

  abbrev pub complete :
      ℕ → Executor P R E × Option (Failure E) → Executor P R E × Option (Failure E)
  complete later (x, e) = (record x { cooldown = begin_cooldown x.cooldown later }, e)

  -- `Start` at `now`.
  unfoldable pub start :
      RetryDo P R E → Play P R E → P → ℕ → ℕ → Executor P R E → Executor P R E × Option (Failure E)
  unfolding run refusal
  start retry_do play p now later x = elim (refusal x now) [
    | some e ↦ (x, some e)
    | none ↦ complete later (attempt retry_do play p x x.retry)
  ]
