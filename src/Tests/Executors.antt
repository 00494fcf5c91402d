-- ===== src/Tests/Executors.antt =====
-- Runs of the definitions about pkg/utils/job/executor on concrete inputs.
use framingo.Prelude.{ℕ, ◌≡◌, refl, true, some}
use framingo.Prelude.Int.{pos}
use framingo.Job.{returned, new_job, run, initialize, finalize, steps, step}
use framingo.Executor as Starting
use framingo.Executor.{
  Executor, Play, RetryDo, only_once, new_executor, with_cooldown, only_once_option, refusal, start,
}
use framingo.Executor.Starts.{refused_after, refusal-start}

-- Every run lasts from 10 to 20 and returns the error 7.
abbrev failing : Play ℕ ℕ ℕ
failing j = (10, returned (some 7), 20)

-- One attempt only.
abbrev one_attempt : RetryDo ℕ ℕ ℕ
one_attempt attempts act note x = act x

abbrev once_executor : Executor ℕ ℕ ℕ
unfolding new_job
once_executor = only_once_option (with_cooldown (pos 5) (new_executor new_job))

-- A start that has failed is the only one all the same.
refused_after_failure :
    refusal (start one_attempt failing 1 0 20 once_executor).0 100 ≡ some only_once
unfolding once_executor new_job refusal start Starting.run steps step run initialize finalize
refused_after_failure = refl

refusal-start_example :
    refusal (start one_attempt failing 1 0 20 once_executor).0 22
    ≡ refused_after true once_executor.cooldown 20 22
unfolding once_executor new_job refusal
refusal-start_example =
    refusal-start one_attempt failing once_executor 1 0 20 22 refl refl refl refl
