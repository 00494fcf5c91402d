-- ===== src/Tests/Leases.antt =====
-- Runs of the definitions about pkg/structs/lease on concrete inputs.
use framingo.Prelude.{ℕ, ◌≡◌, refl, List, [], ◌∷◌, true, false, none, some, arith}
use framingo.Lease.{
  Lease, Event, starts, tests_start, initializes, test_start, start_tested, cancel, press,
  take_cancel, ticks, exits, takes_cancel, takes_action, asks, cancels, registers, when_expired,
  refresh, new_lease, initialize, finalize, run, step, start, start_refuses, tick, has_expired, ask,
  offer,
}
use framingo.Lease.Endings.{fresh, IsSound, patient_run, patient_run-stage}
use framingo.Lease.Restarts.{run-early_start}

abbrev live_lease : Lease ℕ
unfolding new_lease initialize
live_lease = initialize (record (new_lease 10 true) { on_expire = 7 ∷ [] }) 100

abbrev left_lease : Lease ℕ
unfolding new_lease initialize finalize
left_lease = finalize (initialize (new_lease 10 false) 100)

abbrev over_lease : Lease ℕ
unfolding new_lease initialize finalize
over_lease = finalize (initialize (new_lease 10 true) 100)

abbrev a_history : List (Event ℕ)
a_history =
    registers when_expired 7
    ∷ starts 100
    ∷ asks (refresh 50) true
    ∷ takes_action 105
    ∷ ticks 140
    ∷ cancels true
    ∷ takes_cancel
    ∷ exits
    ∷ starts 300
    ∷ []

-- A refresh puts the expiry off.
refreshed :
    run
      (new_lease 10 true)
      (starts 100 ∷ asks (refresh 50) true ∷ takes_action 105 ∷ ticks 140 ∷ [])
    ≡ some (record live_lease { on_expire = []; expires_at = 155 })
unfolding run step start start_refuses initialize new_lease ask offer tick has_expired
refreshed = refl

-- Two calls of `Start` that have both passed their test run two loops, of which the second panics
-- when it goes on after the first has stopped the ticker.
overlapping_starts :
    run {H = ℕ} (new_lease 10 false) (
      tests_start
      ∷ tests_start
      ∷ initializes 100
      ∷ initializes 101
      ∷ cancels true
      ∷ takes_cancel
      ∷ ticks 102
      ∷ [])
    ≡ none
unfolding run step test_start start_tested start_refuses initialize new_lease cancel press
    take_cancel finalize
overlapping_starts = refl

patient_run-stage_example : IsSound (patient_run (new_lease 10 true) a_history)
unfolding new_lease
patient_run-stage_example = patient_run-stage (new_lease 10 true) fresh a_history refl

run-early_start_example : run left_lease (starts 200 ∷ exits ∷ ticks 220 ∷ exits ∷ []) ≡ none
unfolding new_lease initialize finalize
run-early_start_example = run-early_start left_lease 200 220 refl refl (ground arith)
