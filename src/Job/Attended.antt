-- ===== src/Job/Attended.antt =====
-- Histories of pkg/utils/job/job.go in which no call of `Cancel` is interrupted.
use framingo.Prelude.{
  ℕ, zero, suc, ◌≡◌, refl, inl, inr, List, [], ◌∷◌, Bool, true, false, Option, some, arith, ◌||◌,
  if◌then◌else◌, Bool-cases, Option-cases, not-both, if_cases, ltb,
}
use framingo.Job.{
  State, is_pending, Ending, Phase, started, ready, working, ended, Job, Event, runs, begins,
  sets_context, sets_progress, sets_result, ends, finishes, tests_cancel, marks_canceling,
  calls_cancel, call_cancel, pick, place, run, initialize, finalize, test_cancel, mark_canceling,
  recovered_error, final_state, step,
}

-- Whether an event is one half of a call of `Cancel`.
abbrev pub is_half : {P R E : Type 0} → Event P R E → Bool
is_half tests_cancel = true
is_half marks_canceling = true
is_half _ = false

-- A goroutine past `initialize`.
abbrev pub is_active : {P E : Type 0} → Phase P E → Bool
is_active (started p) = false
is_active _ = true

abbrev pub any_active : {P E : Type 0} → List (Phase P E) → Bool
any_active [] = false
any_active (w ∷ ws) = is_active w || any_active ws

-- An event other than those of `Cancel`, or a call of `Cancel` that nothing interrupts.
pub data Action (P R E : Type 0) : Type 0 where
  happens : (e : Event P R E) → is_half e ≡ false → Action P R E
  cancels_whole : Action P R E

module _ {P R E : Type 0} where
  unfoldable pub act : Job P R E → Action P R E → Job P R E
  act j (happens e h) = step j e
  act j cancels_whole = if test_cancel j then step (step j tests_cancel) marks_canceling else j

  unfoldable pub actions : Job P R E → List (Action P R E) → Job P R E
  actions j [] = j
  actions j (a ∷ rest) = actions (act j a) rest

any_active-place :
    {P E : Type 0} (ws : List (Phase P E)) (i : ℕ) (w v : Phase P E)
    → pick ws i ≡ some w
    → is_active v ≡ true
    → any_active (place ws i v) ≡ true
any_active-place [] i w v h a = ground arith
any_active-place (x ∷ ws) zero w v h a = rw (a) refl
any_active-place (x ∷ ws) (suc i) w v h a =
    elim (is_active x) as (λ b. (b || any_active (place ws i v)) ≡ true) [
      | true ↦ refl
      | false ↦ any_active-place ws i w v h a
    ]

is_pending-final_state :
    {E : Type 0} (st : State) (e : Option E) → is_pending (final_state st e) ≡ false
is_pending-final_state st e = ground arith

module _ {P R E : Type 0} where
  -- A pending job has a goroutine to end it.
  pub record IsAttended (j : Job P R E) : Type 0 where
    pub attended : is_pending j.state ≡ true → any_active j.workers ≡ true
    pub settled : j.cancels ≡ 0

  run-IsAttended : (j : Job P R E) (p : P) → IsAttended j → IsAttended (step j (runs p))
  unfolding step run
  run-IsAttended j p s = elim (Bool-cases (is_pending j.state)) [
    | inl h ↦ rw (h, step, run) s
    | inr h ↦
        rw (h, step, run)
          record { attended = λ q. absurd (not-both (is_pending j.state) h q); settled = s.settled }
  ]

  begins-IsAttended :
      (j : Job P R E) (i now : ℕ) → IsAttended j → IsAttended (step j (begins i now))
  unfolding step initialize
  begins-IsAttended j i now s = elim (Option-cases (pick j.workers i)) [
    | inl h ↦ rw (h, step) s
    | inr (started p, h) ↦
        rw (h, step)
          record {
            attended = λ q. any_active-place j.workers i (started p) ready h refl;
            settled = s.settled;
          }
    | inr (ready, h) ↦ rw (h, step) s
    | inr (working, h) ↦ rw (h, step) s
    | inr (ended e, h) ↦ rw (h, step) s
  ]

  sets_context-IsAttended :
      (j : Job P R E) (i : ℕ) → IsAttended j → IsAttended (step j (sets_context i))
  unfolding step
  sets_context-IsAttended j i s = elim (Option-cases (pick j.workers i)) [
    | inl h ↦ rw (h, step) s
    | inr (started p, h) ↦ rw (h, step) s
    | inr (ready, h) ↦
        rw (h, step)
          record {
            attended = λ q. any_active-place j.workers i ready working h refl;
            settled = s.settled;
          }
    | inr (working, h) ↦ rw (h, step) s
    | inr (ended e, h) ↦ rw (h, step) s
  ]

  ends-IsAttended :
      (j : Job P R E) (i : ℕ) (e : Ending E) → IsAttended j → IsAttended (step j (ends i e))
  unfolding step
  ends-IsAttended j i e s = elim (Option-cases (pick j.workers i)) [
    | inl h ↦ rw (h, step) s
    | inr (started p, h) ↦ rw (h, step) s
    | inr (ready, h) ↦ rw (h, step) s
    | inr (working, h) ↦
        rw (h, step)
          record {
            attended = λ q. any_active-place j.workers i working (ended e) h refl;
            settled = s.settled;
          }
    | inr (ended e, h) ↦ rw (h, step) s
  ]

  finishes-IsAttended :
      (j : Job P R E) (i now : ℕ) → IsAttended j → IsAttended (step j (finishes i now))
  unfolding step finalize
  finishes-IsAttended j i now s = elim (Option-cases (pick j.workers i)) [
    | inl h ↦ rw (h, step) s
    | inr (started p, h) ↦ rw (h, step) s
    | inr (ready, h) ↦ rw (h, step) s
    | inr (working, h) ↦ rw (h, step) s
    | inr (ended e, h) ↦
        rw (h, step)
          record {
            attended = λ q. absurd (
                not-both (is_pending (final_state j.state (recovered_error e j.error)))
                  (is_pending-final_state j.state (recovered_error e j.error)) q);
            settled = s.settled;
          }
  ]

  is_pending-test_cancel : (j : Job P R E) → test_cancel j ≡ true → is_pending j.state ≡ true
  unfolding test_cancel
  is_pending-test_cancel j h = ground arith

  -- A call of `Cancel` changes the state of a running job only, and so of an attended one.
  cancel-IsAttended : (j : Job P R E) → IsAttended j → IsAttended (act j cancels_whole)
  unfolding act step mark_canceling
  cancel-IsAttended j s = elim (Bool-cases (test_cancel j)) [
    | inl h ↦
        rw (h, s.settled, step)
          record { attended = λ q. s.attended (is_pending-test_cancel j h); settled = refl }
    | inr h ↦ rw (h) s
  ]

  call_cancel-IsAttended : (j : Job P R E) → IsAttended j → IsAttended (step j calls_cancel)
  unfolding step call_cancel
  call_cancel-IsAttended j s =
      if_cases (λ (k : Job P R E). IsAttended k) (ltb 0 j.calling)
        (λ h.
          if_cases (λ (k : Job P R E). IsAttended k) j.has_cancel
            (λ c. record { attended = s.attended; settled = s.settled })
            (λ c. record { attended = s.attended; settled = s.settled }))
        (λ h. s)

  act-IsAttended : (j : Job P R E) (a : Action P R E) → IsAttended j → IsAttended (act j a)
  unfolding act step
  act-IsAttended j (happens (runs p) h) s = run-IsAttended j p s
  act-IsAttended j (happens (begins i now) h) s = begins-IsAttended j i now s
  act-IsAttended j (happens (sets_context i) h) s = sets_context-IsAttended j i s
  act-IsAttended j (happens (sets_progress n) h) s = record {
    attended = s.attended;
    settled = s.settled;
  }
  act-IsAttended j (happens (sets_result r) h) s = record {
    attended = s.attended;
    settled = s.settled;
  }
  act-IsAttended j (happens (ends i e) h) s = ends-IsAttended j i e s
  act-IsAttended j (happens (finishes i now) h) s = finishes-IsAttended j i now s
  act-IsAttended j (happens calls_cancel h) s = call_cancel-IsAttended j s
  act-IsAttended j (happens tests_cancel h) s = ground arith
  act-IsAttended j (happens marks_canceling h) s = ground arith
  act-IsAttended j cancels_whole s = cancel-IsAttended j s

  -- As long as no call of Cancel is interrupted between its test and its change of the state, this
  -- is kept: if a job is pending, it has a goroutine that is past its start, and no Cancel is past
  -- its test. So it cannot stay pending when its goroutines have gone.
  pub actions-IsAttended :
      (j : Job P R E) (rest : List (Action P R E)) → IsAttended j → IsAttended (actions j rest)
  unfolding actions
  actions-IsAttended j [] s = s
  actions-IsAttended j (a ∷ rest) s = actions-IsAttended (act j a) rest (act-IsAttended j a s)
