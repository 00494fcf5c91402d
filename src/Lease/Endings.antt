-- ===== src/Lease/Endings.antt =====
-- The stages of a lease of pkg/structs/lease/lease.go, and how its loop ends.
use framingo.Prelude.{
  ℕ, ◌+◌, ◌-◌, ◌≡◌, refl, sym, subst, ◌∙◌, ap, List, [], ◌∷◌, ◌++◌, Bool, true, false, Option, none,
  some, ltb, arith, if◌then◌else◌, Bool-cases, if_cases, inl, inr, not-both, ◌||◌, ◌&&◌,
}
use framingo.Lease.{
  Lease, tests_start, initializes, test_start, start_tested, by_loop, Done, Signal, is_closed,
  unmade, opened, closed, Event, starts, takes_cancel, takes_action, ticks, exits, asks, offers,
  cancels, presses, registers, step, start, start_refuses, has_expired, tick, finalize, initialize,
  exit, Action, refresh, extend, renew, offer, ask, cancel, press, receive_action, receive_cancel,
  take_cancel, register, Kind, when_canceled, when_expired, when_refreshed, when_extended,
  when_renewed, Reply,
}

-- Before `Start`, while the loop runs, after its end and before the channel `done` is closed, and
-- after that.
pub data Stage : Type 0 where
  fresh live leaving over : Stage

abbrev pub Control : Type 0
Control = Bool × Bool × Done × ℕ × ℕ

-- What the fields `ticking`, `expired`, `done`, `exiting` and `loops` are in a stage.
abbrev pub control_of : Stage → Control
control_of fresh = (false, false, unmade, 0, 0)
control_of live = (true, false, opened, 0, 1)
control_of leaving = (false, true, opened, 1, 0)
control_of over = (false, true, closed, 0, 0)

-- A `Start` that takes the lock while a loop runs, or before one that has ended has closed its channel.
abbrev pub is_early : {H : Type 0} → Lease H → Event H → Bool
is_early l (starts now) = ltb 0 l.exiting
is_early l (initializes now) = ltb 0 l.exiting || l.ticking
is_early l _ = false

none_exits : (n : ℕ) → ltb 0 n ≡ false → n ≡ 0
none_exits n h = ground arith

or_false : (a b : Bool) → (a || b) ≡ false → a ≡ false
or_false a b h = ground arith

or_false_right : (a b : Bool) → (a || b) ≡ false → b ≡ false
or_false_right a b h = ground arith

module _ {H : Type 0} where
  abbrev pub control : Lease H → Control
  control l = (l.ticking, l.expired, l.done, l.exiting, l.loops)

  -- Events of which no `Start` is early.
  unfoldable pub patient_run : Lease H → List (Event H) → Option (Lease H)
  patient_run l [] = some l
  patient_run l (e ∷ es) = elim (if is_early l e then some l else step l e) [
    | none ↦ none
    | some k ↦ patient_run k es
  ]

  abbrev pub IsAt : Lease H → Stage → Type 0
  IsAt l stage = control l ≡ control_of stage

  abbrev pub IsSound : Option (Lease H) → Type 0
  IsSound o = (k : Lease H) × (stage : Stage) × (o ≡ some k) × IsAt k stage

  control-offer :
      (l : Lease H) (a : Action) (choice : Bool) → control (offer l a choice).0 ≡ control l
  unfolding offer
  control-offer l a choice = ground arith

  control-ask : (l : Lease H) (a : Action) (choice : Bool) → control (ask l a choice).0 ≡ control l
  unfolding ask
  control-ask l a choice =
      if_cases (λ (r : Lease H × Reply). control r.0 ≡ control l) l.expired (λ h. refl)
        (λ h. control-offer l a choice)

  control-press : (l : Lease H) (choice : Bool) → control (press l choice) ≡ control l
  unfolding press
  control-press l choice = ground arith

  control-cancel : (l : Lease H) (choice : Bool) → control (cancel l choice) ≡ control l
  unfolding cancel
  control-cancel l choice =
      if_cases (λ (k : Lease H). control k ≡ control l) l.expired (λ h. refl)
        (λ h. control-press l choice)

  control-receive :
      (l : Lease H) (acts : List Action) (now : ℕ) → control (receive_action l acts now) ≡ control l
  control-receive l [] now = refl
  control-receive l (refresh d ∷ rest) now = refl
  control-receive l (extend d ∷ rest) now = refl
  control-receive l (renew at ∷ rest) now = refl

  control-register : (l : Lease H) (kind : Kind) (h : H) → control (register l kind h) ≡ control l
  control-register l when_canceled h = refl
  control-register l when_expired h = refl
  control-register l when_refreshed h = refl
  control-register l when_extended h = refl
  control-register l when_renewed h = refl

  -- A `Start` that is refused, and one that is not.
  step-starts_refused :
      (l : Lease H) (now : ℕ) → start_refuses l ≡ true → step l (starts now) ≡ some l
  unfolding step start
  step-starts_refused l now h = simp (start, h) refl

  step-starts_accepted :
      (l : Lease H) (now : ℕ)
      → start_refuses l ≡ false
      → step l (starts now) ≡ some (initialize l now)
  unfolding step start
  step-starts_accepted l now h = simp (start, h) refl

  -- A lease that has no ticker has no loop.
  no_loops : (l : Lease H) (stage : Stage) → IsAt l stage → l.ticking ≡ false → l.loops ≡ 0
  no_loops l fresh at t = ap (λ (c : Control). c.4) at
  no_loops l live at t = absurd (not-both l.ticking t (ap (λ (c : Control). c.0) at))
  no_loops l leaving at t = ap (λ (c : Control). c.4) at
  no_loops l over at t = ap (λ (c : Control). c.4) at

  initialize-IsAt :
      (l : Lease H) (stage : Stage) (now : ℕ)
      → IsAt l stage
      → l.ticking ≡ false
      → ltb 0 l.exiting ≡ false
      → IsAt (initialize l now) live
  unfolding initialize
  initialize-IsAt l stage now at t h =
      ap (λ n. (true, false, opened, n, l.loops + 1)) (none_exits l.exiting h)
      ∙ ap (λ n. (true, false, opened, 0, n + 1)) (no_loops l stage at t)

  starts-IsSound :
      (l : Lease H) (stage : Stage) (now : ℕ)
      → IsAt l stage
      → is_early l (starts now) ≡ false
      → IsSound (step l (starts now))
  unfolding start_refuses
  starts-IsSound l stage now at h = elim (Bool-cases (start_refuses l)) [
    | inl p ↦ (l, stage, step-starts_refused l now p, at)
    | inr p ↦ (
      initialize l now,
      live,
      step-starts_accepted l now p,
      initialize-IsAt l stage now at (or_false l.ticking (l.once && l.expired) p) h,
    )
  ]

  control-test_start : (l : Lease H) → control (test_start l) ≡ control l
  unfolding test_start
  control-test_start l =
      if_cases (λ (k : Lease H). control k ≡ control l) (start_refuses l) (λ h. refl) (λ h. refl)

  initializes-IsSound :
      (l : Lease H) (stage : Stage) (now : ℕ)
      → IsAt l stage
      → is_early l (initializes now) ≡ false
      → IsSound (some (start_tested l now))
  unfolding start_tested
  initializes-IsSound l stage now at h =
      if_cases (λ (k : Lease H). IsSound (some k)) (ltb 0 l.starting)
        (λ s. (
          record (initialize l now) { starting = l.starting - 1 },
          live,
          refl,
          initialize-IsAt l stage now at (or_false_right (ltb 0 l.exiting) l.ticking h)
              (or_false (ltb 0 l.exiting) l.ticking h),
        ))
        (λ s. (l, stage, refl, at))

  -- A receive by the loop of a live lease, and that of a lease with no loop, which is none.
  abbrev loop_of : Lease H → Lease H → Control → Option (Lease H)
  loop_of l k c = if ltb 0 c.4 then (if c.0 then some k else none) else some l

  receives-IsSound :
      (l k : Lease H) (stage : Stage)
      → IsAt l stage
      → (IsAt l live → IsSound (some k))
      → IsSound (by_loop l k)
  receives-IsSound l k fresh at f = (l, fresh, ap (loop_of l k) at, at)
  receives-IsSound l k live at f = subst (λ (c : Control). IsSound (loop_of l k c)) (sym at) (f at)
  receives-IsSound l k leaving at f = (l, leaving, ap (loop_of l k) at, at)
  receives-IsSound l k over at f = (l, over, ap (loop_of l k) at, at)

  -- What the loop's end makes of the control fields.
  leaves :
      (l : Lease H)
      → IsAt l live
      → (false, true, l.done, l.exiting + 1, l.loops - 1) ≡ control_of leaving
  leaves l at = ap (λ (c : Control). (false, true, c.2, c.3 + 1, c.4 - 1)) at

  take_cancel-IsSound :
      (l : Lease H) (sent : List Signal) → IsAt l live → IsSound (some (receive_cancel l sent))
  unfolding take_cancel finalize
  take_cancel-IsSound l [] at = (l, live, refl, at)
  take_cancel-IsSound l (s ∷ rest) at = (receive_cancel l (s ∷ rest), leaving, refl, leaves l at)

  tick-IsSound : (l : Lease H) (now : ℕ) → IsAt l live → IsSound (some (tick l now))
  unfolding tick finalize
  tick-IsSound l now at =
      if_cases (λ (k : Lease H). IsSound (some k)) (has_expired l now)
        (λ h. (record (finalize l) { ran = l.ran ++ l.on_expire }, leaving, refl, leaves l at))
        (λ h. (l, live, refl, at))

  exit-IsSound : (l : Lease H) → IsAt l leaving → IsSound (exit l)
  unfolding exit
  exit-IsSound l at = (
    record l { done = closed; exiting = l.exiting - 1 },
    over,
    ap
        (λ (c : Control).
          if is_closed c.2
          then none
          else some (record l { done = closed; exiting = l.exiting - 1 }))
        at,
    ap (λ (c : Control). (c.0, c.1, closed, c.3 - 1, c.4)) at,
  )

  exits-IsSound : (l : Lease H) (stage : Stage) → IsAt l stage → IsSound (step l exits)
  unfolding step
  exits-IsSound l fresh at =
      (l, fresh, ap (λ (c : Control). if ltb 0 c.3 then exit l else some l) at, at)
  exits-IsSound l live at =
      (l, live, ap (λ (c : Control). if ltb 0 c.3 then exit l else some l) at, at)
  exits-IsSound l leaving at =
      subst (λ (c : Control). IsSound (if ltb 0 c.3 then exit l else some l)) (sym at)
        (exit-IsSound l at)
  exits-IsSound l over at =
      (l, over, ap (λ (c : Control). if ltb 0 c.3 then exit l else some l) at, at)

  -- Whatever happens to a lease at some stage, it comes to be at some stage, if no `Start` is early.
  step-IsSound :
      (l : Lease H) (stage : Stage) (e : Event H)
      → IsAt l stage
      → is_early l e ≡ false
      → IsSound (step l e)
  unfolding step
  step-IsSound l stage (starts now) at h = starts-IsSound l stage now at h
  step-IsSound l stage tests_start at h = (_, stage, refl, control-test_start l ∙ at)
  step-IsSound l stage (initializes now) at h = initializes-IsSound l stage now at h
  step-IsSound l stage takes_cancel at h =
      receives-IsSound l (receive_cancel l l.cancel_ch) stage at
        (λ a. take_cancel-IsSound l l.cancel_ch a)
  step-IsSound l stage (takes_action now) at h =
      receives-IsSound l (receive_action l l.action_ch now) stage at
        (λ a. (_, live, refl, control-receive l l.action_ch now ∙ a))
  step-IsSound l stage (ticks now) at h =
      receives-IsSound l (tick l now) stage at (λ a. tick-IsSound l now a)
  step-IsSound l stage exits at h = exits-IsSound l stage at
  step-IsSound l stage (asks a choice) at h = (_, stage, refl, control-ask l a choice ∙ at)
  step-IsSound l stage (offers a choice) at h = (_, stage, refl, control-offer l a choice ∙ at)
  step-IsSound l stage (cancels choice) at h = (_, stage, refl, control-cancel l choice ∙ at)
  step-IsSound l stage (presses choice) at h = (_, stage, refl, control-press l choice ∙ at)
  step-IsSound l stage (registers kind x) at h = (_, stage, refl, control-register l kind x ∙ at)

  patient_run-step :
      (l k : Lease H) (e : Event H) (es : List (Event H))
      → (if is_early l e then some l else step l e) ≡ some k
      → patient_run l (e ∷ es) ≡ patient_run k es
  unfolding patient_run
  patient_run-step l k e es h =
      ap
        (λ (o : Option (Lease H)). elim o as (λ x. Option (Lease H)) [
          | none ↦ none
          | some k ↦ patient_run k es
        ])
        h

  patient_step-IsSound :
      (l : Lease H) (stage : Stage) (e : Event H)
      → IsAt l stage
      → IsSound (if is_early l e then some l else step l e)
  patient_step-IsSound l stage e at =
      if_cases (λ o. IsSound o) (is_early l e) (λ h. (l, stage, refl, at))
        (λ h. step-IsSound l stage e at h)

  -- From a lease at one of four stages, and as long as no Start takes the lock while a loop runs,
  -- or between the end of a loop and the close of its channel (so that no two calls of Start
  -- overlap), nothing panics, whatever the order of the events, and the lease is again at one of
  -- them: not yet started, live with its channel done open, past its end with it still open, or
  -- past its end with it closed.
  pub patient_run-stage :
      (l : Lease H) (stage : Stage) (es : List (Event H))
      → IsAt l stage
      → IsSound (patient_run l es)
  unfolding patient_run
  patient_run-stage l stage [] at = (l, stage, refl, at)
  patient_run-stage l stage (e ∷ es) at =
      let (k, next, eq, reached) = patient_step-IsSound l stage e at in
      let (r, last, eq', end) = patient_run-stage k next es reached in
      (r, last, patient_run-step l k e es eq ∙ eq', end)
