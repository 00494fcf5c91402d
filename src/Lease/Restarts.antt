-- ===== src/Lease/Restarts.antt =====
-- Starting a lease of pkg/structs/lease/lease.go again: too early, and after `Once`.
use framingo.Prelude.{
  ℕ, ◌+◌, ◌-◌, ◌<◌, ◌≡◌, refl, sym, subst, ◌∙◌, ap, List, [], ◌∷◌, ◌++◌, Bool, true, false, Option,
  none, some, ltb, arith, if◌then◌else◌, if_cases, lt→ltb,
}
use framingo.Lease.{
  Lease, tests_start, initializes, test_start, start_tested, by_loop, is_closed, closed, Event,
  starts, takes_cancel, takes_action, ticks, exits, asks, offers, cancels, presses, registers, run,
  run-step, step, start, start_refuses, has_expired, tick, finalize, initialize, exit, Action,
  offer, ask, cancel, press, register, refused, Kind, when_canceled, when_expired, when_refreshed,
  when_extended, when_renewed, receive_action, receive_cancel,
}
use framingo.Lease.Endings.{leaving, IsAt, Control}

module _ {H : Type 0} where
  -- A lease that is not to start again, and whose loop has ended.
  pub record IsOver (l : Lease H) : Type 0 where
    pub once_only : l.once ≡ true
    pub has_ended : l.expired ≡ true
    pub no_loop : l.ticking ≡ false
    pub none_starting : l.starting ≡ 0
    pub none_looping : l.loops ≡ 0

  -- The fields `once`, `expired`, `ticking`, `starting`, `loops`, `expires_at` and `ran`.
  abbrev pub ending : Lease H → Bool × Bool × Bool × ℕ × ℕ × ℕ × List H
  ending l = (l.once, l.expired, l.ticking, l.starting, l.loops, l.expires_at, l.ran)

  -- What an event may make of a lease: the same in these fields, or a panic.
  pub data Keeps (l : Lease H) : Option (Lease H) → Type 0 where
    down : Keeps l none
    kept : (k : Lease H) → ending k ≡ ending l → Keeps l (some k)

  start-over : (l : Lease H) (now : ℕ) → IsOver l → start l now ≡ l
  unfolding start start_refuses
  start-over l now s = simp (s.once_only, s.has_ended, s.no_loop) refl

  test_start-over : (l : Lease H) → IsOver l → test_start l ≡ l
  unfolding test_start start_refuses
  test_start-over l s = simp (s.once_only, s.has_ended, s.no_loop) refl

  start_tested-over : (l : Lease H) (now : ℕ) → IsOver l → start_tested l now ≡ l
  unfolding start_tested
  start_tested-over l now s =
      ap (λ n. if ltb 0 n then record (initialize l now) { starting = l.starting - 1 } else l)
        s.none_starting

  receives-Keeps : (l k : Lease H) → IsOver l → Keeps l (by_loop l k)
  receives-Keeps l k s =
      subst (λ n. Keeps l (if ltb 0 n then (if l.ticking then some k else none) else some l))
        (sym s.none_looping) (kept l refl)

  ending-offer : (l : Lease H) (a : Action) (choice : Bool) → ending (offer l a choice).0 ≡ ending l
  unfolding offer
  ending-offer l a choice = ground arith

  ending-press : (l : Lease H) (choice : Bool) → ending (press l choice) ≡ ending l
  unfolding press
  ending-press l choice = ground arith

  ask-over : (l : Lease H) (a : Action) (choice : Bool) → IsOver l → ask l a choice ≡ (l, refused)
  unfolding ask
  ask-over l a choice s = simp (s.has_ended) refl

  cancel-over : (l : Lease H) (choice : Bool) → IsOver l → cancel l choice ≡ l
  unfolding cancel
  cancel-over l choice s = simp (s.has_ended) refl

  ending-register : (l : Lease H) (kind : Kind) (x : H) → ending (register l kind x) ≡ ending l
  ending-register l when_canceled x = refl
  ending-register l when_expired x = refl
  ending-register l when_refreshed x = refl
  ending-register l when_extended x = refl
  ending-register l when_renewed x = refl

  exit-Keeps : (l : Lease H) → Keeps l (exit l)
  unfolding exit
  exit-Keeps l =
      if_cases (λ o. Keeps l o) (is_closed l.done) (λ h. down)
        (λ h. kept (record l { done = closed; exiting = l.exiting - 1 }) refl)

  step-Keeps : (l : Lease H) (e : Event H) → IsOver l → Keeps l (step l e)
  unfolding step
  step-Keeps l (starts now) s = kept (start l now) (ap ending (start-over l now s))
  step-Keeps l tests_start s = kept (test_start l) (ap ending (test_start-over l s))
  step-Keeps l (initializes now) s =
      kept (start_tested l now) (ap ending (start_tested-over l now s))
  step-Keeps l takes_cancel s = receives-Keeps l (receive_cancel l l.cancel_ch) s
  step-Keeps l (takes_action now) s = receives-Keeps l (receive_action l l.action_ch now) s
  step-Keeps l (ticks now) s = receives-Keeps l (tick l now) s
  step-Keeps l exits s =
      if_cases (λ o. Keeps l o) (ltb 0 l.exiting) (λ h. exit-Keeps l) (λ h. kept l refl)
  step-Keeps l (asks a choice) s =
      kept (ask l a choice).0 (ap (λ r. ending r.0) (ask-over l a choice s))
  step-Keeps l (offers a choice) s = kept (offer l a choice).0 (ending-offer l a choice)
  step-Keeps l (cancels choice) s = kept (cancel l choice) (ap ending (cancel-over l choice s))
  step-Keeps l (presses choice) s = kept (press l choice) (ending-press l choice)
  step-Keeps l (registers kind x) s = kept (register l kind x) (ending-register l kind x)

  ending-IsOver : (l k : Lease H) → ending k ≡ ending l → IsOver l → IsOver k
  ending-IsOver l k eq s = record {
    once_only = ap (λ e. e.0) eq ∙ s.once_only;
    has_ended = ap (λ e. e.1) eq ∙ s.has_ended;
    no_loop = ap (λ e. e.2) eq ∙ s.no_loop;
    none_starting = ap (λ e. e.3) eq ∙ s.none_starting;
    none_looping = ap (λ e. e.4) eq ∙ s.none_looping;
  }

  Keeps-trans : (l k : Lease H) (o : Option (Lease H)) → ending k ≡ ending l → Keeps k o → Keeps l o
  Keeps-trans l k none eq down = down
  Keeps-trans l k (some r) eq (kept _ eq') = kept r (eq' ∙ eq)

  run-Keeps_step :
      (l : Lease H) (o : Option (Lease H)) (es : List (Event H))
      → IsOver l
      → Keeps l o
      → ((k : Lease H) → IsOver k → Keeps k (run k es))
      → Keeps l (elim o as (λ x. Option (Lease H)) [ none ↦ none | some k ↦ run k es ])
  run-Keeps_step l none es s down f = down
  run-Keeps_step l (some k) es s (kept _ eq) f =
      Keeps-trans l k (run k es) eq (f k (ending-IsOver l k eq s))

  -- A lease made with Once whose loop has ended, with no Start past its test, never starts again: whatever follows, its expiry
  -- is kept and no callback runs, as long as nothing panics.
  pub run-Keeps : (l : Lease H) (es : List (Event H)) → IsOver l → Keeps l (run l es)
  unfolding run
  run-Keeps l [] s = kept l refl
  run-Keeps l (e ∷ es) s =
      run-Keeps_step l (step l e) es s (step-Keeps l e s) (λ k t. run-Keeps k es t)

  abbrev closed_early : Lease H → ℕ → Lease H
  unfolding initialize
  closed_early l now = record (initialize l now) { done = closed; exiting = 0 }

  abbrev ended_late : Lease H → ℕ → Lease H
  unfolding finalize
  ended_late l now = record (finalize (closed_early l now)) { ran = l.ran ++ l.on_expire }

  early_starts :
      (l : Lease H) (now : ℕ)
      → IsAt l leaving
      → l.once ≡ false
      → step l (starts now) ≡ some (initialize l now)
  unfolding step start start_refuses
  early_starts l now at once = simp (start, start_refuses, once, ap (λ (c : Control). c.0) at) refl

  early_exits :
      (l : Lease H) (now : ℕ)
      → IsAt l leaving
      → step (initialize l now) exits ≡ some (closed_early l now)
  unfolding step initialize exit
  early_exits l now at =
      ap
        (λ (c : Control).
          if ltb 0 c.3
          then some (record (initialize l now) { done = closed; exiting = c.3 - 1 })
          else some (initialize l now))
        at

  late_ticks :
      (l : Lease H) (now later : ℕ)
      → IsAt l leaving
      → now + l.duration < later
      → step (closed_early l now) (ticks later) ≡ some (ended_late l now)
  unfolding step tick has_expired initialize
  late_ticks l now later at h =
      simp
        (
          tick,
          has_expired,
          lt→ltb (now + l.duration) later h,
          lt→ltb 0 (l.loops + 1) (omega (arith, ap (λ (c : Control). c.4) at)),
        )
        refl

  late_exits : (l : Lease H) (now : ℕ) → run (ended_late l now) (exits ∷ []) ≡ none
  unfolding run step exit ended_late closed_early
  late_exits l now = refl

  -- If a lease that is not for once is started again between the end of its loop and the close of
  -- its channel done, the old loop closes the channel of the new one, so that the program panics
  -- when the new loop ends by a tick past the new expiry.
  pub run-early_start :
      (l : Lease H) (now later : ℕ)
      → IsAt l leaving
      → l.once ≡ false
      → now + l.duration < later
      → run l (starts now ∷ exits ∷ ticks later ∷ exits ∷ []) ≡ none
  run-early_start l now later at once h =
      run-step l (initialize l now) (starts now) (exits ∷ ticks later ∷ exits ∷ [])
        (early_starts l now at once)
      ∙ run-step (initialize l now) (closed_early l now) exits (ticks later ∷ exits ∷ [])
          (early_exits l now at)
      ∙ run-step (closed_early l now) (ended_late l now) (ticks later) (exits ∷ [])
          (late_ticks l now later at h)
      ∙ late_exits l now
