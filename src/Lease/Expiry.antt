-- ===== src/Lease/Expiry.antt =====
-- When a lease of pkg/structs/lease/lease.go expires, and what keeps it alive.
use framingo.Prelude.{
  ℕ, ◌+◌, ◌≡◌, refl, ◌∙◌, List, [], ◌∷◌, ◌++◌, Bool, true, false, ◌||◌, some, ltb, if◌then◌else◌,
  Bool-cases, inl, inr, if_cases, arith, ◌-◌,
}
use framingo.Lease.{Lease, Event, ticks, run, run-step, step, has_expired, tick, finalize}

-- Whether one of the instants lies past the given one.
abbrev pub any_past : ℕ → List ℕ → Bool
any_past at [] = false
any_past at (now ∷ later) = ltb at now || any_past at later

module _ {H : Type 0} where
  abbrev pub only_ticks : List ℕ → List (Event H)
  only_ticks [] = []
  only_ticks (now ∷ later) = ticks now ∷ only_ticks later

  -- What a lease has become when its loop ends by itself.
  abbrev pub ended : Lease H → Lease H
  ended l = record l {
    ticking = false;
    expired = true;
    exiting = l.exiting + 1;
    loops = l.loops - 1;
    ran = l.ran ++ l.on_expire;
  }

  step-ticks_off : (l : Lease H) (now : ℕ) → l.loops ≡ 0 → step l (ticks now) ≡ some l
  unfolding step
  step-ticks_off l now h = simp (h) refl

  step-ticks_before :
      (l : Lease H) (now : ℕ)
      → l.ticking ≡ true
      → ltb l.expires_at now ≡ false
      → step l (ticks now) ≡ some l
  unfolding step tick has_expired
  step-ticks_before l now t h =
      if_cases (λ o. o ≡ some l) (ltb 0 l.loops) (λ p. simp (t, tick, has_expired, h) refl)
        (λ p. refl)

  step-ticks_past :
      (l : Lease H) (now : ℕ)
      → l.ticking ≡ true
      → l.loops ≡ 1
      → ltb l.expires_at now ≡ true
      → step l (ticks now) ≡ some (ended l)
  unfolding step tick has_expired finalize
  step-ticks_past l now t one h = simp (t, one, tick, has_expired, h, finalize) refl

  ticks_after_end : (l : Lease H) (times : List ℕ) → l.loops ≡ 0 → run l (only_ticks times) ≡ some l
  unfolding run
  ticks_after_end l [] h = refl
  ticks_after_end l (now ∷ later) h =
      run-step l l (ticks now) (only_ticks later) (step-ticks_off l now h)
      ∙ ticks_after_end l later h

  -- A lease whose loop runs, and on which only the ticker works, expires at the first tick past
  -- its expiry, and then runs its callbacks for expiry once, however many ticks follow; until then
  -- it is as it was.
  pub run-only_ticks :
      (l : Lease H) (times : List ℕ)
      → l.ticking ≡ true
      → l.loops ≡ 1
      → run l (only_ticks times) ≡ some (if any_past l.expires_at times then ended l else l)
  unfolding run
  run-only_ticks l [] h one = refl
  run-only_ticks l (now ∷ later) h one = elim (Bool-cases (ltb l.expires_at now)) [
    | inl p ↦ rw (p) (
        run-step l (ended l) (ticks now) (only_ticks later) (step-ticks_past l now h one p)
        ∙ ticks_after_end (ended l) later (omega (arith, one)))
    | inr p ↦ rw (p) (
        run-step l l (ticks now) (only_ticks later) (step-ticks_before l now h p)
        ∙ run-only_ticks l later h one)
  ]
