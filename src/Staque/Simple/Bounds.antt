-- ===== src/Staque/Simple/Bounds.antt =====
-- The size limit of pkg/structs/staque/simple.go.
use framingo.Prelude.{
  ℕ, ◌-◌, ◌≤◌, ◌≡◌, refl, ap, ◌∙◌, ◌⊎◌, inl, inr, List, [], ◌∷◌, ◌++◌, Bool-cases, ltb, ◌&&◌,
  if◌then◌else◌, length, drop, length-append, length-drop, length-take, drop-append_left, drop-drop,
  append_assoc, Outcome, ok, err, panics, arith, true,
}
use framingo.Prelude.Int.{ℤ, pos, negsuc, is_pos, pos_part}
use framingo.Staque.Simple.{
  Simple, Error, push, pop, shift, pop_n, shift_n, reset, size, new_simple,
}

-- The last `m` elements; all of them if `m` is 0.
abbrev keep_last : {T : Type 0} → ℕ → List T → List T
keep_last m l = if ltb 0 m && ltb m (length l) then drop (length l - m) l else l

module _ {T : Type 0} where
  keep_last-append :
      (m : ℕ) (xs ys : List T) → keep_last m (keep_last m xs ++ ys) ≡ keep_last m (xs ++ ys)
  keep_last-append m xs ys = elim (Bool-cases (ltb 0 m && ltb m (length xs))) [
    | inl cut ↦ rw cut (
        ground (
          arith,
          length-append xs ys,
          length-append (drop (length xs - m) xs) ys,
          length-drop (length xs - m) xs,
          drop-append_left (length xs - m) xs ys,
          drop-drop (length (drop (length xs - m) xs ++ ys) - m) (length xs - m) (xs ++ ys),
        ))
    | inr whole ↦ rw whole
  ]

  -- Elements pushed in two calls end up as if pushed in one, also where the limit cuts.
  pub push-push : (s : Simple T) (xs ys : List T) → push (push s xs) ys ≡ push s (xs ++ ys)
  unfolding push
  push-push s xs ys =
      ap (λ l. record s { elements = l })
        (keep_last-append s.max_size (s.elements ++ xs) ys
          ∙ ap (keep_last s.max_size) (append_assoc s.elements xs ys))

  -- Within the limit, if there is one.
  abbrev pub IsBounded : Simple T → Type 0
  IsBounded s = (s.max_size ≡ 0) ⊎ (length s.elements ≤ s.max_size)

  push-IsBounded : (s : Simple T) (xs : List T) → IsBounded (push s xs)
  unfolding push
  push-IsBounded s xs =
      ground (arith, length-drop (length (s.elements ++ xs) - s.max_size) (s.elements ++ xs))

-- The calls that change a sequence.
pub data Call (T : Type 0) : Type 0 where
  pushes : List T → Call T
  pops : Call T
  shifts : Call T
  pops_n : ℤ → Call T
  shifts_n : ℤ → Call T
  resets : Call T

module _ {T : Type 0} where
  -- A call that fails leaves the sequence as it was.
  abbrev pub after {ℓ} :
      {R : Type ℓ} → Simple T → Outcome Error (record { 0 : R; 1 : Simple T }) → Simple T
  after s (ok r) = r.1
  after s (err e) = s
  after s panics = s

  unfoldable pub step : Simple T → Call T → Simple T
  step s (pushes xs) = push s xs
  step s pops = after s (pop s)
  step s shifts = after s (shift s)
  step s (pops_n n) = after s (pop_n s n)
  step s (shifts_n n) = after s (shift_n s n)
  step s resets = reset s

  step-IsBounded : (s : Simple T) (c : Call T) → IsBounded s → IsBounded (step s c)
  unfolding step pop shift pop_n shift_n reset
  step-IsBounded s (pushes xs) h = push-IsBounded s xs
  step-IsBounded s pops h = ground (arith, length-take (length s.elements - 1) s.elements)
  step-IsBounded s shifts h = ground arith
  step-IsBounded s (pops_n (pos n)) h =
      ground (arith, length-take (length s.elements - n) s.elements)
  step-IsBounded s (pops_n (negsuc n)) h = ground arith
  step-IsBounded s (shifts_n (pos n)) h = ground (arith, length-drop n s.elements)
  step-IsBounded s (shifts_n (negsuc n)) h = ground arith
  step-IsBounded s resets h = ground arith

  max_size-step : (s : Simple T) (c : Call T) → (step s c).max_size ≡ s.max_size
  unfolding step push pop shift pop_n shift_n reset
  max_size-step s (pushes xs) = refl
  max_size-step s pops = ground arith
  max_size-step s shifts = ground arith
  max_size-step s (pops_n (pos n)) = ground arith
  max_size-step s (pops_n (negsuc n)) = ground arith
  max_size-step s (shifts_n (pos n)) = ground arith
  max_size-step s (shifts_n (negsuc n)) = ground arith
  max_size-step s resets = refl

  unfoldable pub run : Simple T → List (Call T) → Simple T
  run s [] = s
  run s (c ∷ cs) = run (step s c) cs

  run-IsBounded :
      (m : ℕ) (s : Simple T) (cs : List (Call T))
      → s.max_size ≡ m
      → IsBounded s
      → (IsBounded (run s cs)) × ((run s cs).max_size ≡ m)
  unfolding run
  run-IsBounded m s [] e h = (h, e)
  run-IsBounded m s (c ∷ cs) e h =
      run-IsBounded m (step s c) cs (max_size-step s c ∙ e) (step-IsBounded s c h)

  -- Whatever calls follow its creation with a positive limit, failing ones included, a simple
  -- stack-queue holds at most that many elements.
  pub size-run-le :
      (limit : ℤ) (cs : List (Call T))
      → is_pos limit ≡ true
      → size (run (new_simple limit) cs) ≤ pos_part limit
  unfolding size new_simple
  size-run-le (pos m) cs h =
      let (b, e) = run-IsBounded m (new_simple (pos m)) cs refl (inr (omega arith)) in ground arith
  size-run-le (negsuc m) cs h = cc
