-- ===== src/Staque/Simple/Order.antt =====
-- Which elements the calls of pkg/structs/staque/simple.go take off, and in which order.
use framingo.Prelude.{
  ℕ, zero, suc, ◌-◌, ◌≤◌, ◌<◌, ◌≡◌, refl, ap, List, [], ◌∷◌, ◌++◌, some, length, take, drop,
  get_elem?, append-nil, append_assoc, length-append, length-drop, Outcome, ok, err, ◌>>=◌, arith,
  ◌⊎◌, ◌≢◌, unsnoc, take-append-drop,
}
use framingo.Prelude.Int.{pos}
use framingo.Staque.Simple.{Simple, Error, too_few, push, pop, shift, pop_n, shift_n}

module _ {T : Type 0} where
  get_elem?-snoc : (xs : List T) (x : T) → get_elem? (xs ++ x ∷ []) (length xs) ≡ some x
  get_elem?-snoc [] x = refl
  get_elem?-snoc (y ∷ xs) x = get_elem?-snoc xs x

  take-snoc : (xs : List T) (x : T) → take (length xs) (xs ++ x ∷ []) ≡ xs
  take-snoc [] x = refl
  take-snoc (y ∷ xs) x = ap (λ r. y ∷ r) (take-snoc xs x)

  -- `pop` takes the newest element off.
  pub pop-snoc :
      (m : ℕ) (xs : List T) (x : T)
      → pop (record { elements = xs ++ x ∷ []; max_size = m })
        ≡ ok (x, record { elements = xs; max_size = m })
  unfolding pop
  pop-snoc m xs x =
      let e : length (xs ++ x ∷ []) - 1 ≡ length xs = omega (arith, length-append xs (x ∷ [])) in
      rw (e, pop) (rw (get_elem?-snoc xs x, pop) (rw (e, take-snoc xs x)))

  -- `n` calls of `pop`: their elements, the oldest first.
  unfoldable pub pop_each : ℕ → Simple T → Outcome Error (List T × Simple T)
  pop_each zero s = ok ([], s)
  pop_each (suc n) s = do (x, s') ← pop s; (xs, s'') ← pop_each n s'; ok (xs ++ x ∷ [], s'')

  -- `n` calls of `shift`: their elements, the oldest first.
  unfoldable pub shift_each : ℕ → Simple T → Outcome Error (List T × Simple T)
  shift_each zero s = ok ([], s)
  shift_each (suc n) s = do (x, s') ← shift s; (xs, s'') ← shift_each n s'; ok (x ∷ xs, s'')

  shift_each-ok :
      (m n : ℕ) (xs : List T)
      → n ≤ length xs
      → shift_each n (record { elements = xs; max_size = m })
        ≡ ok (take n xs, record { elements = drop n xs; max_size = m })
  unfolding shift_each shift
  shift_each-ok m zero xs h = refl
  shift_each-ok m (suc n) [] h = absurd (omega arith)
  shift_each-ok m (suc n) (x ∷ xs) h = rw (shift_each-ok m n xs (omega arith))

  pop_each-ok :
      (m n : ℕ) (xs ys : List T)
      → length ys ≡ n
      → pop_each n (record { elements = xs ++ ys; max_size = m })
        ≡ ok (ys, record { elements = xs; max_size = m })
  unfolding pop_each
  pop_each-ok m zero xs [] h = rw (append-nil xs)
  pop_each-ok m zero xs (y ∷ ys) h = absurd (omega arith)
  pop_each-ok m (suc n) xs ys h =
      let (zs, z, e, l) = unsnoc n ys h in
      rw (e, ← append_assoc xs zs (z ∷ []), pop-snoc m (xs ++ zs) z, pop_each-ok m n xs zs l)

  pop_each-take :
      (n : ℕ) (s : Simple T)
      → n ≤ length s.elements
      → pop_each n s
        ≡ ok (
          drop (length s.elements - n) s.elements,
          record s { elements = take (length s.elements - n) s.elements },
        )
  pop_each-take n s h =
      let k = length s.elements - n in
      let e =
        pop_each-ok s.max_size n (take k s.elements) (drop k s.elements)
          (omega (arith, length-drop k s.elements)) in
      rw (take-append-drop k s.elements) at e

  -- Where there are elements, PopN of a number that is not negative comes to that many calls of
  -- Pop, with the elements in their order of age; if there are too few, it fails and says so.
  pub pop_n-pop_each :
      (s : Simple T) (n : ℕ)
      → s.elements ≢ []
      → ((n ≤ length s.elements) × (pop_n s (pos n) ≡ pop_each n s))
        ⊎ ((length s.elements < n) × (pop_n s (pos n) ≡ err (too_few n (length s.elements))))
  unfolding pop_n
  pop_n-pop_each s n h = ground (arith, pop_each-take n s)

  -- Where there are elements, ShiftN of a number that is not negative comes to that many calls of
  -- Shift; if there are too few, it fails and says so.
  pub shift_n-shift_each :
      (s : Simple T) (n : ℕ)
      → s.elements ≢ []
      → ((n ≤ length s.elements) × (shift_n s (pos n) ≡ shift_each n s))
        ⊎ ((length s.elements < n) × (shift_n s (pos n) ≡ err (too_few n (length s.elements))))
  unfolding shift_n
  shift_n-shift_each s n h = ground (arith, shift_each-ok s.max_size n s.elements)

  -- Below the limit, or with none, Pop takes off what Push has put on and leaves the rest as it
  -- was.
  pub pop-push :
      (s : Simple T) (x : T)
      → (s.max_size ≡ 0) ⊎ (length s.elements < s.max_size)
      → pop (push s (x ∷ [])) ≡ ok (x, s)
  unfolding push
  pop-push s x h =
      ground (arith, length-append s.elements (x ∷ []), pop-snoc s.max_size s.elements x)
