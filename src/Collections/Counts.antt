-- ===== src/Collections/Counts.antt =====
-- How often elements stand in the results of pkg/utils/sliceutil/slice.go.
use framingo.Prelude.{
  ℕ, zero, suc, ◌+◌, ◌-◌, ◌≡◌, refl, sym, ap, ◌∙◌, List, [], ◌∷◌, ◌++◌, Bool, true, false, ◌||◌,
  some, if◌then◌else◌, Bool-cases, inl, inr, not-both, arith, min,
}
use framingo.Prelude.Counts.{one_if}
use framingo.Prelude.Dicts.{Dict, Keyed, lookup, insert, lookup-insert}
use framingo.Prelude.Dicts.Entries.{IsUnique, insert-IsUnique, lookup-absent}
use framingo.Collections.{
  contains, keep_new, deduplicate, found, tally, count_all, copies, surplus, changes,
}

module _ {T : Type 0} (key : Keyed T) where
  abbrev pub times : T → List T → ℕ
  times x [] = 0
  times x (y ∷ ys) = one_if (key.same y x) + times x ys

passed_over :
    (c s : Bool) (n : ℕ)
    → (s ≡ true → c ≡ true)
    → (if c then 0 else min 1 n) ≡ (if c then 0 else min 1 (one_if s + n))
passed_over true s n h = refl
passed_over false true n h = absurd (not-both false refl (h refl))
passed_over false false n h = omega arith

kept_once :
    (c s : Bool) (n : ℕ)
    → (s ≡ true → c ≡ false)
    → one_if s + (if s || c then 0 else min 1 n) ≡ (if c then 0 else min 1 (one_if s + n))
kept_once true true n h = absurd (not-both true (h refl) refl)
kept_once false true n h = omega arith
kept_once true false n h = omega arith
kept_once false false n h = omega arith

module _ {T : Type 0} (key : Keyed T) where
  times-append : (x : T) (ys zs : List T) → times key x (ys ++ zs) ≡ times key x ys + times key x zs
  times-append x [] zs = omega arith
  times-append x (y ∷ ys) zs = omega (arith, times-append x ys zs)

  times-copies : (x y : T) (n : ℕ) → times key x (copies key n y) ≡ (if key.same y x then n else 0)
  times-copies x y zero = ground arith
  times-copies x y (suc n) = ground (arith, times-copies x y n)

  tally-count_all :
      (d : Dict T ℕ) (xs : List T) (x : T)
      → tally key (count_all key d xs) x ≡ tally key d x + times key x xs
  unfolding count_all
  tally-count_all d [] x = omega arith
  tally-count_all d (y ∷ ys) x =
      tally-count_all (insert key d y (tally key d y + 1)) ys x
      ∙ ap (λ (n : ℕ). n + times key x ys)
          (ap (found key) (lookup-insert key d y x (tally key d y + 1)))
      ∙ elim (Bool-cases (key.same y x)) [
        | inl p ↦ omega (
          arith,
          ap (λ b. found key (if b then some (tally key d y + 1) else lookup key d x)) p,
          ap one_if p,
          ap (tally key d) (key.same_eq y x p),
        )
        | inr p ↦ omega (
          arith,
          ap (λ b. found key (if b then some (tally key d y + 1) else lookup key d x)) p,
          ap one_if p,
        )
      ]

  count_all-IsUnique :
      (d : Dict T ℕ) (xs : List T) → IsUnique key d → IsUnique key (count_all key d xs)
  unfolding count_all
  count_all-IsUnique d [] u = u
  count_all-IsUnique d (x ∷ xs) u =
      count_all-IsUnique (insert key d x (tally key d x + 1)) xs
        (insert-IsUnique key d x (tally key d x + 1) u)

  times-surplus :
      (d other : Dict T ℕ) (x : T)
      → IsUnique key d
      → times key x (surplus key d other) ≡ tally key d x - tally key other x
  times-surplus [] other x u = omega arith
  times-surplus ((y, n) ∷ d) other x u =
      times-append x (copies key (n - tally key other y) y) (surplus key d other)
      ∙ elim (Bool-cases (key.same y x)) [
        | inl p ↦ omega (
          arith,
          times-copies x y (n - tally key other y)
              ∙ ap (λ b. if b then n - tally key other y else 0) p,
          times-surplus d other x u.1,
          ap (found key) (lookup-absent key d y x u.0 p),
          ap (λ b. found key (if b then some n else lookup key d x)) p,
          ap (tally key other) (key.same_eq y x p),
        )
        | inr p ↦ omega (
          arith,
          times-copies x y (n - tally key other y)
              ∙ ap (λ b. if b then n - tally key other y else 0) p,
          times-surplus d other x u.1,
          ap (λ b. found key (if b then some n else lookup key d x)) p,
        )
      ]

  -- Changes adds each element as often as the second slice has it more often than the first, and
  -- removes it as often as the first has it more often than the second.
  pub times-changes :
      (from to : List T) (x : T)
      → (times key x (changes key from to).0 ≡ times key x to - times key x from)
        × (times key x (changes key from to).1 ≡ times key x from - times key x to)
  unfolding changes
  times-changes from to x = (
    omega (
      arith,
      times-surplus (count_all key [] to) (count_all key [] from) x (count_all-IsUnique [] to tt),
      tally-count_all [] to x,
      tally-count_all [] from x,
    ),
    omega (
      arith,
      times-surplus (count_all key [] from) (count_all key [] to) x (count_all-IsUnique [] from tt),
      tally-count_all [] to x,
      tally-count_all [] from x,
    ),
  )

  times-keep_new :
      (seen xs : List T) (x : T)
      → times key x (keep_new key seen xs)
        ≡ (if contains key x seen then 0 else min 1 (times key x xs))
  times-keep_new seen [] x = ground arith
  times-keep_new seen (y ∷ ys) x =
      let met : key.same y x ≡ true → contains key y seen ≡ contains key x seen =
        λ p. ap (λ i. contains key i seen) (key.same_eq y x p) in
      elim (Bool-cases (contains key y seen)) [
        | inl c ↦
            ap
              (λ b.
                times key x (if b then keep_new key seen ys else y ∷ keep_new key (y ∷ seen) ys))
              c
            ∙ times-keep_new seen ys x
            ∙ passed_over (contains key x seen) (key.same y x) (times key x ys)
                (λ p. sym (met p) ∙ c)
        | inr c ↦
            ap
              (λ b.
                times key x (if b then keep_new key seen ys else y ∷ keep_new key (y ∷ seen) ys))
              c
            ∙ ap (λ (n : ℕ). one_if (key.same y x) + n) (times-keep_new (y ∷ seen) ys x)
            ∙ kept_once (contains key x seen) (key.same y x) (times key x ys) (λ p. sym (met p) ∙ c)
      ]

  -- Deduplicate keeps each element once, and no other.
  pub times-deduplicate :
      (xs : List T) (x : T) → times key x (deduplicate key xs) ≡ min 1 (times key x xs)
  unfolding deduplicate
  times-deduplicate xs x = times-keep_new [] xs x
