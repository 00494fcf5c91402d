-- ===== src/Messagebus/Counts.antt =====
-- How often a name is subscribed to a bus of pkg/services/messagebus.
use framingo.Prelude.{
  ℕ, ◌+◌, ◌≡◌, refl, sym, ap, ◌∙◌, ◌⊎◌, List, [], ◌∷◌, ◌++◌, Bool, true, false, ◌&&◌, Option, none,
  some, if◌then◌else◌, if_cases, All, Bool-cases, inl, inr, arith,
}
use framingo.Prelude.Dicts.{Dict, Keyed, lookup, same-left}
use framingo.Prelude.Dicts.Entries.{IsUnique, lookup-absent}
use framingo.Messagebus.{
  Module, Bus, Task, subscribes, unsubscribes, has_handler, subscribe, drop_name, unsubscribe,
  perform, perform_all, subscribe_tasks, unsubscribe_tasks,
}

abbrev pub one_if : Bool → ℕ
one_if true = 1
one_if false = 0

module _ {N : Type 0} (key : Keyed N) (accepts : N → Bool) where
  abbrev pub times : N → List N → ℕ
  times n [] = 0
  times n (m ∷ ms) = one_if (key.same m n) + times n ms

  abbrev pub want : Option (Module N) → ℕ
  want none = 0
  want (some s) = one_if (has_handler s && accepts s.name)

  -- Whether a module of the map is to be subscribed under a name.
  abbrev pub wanted : Dict N (Module N) → N → ℕ
  wanted d n = want (lookup key d n)

  abbrev pub expected : Bus N → N → ℕ
  expected b n = if b.started then wanted b.modules n else 0

if_both : (a b : ℕ) (c : Bool) → c ≡ true → (if c then 0 else a) ≡ (if c then 0 else b)
if_both a b c h = ground (arith, h)

if_out : (a b : ℕ) (c : Bool) → c ≡ false → a ≡ b → (if c then 0 else a) ≡ (if c then 0 else b)
if_out a b c h e = ground (arith, h, e)

if_in :
    (a b d x : ℕ) (c : Bool)
    → c ≡ true
    → x ≡ (if c then 0 else a)
    → d ≡ 0
    → d + x ≡ (if c then 0 else b)
if_in a b d x c h e z = ground (arith, h, e, z)

if_off : (a d : ℕ) (c : Bool) → c ≡ false → d + (if c then 0 else a) ≡ (if c then 0 else d + a)
if_off a d c h = ground (arith, h)

one_or : (a b : Bool) → b ≡ true → one_if a ≡ (if a then one_if b else 0)
one_or a b h = ground (arith, h)

none_or : (a b : Bool) → b ≡ false → (if a then one_if b else 0) ≡ 0
none_or a b h = ground (arith, h)

module _ {N : Type 0} (key : Keyed N) (accepts : N → Bool) where
  times-snoc :
      (n m : N) (ms : List N)
      → times key accepts n (ms ++ (m ∷ [])) ≡ times key accepts n ms + one_if (key.same m n)
  times-snoc n m [] = omega arith
  times-snoc n m (k ∷ ms) = omega (arith, times-snoc n m ms)

  apart : (k m n : N) → key.same k m ≡ false → key.same m n ≡ true → one_if (key.same k n) ≡ 0
  apart k m n p q = ap (λ i. one_if (key.same k i)) (sym (key.same_eq m n q)) ∙ ap one_if p

  times-drop_name :
      (n m : N) (ms : List N)
      → times key accepts n (drop_name key accepts m ms)
        ≡ (if key.same m n then 0 else times key accepts n ms)
  times-drop_name n m [] = ground arith
  times-drop_name n m (k ∷ ms) = elim (Bool-cases (key.same k m)) [
    | inl p ↦ elim (Bool-cases (key.same m n)) [
      | inl q ↦
          ap
            (λ b.
              times key accepts n
                (if b then drop_name key accepts m ms else k ∷ drop_name key accepts m ms))
            p
          ∙ times-drop_name n m ms
          ∙ if_both _ _ _ q
      | inr q ↦
          ap
            (λ b.
              times key accepts n
                (if b then drop_name key accepts m ms else k ∷ drop_name key accepts m ms))
            p
          ∙ times-drop_name n m ms
          ∙ if_out _ _ _ q (omega (arith, ap one_if (same-left key k m n p ∙ q)))
    ]
    | inr p ↦ elim (Bool-cases (key.same m n)) [
      | inl q ↦
          ap
            (λ b.
              times key accepts n
                (if b then drop_name key accepts m ms else k ∷ drop_name key accepts m ms))
            p
          ∙ if_in (times key accepts n ms) _ _ _ _ q (times-drop_name n m ms) (apart k m n p q)
      | inr q ↦
          ap
            (λ b.
              times key accepts n
                (if b then drop_name key accepts m ms else k ∷ drop_name key accepts m ms))
            p
          ∙ ap (λ (i : ℕ). one_if (key.same k n) + i) (times-drop_name n m ms)
          ∙ if_off _ _ _ q
    ]
  ]

  pub times-subscribe :
      (b : Bus N) (s : Module N) (n : N)
      → times key accepts n (subscribe key accepts b s).subscriptions
        ≡ times key accepts n b.subscriptions
          + (if key.same s.name n then one_if (has_handler s && accepts s.name) else 0)
  unfolding subscribe
  times-subscribe b s n =
      if_cases
        (λ (c : Bus N).
          times key accepts n c.subscriptions
          ≡ times key accepts n b.subscriptions
            + (if key.same s.name n then one_if (has_handler s && accepts s.name) else 0))
        (has_handler s && accepts s.name)
        (λ h.
          times-snoc n s.name b.subscriptions
          ∙ ap (λ (i : ℕ). times key accepts n b.subscriptions + i)
              (one_or (key.same s.name n) (has_handler s && accepts s.name) h))
        (λ h. omega (arith, none_or (key.same s.name n) (has_handler s && accepts s.name) h))

  pub times-unsubscribe :
      (b : Bus N) (m n : N)
      → times key accepts n (unsubscribe key accepts b m).subscriptions
        ≡ (if key.same m n then 0 else times key accepts n b.subscriptions)
  unfolding unsubscribe
  times-unsubscribe b m n = times-drop_name n m b.subscriptions

module _ {N : Type 0} (key : Keyed N) (accepts : N → Bool) where
  -- Steps on subscriptions leave the rest of the bus alone.
  pub perform-modules : (b : Bus N) (t : Task N) → (perform key accepts b t).modules ≡ b.modules
  unfolding perform subscribe unsubscribe
  perform-modules b (subscribes s) =
      if_cases (λ (c : Bus N). c.modules ≡ b.modules) (has_handler s && accepts s.name) (λ _. refl)
        (λ _. refl)
  perform-modules b (unsubscribes n) = refl

  pub perform-started : (b : Bus N) (t : Task N) → (perform key accepts b t).started ≡ b.started
  unfolding perform subscribe unsubscribe
  perform-started b (subscribes s) =
      if_cases (λ (c : Bus N). c.started ≡ b.started) (has_handler s && accepts s.name) (λ _. refl)
        (λ _. refl)
  perform-started b (unsubscribes n) = refl

  pub perform_all-modules :
      (ts : List (Task N)) (b : Bus N) → (perform_all key accepts b ts).modules ≡ b.modules
  unfolding perform_all
  perform_all-modules [] b = refl
  perform_all-modules (t ∷ ts) b =
      perform_all-modules ts (perform key accepts b t) ∙ perform-modules b t

  pub perform_all-started :
      (ts : List (Task N)) (b : Bus N) → (perform_all key accepts b ts).started ≡ b.started
  unfolding perform_all
  perform_all-started [] b = refl
  perform_all-started (t ∷ ts) b =
      perform_all-started ts (perform key accepts b t) ∙ perform-started b t

  pub times-subscribe_tasks :
      (d : Dict N (Module N)) (b : Bus N) (n : N)
      → IsUnique key d
      → All (λ e. e.1.name ≡ e.0) d
      → times key accepts n
          (perform_all key accepts b (subscribe_tasks key accepts d)).subscriptions
        ≡ times key accepts n b.subscriptions + wanted key accepts d n
  unfolding perform_all perform
  times-subscribe_tasks [] b n u h = omega arith
  times-subscribe_tasks ((k, s) ∷ d) b n u h =
      times-subscribe_tasks d (subscribe key accepts b s) n u.1 h.1
      ∙ ap (λ (i : ℕ). i + wanted key accepts d n) (times-subscribe key accepts b s n)
      ∙ first (Bool-cases (key.same k n))
    where
      taken : ℕ
      taken = one_if (has_handler s && accepts s.name)

      first :
          (key.same k n ≡ true) ⊎ (key.same k n ≡ false)
          → (times key accepts n b.subscriptions + (if key.same s.name n then taken else 0))
              + wanted key accepts d n
            ≡ times key accepts n b.subscriptions + wanted key accepts ((k, s) ∷ d) n
      first (inl p) = omega (
        arith,
        ap (want key accepts) (lookup-absent key d k n u.0 p),
        ap (λ b. want key accepts (if b then some s else lookup key d n)) p,
        ap (λ i. if key.same i n then taken else 0) h.0 ∙ ap (λ b. if b then taken else 0) p,
      )
      first (inr p) = omega (
        arith,
        ap (λ b. want key accepts (if b then some s else lookup key d n)) p,
        ap (λ i. if key.same i n then taken else 0) h.0 ∙ ap (λ b. if b then taken else 0) p,
      )

  abbrev pub emptied : Option (Module N) → ℕ → ℕ
  emptied none i = i
  emptied (some s) i = 0

  -- What is left when every name of the map has been unsubscribed.
  abbrev pub left : Dict N (Module N) → N → ℕ → ℕ
  left d n i = emptied (lookup key d n) i

  pub times-unsubscribe_tasks :
      (d : Dict N (Module N)) (b : Bus N) (n : N)
      → times key accepts n
          (perform_all key accepts b (unsubscribe_tasks key accepts d)).subscriptions
        ≡ left d n (times key accepts n b.subscriptions)
  unfolding perform_all perform
  times-unsubscribe_tasks [] b n = refl
  times-unsubscribe_tasks ((k, s) ∷ d) b n =
      times-unsubscribe_tasks d (unsubscribe key accepts b k) n
      ∙ ap (left d n) (times-unsubscribe key accepts b k n)
      ∙ first (Bool-cases (key.same k n))
    where
      first :
          (key.same k n ≡ true) ⊎ (key.same k n ≡ false)
          → left d n (if key.same k n then 0 else times key accepts n b.subscriptions)
            ≡ left ((k, s) ∷ d) n (times key accepts n b.subscriptions)
      first (inl p) =
          ap (λ c. left d n (if c then 0 else times key accepts n b.subscriptions)) p
          ∙ elim (lookup key d n) as (λ o. emptied o 0 ≡ 0) [ none ↦ refl | some _ ↦ refl ]
          ∙ sym (
              ap
                (λ c.
                  emptied (if c then some s else lookup key d n)
                    (times key accepts n b.subscriptions))
                p)
      first (inr p) =
          ap (λ c. left d n (if c then 0 else times key accepts n b.subscriptions)) p
          ∙ sym (
              ap
                (λ c.
                  emptied (if c then some s else lookup key d n)
                    (times key accepts n b.subscriptions))
                p)
