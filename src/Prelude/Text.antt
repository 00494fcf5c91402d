-- ===== src/Prelude/Text.antt =====
-- Texts as lists of characters: `==`, `strings.HasPrefix` and `strings.Split`, with a text's parts
-- between the slashes.
use framingo.Prelude.Tests.{not-both}
use mathlib.Core.Path.{◌≡◌, refl, sym, ap, ◌∙◌}
use mathlib.Core.Logic.{ite, if_pos, if_neg}
use mathlib.Core.Bool.{Bool, true, false}
use mathlib.Core.List.{List, [], ◌∷◌, ◌++◌, append_assoc}
use native.Mathlib.Omega.{arith}

module _ {C : Type 0} where
  abbrev pub cons_head : C → List (List C) → List (List C)
  cons_head c [] = (c ∷ []) ∷ []
  cons_head c (p ∷ ps) = (c ∷ p) ∷ ps

module _ {C : Type 0} (dec : Discrete C) (slash : C) where
  -- The parts of a text between the slashes.
  abbrev pub split : List C → List (List C)
  split [] = [] ∷ []
  split (c ∷ cs) = let rest = split cs in ite (dec c slash) ([] ∷ rest) (cons_head c rest)

  -- The text that has these parts.
  abbrev pub join : List (List C) → List C
  join [] = []
  join (p ∷ ps) = let rest = join ps in elim ps [ [] ↦ p | q ∷ qs ↦ p ++ (slash ∷ rest) ]

  abbrev pub IsFull : List (List C) → Type 0
  IsFull [] = ⊥
  IsFull (p ∷ ps) = Unit {0}

  cons_head-IsFull : (c : C) (ps : List (List C)) → IsFull (cons_head c ps)
  cons_head-IsFull c [] = tt
  cons_head-IsFull c (p ∷ ps) = tt

  pub split-IsFull : (cs : List C) → IsFull (split cs)
  split-IsFull [] = tt
  split-IsFull (c ∷ cs) = elim (dec c slash) [
    | yes s ↦ rw (if_pos _ s) tt
    | no o ↦ rw (if_neg _ o) (cons_head-IsFull c (split cs))
  ]

  join-cons_head : (c : C) (ps : List (List C)) → IsFull ps → join (cons_head c ps) ≡ c ∷ join ps
  join-cons_head c [] f = absurd f
  join-cons_head c (p ∷ []) f = refl
  join-cons_head c (p ∷ q ∷ qs) f = refl

  join-nil_head : (ps : List (List C)) → IsFull ps → join ([] ∷ ps) ≡ slash ∷ join ps
  join-nil_head [] f = absurd f
  join-nil_head (p ∷ ps) f = refl

  pub join-split : (cs : List C) → join (split cs) ≡ cs
  join-split [] = refl
  join-split (c ∷ cs) = elim (dec c slash) [
    | yes s ↦
        ap join (if_pos (dec c slash) s ([] ∷ split cs) (cons_head c (split cs)))
        ∙ join-nil_head (split cs) (split-IsFull cs)
        ∙ ap (λ x. x ∷ join (split cs)) (sym s)
        ∙ ap (λ x. c ∷ x) (join-split cs)
    | no o ↦
        ap join (if_neg (dec c slash) o ([] ∷ split cs) (cons_head c (split cs)))
        ∙ join-cons_head c (split cs) (split-IsFull cs)
        ∙ ap (λ x. c ∷ x) (join-split cs)
  ]

  pub join-append :
      (ps : List (List C)) (q : List C) (qs : List (List C))
      → IsFull ps
      → join (ps ++ (q ∷ qs)) ≡ join ps ++ (slash ∷ join (q ∷ qs))
  join-append [] q qs f = absurd f
  join-append (p ∷ []) q qs f = refl
  join-append (p ∷ p' ∷ ps) q qs f =
      ap (λ x. p ++ (slash ∷ x)) (join-append (p' ∷ ps) q qs tt)
      ∙ sym (append_assoc p (slash ∷ join (p' ∷ ps)) (slash ∷ join (q ∷ qs)))

  cons_head-append :
      (c : C) (ps qs : List (List C)) → IsFull ps → cons_head c (ps ++ qs) ≡ cons_head c ps ++ qs
  cons_head-append c [] qs f = absurd f
  cons_head-append c (p ∷ ps) qs f = refl

  pub split-append : (cs rest : List C) → split (cs ++ (slash ∷ rest)) ≡ split cs ++ split rest
  split-append [] rest =
      if_pos (dec slash slash) refl ([] ∷ split rest) (cons_head slash (split rest))
  split-append (c ∷ cs) rest = elim (dec c slash) [
    | yes s ↦
        if_pos (dec c slash) s ([] ∷ split (cs ++ (slash ∷ rest)))
          (cons_head c (split (cs ++ (slash ∷ rest))))
        ∙ ap (λ x. [] ∷ x) (split-append cs rest)
        ∙ sym (
            ap (λ x. x ++ split rest)
              (if_pos (dec c slash) s ([] ∷ split cs) (cons_head c (split cs))))
    | no o ↦
        if_neg (dec c slash) o ([] ∷ split (cs ++ (slash ∷ rest)))
          (cons_head c (split (cs ++ (slash ∷ rest))))
        ∙ ap (cons_head c) (split-append cs rest)
        ∙ cons_head-append c (split cs) (split rest) (split-IsFull cs)
        ∙ sym (
            ap (λ x. x ++ split rest)
              (if_neg (dec c slash) o ([] ∷ split cs) (cons_head c (split cs))))
  ]

module _ {C : Type 0} (dec : Discrete C) where
  abbrev pub same_text : List C → List C → Bool
  same_text [] [] = true
  same_text [] (y ∷ ys) = false
  same_text (x ∷ xs) [] = false
  same_text (x ∷ xs) (y ∷ ys) = let rest = same_text xs ys in ite (dec x y) rest false

  -- `strings.HasPrefix`, with the prefix first.
  abbrev pub has_prefix : List C → List C → Bool
  has_prefix [] ys = true
  has_prefix (x ∷ xs) [] = false
  has_prefix (x ∷ xs) (y ∷ ys) = let rest = has_prefix xs ys in ite (dec x y) rest false

module _ {C : Type 0} (dec : Discrete C) where
  pub same_text-eq : (xs ys : List C) → same_text dec xs ys ≡ true → xs ≡ ys
  same_text-eq [] [] h = refl
  same_text-eq [] (y ∷ ys) h = ground arith
  same_text-eq (x ∷ xs) [] h = ground arith
  same_text-eq (x ∷ xs) (y ∷ ys) h = elim (dec x y) [
    | yes s ↦
        ap (λ z. z ∷ xs) s
        ∙ ap (λ zs. y ∷ zs)
            (same_text-eq xs ys (sym (if_pos (dec x y) s (same_text dec xs ys) false) ∙ h))
    | no o ↦ absurd (
        not-both (same_text dec (x ∷ xs) (y ∷ ys)) (if_neg (dec x y) o (same_text dec xs ys) false)
          h)
  ]

  pub same_text_self : (xs : List C) → same_text dec xs xs ≡ true
  same_text_self [] = refl
  same_text_self (x ∷ xs) = if_pos (dec x x) refl (same_text dec xs xs) false ∙ same_text_self xs

  pub has_prefix-rest :
      (xs ys : List C) → has_prefix dec xs ys ≡ true → (zs : List C) × (ys ≡ xs ++ zs)
  has_prefix-rest [] ys h = (ys, refl)
  has_prefix-rest (x ∷ xs) [] h = absurd (not-both false refl h)
  has_prefix-rest (x ∷ xs) (y ∷ ys) h = elim (dec x y) [
    | yes s ↦
        let (zs, e) =
          has_prefix-rest xs ys (sym (if_pos (dec x y) s (has_prefix dec xs ys) false) ∙ h) in
        (zs, ap (λ z. z ∷ ys) (sym s) ∙ ap (λ l. x ∷ l) e)
    | no o ↦ absurd (
        not-both (has_prefix dec (x ∷ xs) (y ∷ ys))
          (if_neg (dec x y) o (has_prefix dec xs ys) false) h)
  ]

  pub has_prefix-append : (xs zs : List C) → has_prefix dec xs (xs ++ zs) ≡ true
  has_prefix-append [] zs = refl
  has_prefix-append (x ∷ xs) zs =
      if_pos (dec x x) refl (has_prefix dec xs (xs ++ zs)) false ∙ has_prefix-append xs zs
