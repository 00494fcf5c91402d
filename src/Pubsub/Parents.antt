-- ===== src/Pubsub/Parents.antt =====
-- The topic and its parents, as pkg/services/pubsub/driver/memory.go goes through them.
use framingo.Prelude.{
  ℕ, ◌+◌, ◌≡◌, refl, sym, ap, ◌∙◌, List, [], ◌∷◌, ◌++◌, map, Bool, true, false, ◌||◌, ite, if_pos,
  if_neg, All, arith, ℕ_discrete,
}
use framingo.Prelude.Text.{same_text, has_prefix, split, join, cons_head, IsFull, split-IsFull}
use framingo.Prelude.Counts.{one_if, count}
use framingo.Pubsub.Topics.{topic_matches}
use framingo.Pubsub.Memory.{Text, heads, prefixes}

-- The text that ends before each slash, and the whole.
abbrev cuts : Text → List Text
cuts [] = [] ∷ []
cuts (c ∷ cs) = let rest = map (λ x. c ∷ x) (cuts cs) in ite (ℕ_discrete c b'/') ([] ∷ rest) rest

abbrev joined : List Text → Text
joined ps = join ℕ_discrete b'/' ps

-- A text before each of some texts.
abbrev Full : List Text → Type 0
Full ps = IsFull ℕ_discrete b'/' ps

All-map_cons : (p : Text) (pss : List (List Text)) → All Full (map (λ qs. p ∷ qs) pss)
All-map_cons p [] = tt
All-map_cons p (qs ∷ pss) = (tt, All-map_cons p pss)

heads-Full : (ps : List Text) → All Full (heads ps)
heads-Full [] = tt
heads-Full (p ∷ ps) = (tt, All-map_cons p (heads ps))

joined-nil_first :
    (pss : List (List Text))
    → All Full pss
    → map joined (map (λ qs. [] ∷ qs) pss) ≡ map (λ x. b'/' ∷ x) (map joined pss)
joined-nil_first [] f = refl
joined-nil_first ([] ∷ pss) f = absurd f.0
joined-nil_first ((q ∷ qs) ∷ pss) f =
    ap (λ xs. (b'/' ∷ joined (q ∷ qs)) ∷ xs) (joined-nil_first pss f.1)

joined-longer_first :
    (c : ℕ) (p : Text) (pss : List (List Text))
    → map joined (map (λ qs. (c ∷ p) ∷ qs) pss)
      ≡ map (λ x. c ∷ x) (map joined (map (λ qs. p ∷ qs) pss))
joined-longer_first c p [] = refl
joined-longer_first c p ([] ∷ pss) = ap (λ xs. (c ∷ p) ∷ xs) (joined-longer_first c p pss)
joined-longer_first c p ((q ∷ qs) ∷ pss) =
    ap (λ xs. (c ∷ (p ++ (b'/' ∷ joined (q ∷ qs)))) ∷ xs) (joined-longer_first c p pss)

joined-cons_head :
    (c : ℕ) (ps : List Text)
    → Full ps
    → map joined (heads (cons_head c ps)) ≡ map (λ x. c ∷ x) (map joined (heads ps))
joined-cons_head c [] f = absurd f
joined-cons_head c (p ∷ ps) f = ap (λ xs. (c ∷ p) ∷ xs) (joined-longer_first c p (heads ps))

heads-cuts : (t : Text) → map joined (heads (split ℕ_discrete b'/' t)) ≡ cuts t
heads-cuts [] = refl
heads-cuts (c ∷ cs) =
    let rest = split ℕ_discrete b'/' cs in
    let tails = map (λ x. c ∷ x) (cuts cs) in
    elim (ℕ_discrete c b'/') [
      | yes s ↦
          ap (λ ps. map joined (heads ps))
            (if_pos (ℕ_discrete c b'/') s ([] ∷ rest) (cons_head c rest))
          ∙ ap (λ xs. [] ∷ xs)
              (joined-nil_first (heads rest) (heads-Full rest)
                ∙ ap (λ (d : ℕ). map (λ x. d ∷ x) (map joined (heads rest))) (sym s)
                ∙ ap (map (λ x. c ∷ x)) (heads-cuts cs))
          ∙ sym (if_pos (ℕ_discrete c b'/') s ([] ∷ tails) tails)
      | no o ↦
          ap (λ ps. map joined (heads ps))
            (if_neg (ℕ_discrete c b'/') o ([] ∷ rest) (cons_head c rest))
          ∙ joined-cons_head c rest (split-IsFull ℕ_discrete b'/' cs)
          ∙ ap (map (λ x. c ∷ x)) (heads-cuts cs)
          ∙ sym (if_neg (ℕ_discrete c b'/') o ([] ∷ tails) tails)
    ]

abbrev pub same : Text → Text → Bool
same k x = same_text ℕ_discrete k x

abbrev pub matches : Text → Text → Bool
unfolding topic_matches
matches k t = topic_matches ℕ_discrete b'/' k t

count-nil : (c : ℕ) (xs : List Text) → count (same []) (map (λ x. c ∷ x) xs) ≡ 0
count-nil c [] = refl
count-nil c (x ∷ xs) = omega (arith, count-nil c xs)

count-cons_eq :
    (d c : ℕ) (ks : Text) (xs : List Text)
    → d ≡ c
    → count (same (d ∷ ks)) (map (λ x. c ∷ x) xs) ≡ count (same ks) xs
count-cons_eq d c ks [] e = refl
count-cons_eq d c ks (x ∷ xs) e =
    ap (λ b. one_if b + count (same (d ∷ ks)) (map (λ x. c ∷ x) xs))
      (if_pos (ℕ_discrete d c) e (same ks x) false)
    ∙ ap (λ (n : ℕ). one_if (same ks x) + n) (count-cons_eq d c ks xs e)

count-cons_ne :
    (d c : ℕ) (ks : Text) (xs : List Text)
    → ¬ (d ≡ c)
    → count (same (d ∷ ks)) (map (λ x. c ∷ x) xs) ≡ 0
count-cons_ne d c ks [] e = refl
count-cons_ne d c ks (x ∷ xs) e =
    ap (λ b. one_if b + count (same (d ∷ ks)) (map (λ x. c ∷ x) xs))
      (if_neg (ℕ_discrete d c) e (same ks x) false)
    ∙ omega (arith, count-cons_ne d c ks xs e)

slash_first : (c : ℕ) (cs : Text) → matches [] (c ∷ cs) ≡ ite (ℕ_discrete b'/' c) true false
unfolding topic_matches
slash_first c cs = refl

same_first : (d c : ℕ) (ks cs : Text) → d ≡ c → matches (d ∷ ks) (c ∷ cs) ≡ matches ks cs
unfolding topic_matches
same_first d c ks cs e =
    ap (λ b. b || has_prefix ℕ_discrete ((d ∷ ks) ++ (b'/' ∷ [])) (c ∷ cs))
      (if_pos (ℕ_discrete d c) e (same ks cs) false)
    ∙ ap (λ b. same ks cs || b)
        (if_pos (ℕ_discrete d c) e (has_prefix ℕ_discrete (ks ++ (b'/' ∷ [])) cs) false)

other_first : (d c : ℕ) (ks cs : Text) → ¬ (d ≡ c) → matches (d ∷ ks) (c ∷ cs) ≡ false
unfolding topic_matches
other_first d c ks cs e =
    ap (λ b. b || has_prefix ℕ_discrete ((d ∷ ks) ++ (b'/' ∷ [])) (c ∷ cs))
      (if_neg (ℕ_discrete d c) e (same ks cs) false)
    ∙ if_neg (ℕ_discrete d c) e (has_prefix ℕ_discrete (ks ++ (b'/' ∷ [])) cs) false

count-whole : (k : Text) → count (same k) ([] ∷ []) ≡ one_if (matches k [])
unfolding topic_matches
count-whole [] = refl
count-whole (d ∷ ks) = refl

-- The slash adds the empty text only.
count-first_cut :
    (d c : ℕ) (ks : Text) (xs : List Text)
    → count (same (d ∷ ks)) (ite (ℕ_discrete c b'/') ([] ∷ xs) xs) ≡ count (same (d ∷ ks)) xs
count-first_cut d c ks xs = elim (ℕ_discrete c b'/') [
  | yes s ↦ ap (count (same (d ∷ ks))) (if_pos (ℕ_discrete c b'/') s ([] ∷ xs) xs) ∙ omega arith
  | no o ↦ ap (count (same (d ∷ ks))) (if_neg (ℕ_discrete c b'/') o ([] ∷ xs) xs)
]

count-cuts : (k t : Text) → count (same k) (cuts t) ≡ one_if (matches k t)
count-cuts k [] = count-whole k
count-cuts [] (c ∷ cs) =
    let tails = map (λ x. c ∷ x) (cuts cs) in
    elim (ℕ_discrete c b'/') [
      | yes s ↦
          ap (count (same [])) (if_pos (ℕ_discrete c b'/') s ([] ∷ tails) tails)
          ∙ omega (
            arith,
            count-nil c (cuts cs),
            ap one_if (slash_first c cs ∙ if_pos (ℕ_discrete b'/' c) (sym s) true false),
          )
      | no o ↦
          ap (count (same [])) (if_neg (ℕ_discrete c b'/') o ([] ∷ tails) tails)
          ∙ omega (
            arith,
            count-nil c (cuts cs),
            ap one_if (slash_first c cs ∙ if_neg (ℕ_discrete b'/' c) (λ e. o (sym e)) true false),
          )
    ]
count-cuts (d ∷ ks) (c ∷ cs) =
    count-first_cut d c ks (map (λ x. c ∷ x) (cuts cs)) ∙ elim (ℕ_discrete d c) [
      | yes e ↦
          count-cons_eq d c ks (cuts cs) e
          ∙ count-cuts ks cs
          ∙ ap one_if (sym (same_first d c ks cs e))
      | no e ↦ count-cons_ne d c ks (cuts cs) e ∙ ap one_if (sym (other_first d c ks cs e))
    ]

-- A topic that matches is met once, and no other.
pub count-prefixes : (k t : Text) → count (same k) (prefixes t) ≡ one_if (matches k t)
count-prefixes k t = ap (count (same k)) (heads-cuts t) ∙ count-cuts k t
