-- ===== src/Server/Matching/Longest.antt =====
-- The wildcard that `matchHandler` of pkg/services/api/server/util.go takes.
use framingo.Prelude.{
  ℕ, ◌+◌, ◌*◌, ◌≤◌, ◌<◌, ◌≡◌, refl, sym, ap, subst, ◌∙◌, ◌⊎◌, inl, inr, [], ◌∷◌, Bool, true, false,
  ◌&&◌, none, some, if◌then◌else◌, Bool-cases, length, arith,
}
use framingo.Prelude.Dicts.{Dict, lookup}
use framingo.Server.{Text, HandlerKey, Handler, handler_key, same_key_self, same_key-eq}
use framingo.Server.Matching.{
  Best, wildcard_base, is_exact, is_candidate, is_better, best_of, has_key, consider, find_best,
}

abbrev pub weight : Bool → ℕ
weight true = 1
weight false = 0

-- Longer bases first, an exact method before ANY where the bases are as long.
abbrev pub rank : Best → ℕ
rank b = b.base_len * 2 + weight b.exact

better-rank : (b : Best) (n : ℕ) (e : Bool) → is_better b n e ≡ true → rank b < n * 2 + weight e
better-rank b n true h = ground arith
better-rank b n false h = ground arith

not_better-rank :
    (b : Best) (n : ℕ) (e : Bool) → is_better b n e ≡ false → n * 2 + weight e ≤ rank b
not_better-rank b n true h = ground arith
not_better-rank b n false h = ground arith

pub and_parts : (b c : Bool) → (b && c) ≡ true → (b ≡ true) × (c ≡ true)
and_parts b c h = (ground arith, ground arith)

and_false : (b c : Bool) → (b && c) ≡ false → b ≡ true → c ≡ false
and_false b c h p = ground arith

has_key-first :
    (k : HandlerKey) (h : Handler) (d : Dict HandlerKey Handler) → has_key ((k, h) ∷ d) k ≡ true
has_key-first k h d = rw (same_key_self k, has_key) refl

has_key-more :
    (k : HandlerKey) (h : Handler) (d : Dict HandlerKey Handler) (j : HandlerKey)
    → has_key d j ≡ true
    → has_key ((k, h) ∷ d) j ≡ true
has_key-more k h d j f = elim (Bool-cases (handler_key.same k j)) [
  | inl p ↦ rw (p, has_key) refl
  | inr p ↦ rw (p, has_key) f
]

has_key-cases :
    (k : HandlerKey) (h : Handler) (d : Dict HandlerKey Handler) (j : HandlerKey)
    → has_key ((k, h) ∷ d) j ≡ true
    → (k ≡ j) ⊎ (has_key d j ≡ true)
has_key-cases k h d j f = elim (Bool-cases (handler_key.same k j)) [
  | inl p ↦ inl (same_key-eq k j p)
  | inr p ↦ inr (
      sym (
        ap
          (λ (b : Bool). elim (if b then some h else lookup handler_key d j) [
            | none ↦ false
            | some _ ↦ true
          ])
          p)
      ∙ f)
]

module _ (key : HandlerKey) (req_path : Text) where
  consider-cases :
      (b : Best) (k : HandlerKey)
      → ((consider key req_path b k ≡ b)
          × (is_candidate key req_path k ≡ true → rank (best_of key k) ≤ rank b))
        ⊎ ((consider key req_path b k ≡ best_of key k)
            × (is_candidate key req_path k ≡ true)
            × (rank b < rank (best_of key k)))
  unfolding consider
  consider-cases b k =
      let better = is_better b (length (wildcard_base k)) (is_exact key k) in
      elim (Bool-cases (is_candidate key req_path k && better)) [
        | inl h ↦
            let parts = and_parts (is_candidate key req_path k) better h in
            inr (
              ap (λ (c : Bool). if c then best_of key k else b) h,
              parts.0,
              better-rank b (length (wildcard_base k)) (is_exact key k) parts.1,
            )
        | inr h ↦ inl (
          ap (λ (c : Bool). if c then best_of key k else b) h,
          λ c.
              not_better-rank b (length (wildcard_base k)) (is_exact key k)
                (and_false (is_candidate key req_path k) better h c),
        )
      ]

  find_best-grows :
      (d : Dict HandlerKey Handler) (b : Best) → rank b ≤ rank (find_best key req_path d b)
  unfolding find_best
  find_best-grows [] b = omega arith
  find_best-grows ((k, h) ∷ d) b = elim (consider-cases b k) [
    | inl (same, _) ↦ rw (same, find_best) (find_best-grows d b)
    | inr (new, _, l) ↦ rw (new, find_best) (omega (arith, find_best-grows d (best_of key k), l))
  ]

  -- What the loop ends with is what it began with, or a candidate of the map that beats it.
  pub find_best-from :
      (d : Dict HandlerKey Handler) (b : Best)
      → (find_best key req_path d b ≡ b)
        ⊎ ((k : HandlerKey) × (find_best key req_path d b ≡ best_of key k)
            × (has_key d k ≡ true)
            × (is_candidate key req_path k ≡ true)
            × (rank b < rank (best_of key k)))
  unfolding find_best
  find_best-from [] b = inl refl
  find_best-from ((k, h) ∷ d) b = elim (consider-cases b k) [
    | inl (same, _) ↦ elim (find_best-from d b) [
      | inl e ↦ inl (rw same e)
      | inr (j, e, f, c, l) ↦ inr (j, rw same e, has_key-more k h d j f, c, l)
    ]
    | inr (new, c, l) ↦ elim (find_best-from d (best_of key k)) [
      | inl e ↦ inr (k, rw new e, has_key-first k h d, c, l)
      | inr (j, e, f, c', l') ↦ inr (j, rw new e, has_key-more k h d j f, c', omega (arith, l, l'))
    ]
  ]

  pub find_best-covers :
      (d : Dict HandlerKey Handler) (b : Best) (k : HandlerKey)
      → has_key d k ≡ true
      → is_candidate key req_path k ≡ true
      → rank (best_of key k) ≤ rank (find_best key req_path d b)
  unfolding find_best
  find_best-covers [] b k f c = absurd (ground arith)
  find_best-covers ((j, h) ∷ d) b k f c = elim (has_key-cases j h d k f) [
    | inr g ↦ find_best-covers d (consider key req_path b j) k g c
    | inl e ↦ elim (consider-cases b j) [
      | inl (same, within) ↦
          rw (same, find_best)
            (omega (
              arith,
              find_best-grows d b,
              subst
                  (λ (i : HandlerKey).
                    (is_candidate key req_path i ≡ true) → rank (best_of key i) ≤ rank b)
                  e within c,
            ))
      | inr (new, _, _) ↦
          rw (new, find_best)
            (subst
              (λ (i : HandlerKey).
                rank (best_of key i) ≤ rank (find_best key req_path d (best_of key j)))
              e (find_best-grows d (best_of key j)))
    ]
  ]
