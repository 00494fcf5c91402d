-- ===== src/Server/Matching/Unique.antt =====
-- The order of the map in `matchHandler` of pkg/services/api/server/util.go.
use framingo.Prelude.{
  ℕ, ◌+◌, ◌*◌, ◌≤◌, ◌<◌, ◌≡◌, refl, sym, ap, subst, ◌∙◌, inl, inr, [], ◌∷◌, ◌++◌, Bool, true, false,
  ◌&&◌, ◌||◌, Option, none, some, ltb, if◌then◌else◌, Bool-cases, length, take, take-append_left,
  take-length, arith, not-both, ℕ_discrete,
}
use framingo.Prelude.Text.{same_text, same_text-eq, has_prefix, has_prefix-rest}
use framingo.Prelude.Dicts.{Dict, lookup, text_key}
use framingo.Prelude.Paths.{trim_last, has_suffix, slash, trim_prefix}
use framingo.Server.{
  Text, HandlerKey, Handler, HandlerGroup, handler_key, is_text, get_method, any_method, ws_method,
}
use framingo.Server.Matching.{
  Best, star, no_best, wildcard_base, is_exact, is_candidate, best_of, has_key, find_best,
  rooted_path, match_wildcard, with_method, match_key, match_handler,
}
use framingo.Server.Matching.Longest.{weight, rank, and_parts, find_best-from, find_best-covers}

or_other : (b c : Bool) → (b || c) ≡ true → b ≡ false → c ≡ true
or_other b c h p = ground arith

-- A path that is its base, which is not empty, and a star.
abbrev pub IsWildcard : Text → Type 0
IsWildcard t =
    (c : ℕ) × (u : Text) × (trim_last star t ≡ c ∷ u) × (t ≡ trim_last star t ++ (star ∷ []))

abbrev pub ending : Text
ending = slash ∷ star ∷ []

pub suffix-IsWildcard : (t : Text) → has_suffix t ending ≡ true → IsWildcard t
suffix-IsWildcard [] h = absurd (not-both false refl h)
suffix-IsWildcard (c ∷ []) h = elim (Bool-cases (same_text ℕ_discrete (c ∷ []) ending)) [
  | inl p ↦
      subst IsWildcard (sym (same_text-eq ℕ_discrete (c ∷ []) ending p)) (slash, [], refl, refl)
  | inr p ↦ absurd (
      not-both false refl
        (or_other (same_text ℕ_discrete (c ∷ []) ending) (has_suffix [] ending) h p))
]
suffix-IsWildcard (c ∷ d ∷ cs) h = elim (Bool-cases (same_text ℕ_discrete (c ∷ d ∷ cs) ending)) [
  | inl p ↦
      subst IsWildcard (sym (same_text-eq ℕ_discrete (c ∷ d ∷ cs) ending p)) (slash, [], refl, refl)
  | inr p ↦
      let (b, u, e, f) =
        suffix-IsWildcard (d ∷ cs)
          (or_other (same_text ℕ_discrete (c ∷ d ∷ cs) ending) (has_suffix (d ∷ cs) ending) h p) in
      (c, trim_last star (d ∷ cs), refl, ap (λ (l : Text). c ∷ l) f)
]

same_length-prefix :
    (a b t : Text)
    → has_prefix ℕ_discrete a t ≡ true
    → has_prefix ℕ_discrete b t ≡ true
    → length a ≡ length b
    → a ≡ b
same_length-prefix a b t ha hb l =
    let (zs, e) = has_prefix-rest ℕ_discrete a t ha in
    let (ws, f) = has_prefix-rest ℕ_discrete b t hb in
    sym (take-length (length a) a (omega arith))
    ∙ sym (take-append_left (length a) a zs (omega arith))
    ∙ ap (take (length a)) (sym e ∙ f)
    ∙ ap (λ (n : ℕ). take n (b ++ ws)) l
    ∙ take-append_left (length b) b ws (omega arith)
    ∙ take-length (length b) b (omega arith)

rank_split : (m n : ℕ) (d e : Bool) → m * 2 + weight d ≡ n * 2 + weight e → (m ≡ n) × (d ≡ e)
rank_split m n true true h = (omega arith, refl)
rank_split m n true false h = absurd (omega arith)
rank_split m n false true h = absurd (omega arith)
rank_split m n false false h = (omega arith, refl)

beaten : {m n r : ℕ} → m ≤ r → n < m → r ≡ n → ⊥
beaten h l e = omega arith

key_eq : (j k : HandlerKey) → j.server ≡ k.server → j.method ≡ k.method → j.path ≡ k.path → j ≡ k
key_eq j k p q r =
    ap (λ (s : Text). record j { server = s }) p
    ∙ ap (λ (s : Text). record j { server = k.server; method = s }) q
    ∙ ap (λ (s : Text). record j { server = k.server; method = k.method; path = s }) r

module _ (key : HandlerKey) (req_path : Text) where
  same_method :
      (j k : HandlerKey)
      → is_exact key j ≡ is_exact key k
      → (is_exact key j || is_text j.method any_method) ≡ true
      → (is_exact key k || is_text k.method any_method) ≡ true
      → j.method ≡ k.method
  same_method j k e hj hk = elim (Bool-cases (is_exact key j)) [
    | inl p ↦
        text_key.same_eq j.method key.method p
        ∙ sym (text_key.same_eq k.method key.method (sym e ∙ p))
    | inr p ↦
        text_key.same_eq j.method any_method
          (or_other (is_exact key j) (is_text j.method any_method) hj p)
        ∙ sym (
            text_key.same_eq k.method any_method
              (or_other (is_exact key k) (is_text k.method any_method) hk (sym e ∙ p)))
  ]

  pub record Fits (k : HandlerKey) : Type 0 where
    pub ends : has_suffix k.path (slash ∷ star ∷ []) ≡ true
    pub server : k.server ≡ key.server
    pub method : (is_exact key k || is_text k.method any_method) ≡ true
    pub begins : has_prefix ℕ_discrete (wildcard_base k) req_path ≡ true

  pub candidate-Fits : (k : HandlerKey) → is_candidate key req_path k ≡ true → Fits k
  candidate-Fits k h =
      let a =
        and_parts (has_suffix k.path (slash ∷ star ∷ []))
          (is_text k.server key.server
            && ((is_exact key k || is_text k.method any_method)
                && has_prefix ℕ_discrete (wildcard_base k) req_path))
          h in
      let b =
        and_parts (is_text k.server key.server)
          ((is_exact key k || is_text k.method any_method)
            && has_prefix ℕ_discrete (wildcard_base k) req_path)
          a.1 in
      let c =
        and_parts (is_exact key k || is_text k.method any_method)
          (has_prefix ℕ_discrete (wildcard_base k) req_path) b.1 in
      record {
        ends = a.0;
        server = text_key.same_eq k.server key.server b.0;
        method = c.0;
        begins = c.1;
      }

  rank-len :
      (j k : HandlerKey)
      → rank (best_of key j) ≡ rank (best_of key k)
      → (length (wildcard_base j) ≡ length (wildcard_base k)) × (is_exact key j ≡ is_exact key k)
  rank-len j k h =
      rank_split (length (wildcard_base j)) (length (wildcard_base k)) (is_exact key j)
        (is_exact key k) h

  -- Candidates that are as good are one.
  candidate_unique :
      (j k : HandlerKey)
      → is_candidate key req_path j ≡ true
      → is_candidate key req_path k ≡ true
      → rank (best_of key j) ≡ rank (best_of key k)
      → j ≡ k
  candidate_unique j k cj ck r =
      let fj = candidate-Fits j cj in
      let fk = candidate-Fits k ck in
      let (l, m) = rank-len j k r in
      let bases =
        same_length-prefix (wildcard_base j) (wildcard_base k) req_path fj.begins fk.begins l in
      let wj = suffix-IsWildcard j.path fj.ends in
      let wk = suffix-IsWildcard k.path fk.ends in
      key_eq j k (fj.server ∙ sym fk.server) (same_method j k m fj.method fk.method)
        (wj.3 ∙ ap (λ (t : Text). t ++ (star ∷ [])) bases ∙ sym (wk.3))

  -- The result of the loop over two maps with the same keys.
  find_best-order :
      (d e : Dict HandlerKey Handler)
      → ((k : HandlerKey) → has_key d k ≡ has_key e k)
      → find_best key req_path d no_best ≡ find_best key req_path e no_best
  find_best-order d e same = elim (find_best-from key req_path d no_best) [
    | inl p ↦ elim (find_best-from key req_path e no_best) [
      | inl q ↦ p ∙ sym q
      | inr (k, q, f, c, l) ↦
          absurd (beaten (find_best-covers key req_path d no_best k (same k ∙ f) c) l (ap rank p))
    ]
    | inr (j, p, g, b, m) ↦ elim (find_best-from key req_path e no_best) [
      | inl q ↦
          absurd
            (beaten (find_best-covers key req_path e no_best j (sym (same j) ∙ g) b) m (ap rank q))
      | inr (k, q, f, c, l) ↦
          p
          ∙ ap (best_of key) (
              candidate_unique j k b c (
                omega (
                  arith,
                  find_best-covers key req_path d no_best k (same k ∙ f) c,
                  find_best-covers key req_path e no_best j (sym (same j) ∙ g) b,
                  ap rank p,
                  ap rank q,
                )))
          ∙ sym q
    ]
  ]

same-keys :
    (d e : Dict HandlerKey Handler)
    → ((k : HandlerKey) → lookup handler_key d k ≡ lookup handler_key e k)
    → (k : HandlerKey) → has_key d k ≡ has_key e k
same-keys d e same k = ap (λ (o : Option Handler). elim o [ none ↦ false | some _ ↦ true ]) (same k)

match_wildcard-order :
    (endpoint : Text) (d e : Dict HandlerKey Handler) (key : HandlerKey)
    → ((k : HandlerKey) → has_key d k ≡ has_key e k)
    → match_wildcard endpoint d key ≡ match_wildcard endpoint e key
unfolding match_wildcard
match_wildcard-order endpoint d e key same =
    ap (λ (b : Best). if ltb 0 b.base_len then some b.key else none)
      (find_best-order key (rooted_path (trim_prefix key.path endpoint)) d e same)

match_key-order :
    (endpoint : Text) (d e : Dict HandlerKey Handler) (key : HandlerKey)
    → ((k : HandlerKey) → has_key d k ≡ has_key e k)
    → match_key endpoint d key ≡ match_key endpoint e key
unfolding match_key
match_key-order endpoint d e key same =
    let ws = with_method key ws_method in
    let any = with_method key any_method in
    ap
      (λ (b : Bool).
        if b
        then some key
        else (if is_text key.method get_method && has_key d ws
            then some ws
            else (if has_key d any then some any else match_wildcard endpoint d key)))
      (same key)
    ∙ ap
        (λ (b : Bool).
          if has_key e key
          then some key
          else (if is_text key.method get_method && b
              then some ws
              else (if has_key d any then some any else match_wildcard endpoint d key)))
        (same ws)
    ∙ ap
        (λ (b : Bool).
          if has_key e key
          then some key
          else (if is_text key.method get_method && has_key e ws
              then some ws
              else (if b then some any else match_wildcard endpoint d key)))
        (same any)
    ∙ ap
        (λ (o : Option HandlerKey).
          if has_key e key
          then some key
          else (if is_text key.method get_method && has_key e ws
              then some ws
              else (if has_key e any then some any else o)))
        (match_wildcard-order endpoint d e key same)

-- If two maps of handlers have the same entries, and two maps of groups too, matchHandler finds
-- the same handler and group in both: the order in which its loop meets the entries does not
-- matter.
pub match_handler-order :
    (endpoint : Text) (d e : Dict HandlerKey Handler) (g h : Dict HandlerKey HandlerGroup)
    → (key : HandlerKey) → ((k : HandlerKey) → lookup handler_key d k ≡ lookup handler_key e k)
    → ((k : HandlerKey) → lookup handler_key g k ≡ lookup handler_key h k)
    → match_handler endpoint d g key ≡ match_handler endpoint e h key
unfolding match_handler
match_handler-order endpoint d e g h key handlers groups =
    ap
      (λ (o : Option HandlerKey). elim o [
        | none ↦ (none, none)
        | some k ↦ (lookup handler_key d k, lookup handler_key g k)
      ])
      (match_key-order endpoint d e key (same-keys d e handlers))
    ∙ entries (match_key endpoint e key)
  where
    entries :
        (o : Option HandlerKey)
        → elim o as (λ _. Option Handler × Option HandlerGroup) [
          | none ↦ (none, none)
          | some k ↦ (lookup handler_key d k, lookup handler_key g k)
        ]
          ≡ elim o as (λ _. Option Handler × Option HandlerGroup) [
            | none ↦ (none, none)
            | some k ↦ (lookup handler_key e k, lookup handler_key h k)
          ]
    entries none = refl
    entries (some k) =
        ap (λ a. (a, lookup handler_key g k)) (handlers k)
        ∙ ap (λ a. (lookup handler_key e k, a)) (groups k)
