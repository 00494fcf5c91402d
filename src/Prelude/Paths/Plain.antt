-- ===== src/Prelude/Paths/Plain.antt =====
-- `path.Join` on paths of plain parts: neither empty, nor a dot or two, and without a slash.
use framingo.Prelude.Tests.{if◌then◌else◌}
use framingo.Prelude.Lists.{All, length, drop}
use framingo.Prelude.Text.{cons_head, join, split-append, has_prefix-append}
use framingo.Prelude.Paths.{
  slash, parts, down, turn, go, resolve, clean, join_path, trim_last, trim_prefix,
}
use Prim.Native.Nat.{ℕ}
use mathlib.Core.Path.{◌≡◌, refl, sym, ap, ◌∙◌}
use mathlib.Core.Logic.{◌⊎◌, inl, inr, if_pos, if_neg}
use mathlib.Core.Bool.{Bool, true, false}
use mathlib.Core.List.{
  List, [], ◌∷◌, ◌++◌, reverse, append_assoc, append-nil, reverse-append, reverse-cons,
  reverse-reverse,
}
use native.Mathlib.Omega.{arith}
unfoldable use native.Mathlib.Decide.{ℕ_discrete}

abbrev pub IsPlain : List ℕ → Type 0
IsPlain s = (turn s ≡ down) × All (λ c. ¬ (c ≡ slash)) s

-- A slash before each part, and one at the end where the flag says so.
abbrev pub path_of : List (List ℕ) → Bool → List ℕ
path_of [] true = slash ∷ []
path_of [] false = []
path_of (s ∷ ss) tail = slash ∷ (s ++ path_of ss tail)

abbrev tail_parts : Bool → List (List ℕ)
tail_parts true = [] ∷ []
tail_parts false = []

parts-plain : (s : List ℕ) → All (λ c. ¬ (c ≡ slash)) s → parts s ≡ s ∷ []
parts-plain [] h = refl
parts-plain (c ∷ cs) h =
    if_neg (ℕ_discrete c slash) h.0 ([] ∷ parts cs) (cons_head c (parts cs))
    ∙ ap (cons_head c) (parts-plain cs h.1)

parts-slash : (t : List ℕ) → parts (slash ∷ t) ≡ [] ∷ parts t
parts-slash t = if_pos (ℕ_discrete slash slash) refl ([] ∷ parts t) (cons_head slash (parts t))

parts-then :
    (s : List ℕ) (ss : List (List ℕ)) (tail : Bool)
    → IsPlain s
    → All IsPlain ss
    → parts (s ++ path_of ss tail) ≡ s ∷ (ss ++ tail_parts tail)
parts-then s [] true h hs =
    split-append ℕ_discrete slash s [] ∙ ap (λ x. x ++ ([] ∷ [])) (parts-plain s h.1)
parts-then s [] false h hs = ap parts (append-nil s) ∙ parts-plain s h.1
parts-then s (r ∷ rs) tail h hs =
    split-append ℕ_discrete slash s (r ++ path_of rs tail)
    ∙ ap (λ x. x ++ parts (r ++ path_of rs tail)) (parts-plain s h.1)
    ∙ ap (λ x. s ∷ x) (parts-then r rs tail hs.0 hs.1)

parts-path_of :
    (ss : List (List ℕ)) (tail : Bool)
    → All IsPlain ss
    → parts (path_of ss tail) ≡ [] ∷ (ss ++ tail_parts tail)
parts-path_of [] true h = parts-slash []
parts-path_of [] false h = refl
parts-path_of (s ∷ ss) tail h =
    parts-slash (s ++ path_of ss tail) ∙ ap (λ x. [] ∷ x) (parts-then s ss tail h.0 h.1)

go-plain : (taken : List (List ℕ)) (s : List ℕ) → IsPlain s → go true taken s ≡ s ∷ taken
go-plain taken s h = rw (h.0, go) refl

resolve-plain :
    (taken ss rest : List (List ℕ))
    → All IsPlain ss
    → resolve true taken (ss ++ rest) ≡ resolve true (reverse ss ++ taken) rest
resolve-plain taken [] rest h = refl
resolve-plain taken (s ∷ ss) rest h =
    ap (λ x. resolve true x (ss ++ rest)) (go-plain taken s h.0)
    ∙ resolve-plain (s ∷ taken) ss rest h.1
    ∙ ap (λ x. resolve true x rest)
        (sym (append_assoc (reverse ss) (s ∷ []) taken)
          ∙ ap (λ x. x ++ taken) (sym (reverse-cons s ss)))

resolve-tail :
    (taken : List (List ℕ)) (tail : Bool) (rest : List (List ℕ))
    → resolve true taken (tail_parts tail ++ rest) ≡ resolve true taken rest
resolve-tail taken true rest = refl
resolve-tail taken false rest = refl

resolve-path :
    (taken ss : List (List ℕ)) (tail : Bool) (rest : List (List ℕ))
    → All IsPlain ss
    → resolve true taken (([] ∷ (ss ++ tail_parts tail)) ++ rest)
      ≡ resolve true (reverse ss ++ taken) rest
resolve-path taken ss tail rest h =
    ap (resolve true taken) (append_assoc ss (tail_parts tail) rest)
    ∙ resolve-plain taken ss (tail_parts tail ++ rest) h
    ∙ resolve-tail (reverse ss ++ taken) tail rest

clean-slash :
    (t : List ℕ) (ps qs : List (List ℕ))
    → parts (slash ∷ t) ≡ qs
    → resolve true [] qs ≡ reverse ps
    → clean (slash ∷ t) ≡ slash ∷ join ℕ_discrete slash ps
unfolding clean
clean-slash t ps qs e r =
    ap (λ x. slash ∷ join ℕ_discrete slash (reverse x)) (ap (resolve true []) e ∙ r)
    ∙ ap (λ x. slash ∷ join ℕ_discrete slash x) (reverse-reverse ps)

pub path_of-cases :
    (ss : List (List ℕ)) (tail : Bool)
    → ((path_of ss tail ≡ []) × (ss ≡ [])) ⊎ ((t : List ℕ) × (path_of ss tail ≡ slash ∷ t))
path_of-cases [] true = inr ([], refl)
path_of-cases [] false = inl (refl, refl)
path_of-cases (s ∷ ss) tail = inr (s ++ path_of ss tail, refl)

resolve-paths :
    (gs hs : List (List ℕ)) (t u : Bool)
    → All IsPlain gs
    → All IsPlain hs
    → resolve true [] (([] ∷ (gs ++ tail_parts t)) ++ ([] ∷ (hs ++ tail_parts u)))
      ≡ reverse (gs ++ hs)
resolve-paths gs hs t u hg hh =
    resolve-path [] gs t ([] ∷ (hs ++ tail_parts u)) hg
    ∙ ap (λ x. resolve true (reverse gs ++ []) x) (sym (append-nil ([] ∷ (hs ++ tail_parts u))))
    ∙ resolve-path (reverse gs ++ []) hs u [] hh
    ∙ ap (λ x. reverse hs ++ x) (append-nil (reverse gs))
    ∙ sym (reverse-append gs hs)

-- The root before the parts of both.
pub join_path-path_of :
    (gs hs : List (List ℕ)) (t u : Bool)
    → All IsPlain gs
    → All IsPlain hs
    → ¬ (path_of gs t ++ path_of hs u ≡ [])
    → join_path (path_of gs t ∷ path_of hs u ∷ []) ≡ slash ∷ join ℕ_discrete slash (gs ++ hs)
unfolding join_path
join_path-path_of gs hs t u hg hh some_part = elim (path_of-cases gs t) [
  | inr (x, e) ↦
      ap (λ a. join_path (a ∷ path_of hs u ∷ [])) e
      ∙ clean-slash (x ++ (slash ∷ path_of hs u)) (gs ++ hs)
          (([] ∷ (gs ++ tail_parts t)) ++ ([] ∷ (hs ++ tail_parts u)))
          (split-append ℕ_discrete slash (slash ∷ x) (path_of hs u)
            ∙ ap (λ a. a ++ parts (path_of hs u)) (ap parts (sym e) ∙ parts-path_of gs t hg)
            ∙ ap (λ a. ([] ∷ (gs ++ tail_parts t)) ++ a) (parts-path_of hs u hh))
          (resolve-paths gs hs t u hg hh)
  | inl (none_left, e) ↦ elim (path_of-cases hs u) [
    | inl (none_right, _) ↦ absurd (some_part (ap (λ a. a ++ path_of hs u) none_left ∙ none_right))
    | inr (x, f) ↦
        ap (λ a. join_path (a ∷ path_of hs u ∷ [])) none_left
        ∙ ap (λ a. join_path ([] ∷ a ∷ [])) f
        ∙ clean-slash x (gs ++ hs) ([] ∷ (hs ++ tail_parts u))
            (ap parts (sym f) ∙ parts-path_of hs u hh)
            (ap (resolve true []) (sym (append-nil ([] ∷ (hs ++ tail_parts u))))
              ∙ resolve-path [] hs u [] hh
              ∙ append-nil (reverse hs)
              ∙ ap (λ a. reverse (a ++ hs)) (sym e))
  ]
]

trim_last-append :
    (xs : List ℕ) (y : ℕ) (ys : List ℕ)
    → trim_last slash (xs ++ (y ∷ ys)) ≡ xs ++ trim_last slash (y ∷ ys)
trim_last-append [] y ys = refl
trim_last-append (x ∷ []) y ys = refl
trim_last-append (x ∷ z ∷ xs) y ys = ap (λ l. x ∷ l) (trim_last-append (z ∷ xs) y ys)

trim_last-part : (s : List ℕ) → All (λ c. ¬ (c ≡ slash)) s → trim_last slash s ≡ s
trim_last-part [] h = refl
trim_last-part (c ∷ []) h = ground (arith, h.0)
trim_last-part (c ∷ d ∷ cs) h = ap (λ l. c ∷ l) (trim_last-part (d ∷ cs) h.1)

trim_last-end : (s : List ℕ) → IsPlain s → trim_last slash (slash ∷ (s ++ [])) ≡ slash ∷ (s ++ [])
trim_last-end [] h = absurd (ground (arith, h.0))
trim_last-end (c ∷ cs) h =
    ap (λ l. slash ∷ l)
      (ap (trim_last slash) (append-nil (c ∷ cs))
        ∙ trim_last-part (c ∷ cs) h.1
        ∙ sym (append-nil (c ∷ cs)))

-- Without the slash at the end.
pub trim_last-path_of :
    (ss : List (List ℕ)) (tail : Bool)
    → All IsPlain ss
    → trim_last slash (path_of ss tail) ≡ path_of ss false
trim_last-path_of [] true h = refl
trim_last-path_of [] false h = refl
trim_last-path_of (s ∷ []) true h = trim_last-append (slash ∷ s) slash []
trim_last-path_of (s ∷ []) false h = trim_last-end s h.0
trim_last-path_of (s ∷ r ∷ rs) tail h =
    trim_last-append (slash ∷ s) slash (r ++ path_of rs tail)
    ∙ ap (λ l. slash ∷ (s ++ l)) (trim_last-path_of (r ∷ rs) tail h.1)

pub path_of-append :
    (ss rs : List (List ℕ)) → path_of (ss ++ rs) false ≡ path_of ss false ++ path_of rs false
path_of-append [] rs = refl
path_of-append (s ∷ ss) rs =
    ap (λ l. slash ∷ (s ++ l)) (path_of-append ss rs)
    ∙ ap (λ l. slash ∷ l) (sym (append_assoc s (path_of ss false) (path_of rs false)))

drop-own : (p t : List ℕ) → drop (length p) (p ++ t) ≡ t
drop-own [] t = refl
drop-own (c ∷ cs) t = drop-own cs t

pub trim_prefix-append : (p t : List ℕ) → trim_prefix (p ++ t) p ≡ t
trim_prefix-append p t =
    ap (λ b. if b then drop (length p) (p ++ t) else (p ++ t)) (has_prefix-append ℕ_discrete p t)
    ∙ drop-own p t

join-path_of :
    (p : List ℕ) (ps : List (List ℕ))
    → slash ∷ join ℕ_discrete slash (p ∷ ps) ≡ path_of (p ∷ ps) false
join-path_of p [] = ap (λ l. slash ∷ l) (sym (append-nil p))
join-path_of p (q ∷ qs) = ap (λ l. slash ∷ (p ++ l)) (join-path_of q qs)

-- The root and the parts, written without a slash at the end.
pub trim_last-root :
    (ps : List (List ℕ))
    → All IsPlain ps
    → trim_last slash (slash ∷ join ℕ_discrete slash ps) ≡ path_of ps false
trim_last-root [] h = refl
trim_last-root (p ∷ ps) h =
    ap (trim_last slash) (join-path_of p ps) ∙ trim_last-path_of (p ∷ ps) false h
