-- ===== src/Prelude/Paths.antt =====
-- Go's `path.Join` and `path.Clean` on paths of bytes, and the paths whose parts are plain.
pub mod Plain
use framingo.Prelude.Tests.{if◌then◌else◌, ◌==◌, leb}
use framingo.Prelude.Lists.{length, drop}
use framingo.Prelude.Text.{split, join, has_prefix, same_text}
use Prim.Native.Nat.{ℕ, ◌-◌}
use mathlib.Core.Path.{◌≡◌, refl, sym, ap, ◌∙◌}
use mathlib.Core.Logic.{ite, if_pos, if_neg}
use mathlib.Core.Bool.{Bool, true, false, ◌&&◌, ◌||◌}
use mathlib.Core.List.{List, [], ◌∷◌, ◌++◌, reverse, append_assoc, append-nil}
use native.Mathlib.Omega.{arith}
unfoldable use native.Mathlib.Decide.{ℕ_discrete}

abbrev pub slash : ℕ
slash = b'/'

abbrev pub dot : ℕ
dot = b'.'

abbrev pub parts : List ℕ → List (List ℕ)
parts t = split ℕ_discrete slash t

-- What `path.Clean` does at a part: nothing, a step up, or a step down.
pub data Turn : Type 0 where
  stay up down : Turn

abbrev pub turn : List ℕ → Turn
turn [] = stay
turn (a ∷ []) = if a == dot then stay else down
turn (a ∷ b ∷ []) = if (a == dot) && (b == dot) then up else down
turn (a ∷ b ∷ c ∷ cs) = down

-- A step up takes the last part away; it stays in a path without a root that has none to take.
abbrev pub step_up : Bool → List (List ℕ) → List (List ℕ)
step_up rooted [] = if rooted then [] else (dot ∷ dot ∷ []) ∷ []
step_up rooted (p ∷ ps) = elim (turn p) [ up ↦ (dot ∷ dot ∷ []) ∷ p ∷ ps | _ ↦ ps ]

abbrev pub go : Bool → List (List ℕ) → List ℕ → List (List ℕ)
go rooted taken p = elim (turn p) [ stay ↦ taken | up ↦ step_up rooted taken | down ↦ p ∷ taken ]

-- The parts that stay, the last first.
abbrev pub resolve : Bool → List (List ℕ) → List (List ℕ) → List (List ℕ)
resolve rooted taken [] = taken
resolve rooted taken (p ∷ ps) = resolve rooted (go rooted taken p) ps

abbrev pub write_parts : Bool → List (List ℕ) → List ℕ
write_parts true ps = slash ∷ join ℕ_discrete slash ps
write_parts false [] = dot ∷ []
write_parts false (p ∷ ps) = join ℕ_discrete slash (p ∷ ps)

abbrev pub is_rooted : List ℕ → Bool
is_rooted [] = false
is_rooted (c ∷ cs) = c == slash

-- `path.Clean`
unfoldable pub clean : List ℕ → List ℕ
clean t = write_parts (is_rooted t) (reverse (resolve (is_rooted t) [] (parts t)))

-- The elements with slashes between them, from the first that is not empty.
abbrev pub between : List ℕ → List (List ℕ) → List ℕ
between t [] = t
between [] (e ∷ es) = between e es
between (c ∷ cs) (e ∷ es) = between ((c ∷ cs) ++ (slash ∷ e)) es

-- `path.Join`
unfoldable pub join_path : List (List ℕ) → List ℕ
unfolding clean
join_path es = elim (between [] es) [ [] ↦ [] | c ∷ cs ↦ clean (c ∷ cs) ]

-- A last character taken away, as `strings.TrimSuffix` does.
abbrev pub trim_last : ℕ → List ℕ → List ℕ
trim_last k [] = []
trim_last k (c ∷ []) = if c == k then [] else c ∷ []
trim_last k (c ∷ d ∷ cs) = c ∷ trim_last k (d ∷ cs)

-- `strings.TrimPrefix`, with the prefix last.
abbrev pub trim_prefix : List ℕ → List ℕ → List ℕ
trim_prefix t p = if has_prefix ℕ_discrete p t then drop (length p) t else t

-- `strings.HasSuffix`, with the suffix last.
abbrev pub has_suffix : List ℕ → List ℕ → Bool
has_suffix [] s = same_text ℕ_discrete [] s
has_suffix (c ∷ cs) s = let rest = has_suffix cs s in same_text ℕ_discrete (c ∷ cs) s || rest

abbrev pub upper : ℕ → ℕ
upper c = if leb (b'a') c && leb c (b'z') then c - 32 else c

-- `strings.ToUpper` on a text of ASCII letters.
abbrev pub to_upper : List ℕ → List ℕ
to_upper [] = []
to_upper (c ∷ cs) = upper c ∷ to_upper cs
