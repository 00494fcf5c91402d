-- ===== src/Server/Matching/Chosen.antt =====
-- What `matchHandler` of pkg/services/api/server/util.go finds, by its four steps.
use framingo.Prelude.{
  ◌≤◌, ◌<◌, ◌≡◌, ap, ◌∙◌, inl, inr, Bool, true, none, some, ltb, if◌then◌else◌, length, arith,
  lt→ltb,
}
use framingo.Prelude.Dicts.{Dict}
use framingo.Prelude.Paths.{trim_prefix}
use framingo.Server.{Text, HandlerKey, Handler}
use framingo.Server.Matching.{
  Best, no_best, wildcard_base, is_candidate, best_of, has_key, rooted_path, match_wildcard,
}
use framingo.Server.Matching.Longest.{rank, find_best-from, find_best-covers}
use framingo.Server.Matching.Unique.{candidate-Fits, suffix-IsWildcard}

base-len :
    (key : HandlerKey) (req_path : Text) (k : HandlerKey)
    → is_candidate key req_path k ≡ true
    → 0 < length (wildcard_base k)
base-len key req_path k c =
    let fits = candidate-Fits key req_path k c in
    let wild = suffix-IsWildcard k.path fits.ends in omega (arith, ap length wild.2)

-- If a request fits a wildcard of the map, matchHandler's loop finds one of the map that it fits,
-- and whose base is not shorter, nor as long with ANY for its method where the other's is exact.
pub match_wildcard-longest :
    (endpoint : Text) (d : Dict HandlerKey Handler) (key j : HandlerKey)
    → has_key d j ≡ true
    → is_candidate key (rooted_path (trim_prefix key.path endpoint)) j ≡ true
    → (k : HandlerKey) × (match_wildcard endpoint d key ≡ some k)
      × (has_key d k ≡ true)
      × (is_candidate key (rooted_path (trim_prefix key.path endpoint)) k ≡ true)
      × (rank (best_of key j) ≤ rank (best_of key k))
unfolding match_wildcard
match_wildcard-longest endpoint d key j f c =
    let path = rooted_path (trim_prefix key.path endpoint) in
    let covers = find_best-covers key path d no_best j f c in
    elim (find_best-from key path d no_best) [
      | inl e ↦ absurd (omega (arith, base-len key path j c, covers, ap rank e))
      | inr (k, e, g, b, l) ↦ (
        k,
        ap (λ (r : Best). if ltb 0 r.base_len then some r.key else none) e
            ∙ ap (λ (p : Bool). if p then some k else none)
                (lt→ltb 0 (length (wildcard_base k)) (base-len key path k b)),
        g,
        b,
        omega (arith, covers, ap rank e),
      )
    ]
