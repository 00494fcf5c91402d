-- ===== src/Server/Matching.antt =====
-- `matchHandler` of pkg/services/api/server/util.go and `Key` of pkg/types/api/stats.go: from a
-- request to the handler that was registered for it.
pub mod Longest
pub mod Unique
pub mod Chosen
use framingo.Prelude.{
  ℕ, List, [], ◌∷◌, Bool, true, false, ◌&&◌, ◌||◌, not, Option, none, some, ltb, ◌==◌,
  if◌then◌else◌, length, ℕ_discrete,
}
use framingo.Prelude.Text.{has_prefix}
use framingo.Prelude.Dicts.{Dict, lookup}
use framingo.Prelude.Paths.{join_path, trim_last, trim_prefix, has_suffix, slash}
use framingo.Server.{
  Text, HandlerKey, Handler, HandlerGroup, handler_key, is_text, get_method, any_method, ws_method,
}

abbrev pub star : ℕ
star = b'*'

-- `RequestInfo.Key`, with the fields of the request that it reads, and the prefix last.
unfoldable pub request_key : Text → Text → Text → Text → HandlerKey
request_key server method raw_path prefix = record {
  server = server;
  method = method;
  path = join_path ((slash ∷ []) ∷ trim_prefix raw_path prefix ∷ []);
}

pub record Best : Type 0 where
  pub key : HandlerKey
  pub base_len : ℕ
  pub exact : Bool

abbrev pub no_best : Best
no_best = record {
  key = record { server = []; method = []; path = [] };
  base_len = 0;
  exact = false;
}

abbrev pub wildcard_base : HandlerKey → Text
wildcard_base k = trim_last star k.path

abbrev pub is_exact : HandlerKey → HandlerKey → Bool
is_exact key stored = is_text stored.method key.method

-- The stored keys that the loop does not pass over, for a request and its path.
abbrev pub is_candidate : HandlerKey → Text → HandlerKey → Bool
is_candidate key req_path stored =
    has_suffix stored.path (slash ∷ star ∷ [])
    && (is_text stored.server key.server
        && ((is_exact key stored || is_text stored.method any_method)
            && has_prefix ℕ_discrete (wildcard_base stored) req_path))

abbrev pub is_better : Best → ℕ → Bool → Bool
is_better best len exact =
    ltb best.base_len len || ((len == best.base_len) && (exact && not best.exact))

abbrev pub best_of : HandlerKey → HandlerKey → Best
best_of key stored = record {
  key = stored;
  base_len = length (wildcard_base stored);
  exact = is_exact key stored;
}

unfoldable pub consider : HandlerKey → Text → Best → HandlerKey → Best
consider key req_path best stored =
    if is_candidate key req_path stored
      && is_better best (length (wildcard_base stored)) (is_exact key stored)
    then best_of key stored
    else best

unfoldable pub find_best : HandlerKey → Text → Dict HandlerKey Handler → Best → Best
find_best key req_path [] best = best
find_best key req_path ((k, h) ∷ handlers) best =
    find_best key req_path handlers (consider key req_path best k)

-- The request's path without the endpoint's, and with a slash before it.
abbrev pub rooted_path : Text → Text
rooted_path [] = slash ∷ []
rooted_path (c ∷ cs) = if c == slash then c ∷ cs else slash ∷ c ∷ cs

unfoldable pub match_wildcard : Text → Dict HandlerKey Handler → HandlerKey → Option HandlerKey
match_wildcard endpoint handlers key =
    let best = find_best key (rooted_path (trim_prefix key.path endpoint)) handlers no_best in
    if ltb 0 best.base_len then some best.key else none

abbrev pub with_method : HandlerKey → Text → HandlerKey
with_method key m = record { server = key.server; method = m; path = key.path }

abbrev pub has_key : Dict HandlerKey Handler → HandlerKey → Bool
has_key handlers k = elim (lookup handler_key handlers k) [ none ↦ false | some h ↦ true ]

-- The key of the handler that `matchHandler` gives.
unfoldable pub match_key : Text → Dict HandlerKey Handler → HandlerKey → Option HandlerKey
match_key endpoint handlers key =
    if has_key handlers key
    then some key
    else if is_text key.method get_method && has_key handlers (with_method key ws_method)
    then some (with_method key ws_method)
    else if has_key handlers (with_method key any_method)
    then some (with_method key any_method)
    else match_wildcard endpoint handlers key

unfoldable pub match_handler :
    Text
    → Dict HandlerKey Handler
    → Dict HandlerKey HandlerGroup
    → HandlerKey
    → Option Handler × Option HandlerGroup
match_handler endpoint handlers groups key = elim (match_key endpoint handlers key) [
  | none ↦ (none, none)
  | some k ↦ (lookup handler_key handlers k, lookup handler_key groups k)
]
