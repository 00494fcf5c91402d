-- ===== src/Server/Routing.antt =====
-- pkg/services/api/server/manager.go and option.go: servers, routers and middlewares, and the routes
-- that they add to the echo instances. A router's YAML is read by a function that is given. A call
-- that fails leaves what it has changed before, so a call returns the manager with the result. The
-- loops over maps go through the entries in their order in the list.
pub mod Calls
pub mod Paths
pub mod Served
pub mod Restart
pub mod Registered
pub mod Routers
pub mod Wired
pub mod Init
use framingo.Prelude.{
  ℕ, List, [], ◌∷◌, ◌++◌, Bool, true, false, ◌&&◌, not, Option, none, some, ltb, ◌==◌,
  if◌then◌else◌, Outcome, ok, err, panics, ◌>>=◌, ◌||◌,
}
use framingo.Prelude.Dicts.{text_key, Dict, lookup, insert}
use framingo.Prelude.Paths.{join_path, trim_last, slash, to_upper}
use framingo.Server.{
  Text, HandlerKey, Handler, HandlerGroup, ThrottleConfig, handler_key, is_text, any_method,
  get_method, ws_method, valid_http_method, new_handler_key,
}

pub record Endpoint : Type 0 where
  pub protocol : Text
  pub host : Text
  pub port : ℕ
  pub path : Text

pub data ServerError : Type 0 where
  no_endpoint no_group no_handlers no_server_name : ServerError
  empty_config bad_config : Text → ServerError
  bad_method : Text → Text → ServerError
  no_function no_socket no_signature : Text → ServerError
  is_socket : Text → Text → ServerError
  no_server no_middleware conflict : Text → ServerError

-- What `Handlers` of a router has under a name.
pub data Func (F W : Type 0) : Type 0 where
  echo_handler plain_handler : F → Func F W
  socket_handler : W → Func F W
  other : Func F W

-- What is registered: a function, or a WebSocket function as `wrapWebSocket` wraps it.
pub data Installed (F W : Type 0) : Type 0 where
  bare : F → Installed F W
  wrapped : W → Installed F W

pub data Verb : Type 0 where
  only : Text → Verb
  any : Verb

-- A route of an echo group.
pub record Route (F W M : Type 0) : Type 0 where
  pub verb : Verb
  pub prefix : Text
  pub path : Text
  pub handler : Installed F W
  pub middlewares : List M

pub record Server (F W M : Type 0) : Type 0 where
  pub name : Text
  pub endpoint : Endpoint
  pub throttle : Option ThrottleConfig
  pub routes : List (Route F W M)
  pub groups : Dict HandlerKey HandlerGroup
  pub handlers : Dict HandlerKey Handler

pub record Manager (F W M : Type 0) : Type 0 where
  pub servers : Dict Text (Server F W M)
  pub handler_funcs : Dict HandlerKey (Installed F W)
  pub middleware_funcs : Dict Text M

pub record Router (F W : Type 0) : Type 0 where
  pub name : Text
  pub config : Text
  pub handlers : Option (Dict Text (Func F W))

-- `WithEndpoint` and `WithThrottle`, with their arguments.
pub data ServerOption : Type 0 where
  with_endpoint : Text → ℕ → Text → ServerOption
  with_throttle : ℕ → ℕ → ServerOption

-- The fields that the options of a server set.
pub record Draft : Type 0 where
  pub endpoint : Option Endpoint
  pub throttle : Option ThrottleConfig

abbrev pub is_blank : Text → Bool
is_blank [] = true
is_blank (c ∷ cs) = false

unfoldable pub apply_option : Draft → ServerOption → Draft
apply_option s (with_endpoint host port prefix) =
    if not (is_blank host) && ltb 0 port
    then record s {
      endpoint = some record { protocol = []; host = host; port = port; path = prefix };
    }
    else s
apply_option s (with_throttle rps burst) =
    if rps == 0 || burst == 0
    then s
    else record s { throttle = some record { rps = rps; burst_size = burst } }

unfoldable pub apply_options : Draft → List ServerOption → Draft
apply_options s [] = s
apply_options s (o ∷ os) = apply_options (apply_option s o) os

-- The prefix of the echo group, and the path in it.
unfoldable pub route_prefix : Text → HandlerGroup → Text
route_prefix endpoint g = trim_last slash (join_path (endpoint ∷ g.prefix ∷ []))

abbrev pub route_path : Handler → Text
route_path h = trim_last slash h.path

abbrev pub verb_of : Text → Verb
verb_of m =
    if is_text m ws_method then only get_method else if is_text m any_method then any else only m

abbrev pub upper_method : Handler → Handler
upper_method h = record h { method = to_upper h.method }

module _ {M : Type 0} where
  -- The middlewares of a list of names, which must all be there.
  abbrev pub named_middlewares : Dict Text M → List Text → Outcome ServerError (List M)
  named_middlewares funcs [] = ok []
  named_middlewares funcs (n ∷ ns) = elim (lookup text_key funcs n) [
    | none ↦ err (no_middleware n)
    | some mw ↦ named_middlewares funcs ns >>= λ mws. ok (mw ∷ mws)
  ]

  unfoldable pub collect_middlewares :
      Dict Text M → Handler → HandlerGroup → Outcome ServerError (List M)
  collect_middlewares funcs h g = named_middlewares funcs h.middlewares >>= λ own.
      named_middlewares funcs g.middlewares >>= λ shared. ok (own ++ shared)

module _ {F W : Type 0} where
  -- What is registered for a handler whose method is in upper case.
  unfoldable pub check_handler :
      Dict Text (Func F W) → Handler → Outcome ServerError (Installed F W)
  check_handler fns h =
      if not (valid_http_method h.method)
      then err (bad_method h.method h.func)
      else (elim (lookup text_key fns h.func) [
        | none ↦ err (no_function h.func)
        | some (echo_handler f) ↦
            if is_text h.method ws_method then err (no_socket h.func) else ok (bare f)
        | some (plain_handler f) ↦
            if is_text h.method ws_method then err (no_socket h.func) else ok (bare f)
        | some (socket_handler w) ↦
            if is_text h.method ws_method then ok (wrapped w) else err (is_socket h.func h.method)
        | some other ↦ err (no_signature h.func)
      ])
