-- ===== src/Server.antt =====
-- pkg/services/api/server: the servers, their routers and middlewares (manager.go, server.go,
-- option.go, validation.go), and the keys and groups of pkg/types/api/model.go. An echo instance is
-- the list of the routes added to it, in order. `F` and `W` are the HTTP and the WebSocket handlers,
-- `M` the middlewares. What YAML makes of a configuration is a parameter; TLS, the log and the
-- sockets are left out. A map is a list of entries.

pub mod Matching
pub mod Routing
pub mod Errors
pub mod Pipeline
use framingo.Prelude.{
  ℕ, List, [], ◌∷◌, ◌++◌, Bool, true, false, ◌&&◌, ◌||◌, not, Option, none, some, ltb, ◌==◌,
  if◌then◌else◌, Outcome, ok, err, panics, ◌>>=◌, ◌≡◌, refl, sym, ap, ◌∙◌, arith,
}
use framingo.Prelude.Text.{same_text}
use framingo.Prelude.Dicts.{Keyed, text_key, Dict, lookup, insert}
use framingo.Prelude.Paths.{join_path, trim_last, slash, to_upper}

abbrev pub Text : Type 0
Text = List ℕ

abbrev pub get_method : Text
get_method = b'G' ∷ b'E' ∷ b'T' ∷ []

abbrev head : Text
head = b'H' ∷ b'E' ∷ b'A' ∷ b'D' ∷ []

abbrev post : Text
post = b'P' ∷ b'O' ∷ b'S' ∷ b'T' ∷ []

abbrev put_method : Text
put_method = b'P' ∷ b'U' ∷ b'T' ∷ []

abbrev patch : Text
patch = b'P' ∷ b'A' ∷ b'T' ∷ b'C' ∷ b'H' ∷ []

abbrev delete : Text
delete = b'D' ∷ b'E' ∷ b'L' ∷ b'E' ∷ b'T' ∷ b'E' ∷ []

abbrev options : Text
options = b'O' ∷ b'P' ∷ b'T' ∷ b'I' ∷ b'O' ∷ b'N' ∷ b'S' ∷ []

abbrev trace : Text
trace = b'T' ∷ b'R' ∷ b'A' ∷ b'C' ∷ b'E' ∷ []

abbrev connect : Text
connect = b'C' ∷ b'O' ∷ b'N' ∷ b'N' ∷ b'E' ∷ b'C' ∷ b'T' ∷ []

abbrev pub any_method : Text
any_method = b'A' ∷ b'N' ∷ b'Y' ∷ []

abbrev pub ws_method : Text
ws_method = b'W' ∷ b'S' ∷ []

abbrev pub is_text : Text → Text → Bool
is_text s t = text_key.same s t

abbrev pub is_one_of : List Text → Text → Bool
is_one_of [] t = false
is_one_of (s ∷ ss) t = let rest = is_one_of ss t in is_text s t || rest

abbrev pub http_methods : List Text
http_methods =
    get_method ∷ head ∷ post ∷ put_method ∷ patch ∷ delete ∷ options ∷ trace ∷ connect ∷ any_method
    ∷ ws_method ∷ []

unfoldable pub valid_http_method : Text → Bool
valid_http_method m = is_one_of http_methods m

-- `rps` is a float64 in the source; here only whether it is 0 matters.
pub record ThrottleConfig : Type 0 where
  pub rps : ℕ
  pub burst_size : ℕ

pub record Handler : Type 0 where
  pub method : Text
  pub path : Text
  pub middlewares : List Text
  pub permission : Text
  pub poll : Bool
  pub throttle : Option ThrottleConfig
  pub func : Text

pub record HandlerGroup : Type 0 where
  pub server : Text
  pub prefix : Text
  pub handlers : List Handler
  pub middlewares : List Text

pub record HandlerKey : Type 0 where
  pub server : Text
  pub method : Text
  pub path : Text

abbrev pub same_key : HandlerKey → HandlerKey → Bool
same_key a b = is_text a.server b.server && (is_text a.method b.method && is_text a.path b.path)

and_left : (b c : Bool) → (b && c) ≡ true → b ≡ true
and_left b c h = ground arith

and_right : (b c : Bool) → (b && c) ≡ true → c ≡ true
and_right b c h = ground arith

pub same_key-eq : (a b : HandlerKey) → same_key a b ≡ true → a ≡ b
same_key-eq a b h =
    let tail =
      and_right (is_text a.server b.server) (is_text a.method b.method && is_text a.path b.path)
        h in
    let p = text_key.same_eq a.server b.server (
      and_left (is_text a.server b.server) (is_text a.method b.method && is_text a.path b.path)
        h) in
    let q =
      text_key.same_eq a.method b.method
        (and_left (is_text a.method b.method) (is_text a.path b.path) tail) in
    let r =
      text_key.same_eq a.path b.path
        (and_right (is_text a.method b.method) (is_text a.path b.path) tail) in
    ap (λ (s : Text). record a { server = s }) p
    ∙ ap (λ (s : Text). record a { server = b.server; method = s }) q
    ∙ ap (λ (s : Text). record a { server = b.server; method = b.method; path = s }) r

pub same_key_self : (a : HandlerKey) → same_key a a ≡ true
same_key_self a =
    rw (text_key.same_self a.server, text_key.same_self a.method, text_key.same_self a.path) refl

abbrev pub handler_key : Keyed HandlerKey
handler_key = record { same = same_key; same_eq = same_key-eq; same_self = same_key_self }

-- `NewHandlerKey`, for a group that is there.
unfoldable pub new_handler_key : HandlerGroup → Handler → HandlerKey
new_handler_key g h = record {
  server = g.server;
  method = h.method;
  path = join_path (g.prefix ∷ h.path ∷ []);
}
