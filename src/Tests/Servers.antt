-- ===== src/Tests/Servers.antt =====
-- Runs of the definitions about pkg/services/api/server on concrete inputs.
use framingo.Prelude.{
  ℕ, ◌≤◌, ◌≡◌, refl, List, [], ◌∷◌, ◌++◌, Bool, true, false, Option, none, some, ok, err, arith,
  ℕ_discrete, if◌then◌else◌,
}
use framingo.Prelude.Dicts.{Dict, lookup}
use framingo.Prelude.Paths.{clean, join_path, trim_prefix}
use framingo.Prelude.Paths.Plain.{IsPlain, path_of}
use framingo.Server.{
  Text, Handler, HandlerGroup, HandlerKey, handler_key, get_method, any_method, new_handler_key,
}
use framingo.Server.Matching.{
  request_key, best_of, has_key, is_candidate, rooted_path, consider, find_best, match_wildcard,
  match_key, match_handler,
}
use framingo.Server.Matching.Longest.{rank}
use framingo.Server.Matching.Unique.{match_handler-order}
use framingo.Server.Matching.Chosen.{match_wildcard-longest}
use framingo.Server.Routing.{
  Manager, Router, echo_handler, route_prefix, route_path, with_endpoint, with_throttle,
  apply_option, apply_options, no_endpoint,
}
use framingo.Server.Routing.Calls.{new_manager, add_server, register_routers}
use framingo.Server.Routing.Paths.{request_key-new_handler_key}
use framingo.Server.Errors.{plain, http_error, wrap_error, body_of, categorize}
use framingo.Server.Pipeline.{
  Incoming, Serving, Context, HandlerFunc, Given, of_value, failed, request_info, serve,
  core_middlewares, throttle_middleware, recover_middleware, logger_middleware, info_middleware,
  error_middleware, error_handler, response_info, pass_limiter, make_limiter,
}
use framingo.Server.Pipeline.Replies.{reply, routed, serve-sent}

abbrev slash_a : Text
slash_a = b'/' ∷ b'a' ∷ []

abbrev wild_a : Text
wild_a = b'/' ∷ b'a' ∷ b'/' ∷ b'*' ∷ []

abbrev wild_ab : Text
wild_ab = b'/' ∷ b'a' ∷ b'/' ∷ b'b' ∷ b'/' ∷ b'*' ∷ []

abbrev path_abc : Text
path_abc = b'/' ∷ b'a' ∷ b'/' ∷ b'b' ∷ b'/' ∷ b'c' ∷ []

abbrev server_name : Text
server_name = b's' ∷ []

abbrev key_of : Text → Text → HandlerKey
key_of m p = record { server = server_name; method = m; path = p }

abbrev a_handler : Text → Text → Handler
a_handler m p = record {
  method = m;
  path = p;
  middlewares = [];
  permission = [];
  poll = false;
  throttle = none;
  func = b'f' ∷ [];
}

abbrev a_group : List Handler → HandlerGroup
a_group hs = record { server = server_name; prefix = []; handlers = hs; middlewares = [] }

abbrev wildcards : Dict HandlerKey Handler
wildcards =
    (key_of any_method wild_a, a_handler any_method wild_a)
    ∷ (key_of get_method wild_ab, a_handler get_method wild_ab)
    ∷ (key_of any_method wild_ab, a_handler any_method wild_ab)
    ∷ []

-- The longest wildcard, with the exact method.
longest_wildcard :
    match_key [] wildcards (key_of get_method path_abc) ≡ some (key_of get_method wild_ab)
unfolding match_key match_wildcard find_best consider ℕ_discrete
longest_wildcard = refl

clean_up :
    clean (b'/' ∷ b'a' ∷ b'/' ∷ b'.' ∷ b'.' ∷ b'/' ∷ b'/' ∷ b'b' ∷ b'/' ∷ []) ≡ b'/' ∷ b'b' ∷ []
unfolding clean ℕ_discrete
clean_up = refl

match_wildcard-longest_example :
    (k : HandlerKey) × (match_wildcard [] wildcards (key_of get_method path_abc) ≡ some k)
    × (has_key wildcards k ≡ true)
    × (is_candidate
          (key_of get_method path_abc)
          (rooted_path (trim_prefix (key_of get_method path_abc).path []))
          k
        ≡ true)
    × (rank (best_of (key_of get_method path_abc) (key_of any_method wild_a))
        ≤ rank (best_of (key_of get_method path_abc) k))
unfolding ℕ_discrete
match_wildcard-longest_example =
    match_wildcard-longest [] wildcards (key_of get_method path_abc) (key_of any_method wild_a) refl
      refl

abbrev two_keys : {V : Type 0} → HandlerKey → HandlerKey → V → Dict HandlerKey V
two_keys j k v = (j, v) ∷ (k, v) ∷ []

swap_if :
    {V : Type 0} (a b : Bool) (v : V)
    → (if a then some v else (if b then some v else none))
      ≡ (if b then some v else (if a then some v else none))
swap_if true true v = refl
swap_if true false v = refl
swap_if false true v = refl
swap_if false false v = refl

swapped :
    {V : Type 0} (j k : HandlerKey) (v : V) (i : HandlerKey)
    → lookup handler_key (two_keys j k v) i ≡ lookup handler_key (two_keys k j v) i
swapped j k v i = swap_if (handler_key.same j i) (handler_key.same k i) v

match_handler-order_example :
    match_handler []
      (two_keys
        (key_of get_method slash_a)
        (key_of get_method wild_a)
        (a_handler get_method slash_a))
      (two_keys (key_of get_method slash_a) (key_of get_method wild_a) (a_group []))
      (key_of get_method path_abc)
    ≡ match_handler []
        (two_keys
          (key_of get_method wild_a)
          (key_of get_method slash_a)
          (a_handler get_method slash_a))
        (two_keys (key_of get_method wild_a) (key_of get_method slash_a) (a_group []))
        (key_of get_method path_abc)
match_handler-order_example =
    match_handler-order []
      (two_keys (key_of get_method slash_a) (key_of get_method wild_a)
        (a_handler get_method slash_a))
      (two_keys (key_of get_method wild_a) (key_of get_method slash_a)
        (a_handler get_method slash_a))
      (two_keys (key_of get_method slash_a) (key_of get_method wild_a) (a_group []))
      (two_keys (key_of get_method wild_a) (key_of get_method slash_a) (a_group []))
      (key_of get_method path_abc)
      (swapped (key_of get_method slash_a) (key_of get_method wild_a)
        (a_handler get_method slash_a))
      (swapped (key_of get_method slash_a) (key_of get_method wild_a) (a_group []))

abbrev api : Text
api = b'a' ∷ b'p' ∷ b'i' ∷ []

abbrev the_id : Text
the_id = b':' ∷ b'i' ∷ b'd' ∷ []

api-IsPlain : IsPlain api
api-IsPlain = (refl, ((λ h. omega arith), ((λ h. omega arith), ((λ h. omega arith), tt))))

the_id-IsPlain : IsPlain the_id
the_id-IsPlain = (refl, ((λ h. omega arith), ((λ h. omega arith), ((λ h. omega arith), tt))))

-- The endpoint at /api, a group at / and a handler at /:id/.
abbrev root_group : HandlerGroup
root_group = record {
  server = server_name;
  prefix = path_of [] true;
  handlers = [];
  middlewares = [];
}

abbrev id_handler : Handler
id_handler = a_handler get_method (path_of (the_id ∷ []) true)

id_route :
    route_prefix (path_of (api ∷ []) false) root_group ++ route_path id_handler
    ≡ b'/' ∷ b'a' ∷ b'p' ∷ b'i' ∷ b'/' ∷ b':' ∷ b'i' ∷ b'd' ∷ []
unfolding route_prefix join_path clean ℕ_discrete
id_route = refl

request_key-new_handler_key_example :
    request_key server_name get_method
      (route_prefix (path_of (api ∷ []) false) root_group ++ route_path id_handler)
      (path_of (api ∷ []) false)
    ≡ record (new_handler_key root_group id_handler) { method = get_method }
request_key-new_handler_key_example =
    request_key-new_handler_key (api ∷ []) [] (the_id ∷ []) true true root_group id_handler
      get_method (api-IsPlain, tt) tt (the_id-IsPlain, tt) refl refl (λ h. ground (arith, h))

abbrev one_server : Manager ℕ ℕ ℕ
one_server = record {
  servers =
      (
        server_name,
        record {
          name = server_name;
          endpoint = record { protocol = []; host = b'h' ∷ []; port = 80; path = [] };
          throttle = none;
          routes = [];
          groups = [];
          handlers = [];
        },
      )
      ∷ [];
  handler_funcs = [];
  middleware_funcs = [];
}

add_server_one :
    add_server new_manager server_name (with_throttle 0 1 ∷ with_endpoint (b'h' ∷ []) 80 [] ∷ [])
    ≡ (one_server, ok tt)
unfolding add_server new_manager apply_options apply_option
add_server_one = refl

add_server_none : (add_server one_server slash_a []).1 ≡ err no_endpoint
unfolding add_server apply_options
add_server_none = refl

-- The methods are in lower case in the configuration.
abbrev lower_get : Text
lower_get = b'g' ∷ b'e' ∷ b't' ∷ []

abbrev one_router : Router ℕ ℕ
one_router = record {
  name = [];
  config = b'x' ∷ [];
  handlers = some ((b'f' ∷ [], echo_handler 7) ∷ []);
}

abbrev read_config : Text → Option (Option HandlerGroup)
read_config t = some (some (a_group (a_handler lower_get slash_a ∷ [])))

abbrev registered : Manager ℕ ℕ ℕ
registered = (register_routers read_config one_server (one_router ∷ [])).0

abbrev a_request : Incoming
a_request = record {
  method = get_method;
  path = slash_a;
  uri = slash_a;
  escaped_path = slash_a;
  raw_path = slash_a;
  ip = [];
  previous_trace = [];
  fresh_trace = b't' ∷ [];
}

abbrev serving : Serving
serving = record {
  name = server_name;
  endpoint_path = [];
  throttle = none;
  handlers = (key_of get_method slash_a, a_handler get_method slash_a) ∷ [];
  groups = (key_of get_method slash_a, a_group []) ∷ [];
}

abbrev new_context : Context ℕ
new_context = record {
  incoming = a_request;
  request = none;
  response = none;
  error = none;
  trace = [];
  status = 200;
  committed = false;
  sent = none;
  limits = [];
  printed = 0;
}

abbrev some_given : Given ℕ
some_given = record {
  wrap_canceled = λ e. e;
  wrap_deadline = λ e. e;
  not_found = λ path. http_error 404 path;
  too_many = λ ip. http_error 429 ip;
  no_response = plain [];
  nil_read = of_value [];
  wrap_error_panic = λ e. e;
  wrap_category_panic = λ k. plain [];
  new_panic = plain;
  missing = λ r. [];
  new_limiter = λ t. 0;
  allow = λ l. (true, l);
}

abbrev failing : HandlerFunc ℕ
failing c = (c, failed (http_error 418 []))

failing-sent : (serve some_given serving failing new_context).printed ≡ 1
unfolding serve core_middlewares recover_middleware logger_middleware info_middleware
    error_middleware throttle_middleware request_info request_key match_handler match_key
    pass_limiter make_limiter response_info error_handler wrap_error body_of categorize join_path
    clean ℕ_discrete
failing-sent = refl

serve-sent_example :
    (serve some_given serving failing new_context).sent
    ≡ reply some_given serving (routed some_given serving failing new_context)
serve-sent_example =
    serve-sent some_given serving failing new_context
      record { request = λ c. refl; response = λ c. refl } refl refl
