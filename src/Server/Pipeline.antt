-- ===== src/Server/Pipeline.antt =====
-- pkg/services/api/server: the core middlewares (middlewares.go), the error handler (error.go) and
-- what they read of the request (util.go). A handler takes the context of a request to the
-- context that it leaves, with an error or a panic. The limiters of a server stand in the context,
-- since a request may add one; a limiter and its `Allow` are given. Times and the log are left out.
pub mod Limits
pub mod Replies
use framingo.Prelude.{
  ℕ, List, [], ◌∷◌, ◌++◌, Bool, true, false, Option, none, some, if◌then◌else◌, ◌+◌,
}
use framingo.Prelude.Dicts.{Dict, lookup, insert, text_key}
use framingo.Prelude.Paths.{slash}
use framingo.Server.{Text, HandlerKey, Handler, HandlerGroup, ThrottleConfig}
use framingo.Server.Matching.{request_key, match_handler}
use framingo.Server.Errors.{ErrorBody, Failure, body, Category, coded, wrap_error}

-- What a request has when it comes in: `uri` is its `RequestURI`, with the query, `raw_path` the
-- pattern that echo's router finds for it, `fresh_trace` the identity that is made for it.
pub record Incoming : Type 0 where
  pub method : Text
  pub path : Text
  pub uri : Text
  pub escaped_path : Text
  pub raw_path : Text
  pub ip : Text
  pub previous_trace : Text
  pub fresh_trace : Text

pub record RequestInfo : Type 0 where
  pub server : Text
  pub method : Text
  pub path : Text
  pub raw_path : Text
  pub trace_id : Text
  pub ip : Text
  pub handler : Option Handler
  pub handler_group : Option HandlerGroup

pub record ResponseInfo : Type 0 where
  pub status : ℕ
  pub error : Option ErrorBody

-- What the server is to its middlewares. `status` is what the response of the context has.
pub record Serving : Type 0 where
  pub name : Text
  pub endpoint_path : Text
  pub throttle : Option ThrottleConfig
  pub handlers : Dict HandlerKey Handler
  pub groups : Dict HandlerKey HandlerGroup

-- `sent` is a JSON reply, with its status; `committed` says that the response has begun.
pub record Context (L : Type 0) : Type 0 where
  pub incoming : Incoming
  pub request : Option RequestInfo
  pub response : Option ResponseInfo
  pub error : Option ErrorBody
  pub trace : Text
  pub status : ℕ
  pub committed : Bool
  pub sent : Option (ℕ × Option ErrorBody)
  pub limits : Dict Text (Option L)
  pub printed : ℕ

-- What a handler may panic with: an error or a category of the errors library, or another value.
pub data Panic : Type 0 where
  of_error : Failure → Panic
  of_category : Category → Panic
  of_value : Text → Panic

pub data Result : Type 0 where
  fine : Result
  failed : Failure → Result
  panicked : Panic → Result

abbrev pub HandlerFunc : Type 0 → Type 0
HandlerFunc L = Context L → Context L × Result

-- The libraries: the errors for a canceled context, a deadline, a handler that is not found, for the
-- text that is named, too many requests and a response that is missing, those that the errors
-- library makes of a value that is recovered, the panic at a nil that is read, and limiters.
pub record Given (L : Type 0) : Type 0 where
  pub wrap_canceled : Failure → Failure
  pub wrap_deadline : Failure → Failure
  pub not_found : Text → Failure
  pub too_many : Text → Failure
  pub no_response : Failure
  pub nil_read : Panic
  pub wrap_error_panic : Failure → Failure
  pub wrap_category_panic : Category → Failure
  pub new_panic : Text → Failure
  pub missing : Incoming → Text
  pub new_limiter : ThrottleConfig → L
  pub allow : L → Bool × L

abbrev trace_of : Text → Text → Text
trace_of [] fresh = fresh
trace_of (c ∷ cs) fresh = (c ∷ cs) ++ (slash ∷ fresh)

unfoldable pub request_info : Serving → Incoming → RequestInfo
request_info s r =
    let key = request_key s.name r.method r.raw_path s.endpoint_path in
    let bare : RequestInfo = record {
      server = s.name;
      method = r.method;
      path = r.path;
      raw_path = r.raw_path;
      trace_id = trace_of r.previous_trace r.fresh_trace;
      ip = r.ip;
      handler = none;
      handler_group = none;
    } in
    let (h, g) = match_handler s.endpoint_path s.handlers s.groups key in
    elim h [
      | none ↦ bare
      | some handler ↦ elim g [
        | none ↦ bare
        | some group ↦ record bare { handler = some handler; handler_group = some group }
      ]
    ]

module _ {L : Type 0} where
  unfoldable pub response_info : Context L → ResponseInfo
  response_info c = elim c.error [
    | none ↦ record { status = c.status; error = none }
    | some b ↦ record { status = b.status; error = some b }
  ]

  -- `print` of the server, as a count.
  abbrev print : Context L → Context L
  print c = record c { printed = c.printed + 1 }

module _ {L : Type 0} (given : Given L) (s : Serving) where
  -- `api.WrapError` with the name of the server for its source.
  abbrev pub named_error : Context L → Failure → ErrorBody
  named_error c e =
      record (wrap_error given.wrap_canceled given.wrap_deadline (given.missing c.incoming) e) {
        source = s.name;
      }

  abbrev pub with_error : Context L × Result → Context L × Result
  with_error (c, fine) = (c, fine)
  with_error (c, failed e) =
      (record c { error = some (named_error c e) }, failed (body (named_error c e)))
  with_error (c, panicked e) = (c, panicked e)

  unfoldable pub error_middleware : HandlerFunc L → HandlerFunc L
  error_middleware next c = with_error (next c)

  abbrev pub with_response : Context L × Result → Context L × Result
  with_response (c, panicked e) = (c, panicked e)
  with_response (c, r) = (record c { response = some (response_info c) }, r)

  unfoldable pub info_middleware : HandlerFunc L → HandlerFunc L
  info_middleware next c =
      let req = request_info s c.incoming in
      elim req.handler [
        | none ↦ (c, failed (given.not_found c.incoming.uri))
        | some h ↦ with_response (next record c { request = some req; trace = req.trace_id })
      ]

  -- What `Logger` does once the handler has returned.
  abbrev pub log_reply : Context L → Result → Context L × Result
  log_reply c r = elim c.request [
    | none ↦ (c, failed (given.not_found c.incoming.escaped_path))
    | some req ↦ elim req.handler [
      | none ↦ (c, failed (given.not_found c.incoming.escaped_path))
      | some h ↦ elim c.response [
        | none ↦ (c, failed given.no_response)
        | some resp ↦ if h.poll then (c, r) else (print c, r)
      ]
    ]
  ]

  abbrev pub with_log : Context L × Result → Context L × Result
  with_log (c, panicked e) = (c, panicked e)
  with_log (c, fine) = log_reply c fine
  with_log (c, failed e) = log_reply c (failed e)

  unfoldable pub logger_middleware : HandlerFunc L → HandlerFunc L
  logger_middleware next c = with_log (next c)

  -- The limiter that is made for a key: that of the handler, else that of the server.
  unfoldable pub make_limiter : Handler → Option L
  make_limiter h = elim h.throttle [
    | some t ↦ some (given.new_limiter t)
    | none ↦ elim s.throttle [ some t ↦ some (given.new_limiter t) | none ↦ none ]
  ]

  abbrev pub limit_key : RequestInfo → Text
  limit_key req = req.ip ++ (b':' ∷ req.path)

  -- The call of the limiter, which changes it.
  unfoldable pub pass_limiter :
      HandlerFunc L → Context L → RequestInfo → Option L → Context L × Result
  pass_limiter next c req none =
      next record c { limits = insert text_key c.limits (limit_key req) none }
  pass_limiter next c req (some l) =
      let (allowed, after) = given.allow l in
      let d = record c { limits = insert text_key c.limits (limit_key req) (some after) } in
      elim allowed [ true ↦ next d | false ↦ (d, failed (given.too_many req.ip)) ]

  unfoldable pub throttle_middleware : HandlerFunc L → HandlerFunc L
  throttle_middleware next c = elim c.request [
    | none ↦ (c, failed (given.not_found c.incoming.uri))
    | some req ↦ elim (lookup text_key c.limits (limit_key req)) [
      | some limiter ↦ pass_limiter next c req limiter
      | none ↦ elim req.handler [
        | none ↦ (c, panicked given.nil_read)
        | some h ↦ pass_limiter next c req (make_limiter h)
      ]
    ]
  ]

  abbrev pub send : Context L → ResponseInfo → Context L
  send c resp = record c { sent = some (resp.status, resp.error); committed = true }

  -- For an error that is not nil.
  unfoldable pub error_handler : Failure → Context L → Context L
  error_handler e c = if c.committed then c else (elim c.response [
    | some resp ↦ send c resp
    | none ↦ let b = named_error c e in send (print c) record { status = b.status; error = some b }
  ])

  -- The error that `Recover` makes of the value of a panic.
  unfoldable pub recovered : Panic → Failure
  recovered (of_error e) = given.wrap_error_panic e
  recovered (of_category k) = given.wrap_category_panic k
  recovered (of_value v) = given.new_panic v

  abbrev pub with_recover : Context L × Result → Context L × Result
  with_recover (c, panicked v) = (error_handler (recovered v) c, fine)
  with_recover (c, r) = (c, r)

  unfoldable pub recover_middleware : HandlerFunc L → HandlerFunc L
  recover_middleware next c = with_recover (next c)

  -- The order in which `buildEcho` puts them around a handler.
  unfoldable pub core_middlewares : HandlerFunc L → HandlerFunc L
  core_middlewares next =
      recover_middleware
        (logger_middleware (info_middleware (error_middleware (throttle_middleware next))))

  -- What echo does with the error that is left.
  abbrev pub finish : Context L × Result → Context L
  finish (c, failed e) = error_handler e c
  finish (c, _) = c

  unfoldable pub serve : HandlerFunc L → Context L → Context L
  serve next c = finish (core_middlewares next c)
