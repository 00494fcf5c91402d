-- ===== src/Server/Pipeline/Replies.antt =====
-- What pkg/services/api/server replies to a request that has gone through its middlewares.
use framingo.Prelude.{
  ℕ, ◌∷◌, ◌++◌, ◌≡◌, refl, sym, ap, ◌∙◌, ◌+◌, Bool, true, false, Option, none, some, if◌then◌else◌,
  inl, inr, Option-cases,
}
use framingo.Prelude.Dicts.{insert, text_key}
use framingo.Server.{Text, Handler}
use framingo.Server.Errors.{ErrorBody, Failure, body}
use framingo.Server.Pipeline.Limits.{
  Keeps, pass_limiter-request, pass_limiter-response, met, throttle-pass,
}
use framingo.Server.Pipeline.{
  RequestInfo, ResponseInfo, Serving, Context, Result, fine, failed, panicked, HandlerFunc, Given,
  request_info, response_info, named_error, with_error, error_middleware, with_response,
  info_middleware, log_reply, with_log, logger_middleware, make_limiter, limit_key, pass_limiter,
  throttle_middleware, error_handler, with_recover, recover_middleware, core_middlewares, finish,
  serve, recovered, of_error, of_category, of_value,
}

module _ {L : Type 0} (given : Given L) (s : Serving) where
  log_reply-found :
      (c : Context L) (r : Result) (req : RequestInfo) (h : Handler) (resp : ResponseInfo)
      → c.request ≡ some req
      → req.handler ≡ some h
      → c.response ≡ some resp
      → log_reply given s c r
        ≡ (if h.poll then (c, r) else (record c { printed = c.printed + 1 }, r))
  log_reply-found c r req h resp e f g =
      let ends : Handler → Context L × Result =
        λ i. if i.poll then (c, r) else (record c { printed = c.printed + 1 }, r) in
      let replied : Option ResponseInfo → Handler → Context L × Result =
        λ o i. elim o [ none ↦ (c, failed given.no_response) | some _ ↦ ends i ] in
      let handled : Option Handler → Context L × Result = λ o. elim o [
        | none ↦ (c, failed (given.not_found c.incoming.escaped_path))
        | some i ↦ replied c.response i
      ] in
      ap
        (λ (o : Option RequestInfo). elim o as (λ _. Context L × Result) [
          | none ↦ (c, failed (given.not_found c.incoming.escaped_path))
          | some q ↦ handled q.handler
        ])
        e
      ∙ ap handled f
      ∙ ap (λ o. replied o h) g

  abbrev pub error_reply : Failure → Context L → Option (ℕ × Option ErrorBody)
  error_reply e c =
      if c.committed
      then c.sent
      else some ((named_error given s c e).status, some (named_error given s c e))

  -- What is sent for a handler that leaves a context: what was sent if the response had begun or the
  -- handler made no error, and else the error with its status.
  abbrev pub reply : Context L × Result → Option (ℕ × Option ErrorBody)
  reply (c, fine) = c.sent
  reply (c, failed e) = error_reply e c
  reply (c, panicked (of_error e)) = error_reply (given.wrap_error_panic e) c
  reply (c, panicked (of_category k)) = error_reply (given.wrap_category_panic k) c
  reply (c, panicked (of_value v)) = error_reply (given.new_panic v) c

  error_handler-none :
      (e : Failure) (c : Context L)
      → c.response ≡ none
      → (error_handler given s e c).sent ≡ reply (c, failed e)
  unfolding error_handler
  error_handler-none e c n =
      let b = named_error given s c e in
      let sent : ResponseInfo → Context L → Context L =
        λ r d. record d { sent = some (r.status, r.error); committed = true } in
      let answered : Option ResponseInfo → Context L = λ o. elim o [
        | some resp ↦ sent resp c
        | none ↦
            sent record { status = b.status; error = some b } record c { printed = c.printed + 1 }
      ] in
      ap (λ o. (if c.committed then c else answered o).sent) n
      ∙ elim c.committed
          as (λ d.
            (if d then c else answered none).sent
            ≡ (if d then c.sent else some (b.status, some b))) [ true ↦ refl | false ↦ refl ]

  error_handler-some :
      (e : Failure) (c : Context L) (resp : ResponseInfo)
      → c.response ≡ some resp
      → (error_handler given s e c).sent
        ≡ (if c.committed then c.sent else some (resp.status, resp.error))
  unfolding error_handler
  error_handler-some e c resp n =
      let b = named_error given s c e in
      let sent : ResponseInfo → Context L → Context L =
        λ r d. record d { sent = some (r.status, r.error); committed = true } in
      let answered : Option ResponseInfo → Context L = λ o. elim o [
        | some resp ↦ sent resp c
        | none ↦
            sent record { status = b.status; error = some b } record c { printed = c.printed + 1 }
      ] in
      ap (λ o. (if c.committed then c else answered o).sent) n
      ∙ elim c.committed
          as (λ d.
            (if d then c else sent resp c).sent
            ≡ (if d then c.sent else some (resp.status, resp.error))) [ true ↦ refl | false ↦ refl ]

module _ {L : Type 0} (given : Given L) (s : Serving) where
  abbrev wrapped : Context L × Result → Context L
  wrapped p =
      finish given s
        (with_recover given s (with_log given s (with_response given s (with_error given s p))))

  -- What the rest of the chain does where the reply is logged or not.
  abbrev ended : Bool → Context L → Result → Context L
  ended b c r =
      finish given s
        (with_recover given s (if b then (c, r) else (record c { printed = c.printed + 1 }, r)))

  ended-failed :
      (b : Bool) (c : Context L) (e : Failure) (resp : ResponseInfo)
      → c.response ≡ some resp
      → (ended b c (failed e)).sent
        ≡ (if c.committed then c.sent else some (resp.status, resp.error))
  ended-failed true c e resp n = error_handler-some given s e c resp n
  ended-failed false c e resp n =
      error_handler-some given s e (record c { printed = c.printed + 1 }) resp n

  wrapped-sent :
      (p : Context L × Result) (req : RequestInfo) (h : Handler)
      → p.0.request ≡ some req
      → req.handler ≡ some h
      → p.0.response ≡ none
      → (wrapped p).sent ≡ reply given s p
  unfolding response_info recovered
  wrapped-sent (c, fine) req h r f n =
      let d : Context L = record c { response = some (response_info c) } in
      ap (λ p. (finish given s (with_recover given s p)).sent)
        (log_reply-found given s d fine req h (response_info c) r f refl)
      ∙ elim h.poll as (λ b. (ended b d fine).sent ≡ c.sent) [ true ↦ refl | false ↦ refl ]
  wrapped-sent (c, failed e) req h r f n =
      let b = named_error given s c e in
      let d : Context L = record c { error = some b } in
      let a : Context L = record d { response = some (response_info d) } in
      ap (λ p. (finish given s (with_recover given s p)).sent)
        (log_reply-found given s a (failed (body b)) req h (response_info d) r f refl)
      ∙ ended-failed h.poll a (body b) (response_info d) refl
  wrapped-sent (c, panicked (of_error e)) req h r f n =
      error_handler-none given s (given.wrap_error_panic e) c n
  wrapped-sent (c, panicked (of_category k)) req h r f n =
      error_handler-none given s (given.wrap_category_panic k) c n
  wrapped-sent (c, panicked (of_value v)) req h r f n =
      error_handler-none given s (given.new_panic v) c n

module _ {L : Type 0} (given : Given L) (s : Serving) (next : HandlerFunc L) where
  -- The context that the handler of a request begins with.
  abbrev pub informed : Context L → Context L
  unfolding request_info
  informed c = record c {
    request = some (request_info s c.incoming);
    trace = (request_info s c.incoming).trace_id;
  }

  -- How it ends behind the limiter that it meets: the handler is called, and the limiter kept as its
  -- answer leaves it, unless it lets no more through.
  abbrev pub limited : Context L → Text → Text → Option L → Context L × Result
  limited c key ip none = next record c { limits = insert text_key c.limits key none }
  limited c key ip (some l) =
      let d = record c { limits = insert text_key c.limits key (some (given.allow l).1) } in
      if (given.allow l).0 then next d else (d, failed (given.too_many ip))

  pass_limiter-limited :
      (c : Context L) (req : RequestInfo) (l : Option L)
      → pass_limiter given s next c req l ≡ limited c (req.ip ++ (b':' ∷ req.path)) req.ip l
  unfolding pass_limiter
  pass_limiter-limited c req none = refl
  pass_limiter-limited c req (some l) =
      let d : Context L = record c {
        limits = insert text_key c.limits (limit_key given s req) (some (given.allow l).1);
      } in
      elim (given.allow l).0
        as (λ b.
          (elim b as (λ _. Context L × Result) [
            | true ↦ next d
            | false ↦ (d, failed (given.too_many req.ip))
          ])
          ≡ (if b then next d else (d, failed (given.too_many req.ip)))) [
            | true ↦ refl
            | false ↦ refl
          ]

  -- How a request ends behind the lookup of its handler: where there is none, `Logger` puts an error
  -- with the path in place of the one with the URI that `Info` gives.
  abbrev pub routed : Context L → Context L × Result
  unfolding request_info make_limiter
  routed c =
      let req = request_info s c.incoming in
      elim req.handler [
        | none ↦ (c, failed (given.not_found c.incoming.escaped_path))
        | some h ↦
            limited (informed c) (req.ip ++ (b':' ∷ req.path)) req.ip
              (met given s (informed c) req h)
      ]

  found-sent :
      (c : Context L) (h : Handler)
      → Keeps next
      → c.response ≡ none
      → (request_info s c.incoming).handler ≡ some h
      → let req = request_info s c.incoming in
        (wrapped given s (throttle_middleware given s next (informed c))).sent
        ≡ reply given s (
            limited
              (informed c)
              (req.ip ++ (b':' ∷ req.path))
              req.ip
              (met given s (informed c) req h))
  unfolding informed
  found-sent c h k n f =
      let req = request_info s c.incoming in
      let l = met given s (informed c) req h in
      let p = pass_limiter given s next (informed c) req l in
      ap (λ q. (wrapped given s q).sent) (throttle-pass given s next (informed c) req h refl f)
      ∙ wrapped-sent given s p req h (pass_limiter-request given s next req l k (informed c)) f
          (pass_limiter-response given s next req l k (informed c) ∙ n)
      ∙ ap (reply given s) (pass_limiter-limited (informed c) req l)

  missing-sent :
      (c : Context L) (e : Failure)
      → c.request ≡ none
      → c.response ≡ none
      → (finish given s (with_recover given s (with_log given s (c, failed e)))).sent
        ≡ reply given s (c, failed (given.not_found c.incoming.escaped_path))
  missing-sent c e r n =
      let handled : RequestInfo → Context L × Result = λ req. elim req.handler [
        | none ↦ (c, failed (given.not_found c.incoming.escaped_path))
        | some h ↦ elim c.response [
          | none ↦ (c, failed given.no_response)
          | some resp ↦
              if h.poll then (c, failed e) else (record c { printed = c.printed + 1 }, failed e)
        ]
      ] in
      ap
        (λ (o : Option RequestInfo).
          (finish given s (
            with_recover given s (elim o as (λ _. Context L × Result) [
              | none ↦ (c, failed (given.not_found c.incoming.escaped_path))
              | some req ↦ handled req
            ]))).sent)
        r
      ∙ error_handler-none given s (given.not_found c.incoming.escaped_path) c n

  -- For a request that is new, and a handler that leaves what the context has of it alone: exactly
  -- what the handler or the limiter ends with is replied, or, where no handler is found, the error
  -- that Logger makes of it, with the path in place of the URI. An error, or the error that
  -- Recover makes of a panic's value, once and with its own status, unless the response has begun;
  -- else nothing but what the handler sent.
  pub serve-sent :
      (c : Context L)
      → Keeps next
      → c.request ≡ none
      → c.response ≡ none
      → (serve given s next c).sent ≡ reply given s (routed c)
  unfolding serve core_middlewares recover_middleware logger_middleware info_middleware
      error_middleware informed routed
  serve-sent c k r n = elim (Option-cases (request_info s c.incoming).handler) [
    | inl e ↦
        ap (λ o. (finish given s (with_recover given s (with_log given s (chosen c o)))).sent) e
        ∙ missing-sent c (given.not_found c.incoming.uri) r n
        ∙ sym (ap (λ o. reply given s (route c o)) e)
    | inr (h, e) ↦
        ap (λ o. (finish given s (with_recover given s (with_log given s (chosen c o)))).sent) e
        ∙ found-sent c h k n e
        ∙ sym (ap (λ o. reply given s (route c o)) e)
  ]
    where
      chosen : Context L → Option Handler → Context L × Result
      chosen c none = (c, failed (given.not_found c.incoming.uri))
      chosen c (some h) =
          with_response given s (with_error given s (throttle_middleware given s next (informed c)))

      route : Context L → Option Handler → Context L × Result
      route c none = (c, failed (given.not_found c.incoming.escaped_path))
      route c (some h) =
          let req = request_info s c.incoming in
          limited (informed c) (req.ip ++ (b':' ∷ req.path)) req.ip (met given s (informed c) req h)
