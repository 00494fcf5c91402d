-- ===== src/Server/Pipeline/Limits.antt =====
-- The limiters of a request in pkg/services/api/server/middlewares.go: `Throttle` with a handler that
-- leaves the request and the response of the context alone.
use framingo.Prelude.{◌≡◌, refl, ap, ◌∙◌, true, false, Option, none, some}
use framingo.Prelude.Dicts.{lookup, insert, text_key}
use framingo.Server.{Handler}
use framingo.Server.Pipeline.{
  RequestInfo, Context, failed, panicked, Result, HandlerFunc, Given, Serving, make_limiter,
  limit_key, pass_limiter, throttle_middleware,
}

module _ {L : Type 0} where
  -- The request and the response that a handler finds in the context stand there when it returns.
  pub record Keeps (next : HandlerFunc L) : Type 0 where
    pub request : (c : Context L) → (next c).0.request ≡ c.request
    pub response : (c : Context L) → (next c).0.response ≡ c.response

module _ {L : Type 0} (given : Given L) (s : Serving) where
  pub pass_limiter-request :
      (next : HandlerFunc L) (req : RequestInfo) (l : Option L)
      → Keeps next
      → (c : Context L) → (pass_limiter given s next c req l).0.request ≡ c.request
  unfolding pass_limiter
  pass_limiter-request next req none k c =
      k.request record c { limits = insert text_key c.limits (limit_key given s req) none }
  pass_limiter-request next req (some l) k c =
      let d : Context L = record c {
        limits = insert text_key c.limits (limit_key given s req) (some (given.allow l).1);
      } in
      elim (given.allow l).0
        as (λ b.
          (elim b as (λ _. Context L × Result) [
            | true ↦ next d
            | false ↦ (d, failed (given.too_many req.ip))
          ]).0.request
          ≡ c.request) [ true ↦ k.request d | false ↦ refl ]

  pub pass_limiter-response :
      (next : HandlerFunc L) (req : RequestInfo) (l : Option L)
      → Keeps next
      → (c : Context L) → (pass_limiter given s next c req l).0.response ≡ c.response
  unfolding pass_limiter
  pass_limiter-response next req none k c =
      k.response record c { limits = insert text_key c.limits (limit_key given s req) none }
  pass_limiter-response next req (some l) k c =
      let d : Context L = record c {
        limits = insert text_key c.limits (limit_key given s req) (some (given.allow l).1);
      } in
      elim (given.allow l).0
        as (λ b.
          (elim b as (λ _. Context L × Result) [
            | true ↦ next d
            | false ↦ (d, failed (given.too_many req.ip))
          ]).0.response
          ≡ c.response) [ true ↦ k.response d | false ↦ refl ]

  -- The limiter that a request of a handler meets, and the one that stands from then on.
  abbrev pub met : Context L → RequestInfo → Handler → Option L
  met c req h = elim (lookup text_key c.limits (limit_key given s req)) [
    | some l ↦ l
    | none ↦ make_limiter given s h
  ]

  pub throttle-pass :
      (next : HandlerFunc L) (c : Context L) (req : RequestInfo) (h : Handler)
      → c.request ≡ some req
      → req.handler ≡ some h
      → throttle_middleware given s next c ≡ pass_limiter given s next c req (met c req h)
  unfolding throttle_middleware
  throttle-pass next c req h r f =
      ap
        (λ (o : Option RequestInfo). elim o as (λ _. Context L × Result) [
          | none ↦ (c, failed (given.not_found c.incoming.uri))
          | some q ↦ elim (lookup text_key c.limits (limit_key given s q)) [
            | some limiter ↦ pass_limiter given s next c q limiter
            | none ↦ elim q.handler [
              | none ↦ (c, panicked given.nil_read)
              | some g ↦ pass_limiter given s next c q (make_limiter given s g)
            ]
          ]
        ])
        r
      ∙ elim (lookup text_key c.limits (limit_key given s req))
          as (λ o.
            elim o as (λ _. Context L × Result) [
              | some limiter ↦ pass_limiter given s next c req limiter
              | none ↦ elim req.handler [
                | none ↦ (c, panicked given.nil_read)
                | some g ↦ pass_limiter given s next c req (make_limiter given s g)
              ]
            ]
            ≡ pass_limiter given s next c req
                (elim o [ some l ↦ l | none ↦ make_limiter given s h ])) [
                  | some l ↦ refl
                  | none ↦
                      ap
                        (λ (o : Option Handler). elim o as (λ _. Context L × Result) [
                          | none ↦ (c, panicked given.nil_read)
                          | some g ↦ pass_limiter given s next c req (make_limiter given s g)
                        ])
                        f
                ]
