-- ===== src/Server/Routing/Served.antt =====
-- The routes that `installHandler` of pkg/services/api/server/manager.go adds for a handler.
use framingo.Prelude.{
  ◌≡◌, refl, sym, ap, subst, ◌∙◌, inl, inr, List, [], ◌∷◌, false, Option, none, some, if◌then◌else◌,
  Bool-cases, Outcome, ok, err, panics, ◌>>=◌, ℕ_discrete, arith,
}
use framingo.Prelude.Dicts.{lookup}
use framingo.Prelude.Text.{same_text-eq}
use framingo.Prelude.Paths.{slash, join_path, trim_last}
use framingo.Server.{
  Text, Handler, HandlerGroup, handler_key, new_handler_key, is_text, ws_method, any_method,
  get_method,
}
use framingo.Server.Routing.{
  ServerError, Route, Manager, Installed, Verb, only, any, verb_of, route_prefix, route_path,
  collect_middlewares,
}
use framingo.Server.Routing.Calls.{routes_of}

-- The requests that a route has to take for a method: a WebSocket opens with GET, and ANY takes all.
pub record Answers (method : Text) (verb : Verb) : Type 0 where
  pub socket : method ≡ ws_method → verb ≡ only get_method
  pub whole : method ≡ any_method → verb ≡ any
  pub plain : ¬ (method ≡ ws_method) → ¬ (method ≡ any_method) → verb ≡ only method

module _ {F W M : Type 0} where
  -- A route for a handler and its function: below the endpoint's path and the group's prefix.
  pub record IsRouteOf (endpoint : Text) (g : HandlerGroup) (h : Handler) (f : Installed F W)
      (r : Route F W M) : Type 0 where
    pub answers : Answers h.method r.verb
    pub below : r.prefix ≡ trim_last slash (join_path (endpoint ∷ g.prefix ∷ []))
    pub named : r.path ≡ trim_last slash h.path
    pub calls : r.handler ≡ f

  -- One route and no more.
  abbrev pub IsOnlyRoute :
      Text → HandlerGroup → Handler → Installed F W → List (Route F W M) → Type 0
  IsOnlyRoute endpoint g h f [] = ⊥
  IsOnlyRoute endpoint g h f (r ∷ []) = IsRouteOf endpoint g h f r
  IsOnlyRoute endpoint g h f (r ∷ q ∷ rs) = ⊥

verb_of-Answers : (method : Text) → Answers method (verb_of method)
unfolding ℕ_discrete
verb_of-Answers method = record {
  socket = λ e. ap verb_of e;
  whole = λ e. ap verb_of e;
  plain = λ socket whole.
      ap
        (λ b.
          if b then only get_method else (if is_text method any_method then any else only method))
        (other_text method ws_method socket)
      ∙ ap (λ b. if b then any else only method) (other_text method any_method whole);
}
  where
    other_text : (a b : Text) → ¬ (a ≡ b) → is_text a b ≡ false
    other_text a b ne = elim (Bool-cases (is_text a b)) [
      | inl p ↦ absurd (ne (same_text-eq ℕ_discrete a b p))
      | inr p ↦ p
    ]

module _ {F W M : Type 0} where
  pub routes_of-IsOnlyRoute :
      (m : Manager F W M) (endpoint : Text) (g : HandlerGroup) (h : Handler) (f : Installed F W)
      (rs : List (Route F W M))
      → lookup handler_key m.handler_funcs (new_handler_key g h) ≡ some f
      → routes_of m endpoint g h ≡ ok rs
      → IsOnlyRoute endpoint g h f rs
  unfolding routes_of route_prefix
  routes_of-IsOnlyRoute m endpoint g h f rs stored made =
      collected (collect_middlewares m.middleware_funcs h g) (sym (ap with_func stored) ∙ made)
    where
      route : List M → Route F W M
      route mws = record {
        verb = verb_of h.method;
        prefix = route_prefix endpoint g;
        path = route_path h;
        handler = f;
        middlewares = mws;
      }

      with_func : Option (Installed F W) → Outcome ServerError (List (Route F W M))
      with_func o = collect_middlewares m.middleware_funcs h g >>= λ mws. elim o [
        | none ↦ ok []
        | some hf ↦ ok (record (route mws) { handler = hf } ∷ [])
      ]

      collected :
          (c : Outcome ServerError (List M))
          → (c >>= λ mws. ok (route mws ∷ [])) ≡ ok rs
          → IsOnlyRoute endpoint g h f rs
      collected (ok mws) e =
          subst (IsOnlyRoute endpoint g h f)
            (ap
              (λ (o : Outcome ServerError (List (Route F W M))). elim o [
                | ok x ↦ x
                | err _ ↦ []
                | panics ↦ []
              ])
              e)
            record { answers = verb_of-Answers h.method; below = refl; named = refl; calls = refl }
      collected (err x) e = ground arith
      collected panics e = ground arith
