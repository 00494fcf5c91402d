-- ===== src/Server/Routing/Routers.antt =====
-- `RegisterRouters` of pkg/services/api/server/manager.go, and `Init` after it.
use framingo.Prelude.{
  ◌≡◌, refl, sym, ap, subst, ◌∙◌, inl, inr, List, [], ◌∷◌, Option, none, some, Outcome, ok, err,
  panics, map, if_cases, ◌>>=◌, All, All-map, Bool-cases, if◌then◌else◌,
}
use framingo.Prelude.Dicts.{Dict, lookup, lookup-insert}
use framingo.Prelude.Dicts.Entries.{lookup-insert_self, lookup-insert_ne}
use framingo.Server.{Text, HandlerKey, Handler, HandlerGroup, handler_key, new_handler_key}
use framingo.Server.Routing.{
  ServerError, Server, Manager, Router, Func, Installed, is_blank, check_handler, upper_method,
  bad_config, no_group, no_handlers,
}
use framingo.Server.Routing.Calls.{routes_of, set_func, register_handlers, register_router}
use framingo.Server.Routing.Restart.{Member, IsRouted}
use framingo.Server.Routing.Registered.{Stored}

abbrev group_keys : HandlerGroup → List Handler → List HandlerKey
group_keys g hs = map (λ h. new_handler_key g (upper_method h)) hs

module _ {F W M : Type 0} where
  -- Nothing but the functions of some keys has changed.
  pub record ChangesOnly (ks : List HandlerKey) (m n : Manager F W M) : Type 0 where
    pub middlewares : n.middleware_funcs ≡ m.middleware_funcs
    pub others :
        (k : HandlerKey)
        → ¬ Member k ks
        → lookup handler_key n.handler_funcs k ≡ lookup handler_key m.handler_funcs k

  ChangesOnly-refl : (ks : List HandlerKey) (m : Manager F W M) → ChangesOnly ks m m
  ChangesOnly-refl ks m = record { middlewares = refl; others = λ k ne. refl }

  ChangesOnly-set_func :
      (m n : Manager F W M) (k : HandlerKey) (ks : List HandlerKey) (f : Installed F W)
      → ChangesOnly ks (set_func m k f) n
      → ChangesOnly (k ∷ ks) m n
  unfolding set_func
  ChangesOnly-set_func m n k ks f c = record {
    middlewares = c.middlewares;
    others = λ j ne.
        c.others j (λ later. ne (inr later))
        ∙ lookup-insert_ne handler_key m.handler_funcs k j f (λ same. ne (inl same));
  }

  register_handlers-ChangesOnly :
      (m : Manager F W M) (g : HandlerGroup) (fns : Dict Text (Func F W)) (hs : List Handler)
      → ChangesOnly (group_keys g hs) m (register_handlers m g fns hs).0
  unfolding register_handlers
  register_handlers-ChangesOnly m g fns [] = ChangesOnly-refl [] m
  register_handlers-ChangesOnly m g fns (h ∷ hs) =
      elim (check_handler fns (upper_method h))
        as (λ c.
          ChangesOnly (group_keys g (h ∷ hs)) m
            (elim c as (λ _. Manager F W M × Outcome ServerError (List Handler)) [
              | ok f ↦
                  let (n, r) =
                    register_handlers (set_func m (new_handler_key g (upper_method h)) f) g fns
                      hs in
                  (n, r >>= λ rest. ok (upper_method h ∷ rest))
              | err e ↦ (m, err e)
              | panics ↦ (m, panics)
            ]).0) [
              | ok f ↦
                  ChangesOnly-set_func m
                    (register_handlers (set_func m (new_handler_key g (upper_method h)) f) g fns
                      hs).0
                    (new_handler_key g (upper_method h)) (group_keys g hs) f
                    (register_handlers-ChangesOnly
                      (set_func m (new_handler_key g (upper_method h)) f) g fns hs)
              | err e ↦ ChangesOnly-refl (group_keys g (h ∷ hs)) m
              | panics ↦ ChangesOnly-refl (group_keys g (h ∷ hs)) m
            ]

  abbrev UpperIfOk : List Handler → Manager F W M × Outcome ServerError (List Handler) → Type 0
  UpperIfOk hs (n, ok us) = us ≡ map upper_method hs
  UpperIfOk hs (n, err e) = Unit {0}
  UpperIfOk hs (n, panics) = Unit {0}

  Upper-cons :
      (h : Handler) (hs : List Handler) (p : Manager F W M × Outcome ServerError (List Handler))
      → UpperIfOk hs p
      → UpperIfOk (h ∷ hs) (p.0, p.1 >>= λ rest. ok (upper_method h ∷ rest))
  Upper-cons h hs (n, ok us) e = ap (λ l. upper_method h ∷ l) e
  Upper-cons h hs (n, err _) e = tt
  Upper-cons h hs (n, panics) e = tt

  register_handlers-upper :
      (m : Manager F W M) (g : HandlerGroup) (fns : Dict Text (Func F W)) (hs : List Handler)
      → UpperIfOk hs (register_handlers m g fns hs)
  unfolding register_handlers
  register_handlers-upper m g fns [] = refl
  register_handlers-upper m g fns (h ∷ hs) =
      elim (check_handler fns (upper_method h))
        as (λ c.
          UpperIfOk (h ∷ hs) (elim c as (λ _. Manager F W M × Outcome ServerError (List Handler)) [
            | ok f ↦
                let (n, r) =
                  register_handlers (set_func m (new_handler_key g (upper_method h)) f) g fns hs in
                (n, r >>= λ rest. ok (upper_method h ∷ rest))
            | err e ↦ (m, err e)
            | panics ↦ (m, panics)
          ])) [
            | ok f ↦
                Upper-cons h hs
                  (register_handlers (set_func m (new_handler_key g (upper_method h)) f) g fns hs)
                  (register_handlers-upper (set_func m (new_handler_key g (upper_method h)) f) g fns
                    hs)
            | err e ↦ tt
            | panics ↦ tt
          ]

  -- Whether a key has a function.
  abbrev Has : Manager F W M → HandlerKey → Type 0
  Has m k = (f : Installed F W) × (lookup handler_key m.handler_funcs k ≡ some f)

  set_func-Has :
      (m : Manager F W M) (k j : HandlerKey) (f : Installed F W) → Has m j → Has (set_func m k f) j
  unfolding set_func
  set_func-Has m k j f (w, e) = elim (Bool-cases (handler_key.same k j)) [
    | inl p ↦ (
      f,
      lookup-insert handler_key m.handler_funcs k j f
          ∙ ap (λ b. if b then some f else lookup handler_key m.handler_funcs j) p,
    )
    | inr p ↦ (
      w,
      lookup-insert handler_key m.handler_funcs k j f
          ∙ ap (λ b. if b then some f else lookup handler_key m.handler_funcs j) p
          ∙ e,
    )
  ]

  register_handlers-Has :
      (m : Manager F W M) (g : HandlerGroup) (fns : Dict Text (Func F W)) (hs : List Handler)
      (k : HandlerKey)
      → Has m k
      → Has (register_handlers m g fns hs).0 k
  unfolding register_handlers
  register_handlers-Has m g fns [] k h = h
  register_handlers-Has m g fns (x ∷ hs) k h =
      elim (check_handler fns (upper_method x))
        as (λ c.
          Has
            (elim c as (λ _. Manager F W M × Outcome ServerError (List Handler)) [
              | ok f ↦
                  let (n, r) =
                    register_handlers (set_func m (new_handler_key g (upper_method x)) f) g fns
                      hs in
                  (n, r >>= λ rest. ok (upper_method x ∷ rest))
              | err e ↦ (m, err e)
              | panics ↦ (m, panics)
            ]).0
            k) [
              | ok f ↦
                  register_handlers-Has (set_func m (new_handler_key g (upper_method x)) f) g fns hs
                    k (set_func-Has m (new_handler_key g (upper_method x)) k f h)
              | err e ↦ h
              | panics ↦ h
            ]

  abbrev StoredIfOk : HandlerGroup → Manager F W M × Outcome ServerError (List Handler) → Type 0
  StoredIfOk g (n, ok us) = All (λ u. Stored n g u) us
  StoredIfOk g (n, err e) = Unit {0}
  StoredIfOk g (n, panics) = Unit {0}

  Stored-cons :
      (g : HandlerGroup) (u : Handler) (p : Manager F W M × Outcome ServerError (List Handler))
      → Stored p.0 g u
      → StoredIfOk g p
      → StoredIfOk g (p.0, p.1 >>= λ rest. ok (u ∷ rest))
  Stored-cons g u (n, ok us) f s = (f, s)
  Stored-cons g u (n, err e) f s = tt
  Stored-cons g u (n, panics) f s = tt

  -- A function is stored for each handler of a router that is registered.
  register_handlers-stored :
      (m : Manager F W M) (g : HandlerGroup) (fns : Dict Text (Func F W)) (hs : List Handler)
      → StoredIfOk g (register_handlers m g fns hs)
  unfolding register_handlers set_func
  register_handlers-stored m g fns [] = tt
  register_handlers-stored m g fns (x ∷ hs) =
      elim (check_handler fns (upper_method x))
        as (λ c. StoredIfOk g (elim c as (λ _. Manager F W M × Outcome ServerError (List Handler)) [
          | ok f ↦
              let (n, r) =
                register_handlers (set_func m (new_handler_key g (upper_method x)) f) g fns hs in
              (n, r >>= λ rest. ok (upper_method x ∷ rest))
          | err e ↦ (m, err e)
          | panics ↦ (m, panics)
        ])) [
          | ok f ↦
              let k = new_handler_key g (upper_method x) in
              Stored-cons g (upper_method x) (register_handlers (set_func m k f) g fns hs)
                (register_handlers-Has (set_func m k f) g fns hs k
                  (f, lookup-insert_self handler_key m.handler_funcs k f))
                (register_handlers-stored (set_func m k f) g fns hs)
          | err e ↦ tt
          | panics ↦ tt
        ]

  -- A router that is registered changes the functions of its own keys only, and has one for each.
  abbrev pub RegisteredIfOk :
      Manager F W M → Manager F W M × Outcome ServerError HandlerGroup → Type 0
  RegisteredIfOk m (n, ok g) =
      (n.servers ≡ m.servers)
      × ChangesOnly (map (new_handler_key g) g.handlers) m n
      × All (λ h. Stored n g h) g.handlers
  RegisteredIfOk m (n, err e) = Unit {0}
  RegisteredIfOk m (n, panics) = Unit {0}

  register_handlers-servers :
      (m : Manager F W M) (g : HandlerGroup) (fns : Dict Text (Func F W)) (hs : List Handler)
      → (register_handlers m g fns hs).0.servers ≡ m.servers
  unfolding register_handlers set_func
  register_handlers-servers m g fns [] = refl
  register_handlers-servers m g fns (h ∷ hs) =
      elim (check_handler fns (upper_method h))
        as (λ c.
          (elim c as (λ _. Manager F W M × Outcome ServerError (List Handler)) [
            | ok f ↦
                let (n, r) =
                  register_handlers (set_func m (new_handler_key g (upper_method h)) f) g fns hs in
                (n, r >>= λ rest. ok (upper_method h ∷ rest))
            | err e ↦ (m, err e)
            | panics ↦ (m, panics)
          ]).0.servers
          ≡ m.servers) [
            | ok f ↦
                register_handlers-servers (set_func m (new_handler_key g (upper_method h)) f) g fns
                  hs
            | err e ↦ refl
            | panics ↦ refl
          ]

own_keys-map :
    (g : HandlerGroup) (hs : List Handler)
    → map (new_handler_key g) (map upper_method hs) ≡ group_keys g hs
own_keys-map g [] = refl
own_keys-map g (h ∷ hs) = ap (λ l. new_handler_key g (upper_method h) ∷ l) (own_keys-map g hs)

same_keys :
    (g : HandlerGroup) (us hs : List Handler)
    → us ≡ map upper_method hs
    → map (new_handler_key record g { handlers = us }) us ≡ group_keys g hs
unfolding new_handler_key
same_keys g us hs e = ap (map (new_handler_key g)) e ∙ own_keys-map g hs

module _ {F W M : Type 0} where
  registered-if_ok :
      (m : Manager F W M) (g : HandlerGroup) (hs : List Handler)
      (p : Manager F W M × Outcome ServerError (List Handler))
      → p.0.servers ≡ m.servers
      → ChangesOnly (group_keys g hs) m p.0
      → UpperIfOk hs p
      → StoredIfOk g p
      → RegisteredIfOk m (p.0, p.1 >>= λ us. ok (record g { handlers = us }))
  unfolding new_handler_key
  registered-if_ok m g hs (n, ok us) s c u f =
      (s, subst (λ ks. ChangesOnly ks m n) (sym (same_keys g us hs u)) c, All-map us (λ h x. x) f)
  registered-if_ok m g hs (n, err e) s c u f = tt
  registered-if_ok m g hs (n, panics) s c u f = tt

  pub register_router-if_ok :
      (unmarshal : Text → Option (Option HandlerGroup)) (m : Manager F W M) (router : Router F W)
      → RegisteredIfOk m (register_router unmarshal m router)
  unfolding register_router
  register_router-if_ok unmarshal m router =
      if_cases (λ (p : Manager F W M × Outcome ServerError HandlerGroup). RegisteredIfOk m p)
        (is_blank router.config) (λ _. tt) (λ _. parsed (unmarshal router.config) router.handlers)
    where
      parsed :
          (o : Option (Option HandlerGroup)) (fns : Option (Dict Text (Func F W)))
          → RegisteredIfOk m (elim o as (λ _. Manager F W M × Outcome ServerError HandlerGroup) [
            | none ↦ (m, err (bad_config router.name))
            | some none ↦ (m, err no_group)
            | some (some g) ↦ elim fns [
              | none ↦ (m, err no_handlers)
              | some fns ↦
                  let (n, r) = register_handlers m g fns g.handlers in
                  (n, r >>= λ hs. ok (record g { handlers = hs }))
            ]
          ])
      parsed none fns = tt
      parsed (some none) fns = tt
      parsed (some (some g)) none = tt
      parsed (some (some g)) (some fns) =
          registered-if_ok m g g.handlers (register_handlers m g fns g.handlers)
            (register_handlers-servers m g fns g.handlers)
            (register_handlers-ChangesOnly m g fns g.handlers)
            (register_handlers-upper m g fns g.handlers)
            (register_handlers-stored m g fns g.handlers)

  same_routes :
      (m n : Manager F W M) (endpoint : Text) (g : HandlerGroup) (h : Handler)
      → n.middleware_funcs ≡ m.middleware_funcs
      → lookup handler_key n.handler_funcs (new_handler_key g h)
        ≡ lookup handler_key m.handler_funcs (new_handler_key g h)
      → routes_of n endpoint g h ≡ routes_of m endpoint g h
  unfolding routes_of
  same_routes m n endpoint g h mws fns = rw (mws, fns) refl

  -- The routes of a handler whose function has not changed.
  pub kept-IsRouted :
      (m n : Manager F W M) (ks : List HandlerKey) (s : Server F W M) (key : HandlerKey)
      (h : Handler)
      → ChangesOnly ks m n
      → ¬ Member key ks
      → IsRouted m s s.routes key h
      → IsRouted n s s.routes key h
  kept-IsRouted m n ks s key h c ne r = record {
    group = r.group;
    own = r.own;
    grouped = r.grouped;
    keyed = r.keyed;
    func = r.func;
    stored = c.others key ne ∙ r.stored;
    served = r.served;
    made =
        same_routes m n s.endpoint.path r.group h c.middlewares
          (c.others (new_handler_key r.group h) (λ i. ne (subst (λ k. Member k ks) r.keyed i)))
        ∙ r.made;
    installed = r.installed;
  }
