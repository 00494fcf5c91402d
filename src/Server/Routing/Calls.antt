-- ===== src/Server/Routing/Calls.antt =====
-- The calls of pkg/services/api/server/manager.go that add servers, routers and middlewares, and `Init`.
use framingo.Prelude.{
  List, [], ◌∷◌, ◌++◌, Option, none, some, if◌then◌else◌, Outcome, ok, err, panics, ◌>>=◌,
}
use framingo.Prelude.Dicts.{text_key, Dict, lookup, insert}
use framingo.Server.{Text, HandlerKey, Handler, HandlerGroup, handler_key, new_handler_key}
use framingo.Server.Routing.{
  ServerError, no_endpoint, no_group, no_handlers, no_server_name, empty_config, bad_config,
  no_server, conflict, Func, Installed, Route, Server, Manager, Router, ServerOption, apply_options,
  is_blank, collect_middlewares, route_prefix, route_path, verb_of, check_handler, upper_method,
}

module _ {F W M : Type 0} where
  unfoldable pub new_manager : Manager F W M
  new_manager = record { servers = []; handler_funcs = []; middleware_funcs = [] }

  unfoldable pub add_server :
      Manager F W M → Text → List ServerOption → Manager F W M × Outcome ServerError (Unit {0})
  unfolding apply_options
  add_server m name opts =
      let draft = apply_options record { endpoint = none; throttle = none } opts in
      elim draft.endpoint [
        | none ↦ (m, err no_endpoint)
        | some e ↦ (
          record m {
            servers = insert text_key m.servers name record {
              name = name;
              endpoint = e;
              throttle = draft.throttle;
              routes = [];
              groups = [];
              handlers = [];
            };
          },
          ok tt,
        )
      ]

  unfoldable pub get_server : Manager F W M → Text → Outcome ServerError (Server F W M)
  get_server m name = elim (lookup text_key m.servers name) [
    | none ↦ err (no_server name)
    | some s ↦ ok s
  ]

  -- The routes that `installHandler` adds.
  unfoldable pub routes_of :
      Manager F W M → Text → HandlerGroup → Handler → Outcome ServerError (List (Route F W M))
  routes_of m endpoint g h = collect_middlewares m.middleware_funcs h g >>= λ mws.
      elim (lookup handler_key m.handler_funcs (new_handler_key g h)) [
        | none ↦ ok []
        | some hf ↦ ok (
            record {
              verb = verb_of h.method;
              prefix = route_prefix endpoint g;
              path = route_path h;
              handler = hf;
              middlewares = mws;
            }
            ∷ [])
      ]

  unfoldable pub install_handler :
      Manager F W M
      → Server F W M
      → HandlerGroup
      → Handler
      → Server F W M × Outcome ServerError (Unit {0})
  install_handler m s g h = elim (routes_of m s.endpoint.path g h) [
    | ok rs ↦ (record s { routes = s.routes ++ rs }, ok tt)
    | err e ↦ (s, err e)
    | panics ↦ (s, panics)
  ]

  unfoldable pub record_handler : Server F W M → HandlerGroup → Handler → Server F W M
  record_handler s g h =
      let key = new_handler_key g h in
      record s {
        groups = insert handler_key s.groups key g;
        handlers = insert handler_key s.handlers key h;
      }

  -- The inner loop of `RegisterRouters`.
  unfoldable pub install_group :
      Manager F W M
      → Server F W M
      → HandlerGroup
      → List Handler
      → Server F W M × Outcome ServerError (Unit {0})
  install_group m s g [] = (s, ok tt)
  install_group m s g (h ∷ hs) =
      let (t, r) = install_handler m (record_handler s g h) g h in
      elim r [ ok _ ↦ install_group m t g hs | err e ↦ (t, err e) | panics ↦ (t, panics) ]

  unfoldable pub set_func : Manager F W M → HandlerKey → Installed F W → Manager F W M
  set_func m key f = record m { handler_funcs = insert handler_key m.handler_funcs key f }

  -- The loop of `registerRouter`; it gives the handlers with their methods in upper case.
  unfoldable pub register_handlers :
      Manager F W M
      → HandlerGroup
      → Dict Text (Func F W)
      → List Handler
      → Manager F W M × Outcome ServerError (List Handler)
  register_handlers m g fns [] = (m, ok [])
  register_handlers m g fns (h ∷ hs) = elim (check_handler fns (upper_method h)) [
    | ok f ↦
        let (n, r) =
          register_handlers (set_func m (new_handler_key g (upper_method h)) f) g fns hs in
        (n, r >>= λ rest. ok (upper_method h ∷ rest))
    | err e ↦ (m, err e)
    | panics ↦ (m, panics)
  ]

  -- A configuration that YAML refuses is none, an empty one some none.
  unfoldable pub register_router :
      (Text → Option (Option HandlerGroup))
      → Manager F W M
      → Router F W
      → Manager F W M × Outcome ServerError HandlerGroup
  register_router unmarshal m router =
      if is_blank router.config
      then (m, err (empty_config router.name))
      else (elim (unmarshal router.config) [
        | none ↦ (m, err (bad_config router.name))
        | some none ↦ (m, err no_group)
        | some (some g) ↦ elim router.handlers [
          | none ↦ (m, err no_handlers)
          | some fns ↦
              let (n, r) = register_handlers m g fns g.handlers in
              (n, r >>= λ hs. ok (record g { handlers = hs }))
        ]
      ])

  unfoldable pub set_server : Manager F W M → Text → Server F W M → Manager F W M
  set_server m name s = record m { servers = insert text_key m.servers name s }

  -- A step of the outer loop of `RegisterRouters`, once the router is registered.
  unfoldable pub install_router :
      Manager F W M → HandlerGroup → Manager F W M × Outcome ServerError (Unit {0})
  install_router m g =
      if is_blank g.server
      then (m, err no_server_name)
      else (elim (lookup text_key m.servers g.server) [
        | none ↦ (m, err (no_server g.server))
        | some s ↦ let (t, r) = install_group m s g g.handlers in (set_server m g.server t, r)
      ])

  unfoldable pub register_routers :
      (Text → Option (Option HandlerGroup))
      → Manager F W M
      → List (Router F W)
      → Manager F W M × Outcome ServerError (Unit {0})
  register_routers unmarshal m [] = (m, ok tt)
  register_routers unmarshal m (router ∷ routers) =
      let (n, r) = register_router unmarshal m router in
      elim r [
        | err e ↦ (n, err e)
        | panics ↦ (n, panics)
        | ok g ↦
            let (p, q) = install_router n g in
            elim q [
              | ok _ ↦ register_routers unmarshal p routers
              | err e ↦ (p, err e)
              | panics ↦ (p, panics)
            ]
      ]

  -- Each middleware with its name.
  unfoldable pub register_middlewares :
      Manager F W M → List (Text × M) → Manager F W M × Outcome ServerError (Unit {0})
  register_middlewares m [] = (m, ok tt)
  register_middlewares m ((name, mw) ∷ mws) = elim (lookup text_key m.middleware_funcs name) [
    | some _ ↦ (m, err (conflict name))
    | none ↦
        register_middlewares
          record m { middleware_funcs = insert text_key m.middleware_funcs name mw } mws
  ]

  -- The inner loop of `Init`. A handler without a group is a nil that is read.
  unfoldable pub install_entries :
      Manager F W M
      → Server F W M
      → Dict HandlerKey Handler
      → Server F W M × Outcome ServerError (Unit {0})
  install_entries m s [] = (s, ok tt)
  install_entries m s ((key, h) ∷ entries) = elim (lookup handler_key s.groups key) [
    | none ↦ (s, panics)
    | some g ↦
        let (t, r) = install_handler m s g h in
        elim r [ ok _ ↦ install_entries m t entries | err e ↦ (t, err e) | panics ↦ (t, panics) ]
  ]

  unfoldable pub build_echo : Server F W M → Server F W M
  build_echo s = record s { routes = [] }

  -- `Init` on one server.
  unfoldable pub rebuild :
      Manager F W M → Server F W M → Server F W M × Outcome ServerError (Unit {0})
  rebuild m s = install_entries m (build_echo s) s.handlers

  -- `Init`, on the servers from an entry on.
  unfoldable pub init_servers :
      Manager F W M
      → Dict Text (Server F W M)
      → Dict Text (Server F W M) × Outcome ServerError (Unit {0})
  init_servers m [] = ([], ok tt)
  init_servers m ((name, s) ∷ servers) =
      let (t, r) = rebuild m s in
      elim r [
        | ok _ ↦ (let (us, q) = init_servers m servers in ((name, t) ∷ us, q))
        | err e ↦ ((name, t) ∷ servers, err e)
        | panics ↦ ((name, t) ∷ servers, panics)
      ]

  unfoldable pub init : Manager F W M → Manager F W M × Outcome ServerError (Unit {0})
  init m = let (servers, r) = init_servers m m.servers in (record m { servers = servers }, r)
