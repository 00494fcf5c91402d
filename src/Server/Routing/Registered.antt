-- ===== src/Server/Routing/Registered.antt =====
-- What the loops of `RegisterRouters` of pkg/services/api/server/manager.go leave to `Init`.
use framingo.Prelude.{
  ◌≡◌, refl, sym, subst, ◌∙◌, ◌⊎◌, inl, inr, List, [], ◌∷◌, ◌++◌, Outcome, ok, err, panics, All,
  All-map, map, some,
}
use framingo.Prelude.Dicts.Entries.{
  lookup-insert_self, lookup-insert_ne, IsUnique, All-insert, insert-IsUnique,
}
use framingo.Prelude.Dicts.{lookup}
use framingo.Server.{Text, HandlerKey, Handler, HandlerGroup, handler_key, new_handler_key}
use framingo.Server.Routing.{ServerError, Route, Server, Manager, Installed}
use framingo.Server.Routing.Served.{routes_of-IsOnlyRoute}
use framingo.Server.Routing.Calls.{routes_of, record_handler, install_handler, install_group}
use framingo.Server.Routing.Restart.{
  Member, Within-left, Within-right, Within-self, IsRouted, AllRouted, install_handler-made,
  install_handler-err, install_handler-panics,
}

module _ {F W M : Type 0} where
  -- A server kept under a name: its handlers have their routes, each key once, and the server of
  -- each key is the name.
  pub record IsWired (m : Manager F W M) (name : Text) (s : Server F W M) : Type 0 where
    pub routed : AllRouted m s s.routes s.handlers
    pub unique : IsUnique handler_key s.handlers
    pub owned : All (λ e. e.0.server ≡ name) s.handlers

  abbrev pub IsWiredIfOk :
      Manager F W M → Text → Server F W M × Outcome ServerError (Unit {0}) → Type 0
  IsWiredIfOk m name (s, ok _) = IsWired m name s
  IsWiredIfOk m name (s, err e) = Unit {0}
  IsWiredIfOk m name (s, panics) = Unit {0}

module _ {F W M : Type 0} where
  -- A function stands under the handler's key.
  abbrev pub Stored : Manager F W M → HandlerGroup → Handler → Type 0
  Stored m g h =
      (f : Installed F W) × (lookup handler_key m.handler_funcs (new_handler_key g h) ≡ some f)

module _ {F W M : Type 0} (m : Manager F W M) (g : HandlerGroup) where
  -- All but the handlers with some keys have their routes.
  abbrev pub RoutedBut : List HandlerKey → Server F W M → Type 0
  RoutedBut ks s = All (λ e. Member e.0 ks ⊎ IsRouted m s s.routes e.0 e.1) s.handlers

  abbrev with_routes : Server F W M → Handler → List (Route F W M) → Server F W M
  unfolding record_handler
  with_routes s h rs = record (record_handler s g h) { routes = s.routes ++ rs }

  abbrev own_keys : List Handler → List HandlerKey
  own_keys hs = map (new_handler_key g) hs

module _ {F W M : Type 0} (m : Manager F W M) (g : HandlerGroup) where
  other-IsRouted :
      (s : Server F W M) (h : Handler) (rs : List (Route F W M)) (key : HandlerKey) (w : Handler)
      → ¬ (key ≡ new_handler_key g h)
      → IsRouted m s s.routes key w
      → IsRouted m (with_routes m g s h rs) (s.routes ++ rs) key w
  unfolding record_handler
  other-IsRouted s h rs key w ne r = record {
    group = r.group;
    own = r.own;
    grouped = lookup-insert_ne handler_key s.groups (new_handler_key g h) key g ne ∙ r.grouped;
    keyed = r.keyed;
    func = r.func;
    stored = r.stored;
    served = r.served;
    made = r.made;
    installed = Within-left r.own s.routes rs r.installed;
  }

  new-IsRouted :
      (s : Server F W M) (h : Handler) (rs : List (Route F W M))
      → Stored m g h
      → routes_of m s.endpoint.path g h ≡ ok rs
      → IsRouted m (with_routes m g s h rs) (s.routes ++ rs) (new_handler_key g h) h
  unfolding record_handler
  new-IsRouted s h rs (f, stored) made = record {
    group = g;
    own = rs;
    grouped = lookup-insert_self handler_key s.groups (new_handler_key g h) g;
    keyed = refl;
    func = f;
    stored = stored;
    served = routes_of-IsOnlyRoute m s.endpoint.path g h f rs stored made;
    made = made;
    installed = Within-right rs s.routes rs (Within-self rs);
  }

  RoutedBut-with_routes :
      (s : Server F W M) (h : Handler) (ks : List HandlerKey) (rs : List (Route F W M))
      → Stored m g h
      → routes_of m s.endpoint.path g h ≡ ok rs
      → IsUnique handler_key s.handlers
      → RoutedBut m g (new_handler_key g h ∷ ks) s
      → RoutedBut m g ks (with_routes m g s h rs)
  unfolding record_handler
  RoutedBut-with_routes s h ks rs f made u r =
      All-insert handler_key
        (λ e. Member e.0 (new_handler_key g h ∷ ks) ⊎ IsRouted m s s.routes e.0 e.1)
        (λ e. Member e.0 ks ⊎ IsRouted m (with_routes m g s h rs) (s.routes ++ rs) e.0 e.1)
        s.handlers (new_handler_key g h) h u
        (λ j w ne e. elim e [
          | inl (inl same) ↦ absurd (ne same)
          | inl (inr later) ↦ inl later
          | inr now ↦ inr (other-IsRouted s h rs j w ne now)
        ])
        (inr (new-IsRouted s h rs f made)) r

  abbrev after :
      List Handler
      → Server F W M × Outcome ServerError (Unit {0})
      → Server F W M × Outcome ServerError (Unit {0})
  after hs (s, ok _) = install_group m s g hs
  after hs (s, err e) = (s, err e)
  after hs (s, panics) = (s, panics)

  install_handler-refused :
      (s : Server F W M) (h : Handler) (hs : List Handler)
      (c : Outcome ServerError (List (Route F W M)))
      → routes_of m s.endpoint.path g h ≡ c
      → ((rs : List (Route F W M))
          → c ≡ ok rs
          → IsWiredIfOk m g.server (install_group m (record s { routes = s.routes ++ rs }) g hs))
      → IsWiredIfOk m g.server (after hs (install_handler m s g h))
  install_handler-refused s h hs (ok rs) made next =
      subst (λ p. IsWiredIfOk m g.server (after hs p)) (sym (install_handler-made m s g h rs made))
        (next rs refl)
  install_handler-refused s h hs (err e) made next =
      subst (λ p. IsWiredIfOk m g.server (after hs p)) (sym (install_handler-err m s g h e made)) tt
  install_handler-refused s h hs panics made next =
      subst (λ p. IsWiredIfOk m g.server (after hs p)) (sym (install_handler-panics m s g h made))
        tt

module _ {F W M : Type 0} (m : Manager F W M) (g : HandlerGroup) where
  same_endpoint :
      (s : Server F W M) (h : Handler)
      → routes_of m (record_handler s g h).endpoint.path g h ≡ routes_of m s.endpoint.path g h
  unfolding record_handler
  same_endpoint s h = refl

  recorded-IsUnique :
      (s : Server F W M) (h : Handler)
      → IsUnique handler_key s.handlers
      → IsUnique handler_key (record_handler s g h).handlers
  unfolding record_handler
  recorded-IsUnique s h u = insert-IsUnique handler_key s.handlers (new_handler_key g h) h u

  recorded-owned :
      (s : Server F W M) (h : Handler)
      → IsUnique handler_key s.handlers
      → All (λ e. e.0.server ≡ g.server) s.handlers
      → All (λ e. e.0.server ≡ g.server) (record_handler s g h).handlers
  unfolding record_handler new_handler_key
  recorded-owned s h u o =
      All-insert handler_key (λ e. e.0.server ≡ g.server) (λ e. e.0.server ≡ g.server) s.handlers
        (new_handler_key g h) h u (λ j w ne e. e) refl o

  install_group-after :
      (s : Server F W M) (h : Handler) (hs : List Handler)
      → install_group m s g (h ∷ hs) ≡ after m g hs (install_handler m (record_handler s g h) g h)
  unfolding install_group
  install_group-after s h hs = after_cases (install_handler m (record_handler s g h) g h)
    where
      after_cases :
          (p : Server F W M × Outcome ServerError (Unit {0}))
          → elim p.1 as (λ _. Server F W M × Outcome ServerError (Unit {0})) [
            | ok _ ↦ install_group m p.0 g hs
            | err e ↦ (p.0, err e)
            | panics ↦ (p.0, panics)
          ]
            ≡ after m g hs p
      after_cases (t, ok _) = refl
      after_cases (t, err e) = refl
      after_cases (t, panics) = refl

  -- After the loop over a group's handlers none of them is left without its routes.
  pub install_group-IsWired :
      (s : Server F W M) (hs : List Handler)
      → IsUnique handler_key s.handlers
      → All (λ e. e.0.server ≡ g.server) s.handlers
      → All (λ h. Stored m g h) hs
      → RoutedBut m g (map (new_handler_key g) hs) s
      → IsWiredIfOk m g.server (install_group m s g hs)
  unfolding install_group new_handler_key with_routes record_handler
  install_group-IsWired s [] u o fs r = record {
    routed =
        All-map s.handlers (λ e c. elim c [ inl none_left ↦ absurd none_left | inr now ↦ now ]) r;
    unique = u;
    owned = o;
  }
  install_group-IsWired s (h ∷ hs) u o fs r =
      subst (IsWiredIfOk m g.server) (sym (install_group-after s h hs)) (
        install_handler-refused m g (record_handler s g h) h hs (routes_of m s.endpoint.path g h)
          (same_endpoint s h)
          (λ rs made.
            install_group-IsWired (with_routes m g s h rs) hs (recorded-IsUnique s h u)
              (recorded-owned s h u o) fs.1
              (RoutedBut-with_routes m g s h (map (new_handler_key g) hs) rs fs.0 made u r)))
