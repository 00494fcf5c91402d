-- ===== src/Server/Routing/Wired.antt =====
-- `RegisterRouters` and `Init` of pkg/services/api/server/manager.go on all servers of a manager.
use framingo.Prelude.{
  ◌≡◌, refl, sym, ap, subst, ◌∙◌, ◌⊎◌, inl, inr, List, [], ◌∷◌, Option, none, some, Outcome, ok,
  err, panics, All, All-map, Bool, true, false, Bool-cases, map, if◌then◌else◌, if_cases, not-both,
  arith,
}
use framingo.Prelude.Dicts.{Dict, Keyed, lookup, insert, text_key}
use framingo.Prelude.Dicts.Entries.{IsUnique, All-insert, insert-IsUnique}
use framingo.Server.{Text, HandlerKey, Handler, HandlerGroup, handler_key, new_handler_key}
use framingo.Server.Routing.{ServerError, Server, Manager, is_blank, no_server}
use framingo.Server.Routing.Calls.{install_group, set_server, install_router}
use framingo.Server.Routing.Restart.{Member, IsRouted, AllRouted}
use framingo.Server.Routing.Registered.{
  Stored, IsWired, IsWiredIfOk, RoutedBut, install_group-IsWired,
}
use framingo.Server.Routing.Routers.{ChangesOnly, kept-IsRouted}

All-both :
    {A : Type 0} (P Q R : A → Type 0) (xs : List A)
    → ((a : A) → P a → Q a → R a)
    → All P xs
    → All Q xs
    → All R xs
All-both P Q R [] f p q = tt
All-both P Q R (x ∷ xs) f p q = (f x p.0 q.0, All-both P Q R xs f p.1 q.1)

Member-All : {A : Type 0} (P : A → Type 0) (xs : List A) (a : A) → All P xs → Member a xs → P a
Member-All P [] a h i = absurd i
Member-All P (x ∷ xs) a h (inl e) = subst P (sym e) h.0
Member-All P (x ∷ xs) a h (inr i) = Member-All P xs a h.1 i

some_eq : {A : Type 0} {a b : A} → some a ≡ some b → a ≡ b
some_eq {A} {a} h = ap (λ (o : Option A). elim o [ none ↦ a | some x ↦ x ]) h

module _ {K : Type 0} (key : Keyed K) where
  Member-cases : (k : K) (ks : List K) → Member k ks ⊎ (¬ Member k ks)
  Member-cases k [] = inr (λ i. i)
  Member-cases k (j ∷ ks) = elim (Bool-cases (key.same k j)) [
    | inl p ↦ inl (inl (key.same_eq k j p))
    | inr p ↦ elim (Member-cases k ks) [
      | inl i ↦ inl (inr i)
      | inr ne ↦ inr (λ i. elim i [
        | inl e ↦ not-both (key.same k j) p (ap (key.same k) (sym e) ∙ key.same_self k)
        | inr later ↦ ne later
      ])
    ]
  ]

  All-lookup :
      {V : Type 0} (P : K × V → Type 0) (d : Dict K V) (k : K) (v : V)
      → All P d
      → lookup key d k ≡ some v
      → P (k, v)
  All-lookup P [] k v h e = absurd (ground arith)
  All-lookup P ((j, w) ∷ d) k v h e = elim (Bool-cases (key.same j k)) [
    | inl p ↦
        subst P
          (ap (λ i. (i, w)) (key.same_eq j k p) ∙ ap (λ x. (k, x)) (some_eq (found true p ∙ e))) h.0
    | inr p ↦ All-lookup P d k v h.1 (found false p ∙ e)
  ]
    where
      found :
          (b : Bool)
          → key.same j k ≡ b
          → (if b then some w else lookup key d k) ≡ lookup key ((j, w) ∷ d) k
      found b q = ap (λ (c : Bool). if c then some w else lookup key d k) (sym q)

own_keys-server :
    (g : HandlerGroup) (hs : List Handler)
    → All (λ k. k.server ≡ g.server) (map (new_handler_key g) hs)
unfolding new_handler_key
own_keys-server g [] = tt
own_keys-server g (h ∷ hs) = (refl, own_keys-server g hs)

module _ {F W M : Type 0} where
  -- Every server is wired, and each name stands once.
  pub record AllWired (m : Manager F W M) : Type 0 where
    pub wired : All (λ e. IsWired m e.0 e.1) m.servers
    pub unique : IsUnique text_key m.servers

  abbrev pub AllWiredIfOk : Manager F W M × Outcome ServerError (Unit {0}) → Type 0
  AllWiredIfOk (m, ok _) = AllWired m
  AllWiredIfOk (m, err e) = Unit {0}
  AllWiredIfOk (m, panics) = Unit {0}

  kept-IsWired :
      (m n : Manager F W M) (ks : List HandlerKey) (name server : Text) (s : Server F W M)
      → ChangesOnly ks m n
      → All (λ k. k.server ≡ server) ks
      → ¬ (name ≡ server)
      → IsWired m name s
      → IsWired n name s
  kept-IsWired m n ks name server s c own other w = record {
    routed =
        All-both (λ e. e.0.server ≡ name) (λ e. IsRouted m s s.routes e.0 e.1)
          (λ e. IsRouted n s s.routes e.0 e.1) s.handlers
          (λ e at r.
            kept-IsRouted m n ks s e.0 e.1 c
              (λ i. other (sym at ∙ Member-All (λ k. k.server ≡ server) ks e.0 own i)) r)
          w.owned w.routed;
    unique = w.unique;
    owned = w.owned;
  }

  -- What is read of a manager to tell that a server is wired does not include its servers.
  pub IsWired-servers :
      (n : Manager F W M) (servers : Dict Text (Server F W M)) (name : Text) (s : Server F W M)
      → IsWired n name s
      → IsWired (record n { servers = servers }) name s
  IsWired-servers n servers name s w =
      let unchanged : ChangesOnly [] n (record n { servers = servers }) = record {
        middlewares = refl;
        others = λ k ne. refl;
      } in
      record {
        routed =
            All-map s.handlers
              (λ e r.
                kept-IsRouted n (record n { servers = servers }) [] s e.0 e.1 unchanged (λ i. i) r)
              w.routed;
        unique = w.unique;
        owned = w.owned;
      }

  kept-RoutedBut :
      (m n : Manager F W M) (ks : List HandlerKey) (g : HandlerGroup) (s : Server F W M)
      → ChangesOnly ks m n
      → AllRouted m s s.routes s.handlers
      → RoutedBut n g ks s
  kept-RoutedBut m n ks g s c r =
      All-map s.handlers
        (λ e now. elim (Member-cases handler_key e.0 ks) [
          | inl i ↦ inl i
          | inr ne ↦ inr (kept-IsRouted m n ks s e.0 e.1 c ne now)
        ])
        r

  -- A server put_method back under the name of its group.
  set_server-AllWired :
      (m n : Manager F W M) (ks : List HandlerKey) (name : Text)
      (p : Server F W M × Outcome ServerError (Unit {0}))
      → n.servers ≡ m.servers
      → ChangesOnly ks m n
      → All (λ k. k.server ≡ name) ks
      → AllWired m
      → IsWiredIfOk n name p
      → AllWiredIfOk (set_server n name p.0, p.1)
  unfolding set_server
  set_server-AllWired m n ks name (t, ok _) same c own w fresh =
      let after = record n { servers = insert text_key n.servers name t } in
      record {
        wired =
            All-insert text_key (λ e. IsWired m e.0 e.1) (λ e. IsWired after e.0 e.1) n.servers name
              t (subst (IsUnique text_key) (sym same) w.unique)
              (λ other s ne h.
                IsWired-servers n (insert text_key n.servers name t) other s
                  (kept-IsWired m n ks other name s c own ne h))
              (IsWired-servers n (insert text_key n.servers name t) name t fresh)
              (subst (All (λ e. IsWired m e.0 e.1)) (sym same) w.wired);
        unique =
            insert-IsUnique text_key n.servers name t
              (subst (IsUnique text_key) (sym same) w.unique);
      }
  set_server-AllWired m n ks name (t, err e) same c own w fresh = tt
  set_server-AllWired m n ks name (t, panics) same c own w fresh = tt

  pub install_router-AllWired :
      (m n : Manager F W M) (g : HandlerGroup)
      → n.servers ≡ m.servers
      → ChangesOnly (map (new_handler_key g) g.handlers) m n
      → All (λ h. Stored n g h) g.handlers
      → AllWired m
      → AllWiredIfOk (install_router n g)
  unfolding install_router
  install_router-AllWired m n g same c stored w =
      if_cases AllWiredIfOk (is_blank g.server) (λ _. tt)
        (λ _. at (lookup text_key n.servers g.server) refl)
    where
      at :
          (o : Option (Server F W M))
          → lookup text_key n.servers g.server ≡ o
          → AllWiredIfOk (elim o as (λ _. Manager F W M × Outcome ServerError (Unit {0})) [
            | none ↦ (n, err (no_server g.server))
            | some s ↦ let (t, r) = install_group n s g g.handlers in (set_server n g.server t, r)
          ])
      at none e = tt
      at (some s) e =
          let found : IsWired m g.server s =
            All-lookup text_key (λ e. IsWired m e.0 e.1) m.servers g.server s w.wired
              (ap (λ d. lookup text_key d g.server) (sym same) ∙ e) in
          set_server-AllWired m n (map (new_handler_key g) g.handlers) g.server
            (install_group n s g g.handlers) same c (own_keys-server g g.handlers) w
            (install_group-IsWired n g s g.handlers found.unique found.owned stored
              (kept-RoutedBut m n (map (new_handler_key g) g.handlers) g s c found.routed))
