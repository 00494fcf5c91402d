-- ===== src/Server/Routing/Restart.antt =====
-- `Init` of pkg/services/api/server/manager.go, which builds the echo instances again.
use framingo.Prelude.{
  ◌≡◌, refl, sym, ap, subst, ◌∙◌, ◌⊎◌, inl, inr, List, [], ◌∷◌, ◌++◌, append-nil, append_assoc,
  Option, none, some, Outcome, ok, err, panics, All, All-append, All-map,
}
use framingo.Prelude.Dicts.{Dict, lookup}
use framingo.Server.{HandlerKey, Handler, HandlerGroup, handler_key, new_handler_key}
use framingo.Server.Routing.{ServerError, Route, Server, Manager, Installed}
use framingo.Server.Routing.Served.{IsOnlyRoute}
use framingo.Server.Routing.Calls.{routes_of, install_handler, install_entries, build_echo, rebuild}

abbrev pub Member : {A : Type 0} → A → List A → Type 0
Member a [] = ⊥
Member a (b ∷ bs) = (a ≡ b) ⊎ Member a bs

abbrev pub Within : {A : Type 0} → List A → List A → Type 0
Within xs ys = All (λ x. Member x ys) xs

module _ {A : Type 0} where
  Member-append_right : (xs ys : List A) (a : A) → Member a ys → Member a (xs ++ ys)
  Member-append_right [] ys a h = h
  Member-append_right (x ∷ xs) ys a h = inr (Member-append_right xs ys a h)

  pub Member-append_left : (xs ys : List A) (a : A) → Member a xs → Member a (xs ++ ys)
  Member-append_left [] ys a h = absurd h
  Member-append_left (x ∷ xs) ys a (inl h) = inl h
  Member-append_left (x ∷ xs) ys a (inr h) = inr (Member-append_left xs ys a h)

module _ {A : Type 0} where
  pub Within-left : (xs ys zs : List A) → Within xs ys → Within xs (ys ++ zs)
  Within-left xs ys zs h = All-map xs (λ a. Member-append_left ys zs a) h

  pub Within-right : (xs ys zs : List A) → Within xs zs → Within xs (ys ++ zs)
  Within-right xs ys zs h = All-map xs (λ a. Member-append_right ys zs a) h

module _ {A : Type 0} where
  pub Within-self : (xs : List A) → Within xs xs
  Within-self [] = tt
  Within-self (x ∷ xs) = (inl refl, Within-right xs (x ∷ []) xs (Within-self xs))

module _ {F W M : Type 0} where
  -- What a registered handler has: its group, its key, its function, and its one route on the echo
  -- instance.
  pub record IsRouted (m : Manager F W M) (s : Server F W M) (routes : List (Route F W M))
      (key : HandlerKey) (h : Handler) : Type 0 where
    pub group : HandlerGroup
    pub own : List (Route F W M)
    pub func : Installed F W
    pub stored : lookup handler_key m.handler_funcs key ≡ some func
    pub served : IsOnlyRoute s.endpoint.path group h func own
    pub grouped : lookup handler_key s.groups key ≡ some group
    pub keyed : new_handler_key group h ≡ key
    pub made : routes_of m s.endpoint.path group h ≡ ok own
    pub installed : Within own routes

  abbrev pub AllRouted :
      Manager F W M → Server F W M → List (Route F W M) → Dict HandlerKey Handler → Type 0
  AllRouted m s routes d = All (λ e. IsRouted m s routes e.0 e.1) d

  -- The routes of all entries, one after the other.
  abbrev all_routes :
      (m : Manager F W M) (s : Server F W M) (routes : List (Route F W M))
      → (d : Dict HandlerKey Handler) → AllRouted m s routes d
      → List (Route F W M)
  all_routes m s routes [] h = []
  all_routes m s routes (e ∷ d) h = h.0.own ++ all_routes m s routes d h.1

module _ {F W M : Type 0} (m : Manager F W M) (s : Server F W M) where
  abbrev installed_with :
      Outcome ServerError (List (Route F W M)) → Server F W M × Outcome ServerError (Unit {0})
  installed_with o = elim o [
    | ok rs ↦ (record s { routes = s.routes ++ rs }, ok tt)
    | err e ↦ (s, err e)
    | panics ↦ (s, panics)
  ]

  pub install_handler-made :
      (g : HandlerGroup) (h : Handler) (rs : List (Route F W M))
      → routes_of m s.endpoint.path g h ≡ ok rs
      → install_handler m s g h ≡ (record s { routes = s.routes ++ rs }, ok tt)
  unfolding install_handler
  install_handler-made g h rs made = ap installed_with made

  pub install_handler-err :
      (g : HandlerGroup) (h : Handler) (e : ServerError)
      → routes_of m s.endpoint.path g h ≡ err e
      → install_handler m s g h ≡ (s, err e)
  unfolding install_handler
  install_handler-err g h e made = ap installed_with made

  pub install_handler-panics :
      (g : HandlerGroup) (h : Handler)
      → routes_of m s.endpoint.path g h ≡ panics
      → install_handler m s g h ≡ (s, panics)
  unfolding install_handler
  install_handler-panics g h made = ap installed_with made

module _ {F W M : Type 0} (m : Manager F W M) (s : Server F W M) (routes : List (Route F W M)) where
  install_entries-all :
      (acc : List (Route F W M)) (d : Dict HandlerKey Handler) (h : AllRouted m s routes d)
      → install_entries m (record s { routes = acc }) d
        ≡ (record s { routes = acc ++ all_routes m s routes d h }, ok tt)
  unfolding install_entries
  install_entries-all acc [] h = ap (λ rs. (record s { routes = rs }, ok tt)) (sym (append-nil acc))
  install_entries-all acc ((key, handler) ∷ d) h =
      ap
        (λ (o : Option HandlerGroup).
          elim o as (λ _. Server F W M × Outcome ServerError (Unit {0})) [
            | none ↦ (record s { routes = acc }, panics)
            | some g ↦
                (let (t, r) = install_handler m (record s { routes = acc }) g handler in
                  elim r [
                    | ok _ ↦ install_entries m t d
                    | err e ↦ (t, err e)
                    | panics ↦ (t, panics)
                  ])
          ])
        h.0.grouped
      ∙ ap
          (λ (p : Server F W M × Outcome ServerError (Unit {0})).
            elim p.1 as (λ _. Server F W M × Outcome ServerError (Unit {0})) [
              | ok _ ↦ install_entries m p.0 d
              | err e ↦ (p.0, err e)
              | panics ↦ (p.0, panics)
            ])
          (install_handler-made m (record s { routes = acc }) h.0.group handler h.0.own h.0.made)
      ∙ install_entries-all (acc ++ h.0.own) d h.1
      ∙ ap (λ rs. (record s { routes = rs }, ok tt))
          (append_assoc acc h.0.own (all_routes m s routes d h.1))

  all_routes-Within :
      (d : Dict HandlerKey Handler) (h : AllRouted m s routes d)
      → Within (all_routes m s routes d h) routes
  all_routes-Within [] h = tt
  all_routes-Within (e ∷ d) h =
      All-append (λ r. Member r routes) h.0.own (all_routes m s routes d h.1) h.0.installed
        (all_routes-Within d h.1)

  AllRouted-all_routes :
      (before : List (Route F W M)) (d : Dict HandlerKey Handler) (h : AllRouted m s routes d)
      → AllRouted m s (before ++ all_routes m s routes d h) d
  AllRouted-all_routes before [] h = tt
  AllRouted-all_routes before (e ∷ d) h = (
    record {
      group = h.0.group;
      own = h.0.own;
      grouped = h.0.grouped;
      keyed = h.0.keyed;
      func = h.0.func;
      stored = h.0.stored;
      served = h.0.served;
      made = h.0.made;
      installed =
          Within-right h.0.own before (h.0.own ++ all_routes m s routes d h.1)
            (Within-left h.0.own h.0.own (all_routes m s routes d h.1) (Within-self h.0.own));
    },
    subst (λ rs. AllRouted m s rs d) (append_assoc before h.0.own (all_routes m s routes d h.1))
        (AllRouted-all_routes (before ++ h.0.own) d h.1),
  )

module _ {F W M : Type 0} where
  -- If every handler of a server has its routes, Init builds its echo instance again without an
  -- error, with no route that was not there before, and so that every handler has its routes again.
  pub rebuild-AllRouted :
      (m : Manager F W M) (s : Server F W M)
      → AllRouted m s s.routes s.handlers
      → (rebuild m s ≡ (record s { routes = (rebuild m s).0.routes }, ok tt))
        × Within (rebuild m s).0.routes s.routes
        × AllRouted m s (rebuild m s).0.routes s.handlers
  unfolding rebuild build_echo
  rebuild-AllRouted m s h =
      let whole = install_entries-all m s s.routes [] s.handlers h in
      let same = ap (λ (p : Server F W M × Outcome ServerError (Unit {0})). p.0.routes) whole in
      (
        whole ∙ ap (λ rs. (record s { routes = rs }, ok tt)) (sym same),
        subst (λ rs. Within rs s.routes) (sym same) (all_routes-Within m s s.routes s.handlers h),
        subst (λ rs. AllRouted m s rs s.handlers) (sym same)
            (AllRouted-all_routes m s s.routes [] s.handlers h),
      )
