-- ===== src/Server/Routing/Paths.antt =====
-- The paths of the routes of pkg/services/api/server/manager.go, and the keys of their requests.
use framingo.Prelude.{
  ℕ, ◌≡◌, sym, ap, ◌∙◌, inl, inr, List, [], ◌∷◌, ◌++◌, Bool, true, false, All, All-append,
  append_assoc, ℕ_discrete, arith,
}
use framingo.Prelude.Text.{join}
use framingo.Prelude.Paths.{slash, join_path, trim_last, trim_prefix}
use framingo.Prelude.Paths.Plain.{
  IsPlain, path_of, path_of-cases, join_path-path_of, trim_last-path_of, trim_last-root,
  path_of-append, trim_prefix-append,
}
use framingo.Server.{Text, Handler, HandlerGroup, new_handler_key}
use framingo.Server.Matching.{request_key}
use framingo.Server.Routing.{route_prefix, route_path}

cons_nil : (c : ℕ) (cs : Text) → ¬ (c ∷ cs ≡ [])
cons_nil c cs h = ground (arith, h)

-- The prefix of the echo group is the parts of the endpoint and those of the group.
prefix-path_of :
    (es gs : List Text) (t : Bool)
    → All IsPlain es
    → All IsPlain gs
    → trim_last slash (join_path (path_of es false ∷ path_of gs t ∷ [])) ≡ path_of (es ++ gs) false
unfolding join_path
prefix-path_of [] gs t he hg = elim (path_of-cases gs t) [
  | inl (e, f) ↦
      ap (λ x. trim_last slash (join_path ([] ∷ x ∷ []))) e ∙ ap (λ x. path_of x false) (sym f)
  | inr (x, e) ↦
      ap (trim_last slash)
        (join_path-path_of [] gs false t he hg (λ none. absurd (cons_nil slash x (sym e ∙ none))))
      ∙ trim_last-root gs hg
]
prefix-path_of (s ∷ ss) gs t he hg =
    ap (trim_last slash) (
      join_path-path_of (s ∷ ss) gs false t he hg
        (λ none. absurd (cons_nil slash ((s ++ path_of ss false) ++ path_of gs t) none)))
    ∙ trim_last-root ((s ∷ ss) ++ gs) (All-append IsPlain (s ∷ ss) gs he hg)

root-path_of :
    (ps : List Text)
    → All IsPlain ps
    → join_path ((slash ∷ []) ∷ path_of ps false ∷ []) ≡ slash ∷ join ℕ_discrete slash ps
root-path_of ps h =
    join_path-path_of [] ps true false tt h (λ none. cons_nil slash (path_of ps false) none)

request_path :
    (es gs hs : List Text) (t u : Bool)
    → All IsPlain es
    → All IsPlain gs
    → All IsPlain hs
    → trim_prefix
        (trim_last slash (join_path (path_of es false ∷ path_of gs t ∷ []))
          ++ trim_last slash (path_of hs u))
        (path_of es false)
      ≡ path_of (gs ++ hs) false
request_path es gs hs t u he hg hh =
    ap (λ x. trim_prefix (x ++ trim_last slash (path_of hs u)) (path_of es false))
      (prefix-path_of es gs t he hg ∙ path_of-append es gs)
    ∙ ap (λ x. trim_prefix ((path_of es false ++ path_of gs false) ++ x) (path_of es false))
        (trim_last-path_of hs u hh)
    ∙ ap (λ x. trim_prefix x (path_of es false))
        (append_assoc (path_of es false) (path_of gs false) (path_of hs false))
    ∙ trim_prefix-append (path_of es false) (path_of gs false ++ path_of hs false)
    ∙ sym (path_of-append gs hs)

-- If the endpoint's path is made of plain parts and has no trailing slash, and the group's prefix
-- and the handler's path are made of plain parts and are not both empty: a request of any method,
-- whose raw path is that of the handler's route, has the key of the handler but for the method,
-- which is the request's. So it has the handler's key if its method is the handler's.
pub request_key-new_handler_key :
    (es gs hs : List Text) (t u : Bool) (g : HandlerGroup) (h : Handler) (method : Text)
    → All IsPlain es
    → All IsPlain gs
    → All IsPlain hs
    → g.prefix ≡ path_of gs t
    → h.path ≡ path_of hs u
    → ¬ (g.prefix ++ h.path ≡ [])
    → request_key g.server method
        (route_prefix (path_of es false) g ++ route_path h)
        (path_of es false)
      ≡ record (new_handler_key g h) { method = method }
unfolding request_key route_prefix new_handler_key
request_key-new_handler_key es gs hs t u g h method he hg hh eg eh full =
    rw (eg, eh)
      (ap (λ (p : Text). record { server = g.server; method = method; path = p })
        (ap (λ x. join_path ((slash ∷ []) ∷ x ∷ [])) (request_path es gs hs t u he hg hh)
          ∙ root-path_of (gs ++ hs) (All-append IsPlain gs hs hg hh)
          ∙ sym (join_path-path_of gs hs t u hg hh (λ none. full (rw (eg, eh) none)))))
