-- ===== src/Supervisor/Registry.antt =====
-- `Register` and `TopoSort` of pkg/services/supervisor: which services have statistics, and which
-- edges the dependencies give.
use framingo.Prelude.{
  ◌≡◌, refl, sym, subst, ap, ◌∙◌, ◌⊎◌, inl, inr, List, [], ◌∷◌, Option, none, some, if_pos, if_neg,
}
use framingo.Graph.{Graph, add_with}
use framingo.Graph.Reach.{Among, Among-append_cases}
use framingo.Graph.Build.{IsWellFormed}
use framingo.Graph.Nodes.{nodes-add_with_cases, add_with-IsWellFormed}
use framingo.Supervisor.{
  Env, Stats, Controller, new_stats, itself, put_stat, append_late, note_service, register,
  add_dependency,
}

abbrev pub HasStats : {N E : Type 0} → (N → Option (Stats E)) → N → Type 0
HasStats {E = E} stats n = (s : Stats E) × (stats n ≡ some s)

module _ {N E : Type 0} (env : Env N E) where
  -- The graph is well formed, and its nodes and the sorted services have statistics.
  pub record IsConsistent (c : Controller N E) : Type 0 where
    pub graph_valid : IsWellFormed env.dec itself c.graph
    pub nodes_known : (n : N) → Among itself c.graph.nodes n → HasStats c.stats n
    pub services_known : (n : N) → Among itself c.services n → HasStats c.stats n

  pub put_stat-HasStats :
      (stats : N → Option (Stats E)) (n k : N) (s : Stats E)
      → HasStats stats k
      → HasStats (put_stat env stats n s) k
  put_stat-HasStats stats n k s (t, e) = elim (env.dec n k) [
    | yes same ↦ (s, if_pos (env.dec n k) same (some s) (stats k))
    | no other ↦ (t, if_neg (env.dec n k) other (some s) (stats k) ∙ e)
  ]

  put_stat_self :
      (stats : N → Option (Stats E)) (n k : N) (s : Stats E)
      → n ≡ k
      → HasStats (put_stat env stats n s) k
  put_stat_self stats n k s same = (s, if_pos (env.dec n k) same (some s) (stats k))

  append_late-Among :
      (ss : List N) (n k : N) → Among itself (append_late env ss n) k → Among itself ss k ⊎ (n ≡ k)
  append_late-Among [] n k m = inl m
  append_late-Among (s ∷ ss) n k m = elim (Among-append_cases itself (s ∷ ss) (n ∷ []) k m) [
    | inl l ↦ inl l
    | inr (inl e) ↦ inr e
    | inr (inr none_left) ↦ absurd none_left
  ]

  -- What the first part of `register` keeps, and that the service has statistics after it.
  note_service-keeps :
      (c : Controller N E) (n k : N) (o : Option (Stats E))
      → HasStats c.stats k
      → HasStats (note_service env c n o).stats k
  note_service-keeps c n k (some s) h = h
  note_service-keeps c n k none h = put_stat-HasStats c.stats n k new_stats h

  note_service_self :
      (c : Controller N E) (n k : N) (o : Option (Stats E))
      → c.stats n ≡ o
      → n ≡ k
      → HasStats (note_service env c n o).stats k
  note_service_self c n k (some s) e same = (s, ap c.stats (sym same) ∙ e)
  note_service_self c n k none e same = put_stat_self c.stats n k new_stats same

  note_service-services :
      (c : Controller N E) (n k : N) (o : Option (Stats E))
      → Among itself (note_service env c n o).services k
      → Among itself c.services k ⊎ (n ≡ k)
  note_service-services c n k (some s) m = inl m
  note_service-services c n k none m = append_late-Among c.services n k m

  graph-note_service :
      (c : Controller N E) (n : N) (o : Option (Stats E)) → (note_service env c n o).graph ≡ c.graph
  graph-note_service c n (some s) = refl
  graph-note_service c n none = refl

  pub register-HasStats :
      (c : Controller N E) (n k : N)
      → HasStats c.stats k ⊎ (n ≡ k)
      → HasStats (register env c n).stats k
  unfolding register
  register-HasStats c n k (inl h) = note_service-keeps c n k (c.stats n) h
  register-HasStats c n k (inr same) = note_service_self c n k (c.stats n) refl same

  pub graph-register :
      (c : Controller N E) (n : N) → (register env c n).graph ≡ add_with env.dec itself c.graph n []
  unfolding register
  graph-register c n =
      ap (λ (g : Graph N N). add_with env.dec itself g n []) (graph-note_service c n (c.stats n))

  pub register-IsConsistent :
      (c : Controller N E) (n : N) → IsConsistent c → IsConsistent (register env c n)
  unfolding register
  register-IsConsistent c n s = record {
    graph_valid =
        subst (IsWellFormed env.dec itself) (sym (graph-register c n))
          (add_with-IsWellFormed env.dec itself c.graph n [] s.graph_valid);
    nodes_known = λ k m.
        register-HasStats c n k
          (elim (nodes-add_with_cases env.dec itself c.graph n [] k
            (subst (λ (g : Graph N N). Among itself g.nodes k) (graph-register c n) m)) [
              | inl old ↦ inl (s.nodes_known k old)
              | inr (inl e) ↦ inr e
              | inr (inr x) ↦ absurd x
            ]);
    services_known = λ k m.
        register-HasStats c n k (elim (note_service-services c n k (c.stats n) m) [
          | inl old ↦ inl (s.services_known k old)
          | inr e ↦ inr e
        ]);
  }

  pub add_dependency-IsConsistent :
      (c : Controller N E) (n d : N)
      → HasStats c.stats n
      → IsConsistent c
      → IsConsistent (add_dependency env c n d)
  unfolding add_dependency
  add_dependency-IsConsistent c n d h s =
      let t = register-IsConsistent c d s in
      record {
        graph_valid =
            add_with-IsWellFormed env.dec itself (register env c d).graph n (d ∷ []) t.graph_valid;
        nodes_known = λ k m.
            elim (nodes-add_with_cases env.dec itself (register env c d).graph n (d ∷ []) k m) [
              | inl old ↦ t.nodes_known k old
              | inr (inl e) ↦ register-HasStats c d k (inl (subst (HasStats c.stats) e h))
              | inr (inr (inl e)) ↦ register-HasStats c d k (inr e)
              | inr (inr (inr x)) ↦ absurd x
            ];
        services_known = t.services_known;
      }
