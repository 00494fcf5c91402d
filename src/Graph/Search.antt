-- ===== src/Graph/Search.antt =====
-- What `dfs` and its loops give in pkg/structs/graph/graph.go, and what a `true` from them means.
use framingo.Prelude.{
  ℕ, zero, suc, ◌≤◌, ◌≡◌, refl, sym, subst, ◌∙◌, ◌⊎◌, inl, inr, List, [], ◌∷◌, Bool, true, false,
  Option, some, arith, Bool-cases, not-both,
}
use framingo.Prelude.Sets.{has, add, has-add}
use framingo.Graph.Reach.{Among, Reach, one, more, HasCycle}
use framingo.Graph.Finished.{unseen, unseen-le}
use framingo.Graph.Walks.{Inv, Grows, Grows-refl, Grows-trans, enter-Inv, unseen-enter, leave-Grows}
use framingo.Graph.{Walk, enter, leave, scan, dfs, search_from}

module _ {K T : Type 0} (dec : Discrete K) (name : T → K) (edges : K → List T)
    (nodes : List T) where
  -- A result: the walk went on and all of `ys` is finished, or there is a cycle.
  abbrev pub Result : Walk K T → List T → List T → Option (Bool × Walk K T) → Type 0
  Result s fs ys r =
      ((t : Walk K T) × (gs : List T) × (r ≡ some (false, t))
        × Grows dec name edges nodes s fs t gs
        × ((k : K) → Among name ys k → Among name gs k))
      ⊎ ((t : Walk K T) × (r ≡ some (true, t)) × HasCycle name edges)

  Result-then :
      (y : T) (ys : List T) (s : Walk K T) (fs : List T) (t : Walk K T) (gs : List T)
      {r : Option (Bool × Walk K T)}
      → Grows dec name edges nodes s fs t gs
      → Among name gs (name y)
      → Result t gs ys r
      → Result s fs (y ∷ ys) r
  Result-then y ys s fs t gs g did (inl (u, hs, e, h, rest)) = inl (
    u,
    hs,
    e,
    Grows-trans dec name edges nodes s fs t gs u hs g h,
    λ k m. elim m [ inl same ↦ h.kept k (subst (Among name gs) same did) | inr r ↦ rest k r ],
  )
  Result-then y ys s fs t gs g did (inr c) = inr c

  -- What a call of `dfs` on a node that is not visited gives, with enough fuel. All nodes under way
  -- lead to the node.
  abbrev Visits : ℕ → (T → Walk K T → Option (Bool × Walk K T)) → Type 0
  Visits fuel visit =
      (v : T) (s : Walk K T) (fs : List T)
      → Inv dec name edges nodes s fs
      → has dec s.visited (name v) ≡ false
      → Among name nodes (name v)
      → unseen dec name nodes s.visited ≤ fuel
      → ((k : K) → has dec s.exists k ≡ true → Reach name edges k (name v))
      → Result s fs (v ∷ []) (visit v s)

  scan-Result :
      (fuel : ℕ) (visit : T → Walk K T → Option (Bool × Walk K T)) (v : T)
      → Visits fuel visit
      → ((b : K) → Among name (edges (name v)) b → Among name nodes b)
      → (ys : List T) (s : Walk K T) (fs : List T) → Inv dec name edges nodes s fs
      → unseen dec name nodes s.visited ≤ fuel
      → ((k : K) → has dec s.exists k ≡ true → (name v ≡ k) ⊎ Reach name edges k (name v))
      → ((b : K) → Among name ys b → Among name (edges (name v)) b)
      → Result s fs ys (scan dec name visit ys s)
  unfolding scan
  scan-Result fuel visit v visits closed [] s fs i enough under sub =
      inl (s, fs, refl, Grows-refl dec name edges nodes s fs i, λ k m. absurd m)
  scan-Result fuel visit v visits closed (y ∷ ys) s fs i enough under sub =
      elim (Bool-cases (has dec s.visited (name y))) [
        | inr new ↦ elim (visits y s fs i new (closed (name y) edge) enough to_y) [
          | inl (t, gs, e, g, did) ↦
              rw (new, scan)
                (rw (e, scan)
                  (Result-then y ys s fs t gs g (did (name y) (inl refl)) (
                    scan-Result fuel visit v visits closed ys t gs g.valid
                      (omega (arith, enough, unseen-le dec name nodes s.visited t.visited g.seen))
                      (λ k m. under k (sym (g.same_open k) ∙ m)) (λ b m. sub b (inr m)))))
          | inr (t, e, c) ↦ inr (t, rw (new, scan) (rw e), c)
        ]
        | inl old ↦ elim (Bool-cases (has dec s.exists (name y))) [
          | inl met ↦ inr (s, rw (old, scan) (rw met), (name y, cycle (under (name y) met)))
          | inr past ↦
              rw (old, scan)
                (rw (past, scan)
                  (Result-then y ys s fs s fs (Grows-refl dec name edges nodes s fs i)
                    (done past (i.open_or_done (name y) old))
                    (scan-Result fuel visit v visits closed ys s fs i enough under
                      (λ b m. sub b (inr m)))))
        ]
      ]
    where
      edge : Among name (edges (name v)) (name y)
      edge = sub (name y) (inl refl)

      from_v : {k : K} → (name v ≡ k) ⊎ Reach name edges k (name v) → Reach name edges k (name y)
      from_v (inl same) = one (subst (λ j. Among name (edges j) (name y)) same edge)
      from_v (inr r) = more r edge

      to_y : (k : K) → has dec s.exists k ≡ true → Reach name edges k (name y)
      to_y k m = from_v (under k m)

      cycle :
          (name v ≡ name y) ⊎ Reach name edges (name y) (name v)
          → Reach name edges (name y) (name y)
      cycle c = from_v c

      done :
          has dec s.exists (name y) ≡ false
          → (has dec s.exists (name y) ≡ true) ⊎ Among name fs (name y)
          → Among name fs (name y)
      done past (inl met) = cc
      done past (inr m) = m

  -- Every edge of the graph leads to a node of the graph.
  module _ (closed : (a b : K) → Among name (edges a) b → Among name nodes b) where
    pub dfs-Visits : (fuel : ℕ) → Visits fuel (dfs dec name edges fuel)
    unfolding dfs
    dfs-Visits zero v s fs i new known enough under =
        absurd (omega (arith, enough, unseen-enter dec name edges nodes v s known new))
    dfs-Visits (suc fuel) v s fs i new known enough under =
        elim (scan-Result fuel (dfs dec name edges fuel) v (dfs-Visits fuel) (closed (name v))
          (edges (name v)) (enter dec name v s) fs (enter-Inv dec name edges nodes v s fs i new)
          less under' (λ b m. m)) [
            | inl (t, gs, e, g, did) ↦ inl (
              leave dec name v t,
              v ∷ gs,
              rw (e, dfs),
              leave-Grows dec name edges nodes v s fs t gs i new known g did,
              λ k m. elim m [ inl same ↦ inl same | inr n ↦ absurd n ],
            )
            | inr (t, e, c) ↦ inr (t, rw (e, dfs), c)
          ]
      where
        less : unseen dec name nodes (add dec s.visited (name v)) ≤ fuel
        less = omega (arith, enough, unseen-enter dec name edges nodes v s known new)

        under' :
            (k : K)
            → has dec (add dec s.exists (name v)) k ≡ true
            → (name v ≡ k) ⊎ Reach name edges k (name v)
        under' k m = elim (dec (name v) k) [
          | yes same ↦ inl same
          | no other ↦ inr (under k (ground (arith, m, has-add dec s.exists (name v) k, other)))
        ]

    -- The loop over the nodes starts each search with no node under way.
    pub search_from-Result :
        (fuel : ℕ) (vs : List T) (s : Walk K T) (fs : List T)
        → Inv dec name edges nodes s fs
        → unseen dec name nodes s.visited ≤ fuel
        → ((k : K) → has dec s.exists k ≡ false)
        → ((b : K) → Among name vs b → Among name nodes b)
        → Result s fs vs (search_from dec name (dfs dec name edges fuel) vs s)
    unfolding search_from
    search_from-Result fuel [] s fs i enough idle sub =
        inl (s, fs, refl, Grows-refl dec name edges nodes s fs i, λ k m. absurd m)
    search_from-Result fuel (v ∷ vs) s fs i enough idle sub =
        elim (Bool-cases (has dec s.visited (name v))) [
          | inr new ↦
              elim (dfs-Visits fuel v s fs i new (sub (name v) (inl refl)) enough
                (λ k m. absurd (not-both _ (idle k) m))) [
                  | inl (t, gs, e, g, did) ↦
                      rw (new, search_from)
                        (rw (e, search_from)
                          (Result-then v vs s fs t gs g (did (name v) (inl refl)) (
                            search_from-Result fuel vs t gs g.valid
                              (omega (
                                arith,
                                enough,
                                unseen-le dec name nodes s.visited t.visited g.seen,
                              ))
                              (λ k. g.same_open k ∙ idle k) (λ b m. sub b (inr m)))))
                  | inr (t, e, c) ↦ inr (t, rw (new, search_from) (rw e), c)
                ]
          | inl old ↦
              rw (old, search_from)
                (Result-then v vs s fs s fs (Grows-refl dec name edges nodes s fs i)
                  (done (idle (name v)) (i.open_or_done (name v) old))
                  (search_from-Result fuel vs s fs i enough idle (λ b m. sub b (inr m))))
        ]
      where
        done :
            has dec s.exists (name v) ≡ false
            → (has dec s.exists (name v) ≡ true) ⊎ Among name fs (name v)
            → Among name fs (name v)
        done past (inl met) = cc
        done past (inr m) = m
