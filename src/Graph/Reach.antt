-- ===== src/Graph/Reach.antt =====
-- The edges of a graph seen as a relation between names, and its cycles.
use framingo.Prelude.{◌≡◌, ◌⊎◌, inl, inr, List, [], ◌∷◌, ◌++◌}

module _ {K T : Type 0} (name : T → K) where
  -- Some node of the list has this name.
  abbrev pub Among : List T → K → Type 0
  Among [] k = ⊥
  Among (x ∷ xs) k = (name x ≡ k) ⊎ Among xs k

  pub Among-append : (xs ys : List T) (k : K) → Among xs k → Among (xs ++ ys) k
  Among-append [] ys k m = absurd m
  Among-append (x ∷ xs) ys k (inl e) = inl e
  Among-append (x ∷ xs) ys k (inr m) = inr (Among-append xs ys k m)

  pub Among-append_right : (xs ys : List T) (k : K) → Among ys k → Among (xs ++ ys) k
  Among-append_right [] ys k m = m
  Among-append_right (x ∷ xs) ys k m = inr (Among-append_right xs ys k m)

  pub Among-append_cases : (xs ys : List T) (k : K) → Among (xs ++ ys) k → Among xs k ⊎ Among ys k
  Among-append_cases [] ys k m = inr m
  Among-append_cases (x ∷ xs) ys k (inl e) = inl (inl e)
  Among-append_cases (x ∷ xs) ys k (inr m) = elim (Among-append_cases xs ys k m) [
    | inl l ↦ inl (inr l)
    | inr r ↦ inr r
  ]

-- A path of at least one edge. An edge leads from a name to each node that its list holds.
pub data Reach {K T : Type 0} (name : T → K) (edges : K → List T) (a : K) : K → Type 0 where
  one : {b : K} → Among name (edges a) b → Reach name edges a b
  more : {b c : K} → Reach name edges a b → Among name (edges b) c → Reach name edges a c

abbrev pub HasCycle : {K T : Type 0} → (T → K) → (K → List T) → Type 0
HasCycle {K} name edges = (a : K) × Reach name edges a a

-- A path starts with an edge.
pub Reach-first :
    {K T : Type 0} {name : T → K} {edges : K → List T} {a b : K}
    → Reach name edges a b
    → (c : K) × Among name (edges a) c
Reach-first (one {b = b} e) = (b, e)
Reach-first (more r e) = Reach-first r
