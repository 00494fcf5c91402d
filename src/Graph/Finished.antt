-- ===== src/Graph/Finished.antt =====
-- Lists of nodes in which every edge leads to a later node.
use framingo.Prelude.{
  ℕ, suc, ◌≤◌, ◌<◌, ◌≡◌, refl, sym, ap, subst, inl, inr, List, [], ◌∷◌, true, false, length, arith,
  if◌then◌else◌,
}
use framingo.Prelude.Sets.{KeySet, has}
use framingo.Graph.Reach.{Among, Reach, one, more}

module _ {K T : Type 0} (name : T → K) (edges : K → List T) where
  -- Each node's name is new, and its edges lead to nodes behind it.
  abbrev pub IsOrdered : List T → Type 0
  IsOrdered [] = Unit {0}
  IsOrdered (x ∷ xs) =
      (¬ Among name xs (name x))
      × ((k : K) → Among name (edges (name x)) k → Among name xs k)
      × IsOrdered xs

  Edge-IsOrdered :
      (xs : List T) (a b : K)
      → IsOrdered xs
      → Among name xs a
      → Among name (edges a) b
      → Among name xs b
  Edge-IsOrdered [] a b o m e = m
  Edge-IsOrdered (x ∷ xs) a b o (inl same) e =
      inr (o.1 b (subst (λ k. Among name (edges k) b) (sym same) e))
  Edge-IsOrdered (x ∷ xs) a b o (inr m) e = inr (Edge-IsOrdered xs a b o.2 m e)

  Reach-behind :
      (x : T) (xs : List T) {a b : K}
      → Reach name edges a b
      → IsOrdered (x ∷ xs)
      → name x ≡ a
      → Among name xs b
  Reach-behind x xs {b = b} (one e) o same =
      o.1 b (subst (λ k. Among name (edges k) b) (sym same) e)
  Reach-behind x xs {b = c} (more {b = b} r e) o same =
      Edge-IsOrdered xs b c o.2 (Reach-behind x xs r o same) e

  -- So no path leads from a node of such a list back to it.
  pub not-Reach-IsOrdered :
      (xs : List T) (a : K) → IsOrdered xs → Among name xs a → ¬ Reach name edges a a
  not-Reach-IsOrdered [] a o m r = m
  not-Reach-IsOrdered (x ∷ xs) a o (inl same) r =
      o.0 (subst (Among name xs) (sym same) (Reach-behind x xs r o same))
  not-Reach-IsOrdered (x ∷ xs) a o (inr m) r = not-Reach-IsOrdered xs a o.2 m r

-- How many nodes have a name that the set lacks.
module _ {K T : Type 0} (dec : Discrete K) (name : T → K) where
  pub unseen : List T → KeySet K → ℕ
  unseen [] s = 0
  unseen (x ∷ xs) s = let rest = unseen xs s in if has dec s (name x) then rest else suc rest

  pub unseen-le :
      (xs : List T) (s t : KeySet K)
      → ((k : K) → has dec s k ≡ true → has dec t k ≡ true)
      → unseen xs t ≤ unseen xs s
  unfolding unseen
  unseen-le [] s t h = omega arith
  unseen-le (x ∷ xs) s t h = ground (arith, unseen-le xs s t h, h (name x))

  pub unseen-lt :
      (xs : List T) (s t : KeySet K) (k : K)
      → ((j : K) → has dec s j ≡ true → has dec t j ≡ true)
      → Among name xs k
      → has dec s k ≡ false
      → has dec t k ≡ true
      → unseen xs t < unseen xs s
  unfolding unseen
  unseen-lt [] s t k h m p q = absurd m
  unseen-lt (x ∷ xs) s t k h (inl e) p q =
      ground (arith, unseen-le xs s t h, ap (has dec s) e, ap (has dec t) e)
  unseen-lt (x ∷ xs) s t k h (inr m) p q = ground (arith, unseen-lt xs s t k h m p q, h (name x))

  pub unseen-nil : (xs : List T) → unseen xs [] ≡ length xs
  unfolding unseen has
  unseen-nil [] = refl
  unseen-nil (x ∷ xs) = omega (arith, unseen-nil xs)
