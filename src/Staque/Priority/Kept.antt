-- ===== src/Staque/Priority/Kept.antt =====
-- The map and the tree of pkg/structs/staque/priority.go over its calls.
use framingo.Prelude.{
  ℕ, ◌≡◌, ◌<◌, refl, sym, ap, subst, ◌∙◌, List, [], ◌∷◌, Bool, true, false, some, if◌then◌else◌,
  length, ◌==◌, ok, panics, All, Bool-cases, inl, inr, arith,
}
use framingo.Prelude.Dicts.{Keyed, lookup}
use framingo.Staque.Priority.{Tree, Priority, size, values, reset, push, remove, taken, pop, shift}
use framingo.Prelude.Counts.{one_if, count}
use framingo.Staque.Priority.Sides.{
  IsConsistent, held-count, first-held, push-IsConsistent, remove-IsConsistent, pop-IsConsistent,
  shift-IsConsistent,
}
use framingo.Staque.Priority.Consistent.{TreeLaws, count_everything, length-values}

same_lengths : (m n : ℕ) → m ≡ n → (m == n) ≡ true
same_lengths m n h = ground arith

-- A call of the queue, but for `Update`.
pub data Call (T : Type 0) : Type 0 where
  pushes : List T → Call T
  removes : T → Call T
  pops shifts resets : Call T

module _ {K T : Type 0} (key : Keyed K) (item : Keyed T) (key_of : T → K) (btree : Tree T) where
  unfoldable pub call : Priority K T → Call T → Priority K T
  call p (pushes xs) = push key key_of btree p xs
  call p (removes x) = (remove key key_of btree p x).0
  call p pops = (pop key key_of btree p).0
  call p shifts = (shift key key_of btree p).0
  call p resets = reset p

  unfoldable pub calls : Priority K T → List (Call T) → Priority K T
  calls p [] = p
  calls p (c ∷ cs) = calls (call p c) cs

module _ {K T : Type 0} (key : Keyed K) (item : Keyed T) (key_of : T → K) (btree : Tree T)
    (less : T → T → Bool) (laws : TreeLaws less btree)
    (apart : (x y : T) → ¬ (key_of x ≡ key_of y) → less x y ≡ less y x → ⊥) where
  calls-IsConsistent :
      (p : Priority K T) (cs : List (Call T))
      → IsConsistent key item key_of btree less laws apart p
      → IsConsistent key item key_of btree less laws apart (calls key item key_of btree p cs)
  unfolding calls call reset
  calls-IsConsistent p [] c = c
  calls-IsConsistent p (pushes xs ∷ cs) c =
      calls-IsConsistent (push key key_of btree p xs) cs
        (push-IsConsistent key item key_of btree less laws apart p xs c)
  calls-IsConsistent p (removes x ∷ cs) c =
      calls-IsConsistent (remove key key_of btree p x).0 cs
        (remove-IsConsistent key item key_of btree less laws apart p x c)
  calls-IsConsistent p (pops ∷ cs) c =
      calls-IsConsistent (pop key key_of btree p).0 cs
        (pop-IsConsistent key item key_of btree less laws apart p c)
  calls-IsConsistent p (shifts ∷ cs) c =
      calls-IsConsistent (shift key key_of btree p).0 cs
        (shift-IsConsistent key item key_of btree less laws apart p c)
  calls-IsConsistent p (resets ∷ cs) c =
      calls-IsConsistent (reset p) cs
        record { ordered = laws.empty_ordered; alike = λ q. refl; unique = tt; named = tt }

  -- With a B-tree that keeps its laws, and an order in which items of different keys differ:
  -- whatever calls but Update follow on a queue whose sides agree, they still do, and Length gives
  -- their length and does not panic.
  pub size-calls :
      (p : Priority K T) (cs : List (Call T))
      → IsConsistent key item key_of btree less laws apart p
      → IsConsistent key item key_of btree less laws apart (calls key item key_of btree p cs)
        × (size (calls key item key_of btree p cs)
            ≡ ok (length (calls key item key_of btree p cs).items))
  unfolding size
  size-calls p cs c =
      let q = calls key item key_of btree p cs in
      let d = calls-IsConsistent p cs c in
      let same : length q.items ≡ length q.tree = sym (
        sym (count_everything q.tree)
        ∙ d.alike (λ _. true)
        ∙ count_everything (values q.items)
        ∙ length-values q.items) in
      (
        d,
        ap (λ (b : Bool). if b then ok (length q.items) else panics)
            (same_lengths (length q.items) (length q.tree) same),
      )

  count-All : (P : T → Type 0) (xs : List T) (y : T) → All P xs → 0 < count (item.same y) xs → P y
  count-All P [] y h l = absurd (omega arith)
  count-All P (x ∷ xs) y h l = elim (Bool-cases (item.same y x)) [
    | inl p ↦ subst P (sym (item.same_eq y x p)) h.0
    | inr p ↦ count-All P xs y h.1 (omega (arith, l, ap one_if p))
  ]

  -- With a B-tree that keeps its laws: if the sides of a queue agree and it has an item, Pop gives
  -- an item that the queue has, and that is not below that one.
  pub pop-greatest :
      (p : Priority K T) (k : K) (y : T)
      → IsConsistent key item key_of btree less laws apart p
      → lookup key p.items k ≡ some y
      → (x : T) × ((pop key key_of btree p).1 ≡ ok x)
        × (lookup key p.items (key_of x) ≡ some x)
        × (less x y ≡ false)
  unfolding pop
  pop-greatest p k y c e = by_tree p.tree refl
    where
      held : 0 < count (item.same y) p.tree
      held = omega (
        arith,
        held-count key item key_of btree less laws apart p.items k y e,
        c.alike (item.same y),
      )

      by_tree :
          (t : List T)
          → p.tree ≡ t
          → (x : T) × ((taken key key_of btree p (btree.delete_max p.tree)).1 ≡ ok x)
            × (lookup key p.items (key_of x) ≡ some x)
            × (less x y ≡ false)
      by_tree [] tree_is = absurd (omega (arith, held, ap (count (item.same y)) tree_is))
      by_tree (z ∷ t) tree_is =
          let (m, ys, gives, o, a, top) =
            laws.max_some z t (subst laws.Ordered tree_is c.ordered) in
          (
            m,
            ap (λ d. (taken key key_of btree p d).1) (ap btree.delete_max tree_is ∙ gives),
            first-held key item key_of btree less laws apart p m ys c
                (λ q. ap (count q) tree_is ∙ a q),
            count-All (λ w. less m w ≡ false) (z ∷ t) y top
                (omega (arith, held, ap (count (item.same y)) tree_is)),
          )
