-- ===== src/Staque/Priority/Sides.antt =====
-- The agreement of the map and the tree of pkg/structs/staque/priority.go over each method.
use framingo.Prelude.{
  ◌≡◌, ◌<◌, refl, sym, ap, subst, ◌∙◌, List, [], ◌∷◌, Bool, true, some, All, All-map, Bool-cases,
  Option-cases, inl, inr, not-both, arith,
}
use framingo.Prelude.Dicts.{Dict, Keyed, lookup, remove_key}
use framingo.Prelude.Dicts.Entries.{IsUnique, insert-IsUnique, All-insert, lookup-absent}
use framingo.Staque.Priority.{
  Tree, Priority, values, push_missing, push_one, push, removed, remove_found, remove, taken, pop,
  shift,
}
use framingo.Prelude.Counts.{one_if, count, Alike}
use framingo.Staque.Priority.Consistent.{
  TreeLaws, count_zero-All, some_eq, IsNamed, found_first, found_rest, count-absent, values-insert,
  values-remove_key, All-remove_key, remove_key-IsUnique,
}

module _ {K T : Type 0} (key : Keyed K) (item : Keyed T) (key_of : T → K) (btree : Tree T)
    (less : T → T → Bool) (laws : TreeLaws less btree)
    (apart : (x y : T) → ¬ (key_of x ≡ key_of y) → less x y ≡ less y x → ⊥) where
  -- The tree has what the map has, each item under its key, and each key once.
  pub record IsConsistent (p : Priority K T) : Type 0 where
    pub ordered : laws.Ordered p.tree
    pub alike : Alike p.tree (values p.items)
    pub unique : IsUnique key p.items
    pub named : IsNamed key key_of p.items

  pub held-count :
      (d : Dict K T) (k : K) (x : T) → lookup key d k ≡ some x → 0 < count (item.same x) (values d)
  held-count [] k x h = absurd (ground (arith, h))
  held-count ((j, v) ∷ d) k x h = elim (Bool-cases (key.same j k)) [
    | inl p ↦ omega (
      arith,
      ap one_if (
          ap (λ y. item.same x y) (some_eq (sym (found_first key key_of j k v d p) ∙ h))
          ∙ item.same_self x),
    )
    | inr p ↦ omega (arith, held-count d k x (sym (found_rest key key_of j k v d p) ∙ h))
  ]

  twice :
      (d : Dict K T) (j k : K) (x : T)
      → All (λ f. ¬ (f.0 ≡ j)) d
      → key.same j k ≡ true
      → ¬ (lookup key d k ≡ some x)
  twice d j k x h q e = ground (arith, sym e ∙ lookup-absent key d j k h q)

  -- The key of an item of the map is its own.
  count-held :
      (d : Dict K T) (x : T)
      → IsUnique key d
      → IsNamed key key_of d
      → 0 < count (item.same x) (values d)
      → lookup key d (key_of x) ≡ some x
  count-held [] x u n h = absurd (omega arith)
  count-held ((j, v) ∷ d) x u n h = elim (Bool-cases (item.same x v)) [
    | inl p ↦
        let e = item.same_eq x v p in
        found_first key key_of j (key_of x) v d
          (ap (λ i. key.same i (key_of x)) (sym n.0 ∙ ap key_of (sym e)) ∙ key.same_self (key_of x))
        ∙ ap some (sym e)
    | inr p ↦
        let rest = count-held d x u.1 n.1 (omega (arith, h, ap one_if p)) in
        elim (Bool-cases (key.same j (key_of x))) [
          | inl q ↦ absurd (twice d j (key_of x) x u.0 q rest)
          | inr q ↦ found_rest key key_of j (key_of x) v d q ∙ rest
        ]
  ]

  push_one-IsConsistent :
      (p : Priority K T) (x : T) → IsConsistent p → IsConsistent (push_one key key_of btree p x)
  unfolding push_one
  push_one-IsConsistent p x c = elim (Option-cases (lookup key p.items (key_of x))) [
    | inr (y, e) ↦ subst (λ o. IsConsistent (push_missing key key_of btree p x o)) (sym e) c
    | inl e ↦
        let zero_count =
          c.alike (λ y. key.same (key_of y) (key_of x))
          ∙ count-absent key key_of p.items (key_of x) c.named e in
        let fresh : All (λ y. less x y ≡ less y x → ⊥) p.tree =
          All-map p.tree
            (λ y other. apart x y (λ same.
              not-both (key.same (key_of y) (key_of x)) other
                (ap (λ k. key.same k (key_of x)) (sym same) ∙ key.same_self (key_of x))))
            (count_zero-All (λ y. key.same (key_of y) (key_of x)) p.tree zero_count) in
        let new = laws.insert_new x p.tree c.ordered fresh in
        subst (λ o. IsConsistent (push_missing key key_of btree p x o)) (sym e)
          record {
            ordered = new.0;
            alike = λ q.
                omega
                  (arith, new.1 q, c.alike q, values-insert key key_of p.items (key_of x) x q e);
            unique = insert-IsUnique key p.items (key_of x) x c.unique;
            named =
                All-insert key (λ e. key_of e.1 ≡ e.0) (λ e. key_of e.1 ≡ e.0) p.items (key_of x) x
                  c.unique (λ j w ne at. at) refl c.named;
          }
  ]

  pub push-IsConsistent :
      (p : Priority K T) (xs : List T) → IsConsistent p → IsConsistent (push key key_of btree p xs)
  unfolding push
  push-IsConsistent p [] c = c
  push-IsConsistent p (x ∷ xs) c =
      push-IsConsistent (push_one key key_of btree p x) xs (push_one-IsConsistent p x c)

  -- An item is taken out of both sides.
  without-IsConsistent :
      (p : Priority K T) (k : K) (x : T) (ys : List T)
      → IsConsistent p
      → lookup key p.items k ≡ some x
      → laws.Ordered ys
      → Alike p.tree (x ∷ ys)
      → IsConsistent record { items = remove_key key p.items k; tree = ys }
  without-IsConsistent p k x ys c e o a = record {
    ordered = o;
    alike =
        λ q. omega (arith, a q, c.alike q, values-remove_key key key_of p.items k x q c.unique e);
    unique = remove_key-IsUnique key key_of p.items k c.unique;
    named = All-remove_key key key_of (λ e. key_of e.1 ≡ e.0) p.items k c.named;
  }

  pub remove-IsConsistent :
      (p : Priority K T) (x : T) → IsConsistent p → IsConsistent (remove key key_of btree p x).0
  unfolding remove
  remove-IsConsistent p x c = elim (Option-cases (lookup key p.items (key_of x))) [
    | inl e ↦ subst (λ o. IsConsistent (remove_found key key_of btree p (key_of x) o).0) (sym e) c
    | inr (i, e) ↦
        let held : 0 < count (item.same i) p.tree =
          omega (arith, held-count p.items (key_of x) i e, c.alike (item.same i)) in
        let (ys, gone, o, a) =
          laws.delete_held item.same i p.tree c.ordered (item.same_eq i) held in
        subst (λ o. IsConsistent (remove_found key key_of btree p (key_of x) o).0) (sym e)
          (subst (λ d. IsConsistent (removed key key_of btree p (key_of x) d).0) (sym gone)
            (without-IsConsistent p (key_of x) i ys c e o a))
  ]

  -- What the tree gives first is an item of the map, under its key.
  pub first-held :
      (p : Priority K T) (x : T) (ys : List T)
      → IsConsistent p
      → Alike p.tree (x ∷ ys)
      → lookup key p.items (key_of x) ≡ some x
  first-held p x ys c a =
      count-held p.items x c.unique c.named
        (omega (arith, c.alike (item.same x), a (item.same x), ap one_if (item.same_self x)))

  taken-IsConsistent :
      (p : Priority K T) (x : T) (ys : List T)
      → IsConsistent p
      → laws.Ordered ys
      → Alike p.tree (x ∷ ys)
      → IsConsistent (taken key key_of btree p (some x, ys)).0
  taken-IsConsistent p x ys c o a =
      without-IsConsistent p (key_of x) x ys c (first-held p x ys c a) o a

  no_tree-IsConsistent :
      (p : Priority K T) → IsConsistent p → p.tree ≡ [] → IsConsistent (record p { tree = [] })
  no_tree-IsConsistent p c e = record {
    ordered = laws.empty_ordered;
    alike = λ q. ap (count q) (sym e) ∙ c.alike q;
    unique = c.unique;
    named = c.named;
  }

  pub pop-IsConsistent :
      (p : Priority K T) → IsConsistent p → IsConsistent (pop key key_of btree p).0
  unfolding pop
  pop-IsConsistent p c = by_tree p.tree refl
    where
      by_tree :
          (t : List T)
          → p.tree ≡ t
          → IsConsistent (taken key key_of btree p (btree.delete_max p.tree)).0
      by_tree [] e =
          subst (λ d. IsConsistent (taken key key_of btree p d).0)
            (sym (ap btree.delete_max e ∙ laws.max_none)) (no_tree-IsConsistent p c e)
      by_tree (y ∷ t) e =
          let (m, ys, gives, o, a, _) = laws.max_some y t (subst laws.Ordered e c.ordered) in
          subst (λ d. IsConsistent (taken key key_of btree p d).0)
            (sym (ap btree.delete_max e ∙ gives))
            (taken-IsConsistent p m ys c o (λ q. ap (count q) e ∙ a q))

  pub shift-IsConsistent :
      (p : Priority K T) → IsConsistent p → IsConsistent (shift key key_of btree p).0
  unfolding shift
  shift-IsConsistent p c = by_tree p.tree refl
    where
      by_tree :
          (t : List T)
          → p.tree ≡ t
          → IsConsistent (taken key key_of btree p (btree.delete_min p.tree)).0
      by_tree [] e =
          subst (λ d. IsConsistent (taken key key_of btree p d).0)
            (sym (ap btree.delete_min e ∙ laws.min_none)) (no_tree-IsConsistent p c e)
      by_tree (y ∷ t) e =
          let (m, ys, gives, o, a, _) = laws.min_some y t (subst laws.Ordered e c.ordered) in
          subst (λ d. IsConsistent (taken key key_of btree p d).0)
            (sym (ap btree.delete_min e ∙ gives))
            (taken-IsConsistent p m ys c o (λ q. ap (count q) e ∙ a q))
