-- ===== src/Staque/Priority/Consistent.antt =====
-- What pkg/structs/staque/priority.go asks of its B-tree, and the agreement of its two sides.
use framingo.Prelude.{
  ℕ, suc, ◌+◌, ◌≡◌, ◌<◌, refl, sym, ap, ◌∙◌, List, [], ◌∷◌, Bool, true, false, Option, none, some,
  if◌then◌else◌, length, All, All-map, Bool-cases, inl, inr, arith,
}
use framingo.Prelude.Counts.{one_if, count, Alike}
use framingo.Prelude.Dicts.{Dict, Keyed, lookup, insert, remove_key}
use framingo.Prelude.Dicts.Entries.{IsUnique}
use framingo.Staque.Priority.{Tree, values}

-- What is documented of a B-tree: a tree is in order, its items are those that were put in, and the
-- greatest item comes first from `DeleteMax`, the least from `DeleteMin`.
pub record TreeLaws {T : Type 0} (less : T → T → Bool) (btree : Tree T) : Type 1 where
  pub Ordered : List T → Type 0
  pub empty_ordered : Ordered []
  pub insert_new :
      (x : T) (xs : List T)
      → Ordered xs
      → All (λ y. less x y ≡ less y x → ⊥) xs
      → Ordered (btree.replace_or_insert x xs) × Alike (btree.replace_or_insert x xs) (x ∷ xs)
  pub delete_held :
      (same : T → T → Bool) (x : T) (xs : List T)
      → Ordered xs
      → ((y : T) → same x y ≡ true → x ≡ y)
      → 0 < count (same x) xs
      → (ys : List T) × (btree.delete x xs ≡ (some x, ys)) × Ordered ys × Alike xs (x ∷ ys)
  pub max_none : btree.delete_max [] ≡ (none, [])
  pub max_some :
      (x : T) (xs : List T)
      → Ordered (x ∷ xs)
      → (m : T) × (ys : List T) × (btree.delete_max (x ∷ xs) ≡ (some m, ys))
        × Ordered ys
        × Alike (x ∷ xs) (m ∷ ys)
        × All (λ y. less m y ≡ false) (x ∷ xs)
  pub min_none : btree.delete_min [] ≡ (none, [])
  pub min_some :
      (x : T) (xs : List T)
      → Ordered (x ∷ xs)
      → (m : T) × (ys : List T) × (btree.delete_min (x ∷ xs) ≡ (some m, ys))
        × Ordered ys
        × Alike (x ∷ xs) (m ∷ ys)
        × All (λ y. less y m ≡ false) (x ∷ xs)

pub count_zero-All :
    {T : Type 0} (q : T → Bool) (xs : List T) → count q xs ≡ 0 → All (λ y. q y ≡ false) xs
count_zero-All q [] h = tt
count_zero-All q (x ∷ xs) h = (no_one (q x) (count q xs) h, count_zero-All q xs (omega (arith, h)))
  where
    no_one : (b : Bool) (n : ℕ) → one_if b + n ≡ 0 → b ≡ false
    no_one true n h = absurd (omega arith)
    no_one false n h = refl

pub count_everything : {T : Type 0} (xs : List T) → count (λ _. true) xs ≡ length xs
count_everything [] = refl
count_everything (x ∷ xs) = omega (arith, count_everything xs)

pub length-values : {K T : Type 0} (d : Dict K T) → length (values d) ≡ length d
length-values [] = refl
length-values (e ∷ d) = ap suc (length-values d)

pub some_eq : {A : Type 0} {a b : A} → some a ≡ some b → a ≡ b
some_eq {A} {a} h = ap (λ (o : Option A). elim o [ none ↦ a | some x ↦ x ]) h

module _ {K T : Type 0} (key : Keyed K) (key_of : T → K) where
  abbrev pub IsNamed : Dict K T → Type 0
  IsNamed d = All (λ e. key_of e.1 ≡ e.0) d

  -- The two cases of a map with a first entry.
  pub found_first :
      (j k : K) (v : T) (d : Dict K T) → key.same j k ≡ true → lookup key ((j, v) ∷ d) k ≡ some v
  found_first j k v d p = ap (λ b. if b then some v else lookup key d k) p

  pub found_rest :
      (j k : K) (v : T) (d : Dict K T)
      → key.same j k ≡ false
      → lookup key ((j, v) ∷ d) k ≡ lookup key d k
  found_rest j k v d p = ap (λ b. if b then some v else lookup key d k) p

  pub count-absent :
      (d : Dict K T) (k : K)
      → IsNamed d
      → lookup key d k ≡ none
      → count (λ y. key.same (key_of y) k) (values d) ≡ 0
  count-absent [] k n h = refl
  count-absent ((j, v) ∷ d) k n h = elim (Bool-cases (key.same j k)) [
    | inl p ↦ absurd (ground (arith, sym (found_first j k v d p) ∙ h))
    | inr p ↦ omega (
      arith,
      ap one_if (ap (λ i. key.same i k) n.0 ∙ p),
      count-absent d k n.1 (sym (found_rest j k v d p) ∙ h),
    )
  ]

  pub values-insert :
      (d : Dict K T) (k : K) (x : T) (q : T → Bool)
      → lookup key d k ≡ none
      → count q (values (insert key d k x)) ≡ count q (x ∷ values d)
  values-insert [] k x q h = refl
  values-insert ((j, v) ∷ d) k x q h = elim (Bool-cases (key.same j k)) [
    | inl p ↦ absurd (ground (arith, sym (found_first j k v d p) ∙ h))
    | inr p ↦
        ap (λ b. count q (values (if b then (j, x) ∷ d else (j, v) ∷ insert key d k x))) p
        ∙ omega (arith, values-insert d k x q (sym (found_rest j k v d p) ∙ h))
  ]

  values-remove_none :
      (d : Dict K T) (k : K) (q : T → Bool)
      → All (λ e. ¬ (e.0 ≡ k)) d
      → count q (values (remove_key key d k)) ≡ count q (values d)
  values-remove_none [] k q h = refl
  values-remove_none ((j, v) ∷ d) k q h = elim (Bool-cases (key.same j k)) [
    | inl p ↦ absurd (h.0 (key.same_eq j k p))
    | inr p ↦
        ap (λ b. count q (values (if b then remove_key key d k else (j, v) ∷ remove_key key d k))) p
        ∙ ap (λ (n : ℕ). one_if (q v) + n) (values-remove_none d k q h.1)
  ]

  pub values-remove_key :
      (d : Dict K T) (k : K) (x : T) (q : T → Bool)
      → IsUnique key d
      → lookup key d k ≡ some x
      → count q (values d) ≡ count q (x ∷ values (remove_key key d k))
  values-remove_key [] k x q u h = absurd (ground (arith, h))
  values-remove_key ((j, v) ∷ d) k x q u h = elim (Bool-cases (key.same j k)) [
    | inl p ↦ omega (
      arith,
      ap (λ b. count q (values (if b then remove_key key d k else (j, v) ∷ remove_key key d k))) p,
      values-remove_none d k q (All-map d (λ e ne same. ne (same ∙ sym (key.same_eq j k p))) u.0),
      ap (λ y. one_if (q y)) (some_eq (sym (found_first j k v d p) ∙ h)),
    )
    | inr p ↦ omega (
      arith,
      ap (λ b. count q (values (if b then remove_key key d k else (j, v) ∷ remove_key key d k))) p,
      values-remove_key d k x q u.1 (sym (found_rest j k v d p) ∙ h),
    )
  ]

  pub All-remove_key :
      (P : K × T → Type 0) (d : Dict K T) (k : K) → All P d → All P (remove_key key d k)
  All-remove_key P [] k h = tt
  All-remove_key P ((j, v) ∷ d) k h = elim (Bool-cases (key.same j k)) [
    | inl p ↦ rw (p, remove_key) (All-remove_key P d k h.1)
    | inr p ↦ rw (p, remove_key) (h.0, All-remove_key P d k h.1)
  ]

  pub remove_key-IsUnique :
      (d : Dict K T) (k : K) → IsUnique key d → IsUnique key (remove_key key d k)
  remove_key-IsUnique [] k u = tt
  remove_key-IsUnique ((j, v) ∷ d) k u = elim (Bool-cases (key.same j k)) [
    | inl p ↦ rw (p, remove_key) (remove_key-IsUnique d k u.1)
    | inr p ↦
        rw (p, remove_key) (All-remove_key (λ f. ¬ (f.0 ≡ j)) d k u.0, remove_key-IsUnique d k u.1)
  ]
