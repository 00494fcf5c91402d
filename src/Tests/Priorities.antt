-- ===== src/Tests/Priorities.antt =====
-- Runs of the definitions about pkg/structs/staque/priority.go, with a list for the B-tree.
use framingo.Prelude.{
  ℕ, ◌+◌, ◌≡◌, ◌<◌, ◌≤◌, refl, sym, ap, ◌∙◌, List, [], ◌∷◌, Bool, true, false, Option, none, some,
  ltb, ◌==◌, if◌then◌else◌, ok, All, length, Bool-cases, inl, inr, arith,
}
use framingo.Prelude.Dicts.{Keyed, lookup}
use framingo.Staque.Priority.{
  Tree, Priority, new_priority, size, push_one, push, remove, pop, shift, values,
}
use framingo.Prelude.Counts.{one_if, count, Alike}
use framingo.Staque.Priority.Consistent.{TreeLaws}
use framingo.Staque.Priority.Sides.{IsConsistent}
use framingo.Staque.Priority.Kept.{
  Call, pushes, removes, shifts, call, calls, size-calls, pop-greatest,
}

eq_nat : (a b : ℕ) → (a == b) ≡ true → a ≡ b
eq_nat a b h = ground arith

self_nat : (a : ℕ) → (a == a) ≡ true
self_nat a = ground arith

abbrev nat_key : Keyed ℕ
nat_key = record { same = λ a b. a == b; same_eq = eq_nat; same_self = self_nat }

abbrev own : ℕ → ℕ
own x = x

abbrev delete_list : ℕ → List ℕ → Option ℕ × List ℕ
delete_list x [] = (none, [])
delete_list x (y ∷ ys) =
    let (o, r) = delete_list x ys in if x == y then (some x, ys) else (o, y ∷ r)

-- The element that `first` prefers to all others, and the others.
abbrev pick : (ℕ → ℕ → Bool) → ℕ → List ℕ → ℕ × List ℕ
pick prefers x [] = (x, [])
pick prefers x (y ∷ ys) =
    let (m, r) = pick prefers (if prefers y x then y else x) ys in
    (m, (if prefers y x then x else y) ∷ r)

abbrev pick_first : (ℕ → ℕ → Bool) → List ℕ → Option ℕ × List ℕ
pick_first prefers [] = (none, [])
pick_first prefers (x ∷ xs) = let (m, r) = pick prefers x xs in (some m, r)

abbrev above : ℕ → ℕ → Bool
above a b = ltb b a

abbrev list_tree : Tree ℕ
list_tree = record {
  replace_or_insert = λ x xs. x ∷ xs;
  delete = delete_list;
  delete_min = λ xs. pick_first ltb xs;
  delete_max = λ xs. pick_first above xs;
}

delete_list-held :
    (same : ℕ → ℕ → Bool) (x : ℕ) (xs : List ℕ)
    → ((y : ℕ) → same x y ≡ true → x ≡ y)
    → 0 < count (same x) xs
    → (ys : List ℕ) × (delete_list x xs ≡ (some x, ys)) × Alike xs (x ∷ ys)
delete_list-held same x [] h l = absurd (omega arith)
delete_list-held same x (y ∷ ys) h l = elim (Bool-cases (x == y)) [
  | inl p ↦ (
    ys,
    ap (λ b. if b then (some x, ys) else ((delete_list x ys).0, y ∷ (delete_list x ys).1)) p,
    λ q. ap (λ z. one_if (q z) + count q ys) (sym (eq_nat x y p)),
  )
  | inr p ↦ elim (Bool-cases (same x y)) [
    | inl s ↦ absurd (ground (arith, h y s, p))
    | inr s ↦
        let (r, e, a) = delete_list-held same x ys h (omega (arith, l, ap one_if s)) in
        (
          y ∷ r,
          ap (λ b. if b then (some x, ys) else ((delete_list x ys).0, y ∷ (delete_list x ys).1)) p
              ∙ ap (λ (d : Option ℕ × List ℕ). (d.0, y ∷ d.1)) e,
          λ q. omega (arith, a q),
        )
  ]
]

pick-Alike :
    (prefers : ℕ → ℕ → Bool) (x : ℕ) (xs : List ℕ)
    → Alike (x ∷ xs) ((pick prefers x xs).0 ∷ (pick prefers x xs).1)
pick-Alike prefers x [] q = refl
pick-Alike prefers x (y ∷ ys) q = elim (Bool-cases (prefers y x)) [
  | inl p ↦ rw (p, pick) (omega (arith, pick-Alike prefers y ys q))
  | inr p ↦ rw (p, pick) (omega (arith, pick-Alike prefers x ys q))
]

larger : (x y : ℕ) → (x ≤ (if above y x then y else x)) × (y ≤ (if above y x then y else x))
larger x y = (ground arith, ground arith)

smaller : (x y : ℕ) → ((if ltb y x then y else x) ≤ x) × ((if ltb y x then y else x) ≤ y)
smaller x y = (ground arith, ground arith)

le→ltb : (a b : ℕ) → a ≤ b → ltb b a ≡ false
le→ltb a b h = ground arith

pick_max :
    (x : ℕ) (xs : List ℕ)
    → (x ≤ (pick above x xs).0) × All (λ y. ltb (pick above x xs).0 y ≡ false) xs
pick_max x [] = (omega arith, tt)
pick_max x (y ∷ ys) =
    let z = if above y x then y else x in
    let (l, rest) = pick_max z ys in
    (
      omega (arith, l, (larger x y).0),
      (le→ltb y (pick above z ys).0 (omega (arith, l, (larger x y).1)), rest),
    )

pick_min :
    (x : ℕ) (xs : List ℕ) → ((pick ltb x xs).0 ≤ x) × All (λ y. ltb y (pick ltb x xs).0 ≡ false) xs
pick_min x [] = (omega arith, tt)
pick_min x (y ∷ ys) =
    let z = if ltb y x then y else x in
    let (l, rest) = pick_min z ys in
    (
      omega (arith, l, (smaller x y).0),
      (le→ltb (pick ltb z ys).0 y (omega (arith, l, (smaller x y).1)), rest),
    )

list_tree-laws : TreeLaws ltb list_tree
list_tree-laws = record {
  Ordered = λ xs. Unit {0};
  empty_ordered = tt;
  insert_new = λ x xs o f. (tt, λ q. refl);
  delete_held =
      λ same x xs o h l. let (ys, e, a) = delete_list-held same x xs h l in (ys, e, tt, a);
  max_none = refl;
  max_some = λ x xs o. (
    (pick above x xs).0,
    (pick above x xs).1,
    refl,
    tt,
    pick-Alike above x xs,
    (le→ltb x (pick above x xs).0 (pick_max x xs).0, (pick_max x xs).1),
  );
  min_none = refl;
  min_some = λ x xs o. (
    (pick ltb x xs).0,
    (pick ltb x xs).1,
    refl,
    tt,
    pick-Alike ltb x xs,
    (le→ltb (pick ltb x xs).0 x (pick_min x xs).0, (pick_min x xs).1),
  );
}

apart_nat : (x y : ℕ) → ¬ (x ≡ y) → ltb x y ≡ ltb y x → ⊥
apart_nat x y h e = ground (arith, h, e)

abbrev three_calls : List (Call ℕ)
three_calls = pushes (3 ∷ 5 ∷ 3 ∷ 4 ∷ []) ∷ removes 4 ∷ shifts ∷ []

abbrev fresh : Priority ℕ ℕ
unfolding new_priority
fresh = new_priority

three_calls-items : values (calls nat_key nat_key own list_tree fresh three_calls).items ≡ 5 ∷ []
unfolding calls call push push_one remove shift new_priority
three_calls-items = refl

fresh-IsConsistent : IsConsistent nat_key nat_key own list_tree ltb list_tree-laws apart_nat fresh
unfolding new_priority list_tree-laws
fresh-IsConsistent = record { ordered = tt; alike = λ q. refl; unique = tt; named = tt }

size-calls_example :
    IsConsistent nat_key nat_key own list_tree ltb list_tree-laws apart_nat
      (calls nat_key nat_key own list_tree fresh three_calls)
    × (size (calls nat_key nat_key own list_tree fresh three_calls)
        ≡ ok (length (calls nat_key nat_key own list_tree fresh three_calls).items))
size-calls_example =
    size-calls nat_key nat_key own list_tree ltb list_tree-laws apart_nat fresh three_calls
      fresh-IsConsistent

abbrev two_items : Priority ℕ ℕ
two_items = record { items = (3, 3) ∷ (5, 5) ∷ []; tree = 5 ∷ 3 ∷ [] }

two_items-IsConsistent :
    IsConsistent nat_key nat_key own list_tree ltb list_tree-laws apart_nat two_items
unfolding list_tree-laws
two_items-IsConsistent = record {
  ordered = tt;
  alike = λ q. omega arith;
  unique = (((λ h. omega arith), tt), (tt, tt));
  named = (refl, (refl, tt));
}

pop-greatest_example :
    (x : ℕ) × ((pop nat_key own list_tree two_items).1 ≡ ok x)
    × (lookup nat_key two_items.items (own x) ≡ some x)
    × (ltb x 3 ≡ false)
pop-greatest_example =
    pop-greatest nat_key nat_key own list_tree ltb list_tree-laws apart_nat two_items 3 3
      two_items-IsConsistent refl
