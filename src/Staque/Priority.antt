-- ===== src/Staque/Priority.antt =====
-- pkg/structs/staque/priority.go: a priority queue, a map of items by their keys beside a B-tree of
-- them. The tree is a parameter: what it holds is a list, and its operations are functions on such
-- lists. The tree and the map hold the same items, so that the change of a priority by `Update`
-- shows in both. The wait of a blocking queue is left out: `Pop` and `Shift` fail after it anyway.
pub mod Consistent
pub mod Sides
pub mod Kept
use framingo.Prelude.{
  ℕ, List, [], ◌∷◌, Bool, true, false, Option, none, some, if◌then◌else◌, length, ◌==◌, Outcome, ok,
  err, panics,
}
use framingo.Prelude.Dicts.{Dict, Keyed, lookup, insert, remove_key}

-- The calls of the B-tree that the queue makes; a pair has what was taken out and what is left.
pub record Tree (T : Type 0) : Type 0 where
  pub replace_or_insert : T → List T → List T
  pub delete : T → List T → Option T × List T
  pub delete_min : List T → Option T × List T
  pub delete_max : List T → Option T × List T

pub record Priority (K T : Type 0) : Type 0 where
  pub items : Dict K T
  pub tree : List T

pub data PriorityError : Type 0 where
  not_found empty : PriorityError

module _ {K T : Type 0} where
  unfoldable pub new_priority : Priority K T
  new_priority = record { items = []; tree = [] }

  unfoldable pub is_empty : Priority K T → Bool
  is_empty p = length p.items == 0

  -- `Length`, which panics where the two sides differ.
  unfoldable pub size : Priority K T → Outcome PriorityError ℕ
  size p = if length p.items == length p.tree then ok (length p.items) else panics

  abbrev pub values : Dict K T → List T
  values [] = []
  values (e ∷ d) = e.1 ∷ values d

  -- `Items`
  unfoldable pub all_items : Priority K T → List T
  all_items p = values p.items

  unfoldable pub reset : Priority K T → Priority K T
  reset p = record { items = []; tree = [] }

module _ {K T : Type 0} (key : Keyed K) (key_of : T → K) (btree : Tree T) where
  abbrev pub push_missing : Priority K T → T → Option T → Priority K T
  push_missing p x (some _) = p
  push_missing p x none = record {
    items = insert key p.items (key_of x) x;
    tree = btree.replace_or_insert x p.tree;
  }

  unfoldable pub push_one : Priority K T → T → Priority K T
  push_one p x = push_missing p x (lookup key p.items (key_of x))

  unfoldable pub push : Priority K T → List T → Priority K T
  push p [] = p
  push p (x ∷ xs) = push (push_one p x) xs

  -- The item of a key, changed in place.
  abbrev pub touch : K → T → List T → List T
  touch k x [] = []
  touch k x (y ∷ ys) = (if key.same (key_of y) k then x else y) ∷ touch k x ys

  -- `set_priority` gives an item the priority of another.
  unfoldable pub update :
      (T → T → T) → Priority K T → T → Priority K T × Outcome PriorityError (Unit {0})
  update set_priority p x = elim (lookup key p.items (key_of x)) [
    | none ↦ (p, err not_found)
    | some i ↦
        let j = set_priority i x in
        (
          record {
            items = insert key p.items (key_of x) j;
            tree = btree.replace_or_insert j (touch (key_of x) j p.tree);
          },
          ok tt,
        )
  ]

  -- What was found of an item to remove: `none` is an item that the tree has not.
  abbrev pub removed :
      Priority K T → K → Option T × List T → Priority K T × Outcome PriorityError (Option T)
  removed p k (none, t) = (record p { tree = t }, panics)
  removed p k (some y, t) = (record { items = remove_key key p.items k; tree = t }, ok (some y))

  abbrev pub remove_found :
      Priority K T → K → Option T → Priority K T × Outcome PriorityError (Option T)
  remove_found p k none = (p, ok none)
  remove_found p k (some i) = removed p k (btree.delete i p.tree)

  unfoldable pub remove : Priority K T → T → Priority K T × Outcome PriorityError (Option T)
  remove p x = remove_found p (key_of x) (lookup key p.items (key_of x))

  abbrev pub taken : Priority K T → Option T × List T → Priority K T × Outcome PriorityError T
  taken p (none, t) = (record p { tree = t }, err empty)
  taken p (some x, t) = (record { items = remove_key key p.items (key_of x); tree = t }, ok x)

  unfoldable pub pop : Priority K T → Priority K T × Outcome PriorityError T
  pop p = taken p (btree.delete_max p.tree)

  unfoldable pub shift : Priority K T → Priority K T × Outcome PriorityError T
  shift p = taken p (btree.delete_min p.tree)
