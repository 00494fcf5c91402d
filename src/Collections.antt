-- ===== src/Collections.antt =====
-- pkg/utils/sliceutil/slice.go and pkg/utils/maputil/map.go: the functions on slices and maps. The
-- equality of the elements is an interface. A map is a list of entries, and a loop over a map goes
-- through its entries in their order in the list.
pub mod Counts
use framingo.Prelude.{
  ℕ, zero, suc, ◌+◌, ◌-◌, List, [], ◌∷◌, ◌++◌, Bool, true, false, ◌&&◌, ◌||◌, not, ltb, Option,
  none, some, if◌then◌else◌, reverse,
}
use framingo.Prelude.Dicts.{Dict, Keyed, lookup, insert, remove_key}

module _ {T : Type 0} (key : Keyed T) where
  abbrev pub contains : T → List T → Bool
  contains x [] = false
  contains x (y ∷ ys) = key.same y x || contains x ys

  -- `First`, with the value that is no element.
  unfoldable pub first : T → List T → T
  first undefined [] = undefined
  first undefined (x ∷ xs) = if key.same x undefined then first undefined xs else x

  unfoldable pub last : T → List T → T
  last undefined xs = first undefined (reverse xs)

  -- `IsDiff`, whose test of the lengths is that one list ends before the other.
  unfoldable pub is_diff : List T → List T → Bool
  is_diff [] [] = false
  is_diff [] (y ∷ ys) = true
  is_diff (x ∷ xs) [] = true
  is_diff (x ∷ xs) (y ∷ ys) = not (key.same x y) || is_diff xs ys

  -- The loop of `Deduplicate`, with the elements met so far.
  abbrev pub keep_new : List T → List T → List T
  keep_new seen [] = []
  keep_new seen (x ∷ xs) = if contains x seen then keep_new seen xs else x ∷ keep_new (x ∷ seen) xs

  unfoldable pub deduplicate : List T → List T
  deduplicate xs = keep_new [] xs

  unfoldable pub remove_all : T → List T → List T
  remove_all target [] = []
  remove_all target (x ∷ xs) =
      if key.same target x then remove_all target xs else x ∷ remove_all target xs

  abbrev pub found : Option ℕ → ℕ
  found none = 0
  found (some n) = n

  abbrev pub tally : Dict T ℕ → T → ℕ
  tally d x = found (lookup key d x)

  -- The loop that counts the elements.
  unfoldable pub count_all : Dict T ℕ → List T → Dict T ℕ
  count_all d [] = d
  count_all d (x ∷ xs) = count_all (insert key d x (tally d x + 1)) xs

  abbrev pub copies : ℕ → T → List T
  copies zero x = []
  copies (suc n) x = x ∷ copies n x

  -- The elements that a map counts more often than another.
  abbrev pub surplus : Dict T ℕ → Dict T ℕ → List T
  surplus [] other = []
  surplus ((x, n) ∷ d) other = copies (n - tally other x) x ++ surplus d other

  -- What is to be added and what is to be removed.
  unfoldable pub changes : List T → List T → List T × List T
  changes from to =
      let from_map = count_all [] from in
      let to_map = count_all [] to in (surplus to_map from_map, surplus from_map to_map)

module _ {K V : Type 0} (key : Keyed K) where
  abbrev pub set_found : Dict K V → K → Option V → Dict K V
  set_found d k none = d
  set_found d k (some v) = insert key d k v

  -- The first loop of `DiffKeys`, and `CopyKeys`.
  unfoldable pub copy_keys : Dict K V → Dict K V → Dict K V
  copy_keys from [] = []
  copy_keys from ((k, v) ∷ d) = set_found (copy_keys from d) k (lookup key from k)

  -- The second loop, over the entries of `to` that are left.
  unfoldable pub diff_step :
      Dict K V → Dict K V → Dict K V × Dict K V → Dict K V → Dict K V × Dict K V
  diff_step from to r [] = r
  diff_step from to r ((k, v) ∷ d) = elim (lookup key from k) [
    | none ↦ diff_step from to (set_found r.0 k (lookup key to k), r.1) d
    | some _ ↦ diff_step from to (r.0, remove_key key r.1 k) d
  ]

  -- What is to be created and what is to be deleted.
  unfoldable pub diff_keys : Dict K V → Dict K V → Dict K V × Dict K V
  diff_keys from to = diff_step from to ([], copy_keys from from) to

  abbrev pub contains_key : Dict K V → K → Bool
  contains_key d k = elim (lookup key d k) [ none ↦ false | some _ ↦ true ]

  unfoldable pub contains_keys : Dict K V → List K → Bool
  contains_keys d [] = true
  contains_keys d (k ∷ ks) = contains_key d k && contains_keys d ks
