-- ===== src/Staque/Simple.antt =====
-- pkg/structs/staque/simple.go: the bounded sequence that pushes and pops at the back and shifts
-- at the front. `elements` has the oldest first; a `max_size` of 0 means no limit.
-- The slice's capacity is left out: the compaction of `Shift` and `ShiftN` copies the same elements
-- to a smaller array, and a cell that is zeroed lies outside the slice that is kept.
pub mod Bounds
pub mod Order
use framingo.Prelude.{
  ℕ, ◌-◌, List, [], ◌∷◌, ◌++◌, Bool, Option, none, some, ltb, ◌==◌, ◌&&◌, if◌then◌else◌, length,
  take, drop, get_elem?, Outcome, ok, err, panics,
}
use framingo.Prelude.Int.{ℤ, pos, negsuc, pos_part}

pub record Simple (T : Type 0) : Type 0 where
  pub elements : List T
  pub max_size : ℕ

-- `too_few n l`: required n, found only l.
pub data Error : Type 0 where
  empty : Error
  too_few : ℕ → ℕ → Error

module _ {T : Type 0} where
  unfoldable pub new_simple : ℤ → Simple T
  new_simple limit = record { elements = []; max_size = pos_part limit }

  unfoldable pub reset : Simple T → Simple T
  reset s = record s { elements = [] }

  unfoldable pub size : Simple T → ℕ
  size s = length s.elements

  unfoldable pub is_empty : Simple T → Bool
  is_empty s = length s.elements == 0

  -- The zero value of the element type answers an index out of range.
  unfoldable pub must_get : T → Simple T → ℤ → T
  must_get zero_value s (negsuc i) = zero_value
  must_get zero_value s (pos i) = elim (get_elem? s.elements i) [ none ↦ zero_value | some x ↦ x ]

  -- Past the limit the oldest elements are cut off.
  unfoldable pub push : Simple T → List T → Simple T
  push s added =
      let all = s.elements ++ added in
      record s {
        elements =
            if ltb 0 s.max_size && ltb s.max_size (length all)
            then drop (length all - s.max_size) all
            else all;
      }

  unfoldable pub pop : Simple T → Outcome Error (T × Simple T)
  pop s =
      let last = length s.elements - 1 in
      elim (get_elem? s.elements last) [
        | none ↦ err empty
        | some x ↦ ok (x, record s { elements = take last s.elements })
      ]

  unfoldable pub shift : Simple T → Outcome Error (T × Simple T)
  shift s = elim s.elements [ [] ↦ err empty | x ∷ rest ↦ ok (x, record s { elements = rest }) ]

  unfoldable pub must_pop : T → Simple T → T × Simple T
  must_pop zero_value s = elim (pop s) [
    | ok r ↦ r
    | err _ ↦ (zero_value, s)
    | panics ↦ (zero_value, s)
  ]

  unfoldable pub must_shift : T → Simple T → T × Simple T
  must_shift zero_value s = elim (shift s) [
    | ok r ↦ r
    | err _ ↦ (zero_value, s)
    | panics ↦ (zero_value, s)
  ]

  -- Where the sequence is not empty, `make` panics on a negative number of elements.
  unfoldable pub pop_n : Simple T → ℤ → Outcome Error (List T × Simple T)
  pop_n s (negsuc k) = if length s.elements == 0 then err empty else panics
  pop_n s (pos n) =
      let l = length s.elements in
      if l == 0
      then err empty
      else (if ltb l n
          then err (too_few n l)
          else ok (drop (l - n) s.elements, record s { elements = take (l - n) s.elements }))

  unfoldable pub shift_n : Simple T → ℤ → Outcome Error (List T × Simple T)
  shift_n s (negsuc k) = if length s.elements == 0 then err empty else panics
  shift_n s (pos n) =
      let l = length s.elements in
      if l == 0
      then err empty
      else (if ltb l n
          then err (too_few n l)
          else ok (take n s.elements, record s { elements = drop n s.elements }))
