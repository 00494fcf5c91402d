-- ===== src/Prelude/Counts.antt =====
-- How many elements of a list pass a test.
use Prim.Native.Nat.{ℕ, ◌+◌}
use mathlib.Core.Path.{◌≡◌}
use mathlib.Core.Bool.{Bool, true, false}
use mathlib.Core.List.{List, [], ◌∷◌, ◌++◌}
use native.Mathlib.Omega.{arith}

abbrev pub one_if : Bool → ℕ
one_if true = 1
one_if false = 0

module _ {T : Type 0} where
  abbrev pub count : (T → Bool) → List T → ℕ
  count q [] = 0
  count q (x ∷ xs) = one_if (q x) + count q xs

  -- The same elements as often, in any order.
  abbrev pub Alike : List T → List T → Type 0
  Alike xs ys = (q : T → Bool) → count q xs ≡ count q ys

  pub count-append : (q : T → Bool) (xs ys : List T) → count q (xs ++ ys) ≡ count q xs + count q ys
  count-append q [] ys = omega arith
  count-append q (x ∷ xs) ys = omega (arith, count-append q xs ys)
