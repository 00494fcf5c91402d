-- ===== src/Prelude/Dicts.antt =====
-- Go's maps as lists of entries, with the equality of their keys as an interface.
pub mod Entries
use framingo.Prelude.Tests.{if◌then◌else◌, Bool-cases, not-both}
use framingo.Prelude.Text.{same_text, same_text-eq, same_text_self}
use Prim.Native.Nat.{ℕ}
use mathlib.Core.Path.{◌≡◌, refl, sym, ap, ◌∙◌}
use mathlib.Core.Logic.{inl, inr}
use mathlib.Core.Bool.{Bool, true, false}
use mathlib.Core.Option.{Option, none, some}
use mathlib.Core.List.{List, [], ◌∷◌}
use native.Mathlib.Omega.{arith}
unfoldable use native.Mathlib.Decide.{ℕ_discrete}

-- Keys that a Boolean test compares.
pub record Keyed (K : Type 0) : Type 0 where
  pub same : K → K → Bool
  pub same_eq : (a b : K) → same a b ≡ true → a ≡ b
  pub same_self : (a : K) → same a a ≡ true

-- Texts by their bytes.
abbrev pub text_key : Keyed (List ℕ)
text_key = record {
  same = same_text ℕ_discrete;
  same_eq = same_text-eq ℕ_discrete;
  same_self = same_text_self ℕ_discrete;
}

abbrev pub Dict : Type 0 → Type 0 → Type 0
Dict K V = List (K × V)

module _ {K V : Type 0} (key : Keyed K) where
  abbrev pub lookup : Dict K V → K → Option V
  lookup [] k = none
  lookup ((j, v) ∷ d) k = let rest = lookup d k in if key.same j k then some v else rest

  -- `d[k] = v`, which replaces the value of a key that has one.
  abbrev pub insert : Dict K V → K → V → Dict K V
  insert [] k v = (k, v) ∷ []
  insert ((j, w) ∷ d) k v =
      let rest = insert d k v in if key.same j k then (j, v) ∷ d else (j, w) ∷ rest

  -- `delete(d, k)`
  abbrev pub remove_key : Dict K V → K → Dict K V
  remove_key [] k = []
  remove_key ((j, v) ∷ d) k =
      let rest = remove_key d k in if key.same j k then rest else (j, v) ∷ rest

module _ {K : Type 0} (key : Keyed K) where
  pub same-left : (a b c : K) → key.same a b ≡ true → key.same a c ≡ key.same b c
  same-left a b c h = ap (λ x. key.same x c) (key.same_eq a b h)

  -- Keys that both are the same as a third.
  pub same-common : (a b c : K) → key.same a c ≡ true → key.same b c ≡ true → key.same a b ≡ true
  same-common a b c p q =
      ap (λ x. key.same x b) (key.same_eq a c p ∙ sym (key.same_eq b c q)) ∙ key.same_self b

  lookup-insert_cases :
      {V : Type 0} (i k j : K) (v w : V) (found : Option V)
      → key.same i k ≡ false
      → (if key.same i j then some w else (if key.same k j then some v else found))
        ≡ (if key.same k j then some v else (if key.same i j then some w else found))
  lookup-insert_cases i k j v w found h = elim (Bool-cases (key.same i j)) [
    | inl p ↦ elim (Bool-cases (key.same k j)) [
      | inl q ↦ absurd (not-both (key.same i k) h (same-common i k j p q))
      | inr q ↦ rw (p, q) refl
    ]
    | inr p ↦ rw p refl
  ]

module _ {K V : Type 0} (key : Keyed K) where
  pub lookup-insert :
      (d : Dict K V) (k j : K) (v : V)
      → lookup key (insert key d k v) j ≡ (if key.same k j then some v else lookup key d j)
  lookup-insert [] k j v = refl
  lookup-insert ((i, w) ∷ d) k j v = elim (Bool-cases (key.same i k)) [
    | inl h ↦ rw h (ground (arith, same-left key i k j h))
    | inr h ↦ rw h (
        ap (λ (o : Option V). if key.same i j then some w else o) (lookup-insert d k j v)
        ∙ lookup-insert_cases key i k j v w (lookup key d j) h)
  ]
