-- ===== src/Prelude/Dicts/Entries.antt =====
-- The entries of a map as a list: each key once, and what holds of them after an insertion.
use framingo.Prelude.Tests.{if◌then◌else◌, Bool-cases, not-both}
use framingo.Prelude.Lists.{All, All-map}
use framingo.Prelude.Dicts.{Dict, Keyed, lookup, insert, lookup-insert}
use mathlib.Core.Path.{◌≡◌, refl, sym, subst, ap, ◌∙◌}
use mathlib.Core.Logic.{inl, inr}
use mathlib.Core.Bool.{Bool, true, false}
use mathlib.Core.Option.{none, some}
use mathlib.Core.List.{[], ◌∷◌}

module _ {K V : Type 0} (key : Keyed K) where
  pub lookup-insert_self : (d : Dict K V) (k : K) (v : V) → lookup key (insert key d k v) k ≡ some v
  lookup-insert_self d k v =
      lookup-insert key d k k v
      ∙ ap (λ (b : Bool). if b then some v else lookup key d k) (key.same_self k)

  pub lookup-insert_ne :
      (d : Dict K V) (k j : K) (v : V)
      → ¬ (j ≡ k)
      → lookup key (insert key d k v) j ≡ lookup key d j
  lookup-insert_ne d k j v other = elim (Bool-cases (key.same k j)) [
    | inl p ↦ absurd (other (sym (key.same_eq k j p)))
    | inr p ↦ lookup-insert key d k j v ∙ ap (λ (b : Bool). if b then some v else lookup key d j) p
  ]

  -- No key stands twice.
  abbrev pub IsUnique : Dict K V → Type 0
  IsUnique [] = Unit {0}
  IsUnique (e ∷ d) = All (λ f. ¬ (f.0 ≡ e.0)) d × IsUnique d

module _ {K : Type 0} (key : Keyed K) where
  different : (j k : K) → key.same j k ≡ false → ¬ (j ≡ k)
  different j k p e = not-both (key.same j k) p (ap (key.same j) (sym e) ∙ key.same_self j)

module _ {K V : Type 0} where
  All-keep :
      (P Q : K × V → Type 0) (d : Dict K V) (k : K)
      → All (λ f. ¬ (f.0 ≡ k)) d
      → ((j : K) (w : V) → ¬ (j ≡ k) → P (j, w) → Q (j, w))
      → All P d
      → All Q d
  All-keep P Q [] k ne keep h = tt
  All-keep P Q (e ∷ d) k ne keep h = (keep e.0 e.1 ne.0 h.0, All-keep P Q d k ne.1 keep h.1)

module _ {K V : Type 0} (key : Keyed K) where
  -- What holds of the entries with other keys, and of the new one.
  pub All-insert :
      (P Q : K × V → Type 0) (d : Dict K V) (k : K) (v : V)
      → IsUnique key d
      → ((j : K) (w : V) → ¬ (j ≡ k) → P (j, w) → Q (j, w))
      → Q (k, v)
      → All P d
      → All Q (insert key d k v)
  All-insert P Q [] k v u keep new h = (new, tt)
  All-insert P Q ((j, w) ∷ d) k v u keep new h = elim (Bool-cases (key.same j k)) [
    | inl p ↦
        let e = key.same_eq j k p in
        rw (p, insert)
          (
            subst (λ (i : K). Q (i, v)) (sym e) new,
            All-keep P Q d k (All-map d (λ f ne eq. ne (eq ∙ sym e)) u.0) keep h.1,
          )
    | inr p ↦
        rw (p, insert) (keep j w (different key j k p) h.0, All-insert P Q d k v u.1 keep new h.1)
  ]

  pub insert-IsUnique :
      (d : Dict K V) (k : K) (v : V) → IsUnique key d → IsUnique key (insert key d k v)
  insert-IsUnique [] k v u = (tt, tt)
  insert-IsUnique ((j, w) ∷ d) k v u = elim (Bool-cases (key.same j k)) [
    | inl p ↦ rw (p, insert) u
    | inr p ↦
        rw (p, insert)
          (
            All-insert (λ f. ¬ (f.0 ≡ j)) (λ f. ¬ (f.0 ≡ j)) d k v u.1 (λ i x ne h. h)
                (λ e. different key j k p (sym e)) u.0,
            insert-IsUnique d k v u.1,
          )
  ]

module _ {K V : Type 0} (key : Keyed K) where
  -- A key that no entry has.
  pub lookup-absent :
      (d : Dict K V) (k n : K)
      → All (λ e. ¬ (e.0 ≡ k)) d
      → key.same k n ≡ true
      → lookup key d n ≡ none
  lookup-absent [] k n h p = refl
  lookup-absent (e ∷ d) k n h p = elim (Bool-cases (key.same e.0 n)) [
    | inl q ↦ absurd (h.0 (key.same_eq e.0 n q ∙ sym (key.same_eq k n p)))
    | inr q ↦ ap (λ b. if b then some e.1 else lookup key d n) q ∙ lookup-absent d k n h.1 p
  ]
