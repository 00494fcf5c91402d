-- ===== src/Tests/Collections.antt =====
-- Runs of the definitions about pkg/utils/sliceutil and pkg/utils/maputil on concrete inputs.
use framingo.Prelude.{ℕ, ◌≡◌, ◌-◌, refl, [], ◌∷◌, true, min, arith, ◌==◌}
use framingo.Prelude.Dicts.{Keyed}
use framingo.Collections.{
  is_diff, deduplicate, remove_all, changes, diff_keys, copy_keys, diff_step, first, last,
  contains_keys, count_all,
}
use framingo.Collections.Counts.{times, times-changes, times-deduplicate}

eq_number : (a b : ℕ) → (a == b) ≡ true → a ≡ b
eq_number a b h = ground arith

self_number : (a : ℕ) → (a == a) ≡ true
self_number a = ground arith

abbrev number_key : Keyed ℕ
number_key = record { same = λ a b. a == b; same_eq = eq_number; same_self = self_number }

some_changes : changes number_key (1 ∷ 2 ∷ 2 ∷ []) (2 ∷ 3 ∷ 3 ∷ []) ≡ (3 ∷ 3 ∷ [], 1 ∷ 2 ∷ [])
unfolding changes count_all
some_changes = refl

times-changes_example :
    (times number_key 2 (changes number_key (1 ∷ 2 ∷ 2 ∷ []) (2 ∷ 3 ∷ 3 ∷ [])).0 ≡ 1 - 2)
    × (times number_key 2 (changes number_key (1 ∷ 2 ∷ 2 ∷ []) (2 ∷ 3 ∷ 3 ∷ [])).1 ≡ 2 - 1)
times-changes_example = times-changes number_key (1 ∷ 2 ∷ 2 ∷ []) (2 ∷ 3 ∷ 3 ∷ []) 2

times-deduplicate_example :
    times number_key 2 (deduplicate number_key (1 ∷ 2 ∷ 2 ∷ []))
    ≡ min 1 (times number_key 2 (1 ∷ 2 ∷ 2 ∷ []))
times-deduplicate_example = times-deduplicate number_key (1 ∷ 2 ∷ 2 ∷ []) 2

some_diff_keys :
    diff_keys {V = ℕ} number_key ((1, 10) ∷ (2, 20) ∷ []) ((2, 21) ∷ (3, 30) ∷ [])
    ≡ ((3, 30) ∷ [], (1, 10) ∷ [])
unfolding diff_keys diff_step copy_keys
some_diff_keys = refl

ends : (first number_key 0 (0 ∷ 7 ∷ 8 ∷ []) ≡ 7) × (last number_key 0 (7 ∷ 8 ∷ 0 ∷ []) ≡ 8)
unfolding first last
ends = (refl, refl)

without : remove_all number_key 2 (1 ∷ 2 ∷ 2 ∷ 3 ∷ []) ≡ 1 ∷ 3 ∷ []
unfolding remove_all
without = refl

differs : is_diff number_key (1 ∷ 2 ∷ []) (1 ∷ 3 ∷ []) ≡ true
unfolding is_diff
differs = refl

has_both : contains_keys {V = ℕ} number_key ((1, 10) ∷ (2, 20) ∷ []) (2 ∷ 1 ∷ []) ≡ true
unfolding contains_keys
has_both = refl
