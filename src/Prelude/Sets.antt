-- ===== src/Prelude/Sets.antt =====
-- pkg/utils/maputil/set.go: `Set`, a map with keys and no values.
use framingo.Prelude.Tests.{if◌then◌else◌}
use mathlib.Core.Path.{◌≡◌, ◌∙◌}
use mathlib.Core.Logic.{ite, if_pos, if_neg}
use mathlib.Core.Bool.{Bool, true, false}
use mathlib.Core.List.{List, [], ◌∷◌}
use native.Mathlib.Omega.{arith}

-- The keys, each once as long as only `add` and `remove` are used.
abbrev pub KeySet {ℓ} : Type ℓ → Type ℓ
KeySet K = List K

module _ {ℓ} {K : Type ℓ} (dec : Discrete K) where
  unfoldable pub has : KeySet K → K → Bool
  has [] k = false
  has (x ∷ s) k = ite (dec x k) true (has s k)

  unfoldable pub add : KeySet K → K → KeySet K
  add s k = if has s k then s else k ∷ s

  unfoldable pub remove : KeySet K → K → KeySet K
  remove [] k = []
  remove (x ∷ s) k = let rest = remove s k in ite (dec x k) rest (x ∷ rest)

  pub has-add : (s : KeySet K) (k j : K) → has (add s k) j ≡ ite (dec k j) true (has s j)
  unfolding has add
  has-add s k j = ground arith

  pub has-remove : (s : KeySet K) (k j : K) → has (remove s k) j ≡ ite (dec k j) false (has s j)
  unfolding has remove
  has-remove [] k j = ground arith
  has-remove (x ∷ s) k j = elim (dec x k) [
    | yes same ↦ rw (if_pos _ same) (has-remove s k j ∙ ground arith)
    | no other ↦ rw (if_neg _ other) (ground (arith, has-remove s k j))
  ]

  pub has-remove_self : (s : KeySet K) (k j : K) → k ≡ j → has (remove s k) j ≡ false
  has-remove_self s k j same = has-remove s k j ∙ if_pos (dec k j) same false (has s j)

  pub has-remove_ne : (s : KeySet K) (k j : K) → ¬ (k ≡ j) → has (remove s k) j ≡ has s j
  has-remove_ne s k j other = has-remove s k j ∙ if_neg (dec k j) other false (has s j)
