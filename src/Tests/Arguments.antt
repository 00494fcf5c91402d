-- ===== src/Tests/Arguments.antt =====
-- Runs of `MergeArgs` of pkg/utils/cmdutil/args.go on concrete inputs.
use framingo.Prelude.{◌≡◌, refl, List, [], ◌∷◌, some, ℕ_discrete}
use framingo.Arguments.{Token, take_sets, merge_args}
use framingo.Arguments.Repeat.{merge_args-again}

abbrev some_sets : List (List Token)
some_sets =
    ((b'-' ∷ b'a' ∷ []) ∷ (b'1' ∷ []) ∷ (b'-' ∷ b'b' ∷ b'=' ∷ b'2' ∷ []) ∷ [])
    ∷ ((b'x' ∷ []) ∷ (b'-' ∷ b'a' ∷ []) ∷ (b'3' ∷ []) ∷ [])
    ∷ []

some_sets-merged :
    merge_args some_sets
    ≡ some ((b'-' ∷ b'a' ∷ []) ∷ (b'3' ∷ []) ∷ (b'-' ∷ b'b' ∷ b'=' ∷ b'2' ∷ []) ∷ (b'x' ∷ []) ∷ [])
unfolding merge_args take_sets ℕ_discrete
some_sets-merged = refl

merge_args-again_example :
    (args : List Token) × (merge_args some_sets ≡ some args) × (merge_args (args ∷ []) ≡ some args)
merge_args-again_example = merge_args-again some_sets
