-- ===== src/Pubsub/Agreement.antt =====
-- The subscribers that pkg/services/pubsub/driver/memory.go offers a message to, and those of
-- `fanout` in util.go.
use framingo.Prelude.{
  ℕ, ◌+◌, ◌*◌, ◌≡◌, refl, ap, ◌∙◌, inl, inr, List, [], ◌∷◌, ◌++◌, Bool, Option, some, if◌then◌else◌,
  Bool-cases, All, arith,
}
use framingo.Prelude.Counts.{one_if, count, count-append}
use framingo.Prelude.Dicts.{Dict, text_key, lookup}
use framingo.Prelude.Dicts.Entries.{IsUnique, lookup-absent}
use framingo.Pubsub.Topics.{Listener, topic_matches}
use framingo.Pubsub.Memory.{
  Text, TopicTree, Laggard, others, fanout_targets, prefixes, found, targets_at, targets,
}
use framingo.Pubsub.Parents.{same, matches, count-prefixes}

abbrev Entries : Type 0
Entries = Dict Text (List (Listener Text))

-- The targets under some topics, by the entries of a map.
abbrev under : Entries → Text → List Text → List Laggard
under es from [] = []
under es from (k ∷ ks) = others from k (found (lookup text_key es k)) ++ under es from ks

targets-under :
    {S : Type 0} (tree : TopicTree S (List (Listener Text))) (s : S) (es : Entries) (from : Text)
    (ks : List Text)
    → ((k : Text) → tree.find s k ≡ lookup text_key es k)
    → targets_at tree s from ks ≡ under es from ks
targets-under tree s es from [] h = refl
targets-under tree s es from (k ∷ ks) h =
    ap (λ o. others from k (found o) ++ targets_at tree s from ks) (h k)
    ∙ ap (λ xs. others from k (found (lookup text_key es k)) ++ xs)
        (targets-under tree s es from ks h)

under-empty : (from : Text) (ks : List Text) → under [] from ks ≡ []
under-empty from [] = refl
under-empty from (k ∷ ks) = under-empty from ks

one_more : (b : Bool) (n x : ℕ) → (one_if b + n) * x ≡ one_if b * x + n * x
one_more b n x = ground arith

under-entry :
    (q : Laggard → Bool) (es : Entries) (k : Text) (subs : List (Listener Text)) (from : Text)
    (ks : List Text)
    → All (λ e. ¬ (e.0 ≡ k)) es
    → count q (under ((k, subs) ∷ es) from ks)
      ≡ count (same k) ks * count q (others from k subs) + count q (under es from ks)
under-entry q es k subs from [] h = omega arith
under-entry q es k subs from (p ∷ ks) h =
    let here = λ (o : Option (List (Listener Text))). others from p (found o) in
    let n = count q (others from k subs) in
    count-append q (here (lookup text_key ((k, subs) ∷ es) p)) (under ((k, subs) ∷ es) from ks)
    ∙ elim (Bool-cases (same k p)) [
      | inl m ↦ omega (
        arith,
        ap (λ (b : Bool). count q (here (if b then some subs else lookup text_key es p))) m,
        ap (λ (j : Text). count q (others from j subs)) (text_key.same_eq k p m),
        ap (λ o. count q (here o)) (lookup-absent text_key es k p h m),
        under-entry q es k subs from ks h,
        count-append q (here (lookup text_key es p)) (under es from ks),
        one_more (same k p) (count (same k) ks) n,
        ap (λ (b : Bool). one_if b * n) m,
      )
      | inr m ↦ omega (
        arith,
        ap (λ (b : Bool). count q (here (if b then some subs else lookup text_key es p))) m,
        under-entry q es k subs from ks h,
        count-append q (here (lookup text_key es p)) (under es from ks),
        one_more (same k p) (count (same k) ks) n,
        ap (λ (b : Bool). one_if b * n) m,
      )
    ]

under-prefixes :
    (q : Laggard → Bool) (es : Entries) (from topic : Text)
    → IsUnique text_key es
    → count q (under es from (prefixes topic)) ≡ count q (fanout_targets es from topic)
unfolding topic_matches
under-prefixes q [] from topic u = ap (count q) (under-empty from (prefixes topic))
under-prefixes q ((k, subs) ∷ es) from topic u =
    let rest = fanout_targets es from topic in
    let n = count q (others from k subs) in
    under-entry q es k subs from (prefixes topic) u.0
    ∙ ap (λ (m : ℕ). m * n + count q (under es from (prefixes topic))) (count-prefixes k topic)
    ∙ ap (λ (m : ℕ). one_if (matches k topic) * n + m) (under-prefixes q es from topic u.1)
    ∙ elim (Bool-cases (matches k topic)) [
      | inl m ↦ omega (
        arith,
        ap (λ (b : Bool). one_if b * n) m,
        ap (λ (b : Bool). count q (if b then others from k subs ++ rest else rest)) m,
        count-append q (others from k subs) rest,
      )
      | inr m ↦ omega (
        arith,
        ap (λ (b : Bool). one_if b * n) m,
        ap (λ (b : Bool). count q (if b then others from k subs ++ rest else rest)) m,
      )
    ]

-- If the trie finds what a map with each topic once has: the memory driver offers a message to the
-- same subscribers under the same topics, each as often, as fanout does.
pub targets-fanout_targets :
    {S : Type 0} (tree : TopicTree S (List (Listener Text))) (s : S) (es : Entries)
    (from topic : Text)
    → ((k : Text) → tree.find s k ≡ lookup text_key es k)
    → IsUnique text_key es
    → (q : Laggard → Bool)
    → count q (targets tree s from topic) ≡ count q (fanout_targets es from topic)
targets-fanout_targets tree s es from topic h u q =
    ap (count q) (targets-under tree s es from (prefixes topic) h)
    ∙ under-prefixes q es from topic u
