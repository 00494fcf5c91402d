-- ===== src/Pubsub/Hierarchy.antt =====
-- `topicMatches` of pkg/services/pubsub/driver/util.go, by the parts between the slashes.
use framingo.Prelude.{
  ◌≡◌, sym, ap, ◌∙◌, inl, inr, ◌↔◌, List, [], ◌∷◌, ◌++◌, append_assoc, append-nil, Bool, true, ◌||◌,
  Bool-cases, arith,
}
use framingo.Prelude.Text.{
  same_text, has_prefix, same_text-eq, same_text_self, has_prefix-rest, has_prefix-append, split,
  join, split-IsFull, join-split, join-append, split-append,
}
use framingo.Pubsub.Topics.{topic_matches}

or_true : (b : Bool) {c : Bool} → c ≡ true → (b || c) ≡ true
or_true b h = ground arith

module _ {C : Type 0} (dec : Discrete C) (slash : C) where
  prefix-split :
      (sub event : List C)
      → has_prefix dec (sub ++ (slash ∷ [])) event ≡ true
      → (rest : List (List C)) × (split dec slash event ≡ split dec slash sub ++ rest)
  prefix-split sub event h =
      let (zs, e) = has_prefix-rest dec (sub ++ (slash ∷ [])) event h in
      (
        split dec slash zs,
        ap (split dec slash) (e ∙ append_assoc sub (slash ∷ []) zs) ∙ split-append dec slash sub zs,
      )

  split-matches :
      (sub event : List C) (rest : List (List C))
      → split dec slash event ≡ split dec slash sub ++ rest
      → topic_matches dec slash sub event ≡ true
  unfolding topic_matches
  split-matches sub event [] e =
      let same : event ≡ sub =
        sym (join-split dec slash event)
        ∙ ap (join dec slash) (e ∙ append-nil (split dec slash sub))
        ∙ join-split dec slash sub in
      ap (λ b. b || has_prefix dec (sub ++ (slash ∷ [])) event)
        (ap (same_text dec sub) same ∙ same_text_self dec sub)
  split-matches sub event (q ∷ qs) e =
      let same : event ≡ (sub ++ (slash ∷ [])) ++ join dec slash (q ∷ qs) =
        sym (join-split dec slash event)
        ∙ ap (join dec slash) e
        ∙ join-append dec slash (split dec slash sub) q qs (split-IsFull dec slash sub)
        ∙ ap (λ x. x ++ (slash ∷ join dec slash (q ∷ qs))) (join-split dec slash sub)
        ∙ sym (append_assoc sub (slash ∷ []) (join dec slash (q ∷ qs))) in
      or_true (same_text dec sub event) (
        ap (has_prefix dec (sub ++ (slash ∷ []))) same
        ∙ has_prefix-append dec (sub ++ (slash ∷ [])) (join dec slash (q ∷ qs)))

  -- A subscription to a topic takes the messages of the topics whose parts between the slashes
  -- begin with all of its own, and no others.
  pub topic_matches-split :
      (sub event : List C)
      → (topic_matches dec slash sub event ≡ true)
        ↔ ((rest : List (List C)) × (split dec slash event ≡ split dec slash sub ++ rest))
  unfolding topic_matches
  topic_matches-split sub event = (
    λ h. elim (Bool-cases (same_text dec sub event)) [
      | inl e ↦ (
        [],
        ap (split dec slash) (sym (same_text-eq dec sub event e))
            ∙ sym (append-nil (split dec slash sub)),
      )
      | inr n ↦
          prefix-split sub event
            (sym (ap (λ b. b || has_prefix dec (sub ++ (slash ∷ [])) event) n) ∙ h)
    ],
    λ r. split-matches sub event r.0 r.1,
  )
