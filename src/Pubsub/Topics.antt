-- ===== src/Pubsub/Topics.antt =====
-- The topics of pkg/services/pubsub/driver: `topicMatches` of util.go, and the map from topics to local
-- subscribers that redis.go keeps. A topic is a list of characters. The map is a list of its
-- entries, whose order is not told apart from any other; a pattern is known by its topic. What Redis
-- answers is not modelled.
use framingo.Prelude.{ℕ, List, [], ◌∷◌, ◌++◌, Bool, true, false, not, ◌||◌, if◌then◌else◌, ite}
use framingo.Prelude.Text.{same_text, has_prefix}
use framingo.Prelude.Sets.{KeySet, add, remove}

module _ {C : Type 0} (dec : Discrete C) where
  unfoldable pub topic_matches : C → List C → List C → Bool
  topic_matches slash sub event =
      same_text dec sub event || has_prefix dec (sub ++ (slash ∷ [])) event

-- A subscriber by its name and its identity.
pub record Listener (N : Type 0) : Type 0 where
  pub name : N
  pub id : ℕ

abbrev pub Entries : Type 0 → Type 0 → Type 0
Entries K N = List (K × List (Listener N))

pub record Topics (K N : Type 0) : Type 0 where
  pub topics : Entries K N
  pub patterns : KeySet K

module _ {K N : Type 0} (dec : Discrete K) where
  -- What the map has for a key; nothing is the empty list.
  abbrev pub lookup : Entries K N → K → List (Listener N)
  lookup [] k = []
  lookup ((j, v) ∷ es) k = let rest = lookup es k in ite (dec j k) v rest

  abbrev pub delete : Entries K N → K → Entries K N
  delete [] k = []
  delete ((j, v) ∷ es) k = let rest = delete es k in ite (dec j k) rest ((j, v) ∷ rest)

  abbrev pub store : Entries K N → K → List (Listener N) → Entries K N
  store es k v = (k, v) ∷ delete es k

  unfoldable pub subscribe : Topics K N → K → Listener N → Topics K N
  subscribe b topic sub = record {
    topics = store b.topics topic (lookup b.topics topic ++ (sub ∷ []));
    patterns = add dec b.patterns topic;
  }

  -- The listeners of a list that a test keeps.
  abbrev pub filter : (Listener N → Bool) → List (Listener N) → List (Listener N)
  filter keep [] = []
  filter keep (s ∷ ss) = let rest = filter keep ss in if keep s then s ∷ rest else rest

  -- `unsubscribePattern`.
  unfoldable pub unsubscribe_pattern : Topics K N → K → Topics K N
  unsubscribe_pattern b topic = record {
    topics = delete b.topics topic;
    patterns = remove dec b.patterns topic;
  }

  -- The end of `Unsubscribe` and of `remove`.
  unfoldable pub keep_filtered : Topics K N → K → List (Listener N) → Topics K N
  unfolding unsubscribe_pattern
  keep_filtered b topic [] = unsubscribe_pattern b topic
  keep_filtered b topic (s ∷ ss) = record b { topics = store b.topics topic (s ∷ ss) }

  -- Whether the map has the key.
  abbrev pub has_topic : Entries K N → K → Bool
  has_topic [] k = false
  has_topic ((j, v) ∷ es) k = let rest = has_topic es k in ite (dec j k) true rest

  unfoldable pub unsubscribe : Topics K N → (N → Bool) → K → Topics K N
  unfolding keep_filtered
  unsubscribe b is_name topic =
      if has_topic b.topics topic
      then keep_filtered b topic (filter (λ s. not (is_name s.name)) (lookup b.topics topic))
      else b

  -- By identity.
  unfoldable pub remove_listener : Topics K N → (ℕ → Bool) → K → Topics K N
  unfolding keep_filtered
  remove_listener b is_target topic =
      if has_topic b.topics topic
      then keep_filtered b topic (filter (λ s. not (is_target s.id)) (lookup b.topics topic))
      else b

-- The listeners of all topics that match.
unfoldable pub get_subscribers : {K N : Type 0} → (K → Bool) → Entries K N → List (Listener N)
get_subscribers matches [] = []
get_subscribers matches ((k, v) ∷ es) =
    let rest = get_subscribers matches es in if matches k then v ++ rest else rest
