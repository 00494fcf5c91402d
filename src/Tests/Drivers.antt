-- ===== src/Tests/Drivers.antt =====
-- Runs of the definitions about pkg/services/pubsub/driver/memory.go on concrete inputs.
use framingo.Prelude.{
  ℕ, ◌≡◌, refl, sym, ap, ◌∙◌, not-both, List, [], ◌∷◌, Bool, false, map, ◌==◌, ℕ_discrete,
}
use framingo.Prelude.Counts.{count}
use framingo.Prelude.Dicts.{Dict, text_key, lookup, insert, remove_key}
use framingo.Prelude.Dicts.Entries.{IsUnique}
use framingo.Prelude.Int.{pos}
use framingo.Pubsub.{
  Options, default_options, with_queue_cap, drop_subscriber, new_subscriber, offer, claim_eviction,
  stop,
}
use framingo.Pubsub.Topics.{Listener}
use framingo.Pubsub.Memory.{
  Text, TopicTree, Laggard, targets, fanout_targets, Memory, subscribe, unsubscribe,
  remove_listener, evict, publish, stop_driver, offer_to, offer_each, claim,
}
use framingo.Pubsub.Agreement.{targets-fanout_targets}

abbrev map_tree : TopicTree (Dict Text (List (Listener Text))) (List (Listener Text))
map_tree = record {
  find = lookup text_key;
  add = insert text_key;
  remove_topic = remove_key text_key;
  keys = map (λ e. e.0);
}

abbrev app : Text
app = b'a' ∷ []

abbrev app_module : Text
app_module = b'a' ∷ b'/' ∷ b'm' ∷ []

abbrev listener : ℕ → ℕ → Listener Text
listener c id = record { name = c ∷ []; id = id }

abbrev entries : Dict Text (List (Listener Text))
entries =
    (app, listener b'x' 0 ∷ listener b'y' 1 ∷ [])
    ∷ (app_module, listener b'z' 2 ∷ [])
    ∷ (b'b' ∷ [], listener b'x' 3 ∷ [])
    ∷ []

publisher_skipped :
    targets map_tree entries (b'x' ∷ []) app_module
    ≡ (listener b'y' 1, app) ∷ (listener b'z' 2, app_module) ∷ []
unfolding ℕ_discrete
publisher_skipped = refl

abbrev some_options : Options
some_options = record (with_queue_cap (pos 1) default_options) { on_full = drop_subscriber }

abbrev empty_driver : Memory (Dict Text (List (Listener Text))) ℕ
unfolding new_subscriber
empty_driver = record {
  dispatcher = record { subscribers = λ id. new_subscriber some_options; dropped = 0; evicted = 0 };
  topics = [];
  created = 0;
}

abbrev one_subscriber : Memory (Dict Text (List (Listener Text))) ℕ
unfolding subscribe
one_subscriber = (subscribe map_tree empty_driver some_options (b'y' ∷ []) app).0

-- The second message finds a full queue, and the subscriber is evicted.
lagging_evicted :
    (publish map_tree (publish map_tree one_subscriber (b'x' ∷ []) app_module 7) [] app 8).topics
    ≡ []
unfolding publish evict claim offer_each offer_to remove_listener subscribe new_subscriber offer
    claim_eviction stop ℕ_discrete
lagging_evicted = refl

unsubscribed : (unsubscribe map_tree one_subscriber (b'y' ∷ []) app).topics ≡ []
unfolding unsubscribe subscribe ℕ_discrete new_subscriber
unsubscribed = refl

stopped_driver : (stop_driver map_tree one_subscriber).topics ≡ []
unfolding stop_driver subscribe ℕ_discrete new_subscriber
stopped_driver = refl

abbrev is_first : Laggard → Bool
is_first l = l.0.id == 1

apart_text : (a b : Text) → text_key.same a b ≡ false → ¬ (a ≡ b)
apart_text a b h e =
    not-both (text_key.same a b) h (ap (text_key.same a) (sym e) ∙ text_key.same_self a)

entries-IsUnique : IsUnique text_key entries
unfolding ℕ_discrete
entries-IsUnique = (
  (apart_text app_module app refl, (apart_text (b'b' ∷ []) app refl, tt)),
  ((apart_text (b'b' ∷ []) app_module refl, tt), (tt, tt)),
)

targets-fanout_targets_example :
    count is_first (targets map_tree entries (b'x' ∷ []) app_module)
    ≡ count is_first (fanout_targets entries (b'x' ∷ []) app_module)
targets-fanout_targets_example =
    targets-fanout_targets map_tree entries entries (b'x' ∷ []) app_module (λ k. refl)
      entries-IsUnique is_first
