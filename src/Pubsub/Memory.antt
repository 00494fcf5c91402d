-- ===== src/Pubsub/Memory.antt =====
-- pkg/services/pubsub/driver/memory.go, and the dispatcher of util.go. The subscribers are known by
-- their numbers, which are given in the order in which they are made. The trie of topics is a
-- parameter. A call is taken as a whole: that `Publish` evicts after it has given its lock back,
-- and that pumps run beside it, is left out.
use framingo.Prelude.{
  ℕ, ◌+◌, List, [], ◌∷◌, ◌++◌, map, Bool, true, false, not, ◌==◌, Option, none, some, if◌then◌else◌,
  ℕ_discrete,
}
use framingo.Prelude.Text.{same_text, split, join}
use framingo.Pubsub.{
  Options, Delivery, delivered, dropped_message, lagging, Subscriber, new_subscriber, offer,
  claim_eviction, stop,
}
use framingo.Pubsub.Topics.{Listener, topic_matches}

abbrev pub Text : Type 0
Text = List ℕ

-- The calls of the trie that the driver makes.
pub record TopicTree (S V : Type 0) : Type 0 where
  pub find : S → Text → Option V
  pub add : S → Text → V → S
  pub remove_topic : S → Text → S
  pub keys : S → List Text

-- `dispatcher`, with the subscribers that it offers to.
pub record Dispatcher (M : Type 0) : Type 0 where
  pub subscribers : ℕ → Subscriber M
  pub dropped : ℕ
  pub evicted : ℕ

-- A subscriber, paired with the topic that it subscribed to.
abbrev pub Laggard : Type 0
Laggard = Listener Text × Text

abbrev pub is_lagging : Delivery → Bool
is_lagging delivered = false
is_lagging dropped_message = false
is_lagging lagging = true

module _ {M : Type 0} where
  abbrev pub set_subscriber : Dispatcher M → ℕ → Subscriber M → Dispatcher M
  set_subscriber d id s = record d { subscribers = λ j. if j == id then s else d.subscribers j }

  abbrev pub count_drop : Dispatcher M → Delivery → Dispatcher M
  count_drop d delivered = d
  count_drop d dropped_message = record d { dropped = d.dropped + 1 }
  count_drop d lagging = d

  -- `dispatcher.offer`
  unfoldable pub offer_to : Dispatcher M → ℕ → M → Dispatcher M × Bool
  offer_to d id m =
      let (s, result, drops) = offer (d.subscribers id) m in
      (count_drop (set_subscriber d id s) result, is_lagging result)

  -- `claim`
  unfoldable pub claim : Dispatcher M → ℕ → Dispatcher M × Bool
  claim d id =
      let (s, won) = claim_eviction (d.subscribers id) in
      if won then (record (set_subscriber d id s) { evicted = d.evicted + 1 }, true) else (d, false)

  abbrev pub stop_one : Dispatcher M → ℕ → Dispatcher M
  stop_one d id = set_subscriber d id (stop (d.subscribers id))

-- `from != "" && sub.name == from`
abbrev pub is_publisher : Text → Listener Text → Bool
is_publisher [] sub = false
is_publisher (c ∷ cs) sub = same_text ℕ_discrete sub.name (c ∷ cs)

-- The subscribers of a topic that a message is offered to.
abbrev pub others : Text → Text → List (Listener Text) → List Laggard
others from topic [] = []
others from topic (s ∷ ss) =
    let rest = others from topic ss in if is_publisher from s then rest else (s, topic) ∷ rest

module _ {M : Type 0} where
  -- The loop over the subscribers, and what has lagged.
  unfoldable pub offer_each : Dispatcher M → List Laggard → M → Dispatcher M × List Laggard
  offer_each d [] m = (d, [])
  offer_each d (l ∷ ls) m =
      let (d', lags) = offer_to d l.0.id m in
      let r = offer_each d' ls m in (r.0, if lags then l ∷ r.1 else r.1)

-- Those that `fanout` offers a message to.
abbrev pub fanout_targets : List (Text × List (Listener Text)) → Text → Text → List Laggard
fanout_targets [] from topic = []
fanout_targets ((sub, subs) ∷ topics) from topic =
    let rest = fanout_targets topics from topic in
    if topic_matches ℕ_discrete b'/' sub topic then others from sub subs ++ rest else rest

unfoldable pub fanout :
    {M : Type 0}
    → Dispatcher M
    → List (Text × List (Listener Text))
    → Text
    → Text
    → M
    → Dispatcher M × List Laggard
unfolding offer_each
fanout d topics from topic m = offer_each d (fanout_targets topics from topic) m

-- `sections[:i+1]` for each i.
abbrev pub heads : List Text → List (List Text)
heads [] = []
heads (p ∷ ps) = (p ∷ []) ∷ map (λ qs. p ∷ qs) (heads ps)

-- The topic and its parents.
abbrev pub prefixes : Text → List Text
prefixes topic = map (join ℕ_discrete b'/') (heads (split ℕ_discrete b'/' topic))

abbrev pub found : Option (List (Listener Text)) → List (Listener Text)
found none = []
found (some subs) = subs

module _ {S : Type 0} (tree : TopicTree S (List (Listener Text))) where
  abbrev pub at_topics : S → List Text → List (Listener Text)
  at_topics s [] = []
  at_topics s (k ∷ ks) = found (tree.find s k) ++ at_topics s ks

  -- `getSubscribers`
  abbrev pub get_subscribers : S → Text → List (Listener Text)
  get_subscribers s topic = at_topics s (prefixes topic)

  -- Those that `Publish` offers a message to, under the topics of a list.
  abbrev pub targets_at : S → Text → List Text → List Laggard
  targets_at s from [] = []
  targets_at s from (k ∷ ks) = others from k (found (tree.find s k)) ++ targets_at s from ks

  abbrev pub targets : S → Text → Text → List Laggard
  targets s from topic = targets_at s from (prefixes topic)

pub record Memory (S M : Type 0) : Type 0 where
  pub dispatcher : Dispatcher M
  pub topics : S
  pub created : ℕ

abbrev pub keep_others : (Listener Text → Bool) → List (Listener Text) → List (Listener Text)
keep_others drops [] = []
keep_others drops (s ∷ ss) = let rest = keep_others drops ss in if drops s then rest else s ∷ rest

abbrev pub is_named : Text → Listener Text → Bool
is_named name s = same_text ℕ_discrete s.name name

module _ {M : Type 0} where
  abbrev pub stop_all : Dispatcher M → List (Listener Text) → Dispatcher M
  stop_all d [] = d
  stop_all d (s ∷ ss) = stop_all (stop_one d s.id) ss

module _ {S : Type 0} (tree : TopicTree S (List (Listener Text))) where
  abbrev pub add_subscriber : S → Text → Listener Text → Option (List (Listener Text)) → S
  add_subscriber s topic sub none = tree.add s topic (sub ∷ [])
  add_subscriber s topic sub (some subs) =
      tree.add (tree.remove_topic s topic) topic (subs ++ (sub ∷ []))

  -- What is left of a topic's subscribers takes their place, if there are any.
  abbrev pub put_back : S → Text → List (Listener Text) → S
  put_back s topic [] = tree.remove_topic s topic
  put_back s topic (sub ∷ subs) = tree.add (tree.remove_topic s topic) topic (sub ∷ subs)

  abbrev pub drop_where : (Listener Text → Bool) → S → Text → Option (List (Listener Text)) → S
  drop_where drops s topic none = s
  drop_where drops s topic (some subs) = put_back s topic (keep_others drops subs)

  -- `remove`, by identity.
  unfoldable pub remove_listener : S → Text → ℕ → S
  remove_listener s topic id = drop_where (λ l. l.id == id) s topic (tree.find s topic)

  abbrev pub clear_topics : S → List Text → S × List (Listener Text)
  clear_topics s [] = (s, [])
  clear_topics s (k ∷ ks) =
      let r = clear_topics (tree.remove_topic s k) ks in (r.0, found (tree.find s k) ++ r.1)

module _ {S M : Type 0} (tree : TopicTree S (List (Listener Text))) where
  -- `Subscribe`, and the number of the subscriber.
  unfoldable pub subscribe : Memory S M → Options → Text → Text → Memory S M × Option ℕ
  subscribe b opts [] topic = (b, none)
  subscribe b opts (c ∷ cs) topic = (
    record {
      dispatcher = set_subscriber b.dispatcher b.created (new_subscriber opts);
      topics =
          add_subscriber tree b.topics topic record { name = c ∷ cs; id = b.created }
            (tree.find b.topics topic);
      created = b.created + 1;
    },
    some b.created,
  )

  unfoldable pub unsubscribe : Memory S M → Text → Text → Memory S M
  unsubscribe b [] topic = b
  unsubscribe b (c ∷ cs) topic = record b {
    topics = drop_where tree (is_named (c ∷ cs)) b.topics topic (tree.find b.topics topic);
    dispatcher =
        stop_all b.dispatcher
          (keep_others (λ s. not (is_named (c ∷ cs) s)) (found (tree.find b.topics topic)));
  }

  unfoldable pub evict : Memory S M → List Laggard → Memory S M
  evict b [] = b
  evict b (l ∷ ls) =
      let (d, won) = claim b.dispatcher l.0.id in
      evict
        (if won
          then record b {
            dispatcher = stop_one d l.0.id;
            topics = remove_listener tree b.topics l.1 l.0.id;
          }
          else b)
        ls

  unfoldable pub publish : Memory S M → Text → Text → M → Memory S M
  publish b from topic m =
      let r = offer_each b.dispatcher (targets tree b.topics from topic) m in
      evict (record b { dispatcher = r.0 }) r.1

  -- `Stop`
  unfoldable pub stop_driver : Memory S M → Memory S M
  stop_driver b =
      let r = clear_topics tree b.topics (tree.keys b.topics) in
      record b { topics = r.0; dispatcher = stop_all b.dispatcher r.1 }
