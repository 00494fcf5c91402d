-- ===== src/Tests/Messages.antt =====
-- Runs of the definitions about pkg/services/pubsub/driver on concrete inputs.
use framingo.Prelude.{ℕ, ◌≡◌, refl, ◌↔◌, List, [], ◌∷◌, ◌++◌, true, false, ◌==◌, arith, ℕ_discrete}
use framingo.Prelude.Sets.{has}
use framingo.Prelude.Int.{pos}
use framingo.Pubsub.{
  default_options, with_queue_cap, Event, offers, nexts, sends, quits, receives, stops, History,
  new_subscriber, offer, next, stop, step, run,
}
use framingo.Pubsub.Conserves.{IsFaithful}
use framingo.Pubsub.Faithful.{run-IsFaithful}
use framingo.Pubsub.Topics.{Topics, topic_matches}
use framingo.Prelude.Text.{split}
use framingo.Pubsub.Hierarchy.{topic_matches-split}
use framingo.Pubsub.Listeners.{
  Call, subscribes, unsubscribes, removes, IsTracked, calls, calls-IsTracked,
}

abbrev fresh_history : History ℕ
unfolding new_subscriber
fresh_history = record {
  now = new_subscriber (with_queue_cap (pos 2) default_options);
  queued = [];
  received = [];
}

abbrev some_events : List (Event ℕ)
some_events =
    offers 1
    ∷ offers 2
    ∷ offers 3
    ∷ nexts
    ∷ sends
    ∷ offers 4
    ∷ receives
    ∷ nexts
    ∷ stops
    ∷ quits
    ∷ []

-- The third message is dropped, and a stop throws away the second and the fourth.
some_events-run : (run fresh_history some_events).received ≡ 1 ∷ []
unfolding fresh_history run step offer next stop
some_events-run = refl

queued_events : (run fresh_history some_events).queued ≡ 1 ∷ 2 ∷ 4 ∷ []
unfolding fresh_history run step offer next stop
queued_events = refl

run-IsFaithful_example : IsFaithful (run fresh_history some_events)
unfolding fresh_history
run-IsFaithful_example = run-IsFaithful fresh_history some_events record {
  lost = [];
  conserved = refl;
  none_lost = λ h. refl;
  none_pending = λ h. refl;
  bounded = omega arith;
}

-- With 0 for the slash, a/b takes a/b/c and not a/bc.
matches_below : topic_matches ℕ_discrete 0 (1 ∷ 0 ∷ 2 ∷ []) (1 ∷ 0 ∷ 2 ∷ 0 ∷ 3 ∷ []) ≡ true
unfolding topic_matches ℕ_discrete
matches_below = refl

matches_not_beside : topic_matches ℕ_discrete 0 (1 ∷ 0 ∷ 2 ∷ []) (1 ∷ 0 ∷ 2 ∷ 3 ∷ []) ≡ false
unfolding topic_matches ℕ_discrete
matches_not_beside = refl

topic_matches-split_example : (topic_matches ℕ_discrete 0 (1 ∷ []) (1 ∷ 0 ∷ 2 ∷ []) ≡ true) ↔ (
    (rest : List (List ℕ)) × (split ℕ_discrete 0 (1 ∷ 0 ∷ 2 ∷ [])
      ≡ split ℕ_discrete 0 (1 ∷ []) ++ rest))
topic_matches-split_example = topic_matches-split ℕ_discrete 0 (1 ∷ []) (1 ∷ 0 ∷ 2 ∷ [])

abbrev two_topics : Topics ℕ ℕ
two_topics = record {
  topics =
      (5, record { name = 1; id = 10 } ∷ record { name = 2; id = 11 } ∷ [])
      ∷ (6, record { name = 1; id = 12 } ∷ [])
      ∷ [];
  patterns = 5 ∷ 6 ∷ [];
}

abbrev no_topics : Topics ℕ ℕ
no_topics = record { topics = []; patterns = [] }

abbrev driver_calls : List (Call ℕ ℕ)
driver_calls =
    subscribes 5 (record { name = 1; id = 10 })
    ∷ subscribes 6 (record { name = 1; id = 11 })
    ∷ unsubscribes (λ n. n == 1) 5
    ∷ removes (λ i. i == 11) 6
    ∷ []

calls-IsTracked_example : IsTracked ℕ_discrete (calls ℕ_discrete no_topics driver_calls)
unfolding has
calls-IsTracked_example = calls-IsTracked ℕ_discrete no_topics driver_calls (λ k. refl)
