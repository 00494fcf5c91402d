-- ===== src/Tests/Buses.antt =====
-- Runs of the definitions about pkg/services/messagebus on concrete inputs.
use framingo.Prelude.{ℕ, ◌≡◌, refl, List, [], ◌∷◌, Bool, true, false, ℕ_discrete}
use framingo.Prelude.Dicts.{text_key}
use framingo.Messagebus.{
  Module, subscribes, new_bus, subscribe, unsubscribe, perform, perform_all, register_locked,
  start_locked, stop_locked, Call, registers, starts, stops, finish, call, calls, dispatch, message,
  raw,
}
use framingo.Messagebus.Subscribed.{IsSubscribed, calls-IsSubscribed}

abbrev a_module : Module (List ℕ)
a_module = record { name = b'a' ∷ []; handles = true; handles_raw = true }

abbrev mute_module : Module (List ℕ)
mute_module = record { name = b'm' ∷ []; handles = false; handles_raw = false }

abbrev takes_all : List ℕ → Bool
takes_all n = true

abbrev some_calls : List (Call (List ℕ))
some_calls = registers mute_module ∷ starts ∷ registers a_module ∷ registers a_module ∷ starts ∷ []

some_calls-subscriptions :
    (calls text_key takes_all (new_bus text_key takes_all) some_calls).subscriptions
    ≡ (b'a' ∷ []) ∷ []
unfolding calls call finish new_bus register_locked start_locked perform_all perform subscribe
    ℕ_discrete
some_calls-subscriptions = refl

calls-IsSubscribed_example :
    IsSubscribed text_key takes_all
      (calls text_key takes_all (new_bus text_key takes_all) some_calls)
unfolding new_bus
calls-IsSubscribed_example =
    calls-IsSubscribed text_key takes_all (new_bus text_key takes_all) some_calls
      record { unique = tt; named = tt; exact = λ n. refl }

-- A register that has read `started` subscribes after the stop, and the next start once more.
late_subscription :
    (call text_key takes_all
      (perform text_key takes_all
        (call text_key takes_all
          (register_locked text_key takes_all
            (calls text_key takes_all (new_bus text_key takes_all) (starts ∷ []))
            a_module).0
          stops)
        (subscribes a_module))
      starts).subscriptions
    ≡ (b'a' ∷ []) ∷ (b'a' ∷ []) ∷ []
unfolding calls call finish new_bus register_locked start_locked stop_locked perform_all perform
    subscribe unsubscribe ℕ_discrete
late_subscription = refl

both_handlers : dispatch a_module true ≡ message ∷ raw ∷ []
unfolding dispatch
both_handlers = refl
