-- ===== src/Messagebus.antt =====
-- pkg/services/messagebus/business.go and lifecycle.go: the modules of a message bus, their
-- subscriptions and what a message comes to. A subscription to the bus is the name that holds it,
-- and whether the bus takes one is a function that is given. A call is made of its section under the
-- lock and of what follows it; `pending` has the modules and names that calls have still to
-- subscribe or to unsubscribe, so that a history of single steps has every interleaving.
pub mod Counts
pub mod Subscribed
use framingo.Prelude.{
  ℕ, zero, suc, ◌+◌, List, [], ◌∷◌, ◌++◌, Bool, true, false, ◌&&◌, ◌||◌, not, Option, none, some,
  if◌then◌else◌,
}
use framingo.Prelude.Dicts.{Dict, Keyed, lookup, insert}

-- A module by its name, with the interfaces that it implements.
pub record Module (N : Type 0) : Type 0 where
  pub name : N
  pub handles : Bool
  pub handles_raw : Bool

pub record Bus (N : Type 0) : Type 0 where
  pub started : Bool
  pub modules : Dict N (Module N)
  pub subscriptions : List N
  pub listening : List N

-- What a call has to do once it has given the lock back.
pub data Task (N : Type 0) : Type 0 where
  subscribes : Module N → Task N
  unsubscribes : N → Task N

abbrev pub has_handler : {N : Type 0} → Module N → Bool
has_handler s = s.handles || s.handles_raw

-- What arrives of a message, by whether its payload is one of the module's messages.
pub data Handled : Type 0 where
  message raw unhandled : Handled

unfoldable pub dispatch : {N : Type 0} → Module N → Bool → List Handled
dispatch s is_message =
    let typed = s.handles && is_message in
    (if typed then message ∷ [] else [])
    ++ ((if s.handles_raw then raw ∷ [] else [])
        ++ (if typed || s.handles_raw then [] else unhandled ∷ []))

-- A whole call, which nothing interrupts.
pub data Call (N : Type 0) : Type 0 where
  registers : Module N → Call N
  starts stops : Call N

module _ {N : Type 0} (key : Keyed N) (accepts : N → Bool) where
  unfoldable pub new_bus : Bus N
  new_bus = record { started = false; modules = []; subscriptions = []; listening = [] }

  unfoldable pub subscribe : Bus N → Module N → Bus N
  subscribe b s =
      if has_handler s && accepts s.name
      then record b {
        subscriptions = b.subscriptions ++ (s.name ∷ []);
        listening = b.listening ++ (s.name ∷ []);
      }
      else b

  abbrev pub drop_name : N → List N → List N
  drop_name n [] = []
  drop_name n (m ∷ ms) = let rest = drop_name n ms in if key.same m n then rest else m ∷ rest

  -- The bus closes the channels of the name, and the loops that listen to them end.
  unfoldable pub unsubscribe : Bus N → N → Bus N
  unsubscribe b n = record b {
    subscriptions = drop_name n b.subscriptions;
    listening = drop_name n b.listening;
  }

  unfoldable pub perform : Bus N → Task N → Bus N
  perform b (subscribes s) = subscribe b s
  perform b (unsubscribes n) = unsubscribe b n

  unfoldable pub perform_all : Bus N → List (Task N) → Bus N
  perform_all b [] = b
  perform_all b (t ∷ ts) = perform_all (perform b t) ts

  -- `Register` under its lock.
  unfoldable pub register_locked : Bus N → Module N → Bus N × List (Task N)
  register_locked b s = elim (lookup key b.modules s.name) [
    | some _ ↦ (b, [])
    | none ↦ (
      record b { modules = insert key b.modules s.name s },
      if b.started then subscribes s ∷ [] else [],
    )
  ]

  abbrev pub subscribe_tasks : Dict N (Module N) → List (Task N)
  subscribe_tasks [] = []
  subscribe_tasks (e ∷ d) = subscribes e.1 ∷ subscribe_tasks d

  abbrev pub unsubscribe_tasks : Dict N (Module N) → List (Task N)
  unsubscribe_tasks [] = []
  unsubscribe_tasks (e ∷ d) = unsubscribes e.0 ∷ unsubscribe_tasks d

  -- `Start` under its lock.
  unfoldable pub start_locked : Bus N → Bus N × List (Task N)
  start_locked b =
      if b.started then (b, []) else (record b { started = true }, subscribe_tasks b.modules)

  -- `Stop` under its lock.
  unfoldable pub stop_locked : Bus N → Bus N × List (Task N)
  stop_locked b =
      if b.started then (record b { started = false }, unsubscribe_tasks b.modules) else (b, [])

  unfoldable pub finish : Bus N × List (Task N) → Bus N
  unfolding perform_all
  finish (b, ts) = perform_all b ts

  unfoldable pub call : Bus N → Call N → Bus N
  unfolding perform_all finish
  call b (registers s) = finish (register_locked b s)
  call b starts = finish (start_locked b)
  call b stops = finish (stop_locked b)

  unfoldable pub calls : Bus N → List (Call N) → Bus N
  calls b [] = b
  calls b (c ∷ cs) = calls (call b c) cs
