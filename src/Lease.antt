-- ===== src/Lease.antt =====
-- pkg/structs/lease/lease.go: a lease, with the loop that waits on its channels. Each section under
-- the lock and each receive of the loop is one event, so a history is a list of events in any order.
-- A channel of capacity 1 is the list of what it holds. Instants and durations are numbers, so a
-- duration is not negative; `time.Now().Add(time.Until(e) + d)` is `e + d`. The callbacks are names,
-- and `ran` lists those that have run, in order. `starting` counts the calls of `Start` that have
-- passed their test and not yet taken the lock, `loops` those that are in their loop, and `exiting`
-- those that have left it and not yet closed `done`; `ticking` is that the lease has a ticker.
pub mod Expiry
pub mod Endings
pub mod Restarts
use framingo.Prelude.{
  ℕ, ◌+◌, ◌-◌, ◌≡◌, ap, List, [], ◌∷◌, ◌++◌, Bool, true, false, not, ◌&&◌, ◌||◌, Option, none, some,
  ltb, if◌then◌else◌,
}

-- `Type` with the field that it uses.
pub data Action : Type 0 where
  refresh extend : ℕ → Action
  renew : ℕ → Action

-- The `struct{}{}` that `cancelCh` carries.
pub data Signal : Type 0 where
  signal : Signal

-- The channel `done`, before `Start` makes it, and after.
pub data Done : Type 0 where
  unmade opened closed : Done

pub record Lease (H : Type 0) : Type 0 where
  pub duration : ℕ
  pub once : Bool
  pub expired : Bool
  pub expires_at : ℕ
  pub ticking : Bool
  pub action_ch : List Action
  pub cancel_ch : List Signal
  pub done : Done
  pub exiting : ℕ
  pub starting : ℕ
  pub loops : ℕ
  pub on_cancel : List H
  pub on_expire : List H
  pub on_refresh : List H
  pub on_extend : List H
  pub on_renew : List H
  pub ran : List H

-- What a call of `Refresh`, `Extend` or `Renew` gives; `waits` where its `select` has no case ready.
pub data Reply : Type 0 where
  accepted refused waits : Reply

-- The five lists of callbacks.
pub data Kind : Type 0 where
  when_canceled when_expired when_refreshed when_extended when_renewed : Kind

-- `offers` and `presses` are the `select` of a call that has passed its test of `expired`, `asks` and
-- `cancels` a call whose two halves nothing separates. The Boolean is the choice of a `select`
-- whose two cases are ready. So `tests_start` and `initializes` are the two sections of `Start`
-- before its loop, and `starts` is both with nothing between them.
pub data Event (H : Type 0) : Type 0 where
  starts : ℕ → Event H
  tests_start : Event H
  initializes : ℕ → Event H
  takes_cancel : Event H
  takes_action : ℕ → Event H
  ticks : ℕ → Event H
  exits : Event H
  asks offers : Action → Bool → Event H
  cancels presses : Bool → Event H
  registers : Kind → H → Event H

abbrev pub is_closed : Done → Bool
is_closed closed = true
is_closed _ = false

abbrev pub is_open : Done → Bool
is_open opened = true
is_open _ = false

module _ {H : Type 0} where
  unfoldable pub new_lease : ℕ → Bool → Lease H
  new_lease duration once = record {
    duration = duration;
    once = once;
    expired = false;
    expires_at = 0;
    ticking = false;
    action_ch = [];
    cancel_ch = [];
    done = unmade;
    exiting = 0;
    starting = 0;
    loops = 0;
    on_cancel = [];
    on_expire = [];
    on_refresh = [];
    on_extend = [];
    on_renew = [];
    ran = [];
  }

  unfoldable pub initialize : Lease H → ℕ → Lease H
  initialize l now = record l {
    expired = false;
    expires_at = now + l.duration;
    action_ch = [];
    cancel_ch = [];
    done = opened;
    ticking = true;
    loops = l.loops + 1;
  }

  unfoldable pub finalize : Lease H → Lease H
  finalize l = record l {
    ticking = false;
    expired = true;
    exiting = l.exiting + 1;
    loops = l.loops - 1;
  }

  -- The tests that send `Start` back at once.
  unfoldable pub start_refuses : Lease H → Bool
  start_refuses l = l.ticking || (l.once && l.expired)

  unfoldable pub start : Lease H → ℕ → Lease H
  start l now = if start_refuses l then l else initialize l now

  unfoldable pub test_start : Lease H → Lease H
  test_start l = if start_refuses l then l else record l { starting = l.starting + 1 }

  -- What follows for a `Start` that has passed its test.
  unfoldable pub start_tested : Lease H → ℕ → Lease H
  start_tested l now =
      if ltb 0 l.starting then record (initialize l now) { starting = l.starting - 1 } else l

  unfoldable pub take_cancel : Lease H → Lease H
  unfolding finalize
  take_cancel l = record (finalize l) { cancel_ch = []; ran = l.ran ++ l.on_cancel }

  abbrev pub perform : Lease H → Action → ℕ → Lease H
  perform l (refresh d) now = record l { expires_at = now + d; ran = l.ran ++ l.on_refresh }
  perform l (extend d) now = record l { expires_at = l.expires_at + d; ran = l.ran ++ l.on_extend }
  perform l (renew at) now = record l { expires_at = at; ran = l.ran ++ l.on_renew }

  -- `now.Sub(l.expiresAt) > 0`.
  unfoldable pub has_expired : Lease H → ℕ → Bool
  has_expired l now = ltb l.expires_at now

  unfoldable pub tick : Lease H → ℕ → Lease H
  unfolding finalize
  tick l now = if has_expired l now then record (finalize l) { ran = l.ran ++ l.on_expire } else l

  abbrev pub with_action : Lease H → Action → Lease H × Reply
  with_action l a = (record l { action_ch = l.action_ch ++ (a ∷ []) }, accepted)

  -- The `select` of `Refresh`, `Extend` and `Renew`: on a channel that is not made, or full, its
  -- first case is not ready.
  abbrev pub has_room : {A : Type 0} → Lease H → List A → Bool
  has_room l [] = elim l.done [ unmade ↦ false | opened ↦ true | closed ↦ true ]
  has_room l (x ∷ xs) = false

  unfoldable pub offer : Lease H → Action → Bool → Lease H × Reply
  offer l a choice =
      if has_room l l.action_ch && (choice || not (is_closed l.done))
      then with_action l a
      else (l, (if is_closed l.done then refused else waits))

  unfoldable pub ask : Lease H → Action → Bool → Lease H × Reply
  ask l a choice = if l.expired then (l, refused) else offer l a choice

  unfoldable pub press : Lease H → Bool → Lease H
  press l choice =
      if has_room l l.cancel_ch && (choice || not (is_closed l.done))
      then record l { cancel_ch = signal ∷ [] }
      else l

  unfoldable pub cancel : Lease H → Bool → Lease H
  cancel l choice = if l.expired then l else press l choice

  -- The deferred function; closing a closed channel panics.
  unfoldable pub exit : Lease H → Option (Lease H)
  exit l =
      if is_closed l.done then none else some (record l { done = closed; exiting = l.exiting - 1 })

  abbrev pub receive_action : Lease H → List Action → ℕ → Lease H
  receive_action l [] now = l
  receive_action l (a ∷ rest) now = perform (record l { action_ch = rest }) a now

  abbrev pub receive_cancel : Lease H → List Signal → Lease H
  receive_cancel l [] = l
  receive_cancel l (s ∷ rest) = take_cancel l

  -- `OnCancel`, `OnExpired` and the others.
  abbrev pub register : Lease H → Kind → H → Lease H
  register l when_canceled h = record l { on_cancel = l.on_cancel ++ (h ∷ []) }
  register l when_expired h = record l { on_expire = l.on_expire ++ (h ∷ []) }
  register l when_refreshed h = record l { on_refresh = l.on_refresh ++ (h ∷ []) }
  register l when_extended h = record l { on_extend = l.on_extend ++ (h ∷ []) }
  register l when_renewed h = record l { on_renew = l.on_renew ++ (h ∷ []) }

  -- A receive happens only while a loop runs, and `exits` only where one has left its loop. A loop
  -- that is left without a ticker panics, at the ticker's channel or where it stops the ticker.
  abbrev pub by_loop : Lease H → Lease H → Option (Lease H)
  by_loop l k = if ltb 0 l.loops then (if l.ticking then some k else none) else some l

  unfoldable pub step : Lease H → Event H → Option (Lease H)
  step l (starts now) = some (start l now)
  step l tests_start = some (test_start l)
  step l (initializes now) = some (start_tested l now)
  step l takes_cancel = by_loop l (receive_cancel l l.cancel_ch)
  step l (takes_action now) = by_loop l (receive_action l l.action_ch now)
  step l (ticks now) = by_loop l (tick l now)
  step l exits = if ltb 0 l.exiting then exit l else some l
  step l (asks a choice) = some (ask l a choice).0
  step l (offers a choice) = some (offer l a choice).0
  step l (cancels choice) = some (cancel l choice)
  step l (presses choice) = some (press l choice)
  step l (registers kind h) = some (register l kind h)

  unfoldable pub run : Lease H → List (Event H) → Option (Lease H)
  run l [] = some l
  run l (e ∷ es) = elim (step l e) [ none ↦ none | some k ↦ run k es ]

  pub run-step :
      (l k : Lease H) (e : Event H) (es : List (Event H))
      → step l e ≡ some k
      → run l (e ∷ es) ≡ run k es
  unfolding run
  run-step l k e es h =
      ap
        (λ (o : Option (Lease H)). elim o as (λ x. Option (Lease H)) [
          | none ↦ none
          | some k ↦ run k es
        ])
        h
