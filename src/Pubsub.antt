-- ===== src/Pubsub.antt =====
-- pkg/services/pubsub/driver/util.go and option.go: a subscriber with its queue, its channel and the
-- goroutine that feeds it. Each section under the lock and each send or receive is one event, so a
-- history is a list of events in any order.
pub mod Conserves
pub mod Faithful
pub mod Topics
pub mod Hierarchy
pub mod Listeners
pub mod Memory
pub mod Parents
pub mod Agreement
use framingo.Prelude.{
  ℕ, suc, ◌+◌, List, [], ◌∷◌, ◌++◌, Bool, true, false, not, Option, none, some, leb, ltb,
  if◌then◌else◌, length,
}
use framingo.Prelude.Int.{ℤ, pos, negsuc, is_pos, pos_part}

pub data OnFull : Type 0 where
  drop_message drop_subscriber : OnFull

pub record Options : Type 0 where
  pub on_full : OnFull
  pub queue_cap : ℕ
  pub chan_buf : ℕ

abbrev pub default_options : Options
default_options = record { on_full = drop_message; queue_cap = 50000; chan_buf = 256 }

-- `WithQueueCap` and `WithChannelBuffer` take a positive number only.
abbrev pub with_queue_cap : ℤ → Options → Options
with_queue_cap n o = if is_pos n then record o { queue_cap = pos_part n } else o

abbrev pub with_channel_buffer : ℤ → Options → Options
with_channel_buffer n o = if is_pos n then record o { chan_buf = pos_part n } else o

pub data Delivery : Type 0 where
  delivered dropped_message lagging : Delivery

-- `held` is the message that the pump has taken from the queue and not yet sent, `exited` that the
-- pump has closed the channel.
pub record Subscriber (M : Type 0) : Type 0 where
  pub options : Options
  pub pending : List M
  pub stopped : Bool
  pub drops : ℕ
  pub evicting : Bool
  pub held : Option M
  pub exited : Bool
  pub channel : List M

pub data Event (M : Type 0) : Type 0 where
  offers : M → Event M
  nexts sends quits receives stops claims : Event M

module _ {M : Type 0} where
  unfoldable pub new_subscriber : Options → Subscriber M
  new_subscriber o = record {
    options = o;
    pending = [];
    stopped = false;
    drops = 0;
    evicting = false;
    held = none;
    exited = false;
    channel = [];
  }

  -- The part of `offer` for a full queue.
  abbrev pub refuse : Subscriber M → OnFull → Subscriber M × Delivery × ℕ
  refuse s drop_subscriber = (s, lagging, 0)
  refuse s drop_message = (record s { drops = s.drops + 1 }, dropped_message, s.drops + 1)

  abbrev pub is_full : Subscriber M → Bool
  is_full s = leb s.options.queue_cap (length s.pending)

  unfoldable pub offer : Subscriber M → M → Subscriber M × Delivery × ℕ
  offer s m =
      if s.stopped
      then (s, delivered, 0)
      else (if is_full s
          then refuse s s.options.on_full
          else (record s { pending = s.pending ++ (m ∷ []) }, delivered, 0))

  -- `CompareAndSwap(false, true)`.
  unfoldable pub claim_eviction : Subscriber M → Subscriber M × Bool
  claim_eviction s = if s.evicting then (s, false) else (record s { evicting = true }, true)

  abbrev pub take_next : Subscriber M → List M → Subscriber M
  take_next s [] = s
  take_next s (m ∷ rest) = record s { held = some m; pending = rest }

  -- `next` by the pump when it holds no message: where the subscriber has been stopped it ends, where
  -- the queue is empty it waits.
  unfoldable pub next : Subscriber M → Subscriber M
  next s = if s.stopped then record s { exited = true } else take_next s s.pending

  unfoldable pub stop : Subscriber M → Subscriber M
  stop s = if s.stopped then s else record s { stopped = true; pending = [] }

  -- The two cases of the pump's `select`: the send, if the channel has room, and `quit`.
  abbrev pub send : Subscriber M → Option M → Subscriber M
  send s none = s
  send s (some m) =
      if ltb (length s.channel) s.options.chan_buf
      then record s { held = none; channel = s.channel ++ (m ∷ []) }
      else s

  abbrev pub quit : Subscriber M → Option M → Subscriber M
  quit s none = s
  quit s (some m) = if s.stopped then record s { held = none; exited = true } else s

  abbrev pub is_idle : Subscriber M → Option M → Bool
  is_idle s none = not s.exited
  is_idle s (some m) = false

-- A subscriber with the messages that it has queued so far and those that its reader has received.
pub record History (M : Type 0) : Type 0 where
  pub now : Subscriber M
  pub queued : List M
  pub received : List M

module _ {M : Type 0} where
  abbrev pub receive : History M → List M → History M
  receive h [] = h
  receive h (m ∷ rest) = record h {
    now = record (h.now) { channel = rest };
    received = h.received ++ (m ∷ []);
  }

  -- Whether `offer` queues the message.
  abbrev pub queues : Subscriber M → Bool
  queues s = if s.stopped then false else not (is_full s)

  unfoldable pub step : History M → Event M → History M
  unfolding offer next stop claim_eviction
  step h (offers m) = record h {
    now = (offer h.now m).0;
    queued = if queues h.now then h.queued ++ (m ∷ []) else h.queued;
  }
  step h nexts = if is_idle h.now h.now.held then record h { now = next h.now } else h
  step h sends = record h { now = send h.now h.now.held }
  step h quits = record h { now = quit h.now h.now.held }
  step h receives = receive h h.now.channel
  step h stops = record h { now = stop h.now }
  step h claims = record h { now = (claim_eviction h.now).0 }

  unfoldable pub run : History M → List (Event M) → History M
  unfolding step
  run h [] = h
  run h (e ∷ es) = run (step h e) es
