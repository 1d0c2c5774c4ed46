-- ===== src/Media/Lane.antt =====
-- kernel/media/lane.rs: the bounded queue of frames between the inbound pump and the task that
-- writes to the client, by the steps that its lock and its signal channel make atomic. A push and
-- a close release the lock before they signal; the receiver inspects the queue under the lock and
-- then waits for the signal, where `select!` may drop it.
use citadel_agent.Prelude.{
  ℕ, ◌+◌, ◌-◌, ◌%◌, ◌^◌, Bool, true, false, Option, none, some, List, [], ◌∷◌, ◌++◌, ltb, leb,
  if◌then◌else◌, length,
}

pub data PushOutcome : Type 0 where
  queued dropped_oldest closed : PushOutcome

-- Where the receiver is: at the top of its loop, at the signal, or past the end.
pub data Receiver : Type 0 where
  inspecting at_signal finished : Receiver

module _ {ℓ} (A : Type ℓ) where
  pub record LaneState : Type ℓ where
    pub queue : List A
    pub is_closed : Bool
    pub dropped : ℕ

  -- The lane, its wake-up of capacity one, and how many calls have unlocked and not yet signalled.
  pub record Lane : Type ℓ where
    pub state : LaneState
    pub capacity : ℕ
    pub signal : Bool
    pub signalling : ℕ
    pub receiver : Receiver

  pub data Op : Type ℓ where
    push : A → Op
    close signalled inspect wake cancel : Op

module _ {ℓ} {A : Type ℓ} where
  abbrev pub media_lane : ℕ → Lane A
  media_lane capacity = record {
    state = record { queue = []; is_closed = false; dropped = 0 };
    capacity = capacity;
    signal = false;
    signalling = 0;
    receiver = inspecting;
  }

  abbrev pub pop_front : List A → List A
  pop_front [] = []
  pop_front (x ∷ xs) = xs

  -- What a push does under the lock to a lane that is open.
  unfoldable pub enqueue : ℕ → LaneState A → A → LaneState A × PushOutcome
  enqueue capacity s item =
      if leb capacity (length s.queue)
      then (
        record s { queue = pop_front s.queue ++ item ∷ []; dropped = (s.dropped + 1) % 2 ^ 64 },
        dropped_oldest,
      )
      else (record s { queue = s.queue ++ item ∷ [] }, queued)

  unfoldable pub push_item : Lane A → A → Lane A × PushOutcome
  unfolding enqueue
  push_item l item =
      let (s, outcome) = enqueue l.capacity l.state item in
      if l.state.is_closed
      then (l, closed)
      else (record l { state = s; signalling = l.signalling + 1 }, outcome)

  unfoldable pub close_lane : Lane A → Lane A
  close_lane l = record l {
    state = record (l.state) { is_closed = true };
    signalling = l.signalling + 1;
  }

  -- `try_send`: full means that a wake-up is pending already.
  unfoldable pub send_signal : Lane A → Lane A
  send_signal l =
      if ltb 0 l.signalling then record l { signal = true; signalling = l.signalling - 1 } else l

  abbrev pub front : Lane A → List A → Lane A × Option A
  front l [] = (record l { receiver = if l.state.is_closed then finished else at_signal }, none)
  front l (x ∷ xs) = (record l { state = record (l.state) { queue = xs } }, some x)

  abbrev pub at : Receiver → Lane A × Option A → Lane A → Lane A × Option A
  at inspecting r l = r
  at at_signal r l = (l, none)
  at finished r l = (l, none)

  -- The receiver's turn under the lock, if it is there.
  unfoldable pub inspect_queue : Lane A → Lane A × Option A
  inspect_queue l = at l.receiver (front l l.state.queue) l

  abbrev pub woken : Receiver → Bool → Lane A → Lane A
  woken at_signal true l = record l { signal = false; receiver = inspecting }
  woken _ _ l = l

  unfoldable pub take_signal : Lane A → Lane A
  take_signal l = woken l.receiver l.signal l

  -- `select!` drops the call, and a later one starts over.
  abbrev pub cancelled : Receiver → Lane A → Lane A
  cancelled at_signal l = record l { receiver = inspecting }
  cancelled _ l = l

  unfoldable pub cancel_recv : Lane A → Lane A
  cancel_recv l = cancelled l.receiver l

  -- One atomic step, and the frame that it delivers.
  unfoldable pub step : Lane A → Op A → Lane A × Option A
  unfolding push_item close_lane send_signal inspect_queue take_signal cancel_recv
  step l (push item) = ((push_item l item).0, none)
  step l close = (close_lane l, none)
  step l signalled = (send_signal l, none)
  step l inspect = inspect_queue l
  step l wake = (take_signal l, none)
  step l cancel = (cancel_recv l, none)

  abbrev pub deliver : Option A → List A → List A
  deliver none xs = xs
  deliver (some x) xs = x ∷ xs

  -- A run of steps, and the frames delivered, in order.
  unfoldable pub run : Lane A → List (Op A) → Lane A × List A
  unfolding step
  run l [] = (l, [])
  run l (op ∷ ops) =
      let (next, got) = step l op in
      let (last, delivered) = run next ops in (last, deliver got delivered)
