-- ===== src/Media/Wakeup.antt =====
-- No frame is stranded in the media lane (kernel/media/lane.rs, `recv`, `push`, `close`).
use citadel_agent.Prelude.{
  ℕ, ◌+◌, ◌-◌, ◌<◌, ◌≡◌, ◌⊎◌, refl, sym, subst, Bool, true, false, List, [], ◌∷◌, inl, inr, arith,
  if◌then◌else◌, if_cases, ltb,
}
use citadel_agent.Media.Lane.{
  PushOutcome, Receiver, inspecting, at_signal, finished, LaneState, Lane, Op, push, close,
  signalled, inspect, wake, cancel, media_lane, enqueue, push_item, close_lane, send_signal, front,
  at, inspect_queue, woken, take_signal, cancelled, cancel_recv, step, run,
}

module _ {ℓ} {A : Type ℓ} where
  -- A wake-up is in the channel, or a call that has unlocked is about to send one.
  abbrev pub IsSignalled : Lane A → Type 0
  IsSignalled l = (l.signal ≡ true) ⊎ (0 < l.signalling)

  abbrev pub IsEmpty : List A → Type 0
  IsEmpty [] = Unit
  IsEmpty (x ∷ xs) = ⊥

  -- There is nothing for the receiver: no frame, and the lane is open.
  abbrev pub IsIdle : LaneState A → Type 0
  IsIdle s = IsEmpty s.queue × (s.is_closed ≡ false)

  -- A receiver at the signal has nothing to take, or its wake-up is on the way.
  abbrev pub IsAwake : Receiver → Lane A → Type 0
  IsAwake inspecting l = Unit
  IsAwake finished l = Unit
  IsAwake at_signal l = IsIdle l.state ⊎ IsSignalled l

  sent-IsAwake : (r : Receiver) (l : Lane A) → IsSignalled l → IsAwake r l
  sent-IsAwake inspecting l s = tt
  sent-IsAwake finished l s = tt
  sent-IsAwake at_signal l s = inr s

  abbrev pub IsFine : Lane A → Type 0
  IsFine l = IsAwake l.receiver l

  push-IsFine : (l : Lane A) (item : A) → IsFine l → IsFine (push_item l item).0
  unfolding push_item enqueue
  push-IsFine l item a =
      let (s, outcome) = enqueue l.capacity l.state item in
      if_cases (λ (r : Lane A × PushOutcome). IsFine r.0) l.state.is_closed (l, PushOutcome.closed)
        (record l { state = s; signalling = l.signalling + 1 }, outcome) a
        (sent-IsAwake l.receiver (record l { state = s; signalling = l.signalling + 1 })
          (inr (omega arith)))

  parked-IsFine :
      (closed : Bool) (l : Lane A)
      → l.state.is_closed ≡ closed
      → IsEmpty l.state.queue
      → IsFine (record l { receiver = if closed then finished else at_signal })
  parked-IsFine true l e q = tt
  parked-IsFine false l e q = inl (q, e)

  front-IsFine :
      (l : Lane A) (q : List A) → l.state.queue ≡ q → l.receiver ≡ inspecting → IsFine (front l q).0
  front-IsFine l [] e r = parked-IsFine l.state.is_closed l refl (subst IsEmpty (sym e) tt)
  front-IsFine l (x ∷ xs) e r = subst (λ s. IsAwake s (front l (x ∷ xs)).0) (sym r) tt

  inspect-IsFine :
      (r : Receiver) (l : Lane A)
      → l.receiver ≡ r
      → IsFine l
      → IsFine (at r (front l l.state.queue) l).0
  inspect-IsFine inspecting l e a = front-IsFine l l.state.queue refl e
  inspect-IsFine at_signal l e a = a
  inspect-IsFine finished l e a = a

  woken-IsFine : (r : Receiver) (s : Bool) (l : Lane A) → IsFine l → IsFine (woken r s l)
  woken-IsFine at_signal true l a = tt
  woken-IsFine at_signal false l a = a
  woken-IsFine inspecting s l a = a
  woken-IsFine finished s l a = a

  cancelled-IsFine : (r : Receiver) (l : Lane A) → IsFine l → IsFine (cancelled r l)
  cancelled-IsFine at_signal l a = tt
  cancelled-IsFine inspecting l a = a
  cancelled-IsFine finished l a = a

  step-IsFine : (l : Lane A) (op : Op A) → IsFine l → IsFine (step l op).0
  unfolding step close_lane send_signal inspect_queue take_signal cancel_recv
  step-IsFine l (push item) a = push-IsFine l item a
  step-IsFine l close a = sent-IsAwake l.receiver (close_lane l) (inr (omega arith))
  step-IsFine l signalled a =
      if_cases IsFine (ltb 0 l.signalling)
        (record l { signal = true; signalling = l.signalling - 1 }) l
        (sent-IsAwake l.receiver _ (inl refl)) a
  step-IsFine l inspect a = inspect-IsFine l.receiver l refl a
  step-IsFine l wake a = woken-IsFine l.receiver l.signal l a
  step-IsFine l cancel a = cancelled-IsFine l.receiver l a

  run-IsFine : (l : Lane A) (ops : List (Op A)) → IsFine l → IsFine (run l ops).0
  unfolding run
  run-IsFine l [] a = a
  run-IsFine l (op ∷ ops) a = run-IsFine (step l op).0 ops (step-IsFine l op a)

  -- However the steps of pushes, closes, signals, inspections and cancelled waits interleave on a
  -- new lane, a receiver that waits at the signal while a frame is queued or the lane is closed
  -- has a wake-up: it is in the channel, or the call that is to send it has released the lock and
  -- not yet sent it. So no frame and no close is stranded.
  pub reach-IsAwake :
      (capacity : ℕ) (ops : List (Op A))
      → IsAwake (run (media_lane capacity) ops).0.receiver (run (media_lane capacity) ops).0
  reach-IsAwake capacity ops = run-IsFine (media_lane capacity) ops tt
