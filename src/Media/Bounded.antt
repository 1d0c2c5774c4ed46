-- ===== src/Media/Bounded.antt =====
-- The media lane is bounded and keeps the order of its frames (kernel/media/lane.rs).
use mathlib.Core.List.{Sublistᴰ}
use mathlib.Core.List.Sublistᴰ
use citadel_agent.Prelude.{
  ◌-◌, ◌≤◌, ◌<◌, max, ◌≡◌, refl, sym, ap, subst, Bool, true, false, Option, none, some, List, [],
  ◌∷◌, ◌++◌, Bool-cases, inl, inr, arith, if_cases, length, length-append, leb, ltb,
}
use citadel_agent.Media.Lane.{
  Receiver, inspecting, at_signal, finished, Lane, Op, push, close, signalled, inspect, wake,
  cancel, pop_front, enqueue, push_item, close_lane, send_signal, front, at, inspect_queue, woken,
  take_signal, cancelled, cancel_recv, step, deliver, run,
}

module _ {ℓ} {A : Type ℓ} where
  append_assoc : (x y z : List A) → (x ++ y) ++ z ≡ x ++ (y ++ z)
  append_assoc [] y z = refl
  append_assoc (c ∷ x) y z = ap (λ xs. c ∷ xs) (append_assoc x y z)

  append_nil : (x : List A) → x ++ [] ≡ x
  append_nil [] = refl
  append_nil (c ∷ x) = ap (λ xs. c ∷ xs) (append_nil x)

  -- The frames that a run pushes, in order.
  abbrev pub pushed_by : Op A → List A
  pushed_by (push item) = item ∷ []
  pushed_by close = []
  pushed_by signalled = []
  pushed_by inspect = []
  pushed_by wake = []
  pushed_by cancel = []

  abbrev pub pushed : List (Op A) → List A
  pushed [] = []
  pushed (op ∷ ops) = pushed_by op ++ pushed ops

  pop_front-Sublistᴰ : (q : List A) → Sublistᴰ (pop_front q) q
  pop_front-Sublistᴰ [] = Sublistᴰ.slnil
  pop_front-Sublistᴰ (x ∷ xs) = Sublistᴰ.cons (Sublistᴰ.refl xs)

  -- What a step delivers and leaves was queued before, or is what it pushes.
  abbrev IsFrom : Lane A → List A → Lane A × Option A → Type ℓ
  IsFrom l new (next, got) = Sublistᴰ (deliver got next.state.queue) (l.state.queue ++ new)

  same : (q : List A) → Sublistᴰ q (q ++ [])
  same q = subst (Sublistᴰ q) (sym (append_nil q)) (Sublistᴰ.refl q)

  same_step : (l next : Lane A) → next.state.queue ≡ l.state.queue → IsFrom l [] (next, none)
  same_step l next e = subst (λ q. Sublistᴰ q (l.state.queue ++ [])) (sym e) (same l.state.queue)

  push-IsFrom : (l : Lane A) (item : A) → IsFrom l (item ∷ []) ((push_item l item).0, none)
  unfolding push_item enqueue
  push-IsFrom l item =
      let item_alone : List A = item ∷ [] in
      elim (Bool-cases l.state.is_closed) [
        | inl e ↦ rw e (
            Sublistᴰ.trans (same l.state.queue)
              (Sublistᴰ.append (Sublistᴰ.refl l.state.queue) (Sublistᴰ.cons Sublistᴰ.slnil)))
        | inr e ↦ elim (Bool-cases (leb l.capacity (length l.state.queue))) [
          | inl f ↦
              rw (e, f)
                (Sublistᴰ.append (pop_front-Sublistᴰ l.state.queue) (Sublistᴰ.refl item_alone))
          | inr f ↦ rw (e, f) (Sublistᴰ.refl (l.state.queue ++ item_alone))
        ]
      ]

  front-IsFrom : (l : Lane A) (q : List A) → l.state.queue ≡ q → IsFrom l [] (front l q)
  front-IsFrom l [] e = same l.state.queue
  front-IsFrom l (x ∷ xs) e = subst (Sublistᴰ (x ∷ xs)) (sym (ap (λ q. q ++ []) e)) (same (x ∷ xs))

  inspect-IsFrom : (r : Receiver) (l : Lane A) → IsFrom l [] (at r (front l l.state.queue) l)
  inspect-IsFrom inspecting l = front-IsFrom l l.state.queue refl
  inspect-IsFrom at_signal l = same l.state.queue
  inspect-IsFrom finished l = same l.state.queue

  woken-queue : (r : Receiver) (b : Bool) (l : Lane A) → (woken r b l).state.queue ≡ l.state.queue
  woken-queue at_signal true l = refl
  woken-queue at_signal false l = refl
  woken-queue inspecting b l = refl
  woken-queue finished b l = refl

  cancelled-queue : (r : Receiver) (l : Lane A) → (cancelled r l).state.queue ≡ l.state.queue
  cancelled-queue at_signal l = refl
  cancelled-queue inspecting l = refl
  cancelled-queue finished l = refl

  send-queue : (l : Lane A) → (send_signal l).state.queue ≡ l.state.queue
  unfolding send_signal
  send-queue l = if_cases (λ m. m.state.queue ≡ l.state.queue) (ltb 0 l.signalling) _ l refl refl

  step-IsFrom : (l : Lane A) (op : Op A) → IsFrom l (pushed_by op) (step l op)
  unfolding step close_lane inspect_queue take_signal cancel_recv
  step-IsFrom l (push item) = push-IsFrom l item
  step-IsFrom l close = same l.state.queue
  step-IsFrom l signalled = same_step l (send_signal l) (send-queue l)
  step-IsFrom l inspect = inspect-IsFrom l.receiver l
  step-IsFrom l wake = same_step l (woken l.receiver l.signal l) (woken-queue l.receiver l.signal l)
  step-IsFrom l cancel = same_step l (cancelled l.receiver l) (cancelled-queue l.receiver l)

  deliver-append : (got : Option A) (xs ys : List A) → deliver got (xs ++ ys) ≡ deliver got xs ++ ys
  deliver-append none xs ys = refl
  deliver-append (some x) xs ys = refl

  deliver-Sublistᴰ :
      (got : Option A) (xs ys : List A)
      → Sublistᴰ xs ys
      → Sublistᴰ (deliver got xs) (deliver got ys)
  deliver-Sublistᴰ none xs ys s = s
  deliver-Sublistᴰ (some x) xs ys s = Sublistᴰ.cons-cons refl s

  -- In any run, the frames delivered and then those left in the queue are, in order, among the
  -- frames that were queued at the start and then those that the run pushed: none is reordered,
  -- duplicated or made up.
  pub run-in_order :
      (l : Lane A) (ops : List (Op A))
      → Sublistᴰ ((run l ops).1 ++ (run l ops).0.state.queue) (l.state.queue ++ pushed ops)
  unfolding run
  run-in_order l [] = same l.state.queue
  run-in_order l (op ∷ ops) =
      let next = (step l op).0 in
      let got = (step l op).1 in
      let rest = run-in_order next ops in
      let delivered = (run next ops).1 in
      let left = (run next ops).0.state.queue in
      let front_kept = Sublistᴰ.append (step-IsFrom l op) (Sublistᴰ.refl (pushed ops)) in
      let all_kept =
        deliver-Sublistᴰ got (delivered ++ left) (next.state.queue ++ pushed ops) rest in
      subst (λ xs. Sublistᴰ xs (l.state.queue ++ (pushed_by op ++ pushed ops)))
        (deliver-append got delivered left)
        (Sublistᴰ.trans all_kept (
          subst (λ xs. Sublistᴰ xs (l.state.queue ++ (pushed_by op ++ pushed ops)))
            (sym (deliver-append got next.state.queue (pushed ops)))
            (subst (Sublistᴰ (deliver got next.state.queue ++ pushed ops))
              (append_assoc l.state.queue (pushed_by op) (pushed ops)) front_kept)))

  -- The bound: the capacity, or one frame on a lane with no room at all.
  abbrev pub IsBounded : Lane A → Type 0
  IsBounded l = length l.state.queue ≤ max l.capacity 1

  length-pop_front : (q : List A) → length (pop_front q) ≡ length q - 1
  length-pop_front [] = omega arith
  length-pop_front (x ∷ xs) = omega arith

  push-IsBounded : (l : Lane A) (item : A) → IsBounded l → IsBounded (push_item l item).0
  unfolding push_item enqueue
  push-IsBounded l item b =
      let item_alone : List A = item ∷ [] in
      elim (Bool-cases l.state.is_closed) [
        | inl e ↦ rw e b
        | inr e ↦ elim (Bool-cases (leb l.capacity (length l.state.queue))) [
          | inl f ↦
              rw (e, f)
                (omega (
                  arith,
                  length-append (pop_front l.state.queue) item_alone,
                  length-pop_front l.state.queue,
                ))
          | inr f ↦
              let room = below f in
              rw (e, f) (omega (arith, length-append l.state.queue item_alone))
        ]
      ]
    where
      below : leb l.capacity (length l.state.queue) ≡ false → length l.state.queue < l.capacity
      below f = ground arith

  front-IsBounded :
      (l : Lane A) (q : List A)
      → length q ≤ max l.capacity 1
      → length l.state.queue ≤ max l.capacity 1
      → IsBounded (front l q).0
  front-IsBounded l [] b c = c
  front-IsBounded l (x ∷ xs) b c = omega arith

  inspect-IsBounded :
      (r : Receiver) (l : Lane A) → IsBounded l → IsBounded (at r (front l l.state.queue) l).0
  inspect-IsBounded inspecting l b = front-IsBounded l l.state.queue b b
  inspect-IsBounded at_signal l b = b
  inspect-IsBounded finished l b = b

  woken-IsBounded : (r : Receiver) (s : Bool) (l : Lane A) → IsBounded l → IsBounded (woken r s l)
  woken-IsBounded at_signal true l b = b
  woken-IsBounded at_signal false l b = b
  woken-IsBounded inspecting s l b = b
  woken-IsBounded finished s l b = b

  cancelled-IsBounded : (r : Receiver) (l : Lane A) → IsBounded l → IsBounded (cancelled r l)
  cancelled-IsBounded at_signal l b = b
  cancelled-IsBounded inspecting l b = b
  cancelled-IsBounded finished l b = b

  step-IsBounded : (l : Lane A) (op : Op A) → IsBounded l → IsBounded (step l op).0
  unfolding step close_lane send_signal inspect_queue take_signal cancel_recv
  step-IsBounded l (push item) b = push-IsBounded l item b
  step-IsBounded l close b = b
  step-IsBounded l signalled b = if_cases IsBounded (ltb 0 l.signalling) _ l b b
  step-IsBounded l inspect b = inspect-IsBounded l.receiver l b
  step-IsBounded l wake b = woken-IsBounded l.receiver l.signal l b
  step-IsBounded l cancel b = cancelled-IsBounded l.receiver l b

  -- Whatever is pushed and however slowly it is received, a lane that starts within its bound
  -- stays within it: its capacity, or one frame if the capacity is zero.
  pub run-IsBounded : (l : Lane A) (ops : List (Op A)) → IsBounded l → IsBounded (run l ops).0
  unfolding run
  run-IsBounded l [] b = b
  run-IsBounded l (op ∷ ops) b = run-IsBounded (step l op).0 ops (step-IsBounded l op b)
