-- ===== src/Subscribers.antt =====
-- The windows that a session is attached to: citadel-internal-service/src/kernel/session_subscribers.rs.
-- A connection's Uuid is a number.

pub mod Order
pub mod Members
mod Tests
use citadel_agent.Prelude.{
  ℕ, ◌+◌, Bool, true, false, Option, none, some, List, [], ◌∷◌, ◌++◌, ◌==◌, if◌then◌else◌, any,
}

pub record Attached : Type 0 where
  pub order : List ℕ
  pub last_holder : Option ℕ

pub record Detached : Type 0 where
  pub removed : Bool
  pub promoted : Option ℕ

pub data SessionRole : Type 0 where
  primary secondary : SessionRole

abbrev pub new : ℕ → Attached
new first = record { order = first ∷ []; last_holder = none }

abbrev pub contains : ℕ → List ℕ → Bool
contains connection = any (λ m. m == connection)

abbrev pub first_of : List ℕ → Option ℕ
first_of [] = none
first_of (x ∷ xs) = some x

abbrev pub secondaries : List ℕ → List (ℕ × SessionRole)
secondaries [] = []
secondaries (x ∷ xs) = (x, secondary) ∷ secondaries xs

abbrev pub roles_of : List ℕ → List (ℕ × SessionRole)
roles_of [] = []
roles_of (x ∷ xs) = (x, primary) ∷ secondaries xs

unfoldable pub roles : Attached → List (ℕ × SessionRole)
roles a = roles_of a.order

unfoldable pub attach : Attached → ℕ → Attached × Bool
attach a connection =
    if contains connection a.order
    then (a, false)
    else (record { order = a.order ++ connection ∷ []; last_holder = none }, true)

-- `position`, and the order without what is there.
abbrev pub without : ℕ → List ℕ → Option (ℕ × List ℕ)
without connection [] = none
without connection (m ∷ ms) =
    let later = without connection ms in
    if m == connection
    then some (0, ms)
    else elim later [ none ↦ none | some (position, rest) ↦ some (position + 1, m ∷ rest) ]

abbrev pub remembered : Bool → ℕ → List ℕ → Option ℕ → Option ℕ
remembered remember connection [] old = if remember then some connection else none
remembered remember connection (m ∷ ms) old = old

unfoldable pub leave : Attached → ℕ → Bool → Attached × Detached
leave a connection remember = elim (without connection a.order) [
  | none ↦ (a, record { removed = false; promoted = none })
  | some (position, rest) ↦ (
    record { order = rest; last_holder = remembered remember connection rest a.last_holder },
    record { removed = true; promoted = if position == 0 then first_of rest else none },
  )
]

unfoldable pub take_over : Attached → ℕ → Attached × List ℕ
take_over a caller =
    if contains caller a.order
    then (record a { last_holder = none }, [])
    else (record { order = caller ∷ []; last_holder = none }, a.order)

-- The calls that change the set; `detach` remembers and `release` does not.
pub data Call : Type 0 where
  attaching detaching releasing taking_over : ℕ → Call

unfoldable pub after : Attached → Call → Attached
unfolding attach leave take_over
after a (attaching c) = (attach a c).0
after a (detaching c) = (leave a c true).0
after a (releasing c) = (leave a c false).0
after a (taking_over c) = (take_over a c).0

unfoldable pub run : Attached → List Call → Attached
unfolding after
run a [] = a
run a (c ∷ cs) = run (after a c) cs
