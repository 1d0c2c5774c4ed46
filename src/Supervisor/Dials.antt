-- ===== src/Supervisor/Dials.antt =====
-- How often a peer is dialled: `DialPeer` commands (kernel/supervisor/core).
mod Loop
mod Handlers
pub mod Once
use citadel_agent.Prelude.{
  ℕ, suc, ◌+◌, ◌≡◌, Bool, true, false, List, [], ◌∷◌, ◌++◌, Option, none, some, arith, ◌==◌,
  if◌then◌else◌, is_some_and,
}
use citadel_agent.Supervisor.Types.{
  Cid, Command, dial_peer, Input, peer_lost, peer_released, peer_up, dial_result, server_link,
}
use citadel_agent.Supervisor.Peer.{Peer}
use citadel_agent.Supervisor.PeerMap.{get}

abbrev pub is_dial : Cid → Command → Bool
is_dial k (dial_peer j) = k == j
is_dial k _ = false

-- The dials of `k` among the commands.
unfoldable pub dials : Cid → List Command → ℕ
dials k [] = 0
dials k (c ∷ cs) = (if is_dial k c then 1 else 0) + dials k cs

pub dials-append : (k : Cid) (xs ys : List Command) → dials k (xs ++ ys) ≡ dials k xs + dials k ys
unfolding dials
dials-append k [] ys = omega arith
dials-append k (x ∷ xs) ys = omega (arith, dials-append k xs ys)

-- A dial of `k` is out.
unfoldable pub dialing : Cid → List (Cid × Peer) → Bool
dialing k m = is_some_and (λ p. p.dial.in_flight) (get k m)

-- The inputs that may end a dial of `k`: word of the peer itself, or of the server link.
unfoldable pub answers : Cid → Input → Bool
answers k (peer_lost _ j) = k == j
answers k (peer_released _ j) = k == j
answers k (peer_up _ j _) = k == j
answers k (dial_result _ j _) = k == j
answers k (server_link _ _) = true
answers k _ = false
