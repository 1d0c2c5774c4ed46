-- ===== src/Supervisor/Peer.antt =====
-- kernel/supervisor/core/peer.rs: what the core remembers about one peer.
use citadel_agent.Prelude.{ℕ, Bool, true, false, ◌&&◌, ◌||◌, Option, none, some, ltb, is_some_and}
use citadel_agent.Time.{Duration}
use citadel_agent.Supervisor.Types.{Millis, since, P2pPathReport, server_relay}

pub record Retry : Type 0 where
  pub attempts : ℕ
  pub next_at : Millis
  pub in_flight : Bool

abbrev pub new_retry : Millis → Retry
new_retry now = record { attempts = 0; next_at = now; in_flight = false }

pub record Peer : Type 0 where
  pub connected : Bool
  pub path : Option P2pPathReport
  pub connected_since : Option Millis
  pub lost_at : Option Millis
  pub backlog : ℕ
  pub interest_until : Option Millis
  pub dial : Retry
  pub failed_dials : ℕ
  pub upgrade : Retry
  pub dialing_reported : Bool
  pub degraded_reported : Bool

abbrev pub new_peer : Millis → Peer
new_peer now = record {
  connected = false;
  path = none;
  connected_since = none;
  lost_at = none;
  backlog = 0;
  interest_until = none;
  dial = new_retry now;
  failed_dials = 0;
  upgrade = new_retry now;
  dialing_reported = false;
  degraded_reported = false;
}

-- `path == Some(P2pPathReport::ServerRelay)`.
abbrev pub is_relay : Option P2pPathReport → Bool
is_relay (some server_relay) = true
is_relay _ = false

unfoldable pub has_interest : Peer → Millis → Bool
has_interest p now = is_some_and (λ until. ltb now until) p.interest_until

unfoldable pub in_use : Peer → Millis → Bool
unfolding has_interest
in_use p now = ltb 0 p.backlog || has_interest p now

unfoldable pub wanted : Peer → Millis → Duration → Bool
unfolding in_use
wanted p now redial_window =
    in_use p now || is_some_and (λ lost. ltb (since now lost) redial_window) p.lost_at

unfoldable pub on_relay : Peer → Bool
on_relay p = p.connected && is_relay p.path
