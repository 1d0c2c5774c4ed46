-- ===== src/Reconnect/Policy.antt =====
-- kernel/reconnect/policy.rs and LinkState of kernel/reconnect/mod.rs: when to try again and when
-- to stop.
use citadel_agent.Prelude.{
  ℕ, ◌*◌, min, max, Bool, true, false, Option, none, some, ltb, ◌==◌, if◌then◌else◌,
}
use citadel_agent.Time.{
  Duration, duration_max, from_millis, from_secs, as_secs, saturating_add, saturating_suc,
  doublings,
}

pub record ReconnectPolicy : Type 0 where
  pub first_delay : Duration
  pub max_delay : Duration
  pub give_up_after : Duration
  pub attempt_timeout : Duration
  pub server_holds_session_for : Duration

-- The SDK's keep-alive: how often a server checks it.
module _ (sdk_keep_alive_check : Duration) where
  abbrev pub server_session_expiry : Duration → Duration
  server_session_expiry keep_alive_timeout = saturating_add keep_alive_timeout sdk_keep_alive_check

  -- The policy of the agent, by the timeout of a session that names none.
  abbrev pub server_reconnect : Duration → ReconnectPolicy
  server_reconnect sdk_keep_alive_timeout = record {
    first_delay = from_millis 500;
    max_delay = from_secs 30;
    give_up_after = from_secs 600;
    attempt_timeout = from_secs 30;
    server_holds_session_for = server_session_expiry sdk_keep_alive_timeout;
  }

  unfoldable pub for_keep_alive : ReconnectPolicy → Option Duration → ReconnectPolicy
  for_keep_alive p none = p
  for_keep_alive p (some timeout) =
      if as_secs timeout == 0 then record p { server_holds_session_for = 0 } else record p {
        server_holds_session_for = server_session_expiry (from_secs (as_secs timeout));
      }

pub data FailureKind : Type 0 where
  is_refused transient server_holds_session : FailureKind

pub data GiveUp : Type 0 where
  refused out_of_time : GiveUp

pub data Next : Type 0 where
  retry_after : Duration → Next
  give_up : GiveUp → Next

pub data LinkState : Type 0 where
  up reconnecting ending signing_in : LinkState

pub data DropAction : Type 0 where
  reconnect already_reconnecting remove : DropAction

unfoldable pub on_unrequested_drop : LinkState → DropAction
on_unrequested_drop up = reconnect
on_unrequested_drop reconnecting = already_reconnecting
on_unrequested_drop signing_in = already_reconnecting
on_unrequested_drop ending = remove

unfoldable pub claim_requires_sdk_session : LinkState → Bool
claim_requires_sdk_session reconnecting = false
claim_requires_sdk_session signing_in = false
claim_requires_sdk_session up = true
claim_requires_sdk_session ending = true

-- `checked_mul(factor)`, or the longest delay.
unfoldable pub delay_before : ReconnectPolicy → ℕ → Duration
delay_before p attempt =
    let delay = p.first_delay * doublings attempt in
    if ltb duration_max delay then p.max_delay else min delay p.max_delay

unfoldable pub limit : ReconnectPolicy → FailureKind → Duration
limit p server_holds_session = max p.give_up_after p.server_holds_session_for
limit p is_refused = p.give_up_after
limit p transient = p.give_up_after

-- A failure that the server may not repeat.
unfoldable pub after_transient : ReconnectPolicy → ℕ → Duration → FailureKind → Next
after_transient p attempt elapsed kind =
    let delay = delay_before p (saturating_suc attempt) in
    if ltb (limit p kind) (saturating_add elapsed delay)
    then give_up out_of_time
    else retry_after delay

unfoldable pub after_failure : ReconnectPolicy → ℕ → Duration → FailureKind → Next
unfolding after_transient
after_failure p attempt elapsed is_refused = give_up refused
after_failure p attempt elapsed transient = after_transient p attempt elapsed transient
after_failure p attempt elapsed server_holds_session =
    after_transient p attempt elapsed server_holds_session
