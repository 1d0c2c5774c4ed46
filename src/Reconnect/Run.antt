-- ===== src/Reconnect/Run.antt =====
-- kernel/reconnect/task.rs, `run`: one reconnect run, from the drop to its end. What the
-- loop awaits is an event: how long the sleep and the attempt took beyond the delay, and how the
-- attempt ended.
use citadel_agent.Prelude.{ℕ, ◌+◌, Option, List, [], ◌∷◌}
use citadel_agent.Text.{Text}
use citadel_agent.Time.{Duration, saturating_suc}
use citadel_agent.Reconnect.Policy.{
  ReconnectPolicy, Next, GiveUp, retry_after, give_up, delay_before, after_failure, for_keep_alive,
}
use citadel_agent.Reconnect.Failure.{ErrorRegistry, classify}

pub data RunEnd : Type 0 where
  stopped installed fail_needs_user fail_another : RunEnd
  fail_gave_up : GiveUp → RunEnd

-- The run at the head of its loop.
pub record Waiting : Type 0 where
  pub attempt : ℕ
  pub delay : Duration
  pub elapsed : Duration

pub data Progress : Type 0 where
  waits : Waiting → Progress
  ends : RunEnd → Progress

abbrev pub start : ReconnectPolicy → Waiting
start p = record { attempt = 0; delay = delay_before p 0; elapsed = 0 }

abbrev pub after_next : ℕ → Duration → Next → Progress
after_next attempt elapsed (retry_after next) =
    waits (record { attempt = saturating_suc attempt; delay = next; elapsed = elapsed })
after_next attempt elapsed (give_up why) = ends (fail_gave_up why)

module _ (registry : ErrorRegistry) where
  -- How a turn of the loop goes: the session is gone, another owns it, only the user can sign in,
  -- the link is back, the server answers as another account, or the connect fails.
  pub data Attempt : Type 0 where
    ended_meanwhile no_longer_wanted needs_user connected connected_as_another : Attempt
    failed : registry.ErrorCode → Text → Attempt

  pub record Turn : Type 0 where
    pub took : Duration
    pub keep_alive_timeout : Option Duration
    pub attempt : Attempt

module _ (registry : ErrorRegistry) (sdk_keep_alive_check : Duration) where
  unfoldable pub turn :
      ReconnectPolicy → Waiting → Duration → Option Duration → Attempt registry → Progress
  turn p w took keep_alive ended_meanwhile = ends stopped
  turn p w took keep_alive no_longer_wanted = ends stopped
  turn p w took keep_alive needs_user = ends fail_needs_user
  turn p w took keep_alive connected = ends installed
  turn p w took keep_alive connected_as_another = ends fail_another
  turn p w took keep_alive (failed code message) =
      let elapsed = w.elapsed + w.delay + took in
      after_next w.attempt elapsed (
        after_failure (for_keep_alive sdk_keep_alive_check p keep_alive) w.attempt elapsed
          (classify registry code message))

  unfoldable pub run : ReconnectPolicy → Waiting → List (Turn registry) → Progress
  unfolding turn
  run p w [] = waits w
  run p w (t ∷ ts) = elim (turn p w t.took t.keep_alive_timeout t.attempt) [
    | waits next ↦ run p next ts
    | ends e ↦ ends e
  ]
