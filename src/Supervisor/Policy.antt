-- ===== src/Supervisor/Policy.antt =====
-- kernel/supervisor/policy.rs: the numbers the supervisor decides by.
use citadel_agent.Prelude.{ℕ, Bool, true}
use citadel_agent.Time.{Duration, from_secs}

pub record Backoff : Type 0 where
  pub initial : Duration
  pub max : Duration

pub record SupervisorPolicy : Type 0 where
  pub probe_interval : Duration
  pub probe_timeout : Duration
  pub missed_probes : ℕ
  pub dial_backoff : Backoff
  pub unreachable_after : ℕ
  pub unreachable_backoff : Backoff
  pub upgrade_backoff : Backoff
  pub stable_after : Duration
  pub redial_window : Duration
  pub interest_ceiling : Duration
  pub backlog_poll : Duration
  pub jitter_seed : ℕ
  pub jitter_permille : ℕ
  pub dial_peers : Bool

abbrev pub agent_supervisor : SupervisorPolicy
agent_supervisor = record {
  probe_interval = from_secs 15;
  probe_timeout = from_secs 5;
  missed_probes = 2;
  dial_backoff = record { initial = from_secs 1; max = from_secs 30 };
  unreachable_after = 3;
  unreachable_backoff = record { initial = from_secs 60; max = from_secs 900 };
  upgrade_backoff = record { initial = from_secs 5; max = from_secs 300 };
  stable_after = from_secs 60;
  redial_window = from_secs 600;
  interest_ceiling = from_secs 120;
  backlog_poll = from_secs 2;
  jitter_seed = 0x9E3779B97F4A7C15;
  jitter_permille = 250;
  dial_peers = true;
}
