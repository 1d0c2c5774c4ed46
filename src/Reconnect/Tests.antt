-- ===== src/Reconnect/Tests.antt =====
-- Reconnect runs and messages at concrete inputs, and the theorems at them.
use citadel_agent.Prelude.{ℕ, ◌≡◌, refl, none, some, List, [], ◌∷◌, arith, ◌==◌, if◌then◌else◌}
use citadel_agent.Text.{Text, bytes}
use citadel_agent.Time.{from_secs, doublings}
use citadel_agent.Reconnect.Policy.{
  ReconnectPolicy, transient, server_reconnect, for_keep_alive, limit, delay_before,
  after_transient, after_failure, retry_after,
}
use citadel_agent.Reconnect.Failure.{
  ErrorRegistry, classify, refusal, find_rendered, renders, renders_parts, renders_clause, fills,
  states,
}
use citadel_agent.Reconnect.Delays.{IsRetry, after_failure-IsRetry}
use citadel_agent.Reconnect.Run.{Turn, failed, RunEnd, ends, start, run}
use citadel_agent.Reconnect.Ends.{run-ends}

-- Codes by their numbers.
abbrev forms : ℕ → Text
forms n =
    if n == 3
    then bytes "Invalid password"
    else if n == 5
    then bytes "CID {} is not registered to this node"
    else bytes "Other"

abbrev registry : ErrorRegistry
registry = record {
  ErrorCode = ℕ;
  same = λ a b. a == b;
  raw_string = forms;
  account_client_non_exists = 0;
  account_server_non_exists = 1;
  account_invalid_username = 2;
  account_invalid_password = 3;
  account_disengaged = 4;
  preconnect_cid_not_registered = 5;
  admission_required = 6;
  admission_failed = 7;
  remote_connect_failed = 8;
  generic = 9;
}

abbrev policy : ReconnectPolicy
policy = server_reconnect (from_secs 5) (from_secs 60)

-- Two attempts and no more.
abbrev short : ReconnectPolicy
short = record {
  first_delay = 10;
  max_delay = 20;
  give_up_after = 25;
  attempt_timeout = 5;
  server_holds_session_for = 0;
}

abbrev timed_out : Turn registry
timed_out = record { took = 1; keep_alive_timeout = none; attempt = failed 8 (bytes "timed out") }

abbrev turns : List (Turn registry)
turns = timed_out ∷ timed_out ∷ timed_out ∷ []

abbrev message : Text
message = bytes "No account: CID 7 is not registered to this node"

unregistered : refusal registry 8 message ≡ some 5
unfolding refusal find_rendered renders renders_parts renders_clause fills
unregistered = refl

timed_out_transient : classify registry 8 (bytes "timed out") ≡ transient
unfolding classify states refusal find_rendered renders renders_parts renders_clause fills
timed_out_transient = refl

waits : after_failure policy 0 (from_secs 1) transient ≡ retry_after (from_secs 1)
unfolding after_failure after_transient delay_before doublings limit
waits = refl

after_failure-IsRetry_example : IsRetry policy 0 (from_secs 1) (from_secs 1) transient
after_failure-IsRetry_example =
    after_failure-IsRetry policy 0 (from_secs 1) (from_secs 1) transient waits

run-ends_example : (e : RunEnd) × (run registry (from_secs 5) short (start short) turns ≡ ends e)
unfolding for_keep_alive limit
run-ends_example =
    run-ends registry (from_secs 5) short turns 25 (omega arith)
      (omega arith, (omega arith, (omega arith, tt))) (omega arith)

abbrev current : ℕ
current = 4
