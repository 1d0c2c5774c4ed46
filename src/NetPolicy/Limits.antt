-- ===== src/NetPolicy/Limits.antt =====
-- citadel-app-net-policy/src/lib.rs: the limits and names of the policy.
use citadel_agent.Prelude.{ℕ, List, [], ◌∷◌}
use citadel_agent.Text.{Text, bytes}

abbrev pub agent_port : ℕ
agent_port = 12345

abbrev pub agent_loopback_host : Text
agent_loopback_host = bytes "local.avarok.net"

abbrev pub default_ports : List ℕ
default_ports = 443 ∷ 8443 ∷ []

abbrev pub max_hosts : ℕ
max_hosts = 8

abbrev pub max_redirects : ℕ
max_redirects = 3

abbrev pub max_request_body_bytes : ℕ
max_request_body_bytes = 4194304

abbrev pub max_requests_per_minute : ℕ
max_requests_per_minute = 60

abbrev pub max_url_bytes : ℕ
max_url_bytes = 8192

abbrev pub max_headers : ℕ
max_headers = 32

abbrev pub max_header_bytes : ℕ
max_header_bytes = 1024
