-- ===== src/NetPolicy/Tests.antt =====
-- Decisions of the policy at concrete requests, and the theorems at them.
use citadel_agent.Prelude.{◌≡◌, ◌↔◌, refl, false, some, none, List, [], ◌∷◌, arith, All}
use citadel_agent.Text.{Text, bytes, parse_decimal, decimal_from}
use citadel_agent.NetPolicy.Ranges.{Ipv4Addr, v4, v6, ipv4, ipv6, canonical, in_v4, in_net, mask}
use citadel_agent.NetPolicy.Ranges.Tables.{is_public, classify, class_of, classify_v4, find_v4}
use citadel_agent.NetPolicy.Ranges.Blocks.{IsOctets}
use citadel_agent.NetPolicy.Ranges.Classes.{IsSpecial, classify_v4-public_iff}
use citadel_agent.NetPolicy.Ranges.Embedded.{mapped, classify-embedded}
use citadel_agent.NetPolicy.Url.{
  TargetUrl, https, ok, parse, parse_graphic, parse_rest, target_of, split_host_port, host_and_port,
  optional_port, parse_port, parse_host, is_name, label_ok, canonical_ipv4, quad_of, parse_octet,
  ip_literal,
}
use citadel_agent.NetPolicy.Url.Parsed.{IsTarget, parse-IsTarget}
use citadel_agent.NetPolicy.Grant.{
  host, NetGrant, granted, new_grant, add_hosts, parse_allowed, private, admits, host_admits,
  Deployment,
}
use citadel_agent.NetPolicy.Headers.{headers_allowed, header_allowed, name_allowed, value_allowed}
use citadel_agent.NetPolicy.Decide.{
  EgressRequest, Allowed, allow, check_target, check_request, check_resolved, check_addresses,
  check_address, is_metadata, is_agent_host, follow_to, decide, decide_redirect,
}
use citadel_agent.NetPolicy.Decide.Allows.{IsAllowed}
use citadel_agent.NetPolicy.Decide.Sound.{decide-IsAllowed, IsFollowed, decide_redirect-IsFollowed}
use citadel_agent.NetPolicy.Decide.Public.{IsOutside, decide-public}

abbrev address : Ipv4Addr
address = ipv4 93 184 216 34

abbrev link : Text
link = bytes "https://API.example.com/v1?q"

abbrev target : TargetUrl
target = record {
  scheme = https;
  host = bytes "api.example.com";
  port = 443;
  path_and_query = bytes "/v1?q";
}

abbrev entries : List Text
entries = bytes "api.example.com" ∷ bytes "example.org:8443" ∷ []

abbrev grant : NetGrant
grant = record {
  egress = host false;
  hosts =
      record { name = bytes "api.example.com"; port = none }
      ∷ record { name = bytes "example.org"; port = some 8443 }
      ∷ [];
}

abbrev request : EgressRequest
request = record {
  method = bytes "GET";
  url = link;
  headers = (bytes "accept", bytes "*/*") ∷ [];
  body_len = 0;
}

abbrev deployment : Deployment
deployment = record { page_origin_host = bytes "app.avarok.net" }

abbrev allowed : Allowed
allowed = record { target = target; connect = record { ip = v4 address; port = 443 } ∷ [] }

octets : IsOctets address
octets = record { a = omega arith; b = omega arith; c = omega arith; d = omega arith }

parses : parse link ≡ ok target
unfolding parse parse_graphic parse_rest target_of split_host_port host_and_port optional_port
    parse_port parse_host is_name label_ok canonical_ipv4 quad_of parse_octet parse_decimal
    decimal_from
parses = refl

builds : new_grant (host false) entries ≡ granted grant
unfolding new_grant add_hosts parse_allowed split_host_port host_and_port optional_port parse_port
    parse_host is_name label_ok canonical_ipv4 quad_of parse_octet parse_decimal decimal_from
builds = refl

decides : decide request (v4 address ∷ []) grant deployment ≡ allow allowed
unfolding decide check_target check_request check_resolved check_addresses check_address is_metadata
    is_agent_host ip_literal private admits host_admits headers_allowed header_allowed name_allowed
    value_allowed parse parse_graphic parse_rest target_of split_host_port host_and_port
    optional_port parse_port parse_host is_name label_ok canonical_ipv4 quad_of parse_octet
    parse_decimal decimal_from classify class_of classify_v4 find_v4 in_v4 in_net mask canonical
decides = refl

follows : decide_redirect allowed 1 request (v4 address ∷ []) grant deployment ≡ allow allowed
unfolding decide_redirect follow_to decide check_target check_request check_resolved check_addresses
    check_address is_metadata is_agent_host ip_literal private admits host_admits headers_allowed
    header_allowed name_allowed value_allowed parse parse_graphic parse_rest target_of
    split_host_port host_and_port optional_port parse_port parse_host is_name label_ok
    canonical_ipv4 quad_of parse_octet parse_decimal decimal_from classify class_of classify_v4
    find_v4 in_v4 in_net mask canonical
follows = refl

public_address : classify_v4 address ≡ is_public
unfolding classify class_of classify_v4 find_v4 in_v4 in_net mask canonical
public_address = refl

decide-IsAllowed_example : IsAllowed request (v4 address ∷ []) grant deployment allowed
decide-IsAllowed_example =
    decide-IsAllowed request (v4 address ∷ []) grant deployment allowed decides

decide_redirect-IsFollowed_example :
    IsFollowed allowed 1 request (v4 address ∷ []) grant deployment allowed
decide_redirect-IsFollowed_example =
    decide_redirect-IsFollowed allowed 1 request (v4 address ∷ []) grant deployment allowed follows

decide-public_example : All (λ s. IsOutside (canonical s.ip)) allowed.connect
unfolding private
decide-public_example =
    decide-public request (v4 address ∷ []) grant deployment allowed refl (octets, tt) decides

parse-IsTarget_example : IsTarget link target
parse-IsTarget_example = parse-IsTarget link target parses

classify_v4-public_iff_example : (classify_v4 address ≡ is_public) ↔ (¬ IsSpecial address)
classify_v4-public_iff_example = classify_v4-public_iff address octets

classify-embedded_example :
    (canonical (v6 (ipv6 0 0 0 0 0 0xffff 0x5db8 0xd822)) ≡ v4 address)
    × (classify (v6 (ipv6 0 0 0 0 0 0xffff 0x5db8 0xd822)) ≡ classify (v4 address))
classify-embedded_example = classify-embedded address _ octets mapped
