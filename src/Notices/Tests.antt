-- ===== src/Notices/Tests.antt =====
-- A message to two accounts, and the theorem at it.
use citadel_agent.Prelude.{◌≡◌, refl, true, false, none, some, [], ◌∷◌}
use citadel_agent.Text.{bytes}
use citadel_agent.Notices.{sender_only, NoticeSource, a_message, NoticeContext, decide}
use citadel_agent.Notices.Private.{IsAlike, decide-IsAlike}

abbrev account : NoticeContext
account = record {
  cid = 7;
  account = bytes "alice";
  server_host = none;
  preview = sender_only;
  muted = false;
  focused = some 4 ∷ [];
}

abbrev hello : NoticeSource
hello = a_message 5 (some (bytes "bob")) (bytes "hello")

not_while_it_is_in_front : decide hello (record account { focused = some 5 ∷ [] }) ≡ none
unfolding decide
not_while_it_is_in_front = refl

muted_but_for_calls : decide hello (record account { muted = true }) ≡ none
unfolding decide
muted_but_for_calls = refl

decide-IsAlike_example :
    IsAlike sender_only
      (decide hello account)
      (decide (a_message 5 (some (bytes "bob")) (bytes "secret")) account)
decide-IsAlike_example =
    decide-IsAlike hello (a_message 5 (some (bytes "bob")) (bytes "secret")) account refl
