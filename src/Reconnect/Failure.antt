-- ===== src/Reconnect/Failure.antt =====
-- kernel/reconnect/policy.rs: what a failed connect is, by its code and its message. Messages are
-- ASCII.
use citadel_agent.Prelude.{
  ℕ, Bool, true, false, not, ◌&&◌, ◌||◌, Option, none, some, List, [], ◌∷◌, ltb, ◌==◌,
  if◌then◌else◌, length, any, is_some,
}
use citadel_agent.Text.{Text, bytes, ◌=ₜ◌, starts_with, strip_prefix, ends_with}
use citadel_agent.Reconnect.Policy.{FailureKind, is_refused, transient, server_holds_session}

-- The SDK's error codes, as far as the code names them, and the form that each renders.
pub record ErrorRegistry : Type 1 where
  pub ErrorCode : Type 0
  pub same : ErrorCode → ErrorCode → Bool
  pub raw_string : ErrorCode → Text
  pub account_client_non_exists : ErrorCode
  pub account_server_non_exists : ErrorCode
  pub account_invalid_username : ErrorCode
  pub account_invalid_password : ErrorCode
  pub account_disengaged : ErrorCode
  pub preconnect_cid_not_registered : ErrorCode
  pub admission_required : ErrorCode
  pub admission_failed : ErrorCode
  pub remote_connect_failed : ErrorCode
  pub generic : ErrorCode

-- `message.match_indices(": ")`: what follows each separator.
abbrev pub after_separators : Text → List Text
after_separators [] = []
after_separators (a ∷ []) = []
after_separators (a ∷ b ∷ cs) =
    let rest = after_separators (b ∷ cs) in if a == b':' && b == b' ' then cs ∷ rest else rest

abbrev pub clauses : Text → List Text
clauses message = message ∷ after_separators message

-- `form.split("{}")`.
abbrev pub split_form : Text → List Text
split_form [] = [] ∷ []
split_form (a ∷ []) = (a ∷ []) ∷ []
split_form (a ∷ b ∷ cs) =
    let inside = split_form (b ∷ cs) in
    let past = split_form cs in if a == b'{' && b == b'}' then [] ∷ past else push a inside
  where
    push : ℕ → List Text → List Text
    push c [] = (c ∷ []) ∷ []
    push c (p ∷ ps) = (c ∷ p) ∷ ps

-- `find(part)`, and what follows the part there.
abbrev pub after_first : Text → Text → Option Text
after_first part [] = strip_prefix part []
after_first part (c ∷ cs) =
    let later = after_first part cs in
    elim (strip_prefix part (c ∷ cs)) [ some rest ↦ some rest | none ↦ later ]

-- The last part: it ends the text, after something.
abbrev pub ends_form : Text → Text → Bool
ends_form [] rest = not (rest =ₜ [])
ends_form (c ∷ cs) rest = ltb (length (c ∷ cs)) (length rest) && ends_with (c ∷ cs) rest

-- What is left of the text against the parts after each placeholder.
unfoldable pub fills : List Text → Text → Bool
fills [] rest = true
fills (part ∷ []) rest = ends_form part rest
fills (part ∷ next ∷ parts) [] = false
fills (part ∷ next ∷ parts) (c ∷ cs) = elim (after_first part cs) [
  | some rest ↦ fills (next ∷ parts) rest
  | none ↦ false
]

unfoldable pub renders_clause : Text → List Text → Text → Bool
renders_clause first placeholders clause = elim (strip_prefix first clause) [
  | some rest ↦ fills placeholders rest
  | none ↦ false
]

unfoldable pub renders_parts : List Text → Text → Bool
unfolding renders_clause
renders_parts [] message = false
renders_parts ([] ∷ placeholders) message = false
renders_parts ((c ∷ cs) ∷ placeholders) message =
    any (renders_clause (c ∷ cs) placeholders) (clauses message)

unfoldable pub renders : Text → Text → Bool
renders form message = renders_parts (split_form form) message

unfoldable pub states : Text → Text → Bool
states message lead = any (starts_with lead) (clauses message)

module _ (registry : ErrorRegistry) where
  abbrev pub refusals : List registry.ErrorCode
  refusals =
      registry.account_client_non_exists ∷ registry.account_server_non_exists
      ∷ registry.account_invalid_username ∷ registry.account_invalid_password
      ∷ registry.account_disengaged ∷ registry.preconnect_cid_not_registered
      ∷ registry.admission_required ∷ registry.admission_failed ∷ []

  abbrev pub is_refusal : registry.ErrorCode → Bool
  is_refusal code = any (λ r. registry.same r code) refusals

  -- `find`: the first code whose form the message renders.
  unfoldable pub find_rendered : Text → List registry.ErrorCode → Option registry.ErrorCode
  find_rendered message [] = none
  find_rendered message (r ∷ rs) =
      if renders (registry.raw_string r) message then some r else find_rendered message rs

  unfoldable pub refusal : registry.ErrorCode → Text → Option registry.ErrorCode
  unfolding find_rendered
  refusal code message =
      if is_refusal code
      then some code
      else if not
          (registry.same registry.remote_connect_failed code || registry.same registry.generic code)
      then none
      else find_rendered message refusals

  unfoldable pub classify : registry.ErrorCode → Text → FailureKind
  unfolding refusal states
  classify code message =
      if is_refusal code
      then is_refused
      else if states message (bytes "Session Already Connected")
      then server_holds_session
      else if is_some (refusal code message)
      then is_refused
      else transient
