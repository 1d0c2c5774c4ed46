-- ===== src/Reconnect/SignIn.antt =====
-- kernel/reconnect/sign_in.rs: what a user's sign-in does to a session that the agent tracks, and
-- which reconnect run may go on.
use citadel_agent.Prelude.{ℕ, ◌≡◌, ◌↔◌, refl, Bool, true, false, ◌&&◌, ◌==◌, ==_iff}
use citadel_agent.Reconnect.Policy.{
  LinkState, up, reconnecting, ending, signing_in, claim_requires_sdk_session,
}

pub data Tracked : Type 0 where
  is_live is_reconnecting is_stale : Tracked

abbrev pub held : Bool → Tracked
held true = is_live
held false = is_stale

unfoldable pub tracked : LinkState → Bool → Tracked
tracked reconnecting sdk_holds = is_reconnecting
tracked signing_in sdk_holds = is_reconnecting
tracked up sdk_holds = held sdk_holds
tracked ending sdk_holds = held sdk_holds

pub data SignIn : Type 0 where
  refuse already_active take_over_reconnect replace_stale : SignIn

unfoldable pub on_sign_in : Tracked → Bool → SignIn
on_sign_in is_stale authorized = replace_stale
on_sign_in is_live false = refuse
on_sign_in is_reconnecting false = refuse
on_sign_in is_live true = already_active
on_sign_in is_reconnecting true = take_over_reconnect

abbrev pub is_reconnecting_link : LinkState → Bool
is_reconnecting_link reconnecting = true
is_reconnecting_link signing_in = false
is_reconnecting_link up = false
is_reconnecting_link ending = false

unfoldable pub may_take_over : LinkState → Bool
may_take_over link = is_reconnecting_link link

unfoldable pub attempt_wanted : LinkState → ℕ → ℕ → Bool
attempt_wanted link current_run run = is_reconnecting_link link && current_run == run

abbrev pub awaits_link : LinkState → Bool
awaits_link reconnecting = true
awaits_link signing_in = true
awaits_link up = false
awaits_link ending = false

unfoldable pub attempt_installs : LinkState → ℕ → ℕ → Bool
attempt_installs link current_run run = awaits_link link && current_run == run

wrong : false ≡ true → ⊥
wrong e = cc

wrong_link : true ≡ false → ⊥
wrong_link e = cc

-- A sign-in takes a session over exactly if its password is right and the session is one that the
-- SDK need not hold, as the agent is bringing it back.
pub take_over_iff :
    (link : LinkState) (sdk_holds authorized : Bool)
    → (on_sign_in (tracked link sdk_holds) authorized ≡ take_over_reconnect)
      ↔ ((authorized ≡ true) × (claim_requires_sdk_session link ≡ false))
unfolding on_sign_in tracked claim_requires_sdk_session
take_over_iff reconnecting holds true = (λ h. (refl, refl), λ h. refl)
take_over_iff signing_in holds true = (λ h. (refl, refl), λ h. refl)
take_over_iff reconnecting holds false = (λ h. absurd (cc), λ h. absurd (wrong h.0))
take_over_iff signing_in holds false = (λ h. absurd (cc), λ h. absurd (wrong h.0))
take_over_iff up true true = (λ h. absurd (cc), λ h. absurd (wrong_link h.1))
take_over_iff up true false = (λ h. absurd (cc), λ h. absurd (wrong h.0))
take_over_iff up false a = (λ h. absurd (cc), λ h. absurd (wrong_link h.1))
take_over_iff ending true true = (λ h. absurd (cc), λ h. absurd (wrong_link h.1))
take_over_iff ending true false = (λ h. absurd (cc), λ h. absurd (wrong h.0))
take_over_iff ending false a = (λ h. absurd (cc), λ h. absurd (wrong_link h.1))

-- Once a sign-in is taking a session over, no run may start another attempt and no other sign-in
-- may take it over too, and the link that an attempt in flight has opened goes into the entry
-- exactly if its run is the current one.
pub signing_in_lem :
    (current_run run : ℕ)
    → (attempt_wanted signing_in current_run run ≡ false)
      × (may_take_over signing_in ≡ false)
      × ((attempt_installs signing_in current_run run ≡ true) ↔ (current_run ≡ run))
unfolding attempt_wanted may_take_over attempt_installs
signing_in_lem current_run run = (refl, refl, ==_iff current_run run)
