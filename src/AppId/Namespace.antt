-- ===== src/AppId/Namespace.antt =====
-- Where an app's entries are stored: kernel/apps/kv/namespace.rs. The crate `hex` is a parameter.
use citadel_agent.Prelude.{
  ℕ, ◌≡◌, Bool, false, not, ◌&&◌, ◌||◌, Option, none, some, [], ◌∷◌, ◌++◌, ltb, leb, ◌==◌,
  if◌then◌else◌, length, all, All,
}
use citadel_agent.Text.{Text, bytes, is_graphic}
use citadel_agent.AppId.{validate_app_id}
use citadel_agent.AppId.Grammar.{is_ok}

-- `hex::encode`: two of 0-9 and a-f for each byte, so that it can be decoded.
pub record HexEncoder : Type 0 where
  pub encode : Text → Text
  pub no_colon : (t : Text) → All (λ c. (c == b':') ≡ false) (encode t)
  pub decodes : (s t : Text) → encode s ≡ encode t → s ≡ t

abbrev pub app_storage_prefix : Text
app_storage_prefix = bytes "app:"

abbrev pub max_scope_key_bytes : ℕ
max_scope_key_bytes = 256

abbrev pub app_kv_max_key_bytes : ℕ
app_kv_max_key_bytes = 256

module _ (hex : HexEncoder) where
  -- The key under which one thing is stored, on its way.
  abbrev pub prefix_of : Text → Text → Text → Text
  prefix_of app_id scope_key username =
      app_storage_prefix
      ++ (app_id ++ b':' ∷ (hex.encode scope_key ++ b':' ∷ (hex.encode username ++ b':' ∷ [])))

  abbrev pub scope_ok : Text → Bool
  scope_ok scope_key =
      not (length scope_key == 0)
      && (leb (length scope_key) max_scope_key_bytes && all is_graphic scope_key)

  -- `Namespace::new`: its prefix.
  unfoldable pub new_namespace : Text → Text → Text → Option Text
  new_namespace app_id scope_key username =
      if not (is_ok (validate_app_id app_id))
      then none
      else if not (scope_ok scope_key) || length username == 0
      then none
      else some (prefix_of app_id scope_key username)

  unfoldable pub index : Text → Text
  index prefix = prefix ++ bytes "i"

  unfoldable pub entry : Text → Text → Option Text
  entry prefix key =
      if (length key == 0) || ltb app_kv_max_key_bytes (length key)
      then none
      else some (prefix ++ (bytes "k:" ++ hex.encode key))
