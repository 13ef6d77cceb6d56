-- ===== src/Config.antt =====
-- core/config.py: the settings that the modelled code reads.
use lxd_management_api.Base.{ℕ, String, ◌==◌, Bool, true, false, List, [], ◌∷◌, if◌then◌else◌}
use lxd_management_api.Base.Text.{nonempty, rstrip, strip, split, is_slash}

pub data Mode : Type 0 where
  local remote : Mode

-- `Settings`, with the fields that other modelled code uses. Times are whole seconds, minutes and
-- days as in the source.
pub record Settings : Type 0 where
  pub cors_origins : String
  pub lxd_connection_mode : Mode
  pub lxd_socket_path : String
  pub lxd_remote_url : String
  pub lxd_client_cert_path : String
  pub lxd_client_key_path : String
  pub lxd_trusted_ca_path : String
  pub lxd_timeout : ℕ
  pub jwt_secret : String
  pub jwt_access_token_expire_minutes : ℕ
  pub jwt_refresh_token_expire_days : ℕ
  pub seed_admin_username : String
  pub seed_admin_password : String

-- `_strip_trailing_slash`, the validator of `LXD_REMOTE_URL`.
unfoldable pub strip_trailing_slash : String → String
unfolding rstrip
strip_trailing_slash v = rstrip is_slash v

-- `[o.strip() for o in parts if o.strip()]`.
stripped_origins : List String → List String
stripped_origins [] = []
stripped_origins (o ∷ parts) =
    let rest = stripped_origins parts in if nonempty (strip o) then strip o ∷ rest else rest

-- `cors_origins_list`.
unfoldable pub cors_origins_list : Settings → List String
unfolding stripped_origins split strip
cors_origins_list s =
    if strip s.cors_origins == "*" then "*" ∷ [] else stripped_origins (split b',' s.cors_origins)

-- `is_local_mode`.
unfoldable pub is_local_mode : Settings → Bool
is_local_mode s = elim s.lxd_connection_mode [ local ↦ true | remote ↦ false ]
