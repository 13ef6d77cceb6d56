-- ===== src/Deps.antt =====
-- api/deps.py: the user of a request, from a bearer token or from the token of a WebSocket, and the
-- role that an endpoint requires.
pub mod Laws
pub mod Refusals
use lxd_management_api.Base.{
  ℕ, String, ◌<>◌, ◌==◌, Bool, true, false, not, Option, none, some, if◌then◌else◌,
}
use lxd_management_api.Base.Text.{nonempty}
use lxd_management_api.Json.{Value, null, str, Dict, get_or, truthy}
use lxd_management_api.Error.{Exn, http, token_error, Result, ok, err}
use lxd_management_api.Config.{Settings}
use lxd_management_api.Security.{Role, at_least, role_value, role_or_viewer, Jwt, decode_token}
use lxd_management_api.Users.{User, UserStore, get_user_by_username}
use lxd_management_api.Operation.{to_text}

abbrev pub unauthorized : Exn
unauthorized = http 401 "Not authenticated"

-- `v != text` of a dynamic value is the negation of this.
abbrev pub is_text : String → Value → Bool
is_text text (str s) = s == text
is_text text _ = false

-- The user that a handler is given, or the exception: the parts of the environment that this needs.
pub record Auth : Type 1 where
  pub settings : Settings
  pub jwt : Jwt
  pub users : UserStore
  pub repr : Value → String

module _ (auth : Auth) where
  open auth use {settings, jwt, users, repr}

  -- The last test of `get_current_user` and `ws_user_from_token`.
  unfoldable pub active_or : Exn → Option User → Result User
  active_or e none = err e
  active_or e (some user) = if user.is_active then ok user else err e

  -- `get_current_user` after the token has been decoded.
  unfoldable pub user_of_payload : users.State → Dict → Result User
  unfolding active_or get_user_by_username get_or truthy to_text
  user_of_payload db payload =
      if not (is_text "access" (get_or "type" null payload))
      then err (http 401 "Access token required")
      else let username = get_or "sub" null payload in
        if truthy username
        then active_or unauthorized (get_user_by_username users db (to_text repr username))
        else err unauthorized

  decoded_user : users.State → Result Dict → Result User
  unfolding user_of_payload
  decoded_user db (ok payload) = user_of_payload db payload
  decoded_user db (err e) = err unauthorized

  -- `get_current_user`; `none` is a request with no bearer credentials.
  unfoldable pub get_current_user : ℕ → users.State → Option String → Result User
  unfolding decoded_user decode_token
  get_current_user now db none = err unauthorized
  get_current_user now db (some token) =
      if nonempty token
      then decoded_user db (decode_token jwt settings now token)
      else err unauthorized

  -- `ws_user_from_token` after the token has been decoded.
  unfoldable pub ws_user_of_payload : users.State → Dict → Result User
  unfolding active_or get_user_by_username get_or to_text
  ws_user_of_payload db payload =
      if not (is_text "access" (get_or "type" null payload))
      then err (http 401 "Access token required")
      else active_or unauthorized
          (get_user_by_username users db (to_text repr (get_or "sub" (str "") payload)))

  ws_decoded_user : users.State → Result Dict → Result User
  unfolding ws_user_of_payload
  ws_decoded_user db (ok payload) = ws_user_of_payload db payload
  ws_decoded_user db (err (token_error e)) = err (http 401 e)
  ws_decoded_user db (err e) = err e

  -- `ws_user_from_token`.
  unfoldable pub ws_user_from_token : ℕ → users.State → String → Result User
  unfolding ws_decoded_user decode_token
  ws_user_from_token now db token = ws_decoded_user db (decode_token jwt settings now token)

-- `require_role(role)`, on the result of `get_current_user`.
unfoldable pub require_role : Role → Result User → Result User
unfolding at_least role_or_viewer role_value
require_role role (err e) = err e
require_role role (ok user) =
    if at_least (role_or_viewer user.role) role
    then ok user
    else err (http 403 ("Role '" <> role_value role <> "' or higher required"))
