-- ===== src/Auth.antt =====
-- api/v1/routes/auth.py and schemas/auth.py: registration, login, refresh and the user profile. Limits
-- puts the rate limits on them.
pub mod Logins
pub mod Registration
pub mod Sessions
pub mod Profiles
use Prim.Native.Char.{Char, code}
use Prim.Native.String
use Prim.Native.String.{[], ◌∷◌}
use lxd_management_api.Base.{
  ℕ, ◌*◌, num_eq, leb, String, ◌==◌, Bool, true, false, not, ◌&&◌, ◌||◌, Option, none, some, List,
  if◌then◌else◌,
}
use lxd_management_api.Base.Text.{all_chars}
use lxd_management_api.Json.{Value, null, str, Dict, get_or}
use lxd_management_api.Error.{
  Exn, http, token_error, value_error, validation_error, Result, ok, err,
}
use lxd_management_api.Operation.{to_text}
use lxd_management_api.Security.{
  Role, viewer, admin, role_of, role_value, Crypt, verify_password, create_access_token,
  create_refresh_token, decode_token,
}
use lxd_management_api.Users.{User, UserStore, get_user_by_username, create_user, list_users}
use lxd_management_api.Deps.{Auth, is_text, active_or, require_role}

-- `[A-Za-z0-9_.-]`.
username_char : ℕ → Bool
username_char c =
    (leb b'A' c && leb c b'Z')
    || (leb b'a' c && leb c b'z')
    || (leb b'0' c && leb c b'9')
    || num_eq c b'_'
    || num_eq c b'.'
    || num_eq c b'-'

-- `UserCreate`.
pub record UserCreate : Type 0 where
  pub username : String
  pub password : String
  pub role : Role

-- The bounds and the pattern that `UserCreate` declares.
well_formed : String → String → Bool
unfolding all_chars username_char
well_formed username password =
    leb 3 (String.count username)
    && leb (String.count username) 64
    && all_chars username_char username
    && leb 8 (String.count password)
    && leb (String.count password) 128

-- The validation of a registration body; a role that is left out is `viewer`, and `none` is the
-- rejection of the request.
unfoldable pub user_create : String → String → Option String → Option UserCreate
unfolding well_formed role_of
user_create username password role =
    let parsed : Option Role = elim role [ none ↦ some viewer | some text ↦ role_of text ] in
    elim parsed [
      | none ↦ none
      | some r ↦
          if well_formed username password
          then some (record { username = username; password = password; role = r })
          else none
    ]

-- `UserOut`.
pub record UserOut : Type 0 where
  pub id : ℕ
  pub username : String
  pub role : Role
  pub is_active : Bool
  pub created_at : ℕ

-- `UserOut.model_validate(user)`.
unfoldable pub user_out : User → Result UserOut
unfolding role_of
user_out user = elim (role_of user.role) [
  | none ↦ err validation_error
  | some role ↦ ok (record {
    id = user.id;
    username = user.username;
    role = role;
    is_active = user.is_active;
    created_at = user.created_at;
  })
]

-- `TokenResponse`.
pub record TokenResponse : Type 0 where
  pub access_token : String
  pub refresh_token : String
  pub token_type : String
  pub expires_in : ℕ

abbrev pub bad_login : Exn
bad_login = http 401 "Invalid username or password"

module _ (auth : Auth) (crypt : Crypt) where
  open auth use {settings, jwt, users, repr}

  -- `_make_token_pair`.
  unfoldable pub make_token_pair : ℕ → User → TokenResponse
  unfolding create_access_token create_refresh_token
  make_token_pair now user = record {
    access_token = create_access_token jwt settings now user.username user.role none;
    refresh_token = create_refresh_token jwt settings now user.username;
    token_type = "bearer";
    expires_in = settings.jwt_access_token_expire_minutes * 60;
  }

  -- The exception of `create_user` as `register` passes it on.
  unfoldable pub conflict_or : Exn → Exn
  conflict_or (value_error detail) = http 409 detail
  conflict_or e = e

  -- What `register` makes of the created user.
  unfoldable pub registered : Result User × users.State → Result UserOut × users.State
  unfolding user_out conflict_or
  registered (ok user, t) = (user_out user, t)
  registered (err e, t) = (err (conflict_or e), t)

  -- `register`, on the caller that `get_current_user` gave.
  unfoldable pub register :
      String → users.State → Result User → UserCreate → Result UserOut × users.State
  unfolding registered create_user require_role role_value
  register salt db caller payload = elim (require_role admin caller) [
    | err e ↦ (err e, db)
    | ok _ ↦ registered (
        create_user users repr crypt salt db payload.username payload.password
          (role_value payload.role))
  ]

  -- `login` after the look-up.
  unfoldable pub login_as : ℕ → String → Option User → Result TokenResponse
  unfolding make_token_pair verify_password
  login_as now password none = err bad_login
  login_as now password (some user) =
      if not user.is_active
      then err bad_login
      else if not (verify_password crypt password user.hashed_password)
      then err bad_login
      else ok (make_token_pair now user)

  -- `login`.
  unfoldable pub login : ℕ → users.State → String → String → Result TokenResponse
  unfolding login_as get_user_by_username
  login now db username password = login_as now password (get_user_by_username users db username)

  -- `refresh` after the token has been decoded.
  refresh_payload : ℕ → users.State → Dict → Result TokenResponse
  unfolding get_or to_text active_or get_user_by_username make_token_pair
  refresh_payload now db decoded =
      if not (is_text "refresh" (get_or "type" null decoded))
      then err (http 401 "Refresh token required")
      else elim (active_or auth (http 401 "User not found")
          (get_user_by_username users db (to_text repr (get_or "sub" (str "") decoded)))) [
            | err e ↦ err e
            | ok user ↦ ok (make_token_pair now user)
          ]

  refresh_decoded : ℕ → users.State → Result Dict → Result TokenResponse
  unfolding refresh_payload
  refresh_decoded now db (ok decoded) = refresh_payload now db decoded
  refresh_decoded now db (err (token_error e)) = err (http 401 e)
  refresh_decoded now db (err e) = err e

  -- `refresh`.
  unfoldable pub refresh : ℕ → users.State → String → Result TokenResponse
  unfolding refresh_decoded decode_token
  refresh now db token = refresh_decoded now db (decode_token jwt settings now token)

-- `me`, on the caller that `get_current_user` gave.
unfoldable pub me : Result User → Result UserOut
unfolding user_out
me (err e) = err e
me (ok user) = user_out user

-- `[UserOut.model_validate(u) for u in users]`.
pub users_out : List User → Result (List UserOut)
unfolding user_out
users_out List.[] = ok List.[]
users_out (List.◌∷◌ u us) =
    let rest = users_out us in
    elim (user_out u) [
      | err e ↦ err e
      | ok o ↦ elim rest [ err e ↦ err e | ok os ↦ ok (List.◌∷◌ o os) ]
    ]

-- The route `list_users`.
unfoldable pub all_users : (db : UserStore) → db.State → Result User → Result (List UserOut)
unfolding users_out list_users require_role
all_users db s caller = elim (require_role admin caller) [
  | err e ↦ err e
  | ok _ ↦ users_out (list_users db s)
]
