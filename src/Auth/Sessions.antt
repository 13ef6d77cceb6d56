-- ===== src/Auth/Sessions.antt =====
-- What the tokens of a login open, and for how long.
use lxd_management_api.Base.{
  ℕ, ◌+◌, ◌≤◌, ◌<◌, String, ◌≡◌, ap, ap₂, ◌∙◌, Bool, true, not, Option, some, if◌then◌else◌,
}
use lxd_management_api.Base.Text.{nonempty}
use lxd_management_api.Json.{Value, null, str, Dict, get_or}
use lxd_management_api.Json.Laws.{get_or-some}
use lxd_management_api.Error.{http, token_error, Result, ok, err}
use lxd_management_api.Operation.{to_text}
use lxd_management_api.Security.{Crypt, IsLawfulJwt, TokenType, expires_delta, decode_token}
use lxd_management_api.Security.Laws.{
  access_claims, refresh_claims, get-access_claims, get-refresh_claims, decode_access,
  decode_refresh, decode_access_expired,
}
use lxd_management_api.Users.{User, get_user_by_username}
use lxd_management_api.Deps.{unauthorized, is_text, Auth, active_or, get_current_user}
use lxd_management_api.Deps.Laws.{
  user_of_payload_text, user_of_payload_refresh, get_current_user_payload,
  get_current_user_undecoded,
}
use lxd_management_api.Auth.{
  TokenResponse, make_token_pair, refresh_payload, refresh_decoded, refresh,
}

module _ (auth : Auth) (crypt : Crypt) where
  open auth use {settings, jwt, users, repr}

  -- A refresh, from the two claims that it reads.
  abbrev by_claims : ℕ → users.State → Value → Value → Result TokenResponse
  by_claims later db type subject =
      if not (is_text "refresh" type)
      then err (http 401 "Refresh token required")
      else elim (active_or auth (http 401 "User not found")
          (get_user_by_username users db (to_text repr subject))) [
            | err e ↦ err e
            | ok user ↦ ok (make_token_pair auth crypt later user)
          ]

  -- The end of a refresh, from the account that was looked up.
  abbrev exchanged : ℕ → Option User → Result TokenResponse
  exchanged later o = elim (active_or auth (http 401 "User not found") o) [
    | err e ↦ err e
    | ok user ↦ ok (make_token_pair auth crypt later user)
  ]

  abbrev if_active : ℕ → User → Bool → Result TokenResponse
  if_active later user b = elim (if b then ok user else err (http 401 "User not found")) [
    | err e ↦ err e
    | ok u ↦ ok (make_token_pair auth crypt later u)
  ]

  exchanged_active :
      (later : ℕ) (user : User)
      → user.is_active ≡ true
      → exchanged later (some user) ≡ ok (make_token_pair auth crypt later user)
  unfolding active_or
  exchanged_active later user h = ap (if_active later user) h

  module _ (now later : ℕ) (user : User)
      (access_lawful : IsLawfulJwt jwt
        (access_claims settings now user.username user.role)
        settings.jwt_secret)
      (refresh_lawful : IsLawfulJwt jwt
        (refresh_claims settings now user.username)
        settings.jwt_secret) where
    -- The two tokens that a login or a refresh hands out.
    abbrev pair : TokenResponse
    pair = make_token_pair auth crypt now user

    access_payload :
        later ≤ now + expires_delta settings TokenType.access
        → decode_token jwt settings later pair.access_token
          ≡ ok (access_claims settings now user.username user.role)
    unfolding make_token_pair
    access_payload h = decode_access jwt settings now later user.username user.role access_lawful h

    refresh_payload_claims :
        later ≤ now + expires_delta settings TokenType.refresh
        → decode_token jwt settings later pair.refresh_token
          ≡ ok (refresh_claims settings now user.username)
    unfolding make_token_pair
    refresh_payload_claims h = decode_refresh jwt settings now later user.username refresh_lawful h

    access_filled : nonempty pair.access_token ≡ true
    unfolding make_token_pair
    access_filled = access_lawful.encode_filled

    refresh_filled : nonempty pair.refresh_token ≡ true
    unfolding make_token_pair
    refresh_filled = refresh_lawful.encode_filled

    decode_expired :
        now + expires_delta settings TokenType.access < later
        → (e : String) × (decode_token jwt settings later pair.access_token ≡ err (token_error e))
    unfolding make_token_pair
    decode_expired h =
        decode_access_expired jwt settings now later user.username user.role access_lawful h

    refresh_lem :
        (db : users.State) (token : String) (claims : Dict)
        → decode_token jwt settings later token ≡ ok claims
        → refresh auth crypt later db token
          ≡ by_claims later db (get_or "type" null claims) (get_or "sub" (str "") claims)
    unfolding refresh refresh_payload
    refresh_lem db token claims d = ap (refresh_decoded auth crypt later db) d

    -- Over a token library that keeps its promises for the two tokens of a login, and for a name that
    -- is not empty: until it expires, the access token opens the account that is then stored under
    -- that name, with the role that is then stored, if it is active, and otherwise is answered 401.
    pub access_token_opens :
        (db : users.State)
        → later ≤ now + expires_delta settings TokenType.access
        → nonempty user.username ≡ true
        → get_current_user auth later db (some pair.access_token)
          ≡ active_or auth unauthorized (get_user_by_username users db user.username)
    access_token_opens db h f =
        let claims = access_claims settings now user.username user.role in
        let (sub, type, _) = get-access_claims settings now user.username user.role in
        get_current_user_payload auth later db pair.access_token access_filled claims
          (access_payload h)
        ∙ user_of_payload_text auth db claims user.username type sub f

    -- Over a token library that keeps its promises for the two tokens of a login: after it has expired,
    -- the access token opens no endpoint, and is answered 401.
    pub access_token_expired :
        (db : users.State)
        → now + expires_delta settings TokenType.access < later
        → get_current_user auth later db (some pair.access_token) ≡ err unauthorized
    access_token_expired db h =
        let (e, p) = decode_expired h in
        get_current_user_undecoded auth later db pair.access_token access_filled (token_error e) p

    -- Over a token library that keeps its promises for the two tokens of a login: until it expires,
    -- the refresh token opens no endpoint, and is answered 401.
    pub refresh_token_opens_nothing :
        (db : users.State)
        → later ≤ now + expires_delta settings TokenType.refresh
        → get_current_user auth later db (some pair.refresh_token)
          ≡ err (http 401 "Access token required")
    refresh_token_opens_nothing db h =
        let claims = refresh_claims settings now user.username in
        get_current_user_payload auth later db pair.refresh_token refresh_filled claims
          (refresh_payload_claims h)
        ∙ user_of_payload_refresh auth db claims (get-refresh_claims settings now user.username).1

    -- Over a token library that keeps its promises for the two tokens of a login: until it expires,
    -- the access token is not accepted for a refresh, and is answered 401.
    pub access_token_not_refreshed :
        (db : users.State)
        → later ≤ now + expires_delta settings TokenType.access
        → refresh auth crypt later db pair.access_token ≡ err (http 401 "Refresh token required")
    access_token_not_refreshed db h =
        let claims = access_claims settings now user.username user.role in
        refresh_lem db pair.access_token claims (access_payload h)
        ∙ ap (λ type. by_claims later db type (get_or "sub" (str "") claims))
            (get_or-some "type" null claims
              (get-access_claims settings now user.username user.role).1)

    -- Over a token library that keeps its promises for the two tokens of a login: until it expires,
    -- the refresh token is exchanged for a new pair for the account that is then stored under its
    -- name, with the role that is then stored, if that account is active.
    pub refresh_token_exchanged :
        (db : users.State) (current : User)
        → later ≤ now + expires_delta settings TokenType.refresh
        → get_user_by_username users db user.username ≡ some current
        → current.is_active ≡ true
        → refresh auth crypt later db pair.refresh_token
          ≡ ok (make_token_pair auth crypt later current)
    unfolding to_text
    refresh_token_exchanged db current h found active =
        let claims = refresh_claims settings now user.username in
        let (sub, type, _) = get-refresh_claims settings now user.username in
        refresh_lem db pair.refresh_token claims (refresh_payload_claims h)
        ∙ ap₂ (by_claims later db) (get_or-some "type" null claims type)
            (get_or-some "sub" (str "") claims sub)
        ∙ ap (exchanged later) found
        ∙ exchanged_active later current active
