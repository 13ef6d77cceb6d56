-- ===== src/Security.antt =====
-- core/security.py: roles, tokens and passwords. Signing (python-jose) and hashing (passlib) are
-- outside the repository: they are the records `Jwt` and `Crypt`. Times are whole seconds.
pub mod Laws
use lxd_management_api.Base.{
  ℕ, ◌+◌, ◌*◌, ◌≤◌, ◌<◌, leb, String, ◌==◌, ◌≡◌, Bool, true, false, Option, none, some,
  if◌then◌else◌,
}
use lxd_management_api.Base.Text.{nonempty}
use lxd_management_api.Json.{Value, str, num, Dict, empty, entry, get, put, update, is_filled}
use lxd_management_api.Error.{Exn, value_error, token_error, Result, ok, err}
use lxd_management_api.Config.{Settings}

pub data Role : Type 0 where
  viewer operator admin : Role

-- `Role.level`.
unfoldable pub level : Role → ℕ
level viewer = 1
level operator = 2
level admin = 3

-- `Role.at_least`.
unfoldable pub at_least : Role → Role → Bool
unfolding level
at_least role other = leb (level other) (level role)

-- `role.value`.
unfoldable pub role_value : Role → String
role_value viewer = "viewer"
role_value operator = "operator"
role_value admin = "admin"

-- `Role(value)`; `none` is its `ValueError`.
unfoldable pub role_of : String → Option Role
role_of value =
    if value == "viewer"
    then some viewer
    else if value == "operator"
    then some operator
    else if value == "admin"
    then some admin
    else none

-- The role that a stored text stands for: an unknown text is `viewer`.
unfoldable pub role_or_viewer : String → Role
unfolding role_of
role_or_viewer value = elim (role_of value) [ none ↦ viewer | some role ↦ role ]

-- `jwt.decode`: the claims, or a `JWTError` with its text.
pub data Decoded : Type 0 where
  claims : Dict → Decoded
  jwt_error : String → Decoded

-- `jwt.encode(claims, secret)` and, at a time, `jwt.decode(token, secret)`, for the one algorithm of
-- the settings.
pub record Jwt : Type 0 where
  pub encode : Dict → String → String
  pub decode : ℕ → String → String → Decoded

-- What the program relies on for the claims that it signs with the secret: their token is not empty,
-- is decoded to the claims up to the time in `exp`, and is refused later.
pub record IsLawfulJwt (j : Jwt) (c : Dict) (secret : String) : Type 0 where
  pub encode_filled : nonempty (j.encode c secret) ≡ true
  pub decode-encode :
      (now exp : ℕ)
      → get "exp" c ≡ some (num exp)
      → now ≤ exp
      → j.decode now (j.encode c secret) secret ≡ claims c
  pub decode_expired :
      (now exp : ℕ)
      → get "exp" c ≡ some (num exp)
      → exp < now
      → (e : String) × (j.decode now (j.encode c secret) secret ≡ jwt_error e)

-- `refuses` is the text of the `ValueError` that `pwd_context.hash` raises for a password, such as one
-- with a null byte, if it does; `hash` is its result otherwise, with the salt that it draws. `verify` is
-- `pwd_context.verify`, where `none` is a `ValueError` or a `TypeError`.
pub record Crypt : Type 0 where
  pub refuses : String → Option String
  pub hash : String → String → String
  pub verify : String → String → Option Bool

pub record IsLawfulCrypt (c : Crypt) : Type 0 where
  pub verify-hash :
      (salt plain : String)
      → c.refuses plain ≡ none
      → c.verify plain (c.hash salt plain) ≡ some true

-- `hash_password`.
unfoldable pub hash_password : Crypt → String → String → Result String
hash_password crypt salt plain = elim (crypt.refuses plain) [
  | none ↦ ok (crypt.hash salt plain)
  | some detail ↦ err (value_error detail)
]

-- `verify_password`.
unfoldable pub verify_password : Crypt → String → String → Bool
verify_password crypt plain hashed = elim (crypt.verify plain hashed) [ none ↦ false | some b ↦ b ]

pub data TokenType : Type 0 where
  access refresh : TokenType

abbrev pub token_type_value : TokenType → String
token_type_value access = "access"
token_type_value refresh = "refresh"

-- `expires_delta` in seconds.
unfoldable pub expires_delta : Settings → TokenType → ℕ
expires_delta s access = s.jwt_access_token_expire_minutes * 60
expires_delta s refresh = s.jwt_refresh_token_expire_days * 86400

-- The payload that `_create_token` signs.
unfoldable pub token_payload : Settings → ℕ → String → TokenType → Option Dict → Dict
unfolding expires_delta update
token_payload s now subject token_type extra =
    let payload = entry "sub" (str subject) (
      entry "type" (str (token_type_value token_type))
        (entry "iat" (num now) (entry "exp" (num (now + expires_delta s token_type)) empty))) in
    elim extra [ none ↦ payload | some e ↦ if is_filled e then update payload e else payload ]

module _ (j : Jwt) (s : Settings) where
  -- `_create_token`.
  unfoldable pub create_token : ℕ → String → TokenType → Option Dict → String
  unfolding token_payload
  create_token now subject token_type extra =
      j.encode (token_payload s now subject token_type extra) s.jwt_secret

  -- `create_access_token`; `{"role": role, **(extra or {})}` is the role, updated with `extra`.
  unfoldable pub create_access_token : ℕ → String → String → Option Dict → String
  unfolding create_token update
  create_access_token now subject role extra =
      let given : Dict = elim extra [ none ↦ empty | some e ↦ e ] in
      create_token now subject access (some (update (entry "role" (str role) empty) given))

  -- `create_refresh_token`.
  unfoldable pub create_refresh_token : ℕ → String → String
  unfolding create_token
  create_refresh_token now subject = create_token now subject refresh none

  -- `decode_token`.
  unfoldable pub decode_token : ℕ → String → Result Dict
  decode_token now token = elim (j.decode now token s.jwt_secret) [
    | claims c ↦ ok c
    | jwt_error e ↦ err (token_error e)
  ]
