-- ===== src/Security/Laws.antt =====
-- The role hierarchy, and the life of a token.
use lxd_management_api.Base.{
  ℕ, ◌+◌, ◌≤◌, ◌<◌, String, ◌≡◌, refl, ◌⊎◌, true, none, some, arith, Option-cases, inl, inr,
}
use lxd_management_api.Json.{str, num, Dict, empty, entry, get, put}
use lxd_management_api.Error.{Exn, value_error, token_error, ok, err}
use lxd_management_api.Config.{Settings}
use lxd_management_api.Security.{
  Role, viewer, operator, admin, at_least, role_value, role_of, Jwt, IsLawfulJwt, claims, jwt_error,
  access, refresh, expires_delta, token_payload, create_access_token, create_refresh_token,
  decode_token, Crypt, hash_password,
}

pub role_of-role_value : (a : Role) → role_of (role_value a) ≡ some a
unfolding role_of role_value
role_of-role_value viewer = refl
role_of-role_value operator = refl
role_of-role_value admin = refl

-- `at_least` is a linear order of the roles: reflexive, transitive, antisymmetric and total, with
-- `viewer` at its bottom and `admin` at its top; and `Role(role.value)` is the role again.
pub at_least_order :
    (a b c : Role)
    → (at_least a a ≡ true)
      × (at_least a b ≡ true → at_least b c ≡ true → at_least a c ≡ true)
      × (at_least a b ≡ true → at_least b a ≡ true → a ≡ b)
      × ((at_least a b ≡ true) ⊎ (at_least b a ≡ true))
      × (at_least a viewer ≡ true)
      × (at_least admin a ≡ true)
      × (role_of (role_value a) ≡ some a)
unfolding at_least
at_least_order a b c = ground (arith, role_of-role_value a)

module _ (j : Jwt) (s : Settings) where
  decode_token_ok :
      (now : ℕ) (token : String) {c : Dict}
      → j.decode now token s.jwt_secret ≡ claims c
      → decode_token j s now token ≡ ok c
  unfolding decode_token
  decode_token_ok now token h = rw (h, decode_token)

  decode_token_err :
      (now : ℕ) (token : String) {e : String}
      → j.decode now token s.jwt_secret ≡ jwt_error e
      → decode_token j s now token ≡ err (token_error e)
  unfolding decode_token
  decode_token_err now token h = rw (h, decode_token)

-- The claims of an access token.
abbrev pub access_claims : Settings → ℕ → String → String → Dict
access_claims s now subject role =
    token_payload s now subject access (some (entry "role" (str role) empty))

-- The claims of a refresh token.
abbrev pub refresh_claims : Settings → ℕ → String → Dict
refresh_claims s now subject = token_payload s now subject refresh none

module _ (s : Settings) (now : ℕ) (subject : String) where
  pub get-access_claims :
      (role : String)
      → (get "sub" (access_claims s now subject role) ≡ some (str subject))
        × (get "type" (access_claims s now subject role) ≡ some (str "access"))
        × (get "exp" (access_claims s now subject role) ≡ some (num (now + expires_delta s access)))
  unfolding token_payload put get
  get-access_claims role = (refl, refl, refl)

  pub get-refresh_claims :
      (get "sub" (refresh_claims s now subject) ≡ some (str subject))
      × (get "type" (refresh_claims s now subject) ≡ some (str "refresh"))
      × (get "exp" (refresh_claims s now subject) ≡ some (num (now + expires_delta s refresh)))
  unfolding token_payload put get
  get-refresh_claims = (refl, refl, refl)

module _ (j : Jwt) (s : Settings) (now later : ℕ) (subject : String) where
  pub decode_access :
      (role : String)
      → IsLawfulJwt j (access_claims s now subject role) s.jwt_secret
      → later ≤ now + expires_delta s access
      → decode_token j s later (create_access_token j s now subject role none)
        ≡ ok (access_claims s now subject role)
  unfolding create_access_token put
  decode_access role lawful h =
      decode_token_ok j s later _
        (lawful.decode-encode later _ (get-access_claims s now subject role).2 h)

  pub decode_refresh :
      IsLawfulJwt j (refresh_claims s now subject) s.jwt_secret
      → later ≤ now + expires_delta s refresh
      → decode_token j s later (create_refresh_token j s now subject)
        ≡ ok (refresh_claims s now subject)
  unfolding create_refresh_token
  decode_refresh lawful h =
      decode_token_ok j s later _
        (lawful.decode-encode later _ (get-refresh_claims s now subject).2 h)

  pub decode_access_expired :
      (role : String)
      → IsLawfulJwt j (access_claims s now subject role) s.jwt_secret
      → now + expires_delta s access < later
      → (e : String) × (decode_token j s later (create_access_token j s now subject role none)
          ≡ err (token_error e))
  unfolding create_access_token put
  decode_access_expired role lawful h =
      let (e, p) = lawful.decode_expired later _ (get-access_claims s now subject role).2 h in
      (e, decode_token_err j s later _ p)

-- The hash of a password, where there is one, is that of the library, which did not refuse it.
pub hash_password-eq-ok :
    (crypt : Crypt) (salt plain hashed : String)
    → hash_password crypt salt plain ≡ ok hashed
    → (crypt.refuses plain ≡ none) × (crypt.hash salt plain ≡ hashed)
unfolding hash_password
hash_password-eq-ok crypt salt plain hashed h = ground arith

-- A password that is not refused has a hash.
pub hash_password-refuses :
    (crypt : Crypt) (salt plain : String)
    → crypt.refuses plain ≡ none
    → hash_password crypt salt plain ≡ ok (crypt.hash salt plain)
unfolding hash_password
hash_password-refuses crypt salt plain n = rw (n, hash_password)

-- A password that is refused has none.
hash_password_refused :
    (crypt : Crypt) (salt plain detail : String)
    → crypt.refuses plain ≡ some detail
    → hash_password crypt salt plain ≡ err (value_error detail)
unfolding hash_password
hash_password_refused crypt salt plain detail n = rw (n, hash_password)

-- `hash_password` raises `ValueError` alone.
pub hash_password-eq-err :
    (crypt : Crypt) (salt plain : String) (e : Exn)
    → hash_password crypt salt plain ≡ err e
    → (detail : String) × (e ≡ value_error detail)
hash_password-eq-err crypt salt plain e h = elim (Option-cases (crypt.refuses plain)) [
  | inl n ↦ cc (hash_password-refuses crypt salt plain n, h)
  | inr (detail, n) ↦ (detail, cc (h, hash_password_refused crypt salt plain detail n))
]
