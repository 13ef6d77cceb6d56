-- ===== src/Auth/Logins.antt =====
-- What a login proves.
use lxd_management_api.Base.{
  ◌⊎◌, inl, inr, ℕ, String, ◌≡◌, refl, ap, ap₂, ◌∙◌, Bool, true, false, not, Option, none, some,
  arith, if◌then◌else◌,
}
use lxd_management_api.Error.{Result-cases, Exn, Result, ok, err}
use lxd_management_api.Security.{Crypt, verify_password}
use lxd_management_api.Users.{User, get_user_by_username}
use lxd_management_api.Deps.{Auth}
use lxd_management_api.Auth.{TokenResponse, bad_login, make_token_pair, login_as, login}

-- The two tests of a login.
abbrev tested : Bool → Bool → TokenResponse → Result TokenResponse
tested b c pair = if not b then err bad_login else if not c then err bad_login else ok pair

tested-eq-ok :
    (b c : Bool) (p pair : TokenResponse)
    → tested b c p ≡ ok pair
    → (b ≡ true) × (c ≡ true) × (pair ≡ p)
tested-eq-ok true true p pair h = (refl, refl, cc)
tested-eq-ok true false p pair h = cc
tested-eq-ok false c p pair h = cc

module _ (auth : Auth) (crypt : Crypt) where
  open auth use {settings, jwt, users, repr}

  -- The account that a login as `username` with `password` gives tokens for.
  pub record IsLogin (db : users.State) (username password : String) (user : User) : Type 0 where
    pub found : get_user_by_username users db username ≡ some user
    pub active : user.is_active ≡ true
    pub verified : verify_password crypt password user.hashed_password ≡ true

  login_as-eq-ok :
      (now : ℕ) (db : users.State) (username password : String) (o : Option User)
      (pair : TokenResponse)
      → get_user_by_username users db username ≡ o
      → login_as auth crypt now password o ≡ ok pair
      → (user : User) × IsLogin db username password user
        × (pair ≡ make_token_pair auth crypt now user)
  unfolding login_as
  login_as-eq-ok now db username password none pair e h = cc
  login_as-eq-ok now db username password (some user) pair e h =
      let (active, verified, same) =
        tested-eq-ok user.is_active (verify_password crypt password user.hashed_password) _ pair
          h in
      (user, record { found = e; active = active; verified = verified }, same)

  login_as-eq-err :
      (now : ℕ) (password : String) (o : Option User) (e : Exn)
      → login_as auth crypt now password o ≡ err e
      → e ≡ bad_login
  unfolding login_as
  login_as-eq-err now password none e h = cc
  login_as-eq-err now password (some user) e h = ground arith

  -- If a login returns tokens, there is an account of that name, it is active, its stored hash
  -- verifies the password, and the tokens are those made for that account at that time.
  login-eq-ok :
      (now : ℕ) (db : users.State) (username password : String) (pair : TokenResponse)
      → login auth crypt now db username password ≡ ok pair
      → (user : User) × IsLogin db username password user
        × (pair ≡ make_token_pair auth crypt now user)
  unfolding login
  login-eq-ok now db username password pair h =
      login_as-eq-ok now db username password _ pair refl h

  -- A login with the name of an active account whose stored hash verifies the password returns the
  -- tokens made for that account at that time.
  login-IsLogin :
      (now : ℕ) (db : users.State) (username password : String) (user : User)
      → IsLogin db username password user
      → login auth crypt now db username password ≡ ok (make_token_pair auth crypt now user)
  unfolding login
  login-IsLogin now db username password user l =
      ap (login_as auth crypt now password) l.found
      ∙ ap₂ (λ b c. tested b c (make_token_pair auth crypt now user)) l.active l.verified

  -- A login that fails is refused by the same 401 whatever the reason: an unknown name, an inactive
  -- account and a wrong password cannot be told apart.
  login-eq-err :
      (now : ℕ) (db : users.State) (username password : String) (e : Exn)
      → login auth crypt now db username password ≡ err e
      → e ≡ bad_login
  unfolding login
  login-eq-err now db username password e h = login_as-eq-err now password _ e h

  -- A login has one of two outcomes. There is an active account of the name whose stored hash verifies
  -- the password, and the login returns the tokens made for that account at that time; or there is no
  -- such account, and the login is refused by the same 401 whatever the reason, so that an unknown name,
  -- an inactive account and a wrong password cannot be told apart.
  pub login_lem :
      (now : ℕ) (db : users.State) (username password : String)
      → ((user : User) × IsLogin db username password user
          × (login auth crypt now db username password ≡ ok (make_token_pair auth crypt now user)))
        ⊎ (((user : User) → ¬ IsLogin db username password user)
            × (login auth crypt now db username password ≡ err bad_login))
  login_lem now db username password =
      elim (Result-cases (login auth crypt now db username password)) [
        | inl (pair, h) ↦
            let (user, l, same) = login-eq-ok now db username password pair h in
            inl (user, l, h ∙ ap ok same)
        | inr (e, h) ↦ inr (
          λ user l. cc (h, login-IsLogin now db username password user l),
          h ∙ ap err (login-eq-err now db username password e h),
        )
      ]
