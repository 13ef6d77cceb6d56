-- ===== src/Limits/Attempts.antt =====
-- How many attempts to log in reach the check of the password.
use lxd_management_api.Base.{
  ℕ, ◌+◌, ◌≤◌, ltb, leb, String, ◌==◌, ◌≡◌, Bool, true, false, ◌&&◌, Option, none, some, List, [],
  ◌∷◌,
}
use lxd_management_api.Error.{Result}
use lxd_management_api.Security.{Crypt}
use lxd_management_api.Users.{User}
use lxd_management_api.Deps.{Auth}
use lxd_management_api.Auth.{UserCreate}
use lxd_management_api.Limits.{
  Limiter, IsLimiter, one_if, limited_login, limited_refresh, limited_register,
}

abbrev is_some : {A : Type 0} → Option A → Bool
is_some none = false
is_some (some a) = true

module _ (auth : Auth) where
  -- A call of one of the three handlers that have a limit, with the address and the time.
  pub data Call : Type 0 where
    login_call : String → ℕ → auth.users.State → String → String → Call
    refresh_call : String → ℕ → auth.users.State → String → Call
    register_call : String → ℕ → auth.users.State → Result User → UserCreate → Call

  module _ (lim : Limiter) (crypt : Crypt) (salt : String) where
    -- Whether the handler of a call ran, and the limiter afterwards.
    run_call : Call → lim.State → Bool × lim.State
    unfolding limited_login limited_refresh limited_register
    run_call (login_call address now db username password) s =
        let r = limited_login lim auth crypt s address now db username password in
        (is_some r.0, r.1)
    run_call (refresh_call address now db token) s =
        let r = limited_refresh lim auth crypt s address now db token in (is_some r.0, r.1)
    run_call (register_call address now db caller payload) s =
        let r = limited_register lim auth crypt salt s address now db caller payload in
        (is_some r.0, r.1)

    -- A login from the address in the minute that begins at a time.
    is_login_of : String → ℕ → Call → Bool
    is_login_of a w (login_call address now db username password) =
        address == a && (leb w now && ltb now (w + 60))
    is_login_of a w _ = false

    -- The logins from the address in that minute whose password is looked at.
    pub logins_tried : String → ℕ → List Call → lim.State → ℕ
    unfolding run_call is_login_of
    logins_tried a w [] s = 0
    logins_tried a w (c ∷ cs) s =
        let r = run_call c s in one_if (r.0 && is_login_of a w c) + logins_tried a w cs r.1

    module _ (lawful : IsLimiter lim 60) (a : String) (w : ℕ) where
      -- The minute has begun with a login from the address.
      record Begun (s : lim.State) : Type 0 where
        window : lim.window s "login" a 60 w ≡ w
        begun : 1 ≤ lim.hits s "login" a w
        within : lim.hits s "login" a w ≤ 10

      -- What a call adds to the logins that were let through, and that they stay within the limit.
      record Counted (c : Call) (s : lim.State) : Type 0 where
        adds :
            lim.hits s "login" a w + one_if ((run_call c s).0 && is_login_of a w c)
            ≤ lim.hits (run_call c s).1 "login" a w
        still : Begun (run_call c s).1
