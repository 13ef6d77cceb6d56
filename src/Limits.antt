-- ===== src/Limits.antt =====
-- core/limiter.py, and the limits that routes/auth.py puts on its handlers. The limiter is the library
-- slowapi: it is the record `Limiter`, and `IsLimiter` states what its documentation says of a limit per
-- minute.
pub mod Attempts
use lxd_management_api.Base.{
  ℕ, ◌+◌, ◌≤◌, ◌<◌, num_eq, ltb, String, ◌==◌, ◌≡◌, Bool, true, false, ◌&&◌, Option, none, some,
  List, if◌then◌else◌,
}
use lxd_management_api.Error.{Result, ok, err}
use lxd_management_api.Security.{Crypt, admin}
use lxd_management_api.Users.{User}
use lxd_management_api.Deps.{Auth, require_role}
use lxd_management_api.Auth.{UserCreate, UserOut, TokenResponse, login, refresh, register}

-- `hit` tells whether a call of a route from an address at a time is let through, with a limit of so
-- many calls in a period of so many seconds. `window` is the time at which the period began that such a
-- call falls into, whether periods are counted from a fixed time or from a first call, and `hits` is the
-- number of calls of a route from an address that were let through in the period that began at a time.
pub record Limiter : Type 1 where
  pub State : Type 0
  pub window : State → String → String → ℕ → ℕ → ℕ
  pub hits : State → String → String → ℕ → ℕ
  pub hit : State → String → String → ℕ → ℕ → ℕ → Bool × State

-- One more for a call that is let through, for its own route, address and window.
abbrev pub one_if : Bool → ℕ
one_if true = 1
one_if false = 0

-- What is documented of limits with one period: a call is let through while fewer than the limit were in
-- its period, the calls that are let through are counted, and a period lasts so long as it is said to,
-- for all calls in it, once a call has begun it.
pub record IsLimiter (lim : Limiter) (period : ℕ) : Type 0 where
  pub hit-allowed :
      (s : lim.State) (route address : String) (limit now : ℕ)
      → (lim.hit s route address limit period now).0
        ≡ ltb (lim.hits s route address (lim.window s route address period now)) limit
  pub hits-hit :
      (s : lim.State) (route address : String) (limit now : ℕ) (r a : String) (w : ℕ)
      → lim.hits (lim.hit s route address limit period now).1 r a w
        ≡ lim.hits s r a w
          + one_if (
              (lim.hit s route address limit period now).0
              && (route == r && (address == a && num_eq (lim.window s route address period now) w)))
  pub window_lasts :
      (s : lim.State) (r a : String) (w now : ℕ)
      → lim.window s r a period w ≡ w
      → 1 ≤ lim.hits s r a w
      → w ≤ now
      → now < w + period
      → lim.window s r a period now ≡ w
  pub window_kept :
      (s : lim.State) (route address : String) (limit now : ℕ) (r a : String) (w : ℕ)
      → lim.window s r a period w ≡ w
      → lim.window (lim.hit s route address limit period now).1 r a period w ≡ w

module _ (lim : Limiter) where
  -- `@limiter.limit`: what the handler gives, or `none`, which is answered 429.
  unfoldable pub limited :
      {A : Type 0} → lim.State → String → String → ℕ → ℕ → ℕ → A → Option A × lim.State
  limited s route address limit period now result =
      let p = lim.hit s route address limit period now in ((if p.0 then some result else none), p.1)

  module _ (auth : Auth) (crypt : Crypt) where
    -- The handler `login` behind its limit of 10 calls in 60 seconds.
    unfoldable pub limited_login :
        lim.State
        → String
        → ℕ
        → auth.users.State
        → String
        → String
        → Option (Result TokenResponse) × lim.State
    unfolding limited login
    limited_login s address now db username password =
        limited s "login" address 10 60 now (login auth crypt now db username password)

    -- The handler `refresh`, likewise.
    unfoldable pub limited_refresh :
        lim.State
        → String
        → ℕ
        → auth.users.State
        → String
        → Option (Result TokenResponse) × lim.State
    unfolding limited refresh
    limited_refresh s address now db token =
        limited s "refresh" address 10 60 now (refresh auth crypt now db token)

    -- The handler `register` behind its limit of 5. The dependency on the role is resolved before, so a
    -- call that it refuses is not counted.
    unfoldable pub limited_register :
        String
        → lim.State
        → String
        → ℕ
        → auth.users.State
        → Result User
        → UserCreate
        → Option (Result UserOut × auth.users.State) × lim.State
    unfolding limited register require_role
    limited_register salt s address now db caller payload = elim (require_role admin caller) [
      | err e ↦ (some (err e, db), s)
      | ok _ ↦ limited s "register" address 5 60 now (register auth crypt salt db caller payload)
    ]
