-- ===== src/Tests/Accounts.antt =====
-- A login of alice, what her tokens open, and a registration by carol.
use lxd_management_api.Base.{◌⊎◌, arith, String, ◌≡◌, ◌≢◌, refl, true, none, some}
use lxd_management_api.Json.{Dict, get}
use lxd_management_api.Error.{http, ok, err}
use lxd_management_api.Security.{viewer, expires_delta, token_payload, decode_token}
use lxd_management_api.Users.{User, get_user_by_username}
use lxd_management_api.Users.Table.{table, table-IsLawful}
use lxd_management_api.Deps.{unauthorized, active_or, get_current_user, ws_user_from_token}
use lxd_management_api.Deps.Laws.{IsBearer, get_current_user-eq-ok, ws_user_from_token_agrees}
use lxd_management_api.Auth.{
  bad_login, UserCreate, UserOut, make_token_pair, login, refresh, register,
}
use lxd_management_api.Auth.Logins.{IsLogin, login_lem}
use lxd_management_api.Auth.Registration.{register-IsLogin}
use lxd_management_api.Auth.Sessions.{
  access_token_opens, refresh_token_opens_nothing, access_token_not_refreshed,
  refresh_token_exchanged,
}
use lxd_management_api.Tests.Fixtures.{
  test_settings, alice, carol, accounts, test_crypt, test_crypt-IsLawful, test_jwt, test_auth,
  alice_access, access_token-IsLawful, refresh_token-IsLawful,
}

get_current_user-eq-ok_example :
    (token : String) × (payload : Dict) × (some "access-token" ≡ some token)
    × (decode_token test_jwt test_settings 10 token ≡ ok payload)
    × IsBearer test_auth accounts payload alice
unfolding get_current_user token_payload
get_current_user-eq-ok_example =
    get_current_user-eq-ok test_auth 10 accounts (some "access-token") alice refl

ws_user_from_token_agrees_example :
    ws_user_from_token test_auth 10 accounts "access-token"
    ≡ get_current_user test_auth 10 accounts (some "access-token")
unfolding decode_token get token_payload
ws_user_from_token_agrees_example =
    ws_user_from_token_agrees test_auth 10 accounts "access-token" "alice" alice_access refl refl
      refl refl refl

access_token_opens_example :
    get_current_user test_auth 10 accounts
      (some (make_token_pair test_auth test_crypt 0 alice).access_token)
    ≡ active_or test_auth unauthorized (get_user_by_username table accounts "alice")
unfolding expires_delta
access_token_opens_example =
    access_token_opens test_auth test_crypt 0 10 alice access_token-IsLawful refresh_token-IsLawful
      accounts (omega arith) refl

refresh_token_opens_nothing_example :
    get_current_user test_auth 10 accounts
      (some (make_token_pair test_auth test_crypt 0 alice).refresh_token)
    ≡ err (http 401 "Access token required")
unfolding expires_delta
refresh_token_opens_nothing_example =
    refresh_token_opens_nothing test_auth test_crypt 0 10 alice access_token-IsLawful
      refresh_token-IsLawful accounts (omega arith)

access_token_not_refreshed_example :
    refresh test_auth test_crypt 10 accounts
      (make_token_pair test_auth test_crypt 0 alice).access_token
    ≡ err (http 401 "Refresh token required")
unfolding expires_delta
access_token_not_refreshed_example =
    access_token_not_refreshed test_auth test_crypt 0 10 alice access_token-IsLawful
      refresh_token-IsLawful accounts (omega arith)

refresh_token_exchanged_example :
    refresh test_auth test_crypt 10 accounts
      (make_token_pair test_auth test_crypt 0 alice).refresh_token
    ≡ ok (make_token_pair test_auth test_crypt 10 alice)
unfolding expires_delta get_user_by_username
refresh_token_exchanged_example =
    refresh_token_exchanged test_auth test_crypt 0 10 alice access_token-IsLawful
      refresh_token-IsLawful accounts alice (omega arith) refl refl

login_lem_example :
    ((user : User) × IsLogin test_auth test_crypt accounts "alice" "guess" user
      × (login test_auth test_crypt 0 accounts "alice" "guess"
          ≡ ok (make_token_pair test_auth test_crypt 0 user)))
    ⊎ (((user : User) → ¬ IsLogin test_auth test_crypt accounts "alice" "guess" user)
        × (login test_auth test_crypt 0 accounts "alice" "guess" ≡ err bad_login))
login_lem_example = login_lem test_auth test_crypt 0 accounts "alice" "guess"

abbrev dave : UserCreate
dave = record { username = "dave"; password = "password"; role = viewer }

abbrev dave_out : UserOut
dave_out = record { id = 4; username = "dave"; role = viewer; is_active = true; created_at = 0 }

register-IsLogin_example :
    (get_user_by_username table accounts "dave" ≡ none)
    × (dave_out.username ≡ dave.username)
    × (dave_out.role ≡ dave.role)
    × ((user : User) × IsLogin test_auth test_crypt
          (register test_auth test_crypt "salt" accounts (ok carol) dave).1
          "dave"
          "password"
          user)
unfolding register
register-IsLogin_example =
    register-IsLogin test_auth test_crypt table-IsLawful test_crypt-IsLawful "salt" accounts
      (ok carol) dave dave_out refl

abbrev bob_again : UserCreate
bob_again = record dave { username = "bob" }

bob_taken : get_user_by_username table accounts "bob" ≢ none
unfolding get_user_by_username
bob_taken h = cc
