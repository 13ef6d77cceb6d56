-- ===== src/Tests/History.antt =====
-- A registration by alice as an administrator.
use lxd_management_api.Base.{◌≡◌, ◌⊎◌, refl, true, none, some, List, [], ◌∷◌}
use lxd_management_api.Security.{operator, token_payload}
use lxd_management_api.Users.{User, get_user_by_username}
use lxd_management_api.Users.Table.{table, table-IsLawful}
use lxd_management_api.Deps.{get_current_user, require_role}
use lxd_management_api.Auth.{UserCreate}
use lxd_management_api.Server.Accounts.{
  Event, registration, restart, after_all, Somewhere, account_origin,
}
use lxd_management_api.Tests.Fixtures.{account, test_crypt, test_auth}

abbrev promoted : List User
promoted = account 2 "alice" "admin" ∷ []

abbrev dave : UserCreate
dave = record { username = "dave"; password = "password"; role = operator }

abbrev events : List Event
events = restart "a" ∷ (registration 10 "b" (some "access-token") dave ∷ [])

abbrev dave_row : User
dave_row = record {
  id = 3;
  username = "dave";
  hashed_password = "hash:password";
  role = "operator";
  is_active = true;
  created_at = 0;
}

account_origin_example :
    (get_user_by_username table promoted "dave" ≡ some dave_row)
    ⊎ ((get_user_by_username table promoted "dave" ≡ none)
        × Somewhere test_auth test_crypt "dave" dave_row promoted events)
unfolding after_all get_current_user token_payload require_role get_user_by_username
account_origin_example =
    account_origin test_auth test_crypt table-IsLawful events promoted "dave" dave_row refl
