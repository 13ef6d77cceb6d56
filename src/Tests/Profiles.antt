-- ===== src/Tests/Profiles.antt =====
-- Carol lists the accounts.
use lxd_management_api.Base.{◌≡◌, refl, ◌⊎◌, List}
use lxd_management_api.Error.{ok, err, validation_error}
use lxd_management_api.Users.{list_users}
use lxd_management_api.Users.Table.{table}
use lxd_management_api.Deps.{require_role}
use lxd_management_api.Auth.{UserOut, all_users}
use lxd_management_api.Auth.Profiles.{Profiles, HasStray, all_users_lem}
use lxd_management_api.Tests.Fixtures.{accounts, carol}

all_users_lem_example :
    ((os : List UserOut) × (all_users table accounts (ok carol) ≡ ok os)
      × Profiles (list_users table accounts) os)
    ⊎ (HasStray (list_users table accounts)
        × (all_users table accounts (ok carol) ≡ err validation_error))
unfolding require_role
all_users_lem_example = all_users_lem table accounts (ok carol) carol refl
