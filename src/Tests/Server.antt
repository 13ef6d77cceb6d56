-- ===== src/Tests/Server.antt =====
-- Requests with and without an id, two startups, and a line of the log.
use lxd_management_api.Base.{
  ℕ, String, ◌==◌, ◌≡◌, refl, Option, none, some, if◌then◌else◌, List, [], ◌∷◌,
}
use lxd_management_api.Error.{Exn, type_error, Result, err}
use lxd_management_api.Users.{User}
use lxd_management_api.Users.Table.{table, table-IsLawful}
use lxd_management_api.Users.Directory.{Command, create, seed, view, obey_all, execute_all}
use lxd_management_api.Users.Directory.Refinement.{execute_all_refines}
use lxd_management_api.Logging.{Loggers, foreign}
use lxd_management_api.Server.{HttpResponse, startup}
use lxd_management_api.Server.Laws.{startup_again}
use lxd_management_api.Tests.Fixtures.{test_settings, accounts, test_crypt}

abbrev raises : String → Result HttpResponse
raises id = err type_error

abbrev level_named : String → Option ℕ
level_named level = if level == "DEBUG" then some 10 else none

abbrev preset : Loggers
preset = record { handlers = foreign "pytest" ∷ []; level = 0; levels = λ name. 10 }

abbrev started : String → Loggers × List User → Option Exn × (Loggers × List User)
started salt = startup table (λ s. s) level_named "DEBUG" (λ v. "...") test_crypt salt test_settings

startup_again_example :
    started "b" (started "a" (preset, [])).1 ≡ (none, (started "a" (preset, [])).1)
startup_again_example =
    startup_again table table-IsLawful (λ s. s) level_named "DEBUG" (λ v. "...") test_crypt
      test_settings "a" "b" preset [] refl refl

-- The seed account, a new account, one whose name is taken, and one whose password is
-- refused.
abbrev commands : List Command
commands =
    seed "a"
    ∷ (create "b" "dave" "password" "viewer"
        ∷ (create "c" "bob" "secret" "admin" ∷ (create "d" "erin" "null" "viewer" ∷ [])))

execute_all_refines_example :
    (
      (execute_all table (λ v. "...") test_crypt test_settings commands accounts).0,
      view table (execute_all table (λ v. "...") test_crypt test_settings commands accounts).1,
    )
    ≡ obey_all test_crypt test_settings commands (view table accounts)
execute_all_refines_example =
    execute_all_refines table table-IsLawful (λ v. "...") test_crypt test_settings commands accounts
