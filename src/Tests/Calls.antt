-- ===== src/Tests/Calls.antt =====
-- Requests of alice with her access token, as an operator and as an administrator.
use lxd_management_api.Base.{
  String, ◌≡◌, ◌⊎◌, ap, ◌≢◌, Bool, true, false, refl, none, some, List, [], ◌∷◌,
}
use lxd_management_api.Json.{Value, null, str, Dict, empty, get}
use lxd_management_api.Error.{Exn, http, convert_lxd}
use lxd_management_api.App.{Log, Request, to_http, raise}
use lxd_management_api.App.Keeps.{mutations}
use lxd_management_api.Security.{operator, token_payload}
use lxd_management_api.Users.{User}
use lxd_management_api.Deps.{get_current_user, require_role}
use lxd_management_api.Client
use lxd_management_api.Client.{unreachable}
use lxd_management_api.Operation.{to_async_ref}
use lxd_management_api.Routes.Common.{guarded, devices_of, accepted}
use lxd_management_api.Routes.Storage
use lxd_management_api.Routes.Endpoint.{Endpoint, Answer, run}
use lxd_management_api.Routes.Endpoint.Declared.{required}
use lxd_management_api.Routes.Contained.{IsContained}
use lxd_management_api.Routes.Endpoint.Contained.{lets_out, call-Contained}
use lxd_management_api.Routes.Endpoint.Calls.{call, HasCredentials, mutation_needs_operator}
use lxd_management_api.Server.{HttpResponse, request_id}
use lxd_management_api.Server.Requests.{handle, refused_request}
use lxd_management_api.Tests.Fixtures.{account, accounts, test_auth, test_api, test_lxd}

some_request : List Request → Bool
some_request [] = false
some_request (r ∷ rs) = true

abbrev attach : Endpoint
attach = Endpoint.attach_volume "default" "data" "web" none

alice_mutates :
    mutations (call test_auth 10 accounts (some "access-token") test_api attach []).1 ≢ mutations []
unfolding call get_current_user token_payload some_request run Storage.attach_volume mutations
    guarded require_role to_http Client.get devices_of accepted Client.patch to_async_ref
alice_mutates h = let sent : true ≡ false = ap some_request h in cc

mutation_needs_operator_example :
    HasCredentials test_auth 10 accounts (some "access-token") operator
mutation_needs_operator_example =
    mutation_needs_operator test_auth 10 accounts (some "access-token") test_api attach []
      alice_mutates

abbrev promoted : List User
promoted = account 2 "alice" "admin" ∷ []

abbrev remove : Endpoint
remove = Endpoint.delete_pool "default" none

abbrev as_it_is : String → String
as_it_is url = url

abbrev render : Answer → Value
render a = null

abbrev no_headers : Exn → Dict
no_headers e = empty

-- Alice, an operator, asks for the removal of a pool.
abbrev refused : HttpResponse × Log
refused =
    handle render no_headers test_auth test_api 10 accounts "new" "" none (some "access-token")
      remove []

refused_request_example :
    ((refused.0.status_code ≡ 401) ⊎ (refused.0.status_code ≡ 403))
    × (get "X-Request-ID" refused.0.headers ≡ some (str (request_id "new" none)))
    × (refused.1 ≡ [])
unfolding required require_role get_current_user token_payload
refused_request_example =
    refused_request render no_headers test_auth test_api 10 accounts "new" "" none
      (some "access-token") remove [] (http 403 "Role 'admin' or higher required") refl

abbrev ghost : Endpoint
ghost = Endpoint.attach_volume "default" "data" "ghost" none

call-Contained_example : IsContained (http 503 (unreachable test_lxd "Connection refused").message)
unfolding lets_out call Storage.attach_volume guarded require_role token_payload to_http Client.get
    raise convert_lxd
call-Contained_example =
    call-Contained test_auth 10 accounts (some "access-token") test_api ghost []
      (http 503 (unreachable test_lxd "Connection refused").message) refl refl
