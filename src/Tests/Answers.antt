-- ===== src/Tests/Answers.antt =====
-- Answers of endpoints to alice, and what her client sees of them.
use lxd_management_api.Base.{◌≡◌, refl, true, none, some, [], ◌∷◌}
use lxd_management_api.Json.{Value, null, str, arr, obj, nil, cons, Dict, empty}
use lxd_management_api.Error.{Exn, validation_error}
use lxd_management_api.App.{Log, to_http}
use lxd_management_api.Security.{token_payload}
use lxd_management_api.Pagination.{PageParams, paginate, dump_page}
use lxd_management_api.Deps.{get_current_user, require_role}
use lxd_management_api.Client
use lxd_management_api.Routes.Common.{Api, guarded}
use lxd_management_api.Routes.Networks
use lxd_management_api.Routes.Instances
use lxd_management_api.Routes.Endpoint.{Endpoint, Answer, json, run}
use lxd_management_api.Routes.Endpoint.Declared.{success_status, passes_on}
use lxd_management_api.Routes.Endpoint.Calls.{call}
use lxd_management_api.Server.{HttpResponse, unhandled_exception_handler}
use lxd_management_api.Server.Requests.{handle}
use lxd_management_api.Server.Requests.Reads.{Comes, read_request, unfit_request}
use lxd_management_api.Tests.Fixtures.{accounts, test_auth, test_api, answering}

abbrev api_of : Value → Api
api_of v = record test_api { lxd = answering v }

-- Three networks, read two at a time.
abbrev networks : Value
networks = arr (cons (str "lxdbr0") (cons (str "eth0") (cons (str "eth1") nil)))

abbrev two : PageParams
two = record { limit = 2; offset = 0 }

abbrev first_page : Answer
first_page = json (obj (dump_page (paginate (str "lxdbr0" ∷ (str "eth0" ∷ (str "eth1" ∷ []))) two)))

abbrev list_networks : Endpoint
list_networks = Endpoint.list_networks none two true

abbrev render : Answer → Value
render a = null

abbrev no_headers : Exn → Dict
no_headers e = empty

abbrev wait : Endpoint
wait = Endpoint.wait_operation "op2" none 5

abbrev waited : HttpResponse × Log
waited =
    handle render no_headers test_auth test_api 10 accounts "new" "" none (some "access-token") wait
      []

read_request_example :
    Comes render no_headers test_auth test_api 10 accounts "new" "" none waited.0 200
      (call test_auth 10 accounts (some "access-token") test_api wait []).0
unfolding success_status passes_on
read_request_example =
    read_request render no_headers test_auth test_api 10 accounts "new" "" none
      (some "access-token") wait [] refl refl

abbrev get_web : Endpoint
get_web = Endpoint.get_instance "web" none

unfit_request_example :
    (handle render no_headers test_auth
      (api_of null)
      10
      accounts
      "new"
      ""
      none
      (some "access-token")
      get_web
      []).0
    ≡ unhandled_exception_handler "" validation_error
unfolding call get_current_user token_payload run Instances.get_instance guarded require_role
    to_http Client.get passes_on
unfit_request_example =
    unfit_request render no_headers test_auth (api_of null) 10 accounts "new" "" none
      (some "access-token") get_web [] null refl refl refl
