-- ===== src/Tests/Requests.antt =====
-- Requests to the LXD of the tests, waits for its operations, and the references to them.
use lxd_management_api.App.{Reply, bad_url}
use lxd_management_api.Base.{
  Bool, true, false, ap, String, ◌<>◌, ◌≡◌, ◌≢◌, refl, true, inl, none, some, [], ◌∷◌,
}
use lxd_management_api.Base.Text.{contains}
use lxd_management_api.Json.{Value, null, str, obj, Dict, empty, entry, get}
use lxd_management_api.Error.{http, lxd, ok, err}
use lxd_management_api.App.{Response, answer, to_http}
use lxd_management_api.Client.{
  async, LxdResponse, no_kwargs, non_json, prepared, unreachable, normalize, request,
}
use lxd_management_api.Client.Laws.{outcome, IsFailure, request-eq-ok, to_http-request-non_json}
use lxd_management_api.Operation.{
  AsyncOperationRef, failed_operation, operation_id_from_url, to_async_ref,
}
use lxd_management_api.Operation.Waits.{EndedBadly}
use lxd_management_api.Operation.References.{to_async_ref_roundtrip}
use lxd_management_api.Routes.Common.{operation_failed, wait_failed, waited}
use lxd_management_api.Routes.System.{health_deep}
use lxd_management_api.Routes.Waiting.{
  waits, waited-failure, waited-unreachable, health_status, health_request, health_deep-Reports,
}
use lxd_management_api.Tests.Fixtures.{test_lxd, test_api, web, reply, failed}

request-eq-ok_example :
    (response : Response) × (test_lxd.send [] (prepared test_lxd "GET" "instances/web" no_kwargs)
      ≡ answer response)
    × ¬ IsFailure test_lxd response
unfolding request
request-eq-ok_example = request-eq-ok test_lxd "GET" "instances/web" no_kwargs [] web refl

filled : (reply "<html>").content ≢ []
filled h = cc

to_http-request-non_json_example :
    (to_http (request test_lxd "GET" "/" no_kwargs) []).0
    ≡ err (http 200 (non_json (reply "<html>")).message)
unfolding prepared
to_http-request-non_json_example =
    to_http-request-non_json test_lxd "GET" "/" no_kwargs [] (reply "<html>") refl filled refl

abbrev repr : Value → String
repr v = "..."

abbrev operation : Dict
operation = entry "id" (str "op1") (entry "class" (str "task") empty)

to_async_ref_roundtrip_example :
    (ref : AsyncOperationRef) × (to_async_ref repr (obj operation) ≡ ok ref)
    × (ref.operation_id ≡ "op1")
    × (operation_id_from_url (some ref.operation_url) ≡ some "op1")
    × (ref.poll_url ≡ "/api/v1/operations/" <> "op1")
    × (ref.wait_url ≡ ref.poll_url <> "/wait")
unfolding get contains
to_async_ref_roundtrip_example = to_async_ref_roundtrip repr operation "op1" refl refl refl refl

abbrev bare : LxdResponse
bare = record {
  type = async;
  status = some "Operation created";
  status_code = some 100;
  operation = some "/1.0/operations/op1";
  metadata = null;
  error = none;
  error_code = none;
}

abbrev ref_to : String → AsyncOperationRef
ref_to id = record {
  operation_id = id;
  operation_url = "/1.0/operations/" <> id;
  status = "async";
  poll_url = "/api/v1/operations/" <> id;
  wait_url = "/api/v1/operations/" <> id <> "/wait";
}

failed_badly : EndedBadly failed
unfolding get
failed_badly = inl refl

waited-failure_example :
    (status : String) × (get "status" failed ≡ some (str status))
    × (waited test_api operation_failed none true (ref_to "op1") [] ≡ (
      err (http 500 (failed_operation repr "op1" status failed).message),
      waits test_api none (ref_to "op1") refl [] ∷ [],
    ))
    × (waited test_api wait_failed none true (ref_to "op1") [] ≡ (
      err (http 500 (failed_operation repr "op1" status failed).message),
      waits test_api none (ref_to "op1") refl [] ∷ [],
    ))
unfolding prepared normalize
waited-failure_example =
    waited-failure test_api none (ref_to "op1") refl [] (reply "failed") failed refl refl
      failed_badly

waited-unreachable_example :
    (waited test_api wait_failed none true (ref_to "op3") [] ≡ (
      err (http 500 (unreachable test_lxd "Connection refused").message),
      waits test_api none (ref_to "op3") refl [] ∷ [],
    ))
    × (waited test_api operation_failed none true (ref_to "op3") [] ≡ (
      err (lxd (unreachable test_lxd "Connection refused")),
      waits test_api none (ref_to "op3") refl [] ∷ [],
    ))
unfolding prepared
waited-unreachable_example =
    waited-unreachable test_api none (ref_to "op3") refl [] "Connection refused" refl

is_bad_url : Reply → Bool
is_bad_url (bad_url exc) = true
is_bad_url _ = false

health_deep-Reports_example :
    (body : Dict) × (health_deep test_lxd "r1" []
      ≡ (ok (obj body), health_request test_lxd "r1" [] ∷ []))
    × (get "status" body
        ≡ some (
            str (
              health_status
                (outcome test_lxd (test_lxd.send [] (health_request test_lxd "r1" []))))))
    × (get "request_id" body ≡ some (str "r1"))
unfolding is_bad_url prepared
health_deep-Reports_example =
    health_deep-Reports test_lxd "r1" [] (λ exc h. let no : false ≡ true = ap is_bad_url h in cc)
