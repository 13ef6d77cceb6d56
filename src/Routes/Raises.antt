-- ===== src/Routes/Raises.antt =====
-- What the pieces of the handlers raise: the client of LXD, a wait, a page, and the check of a role.
use lxd_management_api.Base.{
  ℕ, ◌≡◌, String, Option, sym, refl, arith, Bool, true, false, if◌then◌else◌,
}
use mathlib.Core.Path.{subst}
use lxd_management_api.Json.{Value}
use lxd_management_api.Error.{
  Exn, http, lxd, operation_error, ErrorClass, LxdError, token_error, value_error, validation_error,
  type_error, invalid_url, unicode_error, Result, ok, err, convert_lxd,
}
use lxd_management_api.App.{pure, raise, M, Response, Reply, failure, answer, bad_url}
use lxd_management_api.App.Raises.{
  Raises, IsUsual, IsExpected, of_http, of_url, of_unicode, Raises-pure, Raises-raise,
  expected_http, expected_lxd, expected_url, Raises-lift, raises_rules, convert_lxd-IsUsual,
  raised_same,
}
use lxd_management_api.Client
use lxd_management_api.Client.{
  Lxd, Kwargs, received, exchange, normalize, request, request_raw, prepared,
}
use lxd_management_api.Client.Laws.{normalize_only_lxd}
use lxd_management_api.Operation.{wait_for_operation, wait_result}
use lxd_management_api.Pagination.{PageParams}
use lxd_management_api.Security.{Role}
use lxd_management_api.Users.{User}
use lxd_management_api.Deps.{require_role}
use lxd_management_api.Routes.Common.{Stream, streamed, page_of, operation_failed}

module _ (client : Lxd) where
  received-IsExpected : (r : Reply) (e : Exn) → received client r ≡ err e → IsExpected e
  unfolding received
  received-IsExpected (failure exc) e h = raised_same IsExpected h (expected_lxd _)
  received-IsExpected (answer response) e h = cc
  received-IsExpected (bad_url exc) e h = raised_same IsExpected h (expected_url exc)

  exchange-Raises :
      (method path : String) (kwargs : Kwargs)
      → Raises IsExpected (exchange client method path kwargs)
  unfolding exchange
  exchange-Raises method path kwargs = record {
    at = λ log. received-IsExpected (client.send log (prepared client method path kwargs));
  }

  normalize-IsExpected :
      (response : Response) (e : Exn) → normalize client response ≡ err e → IsExpected e
  normalize-IsExpected response e h =
      let (x, same) = normalize_only_lxd client response e h in
      subst IsExpected (sym same) (expected_lxd x)

  pub get-Raises :
      (path : String) (kwargs : Kwargs) → Raises IsExpected (Client.get client path kwargs)
  unfolding Client.get
  get-Raises path kwargs = search (raises_rules, Raises-lift, exchange-Raises, normalize-IsExpected)

  pub request-Raises :
      (method path : String) (kwargs : Kwargs)
      → Raises IsExpected (request client method path kwargs)
  unfolding request
  request-Raises method path kwargs =
      search (raises_rules, Raises-lift, exchange-Raises, normalize-IsExpected)

  pub request_raw-Raises :
      (method path : String) (kwargs : Kwargs)
      → Raises IsExpected (request_raw client method path kwargs)
  unfolding request_raw
  request_raw-Raises method path kwargs = exchange-Raises method path kwargs

  wait_result_only_lxd :
      (repr : Value → String) (id : String) (v : Value) (e : Exn)
      → wait_result repr id v ≡ err e
      → (x : LxdError) × (e ≡ lxd x)
  unfolding wait_result
  wait_result_only_lxd repr id v e h = ground arith

  wait_result-IsExpected :
      (repr : Value → String) (id : String) (v : Value) (e : Exn)
      → wait_result repr id v ≡ err e
      → IsExpected e
  wait_result-IsExpected repr id v e h =
      let (x, same) = wait_result_only_lxd repr id v e h in
      subst IsExpected (sym same) (expected_lxd x)

  pub wait_for_operation-Raises :
      (repr : Value → String) (id : String) (timeout : ℕ) (project : Option String)
      → Raises IsExpected (wait_for_operation client repr id timeout project)
  unfolding wait_for_operation
  wait_for_operation-Raises repr id timeout project =
      search (raises_rules, Raises-lift, get-Raises, wait_result-IsExpected)

failed-IsExpected :
    (exc : LxdError) (class : ErrorClass)
    → IsExpected (elim class [ operation_error ↦ http 500 exc.message | _ ↦ lxd exc ])
failed-IsExpected exc operation_error = expected_http 500 exc.message
failed-IsExpected exc _ = expected_lxd exc

pub operation_failed-IsUsual : (e : Exn) → IsExpected e → IsUsual (convert_lxd (operation_failed e))
unfolding operation_failed convert_lxd
operation_failed-IsUsual (http status detail) h = of_http status detail
operation_failed-IsUsual (lxd exc) h = convert_lxd-IsUsual _ (failed-IsExpected exc exc.class)
operation_failed-IsUsual (token_error _) h = elim h [ ]
operation_failed-IsUsual (value_error _) h = elim h [ ]
operation_failed-IsUsual validation_error h = elim h [ ]
operation_failed-IsUsual type_error h = elim h [ ]
operation_failed-IsUsual (invalid_url exc) h = of_url exc
operation_failed-IsUsual unicode_error h = elim h [ ]

encoded-Raises :
    (s : Stream) (b : Bool) → Raises IsUsual (if b then pure s else raise unicode_error)
encoded-Raises s true = Raises-pure s
encoded-Raises s false = Raises-raise _ of_unicode

pub streamed-Raises :
    (body : Response) (media_type disposition : String)
    → Raises IsUsual (streamed body media_type disposition)
unfolding streamed
streamed-Raises body media_type disposition = encoded-Raises _ _

pub page_of-Raises :
    (call : M Value) (page : PageParams)
    → Raises IsExpected call
    → Raises IsUsual (page_of call page)
unfolding page_of
page_of-Raises call page k = search raises_rules

refused-IsUsual :
    (b : Bool) (u : User) (detail : String) (e : Exn)
    → (if b then ok u else err (http 403 detail)) ≡ err e
    → IsUsual e
refused-IsUsual true u detail e h = cc
refused-IsUsual false u detail e h = raised_same IsUsual h (of_http 403 detail)

pub require_role-IsUsual :
    (role : Role) (caller : Result User)
    → ((e : Exn) → caller ≡ err e → IsUsual e)
    → (e : Exn) → require_role role caller ≡ err e
    → IsUsual e
unfolding require_role
require_role-IsUsual role (err x) k e h = raised_same IsUsual h (k x refl)
require_role-IsUsual role (ok u) k e h = refused-IsUsual _ u _ e h
