-- ===== src/Routes/Contained.antt =====
-- What the pieces of the handlers raise that start an operation or change devices.
use mathlib.Core.Path.{subst}
use lxd_management_api.Base.{
  ℕ, ◌≡◌, String, Option, sym, arith, Bool, true, false, ◌&&◌, if◌then◌else◌,
}
use lxd_management_api.Base.Text.{nonempty}
use lxd_management_api.Json.{Value}
use lxd_management_api.Error.{
  Exn, http, lxd, validation_error, type_error, invalid_url, unicode_error, err,
}
use lxd_management_api.App.{M, Response, to_http}
use lxd_management_api.App.Raises.{
  Raises, IsUsual, IsExpected, Raises-raise, Raises-lift, Raises-try_except, raises_rules,
  Raises-then, Raises-pure, Raises-to_http,
}
use lxd_management_api.Client
use lxd_management_api.Client.{Lxd, Kwargs, request_raw}
use lxd_management_api.Operation.{AsyncOperationRef, to_async_ref}
use lxd_management_api.Operation.References.{to_async_ref_only_validation}
use lxd_management_api.Pagination.{PageParams}
use lxd_management_api.Routes.Common.{
  Api, streamed, page_of, wait_failed, accepted, waited, accepted_or_waited, devices_of,
}
use lxd_management_api.Routes.Raises.{
  streamed-Raises, request-Raises, wait_for_operation-Raises, page_of-Raises,
}

-- What an endpoint may raise: an `HTTPException`, the refusal of what LXD sent, the `httpx.InvalidURL` of
-- the HTTP client, or the `UnicodeEncodeError` of a header.
pub data IsContained : Exn → Type 0 where
  contained_http : (status : ℕ) (detail : String) → IsContained (http status detail)
  contained_validation : IsContained validation_error
  contained_type : IsContained type_error
  contained_url : (exc : String) → IsContained (invalid_url exc)
  contained_unicode : IsContained unicode_error

pub IsUsual-IsContained : (e : Exn) → IsUsual e → IsContained e
IsUsual-IsContained (http status detail) h = contained_http status detail
IsUsual-IsContained (invalid_url exc) h = contained_url exc
IsUsual-IsContained unicode_error h = contained_unicode
IsUsual-IsContained _ h = elim h [ ]

pub Raises-IsContained : {A : Type 0} (m : M A) → Raises IsUsual m → Raises IsContained m
Raises-IsContained m k = record { at = λ log e h. IsUsual-IsContained e (k.at log e h) }

pub to_http-Contained :
    {A : Type 0} (m : M A) → Raises IsExpected m → Raises IsContained (to_http m)
to_http-Contained m k = Raises-IsContained _ (Raises-to_http m k)

to_async_ref-IsContained :
    (repr : Value → String) (v : Value) (e : Exn) → to_async_ref repr v ≡ err e → IsContained e
to_async_ref-IsContained repr v e h =
    subst IsContained (sym (to_async_ref_only_validation repr v e h)) contained_validation

devices_of_only_type : (api : Api) (v : Value) (e : Exn) → devices_of api v ≡ err e → e ≡ type_error
unfolding devices_of
devices_of_only_type api v e h = ground arith

pub devices_of-IsContained :
    (api : Api) (v : Value) (e : Exn) → devices_of api v ≡ err e → IsContained e
devices_of-IsContained api v e h =
    subst IsContained (sym (devices_of_only_type api v e h)) contained_type

pub post-Raises :
    (client : Lxd) (path : String) (kwargs : Kwargs)
    → Raises IsExpected (Client.post client path kwargs)
unfolding Client.post
post-Raises client path kwargs = request-Raises client _ path kwargs

pub put-Raises :
    (client : Lxd) (path : String) (kwargs : Kwargs)
    → Raises IsExpected (Client.put client path kwargs)
unfolding Client.put
put-Raises client path kwargs = request-Raises client _ path kwargs

pub patch-Raises :
    (client : Lxd) (path : String) (kwargs : Kwargs)
    → Raises IsExpected (Client.patch client path kwargs)
unfolding Client.patch
patch-Raises client path kwargs = request-Raises client _ path kwargs

pub delete-Raises :
    (client : Lxd) (path : String) (kwargs : Kwargs)
    → Raises IsExpected (Client.delete client path kwargs)
unfolding Client.delete
delete-Raises client path kwargs = request-Raises client _ path kwargs

pub page_of-Contained :
    (call : M Value) (page : PageParams)
    → Raises IsExpected call
    → Raises IsContained (page_of call page)
page_of-Contained call page k = Raises-IsContained _ (page_of-Raises call page k)

pub streamed-Contained :
    (body : Response) (media_type disposition : String)
    → Raises IsContained (streamed body media_type disposition)
streamed-Contained body media_type disposition =
    Raises-IsContained _ (streamed-Raises body media_type disposition)

pub accepted-Contained :
    (api : Api) (call : M Value) → Raises IsExpected call → Raises IsContained (accepted api call)
unfolding accepted
accepted-Contained api call k =
    search (raises_rules, to_http-Contained, Raises-lift, to_async_ref-IsContained)

wait_failed-IsContained : (e : Exn) → IsExpected e → IsContained (wait_failed e)
unfolding wait_failed
wait_failed-IsContained (http status detail) h = contained_http status detail
wait_failed-IsContained (lxd exc) h = contained_http 500 exc.message
wait_failed-IsContained (invalid_url exc) h = contained_http 500 exc
wait_failed-IsContained _ h = elim h [ ]

if-Contained :
    {A : Type 0} (b : Bool) (m n : M A)
    → Raises IsContained m
    → Raises IsContained n
    → Raises IsContained (if b then m else n)
if-Contained true m n k l = k
if-Contained false m n k l = l

-- A wait whose errors become `HTTPException`s, or no wait.
waited-Contained :
    (api : Api) (project : Option String) (wait : Bool) (ref : AsyncOperationRef)
    → Raises IsContained (waited api wait_failed project wait ref)
unfolding waited
waited-Contained api project wait ref =
    if-Contained (wait && nonempty ref.operation_id) _ _
      (Raises-then _ _
        (Raises-try_except _ _
          (wait_for_operation-Raises api.lxd api.repr ref.operation_id 0 project)
          (λ e p. Raises-raise _ (wait_failed-IsContained e p)))
        (Raises-pure _))
      (Raises-pure _)

not_waited-Contained :
    (api : Api) (on_error : Exn → Exn) (project : Option String) (ref : AsyncOperationRef)
    → Raises IsContained (waited api on_error project false ref)
unfolding waited
not_waited-Contained api on_error project ref = Raises-pure _

pub accepted_or_waited-Contained :
    (api : Api) (project : Option String) (wait : Bool) (call : M Value)
    → Raises IsExpected call
    → Raises IsContained (accepted_or_waited api wait_failed project wait call)
unfolding accepted_or_waited
accepted_or_waited-Contained api project wait call k =
    search
      (raises_rules, to_http-Contained, Raises-lift, to_async_ref-IsContained, waited-Contained)

pub not_waited-accepted-Contained :
    (api : Api) (on_error : Exn → Exn) (project : Option String) (call : M Value)
    → Raises IsExpected call
    → Raises IsContained (accepted_or_waited api on_error project false call)
unfolding accepted_or_waited
not_waited-accepted-Contained api on_error project call k =
    search
      (raises_rules, to_http-Contained, Raises-lift, to_async_ref-IsContained, not_waited-Contained)
