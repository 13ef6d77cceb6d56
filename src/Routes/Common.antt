-- ===== src/Routes/Common.antt =====
-- What the route modules share: the role that an endpoint requires, and the shapes of its answers.
use lxd_management_api.Base.{ltb, String, Bool, ◌&&◌, Option, none, some, if◌then◌else◌}
use lxd_management_api.Base.Text.{nonempty, all_chars}
use lxd_management_api.Json.{
  Value, num, str, obj, Dict, empty, entry, get, list_or_empty, or_none, opt_str,
}
use lxd_management_api.Error.{
  operation_error, Exn, http, lxd, type_error, invalid_url, unicode_error, Result, ok, err,
}
use lxd_management_api.App.{Response, M, pure, raise, lift, ◌>>=◌, ◌>>◌, try_except, to_http}
use lxd_management_api.Client.{Lxd}
use lxd_management_api.Operation.{AsyncOperationRef, dump_ref, to_async_ref, wait_for_operation}
use lxd_management_api.Pagination.{PageParams, paginate, dump_page}
use lxd_management_api.Security.{Role}
use lxd_management_api.Users.{User}
use lxd_management_api.Deps.{require_role}

-- What the handlers use: the LXD client, and two pieces of Python: its rendering of lists and
-- dictionaries, and `dict(v)` of a value that is no dictionary, `none` where that raises.
pub record Api : Type 0 where
  pub lxd : Lxd
  pub repr : Value → String
  pub dict_of : Value → Option Dict

-- An endpoint that depends on `require_role(role)`: the exception of the dependency ends the request
-- before the body of the handler.
unfoldable pub guarded : {A : Type 0} → Role → Result User → M A → M A
unfolding ◌>>◌ lift
guarded role caller body = lift (require_role role caller) >> body

-- `params={"project": project} or None`.
unfoldable pub project_params : Option String → Option Dict
unfolding or_none
project_params project = or_none (entry "project" (opt_str project) empty)

-- `{"recursion": 1 if expand else 0, "project": project}`.
abbrev pub list_params : Bool → Option String → Dict
list_params expand project =
    entry "recursion" (num (if expand then 1 else 0)) (entry "project" (opt_str project) empty)

-- `StreamingResponse` over the bytes of a response.
pub record Stream : Type 0 where
  pub body : Response
  pub media_type : String
  pub disposition : String

-- `StreamingResponse(...)` with a header for the disposition, which is encoded as Latin-1.
unfoldable pub streamed : Response → String → String → M Stream
unfolding pure raise
streamed body media_type disposition =
    if all_chars (λ c. ltb c 256) disposition
    then pure (record { body = body; media_type = media_type; disposition = disposition })
    else raise unicode_error

-- The end of a handler that lists.
unfoldable pub page_of : M Value → PageParams → M Value
unfolding to_http ◌>>=◌ pure
page_of call page = do
  result ← to_http call
  pure (obj (dump_page (paginate (list_or_empty result) page)))

-- `except LXDOperationError`: an operation that failed is a 500 with its message.
unfoldable pub operation_failed : Exn → Exn
operation_failed (lxd exc) = elim exc.class [ operation_error ↦ http 500 exc.message | _ ↦ lxd exc ]
operation_failed exc = exc

-- `except Exception as exc: raise HTTPException(500, str(exc))`, for the exceptions of a wait.
unfoldable pub wait_failed : Exn → Exn
wait_failed (lxd exc) = http 500 exc.message
wait_failed (invalid_url exc) = http 500 exc
wait_failed exc = exc

abbrev pub success : String → Value
success operation_id =
    obj (entry "operation_id" (str operation_id) (entry "status" (str "Success") empty))

module _ (api : Api) where
  -- The end of a handler that starts an operation.
  unfoldable pub accepted : M Value → M Value
  unfolding to_http ◌>>=◌ lift pure
  accepted call = do
    result ← to_http call
    ref ← lift (to_async_ref api.repr result)
    pure (obj (dump_ref ref))

  -- The end of a handler that can wait for the operation that it started, from its reference on.
  unfoldable pub waited : (Exn → Exn) → Option String → Bool → AsyncOperationRef → M Value
  unfolding try_except raise ◌>>◌ pure
  waited on_error project wait ref =
      if wait && nonempty ref.operation_id
      then (do
        try_except (wait_for_operation api.lxd api.repr ref.operation_id 0 project)
            (λ e. raise (on_error e))
        pure (success ref.operation_id))
      else pure (obj (dump_ref ref))

  unfoldable pub accepted_or_waited : (Exn → Exn) → Option String → Bool → M Value → M Value
  unfolding to_http ◌>>=◌ lift waited
  accepted_or_waited on_error project wait call = do
    result ← to_http call
    ref ← lift (to_async_ref api.repr result)
    waited on_error project wait ref

  -- `dict(v)`.
  copied : Value → Result Dict
  copied (obj d) = ok d
  copied v = elim (api.dict_of v) [ none ↦ err type_error | some d ↦ ok d ]

  devices_in : Option Value → Result Dict
  unfolding copied
  devices_in none = ok empty
  devices_in (some v) = copied v

  -- The devices of an instance as the attach and detach handlers read them.
  unfoldable pub devices_of : Value → Result Dict
  unfolding devices_in get
  devices_of (obj inst) = devices_in (get "devices" inst)
  devices_of _ = ok empty
