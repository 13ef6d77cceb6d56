-- ===== src/Operation.antt =====
-- services/lxd_operations.py: references to background operations, and waiting for one.
pub mod Waits
pub mod References
use lxd_management_api.Base.{
  ℕ, ltb, String, ◌<>◌, ◌==◌, Bool, true, false, ◌||◌, Option, none, some, if◌then◌else◌,
}
use lxd_management_api.Base.Text.{nonempty, show, rstrip, last_part, is_slash}
use lxd_management_api.Json.{
  Value, null, bool, num, str, arr, obj, Dict, empty, entry, get, get_or, put, truthy, or_none,
}
use lxd_management_api.Error.{
  operation_error, LxdError, Exn, lxd, validation_error, Result, ok, err,
}
use lxd_management_api.App.{M, pure, raise, lift, ◌>>=◌}
use lxd_management_api.Client
use lxd_management_api.Client.{Lxd, with_params}

-- `operation_id_from_url`.
unfoldable pub operation_id_from_url : Option String → Option String
unfolding rstrip last_part
operation_id_from_url none = none
operation_id_from_url (some url) =
    if nonempty url then some (last_part b'/' (rstrip is_slash url)) else none

-- `AsyncOperationRef`.
pub record AsyncOperationRef : Type 0 where
  pub operation_id : String
  pub operation_url : String
  pub status : String
  pub poll_url : String
  pub wait_url : String

-- `ref.model_dump()`.
unfoldable pub dump_ref : AsyncOperationRef → Dict
dump_ref ref = entry "operation_id" (str ref.operation_id) (
    entry "operation_url" (str ref.operation_url) (
      entry "status" (str ref.status)
        (entry "poll_url" (str ref.poll_url) (entry "wait_url" (str ref.wait_url) empty))))

-- Validation by pydantic of a field that is declared `str`: only a text passes.
unfoldable pub as_str : Value → Result String
as_str (str s) = ok s
as_str _ = err validation_error

-- `str(v)`; `repr` is Python's rendering of a list or a dictionary.
unfoldable pub to_text : (Value → String) → Value → String
unfolding show
to_text repr null = "None"
to_text repr (bool b) = if b then "True" else "False"
to_text repr (num n) = show n
to_text repr (str s) = s
to_text repr v = repr v

-- The constructor call at the end of `to_async_ref`, with the validation of its two dynamic fields.
async_ref : (Value → String) → Value → Value → Result AsyncOperationRef
unfolding as_str to_text
async_ref repr op_id op_url = elim (as_str op_id) [
  | err e ↦ err e
  | ok id ↦ elim (as_str op_url) [
    | err e ↦ err e
    | ok url ↦ ok (record {
      operation_id = id;
      operation_url = url;
      status = "async";
      poll_url = "/api/v1/operations/" <> to_text repr op_id;
      wait_url = "/api/v1/operations/" <> to_text repr op_id <> "/wait";
    })
  ]
]

-- `metadata.get("operation") or f"/1.0/operations/{op_id}"`.
operation_url : (Value → String) → Dict → Value → Value
unfolding get_or truthy to_text
operation_url repr metadata op_id =
    let given = get_or "operation" null metadata in
    if truthy given then given else str ("/1.0/operations/" <> to_text repr op_id)

-- `to_async_ref`. The test after the branches sets `op_url` to what it already is.
unfoldable pub to_async_ref : (Value → String) → Value → Result AsyncOperationRef
unfolding async_ref operation_url get_or to_text
to_async_ref repr (obj metadata) =
    let op_id = get_or "id" (str "") metadata in
    async_ref repr op_id (operation_url repr metadata op_id)
to_async_ref repr metadata =
    let op_id = str (to_text repr metadata) in
    async_ref repr op_id (str ("/1.0/operations/" <> to_text repr metadata))

-- The query of the wait: `timeout` in whole seconds.
unfoldable pub wait_params : ℕ → Option String → Dict
unfolding put
wait_params timeout project =
    let timed = if ltb 0 timeout then put "timeout" (num timeout) empty else empty in
    elim project [
      | none ↦ timed
      | some name ↦ if nonempty name then put "project" (str name) timed else timed
    ]

-- `status in ("Failure", "Cancelled")`, with the status as a text.
ended_badly : Value → Option String
ended_badly (str status) =
    if status == "Failure" || status == "Cancelled" then some status else none
ended_badly _ = none

-- `status.lower()`, for the two statuses of `ended_badly`.
lowered : String → String
lowered status = if status == "Failure" then "failure" else "cancelled"

-- The text of the error that a failed operation raises.
failure_text : (Value → String) → String → String → Dict → String
unfolding lowered get_or truthy to_text
failure_text repr operation_id status result =
    let given = get_or "err" null result in
    let err_text : String =
      if truthy given
      then to_text repr given
      else "operation " <> operation_id <> " " <> lowered status in
    "LXD operation " <> operation_id <> " ended in " <> status <> ": " <> err_text

-- The `LXDOperationError` of an operation that ended in `status`.
unfoldable pub failed_operation : (Value → String) → String → String → Dict → LxdError
unfolding failure_text
failed_operation repr operation_id status result = record {
  class = operation_error;
  message = failure_text repr operation_id status result;
  status_code = 0;
}

-- The test of the result of the wait.
unfoldable pub wait_result : (Value → String) → String → Value → Result Dict
unfolding ended_badly failed_operation get_or
wait_result repr operation_id (obj result) = elim (ended_badly (get_or "status" (str "") result)) [
  | none ↦ ok result
  | some status ↦ err (lxd (failed_operation repr operation_id status result))
]
wait_result repr operation_id _ = ok empty

-- `wait_for_operation`.
unfoldable pub wait_for_operation : Lxd → (Value → String) → String → ℕ → Option String → M Dict
unfolding wait_params or_none wait_result lift ◌>>=◌ Client.get
wait_for_operation client repr operation_id timeout project = do
  let path = "operations/" <> operation_id <> "/wait"
  result ← Client.get client path (with_params (or_none (wait_params timeout project)))
  lift (wait_result repr operation_id result)
