-- ===== src/Routes/Operations.antt =====
-- routes/operations.py, without its WebSocket.
use lxd_management_api.Base.{ℕ, String, ◌<>◌, true, Option, some}
use lxd_management_api.Json.{Value, str, obj, empty, entry}
use lxd_management_api.Error.{Result, convert_lxd}
use lxd_management_api.App.{M, pure, raise, ◌>>=◌, ◌>>◌, to_http, try_except}
use lxd_management_api.Client
use lxd_management_api.Client.{no_kwargs, with_params, with_body}
use lxd_management_api.Pagination.{PageParams}
use lxd_management_api.Security.{viewer, operator}
use lxd_management_api.Users.{User}
use lxd_management_api.Operation.{wait_for_operation}
use lxd_management_api.Routes.Common.{
  Api, guarded, project_params, list_params, page_of, operation_failed,
}

module _ (api : Api) (caller : Result User) where
  open api use {lxd}

  unfoldable pub list_operations : Option String → PageParams → M Value
  list_operations project page =
      guarded viewer caller
        (page_of (Client.get lxd "operations" (with_params (some (list_params true project)))) page)

  unfoldable pub get_operation : String → Option String → M Value
  get_operation operation_id project = guarded viewer caller (
      to_http
        (Client.get lxd ("operations/" <> operation_id) (with_params (project_params project))))

  unfoldable pub cancel_operation : String → Option String → M Value
  unfolding ◌>>◌ pure
  cancel_operation operation_id project = guarded operator caller (do
    to_http
        (Client.delete lxd ("operations/" <> operation_id) (with_params (project_params project)))
    pure (
        obj
          (entry "message" (str ("Cancellation requested for operation " <> operation_id)) empty)))

  -- The timeout is in whole seconds. The two `except` clauses stand in one handler.
  unfoldable pub wait_operation : String → Option String → ℕ → M Value
  unfolding ◌>>=◌ pure try_except raise operation_failed convert_lxd
  wait_operation operation_id project timeout = guarded viewer caller (do
    result ←
        try_except (wait_for_operation lxd (api.repr) operation_id timeout project)
          (λ e. raise (convert_lxd (operation_failed e)))
    pure (obj result))
