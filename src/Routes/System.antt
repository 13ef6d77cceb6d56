-- ===== src/Routes/System.antt =====
-- routes/system.py.
use lxd_management_api.Base.{String, ◌<>◌, Option}
use lxd_management_api.Json.{Value, str, obj, empty, entry}
use lxd_management_api.Error.{Exn, lxd, LxdError, connection_error, Result}
use lxd_management_api.App.{M, pure, raise, ◌>>◌, to_http, try_except}
use lxd_management_api.Client
use lxd_management_api.Client.{Lxd, no_kwargs, with_params, with_body}
use lxd_management_api.Security.{viewer}
use lxd_management_api.Users.{User}
use lxd_management_api.Routes.Common.{Api, guarded, project_params}

module _ (api : Api) (caller : Result User) where
  open api use {lxd}

  unfoldable pub server_info : Option String → M Value
  server_info project =
      guarded viewer caller (to_http (Client.get lxd "/" (with_params (project_params project))))

  unfoldable pub host_resources : Option String → M Value
  host_resources project =
      guarded viewer caller
        (to_http (Client.get lxd "resources" (with_params (project_params project))))

  unfoldable pub pool_resources : String → Option String → M Value
  pool_resources name project = guarded viewer caller (
      to_http (
        Client.get lxd ("storage-pools/" <> name <> "/resources")
          (with_params (project_params project))))

-- The answer of `health_deep` to an error of LXD.
unfoldable pub unhealthy : String → LxdError → Value
unhealthy request_id exc =
    let status_of : String × String = elim exc.class [
      | connection_error ↦ ("unhealthy", "unreachable")
      | _ ↦ ("degraded", "reachable")
    ] in
    obj (
      entry "status" (str status_of.0) (
        entry "lxd" (str status_of.1)
          (entry "detail" (str exc.message) (entry "request_id" (str request_id) empty))))

-- An exception that is no `LXDError` passes.
unfoldable pub on_health_error : String → Exn → M Value
unfolding raise pure unhealthy
on_health_error request_id (lxd exc) = pure (unhealthy request_id exc)
on_health_error request_id e = raise e

-- `health_deep`, which asks for no user.
unfoldable pub health_deep : Lxd → String → M Value
unfolding ◌>>◌ pure try_except on_health_error
health_deep client request_id =
    try_except
      (do
        Client.get client "/" no_kwargs
        pure (
            obj (
              entry "status" (str "healthy")
                (entry "lxd" (str "reachable") (entry "request_id" (str request_id) empty)))))
      (on_health_error request_id)
