-- ===== src/Routes/Instances.antt =====
-- routes/instances.py, without its WebSockets.
use lxd_management_api.Base.{String, ◌<>◌, Bool, false, ◌||◌, Option, none, some, if◌then◌else◌}
use lxd_management_api.Base.Text.{nonempty}
use lxd_management_api.Json.{Value, num, bool, str, obj, Dict, empty, entry, opt_str, put}
use lxd_management_api.Error.{Result}
use lxd_management_api.App.{M, ◌>>=◌, to_http}
use lxd_management_api.Client
use lxd_management_api.Client.{with_params, with_body}
use lxd_management_api.Pagination.{PageParams}
use lxd_management_api.Security.{viewer, operator, admin}
use lxd_management_api.Users.{User}
use lxd_management_api.Schemas.{
  InstanceCreate, dump_instance_create, InstanceUpdate, dump_instance_update, InstancePatch,
  dump_instance_patch, InstanceStateAction, dump_state_action, ExecRequest, dump_exec_request,
}
use lxd_management_api.Routes.Common.{
  Api, guarded, project_params, Stream, streamed, page_of, operation_failed, accepted,
  accepted_or_waited,
}

-- The query of `list_instances`.
unfoldable pub list_instances_params : Option String → Option String → Bool → Option String → Dict
unfolding put
list_instances_params instance_type project expand filter =
    let params =
      entry "recursion" (num (if expand then 1 else 0))
        (entry "filter" (opt_str filter) (entry "project" (opt_str project) empty)) in
    elim instance_type [
      | none ↦ params
      | some type ↦ if nonempty type then put "type" (str type) params else params
    ]

-- The query of `delete_instance`.
unfoldable pub delete_instance_params : Option String → Bool → Option Dict
delete_instance_params project force =
    let given : Bool = elim project [ none ↦ false | some name ↦ nonempty name ] in
    if given || force
    then some (entry "project" (opt_str project) (entry "force" (bool force) empty))
    else none

module _ (api : Api) (caller : Result User) where
  open api use {lxd}

  unfoldable pub list_instances :
      Option String → Option String → PageParams → Bool → Option String → M Value
  list_instances instance_type project page expand filter = guarded viewer caller (
      page_of
        (Client.get lxd "instances"
          (with_params (some (list_instances_params instance_type project expand filter))))
        page)

  unfoldable pub create_instance : InstanceCreate → Option String → M Value
  create_instance payload project = guarded admin caller (
      accepted api (
        Client.post lxd "instances"
          (with_body (obj (dump_instance_create payload)) (project_params project))))

  unfoldable pub get_instance : String → Option String → M Value
  get_instance name project =
      guarded viewer caller
        (to_http (Client.get lxd ("instances/" <> name) (with_params (project_params project))))

  unfoldable pub replace_instance : String → InstanceUpdate → Option String → M Value
  replace_instance name payload project = guarded admin caller (
      accepted api (
        Client.put lxd ("instances/" <> name)
          (with_body (obj (dump_instance_update payload)) (project_params project))))

  unfoldable pub patch_instance : String → InstancePatch → Option String → M Value
  patch_instance name payload project = guarded admin caller (
      accepted api (
        Client.patch lxd ("instances/" <> name)
          (with_body (obj (dump_instance_patch payload)) (project_params project))))

  unfoldable pub delete_instance : String → Option String → Bool → M Value
  delete_instance name project force = guarded admin caller (
      accepted api (
        Client.delete lxd ("instances/" <> name)
          (with_params (delete_instance_params project force))))

  unfoldable pub get_instance_state : String → Option String → M Value
  get_instance_state name project = guarded viewer caller (
      to_http
        (Client.get lxd ("instances/" <> name <> "/state") (with_params (project_params project))))

  unfoldable pub set_instance_state : String → InstanceStateAction → Option String → Bool → M Value
  set_instance_state name payload project wait = guarded operator caller (
      accepted_or_waited api operation_failed project wait (
        Client.put lxd ("instances/" <> name <> "/state")
          (with_body (obj (dump_state_action payload)) (project_params project))))

  unfoldable pub list_instance_logs : String → Option String → M Value
  list_instance_logs name project = guarded viewer caller (
      to_http
        (Client.get lxd ("instances/" <> name <> "/logs") (with_params (project_params project))))

  unfoldable pub get_instance_log : String → String → Option String → M Stream
  unfolding ◌>>=◌ streamed
  get_instance_log name filename project = guarded viewer caller (do
    response ← to_http (
        Client.request_raw lxd "GET" ("instances/" <> name <> "/logs/" <> filename)
          (with_params (project_params project)))
    streamed response "text/plain" ("inline; filename=" <> filename))

  unfoldable pub exec_instance : String → ExecRequest → Option String → M Value
  exec_instance name payload project = guarded operator caller (
      accepted api (
        Client.post lxd ("instances/" <> name <> "/exec")
          (with_body (obj (dump_exec_request payload)) (project_params project))))
