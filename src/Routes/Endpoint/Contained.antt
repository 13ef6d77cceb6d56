-- ===== src/Routes/Endpoint/Contained.antt =====
-- No endpoint but one lets an LXDError out.
use mathlib.Core.Path.{subst}
use lxd_management_api.Base.{ℕ, ◌≡◌, String, Option, sym, Bool, true, false}
use lxd_management_api.Error.{Exn, Result, err}
use lxd_management_api.App.{M, Log}
use lxd_management_api.App.Raises.{Raises, IsUsual, of_http, Raises-lift, raises_rules}
use lxd_management_api.Security.{Role}
use lxd_management_api.Users.{User}
use lxd_management_api.Deps.{Auth, get_current_user, require_role}
use lxd_management_api.Deps.Refusals.{get_current_user-Is401}
use lxd_management_api.Routes.Common.{Api, guarded}
use lxd_management_api.Routes.Endpoint.{Endpoint, Answer, answered, run}
use lxd_management_api.Routes.Endpoint.Errors.{wait_operation-Raises}
use lxd_management_api.Routes.Raises.{require_role-IsUsual, request_raw-Raises, get-Raises}
use lxd_management_api.Routes.Contained.{
  IsContained, IsUsual-IsContained, Raises-IsContained, to_http-Contained, devices_of-IsContained,
  post-Raises, put-Raises, patch-Raises, delete-Raises, page_of-Contained, accepted-Contained,
  streamed-Contained, accepted_or_waited-Contained, not_waited-accepted-Contained,
}
use lxd_management_api.Routes.Endpoint.Calls.{call}
use lxd_management_api.Routes.Instances
use lxd_management_api.Routes.Snapshots
use lxd_management_api.Routes.Backups
use lxd_management_api.Routes.Storage
use lxd_management_api.Routes.Networks
use lxd_management_api.Routes.Projects
use lxd_management_api.Routes.Images
use lxd_management_api.Routes.Operations
use lxd_management_api.Routes.System

-- The endpoint that waits with no handler for a lost connection.
unfoldable pub lets_out : Endpoint → Bool
lets_out (Endpoint.set_instance_state _ _ _ wait) = wait
lets_out _ = false

answered-Contained :
    {A : Type 0} (make : A → Answer) (m : M A)
    → Raises IsContained m
    → Raises IsContained (answered make m)
unfolding answered
answered-Contained make m k = search raises_rules

module _ (caller : Result User) (known : (e : Exn) → caller ≡ err e → IsUsual e) where
  refused-IsContained : (role : Role) (e : Exn) → require_role role caller ≡ err e → IsContained e
  refused-IsContained role e h = IsUsual-IsContained e (require_role-IsUsual role caller known e h)

  guarded-Contained :
      {A : Type 0} (role : Role) (body : M A)
      → Raises IsContained body
      → Raises IsContained (guarded role caller body)
  unfolding guarded
  guarded-Contained role body k = search (raises_rules, Raises-lift, refused-IsContained)

  wait_operation-Contained :
      (api : Api) (operation_id : String) (project : Option String) (timeout : ℕ)
      → Raises IsContained (Operations.wait_operation api caller operation_id project timeout)
  wait_operation-Contained api operation_id project timeout =
      Raises-IsContained _ (wait_operation-Raises caller known api operation_id project timeout)

  ruleset containing = (
    raises_rules, Raises-lift, to_http-Contained, get-Raises, post-Raises, put-Raises, patch-Raises,
    delete-Raises, request_raw-Raises, streamed-Contained, page_of-Contained, accepted-Contained,
    accepted_or_waited-Contained, not_waited-accepted-Contained, devices_of-IsContained,
    guarded-Contained, answered-Contained, wait_operation-Contained,
  )

  -- The endpoints one by one.
  run-Contained :
      (api : Api) (endpoint : Endpoint)
      → lets_out endpoint ≡ false
      → Raises IsContained (run api caller endpoint)
  unfolding run lets_out Instances.list_instances Instances.create_instance Instances.get_instance
      Instances.replace_instance Instances.patch_instance Instances.delete_instance
      Instances.get_instance_state Instances.set_instance_state Instances.list_instance_logs
      Instances.get_instance_log Instances.exec_instance Snapshots.list_snapshots
      Snapshots.create_snapshot Snapshots.get_snapshot Snapshots.rename_snapshot
      Snapshots.delete_snapshot Snapshots.restore_snapshot Backups.list_backups
      Backups.create_backup Backups.get_backup Backups.delete_backup Backups.export_backup
      Storage.list_pools Storage.create_pool Storage.get_pool Storage.update_pool Storage.patch_pool
      Storage.delete_pool Storage.list_volumes Storage.create_volume Storage.get_volume
      Storage.update_volume Storage.patch_volume Storage.delete_volume Storage.attach_volume
      Storage.detach_volume Networks.list_networks Networks.create_network Networks.get_network
      Networks.update_network Networks.patch_network Networks.delete_network
      Networks.get_network_state Networks.attach_nic Networks.detach_nic Projects.list_projects
      Projects.create_project Projects.get_project Projects.update_project Projects.patch_project
      Projects.delete_project Images.list_images Images.get_image Images.delete_image
      Images.create_image Images.create_alias Images.delete_alias Operations.list_operations
      Operations.get_operation Operations.cancel_operation Operations.wait_operation
      System.server_info System.host_resources System.pool_resources
  run-Contained api (Endpoint.set_instance_state name payload project true) h = absurd cc
  run-Contained api _ h = search containing depth 9

module _ (auth : Auth) (now : ℕ) (db : auth.users.State) (creds : Option String) where
  pub caller-IsUsual : (e : Exn) → get_current_user auth now db creds ≡ err e → IsUsual e
  caller-IsUsual e h =
      let (detail, same) = get_current_user-Is401 auth now db creds e h in
      subst IsUsual (sym same) (of_http 401 detail)

  -- Whatever LXD replies and whoever asks, a request to an endpoint other than set_instance_state with
  -- `wait=true` raises nothing but an `HTTPException`, the exception for an id or a URL that is no
  -- text or for devices that are no dictionary in what LXD sent, the `httpx.InvalidURL` for a URL that the
  -- HTTP client does not take, or the `UnicodeEncodeError` for a file name that is no Latin-1: an
  -- `LXDError` never leaves it.
  pub call-Contained :
      (api : Api) (endpoint : Endpoint) (log : Log) (e : Exn)
      → lets_out endpoint ≡ false
      → (call auth now db creds api endpoint log).0 ≡ err e
      → IsContained e
  unfolding call
  call-Contained api endpoint log e kept h =
      (run-Contained (get_current_user auth now db creds) caller-IsUsual api endpoint kept).at log e
        h
