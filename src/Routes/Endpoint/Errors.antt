-- ===== src/Routes/Endpoint/Errors.antt =====
-- The endpoints that answer with status 200 raise nothing but HTTPExceptions.
use lxd_management_api.Base.{ℕ, ◌≡◌, String, Option, arith}
use lxd_management_api.Error.{Exn, Result, err}
use lxd_management_api.App.{M}
use lxd_management_api.App.Raises.{
  Raises, IsUsual, Raises-raise, Raises-lift, Raises-try_except, raises_rules, Raises-bind,
  Raises-pure,
}
use lxd_management_api.Security.{Role}
use lxd_management_api.Users.{User}
use lxd_management_api.Routes.Raises.{
  get-Raises, request_raw-Raises, streamed-Raises, wait_for_operation-Raises,
  operation_failed-IsUsual, page_of-Raises, require_role-IsUsual,
}
use lxd_management_api.Routes.Common.{Api, guarded}
use lxd_management_api.Routes.Endpoint.{Endpoint, Answer, answered, run}
use lxd_management_api.Routes.Endpoint.Declared.{success_status}
use lxd_management_api.Routes.Instances
use lxd_management_api.Routes.Snapshots
use lxd_management_api.Routes.Backups
use lxd_management_api.Routes.Storage
use lxd_management_api.Routes.Networks
use lxd_management_api.Routes.Projects
use lxd_management_api.Routes.Images
use lxd_management_api.Routes.Operations
use lxd_management_api.Routes.System

answered-Raises :
    {A : Type 0} (make : A → Answer) (m : M A) → Raises IsUsual m → Raises IsUsual (answered make m)
unfolding answered
answered-Raises make m k = search raises_rules

module _ (caller : Result User) (known : (e : Exn) → caller ≡ err e → IsUsual e) where
  guarded-Raises :
      {A : Type 0} (role : Role) (body : M A)
      → Raises IsUsual body
      → Raises IsUsual (guarded role caller body)
  unfolding guarded
  guarded-Raises role body k =
      search (raises_rules, Raises-lift, require_role-IsUsual role caller known)

  pub wait_operation-Raises :
      (api : Api) (operation_id : String) (project : Option String) (timeout : ℕ)
      → Raises IsUsual (Operations.wait_operation api caller operation_id project timeout)
  unfolding Operations.wait_operation
  wait_operation-Raises api operation_id project timeout = guarded-Raises _ _ (
      Raises-bind _ _
        (Raises-try_except _ _
          (wait_for_operation-Raises api.lxd api.repr operation_id timeout project)
          (λ e p. Raises-raise _ (operation_failed-IsUsual e p)))
        (λ result. Raises-pure _))

  ruleset raising = (
    raises_rules, get-Raises, request_raw-Raises, streamed-Raises, page_of-Raises, guarded-Raises,
    answered-Raises, wait_operation-Raises,
  )

  -- If the caller is a user or an `HTTPException`, an endpoint that is declared with status 200 raises
  -- nothing but `HTTPException`s, whatever LXD replies.
  pub run-Raises :
      (api : Api) (endpoint : Endpoint)
      → success_status endpoint ≡ 200
      → Raises IsUsual (run api caller endpoint)
  unfolding run success_status Instances.list_instances Instances.create_instance
      Instances.get_instance Instances.replace_instance Instances.patch_instance
      Instances.delete_instance Instances.get_instance_state Instances.set_instance_state
      Instances.list_instance_logs Instances.get_instance_log Instances.exec_instance
      Snapshots.list_snapshots Snapshots.create_snapshot Snapshots.get_snapshot
      Snapshots.rename_snapshot Snapshots.delete_snapshot Snapshots.restore_snapshot
      Backups.list_backups Backups.create_backup Backups.get_backup Backups.delete_backup
      Backups.export_backup Storage.list_pools Storage.create_pool Storage.get_pool
      Storage.update_pool Storage.patch_pool Storage.delete_pool Storage.list_volumes
      Storage.create_volume Storage.get_volume Storage.update_volume Storage.patch_volume
      Storage.delete_volume Storage.attach_volume Storage.detach_volume Networks.list_networks
      Networks.create_network Networks.get_network Networks.update_network Networks.patch_network
      Networks.delete_network Networks.get_network_state Networks.attach_nic Networks.detach_nic
      Projects.list_projects Projects.create_project Projects.get_project Projects.update_project
      Projects.patch_project Projects.delete_project Images.list_images Images.get_image
      Images.delete_image Images.create_image Images.create_alias Images.delete_alias
      Operations.list_operations Operations.get_operation Operations.cancel_operation
      Operations.wait_operation System.server_info System.host_resources System.pool_resources
  run-Raises api (Endpoint.list_instances instance_type project page expand filter) h =
      search raising depth 9
  run-Raises api (Endpoint.get_instance name project) h = search raising depth 9
  run-Raises api (Endpoint.get_instance_state name project) h = search raising depth 9
  run-Raises api (Endpoint.list_instance_logs name project) h = search raising depth 9
  run-Raises api (Endpoint.get_instance_log name filename project) h = search raising depth 9
  run-Raises api (Endpoint.list_snapshots name project page) h = search raising depth 9
  run-Raises api (Endpoint.get_snapshot name snap project) h = search raising depth 9
  run-Raises api (Endpoint.list_backups name project page) h = search raising depth 9
  run-Raises api (Endpoint.get_backup name backup project) h = search raising depth 9
  run-Raises api (Endpoint.export_backup name backup project) h = search raising depth 9
  run-Raises api (Endpoint.list_pools project page expand) h = search raising depth 9
  run-Raises api (Endpoint.get_pool name project) h = search raising depth 9
  run-Raises api (Endpoint.list_volumes pool project volume_type page expand) h =
      search raising depth 9
  run-Raises api (Endpoint.get_volume pool volume_type name project) h = search raising depth 9
  run-Raises api (Endpoint.list_networks project page expand) h = search raising depth 9
  run-Raises api (Endpoint.get_network name project) h = search raising depth 9
  run-Raises api (Endpoint.get_network_state name project) h = search raising depth 9
  run-Raises api (Endpoint.list_projects page expand) h = search raising depth 9
  run-Raises api (Endpoint.get_project name) h = search raising depth 9
  run-Raises api (Endpoint.list_images project page expand filter) h = search raising depth 9
  run-Raises api (Endpoint.get_image fingerprint project) h = search raising depth 9
  run-Raises api (Endpoint.list_operations project page) h = search raising depth 9
  run-Raises api (Endpoint.get_operation operation_id project) h = search raising depth 9
  run-Raises api (Endpoint.wait_operation operation_id project timeout) h = search raising depth 9
  run-Raises api (Endpoint.server_info project) h = search raising depth 9
  run-Raises api (Endpoint.host_resources project) h = search raising depth 9
  run-Raises api (Endpoint.pool_resources name project) h = search raising depth 9
  run-Raises api _ h = absurd (omega arith)
