-- ===== src/Routes/Endpoint/Operators.antt =====
-- What an operator can change in LXD: instances and operations, and nothing else.
use lxd_management_api.Base.{◌≡◌, refl, ap, ◌∙◌, false}
use lxd_management_api.Error.{Result, ok, err}
use lxd_management_api.App.{M, Log}
use lxd_management_api.App.Keeps.{Keeps, keeps_rules}
use lxd_management_api.Security.{Role, viewer, operator, admin, level, at_least, role_or_viewer}
use lxd_management_api.Users.{User}
use lxd_management_api.Deps.{require_role}
use lxd_management_api.Routes.Common.{Api}
use lxd_management_api.Routes.Scope.{
  outside, Scoped, get-Scoped, request_raw-Scoped, wait_for_operation-Scoped, page_of-Scoped,
  guarded-Scoped, post-instances, put-instances, patch-instances, delete-instances,
  delete-operations, accepted-Scoped, accepted_or_waited-Scoped,
}
use lxd_management_api.Routes.Endpoint.{Endpoint, Answer, answered, run}
use lxd_management_api.Routes.Endpoint.Declared.{required}
use lxd_management_api.Routes.Endpoint.Access.{run_denied, not_enough_log}
use lxd_management_api.Routes.Instances
use lxd_management_api.Routes.Snapshots
use lxd_management_api.Routes.Backups
use lxd_management_api.Routes.Storage
use lxd_management_api.Routes.Networks
use lxd_management_api.Routes.Projects
use lxd_management_api.Routes.Images
use lxd_management_api.Routes.Operations
use lxd_management_api.Routes.System
use lxd_management_api.Base.{◌≢◌}

module _ (old : Log) where
  answered-Scoped :
      {A : Type 0} (make : A → Answer) (m : M A)
      → Keeps (Scoped old) m
      → Keeps (Scoped old) (answered make m)
  unfolding answered
  answered-Scoped make m k = search keeps_rules

  ruleset scoping = (
    keeps_rules, get-Scoped, request_raw-Scoped, wait_for_operation-Scoped, page_of-Scoped,
    guarded-Scoped, answered-Scoped, post-instances, put-instances, patch-instances,
    delete-instances, delete-operations, accepted-Scoped, accepted_or_waited-Scoped,
  )

  run-Scoped :
      (api : Api) (caller : Result User) (endpoint : Endpoint)
      → required endpoint ≢ admin
      → Keeps (Scoped old) (run api caller endpoint)
  unfolding run required Instances.list_instances Instances.create_instance Instances.get_instance
      Instances.replace_instance Instances.patch_instance Instances.delete_instance
      Instances.get_instance_state Instances.set_instance_state Instances.list_instance_logs
      Instances.get_instance_log Instances.exec_instance Snapshots.list_snapshots
      Snapshots.create_snapshot Snapshots.get_snapshot Snapshots.rename_snapshot
      Snapshots.delete_snapshot Snapshots.restore_snapshot Backups.list_backups
      Backups.create_backup Backups.get_backup Backups.delete_backup Backups.export_backup
      Storage.list_pools Storage.create_pool Storage.get_pool Storage.update_pool Storage.patch_pool
      Storage.delete_pool Storage.list_volumes Storage.create_volume Storage.get_volume
      Storage.update_volume Storage.patch_volume Storage.delete_volume Storage.attach_volume
      Storage.detach_volume Networks.list_networks Networks.create_network Networks.get_network
      Networks.update_network Networks.patch_network Networks.delete_network
      Networks.get_network_state Networks.attach_nic Networks.detach_nic Projects.list_projects
      Projects.create_project Projects.get_project Projects.update_project Projects.patch_project
      Projects.delete_project Images.list_images Images.get_image Images.delete_image
      Images.create_image Images.create_alias Images.delete_alias Operations.list_operations
      Operations.get_operation Operations.cancel_operation Operations.wait_operation
      System.server_info System.host_resources System.pool_resources
  run-Scoped api caller (Endpoint.list_instances instance_type project page expand filter) h =
      search scoping depth 9
  run-Scoped api caller (Endpoint.get_instance name project) h = search scoping depth 9
  run-Scoped api caller (Endpoint.get_instance_state name project) h = search scoping depth 9
  run-Scoped api caller (Endpoint.set_instance_state name payload project wait) h =
      search scoping depth 9
  run-Scoped api caller (Endpoint.list_instance_logs name project) h = search scoping depth 9
  run-Scoped api caller (Endpoint.get_instance_log name filename project) h = search scoping depth 9
  run-Scoped api caller (Endpoint.exec_instance name payload project) h = search scoping depth 9
  run-Scoped api caller (Endpoint.list_snapshots name project page) h = search scoping depth 9
  run-Scoped api caller (Endpoint.create_snapshot name payload project wait) h =
      search scoping depth 9
  run-Scoped api caller (Endpoint.get_snapshot name snap project) h = search scoping depth 9
  run-Scoped api caller (Endpoint.rename_snapshot name snap payload project) h =
      search scoping depth 9
  run-Scoped api caller (Endpoint.delete_snapshot name snap project) h = search scoping depth 9
  run-Scoped api caller (Endpoint.restore_snapshot name snap project wait) h =
      search scoping depth 9
  run-Scoped api caller (Endpoint.list_backups name project page) h = search scoping depth 9
  run-Scoped api caller (Endpoint.create_backup name payload project wait) h =
      search scoping depth 9
  run-Scoped api caller (Endpoint.get_backup name backup project) h = search scoping depth 9
  run-Scoped api caller (Endpoint.delete_backup name backup project) h = search scoping depth 9
  run-Scoped api caller (Endpoint.export_backup name backup project) h = search scoping depth 9
  run-Scoped api caller (Endpoint.list_pools project page expand) h = search scoping depth 9
  run-Scoped api caller (Endpoint.get_pool name project) h = search scoping depth 9
  run-Scoped api caller (Endpoint.list_volumes pool project volume_type page expand) h =
      search scoping depth 9
  run-Scoped api caller (Endpoint.get_volume pool volume_type name project) h =
      search scoping depth 9
  run-Scoped api caller (Endpoint.attach_volume pool name instance_name project) h =
      search scoping depth 9
  run-Scoped api caller (Endpoint.detach_volume pool name instance_name project) h =
      search scoping depth 9
  run-Scoped api caller (Endpoint.list_networks project page expand) h = search scoping depth 9
  run-Scoped api caller (Endpoint.get_network name project) h = search scoping depth 9
  run-Scoped api caller (Endpoint.get_network_state name project) h = search scoping depth 9
  run-Scoped api caller (Endpoint.attach_nic name instance_name device_name nic_name project) h =
      search scoping depth 9
  run-Scoped api caller (Endpoint.detach_nic name instance_name device_name project) h =
      search scoping depth 9
  run-Scoped api caller (Endpoint.list_projects page expand) h = search scoping depth 9
  run-Scoped api caller (Endpoint.get_project name) h = search scoping depth 9
  run-Scoped api caller (Endpoint.list_images project page expand filter) h = search scoping depth 9
  run-Scoped api caller (Endpoint.get_image fingerprint project) h = search scoping depth 9
  run-Scoped api caller (Endpoint.list_operations project page) h = search scoping depth 9
  run-Scoped api caller (Endpoint.get_operation operation_id project) h = search scoping depth 9
  run-Scoped api caller (Endpoint.cancel_operation operation_id project) h = search scoping depth 9
  run-Scoped api caller (Endpoint.wait_operation operation_id project timeout) h =
      search scoping depth 9
  run-Scoped api caller (Endpoint.server_info project) h = search scoping depth 9
  run-Scoped api caller (Endpoint.host_resources project) h = search scoping depth 9
  run-Scoped api caller (Endpoint.pool_resources name project) h = search scoping depth 9
  run-Scoped api caller _ h = absurd (h refl)

not_admin : (role : Role) → role ≢ admin → at_least role admin ≡ false
unfolding at_least level
not_admin viewer h = refl
not_admin operator h = refl
not_admin admin h = absurd (h refl)

user_operates :
    (api : Api) (u : User) (endpoint : Endpoint) (log : Log) (role : Role)
    → required endpoint ≡ role
    → role_or_viewer u.role ≢ admin
    → outside (run api (ok u) endpoint log).1 ≡ outside log
unfolding at_least
user_operates api u endpoint log viewer r h =
    (run-Scoped (outside log) api (ok u) endpoint (λ q. absurd cc)).at log refl
user_operates api u endpoint log operator r h =
    (run-Scoped (outside log) api (ok u) endpoint (λ q. absurd cc)).at log refl
user_operates api u endpoint log admin r h =
    ap outside (not_enough_log api u endpoint log (ap (at_least _) r ∙ not_admin _ h))

-- Whatever endpoint is called, by a caller who is no user or whose role is not `admin`, every request
-- that LXD is newly sent is a GET, or its URL is under `/1.0/instances/` or `/1.0/operations/`.
pub operator_scope :
    (api : Api) (caller : Result User) (endpoint : Endpoint) (log : Log)
    → ((u : User) → caller ≡ ok u → role_or_viewer u.role ≢ admin)
    → outside (run api caller endpoint log).1 ≡ outside log
operator_scope api (err e) endpoint log h =
    ap (λ (p : Result Answer × Log). outside p.1)
      (run_denied api (err e) endpoint e log (unfold require_role in refl))
operator_scope api (ok u) endpoint log h =
    user_operates api u endpoint log (required endpoint) refl (h u refl)
