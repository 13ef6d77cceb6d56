-- ===== src/Routes/Endpoint/Access.antt =====
-- Who may do what: the role of a caller decides before anything is sent, and readers only read.
use lxd_management_api.Base.{◌≡◌, ap, false}
use lxd_management_api.Error.{Exn, Result, ok, err}
use lxd_management_api.App.{M, Log, resume}
use lxd_management_api.Security.{Role, at_least, role_or_viewer}
use lxd_management_api.Users.{User}
use lxd_management_api.Deps.{require_role}
use lxd_management_api.Deps.Laws.{require_role_lem}
use lxd_management_api.Routes.Common.{Api, guarded}
use lxd_management_api.Routes.Endpoint.{Endpoint, Answer, answered, run}
use lxd_management_api.Routes.Endpoint.Declared.{required}
use lxd_management_api.Routes.Instances
use lxd_management_api.Routes.Snapshots
use lxd_management_api.Routes.Backups
use lxd_management_api.Routes.Storage
use lxd_management_api.Routes.Networks
use lxd_management_api.Routes.Projects
use lxd_management_api.Routes.Images
use lxd_management_api.Routes.Operations
use lxd_management_api.Routes.System

module _ {A : Type 0} (make : A → Answer) (role : Role) (caller : Result User) (body : M A) where
  -- A dependency that raises ends the request.
  denied :
      (e : Exn) (log : Log)
      → require_role role caller ≡ err e
      → answered make (guarded role caller body) log ≡ (err e, log)
  unfolding answered guarded resume
  denied e log h = rw (h, resume)

-- If the dependency `require_role` of an endpoint raises, the endpoint answers with that exception and
-- sends nothing to LXD.
pub run_denied :
    (api : Api) (caller : Result User) (endpoint : Endpoint) (e : Exn) (log : Log)
    → require_role (required endpoint) caller ≡ err e
    → run api caller endpoint log ≡ (err e, log)
unfolding run required Instances.list_instances Instances.create_instance Instances.get_instance
    Instances.replace_instance Instances.patch_instance Instances.delete_instance
    Instances.get_instance_state Instances.set_instance_state Instances.list_instance_logs
    Instances.get_instance_log Instances.exec_instance Snapshots.list_snapshots
    Snapshots.create_snapshot Snapshots.get_snapshot Snapshots.rename_snapshot
    Snapshots.delete_snapshot Snapshots.restore_snapshot Backups.list_backups Backups.create_backup
    Backups.get_backup Backups.delete_backup Backups.export_backup Storage.list_pools
    Storage.create_pool Storage.get_pool Storage.update_pool Storage.patch_pool Storage.delete_pool
    Storage.list_volumes Storage.create_volume Storage.get_volume Storage.update_volume
    Storage.patch_volume Storage.delete_volume Storage.attach_volume Storage.detach_volume
    Networks.list_networks Networks.create_network Networks.get_network Networks.update_network
    Networks.patch_network Networks.delete_network Networks.get_network_state Networks.attach_nic
    Networks.detach_nic Projects.list_projects Projects.create_project Projects.get_project
    Projects.update_project Projects.patch_project Projects.delete_project Images.list_images
    Images.get_image Images.delete_image Images.create_image Images.create_alias Images.delete_alias
    Operations.list_operations Operations.get_operation Operations.cancel_operation
    Operations.wait_operation System.server_info System.host_resources System.pool_resources
run_denied api caller (Endpoint.list_instances instance_type project page expand filter) e log h =
    denied _ _ caller _ e log h
run_denied api caller _ e log h = denied _ _ caller _ e log h

-- A user whose role is too low has nothing sent.
pub not_enough_log :
    (api : Api) (u : User) (endpoint : Endpoint) (log : Log)
    → at_least (role_or_viewer u.role) (required endpoint) ≡ false
    → (run api (ok u) endpoint log).1 ≡ log
not_enough_log api u endpoint log h =
    let (_, refused, _) = require_role_lem (required endpoint) u in
    ap (λ (p : Result Answer × Log). p.1) (run_denied api (ok u) endpoint _ log (refused h))
