-- ===== src/Routes/Endpoint/Readers.antt =====
-- A caller who is a viewer changes nothing in LXD: what GET endpoints send are GET requests.
use lxd_management_api.Base.{ℕ, ◌≡◌, refl, ap, ap₂, String, Option}
use lxd_management_api.Json.{Value}
use lxd_management_api.Error.{Result, ok, err}
use lxd_management_api.App.{M, Log}
use lxd_management_api.App.Keeps.{Keeps, keeps_rules, mutations}
use lxd_management_api.Client
use lxd_management_api.Client.{Lxd, Kwargs, exchange, request, request_raw, prepared}
use lxd_management_api.Operation.{wait_for_operation}
use lxd_management_api.Pagination.{PageParams}
use lxd_management_api.Security.{Role, viewer, operator, admin, at_least, role_or_viewer}
use lxd_management_api.Users.{User}
use lxd_management_api.Deps.{require_role}
use lxd_management_api.Routes.Common.{Api, guarded, page_of}
use lxd_management_api.Routes.Endpoint.{Endpoint, Answer, answered, run}
use lxd_management_api.Routes.Endpoint.Declared.{required}
use lxd_management_api.Routes.Endpoint.Access.{run_denied, not_enough_log}
use lxd_management_api.Routes.Instances
use lxd_management_api.Routes.Snapshots
use lxd_management_api.Routes.Backups
use lxd_management_api.Routes.Storage
use lxd_management_api.Routes.Networks
use lxd_management_api.Routes.Projects
use lxd_management_api.Routes.Images
use lxd_management_api.Routes.Operations
use lxd_management_api.Routes.System

module _ (old : Log) where
  -- The requests other than GET are those of `old`.
  abbrev Kept : Log → Type 0
  Kept log = mutations log ≡ old

  exchange-Kept :
      (lxd : Lxd) (path : String) (kwargs : Kwargs) → Keeps Kept (exchange lxd "GET" path kwargs)
  unfolding exchange mutations
  exchange-Kept lxd path kwargs = record { at = λ log h. h }

  get-Kept : (lxd : Lxd) (path : String) (kwargs : Kwargs) → Keeps Kept (Client.get lxd path kwargs)
  unfolding Client.get
  get-Kept lxd path kwargs = search (keeps_rules, exchange-Kept)

  request_raw-Kept :
      (lxd : Lxd) (path : String) (kwargs : Kwargs) → Keeps Kept (request_raw lxd "GET" path kwargs)
  unfolding request_raw
  request_raw-Kept lxd path kwargs = search exchange-Kept

  wait_for_operation-Kept :
      (lxd : Lxd) (repr : Value → String) (id : String) (timeout : ℕ) (project : Option String)
      → Keeps Kept (wait_for_operation lxd repr id timeout project)
  unfolding wait_for_operation
  wait_for_operation-Kept lxd repr id timeout project = search (keeps_rules, get-Kept)

  page_of-Kept :
      (call : M Value) (page : PageParams) → Keeps Kept call → Keeps Kept (page_of call page)
  unfolding page_of
  page_of-Kept call page k = search keeps_rules

  guarded-Kept :
      {A : Type 0} (role : Role) (caller : Result User) (body : M A)
      → Keeps Kept body
      → Keeps Kept (guarded role caller body)
  unfolding guarded
  guarded-Kept role caller body k = search keeps_rules

  answered-Kept :
      {A : Type 0} (make : A → Answer) (m : M A) → Keeps Kept m → Keeps Kept (answered make m)
  unfolding answered
  answered-Kept make m k = search keeps_rules

  ruleset reading = (
    keeps_rules, get-Kept, request_raw-Kept, wait_for_operation-Kept, page_of-Kept, guarded-Kept,
    answered-Kept,
  )

  run-Kept :
      (api : Api) (caller : Result User) (endpoint : Endpoint)
      → required endpoint ≡ viewer
      → Keeps Kept (run api caller endpoint)
  unfolding run required Instances.list_instances Instances.create_instance Instances.get_instance
      Instances.replace_instance Instances.patch_instance Instances.delete_instance
      Instances.get_instance_state Instances.set_instance_state Instances.list_instance_logs
      Instances.get_instance_log Instances.exec_instance Snapshots.list_snapshots
      Snapshots.create_snapshot Snapshots.get_snapshot Snapshots.rename_snapshot
      Snapshots.delete_snapshot Snapshots.restore_snapshot Backups.list_backups
      Backups.create_backup Backups.get_backup Backups.delete_backup Backups.export_backup
      Storage.list_pools Storage.create_pool Storage.get_pool Storage.update_pool Storage.patch_pool
      Storage.delete_pool Storage.list_volumes Storage.create_volume Storage.get_volume
      Storage.update_volume Storage.patch_volume Storage.delete_volume Storage.attach_volume
      Storage.detach_volume Networks.list_networks Networks.create_network Networks.get_network
      Networks.update_network Networks.patch_network Networks.delete_network
      Networks.get_network_state Networks.attach_nic Networks.detach_nic Projects.list_projects
      Projects.create_project Projects.get_project Projects.update_project Projects.patch_project
      Projects.delete_project Images.list_images Images.get_image Images.delete_image
      Images.create_image Images.create_alias Images.delete_alias Operations.list_operations
      Operations.get_operation Operations.cancel_operation Operations.wait_operation
      System.server_info System.host_resources System.pool_resources
  run-Kept api caller (Endpoint.list_instances instance_type project page expand filter) h =
      search reading depth 9
  run-Kept api caller (Endpoint.get_instance name project) h = search reading depth 9
  run-Kept api caller (Endpoint.get_instance_state name project) h = search reading depth 9
  run-Kept api caller (Endpoint.list_instance_logs name project) h = search reading depth 9
  run-Kept api caller (Endpoint.get_instance_log name filename project) h = search reading depth 9
  run-Kept api caller (Endpoint.list_snapshots name project page) h = search reading depth 9
  run-Kept api caller (Endpoint.get_snapshot name snap project) h = search reading depth 9
  run-Kept api caller (Endpoint.list_backups name project page) h = search reading depth 9
  run-Kept api caller (Endpoint.get_backup name backup project) h = search reading depth 9
  run-Kept api caller (Endpoint.list_pools project page expand) h = search reading depth 9
  run-Kept api caller (Endpoint.get_pool name project) h = search reading depth 9
  run-Kept api caller (Endpoint.list_volumes pool project volume_type page expand) h =
      search reading depth 9
  run-Kept api caller (Endpoint.get_volume pool volume_type name project) h = search reading depth 9
  run-Kept api caller (Endpoint.list_networks project page expand) h = search reading depth 9
  run-Kept api caller (Endpoint.get_network name project) h = search reading depth 9
  run-Kept api caller (Endpoint.get_network_state name project) h = search reading depth 9
  run-Kept api caller (Endpoint.list_projects page expand) h = search reading depth 9
  run-Kept api caller (Endpoint.get_project name) h = search reading depth 9
  run-Kept api caller (Endpoint.list_images project page expand filter) h = search reading depth 9
  run-Kept api caller (Endpoint.get_image fingerprint project) h = search reading depth 9
  run-Kept api caller (Endpoint.list_operations project page) h = search reading depth 9
  run-Kept api caller (Endpoint.get_operation operation_id project) h = search reading depth 9
  run-Kept api caller (Endpoint.wait_operation operation_id project timeout) h =
      search reading depth 9
  run-Kept api caller (Endpoint.server_info project) h = search reading depth 9
  run-Kept api caller (Endpoint.host_resources project) h = search reading depth 9
  run-Kept api caller (Endpoint.pool_resources name project) h = search reading depth 9
  run-Kept api caller _ h = cc

user_reads :
    (api : Api) (u : User) (endpoint : Endpoint) (log : Log) (role : Role)
    → required endpoint ≡ role
    → role_or_viewer u.role ≡ viewer
    → mutations (run api (ok u) endpoint log).1 ≡ mutations log
unfolding at_least
user_reads api u endpoint log viewer r h =
    (run-Kept (mutations log) api (ok u) endpoint r).at log refl
user_reads api u endpoint log operator r h =
    ap mutations (not_enough_log api u endpoint log (ap₂ at_least h r))
user_reads api u endpoint log admin r h =
    ap mutations (not_enough_log api u endpoint log (ap₂ at_least h r))

-- Whatever endpoint is called, by a caller who is no user or whose role is `viewer` or unknown, the
-- requests other than GET that LXD has been sent are the same afterwards.
pub viewer_never_mutates :
    (api : Api) (caller : Result User) (endpoint : Endpoint) (log : Log)
    → ((u : User) → caller ≡ ok u → role_or_viewer u.role ≡ viewer)
    → mutations (run api caller endpoint log).1 ≡ mutations log
viewer_never_mutates api (err e) endpoint log h =
    ap (λ (p : Result Answer × Log). mutations p.1)
      (run_denied api (err e) endpoint e log (unfold require_role in refl))
viewer_never_mutates api (ok u) endpoint log h =
    user_reads api u endpoint log (required endpoint) refl (h u refl)
