-- ===== src/Routes/Endpoint.antt =====
-- The endpoints over LXD as one type, and the handler of each.
pub mod Access
pub mod Calls
pub mod Reaching
pub mod Declared
pub mod Shapes
pub mod Answers
pub mod Errors
pub mod Contained
pub mod Readers
pub mod Operators
use lxd_management_api.Base.{ℕ, String, Bool, Option}
use lxd_management_api.Json.{Value, Dict}
use lxd_management_api.Error.{Result}
use lxd_management_api.App.{M, pure, ◌>>=◌}
use lxd_management_api.Pagination.{PageParams}
use lxd_management_api.Security.{Role, viewer, operator, admin}
use lxd_management_api.Users.{User}
use lxd_management_api.Schemas.{
  BackupCreate, DescriptionConfig, ExecRequest, ImageAliasCreate, ImageCreate, InstanceCreate,
  InstancePatch, InstanceStateAction, InstanceUpdate, NetworkCreate, ProjectCreate, SnapshotCreate,
  StoragePoolCreate, StorageVolumeCreate,
}
use lxd_management_api.Routes.Common.{Api, Stream}
use lxd_management_api.Routes.Instances
use lxd_management_api.Routes.Snapshots
use lxd_management_api.Routes.Backups
use lxd_management_api.Routes.Storage
use lxd_management_api.Routes.Networks
use lxd_management_api.Routes.Projects
use lxd_management_api.Routes.Images
use lxd_management_api.Routes.Operations
use lxd_management_api.Routes.System

-- A call of an endpoint, with the parameters and the body of the request.
pub data Endpoint : Type 0 where
  list_instances : Option String → Option String → PageParams → Bool → Option String → Endpoint
  create_instance : InstanceCreate → Option String → Endpoint
  get_instance : String → Option String → Endpoint
  replace_instance : String → InstanceUpdate → Option String → Endpoint
  patch_instance : String → InstancePatch → Option String → Endpoint
  delete_instance : String → Option String → Bool → Endpoint
  get_instance_state : String → Option String → Endpoint
  set_instance_state : String → InstanceStateAction → Option String → Bool → Endpoint
  list_instance_logs : String → Option String → Endpoint
  get_instance_log : String → String → Option String → Endpoint
  exec_instance : String → ExecRequest → Option String → Endpoint
  list_snapshots : String → Option String → PageParams → Endpoint
  create_snapshot : String → SnapshotCreate → Option String → Bool → Endpoint
  get_snapshot : String → String → Option String → Endpoint
  rename_snapshot : String → String → Dict → Option String → Endpoint
  delete_snapshot : String → String → Option String → Endpoint
  restore_snapshot : String → String → Option String → Bool → Endpoint
  list_backups : String → Option String → PageParams → Endpoint
  create_backup : String → BackupCreate → Option String → Bool → Endpoint
  get_backup : String → String → Option String → Endpoint
  delete_backup : String → String → Option String → Endpoint
  export_backup : String → String → Option String → Endpoint
  list_pools : Option String → PageParams → Bool → Endpoint
  create_pool : StoragePoolCreate → Option String → Endpoint
  get_pool : String → Option String → Endpoint
  update_pool : String → DescriptionConfig → Option String → Endpoint
  patch_pool : String → DescriptionConfig → Option String → Endpoint
  delete_pool : String → Option String → Endpoint
  list_volumes : String → Option String → Option String → PageParams → Bool → Endpoint
  create_volume : String → StorageVolumeCreate → Option String → Endpoint
  get_volume : String → String → String → Option String → Endpoint
  update_volume : String → String → String → DescriptionConfig → Option String → Endpoint
  patch_volume : String → String → String → Dict → Option String → Endpoint
  delete_volume : String → String → String → Option String → Endpoint
  attach_volume : String → String → String → Option String → Endpoint
  detach_volume : String → String → String → Option String → Endpoint
  list_networks : Option String → PageParams → Bool → Endpoint
  create_network : NetworkCreate → Option String → Endpoint
  get_network : String → Option String → Endpoint
  update_network : String → DescriptionConfig → Option String → Endpoint
  patch_network : String → DescriptionConfig → Option String → Endpoint
  delete_network : String → Option String → Endpoint
  get_network_state : String → Option String → Endpoint
  attach_nic : String → String → Option String → String → Option String → Endpoint
  detach_nic : String → String → Option String → Option String → Endpoint
  list_projects : PageParams → Bool → Endpoint
  create_project : ProjectCreate → Endpoint
  get_project : String → Endpoint
  update_project : String → DescriptionConfig → Endpoint
  patch_project : String → DescriptionConfig → Endpoint
  delete_project : String → Endpoint
  list_images : Option String → PageParams → Bool → Option String → Endpoint
  get_image : String → Option String → Endpoint
  delete_image : String → Option String → Endpoint
  create_image : ImageCreate → Option String → Endpoint
  create_alias : ImageAliasCreate → Option String → Endpoint
  delete_alias : String → Endpoint
  list_operations : Option String → PageParams → Endpoint
  get_operation : String → Option String → Endpoint
  cancel_operation : String → Option String → Endpoint
  wait_operation : String → Option String → ℕ → Endpoint
  server_info : Option String → Endpoint
  host_resources : Option String → Endpoint
  pool_resources : String → Option String → Endpoint

-- What an endpoint answers with.
pub data Answer : Type 0 where
  json : Value → Answer
  stream : Stream → Answer

unfoldable pub answered : {A : Type 0} → (A → Answer) → M A → M Answer
unfolding ◌>>=◌ pure
answered make m = m >>= λ a. pure (make a)

-- The handler of each endpoint, for a caller.
unfoldable pub run : Api → Result User → Endpoint → M Answer
unfolding answered
run api caller (list_instances instance_type project page expand filter) =
    answered json (Instances.list_instances api caller instance_type project page expand filter)
run api caller (create_instance payload project) =
    answered json (Instances.create_instance api caller payload project)
run api caller (get_instance name project) =
    answered json (Instances.get_instance api caller name project)
run api caller (replace_instance name payload project) =
    answered json (Instances.replace_instance api caller name payload project)
run api caller (patch_instance name payload project) =
    answered json (Instances.patch_instance api caller name payload project)
run api caller (delete_instance name project force) =
    answered json (Instances.delete_instance api caller name project force)
run api caller (get_instance_state name project) =
    answered json (Instances.get_instance_state api caller name project)
run api caller (set_instance_state name payload project wait) =
    answered json (Instances.set_instance_state api caller name payload project wait)
run api caller (list_instance_logs name project) =
    answered json (Instances.list_instance_logs api caller name project)
run api caller (get_instance_log name filename project) =
    answered stream (Instances.get_instance_log api caller name filename project)
run api caller (exec_instance name payload project) =
    answered json (Instances.exec_instance api caller name payload project)
run api caller (list_snapshots name project page) =
    answered json (Snapshots.list_snapshots api caller name project page)
run api caller (create_snapshot name payload project wait) =
    answered json (Snapshots.create_snapshot api caller name payload project wait)
run api caller (get_snapshot name snap project) =
    answered json (Snapshots.get_snapshot api caller name snap project)
run api caller (rename_snapshot name snap payload project) =
    answered json (Snapshots.rename_snapshot api caller name snap payload project)
run api caller (delete_snapshot name snap project) =
    answered json (Snapshots.delete_snapshot api caller name snap project)
run api caller (restore_snapshot name snap project wait) =
    answered json (Snapshots.restore_snapshot api caller name snap project wait)
run api caller (list_backups name project page) =
    answered json (Backups.list_backups api caller name project page)
run api caller (create_backup name payload project wait) =
    answered json (Backups.create_backup api caller name payload project wait)
run api caller (get_backup name backup project) =
    answered json (Backups.get_backup api caller name backup project)
run api caller (delete_backup name backup project) =
    answered json (Backups.delete_backup api caller name backup project)
run api caller (export_backup name backup project) =
    answered stream (Backups.export_backup api caller name backup project)
run api caller (list_pools project page expand) =
    answered json (Storage.list_pools api caller project page expand)
run api caller (create_pool payload project) =
    answered json (Storage.create_pool api caller payload project)
run api caller (get_pool name project) = answered json (Storage.get_pool api caller name project)
run api caller (update_pool name payload project) =
    answered json (Storage.update_pool api caller name payload project)
run api caller (patch_pool name payload project) =
    answered json (Storage.patch_pool api caller name payload project)
run api caller (delete_pool name project) =
    answered json (Storage.delete_pool api caller name project)
run api caller (list_volumes pool project volume_type page expand) =
    answered json (Storage.list_volumes api caller pool project volume_type page expand)
run api caller (create_volume pool payload project) =
    answered json (Storage.create_volume api caller pool payload project)
run api caller (get_volume pool volume_type name project) =
    answered json (Storage.get_volume api caller pool volume_type name project)
run api caller (update_volume pool volume_type name payload project) =
    answered json (Storage.update_volume api caller pool volume_type name payload project)
run api caller (patch_volume pool volume_type name payload project) =
    answered json (Storage.patch_volume api caller pool volume_type name payload project)
run api caller (delete_volume pool volume_type name project) =
    answered json (Storage.delete_volume api caller pool volume_type name project)
run api caller (attach_volume pool name instance_name project) =
    answered json (Storage.attach_volume api caller pool name instance_name project)
run api caller (detach_volume pool name instance_name project) =
    answered json (Storage.detach_volume api caller pool name instance_name project)
run api caller (list_networks project page expand) =
    answered json (Networks.list_networks api caller project page expand)
run api caller (create_network payload project) =
    answered json (Networks.create_network api caller payload project)
run api caller (get_network name project) =
    answered json (Networks.get_network api caller name project)
run api caller (update_network name payload project) =
    answered json (Networks.update_network api caller name payload project)
run api caller (patch_network name payload project) =
    answered json (Networks.patch_network api caller name payload project)
run api caller (delete_network name project) =
    answered json (Networks.delete_network api caller name project)
run api caller (get_network_state name project) =
    answered json (Networks.get_network_state api caller name project)
run api caller (attach_nic name instance_name device_name nic_name project) =
    answered json (Networks.attach_nic api caller name instance_name device_name nic_name project)
run api caller (detach_nic name instance_name device_name project) =
    answered json (Networks.detach_nic api caller name instance_name device_name project)
run api caller (list_projects page expand) =
    answered json (Projects.list_projects api caller page expand)
run api caller (create_project payload) = answered json (Projects.create_project api caller payload)
run api caller (get_project name) = answered json (Projects.get_project api caller name)
run api caller (update_project name payload) =
    answered json (Projects.update_project api caller name payload)
run api caller (patch_project name payload) =
    answered json (Projects.patch_project api caller name payload)
run api caller (delete_project name) = answered json (Projects.delete_project api caller name)
run api caller (list_images project page expand filter) =
    answered json (Images.list_images api caller project page expand filter)
run api caller (get_image fingerprint project) =
    answered json (Images.get_image api caller fingerprint project)
run api caller (delete_image fingerprint project) =
    answered json (Images.delete_image api caller fingerprint project)
run api caller (create_image payload project) =
    answered json (Images.create_image api caller payload project)
run api caller (create_alias payload project) =
    answered json (Images.create_alias api caller payload project)
run api caller (delete_alias name) = answered json (Images.delete_alias api caller name)
run api caller (list_operations project page) =
    answered json (Operations.list_operations api caller project page)
run api caller (get_operation operation_id project) =
    answered json (Operations.get_operation api caller operation_id project)
run api caller (cancel_operation operation_id project) =
    answered json (Operations.cancel_operation api caller operation_id project)
run api caller (wait_operation operation_id project timeout) =
    answered json (Operations.wait_operation api caller operation_id project timeout)
run api caller (server_info project) = answered json (System.server_info api caller project)
run api caller (host_resources project) = answered json (System.host_resources api caller project)
run api caller (pool_resources name project) =
    answered json (System.pool_resources api caller name project)
