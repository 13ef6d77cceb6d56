-- ===== src/Routes/Snapshots.antt =====
-- routes/snapshots.py.
use lxd_management_api.Base.{String, ◌<>◌, Bool, true, Option, some}
use lxd_management_api.Json.{Value, obj, Dict}
use lxd_management_api.Error.{Result}
use lxd_management_api.App.{M, to_http}
use lxd_management_api.Client
use lxd_management_api.Client.{no_kwargs, with_params, with_body}
use lxd_management_api.Pagination.{PageParams}
use lxd_management_api.Security.{viewer, operator}
use lxd_management_api.Users.{User}
use lxd_management_api.Schemas.{SnapshotCreate, dump_snapshot_create, dump_snapshot_restore}
use lxd_management_api.Routes.Common.{
  Api, guarded, project_params, list_params, page_of, wait_failed, accepted, accepted_or_waited,
}

module _ (api : Api) (caller : Result User) where
  open api use {lxd}

  unfoldable pub list_snapshots : String → Option String → PageParams → M Value
  list_snapshots name project page = guarded viewer caller (
      page_of
        (Client.get lxd ("instances/" <> name <> "/snapshots")
          (with_params (some (list_params true project))))
        page)

  unfoldable pub create_snapshot : String → SnapshotCreate → Option String → Bool → M Value
  create_snapshot name payload project wait = guarded operator caller (
      accepted_or_waited api wait_failed project wait (
        Client.post lxd ("instances/" <> name <> "/snapshots")
          (with_body (obj (dump_snapshot_create payload)) (project_params project))))

  unfoldable pub get_snapshot : String → String → Option String → M Value
  get_snapshot name snap project = guarded viewer caller (
      to_http (
        Client.get lxd ("instances/" <> name <> "/snapshots/" <> snap)
          (with_params (project_params project))))

  unfoldable pub rename_snapshot : String → String → Dict → Option String → M Value
  rename_snapshot name snap payload project = guarded operator caller (
      accepted api (
        Client.put lxd ("instances/" <> name <> "/snapshots/" <> snap)
          (with_body (obj (payload)) (project_params project))))

  unfoldable pub delete_snapshot : String → String → Option String → M Value
  delete_snapshot name snap project = guarded operator caller (
      accepted api (
        Client.delete lxd ("instances/" <> name <> "/snapshots/" <> snap)
          (with_params (project_params project))))

  unfoldable pub restore_snapshot : String → String → Option String → Bool → M Value
  restore_snapshot name snap project wait = guarded operator caller (
      accepted_or_waited api wait_failed project wait (
        Client.put lxd ("instances/" <> name)
          (with_body (obj (dump_snapshot_restore snap)) (project_params project))))
