-- ===== src/Routes/Backups.antt =====
-- routes/backups.py.
use lxd_management_api.Base.{String, ◌<>◌, Bool, true, Option, some}
use lxd_management_api.Json.{Value, obj}
use lxd_management_api.Error.{Result}
use lxd_management_api.App.{M, ◌>>=◌, to_http}
use lxd_management_api.Client
use lxd_management_api.Client.{no_kwargs, with_params, with_body}
use lxd_management_api.Pagination.{PageParams}
use lxd_management_api.Security.{viewer, operator}
use lxd_management_api.Users.{User}
use lxd_management_api.Schemas.{BackupCreate, dump_backup_create}
use lxd_management_api.Routes.Common.{
  Api, guarded, project_params, list_params, Stream, streamed, page_of, wait_failed, accepted,
  accepted_or_waited,
}

module _ (api : Api) (caller : Result User) where
  open api use {lxd}

  unfoldable pub list_backups : String → Option String → PageParams → M Value
  list_backups name project page = guarded viewer caller (
      page_of
        (Client.get lxd ("instances/" <> name <> "/backups")
          (with_params (some (list_params true project))))
        page)

  unfoldable pub create_backup : String → BackupCreate → Option String → Bool → M Value
  create_backup name payload project wait = guarded operator caller (
      accepted_or_waited api wait_failed project wait (
        Client.post lxd ("instances/" <> name <> "/backups")
          (with_body (obj (dump_backup_create payload)) (project_params project))))

  unfoldable pub get_backup : String → String → Option String → M Value
  get_backup name backup project = guarded viewer caller (
      to_http (
        Client.get lxd ("instances/" <> name <> "/backups/" <> backup)
          (with_params (project_params project))))

  unfoldable pub delete_backup : String → String → Option String → M Value
  delete_backup name backup project = guarded operator caller (
      accepted api (
        Client.delete lxd ("instances/" <> name <> "/backups/" <> backup)
          (with_params (project_params project))))

  unfoldable pub export_backup : String → String → Option String → M Stream
  unfolding ◌>>=◌ streamed
  export_backup name backup project = guarded operator caller (do
    response ← to_http (
        Client.request_raw lxd "GET" ("instances/" <> name <> "/backups/" <> backup <> "/export")
          (with_params (project_params project)))
    streamed response "application/gzip"
        ("attachment; filename=\"" <> name <> "-" <> backup <> ".tar.gz" <> "\""))
