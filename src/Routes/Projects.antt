-- ===== src/Routes/Projects.antt =====
-- routes/projects.py.
use lxd_management_api.Base.{String, ◌<>◌, Bool, none, some, if◌then◌else◌}
use lxd_management_api.Json.{Value, num, obj, empty, entry}
use lxd_management_api.Error.{Result}
use lxd_management_api.App.{M, to_http}
use lxd_management_api.Client
use lxd_management_api.Client.{no_kwargs, with_params, with_body}
use lxd_management_api.Pagination.{PageParams}
use lxd_management_api.Security.{viewer, admin}
use lxd_management_api.Users.{User}
use lxd_management_api.Schemas.{
  DescriptionConfig, dump_description_config, ProjectCreate, dump_project_create,
}
use lxd_management_api.Routes.Common.{Api, guarded, page_of, accepted}

module _ (api : Api) (caller : Result User) where
  open api use {lxd}

  unfoldable pub list_projects : PageParams → Bool → M Value
  list_projects page expand = guarded viewer caller (
      page_of
        (Client.get lxd "projects"
          (with_params (some (entry "recursion" (num (if expand then 1 else 0)) empty))))
        page)

  unfoldable pub create_project : ProjectCreate → M Value
  create_project payload = guarded admin caller (
      accepted api
        (Client.post lxd "projects" (with_body (obj (dump_project_create payload)) none)))

  unfoldable pub get_project : String → M Value
  get_project name =
      guarded viewer caller (to_http (Client.get lxd ("projects/" <> name) no_kwargs))

  unfoldable pub update_project : String → DescriptionConfig → M Value
  update_project name payload = guarded admin caller (
      accepted api (
        Client.put lxd ("projects/" <> name)
          (with_body (obj (dump_description_config payload)) none)))

  unfoldable pub patch_project : String → DescriptionConfig → M Value
  patch_project name payload = guarded admin caller (
      accepted api (
        Client.patch lxd ("projects/" <> name)
          (with_body (obj (dump_description_config payload)) none)))

  unfoldable pub delete_project : String → M Value
  delete_project name =
      guarded admin caller (accepted api (Client.delete lxd ("projects/" <> name) no_kwargs))
