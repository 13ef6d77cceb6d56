-- ===== src/Routes/Images.antt =====
-- routes/images.py.
use lxd_management_api.Base.{String, ◌<>◌, Bool, Option, none, some, if◌then◌else◌}
use lxd_management_api.Base.Text.{nonempty}
use lxd_management_api.Json.{Value, str, obj, Dict, put}
use lxd_management_api.Error.{Result}
use lxd_management_api.App.{M, to_http}
use lxd_management_api.Client
use lxd_management_api.Client.{no_kwargs, with_params, with_body}
use lxd_management_api.Pagination.{PageParams}
use lxd_management_api.Security.{viewer, admin}
use lxd_management_api.Users.{User}
use lxd_management_api.Schemas.{ImageCreate, dump_image_create, ImageAliasCreate, dump_alias_create}
use lxd_management_api.Routes.Common.{Api, guarded, project_params, list_params, page_of, accepted}

-- The query of `list_images`.
unfoldable pub list_images_params : Option String → Bool → Option String → Dict
unfolding put
list_images_params project expand filter = elim filter [
  | none ↦ list_params expand project
  | some text ↦
      if nonempty text
      then put "filter" (str text) (list_params expand project)
      else list_params expand project
]

module _ (api : Api) (caller : Result User) where
  open api use {lxd}

  unfoldable pub list_images : Option String → PageParams → Bool → Option String → M Value
  list_images project page expand filter = guarded viewer caller (
      page_of
        (Client.get lxd "images" (with_params (some (list_images_params project expand filter))))
        page)

  unfoldable pub get_image : String → Option String → M Value
  get_image fingerprint project =
      guarded viewer caller
        (to_http (Client.get lxd ("images/" <> fingerprint) (with_params (project_params project))))

  unfoldable pub delete_image : String → Option String → M Value
  delete_image fingerprint project = guarded admin caller (
      accepted api
        (Client.delete lxd ("images/" <> fingerprint) (with_params (project_params project))))

  unfoldable pub create_image : ImageCreate → Option String → M Value
  create_image payload project = guarded admin caller (
      accepted api (
        Client.post lxd "images"
          (with_body (obj (dump_image_create payload)) (project_params project))))

  unfoldable pub create_alias : ImageAliasCreate → Option String → M Value
  create_alias payload project = guarded admin caller (
      to_http (
        Client.post lxd "images/aliases"
          (with_body (obj (dump_alias_create payload)) (project_params project))))

  unfoldable pub delete_alias : String → M Value
  delete_alias name =
      guarded admin caller (accepted api (Client.delete lxd ("images/aliases/" <> name) no_kwargs))
