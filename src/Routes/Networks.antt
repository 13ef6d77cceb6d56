-- ===== src/Routes/Networks.antt =====
-- routes/networks.py.
use lxd_management_api.Base.{String, ◌<>◌, Bool, Option, none, some, if◌then◌else◌}
use lxd_management_api.Base.Text.{nonempty}
use lxd_management_api.Json.{Value, str, obj, empty, entry, put, pop}
use lxd_management_api.Error.{Result}
use lxd_management_api.App.{M, lift, ◌>>=◌, to_http}
use lxd_management_api.Client
use lxd_management_api.Client.{no_kwargs, with_params, with_body}
use lxd_management_api.Pagination.{PageParams}
use lxd_management_api.Security.{viewer, operator, admin}
use lxd_management_api.Users.{User}
use lxd_management_api.Schemas.{
  DescriptionConfig, dump_description_config, NetworkCreate, dump_network_create,
}
use lxd_management_api.Routes.Common.{
  Api, guarded, project_params, list_params, page_of, accepted, devices_of,
}

-- `device_name or f"nic_{name}"`.
unfoldable pub nic_key : Option String → String → String
nic_key none name = "nic_" <> name
nic_key (some device_name) name = if nonempty device_name then device_name else "nic_" <> name

abbrev pub nic_device : String → String → Value
nic_device name nic_name =
    obj (entry "type" (str "nic") (entry "network" (str name) (entry "name" (str nic_name) empty)))

module _ (api : Api) (caller : Result User) where
  open api use {lxd}

  unfoldable pub list_networks : Option String → PageParams → Bool → M Value
  list_networks project page expand =
      guarded viewer caller
        (page_of (Client.get lxd "networks" (with_params (some (list_params expand project)))) page)

  unfoldable pub create_network : NetworkCreate → Option String → M Value
  create_network payload project = guarded admin caller (
      accepted api (
        Client.post lxd "networks"
          (with_body (obj (dump_network_create payload)) (project_params project))))

  unfoldable pub get_network : String → Option String → M Value
  get_network name project =
      guarded viewer caller
        (to_http (Client.get lxd ("networks/" <> name) (with_params (project_params project))))

  unfoldable pub update_network : String → DescriptionConfig → Option String → M Value
  update_network name payload project = guarded admin caller (
      accepted api (
        Client.put lxd ("networks/" <> name)
          (with_body (obj (dump_description_config payload)) (project_params project))))

  unfoldable pub patch_network : String → DescriptionConfig → Option String → M Value
  patch_network name payload project = guarded admin caller (
      accepted api (
        Client.patch lxd ("networks/" <> name)
          (with_body (obj (dump_description_config payload)) (project_params project))))

  unfoldable pub delete_network : String → Option String → M Value
  delete_network name project = guarded admin caller (
      accepted api (Client.delete lxd ("networks/" <> name) (with_params (project_params project))))

  unfoldable pub get_network_state : String → Option String → M Value
  get_network_state name project = guarded viewer caller (
      to_http
        (Client.get lxd ("networks/" <> name <> "/state") (with_params (project_params project))))

  unfoldable pub attach_nic : String → String → Option String → String → Option String → M Value
  unfolding ◌>>=◌ lift put nic_key
  attach_nic name instance_name device_name nic_name project = guarded operator caller (do
    inst ←
        to_http
          (Client.get lxd ("instances/" <> instance_name) (with_params (project_params project)))
    devices ← lift (devices_of api inst)
    accepted api (
        Client.patch lxd ("instances/" <> instance_name) (
          with_body
            (obj (
              entry "devices"
                (obj (put (nic_key device_name name) (nic_device name nic_name) devices)) empty))
            (project_params project))))

  unfoldable pub detach_nic : String → String → Option String → Option String → M Value
  unfolding ◌>>=◌ lift pop nic_key
  detach_nic name instance_name device_name project = guarded operator caller (do
    inst ←
        to_http
          (Client.get lxd ("instances/" <> instance_name) (with_params (project_params project)))
    devices ← lift (devices_of api inst)
    accepted api (
        Client.patch lxd ("instances/" <> instance_name) (
          with_body (obj (entry "devices" (obj (pop (nic_key device_name name) devices)) empty))
            (project_params project))))
