-- ===== src/Routes/Storage.antt =====
-- routes/storage.py.
use lxd_management_api.Base.{String, ◌<>◌, Bool, Option, none, some, if◌then◌else◌}
use lxd_management_api.Base.Text.{nonempty}
use lxd_management_api.Json.{Value, str, obj, Dict, empty, entry, put, pop}
use lxd_management_api.Error.{Result}
use lxd_management_api.App.{M, lift, ◌>>=◌, to_http}
use lxd_management_api.Client
use lxd_management_api.Client.{no_kwargs, with_params, with_body}
use lxd_management_api.Pagination.{PageParams}
use lxd_management_api.Security.{viewer, operator, admin}
use lxd_management_api.Users.{User}
use lxd_management_api.Schemas.{
  StoragePoolCreate, dump_pool_create, DescriptionConfig, dump_description_config,
  StorageVolumeCreate, dump_volume_create,
}
use lxd_management_api.Routes.Common.{
  Api, guarded, project_params, list_params, page_of, accepted, devices_of,
}

-- The query of `list_volumes`.
unfoldable pub list_volumes_params : Option String → Option String → Bool → Dict
unfolding put
list_volumes_params project volume_type expand = elim volume_type [
  | none ↦ list_params expand project
  | some type ↦
      if nonempty type
      then put "type" (str type) (list_params expand project)
      else list_params expand project
]

-- The key and the entry of a volume in the devices of an instance.
abbrev pub volume_key : String → String
volume_key name = "vol_" <> name

abbrev pub volume_device : String → String → Value
volume_device pool name = obj (
    entry "type" (str "disk")
      (entry "pool" (str pool) (entry "volume" (str name) (entry "path" (str "/mnt/data") empty))))

module _ (api : Api) (caller : Result User) where
  open api use {lxd}

  unfoldable pub list_pools : Option String → PageParams → Bool → M Value
  list_pools project page expand = guarded viewer caller (
      page_of (Client.get lxd "storage-pools" (with_params (some (list_params expand project))))
        page)

  unfoldable pub create_pool : StoragePoolCreate → Option String → M Value
  create_pool payload project = guarded admin caller (
      accepted api (
        Client.post lxd "storage-pools"
          (with_body (obj (dump_pool_create payload)) (project_params project))))

  unfoldable pub get_pool : String → Option String → M Value
  get_pool name project =
      guarded viewer caller
        (to_http (Client.get lxd ("storage-pools/" <> name) (with_params (project_params project))))

  unfoldable pub update_pool : String → DescriptionConfig → Option String → M Value
  update_pool name payload project = guarded admin caller (
      accepted api (
        Client.put lxd ("storage-pools/" <> name)
          (with_body (obj (dump_description_config payload)) (project_params project))))

  unfoldable pub patch_pool : String → DescriptionConfig → Option String → M Value
  patch_pool name payload project = guarded admin caller (
      accepted api (
        Client.patch lxd ("storage-pools/" <> name)
          (with_body (obj (dump_description_config payload)) (project_params project))))

  unfoldable pub delete_pool : String → Option String → M Value
  delete_pool name project = guarded admin caller (
      accepted api
        (Client.delete lxd ("storage-pools/" <> name) (with_params (project_params project))))

  unfoldable pub list_volumes : String → Option String → Option String → PageParams → Bool → M Value
  list_volumes pool project volume_type page expand = guarded viewer caller (
      page_of
        (Client.get lxd ("storage-pools/" <> pool <> "/volumes")
          (with_params (some (list_volumes_params project volume_type expand))))
        page)

  unfoldable pub create_volume : String → StorageVolumeCreate → Option String → M Value
  create_volume pool payload project = guarded admin caller (
      accepted api (
        Client.post lxd ("storage-pools/" <> pool <> "/volumes")
          (with_body (obj (dump_volume_create payload)) (project_params project))))

  unfoldable pub get_volume : String → String → String → Option String → M Value
  get_volume pool volume_type name project = guarded viewer caller (
      to_http (
        Client.get lxd ("storage-pools/" <> pool <> "/volumes/" <> volume_type <> "/" <> name)
          (with_params (project_params project))))

  unfoldable pub update_volume :
      String → String → String → DescriptionConfig → Option String → M Value
  update_volume pool volume_type name payload project = guarded admin caller (
      accepted api (
        Client.put lxd ("storage-pools/" <> pool <> "/volumes/" <> volume_type <> "/" <> name)
          (with_body (obj (dump_description_config payload)) (project_params project))))

  unfoldable pub patch_volume : String → String → String → Dict → Option String → M Value
  patch_volume pool volume_type name payload project = guarded admin caller (
      accepted api (
        Client.patch lxd ("storage-pools/" <> pool <> "/volumes/" <> volume_type <> "/" <> name)
          (with_body (obj (payload)) (project_params project))))

  unfoldable pub delete_volume : String → String → String → Option String → M Value
  delete_volume pool volume_type name project = guarded admin caller (
      accepted api (
        Client.delete lxd ("storage-pools/" <> pool <> "/volumes/" <> volume_type <> "/" <> name)
          (with_params (project_params project))))

  -- `pool`, `name` and the query parameter `instance`.
  unfoldable pub attach_volume : String → String → String → Option String → M Value
  unfolding ◌>>=◌ lift put
  attach_volume pool name instance_name project = guarded operator caller (do
    inst ←
        to_http
          (Client.get lxd ("instances/" <> instance_name) (with_params (project_params project)))
    devices ← lift (devices_of api inst)
    accepted api (
        Client.patch lxd ("instances/" <> instance_name) (
          with_body
            (obj (
              entry "devices" (obj (put (volume_key name) (volume_device pool name) devices))
                empty))
            (project_params project))))

  unfoldable pub detach_volume : String → String → String → Option String → M Value
  unfolding ◌>>=◌ lift pop
  detach_volume pool name instance_name project = guarded operator caller (do
    inst ←
        to_http
          (Client.get lxd ("instances/" <> instance_name) (with_params (project_params project)))
    devices ← lift (devices_of api inst)
    accepted api (
        Client.patch lxd ("instances/" <> instance_name) (
          with_body (obj (entry "devices" (obj (pop (volume_key name) devices)) empty))
            (project_params project))))
