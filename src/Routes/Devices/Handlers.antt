-- ===== src/Routes/Devices/Handlers.antt =====
-- The four handlers that attach a device and detach it.
use lxd_management_api.Base.{String, ◌<>◌, ◌==◌, ◌≡◌, Option, none, some, if◌then◌else◌}
use lxd_management_api.Json.{Value, Dict, get, put, pop}
use lxd_management_api.Json.Laws.{get-put, get-pop}
use lxd_management_api.Error.{Result, ok}
use lxd_management_api.App.{Log}
use lxd_management_api.Client
use lxd_management_api.Client.{Lxd, prepared, request, with_params, with_body}
use lxd_management_api.Security.{operator}
use lxd_management_api.Users.{User}
use lxd_management_api.Deps.{require_role}
use lxd_management_api.Routes.Common.{Api, project_params, devices_of}
use lxd_management_api.Routes.Storage.{volume_key, volume_device, attach_volume, detach_volume}
use lxd_management_api.Routes.Networks.{nic_key, nic_device, attach_nic, detach_nic}
use lxd_management_api.Routes.Devices.{Patches, allowed_log}

module _ (api : Api) (instance_name : String) (project : Option String) (log : Log)
    (inst : Value) where
  open api use {lxd}

  module _
      (read : (Client.get lxd
          ("instances/" <> instance_name)
          (with_params (project_params project))
          log).0
        ≡ ok inst)
      (devices : Dict) (has_devices : devices_of api inst ≡ ok devices) (caller : Result User)
      (user : User) (allowed : require_role operator caller ≡ ok user) where
    -- The four handlers that attach and detach, for an operator and an instance whose devices can be
    -- read: each sends LXD the read of the instance and then one PATCH of it. The devices in the PATCH
    -- have under the key of the volume, `vol_<name>`, or of the interface, `device_name` or else
    -- `nic_<name>`, the new device, or nothing where it is detached, and under every other key what
    -- was read.
    pub device-Patches :
        (pool volume network nic_name : String) (device_name : Option String)
        → Patches api instance_name project log
            (λ key.
              if volume_key volume == key
              then some (volume_device pool volume)
              else get key devices)
            (attach_volume api caller pool volume instance_name project log).1
          × Patches api instance_name project log
              (λ key. if volume_key volume == key then none else get key devices)
              (detach_volume api caller pool volume instance_name project log).1
          × Patches api instance_name project log
              (λ key.
                if nic_key device_name network == key
                then some (nic_device network nic_name)
                else get key devices)
              (attach_nic api caller network instance_name device_name nic_name project log).1
          × Patches api instance_name project log
              (λ key. if nic_key device_name network == key then none else get key devices)
              (detach_nic api caller network instance_name device_name project log).1
    unfolding attach_volume detach_volume attach_nic detach_nic
    device-Patches pool volume network nic_name device_name =
        let sent_log =
          allowed_log api instance_name project log inst read devices has_devices caller user
            allowed in
        let disk = volume_device pool volume in
        let nic = nic_device network nic_name in
        let nic_at = nic_key device_name network in
        (
          (
            put (volume_key volume) disk devices,
            sent_log (put (volume_key volume) disk),
            λ key. get-put (volume_key volume) key disk devices,
          ),
          (
            pop (volume_key volume) devices,
            sent_log (pop (volume_key volume)),
            λ key. get-pop (volume_key volume) key devices,
          ),
          (
            put nic_at nic devices,
            sent_log (put nic_at nic),
            λ key. get-put nic_at key nic devices,
          ),
          (pop nic_at devices, sent_log (pop nic_at), λ key. get-pop nic_at key devices),
        )
