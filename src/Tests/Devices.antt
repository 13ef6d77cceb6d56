-- ===== src/Tests/Devices.antt =====
-- Devices attached to the instance `web` and detached from it.
use lxd_management_api.Base.{◌==◌, refl, none, some, [], if◌then◌else◌}
use lxd_management_api.Json.{get}
use lxd_management_api.Error.{ok}
use lxd_management_api.Client
use lxd_management_api.Deps.{require_role}
use lxd_management_api.Routes.Storage.{volume_key, volume_device, attach_volume, detach_volume}
use lxd_management_api.Routes.Networks.{nic_key, nic_device, attach_nic, detach_nic}
use lxd_management_api.Routes.Common.{devices_of}
use lxd_management_api.Routes.Devices.{Patches}
use lxd_management_api.Routes.Devices.Handlers.{device-Patches}
use lxd_management_api.Tests.Fixtures.{alice, test_api, web, web_devices}

device-Patches_example :
    Patches test_api "web" none []
      (λ key.
        if volume_key "data" == key
        then some (volume_device "default" "data")
        else get key web_devices)
      (attach_volume test_api (ok alice) "default" "data" "web" none []).1
    × Patches test_api "web" none []
        (λ key. if volume_key "data" == key then none else get key web_devices)
        (detach_volume test_api (ok alice) "default" "data" "web" none []).1
    × Patches test_api "web" none []
        (λ key.
          if nic_key none "lxdbr0" == key
          then some (nic_device "lxdbr0" "eth0")
          else get key web_devices)
        (attach_nic test_api (ok alice) "lxdbr0" "web" none "eth0" none []).1
    × Patches test_api "web" none []
        (λ key. if nic_key none "lxdbr0" == key then none else get key web_devices)
        (detach_nic test_api (ok alice) "lxdbr0" "web" none none []).1
unfolding Client.get require_role devices_of
device-Patches_example =
    device-Patches test_api "web" none [] web refl web_devices refl (ok alice) alice refl "default"
      "data" "lxdbr0" "eth0" none
