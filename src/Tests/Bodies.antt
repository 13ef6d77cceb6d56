-- ===== src/Tests/Bodies.antt =====
-- The body of a new virtual machine.
use Prim.Native.String
use lxd_management_api.Base.{◌↔◌, ℕ, ◌≤◌, ◌≡◌, true, false, none, some, []}
use lxd_management_api.Base.Text.{contains}
use lxd_management_api.Json.{empty}
use lxd_management_api.Schemas.Fields.{one_of}
use lxd_management_api.Schemas.{InstanceCreate}
use lxd_management_api.Schemas.Laws.{IsNameChar, accepts_instance_create_lem}
use lxd_management_api.Schemas.Instances.{accepts_instance_create, architectures, instance_types}

-- A virtual machine.
abbrev machine : InstanceCreate
machine = record {
  name = "web-1";
  architecture = "x86_64";
  profiles = [];
  ephemeral = false;
  instance_type = "virtual-machine";
  source = record {
    type = "image";
    alias = some "ubuntu:22.04";
    fingerprint = none;
    server = none;
    protocol = none;
    extra = empty;
  };
  config = empty;
  devices = empty;
  extra = empty;
}

accepts_instance_create_lem_example : (accepts_instance_create machine ≡ true) ↔ (
    (1 ≤ String.count "web-1")
    × (String.count "web-1" ≤ 63)
    × ((c : ℕ) → contains c "web-1" ≡ true → IsNameChar c)
    × (one_of architectures "x86_64" ≡ true)
    × (one_of instance_types "virtual-machine" ≡ true))
accepts_instance_create_lem_example = accepts_instance_create_lem machine
