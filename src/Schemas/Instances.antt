-- ===== src/Schemas/Instances.antt =====
-- schemas/instances.py.
use lxd_management_api.Base.{
  ℕ, String, Bool, true, false, ◌&&◌, Option, none, some, List, [], ◌∷◌, leb,
}
use lxd_management_api.Json.{bool, num, str, arr, obj, Dict, empty, entry, opt_str}
use lxd_management_api.Base.Text.{strip, nonempty}
use lxd_management_api.Schemas.Fields.{
  dump_fields, texts, opt_dict, opt_bool, opt_texts, matches_name, one_of,
}

pub record InstanceSource : Type 0 where
  pub type : String
  pub alias : Option String
  pub fingerprint : Option String
  pub server : Option String
  pub protocol : Option String
  pub extra : Dict

unfoldable pub dump_source : InstanceSource → Dict
unfolding dump_fields
dump_source s =
    dump_fields
      (("type", str s.type)
        ∷ ("alias", opt_str s.alias)
        ∷ ("fingerprint", opt_str s.fingerprint)
        ∷ ("server", opt_str s.server)
        ∷ ("protocol", opt_str s.protocol)
        ∷ [])
      s.extra

pub record InstanceCreate : Type 0 where
  pub name : String
  pub architecture : String
  pub profiles : List String
  pub ephemeral : Bool
  pub instance_type : String
  pub source : InstanceSource
  pub config : Dict
  pub devices : Dict
  pub extra : Dict

unfoldable pub dump_instance_create : InstanceCreate → Dict
unfolding dump_fields dump_source
dump_instance_create p =
    dump_fields
      (("name", str p.name)
        ∷ ("architecture", str p.architecture)
        ∷ ("profiles", arr (texts p.profiles))
        ∷ ("ephemeral", bool p.ephemeral)
        ∷ ("instance_type", str p.instance_type)
        ∷ ("source", obj (dump_source p.source))
        ∷ ("config", obj p.config)
        ∷ ("devices", obj p.devices)
        ∷ [])
      p.extra

-- `InstanceArchitecture`.
abbrev pub architectures : List String
architectures = "x86_64" ∷ ("aarch64" ∷ ("ppc64le" ∷ ("s390x" ∷ ("riscv64" ∷ []))))

-- `InstanceType`.
abbrev pub instance_types : List String
instance_types = "container" ∷ ("virtual-machine" ∷ [])

-- The validator `_name_not_empty`: whether it does not raise.
unfoldable pub name_not_empty : String → Bool
unfolding strip
name_not_empty v = nonempty (strip v)

-- The constraints of `InstanceCreate`.
unfoldable pub accepts_instance_create : InstanceCreate → Bool
unfolding matches_name name_not_empty
accepts_instance_create p =
    matches_name p.name
    && one_of architectures p.architecture
    && one_of instance_types p.instance_type
    && name_not_empty p.name

pub record InstanceUpdate : Type 0 where
  pub architecture : Option String
  pub profiles : Option (List String)
  pub ephemeral : Option Bool
  pub config : Option Dict
  pub devices : Option Dict
  pub description : Option String
  pub extra : Dict

unfoldable pub dump_instance_update : InstanceUpdate → Dict
unfolding dump_fields
dump_instance_update p =
    dump_fields
      (("architecture", opt_str p.architecture)
        ∷ ("profiles", opt_texts p.profiles)
        ∷ ("ephemeral", opt_bool p.ephemeral)
        ∷ ("config", opt_dict p.config)
        ∷ ("devices", opt_dict p.devices)
        ∷ ("description", opt_str p.description)
        ∷ [])
      p.extra

-- The constraint of `InstanceUpdate`.
unfoldable pub accepts_instance_update : InstanceUpdate → Bool
accepts_instance_update p = elim p.architecture [
  | none ↦ true
  | some architecture ↦ one_of architectures architecture
]

pub record InstancePatch : Type 0 where
  pub config : Option Dict
  pub devices : Option Dict
  pub description : Option String
  pub profiles : Option (List String)
  pub extra : Dict

unfoldable pub dump_instance_patch : InstancePatch → Dict
unfolding dump_fields
dump_instance_patch p =
    dump_fields
      (("config", opt_dict p.config)
        ∷ ("devices", opt_dict p.devices)
        ∷ ("description", opt_str p.description)
        ∷ ("profiles", opt_texts p.profiles)
        ∷ [])
      p.extra

pub data StateAction : Type 0 where
  start stop restart freeze unfreeze : StateAction

abbrev pub action_value : StateAction → String
action_value start = "start"
action_value stop = "stop"
action_value restart = "restart"
action_value freeze = "freeze"
action_value unfreeze = "unfreeze"

pub record InstanceStateAction : Type 0 where
  pub action : StateAction
  pub force : Bool
  pub stateful : Bool
  pub timeout : ℕ

unfoldable pub dump_state_action : InstanceStateAction → Dict
dump_state_action p = entry "action" (str (action_value p.action)) (
    entry "force" (bool p.force)
      (entry "stateful" (bool p.stateful) (entry "timeout" (num p.timeout) empty)))

pub record ExecRequest : Type 0 where
  pub command : List String
  pub environment : Dict
  pub interactive : Bool
  pub width : ℕ
  pub height : ℕ
  pub user : ℕ
  pub group : ℕ
  pub cwd : String
  pub extra : Dict

unfoldable pub dump_exec_request : ExecRequest → Dict
unfolding dump_fields
dump_exec_request p =
    dump_fields
      (("command", arr (texts p.command))
        ∷ ("environment", obj p.environment)
        ∷ ("interactive", bool p.interactive)
        ∷ ("width", num p.width)
        ∷ ("height", num p.height)
        ∷ ("user", num p.user)
        ∷ ("group", num p.group)
        ∷ ("cwd", str p.cwd)
        ∷ [])
      p.extra

-- The constraints of `ExecRequest`; no number here is negative.
unfoldable pub accepts_exec_request : ExecRequest → Bool
accepts_exec_request p =
    elim p.command [ [] ↦ false | c ∷ cs ↦ true ] && leb 1 p.width && leb 1 p.height
