-- ===== src/Schemas/Networks.antt =====
-- schemas/networks.py and schemas/projects.py.
use lxd_management_api.Base.{String, Bool, [], ◌∷◌}
use lxd_management_api.Json.{str, obj, Dict}
use lxd_management_api.Schemas.Fields.{dump_fields, matches_name}

pub record NetworkCreate : Type 0 where
  pub name : String
  pub description : String
  pub type : String
  pub config : Dict
  pub extra : Dict

unfoldable pub dump_network_create : NetworkCreate → Dict
unfolding dump_fields
dump_network_create p =
    dump_fields
      (("name", str p.name)
        ∷ ("description", str p.description)
        ∷ ("type", str p.type)
        ∷ ("config", obj p.config)
        ∷ [])
      p.extra

-- The constraint of `NetworkCreate`.
unfoldable pub accepts_network_create : NetworkCreate → Bool
unfolding matches_name
accepts_network_create p = matches_name p.name

pub record ProjectCreate : Type 0 where
  pub name : String
  pub description : String
  pub config : Dict
  pub extra : Dict

unfoldable pub dump_project_create : ProjectCreate → Dict
unfolding dump_fields
dump_project_create p =
    dump_fields
      (("name", str p.name) ∷ ("description", str p.description) ∷ ("config", obj p.config) ∷ [])
      p.extra

-- The constraint of `ProjectCreate`.
unfoldable pub accepts_project_create : ProjectCreate → Bool
unfolding matches_name
accepts_project_create p = matches_name p.name
