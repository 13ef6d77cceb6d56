-- ===== src/Schemas/Storage.antt =====
-- schemas/storage.py, and the update bodies that other models repeat.
use lxd_management_api.Base.{String, Bool, Option, [], ◌∷◌}
use lxd_management_api.Json.{str, obj, Dict, opt_str}
use lxd_management_api.Schemas.Fields.{dump_fields, opt_dict, matches_name}

pub record StoragePoolCreate : Type 0 where
  pub name : String
  pub driver : String
  pub description : String
  pub config : Dict
  pub extra : Dict

unfoldable pub dump_pool_create : StoragePoolCreate → Dict
unfolding dump_fields
dump_pool_create p =
    dump_fields
      (("name", str p.name)
        ∷ ("driver", str p.driver)
        ∷ ("description", str p.description)
        ∷ ("config", obj p.config)
        ∷ [])
      p.extra

-- The constraint of `StoragePoolCreate`.
unfoldable pub accepts_pool_create : StoragePoolCreate → Bool
unfolding matches_name
accepts_pool_create p = matches_name p.name

-- The update and patch bodies of pools, volumes, networks and projects, which declare the same two
-- fields.
pub record DescriptionConfig : Type 0 where
  pub description : Option String
  pub config : Option Dict
  pub extra : Dict

unfoldable pub dump_description_config : DescriptionConfig → Dict
unfolding dump_fields
dump_description_config p =
    dump_fields (("description", opt_str p.description) ∷ ("config", opt_dict p.config) ∷ [])
      p.extra

pub record StorageVolumeCreate : Type 0 where
  pub name : String
  pub volume_type : String
  pub content_type : Option String
  pub description : String
  pub config : Dict
  pub source : Option Dict
  pub extra : Dict

unfoldable pub dump_volume_create : StorageVolumeCreate → Dict
unfolding dump_fields
dump_volume_create p =
    dump_fields
      (("name", str p.name)
        ∷ ("type", str p.volume_type)
        ∷ ("content_type", opt_str p.content_type)
        ∷ ("description", str p.description)
        ∷ ("config", obj p.config)
        ∷ ("source", opt_dict p.source)
        ∷ [])
      p.extra

-- The constraint of `StorageVolumeCreate`.
unfoldable pub accepts_volume_create : StorageVolumeCreate → Bool
unfolding matches_name
accepts_volume_create p = matches_name p.name
