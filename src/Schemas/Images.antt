-- ===== src/Schemas/Images.antt =====
-- schemas/images.py.
use lxd_management_api.Base.{String, Bool, Option, [], ◌∷◌}
use lxd_management_api.Json.{bool, str, obj, Dict, empty, entry, opt_str}
use lxd_management_api.Base.Text.{nonempty}
use lxd_management_api.Schemas.Fields.{dump_fields, opt_dict}

pub record ImageCreate : Type 0 where
  pub source : Option Dict
  pub filename : Option String
  pub public : Bool
  pub auto_update : Bool
  pub properties : Dict
  pub extra : Dict

unfoldable pub dump_image_create : ImageCreate → Dict
unfolding dump_fields
dump_image_create p =
    dump_fields
      (("source", opt_dict p.source)
        ∷ ("filename", opt_str p.filename)
        ∷ ("public", bool p.public)
        ∷ ("auto_update", bool p.auto_update)
        ∷ ("properties", obj p.properties)
        ∷ [])
      p.extra

pub record ImageAliasCreate : Type 0 where
  pub name : String
  pub description : String
  pub target : String

unfoldable pub dump_alias_create : ImageAliasCreate → Dict
dump_alias_create p =
    entry "name" (str p.name)
      (entry "description" (str p.description) (entry "target" (str p.target) empty))

-- The constraint of `ImageAliasCreate`.
unfoldable pub accepts_alias_create : ImageAliasCreate → Bool
accepts_alias_create p = nonempty p.name
