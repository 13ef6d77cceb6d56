-- ===== src/Schemas/Fields.antt =====
-- What the request models share: `model_dump` of declared and extra fields, and the pattern of names.
use lxd_management_api.Base.{
  ℕ, String, ◌==◌, Bool, false, ◌&&◌, ◌||◌, Option, none, some, List, [], ◌∷◌, if◌then◌else◌, leb,
  num_eq,
}
use Prim.Native.String
use lxd_management_api.Base.Text.{all_chars}
use lxd_management_api.Json.{
  Value, null, bool, str, arr, obj, Values, nil, cons, Dict, empty, entry, is_null,
}

-- A dictionary without its `None` values.
unfoldable pub exclude_none : Dict → Dict
exclude_none empty = empty
exclude_none (entry k v d) = let rest = exclude_none d in if is_null v then rest else entry k v rest

-- The declared fields and then the extra ones, without `None` values.
unfoldable pub dump_fields : List (String × Value) → Dict → Dict
unfolding exclude_none
dump_fields [] extra = exclude_none extra
dump_fields ((k, v) ∷ fields) extra =
    let rest = dump_fields fields extra in if is_null v then rest else entry k v rest

abbrev pub texts : List String → Values
texts [] = nil
texts (s ∷ ss) = cons (str s) (texts ss)

abbrev pub opt_dict : Option Dict → Value
opt_dict none = null
opt_dict (some d) = obj d

abbrev pub opt_bool : Option Bool → Value
opt_bool none = null
opt_bool (some b) = bool b

abbrev pub opt_texts : Option (List String) → Value
opt_texts none = null
opt_texts (some ss) = arr (texts ss)

-- `[A-Za-z0-9-_]`.
unfoldable pub name_char : ℕ → Bool
name_char c =
    (leb b'A' c && leb c b'Z')
    || (leb b'a' c && leb c b'z')
    || (leb b'0' c && leb c b'9')
    || num_eq c b'-'
    || num_eq c b'_'

-- The bounds and the pattern of the field `name` of the create models.
unfoldable pub matches_name : String → Bool
unfolding all_chars name_char
matches_name name =
    leb 1 (String.count name) && leb (String.count name) 63 && all_chars name_char name

-- `Literal[...]`.
abbrev pub one_of : List String → String → Bool
one_of [] s = false
one_of (t ∷ ts) s = t == s || one_of ts s
