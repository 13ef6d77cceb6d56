-- ===== src/Routes/Queries.antt =====
-- The queries of requests to LXD up to values that are false, which count as missing.
pub mod Lists
pub mod Reference
use lxd_management_api.Base.{
  ℕ, String, ◌==◌, eq_iff, ◌≡◌, refl, sym, ap, ◌∙◌, Bool, true, false, Option, none, some, arith,
  if◌then◌else◌,
}
use lxd_management_api.Base.Text.{nonempty}
use lxd_management_api.Json.{
  Value, null, num, str, Dict, empty, entry, get, get_or, put, update, opt_str, truthy, or_none,
}
use lxd_management_api.Json.Laws.{get-put}
use lxd_management_api.Client.Params.{given, extended, build_params}
use lxd_management_api.Routes.Common.{project_params, list_params}
use lxd_management_api.Routes.Instances.{list_instances_params}
use lxd_management_api.Routes.Storage.{list_volumes_params}
use lxd_management_api.Routes.Images.{list_images_params}

-- `v or None`.
unfoldable pub value_or_null : Value → Value
unfolding truthy
value_or_null v = if truthy v then v else null

-- What a query has under a key, where a missing key and a value that is false count as the same.
unfoldable pub asked : String → Dict → Value
unfolding value_or_null get_or
asked key params = value_or_null (get_or key null params)

pub asked-entry :
    (key k : String) (v : Value) (d : Dict)
    → asked key (entry k v d) ≡ (if k == key then value_or_null v else asked key d)
unfolding asked get_or get
asked-entry key k v d = ground arith

pub asked-put :
    (key k : String) (v : Value) (d : Dict)
    → asked key (put k v d) ≡ (if k == key then value_or_null v else asked key d)
unfolding asked get_or
asked-put key k v d = ground (arith, get-put k key v d)

pub asked_missing :
    (key k : String) (d : Dict) → get k d ≡ none → (k == key) ≡ true → asked key d ≡ null
unfolding asked get_or value_or_null truthy
asked_missing key k d h same = ground (arith, eq_iff k key)

pub asked-given :
    (key k : String) (o : Option String) (d : Dict)
    → get k d ≡ none
    → asked key (given k o d) ≡ (if k == key then value_or_null (opt_str o) else asked key d)
unfolding given value_or_null truthy
asked-given key k none d h = ground (arith, asked_missing key k d h)
asked-given key k (some s) d h = ground (arith, asked_missing key k d h, asked-put key k (str s) d)

pub get-given :
    (k j : String) (o : Option String) (d : Dict) → (j == k) ≡ false → get k (given j o d) ≡ get k d
unfolding given
get-given k j none d h = refl
get-given k j (some s) d h = ground (arith, get-put j k (str s) d)

-- Adding a dictionary of one text is adding the text.
pub extended-given :
    (k : String) (o : Option String) (d : Dict) → extended d (some (given k o empty)) ≡ given k o d
unfolding given put update
extended-given k none d = refl
extended-given k (some s) d = ground arith

-- Two tests for different keys in the other order.
pub swapped :
    (key k j : String) (x y z : Value)
    → (k == j) ≡ false
    → (if k == key then x else if j == key then y else z)
      ≡ (if j == key then y else if k == key then x else z)
swapped key k j x y z h = ground (arith, eq_iff k key, eq_iff j key, eq_iff k j)

pub asked_empty : (key : String) → asked key empty ≡ null
unfolding asked get_or get value_or_null truthy
asked_empty key = refl

-- A key with no value counts as missing.
pub asked_null :
    (key k : String) (d : Dict) → get k d ≡ none → asked key (entry k null d) ≡ asked key d
unfolding value_or_null truthy
asked_null key k d h = ground (arith, asked-entry key k null d, asked_missing key k d h)
