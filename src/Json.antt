-- ===== src/Json.antt =====
-- The dynamic values that the program passes between its clients and LXD: what `response.json()`
-- and `model_dump()` give, with Python's tests and dictionary operations on them. Numbers are whole
-- and not negative. A dictionary keeps the order of insertion, as Python's does.
pub mod Laws
use lxd_management_api.Base.{
  ℕ, num_eq, String, ◌==◌, Bool, true, false, not, Option, none, some, List, [], ◌∷◌, ◌≡◌, ◌≢◌,
  if◌then◌else◌,
}
use lxd_management_api.Base.Text.{nonempty, show}

mutual
  pub data Value : Type 0 where
    null : Value
    bool : Bool → Value
    num : ℕ → Value
    str : String → Value
    arr : Values → Value
    obj : Dict → Value

  pub data Values : Type 0 where
    nil : Values
    cons : Value → Values → Values

  pub data Dict : Type 0 where
    empty : Dict
    entry : String → Value → Dict → Dict

-- The items of a JSON array as a list.
abbrev pub items : Values → List Value
items nil = []
items (cons v vs) = v ∷ items vs

-- The other way round.
abbrev pub array : List Value → Values
array [] = nil
array (v ∷ vs) = cons v (array vs)

-- `d.get(k)`; `none` for a missing key.
unfoldable pub get : String → Dict → Option Value
get k empty = none
get k (entry j v d) = if j == k then some v else get k d

-- `d[k] = v`: a present key keeps its place.
unfoldable pub put : String → Value → Dict → Dict
put k v empty = entry k v empty
put k v (entry j w d) = if j == k then entry j v d else entry j w (put k v d)

-- `d.pop(k, None)`, for its effect on `d`. Keys of a dictionary are distinct.
unfoldable pub pop : String → Dict → Dict
pop k empty = empty
pop k (entry j w d) = let rest = pop k d in if j == k then rest else entry j w rest

-- `d.update(e)`.
unfoldable pub update : Dict → Dict → Dict
unfolding put
update d empty = d
update d (entry k v e) = update (put k v d) e

-- A dictionary as Python holds it: no key twice.
abbrev pub NodupKeys : Dict → Type 0
NodupKeys empty = Unit
NodupKeys (entry k v d) = (get k d ≡ none) × NodupKeys d

-- `bool(d)` of a dictionary.
abbrev pub is_filled : Dict → Bool
is_filled empty = false
is_filled (entry _ _ _) = true

-- `bool(v)`.
unfoldable pub truthy : Value → Bool
truthy null = false
truthy (bool b) = b
truthy (num n) = not (num_eq n 0)
truthy (str s) = nonempty s
truthy (arr nil) = false
truthy (arr (cons _ _)) = true
truthy (obj d) = is_filled d

-- `d.get(k, default)`.
unfoldable pub get_or : String → Value → Dict → Value
unfolding get
get_or k default d = elim (get k d) [ none ↦ default | some v ↦ v ]

-- `v is not None`.
abbrev pub is_null : Value → Bool
is_null null = true
is_null _ = false

-- `isinstance(v, dict)`.
abbrev pub as_dict : Value → Option Dict
as_dict (obj d) = some d
as_dict _ = none

-- `v if isinstance(v, list) else []`.
unfoldable pub list_or_empty : Value → List Value
list_or_empty (arr vs) = items vs
list_or_empty _ = []

-- `d or None` for a dictionary, as the routes pass their query parameters.
unfoldable pub or_none : Dict → Option Dict
or_none d = if is_filled d then some d else none

-- An optional text as a value.
abbrev pub opt_str : Option String → Value
opt_str none = null
opt_str (some s) = str s
