-- ===== src/Client/Params.antt =====
-- `LXDClient._build_params` (services/lxd_client.py): the query of a request to LXD.
use lxd_management_api.Base.{ℕ, String, Option, none, some, if◌then◌else◌}
use lxd_management_api.Base.Text.{nonempty}
use lxd_management_api.Json.{num, str, Dict, empty, put, update, is_filled}

-- `if value: params[key] = value`, for an optional text.
unfoldable pub given : String → Option String → Dict → Dict
given key none params = params
given key (some value) params = if nonempty value then put key (str value) params else params

-- `if recursion is not None: params["recursion"] = recursion`.
abbrev pub recursed : Option ℕ → Dict
recursed none = empty
recursed (some recursion) = put "recursion" (num recursion) empty

-- `if extra: params.update(extra)`.
abbrev pub extended : Dict → Option Dict → Dict
extended params none = params
extended params (some extra) = if is_filled extra then update params extra else params

unfoldable pub build_params : Option ℕ → Option String → Option String → Option Dict → Dict
unfolding given put update
build_params recursion filter project extra =
    extended (given "project" project (given "filter" filter (recursed recursion))) extra
