-- ===== src/Routes/Endpoint/Shapes.antt =====
-- What the endpoints answer with when they succeed: a page, a reference to an operation, a message,
-- bytes, or what LXD gave.
use lxd_management_api.Base.{String, ◌≡◌, true, some, List, length, take, drop, ltb}
use lxd_management_api.Base.Text.{all_chars}
use lxd_management_api.Json.{num, str, arr, obj, array, Value, Dict, empty, entry, get}
use lxd_management_api.Pagination.{PageParams}
use lxd_management_api.Routes.Endpoint.{Endpoint, Answer, json, stream}

pub data Shape : Type 0 where
  page : PageParams → Shape
  operation message bytes given : Shape

unfoldable pub shape_of : Endpoint → Shape
shape_of (Endpoint.list_instances _ _ params _ _) = page params
shape_of (Endpoint.get_instance _ _) = given
shape_of (Endpoint.get_instance_state _ _) = given
shape_of (Endpoint.list_instance_logs _ _) = given
shape_of (Endpoint.get_instance_log _ _ _) = bytes
shape_of (Endpoint.list_snapshots _ _ params) = page params
shape_of (Endpoint.get_snapshot _ _ _) = given
shape_of (Endpoint.list_backups _ _ params) = page params
shape_of (Endpoint.get_backup _ _ _) = given
shape_of (Endpoint.export_backup _ _ _) = bytes
shape_of (Endpoint.list_pools _ params _) = page params
shape_of (Endpoint.get_pool _ _) = given
shape_of (Endpoint.list_volumes _ _ _ params _) = page params
shape_of (Endpoint.get_volume _ _ _ _) = given
shape_of (Endpoint.list_networks _ params _) = page params
shape_of (Endpoint.get_network _ _) = given
shape_of (Endpoint.get_network_state _ _) = given
shape_of (Endpoint.list_projects params _) = page params
shape_of (Endpoint.get_project _) = given
shape_of (Endpoint.list_images _ params _ _) = page params
shape_of (Endpoint.get_image _ _) = given
shape_of (Endpoint.create_alias _ _) = given
shape_of (Endpoint.list_operations _ params) = page params
shape_of (Endpoint.get_operation _ _) = given
shape_of (Endpoint.cancel_operation _ _) = message
shape_of (Endpoint.wait_operation _ _ _) = given
shape_of (Endpoint.server_info _) = given
shape_of (Endpoint.host_resources _) = given
shape_of (Endpoint.pool_resources _ _) = given
shape_of _ = operation

-- A page of a list: the items from `offset` on, at most `limit` of them, the parameters of the request,
-- and the length of the whole list.
pub record IsPage (params : PageParams) (d : Dict) : Type 0 where
  pub whole : List Value
  pub listed : get "items" d ≡ some (arr (array (take params.limit (drop params.offset whole))))
  pub counted : get "total" d ≡ some (num (length whole))
  pub at_limit : get "limit" d ≡ some (num params.limit)
  pub at_offset : get "offset" d ≡ some (num params.offset)

-- A dictionary that names an operation and its status.
pub record IsOperation (d : Dict) : Type 0 where
  pub id : String
  pub named : get "operation_id" d ≡ some (str id)
  pub status : String
  pub has_status : get "status" d ≡ some (str status)

-- A dictionary that holds one text.
pub record IsMessage (d : Dict) : Type 0 where
  pub text : String
  pub same : d ≡ entry "message" (str text) empty

abbrev pub HasShape : Shape → Answer → Type 0
HasShape (page params) (json (obj d)) = IsPage params d
HasShape operation (json (obj d)) = IsOperation d
HasShape message (json (obj d)) = IsMessage d
HasShape bytes (stream s) = all_chars (λ c. ltb c 256) s.disposition ≡ true
HasShape given (json v) = Unit
HasShape _ _ = ⊥
