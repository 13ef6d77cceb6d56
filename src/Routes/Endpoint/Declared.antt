-- ===== src/Routes/Endpoint/Declared.antt =====
-- What the routes of api/v1/routes/*.py declare: the role that each requires, the status with
-- which it succeeds, and the type of what it returns.
use lxd_management_api.Base.{ℕ, Bool, true, false}
use lxd_management_api.Json.{str, obj, Dict, empty, entry}
use lxd_management_api.Security.{Role, viewer, operator, admin}
use lxd_management_api.Routes.Endpoint.{Endpoint, Answer, json, stream}

-- The role that the route declares, as the documentation of each module lists it.
unfoldable pub required : Endpoint → Role
required (Endpoint.list_instances _ _ _ _ _) = viewer
required (Endpoint.create_instance _ _) = admin
required (Endpoint.get_instance _ _) = viewer
required (Endpoint.replace_instance _ _ _) = admin
required (Endpoint.patch_instance _ _ _) = admin
required (Endpoint.delete_instance _ _ _) = admin
required (Endpoint.get_instance_state _ _) = viewer
required (Endpoint.set_instance_state _ _ _ _) = operator
required (Endpoint.list_instance_logs _ _) = viewer
required (Endpoint.get_instance_log _ _ _) = viewer
required (Endpoint.exec_instance _ _ _) = operator
required (Endpoint.list_snapshots _ _ _) = viewer
required (Endpoint.create_snapshot _ _ _ _) = operator
required (Endpoint.get_snapshot _ _ _) = viewer
required (Endpoint.rename_snapshot _ _ _ _) = operator
required (Endpoint.delete_snapshot _ _ _) = operator
required (Endpoint.restore_snapshot _ _ _ _) = operator
required (Endpoint.list_backups _ _ _) = viewer
required (Endpoint.create_backup _ _ _ _) = operator
required (Endpoint.get_backup _ _ _) = viewer
required (Endpoint.delete_backup _ _ _) = operator
required (Endpoint.export_backup _ _ _) = operator
required (Endpoint.list_pools _ _ _) = viewer
required (Endpoint.create_pool _ _) = admin
required (Endpoint.get_pool _ _) = viewer
required (Endpoint.update_pool _ _ _) = admin
required (Endpoint.patch_pool _ _ _) = admin
required (Endpoint.delete_pool _ _) = admin
required (Endpoint.list_volumes _ _ _ _ _) = viewer
required (Endpoint.create_volume _ _ _) = admin
required (Endpoint.get_volume _ _ _ _) = viewer
required (Endpoint.update_volume _ _ _ _ _) = admin
required (Endpoint.patch_volume _ _ _ _ _) = admin
required (Endpoint.delete_volume _ _ _ _) = admin
required (Endpoint.attach_volume _ _ _ _) = operator
required (Endpoint.detach_volume _ _ _ _) = operator
required (Endpoint.list_networks _ _ _) = viewer
required (Endpoint.create_network _ _) = admin
required (Endpoint.get_network _ _) = viewer
required (Endpoint.update_network _ _ _) = admin
required (Endpoint.patch_network _ _ _) = admin
required (Endpoint.delete_network _ _) = admin
required (Endpoint.get_network_state _ _) = viewer
required (Endpoint.attach_nic _ _ _ _ _) = operator
required (Endpoint.detach_nic _ _ _ _) = operator
required (Endpoint.list_projects _ _) = viewer
required (Endpoint.create_project _) = admin
required (Endpoint.get_project _) = viewer
required (Endpoint.update_project _ _) = admin
required (Endpoint.patch_project _ _) = admin
required (Endpoint.delete_project _) = admin
required (Endpoint.list_images _ _ _ _) = viewer
required (Endpoint.get_image _ _) = viewer
required (Endpoint.delete_image _ _) = admin
required (Endpoint.create_image _ _) = admin
required (Endpoint.create_alias _ _) = admin
required (Endpoint.delete_alias _) = admin
required (Endpoint.list_operations _ _) = viewer
required (Endpoint.get_operation _ _) = viewer
required (Endpoint.cancel_operation _ _) = operator
required (Endpoint.wait_operation _ _ _) = viewer
required (Endpoint.server_info _) = viewer
required (Endpoint.host_resources _) = viewer
required (Endpoint.pool_resources _ _) = viewer

-- The status that the decorator of a route declares for success.
unfoldable pub success_status : Endpoint → ℕ
success_status (Endpoint.create_instance _ _) = 202
success_status (Endpoint.replace_instance _ _ _) = 202
success_status (Endpoint.patch_instance _ _ _) = 202
success_status (Endpoint.delete_instance _ _ _) = 202
success_status (Endpoint.set_instance_state _ _ _ _) = 202
success_status (Endpoint.exec_instance _ _ _) = 202
success_status (Endpoint.create_snapshot _ _ _ _) = 202
success_status (Endpoint.rename_snapshot _ _ _ _) = 202
success_status (Endpoint.delete_snapshot _ _ _) = 202
success_status (Endpoint.restore_snapshot _ _ _ _) = 202
success_status (Endpoint.create_backup _ _ _ _) = 202
success_status (Endpoint.delete_backup _ _ _) = 202
success_status (Endpoint.create_pool _ _) = 202
success_status (Endpoint.update_pool _ _ _) = 202
success_status (Endpoint.patch_pool _ _ _) = 202
success_status (Endpoint.delete_pool _ _) = 202
success_status (Endpoint.create_volume _ _ _) = 202
success_status (Endpoint.update_volume _ _ _ _ _) = 202
success_status (Endpoint.patch_volume _ _ _ _ _) = 202
success_status (Endpoint.delete_volume _ _ _ _) = 202
success_status (Endpoint.attach_volume _ _ _ _) = 202
success_status (Endpoint.detach_volume _ _ _ _) = 202
success_status (Endpoint.create_network _ _) = 202
success_status (Endpoint.update_network _ _ _) = 202
success_status (Endpoint.patch_network _ _ _) = 202
success_status (Endpoint.delete_network _ _) = 202
success_status (Endpoint.attach_nic _ _ _ _ _) = 202
success_status (Endpoint.detach_nic _ _ _ _) = 202
success_status (Endpoint.create_project _) = 202
success_status (Endpoint.update_project _ _) = 202
success_status (Endpoint.patch_project _ _) = 202
success_status (Endpoint.delete_project _) = 202
success_status (Endpoint.delete_image _ _) = 202
success_status (Endpoint.create_image _ _) = 202
success_status (Endpoint.create_alias _ _) = 201
success_status (Endpoint.delete_alias _) = 202
success_status (Endpoint.cancel_operation _ _) = 202
success_status _ = 200

-- The type that a handler declares for what it returns: `Any`, `dict[str, Any]`, `dict[str, str]`, or
-- `StreamingResponse`.
pub data ReturnType : Type 0 where
  any dict_of_any dict_of_str streaming : ReturnType

unfoldable pub returns : Endpoint → ReturnType
returns (Endpoint.list_instance_logs _ _) = any
returns (Endpoint.get_instance_log _ _ _) = streaming
returns (Endpoint.get_snapshot _ _ _) = any
returns (Endpoint.get_backup _ _ _) = any
returns (Endpoint.export_backup _ _ _) = streaming
returns (Endpoint.get_pool _ _) = any
returns (Endpoint.get_volume _ _ _ _) = any
returns (Endpoint.get_network _ _) = any
returns (Endpoint.get_network_state _ _) = any
returns (Endpoint.get_project _) = any
returns (Endpoint.get_image _ _) = any
returns (Endpoint.create_alias _ _) = any
returns (Endpoint.get_operation _ _) = any
returns (Endpoint.cancel_operation _ _) = dict_of_str
returns (Endpoint.wait_operation _ _ _) = any
returns (Endpoint.server_info _) = any
returns (Endpoint.host_resources _) = any
returns (Endpoint.pool_resources _ _) = any
returns _ = dict_of_any

are_texts : Dict → Bool
are_texts empty = true
are_texts (entry k (str s) d) = are_texts d
are_texts (entry k v d) = false

-- What those types say of a value.
unfoldable pub fits : ReturnType → Answer → Bool
unfolding are_texts
fits any a = true
fits dict_of_any (json (obj d)) = true
fits dict_of_any _ = false
fits dict_of_str (json (obj d)) = are_texts d
fits dict_of_str _ = false
fits streaming (stream s) = true
fits streaming _ = false

-- The handlers that declare a dictionary and return what LXD gave them, whatever that is.
unfoldable pub passes_on : Endpoint → Bool
passes_on (Endpoint.get_instance _ _) = true
passes_on (Endpoint.get_instance_state _ _) = true
passes_on _ = false
