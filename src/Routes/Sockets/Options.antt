-- ===== src/Routes/Sockets/Options.antt =====
-- The arguments with which the handlers open LXD's WebSocket (`connect_kwargs` in routes/instances.py
-- and routes/operations.py); the library that takes them is not modelled.
use lxd_management_api.Base.{
  String, ◌==◌, Bool, false, not, ◌&&◌, Option, none, some, if◌then◌else◌,
}
use lxd_management_api.Base.Text.{nonempty}
use lxd_management_api.Config.{Settings, is_local_mode}
use lxd_management_api.Client.Transport.{client_cert}

-- A field is `none` where the handler does not pass the argument.
pub record Connection : Type 0 where
  pub uri : String
  pub unix : Option Bool
  pub cert : Option (String × String)
  pub verify_ssl : Option Bool

-- In remote mode.
unfoldable pub remote_connection : Settings → String → Connection
unfolding client_cert
remote_connection s url = record {
  uri = url;
  unix = none;
  cert = client_cert s;
  verify_ssl = some (nonempty s.lxd_trusted_ca_path && not (s.lxd_trusted_ca_path == ""));
}

-- `_proxy_exec_ws`.
unfoldable pub exec_connection : Settings → String → Connection
unfolding is_local_mode remote_connection
exec_connection s url =
    if is_local_mode s
    then record { uri = url; unix = some false; cert = none; verify_ssl = none }
    else remote_connection s url

-- `operations_ws`.
unfoldable pub events_connection : Settings → String → Connection
unfolding is_local_mode remote_connection
events_connection s url =
    if is_local_mode s
    then record { uri = url; unix = none; cert = none; verify_ssl = none }
    else remote_connection s url
