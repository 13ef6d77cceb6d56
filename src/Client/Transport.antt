-- ===== src/Client/Transport.antt =====
-- The HTTP client object of `LXDClient`: how it is built for each connection mode, its cache, and
-- the singleton. Whether a file exists is a parameter; the HTTP library itself is not modelled.
use lxd_management_api.Base.{ℕ, String, Bool, ◌&&◌, Option, none, some, if◌then◌else◌}
use lxd_management_api.Base.Text.{nonempty}
use lxd_management_api.Config.{local, remote, Settings}

-- `httpx.AsyncHTTPTransport(...)`: over a Unix socket, or with no arguments.
pub data HttpTransport : Type 0 where
  uds : String → HttpTransport
  plain : HttpTransport

-- The `verify` argument: left out, a context for a CA file, or `False`.
pub data Verify : Type 0 where
  default off : Verify
  ca_file : String → Verify

-- The arguments of `httpx.AsyncClient(...)`.
pub record HttpClient : Type 0 where
  pub base_url : String
  pub transport : HttpTransport
  pub cert : Option (String × String)
  pub verify : Verify
  pub timeout : ℕ

-- `_build_transport`; the warning that it logs is left out.
unfoldable pub build_transport : Settings → HttpTransport
build_transport s = elim s.lxd_connection_mode [ local ↦ uds s.lxd_socket_path | remote ↦ plain ]

-- The `cert` argument in remote mode.
unfoldable pub client_cert : Settings → Option (String × String)
client_cert s =
    if nonempty s.lxd_client_cert_path && nonempty s.lxd_client_key_path
    then some (s.lxd_client_cert_path, s.lxd_client_key_path)
    else none

-- The `verify` argument in remote mode.
remote_verify : (String → Bool) → Settings → Verify
remote_verify exists s =
    if nonempty s.lxd_trusted_ca_path && exists s.lxd_trusted_ca_path
    then ca_file s.lxd_trusted_ca_path
    else off

module _ (exists : String → Bool) (s : Settings) where
  -- `_build_client`.
  unfoldable pub build_client : HttpClient
  unfolding build_transport client_cert remote_verify
  build_client = elim s.lxd_connection_mode [
    | local ↦ record {
      base_url = "http://unix";
      transport = build_transport s;
      cert = none;
      verify = default;
      timeout = s.lxd_timeout;
    }
    | remote ↦ record {
      base_url = s.lxd_remote_url;
      transport = build_transport s;
      cert = client_cert s;
      verify = remote_verify exists s;
      timeout = s.lxd_timeout;
    }
  ]

  -- The property `client`, over the cached `_client`: the client, and the cache afterwards.
  unfoldable pub client : Option HttpClient → HttpClient × Option HttpClient
  unfolding build_client
  client none = (build_client, some build_client)
  client (some c) = (c, some c)

-- `aclose`: the clients that are closed, and the cache afterwards.
unfoldable pub aclose : Option HttpClient → Option HttpClient × Option HttpClient
aclose none = (none, none)
aclose (some c) = (some c, none)

-- `get_lxd_client`: an `LXDClient` is its cache, empty when constructed.
unfoldable pub get_lxd_client :
    Option (Option HttpClient) → Option HttpClient × Option (Option HttpClient)
get_lxd_client none = (none, some none)
get_lxd_client (some lxd) = (lxd, some lxd)
