-- ===== src/Tests/Fixtures.antt =====
-- The data of the tests: settings, accounts, a token library with the two tokens of one login, a
-- password hash, and an LXD that knows one instance and one operation.
use lxd_management_api.Base.{
  ℕ, leb, ◌≤◌, ◌<◌, String, ◌<>◌, ◌==◌, eq_refl, ◌≡◌, refl, ap, true, Option, none, some, List, [],
  ◌∷◌, arith, if◌then◌else◌,
}
use lxd_management_api.Json.{Value, num, str, obj, Dict, empty, entry, get, put}
use lxd_management_api.Config.{local, Settings}
use lxd_management_api.App.{Response, failure, answer}
use lxd_management_api.Client.{sync, LxdResponse, Lxd}
use lxd_management_api.Security.{
  Jwt, IsLawfulJwt, token_payload, Decoded, claims, jwt_error, Crypt, IsLawfulCrypt,
}
use lxd_management_api.Security.Laws.{access_claims, refresh_claims}
use lxd_management_api.Users.{User}
use lxd_management_api.Users.Table.{table}
use lxd_management_api.Deps.{Auth}
use lxd_management_api.Routes.Common.{Api}

abbrev pub test_settings : Settings
test_settings = record {
  cors_origins = "*";
  lxd_connection_mode = local;
  lxd_socket_path = "/var/snap/lxd/common/lxd/unix.socket";
  lxd_remote_url = "https://127.0.0.1:8443";
  lxd_client_cert_path = "";
  lxd_client_key_path = "";
  lxd_trusted_ca_path = "";
  lxd_timeout = 30;
  jwt_secret = "secret";
  jwt_access_token_expire_minutes = 30;
  jwt_refresh_token_expire_days = 7;
  seed_admin_username = "root";
  seed_admin_password = "admin";
}

abbrev pub account : ℕ → String → String → User
account n name role = record {
  id = n;
  username = name;
  hashed_password = "hash:" <> name;
  role = role;
  is_active = true;
  created_at = 0;
}

-- A viewer, an operator and an administrator.
abbrev pub bob : User
bob = account 1 "bob" "viewer"

abbrev pub alice : User
alice = account 2 "alice" "operator"

abbrev pub carol : User
carol = account 3 "carol" "admin"

abbrev pub accounts : List User
accounts = carol ∷ (alice ∷ (bob ∷ []))

abbrev pub test_crypt : Crypt
test_crypt = record {
  refuses = λ plain. if plain == "null" then some "no hash" else none;
  hash = λ salt plain. "hash:" <> plain;
  verify = λ plain hashed. some ("hash:" <> plain == hashed);
}

pub test_crypt-IsLawful : IsLawfulCrypt test_crypt
test_crypt-IsLawful = record { verify-hash = λ salt plain h. ap some (eq_refl ("hash:" <> plain)) }

abbrev pub alice_access : Dict
alice_access = access_claims test_settings 0 "alice" "operator"

abbrev pub alice_refresh : Dict
alice_refresh = refresh_claims test_settings 0 "alice"

abbrev token_of : Option Value → String
token_of (some (str type)) = type <> "-token"
token_of _ = "token"

abbrev until : ℕ → ℕ → Dict → Decoded
until now exp c = if leb now exp then claims c else jwt_error "Signature has expired."

-- A library that knows the two tokens of a login of alice at time 0.
abbrev pub test_jwt : Jwt
test_jwt = record {
  encode = λ c secret. token_of (get "type" c);
  decode = λ now token secret.
      if token == "access-token"
      then until now 1800 alice_access
      else if token == "refresh-token"
      then until now 604800 alice_refresh
      else jwt_error "Not enough segments";
}

num-injective : {m n : ℕ} → some (num m) ≡ some (num n) → m ≡ n
num-injective h = cc

until_open : (now exp : ℕ) (c : Dict) → now ≤ exp → until now exp c ≡ claims c
until_open now exp c h = ground arith

until_closed :
    (now exp : ℕ) (c : Dict) → exp < now → until now exp c ≡ jwt_error "Signature has expired."
until_closed now exp c h = ground arith

pub access_token-IsLawful : IsLawfulJwt test_jwt alice_access "secret"
unfolding get put token_payload
access_token-IsLawful = record {
  encode_filled = refl;
  decode-encode = λ now exp g h.
      let e : 1800 ≡ exp = num-injective g in until_open now 1800 alice_access (omega arith);
  decode_expired = λ now exp g h.
      let e : 1800 ≡ exp = num-injective g in
      ("Signature has expired.", until_closed now 1800 alice_access (omega arith));
}

pub refresh_token-IsLawful : IsLawfulJwt test_jwt alice_refresh "secret"
unfolding get put token_payload
refresh_token-IsLawful = record {
  encode_filled = refl;
  decode-encode = λ now exp g h.
      let e : 604800 ≡ exp = num-injective g in until_open now 604800 alice_refresh (omega arith);
  decode_expired = λ now exp g h.
      let e : 604800 ≡ exp = num-injective g in
      ("Signature has expired.", until_closed now 604800 alice_refresh (omega arith));
}

abbrev pub reply : String → Response
reply text = record { status_code = 200; content = 1 ∷ []; text = text }

abbrev pub test_auth : Auth
test_auth = record { settings = test_settings; jwt = test_jwt; users = table; repr = λ v. "..." }

abbrev envelope : Value → LxdResponse
envelope metadata = record {
  type = sync;
  status = some "Success";
  status_code = some 200;
  operation = none;
  metadata = metadata;
  error = none;
  error_code = none;
}

abbrev pub root_disk : Value
root_disk = obj (entry "type" (str "disk") empty)

abbrev pub web_devices : Dict
web_devices = entry "root" root_disk empty

abbrev pub web : Value
web = obj (entry "name" (str "web") (entry "devices" (obj web_devices) empty))

abbrev pub failed : Dict
failed = entry "id" (str "op1") (entry "status" (str "Failure") empty)

abbrev pub succeeded : Dict
succeeded = entry "id" (str "op2") (entry "status" (str "Success") empty)

-- The operation of an interactive command, with its secrets.
abbrev pub exec_metadata : Dict
exec_metadata = entry "fds" (obj (entry "0" (str "s0") (entry "control" (str "s1") empty))) empty

abbrev pub exec_op : Dict
exec_op = entry "id" (str "op4") (entry "metadata" (obj exec_metadata) empty)

-- An LXD with an instance `web`, an operation `op1` that fails and `op2` that succeeds; it answers a
-- request for `/` with a text that is no envelope, and nothing else is reached.
abbrev pub test_lxd : Lxd
test_lxd = record {
  settings = test_settings;
  send = λ log r.
      if r.url == "/1.0/instances/web"
      then answer (reply "web")
      else if r.url == "/1.0/operations/op1/wait"
      then answer (reply "failed")
      else if r.url == "/1.0/operations/op2/wait"
      then answer (reply "succeeded")
      else if r.url == "/1.0/instances/web/exec"
      then answer (reply "exec")
      else if r.url == "/"
      then answer (reply "<html>")
      else failure "Connection refused";
  model_validate = λ r.
      if r.text == "web"
      then some (envelope web)
      else if r.text == "failed"
      then some (envelope (obj failed))
      else if r.text == "exec"
      then some (envelope (obj exec_op))
      else if r.text == "succeeded"
      then some (envelope (obj succeeded))
      else none;
}

-- An LXD that answers every request with one value.
abbrev pub answering : Value → Lxd
answering v = record test_lxd {
  send = λ log r. answer (reply "given");
  model_validate = λ r. some (envelope v);
}

abbrev pub test_api : Api
test_api = record { lxd = test_lxd; repr = λ v. "..."; dict_of = λ v. none }
