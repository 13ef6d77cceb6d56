-- ===== src/Client.antt =====
-- services/lxd_client.py and schemas/lxd.py: the request to LXD and the normalisation of its reply.
-- The HTTP transport, the JSON decoder and pydantic are outside the repository: they are the fields
-- `send` and `model_validate` of `Lxd`.
pub mod Transport
pub mod Params
pub mod Laws
use lxd_management_api.Base.{
  ℕ, num_eq, String, ◌<>◌, ◌==◌, starts_with, Bool, true, false, Option, none, some, List, [], ◌∷◌,
  if◌then◌else◌,
}
use lxd_management_api.Base.Text.{nonempty, prefix, replace, show}
use lxd_management_api.Json.{Value, null, str, obj, Dict, empty, entry, is_null, opt_str}
use lxd_management_api.Error.{
  LxdError, lxd_error, connection_error, lxd_error_for_status, lxd, invalid_url, Result, ok, err,
}
use lxd_management_api.Config.{Mode, local, remote, Settings}
use lxd_management_api.App.{Request, Response, Reply, failure, answer, bad_url, M, Log, lift, ◌>>=◌}

pub data ResponseType : Type 0 where
  sync async error : ResponseType

-- `LXDResponse`; a field that is left out reads `none`, or `null`.
pub record LxdResponse : Type 0 where
  pub type : ResponseType
  pub status : Option String
  pub status_code : Option ℕ
  pub operation : Option String
  pub metadata : Value
  pub error : Option String
  pub error_code : Option ℕ

-- An `LXDClient` with what it talks through. `model_validate r` is
-- `LXDResponse.model_validate(r.json())`, with `none` for any exception.
pub record Lxd : Type 0 where
  pub settings : Settings
  pub send : Log → Request → Reply
  pub model_validate : Response → Option LxdResponse

abbrev pub mode_name : Mode → String
mode_name local = "local"
mode_name remote = "remote"

abbrev pub api_prefix : String
api_prefix = "/1.0"

-- The keyword arguments of `request`.
pub record Kwargs : Type 0 where
  pub json_body : Value
  pub params : Option Dict
  pub content : Option (List ℕ)
  pub headers : Option Dict
  pub timeout : Option ℕ

abbrev pub no_kwargs : Kwargs
no_kwargs = record {
  json_body = null;
  params = none;
  content = none;
  headers = none;
  timeout = none;
}

abbrev pub with_params : Option Dict → Kwargs
with_params params = record no_kwargs { params = params }

abbrev pub with_body : Value → Option Dict → Kwargs
with_body body params = record no_kwargs { json_body = body; params = params }

-- `path if path.startswith("/") else f"{API_PREFIX}/{path}"`: the text handed to the HTTP client, which
-- resolves dot segments before it sends the request.
unfoldable pub url_of : String → String
url_of path = if starts_with path "/" then path else api_prefix <> "/" <> path

-- `x if x else default`, for an optional text and an optional number.
text_or : Option String → String → String
text_or none default = default
text_or (some s) default = if nonempty s then s else default

code_or : Option ℕ → ℕ → ℕ
code_or none default = default
code_or (some n) default = if num_eq n 0 then default else n

-- The part of `request` after the envelope has been parsed.
unfoldable pub of_envelope : ℕ → LxdResponse → Result Value
unfolding text_or code_or
of_envelope status_code envelope = elim envelope.type [
  | error ↦ err (
      lxd (
        lxd_error_for_status (text_or envelope.error "LXD error")
          (code_or envelope.error_code status_code)))
  | async ↦
      if is_null envelope.metadata
      then ok (
          obj (
            entry "operation" (opt_str envelope.operation)
              (entry "status" (opt_str envelope.status) empty)))
      else ok envelope.metadata
  | sync ↦ ok envelope.metadata
]

-- The error for a reply that is no envelope.
unfoldable pub non_json : Response → LxdError
non_json response = record {
  class = lxd_error;
  message =
      "LXD returned a non-JSON response (HTTP "
      <> show response.status_code
      <> "): "
      <> prefix 200 response.text;
  status_code = response.status_code;
}

-- The base of a WebSocket URL.
ws_base : Settings → String
unfolding replace
ws_base settings = elim settings.lxd_connection_mode [
  | remote ↦ replace "http://" "ws://" (replace "https://" "wss://" settings.lxd_remote_url)
  | local ↦ "http://unix"
]

-- The secret as the query of a WebSocket URL.
with_secret : (String → String) → String → Option String → String
with_secret quote full none = full
with_secret quote full (some secret) =
    if nonempty secret then full <> "?secret=" <> quote secret else full

module _ (client : Lxd) where
  -- The request that is handed to the HTTP client.
  unfoldable pub prepared : String → String → Kwargs → Request
  unfolding url_of
  prepared method path kwargs = record {
    method = method;
    url = url_of path;
    json_body = kwargs.json_body;
    params = kwargs.params;
    content = kwargs.content;
    headers = kwargs.headers;
    timeout = elim kwargs.timeout [ none ↦ client.settings.lxd_timeout | some t ↦ t ];
  }

  -- The error for an `httpx.HTTPError`.
  unfoldable pub unreachable : String → LxdError
  unreachable exc = record {
    class = connection_error;
    message =
        "Cannot reach LXD (" <> mode_name client.settings.lxd_connection_mode <> " mode): " <> exc;
    status_code = 0;
  }

  unfoldable pub received : Reply → Result Response
  unfolding unreachable
  received (failure exc) = err (lxd (unreachable exc))
  received (answer response) = ok response
  received (bad_url exc) = err (invalid_url exc)

  -- `request` up to the receipt of the reply.
  unfoldable pub exchange : String → String → Kwargs → M Response
  unfolding prepared received
  exchange method path kwargs log =
      let sent = prepared method path kwargs in (received (client.send log sent), sent ∷ log)

  -- `request` from the test of `response.content` on.
  unfoldable pub normalize : Response → Result Value
  unfolding of_envelope non_json
  normalize response = elim response.content [
    | [] ↦ ok null
    | _ ↦ elim (client.model_validate response) [
      | none ↦ err (lxd (non_json response))
      | some envelope ↦ of_envelope response.status_code envelope
    ]
  ]

  -- `request` with `raw_response=True`.
  unfoldable pub request_raw : String → String → Kwargs → M Response
  unfolding exchange
  request_raw method path kwargs = exchange method path kwargs

  -- `request` with `raw_response=False`.
  unfoldable pub request : String → String → Kwargs → M Value
  unfolding exchange normalize ◌>>=◌ lift
  request method path kwargs = do response ← exchange method path kwargs; lift (normalize response)

  unfoldable pub get : String → Kwargs → M Value
  unfolding request
  get path kwargs = request "GET" path kwargs

  unfoldable pub post : String → Kwargs → M Value
  unfolding request
  post path kwargs = request "POST" path kwargs

  unfoldable pub put : String → Kwargs → M Value
  unfolding request
  put path kwargs = request "PUT" path kwargs

  unfoldable pub patch : String → Kwargs → M Value
  unfolding request
  patch path kwargs = request "PATCH" path kwargs

  unfoldable pub delete : String → Kwargs → M Value
  unfolding request
  delete path kwargs = request "DELETE" path kwargs

  -- `ws_url`; `quote` is `urllib.parse.quote(·, safe="")`.
  unfoldable pub ws_url : (String → String) → String → Option String → String
  unfolding url_of with_secret ws_base
  ws_url quote path secret = with_secret quote (ws_base client.settings <> url_of path) secret
