-- ===== src/Routes/Sockets.antt =====
-- The WebSocket handlers `exec_ws` and `console_ws` of routes/instances.py and `operations_ws` of
-- routes/operations.py, up to the connection to LXD's socket; the relay that follows is
-- Routes/Relay.
pub mod Options
pub mod Laws
pub mod Access
pub mod Runs
use lxd_management_api.Base.{
  ℕ, String, ◌<>◌, true, Option, none, some, List, [], ◌∷◌, if◌then◌else◌,
}
use lxd_management_api.Base.Text.{nonempty}
use lxd_management_api.Json.{
  Value, null, bool, num, str, arr, obj, Values, nil, cons, Dict, empty, entry, get_or, truthy,
}
use lxd_management_api.Error.{Exn, http, type_error, Result, ok, err}
use lxd_management_api.App.{M, Log}
use lxd_management_api.Client
use lxd_management_api.Client.{with_body, ws_url}
use lxd_management_api.Operation.{to_text}
use lxd_management_api.Security.{Role, viewer, operator, at_least, role_or_viewer}
use lxd_management_api.Users.{User}
use lxd_management_api.Deps.{Auth, ws_user_from_token}
use lxd_management_api.Routes.Common.{Api}
use lxd_management_api.Routes.Sockets.Options.{Connection, exec_connection, events_connection}

-- How a handler ends: closed with a code before it accepts, an exception, accepted and closed with
-- code 1011 after a text, or accepted and connected to LXD.
pub data Session : Type 0 where
  closed : ℕ → Session
  escaped : Exn → Session
  failed : String → Session
  relayed : Connection → Session

module _ (auth : Auth) where
  open auth use {users}

  -- The end of the admission, from the user of the token.
  unfoldable pub admit_user : Role → Result User → Option Session
  unfolding at_least role_or_viewer
  admit_user role (ok user) =
      if at_least (role_or_viewer user.role) role then none else some (closed 4403)
  admit_user role (err (http status detail)) = some (closed 4401)
  admit_user role (err e) = some (escaped e)

  -- The part before `accept`, the same in the three handlers but for the role; `none` lets the caller in.
  unfoldable pub admit : Role → ℕ → users.State → Option String → Option Session
  unfolding admit_user ws_user_from_token
  admit role now db none = some (closed 4401)
  admit role now db (some token) =
      if nonempty token
      then admit_user role (ws_user_from_token auth now db token)
      else some (closed 4401)

-- `v.get(key)` of a dynamic value that is a dictionary, and `null` of any other.
abbrev pub member : String → Value → Value
member key (obj d) = get_or key null d
member key _ = null

-- `{"project": project} if project else None`.
unfoldable pub socket_params : Option String → Option Dict
socket_params none = none
socket_params (some project) =
    if nonempty project then some (entry "project" (str project) empty) else none

-- `data_secret` of `exec_ws`. Its second attempt reads the same place again.
unfoldable pub exec_secret : Dict → Value
unfolding get_or
exec_secret op_dict = member "1" (member "metadata" (get_or "metadata" null op_dict))

-- `secret` of `console_ws`.
unfoldable pub console_secret : Dict → Value
unfolding get_or truthy
console_secret op_dict =
    let inner = member "metadata" (get_or "metadata" null op_dict) in
    if truthy (member "0" inner) then member "0" inner else member "console" inner

module _ (api : Api) (quote : String → String) where
  open api use {lxd, repr}

  -- `_proxy_exec_ws` up to the connection; `quote` raises for a secret that is no text.
  unfoldable pub proxy_exec_ws : Value → Value → Session
  unfolding truthy to_text ws_url exec_connection
  proxy_exec_ws op_id (str secret) =
      if nonempty secret
      then relayed (
          exec_connection lxd.settings
            (ws_url lxd quote ("operations/" <> to_text repr op_id <> "/websocket") (some secret)))
      else failed "no exec data secret returned by LXD"
  proxy_exec_ws op_id secret =
      if truthy secret then escaped type_error else failed "no exec data secret returned by LXD"

  -- `op if isinstance(op, dict) else {"id": str(op)}`.
  unfoldable pub op_dict_of : Value → Dict
  unfolding to_text
  op_dict_of (obj d) = d
  op_dict_of op = entry "id" (str (to_text repr op)) empty

  -- The part after the request to LXD.
  unfoldable pub attached : String → (Dict → Value) → Result Value → Session
  unfolding proxy_exec_ws op_dict_of get_or
  attached text secret (ok op) =
      proxy_exec_ws (get_or "id" (str "") (op_dict_of op)) (secret (op_dict_of op))
  attached text secret (err (Exn.lxd exc)) = failed (text <> exc.message)
  attached text secret (err e) = escaped e

  -- The handler after `accept`: one request, and the session that follows.
  unfoldable pub opened : String → (Dict → Value) → M Value → Log → Session × Log
  unfolding attached
  opened text secret call log = let p = call log in (attached text secret p.0, p.1)

  -- `exec_body`.
  abbrev pub exec_body : String → Value
  exec_body command = obj (
      entry "command" (arr (cons (str command) nil)) (
        entry "environment" (obj (entry "TERM" (str "xterm-256color") empty)) (
          entry "interactive" (bool true)
            (entry "width" (num 80) (entry "height" (num 24) empty)))))

  -- `exec_ws` after `accept`; the parameter `command` is `/bin/sh` where it is missing.
  unfoldable pub exec_opened : String → Option String → Option String → Log → Session × Log
  unfolding opened exec_secret Client.post socket_params
  exec_opened name command project =
      let given : String = elim command [ none ↦ "/bin/sh" | some c ↦ c ] in
      opened "exec failed: " exec_secret (
        Client.post lxd ("instances/" <> name <> "/exec")
          (with_body (exec_body given) (socket_params project)))

  -- `console_ws` after `accept`; the parameter `type` is `console` where it is missing.
  unfoldable pub console_opened : String → String → Option String → Log → Session × Log
  unfolding opened console_secret Client.post socket_params
  console_opened name type project = opened "console attach failed: " console_secret (
      Client.post lxd ("instances/" <> name <> "/console") (
        with_body
          (obj (entry "type" (str type) (entry "width" (num 80) (entry "height" (num 24) empty))))
          (socket_params project)))

  -- `operations_ws` after `accept`, which makes no request to LXD's API.
  unfoldable pub events_opened : Log → Session × Log
  unfolding ws_url events_connection
  events_opened log = (
    relayed (events_connection lxd.settings (ws_url lxd quote "events" none <> "&type=operation")),
    log,
  )

  module _ (auth : Auth) (now : ℕ) (db : auth.users.State) (token : Option String) where
    -- The two parts in a row.
    unfoldable pub session : Role → (Log → Session × Log) → Log → Session × Log
    unfolding admit
    session role body log = elim (admit auth role now db token) [
      | none ↦ body log
      | some s ↦ (s, log)
    ]

    -- `exec_ws`.
    unfoldable pub exec_ws : String → Option String → Option String → Log → Session × Log
    unfolding session exec_opened
    exec_ws name command project = session operator (exec_opened name command project)

    -- `console_ws`.
    unfoldable pub console_ws : String → String → Option String → Log → Session × Log
    unfolding session console_opened
    console_ws name type project = session operator (console_opened name type project)

    -- `operations_ws`.
    unfoldable pub operations_ws : Log → Session × Log
    unfolding session events_opened
    operations_ws = session viewer events_opened
