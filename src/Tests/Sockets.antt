-- ===== src/Tests/Sockets.antt =====
-- WebSockets of alice, an operator.
use lxd_management_api.Base.{ℕ, zero, suc, String, ◌<>◌, ◌⊎◌, ◌≡◌, refl, none, some, []}
use lxd_management_api.Json.{get}
use lxd_management_api.Client
use lxd_management_api.Client.{prepared, normalize, request}
use lxd_management_api.Security.{token_payload}
use lxd_management_api.Deps.{ws_user_from_token}
use lxd_management_api.Routes.Sockets.{
  Session, admit, session, exec_ws, operations_ws, events_opened, failed,
}
use lxd_management_api.Routes.Sockets.Laws.{HasRole, exec_ws_no_secret}
use lxd_management_api.Routes.Sockets.Access.{events, socket_role, open_socket}
use lxd_management_api.Routes.Sockets.Runs.{
  client_task, error_text, Run, connected, typed_frames, IsTurnedAwayWith, socket_run-HasRole,
}
use lxd_management_api.App.{Log}
use lxd_management_api.Routes.Relay.{
  Message, text, message, Arrived, frame, Relay, opening, watch_client, lxd_to_client, Sockets,
  client, lxd, Steps, start,
}
use lxd_management_api.Tests.Fixtures.{accounts, test_auth, test_api, exec_metadata, exec_op}

abbrev quote : String → String
quote s = s

abbrev dumps : String → String
dumps e = "{\"error\": \"" <> e <> "\"}"

-- Two frames of LXD on the socket for events, with the text of a client between them that goes nowhere.
abbrev typed : Message
typed = record { type = "websocket.receive"; text = some "ls"; bytes = none }

abbrev going : ℕ → Arrived
going zero = frame (text "started")
going (suc j) = frame (text "stopped")

abbrev sockets : Sockets
sockets = record {
  client = λ i. message typed;
  send_up = λ i. none;
  lxd = going;
  send_down = λ j. none;
}

abbrev listening : Relay
listening =
    lxd_to_client (frame (text "stopped")) none
      (watch_client (message typed) none (lxd_to_client (frame (text "started")) none opening))

listening-Steps : Steps watch_client dumps sockets 1 2 listening
unfolding watch_client lxd_to_client
listening-Steps = lxd (client (lxd start refl tt) refl) refl tt

abbrev events_session : Session × Log
events_session = open_socket test_api quote test_auth 10 accounts (some "access-token") events []

events_run : Run dumps events sockets events_session.0 1 listening
unfolding open_socket operations_ws session admit ws_user_from_token token_payload events_opened
    client_task error_text
events_run = connected _ 1 2 listening listening-Steps

socket_run-HasRole_example :
    (listening.to_lxd ≡ typed_frames events sockets 1)
    × (HasRole test_auth 10 accounts (socket_role events) (some "access-token")
        ⊎ ((events_session.1 ≡ [])
            × (IsTurnedAwayWith 4401 listening ⊎ IsTurnedAwayWith 4403 listening)))
socket_run-HasRole_example =
    socket_run-HasRole test_api quote dumps test_auth 10 accounts (some "access-token") events []
      sockets 1 listening events_run

exec_ws_no_secret_example :
    (exec_ws test_api quote test_auth 10 accounts (some "access-token") "web" (some "ls") none []).0
    ≡ failed "no exec data secret returned by LXD"
unfolding admit ws_user_from_token token_payload Client.post get
exec_ws_no_secret_example =
    exec_ws_no_secret test_auth 10 accounts test_api quote (some "access-token") "web" "ls" none []
      exec_op exec_metadata refl refl refl refl
