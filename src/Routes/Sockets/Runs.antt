-- ===== src/Routes/Sockets/Runs.antt =====
-- The WebSocket handlers from the request of the client to the end: the admission, the request to LXD
-- and the connection of Routes/Sockets, followed by the tasks of Routes/Relay.
use lxd_management_api.Base.{
  ℕ, String, ◌≡◌, ◌⊎◌, inl, inr, refl, Bool, true, false, Option, some, List, [],
}
use lxd_management_api.Error.{Exn}
use lxd_management_api.App.{Log}
use lxd_management_api.Deps.{Auth}
use lxd_management_api.Routes.Common.{Api}
use lxd_management_api.Routes.Relay.{
  Frame, Received, Relay, Sockets, opening, client_to_lxd, watch_client, report, Steps, exec_error,
}
use lxd_management_api.Routes.Relay.Laws.{heard_frames, exec_relay_in_order, events_relay_read_only}
use lxd_management_api.Routes.Sockets.{Session, closed, escaped, failed, relayed}
use lxd_management_api.Routes.Sockets.Laws.{HasRole}
use lxd_management_api.Routes.Sockets.Options.{Connection}
use lxd_management_api.Routes.Sockets.Access.{
  Socket, exec, console, events, socket_role, open_socket, IsTurnedAway, open_socket-HasRole,
}

-- The task of a handler that reads from the client. `console_ws` has that of `exec_ws`.
unfoldable pub client_task : Socket → Received → Option String → Relay → Relay
client_task (exec _ _ _) = client_to_lxd
client_task (console _ _ _) = client_to_lxd
client_task events = watch_client

-- The text with which a handler reports an exception of the connection or of a task. `dumps` is that
-- of `operations_ws`, `json.dumps({"error": str(exc)})`.
unfoldable pub error_text : (String → String) → Socket → String → String
error_text dumps (exec _ _ _) = exec_error
error_text dumps (console _ _ _) = exec_error
error_text dumps events = dumps

-- What becomes of the sockets in a session, with the number of things read from the client: closed
-- without being accepted; left by an exception; told a text and closed, unless telling it fails; not
-- connected to LXD, which is reported; or connected, and then in any state that the two tasks reach.
pub data Run (dumps : String → String) (socket : Socket) (k : Sockets)
    : Session → ℕ → Relay → Type 0 where
  turned_away :
      (code : ℕ) → Run dumps socket k (closed code) 0 (record opening { closed = some code })
  left : (e : Exn) → Run dumps socket k (escaped e) 0 opening
  told : (words : String) → Run dumps socket k (failed words) 0 (report words false opening)
  untold : (words : String) → Run dumps socket k (failed words) 0 opening
  unconnected :
      (c : Connection) (e : String) (unsent : Bool)
      → Run dumps socket k (relayed c) 0 (report (error_text dumps socket e) unsent opening)
  connected :
      (c : Connection) (i j : ℕ) (s : Relay)
      → Steps (client_task socket) (error_text dumps socket) k i j s
      → Run dumps socket k (relayed c) i s

-- The frames that LXD is to get for the first things from the client.
unfoldable pub typed_frames : Socket → Sockets → ℕ → List Frame
typed_frames (exec _ _ _) k i = heard_frames k i
typed_frames (console _ _ _) k i = heard_frames k i
typed_frames events k i = []

no_frames : (socket : Socket) (k : Sockets) → [] ≡ typed_frames socket k 0
unfolding typed_frames heard_frames
no_frames (exec _ _ _) k = refl
no_frames (console _ _ _) k = refl
no_frames events k = refl

reported_frames :
    (socket : Socket) (k : Sockets) (words : String) (unsent : Bool)
    → (report words unsent opening).to_lxd ≡ typed_frames socket k 0
unfolding report
reported_frames socket k words true = no_frames socket k
reported_frames socket k words false = no_frames socket k

connected_frames :
    (dumps : String → String) (socket : Socket) (k : Sockets) (i j : ℕ) (s : Relay)
    → Steps (client_task socket) (error_text dumps socket) k i j s
    → s.to_lxd ≡ typed_frames socket k i
unfolding typed_frames client_task error_text
connected_frames dumps (exec _ _ _) k i j s r = (exec_relay_in_order k i j s r).0
connected_frames dumps (console _ _ _) k i j s r = (exec_relay_in_order k i j s r).0
connected_frames dumps events k i j s r = (events_relay_read_only dumps k i j s r).0

run_frames :
    (dumps : String → String) (socket : Socket) (k : Sockets) (session : Session) (i : ℕ)
    (s : Relay)
    → Run dumps socket k session i s
    → s.to_lxd ≡ typed_frames socket k i
run_frames dumps socket k _ _ _ (turned_away code) = no_frames socket k
run_frames dumps socket k _ _ _ (left e) = no_frames socket k
run_frames dumps socket k _ _ _ (told words) = reported_frames socket k words false
run_frames dumps socket k _ _ _ (untold words) = no_frames socket k
run_frames dumps socket k _ _ _ (unconnected c e unsent) =
    reported_frames socket k (error_text dumps socket e) unsent
run_frames dumps socket k _ _ _ (connected c i j s r) = connected_frames dumps socket k i j s r

-- Closed with a code before anything else.
abbrev pub IsTurnedAwayWith : ℕ → Relay → Type 0
IsTurnedAwayWith code s = s ≡ record opening { closed = some code }

closed_run :
    (dumps : String → String) (socket : Socket) (code : ℕ) (k : Sockets) (session : Session) (i : ℕ)
    (s : Relay)
    → Run dumps socket k session i s
    → session ≡ closed code
    → IsTurnedAwayWith code s
closed_run dumps socket code k _ _ _ (turned_away given) h = cc
closed_run dumps socket code k _ _ _ (left e) h = cc
closed_run dumps socket code k _ _ _ (told words) h = cc
closed_run dumps socket code k _ _ _ (untold words) h = cc
closed_run dumps socket code k _ _ _ (unconnected c e unsent) h = cc
closed_run dumps socket code k _ _ _ (connected c i j s r) h = cc

module _ (api : Api) (quote dumps : String → String) (auth : Auth) (now : ℕ) (db : auth.users.State)
    (token : Option String) where
  refused_run :
      (socket : Socket) (k : Sockets) (session : Session) (i : ℕ) (s : Relay)
      → Run dumps socket k session i s
      → IsTurnedAway api quote auth now db token session
      → IsTurnedAwayWith 4401 s ⊎ IsTurnedAwayWith 4403 s
  refused_run socket k session i s r (inl h) = inl (closed_run dumps socket 4401 k session i s r h)
  refused_run socket k session i s r (inr h) = inr (closed_run dumps socket 4403 k session i s r h)

  -- For each of the three WebSockets, from the request of the client to any point of the relay: the
  -- frames that LXD has got are the texts, or else the bytes, of the messages read from the client, in
  -- their order, but for one that LXD's socket refused, or none in `operations_ws`; and the token leads
  -- to a user with the role that the handler wants, or else LXD's API has got nothing, and nothing was
  -- done to the sockets but to close that of the client with 4401 or 4403.
  pub socket_run-HasRole :
      (socket : Socket) (log : Log) (k : Sockets) (i : ℕ) (s : Relay)
      → Run dumps socket k (open_socket api quote auth now db token socket log).0 i s
      → (s.to_lxd ≡ typed_frames socket k i)
        × (HasRole auth now db (socket_role socket) token
            ⊎ (((open_socket api quote auth now db token socket log).1 ≡ log)
                × (IsTurnedAwayWith 4401 s ⊎ IsTurnedAwayWith 4403 s)))
  socket_run-HasRole socket log k i s r = (
    run_frames dumps socket k _ i s r,
    elim (open_socket-HasRole api quote auth now db token socket log) [
      | inl has ↦ inl has
      | inr (away, silent) ↦ inr (silent, refused_run socket k _ i s r away)
    ],
  )
