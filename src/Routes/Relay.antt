-- ===== src/Routes/Relay.antt =====
-- The relay between a WebSocket of a client and one of LXD: the two tasks that `_proxy_exec_ws`
-- (routes/instances.py) and `operations_ws` (routes/operations.py) gather, and the end of the
-- handlers. What the two sockets do is `Sockets`, and the order of the tasks is the choice of a step.
pub mod Laws
pub mod Ends
pub mod Leaving
use lxd_management_api.Base.{
  ℕ, suc, String, ◌<>◌, ◌==◌, ◌≡◌, Bool, true, false, Option, none, some, List, [], ◌∷◌,
  if◌then◌else◌,
}
use lxd_management_api.Base.Text.{nonempty}

-- A message of ASGI, as `websocket.receive()` returns it.
pub record Message : Type 0 where
  pub type : String
  pub text : Option String
  pub bytes : Option (List ℕ)

-- A frame of a WebSocket.
pub data Frame : Type 0 where
  text : String → Frame
  binary : List ℕ → Frame

-- A task that reads, that has returned, or that has raised an exception with a text.
pub data Task : Type 0 where
  running : Task
  done : Task
  raised : String → Task

-- What `websocket.receive()` gives: a message, of which that of a client that leaves has the type
-- `websocket.disconnect`, or an exception. Only the other methods of the library raise
-- `WebSocketDisconnect`.
pub data Received : Type 0 where
  message : Message → Received
  receive_error : String → Received

-- What the iteration over LXD's socket gives: a frame, its end, or an exception.
pub data Arrived : Type 0 where
  frame : Frame → Arrived
  ended : Arrived
  broken : String → Arrived

-- The frames that LXD and the client were sent, the latest first, the two tasks, and the code of a
-- close.
pub record Relay : Type 0 where
  pub to_lxd : List Frame
  pub to_client : List Frame
  pub up : Task
  pub down : Task
  pub closed : Option ℕ

-- Both tasks at their start.
abbrev pub opening : Relay
opening = record { to_lxd = []; to_client = []; up = running; down = running; closed = none }

-- `msg.get("bytes")`, where it is not empty.
unfoldable pub picked_bytes : Option (List ℕ) → Option Frame
picked_bytes none = none
picked_bytes (some []) = none
picked_bytes (some (b ∷ bs)) = some (binary (b ∷ bs))

-- `msg.get("text") or msg.get("bytes")`, where that is true.
unfoldable pub picked : Message → Option Frame
unfolding picked_bytes
picked m = elim m.text [
  | none ↦ picked_bytes m.bytes
  | some s ↦ if nonempty s then some (text s) else picked_bytes m.bytes
]

-- The end of a round of `client_to_lxd`: `lxd_ws.send`, with the text of the exception it raises.
unfoldable pub sent_up : Option Frame → Option String → Relay → Relay
sent_up none failure s = s
sent_up (some f) none s = record s { to_lxd = f ∷ s.to_lxd }
sent_up (some f) (some e) s = record s { up = raised e }

-- A round of `client_to_lxd` of `_proxy_exec_ws`.
unfoldable pub client_to_lxd : Received → Option String → Relay → Relay
unfolding sent_up picked
client_to_lxd (message m) failure s =
    if m.type == "websocket.disconnect"
    then record s { up = done }
    else sent_up (picked m) failure s
client_to_lxd (receive_error e) failure s = record s { up = raised e }

-- A round of `client_to_lxd` of `operations_ws`, which only waits for the client to leave.
unfoldable pub watch_client : Received → Option String → Relay → Relay
watch_client (message m) failure s =
    if m.type == "websocket.disconnect" then record s { up = done } else s
watch_client (receive_error e) failure s = record s { up = raised e }

-- A round of `lxd_to_client`, with the text of the exception that sending to the client raises. Its
-- `except` catches every exception.
unfoldable pub lxd_to_client : Arrived → Option String → Relay → Relay
lxd_to_client (frame f) none s = record s { to_client = f ∷ s.to_client }
lxd_to_client (frame f) (some e) s = record s { down = done }
lxd_to_client ended failure s = record s { down = done }
lxd_to_client (broken e) failure s = record s { down = done }

-- The `except` of the handler: a text, unless sending it fails, and a close in any case.
unfoldable pub report : String → Bool → Relay → Relay
report error true s = record s { closed = some 1011 }
report error false s = record s { to_client = text error ∷ s.to_client; closed = some 1011 }

-- What the sockets do: the things that the client's socket and LXD's give one after another, and
-- the exceptions, if any, that the sending of each to the other raises.
pub record Sockets : Type 0 where
  pub client : ℕ → Received
  pub send_up : ℕ → Option String
  pub lxd : ℕ → Arrived
  pub send_down : ℕ → Option String

-- Nothing can be sent to a client after a close.
abbrev pub Sendable : Option ℕ → Option String → Type 0
Sendable (some code) none = ⊥
Sendable closed failure = Unit

-- The states that the two tasks reach after they have read so many things from the client's socket and
-- from LXD's. The tasks run in any order. `gather` raises the exception of a task at once, and does not
-- stop the other; that of `client_to_lxd` is the only one, since `lxd_to_client` raises none.
module _ (client_side : Received → Option String → Relay → Relay) (error_text : String → String)
    (k : Sockets) where
  pub data Steps : ℕ → ℕ → Relay → Type 0 where
    start : Steps 0 0 opening
    client :
        {i j : ℕ} {s : Relay}
        → Steps i j s
        → s.up ≡ running
        → Steps (suc i) j (client_side (k.client i) (k.send_up i) s)
    lxd :
        {i j : ℕ} {s : Relay}
        → Steps i j s
        → s.down ≡ running
        → Sendable s.closed (k.send_down j)
        → Steps i (suc j) (lxd_to_client (k.lxd j) (k.send_down j) s)
    fail :
        {i j : ℕ} {s : Relay}
        → Steps i j s
        → (e : String) (unsent : Bool) → s.up ≡ raised e
        → s.closed ≡ none
        → Steps i j (report (error_text e) unsent s)

-- `asyncio.gather` over the two tasks: it returns when both have returned, raises the exception of one
-- as soon as it has raised it, and waits otherwise.
unfoldable pub gather : Task → Task → Task
gather (raised e) down = raised e
gather up (raised e) = raised e
gather (done) (done) = done
gather up down = running

-- The handler has ended: `gather` has returned, or the `except` has closed the socket.
pub data Over (s : Relay) : Type 0 where
  returned : gather s.up s.down ≡ done → Over s
  reported : (code : ℕ) → s.closed ≡ some code → Over s

-- `except Exception` of `_proxy_exec_ws`.
abbrev pub exec_error : String → String
exec_error e = "proxy error: " <> e
