-- ===== src/Tests/Relay.antt =====
-- A command that is typed and answered, after which the client leaves and LXD closes its socket.
use lxd_management_api.Base.{ℕ, zero, suc, ◌+◌, ◌≤◌, ◌<◌, ◌⊎◌, arith, ◌≡◌, refl, none, some}
use lxd_management_api.Routes.Relay.{
  Message, text, Received, message, Arrived, frame, ended, Relay, opening, picked, client_to_lxd,
  lxd_to_client, Sockets, Steps, start, client, lxd, Over, exec_error,
}
use lxd_management_api.Routes.Relay.Laws.{
  heard_frames, shown_frames, Delivered, client_to_lxd-Leaves, exec_relay_in_order,
}
use lxd_management_api.Routes.Relay.Ends.{leaving, rounds, Further, exec_relay_ends}
use lxd_management_api.Routes.Relay.Leaving.{GoesOn, left_waits_for_lxd}

abbrev typed : Message
typed = record { type = "websocket.receive"; text = some "ls"; bytes = none }

abbrev leave : Message
leave = record { type = "websocket.disconnect"; text = none; bytes = none }

abbrev typing : ℕ → Received
typing zero = message typed
typing (suc i) = message leave

abbrev answering : ℕ → Arrived
answering zero = frame (text "web")
answering (suc j) = ended

abbrev sockets : Sockets
sockets = record { client = typing; send_up = λ i. none; lxd = answering; send_down = λ j. none }

-- `_proxy_exec_ws` after the command, then its output, then the end of the client.
abbrev sent : Relay
sent = client_to_lxd (message typed) none opening

abbrev shown : Relay
shown = lxd_to_client (frame (text "web")) none sent

abbrev alone : Relay
alone = client_to_lxd (message leave) none shown

shown-Steps : Steps client_to_lxd exec_error sockets 1 1 shown
unfolding client_to_lxd picked lxd_to_client
shown-Steps = lxd (client start refl) refl tt

alone-Steps : Steps client_to_lxd exec_error sockets 2 1 alone
unfolding client_to_lxd picked lxd_to_client
alone-Steps = client shown-Steps refl

exec_relay_in_order_example :
    (shown.to_lxd ≡ heard_frames sockets 1) × Delivered exec_error shown (shown_frames sockets 1)
exec_relay_in_order_example = exec_relay_in_order sockets 1 1 shown shown-Steps

exec_relay_ends_example :
    (rounds client_to_lxd exec_error sockets client_to_lxd-Leaves alone-Steps ≤ 1 + 1 + 3)
    × (Over alone ⊎ Further client_to_lxd exec_error sockets client_to_lxd-Leaves alone-Steps)
exec_relay_ends_example =
    exec_relay_ends sockets 1 1 (leaving leave refl) refl 2 1 alone alone-Steps

left_waits_for_lxd_example :
    (((n : ℕ) → n < 1 → GoesOn (sockets.lxd n) (sockets.send_down n)) → ¬ Over alone)
    × ((n : ℕ) → n < 1 → ¬ GoesOn (sockets.lxd n) (sockets.send_down n) → Over alone)
left_waits_for_lxd_example =
    left_waits_for_lxd sockets 2 1 alone alone-Steps 1 (leaving leave refl) (omega arith)
