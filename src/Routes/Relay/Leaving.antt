-- ===== src/Routes/Relay/Leaving.antt =====
-- What a relay waits for after the client has left.
use lxd_management_api.Base.{
  ℕ, suc, ◌<◌, String, ◌≡◌, ◌≢◌, ◌⊎◌, inl, inr, refl, ◌∙◌, Option, none, some, arith,
}
use lxd_management_api.Routes.Relay.Laws.{client_to_lxd-Leaves}
use lxd_management_api.Routes.Relay.Ends.{
  IsLeaving, client_to_lxd-EndsOnLeaving, lxd_to_client_leaves, report_leaves, Steps-up,
}
use lxd_management_api.Routes.Relay.{
  Frame, running, done, raised, Arrived, frame, ended, broken, Relay, client_to_lxd, lxd_to_client,
  Sockets, Steps, start, client, lxd, fail, gather, Over, returned, reported, exec_error,
}

-- LXD's socket goes on: it gives a frame, and the client's socket takes it.
pub data GoesOn : Arrived → Option String → Type 0 where
  passed : (f : Frame) → GoesOn (frame f) none

lxd_to_client-GoesOn :
    (a : Arrived) (e : Option String) (s : Relay) → GoesOn a e → (lxd_to_client a e s).down ≡ s.down
unfolding lxd_to_client
lxd_to_client-GoesOn _ _ s (passed f) = refl

-- While LXD's socket goes on, its task reads.
still_reading :
    (k : Sockets) (i j : ℕ) (s : Relay)
    → Steps client_to_lxd exec_error k i j s
    → ((n : ℕ) → n < j → GoesOn (k.lxd n) (k.send_down n))
    → s.down ≡ running
still_reading k _ _ _ start on = refl
still_reading k _ _ _ (client {i} {j} {s} r up) on =
    (client_to_lxd-Leaves (k.client i) (k.send_up i) s).2 ∙ still_reading k i j s r on
still_reading k _ _ _ (lxd {i} {j} {s} r down can) on =
    lxd_to_client-GoesOn (k.lxd j) (k.send_down j) s (on j (omega arith)) ∙ down
still_reading k _ _ _ (fail {i} {j} {s} r e unsent up c) on =
    (report_leaves (exec_error e) unsent s).1 ∙ still_reading k i j s r on

-- The handler closes the socket only after an exception of the task of the client.
open_unless_raised :
    (k : Sockets) (i j : ℕ) (s : Relay)
    → Steps client_to_lxd exec_error k i j s
    → ((e : String) → s.up ≢ raised e)
    → s.closed ≡ none
open_unless_raised k _ _ _ start fine = refl
open_unless_raised k _ _ _ (client {i} {j} {s} r up) fine =
    (client_to_lxd-Leaves (k.client i) (k.send_up i) s).1
    ∙ open_unless_raised k i j s r (λ e h. cc (up, h))
open_unless_raised k _ _ _ (lxd {i} {j} {s} r down can) fine =
    let (up, closed) = lxd_to_client_leaves (k.lxd j) (k.send_down j) s in
    closed ∙ open_unless_raised k i j s r (λ e h. fine e (up ∙ h))
open_unless_raised k _ _ _ (fail {i} {j} {s} r e unsent up c) fine =
    absurd (fine e ((report_leaves (exec_error e) unsent s).0 ∙ up))

lxd_to_client-stops :
    (a : Arrived) (e : Option String) (s : Relay) → ¬ GoesOn a e → (lxd_to_client a e s).down ≡ done
unfolding lxd_to_client
lxd_to_client-stops (frame f) none s h = absurd (h (passed f))
lxd_to_client-stops (frame f) (some e) s h = refl
lxd_to_client-stops ended e s h = refl
lxd_to_client-stops (broken x) e s h = refl

last_or_before : (n j : ℕ) → n < suc j → (n ≡ j) ⊎ (n < j)
last_or_before n j h = omega arith

-- Once LXD's socket has stopped, its task has ended.
stopped :
    (k : Sockets) (i j : ℕ) (s : Relay)
    → Steps client_to_lxd exec_error k i j s
    → (n : ℕ) → n < j
    → ¬ GoesOn (k.lxd n) (k.send_down n)
    → s.down ≡ done
stopped k _ _ _ start n before stops = absurd (omega arith)
stopped k _ _ _ (client {i} {j} {s} r up) n before stops =
    (client_to_lxd-Leaves (k.client i) (k.send_up i) s).2 ∙ stopped k i j s r n before stops
stopped k _ _ _ (lxd {i} {j} {s} r down can) n before stops = elim (last_or_before n j before) [
  | inl same ↦ lxd_to_client-stops (k.lxd j) (k.send_down j) s (rw (← same) stops)
  | inr earlier ↦ absurd (cc (down, stopped k i j s r n earlier stops))
]
stopped k _ _ _ (fail {i} {j} {s} r e unsent up c) n before stops =
    (report_leaves (exec_error e) unsent s).1 ∙ stopped k i j s r n before stops

not-Over : (s : Relay) → s.up ≡ done → s.down ≡ running → s.closed ≡ none → ¬ Over s
unfolding gather
not-Over s up down closed (returned h) = cc (rw (up, down) at h)
not-Over s up down closed (reported code h) = cc (closed, h)

-- In `_proxy_exec_ws`, once the client has left: as long as LXD's socket gives frames and the client's
-- socket takes them, however many, the handler is not over; and it is over as soon as LXD's socket has
-- ended or failed, or the client's has refused a frame.
pub left_waits_for_lxd :
    (k : Sockets) (i j : ℕ) (s : Relay)
    → Steps client_to_lxd exec_error k i j s
    → (m : ℕ) → IsLeaving (k.client m)
    → m < i
    → (((n : ℕ) → n < j → GoesOn (k.lxd n) (k.send_down n)) → ¬ Over s)
      × ((n : ℕ) → n < j → ¬ GoesOn (k.lxd n) (k.send_down n) → Over s)
unfolding gather
left_waits_for_lxd k i j s r m leaves read =
    let ends =
      Steps-up client_to_lxd exec_error k client_to_lxd-Leaves client_to_lxd-EndsOnLeaving m leaves
        i j s r in
    let up : s.up ≡ done = ends.past read in
    (
      λ on.
          not-Over s up (still_reading k i j s r on)
            (open_unless_raised k i j s r (λ e h. cc (up, h))),
      λ n before stops. returned (rw (up, stopped k i j s r n before stops, gather) refl),
    )
