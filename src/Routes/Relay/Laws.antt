-- ===== src/Routes/Relay/Laws.antt =====
-- What the relay passes on, against what the sockets give.
use lxd_management_api.Base.{
  ℕ, zero, suc, String, ◌==◌, ◌≡◌, refl, sym, ap, ◌∙◌, Bool, true, false, Bool-cases, Option, none,
  some, List, [], ◌∷◌, ◌++◌, inl, inr, if◌then◌else◌,
}
use lxd_management_api.Base.Text.{nonempty_eq}
use lxd_management_api.Routes.Relay.{
  Frame, text, binary, Received, message, receive_error, Arrived, frame, ended, broken, Relay,
  picked, picked_bytes, sent_up, client_to_lxd, watch_client, lxd_to_client, report, Sockets,
  Sendable, Steps, start, client, lxd, fail, exec_error,
}

-- The frame that a message stands for: its text, or its bytes if there is no text, and none for a
-- message without either.
unfoldable pub said : Option String → Option (List ℕ) → List Frame
said none (some (b ∷ bs)) = binary (b ∷ bs) ∷ []
said (some s) (some (b ∷ bs)) = if s == "" then binary (b ∷ bs) ∷ [] else text s ∷ []
said none bytes = []
said (some s) bytes = if s == "" then [] else text s ∷ []

-- What a thing from the client's socket adds to the frames: nothing where the client leaves, or where
-- LXD's socket refuses the frame.
unfoldable pub heard : Received → Option String → List Frame → List Frame
heard (message m) none frames =
    if m.type == "websocket.disconnect" then frames else said m.text m.bytes ++ frames
heard _ _ frames = frames

-- What a thing from LXD's socket adds: a frame that the client does not refuse.
unfoldable pub shown : Arrived → Option String → List Frame → List Frame
shown (frame f) none frames = f ∷ frames
shown _ _ frames = frames

-- The frames for LXD among the first things from the client, and the frames for the client among the
-- first from LXD, the latest first.
unfoldable pub heard_frames : Sockets → ℕ → List Frame
unfolding heard
heard_frames k zero = []
heard_frames k (suc i) = heard (k.client i) (k.send_up i) (heard_frames k i)

unfoldable pub shown_frames : Sockets → ℕ → List Frame
unfolding shown
shown_frames k zero = []
shown_frames k (suc j) = shown (k.lxd j) (k.send_down j) (shown_frames k j)

-- What the client is sent: the frames of LXD, and behind them at most the error of the handler, with
-- which the socket is closed.
pub data Delivered (error_text : String → String) (s : Relay) (frames : List Frame) : Type 0 where
  plain : s.to_client ≡ frames → Delivered error_text s frames
  with_error :
      (e : String)
      → s.closed ≡ some 1011
      → s.to_client ≡ text (error_text e) ∷ frames
      → Delivered error_text s frames

picked-said :
    (texts : Option String) (bytes : Option (List ℕ)) (type : String) (s : Relay)
    → (sent_up (picked (record { type = type; text = texts; bytes = bytes })) none s).to_lxd
      ≡ said texts bytes ++ s.to_lxd
unfolding sent_up picked picked_bytes said
picked-said none none type s = refl
picked-said none (some []) type s = refl
picked-said none (some (b ∷ bs)) type s = refl
picked-said (some t) none type s = elim (Bool-cases (t == "")) [
  | inl e ↦ rw (nonempty_eq t, e) refl
  | inr e ↦ rw (nonempty_eq t, e) refl
]
picked-said (some t) (some []) type s = elim (Bool-cases (t == "")) [
  | inl e ↦ rw (nonempty_eq t, e) refl
  | inr e ↦ rw (nonempty_eq t, e) refl
]
picked-said (some t) (some (b ∷ bs)) type s = elim (Bool-cases (t == "")) [
  | inl e ↦ rw (nonempty_eq t, e) refl
  | inr e ↦ rw (nonempty_eq t, e) refl
]

refused : (o : Option Frame) (e : String) (s : Relay) → (sent_up o (some e) s).to_lxd ≡ s.to_lxd
unfolding sent_up
refused none e s = refl
refused (some f) e s = refl

client_to_lxd-heard :
    (r : Received) (failure : Option String) (s : Relay)
    → (client_to_lxd r failure s).to_lxd ≡ heard r failure s.to_lxd
unfolding client_to_lxd heard sent_up
client_to_lxd-heard (message m) none s = elim (Bool-cases (m.type == "websocket.disconnect")) [
  | inl b ↦ rw (b, client_to_lxd, heard) refl
  | inr b ↦ rw (b, client_to_lxd, heard) (picked-said m.text m.bytes m.type s)
]
client_to_lxd-heard (message m) (some e) s = elim (Bool-cases (m.type == "websocket.disconnect")) [
  | inl b ↦ rw (b, client_to_lxd) refl
  | inr b ↦ rw (b, client_to_lxd) (refused (picked m) e s)
]
client_to_lxd-heard (receive_error x) failure s = refl

-- A round of the client's task leaves the other direction alone.
abbrev pub Leaves : (Received → Option String → Relay → Relay) → Type 0
Leaves f =
    (r : Received) (e : Option String) (s : Relay)
    → ((f r e s).to_client ≡ s.to_client)
      × ((f r e s).closed ≡ s.closed)
      × ((f r e s).down ≡ s.down)

sent_up_leaves :
    (o : Option Frame) (e : Option String) (s : Relay)
    → ((sent_up o e s).to_client ≡ s.to_client)
      × ((sent_up o e s).closed ≡ s.closed)
      × ((sent_up o e s).down ≡ s.down)
unfolding sent_up
sent_up_leaves none e s = (refl, refl, refl)
sent_up_leaves (some f) none s = (refl, refl, refl)
sent_up_leaves (some f) (some e) s = (refl, refl, refl)

pub client_to_lxd-Leaves : Leaves client_to_lxd
unfolding client_to_lxd
client_to_lxd-Leaves (message m) e s = elim (Bool-cases (m.type == "websocket.disconnect")) [
  | inl b ↦ rw (b, client_to_lxd) (refl, refl, refl)
  | inr b ↦ rw (b, client_to_lxd) (sent_up_leaves (picked m) e s)
]
client_to_lxd-Leaves (receive_error x) e s = (refl, refl, refl)

watch_client_silent :
    (r : Received) (e : Option String) (s : Relay) → (watch_client r e s).to_lxd ≡ s.to_lxd
unfolding watch_client
watch_client_silent (message m) e s = elim (Bool-cases (m.type == "websocket.disconnect")) [
  | inl b ↦ rw (b, watch_client) refl
  | inr b ↦ rw (b, watch_client) refl
]
watch_client_silent (receive_error x) e s = refl

pub watch_client-Leaves : Leaves watch_client
unfolding watch_client
watch_client-Leaves (message m) e s = elim (Bool-cases (m.type == "websocket.disconnect")) [
  | inl b ↦ rw (b, watch_client) (refl, refl, refl)
  | inr b ↦ rw (b, watch_client) (refl, refl, refl)
]
watch_client-Leaves (receive_error x) e s = (refl, refl, refl)

-- Neither the other task nor the end of the handler sends LXD anything.
lxd_to_client_silent :
    (a : Arrived) (e : Option String) (s : Relay) → (lxd_to_client a e s).to_lxd ≡ s.to_lxd
unfolding lxd_to_client
lxd_to_client_silent (frame f) none s = refl
lxd_to_client_silent (frame f) (some e) s = refl
lxd_to_client_silent ended e s = refl
lxd_to_client_silent (broken x) e s = refl

report_silent :
    (error : String) (unsent : Bool) (s : Relay) → (report error unsent s).to_lxd ≡ s.to_lxd
unfolding report
report_silent error true s = refl
report_silent error false s = refl

Sendable-open : (c : Option ℕ) → Sendable c none → c ≡ none
Sendable-open none h = refl
Sendable-open (some code) h = absurd h

module _ (error_text : String → String) (k : Sockets) where
  -- An open socket has been sent what was read; a closed one at most the error besides.
  abbrev IsOrdered : ℕ → Relay → Type 0
  IsOrdered j s =
      (s.closed ≡ none → s.to_client ≡ shown_frames k j) × Delivered error_text s (shown_frames k j)

  Delivered-same :
      (s t : Relay) (frames : List Frame)
      → t.to_client ≡ s.to_client
      → t.closed ≡ s.closed
      → Delivered error_text s frames
      → Delivered error_text t frames
  Delivered-same s t frames c d (plain h) = plain (c ∙ h)
  Delivered-same s t frames c d (with_error e k h) = with_error e (d ∙ k) (c ∙ h)

  lxd_to_client-IsOrdered :
      (j : ℕ) (a : Arrived) (failure : Option String) (s : Relay)
      → k.lxd j ≡ a
      → k.send_down j ≡ failure
      → Sendable s.closed failure
      → IsOrdered j s
      → IsOrdered (suc j) (lxd_to_client a failure s)
  unfolding lxd_to_client shown_frames shown
  lxd_to_client-IsOrdered j (frame f) none s r e can (o, d) =
      rw (r, e, shown)
        ((λ h. ap (λ l. f ∷ l) (o h)), plain (ap (λ l. f ∷ l) (o (Sendable-open s.closed can))))
  lxd_to_client-IsOrdered j (frame f) (some x) s r e can (o, d) =
      rw (r, e, shown) (o, Delivered-same s _ _ refl refl d)
  lxd_to_client-IsOrdered j ended failure s r e can (o, d) =
      rw (r, shown) (o, Delivered-same s _ _ refl refl d)
  lxd_to_client-IsOrdered j (broken x) failure s r e can (o, d) =
      rw (r, shown) (o, Delivered-same s _ _ refl refl d)

  report-IsOrdered :
      (j : ℕ) (e : String) (unsent : Bool) (s : Relay)
      → s.closed ≡ none
      → IsOrdered j s
      → IsOrdered j (report (error_text e) unsent s)
  unfolding report
  report-IsOrdered j e true s c (o, d) = (λ h. cc, plain (o c))
  report-IsOrdered j e false s c (o, d) =
      (λ h. cc, with_error e refl (ap (λ l. text (error_text e) ∷ l) (o c)))

  module _ (client_side : Received → Option String → Relay → Relay)
      (leaves : Leaves client_side) where
    Steps-IsOrdered : (i j : ℕ) (s : Relay) → Steps client_side error_text k i j s → IsOrdered j s
    unfolding shown_frames
    Steps-IsOrdered _ _ _ start = (λ h. refl, plain refl)
    Steps-IsOrdered _ _ _ (client {i} {j} {s} r up) =
        let (o, d) = Steps-IsOrdered i j s r in
        let (c, e, _) = leaves (k.client i) (k.send_up i) s in
        (λ h. c ∙ o (sym e ∙ h), Delivered-same s _ _ c e d)
    Steps-IsOrdered _ _ _ (lxd {i} {j} {s} r down can) =
        lxd_to_client-IsOrdered j (k.lxd j) (k.send_down j) s refl refl can
          (Steps-IsOrdered i j s r)
    Steps-IsOrdered _ _ _ (fail {i} {j} {s} r e unsent up c) =
        report-IsOrdered j e unsent s c (Steps-IsOrdered i j s r)

Steps-heard :
    (k : Sockets) (i j : ℕ) (s : Relay)
    → Steps client_to_lxd exec_error k i j s
    → s.to_lxd ≡ heard_frames k i
unfolding heard_frames
Steps-heard k _ _ _ start = refl
Steps-heard k _ _ _ (client {i} {j} {s} r up) =
    client_to_lxd-heard (k.client i) (k.send_up i) s
    ∙ ap (heard (k.client i) (k.send_up i)) (Steps-heard k i j s r)
Steps-heard k _ _ _ (lxd {i} {j} {s} r down can) =
    lxd_to_client_silent (k.lxd j) (k.send_down j) s ∙ Steps-heard k i j s r
Steps-heard k _ _ _ (fail {i} {j} {s} r e unsent up c) =
    report_silent (exec_error e) unsent s ∙ Steps-heard k i j s r

Steps-silent :
    (dumps : String → String) (k : Sockets) (i j : ℕ) (s : Relay)
    → Steps watch_client dumps k i j s
    → s.to_lxd ≡ []
Steps-silent dumps k _ _ _ start = refl
Steps-silent dumps k _ _ _ (client {i} {j} {s} r up) =
    watch_client_silent (k.client i) (k.send_up i) s ∙ Steps-silent dumps k i j s r
Steps-silent dumps k _ _ _ (lxd {i} {j} {s} r down can) =
    lxd_to_client_silent (k.lxd j) (k.send_down j) s ∙ Steps-silent dumps k i j s r
Steps-silent dumps k _ _ _ (fail {i} {j} {s} r e unsent up c) =
    report_silent (dumps e) unsent s ∙ Steps-silent dumps k i j s r

-- In `_proxy_exec_ws`, after `i` things from the client's socket and `j` from LXD's have been read, in
-- any order of the tasks: LXD was sent the text, or else the bytes, of each of those messages, in their
-- order, with nothing added, lost or repeated, but for a message without text and bytes, that of a
-- client that leaves, and a frame that LXD's socket refused; and the client was sent those frames of
-- LXD, in their order, but for one that the client's socket refused, with at most the handler's error
-- behind them, with which the socket was closed.
pub exec_relay_in_order :
    (k : Sockets) (i j : ℕ) (s : Relay)
    → Steps client_to_lxd exec_error k i j s
    → (s.to_lxd ≡ heard_frames k i) × Delivered exec_error s (shown_frames k j)
exec_relay_in_order k i j s r = (
  Steps-heard k i j s r,
  (Steps-IsOrdered exec_error k client_to_lxd client_to_lxd-Leaves i j s r).1,
)

-- In `operations_ws`, likewise: LXD is sent nothing, and the client was sent the frames read from LXD, in
-- their order, but for one that the client's socket refused, with at most the handler's error behind
-- them, with which the socket was closed.
pub events_relay_read_only :
    (dumps : String → String) (k : Sockets) (i j : ℕ) (s : Relay)
    → Steps watch_client dumps k i j s
    → (s.to_lxd ≡ []) × Delivered dumps s (shown_frames k j)
events_relay_read_only dumps k i j s r = (
  Steps-silent dumps k i j s r,
  (Steps-IsOrdered dumps k watch_client watch_client-Leaves i j s r).1,
)
