-- ===== src/Routes/Relay/Ends.antt =====
-- How a relay ends: each thing that it reads brings it nearer to its end, and it is never stuck before.
use lxd_management_api.Base.{
  ℕ, suc, ◌+◌, ◌≤◌, ◌<◌, String, ◌==◌, ◌≡◌, ◌≢◌, ◌⊎◌, refl, sym, ap, ◌∙◌, Bool, true, false, inl,
  inr, Option, none, some, arith,
}
use lxd_management_api.Routes.Relay.Laws.{Leaves, client_to_lxd-Leaves, watch_client-Leaves}
use lxd_management_api.Routes.Relay.{
  Message, Task, running, done, raised, Received, message, Arrived, frame, ended, broken, Relay,
  client_to_lxd, watch_client, lxd_to_client, report, Sockets, Sendable, Steps, start, client, lxd,
  fail, gather, Over, returned, reported, exec_error,
}

-- The client's socket says that the client leaves.
pub data IsLeaving : Received → Type 0 where
  leaving : (m : Message) → (m.type == "websocket.disconnect") ≡ true → IsLeaving (message m)

-- A task of the client that ends when the client leaves.
abbrev pub EndsOnLeaving : (Received → Option String → Relay → Relay) → Type 0
EndsOnLeaving f = (r : Received) (e : Option String) (s : Relay) → IsLeaving r → (f r e s).up ≡ done

pub client_to_lxd-EndsOnLeaving : EndsOnLeaving client_to_lxd
unfolding client_to_lxd
client_to_lxd-EndsOnLeaving _ e s (leaving m b) = rw (b, client_to_lxd) refl

pub watch_client-EndsOnLeaving : EndsOnLeaving watch_client
unfolding watch_client
watch_client-EndsOnLeaving _ e s (leaving m b) = rw (b, watch_client) refl

-- A task that sends to the client never raises.
abbrev IsCaught : Relay → Type 0
IsCaught s = (e : String) → s.down ≢ raised e

lxd_to_client-IsCaught :
    (a : Arrived) (e : Option String) (s : Relay) → IsCaught s → IsCaught (lxd_to_client a e s)
unfolding lxd_to_client
lxd_to_client-IsCaught (frame f) none s h = h
lxd_to_client-IsCaught (frame f) (some e) s h = λ x p. cc
lxd_to_client-IsCaught ended e s h = λ x p. cc
lxd_to_client-IsCaught (broken x) e s h = λ y p. cc

-- It leaves the other task and the close alone.
pub lxd_to_client_leaves :
    (a : Arrived) (e : Option String) (s : Relay)
    → ((lxd_to_client a e s).up ≡ s.up) × ((lxd_to_client a e s).closed ≡ s.closed)
unfolding lxd_to_client
lxd_to_client_leaves (frame f) none s = (refl, refl)
lxd_to_client_leaves (frame f) (some e) s = (refl, refl)
lxd_to_client_leaves ended e s = (refl, refl)
lxd_to_client_leaves (broken x) e s = (refl, refl)

pub report_leaves :
    (error : String) (unsent : Bool) (s : Relay)
    → ((report error unsent s).up ≡ s.up)
      × ((report error unsent s).down ≡ s.down)
      × ((report error unsent s).closed ≡ some 1011)
unfolding report
report_leaves error true s = (refl, refl, refl)
report_leaves error false s = (refl, refl, refl)

abbrev shut : Option ℕ → ℕ
shut none = 0
shut (some code) = 1

-- After a number of things from one socket, at the last of which its task ends: the task reads no more.
pub record Bounded (task : Task) (read last : ℕ) : Type 0 where
  pub not_past : read ≤ suc last
  pub reading : task ≡ running → read ≤ last
  pub past : last < read → task ≡ done

le_cases : (m n : ℕ) → m ≤ n → (m ≡ n) ⊎ (suc m ≤ n)
le_cases m n h = omega arith

-- One more thing, which ends the task if it is the last.
Bounded-suc :
    {t u : Task} {read last : ℕ}
    → t ≡ running
    → Bounded t read last
    → (read ≡ last → u ≡ done)
    → Bounded u (suc read) last
Bounded-suc {t} {u} {read} {last} run b ends =
    let low = b.reading run in
    record {
      not_past = omega (arith, low);
      reading = λ h. elim (le_cases read last low) [
        | inl e ↦ absurd (cc (ends e, h))
        | inr less ↦ omega (arith, less)
      ];
      past = λ h. ends (omega (arith, low, h));
    }

Bounded-same : {t u : Task} {read last : ℕ} → u ≡ t → Bounded t read last → Bounded u read last
Bounded-same e b = record {
  not_past = b.not_past;
  reading = λ h. b.reading (sym e ∙ h);
  past = λ h. e ∙ b.past h;
}

Bounded-start : (last : ℕ) → Bounded running 0 last
Bounded-start last = record {
  not_past = omega arith;
  reading = λ h. omega arith;
  past = λ h. absurd (omega arith);
}

lxd_to_client-ended :
    (a : Arrived) (e : Option String) (s : Relay) → a ≡ ended → (lxd_to_client a e s).down ≡ done
unfolding lxd_to_client
lxd_to_client-ended (frame f) e s h = cc
lxd_to_client-ended ended e s h = refl
lxd_to_client-ended (broken x) e s h = cc

Sendable-failed : (c : Option ℕ) (e : String) → Sendable c (some e)
Sendable-failed none e = tt
Sendable-failed (some code) e = tt

module _ (client_side : Received → Option String → Relay → Relay) (error_text : String → String)
    (k : Sockets) (leaves : Leaves client_side) where
  -- The number of steps of a session.
  pub rounds : {i j : ℕ} {s : Relay} → Steps client_side error_text k i j s → ℕ
  rounds start = 0
  rounds (client r up) = suc (rounds r)
  rounds (lxd r down can) = suc (rounds r)
  rounds (fail r e unsent up c) = suc (rounds r)

  rounds_eq :
      (i j : ℕ) (s : Relay) (r : Steps client_side error_text k i j s)
      → rounds r ≡ i + j + shut s.closed
  unfolding rounds
  rounds_eq _ _ _ start = refl
  rounds_eq _ _ _ (client {i} {j} {s} r up) =
      let same = ap shut (leaves (k.client i) (k.send_up i) s).1 in
      omega (arith, rounds_eq i j s r, same)
  rounds_eq _ _ _ (lxd {i} {j} {s} r down can) =
      let same = ap shut (lxd_to_client_leaves (k.lxd j) (k.send_down j) s).1 in
      omega (arith, rounds_eq i j s r, same)
  rounds_eq _ _ _ (fail {i} {j} {s} r e unsent up c) =
      let now = ap shut (report_leaves (error_text e) unsent s).2 in
      let before = ap shut c in omega (arith, rounds_eq i j s r, now, before)

  Steps-IsCaught : (i j : ℕ) (s : Relay) → Steps client_side error_text k i j s → IsCaught s
  Steps-IsCaught _ _ _ start = λ e p. cc
  Steps-IsCaught _ _ _ (client {i} {j} {s} r up) =
      λ x p. Steps-IsCaught i j s r x (sym (leaves (k.client i) (k.send_up i) s).2 ∙ p)
  Steps-IsCaught _ _ _ (lxd {i} {j} {s} r down can) =
      lxd_to_client-IsCaught (k.lxd j) (k.send_down j) s (Steps-IsCaught i j s r)
  Steps-IsCaught _ _ _ (fail {i} {j} {s} r e unsent up c) =
      λ x p. Steps-IsCaught i j s r x (sym (report_leaves (error_text e) unsent s).1 ∙ p)

  pub Steps-up :
      EndsOnLeaving client_side
      → (m : ℕ) → IsLeaving (k.client m)
      → (i j : ℕ) (s : Relay) → Steps client_side error_text k i j s
      → Bounded s.up i m
  Steps-up ends m there _ _ _ start = Bounded-start m
  Steps-up ends m there _ _ _ (client {i} {j} {s} r up) =
      Bounded-suc up (Steps-up ends m there i j s r)
        (λ e. ends (k.client i) (k.send_up i) s (rw e there))
  Steps-up ends m there _ _ _ (lxd {i} {j} {s} r down can) =
      Bounded-same (lxd_to_client_leaves (k.lxd j) (k.send_down j) s).0
        (Steps-up ends m there i j s r)
  Steps-up ends m there _ _ _ (fail {i} {j} {s} r e unsent up c) =
      Bounded-same (report_leaves (error_text e) unsent s).0 (Steps-up ends m there i j s r)

  Steps-down :
      (n : ℕ)
      → k.lxd n ≡ ended
      → (i j : ℕ) (s : Relay) → Steps client_side error_text k i j s
      → Bounded s.down j n
  Steps-down n there _ _ _ start = Bounded-start n
  Steps-down n there _ _ _ (client {i} {j} {s} r up) =
      Bounded-same (leaves (k.client i) (k.send_up i) s).2 (Steps-down n there i j s r)
  Steps-down n there _ _ _ (lxd {i} {j} {s} r down can) =
      Bounded-suc down (Steps-down n there i j s r)
        (λ e. lxd_to_client-ended (k.lxd j) (k.send_down j) s (ap k.lxd e ∙ there))
  Steps-down n there _ _ _ (fail {i} {j} {s} r e unsent up c) =
      Bounded-same (report_leaves (error_text e) unsent s).1 (Steps-down n there i j s r)

  shut-le : (c : Option ℕ) → shut c ≤ 1
  shut-le none = omega arith
  shut-le (some code) = omega arith

  rounds-le :
      (m n i j : ℕ) (s : Relay) (r : Steps client_side error_text k i j s)
      → Bounded s.up i m
      → Bounded s.down j n
      → rounds r ≤ m + n + 3
  rounds-le m n i j s r b d =
      omega (arith, rounds_eq i j s r, b.not_past, d.not_past, shut-le s.closed)

  -- One step more.
  abbrev pub Further : {i j : ℕ} {s : Relay} → Steps client_side error_text k i j s → Type 0
  Further r =
      (i' j' : ℕ) × (t : Relay) × (r' : Steps client_side error_text k i' j' t) × (rounds r'
        ≡ suc (rounds r))

  Sendable-none : (c : Option ℕ) (e : Option String) → c ≡ none → Sendable c e
  Sendable-none none e h = tt
  Sendable-none (some code) e h = cc

  waits_for_lxd :
      (i j : ℕ) (s : Relay) (r : Steps client_side error_text k i j s) (d : Task)
      → s.up ≡ done
      → s.down ≡ d
      → s.closed ≡ none
      → Over s ⊎ Further r
  unfolding rounds gather
  waits_for_lxd i j s r running u e c =
      inr (i, suc j, _, lxd r e (Sendable-none s.closed (k.send_down j) c), refl)
  waits_for_lxd i j s r (done) u e c = inl (returned (rw (u, e, gather) refl))
  waits_for_lxd i j s r (raised x) u e c = absurd (Steps-IsCaught i j s r x e)

  goes_on :
      (i j : ℕ) (s : Relay) (r : Steps client_side error_text k i j s) (u : Task) (c : Option ℕ)
      → s.up ≡ u
      → s.closed ≡ c
      → Over s ⊎ Further r
  unfolding rounds
  goes_on i j s r u (some code) e c = inl (reported code c)
  goes_on i j s r running none e c = inr (suc i, j, _, client r e, refl)
  goes_on i j s r (done) none e c = waits_for_lxd i j s r s.down e refl c
  goes_on i j s r (raised x) none e c = inr (i, j, _, fail r x true e c, refl)

  relay_ends :
      EndsOnLeaving client_side
      → (m n : ℕ) → IsLeaving (k.client m)
      → k.lxd n ≡ ended
      → (i j : ℕ) (s : Relay) (r : Steps client_side error_text k i j s)
      → (rounds r ≤ m + n + 3) × (Over s ⊎ Further r)
  relay_ends ends m n leaves_at ends_at i j s r = (
    rounds-le m n i j s r (Steps-up ends m leaves_at i j s r) (Steps-down n ends_at i j s r),
    goes_on i j s r s.up s.closed refl refl,
  )

-- If the client leaves after `m` messages and LXD's socket ends after `n` frames, `_proxy_exec_ws` comes
-- to its end, however its two tasks are interleaved: it takes at most `m + n + 3` steps, and in every
-- state in which the handler is not over there is a further step.
pub exec_relay_ends :
    (k : Sockets) (m n : ℕ)
    → IsLeaving (k.client m)
    → k.lxd n ≡ ended
    → (i j : ℕ) (s : Relay) (r : Steps client_to_lxd exec_error k i j s)
    → (rounds client_to_lxd exec_error k client_to_lxd-Leaves r ≤ m + n + 3)
      × (Over s ⊎ Further client_to_lxd exec_error k client_to_lxd-Leaves r)
exec_relay_ends k m n =
    relay_ends client_to_lxd exec_error k client_to_lxd-Leaves client_to_lxd-EndsOnLeaving m n

-- The same of `operations_ws`.
events_relay_ends :
    (dumps : String → String) (k : Sockets) (m n : ℕ)
    → IsLeaving (k.client m)
    → k.lxd n ≡ ended
    → (i j : ℕ) (s : Relay) (r : Steps watch_client dumps k i j s)
    → (rounds watch_client dumps k watch_client-Leaves r ≤ m + n + 3)
      × (Over s ⊎ Further watch_client dumps k watch_client-Leaves r)
events_relay_ends dumps k m n =
    relay_ends watch_client dumps k watch_client-Leaves watch_client-EndsOnLeaving m n
