-- ===== src/Routes/Sockets/Access.antt =====
-- Who gets through the three WebSocket handlers, and how the others are turned away.
use lxd_management_api.Base.{
  ℕ, String, ◌≡◌, ◌⊎◌, inl, inr, refl, Bool, true, false, Option, none, some, Option-cases, arith,
  if◌then◌else◌,
}
use lxd_management_api.Base.Text.{nonempty}
use lxd_management_api.Error.{Exn, http, Result, ok, err}
use lxd_management_api.App.{Log}
use lxd_management_api.Security.{Role, viewer, operator}
use lxd_management_api.Users.{User}
use lxd_management_api.Deps.{Auth, ws_user_from_token}
use lxd_management_api.Deps.Refusals.{Is401, ws_user_from_token-Is401}
use lxd_management_api.Routes.Common.{Api}
use lxd_management_api.Routes.Sockets.{
  Session, closed, admit_user, admit, session, exec_ws, console_ws, operations_ws, exec_opened,
  console_opened, events_opened,
}
use lxd_management_api.Routes.Sockets.Laws.{HasRole, admit-eq-none}

-- A WebSocket that a client asks for, with its parameters.
pub data Socket : Type 0 where
  exec : String → Option String → Option String → Socket
  console : String → String → Option String → Socket
  events : Socket

-- The role that its documentation states.
unfoldable pub socket_role : Socket → Role
socket_role (exec _ _ _) = operator
socket_role (console _ _ _) = operator
socket_role events = viewer

module _ (api : Api) (quote : String → String) (auth : Auth) (now : ℕ) (db : auth.users.State)
    (token : Option String) where
  -- The handler of a WebSocket.
  unfoldable pub open_socket : Socket → Log → Session × Log
  unfolding exec_ws console_ws operations_ws
  open_socket (exec name command project) = exec_ws api quote auth now db token name command project
  open_socket (console name type project) = console_ws api quote auth now db token name type project
  open_socket events = operations_ws api quote auth now db token

  -- Closed before it was accepted.
  abbrev pub IsTurnedAway : Session → Type 0
  IsTurnedAway s = (s ≡ closed 4401) ⊎ (s ≡ closed 4403)

  admit_user-refusal :
      (role : Role) (r : Result User) (s : Session)
      → ((e : Exn) → r ≡ err e → Is401 e)
      → admit_user auth role r ≡ some s
      → IsTurnedAway s
  unfolding admit_user
  admit_user-refusal role (ok user) s k h = ground arith
  admit_user-refusal role (err (http status detail)) s k h = inl cc
  admit_user-refusal role (err e) s k h = let (detail, same) = k e refl in absurd cc

  filled-refusal :
      (role : Role) (b : Bool) (r : Result User) (s : Session)
      → ((e : Exn) → r ≡ err e → Is401 e)
      → (if b then admit_user auth role r else some (closed 4401)) ≡ some s
      → IsTurnedAway s
  filled-refusal role true r s k h = admit_user-refusal role r s k h
  filled-refusal role false r s k h = inl cc

  admit-refusal :
      (role : Role) (given : Option String) (s : Session)
      → admit auth role now db given ≡ some s
      → IsTurnedAway s
  unfolding admit
  admit-refusal role none s h = inl cc
  admit-refusal role (some text) s h =
      filled-refusal role (nonempty text) (ws_user_from_token auth now db text) s
        (ws_user_from_token-Is401 auth now db text) h

  session-access :
      (role : Role) (body : Log → Session × Log) (log : Log)
      → HasRole auth now db role token
        ⊎ (IsTurnedAway (session api quote auth now db token role body log).0
            × ((session api quote auth now db token role body log).1 ≡ log))
  unfolding session
  session-access role body log = elim (Option-cases (admit auth role now db token)) [
    | inl e ↦ inl (admit-eq-none auth now db role token e)
    | inr (s, e) ↦ inr (rw (e, session) (admit-refusal role token s e, refl))
  ]

  -- For each of the three WebSockets: `ws_user_from_token` finds for its token a user whose role is at
  -- least the one that the handler wants, or the socket is closed with 4401 or 4403 before it is
  -- accepted and LXD is sent nothing.
  pub open_socket-HasRole :
      (socket : Socket) (log : Log)
      → HasRole auth now db (socket_role socket) token
        ⊎ (IsTurnedAway (open_socket socket log).0 × ((open_socket socket log).1 ≡ log))
  unfolding open_socket socket_role
  open_socket-HasRole (exec name command project) log =
      session-access operator (exec_opened api quote name command project) log
  open_socket-HasRole (console name type project) log =
      session-access operator (console_opened api quote name type project) log
  open_socket-HasRole events log = session-access viewer (events_opened api quote) log
