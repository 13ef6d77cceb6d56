-- ===== src/Routes/Sockets/Laws.antt =====
-- Who reaches LXD through the WebSocket handlers, and what they find in LXD's reply.
use lxd_management_api.Base.{
  ℕ, String, ◌≡◌, ◌≢◌, refl, sym, ap, ◌∙◌, true, false, Bool, Option, ◌<>◌, Option-cases, inl, inr,
  if◌then◌else◌, none, some, arith,
}
use lxd_management_api.Base.Text.{nonempty}
use lxd_management_api.Json.{null, str, obj, Dict, get, get_or}
use lxd_management_api.Json.Laws.{get_or-some, get_or-none}
use lxd_management_api.Client
use lxd_management_api.Client.{with_body}
use lxd_management_api.Error.{http, Result, ok, err}
use lxd_management_api.App.{Log}
use lxd_management_api.Security.{Role, viewer, operator, at_least, role_or_viewer}
use lxd_management_api.Users.{User}
use lxd_management_api.Deps.{Auth, ws_user_from_token}
use lxd_management_api.Routes.Common.{Api}
use lxd_management_api.Routes.Sockets.Options.{Connection}
use lxd_management_api.Routes.Sockets.{
  Session, events_opened, closed, failed, relayed, operations_ws, admit_user, admit, session,
  exec_ws, console_ws, exec_opened, console_opened, member, exec_secret, exec_body, socket_params,
  proxy_exec_ws, op_dict_of, attached, opened,
}

no_secret :
    (op md : Dict)
    → get "metadata" op ≡ some (obj md)
    → get "metadata" md ≡ none
    → exec_secret op ≡ null
unfolding exec_secret
no_secret op md has lacks =
    ap (λ v. member "1" (member "metadata" v)) (get_or-some "metadata" null op has)
    ∙ ap (member "1") (get_or-none "metadata" null md lacks)

-- A session, from the end of its admission.
abbrev pub admitted_or : (Log → Session × Log) → Log → Option Session → Session × Log
admitted_or body log o = elim o [ none ↦ body log | some s ↦ (s, log) ]

module _ (auth : Auth) (now : ℕ) (db : auth.users.State) where
  -- A caller that is let in: the token leads to an account with the role.
  pub record HasRole (role : Role) (token : Option String) : Type 0 where
    pub text : String
    pub given : token ≡ some text
    pub user : User
    pub opens : ws_user_from_token auth now db text ≡ ok user
    pub allowed : at_least (role_or_viewer user.role) role ≡ true

  admit_user-eq-none :
      (role : Role) (r : Result User)
      → admit_user auth role r ≡ none
      → (user : User) × (r ≡ ok user) × (at_least (role_or_viewer user.role) role ≡ true)
  unfolding admit_user
  admit_user-eq-none role (ok user) h = (user, refl, ground arith)
  admit_user-eq-none role (err (http status detail)) h = cc
  admit_user-eq-none role (err e) h = cc

  filled_admits :
      (role : Role) (b : Bool) (r : Result User)
      → (if b then admit_user auth role r else some (closed 4401)) ≡ none
      → admit_user auth role r ≡ none
  filled_admits role true r h = h
  filled_admits role false r h = cc

  pub admit-eq-none :
      (role : Role) (token : Option String)
      → admit auth role now db token ≡ none
      → HasRole role token
  unfolding admit
  admit-eq-none role none h = cc
  admit-eq-none role (some token) h =
      let (user, opens, allowed) =
        admit_user-eq-none role (ws_user_from_token auth now db token)
          (filled_admits role (nonempty token) (ws_user_from_token auth now db token) h) in
      record { text = token; given = refl; user = user; opens = opens; allowed = allowed }

  admit_user-ne-relayed :
      (role : Role) (r : Result User) (c : Connection) → admit_user auth role r ≢ some (relayed c)
  unfolding admit_user
  admit_user-ne-relayed role (ok user) c h = ground arith
  admit_user-ne-relayed role (err (http status detail)) c h = cc
  admit_user-ne-relayed role (err e) c h = cc

  filled-ne-relayed :
      (role : Role) (b : Bool) (r : Result User) (c : Connection)
      → (if b then admit_user auth role r else some (closed 4401)) ≢ some (relayed c)
  filled-ne-relayed role true r c = admit_user-ne-relayed role r c
  filled-ne-relayed role false r c = λ h. cc

  admit-ne-relayed :
      (role : Role) (token : Option String) (c : Connection)
      → admit auth role now db token ≢ some (relayed c)
  unfolding admit
  admit-ne-relayed role none c h = cc
  admit-ne-relayed role (some token) c h =
      filled-ne-relayed role (nonempty token) (ws_user_from_token auth now db token) c h

  module _ (api : Api) (quote : String → String) (token : Option String) where
    session-HasRole :
        (role : Role) (body : Log → Session × Log) (log : Log)
        → (session api quote auth now db token role body log).1 ≢ log
        → HasRole role token
    unfolding session
    session-HasRole role body log h = elim (Option-cases (admit auth role now db token)) [
      | inl e ↦ admit-eq-none role token e
      | inr (s, e) ↦ absurd (h (ap (λ o. (admitted_or body log o).1) e))
    ]

    silent :
        (log : Log) (o : Option Session) → (admitted_or (events_opened api quote) log o).1 ≡ log
    unfolding events_opened
    silent log none = refl
    silent log (some t) = refl

    session_relayed :
        (role : Role) (body : Log → Session × Log) (log : Log) (c : Connection)
        → (session api quote auth now db token role body log).0 ≡ relayed c
        → HasRole role token
    unfolding session
    session_relayed role body log c h = elim (Option-cases (admit auth role now db token)) [
      | inl e ↦ admit-eq-none role token e
      | inr (s, e) ↦
          let same : s ≡ relayed c = ap (λ o. (admitted_or body log o).0) (sym e) ∙ h in
          absurd (admit-ne-relayed role token c (e ∙ ap some same))
    ]

    -- If `exec_ws` sends LXD anything, its token leads to an account whose role is at least operator.
    pub exec_ws-HasRole :
        (name : String) (command project : Option String) (log : Log)
        → (exec_ws api quote auth now db token name command project log).1 ≢ log
        → HasRole operator token
    unfolding exec_ws
    exec_ws-HasRole name command project log h =
        session-HasRole operator (exec_opened api quote name command project) log h

    -- If `console_ws` sends LXD anything, its token leads to an account whose role is at least
    -- operator.
    pub console_ws-HasRole :
        (name type : String) (project : Option String) (log : Log)
        → (console_ws api quote auth now db token name type project log).1 ≢ log
        → HasRole operator token
    unfolding console_ws
    console_ws-HasRole name type project log h =
        session-HasRole operator (console_opened api quote name type project) log h

    -- If the caller of `exec_ws` is let in, and LXD returns an operation whose metadata is a
    -- dictionary with no key `metadata` of its own, no relay is opened, whatever secrets the
    -- metadata has under `fds`: the session ends with the text that there is no secret.
    pub exec_ws_no_secret :
        (name command : String) (project : Option String) (log : Log) (op md : Dict)
        → admit auth operator now db token ≡ none
        → (Client.post api.lxd
            ("instances/" <> name <> "/exec")
            (with_body (exec_body api quote command) (socket_params project))
            log).0
          ≡ ok (obj op)
        → get "metadata" op ≡ some (obj md)
        → get "metadata" md ≡ none
        → (exec_ws api quote auth now db token name (some command) project log).0
          ≡ failed "no exec data secret returned by LXD"
    unfolding exec_ws session exec_opened opened attached op_dict_of
    exec_ws_no_secret name command project log op md let_in replied has lacks =
        ap
          (λ o.
            (admitted_or
              (opened api quote "exec failed: " exec_secret (
                Client.post api.lxd ("instances/" <> name <> "/exec")
                  (with_body (exec_body api quote command) (socket_params project))))
              log o).0)
          let_in
        ∙ ap (attached api quote "exec failed: " exec_secret) replied
        ∙ ap (proxy_exec_ws api quote (get_or "id" (str "") op)) (no_secret op md has lacks)
        ∙ unfold proxy_exec_ws in refl

    -- If `operations_ws` is connected to LXD, its token leads to an account whose role is at least
    -- viewer, and it has made no request to LXD's API.
    pub operations_ws-HasRole :
        (log : Log) (c : Connection)
        → (operations_ws api quote auth now db token log).0 ≡ relayed c
        → HasRole viewer token × ((operations_ws api quote auth now db token log).1 ≡ log)
    unfolding operations_ws session
    operations_ws-HasRole log c h = (
      session_relayed viewer (events_opened api quote) log c h,
      silent log (admit auth viewer now db token),
    )
