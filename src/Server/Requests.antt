-- ===== src/Server/Requests.antt =====
-- A request from its arrival to its response: main.py around the endpoints of api/v1/routes.
pub mod Reads
use mathlib.Core.Path.{subst}
use lxd_management_api.Base.{
  ℕ, String, ◌<>◌, ◌≡◌, refl, sym, ap, ◌∙◌, ◌⊎◌, inl, inr, Option, none, some, Bool, true, false,
  if◌then◌else◌,
}
use lxd_management_api.Json.{Value, str, obj, as_dict, Dict, empty, entry, get}
use lxd_management_api.Json.Laws.{get-put_self}
use lxd_management_api.Error.{Exn, http, validation_error, Result, ok, err}
use lxd_management_api.App.{Log}
use lxd_management_api.App.Raises.{IsUsual}
use lxd_management_api.Security.{Role, at_least, role_or_viewer, role_value}
use lxd_management_api.Users.{User}
use lxd_management_api.Deps.{Auth, get_current_user, require_role}
use lxd_management_api.Deps.Laws.{require_role_lem}
use lxd_management_api.Deps.Refusals.{Is401, get_current_user-Is401}
use lxd_management_api.Routes.Common.{Api}
use lxd_management_api.Routes.Endpoint.{Endpoint, Answer, json, run}
use lxd_management_api.Routes.Endpoint.Access.{run_denied}
use lxd_management_api.Routes.Endpoint.Declared.{
  required, success_status, ReturnType, returns, fits, passes_on,
}
use lxd_management_api.Routes.Endpoint.Errors.{run-Raises}
use lxd_management_api.Routes.Endpoint.Contained.{caller-IsUsual}
use lxd_management_api.Routes.Endpoint.Calls.{call}
use lxd_management_api.Routes.Endpoint.Answers.{call-fits}
use lxd_management_api.Server.{
  HttpResponse, request_id, stamped, dispatch, answered, serve, unhandled_exception_handler,
}

err-injective : {A : Type 0} {x y : Exn} → ◌≡◌ {A = Result A} (err x) (err y) → x ≡ y
err-injective h = cc

abbrev denied : Log → Exn → Result Answer × Log
denied log e = (err e, log)

-- `render` is the encoding of an answer and `headers` are those that an exception carries.
module _ (render : Answer → Value) (headers : Exn → Dict) where
  -- FastAPI documents that it validates what a handler returns against the type that it declares, and
  -- raises an exception of its own if that fails; and that it answers an `HTTPException` with its status
  -- and its detail, and lets every other exception through.
  unfoldable pub respond : ReturnType → ℕ → Result Answer → Result HttpResponse
  unfolding fits
  respond type status (ok a) =
      if fits type a
      then ok (record { status_code = status; body = render a; headers = empty })
      else err validation_error
  respond type status (err (http code detail)) = ok (record {
    status_code = code;
    body = obj (entry "detail" (str detail) empty);
    headers = headers (http code detail);
  })
  respond type status (err e) = err e

  module _ (auth : Auth) (api : Api) (now : ℕ) (db : auth.users.State) (uuid context : String) where
    -- The response to a request with an id in its header and credentials, and the log of LXD.
    unfoldable pub handle : Option String → Option String → Endpoint → Log → HttpResponse × Log
    unfolding serve respond success_status returns call
    handle header creds endpoint log =
        let p = call auth now db creds api endpoint log in
        (
          serve uuid header (λ id. respond (returns endpoint) (success_status endpoint) p.0)
              context,
          p.1,
        )

    -- An `HTTPException` is answered with its status and with the id of the request.
    handled_http :
        (header creds : Option String) (endpoint : Endpoint) (log : Log) (code : ℕ)
        (detail : String)
        → call auth now db creds api endpoint log ≡ (err (http code detail), log)
        → ((handle header creds endpoint log).0.status_code ≡ code)
          × (get "X-Request-ID" (handle header creds endpoint log).0.headers
              ≡ some (str (request_id uuid header)))
          × ((handle header creds endpoint log).1 ≡ log)
    unfolding handle serve dispatch stamped answered
    handled_http header creds endpoint log code detail h =
        rw (h, handle, serve, dispatch)
          (
            refl,
            get-put_self "X-Request-ID" (str (request_id uuid header)) (headers (http code detail)),
            refl,
          )

    refused_user :
        (u : User) (role : Role) (e : Exn) (enough : Bool)
        → at_least (role_or_viewer u.role) role ≡ enough
        → require_role role (ok u) ≡ err e
        → (detail : String) × (e ≡ http 403 detail)
    refused_user u role e true b k = cc ((require_role_lem role u).0 b)
    refused_user u role e false b k = (
      "Role '" <> role_value role <> "' or higher required",
      sym (err-injective (sym ((require_role_lem role u).1 b) ∙ k)),
    )

    refused_caller :
        (caller : Result User) (role : Role) (e : Exn)
        → ((x : Exn) → caller ≡ err x → Is401 x)
        → require_role role caller ≡ err e
        → (code : ℕ) × (detail : String) × (e ≡ http code detail) × ((code ≡ 401) ⊎ (code ≡ 403))
    unfolding require_role
    refused_caller (err x) role e h k =
        let (detail, same) = h x refl in (401, detail, sym (err-injective k) ∙ same, inl refl)
    refused_caller (ok u) role e h k =
        let (detail, same) = refused_user u role e _ refl k in (403, detail, same, inr refl)

    -- If the credentials of a request open no active account, or the role of the account is too low
    -- for the endpoint: the response has status 401 or 403 and the id of the request in its header,
    -- and nothing is sent to LXD.
    pub refused_request :
        (header creds : Option String) (endpoint : Endpoint) (log : Log) (e : Exn)
        → require_role (required endpoint) (get_current_user auth now db creds) ≡ err e
        → (((handle header creds endpoint log).0.status_code ≡ 401)
            ⊎ ((handle header creds endpoint log).0.status_code ≡ 403))
          × (get "X-Request-ID" (handle header creds endpoint log).0.headers
              ≡ some (str (request_id uuid header)))
          × ((handle header creds endpoint log).1 ≡ log)
    unfolding call
    refused_request header creds endpoint log e h =
        let caller = get_current_user auth now db creds in
        let (code, detail, same, which) =
          refused_caller caller (required endpoint) e (get_current_user-Is401 auth now db creds)
            h in
        let (status, id, kept) =
          handled_http header creds endpoint log code detail
            (run_denied api caller endpoint e log h ∙ ap (denied log) same) in
        (elim which [ inl l ↦ inl (status ∙ l) | inr r ↦ inr (status ∙ r) ], id, kept)
