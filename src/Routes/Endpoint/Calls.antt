-- ===== src/Routes/Endpoint/Calls.antt =====
-- A whole HTTP request: the dependency get_current_user (api/deps.py) on the credentials, then the
-- endpoint on its result.
use lxd_management_api.Base.{ℕ, String, ◌≡◌, ◌≢◌, refl, sym, ap, ◌∙◌, Option, some, true}
use lxd_management_api.Json.{Dict}
use lxd_management_api.Error.{Result, ok, err}
use lxd_management_api.App.{Log}
use lxd_management_api.App.Keeps.{mutations}
use lxd_management_api.Security.{
  Role, viewer, operator, admin, level, at_least, role_or_viewer, decode_token,
}
use lxd_management_api.Users.{User}
use lxd_management_api.Deps.{Auth, get_current_user}
use lxd_management_api.Deps.Laws.{IsBearer, get_current_user-eq-ok}
use lxd_management_api.Routes.Common.{Api}
use lxd_management_api.Routes.Endpoint.{Endpoint, Answer, run}
use lxd_management_api.Routes.Endpoint.Readers.{viewer_never_mutates}
use lxd_management_api.Routes.Endpoint.Operators.{operator_scope}
use lxd_management_api.Routes.Scope.{outside}

same_user :
    {u v : User} (t : Role) → ok u ≡ ok v → role_or_viewer u.role ≡ t → role_or_viewer v.role ≡ t
same_user t h r = cc

module _ (auth : Auth) (now : ℕ) (db : auth.users.State) (creds : Option String) where
  -- A request to an endpoint.
  unfoldable pub call : Api → Endpoint → Log → Result Answer × Log
  unfolding run get_current_user
  call api endpoint log = run api (get_current_user auth now db creds) endpoint log

  -- The credentials are an access token that decodes now, of an active account of at least the role.
  pub record HasCredentials (role : Role) : Type 0 where
    pub token : String
    pub given : creds ≡ some token
    pub payload : Dict
    pub decoded : decode_token auth.jwt auth.settings now token ≡ ok payload
    pub user : User
    pub bears : IsBearer auth db payload user
    pub allowed : at_least (role_or_viewer user.role) role ≡ true

  pub HasCredentials_lem :
      (role : Role) (u : User)
      → get_current_user auth now db creds ≡ ok u
      → at_least (role_or_viewer u.role) role ≡ true
      → HasCredentials role
  HasCredentials_lem role u found enough =
      let (token, payload, given, decoded, bears) =
        get_current_user-eq-ok auth now db creds u found in
      record {
        token = token;
        given = given;
        payload = payload;
        decoded = decoded;
        user = u;
        bears = bears;
        allowed = enough;
      }

  module _ (api : Api) (endpoint : Endpoint) (log : Log) where
    mutating_user :
        (u : User) (role : Role)
        → get_current_user auth now db creds ≡ ok u
        → role_or_viewer u.role ≡ role
        → mutations (call api endpoint log).1 ≢ mutations log
        → HasCredentials operator
    unfolding call at_least level
    mutating_user u viewer found r h =
        absurd
          (h (viewer_never_mutates api _ endpoint log (λ v e. same_user viewer (sym found ∙ e) r)))
    mutating_user u operator found r h =
        HasCredentials_lem operator u found (ap (λ (t : Role). at_least t operator) r)
    mutating_user u admin found r h =
        HasCredentials_lem operator u found (ap (λ (t : Role). at_least t operator) r)

    mutating_caller :
        (caller : Result User)
        → get_current_user auth now db creds ≡ caller
        → mutations (call api endpoint log).1 ≢ mutations log
        → HasCredentials operator
    unfolding call
    mutating_caller (ok u) found h = mutating_user u _ found refl h
    mutating_caller (err x) found h =
        absurd (h (viewer_never_mutates api _ endpoint log (λ v e. absurd cc)))

    -- If a request makes LXD receive a further request other than GET, its credentials are an access
    -- token that decodes now and names an active account, whose role is at least `operator`.
    pub mutation_needs_operator :
        mutations (call api endpoint log).1 ≢ mutations log → HasCredentials operator
    mutation_needs_operator h = mutating_caller _ refl h

    outside_user :
        (u : User) (role : Role)
        → get_current_user auth now db creds ≡ ok u
        → role_or_viewer u.role ≡ role
        → outside (call api endpoint log).1 ≢ outside log
        → HasCredentials admin
    unfolding call at_least level
    outside_user u admin found r h =
        HasCredentials_lem admin u found (ap (λ (t : Role). at_least t admin) r)
    outside_user u viewer found r h = absurd (
        h (
          operator_scope api _ endpoint log
            (λ v e k. let s = same_user viewer (sym found ∙ e) r in cc)))
    outside_user u operator found r h = absurd (
        h (
          operator_scope api _ endpoint log
            (λ v e k. let s = same_user operator (sym found ∙ e) r in cc)))

    outside_caller :
        (caller : Result User)
        → get_current_user auth now db creds ≡ caller
        → outside (call api endpoint log).1 ≢ outside log
        → HasCredentials admin
    unfolding call
    outside_caller (ok u) found h = outside_user u _ found refl h
    outside_caller (err x) found h =
        absurd (h (operator_scope api _ endpoint log (λ v e. absurd cc)))

    -- If a request makes LXD receive a further request that is no GET and whose URL is neither under
    -- `/1.0/instances/` nor under `/1.0/operations/`, its credentials are an access token that decodes
    -- now and names an active account, whose role is `admin`.
    pub infrastructure_needs_admin :
        outside (call api endpoint log).1 ≢ outside log → HasCredentials admin
    infrastructure_needs_admin h = outside_caller _ refl h
