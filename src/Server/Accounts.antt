-- ===== src/Server/Accounts.antt =====
-- The accounts over the life of the service: any number of registrations (routes/auth.py) and of
-- startups (main.py), which are the only callers of what adds an account. No route changes or
-- removes one.
use lxd_management_api.Base.{
  ℕ, String, ◌≡◌, refl, sym, ap, ◌∙◌, ◌⊎◌, inl, inr, Option, none, some, Option-cases, List, [],
  ◌∷◌, Bool, true, false,
}
use lxd_management_api.Base.Text.{strip}
use lxd_management_api.Error.{Result, ok, err}
use lxd_management_api.Security.{Crypt, admin, at_least, role_or_viewer, role_value}
use lxd_management_api.Users.{User, IsLawful, get_user_by_username, seed_admin}
use lxd_management_api.Users.History.{
  Change, Change-found, Change-kept, create_user-Change, seed_admin-Change,
}
use lxd_management_api.Deps.{Auth, get_current_user, require_role}
use lxd_management_api.Deps.Laws.{require_role_lem}
use lxd_management_api.Auth.{UserCreate, register}
use lxd_management_api.Auth.Registration.{register-state}
use lxd_management_api.Routes.Endpoint.Calls.{HasCredentials, HasCredentials_lem}

-- A registration at a time with credentials, or a startup; `salt` is what the hash draws.
pub data Event : Type 0 where
  registration : ℕ → String → Option String → UserCreate → Event
  restart : String → Event

module _ (auth : Auth) (crypt : Crypt) where
  open auth use {settings, users, repr}

  -- The store after an event.
  unfoldable pub after : Event → users.State → users.State
  unfolding register get_current_user seed_admin
  after (registration now salt creds payload) s =
      (register auth crypt salt s (get_current_user auth now s creds) payload).1
  after (restart salt) s = (seed_admin users repr crypt salt settings s).1

  unfoldable pub after_all : List Event → users.State → users.State
  unfolding after
  after_all [] s = s
  after_all (e ∷ es) s = after_all es (after e s)

  -- Who an event may have added `u` for, under `name`.
  pub data Origin (name : String) (u : User) (s : users.State) : Event → Type 0 where
    by_admin :
        (now : ℕ) (salt : String) (creds : Option String) (payload : UserCreate)
        → HasCredentials auth now s creds admin
        → name ≡ payload.username
        → u.role ≡ role_value payload.role
        → Origin name u s (registration now salt creds payload)
    by_settings :
        (salt : String)
        → name ≡ strip settings.seed_admin_username
        → u.role ≡ role_value admin
        → Origin name u s (restart salt)

  -- Some event of a list has added the account, in the store of its time.
  pub data Somewhere (name : String) (u : User) : users.State → List Event → Type 0 where
    first :
        (s : users.State) (e : Event) (es : List Event)
        → Origin name u s e
        → Somewhere name u s (e ∷ es)
    later :
        (s : users.State) (e : Event) (es : List Event)
        → Somewhere name u (after e s) es
        → Somewhere name u s (e ∷ es)

  module _ (lawful : IsLawful users) where
    -- A registration changes the store only for an administrator.
    data Registered (now : ℕ) (creds : Option String) (payload : UserCreate) (s t : users.State)
        : Type 0 where
      refused : t ≡ s → Registered now creds payload s t
      allowed :
          HasCredentials auth now s creds admin
          → Change users payload.username (role_value payload.role) s t
          → Registered now creds payload s t

    register_user :
        (now : ℕ) (salt : String) (creds : Option String) (payload : UserCreate) (s : users.State)
        (u : User) (b : Bool)
        → get_current_user auth now s creds ≡ ok u
        → at_least (role_or_viewer u.role) admin ≡ b
        → Registered now creds payload s (register auth crypt salt s (ok u) payload).1
    unfolding register
    register_user now salt creds payload s u true h b =
        rw (register-state auth crypt salt s (ok u) payload u ((require_role_lem admin u).0 b)) (
          allowed (HasCredentials_lem auth now s creds admin u h b) (
            create_user-Change users lawful repr crypt salt s payload.username payload.password
              (role_value payload.role)))
    register_user now salt creds payload s u false h b =
        rw ((require_role_lem admin u).1 b, register) (refused refl)

    register-Registered :
        (now : ℕ) (salt : String) (creds : Option String) (payload : UserCreate) (s : users.State)
        (caller : Result User)
        → get_current_user auth now s creds ≡ caller
        → Registered now creds payload s (register auth crypt salt s caller payload).1
    unfolding register require_role
    register-Registered now salt creds payload s (err e) h = refused refl
    register-Registered now salt creds payload s (ok u) h =
        register_user now salt creds payload s u _ h refl

    found_registered :
        (now : ℕ) (salt : String) (creds : Option String) (payload : UserCreate) (s t : users.State)
        (name : String) (u : User)
        → Registered now creds payload s t
        → get_user_by_username users t name ≡ some u
        → (get_user_by_username users s name ≡ some u)
          ⊎ Origin name u s (registration now salt creds payload)
    found_registered now salt creds payload s t name u (refused e) h =
        inl (ap (λ x. get_user_by_username users x name) (sym e) ∙ h)
    found_registered now salt creds payload s t name u (allowed c change) h =
        elim (Change-found users _ _ s t name u change h) [
          | inl old ↦ inl old
          | inr (named, role) ↦ inr (by_admin now salt creds payload c named role)
        ]

    kept_registered :
        (now : ℕ) (creds : Option String) (payload : UserCreate) (s t : users.State) (name : String)
        (u : User)
        → Registered now creds payload s t
        → get_user_by_username users s name ≡ some u
        → get_user_by_username users t name ≡ some u
    kept_registered now creds payload s t name u (refused e) h =
        ap (λ x. get_user_by_username users x name) e ∙ h
    kept_registered now creds payload s t name u (allowed c change) h =
        Change-kept users _ _ s t name u change h

    found_after :
        (e : Event) (s : users.State) (name : String) (u : User)
        → get_user_by_username users (after e s) name ≡ some u
        → (get_user_by_username users s name ≡ some u) ⊎ Origin name u s e
    unfolding after
    found_after (registration now salt creds payload) s name u h =
        found_registered now salt creds payload s _ name u
          (register-Registered now salt creds payload s _ refl) h
    found_after (restart salt) s name u h =
        elim (Change-found users _ _ s _ name u
          (seed_admin-Change users lawful repr crypt salt settings s) h) [
            | inl old ↦ inl old
            | inr (named, role) ↦ inr (by_settings salt named role)
          ]

    kept_after :
        (e : Event) (s : users.State) (name : String) (u : User)
        → get_user_by_username users s name ≡ some u
        → get_user_by_username users (after e s) name ≡ some u
    unfolding after
    kept_after (registration now salt creds payload) s name u h =
        kept_registered now creds payload s _ name u
          (register-Registered now salt creds payload s _ refl) h
    kept_after (restart salt) s name u h =
        Change-kept users _ _ s _ name u (seed_admin-Change users lawful repr crypt salt settings s)
          h

    found_after_all :
        (es : List Event) (s : users.State) (name : String) (u : User)
        → get_user_by_username users (after_all es s) name ≡ some u
        → (get_user_by_username users s name ≡ some u) ⊎ Somewhere name u s es
    unfolding after_all
    found_after_all [] s name u h = inl h
    found_after_all (e ∷ es) s name u h = elim (found_after_all es (after e s) name u h) [
      | inl early ↦ elim (found_after e s name u early) [
        | inl old ↦ inl old
        | inr origin ↦ inr (first s e es origin)
      ]
      | inr here ↦ inr (later s e es here)
    ]

    kept_after_all :
        (es : List Event) (s : users.State) (name : String) (u : User)
        → get_user_by_username users s name ≡ some u
        → get_user_by_username users (after_all es s) name ≡ some u
    unfolding after_all
    kept_after_all [] s name u h = h
    kept_after_all (e ∷ es) s name u h =
        kept_after_all es (after e s) name u (kept_after e s name u h)

    -- Over a database that keeps its promises, whatever registrations and startups follow: an account
    -- that is found afterwards was there before with the same fields, or its name was free and it was
    -- added since, with its role, by a registration whose credentials were an access token of an
    -- active administrator at that time, or, with the role `admin` and the name of the settings, by a
    -- startup.
    pub account_origin :
        (es : List Event) (s : users.State) (name : String) (u : User)
        → get_user_by_username users (after_all es s) name ≡ some u
        → (get_user_by_username users s name ≡ some u)
          ⊎ ((get_user_by_username users s name ≡ none) × Somewhere name u s es)
    account_origin es s name u h = elim (Option-cases (get_user_by_username users s name)) [
      | inl free ↦ elim (found_after_all es s name u h) [
        | inl old ↦ inl old
        | inr somewhere ↦ inr (free, somewhere)
      ]
      | inr (v, there) ↦ inl (there ∙ sym (kept_after_all es s name v there) ∙ h)
    ]
