-- ===== src/Deps/Laws.antt =====
-- Who is let in.
use lxd_management_api.Base.{
  ℕ, String, ◌<>◌, eq_iff, ◌≡◌, refl, sym, ap, ap₂, ◌∙◌, ◌≢◌, Bool, true, false, not, Option, none,
  some, Option-cases, inl, inr, arith, if◌then◌else◌,
}
use lxd_management_api.Base.Text.{nonempty}
use lxd_management_api.Json.{Value, null, str, Dict, get, get_or, truthy}
use lxd_management_api.Json.Laws.{get_or-some, get_or-none}
use lxd_management_api.Error.{Exn, http, Result, ok, err}
use lxd_management_api.Operation.{to_text}
use lxd_management_api.Security.{Role, at_least, role_or_viewer, decode_token, role_value}
use lxd_management_api.Users.{User, get_user_by_username}
use lxd_management_api.Deps.{
  unauthorized, is_text, Auth, active_or, user_of_payload, decoded_user, get_current_user,
  ws_user_of_payload, ws_decoded_user, ws_user_from_token, require_role,
}

is_text-eq : (text : String) (v : Value) → is_text text v ≡ true → v ≡ str text
is_text-eq text (str s) h = ap str ((eq_iff s text).0 h)
is_text-eq text (Value.null) h = cc
is_text-eq text _ h = cc

get_or-eq-str :
    (k text : String) (default : Value) (d : Dict)
    → default ≢ str text
    → get_or k default d ≡ str text
    → get k d ≡ some (str text)
unfolding get_or
get_or-eq-str k text default d other h = elim (Option-cases (get k d)) [
  | inl e ↦ absurd (other (sym (get_or-none k default d e) ∙ h))
  | inr (v, e) ↦ e ∙ ap some (sym (get_or-some k default d e) ∙ h)
]

-- The two tests that stand before the look-up of an account.
module _ (b c : Bool) (x y : Exn) (m : Result User) where
  abbrev pub gated : Result User
  gated = if not b then err x else if c then m else err y

gated-eq-ok :
    (b c : Bool) (x y : Exn) (m : Result User) (u : User)
    → gated b c x y m ≡ ok u
    → (b ≡ true) × (c ≡ true) × (m ≡ ok u)
gated-eq-ok true true x y m u h = (refl, refl, h)
gated-eq-ok true false x y m u h = cc
gated-eq-ok false c x y m u h = cc

module _ (auth : Auth) where
  open auth use {settings, jwt, users, repr}

  -- What a user that is let in has shown: the claims of an access token whose subject is the name of
  -- an active account.
  pub record IsBearer (db : users.State) (payload : Dict) (user : User) : Type 0 where
    pub is_access : get "type" payload ≡ some (str "access")
    pub subject : Value
    pub has_subject : get_or "sub" null payload ≡ subject
    pub named : truthy subject ≡ true
    pub found : get_user_by_username users db (to_text repr subject) ≡ some user
    pub active : user.is_active ≡ true

  active_or-eq-ok :
      (e : Exn) (o : Option User) (u : User)
      → active_or auth e o ≡ ok u
      → (o ≡ some u) × (u.is_active ≡ true)
  unfolding active_or
  active_or-eq-ok e none u h = cc
  active_or-eq-ok e (some v) u h = ground arith

  user_of_payload-eq-ok :
      (db : users.State) (payload : Dict) (u : User)
      → user_of_payload auth db payload ≡ ok u
      → IsBearer db payload u
  unfolding user_of_payload
  user_of_payload-eq-ok db payload u h =
      let (typed, named, m) = gated-eq-ok _ _ _ _ _ u h in
      let (found, active) = active_or-eq-ok unauthorized _ u m in
      record {
        is_access =
            get_or-eq-str "type" "access" null payload (λ e. cc) (is_text-eq "access" _ typed);
        subject = get_or "sub" null payload;
        has_subject = refl;
        named = named;
        found = found;
        active = active;
      }

  decoded_user-eq-ok :
      (db : users.State) (r : Result Dict) (u : User)
      → decoded_user auth db r ≡ ok u
      → (payload : Dict) × (r ≡ ok payload) × IsBearer db payload u
  unfolding decoded_user
  decoded_user-eq-ok db (ok payload) u h = (payload, refl, user_of_payload-eq-ok db payload u h)
  decoded_user-eq-ok db (err e) u h = cc

  filled-eq-ok :
      (b : Bool) (m : Result User) (u : User)
      → (if b then m else err unauthorized) ≡ ok u
      → (b ≡ true) × (m ≡ ok u)
  filled-eq-ok true m u h = (refl, h)
  filled-eq-ok false m u h = cc

  -- If `get_current_user` returns a user, the request carried a token that decodes now, under the
  -- secret, to claims of the type `access` whose subject names an active account, and the user is
  -- that account.
  pub get_current_user-eq-ok :
      (now : ℕ) (db : users.State) (creds : Option String) (u : User)
      → get_current_user auth now db creds ≡ ok u
      → (token : String) × (payload : Dict) × (creds ≡ some token)
        × (decode_token jwt settings now token ≡ ok payload)
        × IsBearer db payload u
  unfolding get_current_user
  get_current_user-eq-ok now db none u h = cc
  get_current_user-eq-ok now db (some token) u h =
      let (_, m) = filled-eq-ok (nonempty token) _ u h in
      let (payload, decoded, bearer) =
        decoded_user-eq-ok db (decode_token jwt settings now token) u m in
      (token, payload, refl, decoded, bearer)

  -- The account that a payload with the two claims given leads to, by each of the two paths.
  abbrev by_claims : users.State → Value → Value → Result User
  by_claims db type subject =
      if not (is_text "access" type)
      then err (http 401 "Access token required")
      else if truthy subject
      then active_or auth unauthorized (get_user_by_username users db (to_text repr subject))
      else err unauthorized

  abbrev by_ws_claims : users.State → Value → Value → Result User
  by_ws_claims db type subject =
      if not (is_text "access" type)
      then err (http 401 "Access token required")
      else active_or auth unauthorized (get_user_by_username users db (to_text repr subject))

  -- What a payload with a subject that is a text gives.
  pub user_of_payload_text :
      (db : users.State) (payload : Dict) (name : String)
      → get "type" payload ≡ some (str "access")
      → get "sub" payload ≡ some (str name)
      → nonempty name ≡ true
      → user_of_payload auth db payload
        ≡ active_or auth unauthorized (get_user_by_username users db name)
  unfolding user_of_payload
  user_of_payload_text db payload name t n f =
      ap₂ (by_claims db) (get_or-some "type" null payload t) (get_or-some "sub" null payload n)
      ∙ rw f

  ws_user_of_payload_text :
      (db : users.State) (payload : Dict) (name : String)
      → get "type" payload ≡ some (str "access")
      → get "sub" payload ≡ some (str name)
      → ws_user_of_payload auth db payload
        ≡ active_or auth unauthorized (get_user_by_username users db name)
  unfolding ws_user_of_payload
  ws_user_of_payload_text db payload name t n =
      ap₂ (by_ws_claims db) (get_or-some "type" null payload t)
        (get_or-some "sub" (str "") payload n)

  module _ (now : ℕ) (db : users.State) (token : String) (filled : nonempty token ≡ true) where
    pub get_current_user_payload :
        (payload : Dict)
        → decode_token jwt settings now token ≡ ok payload
        → get_current_user auth now db (some token) ≡ user_of_payload auth db payload
    unfolding get_current_user
    get_current_user_payload payload d = rw filled (ap (decoded_user auth db) d)

    pub get_current_user_undecoded :
        (e : Exn)
        → decode_token jwt settings now token ≡ err e
        → get_current_user auth now db (some token) ≡ err unauthorized
    unfolding get_current_user
    get_current_user_undecoded e d = rw filled (ap (decoded_user auth db) d)

  -- A payload of the type `refresh` is turned away.
  pub user_of_payload_refresh :
      (db : users.State) (payload : Dict)
      → get "type" payload ≡ some (str "refresh")
      → user_of_payload auth db payload ≡ err (http 401 "Access token required")
  unfolding user_of_payload
  user_of_payload_refresh db payload t =
      ap (λ type. by_claims db type (get_or "sub" null payload)) (get_or-some "type" null payload t)

  -- A token that is not empty and decodes to claims of the type `access` whose subject is a text that
  -- is not empty leads to the same user, or the same refusal, in a header and in a WebSocket's URL.
  pub ws_user_from_token_agrees :
      (now : ℕ) (db : users.State) (token name : String) (payload : Dict)
      → nonempty token ≡ true
      → decode_token jwt settings now token ≡ ok payload
      → get "type" payload ≡ some (str "access")
      → get "sub" payload ≡ some (str name)
      → nonempty name ≡ true
      → ws_user_from_token auth now db token ≡ get_current_user auth now db (some token)
  unfolding ws_user_from_token
  ws_user_from_token_agrees now db token name payload f d t n g =
      ap (ws_decoded_user auth db) d
      ∙ ws_user_of_payload_text db payload name t n
      ∙ sym (user_of_payload_text db payload name t n g)
      ∙ sym (get_current_user_payload now db token f payload d)

-- `require_role` lets exactly those callers pass whose role, read as `viewer` where it is unknown, is
-- at least the required one, and it hands on the user that was found; it turns the others away with
-- 403, and passes the exception of a request with no user on.
pub require_role_lem :
    (role : Role) (u : User)
    → (at_least (role_or_viewer u.role) role ≡ true → require_role role (ok u) ≡ ok u)
      × (at_least (role_or_viewer u.role) role ≡ false
          → require_role role (ok u)
            ≡ err (http 403 ("Role '" <> role_value role <> "' or higher required")))
      × ((e : Exn) → require_role role (err e) ≡ err e)
unfolding require_role
require_role_lem role u = (λ h. rw h, λ h. rw h, λ e. refl)
