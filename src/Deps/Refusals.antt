-- ===== src/Deps/Refusals.antt =====
-- How `get_current_user` and `ws_user_from_token` refuse a request.
use lxd_management_api.Base.{
  ℕ, Option, none, some, String, ◌≡◌, refl, Bool, true, false, not, if◌then◌else◌, arith,
}
use lxd_management_api.Json.{truthy, null, str, Dict, get_or}
use lxd_management_api.Error.{Exn, http, token_error, Result, ok, err}
use lxd_management_api.Security.{decode_token}
use lxd_management_api.Users.{User, get_user_by_username}
use lxd_management_api.Operation.{to_text}
use lxd_management_api.Base.Text.{nonempty}
use lxd_management_api.Deps.{
  unauthorized, active_or, user_of_payload, decoded_user, get_current_user, Auth, is_text,
  ws_user_of_payload, ws_decoded_user, ws_user_from_token,
}
use lxd_management_api.Deps.Laws.{gated}

-- An exception that answers 401.
abbrev pub Is401 : Exn → Type 0
Is401 e = (detail : String) × (e ≡ http 401 detail)

gated-Is401 :
    (b c : Bool) (x y : Exn) (m : Result User)
    → Is401 x
    → Is401 y
    → ((e : Exn) → m ≡ err e → Is401 e)
    → (e : Exn) → gated b c x y m ≡ err e
    → Is401 e
gated-Is401 true true x y m hx hy hm e h = hm e h
gated-Is401 true false x y m hx (d, hy) hm e h = (d, cc)
gated-Is401 false c x y m (d, hx) hy hm e h = (d, cc)

module _ (auth : Auth) where
  open auth use {settings, jwt, users, repr}

  active_or-Is401 : (o : Option User) (e : Exn) → active_or auth unauthorized o ≡ err e → Is401 e
  unfolding active_or
  active_or-Is401 none e h = ("Not authenticated", cc)
  active_or-Is401 (some u) e h = ("Not authenticated", ground arith)

  user_of_payload-Is401 :
      (db : users.State) (payload : Dict) (e : Exn)
      → user_of_payload auth db payload ≡ err e
      → Is401 e
  unfolding user_of_payload
  user_of_payload-Is401 db payload e h =
      let subject = get_or "sub" null payload in
      gated-Is401 (is_text "access" (get_or "type" null payload)) (truthy subject) _ _ _
        ("Access token required", refl) ("Not authenticated", refl)
        (active_or-Is401 (get_user_by_username users db (to_text repr subject))) e h

  decoded_user-Is401 :
      (db : users.State) (r : Result Dict) (e : Exn) → decoded_user auth db r ≡ err e → Is401 e
  unfolding decoded_user
  decoded_user-Is401 db (ok payload) e h = user_of_payload-Is401 db payload e h
  decoded_user-Is401 db (err x) e h = ("Not authenticated", cc)

  filled-Is401 :
      (b : Bool) (m : Result User)
      → ((e : Exn) → m ≡ err e → Is401 e)
      → (e : Exn) → (if b then m else err unauthorized) ≡ err e
      → Is401 e
  filled-Is401 true m hm e h = hm e h
  filled-Is401 false m hm e h = ("Not authenticated", cc)

  -- If `get_current_user` raises, it is an `HTTPException` with status 401.
  pub get_current_user-Is401 :
      (now : ℕ) (db : users.State) (creds : Option String) (e : Exn)
      → get_current_user auth now db creds ≡ err e
      → Is401 e
  unfolding get_current_user
  get_current_user-Is401 now db none e h = ("Not authenticated", cc)
  get_current_user-Is401 now db (some token) e h =
      filled-Is401 (nonempty token) _ (decoded_user-Is401 db (decode_token jwt settings now token))
        e h

  by_type :
      (b : Bool) (m : Result User)
      → ((e : Exn) → m ≡ err e → Is401 e)
      → (e : Exn) → (if b then err (http 401 "Access token required") else m) ≡ err e
      → Is401 e
  by_type true m k e h = ("Access token required", cc)
  by_type false m k e h = k e h

  decoded-Is401 :
      (db : users.State) (r : Result Dict) (e : Exn)
      → ((x : Exn) → r ≡ err x → (detail : String) × (x ≡ token_error detail))
      → ws_decoded_user auth db r ≡ err e
      → Is401 e
  unfolding ws_decoded_user ws_user_of_payload
  decoded-Is401 db (ok payload) e k h =
      by_type (not (is_text "access" (get_or "type" null payload))) _
        (active_or-Is401
          (get_user_by_username users db (to_text repr (get_or "sub" (str "") payload))))
        e h
  decoded-Is401 db (err (token_error detail)) e k h = (detail, cc)
  decoded-Is401 db (err x) e k h = let (detail, same) = k x refl in absurd cc

  decode_token_only_token :
      (now : ℕ) (token : String) (x : Exn)
      → decode_token jwt settings now token ≡ err x
      → (detail : String) × (x ≡ token_error detail)
  unfolding decode_token
  decode_token_only_token now token x h = ground arith

  -- If `ws_user_from_token` raises, it is an `HTTPException` with status 401.
  pub ws_user_from_token-Is401 :
      (now : ℕ) (db : users.State) (token : String) (e : Exn)
      → ws_user_from_token auth now db token ≡ err e
      → Is401 e
  unfolding ws_user_from_token
  ws_user_from_token-Is401 now db token e h =
      decoded-Is401 db _ e (decode_token_only_token now token) h
