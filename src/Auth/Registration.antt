-- ===== src/Auth/Registration.antt =====
-- What registration does.
use lxd_management_api.Base.{
  String, eq_refl, ◌≡◌, refl, sym, ap, ◌∙◌, ◌≢◌, true, none, some, inl, inr, arith,
}
use lxd_management_api.Error.{Result-cases, Exn, http, value_error, Result, ok, err}
use lxd_management_api.Security.{
  admin, role_of, Crypt, IsLawfulCrypt, hash_password, verify_password, role_value,
}
use lxd_management_api.Security.Laws.{role_of-role_value, hash_password-eq-ok}
use lxd_management_api.Users.{User, IsLawful, get_user_by_username, create_user}
use lxd_management_api.Users.Laws.{create_user_lem, create_user_only_value}
use lxd_management_api.Deps.{Auth, require_role}
use lxd_management_api.Auth.{UserCreate, UserOut, register, registered, user_out}
use lxd_management_api.Auth.Logins.{IsLogin}

module _ (auth : Auth) (crypt : Crypt) where
  open auth use {settings, jwt, users, repr}

  registered-eq-ok :
      (p : Result User × users.State) (out : UserOut)
      → (registered auth crypt p).0 ≡ ok out
      → (u : User) × (p.0 ≡ ok u) × (user_out u ≡ ok out) × ((registered auth crypt p).1 ≡ p.1)
  unfolding registered
  registered-eq-ok (ok u, t) out h = (u, refl, h, refl)
  registered-eq-ok (err e, t) out h = cc

  registered_value_error :
      (p : Result User × users.State) (detail : String)
      → p.0 ≡ err (value_error detail)
      → registered auth crypt p ≡ (err (http 409 detail), p.1)
  unfolding registered
  registered_value_error (ok u, t) detail h = cc
  registered_value_error (err e, t) detail h = ap (λ r. registered auth crypt (r, t)) h

  user_out-eq-ok :
      (u : User) (out : UserOut)
      → user_out u ≡ ok out
      → (out.username ≡ u.username) × (role_of u.role ≡ some out.role)
  unfolding user_out
  user_out-eq-ok u out h = ground arith

  verified_hash :
      IsLawfulCrypt crypt
      → (salt password hashed : String) → hash_password crypt salt password ≡ ok hashed
      → verify_password crypt password hashed ≡ true
  unfolding verify_password
  verified_hash hashes salt password hashed h =
      let (plain, same) = hash_password-eq-ok crypt salt password hashed h in
      rw (← same) (rw (hashes.verify-hash salt password plain, verify_password))

  registered-state : (p : Result User × users.State) → (registered auth crypt p).1 ≡ p.1
  unfolding registered
  registered-state (ok u, t) = refl
  registered-state (err e, t) = refl

  -- For an administrator, `register` leaves the store that `create_user` leaves.
  pub register-state :
      (salt : String) (db : users.State) (caller : Result User) (payload : UserCreate) (user : User)
      → require_role admin caller ≡ ok user
      → (register auth crypt salt db caller payload).1
        ≡ (create_user users repr crypt salt db payload.username payload.password
            (role_value payload.role)).1
  unfolding register
  register-state salt db caller payload user h = rw (h, register) (registered-state _)

  module _ (lawful : IsLawful users) (hashes : IsLawfulCrypt crypt) (salt : String)
      (db : users.State) (caller : Result User) (payload : UserCreate) where
    -- The outcome of `register`.
    abbrev result : Result UserOut × users.State
    result = register auth crypt salt db caller payload

    created : Result User × users.State
    created =
        create_user users repr crypt salt db payload.username payload.password
          (role_value payload.role)

    register_allowed :
        (user : User) → require_role admin caller ≡ ok user → result ≡ registered auth crypt created
    unfolding register created
    register_allowed user h = rw (h, register)

    -- If the caller does not pass as an administrator, `register` raises the exception of that check
    -- and leaves the store as it was.
    pub register_only_admin : (e : Exn) → require_role admin caller ≡ err e → result ≡ (err e, db)
    unfolding register
    register_only_admin e h = rw (h, register)

    created-IsLogin :
        (out : UserOut) (u : User)
        → created.0 ≡ ok u
        → user_out u ≡ ok out
        → result.1 ≡ created.1
        → (get_user_by_username users db payload.username ≡ none)
          × (out.username ≡ payload.username)
          × (out.role ≡ payload.role)
          × ((user : User) × IsLogin auth crypt result.1 payload.username payload.password user)
    unfolding created
    created-IsLogin out u p q t =
        let (made, _) =
          create_user_lem users lawful repr crypt salt db payload.username payload.password
            (role_value payload.role) in
        let (added, named, hashed, role, active) = made u p in
        let (out_name, out_role) = user_out-eq-ok u out q in
        (
          added.was_free,
          out_name ∙ named,
          cc (out_role, ap role_of role, role_of-role_value payload.role),
          (
            u,
            record {
              found =
                  ap (λ s. get_user_by_username users s payload.username) t
                  ∙ added.lookups payload.username
                  ∙ rw (eq_refl payload.username);
              active = active;
              verified = verified_hash hashes salt payload.password u.hashed_password hashed;
            },
          ),
        )

    -- Over a user store and a password hash that keep their promises: if `register` succeeds, the name
    -- was free, the answer has the name and the role of the request, and in the store it leaves the
    -- name and the password of the request are those of an active account, so they log in.
    pub register-IsLogin :
        (out : UserOut)
        → result.0 ≡ ok out
        → (get_user_by_username users db payload.username ≡ none)
          × (out.username ≡ payload.username)
          × (out.role ≡ payload.role)
          × ((user : User) × IsLogin auth crypt result.1 payload.username payload.password user)
    register-IsLogin out h = elim (Result-cases (require_role admin caller)) [
      | inl (user, allowed) ↦
          let made = register_allowed user allowed in
          let (u, p, q, t) =
            registered-eq-ok created out
              (ap (λ (r : Result UserOut × users.State). r.0) (sym made) ∙ h) in
          created-IsLogin out u p q (ap (λ (r : Result UserOut × users.State). r.1) made ∙ t)
      | inr (e, refused) ↦
          cc (ap (λ (r : Result UserOut × users.State). r.0) (register_only_admin e refused), h)
    ]

    -- Over a user store that keeps its promises: if the caller is an administrator and the name is
    -- taken, `register` answers 409 and leaves the store as it was.
    pub register_conflict :
        (user : User)
        → require_role admin caller ≡ ok user
        → get_user_by_username users db payload.username ≢ none
        → (detail : String) × (result ≡ (err (http 409 detail), db))
    unfolding created
    register_conflict user allowed taken = elim (Result-cases created.0) [
      | inl (u, p) ↦
          let (made, _) =
            create_user_lem users lawful repr crypt salt db payload.username payload.password
              (role_value payload.role) in
          absurd (taken (made u p).0.was_free)
      | inr (e, p) ↦
          let (_, failed) =
            create_user_lem users lawful repr crypt salt db payload.username payload.password
              (role_value payload.role) in
          let (detail, same) = create_user_only_value users repr crypt salt db _ _ _ e p in
          (
            detail,
            register_allowed user allowed
                ∙ registered_value_error created detail (p ∙ ap err same)
                ∙ ap (λ (s : users.State). (err (http 409 detail), s)) (failed e p).unchanged,
          )
    ]
