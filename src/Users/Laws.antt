-- ===== src/Users/Laws.antt =====
-- Accounts: what creating and seeding do to the store.
use lxd_management_api.Base.{
  String, ◌==◌, eq_refl, ◌≡◌, refl, sym, ap, ◌∙◌, ◌≢◌, Option, none, some, Option-cases, inl, inr,
  Bool, true, false, not, ◌||◌, Bool-cases, arith, if◌then◌else◌, ◌⊎◌,
}
use lxd_management_api.Base.Text.{nonempty, strip}
use lxd_management_api.Json.{Value}
use lxd_management_api.Error.{Exn, Result, ok, err, value_error}
use lxd_management_api.Config.{Settings}
use lxd_management_api.Security.{Crypt, hash_password, admin, role_value}
use lxd_management_api.Security.Laws.{hash_password-eq-err, hash_password-refuses}
use lxd_management_api.Users.{
  User, NewUser, UserStore, Holds, IsLawful, get_user_by_username, committed, insert_hashed,
  create_user, seeded, seed_account, seed_admin,
}

err-injective : {a b : Exn} → ◌≡◌ {A = Result User} (err a) (err b) → a ≡ b
err-injective h = cc

module _ (db : UserStore) where
  -- The state `t` has the account `u` under `username`, which was free in `s`, and all else of `s`.
  pub record IsAdded (s : db.State) (username : String) (u : User) (t : db.State) : Type 0 where
    pub was_free : get_user_by_username db s username ≡ none
    pub lookups :
        (name : String)
        → get_user_by_username db t name
          ≡ (if username == name then some u else get_user_by_username db s name)

  -- The state is unchanged, and the name is taken.
  pub record IsTaken (s : db.State) (username : String) (t : db.State) : Type 0 where
    pub unchanged : t ≡ s
    pub taken : get_user_by_username db s username ≢ none

  -- The state is unchanged, and the name is taken or there is no hash.
  pub record IsFailed (s : db.State) (username : String) (h : Result String) (e : Exn)
      (t : db.State) : Type 0 where
    pub unchanged : t ≡ s
    pub reason : (get_user_by_username db s username ≢ none) ⊎ (h ≡ err e)

  module _ (lawful : IsLawful db) (repr : Value → String) where
    committed-err :
        (s : db.State) (n : NewUser) (o : Option (User × db.State)) (e : Exn)
        → db.insert s n ≡ o
        → (committed db repr n.username s o).0 ≡ err e
        → IsTaken s n.username (committed db repr n.username s o).1
    unfolding committed get_user_by_username
    committed-err s n none e h q = record {
      unchanged = refl;
      taken = (lawful.insert-eq-none s n).0 h;
    }
    committed-err s n (some (row, t)) e h q = cc

    committed-ok :
        (s : db.State) (n : NewUser) (o : Option (User × db.State)) (u : User)
        → db.insert s n ≡ o
        → (committed db repr n.username s o).0 ≡ ok u
        → IsAdded s n.username u (committed db repr n.username s o).1 × Holds u n
    unfolding committed get_user_by_username
    committed-ok s n none u h q = cc
    committed-ok s n (some (row, t)) u h q =
        let same : row ≡ u = ground arith in
        let free : db.by_username s n.username ≡ none =
          elim (Option-cases (db.by_username s n.username)) [
            | inl e ↦ e
            | inr (r, e) ↦ cc (h, (lawful.insert-eq-none s n).1 (λ z. cc (e, z)))
          ] in
        (
          record {
            was_free = free;
            lookups = rw (← same) (λ name. lawful.by_username-insert s n row t name h);
          },
          rw (← same) (lawful.insert-Holds s n row t h),
        )

    module _ (s : db.State) (username role : String) where
      insert_hashed-ok :
          (r : Result String) (u : User)
          → (insert_hashed db repr s username role r).0 ≡ ok u
          → IsAdded s username u (insert_hashed db repr s username role r).1
            × (u.username ≡ username)
            × (r ≡ ok u.hashed_password)
            × (u.role ≡ role)
            × (u.is_active ≡ true)
      unfolding insert_hashed
      insert_hashed-ok (err e) u h = cc
      insert_hashed-ok (ok hashed) u h =
          let (added, holds) = committed-ok s _ _ u refl h in
          (added, holds.username, ap ok (sym holds.hashed_password), holds.role, holds.is_active)

      insert_hashed-err :
          (r : Result String) (e : Exn)
          → (insert_hashed db repr s username role r).0 ≡ err e
          → IsFailed s username r e (insert_hashed db repr s username role r).1
      unfolding insert_hashed
      insert_hashed-err (err x) e h = record {
        unchanged = refl;
        reason = inr (ap err (err-injective h));
      }
      insert_hashed-err (ok hashed) e h =
          let kept = committed-err s _ _ e refl h in
          record { unchanged = kept.unchanged; reason = inl kept.taken }

    module _ (crypt : Crypt) (salt : String) (s : db.State) (username password role : String) where
      -- On success `create_user` adds an active account with the given name, role and hash, and
      -- changes the lookup of no other name; it fails only where the name is taken or the password is
      -- not hashed, and then leaves the store as it was.
      pub create_user_lem :
          ((u : User)
            → (create_user db repr crypt salt s username password role).0 ≡ ok u
            → IsAdded s username u (create_user db repr crypt salt s username password role).1
              × (u.username ≡ username)
              × (hash_password crypt salt password ≡ ok u.hashed_password)
              × (u.role ≡ role)
              × (u.is_active ≡ true))
          × ((e : Exn)
              → (create_user db repr crypt salt s username password role).0 ≡ err e
              → IsFailed s username
                  (hash_password crypt salt password)
                  e
                  (create_user db repr crypt salt s username password role).1)
      unfolding create_user
      create_user_lem = (
        insert_hashed-ok s username role (hash_password crypt salt password),
        insert_hashed-err s username role (hash_password crypt salt password),
      )

  committed_only_value :
      (repr : Value → String) (username : String) (s : db.State) (o : Option (User × db.State))
      (e : Exn)
      → (committed db repr username s o).0 ≡ err e
      → (detail : String) × (e ≡ value_error detail)
  unfolding committed
  committed_only_value repr username s none e h = (_, sym (err-injective h))
  committed_only_value repr username s (some (row, t)) e h = cc

  insert_hashed_only_value :
      (repr : Value → String) (s : db.State) (username role : String) (r : Result String) (e : Exn)
      → ((x : Exn) → r ≡ err x → (detail : String) × (x ≡ value_error detail))
      → (insert_hashed db repr s username role r).0 ≡ err e
      → (detail : String) × (e ≡ value_error detail)
  unfolding insert_hashed
  insert_hashed_only_value repr s username role (err x) e k h =
      let (detail, same) = k x refl in (detail, sym (err-injective h) ∙ same)
  insert_hashed_only_value repr s username role (ok hashed) e k h =
      committed_only_value repr username s _ e h

  -- `create_user` raises `ValueError` alone.
  pub create_user_only_value :
      (repr : Value → String) (crypt : Crypt) (salt : String) (s : db.State)
      (username password role : String) (e : Exn)
      → (create_user db repr crypt salt s username password role).0 ≡ err e
      → (detail : String) × (e ≡ value_error detail)
  unfolding create_user
  create_user_only_value repr crypt salt s username password role e h =
      insert_hashed_only_value repr s username role _ e (hash_password-eq-err crypt salt password) h

  pub seeded-state : (p : Result User × db.State) → (seeded db p).1 ≡ p.1
  unfolding seeded
  seeded-state (ok u, t) = refl
  seeded-state (err e, t) = refl

  module _ (lawful : IsLawful db) (repr : Value → String) (crypt : Crypt) where
    -- After `create_user` with a password that is hashed the name is taken, whether it succeeded or not.
    create_user-taken :
        (salt : String) (s : db.State) (username password role : String) (r : Result User)
        → crypt.refuses password ≡ none
        → (create_user db repr crypt salt s username password role).0 ≡ r
        → get_user_by_username db
            (create_user db repr crypt salt s username password role).1
            username
          ≢ none
    create_user-taken salt s username password role (ok u) n e h =
        let (made, _) = create_user_lem lawful repr crypt salt s username password role in
        cc ((made u e).0.lookups username, eq_refl username)
    create_user-taken salt s username password role (err x) n e h =
        let (_, failed) = create_user_lem lawful repr crypt salt s username password role in
        let kept = failed x e in
        elim kept.reason [
          | inl taken ↦
              taken (ap (λ t. get_user_by_username db t username) (sym kept.unchanged) ∙ h)
          | inr q ↦ cc (hash_password-refuses crypt salt password n, q)
        ]

    seed_account-taken :
        (salt : String) (s : db.State) (username password : String) (o : Option User)
        → crypt.refuses password ≡ none
        → get_user_by_username db s username ≡ o
        → get_user_by_username db (seed_account db repr crypt salt s username password o).1 username
          ≢ none
    unfolding seed_account
    seed_account-taken salt s username password (some u) n e = λ h. cc
    seed_account-taken salt s username password none n e =
        rw (seeded-state (create_user db repr crypt salt s username password (role_value admin)))
          (create_user-taken salt s username password (role_value admin) _ n refl)

    seed_account_known :
        (salt : String) (s : db.State) (username password : String) (o : Option User)
        → o ≢ none
        → seed_account db repr crypt salt s username password o ≡ (none, s)
    unfolding seed_account
    seed_account_known salt s username password none h = absurd (h refl)
    seed_account_known salt s username password (some u) h = refl

    is_blank : Settings → Bool
    is_blank settings =
        not (nonempty (strip settings.seed_admin_username))
        || not (nonempty settings.seed_admin_password)

    module _ (salt : String) (settings : Settings) (s : db.State) where
      seed_admin_blank :
          is_blank settings ≡ true → seed_admin db repr crypt salt settings s ≡ (none, s)
      unfolding seed_admin is_blank
      seed_admin_blank h = rw h

      seed_admin_filled :
          is_blank settings ≡ false
          → seed_admin db repr crypt salt settings s
            ≡ seed_account db repr crypt salt s
                (strip settings.seed_admin_username)
                settings.seed_admin_password
                (get_user_by_username db s (strip settings.seed_admin_username))
      unfolding seed_admin is_blank
      seed_admin_filled h = rw h

    -- Seeding the administrator, with a password that is hashed, a second time changes nothing and raises nothing, whatever the first
    -- time did.
    pub seed_admin_idempotent :
        (salt salt' : String) (settings : Settings) (s : db.State)
        → crypt.refuses settings.seed_admin_password ≡ none
        → seed_admin db repr crypt salt' settings (seed_admin db repr crypt salt settings s).1
          ≡ (none, (seed_admin db repr crypt salt settings s).1)
    seed_admin_idempotent salt salt' settings s n = elim (Bool-cases (is_blank settings)) [
      | inl b ↦ rw (seed_admin_blank salt settings s b) (seed_admin_blank salt' settings s b)
      | inr b ↦ rw (seed_admin_filled salt settings s b) (
          seed_admin_filled salt' settings _ b
          ∙ seed_account_known salt' _ _ _ _ (seed_account-taken salt s _ _ _ n refl))
    ]
