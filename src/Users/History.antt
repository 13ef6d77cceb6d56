-- ===== src/Users/History.antt =====
-- What a call that may add an account does to the store: nothing, or it adds one account.
use lxd_management_api.Base.{
  String, ◌==◌, ◌≡◌, refl, sym, ap, ◌∙◌, ◌⊎◌, inl, inr, eq_iff, Option, none, some, Bool, true,
  false, not, ◌||◌, if◌then◌else◌,
}
use lxd_management_api.Base.Text.{nonempty, strip}
use lxd_management_api.Json.{Value}
use lxd_management_api.Error.{Exn, Result, ok, err}
use lxd_management_api.Config.{Settings}
use lxd_management_api.Security.{Crypt, admin, role_value}
use lxd_management_api.Users.{
  User, UserStore, IsLawful, get_user_by_username, create_user, seed_account, seed_admin,
}
use lxd_management_api.Users.Laws.{IsAdded, create_user_lem, seeded-state}

module _ (db : UserStore) where
  -- The store is as it was, or has one more account, with a free name and the role.
  pub data Change (username role : String) (s t : db.State) : Type 0 where
    unchanged : t ≡ s → Change username role s t
    added : (u : User) → IsAdded db s username u t → u.role ≡ role → Change username role s t

  found_or :
      (username name : String) (b : Bool) (u v : User) (o : Option User)
      → (username == name) ≡ b
      → (if b then some u else o) ≡ some v
      → (o ≡ some v) ⊎ ((name ≡ username) × (u ≡ v))
  found_or username name true u v o b h = inr (sym ((eq_iff username name).0 b), cc)
  found_or username name false u v o b h = inl h

  -- An account that is found afterwards was found before, or is the new one.
  pub Change-found :
      (username role : String) (s t : db.State) (name : String) (v : User)
      → Change username role s t
      → get_user_by_username db t name ≡ some v
      → (get_user_by_username db s name ≡ some v) ⊎ ((name ≡ username) × (v.role ≡ role))
  Change-found username role s t name v (unchanged e) h =
      inl (ap (λ x. get_user_by_username db x name) (sym e) ∙ h)
  Change-found username role s t name v (added u a r) h =
      elim (found_or username name _ u v _ refl (sym (a.lookups name) ∙ h)) [
        | inl old ↦ inl old
        | inr (named, same) ↦ inr (named, ap (λ (w : User). w.role) (sym same) ∙ r)
      ]

  kept_or :
      (username name : String) (b : Bool) (s : db.State) (u v : User)
      → (username == name) ≡ b
      → get_user_by_username db s username ≡ none
      → get_user_by_username db s name ≡ some v
      → (if b then some u else get_user_by_username db s name) ≡ some v
  kept_or username name true s u v b free h =
      cc (ap (get_user_by_username db s) ((eq_iff username name).0 b), free, h)
  kept_or username name false s u v b free h = h

  -- An account that was found before is found afterwards, the same.
  pub Change-kept :
      (username role : String) (s t : db.State) (name : String) (v : User)
      → Change username role s t
      → get_user_by_username db s name ≡ some v
      → get_user_by_username db t name ≡ some v
  Change-kept username role s t name v (unchanged e) h =
      ap (λ x. get_user_by_username db x name) e ∙ h
  Change-kept username role s t name v (added u a r) h =
      a.lookups name ∙ kept_or username name _ s u v refl a.was_free h

  module _ (lawful : IsLawful db) (repr : Value → String) (crypt : Crypt) (salt : String) where
    create_user-case :
        (s : db.State) (username password role : String) (r : Result User)
        → (create_user db repr crypt salt s username password role).0 ≡ r
        → Change username role s (create_user db repr crypt salt s username password role).1
    create_user-case s username password role (ok u) e =
        let (made, _) = create_user_lem db lawful repr crypt salt s username password role in
        let (a, _, _, same, _) = made u e in added u a same
    create_user-case s username password role (err x) e =
        let (_, failed) = create_user_lem db lawful repr crypt salt s username password role in
        unchanged (failed x e).unchanged

    pub create_user-Change :
        (s : db.State) (username password role : String)
        → Change username role s (create_user db repr crypt salt s username password role).1
    create_user-Change s username password role = create_user-case s username password role _ refl

    seed_account-Change :
        (s : db.State) (username password : String) (o : Option User)
        → Change username
            (role_value admin)
            s
            (seed_account db repr crypt salt s username password o).1
    unfolding seed_account
    seed_account-Change s username password (some u) = unchanged refl
    seed_account-Change s username password none =
        rw (seeded-state db (create_user db repr crypt salt s username password (role_value admin)))
          (create_user-Change s username password (role_value admin))

    by_blank :
        (b : Bool) (s : db.State) (username role : String) (p : Option Exn × db.State)
        → Change username role s p.1
        → Change username role s (if b then (none, s) else p).1
    by_blank true s username role p c = unchanged refl
    by_blank false s username role p c = c

    pub seed_admin-Change :
        (settings : Settings) (s : db.State)
        → Change
            (strip settings.seed_admin_username)
            (role_value admin)
            s
            (seed_admin db repr crypt salt settings s).1
    unfolding seed_admin
    seed_admin-Change settings s =
        let name = strip settings.seed_admin_username in
        by_blank (not (nonempty name) || not (nonempty settings.seed_admin_password)) s name
          (role_value admin) _
          (seed_account-Change s name settings.seed_admin_password (get_user_by_username db s name))
