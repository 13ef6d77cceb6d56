-- ===== src/Auth/Profiles.antt =====
-- The profiles that `me` and `list_users` answer with, and roles in the store that are none of the three.
use lxd_management_api.Base.{
  ◌≡◌, refl, ap, Option, none, some, ◌⊎◌, inl, inr, All, List, [], ◌∷◌, arith,
}
use lxd_management_api.Error.{validation_error, Result, ok, err, Exn}
use lxd_management_api.Security.{Role, admin, role_of}
use lxd_management_api.Users.{User, UserStore, list_users}
use lxd_management_api.Deps.{require_role}
use lxd_management_api.Auth.{UserOut, user_out, users_out, all_users}

-- The role in the row is one of the three.
pub record IsKnown (u : User) : Type 0 where
  pub role : Role
  pub named : role_of u.role ≡ some role

-- The profile has the values of the row, and no hash of a password.
pub record IsProfile (u : User) (o : UserOut) : Type 0 where
  pub id : o.id ≡ u.id
  pub username : o.username ≡ u.username
  pub role : role_of u.role ≡ some o.role
  pub is_active : o.is_active ≡ u.is_active
  pub created_at : o.created_at ≡ u.created_at

-- One profile for each row, in the same order.
abbrev pub Profiles : List User → List UserOut → Type 0
Profiles [] [] = Unit
Profiles (u ∷ us) (o ∷ os) = IsProfile u o × Profiles us os
Profiles _ _ = ⊥

-- A row whose role is none of the three.
pub data HasStray : List User → Type 0 where
  first : (u : User) (us : List User) → role_of u.role ≡ none → HasStray (u ∷ us)
  later : (u : User) (us : List User) → HasStray us → HasStray (u ∷ us)

user_out_known : (u : User) → IsKnown u → (o : UserOut) × (user_out u ≡ ok o) × IsProfile u o
unfolding user_out
user_out_known u k = (
  record {
    id = u.id;
    username = u.username;
    role = k.role;
    is_active = u.is_active;
    created_at = u.created_at;
  },
  rw (k.named, user_out),
  record { id = refl; username = refl; role = k.named; is_active = refl; created_at = refl },
)

user_out_stray : (u : User) → role_of u.role ≡ none → user_out u ≡ err validation_error
unfolding user_out
user_out_stray u h = rw (h, user_out)

user_out_only_validation : (u : User) (e : Exn) → user_out u ≡ err e → e ≡ validation_error
unfolding user_out
user_out_only_validation u e h = ground arith

users_out_known :
    (us : List User)
    → All IsKnown us
    → (os : List UserOut) × (users_out us ≡ ok os) × Profiles us os
unfolding users_out
users_out_known [] k = ([], refl, tt)
users_out_known (u ∷ us) (k, ks) =
    let (o, one, profile) = user_out_known u k in
    let (os, rest, profiles) = users_out_known us ks in
    (o ∷ os, rw (one, rest, users_out), (profile, profiles))

stray_case :
    (u : User) (us : List User) (r : Result UserOut)
    → user_out u ≡ r
    → users_out us ≡ err validation_error
    → users_out (u ∷ us) ≡ err validation_error
unfolding users_out
stray_case u us (ok o) h rest = rw (h, rest, users_out)
stray_case u us (err e) h rest = rw (h, users_out) (ap err (user_out_only_validation u e h))

users_out_stray : {us : List User} → HasStray us → users_out us ≡ err validation_error
unfolding users_out
users_out_stray (first u us h) = rw (user_out_stray u h, users_out)
users_out_stray (later u us s) = stray_case u us _ refl (users_out_stray s)

row_cases : (u : User) (o : Option Role) → role_of u.role ≡ o → IsKnown u ⊎ (role_of u.role ≡ none)
row_cases u none h = inr h
row_cases u (some r) h = inl (record { role = r; named = h })

split_rows : (us : List User) → All IsKnown us ⊎ HasStray us
split_rows [] = inl tt
split_rows (u ∷ us) = elim (row_cases u _ refl) [
  | inr h ↦ inr (first u us h)
  | inl k ↦ elim (split_rows us) [ inl ks ↦ inl (k, ks) | inr h ↦ inr (later u us h) ]
]

-- An administrator who lists the accounts gets one profile for each row of the store, in the order of
-- the store and with the values of the row; or else the store has a row with a role that is none of the
-- three, and the list ends in an exception that is no `HTTPException`.
pub all_users_lem :
    (db : UserStore) (s : db.State) (caller : Result User) (u : User)
    → require_role admin caller ≡ ok u
    → ((os : List UserOut) × (all_users db s caller ≡ ok os) × Profiles (list_users db s) os)
      ⊎ (HasStray (list_users db s) × (all_users db s caller ≡ err validation_error))
unfolding all_users
all_users_lem db s caller u is_admin = elim (split_rows (list_users db s)) [
  | inl ks ↦
      let (os, h, profiles) = users_out_known (list_users db s) ks in
      inl (os, rw (is_admin, all_users) h, profiles)
  | inr stray ↦ inr (stray, rw (is_admin, all_users) (users_out_stray stray))
]

-- The list ends in that exception for every administrator as soon as one row has such a role.
all_users_stray :
    (db : UserStore) (s : db.State) (caller : Result User) (u : User)
    → require_role admin caller ≡ ok u
    → HasStray (list_users db s)
    → all_users db s caller ≡ err validation_error
unfolding all_users
all_users_stray db s caller u is_admin stray = rw (is_admin, all_users) (users_out_stray stray)
