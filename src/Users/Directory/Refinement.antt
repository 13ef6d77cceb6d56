-- ===== src/Users/Directory/Refinement.antt =====
-- The user store implements a directory.
use mathlib.Core.Path.{fun_ext}
use lxd_management_api.Base.{
  String, ◌==◌, ◌≡◌, refl, sym, ap, ap₂, ◌∙◌, ◌≢◌, ◌⊎◌, Option, none, some, Option-cases, inl, inr,
  Bool, true, false, not, ◌||◌, List, [], ◌∷◌, if◌then◌else◌, arith,
}
use lxd_management_api.Base.Text.{nonempty, strip}
use lxd_management_api.Json.{Value}
use lxd_management_api.Error.{Exn, Result, ok, err}
use lxd_management_api.Config.{Settings}
use lxd_management_api.Security.{Crypt, hash_password, admin, role_value}
use lxd_management_api.Users.{
  User, UserStore, IsLawful, get_user_by_username, create_user, seeded, seed_account, seed_admin,
}
use lxd_management_api.Users.Laws.{create_user_lem}
use lxd_management_api.Users.Directory.{
  Account, Directory, add, add_hashed, Command, create, seed, add_admin, obey, obey_all, account_of,
  account_in, view, succeeded, quiet, execute, execute_all,
}

add_free :
    (name : String) (a : Account) (d : Directory)
    → d name ≡ none
    → add name a d ≡ (true, λ other. if name == other then some a else d other)
unfolding add
add_free name a d h = rw (h, add)

add_taken :
    (name : String) (a : Account) (d : Directory) → d name ≢ none → add name a d ≡ (false, d)
unfolding add
add_taken name a d h = elim (Option-cases (d name)) [
  | inl e ↦ absurd (h e)
  | inr (old, e) ↦ rw (e, add)
]

account_in-eq-none : (o : Option User) → account_in o ≡ none → o ≡ none
account_in-eq-none none h = refl
account_in-eq-none (some u) h = cc

add_hashed_failed :
    (name role : String) (h : Result String) (d : Directory)
    → (d name ≢ none) ⊎ ((x : Exn) × (h ≡ err x))
    → add_hashed name role h d ≡ (false, d)
unfolding add_hashed
add_hashed_failed name role (err e) d r = refl
add_hashed_failed name role (ok hashed) d (inl taken) = add_taken name _ d taken
add_hashed_failed name role (ok hashed) d (inr (x, h)) = cc

account_in-if :
    (b : Bool) (u : User) (o : Option User)
    → account_in (if b then some u else o) ≡ (if b then some (account_of u) else account_in o)
account_in-if true u o = refl
account_in-if false u o = refl

account_eq :
    (u : User) (hash role : String)
    → u.hashed_password ≡ hash
    → u.role ≡ role
    → u.is_active ≡ true
    → account_of u ≡ record { hashed_password = hash; role = role; is_active = true }
account_eq u hash role h r a = ground arith

module _ (db : UserStore) (lawful : IsLawful db) (repr : Value → String) (crypt : Crypt) where
  module _ (salt : String) (s : db.State) (name password role : String) where
    created : Result User × db.State
    created = create_user db repr crypt salt s name password role

    create_case :
        (settings : Settings) (r : Result User)
        → created.0 ≡ r
        → (succeeded db repr crypt settings created.0, view db created.1)
          ≡ add_hashed name role (hash_password crypt salt password) (view db s)
    unfolding created succeeded add_hashed
    create_case settings (ok u) e =
        let (made, _) = create_user_lem db lawful repr crypt salt s name password role in
        let (added, _, hash, same_role, active) = made u e in
        let a = account_of u in
        let same = account_eq u u.hashed_password role refl same_role active in
        let given : Account = record {
          hashed_password = u.hashed_password;
          role = role;
          is_active = true;
        } in
        ap₂ (λ (b : Bool) (d : Directory). (b, d)) (ap (succeeded db repr crypt settings) e)
          (fun_ext λ other.
            ap account_in (added.lookups other)
            ∙ account_in-if (name == other) u (get_user_by_username db s other)
            ∙ ap (λ a. if name == other then some a else view db s other) same)
        ∙ sym (add_free name given (view db s) (ap account_in added.was_free))
        ∙ ap (λ r. add_hashed name role r (view db s)) (sym hash)
    create_case settings (err x) e =
        let (_, failed) = create_user_lem db lawful repr crypt salt s name password role in
        let kept = failed x e in
        ap₂ (λ (b : Bool) (d : Directory). (b, d)) (ap (succeeded db repr crypt settings) e)
          (ap (view db) kept.unchanged)
        ∙ sym (
            add_hashed_failed name role (hash_password crypt salt password) (view db s)
              elim kept.reason [
                | inl taken ↦
                    inl (λ h. taken (account_in-eq-none (get_user_by_username db s name) h))
                | inr q ↦ inr (x, q)
              ])

  module _ (settings : Settings) where
    -- What is seen of the end of a seeding.
    abbrev seen : Option Exn × db.State → Bool × Directory
    seen p = (quiet db repr crypt settings p.0, view db p.1)

    seeded-seen :
        (p : Result User × db.State)
        → seen (seeded db p) ≡ (succeeded db repr crypt settings p.0, view db p.1)
    unfolding succeeded quiet seeded
    seeded-seen (ok u, t) = refl
    seeded-seen (err e, t) = refl

    module _ (salt : String) (s : db.State) (name password : String) where
      -- What the directory does of a seeding from the look-up on.
      abbrev promised : Option Account → Bool × Directory
      promised o = elim o [
        | none ↦ add_hashed name (role_value admin) (hash_password crypt salt password) (view db s)
        | some old ↦ (true, view db s)
      ]

      seed_case :
          (o : Option User)
          → seen (seed_account db repr crypt salt s name password o) ≡ promised (account_in o)
      unfolding seed_account quiet created
      seed_case (some u) = refl
      seed_case none =
          seeded-seen (created salt s name password (role_value admin))
          ∙ create_case salt s name password (role_value admin) settings _ refl

    by_test :
        (b : Bool) (s : db.State) (p : Option Exn × db.State) (q : Bool × Directory)
        → seen p ≡ q
        → seen (if b then (none, s) else p) ≡ (if b then (true, view db s) else q)
    unfolding quiet
    by_test true s p q h = refl
    by_test false s p q h = h

    seed_refines :
        (salt : String) (s : db.State)
        → seen (seed_admin db repr crypt salt settings s)
          ≡ add_admin crypt settings salt (view db s)
    unfolding seed_admin add_admin
    seed_refines salt s =
        let name = strip settings.seed_admin_username in
        let password = settings.seed_admin_password in
        by_test (not (nonempty name) || not (nonempty password)) s
          (seed_account db repr crypt salt s name password (get_user_by_username db s name))
          (promised salt s name password (view db s name)) (seed_case salt s name password _)

    execute_refines :
        (c : Command) (s : db.State)
        → ((execute db repr crypt settings c s).0, view db (execute db repr crypt settings c s).1)
          ≡ obey crypt settings c (view db s)
    unfolding execute obey created
    execute_refines (create salt name password role) s =
        create_case salt s name password role settings _ refl
    execute_refines (seed salt) s = seed_refines salt s

    -- Over a database that keeps its promises: whatever users are created, also with passwords
    -- that are not hashed, and however often the
    -- administrator is seeded, the answers, and every lookup of an account by name afterwards, are
    -- those of the directory to which the same commands add accounts.
    pub execute_all_refines :
        (cs : List Command) (s : db.State)
        → (
          (execute_all db repr crypt settings cs s).0,
          view db (execute_all db repr crypt settings cs s).1,
        )
          ≡ obey_all crypt settings cs (view db s)
    unfolding execute_all obey_all
    execute_all_refines [] s = refl
    execute_all_refines (c ∷ cs) s =
        let p = execute db repr crypt settings c s in
        ap (λ (q : List Bool × Directory). (p.0 ∷ q.0, q.1)) (execute_all_refines cs p.1)
        ∙ ap
            (λ (q : Bool × Directory).
              let rest = obey_all crypt settings cs q.1 in (q.0 ∷ rest.0, rest.1))
            (execute_refines c s)
