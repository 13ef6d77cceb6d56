-- ===== src/Database/Laws.antt =====
-- What a request does in its session is what the store does at once: the steps of adding an object,
-- committing, refreshing and rolling back are the insertions of Users.
use mathlib.Core.Path.{subst}
use lxd_management_api.Base.{
  String, ◌≡◌, refl, ap, ap₂, ◌∙◌, Bool, true, false, not, ◌||◌, Option, none, some, [], ◌∷◌, ◌++◌,
  if◌then◌else◌,
}
use lxd_management_api.Base.Text.{nonempty, strip}
use lxd_management_api.Json.{Value}
use lxd_management_api.Error.{Exn, Result, ok, err}
use lxd_management_api.Config.{Settings}
use lxd_management_api.Security.{Crypt, hash_password, admin, role_value}
use lxd_management_api.Users.{
  User, NewUser, UserStore, get_user_by_username, committed, insert_hashed, create_user, seeded,
  seed_account, seed_admin,
}
use lxd_management_api.Database.{
  Sessions, IsSound, left, get_db, after_commit, find_user, create_hashed_in, create_user_in,
  quietly, seed_unless, seed_admin_in,
}

pub err-injective : {A : Type 0} {x y : Exn} → ◌≡◌ {A = Result A} (err x) (err y) → x ≡ y
err-injective h = cc

pub same_value : {A : Type 0} {x y : A} → ◌≡◌ {A = Result A} (ok x) (ok y) → x ≡ y
same_value h = cc

same_error :
    {A B : Type 0} {x y : Exn}
    → ◌≡◌ {A = Result A} (err x) (err y)
    → ◌≡◌ {A = Result B} (err x) (err y)
same_error h = cc

module _ {db : UserStore} (lib : Sessions db) (sound : IsSound lib) where
  open lib use {Session, begin, stored, pending, add, commit, refresh, rollback}

  -- The same answer and the same store, with nothing left to commit.
  pub record Matches {A : Type 0} (p : Result A × Session) (q : Result A × db.State) : Type 0 where
    pub answers : p.0 ≡ q.0
    pub stores : stored p.1 ≡ q.1
    pub settled : pending p.1 ≡ []

  left_lem : {A : Type 0} (p : Result A × Session) → left lib p ≡ (p.0, stored p.1)
  unfolding left
  left_lem (ok a, t) = refl
  left_lem (err e, t) = ap (λ s. (err e, s)) (sound.rollback-stored t)

  pub get_db-Matches :
      {A : Type 0} (handler : Session → Result A × Session) (s : db.State) (q : Result A × db.State)
      → Matches (handler (begin s)) q
      → get_db lib handler s ≡ q
  unfolding get_db
  get_db-Matches handler s q m =
      left_lem (handler (begin s)) ∙ ap₂ (λ r x. (r, x)) m.answers m.stores

  module _ (repr : Value → String) (crypt : Crypt) (salt : String) where
    refused :
        (u : NewUser) (p : Bool × Session) (s : db.State)
        → p.0 ≡ false
        → stored p.1 ≡ s
        → Matches (after_commit lib repr crypt salt u p) (committed db repr u.username s none)
    unfolding after_commit committed
    refused u (true, t) s h k = cc
    refused u (false, t) s h k = record {
      answers = refl;
      stores = sound.rollback-stored t ∙ k;
      settled = sound.rollback-pending t;
    }

    inserted :
        (u : NewUser) (p : Bool × Session) (s s' : db.State) (row : User)
        → p.0 ≡ true
        → stored p.1 ≡ s'
        → pending p.1 ≡ []
        → refresh p.1 u ≡ row
        → Matches
            (after_commit lib repr crypt salt u p)
            (committed db repr u.username s (some (row, s')))
    unfolding after_commit committed
    inserted u (true, t) s s' row h k l e = record { answers = ap ok e; stores = k; settled = l }
    inserted u (false, t) s s' row h k l e = cc

    committing :
        (u : NewUser) (t : Session) (o : Option (User × db.State))
        → pending t ≡ u ∷ []
        → db.insert (stored t) u ≡ o
        → Matches
            (after_commit lib repr crypt salt u (commit t))
            (committed db repr u.username (stored t) o)
    committing u t none one h =
        let (failed, kept) = sound.commit-refuses t u one h in
        refused u (commit t) (stored t) failed kept
    committing u t (some (row, s')) one h =
        let (done, new, empty, reloaded) = sound.commit-inserts t u row s' one h in
        inserted u (commit t) (stored t) s' row done new empty reloaded

    create_hashed_in-Matches :
        (t : Session) (username role : String) (r : Result String)
        → pending t ≡ []
        → Matches
            (create_hashed_in lib repr crypt salt t username role r)
            (insert_hashed db repr (stored t) username role r)
    unfolding create_hashed_in insert_hashed
    create_hashed_in-Matches t username role (err e) nothing = record {
      answers = refl;
      stores = refl;
      settled = nothing;
    }
    create_hashed_in-Matches t username role (ok hashed) nothing =
        let u : NewUser = record {
          username = username;
          hashed_password = hashed;
          role = role;
          is_active = true;
        } in
        let one : pending (add t u) ≡ u ∷ [] =
          sound.add-pending t u ∙ ap (λ l. l ++ u ∷ []) nothing in
        let kept : stored (add t u) ≡ stored t = sound.add-stored t u in
        subst
          (λ s.
            Matches (after_commit lib repr crypt salt u (commit (add t u)))
              (committed db repr username s (db.insert (stored t) u)))
          kept (committing u (add t u) (db.insert (stored t) u) one (ap (λ s. db.insert s u) kept))

    -- In a session with nothing to commit, `create_user` gives the answer and the store of the one call
    -- `create_user` on the store that is committed, and leaves nothing to commit, also where the name is
    -- taken or the password is not hashed.
    pub create_user_in-Matches :
        (t : Session) (username password role : String)
        → pending t ≡ []
        → Matches
            (create_user_in lib repr crypt salt t username password role)
            (create_user db repr crypt salt (stored t) username password role)
    unfolding create_user_in create_user
    create_user_in-Matches t username password role nothing =
        create_hashed_in-Matches t username role (hash_password crypt salt password) nothing

    -- A result without its value, as the exception that is let pass.
    abbrev Quiet : Result (Unit {0}) × Session → Option Exn × db.State → Type 0
    Quiet p q = Matches p (elim q.0 [ none ↦ ok tt | some e ↦ err e ], q.1)

    quietly-Quiet :
        (p : Result User × Session) (q : Result User × db.State)
        → Matches p q
        → Quiet (quietly lib repr crypt salt p) (seeded db q)
    unfolding quietly seeded
    quietly-Quiet (ok u, t) (ok v, s) m = record {
      answers = refl;
      stores = m.stores;
      settled = m.settled;
    }
    quietly-Quiet (ok u, t) (err e, s) m = cc (m.answers)
    quietly-Quiet (err e, t) (ok v, s) m = cc (m.answers)
    quietly-Quiet (err e, t) (err x, s) m = record {
      answers = same_error m.answers;
      stores = m.stores;
      settled = m.settled;
    }

    seed_unless-Quiet :
        (t : Session) (username password : String) (o : Option User)
        → pending t ≡ []
        → Quiet
            (seed_unless lib repr crypt salt t username password o)
            (seed_account db repr crypt salt (stored t) username password o)
    unfolding seed_unless seed_account
    seed_unless-Quiet t username password (some u) nothing = record {
      answers = refl;
      stores = refl;
      settled = nothing;
    }
    seed_unless-Quiet t username password none nothing =
        quietly-Quiet _ _ (create_user_in-Matches t username password (role_value admin) nothing)

    unless :
        (b : Bool) (t : Session) (p : Result (Unit {0}) × Session) (q : Option Exn × db.State)
        → pending t ≡ []
        → Quiet p q
        → Quiet (if b then (ok tt, t) else p) (if b then (none, stored t) else q)
    unless true t p q nothing m = record { answers = refl; stores = refl; settled = nothing }
    unless false t p q nothing m = m

    -- Seeding the administrator in a session with nothing to commit is the one call on the store.
    seed_admin_in-Quiet :
        (settings : Settings) (t : Session)
        → pending t ≡ []
        → Quiet
            (seed_admin_in lib repr crypt salt settings t)
            (seed_admin db repr crypt salt settings (stored t))
    unfolding seed_admin_in seed_admin find_user get_user_by_username
    seed_admin_in-Quiet settings t nothing =
        let name = strip settings.seed_admin_username in
        let password = settings.seed_admin_password in
        unless (not (nonempty name) || not (nonempty password)) t _ _ nothing
          (seed_unless-Quiet t name password (db.by_username (stored t) name) nothing)
