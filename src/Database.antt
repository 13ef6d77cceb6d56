-- ===== src/Database.antt =====
-- db/session.py: the session that a request gets, and db/crud.py and db/seed.py as they use it. The
-- session of SQLAlchemy is outside the repository: it is the record `Sessions`, whose laws state what
-- its documentation says of new objects, of a commit and of a rollback.
pub mod Laws
pub mod Registration
pub mod Files
pub mod Schema
use lxd_management_api.Base.{
  String, ◌<>◌, ◌≡◌, Bool, true, false, not, ◌||◌, Option, none, some, List, [], ◌∷◌, ◌++◌,
  if◌then◌else◌,
}
use lxd_management_api.Base.Text.{nonempty, strip}
use lxd_management_api.Json.{Value, str}
use lxd_management_api.Error.{Exn, http, value_error, Result, ok, err}
use lxd_management_api.Config.{Settings}
use lxd_management_api.Security.{Crypt, hash_password, admin, role_value}
use lxd_management_api.Users.{User, NewUser, UserStore}
use lxd_management_api.Auth.{UserCreate, UserOut, user_out}
use lxd_management_api.Deps.{require_role}

-- A session over a store. `stored` is what is committed, and `pending` are the objects that were
-- added since and are not. `commit` tells whether it succeeded, and `refresh` gives the row of an
-- object that was committed.
pub record Sessions (db : UserStore) : Type 1 where
  pub Session : Type 0
  pub begin : db.State → Session
  pub stored : Session → db.State
  pub pending : Session → List NewUser
  pub add : Session → NewUser → Session
  pub commit : Session → Bool × Session
  pub refresh : Session → NewUser → User
  pub rollback : Session → Session

pub record IsSound {db : UserStore} (lib : Sessions db) : Type 0 where
  pub begin-stored : (s : db.State) → lib.stored (lib.begin s) ≡ s
  pub begin-pending : (s : db.State) → lib.pending (lib.begin s) ≡ []
  pub add-stored : (t : lib.Session) (u : NewUser) → lib.stored (lib.add t u) ≡ lib.stored t
  pub add-pending :
      (t : lib.Session) (u : NewUser) → lib.pending (lib.add t u) ≡ lib.pending t ++ u ∷ []
  -- One object is inserted, unless the store refuses it.
  pub commit-inserts :
      (t : lib.Session) (u : NewUser) (row : User) (s : db.State)
      → lib.pending t ≡ u ∷ []
      → db.insert (lib.stored t) u ≡ some (row, s)
      → ((lib.commit t).0 ≡ true)
        × (lib.stored (lib.commit t).1 ≡ s)
        × (lib.pending (lib.commit t).1 ≡ [])
        × (lib.refresh (lib.commit t).1 u ≡ row)
  pub commit-refuses :
      (t : lib.Session) (u : NewUser)
      → lib.pending t ≡ u ∷ []
      → db.insert (lib.stored t) u ≡ none
      → ((lib.commit t).0 ≡ false) × (lib.stored (lib.commit t).1 ≡ lib.stored t)
  pub rollback-stored : (t : lib.Session) → lib.stored (lib.rollback t) ≡ lib.stored t
  pub rollback-pending : (t : lib.Session) → lib.pending (lib.rollback t) ≡ []

module _ {db : UserStore} (lib : Sessions db) where
  open lib use {Session, begin, stored, add, commit, refresh, rollback}

  -- The end of the `async with` of `get_db`: what was not committed is lost.
  left : {A : Type 0} → Result A × Session → Result A × db.State
  left (ok a, t) = (ok a, stored t)
  left (err e, t) = (err e, stored (rollback t))

  -- A request whose handler has a session of `get_db`: what it returns or raises, and the store.
  unfoldable pub get_db :
      {A : Type 0} → (Session → Result A × Session) → db.State → Result A × db.State
  unfolding left
  get_db handler s = left (handler (begin s))

  -- `get_user_by_username`: with `autoflush=False` a query sees what is committed.
  unfoldable pub find_user : Session → String → Option User
  find_user t username = db.by_username (stored t) username

  module _ (repr : Value → String) (crypt : Crypt) (salt : String) where
    -- The `try` of `create_user`, from the outcome of the commit on.
    after_commit : NewUser → Bool × Session → Result User × Session
    after_commit u (true, t) = (ok (refresh t u), t)
    after_commit u (false, t) =
        (err (value_error ("username " <> repr (str u.username) <> " already exists")), rollback t)

    -- `create_user` from the result of `hash_password` on.
    unfoldable pub create_hashed_in :
        Session → String → String → Result String → Result User × Session
    unfolding after_commit
    create_hashed_in t username role (err e) = (err e, t)
    create_hashed_in t username role (ok hashed) =
        let user : NewUser = record {
          username = username;
          hashed_password = hashed;
          role = role;
          is_active = true;
        } in
        after_commit user (commit (add t user))

    -- `create_user`.
    unfoldable pub create_user_in : Session → String → String → String → Result User × Session
    unfolding create_hashed_in hash_password
    create_user_in t username password role =
        create_hashed_in t username role (hash_password crypt salt password)

    quietly : Result User × Session → Result (Unit {0}) × Session
    quietly (ok u, t) = (ok tt, t)
    quietly (err e, t) = (err e, t)

    seed_unless : Session → String → String → Option User → Result (Unit {0}) × Session
    unfolding quietly create_user_in role_value
    seed_unless t username password (some existing) = (ok tt, t)
    seed_unless t username password none =
        quietly (create_user_in t username password (role_value admin))

    -- `seed_admin`, in the session that `lifespan` opens for it.
    unfoldable pub seed_admin_in : Settings → Session → Result (Unit {0}) × Session
    unfolding seed_unless find_user strip
    seed_admin_in settings t =
        let username = strip settings.seed_admin_username in
        let password = settings.seed_admin_password in
        if not (nonempty username) || not (nonempty password)
        then (ok tt, t)
        else seed_unless t username password (find_user t username)

    conflict : Exn → Exn
    conflict (value_error detail) = http 409 detail
    conflict e = e

    -- What `register` makes of the created user.
    answer_created : Result User × Session → Result UserOut × Session
    unfolding user_out conflict
    answer_created (ok user, t) = (user_out user, t)
    answer_created (err e, t) = (err (conflict e), t)

    -- `register`, on the caller that `get_current_user` gave.
    unfoldable pub register_in : Result User → UserCreate → Session → Result UserOut × Session
    unfolding answer_created create_user_in require_role role_value
    register_in caller payload t = elim (require_role admin caller) [
      | err e ↦ (err e, t)
      | ok _ ↦
          answer_created
            (create_user_in t payload.username payload.password (role_value payload.role))
    ]
