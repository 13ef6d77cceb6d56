-- ===== src/Users.antt =====
-- db/models.py, db/crud.py and db/seed.py: the user store. The database engine is outside the
-- repository: it is the record `UserStore`, and `IsLawful` states what the columns of the table
-- `users` promise, above all the unique user name.
pub mod Table
pub mod Laws
pub mod Directory
pub mod History
use lxd_management_api.Base.{
  ℕ, String, ◌<>◌, ◌==◌, ◌≡◌, ◌≢◌, ◌↔◌, Bool, true, false, not, ◌||◌, Option, none, some, List,
  if◌then◌else◌,
}
use lxd_management_api.Base.Text.{nonempty, strip}
use lxd_management_api.Json.{Value, str}
use lxd_management_api.Error.{Exn, value_error, Result, ok, err}
use lxd_management_api.Config.{Settings}
use lxd_management_api.Security.{Crypt, hash_password, Role, admin, role_value}

-- A row of `users`.
pub record User : Type 0 where
  pub id : ℕ
  pub username : String
  pub hashed_password : String
  pub role : String
  pub is_active : Bool
  pub created_at : ℕ

-- The values that a new row is given; its id and its time are the database's.
pub record NewUser : Type 0 where
  pub username : String
  pub hashed_password : String
  pub role : String
  pub is_active : Bool

-- `insert` is `db.add`, `db.commit` and `db.refresh`; `none` is an `IntegrityError`.
pub record UserStore : Type 1 where
  pub State : Type 0
  pub by_username : State → String → Option User
  pub by_id : State → ℕ → Option User
  pub insert : State → NewUser → Option (User × State)
  pub ordered_by_id : State → List User

-- A row holds the values that it was given.
pub record Holds (row : User) (u : NewUser) : Type 0 where
  pub username : row.username ≡ u.username
  pub hashed_password : row.hashed_password ≡ u.hashed_password
  pub role : row.role ≡ u.role
  pub is_active : row.is_active ≡ u.is_active

pub record IsLawful (db : UserStore) : Type 0 where
  pub insert-eq-none :
      (s : db.State) (u : NewUser) → (db.insert s u ≡ none) ↔ (db.by_username s u.username ≢ none)
  pub by_username-insert :
      (s : db.State) (u : NewUser) (row : User) (t : db.State) (name : String)
      → db.insert s u ≡ some (row, t)
      → db.by_username t name ≡ (if u.username == name then some row else db.by_username s name)
  pub insert-Holds :
      (s : db.State) (u : NewUser) (row : User) (t : db.State)
      → db.insert s u ≡ some (row, t)
      → Holds row u

module _ (db : UserStore) where
  -- `get_user_by_username`.
  unfoldable pub get_user_by_username : db.State → String → Option User
  get_user_by_username s username = db.by_username s username

  -- `get_user`.
  unfoldable pub get_user : db.State → ℕ → Option User
  get_user s user_id = db.by_id s user_id

  -- `list_users`.
  unfoldable pub list_users : db.State → List User
  list_users s = db.ordered_by_id s

  -- What `create_user` makes of the commit: the rollback keeps the old state.
  unfoldable pub committed :
      (Value → String) → String → db.State → Option (User × db.State) → Result User × db.State
  committed repr username s none =
      (err (value_error ("username " <> repr (str username) <> " already exists")), s)
  committed repr username s (some (row, t)) = (ok row, t)

  -- `create_user` from the result of `hash_password` on.
  unfoldable pub insert_hashed :
      (Value → String) → db.State → String → String → Result String → Result User × db.State
  unfolding committed
  insert_hashed repr s username role (err e) = (err e, s)
  insert_hashed repr s username role (ok hashed) = committed repr username s (
      db.insert s
        (record { username = username; hashed_password = hashed; role = role; is_active = true }))

  -- `create_user`; `repr` is Python's, and `salt` what the hash draws.
  unfoldable pub create_user :
      (Value → String)
      → Crypt
      → String
      → db.State
      → String
      → String
      → String
      → Result User × db.State
  unfolding insert_hashed hash_password
  create_user repr crypt salt s username password role =
      insert_hashed repr s username role (hash_password crypt salt password)

  unfoldable pub seeded : Result User × db.State → Option Exn × db.State
  seeded (ok row, t) = (none, t)
  seeded (err e, t) = (some e, t)

  -- `seed_admin` from the test of `existing` on.
  unfoldable pub seed_account :
      (Value → String)
      → Crypt
      → String
      → db.State
      → String
      → String
      → Option User
      → Option Exn × db.State
  unfolding create_user role_value seeded
  seed_account repr crypt salt s username password (some existing) = (none, s)
  seed_account repr crypt salt s username password none =
      seeded (create_user repr crypt salt s username password (role_value admin))

  -- `seed_admin`, with the exception that it lets pass, if any, and the state afterwards.
  unfoldable pub seed_admin :
      (Value → String) → Crypt → String → Settings → db.State → Option Exn × db.State
  unfolding seed_account get_user_by_username strip
  seed_admin repr crypt salt settings s =
      let username = strip settings.seed_admin_username in
      let password = settings.seed_admin_password in
      if not (nonempty username) || not (nonempty password)
      then (none, s)
      else seed_account repr crypt salt s username password (get_user_by_username s username)
