-- ===== src/Users/Directory.antt =====
-- What the user store promises to the rest of the program: a directory from names to accounts, to
-- which accounts are added and never changed. Ids and times of rows are not seen through it.
pub mod Refinement
use mathlib.Core.Path.{fun_ext}
use lxd_management_api.Base.{
  String, ◌==◌, ◌≡◌, refl, sym, ap, ◌∙◌, ◌≢◌, Option, none, some, Option-cases, inl, inr, Bool,
  true, false, not, ◌||◌, Bool-cases, List, [], ◌∷◌, if◌then◌else◌, arith,
}
use lxd_management_api.Base.Text.{nonempty, strip}
use lxd_management_api.Json.{Value}
use lxd_management_api.Error.{Exn, Result, ok, err}
use lxd_management_api.Config.{Settings}
use lxd_management_api.Security.{Crypt, hash_password, admin, role_value}
use lxd_management_api.Users.{
  User, UserStore, IsLawful, get_user_by_username, create_user, seeded, seed_account, seed_admin,
}
use lxd_management_api.Users.Laws.{IsAdded, IsTaken, create_user_lem}

pub record Account : Type 0 where
  pub hashed_password : String
  pub role : String
  pub is_active : Bool

abbrev pub Directory : Type 0
Directory = String → Option Account

-- The account is added if its name is free; the answer tells whether it was.
unfoldable pub add : String → Account → Directory → Bool × Directory
add name a d = elim (d name) [
  | none ↦ (true, λ other. if name == other then some a else d other)
  | some old ↦ (false, d)
]

-- The account of a hash, if there is one.
unfoldable pub add_hashed : String → String → Result String → Directory → Bool × Directory
unfolding add
add_hashed name role (err e) d = (false, d)
add_hashed name role (ok hashed) d =
    add name (record { hashed_password = hashed; role = role; is_active = true }) d

-- The calls that change the store.
pub data Command : Type 0 where
  create : String → String → String → String → Command
  seed : String → Command

module _ (crypt : Crypt) (settings : Settings) where
  -- An administrator is added unless a setting is empty or the name is taken, neither of which is a
  -- failure.
  unfoldable pub add_admin : String → Directory → Bool × Directory
  unfolding add_hashed
  add_admin salt d =
      let name = strip settings.seed_admin_username in
      let password = settings.seed_admin_password in
      if not (nonempty name) || not (nonempty password) then (true, d) else elim (d name) [
        | none ↦ add_hashed name (role_value admin) (hash_password crypt salt password) d
        | some old ↦ (true, d)
      ]

  -- A command on a directory: an account is added if its name is free and its password is hashed.
  unfoldable pub obey : Command → Directory → Bool × Directory
  unfolding add_hashed add_admin
  obey (create salt name password role) d =
      add_hashed name role (hash_password crypt salt password) d
  obey (seed salt) d = add_admin salt d

  -- A list of commands, with the answers in order.
  unfoldable pub obey_all : List Command → Directory → List Bool × Directory
  unfolding obey
  obey_all [] d = ([], d)
  obey_all (c ∷ cs) d = let p = obey c d in let rest = obey_all cs p.1 in (p.0 ∷ rest.0, rest.1)

abbrev account_of : User → Account
account_of u = record {
  hashed_password = u.hashed_password;
  role = u.role;
  is_active = u.is_active;
}

abbrev account_in : Option User → Option Account
account_in none = none
account_in (some u) = some (account_of u)

module _ (db : UserStore) where
  -- The directory that a state stands for.
  abbrev pub view : db.State → Directory
  view s name = account_in (get_user_by_username db s name)

  module _ (repr : Value → String) (crypt : Crypt) (settings : Settings) where
    succeeded : Result User → Bool
    succeeded (ok u) = true
    succeeded (err e) = false

    quiet : Option Exn → Bool
    quiet none = true
    quiet (some e) = false

    -- A command on the store, and whether it raised no exception.
    unfoldable pub execute : Command → db.State → Bool × db.State
    unfolding succeeded quiet create_user seed_admin
    execute (create salt name password role) s =
        let p = create_user db repr crypt salt s name password role in (succeeded p.0, p.1)
    execute (seed salt) s = let p = seed_admin db repr crypt salt settings s in (quiet p.0, p.1)

    unfoldable pub execute_all : List Command → db.State → List Bool × db.State
    unfolding execute
    execute_all [] s = ([], s)
    execute_all (c ∷ cs) s =
        let p = execute c s in let rest = execute_all cs p.1 in (p.0 ∷ rest.0, rest.1)
