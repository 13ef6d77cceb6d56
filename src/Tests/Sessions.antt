-- ===== src/Tests/Sessions.antt =====
-- Sessions over the table of the tests: a list of objects that wait for the commit.
use lxd_management_api.Base.{
  String, eq_refl, ◌≡◌, refl, ap, ◌∙◌, Bool, true, false, none, some, Option, List, [], ◌∷◌, ◌++◌,
  if◌then◌else◌,
}
use lxd_management_api.Json.{Value}
use lxd_management_api.Error.{ok}
use lxd_management_api.Security.{viewer}
use lxd_management_api.Users.{User, NewUser, UserStore, IsLawful}
use lxd_management_api.Users.Table.{table, table-IsLawful}
use lxd_management_api.Auth.{UserCreate, register}
use lxd_management_api.Database.{Sessions, IsSound, get_db, register_in}
use lxd_management_api.Database.Registration.{get_db-register}
use lxd_management_api.Tests.Fixtures.{accounts, carol, test_auth, test_crypt}

record Work (S : Type 0) : Type 0 where
  stored : S
  pending : List NewUser

module _ (db : UserStore) where
  -- The end of a commit of one object.
  inserted : db.State → NewUser → Option (User × db.State) → Bool × Work db.State
  inserted s u none = (false, record { stored = s; pending = u ∷ [] })
  inserted s u (some (row, s')) = (true, record { stored = s'; pending = [] })

  committed : db.State → List NewUser → Bool × Work db.State
  committed s [] = (true, record { stored = s; pending = [] })
  committed s (u ∷ []) = inserted s u (db.insert s u)
  committed s (u ∷ (v ∷ us)) = (false, record { stored = s; pending = u ∷ (v ∷ us) })

  row_or : NewUser → Option User → User
  row_or u (some row) = row
  row_or u none = record {
    id = 0;
    username = u.username;
    hashed_password = u.hashed_password;
    role = u.role;
    is_active = u.is_active;
    created_at = 0;
  }

  abbrev works : Sessions db
  works = record {
    Session = Work db.State;
    begin = λ s. record { stored = s; pending = [] };
    stored = λ t. t.stored;
    pending = λ t. t.pending;
    add = λ t u. record t { pending = t.pending ++ u ∷ [] };
    commit = λ t. committed t.stored t.pending;
    refresh = λ t u. row_or u (db.by_username t.stored u.username);
    rollback = λ t. record t { pending = [] };
  }

  module _ (lawful : IsLawful db) where
    commit_lem :
        (t : Work db.State) (u : NewUser) (o : Option (User × db.State))
        → t.pending ≡ u ∷ []
        → db.insert t.stored u ≡ o
        → committed t.stored t.pending ≡ inserted t.stored u o
    unfolding committed
    commit_lem t u o one h = ap (committed t.stored) one ∙ ap (inserted t.stored u) h

    self_found :
        (s : db.State) (u : NewUser) (row : User) (s' : db.State)
        → db.insert s u ≡ some (row, s')
        → row_or u (db.by_username s' u.username) ≡ row
    unfolding row_or
    self_found s u row s' h = ap (row_or u) (
        lawful.by_username-insert s u row s' u.username h
        ∙ ap (λ b. if b then some row else db.by_username s u.username) (eq_refl u.username))

    works-IsSound : IsSound works
    unfolding inserted
    works-IsSound = record {
      begin-stored = λ s. refl;
      begin-pending = λ s. refl;
      add-stored = λ t u. refl;
      add-pending = λ t u. refl;
      commit-inserts = λ t u row s' one h.
          let e = commit_lem t u _ one h in
          (
            ap (λ p. p.0) e,
            ap (λ p. p.1.stored) e,
            ap (λ p. p.1.pending) e,
            ap (λ p. row_or u (db.by_username p.1.stored u.username)) e
                ∙ self_found t.stored u row s' h,
          );
      commit-refuses =
          λ t u one h. let e = commit_lem t u _ one h in (ap (λ p. p.0) e, ap (λ p. p.1.stored) e);
      rollback-stored = λ t. refl;
      rollback-pending = λ t. refl;
    }

abbrev lib : Sessions table
lib = works table

abbrev sound : IsSound lib
sound = works-IsSound table table-IsLawful

abbrev repr : Value → String
repr v = "..."

abbrev dave : UserCreate
dave = record { username = "dave"; password = "secret123"; role = viewer }

get_db-register_example :
    get_db lib (register_in lib repr test_crypt "salt" (ok carol) dave) accounts
    ≡ register test_auth test_crypt "salt" accounts (ok carol) dave
get_db-register_example =
    get_db-register test_auth test_crypt "salt" lib sound (ok carol) dave accounts
