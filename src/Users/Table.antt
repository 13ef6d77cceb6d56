-- ===== src/Users/Table.antt =====
-- A user store as a list of rows, the latest first: the assumptions on the database can be met.
use lxd_management_api.Base.{
  ℕ, suc, num_eq, String, ◌==◌, Option, none, some, List, [], ◌∷◌, ◌++◌, length, arith,
  if◌then◌else◌,
}
use lxd_management_api.Users.{User, NewUser, UserStore, IsLawful}

abbrev find : List User → String → Option User
find [] name = none
find (u ∷ rows) name = if u.username == name then some u else find rows name

abbrev find_id : List User → ℕ → Option User
find_id [] id = none
find_id (u ∷ rows) id = if num_eq u.id id then some u else find_id rows id

abbrev reversed : List User → List User
reversed [] = []
reversed (u ∷ rows) = reversed rows ++ u ∷ []

abbrev new_row : List User → NewUser → User
new_row rows u = record {
  id = suc (length rows);
  username = u.username;
  hashed_password = u.hashed_password;
  role = u.role;
  is_active = u.is_active;
  created_at = 0;
}

abbrev insert_row : List User → NewUser → Option User → Option (User × List User)
insert_row rows u (some other) = none
insert_row rows u none = some (new_row rows u, new_row rows u ∷ rows)

abbrev pub table : UserStore
table = record {
  State = List User;
  by_username = find;
  by_id = find_id;
  insert = λ rows u. insert_row rows u (find rows u.username);
  ordered_by_id = reversed;
}

pub table-IsLawful : IsLawful table
table-IsLawful = record {
  insert-eq-none = λ rows u. ground arith;
  by_username-insert = λ rows u row t name h. ground arith;
  insert-Holds = λ rows u row t h. ground arith;
}
