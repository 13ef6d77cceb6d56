-- ===== src/Database/Schema/Widths.antt =====
-- The widths of the columns against what is stored in them.
use Prim.Native.String
use lxd_management_api.Base.{
  ℕ, ◌≤◌, String, ◌==◌, ◌≡◌, Option, some, List, [], ◌∷◌, arith, if◌then◌else◌,
}
use lxd_management_api.Security.{Role, viewer, operator, admin, role_value}
use lxd_management_api.Auth.{UserCreate, user_create}
use lxd_management_api.Database.Schema.{Column, string, user_table}

-- The width of a column of texts.
width_of : String → List Column → ℕ
width_of name [] = 0
width_of name (c ∷ cs) =
    if c.name == name then (elim c.type [ string n ↦ n | _ ↦ 0 ]) else width_of name cs

role_width : (r : Role) → String.count (role_value r) ≤ width_of "role" user_table.columns
unfolding role_value width_of user_table
role_width viewer = omega arith
role_width operator = omega arith
role_width admin = omega arith

username_width :
    (username password : String) (role : Option String) (u : UserCreate)
    → user_create username password role ≡ some u
    → String.count u.username ≤ width_of "username" user_table.columns
unfolding user_create width_of user_table
username_width username password role u h = ground arith

-- What a registration that passes its validation gives to the store fits the declared widths of the
-- columns for the name and for the role.
registered_fits :
    (username password : String) (role : Option String) (u : UserCreate)
    → user_create username password role ≡ some u
    → (String.count u.username ≤ width_of "username" user_table.columns)
      × (String.count (role_value u.role) ≤ width_of "role" user_table.columns)
registered_fits username password role u h =
    (username_width username password role u h, role_width u.role)
