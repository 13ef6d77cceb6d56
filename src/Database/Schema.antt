-- ===== src/Database/Schema.antt =====
-- The table `users` as db/models.py declares it, and as the migration of alembic/versions makes it. What
-- a change of a schema does is the record `Schemas`, since the database and alembic are outside the
-- repository.
pub mod Migration
pub mod Widths
use lxd_management_api.Base.{
  ℕ, String, ◌==◌, ◌≡◌, ◌≢◌, Bool, true, false, Option, none, some, List, [], ◌∷◌, if◌then◌else◌,
}

pub data ColumnType : Type 0 where
  integer boolean datetime_with_timezone : ColumnType
  string : ℕ → ColumnType

pub record Column : Type 0 where
  pub name : String
  pub type : ColumnType
  pub nullable : Bool
  pub autoincrement : Bool
  pub server_default : Option String

pub record Table : Type 0 where
  pub name : String
  pub columns : List Column
  pub primary_key : List String

pub record Index : Type 0 where
  pub name : String
  pub table : String
  pub columns : List String
  pub unique : Bool

-- The operations of `alembic.op` that the migration uses.
pub data Op : Type 0 where
  create_table : Table → Op
  create_index : Index → Op
  drop_index : String → String → Op
  drop_table : String → Op

abbrev plain_column : String → ColumnType → Option String → Column
plain_column name type server_default = record {
  name = name;
  type = type;
  nullable = false;
  autoincrement = false;
  server_default = server_default;
}

abbrev id_column : Column
id_column = record {
  name = "id";
  type = integer;
  nullable = false;
  autoincrement = true;
  server_default = none;
}

-- `User.__tablename__` and its columns.
unfoldable pub user_table : Table
user_table = record {
  name = "users";
  columns =
      id_column
      ∷ (plain_column "username" (string 64) none
          ∷ (plain_column "hashed_password" (string 255) none
              ∷ (plain_column "role" (string 16) none
                  ∷ (plain_column "is_active" boolean none
                      ∷ (plain_column "created_at" datetime_with_timezone (some "now()") ∷ [])))));
  primary_key = "id" ∷ [];
}

-- The index that SQLAlchemy documents for a column with `unique=True, index=True`.
unfoldable pub username_index : Index
username_index = record {
  name = "ix_users_username";
  table = "users";
  columns = "username" ∷ [];
  unique = true;
}

-- The table of `upgrade`.
unfoldable pub migrated_table : Table
migrated_table = record {
  name = "users";
  columns =
      id_column
      ∷ (plain_column "username" (string 64) none
          ∷ (plain_column "hashed_password" (string 255) none
              ∷ (plain_column "role" (string 16) (some "viewer")
                  ∷ (plain_column "is_active" boolean (some "1")
                      ∷ (plain_column "created_at" datetime_with_timezone (some "now()") ∷ [])))));
  primary_key = "id" ∷ [];
}

unfoldable pub migrated_index : Index
migrated_index = record {
  name = "ix_users_username";
  table = "users";
  columns = "username" ∷ [];
  unique = true;
}

-- `upgrade`.
unfoldable pub upgrade : List Op
upgrade = create_table migrated_table ∷ (create_index migrated_index ∷ [])

-- `downgrade`.
unfoldable pub downgrade : List Op
downgrade = drop_index "ix_users_username" "users" ∷ (drop_table "users" ∷ [])

-- A database whose schema can be changed; `none` is an error, such as that of a table that exists.
pub record Schemas : Type 1 where
  pub State : Type 0
  pub run : Op → State → Option State
  pub table_of : State → String → Option Table
  pub index_of : State → String → Option Index
  pub create_all : Table → Index → State → Option State

-- The operations of a migration in order; an error ends it.
unfoldable pub run_all : (db : Schemas) → List Op → db.State → Option db.State
run_all db [] s = some s
run_all db (op ∷ ops) s = elim (db.run op s) [ none ↦ none | some s' ↦ run_all db ops s' ]

-- An index, unless it is one of the table.
abbrev pub without_table : String → Option Index → Option Index
without_table name none = none
without_table name (some i) = if i.table == name then none else some i

-- What the databases document: a table is dropped with its indexes.
pub record IsSchemas (db : Schemas) : Type 0 where
  pub table_taken :
      (s : db.State) (t : Table) → db.table_of s t.name ≢ none → db.run (create_table t) s ≡ none
  pub table_created :
      (s : db.State) (t : Table)
      → db.table_of s t.name ≡ none
      → (s' : db.State) × (db.run (create_table t) s ≡ some s')
        × ((n : String) → db.table_of s' n ≡ (if t.name == n then some t else db.table_of s n))
        × ((n : String) → db.index_of s' n ≡ db.index_of s n)
  pub index_created :
      (s : db.State) (i : Index)
      → db.table_of s i.table ≢ none
      → db.index_of s i.name ≡ none
      → (s' : db.State) × (db.run (create_index i) s ≡ some s')
        × ((n : String) → db.table_of s' n ≡ db.table_of s n)
        × ((n : String) → db.index_of s' n ≡ (if i.name == n then some i else db.index_of s n))
  pub index_dropped :
      (s : db.State) (name table : String)
      → db.index_of s name ≢ none
      → (s' : db.State) × (db.run (drop_index name table) s ≡ some s')
        × ((n : String) → db.table_of s' n ≡ db.table_of s n)
        × ((n : String) → db.index_of s' n ≡ (if name == n then none else db.index_of s n))
  pub table_dropped :
      (s : db.State) (name : String)
      → db.table_of s name ≢ none
      → (s' : db.State) × (db.run (drop_table name) s ≡ some s')
        × ((n : String) → db.table_of s' n ≡ (if name == n then none else db.table_of s n))
        × ((n : String) → db.index_of s' n ≡ without_table name (db.index_of s n))
  -- `create_all` skips a table that exists, and makes a table with its index otherwise.
  pub create_all_present :
      (s : db.State) (t : Table) (i : Index)
      → db.table_of s t.name ≢ none
      → db.create_all t i s ≡ some s
  pub create_all_absent :
      (s : db.State) (t : Table) (i : Index)
      → db.table_of s t.name ≡ none
      → db.create_all t i s ≡ run_all db (create_table t ∷ (create_index i ∷ [])) s

-- `init_db`.
unfoldable pub init_db : (db : Schemas) → db.State → Option db.State
unfolding user_table username_index
init_db db s = db.create_all user_table username_index s
