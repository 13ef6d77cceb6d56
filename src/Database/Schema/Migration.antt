-- ===== src/Database/Schema/Migration.antt =====
-- What the migration does to a database, forwards and back, and how it meets the tables that the
-- application makes for itself when it starts.
use mathlib.Core.Option
use lxd_management_api.Base.{
  String, ◌==◌, eq_refl, ◌≡◌, ◌≢◌, refl, ap, ◌∙◌, Option, none, some, List, [], ◌∷◌, map,
  if◌then◌else◌,
}
use lxd_management_api.Database.Schema.{
  Column, Table, Index, Op, create_table, create_index, user_table, username_index, migrated_table,
  migrated_index, upgrade, Schemas, IsSchemas, run_all, init_db,
}

found : {A : Type 0} {o : Option A} {a : A} → o ≡ some a → o ≢ none
found h k = cc

found_self :
    {A : Type 0} (name : String) (a : A) (o : Option A)
    → (if name == name then some a else o) ≡ some a
found_self name a o = rw (eq_refl name)

undefault : Column → Column
undefault c = record c { server_default = none }

-- A table without the defaults of the database.
pub undefaulted : Table → Table
unfolding undefault
undefaulted t = record t { columns = map undefault t.columns }

module _ (db : Schemas) (lawful : IsSchemas db) where
  run_all_step :
      (op : Op) (ops : List Op) (s t : db.State)
      → db.run op s ≡ some t
      → run_all db (op ∷ ops) s ≡ run_all db ops t
  unfolding run_all
  run_all_step op ops s t h = rw (h, run_all)

  -- The database has the table and the index, and of other names what it had.
  pub record Gains (t : Table) (i : Index) (s s' : db.State) : Type 0 where
    pub tables : (n : String) → db.table_of s' n ≡ (if t.name == n then some t else db.table_of s n)
    pub indexes :
        (n : String) → db.index_of s' n ≡ (if i.name == n then some i else db.index_of s n)

  -- The two databases have the same tables and indexes.
  pub record Same (s s' : db.State) : Type 0 where
    pub tables : (n : String) → db.table_of s' n ≡ db.table_of s n
    pub indexes : (n : String) → db.index_of s' n ≡ db.index_of s n

  -- Making a table and its index, where neither name is taken.
  made :
      (t : Table) (i : Index) (ops : List Op) (s : db.State)
      → i.table ≡ t.name
      → db.table_of s t.name ≡ none
      → db.index_of s i.name ≡ none
      → (s' : db.State) × (run_all db (create_table t ∷ (create_index i ∷ ops)) s
          ≡ run_all db ops s')
        × Gains t i s s'
  made t i ops s same no_table no_index =
      let (s₁, ran₁, tables₁, indexes₁) = lawful.table_created s t no_table in
      let there = found (ap (db.table_of s₁) same ∙ tables₁ t.name ∙ found_self t.name t _) in
      let (s₂, ran₂, tables₂, indexes₂) =
        lawful.index_created s₁ i there (indexes₁ i.name ∙ no_index) in
      (
        s₂,
        run_all_step (create_table t) _ s s₁ ran₁ ∙ run_all_step (create_index i) ops s₁ s₂ ran₂,
        record {
          tables = λ n. tables₂ n ∙ tables₁ n;
          indexes = λ n. indexes₂ n ∙ ap (λ o. if i.name == n then some i else o) (indexes₁ n);
        },
      )

  module _ (s : db.State) (no_table : db.table_of s "users" ≡ none)
      (no_index : db.index_of s "ix_users_username" ≡ none) where
    upgrade_lem :
        (s' : db.State) × (run_all db upgrade s ≡ some s')
        × Gains migrated_table migrated_index s s'
    unfolding upgrade migrated_table migrated_index run_all
    upgrade_lem = made migrated_table migrated_index [] s refl no_table no_index

    -- The other way round, after `upgrade`, `init_db` leaves the database as it is.
    init_db_after_upgrade :
        (s' : db.State) × (run_all db upgrade s ≡ some s') × (init_db db s' ≡ some s')
    unfolding init_db user_table migrated_table
    init_db_after_upgrade =
        let (s', ran, gains) = upgrade_lem in
        (
          s',
          ran,
          lawful.create_all_present s' user_table username_index (found (gains.tables "users")),
        )
