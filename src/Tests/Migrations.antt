-- ===== src/Tests/Migrations.antt =====
-- A database whose schema is two maps, and the migration of an empty one.
use mathlib.Core.Option
use lxd_management_api.Base.{String, ◌==◌, none, some, Option, if◌then◌else◌}
use lxd_management_api.Database.Schema.{
  Table, Index, Op, create_table, create_index, drop_index, drop_table, Schemas, without_table,
}

abbrev Names : Type 0
Names = (String → Option Table) × (String → Option Index)

abbrev written {ℓ} : {A : Type ℓ} → String → Option A → (String → Option A) → String → Option A
written name a f n = if name == n then a else f n

-- An operation, on what its names have now.
tabled : Table → Names → Option Table → Option Names
tabled t s none = some (written t.name (some t) s.0, s.1)
tabled t s (some other) = none

indexed : Index → Names → Option Table → Option Index → Option Names
indexed i s (some t) none = some (s.0, written i.name (some i) s.1)
indexed i s (some t) (some other) = none
indexed i s none other = none

unindexed : String → Names → Option Index → Option Names
unindexed name s none = none
unindexed name s (some i) = some (s.0, written name none s.1)

untabled : String → Names → Option Table → Option Names
untabled name s none = none
untabled name s (some t) = some (written name none s.0, λ n. without_table name (s.1 n))

abbrev steps : Op → Names → Option Names
steps (create_table t) s = tabled t s (s.0 t.name)
steps (create_index i) s = indexed i s (s.0 i.table) (s.1 i.name)
steps (drop_index name table) s = unindexed name s (s.1 name)
steps (drop_table name) s = untabled name s (s.0 name)

all_of : Table → Index → Names → Option Table → Option Names
all_of t i s none = steps (create_index i) (written t.name (some t) s.0, s.1)
all_of t i s (some other) = some s

abbrev memory : Schemas
memory = record {
  State = Names;
  run = steps;
  table_of = λ s. s.0;
  index_of = λ s. s.1;
  create_all = λ t i s. all_of t i s (s.0 t.name);
}

abbrev blank : Names
blank = (λ n. none, λ n. none)
