-- ===== src/Migrations.antt =====
-- ingest_api/alembic/versions: the changes of the schema that the migrations ask Alembic for.
pub mod Initial
pub mod Enterprise
pub mod Undone
use unikernal_honeynet.Base.{ℕ, String, Bool, true, false, List, Option, none, some, ◌≡◌}

pub data ColumnType : Type 0 where
  uuid text integer boolean timestamp json : ColumnType
  varchar : (length : ℕ) → ColumnType

-- `sa.Column`, with the `sa.ForeignKey` and the `server_default` that it has, if any.
pub record Column : Type 0 where
  pub name : String
  pub type : ColumnType
  pub nullable : Bool
  pub primary_key : Bool
  pub foreign_key : Option String
  pub server_default : Option String

abbrev pub id_column : Column
id_column = record {
  name = "id";
  type = uuid;
  nullable = false;
  primary_key = true;
  foreign_key = none;
  server_default = none;
}

abbrev pub required : String → ColumnType → Column
required name type = record {
  name = name;
  type = type;
  nullable = false;
  primary_key = false;
  foreign_key = none;
  server_default = none;
}

abbrev pub optional : String → ColumnType → Column
optional name type = record (required name type) { nullable = true }

abbrev pub refers : String → String → Bool → Column
refers name target nullable = record (required name uuid) {
  nullable = nullable;
  foreign_key = some target;
}

abbrev pub filled : String → ColumnType → String → Column
filled name type value = record (required name type) { server_default = some value }

-- `op.create_table` with its `sa.UniqueConstraint`s, a column and a name each, `op.add_column`, and
-- `op.create_index` of one column.
pub data Change : Type 0 where
  create_table : (name : String) (columns : List Column) (unique : List (String × String)) → Change
  add_column : (table : String) (column : Column) → Change
  create_index create_unique_index : (name table column : String) → Change

-- `op.drop_table`, `op.drop_column` and `op.drop_index`.
pub data Drop : Type 0 where
  drop_table : (name : String) → Drop
  drop_column : (table column : String) → Drop
  drop_index : (name table : String) → Drop

-- What Alembic makes of an operation on a schema; `none` is a statement that the database refuses.
pub record Alembic : Type 1 where
  pub State : Type 0
  pub change : Change → State → Option State
  pub drop : Drop → State → Option State

-- The operation that drops what a change creates.
abbrev pub drop_of : Change → Drop
drop_of (create_table name columns unique) = drop_table name
drop_of (add_column table column) = drop_column table column.name
drop_of (create_index name table column) = drop_index name table
drop_of (create_unique_index name table column) = drop_index name table

-- To drop what a change has just created gives back the schema before it.
abbrev pub IsLawful : Alembic → Type 0
IsLawful A = (c : Change) (s t : A.State) → A.change c s ≡ some t → A.drop (drop_of c) t ≡ some s
