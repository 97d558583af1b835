-- ===== src/PatchPlan/Defs/Schema.antt =====
-- LiveSchema and its mutations. The maps of the source are functions of names.
use dygo.Base.{
  Text, List, [], ◌∷◌, ◌++◌, Bool, true, false, Option, none, some, text_eq, if◌then◌else◌, codes,
  Result, ok, err,
}
use dygo.PatchPlan.Defs.Metadata.{
  Error, table_missing, column_missing, no_live_column, ambiguous_column, storage_name,
}

-- liveColumn
pub record LiveColumn : Type 0 where
  pub name : Text
  pub sql_type : Text
  pub nullable : Bool
  pub has_default : Bool
  pub default_sql : Text

-- liveTable, without its indexes and constraints
pub record LiveTable : Type 0 where
  pub name : Text
  pub columns : Text → Option LiveColumn

abbrev pub LiveSchema : Type 0
LiveSchema = Text → Option LiveTable

unfoldable pub set_key {ℓ} : {A : Type ℓ} → Text → Option A → (Text → Option A) → Text → Option A
unfolding text_eq
set_key k v m = λ x. if text_eq x k then v else m x

abbrev zero_column : LiveColumn
zero_column = record {
  name = [];
  sql_type = [];
  nullable = false;
  has_default = false;
  default_sql = [];
}

abbrev pub column_or_zero : Option LiveColumn → LiveColumn
column_or_zero none = zero_column
column_or_zero (some c) = c

abbrev zero_table : LiveTable
zero_table = record { name = []; columns = λ _. none }

abbrev pub table_or_zero : Option LiveTable → LiveTable
table_or_zero none = zero_table
table_or_zero (some t) = t

-- The columns of a table are changed.
abbrev pub change_columns :
    Text → ((Text → Option LiveColumn) → Text → Option LiveColumn) → LiveSchema → LiveSchema
change_columns table change live =
    let t = table_or_zero (live table) in
    set_key table (some (record t { columns = change t.columns })) live

abbrev pub rename_in : Text → Text → (Text → Option LiveColumn) → Text → Option LiveColumn
rename_in from to columns =
    set_key to (some (record (column_or_zero (columns from)) { name = to }))
      (set_key from none columns)

abbrev pub retype_in : Text → Text → (Text → Option LiveColumn) → Text → Option LiveColumn
retype_in column sql_type columns =
    set_key column (some (record (column_or_zero (columns column)) { sql_type = sql_type })) columns

-- renameLiveColumn
unfoldable pub rename_live_column : Text → Text → Text → LiveSchema → LiveSchema
unfolding set_key
rename_live_column table from to = change_columns table (rename_in from to)

-- renameLiveTable
unfoldable pub rename_live_table : Text → Text → LiveSchema → LiveSchema
unfolding set_key
rename_live_table from to live =
    set_key to (some (record (table_or_zero (live from)) { name = to })) (set_key from none live)

-- dropLiveColumn
unfoldable pub drop_live_column : Text → Text → LiveSchema → LiveSchema
unfolding set_key
drop_live_column table column = change_columns table (set_key column none)

-- changeLiveColumnType
unfoldable pub change_live_column_type : Text → Text → Text → LiveSchema → LiveSchema
unfolding set_key
change_live_column_type table column sql_type = change_columns table (retype_in column sql_type)

abbrev pub found_table : Option LiveTable → Result Error LiveTable
found_table none = err table_missing
found_table (some t) = ok t

abbrev pub is_there : Option LiveTable → Bool
is_there none = false
is_there (some t) = true

-- liveTable of the planner
unfoldable pub live_table : LiveSchema → Text → Result Error LiveTable
live_table live table = found_table (live table)

abbrev pub has_column : Option LiveColumn → Bool
has_column none = false
has_column (some c) = true

abbrev pub table_has : Text → Option LiveTable → Bool
table_has column none = false
table_has column (some t) = has_column (t.columns column)

abbrev pub found_column : Text → Option LiveTable → Result Error (Unit {0})
found_column column none = err table_missing
found_column column (some t) = if has_column (t.columns column) then ok tt else err column_missing

-- requireLiveColumn
unfoldable pub require_live_column : LiveSchema → Text → Text → Result Error (Unit {0})
require_live_column live table column = found_column column (live table)

-- liveTableExists
abbrev pub live_table_exists : LiveSchema → Text → Bool
live_table_exists live table = is_there (live table)

-- liveColumnExists
abbrev pub live_column_exists : LiveSchema → Text → Text → Bool
live_column_exists live table column = table_has column (live table)

matches : (Text → Option LiveColumn) → List Text → List Text
matches columns [] = []
matches columns (c ∷ cs) =
    let rest = matches columns cs in if has_column (columns c) then c ∷ rest else rest

-- inferLiveFieldColumn
unfoldable pub infer_live_field_column : LiveSchema → Text → Text → Result Error Text
unfolding matches
infer_live_field_column live table field = elim (live table) [
  | none ↦ err table_missing
  | some t ↦
      let base = storage_name field in
      elim (matches t.columns (base ∷ (base ++ codes "_id") ∷ (base ++ codes "_hash") ∷ [])) [
        | [] ↦ err no_live_column
        | c ∷ rest ↦ elim rest [ [] ↦ ok c | _ ∷ _ ↦ err ambiguous_column ]
      ]
]
