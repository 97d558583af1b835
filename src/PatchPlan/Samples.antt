-- ===== src/PatchPlan/Samples.antt =====
-- A patch of three operations on one table.
use dygo.Base.{
  String, ◌-◌, Text, codes, text_eq, contains_text, trim_space, [], ◌∷◌, ◌++◌, true, false, ◌&&◌,
  ◌||◌, leb, none, some, ◌≡◌, refl, if◌then◌else◌, Result, ok, err,
}
use dygo.PatchPlan.Defs.{
  Error, transaction_control, no_live_column, rename_live_column, drop_live_column,
  change_live_column_type, LoadedEntity, Field, YamlNode, scalar, Operation, rename_field,
  drop_field, change_field_type, LoadedPatch, PatchOperationPlan, LiveSchema, LiveTable, LiveColumn,
  Unicode, alter_drop_column, sql_of, double, build_patch_operation_plan, validate_patch_sql,
}
use dygo.PatchPlan.Effects.{Accepts, shape_of}
use dygo.PatchPlan.Refines.{RunsAll, build_patch_operation_plan-RunsAll}
use dygo.PatchPlan.Literals.{validate_patch_sql-literal}
use dygo.PatchPlan.Quoting.{outside, identifiers, identifiers-sql_of}

abbrev ascii : Unicode
ascii = record {
  is_letter = λ c. (leb b'a' c && leb c b'z') || (leb b'A' c && leb c b'Z');
  to_upper = λ c. if leb b'a' c && leb c b'z' then c - 32 else c;
}

abbrev field : Text → Text → Field
field name type_name = record {
  name = name;
  type_name = type_name;
  target_app = [];
  target_entity = [];
}

abbrev deal : LoadedEntity
deal = record {
  app = codes "crm";
  name = codes "deal";
  fields = field (codes "title") (codes "text") ∷ field (codes "size") (codes "bigint") ∷ [];
}

abbrev column : Text → Text → LiveColumn
column name sql_type = record {
  name = name;
  sql_type = sql_type;
  nullable = true;
  has_default = false;
  default_sql = [];
}

abbrev deals : LiveTable
unfolding text_eq
deals = record {
  name = codes "crm_deal";
  columns = λ c.
      if text_eq c (codes "old_title")
      then some (column c (codes "text"))
      else if text_eq c (codes "size")
      then some (column c (codes "integer"))
      else if text_eq c (codes "notes")
      then some (column c (codes "text"))
      else none;
}

abbrev before : LiveSchema
unfolding text_eq
before t = if text_eq t (codes "crm_deal") then some deals else none

abbrev text_field : String → String → Text × YamlNode
text_field name value = (codes name, scalar (codes "!!str") (codes value))

abbrev rename_title : Operation
rename_title = record {
  kind = rename_field;
  fields =
      text_field "entity" "deal" ∷ text_field "from" "old-title" ∷ text_field "to" "title" ∷ [];
}

abbrev drop_notes : Operation
drop_notes = record {
  kind = drop_field;
  fields = text_field "entity" "deal" ∷ text_field "field" "notes" ∷ [];
}

abbrev widen_size : Operation
widen_size = record {
  kind = change_field_type;
  fields =
      text_field "entity" "deal"
      ∷ text_field "field" "size"
      ∷ text_field "to" "bigint"
      ∷ text_field "using" "size::bigint"
      ∷ [];
}

abbrev patch : LoadedPatch
patch = record {
  app = codes "crm";
  id = codes "deals";
  operations = rename_title ∷ drop_notes ∷ widen_size ∷ [];
}

abbrev plan_or_none : LiveSchema → Result Error PatchOperationPlan → PatchOperationPlan
plan_or_none live (ok plan) = plan
plan_or_none live (err e) = record { operations = []; schema_after = live; unsimulated_sql = true }

abbrev deals_plan : PatchOperationPlan
unfolding build_patch_operation_plan
deals_plan = plan_or_none before (build_patch_operation_plan ascii (patch ∷ []) (deal ∷ []) before)

plan_is_made : build_patch_operation_plan ascii (patch ∷ []) (deal ∷ []) before ≡ ok deals_plan
unfolding build_patch_operation_plan before text_eq contains_text trim_space deals_plan deals
    rename_live_column drop_live_column
plan_is_made = refl

-- A second time there is no column left to rename.
second_run_fails :
    build_patch_operation_plan ascii (patch ∷ patch ∷ []) (deal ∷ []) before ≡ err no_live_column
unfolding build_patch_operation_plan before text_eq contains_text trim_space deals
    rename_live_column drop_live_column change_live_column_type
second_run_fails = refl

no_sql : deals_plan.unsimulated_sql ≡ false
unfolding build_patch_operation_plan before text_eq contains_text trim_space deals_plan deals
    rename_live_column drop_live_column
no_sql = refl

-- An expression is accepted where the table has the column `size`, which `size::bigint` reads.
abbrev size_is_read : Accepts
size_is_read using new cols = elim (cols (codes "size")) [ none ↦ false | some type ↦ true ]

build_patch_operation_plan-RunsAll_example :
    RunsAll size_is_read deals_plan.operations (shape_of before) (shape_of deals_plan.schema_after)
build_patch_operation_plan-RunsAll_example =
    build_patch_operation_plan-RunsAll size_is_read ascii (patch ∷ []) (deal ∷ []) before deals_plan
      plan_is_made no_sql

-- A CASE expression has a word that the check refuses.
case_is_refused :
    validate_patch_sql ascii (codes "UPDATE t SET a = CASE WHEN b THEN 1 END")
    ≡ err transaction_control
unfolding validate_patch_sql contains_text text_eq
case_is_refused = refl

-- In an escape string the quote after the backslash does not end the literal for the database, and does for
-- the check; this statement ends the transaction.
escape_string_passes : validate_patch_sql ascii (codes "SELECT E'\\''; COMMIT; --'") ≡ ok tt
unfolding validate_patch_sql contains_text text_eq
escape_string_passes = refl

validate_patch_sql-literal_example :
    validate_patch_sql ascii (
      codes "SELECT "
      ++ (b'\'' ∷ (double b'\'' (codes "it's; COMMIT") ++ (b'\'' ∷ codes "; DROP TABLE t"))))
    ≡ validate_patch_sql ascii (codes "SELECT " ++ (b' ' ∷ codes "; DROP TABLE t"))
validate_patch_sql-literal_example =
    validate_patch_sql-literal ascii b'\'' (codes "SELECT ") (codes "it's; COMMIT")
      (codes "; DROP TABLE t") refl refl refl refl

abbrev quoted_name : Text
quoted_name = codes "a\"; b"

sql_of-quoted_name :
    sql_of (alter_drop_column (codes "t") quoted_name)
    ≡ codes "ALTER TABLE \"t\" DROP COLUMN \"a\"\"; b\""
unfolding sql_of
sql_of-quoted_name = refl

identifiers-sql_of_example :
    identifiers outside (sql_of (alter_drop_column (codes "t") quoted_name))
    ≡ codes "t" ∷ quoted_name ∷ []
identifiers-sql_of_example = identifiers-sql_of (alter_drop_column (codes "t") quoted_name) refl
