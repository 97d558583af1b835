-- ===== src/PatchPlan/Defs/Metadata.antt =====
-- Loaded Entities and their storage: internal/entity/catalog/catalog.go, internal/entity/fieldtype and the
-- storage names of internal/db.
use dygo.Base.{
  String, Text, codes, List, [], ◌∷◌, ◌++◌, Bool, true, false, not, ◌||◌, Option, none, some, find,
  select, any, map, text_eq, trim_space, is_empty, if◌then◌else◌, ◌==◌, Result, ok, err, reject,
  ◌>>=◌, ◌>>◌,
}

-- Why a patch is refused.
pub data Error : Type 0 where
  duplicate_entity entity_not_loaded entity_name_required : Error
  field_not_loaded unsupported_field_type not_stored no_live_column ambiguous_column : Error
  unknown_target ambiguous_target : Error
  unsupported_operation unknown_operation_field field_required not_scalar invalid_boolean
        null_value :
      Error
  when_not_mapping when_empty when_key_not_scalar unknown_when_field when_not_bool when_not_true :
      Error
  system_column table_missing table_exists column_missing column_exists wrong_field_type : Error
  transaction_control database_level : Error

-- What the planner reads of fieldtype.Definition and its Behavior.
pub record FieldType : Type 0 where
  pub name : Text
  pub stored : Bool
  pub column_suffix : Text
  pub sql_type : Text

abbrev plain : String → String → FieldType
plain name sql_type = record {
  name = codes name;
  stored = true;
  column_suffix = [];
  sql_type = codes sql_type;
}

abbrev suffixed : String → String → String → FieldType
suffixed name suffix sql_type = record {
  name = codes name;
  stored = true;
  column_suffix = codes suffix;
  sql_type = codes sql_type;
}

-- builtIns
abbrev pub built_ins : List FieldType
built_ins =
    plain "text" "text"
    ∷ plain "email" "text"
    ∷ plain "phone" "text"
    ∷ plain "long-text" "text"
    ∷ plain "int" "integer"
    ∷ plain "bigint" "bigint"
    ∷ plain "decimal" "numeric"
    ∷ plain "currency" "numeric"
    ∷ plain "boolean" "boolean"
    ∷ plain "date" "date"
    ∷ plain "datetime" "timestamptz"
    ∷ plain "time" "time"
    ∷ suffixed "secret" "_encrypted" "text"
    ∷ suffixed "password" "_hash" "text"
    ∷ plain "select" "text"
    ∷ suffixed "link" "_id" "bigint"
    ∷ record { name = codes "collection"; stored = false; column_suffix = []; sql_type = [] }
    ∷ plain "attachment" "text"
    ∷ plain "json" "jsonb"
    ∷ []

-- DefaultDefinition
unfoldable pub default_definition : Text → Option FieldType
unfolding text_eq
default_definition name = find (λ (d : FieldType). text_eq d.name name) built_ins

-- A Field, with the target of a link.
pub record Field : Type 0 where
  pub name : Text
  pub type_name : Text
  pub target_app : Text
  pub target_entity : Text

pub record LoadedEntity : Type 0 where
  pub app : Text
  pub name : Text
  pub fields : List Field

-- EntityKey
abbrev pub entity_key : Text → Text → Text
entity_key app name = app ++ 0 ∷ name

-- storageName
abbrev pub storage_name : Text → Text
storage_name = map (λ c. if c == b'-' then b'_' else c)

-- entityTableName
unfoldable pub entity_table_name : Text → Text → Text
unfolding text_eq trim_space
entity_table_name app name =
    if text_eq app (codes "core") || is_empty (trim_space app)
    then storage_name name
    else storage_name (app ++ b'-' ∷ name)

-- tableName
unfoldable pub table_name : LoadedEntity → Result Error Text
unfolding entity_table_name trim_space
table_name e = do
  reject (is_empty (trim_space e.name)) entity_name_required
  ok (entity_table_name e.app e.name)

-- The definition of a Field's type, if its values have a column.
stored_definition : Text → Result Error FieldType
unfolding default_definition
stored_definition type_name = elim (default_definition type_name) [
  | none ↦ err unsupported_field_type
  | some d ↦ do reject (not d.stored) not_stored; ok d
]

-- columnForField
unfoldable pub column_for_field : Field → Result Error Text
unfolding stored_definition
column_for_field f = do
  d ← stored_definition f.type_name
  ok (storage_name f.name ++ d.column_suffix)

abbrev pub is_entity : Text → Text → LoadedEntity → Bool
unfolding text_eq
is_entity app name e = text_eq (entity_key e.app e.name) (entity_key app name)

-- TargetIndex.Resolve
unfoldable pub resolve_target :
    List LoadedEntity → LoadedEntity → Text → Text → Result Error LoadedEntity
unfolding text_eq trim_space
resolve_target entities owner app name =
    if not (is_empty (trim_space app))
    then elim (find (is_entity app name) entities) [ none ↦ err unknown_target | some e ↦ ok e ]
    else elim (find (is_entity owner.app name) entities) [
      | some e ↦ ok e
      | none ↦ elim (select (λ (e : LoadedEntity). text_eq e.name name) entities) [
        | [] ↦ err unknown_target
        | e ∷ rest ↦ elim rest [ [] ↦ ok e | _ ∷ _ ↦ err ambiguous_target ]
      ]
    ]

-- The target of a link is resolved.
check_link : List LoadedEntity → LoadedEntity → Field → Result Error (Unit {0})
unfolding resolve_target text_eq
check_link entities owner f =
    if text_eq f.type_name (codes "link")
    then (resolve_target entities owner f.target_app f.target_entity >>= λ _. ok tt)
    else ok tt

-- columnType
unfoldable pub column_type : List LoadedEntity → LoadedEntity → Field → Result Error Text
unfolding stored_definition check_link trim_space
column_type entities owner f = do
  d ← stored_definition f.type_name
  check_link entities owner f
  reject (is_empty (trim_space d.sql_type)) unsupported_field_type
  ok d.sql_type

-- findEntityField
abbrev pub find_entity_field : LoadedEntity → Text → Option Field
find_entity_field e name = find (λ (f : Field). text_eq f.name name) e.fields

-- newPatchOperationPlanner: no Entity is loaded twice.
unfoldable pub check_entities : List Text → List LoadedEntity → Result Error (Unit {0})
unfolding text_eq
check_entities seen [] = ok tt
check_entities seen (e ∷ rest) =
    let later = check_entities (entity_key e.app e.name ∷ seen) rest in
    if any (λ (k : Text). text_eq k (entity_key e.app e.name)) seen
    then err duplicate_entity
    else later
