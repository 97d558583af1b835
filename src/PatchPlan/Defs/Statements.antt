-- ===== src/PatchPlan/Defs/Statements.antt =====
-- What the planner makes of an operation, and how it finds Entities and columns.
use dygo.Base.{
  ℕ, Text, codes, List, [], ◌∷◌, Bool, none, some, find, text_eq, contains_text, Result, ok, err,
  ◌>>=◌,
}
use dygo.PatchPlan.Defs.Metadata.{
  Error, entity_not_loaded, field_not_loaded, LoadedEntity, Field, is_entity, column_for_field,
  find_entity_field,
}
use dygo.PatchPlan.Defs.Reader.{Operation, Kind}
use dygo.PatchPlan.Defs.Schema.{LiveSchema, infer_live_field_column}

-- Which SQL an operation is, with the texts that are formatted into it.
pub data Statement : Type 0 where
  alter_rename_column : Text → Text → Text → Statement
  alter_rename_table : Text → Text → Statement
  update_from_column : Text → Text → Text → Bool → Statement
  update_to_value : Text → Text → Text → Bool → Statement
  alter_drop_column : Text → Text → Statement
  alter_column_type : Text → Text → Text → Text → Statement
  verbatim : Text → Statement

-- What planning one operation gives: the statement and the schema after it.
abbrev pub Planned : Type 0
Planned = Result Error (Statement × LiveSchema)

pub record LoadedPatch : Type 0 where
  pub app : Text
  pub id : Text
  pub operations : List Operation

pub record PatchOperation : Type 0 where
  pub patch_id : Text
  pub operation_index : ℕ
  pub kind : Kind
  pub statement : Statement

pub record PatchOperationPlan : Type 0 where
  pub operations : List PatchOperation
  pub schema_after : LiveSchema
  pub unsimulated_sql : Bool

-- isSystemColumn
abbrev pub is_system_column : Text → Bool
is_system_column column =
    contains_text
      (codes "id" ∷ codes "name" ∷ codes "created_at" ∷ codes "updated_at" ∷ codes "owner_id" ∷ [])
      column

-- entity
abbrev pub loaded_entity : List LoadedEntity → Text → Text → Result Error LoadedEntity
loaded_entity entities app name = elim (find (is_entity app name) entities) [
  | none ↦ err entity_not_loaded
  | some e ↦ ok e
]

-- metadataFieldColumn
unfoldable pub metadata_field_column : LoadedEntity → Text → Result Error (Text × Field)
unfolding text_eq column_for_field
metadata_field_column e name = elim (find_entity_field e name) [
  | none ↦ err field_not_loaded
  | some f ↦ do column ← column_for_field f; ok (column, f)
]

-- patchFieldColumn
unfoldable pub patch_field_column : LiveSchema → LoadedEntity → Text → Text → Result Error Text
unfolding text_eq column_for_field infer_live_field_column
patch_field_column live e table name = elim (find_entity_field e name) [
  | some f ↦ column_for_field f
  | none ↦ infer_live_field_column live table name
]
