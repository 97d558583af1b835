-- ===== src/PatchPlan/Defs/Planner.antt =====
-- BuildPatchOperationPlan: each operation is checked against the metadata and the schema so far, which it
-- changes. Descriptions, and what an operation copies from its patch besides the id, are left out.
use dygo.Base.{
  ℕ, suc, Text, codes, List, [], ◌∷◌, ◌++◌, Bool, true, false, not, ◌||◌, text_eq, contains_text,
  Result, ok, err, reject, ◌>>=◌, ◌>>◌,
}
use dygo.PatchPlan.Defs.Metadata.{
  Error, system_column, table_exists, column_exists, wrong_field_type, unsupported_operation,
  LoadedEntity, table_name, entity_table_name, column_type, check_entities,
}
use dygo.PatchPlan.Defs.Reader.{
  Operation, Kind, rename_field, rename_entity, copy_field, backfill_field, drop_field,
  change_field_type, sql, unsupported, require_operation_fields, required_string,
  required_statement, required_scalar_sql, when_bool,
}
use dygo.PatchPlan.Defs.SqlGuard.{Unicode, validate_patch_sql}
use dygo.PatchPlan.Defs.Schema.{
  LiveSchema, rename_live_column, rename_live_table, drop_live_column, change_live_column_type,
  live_table, require_live_column, live_table_exists, live_column_exists,
}
use dygo.PatchPlan.Defs.Statements.{
  alter_rename_column, alter_rename_table, update_from_column, update_to_value, alter_drop_column,
  alter_column_type, verbatim, Planned, LoadedPatch, PatchOperationPlan, is_system_column,
  loaded_entity, metadata_field_column, patch_field_column,
}

module _ (entities : List LoadedEntity) (app : Text) where
  -- planRenameField
  unfoldable pub plan_rename_field : Operation → LiveSchema → Planned
  unfolding require_operation_fields required_string text_eq contains_text table_name
      patch_field_column metadata_field_column require_live_column
  plan_rename_field o live = do
    require_operation_fields o
    entity_name ← required_string o (codes "entity")
    from_field ← required_string o (codes "from")
    to_field ← required_string o (codes "to")
    e ← loaded_entity entities app entity_name
    table ← table_name e
    from ← patch_field_column live e table from_field
    reject (is_system_column from) system_column
    (to, _) ← metadata_field_column e to_field
    require_live_column live table from
    reject (live_column_exists live table to) column_exists
    ok (alter_rename_column table from to, rename_live_column table from to live)

  -- planRenameEntity
  unfoldable pub plan_rename_entity : Operation → LiveSchema → Planned
  unfolding require_operation_fields required_string text_eq entity_table_name table_name live_table
  plan_rename_entity o live = do
    require_operation_fields o
    from_entity ← required_string o (codes "from")
    to_entity ← required_string o (codes "to")
    e ← loaded_entity entities app to_entity
    let from = entity_table_name app from_entity
    to ← table_name e
    _ ← live_table live from
    reject (live_table_exists live to) table_exists
    ok (alter_rename_table from to, rename_live_table from to live)

  -- planCopyField
  unfoldable pub plan_copy_field : Operation → LiveSchema → Planned
  unfolding require_operation_fields required_string when_bool text_eq table_name patch_field_column
      metadata_field_column require_live_column
  plan_copy_field o live = do
    require_operation_fields o
    entity_name ← required_string o (codes "entity")
    from_field ← required_string o (codes "from")
    to_field ← required_string o (codes "to")
    when_to_is_null ← when_bool o (codes "to-is-null")
    e ← loaded_entity entities app entity_name
    table ← table_name e
    from ← patch_field_column live e table from_field
    (to, _) ← metadata_field_column e to_field
    require_live_column live table from
    require_live_column live table to
    ok (update_from_column table to from when_to_is_null, live)

  -- planBackfillField
  unfoldable pub plan_backfill_field : Operation → LiveSchema → Planned
  unfolding require_operation_fields required_string required_scalar_sql when_bool text_eq
      table_name metadata_field_column require_live_column
  plan_backfill_field o live = do
    require_operation_fields o
    entity_name ← required_string o (codes "entity")
    field_name ← required_string o (codes "field")
    value ← required_scalar_sql o (codes "value")
    when_field_is_null ← when_bool o (codes "field-is-null")
    e ← loaded_entity entities app entity_name
    table ← table_name e
    (column, _) ← metadata_field_column e field_name
    require_live_column live table column
    ok (update_to_value table column value when_field_is_null, live)

  -- planDropField
  unfoldable pub plan_drop_field : Operation → LiveSchema → Planned
  unfolding require_operation_fields required_string text_eq contains_text table_name
      patch_field_column require_live_column
  plan_drop_field o live = do
    require_operation_fields o
    entity_name ← required_string o (codes "entity")
    field_name ← required_string o (codes "field")
    e ← loaded_entity entities app entity_name
    table ← table_name e
    column ← patch_field_column live e table field_name
    reject (is_system_column column) system_column
    require_live_column live table column
    ok (alter_drop_column table column, drop_live_column table column live)

  -- planChangeFieldType
  unfoldable pub plan_change_field_type : Operation → LiveSchema → Planned
  unfolding require_operation_fields required_string text_eq table_name metadata_field_column
      column_type require_live_column
  plan_change_field_type o live = do
    require_operation_fields o
    entity_name ← required_string o (codes "entity")
    field_name ← required_string o (codes "field")
    target_type ← required_string o (codes "to")
    using ← required_string o (codes "using")
    e ← loaded_entity entities app entity_name
    table ← table_name e
    (column, field) ← metadata_field_column e field_name
    reject (not (text_eq field.type_name target_type)) wrong_field_type
    sql_type ← column_type entities e field
    require_live_column live table column
    ok (
      alter_column_type table column sql_type using,
      change_live_column_type table column sql_type live,
    )

  -- planSQL
  unfoldable pub plan_sql : Unicode → Operation → LiveSchema → Planned
  unfolding require_operation_fields required_string required_statement validate_patch_sql
  plan_sql u o live = do
    require_operation_fields o
    _ ← required_string o (codes "name")
    _ ← required_string o (codes "reason")
    statement ← required_statement o (codes "statement")
    validate_patch_sql u statement
    ok (verbatim statement, live)

  -- plan
  unfoldable pub plan_kind : Unicode → Kind → Operation → LiveSchema → Planned
  unfolding plan_rename_field plan_rename_entity plan_copy_field plan_backfill_field plan_drop_field
      plan_change_field_type plan_sql
  plan_kind u rename_field o live = plan_rename_field o live
  plan_kind u rename_entity o live = plan_rename_entity o live
  plan_kind u copy_field o live = plan_copy_field o live
  plan_kind u backfill_field o live = plan_backfill_field o live
  plan_kind u drop_field o live = plan_drop_field o live
  plan_kind u change_field_type o live = plan_change_field_type o live
  plan_kind u sql o live = plan_sql u o live
  plan_kind u unsupported o live = err unsupported_operation

abbrev pub is_sql : Kind → Bool
is_sql sql = true
is_sql _ = false

-- The loop over the operations of a patch.
unfoldable pub plan_patch :
    List LoadedEntity
    → Unicode
    → LoadedPatch
    → ℕ
    → List Operation
    → PatchOperationPlan
    → Result Error PatchOperationPlan
unfolding plan_kind
plan_patch entities u patch index [] plan = ok plan
plan_patch entities u patch index (o ∷ rest) plan =
    plan_kind entities patch.app u o.kind o plan.schema_after >>= λ planned.
    plan_patch entities u patch (suc index) rest (record {
      operations =
          plan.operations
          ++ record {
            patch_id = patch.id;
            operation_index = index;
            kind = o.kind;
            statement = planned.0;
          }
            ∷ [];
      schema_after = planned.1;
      unsimulated_sql = plan.unsimulated_sql || is_sql o.kind;
    })

-- The loop over the patches.
unfoldable pub plan_patches :
    List LoadedEntity
    → Unicode
    → List LoadedPatch
    → PatchOperationPlan
    → Result Error PatchOperationPlan
unfolding plan_patch
plan_patches entities u [] plan = ok plan
plan_patches entities u (patch ∷ rest) plan =
    plan_patch entities u patch 0 patch.operations plan >>= λ next.
    plan_patches entities u rest next

-- BuildPatchOperationPlan
unfoldable pub build_patch_operation_plan :
    Unicode → List LoadedPatch → List LoadedEntity → LiveSchema → Result Error PatchOperationPlan
unfolding check_entities plan_patches
build_patch_operation_plan u loaded entities live = do
  check_entities [] entities
  plan_patches entities u loaded
      (record { operations = []; schema_after = live; unsimulated_sql = false })
