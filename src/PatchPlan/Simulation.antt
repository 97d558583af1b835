-- ===== src/PatchPlan/Simulation.antt =====
-- Each planned operation changes the live schema as its statement changes the database.
use dygo.Base.{
  Text, codes, List, Bool, false, not, some, ◌≡◌, sym, ap, ◌∙◌, ok, OnOk, OnOk-bind, OnOk-reject,
  text_eq,
}
use dygo.PatchPlan.Defs.{
  LoadedEntity, entity_table_name, table_name, column_type, system_column, table_exists,
  column_exists, wrong_field_type,
}
use dygo.PatchPlan.Defs.{
  Operation, require_operation_fields, required_string, required_scalar_sql, when_bool,
}
use dygo.PatchPlan.Defs.{
  LiveTable, LiveSchema, live_table, require_live_column, live_table_exists, live_column_exists,
}
use dygo.PatchPlan.Defs.{
  Statement, is_system_column, loaded_entity, metadata_field_column, patch_field_column,
  plan_rename_field, plan_rename_entity, plan_copy_field, plan_backfill_field, plan_drop_field,
  plan_change_field_type, update_from_column, update_to_value,
}
use dygo.PatchPlan.Defs.{
  plan_kind, Kind, is_sql, sql, rename_field, rename_entity, copy_field, backfill_field, drop_field,
  change_field_type, unsupported, Unicode,
}
use dygo.PatchPlan.Effects.{
  Accepts, Runs, Attempt, it_runs, type_of, table_shape, shape_of, required_column,
  rename_live_column-Runs, drop_live_column-Runs, change_live_column_type-Attempt,
  rename_live_table-Runs, copied, filled,
}

-- What the planner makes of the schema is what the statement makes of the database.
abbrev pub Simulated : Accepts → LiveSchema → Statement × LiveSchema → Type 0
Simulated accepts live r = Attempt accepts r.0 (shape_of live) (shape_of r.1)

copied-Runs :
    (accepts : Accepts) (live : LiveSchema) (table to from : Text) (only_null : Bool)
    → require_live_column live table to ≡ ok tt
    → require_live_column live table from ≡ ok tt
    → Runs accepts (update_from_column table to from only_null) (shape_of live) (shape_of live)
copied-Runs accepts live table to from only_null h k =
    let (t, e, c, q) = required_column live table to h in
    let (u, f, d, p) = required_column live table from k in
    let same : t ≡ u = let both : some t ≡ some u = sym e ∙ f in cc in
    copied table to from only_null (ap table_shape e) (ap type_of q)
      (ap (λ (x : LiveTable). type_of (x.columns from)) same ∙ ap type_of p)

filled-Runs :
    (accepts : Accepts) (live : LiveSchema) (table column value : Text) (only_null : Bool)
    → require_live_column live table column ≡ ok tt
    → Runs accepts (update_to_value table column value only_null) (shape_of live) (shape_of live)
filled-Runs accepts live table column value only_null h =
    let (t, e, c, q) = required_column live table column h in
    filled table column value only_null (ap table_shape e) (ap type_of q)

module _ (accepts : Accepts) (entities : List LoadedEntity) (app : Text) where
  plan_rename_field-Attempt :
      (o : Operation) (live : LiveSchema)
      → OnOk (Simulated accepts live) (plan_rename_field entities app o live)
  unfolding plan_rename_field
  plan_rename_field-Attempt o live =
      OnOk-bind (Simulated accepts live) (require_operation_fields o) _ λ _ _.
        OnOk-bind (Simulated accepts live) (required_string o (codes "entity")) _ λ entity_name _.
          OnOk-bind (Simulated accepts live) (required_string o (codes "from")) _ λ from_field _.
            OnOk-bind (Simulated accepts live) (required_string o (codes "to")) _ λ to_field _.
              OnOk-bind (Simulated accepts live) (loaded_entity entities app entity_name) _ λ e _.
                OnOk-bind (Simulated accepts live) (table_name e) _ λ table _.
                  OnOk-bind (Simulated accepts live) (patch_field_column live e table from_field) _
                    λ from _.
                      OnOk-reject (Simulated accepts live) (is_system_column from) system_column _
                        λ _.
                          OnOk-bind (Simulated accepts live) (metadata_field_column e to_field) _
                            λ pair _.
                              let to = pair.0 in
                              OnOk-bind (Simulated accepts live)
                                (require_live_column live table from) _
                                λ _ there.
                                  OnOk-reject (Simulated accepts live)
                                    (live_column_exists live table to) column_exists _
                                    λ free. it_runs (
                                      rename_live_column-Runs accepts live table from to there free)

  plan_rename_entity-Attempt :
      (o : Operation) (live : LiveSchema)
      → OnOk (Simulated accepts live) (plan_rename_entity entities app o live)
  unfolding plan_rename_entity
  plan_rename_entity-Attempt o live =
      OnOk-bind (Simulated accepts live) (require_operation_fields o) _ λ _ _.
        OnOk-bind (Simulated accepts live) (required_string o (codes "from")) _ λ from_entity _.
          OnOk-bind (Simulated accepts live) (required_string o (codes "to")) _ λ to_entity _.
            OnOk-bind (Simulated accepts live) (loaded_entity entities app to_entity) _ λ e _.
              let from = entity_table_name app from_entity in
              OnOk-bind (Simulated accepts live) (table_name e) _ λ to _.
                OnOk-bind (Simulated accepts live) (live_table live from) _ λ t there.
                  OnOk-reject (Simulated accepts live) (live_table_exists live to) table_exists _
                    λ free. it_runs (rename_live_table-Runs accepts live from to t there free)

  plan_copy_field-Attempt :
      (o : Operation) (live : LiveSchema)
      → OnOk (Simulated accepts live) (plan_copy_field entities app o live)
  unfolding plan_copy_field
  plan_copy_field-Attempt o live =
      OnOk-bind (Simulated accepts live) (require_operation_fields o) _ λ _ _.
        OnOk-bind (Simulated accepts live) (required_string o (codes "entity")) _ λ entity_name _.
          OnOk-bind (Simulated accepts live) (required_string o (codes "from")) _ λ from_field _.
            OnOk-bind (Simulated accepts live) (required_string o (codes "to")) _ λ to_field _.
              OnOk-bind (Simulated accepts live) (when_bool o (codes "to-is-null")) _
                λ when_to_is_null _.
                  OnOk-bind (Simulated accepts live) (loaded_entity entities app entity_name) _
                    λ e _. OnOk-bind (Simulated accepts live) (table_name e) _ λ table _.
                      OnOk-bind (Simulated accepts live)
                        (patch_field_column live e table from_field) _
                        λ from _.
                          OnOk-bind (Simulated accepts live) (metadata_field_column e to_field) _
                            λ pair _.
                              let to = pair.0 in
                              OnOk-bind (Simulated accepts live)
                                (require_live_column live table from) _
                                λ _ there_from.
                                  OnOk-bind (Simulated accepts live)
                                    (require_live_column live table to) _
                                    λ _ there_to. it_runs (
                                      copied-Runs accepts live table to from when_to_is_null
                                        there_to there_from)

  plan_backfill_field-Attempt :
      (o : Operation) (live : LiveSchema)
      → OnOk (Simulated accepts live) (plan_backfill_field entities app o live)
  unfolding plan_backfill_field
  plan_backfill_field-Attempt o live =
      OnOk-bind (Simulated accepts live) (require_operation_fields o) _ λ _ _.
        OnOk-bind (Simulated accepts live) (required_string o (codes "entity")) _ λ entity_name _.
          OnOk-bind (Simulated accepts live) (required_string o (codes "field")) _ λ field_name _.
            OnOk-bind (Simulated accepts live) (required_scalar_sql o (codes "value")) _ λ value _.
              OnOk-bind (Simulated accepts live) (when_bool o (codes "field-is-null")) _
                λ when_field_is_null _.
                  OnOk-bind (Simulated accepts live) (loaded_entity entities app entity_name) _
                    λ e _. OnOk-bind (Simulated accepts live) (table_name e) _ λ table _.
                      OnOk-bind (Simulated accepts live) (metadata_field_column e field_name) _
                        λ pair _.
                          let column = pair.0 in
                          OnOk-bind (Simulated accepts live) (require_live_column live table column)
                            _
                            λ _ there.
                              it_runs (
                                filled-Runs accepts live table column value when_field_is_null
                                  there)

  plan_drop_field-Attempt :
      (o : Operation) (live : LiveSchema)
      → OnOk (Simulated accepts live) (plan_drop_field entities app o live)
  unfolding plan_drop_field
  plan_drop_field-Attempt o live =
      OnOk-bind (Simulated accepts live) (require_operation_fields o) _ λ _ _.
        OnOk-bind (Simulated accepts live) (required_string o (codes "entity")) _ λ entity_name _.
          OnOk-bind (Simulated accepts live) (required_string o (codes "field")) _ λ field_name _.
            OnOk-bind (Simulated accepts live) (loaded_entity entities app entity_name) _ λ e _.
              OnOk-bind (Simulated accepts live) (table_name e) _ λ table _.
                OnOk-bind (Simulated accepts live) (patch_field_column live e table field_name) _
                  λ column _.
                    OnOk-reject (Simulated accepts live) (is_system_column column) system_column _
                      λ _.
                        OnOk-bind (Simulated accepts live) (require_live_column live table column) _
                          λ _ there. it_runs (drop_live_column-Runs accepts live table column there)

  plan_change_field_type-Attempt :
      (o : Operation) (live : LiveSchema)
      → OnOk (Simulated accepts live) (plan_change_field_type entities app o live)
  unfolding plan_change_field_type
  plan_change_field_type-Attempt o live =
      OnOk-bind (Simulated accepts live) (require_operation_fields o) _ λ _ _.
        OnOk-bind (Simulated accepts live) (required_string o (codes "entity")) _ λ entity_name _.
          OnOk-bind (Simulated accepts live) (required_string o (codes "field")) _ λ field_name _.
            OnOk-bind (Simulated accepts live) (required_string o (codes "to")) _ λ target_type _.
              OnOk-bind (Simulated accepts live) (required_string o (codes "using")) _ λ using _.
                OnOk-bind (Simulated accepts live) (loaded_entity entities app entity_name) _ λ e _.
                  OnOk-bind (Simulated accepts live) (table_name e) _ λ table _.
                    OnOk-bind (Simulated accepts live) (metadata_field_column e field_name) _
                      λ pair _.
                        let column = pair.0 in
                        let field = pair.1 in
                        OnOk-reject (Simulated accepts live)
                          (not (text_eq field.type_name target_type)) wrong_field_type _
                          λ _.
                            OnOk-bind (Simulated accepts live) (column_type entities e field) _
                              λ sql_type _.
                                OnOk-bind (Simulated accepts live)
                                  (require_live_column live table column) _
                                  λ _ there.
                                    change_live_column_type-Attempt accepts live table column
                                      sql_type using there

  -- An operation that is not SQL of its own.
  pub plan_kind-Attempt :
      (u : Unicode) (kind : Kind) (o : Operation) (live : LiveSchema)
      → is_sql kind ≡ false
      → OnOk (Simulated accepts live) (plan_kind entities app u kind o live)
  unfolding plan_kind
  plan_kind-Attempt u rename_field o live h = plan_rename_field-Attempt o live
  plan_kind-Attempt u rename_entity o live h = plan_rename_entity-Attempt o live
  plan_kind-Attempt u copy_field o live h = plan_copy_field-Attempt o live
  plan_kind-Attempt u backfill_field o live h = plan_backfill_field-Attempt o live
  plan_kind-Attempt u drop_field o live h = plan_drop_field-Attempt o live
  plan_kind-Attempt u change_field_type o live h = plan_change_field_type-Attempt o live
  plan_kind-Attempt u sql o live h = cc
  plan_kind-Attempt u unsupported o live h = tt
