-- ===== src/PatchPlan/Defs/SqlText.antt =====
-- The SQL texts that the planner formats.
use dygo.Base.{Text, codes, List, [], ◌∷◌, ◌++◌, Bool, true, false}
use dygo.PatchPlan.Defs.Reader.{double}
use dygo.PatchPlan.Defs.Statements.{
  Statement, alter_rename_column, alter_rename_table, update_from_column, update_to_value,
  alter_drop_column, alter_column_type, verbatim,
}

-- quoteIdent
abbrev pub quote_ident : Text → Text
quote_ident value = b'"' ∷ double b'"' value ++ b'"' ∷ []

-- The parts of a format, one after another
abbrev pub format : List Text → Text
format [] = []
format (part ∷ parts) = part ++ format parts

-- The WHERE of planCopyField and planBackfillField
abbrev pub where_null : Bool → Text → List Text
where_null true column = codes " WHERE " ∷ quote_ident column ∷ codes " IS NULL" ∷ []
where_null false column = []

-- The SQL of a planned operation
unfoldable pub sql_of : Statement → Text
unfolding double
sql_of (alter_rename_column table from to) = format (
    codes "ALTER TABLE "
    ∷ quote_ident table
    ∷ codes " RENAME COLUMN "
    ∷ quote_ident from
    ∷ codes " TO "
    ∷ quote_ident to
    ∷ [])
sql_of (alter_rename_table from to) =
    format (codes "ALTER TABLE " ∷ quote_ident from ∷ codes " RENAME TO " ∷ quote_ident to ∷ [])
sql_of (update_from_column table to from only_null) = format (
    codes "UPDATE "
    ∷ quote_ident table
    ∷ codes " SET "
    ∷ quote_ident to
    ∷ codes " = "
    ∷ quote_ident from
    ∷ where_null only_null to)
sql_of (update_to_value table column value only_null) = format (
    codes "UPDATE "
    ∷ quote_ident table
    ∷ codes " SET "
    ∷ quote_ident column
    ∷ codes " = "
    ∷ value
    ∷ where_null only_null column)
sql_of (alter_drop_column table column) =
    format
      (codes "ALTER TABLE " ∷ quote_ident table ∷ codes " DROP COLUMN " ∷ quote_ident column ∷ [])
sql_of (alter_column_type table column type using) = format (
    codes "ALTER TABLE "
    ∷ quote_ident table
    ∷ codes " ALTER COLUMN "
    ∷ quote_ident column
    ∷ codes " TYPE "
    ∷ type
    ∷ codes " USING "
    ∷ using
    ∷ [])
sql_of (verbatim sql) = sql
