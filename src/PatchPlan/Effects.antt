-- ===== src/PatchPlan/Effects.antt =====
-- What a statement does to the names and types of the columns of a database, and the changes of the live
-- schema against that.
use dygo.Base.{
  Text, Bool, true, false, Option, none, some, text_eq, text_eq→≡, text_eq_refl, ◌≡◌, ◌≢◌, refl,
  sym, ap, subst, ◌∙◌, Bool-cases, Option-cases, inl, inr, Result, ok, err,
}
use dygo.PatchPlan.Defs.{
  Error, column_missing, Statement, alter_rename_column, alter_rename_table, update_from_column,
  update_to_value, alter_drop_column, alter_column_type, LiveSchema, LiveTable, LiveColumn, set_key,
  change_columns, table_or_zero, column_or_zero, has_column, table_has, found_column, found_table,
  is_there, rename_in, retype_in, rename_live_column, rename_live_table, drop_live_column,
  change_live_column_type, live_table, require_live_column, live_table_exists, live_column_exists,
}

-- The columns of the tables, with their types.
abbrev pub Columns : Type 0
Columns = Text → Option Text

abbrev pub Shape : Type 0
Shape = Text → Option Columns

-- A table has other columns, and no other table differs.
abbrev pub Replaces : Text → Columns → Shape → Shape → Type 0
Replaces table cols s s' = (s' table ≡ some cols) × ((t : Text) → t ≢ table → s' t ≡ s t)

-- Which USING expressions PostgreSQL accepts for a new type over the columns of a table, and which names
-- and types of columns a statement needs and leaves. The values of the rows, and what they do to a
-- statement, are not part of a shape.
abbrev pub Accepts : Type 0
Accepts = (using new : Text) → Columns → Bool

-- What PostgreSQL documents of a statement that succeeds: the tables and columns that it needs, and those
-- that are there afterwards. There is no case for a statement that is run verbatim.
pub data Runs (accepts : Accepts) : Statement → Shape → Shape → Type 0 where
  renamed_column :
      {s s' : Shape} {cols cols' : Columns} {type : Text} (table from to : Text)
      → s table ≡ some cols
      → cols from ≡ some type
      → cols to ≡ none
      → Replaces table cols' s s'
      → cols' to ≡ some type
      → cols' from ≡ none
      → ((c : Text) → c ≢ from → c ≢ to → cols' c ≡ cols c)
      → Runs accepts (alter_rename_column table from to) s s'
  renamed_table :
      {s s' : Shape} {cols : Columns} (from to : Text)
      → s from ≡ some cols
      → s to ≡ none
      → s' to ≡ some cols
      → s' from ≡ none
      → ((t : Text) → t ≢ from → t ≢ to → s' t ≡ s t)
      → Runs accepts (alter_rename_table from to) s s'
  copied :
      {s : Shape} {cols : Columns} {type source : Text} (table to from : Text) (only_null : Bool)
      → s table ≡ some cols
      → cols to ≡ some type
      → cols from ≡ some source
      → Runs accepts (update_from_column table to from only_null) s s
  filled :
      {s : Shape} {cols : Columns} {type : Text} (table column value : Text) (only_null : Bool)
      → s table ≡ some cols
      → cols column ≡ some type
      → Runs accepts (update_to_value table column value only_null) s s
  dropped :
      {s s' : Shape} {cols cols' : Columns} {type : Text} (table column : Text)
      → s table ≡ some cols
      → cols column ≡ some type
      → Replaces table cols' s s'
      → cols' column ≡ none
      → ((c : Text) → c ≢ column → cols' c ≡ cols c)
      → Runs accepts (alter_drop_column table column) s s'
  retyped :
      {s s' : Shape} {cols cols' : Columns} {type : Text} (table column new using : Text)
      → s table ≡ some cols
      → cols column ≡ some type
      → accepts using new cols ≡ true
      → Replaces table cols' s s'
      → cols' column ≡ some new
      → ((c : Text) → c ≢ column → cols' c ≡ cols c)
      → Runs accepts (alter_column_type table column new using) s s'

-- The change of a column's type: table and column are there, and the patch's own USING expression is not
-- accepted over the columns as they are then.
pub data UsingRefused (accepts : Accepts) : Statement → Shape → Type 0 where
  refused :
      {s : Shape} {cols : Columns} {type : Text} (table column new using : Text)
      → s table ≡ some cols
      → cols column ≡ some type
      → accepts using new cols ≡ false
      → UsingRefused accepts (alter_column_type table column new using) s

pub data Attempt (accepts : Accepts) : Statement → Shape → Shape → Type 0 where
  it_runs : {st : Statement} {s s' : Shape} → Runs accepts st s s' → Attempt accepts st s s'
  using_refused :
      {st : Statement} {s s' : Shape} → UsingRefused accepts st s → Attempt accepts st s s'

abbrev pub type_of : Option LiveColumn → Option Text
type_of none = none
type_of (some c) = some c.sql_type

abbrev columns_of : (Text → Option LiveColumn) → Columns
columns_of columns c = type_of (columns c)

abbrev pub table_shape : Option LiveTable → Option Columns
table_shape none = none
table_shape (some t) = some (columns_of t.columns)

abbrev pub shape_of : LiveSchema → Shape
shape_of live t = table_shape (live t)

module _ {ℓ} {A : Type ℓ} (k : Text) (v : Option A) (m : Text → Option A) where
  set_key-same : set_key k v m k ≡ v
  unfolding set_key
  set_key-same = rw (text_eq_refl k) refl

  set_key-other : (x : Text) → x ≢ k → set_key k v m x ≡ m x
  unfolding set_key
  set_key-other x n = elim (Bool-cases (text_eq x k)) [
    | inl e ↦ absurd (n (text_eq→≡ x k e))
    | inr e ↦ rw e refl
  ]

-- The table and the column that a check found.
pub required_column :
    (live : LiveSchema) (table column : Text)
    → require_live_column live table column ≡ ok tt
    → (t : LiveTable) × (live table ≡ some t) × (c : LiveColumn) × (t.columns column ≡ some c)
unfolding require_live_column
required_column live table column h = find_column (live table) refl h
  where
    find_column :
        (o : Option LiveTable)
        → live table ≡ o
        → found_column column o ≡ ok tt
        → (t : LiveTable) × (live table ≡ some t) × (c : LiveColumn) × (t.columns column ≡ some c)
    find_column none e k = cc
    find_column (some t) e k = elim (Option-cases (t.columns column)) [
      | inr (c, q) ↦ (t, e, c, q)
      | inl q ↦
          let bad : ◌≡◌ {A = Result Error (Unit {0})} (err column_missing) (ok tt) = rw q at k in cc
    ]

no_column :
    (live : LiveSchema) (table column : Text) (t : LiveTable)
    → live table ≡ some t
    → live_column_exists live table column ≡ false
    → t.columns column ≡ none
no_column live table column t e h =
    let free : has_column (t.columns column) ≡ false =
      subst (λ o. table_has column o ≡ false) e h in
    elim (Option-cases (t.columns column)) [
      | inl q ↦ q
      | inr (c, q) ↦ let bad : true ≡ false = rw q at free in cc
    ]

module _ (live : LiveSchema) (table : Text) (t : LiveTable) (there : live table ≡ some t)
    (change : (Text → Option LiveColumn) → Text → Option LiveColumn) where
  changed_table :
      Replaces table
        (columns_of (change t.columns))
        (shape_of live)
        (shape_of (change_columns table change live))
  changed_table =
      let new = some (record (table_or_zero (live table)) {
        columns = change (table_or_zero (live table)).columns;
      }) in
      (
        ap table_shape (set_key-same table new live)
            ∙ ap (λ o. some (columns_of (change (table_or_zero o).columns))) there,
        λ x n. ap table_shape (set_key-other table new live x n),
      )

-- A column takes another name.
pub rename_live_column-Runs :
    (accepts : Accepts) (live : LiveSchema) (table from to : Text)
    → require_live_column live table from ≡ ok tt
    → live_column_exists live table to ≡ false
    → Runs accepts
        (alter_rename_column table from to)
        (shape_of live)
        (shape_of (rename_live_column table from to live))
unfolding rename_live_column
rename_live_column-Runs accepts live table from to h free =
    let (t, e, c, q) = required_column live table from h in
    let n = no_column live table to t e free in
    let apart : from ≢ to = λ same. let bad : some c ≡ none = sym q ∙ ap t.columns same ∙ n in cc in
    let put = some (record (column_or_zero (t.columns from)) { name = to }) in
    renamed_column table from to (ap table_shape e) (ap type_of q) (ap type_of n)
      (changed_table live table t e (rename_in from to))
      (ap type_of (set_key-same to put (set_key from none t.columns))
        ∙ ap (λ o. some (column_or_zero o).sql_type) q)
      (ap type_of (
        set_key-other to put (set_key from none t.columns) from apart
        ∙ set_key-same from none t.columns))
      (λ x a b. ap type_of (
        set_key-other to put (set_key from none t.columns) x b
        ∙ set_key-other from none t.columns x a))

pub drop_live_column-Runs :
    (accepts : Accepts) (live : LiveSchema) (table column : Text)
    → require_live_column live table column ≡ ok tt
    → Runs accepts
        (alter_drop_column table column)
        (shape_of live)
        (shape_of (drop_live_column table column live))
unfolding drop_live_column
drop_live_column-Runs accepts live table column h =
    let (t, e, c, q) = required_column live table column h in
    dropped table column (ap table_shape e) (ap type_of q)
      (changed_table live table t e (set_key column none))
      (ap type_of (set_key-same column none t.columns))
      (λ x n. ap type_of (set_key-other column none t.columns x n))

pub change_live_column_type-Attempt :
    (accepts : Accepts) (live : LiveSchema) (table column new using : Text)
    → require_live_column live table column ≡ ok tt
    → Attempt accepts
        (alter_column_type table column new using)
        (shape_of live)
        (shape_of (change_live_column_type table column new live))
unfolding change_live_column_type
change_live_column_type-Attempt accepts live table column new using h =
    let (t, e, c, q) = required_column live table column h in
    let put = some (record (column_or_zero (t.columns column)) { sql_type = new }) in
    elim (Bool-cases (accepts using new (columns_of t.columns))) [
      | inr b ↦ using_refused (refused table column new using (ap table_shape e) (ap type_of q) b)
      | inl a ↦ it_runs (
          retyped table column new using (ap table_shape e) (ap type_of q) a
            (changed_table live table t e (retype_in column new))
            (ap type_of (set_key-same column put t.columns))
            (λ x n. ap type_of (set_key-other column put t.columns x n)))
    ]

-- A table takes another name.
pub rename_live_table-Runs :
    (accepts : Accepts) (live : LiveSchema) (from to : Text) (t : LiveTable)
    → live_table live from ≡ ok t
    → live_table_exists live to ≡ false
    → Runs accepts
        (alter_rename_table from to)
        (shape_of live)
        (shape_of (rename_live_table from to live))
unfolding rename_live_table live_table
rename_live_table-Runs accepts live from to t h free = move (live from) (live to) refl refl h free
  where
    put : Option LiveTable
    put = some (record (table_or_zero (live from)) { name = to })

    move :
        (o o' : Option LiveTable)
        → live from ≡ o
        → live to ≡ o'
        → found_table o ≡ ok t
        → is_there o' ≡ false
        → Runs accepts
            (alter_rename_table from to)
            (shape_of live)
            (shape_of (rename_live_table from to live))
    move none o' e q k f = cc
    move (some u) (some v) e q k f = cc
    move (some u) none e q k f =
        let apart : from ≢ to = λ same. let bad : some u ≡ none = sym e ∙ ap live same ∙ q in cc in
        renamed_table from to (ap table_shape e) (ap table_shape q)
          (ap table_shape (set_key-same to put (set_key from none live))
            ∙ ap (λ o. some (columns_of (table_or_zero o).columns)) e)
          (ap table_shape (
            set_key-other to put (set_key from none live) from apart ∙ set_key-same from none live))
          (λ x a b.
            ap table_shape (
              set_key-other to put (set_key from none live) x b ∙ set_key-other from none live x a))
