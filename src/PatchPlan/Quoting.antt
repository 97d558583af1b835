-- ===== src/PatchPlan/Quoting.antt =====
-- The names in the SQL of a plan, read the way PostgreSQL reads quoted identifiers.
use mathlib.Core.List.{append_assoc, append-nil}
use dygo.Base.{
  ℕ, Text, codes, List, [], ◌∷◌, ◌++◌, Bool, true, false, ◌≡◌, refl, sym, ap, subst, ◌∙◌,
  Bool-cases, inl, inr, ◌==◌, ==→≡, if◌then◌else◌, any, or_parts,
}
use dygo.PatchPlan.Defs.{
  Statement, alter_rename_column, alter_rename_table, update_from_column, update_to_value,
  alter_drop_column, alter_column_type, verbatim, double, quote_ident, format, where_null, sql_of,
}

-- Outside of identifiers, in one of which so much is read, or past a quote in it.
pub data Place : Type 0 where
  outside : Place
  inside closing : Text → Place

-- What a character does, and the identifier that it ends: two quotes in an identifier are one, and a quote
-- and another character end it.
abbrev pub read_char : Place → ℕ → Place × List Text
read_char outside c = if c == b'"' then (inside [], []) else (outside, [])
read_char (inside name) c = if c == b'"' then (closing name, []) else (inside (name ++ c ∷ []), [])
read_char (closing name) c =
    if c == b'"' then (inside (name ++ b'"' ∷ []), []) else (outside, name ∷ [])

-- The quoted identifiers of a text.
unfoldable pub identifiers : Place → Text → List Text
identifiers (closing name) [] = name ∷ []
identifiers place [] = []
identifiers place (c ∷ s) = let (next, ended) = read_char place c in ended ++ identifiers next s

-- An identifier may follow, or nothing.
abbrev IsApart : Text → Type 0
IsApart [] = Unit
IsApart (c ∷ s) = (c == b'"') ≡ false

identifiers-closing :
    (name rest : Text)
    → IsApart rest
    → identifiers (closing name) rest ≡ name ∷ identifiers outside rest
unfolding identifiers
identifiers-closing name [] h = refl
identifiers-closing name (c ∷ s) h = rw h refl

identifiers-inside :
    (name v rest : Text)
    → IsApart rest
    → identifiers (inside name) (double b'"' v ++ b'"' ∷ rest)
      ≡ (name ++ v) ∷ identifiers outside rest
unfolding identifiers double
identifiers-inside name [] rest h =
    identifiers-closing name rest h ∙ ap (λ n. n ∷ identifiers outside rest) (sym (append-nil name))
identifiers-inside name (c ∷ v) rest h = elim (Bool-cases (c == b'"')) [
  | inl e ↦
      subst
        (λ d.
          identifiers (inside name) (double b'"' (d ∷ v) ++ b'"' ∷ rest)
          ≡ (name ++ d ∷ v) ∷ identifiers outside rest)
        (sym (==→≡ c b'"' e))
        (identifiers-inside (name ++ b'"' ∷ []) v rest h
          ∙ ap (λ n. n ∷ identifiers outside rest) (append_assoc name (b'"' ∷ []) v))
  | inr e ↦
      rw (e, e)
        (identifiers-inside (name ++ c ∷ []) v rest h
          ∙ ap (λ n. n ∷ identifiers outside rest) (append_assoc name (c ∷ []) v))
]

quoted-identifiers :
    (v rest : Text)
    → IsApart rest
    → identifiers outside (quote_ident v ++ rest) ≡ v ∷ identifiers outside rest
unfolding identifiers
quoted-identifiers v rest h =
    ap (λ t. identifiers (inside []) t) (append_assoc (double b'"' v) (b'"' ∷ []) rest)
    ∙ identifiers-inside [] v rest h

-- A text without quotes before what follows.
identifiers-words :
    (words rest : Text)
    → any (λ c. c == b'"') words ≡ false
    → identifiers outside (words ++ rest) ≡ identifiers outside rest
unfolding identifiers
identifiers-words [] rest h = refl
identifiers-words (c ∷ words) rest h =
    let (e, more) = or_parts (c == b'"') (any (λ d. d == b'"') words) h in
    rw e (identifiers-words words rest more)

-- Words, and a name between quotes after them.
identifiers-format :
    (words name : Text) (parts : List Text)
    → any (λ c. c == b'"') words ≡ false
    → IsApart (format parts)
    → identifiers outside (format (words ∷ quote_ident name ∷ parts))
      ≡ name ∷ identifiers outside (format parts)
identifiers-format words name parts h k =
    identifiers-words words (format (quote_ident name ∷ parts)) h
    ∙ quoted-identifiers name (format parts) k

identifiers-where_null :
    (only_null : Bool) (column : Text)
    → identifiers outside (format (where_null only_null column))
      ≡ (if only_null then column ∷ [] else [])
unfolding identifiers
identifiers-where_null true column =
    identifiers-format (codes " WHERE ") column (codes " IS NULL" ∷ []) refl refl
identifiers-where_null false column = refl

where_null-IsApart :
    (only_null : Bool) (column : Text) → IsApart (format (where_null only_null column))
where_null-IsApart true column = refl
where_null-IsApart false column = tt

-- The tables and columns that a statement names, in the order of its text.
abbrev pub names_in : Statement → List Text
names_in (alter_rename_column table from to) = table ∷ from ∷ to ∷ []
names_in (alter_rename_table from to) = from ∷ to ∷ []
names_in (update_from_column table to from only_null) =
    table ∷ to ∷ from ∷ (if only_null then to ∷ [] else [])
names_in (alter_drop_column table column) = table ∷ column ∷ []
names_in other = []

-- A statement that consists of names only, without a value or an SQL text of the patch.
abbrev pub is_of_names : Statement → Bool
is_of_names (alter_rename_column table from to) = true
is_of_names (alter_rename_table from to) = true
is_of_names (update_from_column table to from only_null) = true
is_of_names (alter_drop_column table column) = true
is_of_names other = false

-- Whatever characters the names of tables and columns have, quotes and semicolons among them: in the SQL of
-- an operation that renames, copies or drops, the quoted identifiers are the names of its statement, in
-- their order.
pub identifiers-sql_of :
    (st : Statement) → is_of_names st ≡ true → identifiers outside (sql_of st) ≡ names_in st
unfolding sql_of identifiers
identifiers-sql_of (alter_rename_column table from to) h =
    let after_from = codes " TO " ∷ quote_ident to ∷ [] in
    let after_table = codes " RENAME COLUMN " ∷ quote_ident from ∷ after_from in
    identifiers-format (codes "ALTER TABLE ") table after_table refl refl
    ∙ ap (λ xs. table ∷ xs)
        (identifiers-format (codes " RENAME COLUMN ") from after_from refl refl
          ∙ ap (λ xs. from ∷ xs) (identifiers-format (codes " TO ") to [] refl tt))
identifiers-sql_of (alter_rename_table from to) h =
    identifiers-format (codes "ALTER TABLE ") from (codes " RENAME TO " ∷ quote_ident to ∷ []) refl
      refl
    ∙ ap (λ xs. from ∷ xs) (identifiers-format (codes " RENAME TO ") to [] refl tt)
identifiers-sql_of (update_from_column table to from only_null) h =
    let after_to = codes " = " ∷ quote_ident from ∷ where_null only_null to in
    let after_table = codes " SET " ∷ quote_ident to ∷ after_to in
    identifiers-format (codes "UPDATE ") table after_table refl refl
    ∙ ap (λ xs. table ∷ xs)
        (identifiers-format (codes " SET ") to after_to refl refl
          ∙ ap (λ xs. to ∷ xs)
              (identifiers-format (codes " = ") from (where_null only_null to) refl
                  (where_null-IsApart only_null to)
                ∙ ap (λ xs. from ∷ xs) (identifiers-where_null only_null to)))
identifiers-sql_of (update_to_value table column value only_null) h = cc
identifiers-sql_of (alter_drop_column table column) h =
    identifiers-format (codes "ALTER TABLE ") table
      (codes " DROP COLUMN " ∷ quote_ident column ∷ []) refl refl
    ∙ ap (λ xs. table ∷ xs) (identifiers-format (codes " DROP COLUMN ") column [] refl tt)
identifiers-sql_of (alter_column_type table column type using) h = cc
identifiers-sql_of (verbatim sql) h = cc
