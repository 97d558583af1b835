-- ===== src/Trees/Defs.antt =====
-- The rows of a tree Entity, the recursive queries on them, and the record operations that use these.
use dygo.Base.{
  ℕ, zero, suc, ◌+◌, Text, List, [], ◌∷◌, ◌++◌, Bool, true, false, not, ◌&&◌, Option, none, some,
  find, select, any, length, map, text_eq, if◌then◌else◌, Result, ok, err, reject, ◌>>=◌, ◌>>◌,
  ◌==◌,
}

-- A record: its id, its name, and the column of the parent field.
pub record Node : Type 0 where
  pub id : ℕ
  pub name : Text
  pub parent : Option ℕ

-- The table, with the sequence of its ids.
pub record Tree : Type 0 where
  pub rows : List Node
  pub next_id : ℕ

-- RecordScope.Where: the records that a caller may read.
abbrev pub Scope : Type 0
Scope = Node → Bool

pub data Error : Type 0 where
  not_a_name target_not_found access_denied would_cycle has_children not_found name_taken : Error
  broken_hierarchy : Error

-- The value of the parent field in the input, after the Hooks ran.
pub data ParentValue : Type 0 where
  absent null malformed : ParentValue
  named : Text → ParentValue

abbrev pub contains_id : List ℕ → ℕ → Bool
contains_id ids i = any (λ j. j == i) ids

abbrev pub ids : List Node → List ℕ
ids = map Node.id

-- The rows of a UNION that are not there yet.
unfoldable pub new_ids : List ℕ → List ℕ → List ℕ
new_ids found [] = []
new_ids found (i ∷ rest) =
    let more = new_ids (if contains_id found i then found else i ∷ found) rest in
    if contains_id found i then more else i ∷ more

abbrev pub flat_map : (ℕ → List ℕ) → List ℕ → List ℕ
flat_map step [] = []
flat_map step (i ∷ rest) = step i ++ flat_map step rest

-- WITH RECURSIVE ... UNION: each round joins the rows that the round before found. The fuel bounds the
-- rounds.
unfoldable pub recursive_union : ℕ → (ℕ → List ℕ) → List ℕ → List ℕ → List ℕ
unfolding new_ids
recursive_union zero step found work = found
recursive_union (suc fuel) step found work = elim (new_ids found (flat_map step work)) [
  | [] ↦ found
  | i ∷ more ↦ recursive_union fuel step (found ++ i ∷ more) (i ∷ more)
]

abbrev pub is_id : Option ℕ → ℕ → Bool
is_id none i = false
is_id (some j) i = j == i

-- JOIN ancestors a ON p.id = a.parent_id
abbrev pub parents_of : List Node → ℕ → List ℕ
parents_of rows i =
    ids (select (λ (p : Node). any (λ (a : Node). a.id == i && is_id a.parent p.id) rows) rows)

-- JOIN reachable r ON n.parent_id = r.id
abbrev pub children_of : List Node → ℕ → List ℕ
children_of rows i = ids (select (λ (n : Node). is_id n.parent i) rows)

-- The query of validateTreeParent.
unfoldable pub ancestors : List Node → ℕ → List ℕ
unfolding recursive_union
ancestors rows i =
    let base = ids (select (λ (n : Node). n.id == i) rows) in
    recursive_union (length rows) (parents_of rows) base base

abbrev pub is_root : Node → Bool
is_root n = elim n.parent [ none ↦ true | some _ ↦ false ]

-- The query of validateTreeData.
unfoldable pub reachable : List Node → List ℕ
unfolding recursive_union
reachable rows =
    let base = ids (select is_root rows) in
    recursive_union (length rows) (children_of rows) base base

-- validateTreeData for one Entity
unfoldable pub validate_tree_data : List Node → Result Error (Unit {0})
unfolding reachable
validate_tree_data rows =
    reject (any (λ (n : Node). not (contains_id (reachable rows) n.id)) rows) broken_hierarchy

-- treeSubtreeSQL
unfoldable pub subtree : List Node → ℕ → List ℕ
unfolding recursive_union
subtree rows i =
    let base = ids (select (λ (n : Node). n.id == i) rows) in
    recursive_union (length rows) (children_of rows) base base

-- The predicate of a tree search that leaves out a record with all that stands below it.
abbrev pub is_candidate : List Node → ℕ → Node → Bool
is_candidate rows exclude n = not (contains_id (subtree rows exclude) n.id)

-- idByName
abbrev pub id_by_name : List Node → Text → Result Error ℕ
id_by_name rows name = elim (find (λ (n : Node). text_eq n.name name) rows) [
  | none ↦ err target_not_found
  | some n ↦ ok n.id
]

abbrev pub in_scope : Option Scope → Node → Bool
in_scope none n = true
in_scope (some p) n = p n

-- A record under a scope: getRecordWithLayout
abbrev pub get_record : List Node → Option Scope → ℕ → Option Node
get_record rows scope i = find (λ (n : Node). n.id == i && in_scope scope n) rows

abbrev pub is_some {ℓ} : {A : Type ℓ} → Option A → Bool
is_some none = false
is_some (some a) = true

-- validateTreeParent; `read` is treeReadScope, or what its resolver answers.
unfoldable pub validate_tree_parent :
    List Node → Option Scope → Option Scope → ℕ → ParentValue → Result Error (Unit {0})
unfolding ancestors text_eq
validate_tree_parent rows scope read i absent = ok tt
validate_tree_parent rows scope read i null = ok tt
validate_tree_parent rows scope read i malformed = err not_a_name
validate_tree_parent rows scope read i (named name) = do
  parent ← id_by_name rows name
  reject (is_some scope && not (is_some read)) access_denied
  reject (not (is_some (get_record rows read parent))) access_denied
  reject (contains_id (ancestors rows parent) i) would_cycle

-- storageValue of the parent field; `none` leaves the column as it is.
abbrev pub stored_parent : List Node → ParentValue → Result Error (Option (Option ℕ))
stored_parent rows absent = ok none
stored_parent rows null = ok (some none)
stored_parent rows malformed = err not_a_name
stored_parent rows (named name) = do parent ← id_by_name rows name; ok (some (some parent))

abbrev pub set_parent : ℕ → Option (Option ℕ) → List Node → List Node
set_parent i none rows = rows
set_parent i (some parent) [] = []
set_parent i (some parent) (n ∷ rest) =
    (if n.id == i then record n { parent = parent } else n) ∷ set_parent i (some parent) rest

-- The column of a row that is inserted.
abbrev pub inserted_parent : Option (Option ℕ) → Option ℕ
inserted_parent none = none
inserted_parent (some parent) = parent

-- restrictTreeDelete
abbrev pub has_child : List Node → ℕ → Bool
has_child rows i = any (λ (n : Node). is_id n.parent i) rows

-- The row that an UPDATE proposes.
abbrev pub proposed : Option (Option ℕ) → Node → Node
proposed none n = n
proposed (some parent) n = record n { parent = parent }

-- The WHERE of the UPDATE, without the predicates of a scope on single fields (FieldWrite), which only refuse
-- more.
abbrev pub is_written : List Node → Option Scope → ℕ → Option (Option ℕ) → Bool
is_written rows scope i parent =
    any (λ (n : Node). n.id == i && in_scope scope n && in_scope scope (proposed parent n)) rows

-- createRecordWithLayout from the check of the parent on: the proposed row is in the scope, its name is
-- free, the row is inserted
unfoldable pub create_node :
    Option Scope → Option Scope → Text → ParentValue → Tree → Result Error Tree
unfolding validate_tree_parent text_eq
create_node scope read name value t = do
  validate_tree_parent t.rows scope read 0 value
  parent ← stored_parent t.rows value
  let new : Node = record { id = t.next_id; name = name; parent = inserted_parent parent }
  reject (not (in_scope scope new)) access_denied
  reject (any (λ (n : Node). text_eq n.name name) t.rows) name_taken
  ok (record { rows = t.rows ++ new ∷ []; next_id = t.next_id + 1 })

-- updateRecordWithLayout: the record is read under its scope, the parent checked, and the row updated
-- where it is in the scope before and after
unfoldable pub update_node :
    Option Scope → Option Scope → ℕ → ParentValue → Tree → Result Error Tree
unfolding validate_tree_parent
update_node scope read i value t = do
  reject (not (is_some (get_record t.rows scope i))) not_found
  validate_tree_parent t.rows scope read i value
  parent ← stored_parent t.rows value
  reject (not (is_written t.rows scope i parent)) not_found
  ok (record t { rows = set_parent i parent t.rows })

-- deleteRecordWithLayout: the record is read under its scope, its children restrict it, the row is
-- deleted
unfoldable pub delete_node : Option Scope → ℕ → Tree → Result Error Tree
delete_node scope i t = do
  reject (not (is_some (get_record t.rows scope i))) not_found
  reject (has_child t.rows i) has_children
  ok (record t { rows = select (λ (n : Node). not (n.id == i)) t.rows })
