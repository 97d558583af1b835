-- ===== src/PatchPlan/Defs/Reader.antt =====
-- The fields of a patch operation, as YAML nodes: patchOperationReader.
use dygo.Base.{
  ℕ, Text, codes, List, [], ◌∷◌, ◌++◌, Bool, true, false, not, ◌||◌, Option, none, some, find, any,
  map, text_eq, contains_text, trim_space, is_empty, if◌then◌else◌, ◌==◌, Result, ok, err, reject,
  ◌>>=◌, ◌>>◌,
}
use dygo.PatchPlan.Defs.Metadata.{
  Error, unsupported_operation, unknown_operation_field, field_required, not_scalar,
  invalid_boolean, null_value, when_not_mapping, when_empty, when_key_not_scalar,
  unknown_when_field, when_not_bool, when_not_true,
}

-- A key or a value of a mapping.
pub data Leaf : Type 0 where
  plain : Text → Text → Leaf
  nested : Leaf

-- yaml.Node, as deep as an operation is read: a scalar has a tag and a value.
pub data YamlNode : Type 0 where
  scalar : Text → Text → YamlNode
  mapping : List (Leaf × Leaf) → YamlNode
  other : YamlNode

-- The types of operations that change the schema or its data by SQL.
pub data Kind : Type 0 where
  rename_field rename_entity copy_field backfill_field drop_field change_field_type sql : Kind
  unsupported : Kind

pub record Operation : Type 0 where
  pub kind : Kind
  pub fields : List (Text × YamlNode)

-- AllowedFields of operationSpecs
abbrev pub allowed_fields : Kind → Option (List Text)
allowed_fields rename_field = some (map codes ("type" ∷ "entity" ∷ "from" ∷ "to" ∷ []))
allowed_fields rename_entity = some (map codes ("type" ∷ "from" ∷ "to" ∷ []))
allowed_fields copy_field = some (map codes ("type" ∷ "entity" ∷ "from" ∷ "to" ∷ "when" ∷ []))
allowed_fields backfill_field =
    some (map codes ("type" ∷ "entity" ∷ "field" ∷ "value" ∷ "when" ∷ []))
allowed_fields drop_field = some (map codes ("type" ∷ "entity" ∷ "field" ∷ []))
allowed_fields change_field_type =
    some (map codes ("type" ∷ "entity" ∷ "field" ∷ "to" ∷ "using" ∷ []))
allowed_fields sql = some (map codes ("type" ∷ "name" ∷ "reason" ∷ "statement" ∷ []))
allowed_fields unsupported = none

-- requireOperationFields and requireFields
unfoldable pub require_operation_fields : Operation → Result Error (Unit {0})
unfolding contains_text
require_operation_fields o = elim (allowed_fields o.kind) [
  | none ↦ err unsupported_operation
  | some allowed ↦
      reject (any (λ (f : Text × YamlNode). not (contains_text allowed f.0)) o.fields)
        unknown_operation_field
]

abbrev pub field_node : Operation → Text → Option (Text × YamlNode)
field_node o name = find (λ (f : Text × YamlNode). text_eq f.0 name) o.fields

scalar_value : Option (Text × YamlNode) → Result Error Text
scalar_value none = err field_required
scalar_value (some (_, scalar tag value)) = ok value
scalar_value (some (_, mapping entries)) = err not_scalar
scalar_value (some (_, other)) = err not_scalar

-- requiredString
unfoldable pub required_string : Operation → Text → Result Error Text
unfolding scalar_value text_eq trim_space
required_string o name = do
  value ← scalar_value (field_node o name)
  reject (is_empty (trim_space value)) field_required
  ok (trim_space value)

-- requiredStatement
unfoldable pub required_statement : Operation → Text → Result Error Text
unfolding scalar_value text_eq trim_space
required_statement o name = do
  value ← scalar_value (field_node o name)
  reject (is_empty (trim_space value)) field_required
  ok value

-- strconv.ParseBool
unfoldable pub parse_bool : Text → Option Bool
unfolding contains_text
parse_bool s =
    if contains_text (map codes ("1" ∷ "t" ∷ "T" ∷ "true" ∷ "TRUE" ∷ "True" ∷ [])) s
    then some true
    else if contains_text (map codes ("0" ∷ "f" ∷ "F" ∷ "false" ∷ "FALSE" ∷ "False" ∷ [])) s
    then some false
    else none

-- strings.ReplaceAll of a character by two of it
unfoldable pub double : ℕ → Text → Text
double q [] = []
double q (c ∷ s) = if c == q then c ∷ c ∷ double q s else c ∷ double q s

-- quoteLiteral
abbrev pub quote_literal : Text → Text
quote_literal value = b'\'' ∷ double b'\'' value ++ b'\'' ∷ []

-- scalarSQL
unfoldable pub scalar_sql : YamlNode → Result Error Text
unfolding text_eq parse_bool double
scalar_sql (mapping entries) = err not_scalar
scalar_sql other = err not_scalar
scalar_sql (scalar tag value) =
    if text_eq tag (codes "!!bool")
    then elim (parse_bool value) [
      | none ↦ err invalid_boolean
      | some true ↦ ok (codes "true")
      | some false ↦ ok (codes "false")
    ]
    else if text_eq tag (codes "!!int") || text_eq tag (codes "!!float")
    then ok value
    else if text_eq tag (codes "!!null")
    then err null_value
    else ok (quote_literal value)

-- requiredScalarSQL
unfoldable pub required_scalar_sql : Operation → Text → Result Error Text
unfolding scalar_sql text_eq
required_scalar_sql o name = elim (field_node o name) [
  | none ↦ err field_required
  | some (_, node) ↦ scalar_sql node
]

-- One entry of `when`.
abbrev pub when_entry : Text → Leaf × Leaf → Result Error (Unit {0})
unfolding text_eq parse_bool
when_entry name (nested, value) = err when_key_not_scalar
when_entry name (plain tag key, nested) =
    if text_eq key name then err when_not_bool else err unknown_when_field
when_entry name (plain tag key, plain kind value) =
    if not (text_eq key name)
    then err unknown_when_field
    else if not (text_eq kind (codes "!!bool"))
    then err when_not_bool
    else elim (parse_bool value) [
      | none ↦ err when_not_bool
      | some enabled ↦ reject (not enabled) when_not_true
    ]

abbrev pub when_entries : Text → List (Leaf × Leaf) → Result Error Bool
when_entries name [] = ok true
when_entries name (entry ∷ rest) =
    let later = when_entries name rest in when_entry name entry >> later

-- whenBool
unfoldable pub when_bool : Operation → Text → Result Error Bool
unfolding text_eq parse_bool
when_bool o name = elim (field_node o (codes "when")) [
  | none ↦ ok false
  | some (_, scalar tag value) ↦ err when_not_mapping
  | some (_, other) ↦ err when_not_mapping
  | some (_, mapping entries) ↦ elim entries [
    | [] ↦ err when_empty
    | e ∷ more ↦ when_entries name (e ∷ more)
  ]
]
