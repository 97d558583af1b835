-- ===== src/RecordFilter.antt =====
-- internal/recordfilter/operators.go: the filter operators of Record lists.
use dygo.Base.{
  Text, codes, List, [], ◌∷◌, Bool, true, false, ◌||◌, Option, none, some, text_eq, if◌then◌else◌,
  any, contains_text,
}

-- The keys of operatorsByKey.
pub data Operator : Type 0 where
  equal not_equal contains not_contains greater_than greater_than_or_equal less_than : Operator
  less_than_or_equal before after between empty not_empty : Operator

pub data Arity : Type 0 where
  none_taken one range : Arity

abbrev pub key_of : Operator → Text
key_of equal = codes "eq"
key_of not_equal = codes "ne"
key_of contains = codes "contains"
key_of not_contains = codes "not-contains"
key_of greater_than = codes "gt"
key_of greater_than_or_equal = codes "gte"
key_of less_than = codes "lt"
key_of less_than_or_equal = codes "lte"
key_of before = codes "before"
key_of after = codes "after"
key_of between = codes "between"
key_of empty = codes "empty"
key_of not_empty = codes "not-empty"

abbrev pub arity_of : Operator → Arity
arity_of between = range
arity_of empty = none_taken
arity_of not_empty = none_taken
arity_of _ = one

abbrev all_operators : List Operator
all_operators =
    equal ∷ not_equal ∷ contains ∷ not_contains ∷ greater_than ∷ greater_than_or_equal ∷ less_than
    ∷ less_than_or_equal ∷ before ∷ after ∷ between ∷ empty ∷ not_empty ∷ []

look_up : Text → List Operator → Option Operator
look_up key [] = none
look_up key (o ∷ os) = let rest = look_up key os in if text_eq (key_of o) key then some o else rest

-- Arity
unfoldable pub arity : Text → Option Arity
unfolding look_up text_eq
arity key = elim (look_up key all_operators) [ none ↦ none | some o ↦ some (arity_of o) ]

-- IsZeroArity
unfoldable pub is_zero_arity : Text → Bool
unfolding arity
is_zero_arity key = elim (arity key) [ some none_taken ↦ true | _ ↦ false ]

abbrev basic_operators : List Operator
basic_operators = equal ∷ not_equal ∷ empty ∷ not_empty ∷ []

abbrev temporal_operators : List Operator
temporal_operators = equal ∷ before ∷ after ∷ between ∷ empty ∷ not_empty ∷ []

abbrev numeric_operators : List Operator
numeric_operators =
    equal ∷ not_equal ∷ greater_than ∷ greater_than_or_equal ∷ less_than ∷ less_than_or_equal
    ∷ between ∷ empty ∷ not_empty ∷ []

abbrev text_operators : List Operator
text_operators = equal ∷ not_equal ∷ contains ∷ not_contains ∷ empty ∷ not_empty ∷ []

-- OperatorsForFieldType
unfoldable pub operators_for_field_type : Text → Text → List Operator
unfolding text_eq contains_text
operators_for_field_type field_type value_kind =
    if contains_text (codes "link" ∷ codes "select" ∷ codes "boolean" ∷ []) field_type
    then basic_operators
    else if contains_text (codes "date" ∷ codes "datetime" ∷ codes "time" ∷ []) field_type
    then temporal_operators
    else if text_eq value_kind (codes "string")
    then text_operators
    else if text_eq value_kind (codes "integer") || text_eq value_kind (codes "number")
    then numeric_operators
    else []

-- Supports
unfoldable pub supports : Text → Text → Text → Bool
unfolding operators_for_field_type
supports field_type value_kind operator =
    any (λ o. text_eq (key_of o) operator) (operators_for_field_type field_type value_kind)
