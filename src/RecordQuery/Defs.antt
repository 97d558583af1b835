-- ===== src/RecordQuery/Defs.antt =====
-- Pagination, sort terms and filters of a Record list request.
use dygo.Base.{
  ℕ, Text, codes, List, [], ◌∷◌, ◌++◌, Bool, true, false, ◌&&◌, ◌||◌, not, none, some, text_eq,
  text_lt, is_empty, trim_space, split, cut, if◌then◌else◌, Result, ok, err, reject, ◌>>=◌, ◌>>◌, ℤ,
  pos, ltb_ℤ, eq_ℤ, parse_int, ◌==◌,
}
use dygo.RecordFilter.{is_zero_arity}

abbrev pub default_limit : ℕ
default_limit = 20

abbrev pub max_limit : ℕ
max_limit = 2500

-- Filter
pub record Filter : Type 0 where
  pub field : Text
  pub operator : Text
  pub value : Text

-- Sort
pub record Sort : Type 0 where
  pub field : Text
  pub desc : Bool

-- Params
pub record Params : Type 0 where
  pub limit : ℤ
  pub offset : ℤ
  pub filters : List Filter
  pub sort : List Sort

pub data Error : Type 0 where
  bad_limit bad_offset limit_not_integer offset_not_integer : Error
  sort_required sort_twice reserved_query : Error
  no_field no_operator no_value unexpected_value unknown_query : Error
  index_panic : Error

-- url.Values, with the keys in the order that `range` visits them
abbrev pub Values : Type 0
Values = List (Text × List Text)

abbrev pub first_value : List Text → Text
first_value [] = []
first_value (v ∷ vs) = v

-- Values.Get
unfoldable pub get : Values → Text → Text
unfolding text_eq
get [] name = []
get ((k, vs) ∷ rest) name = if text_eq k name then first_value vs else get rest name

-- Normalize
unfoldable pub normalize : Params → Result Error Params
normalize p = do
  let limit = (if eq_ℤ p.limit (pos 0) then pos default_limit else p.limit)
  reject (ltb_ℤ limit (pos 1) || ltb_ℤ (pos max_limit) limit) bad_limit
  reject (ltb_ℤ p.offset (pos 0)) bad_offset
  ok (record p { limit = limit })

-- The limit and the offset of PaginationFromValues before Normalize; 0 where they are not given.
unfoldable pub given_limit : Text → Result Error ℤ
unfolding parse_int
given_limit value = if is_empty value then ok (pos 0) else elim (parse_int value) [
  | none ↦ err limit_not_integer
  | some n ↦ if ltb_ℤ n (pos 1) || ltb_ℤ (pos max_limit) n then err bad_limit else ok n
]

unfoldable pub given_offset : Text → Result Error ℤ
unfolding parse_int
given_offset value =
    if is_empty value
    then ok (pos 0)
    else elim (parse_int value) [ none ↦ err offset_not_integer | some n ↦ ok n ]

-- PaginationFromValues
unfoldable pub pagination_from_values : Values → Result Error Params
pagination_from_values values = do
  limit ← given_limit (trim_space (get values (codes "limit")))
  offset ← given_offset (trim_space (get values (codes "offset")))
  normalize (record { limit = limit; offset = offset; filters = []; sort = [] })

-- One term of ParseSort, trimmed
unfoldable pub parse_sort_term : Text → Result Error Sort
parse_sort_term [] = err sort_required
parse_sort_term (c ∷ s) =
    if c == b'-'
    then (if is_empty (trim_space s)
        then err sort_required
        else ok (record { field = trim_space s; desc = true }))
    else ok (record { field = c ∷ s; desc = false })

unfoldable pub parse_sort_terms : List Text → Result Error (List Sort)
parse_sort_terms [] = ok []
parse_sort_terms (part ∷ parts) =
    parse_sort_term (trim_space part) >>= λ t. parse_sort_terms parts >>= λ ts. ok (t ∷ ts)

-- ParseSort
unfoldable pub parse_sort : Text → Result Error (List Sort)
parse_sort raw =
    let trimmed = trim_space raw in
    if is_empty trimmed then err sort_required else parse_sort_terms (split b',' trimmed)

-- ParseFilterParam after the field and the operator are cut and trimmed
abbrev pub filter_of : Text → Text → Text → Result Error Filter
filter_of field operator value = do
  reject (is_empty field) no_field
  reject (is_empty operator) no_operator
  reject (is_zero_arity operator && not (is_empty value)) unexpected_value
  reject (not (is_zero_arity operator) && is_empty value) no_value
  ok (record { field = field; operator = operator; value = value })

-- ParseFilterParam
unfoldable pub parse_filter_param : Text → Text → Result Error Filter
parse_filter_param raw_name raw_value =
    let name = trim_space raw_name in
    if is_empty name then err no_field else elim (cut b':' name) [
      | none ↦ err unknown_query
      | some (field, operator) ↦
          filter_of (trim_space field) (trim_space operator) (trim_space raw_value)
    ]

-- The order of SortFilters.
unfoldable pub filter_before : Filter → Filter → Bool
filter_before f g =
    if not (text_eq f.field g.field)
    then text_lt f.field g.field
    else if not (text_eq f.operator g.operator)
    then text_lt f.operator g.operator
    else text_lt f.value g.value

unfoldable pub insert_filter : Filter → List Filter → List Filter
insert_filter f [] = f ∷ []
insert_filter f (g ∷ gs) = if filter_before g f then g ∷ insert_filter f gs else f ∷ g ∷ gs

-- SortFilters
unfoldable pub sort_filters : List Filter → List Filter
sort_filters [] = []
sort_filters (f ∷ fs) = insert_filter f (sort_filters fs)

-- `rawValues[0]` of a key without a value is a panic.
abbrev pub sort_of : List Text → Result Error (List Sort)
sort_of [] = err index_panic
sort_of (v ∷ []) = parse_sort v
sort_of (v ∷ w ∷ vs) = err sort_twice

-- `reserved` is reserved.IsQuery.
module _ (reserved : Text → Bool) where
  unfoldable pub filters_of : Text → List Text → Result Error (List Filter)
  filters_of name [] = ok []
  filters_of name (v ∷ vs) =
      parse_filter_param name v >>= λ f. filters_of name vs >>= λ fs. ok (f ∷ fs)

  -- One round of the loop of FromValues.
  unfoldable pub apply_value : Text → List Text → Params → Result Error Params
  apply_value name vs p =
      if text_eq name (codes "limit") || text_eq name (codes "offset")
      then ok p
      else if text_eq name (codes "sort")
      then sort_of vs >>= (λ terms. ok (record p { sort = terms }))
      else if reserved name
      then err reserved_query
      else filters_of name vs >>= (λ fs. ok (record p { filters = p.filters ++ fs }))

  unfoldable pub apply_values : Values → Params → Result Error Params
  apply_values [] p = ok p
  apply_values ((name, vs) ∷ rest) p = apply_value name vs p >>= apply_values rest

  -- FromValues
  unfoldable pub from_values : Values → Result Error Params
  from_values values = pagination_from_values values >>= λ p.
      apply_values values p >>= λ q. ok (record q { filters = sort_filters q.filters })
