-- ===== src/RecordQuery/Bounds.antt =====
-- What the queries that FromValues accepts satisfy.
use dygo.Base.{
  ℕ, Text, codes, List, [], ◌∷◌, ◌++◌, Bool, true, false, ◌&&◌, ◌||◌, not, Option, none, some,
  text_eq, is_empty, trim_space, trim_space_idem, if◌then◌else◌, ok, err, ℤ, pos, negsuc, ltb_ℤ,
  eq_ℤ, OnOk, OnOk-bind, OnOk-reject, OnOk-ok, All, All-append, ◌≡◌, ◌≤◌, refl, arith, Bool-cases,
  inl, inr, split, cut, ◌==◌,
}
use dygo.RecordFilter.{is_zero_arity}
use dygo.RecordQuery.Defs.{
  Filter, Sort, Params, Values, normalize, pagination_from_values, parse_sort_term,
  parse_sort_terms, parse_sort, filter_of, parse_filter_param, filter_before, insert_filter,
  sort_filters, filters_of, sort_of, apply_value, apply_values, from_values, given_limit,
  given_offset, get, max_limit, default_limit, bad_limit, bad_offset, no_field, no_operator,
  unexpected_value, no_value, unknown_query,
}

-- A page of at least one and at most 2500 Records, at an offset that is not negative.
pub record IsPage (p : Params) : Type 0 where
  pub size : ℕ
  pub limit_eq : p.limit ≡ pos size
  pub some_row : 1 ≤ size
  pub bounded : size ≤ 2500
  pub start : ℕ
  pub offset_eq : p.offset ≡ pos start

-- A filter has a field and an operator, both trimmed, and a value exactly when its operator takes
-- one.
pub record IsFilter (f : Filter) : Type 0 where
  pub has_field : is_empty f.field ≡ false
  pub has_operator : is_empty f.operator ≡ false
  pub field_trimmed : trim_space f.field ≡ f.field
  pub operator_trimmed : trim_space f.operator ≡ f.operator
  pub value_iff : is_empty f.value ≡ is_zero_arity f.operator

-- A sort term names a field.
abbrev pub IsTerm : Sort → Type 0
IsTerm s = is_empty s.field ≡ false

pub record IsQuery (p : Params) : Type 0 where
  pub page : IsPage p
  pub filters_ok : All IsFilter p.filters
  pub sort_ok : All IsTerm p.sort

in_bounds :
    (n : ℤ)
    → (ltb_ℤ n (pos 1) || ltb_ℤ (pos 2500) n) ≡ false
    → (m : ℕ) × (n ≡ pos m) × (1 ≤ m) × (m ≤ 2500)
in_bounds (pos m) h = (m, refl, ground arith, ground arith)
in_bounds (negsuc m) h = cc

natural : (n : ℤ) → ltb_ℤ n (pos 0) ≡ false → (m : ℕ) × (n ≡ pos m)
natural (pos m) h = (m, refl)
natural (negsuc m) h = cc

abbrev limit_of : Params → ℤ
limit_of p = if eq_ℤ p.limit (pos 0) then pos default_limit else p.limit

bounds_IsPage :
    (p : Params)
    → (ltb_ℤ (limit_of p) (pos 1) || ltb_ℤ (pos max_limit) (limit_of p)) ≡ false
    → ltb_ℤ p.offset (pos 0) ≡ false
    → IsPage (record p { limit = limit_of p })
bounds_IsPage p l o =
    let (m, e, low, high) = in_bounds (limit_of p) l in
    let (s, q) = natural p.offset o in
    record { size = m; limit_eq = e; some_row = low; bounded = high; start = s; offset_eq = q }

-- A page that Normalize returns has 1 to 2500 rows and an offset of 0 or more.
pub normalize-IsPage : (p : Params) → OnOk IsPage (normalize p)
unfolding normalize
normalize-IsPage p =
    OnOk-reject IsPage _ bad_limit _ λ l. OnOk-reject IsPage _ bad_offset _ λ o. bounds_IsPage p l o

value_flags :
    (zero_arity blank : Bool)
    → (zero_arity && not blank) ≡ false
    → (not zero_arity && blank) ≡ false
    → blank ≡ zero_arity
value_flags true true a b = refl
value_flags true false a b = cc
value_flags false true a b = cc
value_flags false false a b = refl

filter_of-IsFilter :
    (field operator value : Text)
    → trim_space field ≡ field
    → trim_space operator ≡ operator
    → OnOk IsFilter (filter_of field operator value)
filter_of-IsFilter field operator value tf to = OnOk-reject IsFilter _ no_field _ λ f.
    OnOk-reject IsFilter _ no_operator _ λ o. OnOk-reject IsFilter _ unexpected_value _ λ u.
      OnOk-reject IsFilter _ no_value _ λ v.
        let it : IsFilter (record { field = field; operator = operator; value = value }) = record {
          has_field = f;
          has_operator = o;
          field_trimmed = tf;
          operator_trimmed = to;
          value_iff = value_flags (is_zero_arity operator) (is_empty value) u v;
        } in
        it

pub parse_filter_param-IsFilter :
    (name value : Text) → OnOk IsFilter (parse_filter_param name value)
unfolding parse_filter_param
parse_filter_param-IsFilter name value = elim (Bool-cases (is_empty (trim_space name))) [
  | inl e ↦ rw e tt
  | inr e ↦ rw e (cut_IsFilter (cut b':' (trim_space name)))
]
  where
    cut_IsFilter :
        (parts : Option (Text × Text))
        → OnOk IsFilter (elim parts [
          | none ↦ err unknown_query
          | some (field, operator) ↦
              filter_of (trim_space field) (trim_space operator) (trim_space value)
        ])
    cut_IsFilter none = tt
    cut_IsFilter (some (field, operator)) =
        filter_of-IsFilter _ _ _ (trim_space_idem field) (trim_space_idem operator)

parse_sort_term-IsTerm : (part : Text) → OnOk IsTerm (parse_sort_term part)
unfolding parse_sort_term
parse_sort_term-IsTerm [] = tt
parse_sort_term-IsTerm (c ∷ s) = elim (Bool-cases (c == b'-')) [
  | inr e ↦ rw e refl
  | inl e ↦ elim (Bool-cases (is_empty (trim_space s))) [
    | inl b ↦ rw (e, b) tt
    | inr b ↦ rw (e, b) b
  ]
]

parse_sort_terms-IsTerm : (parts : List Text) → OnOk (All IsTerm) (parse_sort_terms parts)
unfolding parse_sort_terms
parse_sort_terms-IsTerm [] = tt
parse_sort_terms-IsTerm (part ∷ parts) =
    OnOk-bind (All IsTerm) (parse_sort_term (trim_space part)) _ λ t e.
      OnOk-bind (All IsTerm) (parse_sort_terms parts) _ λ ts es. (
        OnOk-ok IsTerm _ (parse_sort_term-IsTerm (trim_space part)) e,
        OnOk-ok (All IsTerm) _ (parse_sort_terms-IsTerm parts) es,
      )

parse_sort-IsTerm : (raw : Text) → OnOk (All IsTerm) (parse_sort raw)
unfolding parse_sort
parse_sort-IsTerm raw = elim (Bool-cases (is_empty (trim_space raw))) [
  | inl e ↦ rw e tt
  | inr e ↦ rw e (parse_sort_terms-IsTerm (split b',' (trim_space raw)))
]

sort_of-IsTerm : (values : List Text) → OnOk (All IsTerm) (sort_of values)
sort_of-IsTerm [] = tt
sort_of-IsTerm (v ∷ []) = parse_sort-IsTerm v
sort_of-IsTerm (v ∷ w ∷ vs) = tt

insert_filter-IsFilter :
    (f : Filter) (fs : List Filter)
    → IsFilter f
    → All IsFilter fs
    → All IsFilter (insert_filter f fs)
unfolding insert_filter
insert_filter-IsFilter f [] h k = (h, tt)
insert_filter-IsFilter f (g ∷ gs) h k = elim (Bool-cases (filter_before g f)) [
  | inl e ↦ rw e (k.0, insert_filter-IsFilter f gs h k.1)
  | inr e ↦ rw e (h, k)
]

sort_filters-IsFilter : (fs : List Filter) → All IsFilter fs → All IsFilter (sort_filters fs)
unfolding sort_filters
sort_filters-IsFilter [] h = tt
sort_filters-IsFilter (f ∷ fs) h =
    insert_filter-IsFilter f (sort_filters fs) h.0 (sort_filters-IsFilter fs h.1)

bare_IsQuery :
    (p : Params)
    → IsPage (record p { limit = limit_of p })
    → All IsFilter p.filters
    → All IsTerm p.sort
    → IsQuery (record p { limit = limit_of p })
bare_IsQuery p g f s = record { page = g; filters_ok = f; sort_ok = s }

pagination_IsQuery : (values : Values) → OnOk IsQuery (pagination_from_values values)
unfolding pagination_from_values normalize
pagination_IsQuery values =
    OnOk-bind IsQuery (given_limit (trim_space (get values (codes "limit")))) _ λ limit _.
      OnOk-bind IsQuery (given_offset (trim_space (get values (codes "offset")))) _ λ offset _.
        OnOk-reject IsQuery _ bad_limit _ λ l. OnOk-reject IsQuery _ bad_offset _ λ o.
          bare_IsQuery (record { limit = limit; offset = offset; filters = []; sort = [] })
            (bounds_IsPage (record { limit = limit; offset = offset; filters = []; sort = [] }) l o)
            tt tt

set_filters :
    (p : Params) (fs : List Filter)
    → IsQuery p
    → All IsFilter fs
    → IsQuery (record p { filters = fs })
set_filters p fs q h = record {
  page =
      let g = q.page in
      record {
        size = g.size;
        limit_eq = g.limit_eq;
        some_row = g.some_row;
        bounded = g.bounded;
        start = g.start;
        offset_eq = g.offset_eq;
      };
  filters_ok = h;
  sort_ok = q.sort_ok;
}

set_sort :
    (p : Params) (ts : List Sort) → IsQuery p → All IsTerm ts → IsQuery (record p { sort = ts })
set_sort p ts q h = record {
  page =
      let g = q.page in
      record {
        size = g.size;
        limit_eq = g.limit_eq;
        some_row = g.some_row;
        bounded = g.bounded;
        start = g.start;
        offset_eq = g.offset_eq;
      };
  filters_ok = q.filters_ok;
  sort_ok = h;
}

module _ (reserved : Text → Bool) where
  filters_of-IsFilter :
      (name : Text) (values : List Text) → OnOk (All IsFilter) (filters_of reserved name values)
  unfolding filters_of
  filters_of-IsFilter name [] = tt
  filters_of-IsFilter name (v ∷ vs) = OnOk-bind (All IsFilter) (parse_filter_param name v) _ λ f e.
      OnOk-bind (All IsFilter) (filters_of reserved name vs) _ λ fs es. (
        OnOk-ok IsFilter _ (parse_filter_param-IsFilter name v) e,
        OnOk-ok (All IsFilter) _ (filters_of-IsFilter name vs) es,
      )

  apply_value-IsQuery :
      (name : Text) (values : List Text) (p : Params)
      → IsQuery p
      → OnOk IsQuery (apply_value reserved name values p)
  unfolding apply_value
  apply_value-IsQuery name values p q =
      elim (Bool-cases (text_eq name (codes "limit") || text_eq name (codes "offset"))) [
        | inl a ↦ rw a q
        | inr a ↦ elim (Bool-cases (text_eq name (codes "sort"))) [
          | inl b ↦
              rw (a, b)
                (OnOk-bind IsQuery (sort_of values) _
                  λ ts e. set_sort p ts q (OnOk-ok (All IsTerm) _ (sort_of-IsTerm values) e))
          | inr b ↦ elim (Bool-cases (reserved name)) [
            | inl c ↦ rw (a, b, c) tt
            | inr c ↦
                rw (a, b, c)
                  (OnOk-bind IsQuery (filters_of reserved name values) _ λ fs e.
                    set_filters p (p.filters ++ fs) q (
                      All-append IsFilter p.filters fs q.filters_ok
                        (OnOk-ok (All IsFilter) _ (filters_of-IsFilter name values) e)))
          ]
        ]
      ]

  apply_values-IsQuery :
      (values : Values) (p : Params) → IsQuery p → OnOk IsQuery (apply_values reserved values p)
  unfolding apply_values
  apply_values-IsQuery [] p q = q
  apply_values-IsQuery ((name, vs) ∷ rest) p q =
      OnOk-bind IsQuery (apply_value reserved name vs p) _
        λ p' e. apply_values-IsQuery rest p' (OnOk-ok IsQuery _ (apply_value-IsQuery name vs p q) e)

  accepted_IsQuery : (values : Values) → OnOk IsQuery (from_values reserved values)
  unfolding from_values
  accepted_IsQuery values = OnOk-bind IsQuery (pagination_from_values values) _ λ p e.
      OnOk-bind IsQuery (apply_values reserved values p) _ λ q e'.
        let ok_p = OnOk-ok IsQuery _ (pagination_IsQuery values) e in
        let ok_q = OnOk-ok IsQuery _ (apply_values-IsQuery values p ok_p) e' in
        set_filters q (sort_filters q.filters) ok_q
          (sort_filters-IsFilter q.filters ok_q.filters_ok)

-- A query that FromValues accepts asks for 1 to 2500 Records from an offset of 0 or more; each of
-- its filters has a trimmed field and operator, not empty, and a value exactly when the operator
-- takes one; each sort term names a field.
pub from_values-IsQuery :
    (reserved : Text → Bool) (values : Values) (p : Params)
    → from_values reserved values ≡ ok p
    → IsQuery p
from_values-IsQuery reserved values p h =
    OnOk-ok IsQuery (from_values reserved values) (accepted_IsQuery reserved values) h
