-- ===== src/RecordQuery/Samples.antt =====
-- A list request with a limit, two filters and a sort.
use mathlib.Core.List.{Permᴰ}
use dygo.Base.{
  List, codes, [], ◌∷◌, false, pos, ok, text_eq, text_lt, trim_space, split, cut, parse_int, ◌≡◌,
  refl, true,
}
use dygo.RecordFilter.{is_zero_arity, arity}
use dygo.RecordQuery.Defs.{
  Filter, Values, Params, from_values, pagination_from_values, given_limit, given_offset, normalize,
  get, apply_values, apply_value, filters_of, parse_filter_param, parse_sort, parse_sort_terms,
  parse_sort_term, sort_filters, insert_filter, filter_before,
}
use dygo.RecordQuery.Sorting.{IsSorted, sort_filters_lem}
use dygo.RecordQuery.AnyOrder.{AreKeys, from_values_any_order}
use dygo.RecordQuery.Bounds.{IsQuery, from_values-IsQuery}

abbrev request : Values
request =
    (codes "title:contains", codes " x " ∷ [])
    ∷ (codes "limit", codes "50" ∷ [])
    ∷ (codes "sort", codes "name, -age" ∷ [])
    ∷ (codes "age:empty", [] ∷ [])
    ∷ []

abbrev query : Params
query = record {
  limit = pos 50;
  offset = pos 0;
  filters =
      record { field = codes "age"; operator = codes "empty"; value = [] }
      ∷ record { field = codes "title"; operator = codes "contains"; value = codes "x" }
      ∷ [];
  sort =
      record { field = codes "name"; desc = false }
      ∷ record { field = codes "age"; desc = true }
      ∷ [];
}

request_accepted : from_values (λ _. false) request ≡ ok query
unfolding from_values pagination_from_values given_limit given_offset normalize get apply_values
    apply_value filters_of parse_filter_param parse_sort parse_sort_terms parse_sort_term
    sort_filters insert_filter filter_before is_zero_arity arity text_eq text_lt trim_space split
    cut parse_int
request_accepted = refl

from_values-IsQuery_example : IsQuery query
from_values-IsQuery_example = from_values-IsQuery (λ _. false) request query request_accepted

abbrev unsorted : List Filter
unsorted =
    record { field = codes "title"; operator = codes "contains"; value = codes "x" }
    ∷ record { field = codes "age"; operator = codes "gt"; value = codes "4" }
    ∷ record { field = codes "age"; operator = codes "empty"; value = [] }
    ∷ []

sort_filters_lem_example : IsSorted (sort_filters unsorted) × Permᴰ unsorted (sort_filters unsorted)
sort_filters_lem_example = sort_filters_lem unsorted

-- The same keys, of which the first two are visited in the other order.
abbrev reordered : Values
reordered =
    (codes "limit", codes "50" ∷ [])
    ∷ (codes "title:contains", codes " x " ∷ [])
    ∷ (codes "sort", codes "name, -age" ∷ [])
    ∷ (codes "age:empty", [] ∷ [])
    ∷ []

request-AreKeys : AreKeys request
unfolding text_eq
request-AreKeys = ((refl, (refl, (refl, tt))), ((refl, (refl, tt)), ((refl, tt), (tt, tt))))

from_values_any_order_example : from_values (λ _. false) reordered ≡ ok query
from_values_any_order_example =
    from_values_any_order (λ _. false) request reordered query request-AreKeys
      (Permᴰ.swap refl refl) request_accepted
