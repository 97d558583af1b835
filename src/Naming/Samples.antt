-- ===== src/Naming/Samples.antt =====
-- Invoices in a series, and a format.
use dygo.Base.{
  ℕ, ◌<◌, Text, codes, text_eq, trim_space, List, [], ◌∷◌, pos, ◌≡◌, ◌≢◌, refl, if◌then◌else◌,
  Result, ok, err,
}
use dygo.Naming.Defs.{
  Error, not_available, Plan, Now, Services, Counter, generate, generate_series_name, render_format,
}
use dygo.Naming.Counters.{Call, call_next, after_calls, call_next_ascends}
use dygo.Naming.Distinct.{generate_series_name-apart}
use dygo.Naming.Formats.{Piece, char, token, print, fill, render_format-print}

abbrev may : Now
may = record { year_in_century = codes "26"; year = codes "2026"; month = codes "05" }

abbrev lookup : Text → Result Error Text
unfolding text_eq
lookup t =
    if text_eq t (codes "entity")
    then ok (codes "core.user")
    else if text_eq t (codes "field-name")
    then ok (codes "email")
    else err not_available

abbrev services : Services
services = record {
  resolve = lookup;
  random = λ _. err not_available;
  now = may;
  app = codes "sales";
  entity = codes "invoice";
  entity_id = 7;
}

abbrev series_plan : Plan
series_plan = record {
  strategy = codes "series";
  length = pos 0;
  pattern = codes "SINV-{YYYY}-{MM}-{#####}";
  format = [];
}

abbrev counter_at : ℕ → List Counter
counter_at n =
    record { key = codes "sales/invoice:SINV-2026-05-{#####}"; entity_id = 7; current = n } ∷ []

first_name : generate services series_plan [] ≡ ok (codes "SINV-2026-05-00001", counter_at 1)
unfolding generate text_eq trim_space
first_name = refl

-- The counter goes on from the key without the App.
legacy_name :
    (rows : List Counter) × (generate services series_plan
        (record { key = codes "invoice:SINV-2026-05-{#####}"; entity_id = 7; current = 41 } ∷ [])
      ≡ ok (codes "SINV-2026-05-00042", rows))
unfolding generate text_eq trim_space
legacy_name = (_, refl)

abbrev call : Call
call = record {
  app = codes "sales";
  entity = codes "invoice";
  entity_id = 7;
  key = codes "sales/invoice:SINV-2026-05-{#####}";
}

call_next_ascends_example :
    (call_next call []).0 < (call_next call (after_calls (call ∷ []) (call_next call []).1)).0
call_next_ascends_example = call_next_ascends call call (call ∷ []) [] refl

one :
    generate_series_name services series_plan (counter_at 1)
    ≡ ok (codes "SINV-2026-05-00002", counter_at 2)
unfolding generate_series_name text_eq trim_space
one = refl

two :
    generate_series_name services series_plan (after_calls (call ∷ []) (counter_at 2))
    ≡ ok (codes "SINV-2026-05-00004", counter_at 4)
unfolding generate_series_name after_calls text_eq trim_space
two = refl

generate_series_name-apart_example : codes "SINV-2026-05-00002" ≢ codes "SINV-2026-05-00004"
generate_series_name-apart_example =
    generate_series_name-apart services series_plan (call ∷ []) (counter_at 1) (counter_at 2)
      (counter_at 4) (codes "SINV-2026-05-00002") (codes "SINV-2026-05-00004") one two

abbrev pieces : List Piece
pieces = token (codes "entity") ∷ char b'.' ∷ token (codes "field-name") ∷ []

render_format-print_example : render_format lookup (print pieces) ≡ fill lookup pieces
render_format-print_example = render_format-print lookup pieces (refl, ((refl, refl), (refl, tt)))
