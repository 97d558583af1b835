-- ===== src/Naming/Defs.antt =====
-- Naming strategies, and the counters of series.
use dygo.Base.{
  has_prefix, ℕ, zero, suc, ◌+◌, ◌-◌, ◌/◌, ◌%◌, ℤ, pos, eq_ℤ, Text, codes, List, [], ◌∷◌, ◌++◌,
  ◌&&◌, ◌||◌, ltb, ◌==◌, Option, none, some, find, length, text_eq, trim_space, is_empty,
  if◌then◌else◌, Result, ok, err, reject, ◌>>=◌, ◌>>◌,
}

pub data Error : Type 0 where
  not_available unsupported_strategy entity_required unclosed_token unopened_token not_one_counter :
      Error
  not_deterministic no_counter : Error
  failed : Text → Error

-- Naming
pub record Plan : Type 0 where
  pub strategy : Text
  pub length : ℤ
  pub pattern : Text
  pub format : Text

-- What the time of a call formats to by "06", "2006" and "01".
pub record Now : Type 0 where
  pub year_in_century : Text
  pub year : Text
  pub month : Text

-- normalizePlan
unfoldable pub normalize_plan : Plan → Plan
unfolding trim_space text_eq
normalize_plan p =
    let trimmed = trim_space p.strategy in
    let strategy = if is_empty trimmed then codes "random" else trimmed in
    record p {
      strategy = strategy;
      length =
          (if text_eq strategy (codes "random") && eq_ℤ p.length (pos 0) then pos 16 else p.length);
    }

-- The text up to a closing brace, and after it.
unfoldable pub token_and_rest : Text → Option (Text × Text)
token_and_rest [] = none
token_and_rest (c ∷ s) =
    let later = token_and_rest s in
    if c == b'}'
    then some ([], s)
    else elim later [ none ↦ none | some (token, rest) ↦ some (c ∷ token, rest) ]

-- Within RenderFormat: so many characters belong to the token before.
unfoldable pub render_from : (Text → Result Error Text) → ℕ → Text → Result Error Text
unfolding token_and_rest
render_from resolve skip [] = ok []
render_from resolve (suc skip) (c ∷ s) = render_from resolve skip s
render_from resolve zero (c ∷ s) =
    if c == b'{'
    then elim (token_and_rest s) [
      | none ↦ err unclosed_token
      | some (token, rest) ↦ resolve token >>= λ value.
          render_from resolve (suc (length token)) s >>= λ more. ok (value ++ more)
    ]
    else if c == b'}'
    then err unopened_token
    else (render_from resolve zero s >>= λ more. ok (c ∷ more))

-- RenderFormat
abbrev pub render_format : (Text → Result Error Text) → Text → Result Error Text
render_format resolve format = render_from resolve 0 format

-- How many characters a text begins with.
abbrev pub count_leading : ℕ → Text → ℕ
count_leading q [] = 0
count_leading q (c ∷ s) = let more = count_leading q s in if c == q then suc more else 0

abbrev pub drop : ℕ → Text → Text
drop zero s = s
drop (suc n) [] = []
drop (suc n) (c ∷ s) = drop n s

abbrev pub repeat : ℕ → ℕ → Text
repeat zero c = []
repeat (suc n) c = c ∷ repeat n c

-- A token of a series pattern: a text of the date, or a counter of a width.
pub data Token : Type 0 where
  date : Text → ℕ → Token
  counter : ℕ → Token

-- seriesTokenPattern, after an opening brace
unfoldable pub series_token : Now → Text → Option Token
series_token now s =
    if has_prefix (codes "YY}") s
    then some (date now.year_in_century 3)
    else if has_prefix (codes "YYYY}") s
    then some (date now.year 5)
    else if has_prefix (codes "MM}") s
    then some (date now.month 3)
    else let n = count_leading b'#' s in
      if ltb 0 n && has_prefix (b'}' ∷ []) (drop n s) then some (counter n) else none

abbrev pub token_at : Now → ℕ → Text → Option Token
token_at now c s = if c == b'{' then series_token now s else none

-- How many characters after its opening brace belong to a token.
abbrev pub token_length : Option Token → ℕ
token_length none = 0
token_length (some (date text n)) = n
token_length (some (counter n)) = suc n

-- A character, or what its token is replaced by, before the rest.
abbrev pub place : ℕ → Option Token → Text × List ℕ → Text × List ℕ
place c none r = (c ∷ r.0, r.1)
place c (some (date text n)) r = (text ++ r.0, r.1)
place c (some (counter n)) r = (codes "{#}" ++ r.0, n ∷ r.1)

-- The pattern with its tokens replaced, and the widths of its counters.
unfoldable pub replace_tokens : Now → ℕ → Text → Text × List ℕ
unfolding series_token
replace_tokens now skip [] = ([], [])
replace_tokens now (suc skip) (c ∷ s) = replace_tokens now skip s
replace_tokens now zero (c ∷ s) =
    let token = token_at now c s in place c token (replace_tokens now (token_length token) s)

-- strings.Replace of the first "{#}"
unfoldable pub replace_counter : Text → Text → Text
replace_counter value [] = []
replace_counter value (c ∷ s) =
    let later = replace_counter value s in
    if has_prefix (codes "{#}") (c ∷ s) then value ++ drop 2 s else c ∷ later

pub record Series : Type 0 where
  pub rendered : Text
  pub width : ℕ
  pub key : Text

-- The end of RenderSeriesPattern: one counter is wanted.
unfoldable pub series_of : Text → Text → List ℕ → Result Error Series
unfolding replace_counter
series_of entity rendered [] = err not_one_counter
series_of entity rendered (width ∷ []) = ok (record {
  rendered = rendered;
  width = width;
  key = entity ++ b':' ∷ replace_counter (b'{' ∷ repeat width b'#' ++ b'}' ∷ []) rendered;
})
series_of entity rendered (_ ∷ _ ∷ _) = err not_one_counter

-- RenderSeriesPattern
unfoldable pub render_series_pattern : Text → Text → Now → Result Error Series
unfolding replace_tokens series_of
render_series_pattern entity pattern now =
    let (rendered, widths) = replace_tokens now 0 pattern in series_of entity rendered widths

-- The decimal digits of a number, before the text that follows them; the fuel bounds the digits.
unfoldable pub decimal : ℕ → ℕ → Text → Text
decimal zero n after = after
decimal (suc fuel) n after =
    let more = decimal fuel (n / 10) ((b'0' + n % 10) ∷ after) in
    if ltb n 10 then (b'0' + n) ∷ after else more

-- fmt.Sprintf("%0*d")
unfoldable pub padded : ℕ → ℕ → Text
unfolding decimal
padded width n = let digits = decimal (suc n) n [] in repeat (width - length digits) b'0' ++ digits

-- The table naming_series. The column of the counter is a bounded integer, whose overflow is an error.
pub record Counter : Type 0 where
  pub key : Text
  pub entity_id : ℕ
  pub current : ℕ

-- recordIdentityName
abbrev pub record_identity_name : Text → Text → Text
record_identity_name app entity = app ++ b'/' ∷ entity

-- legacySeriesKey
unfoldable pub legacy_series_key : Text → Text → Text → Text
legacy_series_key key app entity =
    let prefix = record_identity_name app entity ++ b':' ∷ [] in
    if has_prefix prefix key then entity ++ b':' ∷ drop (length prefix) key else key

-- The counter of the series before its key had the App.
abbrev pub legacy_current : List Counter → Text → ℕ → ℕ
legacy_current rows legacy entity_id =
    elim (find (λ (r : Counter). text_eq r.key legacy && (r.entity_id == entity_id)) rows) [
      | none ↦ 0
      | some r ↦ r.current
    ]

-- The conflict branch of the INSERT.
abbrev pub increment : Text → List Counter → List Counter
increment key [] = []
increment key (r ∷ rows) =
    (if text_eq r.key key then record r { current = r.current + 1 } else r) ∷ increment key rows

-- The INSERT, given the row of its key that is there.
unfoldable pub next_from : Text → Text → ℕ → Text → List Counter → Option Counter → ℕ × List Counter
unfolding text_eq legacy_series_key
next_from app entity entity_id key rows (some r) = (r.current + 1, increment key rows)
next_from app entity entity_id key rows none =
    let first = legacy_current rows (legacy_series_key key app entity) entity_id + 1 in
    (first, rows ++ record { key = key; entity_id = entity_id; current = first } ∷ [])

-- recordSeriesCounter.Next for an Entity: the value and the table after it
unfoldable pub next_value : Text → Text → ℕ → Text → List Counter → ℕ × List Counter
unfolding text_eq next_from
next_value app entity entity_id key rows =
    next_from app entity entity_id key rows (find (λ (r : Counter). text_eq r.key key) rows)

-- What Generate takes from its caller: the values of tokens, the random names, the date, and the identity of
-- the Entity whose counters it takes.
pub record Services : Type 0 where
  pub resolve : Text → Result Error Text
  pub random : ℤ → Result Error Text
  pub now : Now
  pub app : Text
  pub entity : Text
  pub entity_id : ℕ

abbrev pub series_name : Series → ℕ → Text
series_name s n = replace_counter (padded s.width n) s.rendered

-- generateSeriesName, with the counter of the store
unfoldable pub generate_series_name :
    Services → Plan → List Counter → Result Error (Text × List Counter)
unfolding render_series_pattern next_value replace_counter padded trim_space
generate_series_name o p rows = do
  reject (is_empty (trim_space (record_identity_name o.app o.entity))) entity_required
  s ← render_series_pattern (record_identity_name o.app o.entity) p.pattern o.now
  let (current, rows') = next_value o.app o.entity o.entity_id s.key rows
  ok (series_name s current, rows')

-- Generate of a normalized plan
unfoldable pub generate_normal : Services → Plan → List Counter → Result Error (Text × List Counter)
unfolding generate_series_name render_from text_eq
generate_normal o p rows =
    if text_eq p.strategy (codes "manual")
    then (o.resolve (codes "name") >>= λ name. ok (name, rows))
    else if text_eq p.strategy (codes "random")
    then (o.random p.length >>= λ name. ok (name, rows))
    else if text_eq p.strategy (codes "series")
    then generate_series_name o p rows
    else if text_eq p.strategy (codes "format")
    then (render_format o.resolve p.format >>= λ name. ok (name, rows))
    else err unsupported_strategy

-- Generate
unfoldable pub generate : Services → Plan → List Counter → Result Error (Text × List Counter)
unfolding generate_normal normalize_plan
generate o p rows = generate_normal o (normalize_plan p) rows

-- GenerateDeterministic
unfoldable pub generate_deterministic : Services → Plan → Result Error Text
unfolding generate_normal normalize_plan text_eq
generate_deterministic o p =
    let q = normalize_plan p in
    if text_eq q.strategy (codes "random") || text_eq q.strategy (codes "series")
    then err not_deterministic
    else (generate_normal o q [] >>= λ named. ok named.0)
