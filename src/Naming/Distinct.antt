-- ===== src/Naming/Distinct.antt =====
-- The names of a series.
use dygo.Base.{
  has_prefix, ℕ, zero, suc, ◌<◌, Text, codes, List, [], ◌∷◌, ◌++◌, Option, none, some, ◌≡◌, ◌≢◌,
  refl, sym, ap, subst, ◌∙◌, Bool-cases, inl, inr, arith, Result, ok, err, reject, is_empty,
  trim_space, bind-ok, ok-injective,
}
use mathlib.Core.List.{append_cancel_left, append_cancel_right}
use dygo.Naming.Defs.{
  Services, Plan, Counter, entity_required, record_identity_name, generate_series_name, Error, Now,
  Series, Token, token_at, token_length, place, series_of, date, counter, replace_tokens,
  replace_counter, render_series_pattern, series_name, padded, drop,
}
use dygo.Naming.Counters.{Call, call_next, after_calls, call_next_ascends}
use dygo.Naming.Numbers.{value, padded-value}

-- A text with a place for a counter: what stands before and after it, whatever is put there.
abbrev pub IsFilled : Text → Type 0
IsFilled s =
    (before : Text) × (after : Text) × ((value : Text)
      → replace_counter value s ≡ before ++ (value ++ after))

IsFilled-here : (s : Text) → IsFilled (codes "{#}" ++ s)
unfolding replace_counter
IsFilled-here s = ([], s, λ value. refl)

IsFilled-later : (c : ℕ) (s : Text) → IsFilled s → IsFilled (c ∷ s)
unfolding replace_counter
IsFilled-later c s (before, after, fill) = elim (Bool-cases (has_prefix (codes "{#}") (c ∷ s))) [
  | inl e ↦ ([], drop 2 s, λ value. rw e refl)
  | inr e ↦ (c ∷ before, after, λ value. rw e (ap (λ t. c ∷ t) (fill value)))
]

IsFilled-after : (t s : Text) → IsFilled s → IsFilled (t ++ s)
IsFilled-after [] s f = f
IsFilled-after (c ∷ t) s f = IsFilled-later c (t ++ s) (IsFilled-after t s f)

-- The pattern that was read so far leaves a place if it had a counter.
abbrev pub IsReplaced : Text × List ℕ → Type 0
IsReplaced r = (width : ℕ) (more : List ℕ) → r.1 ≡ width ∷ more → IsFilled r.0

place-IsReplaced :
    (c : ℕ) (token : Option Token) (r : Text × List ℕ) → IsReplaced r → IsReplaced (place c token r)
place-IsReplaced c none r f width more h = IsFilled-later c r.0 (f width more h)
place-IsReplaced c (some (date text n)) r f width more h = IsFilled-after text r.0 (f width more h)
place-IsReplaced c (some (counter n)) r f width more h = IsFilled-here r.0

replace_tokens-IsReplaced :
    (now : Now) (skip : ℕ) (pattern : Text) → IsReplaced (replace_tokens now skip pattern)
unfolding replace_tokens
replace_tokens-IsReplaced now skip [] = λ width more h. cc
replace_tokens-IsReplaced now (suc skip) (c ∷ s) = replace_tokens-IsReplaced now skip s
replace_tokens-IsReplaced now zero (c ∷ s) =
    place-IsReplaced c (token_at now c s) (replace_tokens now (token_length (token_at now c s)) s)
      (replace_tokens-IsReplaced now (token_length (token_at now c s)) s)

abbrev rendered_of : Result Error Series → Text
rendered_of (ok s) = s.rendered
rendered_of (err e) = []

series_of-IsFilled :
    (entity rendered : Text) (widths : List ℕ) (s : Series)
    → IsReplaced (rendered, widths)
    → series_of entity rendered widths ≡ ok s
    → IsFilled s.rendered
unfolding series_of
series_of-IsFilled entity rendered [] s f h = cc
series_of-IsFilled entity rendered (_ ∷ _ ∷ _) s f h = cc
series_of-IsFilled entity rendered (width ∷ []) s f h =
    subst IsFilled (ap rendered_of h) (f width [] refl)

same_middle : (before x y after : Text) → before ++ (x ++ after) ≡ before ++ (y ++ after) → x ≡ y
same_middle before x y after h =
    append_cancel_right x y after (append_cancel_left before (x ++ after) (y ++ after) h)

-- For a pattern that renders, different values of the counter give different names.
pub series_name-apart :
    (entity pattern : Text) (now : Now) (s : Series) (a b : ℕ)
    → render_series_pattern entity pattern now ≡ ok s
    → a ≢ b
    → series_name s a ≢ series_name s b
unfolding render_series_pattern replace_counter
series_name-apart entity pattern now s a b h apart same =
    let (before, after, fill) =
      series_of-IsFilled entity (replace_tokens now 0 pattern).0 (replace_tokens now 0 pattern).1 s
        (replace_tokens-IsReplaced now 0 pattern) h in
    let digits =
      same_middle before (padded s.width a) (padded s.width b) after
        (sym (fill (padded s.width a)) ∙ same ∙ fill (padded s.width b)) in
    apart (sym (padded-value s.width a) ∙ ap (value 0) digits ∙ padded-value s.width b)

abbrev value_of : Result Error Series → Series
value_of (ok s) = s
value_of (err e) = record { rendered = []; width = 0; key = [] }

-- The call of the counter that a name of a series makes.
abbrev call_of : Services → Series → Call
call_of o s = record { app = o.app; entity = o.entity; entity_id = o.entity_id; key = s.key }

generated :
    (o : Services) (p : Plan) (rows rows' : List Counter) (name : Text)
    → generate_series_name o p rows ≡ ok (name, rows')
    → (s : Series) × (render_series_pattern (record_identity_name o.app o.entity) p.pattern o.now
        ≡ ok s)
      × (series_name s (call_next (call_of o s) rows).0 ≡ name)
      × ((call_next (call_of o s) rows).1 ≡ rows')
unfolding generate_series_name
generated o p rows rows' name h =
    let (_, _, k) =
      bind-ok (reject (is_empty (trim_space (record_identity_name o.app o.entity))) entity_required)
        _ (name, rows') h in
    let (s, e, q) =
      bind-ok (render_series_pattern (record_identity_name o.app o.entity) p.pattern o.now) _
        (name, rows') k in
    let same =
      ok-injective
        (series_name s (call_next (call_of o s) rows).0, (call_next (call_of o s) rows).1)
        (name, rows') q in
    (s, e, ap (λ (r : Text × List Counter). r.0) same, ap (λ (r : Text × List Counter). r.1) same)

-- Two names that a series pattern gives to Records of an Entity at one date differ, whatever values were taken
-- from any counters in between.
pub generate_series_name-apart :
    (o : Services) (p : Plan) (calls : List Call) (rows rows' rows'' : List Counter)
    (name name' : Text)
    → generate_series_name o p rows ≡ ok (name, rows')
    → generate_series_name o p (after_calls calls rows') ≡ ok (name', rows'')
    → name ≢ name'
generate_series_name-apart o p calls rows rows' rows'' name name' h h' =
    let (s, e, named, after) = generated o p rows rows' name h in
    let (s', e', named', after') = generated o p (after_calls calls rows') rows'' name' h' in
    let same : s' ≡ s = ap value_of (sym e' ∙ e) in
    let later = call_next (call_of o s') (after_calls calls rows') in
    let ascends : (call_next (call_of o s) rows).0 < later.0 =
      subst
        (λ t. (call_next (call_of o s) rows).0 < (call_next (call_of o s') (after_calls calls t)).0)
        after
        (call_next_ascends (call_of o s) (call_of o s') calls rows (ap Series.key (sym same))) in
    λ equal.
      series_name-apart (record_identity_name o.app o.entity) p.pattern o.now s
        (call_next (call_of o s) rows).0 later.0 e
        (λ (n : (call_next (call_of o s) rows).0 ≡ later.0). absurd (omega arith))
        (named ∙ equal ∙ sym named' ∙ ap (λ t. series_name t later.0) same)
