-- ===== src/Naming/Counters.antt =====
-- The values that a counter gives.
use dygo.Base.{
  ℕ, ◌+◌, ◌≤◌, ◌<◌, Text, List, [], ◌∷◌, ◌++◌, false, Option, none, some, find, text_eq, text_eq→≡,
  text_eq_refl, ◌≡◌, refl, sym, ap, subst, ◌∙◌, Bool-cases, Option-cases, inl, inr, arith,
  if◌then◌else◌,
}
use dygo.Naming.Defs.{Counter, next_value, next_from, increment, legacy_current, legacy_series_key}

-- What the table holds for a key.
unfoldable pub current_in : Text → List Counter → Option ℕ
unfolding text_eq
current_in key [] = none
current_in key (r ∷ rows) =
    let more = current_in key rows in if text_eq r.key key then some r.current else more

-- One call of Next for an Entity and a key.
pub record Call : Type 0 where
  pub app : Text
  pub entity : Text
  pub entity_id : ℕ
  pub key : Text

abbrev pub call_next : Call → List Counter → ℕ × List Counter
call_next c rows = next_value c.app c.entity c.entity_id c.key rows

unfoldable pub after_calls : List Call → List Counter → List Counter
unfolding next_value
after_calls [] rows = rows
after_calls (c ∷ calls) rows = after_calls calls (call_next c rows).1

-- The counter of a key stands at a value or above.
abbrev pub IsPast : Text → ℕ → List Counter → Type 0
IsPast key n rows = (m : ℕ) × (current_in key rows ≡ some m) × (n ≤ m)

found-current :
    (key : Text) (rows : List Counter) (r : Counter)
    → find (λ (r : Counter). text_eq r.key key) rows ≡ some r
    → current_in key rows ≡ some r.current
unfolding current_in text_eq
found-current key [] r h = cc
found-current key (x ∷ rows) r h = elim (Bool-cases (text_eq x.key key)) [
  | inl e ↦
      let same : some x ≡ some r = rw e at h in
      let q : x ≡ r = cc in rw e (ap (λ (y : Counter). some y.current) q)
  | inr e ↦ rw e (found-current key rows r (rw e at h))
]

missing-current :
    (key : Text) (rows : List Counter)
    → find (λ (r : Counter). text_eq r.key key) rows ≡ none
    → current_in key rows ≡ none
unfolding current_in text_eq
missing-current key [] h = refl
missing-current key (x ∷ rows) h = elim (Bool-cases (text_eq x.key key)) [
  | inl e ↦ let bad : some x ≡ none = rw e at h in cc
  | inr e ↦ rw e (missing-current key rows (rw e at h))
]

increment-same :
    (key : Text) (rows : List Counter) (m : ℕ)
    → current_in key rows ≡ some m
    → current_in key (increment key rows) ≡ some (m + 1)
unfolding current_in text_eq
increment-same key [] m h = cc
increment-same key (r ∷ rows) m h = elim (Bool-cases (text_eq r.key key)) [
  | inl e ↦
      let at : some r.current ≡ some m = rw e at h in
      let q : r.current ≡ m = cc in rw (e, e) (ap (λ n. some (n + 1)) q)
  | inr e ↦ rw (e, e) (increment-same key rows m (rw e at h))
]

increment-other :
    (key other : Text) (rows : List Counter)
    → text_eq key other ≡ false
    → current_in other (increment key rows) ≡ current_in other rows
unfolding current_in text_eq
increment-other key other [] h = refl
increment-other key other (r ∷ rows) h = elim (Bool-cases (text_eq r.key key)) [
  | inl e ↦
      let q : text_eq r.key other ≡ false =
        subst (λ k. text_eq k other ≡ false) (sym (text_eq→≡ r.key key e)) h in
      rw (e, q) (increment-other key other rows h)
  | inr e ↦ rw (e, increment-other key other rows h) refl
]

added-current :
    (key : Text) (rows : List Counter) (x : Counter) (m : ℕ)
    → current_in key rows ≡ some m
    → current_in key (rows ++ x ∷ []) ≡ some m
unfolding current_in text_eq
added-current key [] x m h = cc
added-current key (r ∷ rows) x m h = elim (Bool-cases (text_eq r.key key)) [
  | inl e ↦ rw e (rw e at h)
  | inr e ↦ rw e (added-current key rows x m (rw e at h))
]

new-current :
    (rows : List Counter) (x : Counter)
    → current_in x.key rows ≡ none
    → current_in x.key (rows ++ x ∷ []) ≡ some x.current
unfolding current_in text_eq
new-current [] x h = rw (text_eq_refl x.key) refl
new-current (r ∷ rows) x h = elim (Bool-cases (text_eq r.key x.key)) [
  | inl e ↦ let bad : some r.current ≡ none = rw e at h in cc
  | inr e ↦ rw e (new-current rows x (rw e at h))
]

-- A call that finds the row of its key, and one that does not.
call_next-found :
    (c : Call) (rows : List Counter) (r : Counter)
    → find (λ (r : Counter). text_eq r.key c.key) rows ≡ some r
    → call_next c rows ≡ (r.current + 1, increment c.key rows)
unfolding next_value next_from text_eq
call_next-found c rows r h = ap (next_from c.app c.entity c.entity_id c.key rows) h

call_next-new :
    (c : Call) (rows : List Counter)
    → find (λ (r : Counter). text_eq r.key c.key) rows ≡ none
    → (n : ℕ) × (call_next c rows
        ≡ (n, rows ++ record { key = c.key; entity_id = c.entity_id; current = n } ∷ []))
unfolding next_value next_from text_eq legacy_series_key
call_next-new c rows h = (
  legacy_current rows (legacy_series_key c.key c.app c.entity) c.entity_id + 1,
  ap (next_from c.app c.entity c.entity_id c.key rows) h,
)

-- The value of a call is what the table holds afterwards.
pub call_next-current :
    (c : Call) (rows : List Counter)
    → current_in c.key (call_next c rows).1 ≡ some (call_next c rows).0
unfolding text_eq
call_next-current c rows = elim (Option-cases (find (λ (r : Counter). text_eq r.key c.key) rows)) [
  | inr (r, e) ↦
      rw (call_next-found c rows r e)
        (increment-same c.key rows r.current (found-current c.key rows r e))
  | inl e ↦
      let (n, q) = call_next-new c rows e in
      rw q (
        new-current rows (record { key = c.key; entity_id = c.entity_id; current = n })
          (missing-current c.key rows e))
]

-- The value of a call is past that of its key before.
pub call_next_rises :
    (c : Call) (rows : List Counter) (n : ℕ) → IsPast c.key n rows → n < (call_next c rows).0
unfolding text_eq
call_next_rises c rows n (m, e, le) =
    elim (Option-cases (find (λ (r : Counter). text_eq r.key c.key) rows)) [
      | inl q ↦ let bad : none ≡ some m = sym (missing-current c.key rows q) ∙ e in cc
      | inr (r, q) ↦
          let at : some r.current ≡ some m = sym (found-current c.key rows r q) ∙ e in
          let same : r.current ≡ m = cc in
          subst (λ (p : ℕ × List Counter). n < p.0) (sym (call_next-found c rows r q)) (omega arith)
    ]

kept_by_increment :
    (own key : Text) (rows : List Counter) (n : ℕ)
    → IsPast key n rows
    → IsPast key n (increment own rows)
unfolding text_eq
kept_by_increment own key rows n (m, e, le) = elim (Bool-cases (text_eq own key)) [
  | inr q ↦ (m, increment-other own key rows q ∙ e, le)
  | inl q ↦ (
    m + 1,
    subst (λ k. current_in key (increment k rows) ≡ some (m + 1)) (sym (text_eq→≡ own key q))
        (increment-same key rows m e),
    omega arith,
  )
]

-- No call sets a counter back.
call_next-IsPast :
    (c : Call) (key : Text) (rows : List Counter) (n : ℕ)
    → IsPast key n rows
    → IsPast key n (call_next c rows).1
unfolding text_eq
call_next-IsPast c key rows n past =
    elim (Option-cases (find (λ (r : Counter). text_eq r.key c.key) rows)) [
      | inr (r, q) ↦
          subst (λ (p : ℕ × List Counter). IsPast key n p.1) (sym (call_next-found c rows r q))
            (kept_by_increment c.key key rows n past)
      | inl q ↦
          let (v, e) = call_next-new c rows q in
          let (m, at, le) = past in
          subst (λ (p : ℕ × List Counter). IsPast key n p.1) (sym e)
            (
              m,
              added-current key rows (record { key = c.key; entity_id = c.entity_id; current = v })
                  m at,
              le,
            )
    ]

after_calls-IsPast :
    (calls : List Call) (key : Text) (rows : List Counter) (n : ℕ)
    → IsPast key n rows
    → IsPast key n (after_calls calls rows)
unfolding after_calls
after_calls-IsPast [] key rows n past = past
after_calls-IsPast (c ∷ calls) key rows n past =
    after_calls-IsPast calls key (call_next c rows).1 n (call_next-IsPast c key rows n past)

-- A counter never gives a value twice: after a call, and any calls for any keys, a call for the same key gives
-- a larger value.
pub call_next_ascends :
    (c d : Call) (calls : List Call) (rows : List Counter)
    → c.key ≡ d.key
    → (call_next c rows).0 < (call_next d (after_calls calls (call_next c rows).1)).0
call_next_ascends c d calls rows same =
    let rows' = (call_next c rows).1 in
    let past : IsPast c.key (call_next c rows).0 rows' =
      ((call_next c rows).0, call_next-current c rows, omega arith) in
    call_next_rises d (after_calls calls rows') (call_next c rows).0 (
      subst (λ k. IsPast k (call_next c rows).0 (after_calls calls rows')) same
        (after_calls-IsPast calls c.key rows' (call_next c rows).0 past))
