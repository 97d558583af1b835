-- ===== src/RecordQuery/Sorting.antt =====
-- What SortFilters returns.
use mathlib.Core.List.{Permᴰ}
use mathlib.Core.List.Permᴰ
use dygo.Base.{
  text_eq→≡, ≡→text_eq, ◌⊎◌, List, [], ◌∷◌, true, false, Text, text_lt, text_eq, ◌≡◌, refl, sym, ap,
  subst, ◌∙◌, Bool-cases, inl, inr, arith, All, All-imp,
}
use dygo.RecordQuery.Defs.{Filter, filter_before, insert_filter, sort_filters}

pub text_lt_trans : (s t u : Text) → text_lt s t ≡ true → text_lt t u ≡ true → text_lt s u ≡ true
unfolding text_lt
text_lt_trans s t [] h k = cc
text_lt_trans [] t (e ∷ u) h k = refl
text_lt_trans (c ∷ s) [] (e ∷ u) h k = cc
text_lt_trans (c ∷ s) (d ∷ t) (e ∷ u) h k = ground (arith, text_lt_trans s t u)

-- Texts of which neither comes before the other are one text.
text_lt_antisym : (s t : Text) → text_lt s t ≡ false → text_lt t s ≡ false → s ≡ t
unfolding text_lt
text_lt_antisym [] [] h k = refl
text_lt_antisym [] (d ∷ t) h k = cc
text_lt_antisym (c ∷ s) [] h k = cc
text_lt_antisym (c ∷ s) (d ∷ t) h k =
    let e : c ≡ d = ground arith in
    let f : s ≡ t = text_lt_antisym s t (ground arith) (ground arith) in
    ap (λ x. x ∷ s) e ∙ ap (λ x. d ∷ x) f

-- The order that the comment on SortFilters names: by field, then by operator, then by value.
pub data IsUpTo : Filter → Filter → Type 0 where
  by_field : {f g : Filter} → text_lt f.field g.field ≡ true → IsUpTo f g
  by_operator :
      {f g : Filter} → f.field ≡ g.field → text_lt f.operator g.operator ≡ true → IsUpTo f g
  by_value :
      {f g : Filter}
      → f.field ≡ g.field
      → f.operator ≡ g.operator
      → text_lt f.value g.value ≡ true
      → IsUpTo f g
  same : {f g : Filter} → f ≡ g → IsUpTo f g

filter_ext :
    (f g : Filter) → f.field ≡ g.field → f.operator ≡ g.operator → f.value ≡ g.value → f ≡ g
filter_ext f g p q r i = record { field = p i; operator = q i; value = r i }

before-IsUpTo : (f g : Filter) → filter_before f g ≡ true → IsUpTo f g
unfolding filter_before
before-IsUpTo f g h = elim (Bool-cases (text_eq f.field g.field)) [
  | inr e ↦ by_field (ground arith)
  | inl e ↦ elim (Bool-cases (text_eq f.operator g.operator)) [
    | inr o ↦ by_operator (text_eq→≡ f.field g.field e) (ground arith)
    | inl o ↦
        by_value (text_eq→≡ f.field g.field e) (text_eq→≡ f.operator g.operator o) (ground arith)
  ]
]

-- Of texts, one comes before the other, or they are one text.
text_lt_cases : (s t : Text) → text_lt s t ≡ false → (s ≡ t) ⊎ (text_lt t s ≡ true)
text_lt_cases s t h = elim (Bool-cases (text_lt t s)) [
  | inl e ↦ inr e
  | inr e ↦ inl (text_lt_antisym s t h e)
]

not_before-IsUpTo : (f g : Filter) → filter_before f g ≡ false → IsUpTo g f
unfolding filter_before
not_before-IsUpTo f g h = elim (Bool-cases (text_eq f.field g.field)) [
  | inr e ↦ elim (text_lt_cases f.field g.field (ground arith)) [
    | inl q ↦ let bad = ≡→text_eq f.field g.field q in cc
    | inr q ↦ by_field q
  ]
  | inl e ↦
      let same_field = sym (text_eq→≡ f.field g.field e) in
      elim (Bool-cases (text_eq f.operator g.operator)) [
        | inr o ↦ elim (text_lt_cases f.operator g.operator (ground arith)) [
          | inl q ↦ let bad = ≡→text_eq f.operator g.operator q in cc
          | inr q ↦ by_operator same_field q
        ]
        | inl o ↦
            let same_operator = sym (text_eq→≡ f.operator g.operator o) in
            elim (text_lt_cases f.value g.value (ground arith)) [
              | inl q ↦ same (filter_ext g f same_field same_operator (sym q))
              | inr q ↦ by_value same_field same_operator q
            ]
      ]
]

IsUpTo-trans : (f g h : Filter) → IsUpTo f g → IsUpTo g h → IsUpTo f h
IsUpTo-trans f g h (same p) b = subst (λ x. IsUpTo x h) (sym p) b
IsUpTo-trans f g h a (same q) = subst (IsUpTo f) q a
IsUpTo-trans f g h (by_field a) (by_field b) = by_field (text_lt_trans f.field g.field h.field a b)
IsUpTo-trans f g h (by_field a) (by_operator q b) =
    by_field (subst (λ x. text_lt f.field x ≡ true) q a)
IsUpTo-trans f g h (by_field a) (by_value q r b) =
    by_field (subst (λ x. text_lt f.field x ≡ true) q a)
IsUpTo-trans f g h (by_operator p a) (by_field b) =
    by_field (subst (λ x. text_lt x h.field ≡ true) (sym p) b)
IsUpTo-trans f g h (by_operator p a) (by_operator q b) =
    by_operator (p ∙ q) (text_lt_trans f.operator g.operator h.operator a b)
IsUpTo-trans f g h (by_operator p a) (by_value q r b) =
    by_operator (p ∙ q) (subst (λ x. text_lt f.operator x ≡ true) r a)
IsUpTo-trans f g h (by_value p o a) (by_field b) =
    by_field (subst (λ x. text_lt x h.field ≡ true) (sym p) b)
IsUpTo-trans f g h (by_value p o a) (by_operator q b) =
    by_operator (p ∙ q) (subst (λ x. text_lt x h.operator ≡ true) (sym o) b)
IsUpTo-trans f g h (by_value p o a) (by_value q r b) =
    by_value (p ∙ q) (o ∙ r) (text_lt_trans f.value g.value h.value a b)

-- Each filter is up to all that follow it.
abbrev pub IsSorted : List Filter → Type 0
IsSorted [] = Unit
IsSorted (f ∷ fs) = All (IsUpTo f) fs × IsSorted fs

All-insert_filter {ℓ} :
    (P : Filter → Type ℓ) (f : Filter) (gs : List Filter)
    → P f
    → All P gs
    → All P (insert_filter f gs)
unfolding insert_filter
All-insert_filter P f [] p a = (p, tt)
All-insert_filter P f (g ∷ gs) p a = elim (Bool-cases (filter_before g f)) [
  | inl e ↦ rw e (a.0, All-insert_filter P f gs p a.1)
  | inr e ↦ rw e (p, a)
]

insert_filter-IsSorted :
    (f : Filter) (gs : List Filter) → IsSorted gs → IsSorted (insert_filter f gs)
unfolding insert_filter
insert_filter-IsSorted f [] s = (tt, tt)
insert_filter-IsSorted f (g ∷ gs) s = elim (Bool-cases (filter_before g f)) [
  | inl e ↦
      rw e (
        All-insert_filter (IsUpTo g) f gs (before-IsUpTo g f e) s.0,
        insert_filter-IsSorted f gs s.1,
      )
  | inr e ↦
      let first = not_before-IsUpTo g f e in
      rw e ((first, All-imp (IsUpTo g) (IsUpTo f) gs (λ h. IsUpTo-trans f g h first) s.0), s)
]

insert_filter-perm : (f : Filter) (gs : List Filter) → Permᴰ (f ∷ gs) (insert_filter f gs)
unfolding insert_filter
insert_filter-perm f [] = Permᴰ.refl (f ∷ [])
insert_filter-perm f (g ∷ gs) = elim (Bool-cases (filter_before g f)) [
  | inl e ↦ rw e (Permᴰ.trans (Permᴰ.swap refl refl) (Permᴰ.cons refl (insert_filter-perm f gs)))
  | inr e ↦ rw e (Permᴰ.refl (f ∷ g ∷ gs))
]

-- SortFilters permutes its filters, and of any two the one that is left before the other comes before it
-- by field, then by operator, then by value, or is the same filter.
pub sort_filters_lem : (fs : List Filter) → IsSorted (sort_filters fs) × Permᴰ fs (sort_filters fs)
unfolding sort_filters
sort_filters_lem [] = (tt, Permᴰ.nil)
sort_filters_lem (f ∷ fs) =
    let (s, p) = sort_filters_lem fs in
    (
      insert_filter-IsSorted f (sort_filters fs) s,
      Permᴰ.trans (Permᴰ.cons refl p) (insert_filter-perm f (sort_filters fs)),
    )
