-- ===== src/RecordQuery/Updates.antt =====
-- What one key of the request does to the parameters, apart from the parameters that it finds.
use mathlib.Core.List.{Permᴰ, append_assoc}
use mathlib.Core.List.Permᴰ
use dygo.Base.{
  List, ◌++◌, Bool, true, false, Text, codes, ◌||◌, text_eq, ◌≡◌, refl, sym, ap, subst, ◌∙◌, Result,
  ok, err, ◌>>=◌, Bool-cases, inl, inr, if◌then◌else◌, ok-injective, ◌&&◌,
}
use dygo.RecordQuery.Defs.{
  Filter, Sort, Params, Error, reserved_query, filters_of, sort_of, apply_value,
}

pub data Update : Type 0 where
  skipped : Update
  sorted : List Sort → Update
  filtered : List Filter → Update

abbrev pub run : Update → Params → Params
run skipped p = p
run (sorted terms) p = record p { sort = terms }
run (filtered fs) p = record p { filters = p.filters ++ fs }

-- The same limit, offset and sort, and the same filters in some order.
pub record Similar (p q : Params) : Type 0 where
  pub limit_eq : p.limit ≡ q.limit
  pub offset_eq : p.offset ≡ q.offset
  pub sort_eq : p.sort ≡ q.sort
  pub filters_perm : Permᴰ p.filters q.filters

pub Similar-self : (p : Params) → Similar p p
Similar-self p = record {
  limit_eq = refl;
  offset_eq = refl;
  sort_eq = refl;
  filters_perm = Permᴰ.refl p.filters;
}

pub Similar-trans : (p q r : Params) → Similar p q → Similar q r → Similar p r
Similar-trans p q r h k = record {
  limit_eq = h.limit_eq ∙ k.limit_eq;
  offset_eq = h.offset_eq ∙ k.offset_eq;
  sort_eq = h.sort_eq ∙ k.sort_eq;
  filters_perm = Permᴰ.trans h.filters_perm k.filters_perm;
}

pub run-Similar : (u : Update) (p q : Params) → Similar p q → Similar (run u p) (run u q)
run-Similar skipped p q h = h
run-Similar (sorted terms) p q h = record {
  limit_eq = h.limit_eq;
  offset_eq = h.offset_eq;
  sort_eq = refl;
  filters_perm = h.filters_perm;
}
run-Similar (filtered fs) p q h = record {
  limit_eq = h.limit_eq;
  offset_eq = h.offset_eq;
  sort_eq = h.sort_eq;
  filters_perm = Permᴰ.append_right fs h.filters_perm;
}

abbrev pub is_sort : Update → Bool
is_sort (sorted terms) = true
is_sort u = false

-- Two updates of which one leaves the sort alone may change places.
pub run_comm :
    (u v : Update) (p : Params)
    → (is_sort u && is_sort v) ≡ false
    → Similar (run v (run u p)) (run u (run v p))
run_comm skipped v p h = Similar-self (run v p)
run_comm (sorted s) skipped p h = Similar-self (run (sorted s) p)
run_comm (sorted s) (sorted t) p h = cc
run_comm (sorted s) (filtered gs) p h = Similar-self (run (filtered gs) (run (sorted s) p))
run_comm (filtered fs) skipped p h = Similar-self (run (filtered fs) p)
run_comm (filtered fs) (sorted t) p h = Similar-self (run (filtered fs) (run (sorted t) p))
run_comm (filtered fs) (filtered gs) p h = record {
  limit_eq = refl;
  offset_eq = refl;
  sort_eq = refl;
  filters_perm =
      subst (λ xs. Permᴰ xs ((p.filters ++ gs) ++ fs)) (sym (append_assoc p.filters fs gs))
        (subst (Permᴰ (p.filters ++ (fs ++ gs))) (sym (append_assoc p.filters gs fs))
          (Permᴰ.append_left p.filters (Permᴰ.append_comm fs gs)));
}

module _ (reserved : Text → Bool) where
  -- What one round of the loop of FromValues does, as an update.
  abbrev pub update_of : Text → List Text → Result Error Update
  update_of name vs =
      if text_eq name (codes "limit") || text_eq name (codes "offset")
      then ok skipped
      else if text_eq name (codes "sort")
      then sort_of vs >>= (λ terms. ok (sorted terms))
      else if reserved name
      then err reserved_query
      else filters_of reserved name vs >>= (λ fs. ok (filtered fs))

  abbrev runs_to : Params → Result Error Update → Result Error Params
  runs_to p m = m >>= λ u. ok (run u p)

  sorted-runs :
      (p : Params) (m : Result Error (List Sort))
      → (m >>= λ terms. ok (record p { sort = terms }))
        ≡ runs_to p (m >>= λ terms. ok (sorted terms))
  sorted-runs p (ok terms) = refl
  sorted-runs p (err e) = refl

  filtered-runs :
      (p : Params) (m : Result Error (List Filter))
      → (m >>= λ fs. ok (record p { filters = p.filters ++ fs }))
        ≡ runs_to p (m >>= λ fs. ok (filtered fs))
  filtered-runs p (ok fs) = refl
  filtered-runs p (err e) = refl

  pub apply_value-update_of :
      (name : Text) (vs : List Text) (p : Params)
      → apply_value reserved name vs p ≡ (update_of name vs >>= λ u. ok (run u p))
  unfolding apply_value
  apply_value-update_of name vs p =
      elim (Bool-cases (text_eq name (codes "limit") || text_eq name (codes "offset"))) [
        | inl a ↦ rw a refl
        | inr a ↦ rw a (elim (Bool-cases (text_eq name (codes "sort"))) [
          | inl b ↦ rw b (sorted-runs p (sort_of vs))
          | inr b ↦ rw b (elim (Bool-cases (reserved name)) [
            | inl c ↦ rw c refl
            | inr c ↦ rw c (filtered-runs p (filters_of reserved name vs))
          ])
        ])
      ]

  filtered-is_sort :
      (m : Result Error (List Filter)) (u : Update)
      → (m >>= λ fs. ok (filtered fs)) ≡ ok u
      → is_sort u ≡ false
  filtered-is_sort (err e) u h = cc
  filtered-is_sort (ok fs) u h = ap is_sort (sym (ok-injective (filtered fs) u h))

  -- Only the key `sort` sets the sort.
  pub update_of-is_sort :
      (name : Text) (vs : List Text) (u : Update)
      → update_of name vs ≡ ok u
      → text_eq name (codes "sort") ≡ false
      → is_sort u ≡ false
  update_of-is_sort name vs u h n =
      elim (Bool-cases (text_eq name (codes "limit") || text_eq name (codes "offset"))) [
        | inl a ↦
            let k : ◌≡◌ {A = Result Error Update} (ok skipped) (ok u) = rw (update_of, a) at h in
            ap is_sort (sym (ok-injective skipped u k))
        | inr a ↦ elim (Bool-cases (reserved name)) [
          | inl c ↦
              let k : ◌≡◌ {A = Result Error Update} (err reserved_query) (ok u) =
                rw (update_of, a, n, c) at h in
              cc
          | inr c ↦ filtered-is_sort (filters_of reserved name vs) u (rw (update_of, a, n, c) at h)
        ]
      ]
