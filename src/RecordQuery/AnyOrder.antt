-- ===== src/RecordQuery/AnyOrder.antt =====
-- FromValues ranges over a map: the order in which it visits the keys.
use mathlib.Core.List.{Permᴰ}
use dygo.Base.{
  List, [], ◌∷◌, Bool, false, Text, codes, ◌&&◌, text_eq, text_eq_comm, text_eq→≡, ≡→text_eq, ◌≡◌,
  refl, sym, ap, subst, ◌∙◌, ok, ◌>>=◌, Bool-cases, inl, inr, arith, All, bind-ok, ok-injective,
  if◌then◌else◌,
}
use dygo.RecordQuery.Defs.{
  Params, Values, get, first_value, pagination_from_values, apply_value, apply_values, from_values,
  sort_filters,
}
use dygo.RecordQuery.Unique.{All-Permᴰ, sort_filters-eq_of_perm}
use dygo.RecordQuery.Updates.{
  Update, run, Similar, Similar-self, Similar-trans, run-Similar, is_sort, run_comm, update_of,
  apply_value-update_of, update_of-is_sort,
}

abbrev pub IsOtherKey : Text × List Text → Text × List Text → Type 0
IsOtherKey a b = text_eq a.0 b.0 ≡ false

-- No key stands twice, as in a map.
abbrev pub AreKeys : Values → Type 0
AreKeys [] = Unit
AreKeys (a ∷ rest) = All (IsOtherKey a) rest × AreKeys rest

AreKeys-Permᴰ : (vs ws : Values) → Permᴰ vs ws → AreKeys vs → AreKeys ws
AreKeys-Permᴰ vs ws Permᴰ.nil k = tt
AreKeys-Permᴰ vs ws (Permᴰ.cons {b = b} {l₁ = l₁} {l₂ = l₂} e p) k = (
  All-Permᴰ (IsOtherKey b) p (subst (λ x. All (IsOtherKey x) l₁) e k.0),
  AreKeys-Permᴰ l₁ l₂ p k.1,
)
AreKeys-Permᴰ vs ws (Permᴰ.swap {a = a} {b = b} {a' = a'} {b' = b'} {l = l} e f) k = (
  (
    subst (λ x. IsOtherKey x b') f (subst (IsOtherKey b) e (text_eq_comm b.0 a.0 ∙ k.0.0)),
    subst (λ x. All (IsOtherKey x) l) f k.1.0,
  ),
  (subst (λ x. All (IsOtherKey x) l) e k.0.1, k.1.1),
)
AreKeys-Permᴰ vs ws (Permᴰ.trans {l₂ = us} p q) k = AreKeys-Permᴰ us ws q (AreKeys-Permᴰ vs us p k)

get_swap :
    (a b : Text × List Text) (l : Values) (name : Text)
    → IsOtherKey a b
    → get (a ∷ b ∷ l) name ≡ get (b ∷ a ∷ l) name
unfolding get
get_swap a b l name n = elim (Bool-cases (text_eq a.0 name)) [
  | inr e ↦ rw e refl
  | inl e ↦ elim (Bool-cases (text_eq b.0 name)) [
    | inr f ↦ rw (e, f) refl
    | inl f ↦
        let same : a.0 ≡ b.0 = text_eq→≡ a.0 name e ∙ sym (text_eq→≡ b.0 name f) in
        let bad = ≡→text_eq a.0 b.0 same in cc
  ]
]

get-Permᴰ : (vs ws : Values) (name : Text) → AreKeys vs → Permᴰ vs ws → get vs name ≡ get ws name
unfolding get
get-Permᴰ vs ws name k Permᴰ.nil = refl
get-Permᴰ vs ws name k (Permᴰ.cons {a = a} {b = b} {l₁ = l₁} {l₂ = l₂} e p) =
    ap (λ x. get (x ∷ l₁) name) e
    ∙ ap (λ (later : Text). if text_eq b.0 name then first_value b.1 else later)
        (get-Permᴰ l₁ l₂ name k.1 p)
get-Permᴰ vs ws name k (Permᴰ.swap {a = a} {b = b} {b' = b'} {l = l} e f) =
    get_swap a b l name k.0.0 ∙ ap (λ x. get (b ∷ x ∷ l) name) e ∙ ap (λ x. get (x ∷ b' ∷ l) name) f
get-Permᴰ vs ws name k (Permᴰ.trans {l₂ = us} p q) =
    get-Permᴰ vs us name k p ∙ get-Permᴰ us ws name (AreKeys-Permᴰ vs us p k) q

pagination_from_values-Permᴰ :
    (vs ws : Values)
    → AreKeys vs
    → Permᴰ vs ws
    → pagination_from_values vs ≡ pagination_from_values ws
unfolding pagination_from_values
pagination_from_values-Permᴰ vs ws k p =
    rw (get-Permᴰ vs ws (codes "limit") k p, get-Permᴰ vs ws (codes "offset") k p) refl

module _ (reserved : Text → Bool) where
  -- A key that is applied is an update, and an update applies to all parameters.
  update_of_applied :
      (a : Text × List Text) (p q : Params)
      → apply_value reserved a.0 a.1 p ≡ ok q
      → (u : Update) × (update_of reserved a.0 a.1 ≡ ok u) × (run u p ≡ q)
  update_of_applied a p q h =
      let (u, e, r) =
        bind-ok (update_of reserved a.0 a.1) (λ v. ok (run v p)) q
          (sym (apply_value-update_of reserved a.0 a.1 p) ∙ h) in
      (u, e, ok-injective (run u p) q r)

  applied :
      (a : Text × List Text) (u : Update) (p : Params)
      → update_of reserved a.0 a.1 ≡ ok u
      → apply_value reserved a.0 a.1 p ≡ ok (run u p)
  applied a u p e = apply_value-update_of reserved a.0 a.1 p ∙ ap (λ m. m >>= λ v. ok (run v p)) e

  apply_values-next :
      (a : Text × List Text) (rest : Values) (p m q : Params)
      → apply_value reserved a.0 a.1 p ≡ ok m
      → apply_values reserved rest m ≡ ok q
      → apply_values reserved (a ∷ rest) p ≡ ok q
  unfolding apply_values
  apply_values-next a rest p m q h k = ap (λ r. r >>= apply_values reserved rest) h ∙ k

  apply_values-first :
      (a : Text × List Text) (rest : Values) (p q : Params)
      → apply_values reserved (a ∷ rest) p ≡ ok q
      → (u : Update) × (update_of reserved a.0 a.1 ≡ ok u)
        × (apply_values reserved rest (run u p) ≡ ok q)
  unfolding apply_values
  apply_values-first a rest p q h =
      let (m, e, k) = bind-ok (apply_value reserved a.0 a.1 p) (apply_values reserved rest) q h in
      let (u, f, r) = update_of_applied a p m e in
      (u, f, subst (λ x. apply_values reserved rest x ≡ ok q) (sym r) k)

  -- A result that differs at most in the order of its filters.
  abbrev Reaches : Values → Params → Params → Type 0
  Reaches vs p q = (r : Params) × (apply_values reserved vs p ≡ ok r) × Similar q r

  apply_values-Similar :
      (vs : Values) (p p' q : Params)
      → Similar p p'
      → apply_values reserved vs p ≡ ok q
      → Reaches vs p' q
  unfolding apply_values
  apply_values-Similar [] p p' q s h = (p', refl, subst (λ x. Similar x p') (ok-injective p q h) s)
  apply_values-Similar (a ∷ rest) p p' q s h =
      let (u, e, k) = apply_values-first a rest p q h in
      let (r, f, t) = apply_values-Similar rest (run u p) (run u p') q (run-Similar u p p' s) k in
      (r, apply_values-next a rest p' (run u p') r (applied a u p' e) f, t)

  -- Of two keys, one is not `sort`.
  not_both_sort :
      (a b : Text × List Text) (u v : Update)
      → IsOtherKey a b
      → update_of reserved a.0 a.1 ≡ ok u
      → update_of reserved b.0 b.1 ≡ ok v
      → (is_sort u && is_sort v) ≡ false
  not_both_sort a b u v n e f = elim (Bool-cases (text_eq a.0 (codes "sort"))) [
    | inr s ↦ let x = update_of-is_sort reserved a.0 a.1 u e s in ground arith
    | inl s ↦ elim (Bool-cases (text_eq b.0 (codes "sort"))) [
      | inr t ↦ let x = update_of-is_sort reserved b.0 b.1 v f t in ground arith
      | inl t ↦
          let one : a.0 ≡ b.0 =
            text_eq→≡ a.0 (codes "sort") s ∙ sym (text_eq→≡ b.0 (codes "sort") t) in
          let bad = ≡→text_eq a.0 b.0 one in cc
    ]
  ]

  apply_values_swap :
      (a b : Text × List Text) (l : Values) (p q : Params)
      → IsOtherKey a b
      → apply_values reserved (a ∷ b ∷ l) p ≡ ok q
      → Reaches (b ∷ a ∷ l) p q
  apply_values_swap a b l p q n h =
      let (u, e, k) = apply_values-first a (b ∷ l) p q h in
      let (v, f, m) = apply_values-first b l (run u p) q k in
      let (r, g, s) =
        apply_values-Similar l (run v (run u p)) (run u (run v p)) q
          (run_comm u v p (not_both_sort a b u v n e f)) m in
      (
        r,
        apply_values-next b (a ∷ l) p (run v p) r (applied b v p f)
            (apply_values-next a l (run v p) (run u (run v p)) r (applied a u (run v p) e) g),
        s,
      )

  apply_values-Permᴰ :
      (vs ws : Values) (p q : Params)
      → AreKeys vs
      → Permᴰ vs ws
      → apply_values reserved vs p ≡ ok q
      → Reaches ws p q
  apply_values-Permᴰ vs ws p q k Permᴰ.nil h = (q, h, Similar-self q)
  apply_values-Permᴰ vs ws p q k (Permᴰ.cons {a = a} {b = b} {l₁ = l₁} {l₂ = l₂} e d) h =
      let (u, f, m) = apply_values-first a l₁ p q h in
      let (r, g, s) = apply_values-Permᴰ l₁ l₂ (run u p) q k.1 d m in
      subst (λ x. Reaches (x ∷ l₂) p q) e
        (r, apply_values-next a l₂ p (run u p) r (applied a u p f) g, s)
  apply_values-Permᴰ vs ws p q k (Permᴰ.swap {a = a} {b = b} {b' = b'} {l = l} e f) h =
      subst (λ x. Reaches (x ∷ b' ∷ l) p q) f
        (subst (λ x. Reaches (b ∷ x ∷ l) p q) e (apply_values_swap a b l p q k.0.0 h))
  apply_values-Permᴰ vs ws p q k (Permᴰ.trans {l₂ = us} d d') h =
      let (r, e, s) = apply_values-Permᴰ vs us p q k d h in
      let (r', f, t) = apply_values-Permᴰ us ws p r (AreKeys-Permᴰ vs us d k) d' e in
      (r', f, Similar-trans q r r' s t)

  abbrev finished : Params → Params
  finished q = record q { filters = sort_filters q.filters }

  finished-eq : (q r : Params) → Similar q r → finished q ≡ finished r
  finished-eq q r s i = record {
    limit = s.limit_eq i;
    offset = s.offset_eq i;
    filters = sort_filters-eq_of_perm q.filters r.filters s.filters_perm i;
    sort = s.sort_eq i;
  }

  -- The keys of a request are those of a map, which Go visits in no fixed order: a request that FromValues
  -- accepts in one order of its keys it accepts in every other, with the same parameters, down to
  -- the order of the filters.
  pub from_values_any_order :
      (vs ws : Values) (q : Params)
      → AreKeys vs
      → Permᴰ vs ws
      → from_values reserved vs ≡ ok q
      → from_values reserved ws ≡ ok q
  unfolding from_values
  from_values_any_order vs ws q k d h =
      let (p, e, m) = bind-ok (pagination_from_values vs) _ q h in
      let (x, f, n) = bind-ok (apply_values reserved vs p) (λ y. ok (finished y)) q m in
      let (y, g, s) = apply_values-Permᴰ vs ws p x k d f in
      let e' : pagination_from_values ws ≡ ok p =
        sym (pagination_from_values-Permᴰ vs ws k d) ∙ e in
      rw (e', g) (ap ok (sym (finished-eq x y s)) ∙ n)
