-- ===== src/AppOrder/Rounds.antt =====
-- The loop over the Apps that are ready.
use dygo.Base.{
  text_eq_comm, NoRepeat, Text, List, [], ◌∷◌, ◌++◌, Bool, true, false, ◌&&◌, ◌||◌, text_eq,
  text_eq_refl, text_eq→≡, contains_text, if◌then◌else◌, Memᴰ, All, ◌≡◌, refl, ap, subst, ◌∙◌,
  Bool-cases, inl, inr, arith,
}
use dygo.AppOrder.Defs.{LoadedApp, Run, names, down, is_zero, lower, release, app_named}
use dygo.AppOrder.Sets.{apart, NoRepeat-concat, contains-append}

-- What `release` does to the degrees and to the Apps that are ready.
pub release-degree :
    (ds : List Text) (s : Run) (x : Text)
    → NoRepeat ds
    → (release ds s).degree x ≡ (if contains_text ds x then down (s.degree x) else s.degree x)
unfolding release contains_text
release-degree [] s x n = refl
release-degree (d ∷ ds) s x n = elim (Bool-cases (text_eq d x)) [
  | inl e ↦
      let q = text_eq→≡ d x e in
      let out : contains_text ds x ≡ false = subst (λ u. contains_text ds u ≡ false) q n.0 in
      release-degree ds (lower d s) x n.1
      ∙ rw (e, out, text_eq_comm x d, e) (ap (λ u. down (s.degree u)) q)
  | inr e ↦ release-degree ds (lower d s) x n.1 ∙ rw (e, text_eq_comm x d, e) refl
]

pub release-ready :
    (ds : List Text) (s : Run) (x : Text)
    → NoRepeat ds
    → contains_text (release ds s).ready x
      ≡ (contains_text s.ready x || (contains_text ds x && is_zero (down (s.degree x))))
unfolding release contains_text
release-ready [] s x n = ground arith
release-ready (d ∷ ds) s x n =
    release-ready ds (lower d s) x n.1 ∙ (elim (Bool-cases (text_eq d x)) [
      | inl e ↦
          let q = text_eq→≡ d x e in
          let out : contains_text ds x ≡ false = subst (λ u. contains_text ds u ≡ false) q n.0 in
          subst
            (λ u.
              (contains_text (lower d s).ready u
                || (contains_text ds u && is_zero (down ((lower d s).degree u))))
              ≡ (contains_text s.ready u
                  || ((text_eq d u || contains_text ds u) && is_zero (down (s.degree u)))))
            q (ground (arith, contains-append s.ready (d ∷ []) d, text_eq_refl d, n.0))
      | inr e ↦ ground (arith, contains-append s.ready (d ∷ []) x, text_eq_comm x d)
    ])

pub release-NoRepeat :
    (ds : List Text) (s : Run)
    → NoRepeat ds
    → NoRepeat s.ready
    → ((x : Text) → contains_text ds x ≡ true → contains_text s.ready x ≡ false)
    → NoRepeat (release ds s).ready
unfolding release contains_text
release-NoRepeat [] s n r h = r
release-NoRepeat (d ∷ ds) s n r h = release-NoRepeat ds (lower d s) n.1 lowered (λ x m. stays x m)
  where
    mine : contains_text s.ready d ≡ false
    mine = h d (rw (text_eq_refl d) refl)

    lowered : NoRepeat (lower d s).ready
    lowered = elim (Bool-cases (is_zero (down (s.degree d)))) [
      | inl z ↦ rw z (NoRepeat-concat s.ready d r mine)
      | inr z ↦ rw z r
    ]

    stays : (x : Text) → contains_text ds x ≡ true → contains_text (lower d s).ready x ≡ false
    stays x m =
        let e = apart ds d x n.0 m in
        let out = h x (rw e m) in ground (arith, contains-append s.ready (d ∷ []) x)

pub release-ordered : (ds : List Text) (s : Run) → (release ds s).ordered ≡ s.ordered
unfolding release
release-ordered [] s = refl
release-ordered (d ∷ ds) s = release-ordered ds (lower d s)

pub app_named-listed :
    (apps : List LoadedApp) (name : Text)
    → contains_text (names apps) name ≡ true
    → Memᴰ (app_named apps name) apps × ((app_named apps name).name ≡ name)
unfolding contains_text
app_named-listed [] name h = cc
app_named-listed (a ∷ rest) name h = elim (Bool-cases (text_eq a.name name)) [
  | inl e ↦ rw (app_named, e) (Memᴰ.head refl, text_eq→≡ a.name name e)
  | inr e ↦
      let (m, q) = app_named-listed rest name (ground arith) in rw (app_named, e) (Memᴰ.tail m, q)
]

-- Each App comes after those that it depends on.
abbrev pub InOrder : List Text → List LoadedApp → Type 0
InOrder before [] = Unit
InOrder before (a ∷ rest) =
    All (λ d. contains_text before d ≡ true) a.dependencies × InOrder (a.name ∷ before) rest

All_of_contains :
    (P : Text → Bool) (ds : List Text)
    → ((d : Text) → contains_text ds d ≡ true → P d ≡ true)
    → All (λ d. P d ≡ true) ds
unfolding contains_text
All_of_contains P [] h = tt
All_of_contains P (d ∷ ds) h =
    (h d (rw (text_eq_refl d) refl), All_of_contains P ds (λ e m. h e (ground arith)))

pub InOrder-concat :
    (before : List Text) (xs : List LoadedApp) (a : LoadedApp)
    → InOrder before xs
    → ((d : Text)
        → contains_text a.dependencies d ≡ true
        → (contains_text before d || contains_text (names xs) d) ≡ true)
    → InOrder before (xs ++ a ∷ [])
unfolding contains_text
InOrder-concat before [] a o h =
    (All_of_contains (contains_text before) a.dependencies (λ d m. ground (arith, h d)), tt)
InOrder-concat before (x ∷ xs) a o h =
    (o.0, InOrder-concat (x.name ∷ before) xs a o.1 (λ d m. ground (arith, h d)))
