-- ===== src/AppOrder/Edges.antt =====
-- The graph that the Apps' dependencies make.
use dygo.Base.{
  text_eq_comm, NoRepeat, tally, Text, List, [], ◌∷◌, Bool, true, false, ◌&&◌, ◌||◌, any, text_eq,
  text_eq_refl, text_eq→≡, ≡→text_eq, contains_text, trim_space, is_empty, OnOk, OnOk-bind,
  OnOk-imp, OnOk-ok, ◌≡◌, refl, sym, ap, subst, ◌∙◌, Bool-cases, inl, inr, arith, pos,
}
use dygo.AppOrder.Defs.{
  LoadedApp, Graph, names, check_names, connect, add_dependencies, add_apps, empty_graph,
}
use dygo.AppOrder.Sets.{
  apart, NoRepeat-concat, contains-append, tally_ext, tally_one_more, tally_none,
}

-- Some App has the name and the dependency.
abbrev pub edge : List LoadedApp → Text → Text → Bool
edge apps x d = any (λ (a : LoadedApp). text_eq a.name x && contains_text a.dependencies d) apps

-- `keys` are the names of all Apps. The degree of an App counts the Apps that it is a dependent of.
pub record IsCounted (keys : List Text) (g : Graph) : Type 0 where
  pub degree_eq : (x : Text) → g.degree x ≡ pos (tally (λ d. contains_text (g.dependents d) x) keys)
  pub no_repeat : (d : Text) → NoRepeat (g.dependents d)

contains-connect :
    (name d : Text) (g : Graph) (x e : Text)
    → contains_text ((connect name d g).dependents e) x
      ≡ (contains_text (g.dependents e) x || (text_eq d e && text_eq name x))
unfolding contains_text
contains-connect name d g x e =
    ground (arith, text_eq_comm e d, contains-append (g.dependents e) (name ∷ []) x)

connect-IsCounted :
    (keys : List Text) (name d : Text) (g : Graph)
    → NoRepeat keys
    → contains_text keys d ≡ true
    → contains_text (g.dependents d) name ≡ false
    → IsCounted keys g
    → IsCounted keys (connect name d g)
connect-IsCounted keys name d g n k fresh c = record {
  degree_eq = degree_eq;
  no_repeat = no_repeat;
}
  where
    p : Text → Text → Bool
    p x e = contains_text (g.dependents e) x

    q : Text → Text → Bool
    q x e = contains_text ((connect name d g).dependents e) x

    degree_eq : (x : Text) → (connect name d g).degree x ≡ pos (tally (q x) keys)
    degree_eq x = elim (Bool-cases (text_eq x name)) [
      | inl e ↦
          let s : name ≡ x = sym (text_eq→≡ x name e) in
          let one =
            tally_one_more (p x) (q x) d keys
              (λ t. contains-connect name d g x t ∙ ground (arith, ≡→text_eq name x s))
              (subst (λ u. contains_text (g.dependents d) u ≡ false) s fresh) n k in
          rw (e, c.degree_eq x, one) refl
      | inr e ↦
          let same =
            tally_ext (q x) (p x) keys
              (λ t. contains-connect name d g x t ∙ ground (arith, text_eq_comm name x)) in
          rw (e, c.degree_eq x, same) refl
    ]

    no_repeat : (e : Text) → NoRepeat ((connect name d g).dependents e)
    no_repeat e = elim (Bool-cases (text_eq e d)) [
      | inl h ↦
          let s : d ≡ e = sym (text_eq→≡ e d h) in
          rw h (
            NoRepeat-concat (g.dependents e) name (c.no_repeat e)
              (subst (λ u. contains_text (g.dependents u) name ≡ false) s fresh))
      | inr h ↦ rw h (c.no_repeat e)
    ]

-- The graph holds the edges `has`, each to a known App.
pub record IsGraphOf (keys : List Text) (has : Text → Text → Bool) (g : Graph) : Type 0 where
  pub counted : IsCounted keys g
  pub edge_eq : (x d : Text) → contains_text (g.dependents d) x ≡ has x d
  pub known : (x d : Text) → has x d ≡ true → contains_text keys d ≡ true

IsGraphOf-ext :
    (keys : List Text) (has has' : Text → Text → Bool) (g : Graph)
    → ((x d : Text) → has' x d ≡ has x d)
    → IsGraphOf keys has g
    → IsGraphOf keys has' g
IsGraphOf-ext keys has has' g e h = record {
  counted = h.counted;
  edge_eq = λ x d. h.edge_eq x d ∙ sym (e x d);
  known = λ x d t. h.known x d (sym (e x d) ∙ t);
}

module _ (keys : List Text) (n : NoRepeat keys) (old : Text → Text → Bool) (name : Text)
    (fresh : (d : Text) → old name d ≡ false) where
  -- The edges of the Apps before, and those of this App to the texts that pass the test.
  abbrev with_edges : (Text → Bool) → Text → Text → Bool
  with_edges to x d = old x d || (text_eq name x && to d)

  connect-IsGraphOf :
      (seen : List Text) (d : Text) (g : Graph)
      → contains_text keys d ≡ true
      → contains_text seen d ≡ false
      → IsGraphOf keys (with_edges (contains_text seen)) g
      → IsGraphOf keys (with_edges (contains_text (d ∷ seen))) (connect name d g)
  unfolding contains_text
  connect-IsGraphOf seen d g k new h = record {
    counted =
        connect-IsCounted keys name d g n k (h.edge_eq name d ∙ rw (fresh d, text_eq_refl name) new)
          h.counted;
    edge_eq = λ x e. contains-connect name d g x e ∙ ground (arith, h.edge_eq x e);
    known = λ x e t. known x e t;
  }
    where
      known :
          (x e : Text)
          → with_edges (contains_text (d ∷ seen)) x e ≡ true
          → contains_text keys e ≡ true
      known x e t = elim (Bool-cases (text_eq d e)) [
        | inl q ↦ subst (λ u. contains_text keys u ≡ true) (text_eq→≡ d e q) k
        | inr q ↦ h.known x e (ground arith)
      ]

  skipped :
      (seen ds : List Text) (d e : Text)
      → contains_text seen d ≡ true
      → (contains_text seen e || contains_text (d ∷ ds) e)
        ≡ (contains_text seen e || contains_text ds e)
  unfolding contains_text
  skipped seen ds d e h = elim (Bool-cases (text_eq d e)) [
    | inl q ↦
        subst
          (λ u.
            (contains_text seen u || contains_text (d ∷ ds) u)
            ≡ (contains_text seen u || contains_text ds u))
          (text_eq→≡ d e q) (rw h refl)
    | inr q ↦ rw q refl
  ]

  add_dependencies-IsGraphOf :
      (seen ds : List Text) (g : Graph)
      → IsGraphOf keys (with_edges (contains_text seen)) g
      → OnOk
          (IsGraphOf keys (with_edges (λ d. contains_text seen d || contains_text ds d)))
          (add_dependencies (contains_text keys) name seen ds g)
  unfolding add_dependencies contains_text
  add_dependencies-IsGraphOf seen [] g h =
      IsGraphOf-ext keys (with_edges (contains_text seen)) _ g (λ x d. ground arith) h
  add_dependencies-IsGraphOf seen (d ∷ ds) g h = elim (Bool-cases (contains_text keys d)) [
    | inr k ↦ rw k tt
    | inl k ↦ elim (Bool-cases (contains_text seen d)) [
      | inl s ↦
          rw (k, s)
            (OnOk-imp
              (IsGraphOf keys (with_edges (λ e. contains_text seen e || contains_text ds e))) _ _
              (λ g' p.
                IsGraphOf-ext keys (with_edges (λ e. contains_text seen e || contains_text ds e)) _
                  g' (λ x e. ap (λ b. old x e || (text_eq name x && b)) (skipped seen ds d e s)) p)
              (add_dependencies-IsGraphOf seen ds g h))
      | inr s ↦
          rw (k, s)
            (OnOk-imp
              (IsGraphOf keys (with_edges (λ e. contains_text (d ∷ seen) e || contains_text ds e)))
              _ _
              (λ g' p.
                IsGraphOf-ext keys
                  (with_edges (λ e. contains_text (d ∷ seen) e || contains_text ds e)) _ g'
                  (λ x e. ground arith) p)
              (add_dependencies-IsGraphOf (d ∷ seen) ds (connect name d g)
                (connect-IsGraphOf seen d g k s h)))
    ]
  ]

module _ (keys : List Text) (n : NoRepeat keys) where
  pub add_apps-IsGraphOf :
      (old : Text → Text → Bool) (rest : List LoadedApp) (g : Graph)
      → NoRepeat (names rest)
      → ((x : Text) → contains_text (names rest) x ≡ true → (d : Text) → old x d ≡ false)
      → IsGraphOf keys old g
      → OnOk
          (IsGraphOf keys (λ x d. old x d || edge rest x d))
          (add_apps (contains_text keys) rest g)
  unfolding add_apps contains_text
  add_apps-IsGraphOf old [] g r f h = IsGraphOf-ext keys old _ g (λ x d. ground arith) h
  add_apps-IsGraphOf old (a ∷ rest) g r f h =
      let mine : (d : Text) → old a.name d ≡ false = f a.name (rw (text_eq_refl a.name) refl) in
      let next =
        with_edges keys n old a.name mine
          (λ d. contains_text [] d || contains_text a.dependencies d) in
      let started =
        IsGraphOf-ext keys old (with_edges keys n old a.name mine (contains_text [])) g
          (λ x d. ground arith) h in
      OnOk-bind (IsGraphOf keys (λ x d. old x d || edge (a ∷ rest) x d))
        (add_dependencies (contains_text keys) a.name [] a.dependencies g)
        (add_apps (contains_text keys) rest)
        λ g' e.
          OnOk-imp (IsGraphOf keys (λ x d. next x d || edge rest x d)) _
            (add_apps (contains_text keys) rest g')
            (λ g'' p.
              IsGraphOf-ext keys (λ x d. next x d || edge rest x d) _ g'' (λ x d. ground arith) p)
            (add_apps-IsGraphOf next rest g' r.1 (λ x m d. later x m d)
              (OnOk-ok (IsGraphOf keys next) _
                (add_dependencies-IsGraphOf keys n old a.name mine [] a.dependencies g started) e))
    where
      later :
          (x : Text)
          → contains_text (names rest) x ≡ true
          → (d : Text)
          → (old x d
              || (text_eq a.name x && (contains_text [] d || contains_text a.dependencies d)))
            ≡ false
      later x m d =
          let other : text_eq a.name x ≡ false = apart (names rest) a.name x r.0 m in
          rw other (ground (arith, f x (ground arith) d))

abbrev pub AreNamed : List Text → List LoadedApp → Type 0
AreNamed seen apps =
    NoRepeat (names apps)
    × ((t : Text) → contains_text (names apps) t ≡ true → contains_text seen t ≡ false)

pub check_names-AreNamed :
    (seen : List Text) (apps : List LoadedApp)
    → OnOk (λ _. AreNamed seen apps) (check_names seen apps)
unfolding check_names contains_text
check_names-AreNamed seen [] = (tt, λ t m. absurd_bool m)
  where
    absurd_bool : {A : Type 0} → ◌≡◌ {A = Bool} false true → A
    absurd_bool h = cc
check_names-AreNamed seen (a ∷ rest) = elim (Bool-cases (is_empty (trim_space a.name))) [
  | inl e ↦ rw e tt
  | inr e ↦ elim (Bool-cases (contains_text seen a.name)) [
    | inl s ↦ rw (e, s) tt
    | inr s ↦
        rw (e, s)
          (OnOk-imp (λ _. AreNamed (a.name ∷ seen) rest) (λ _. AreNamed seen (a ∷ rest))
            (check_names (a.name ∷ seen) rest)
            (λ u h. (
              (
                elim (Bool-cases (contains_text (names rest) a.name)) [
                  | inl m ↦ let bad = h.1 a.name m in let one = text_eq_refl a.name in cc
                  | inr m ↦ m
                ],
                h.0,
              ),
              λ t m. member t m s h.1,
            ))
            (check_names-AreNamed (a.name ∷ seen) rest))
  ]
]
  where
    member :
        (t : Text)
        → (text_eq a.name t || contains_text (names rest) t) ≡ true
        → contains_text seen a.name ≡ false
        → ((u : Text)
            → contains_text (names rest) u ≡ true
            → (text_eq a.name u || contains_text seen u) ≡ false)
        → contains_text seen t ≡ false
    member t m s h = elim (Bool-cases (text_eq a.name t)) [
      | inl q ↦ subst (λ u. contains_text seen u ≡ false) (text_eq→≡ a.name t q) s
      | inr q ↦ ground (arith, h t)
    ]

pub empty_graph-IsGraphOf : (keys : List Text) → IsGraphOf keys (λ _ _. false) empty_graph
unfolding contains_text
empty_graph-IsGraphOf keys = record {
  counted = record {
    degree_eq = λ x. ap pos (sym (tally_none (λ _. false) keys (λ t m. refl)));
    no_repeat = λ d. tt;
  };
  edge_eq = λ x d. refl;
  known = λ x d t. cc;
}
