-- ===== src/AppOrder/Loop.antt =====
-- What holds at the head of the loop, and how many rounds it takes.
use dygo.Base.{
  NoRepeat, tally, ℕ, suc, Text, List, [], ◌∷◌, ◌++◌, Bool, true, false, not, ◌&&◌, ◌||◌, mem→any,
  text_eq, text_eq_refl, text_eq→≡, ≡→text_eq, contains_text, if◌then◌else◌, Memᴰ, All, All-append,
  length, length-append, ◌≡◌, refl, sym, ap, subst, ◌∙◌, Bool-cases, inl, inr, arith, pos,
}
use dygo.AppOrder.Defs.{
  LoadedApp, Graph, Run, names, down, is_zero, release, sort_texts, take_app, app_named,
}
use dygo.AppOrder.Sets.{
  NoRepeat-concat, NoRepeat-sort, contains-append, contains-sort, tally_ext, tally_one_more,
  tally-zero,
}
use dygo.AppOrder.Edges.{edge, IsGraphOf}
use dygo.AppOrder.Rounds.{
  release-degree, release-ready, release-NoRepeat, release-ordered, app_named-listed, InOrder,
  InOrder-concat,
}

abbrev pub done : Run → List Text
done s = names s.ordered

-- The dependencies of `x` that were not taken yet.
abbrev pub waits : Graph → List Text → Text → Text → Bool
waits g taken x d = contains_text (g.dependents d) x && not (contains_text taken d)

pub record IsRun (apps : List LoadedApp) (g : Graph) (s : Run) : Type 0 where
  pub degree_eq : (x : Text) → s.degree x ≡ pos (tally (waits g (done s) x) (names apps))
  pub ready_eq :
      (x : Text)
      → contains_text s.ready x
        ≡ (contains_text (names apps) x && (not (contains_text (done s) x) && is_zero (s.degree x)))
  pub ready_once : NoRepeat s.ready
  pub done_once : NoRepeat (done s)
  pub done_known :
      (x : Text) → contains_text (done s) x ≡ true → contains_text (names apps) x ≡ true
  pub done_closed :
      (x d : Text)
      → contains_text (done s) x ≡ true
      → contains_text (g.dependents d) x ≡ true
      → contains_text (done s) d ≡ true
  pub listed : All (λ a. Memᴰ a apps) s.ordered
  pub in_order : InOrder [] s.ordered

pub names-append : (xs ys : List LoadedApp) → names (xs ++ ys) ≡ names xs ++ names ys
names-append [] ys = refl
names-append (x ∷ xs) ys = ap (λ ns. x.name ∷ ns) (names-append xs ys)

-- An edge comes from an App of the list.
edge-known :
    (apps : List LoadedApp) (x d : Text)
    → edge apps x d ≡ true
    → contains_text (names apps) x ≡ true
unfolding contains_text
edge-known [] x d h = cc
edge-known (a ∷ rest) x d h = ground (arith, edge-known rest x d)

module _ (apps : List LoadedApp) (g : Graph) (keyed : NoRepeat (names apps))
    (graph : IsGraphOf (names apps) (edge apps) g) (s : Run) (run : IsRun apps g s) (m : Text)
    (rest : List Text) (head : s.ready ≡ m ∷ rest) where
  m_facts :
      (contains_text (names apps) m ≡ true)
      × (contains_text (done s) m ≡ false)
      × (tally (waits g (done s) m) (names apps) ≡ 0)
  unfolding contains_text
  m_facts =
      let e = run.ready_eq m in
      let here : contains_text s.ready m ≡ true = rw (head, text_eq_refl m) refl in
      let q = run.degree_eq m in ground arith

  -- All that `m` depends on was taken.
  m_closed : (d : Text) → contains_text (g.dependents d) m ≡ true → contains_text (done s) d ≡ true
  m_closed d h =
      let k = graph.known m d (sym (graph.edge_eq m d) ∙ h) in
      let z = tally-zero (waits g (done s) m) (names apps) d m_facts.2 k in ground arith

  m_loop : contains_text (g.dependents m) m ≡ false
  m_loop = elim (Bool-cases (contains_text (g.dependents m) m)) [
    | inl e ↦ let t = m_closed m e in let f = m_facts.1 in cc
    | inr e ↦ e
  ]

  once : NoRepeat (m ∷ rest)
  once = subst NoRepeat head run.ready_once

  rest_eq :
      (x : Text)
      → (text_eq m x || contains_text rest x)
        ≡ (contains_text (names apps) x && (not (contains_text (done s) x) && is_zero (s.degree x)))
  unfolding contains_text
  rest_eq x =
      subst
        (λ r. contains_text r x ≡ (
          contains_text (names apps) x && (not (contains_text (done s) x) && is_zero (s.degree x))))
        head (run.ready_eq x)

  -- The count of a dependent of `m` falls by one, and no other changes.
  waits_lower :
      (taken : List Text) (x : Text)
      → ((d : Text) → contains_text taken d ≡ (contains_text (done s) d || text_eq m d))
      → contains_text (g.dependents m) x ≡ true
      → tally (waits g (done s) x) (names apps) ≡ suc (tally (waits g taken x) (names apps))
  waits_lower taken x t h =
      tally_one_more (waits g taken x) (waits g (done s) x) m (names apps) one_more
        (rw (t m, text_eq_refl m) (ground arith)) keyed m_facts.0
    where
      one_more : (d : Text) → waits g (done s) x d ≡ (waits g taken x d || text_eq m d)
      one_more d = elim (Bool-cases (text_eq m d)) [
        | inl e ↦
            let q = text_eq→≡ m d e in
            let a = subst (λ u. contains_text (g.dependents u) x ≡ true) q h in
            let b = subst (λ u. contains_text (done s) u ≡ false) q m_facts.1 in
            rw (a, b, e) (ground arith)
        | inr e ↦ ground (arith, t d)
      ]

  waits_same :
      (taken : List Text) (x : Text)
      → ((d : Text) → contains_text taken d ≡ (contains_text (done s) d || text_eq m d))
      → contains_text (g.dependents m) x ≡ false
      → tally (waits g (done s) x) (names apps) ≡ tally (waits g taken x) (names apps)
  waits_same taken x t h = tally_ext (waits g (done s) x) (waits g taken x) (names apps) same
    where
      same : (d : Text) → waits g (done s) x d ≡ waits g taken x d
      same d = elim (Bool-cases (text_eq m d)) [
        | inl e ↦
            let a = subst (λ u. contains_text (g.dependents u) x ≡ false) (text_eq→≡ m d e) h in
            rw a refl
        | inr e ↦ ground (arith, t d)
      ]

  abbrev moved : Run
  moved = record s { ready = rest; ordered = s.ordered ++ app_named apps m ∷ [] }

  abbrev freed : Run
  freed = release (sort_texts (g.dependents m)) moved

  named : Memᴰ (app_named apps m) apps × ((app_named apps m).name ≡ m)
  named = app_named-listed apps m m_facts.0

  done_eq : done (take_app apps g m rest s) ≡ done s ++ m ∷ []
  unfolding take_app
  done_eq =
      ap names (release-ordered (sort_texts (g.dependents m)) moved)
      ∙ names-append s.ordered (app_named apps m ∷ [])
      ∙ ap (λ n. done s ++ n ∷ []) named.1

  taken_eq :
      (x : Text)
      → contains_text (done (take_app apps g m rest s)) x
        ≡ (contains_text (done s) x || text_eq m x)
  unfolding contains_text
  taken_eq x =
      ap (λ ns. contains_text ns x) done_eq ∙ contains-append (done s) (m ∷ []) x ∙ ground arith

  sorted_once : NoRepeat (sort_texts (g.dependents m))
  sorted_once = NoRepeat-sort (g.dependents m) (graph.counted.no_repeat m)

  freed_degree :
      (x : Text)
      → (take_app apps g m rest s).degree x
        ≡ (if contains_text (g.dependents m) x then down (s.degree x) else s.degree x)
  unfolding take_app
  freed_degree x =
      release-degree (sort_texts (g.dependents m)) moved x sorted_once
      ∙ rw (contains-sort (g.dependents m) x) refl

  freed_ready :
      (x : Text)
      → contains_text (take_app apps g m rest s).ready x ≡ (
          contains_text rest x || (contains_text (g.dependents m) x && is_zero (down (s.degree x))))
  unfolding take_app
  freed_ready x =
      contains-sort freed.ready x
      ∙ release-ready (sort_texts (g.dependents m)) moved x sorted_once
      ∙ rw (contains-sort (g.dependents m) x) refl

  -- A dependent of `m` waits, and was not taken.
  dependent_facts :
      (x : Text)
      → contains_text (g.dependents m) x ≡ true
      → (k : ℕ) × (s.degree x ≡ pos (suc k))
        × (contains_text (done s) x ≡ false)
        × (contains_text (names apps) x ≡ true)
  dependent_facts x h = (
    tally (waits g (done (take_app apps g m rest s)) x) (names apps),
    run.degree_eq x ∙ ap pos (waits_lower (done (take_app apps g m rest s)) x taken_eq h),
    (elim (Bool-cases (contains_text (done s) x)) [
      | inl t ↦ let bad = run.done_closed x m t h in let f = m_facts.1 in cc
      | inr t ↦ t
    ]),
    edge-known apps x m (sym (graph.edge_eq x m) ∙ h),
  )

  new_degree :
      (x : Text)
      → (take_app apps g m rest s).degree x
        ≡ pos (tally (waits g (done (take_app apps g m rest s)) x) (names apps))
  new_degree x = elim (Bool-cases (contains_text (g.dependents m) x)) [
    | inl h ↦
        freed_degree x
        ∙ rw (h, run.degree_eq x, waits_lower (done (take_app apps g m rest s)) x taken_eq h) refl
    | inr h ↦
        freed_degree x
        ∙ rw (h, run.degree_eq x, waits_same (done (take_app apps g m rest s)) x taken_eq h) refl
  ]

  new_ready :
      (x : Text)
      → contains_text (take_app apps g m rest s).ready x ≡ (
          contains_text (names apps) x
          && (not (contains_text (done (take_app apps g m rest s)) x)
              && is_zero ((take_app apps g m rest s).degree x)))
  new_ready x = elim (Bool-cases (text_eq m x)) [
    | inl e ↦
        let q = text_eq→≡ m x e in
        let a = subst (λ u. contains_text (g.dependents m) u ≡ false) q m_loop in
        let b = subst (λ u. contains_text rest u ≡ false) q once.0 in
        freed_ready x ∙ rw (a, b, taken_eq x, e) (ground arith)
    | inr e ↦ elim (Bool-cases (contains_text (g.dependents m) x)) [
      | inl h ↦
          let (k, d, t, known) = dependent_facts x h in
          freed_ready x
          ∙ rw (taken_eq x, freed_degree x, h, e, t, known) (ground (arith, rest_eq x))
      | inr h ↦ freed_ready x ∙ rw (taken_eq x, freed_degree x, h, e) (ground (arith, rest_eq x))
    ]
  ]

  new_ready_once : NoRepeat (take_app apps g m rest s).ready
  unfolding take_app
  new_ready_once = NoRepeat-sort freed.ready (
      release-NoRepeat (sort_texts (g.dependents m)) moved sorted_once once.1 (λ x h.
        let (k, d, t, known) = dependent_facts x (sym (contains-sort (g.dependents m) x) ∙ h) in
        ground (arith, rest_eq x)))

  new_closed :
      (x d : Text)
      → contains_text (done (take_app apps g m rest s)) x ≡ true
      → contains_text (g.dependents d) x ≡ true
      → contains_text (done (take_app apps g m rest s)) d ≡ true
  new_closed x d h k = taken_eq d ∙ (elim (Bool-cases (text_eq m x)) [
    | inl e ↦
        let q = text_eq→≡ m x e in
        let c = m_closed d (subst (λ u. contains_text (g.dependents d) u ≡ true) (sym q) k) in
        rw c refl
    | inr e ↦
        let old : contains_text (done s) x ≡ true = ground (arith, taken_eq x) in
        rw (run.done_closed x d old k) refl
  ])

  new-InOrder : InOrder [] (take_app apps g m rest s).ordered
  unfolding take_app contains_text
  new-InOrder = subst (InOrder []) (sym (release-ordered (sort_texts (g.dependents m)) moved)) (
      InOrder-concat [] s.ordered (app_named apps m) run.in_order (λ d h.
        let a = app_named apps m in
        let e : edge apps m d ≡ true =
          mem→any (λ (b : LoadedApp). text_eq b.name m && contains_text b.dependencies d) apps a
            named.0 (rw (≡→text_eq a.name m named.1, h) refl) in
        rw (m_closed d (graph.edge_eq m d ∙ e)) refl))

  pub take_app-IsRun : IsRun apps g (take_app apps g m rest s)
  take_app-IsRun = record {
    degree_eq = new_degree;
    ready_eq = new_ready;
    ready_once = new_ready_once;
    done_once = subst NoRepeat (sym done_eq) (NoRepeat-concat (done s) m run.done_once m_facts.1);
    done_known = λ x h. elim (Bool-cases (text_eq m x)) [
      | inl e ↦ subst (λ u. contains_text (names apps) u ≡ true) (text_eq→≡ m x e) m_facts.0
      | inr e ↦ run.done_known x (ground (arith, taken_eq x))
    ];
    done_closed = new_closed;
    listed =
        unfold take_app in
        subst (All (λ a. Memᴰ a apps)) (sym (release-ordered (sort_texts (g.dependents m)) moved)) (
          All-append (λ a. Memᴰ a apps) s.ordered (app_named apps m ∷ []) run.listed (named.0, tt));
    in_order = new-InOrder;
  }

  pub take_app-count : length (take_app apps g m rest s).ordered ≡ suc (length s.ordered)
  unfolding take_app
  take_app-count =
      ap (λ (xs : List LoadedApp). length xs) (release-ordered (sort_texts (g.dependents m)) moved)
      ∙ length-append s.ordered (app_named apps m ∷ [])
      ∙ omega arith
