-- ===== src/AppOrder/Correct.antt =====
-- DependencyOrder against its specification.
use dygo.Base.{
  NoRepeat, ℕ, zero, suc, ◌+◌, ◌≤◌, ◌<◌, Text, List, [], ◌∷◌, select, true, false, ◌||◌, text_eq,
  text_eq→≡, ≡→text_eq, contains_text, Memᴰ, All, All-mem, All-of_mem, length, ◌≡◌, refl, sym, ap,
  subst, ◌∙◌, Bool-cases, List-cases, inl, inr, arith, pos, ok, OnOk, OnOk-ok, OnOk-bind, ◌>>=◌,
  ◌==◌, ==→≡,
}
use dygo.AppOrder.Defs.{
  LoadedApp, Graph, Run, names, is_zero, take_app, rounds, start, finish, check_names, add_apps,
  empty_graph, dependency_order,
}
use dygo.AppOrder.Sets.{
  NoRepeat-sort, NoRepeat-select, contains-sort, contains-select, tally_ext, tally_none,
  length-le_of_subset, subset_of_length-eq,
}
use dygo.AppOrder.Edges.{
  edge, IsGraphOf, AreNamed, check_names-AreNamed, add_apps-IsGraphOf, empty_graph-IsGraphOf,
}
use dygo.AppOrder.Rounds.{InOrder}
use dygo.AppOrder.Loop.{done, waits, IsRun, take_app-IsRun, take_app-count}

pub length-names : (apps : List LoadedApp) → length (names apps) ≡ length apps
length-names [] = refl
length-names (a ∷ rest) = ap (λ (n : ℕ). suc n) (length-names rest)

module _ (apps : List LoadedApp) (g : Graph) (keyed : NoRepeat (names apps))
    (graph : IsGraphOf (names apps) (edge apps) g) where
  start-IsRun : IsRun apps g (start apps g)
  unfolding contains_text
  start-IsRun = record {
    degree_eq = λ x.
        graph.counted.degree_eq x
        ∙ ap pos (tally_ext _ (waits g [] x) (names apps) (λ d. ground arith));
    ready_eq = λ x.
        contains-sort (select (λ y. is_zero (g.degree y)) (names apps)) x
        ∙ contains-select (λ y. is_zero (g.degree y)) (names apps) x;
    ready_once =
        NoRepeat-sort (select (λ y. is_zero (g.degree y)) (names apps))
          (NoRepeat-select (λ y. is_zero (g.degree y)) (names apps) keyed);
    done_once = tt;
    done_known = λ x h. cc;
    done_closed = λ x d h k. cc;
    listed = tt;
    in_order = tt;
  }

  done-le : (s : Run) → IsRun apps g s → length s.ordered ≤ length apps
  done-le s run = omega (
    arith,
    length-names s.ordered,
    length-names apps,
    length-le_of_subset (done s) (names apps) run.done_once keyed run.done_known,
  )

  -- The rounds end before the fuel does.
  rounds-ok :
      (fuel : ℕ) (s : Run)
      → fuel + length s.ordered ≡ length apps
      → IsRun apps g s
      → (s' : Run) × (rounds fuel apps g s ≡ ok s') × IsRun apps g s' × (s'.ready ≡ [])
  unfolding rounds
  rounds-ok zero s e run = elim (List-cases s.ready) [
    | inl q ↦ (s, rw q refl, run, q)
    | inr (m, rest, q) ↦
        let more =
          done-le (take_app apps g m rest s) (take_app-IsRun apps g keyed graph s run m rest q) in
        absurd (omega (arith, take_app-count apps g keyed graph s run m rest q))
  ]
  rounds-ok (suc n) s e run = elim (List-cases s.ready) [
    | inl q ↦ (s, rw q refl, run, q)
    | inr (m, rest, q) ↦
        let next = take_app-IsRun apps g keyed graph s run m rest q in
        let (s', f, run', last) =
          rounds-ok n (take_app apps g m rest s)
            (omega (arith, take_app-count apps g keyed graph s run m rest q)) next in
        (s', rw q f, run', last)
  ]

  -- Where the loop ended, an App was taken if all that it depends on was.
  taken_of_ready :
      (s : Run)
      → IsRun apps g s
      → s.ready ≡ []
      → (x : Text) → contains_text (names apps) x ≡ true
      → ((d : Text) → edge apps x d ≡ true → contains_text (done s) d ≡ true)
      → contains_text (done s) x ≡ true
  unfolding contains_text
  taken_of_ready s run last x known h =
      let none_waits =
        tally_none (waits g (done s) x) (names apps)
          (λ d k. ground (arith, graph.edge_eq x d, h d)) in
      let e : contains_text s.ready x ≡ false = rw last refl in
      ground (arith, run.ready_eq x, run.degree_eq x)

  -- With a rank that falls along the edges, every App was taken.
  pub taken_of_rank :
      (rank : Text → ℕ)
      → ((x d : Text) → edge apps x d ≡ true → rank d < rank x)
      → (s : Run) → IsRun apps g s
      → s.ready ≡ []
      → (bound : ℕ) (x : Text) → rank x < bound
      → contains_text (names apps) x ≡ true
      → contains_text (done s) x ≡ true
  taken_of_rank rank falls s run last zero x b known = absurd (omega arith)
  taken_of_rank rank falls s run last (suc bound) x b known =
      taken_of_ready s run last x known (λ d h.
        let lower = falls x d h in
        taken_of_rank rank falls s run last bound d (omega arith) (graph.known x d h))

-- What DependencyOrder returns: the Apps, each once, each after those that it depends on.
pub record IsOrderOf (apps ordered : List LoadedApp) : Type 0 where
  pub listed : All (λ a. Memᴰ a apps) ordered
  pub complete : All (λ a. Memᴰ a ordered) apps
  pub once : NoRepeat (names ordered)
  pub same_length : length ordered ≡ length apps
  pub in_order : InOrder [] ordered

contains-names :
    (apps : List LoadedApp) (a : LoadedApp) → Memᴰ a apps → contains_text (names apps) a.name ≡ true
unfolding contains_text
contains-names [] a m = elim m [ ]
contains-names (x ∷ xs) a (Memᴰ.head e) =
    rw (≡→text_eq x.name a.name (ap LoadedApp.name (sym e))) refl
contains-names (x ∷ xs) a (Memᴰ.tail m) = rw (contains-names xs a m) (ground arith)

named-listed :
    (apps : List LoadedApp) (x : Text)
    → contains_text (names apps) x ≡ true
    → (a : LoadedApp) × Memᴰ a apps × (a.name ≡ x)
unfolding contains_text
named-listed [] x h = cc
named-listed (a ∷ rest) x h = elim (Bool-cases (text_eq a.name x)) [
  | inl e ↦ (a, Memᴰ.head refl, text_eq→≡ a.name x e)
  | inr e ↦ let (b, m, q) = named-listed rest x (ground arith) in (b, Memᴰ.tail m, q)
]

-- Apps of one name, in a list without repeated names, are one App.
app_of_name :
    (apps : List LoadedApp) (a b : LoadedApp)
    → NoRepeat (names apps)
    → Memᴰ a apps
    → Memᴰ b apps
    → a.name ≡ b.name
    → a ≡ b
app_of_name [] a b n m k e = elim m [ ]
app_of_name (x ∷ xs) a b n (Memᴰ.head p) (Memᴰ.head q) e = p ∙ sym q
app_of_name (x ∷ xs) a b n (Memᴰ.tail m) (Memᴰ.tail k) e = app_of_name xs a b n.1 m k e
app_of_name (x ∷ xs) a b n (Memᴰ.head p) (Memᴰ.tail k) e =
    let there = contains-names xs b k in
    let gone =
      subst (λ u. contains_text (names xs) u ≡ false) (ap LoadedApp.name (sym p) ∙ e) n.0 in
    cc
app_of_name (x ∷ xs) a b n (Memᴰ.tail m) (Memᴰ.head q) e =
    let there = contains-names xs a m in
    let gone =
      subst (λ u. contains_text (names xs) u ≡ false) (ap LoadedApp.name (sym q) ∙ sym e) n.0 in
    cc

-- A loop that took every name took every App.
complete_of_names :
    (apps ordered : List LoadedApp)
    → NoRepeat (names apps)
    → All (λ a. Memᴰ a apps) ordered
    → ((x : Text) → contains_text (names apps) x ≡ true → contains_text (names ordered) x ≡ true)
    → All (λ a. Memᴰ a ordered) apps
complete_of_names apps ordered n l h =
    All-of_mem (λ a. Memᴰ a ordered) apps
      λ a m.
        let (b, k, e) = named-listed ordered a.name (h a.name (contains-names apps a m)) in
        subst (λ c. Memᴰ c ordered)
          (app_of_name apps b a n (All-mem (λ c. Memᴰ c apps) ordered l k) m e) k

-- The graph of the Apps, and the loop that ends.
module _ (apps : List LoadedApp) (g : Graph) (keyed : NoRepeat (names apps))
    (added : add_apps (contains_text (names apps)) apps empty_graph ≡ ok g) where
  pub graph_of : IsGraphOf (names apps) (edge apps) g
  graph_of =
      OnOk-ok (IsGraphOf (names apps) (λ x d. false || edge apps x d)) _
        (add_apps-IsGraphOf (names apps) keyed (λ _ _. false) apps empty_graph keyed (λ x m d. refl)
          (empty_graph-IsGraphOf (names apps)))
        added

  pub ended :
      (s' : Run) × (rounds (length apps) apps g (start apps g) ≡ ok s')
      × IsRun apps g s'
      × (s'.ready ≡ [])
  ended =
      rounds-ok apps g keyed graph_of (length apps) (start apps g) (omega arith)
        (start-IsRun apps g keyed graph_of)

  finish-IsOrderOf : (s : Run) → IsRun apps g s → OnOk (IsOrderOf apps) (finish apps s)
  finish-IsOrderOf s run = elim (Bool-cases (length s.ordered == length apps)) [
    | inr e ↦ rw e tt
    | inl e ↦
        let all = subset_of_length-eq (done s) (names apps) run.done_once keyed run.done_known (
          length-names s.ordered
          ∙ ==→≡ (length s.ordered) (length apps) e
          ∙ sym (length-names apps)) in
        let it : IsOrderOf apps s.ordered = record {
          listed = run.listed;
          complete = complete_of_names apps s.ordered keyed run.listed all;
          once = run.done_once;
          same_length = ==→≡ (length s.ordered) (length apps) e;
          in_order = run.in_order;
        } in
        rw e it
  ]

  loop-IsOrderOf :
      OnOk (IsOrderOf apps) (rounds (length apps) apps g (start apps g) >>= finish apps)
  loop-IsOrderOf = let (s, e, run, last) = ended in rw e (finish-IsOrderOf s run)

accepted_order : (apps : List LoadedApp) → OnOk (IsOrderOf apps) (dependency_order apps)
unfolding dependency_order
accepted_order apps = OnOk-bind (IsOrderOf apps) (check_names [] apps) _ λ u named.
    OnOk-bind (IsOrderOf apps) (add_apps (contains_text (names apps)) apps empty_graph) _ λ g added.
      loop-IsOrderOf apps g
        (OnOk-ok (λ _. AreNamed [] apps) (check_names [] apps) (check_names-AreNamed [] apps)
          named).0
        added

-- An order that DependencyOrder returns lists exactly the Apps, as many as there are, no name twice, and
-- each App after all that it depends on.
pub dependency_order-IsOrderOf :
    (apps ordered : List LoadedApp) → dependency_order apps ≡ ok ordered → IsOrderOf apps ordered
dependency_order-IsOrderOf apps ordered h =
    OnOk-ok (IsOrderOf apps) (dependency_order apps) (accepted_order apps) h
