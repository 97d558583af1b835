-- ===== src/AppOrder/Total.antt =====
-- When DependencyOrder succeeds, and how it fails.
use dygo.Base.{
  NoRepeat, ℕ, suc, ◌≤◌, ◌<◌, Text, List, [], ◌∷◌, Bool, true, false, ◌&&◌, text_eq, text_eq_refl,
  text_eq→≡, contains_text, is_empty, trim_space, if◌then◌else◌, All, length, ◌≡◌, ◌≢◌, refl, subst,
  Bool-cases, inl, inr, arith, Result, ok, err, OnOk-ok, ◌>>=◌, ◌==◌,
}
use dygo.AppOrder.Defs.{
  LoadedApp, Graph, Run, Error, out_of_fuel, names, finish, check_names, add_apps, add_dependencies,
  connect, empty_graph, dependency_order,
}
use dygo.AppOrder.Sets.{apart, length-le_of_subset}
use dygo.AppOrder.Edges.{edge, AreNamed, check_names-AreNamed}
use dygo.AppOrder.Loop.{done}
use dygo.AppOrder.Correct.{graph_of, ended, taken_of_rank, length-names}

check_names-ok :
    (seen : List Text) (apps : List LoadedApp)
    → All (λ a. is_empty (trim_space a.name) ≡ false) apps
    → NoRepeat (names apps)
    → ((x : Text) → contains_text (names apps) x ≡ true → contains_text seen x ≡ false)
    → check_names seen apps ≡ ok tt
unfolding check_names contains_text
check_names-ok seen [] h n f = refl
check_names-ok seen (a ∷ rest) h n f =
    let new : contains_text seen a.name ≡ false = f a.name (rw (text_eq_refl a.name) refl) in
    rw (h.0, new)
      (check_names-ok (a.name ∷ seen) rest h.1 n.1
        (λ x m. rw (apart (names rest) a.name x n.0 m) (f x (rw m (ground arith)))))

add_dependencies-ok :
    (known : Text → Bool) (name : Text) (seen ds : List Text) (g : Graph)
    → All (λ d. known d ≡ true) ds
    → (g' : Graph) × (add_dependencies known name seen ds g ≡ ok g')
unfolding add_dependencies
add_dependencies-ok known name seen [] g h = (g, refl)
add_dependencies-ok known name seen (d ∷ ds) g h = rw h.0 (
    add_dependencies-ok known name (if contains_text seen d then seen else d ∷ seen) ds
      (if contains_text seen d then g else connect name d g) h.1)

add_apps-ok :
    (known : Text → Bool) (apps : List LoadedApp) (g : Graph)
    → All (λ a. All (λ d. known d ≡ true) a.dependencies) apps
    → (g' : Graph) × (add_apps known apps g ≡ ok g')
unfolding add_apps
add_apps-ok known [] g h = (g, refl)
add_apps-ok known (a ∷ rest) g h =
    let (g', e) = add_dependencies-ok known a.name [] a.dependencies g h.0 in
    let (g'', q) = add_apps-ok known rest g' h.1 in (g'', rw e q)

abbrev pub Falls : (Text → ℕ) → List LoadedApp → Type 0
Falls rank apps = All (λ (a : LoadedApp). All (λ d. rank d < rank a.name) a.dependencies) apps

falls_of_all :
    (rank : Text → ℕ) (n : ℕ) (ds : List Text) (d : Text)
    → All (λ e. rank e < n) ds
    → contains_text ds d ≡ true
    → rank d < n
unfolding contains_text
falls_of_all rank n [] d h m = cc
falls_of_all rank n (e ∷ ds) d h m = elim (Bool-cases (text_eq e d)) [
  | inl q ↦ subst (λ u. rank u < n) (text_eq→≡ e d q) h.0
  | inr q ↦ falls_of_all rank n ds d h.1 (ground arith)
]

edge-Falls :
    (rank : Text → ℕ) (apps : List LoadedApp)
    → Falls rank apps
    → (x d : Text) → edge apps x d ≡ true
    → rank d < rank x
edge-Falls rank [] h x d e = cc
edge-Falls rank (a ∷ rest) h x d e =
    elim (Bool-cases (text_eq a.name x && contains_text a.dependencies d)) [
      | inl q ↦
          let f = falls_of_all rank (rank a.name) a.dependencies d h.0 (ground arith) in
          subst (λ u. rank d < rank u) (text_eq→≡ a.name x (ground arith)) f
      | inr q ↦ edge-Falls rank rest h.1 x d (rw q at e)
    ]

finish-ok :
    (apps : List LoadedApp) (s : Run)
    → NoRepeat (names apps)
    → length s.ordered ≤ length apps
    → ((x : Text) → contains_text (names apps) x ≡ true → contains_text (done s) x ≡ true)
    → NoRepeat (done s)
    → finish apps s ≡ ok s.ordered
finish-ok apps s keyed most all once =
    let n : length s.ordered ≡ length apps = omega (
      arith,
      length-le_of_subset (names apps) (done s) keyed once all,
      length-names apps,
      length-names s.ordered,
    ) in
    ground arith

-- For Apps with names that are not blank and differ, whose dependencies are names of the Apps and fall
-- in some rank, DependencyOrder succeeds.
pub dependency_order-ok :
    (apps : List LoadedApp) (rank : Text → ℕ)
    → All (λ a. is_empty (trim_space a.name) ≡ false) apps
    → NoRepeat (names apps)
    → All (λ a. All (λ d. contains_text (names apps) d ≡ true) a.dependencies) apps
    → Falls rank apps
    → (ordered : List LoadedApp) × (dependency_order apps ≡ ok ordered)
unfolding dependency_order
dependency_order-ok apps rank named keyed known falls =
    let checked = check_names-ok [] apps named keyed (λ x m. refl) in
    let (g, added) = add_apps-ok (contains_text (names apps)) apps empty_graph known in
    let (s, e, run, last) = ended apps g keyed added in
    let all = λ (x : Text) (m : contains_text (names apps) x ≡ true).
      taken_of_rank apps g keyed (graph_of apps g keyed added) rank (edge-Falls rank apps falls) s
        run last (suc (rank x)) x (omega arith) m in
    let most : length s.ordered ≤ length apps = omega (
      arith,
      length-names s.ordered,
      length-names apps,
      length-le_of_subset (done s) (names apps) run.done_once keyed run.done_known,
    ) in
    (s.ordered, rw (checked, added, e) (finish-ok apps s keyed most all run.done_once))

-- The error is not that the fuel ran out.
abbrev Reports {ℓ} : {A : Type ℓ} → Result Error A → Type 0
Reports (ok a) = Unit
Reports (err e) = e ≢ out_of_fuel

Reports-bind {ℓ κ} :
    {A : Type ℓ} {B : Type κ} (m : Result Error A) (f : A → Result Error B)
    → Reports m
    → ((a : A) → m ≡ ok a → Reports (f a))
    → Reports (m >>= f)
Reports-bind (ok a) f h k = k a refl
Reports-bind (err e) f h k = h

check_names-Reports : (seen : List Text) (apps : List LoadedApp) → Reports (check_names seen apps)
unfolding check_names
check_names-Reports seen [] = tt
check_names-Reports seen (a ∷ rest) = elim (Bool-cases (is_empty (trim_space a.name))) [
  | inl e ↦ rw e (λ q. cc)
  | inr e ↦ elim (Bool-cases (contains_text seen a.name)) [
    | inl s ↦ rw (e, s) (λ q. cc)
    | inr s ↦ rw (e, s) (check_names-Reports (a.name ∷ seen) rest)
  ]
]

add_dependencies-Reports :
    (known : Text → Bool) (name : Text) (seen ds : List Text) (g : Graph)
    → Reports (add_dependencies known name seen ds g)
unfolding add_dependencies
add_dependencies-Reports known name seen [] g = tt
add_dependencies-Reports known name seen (d ∷ ds) g = elim (Bool-cases (known d)) [
  | inr k ↦ rw k (λ q. cc)
  | inl k ↦ rw k (
      add_dependencies-Reports known name (if contains_text seen d then seen else d ∷ seen) ds
        (if contains_text seen d then g else connect name d g))
]

add_apps-Reports :
    (known : Text → Bool) (apps : List LoadedApp) (g : Graph) → Reports (add_apps known apps g)
unfolding add_apps
add_apps-Reports known [] g = tt
add_apps-Reports known (a ∷ rest) g =
    Reports-bind (add_dependencies known a.name [] a.dependencies g) (add_apps known rest)
      (add_dependencies-Reports known a.name [] a.dependencies g)
      (λ g' e. add_apps-Reports known rest g')

finish-Reports : (apps : List LoadedApp) (s : Run) → Reports (finish apps s)
finish-Reports apps s = elim (Bool-cases (length s.ordered == length apps)) [
  | inl e ↦ rw e tt
  | inr e ↦ rw e (λ q. cc)
]

-- The loop of DependencyOrder ends within as many rounds as there are Apps, whatever their
-- dependencies are.
pub dependency_order_ends : (apps : List LoadedApp) → dependency_order apps ≢ err out_of_fuel
unfolding dependency_order
dependency_order_ends apps h =
    let r : out_of_fuel ≢ out_of_fuel = subst (Reports {A = List LoadedApp}) h all in r refl
  where
    all : Reports (dependency_order apps)
    all = Reports-bind (check_names [] apps) _ (check_names-Reports [] apps) λ u named.
        Reports-bind (add_apps (contains_text (names apps)) apps empty_graph) _
          (add_apps-Reports (contains_text (names apps)) apps empty_graph)
          λ g added.
            let keyed =
              (OnOk-ok (λ _. AreNamed [] apps) (check_names [] apps) (check_names-AreNamed [] apps)
                named).0 in
            let (s, e, run, last) = ended apps g keyed added in rw e (finish-Reports apps s)
