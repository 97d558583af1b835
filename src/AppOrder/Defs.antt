-- ===== src/AppOrder/Defs.antt =====
-- DependencyOrder. A Go map is a function; the names of all Apps are its keys.
use dygo.Base.{
  ℕ, zero, suc, Text, List, [], ◌∷◌, ◌++◌, Bool, true, false, not, none, some, find, select, length,
  map, text_eq, text_lt, contains_text, is_empty, trim_space, if◌then◌else◌, Result, ok, err,
  reject, ◌>>=◌, ◌>>◌, ℤ, pos, negsuc, ◌==◌,
}

-- manifest.Manifest and manifest.LoadedApp, without what the order does not read
pub record LoadedApp : Type 0 where
  pub manifest_path : Text
  pub name : Text
  pub dependencies : List Text

pub data Error : Type 0 where
  name_required : Error
  duplicate_app unknown_app : Text → Text → Error
  cycle : List Text → Error
  out_of_fuel : Error

abbrev pub names : List LoadedApp → List Text
names = map LoadedApp.name

-- The loop that fills byName.
unfoldable pub check_names : List Text → List LoadedApp → Result Error (Unit {0})
unfolding contains_text trim_space
check_names seen [] = ok tt
check_names seen (a ∷ rest) = do
  reject (is_empty (trim_space a.name)) name_required
  reject (contains_text seen a.name) (duplicate_app a.name a.manifest_path)
  check_names (a.name ∷ seen) rest

-- indegree and dependents
pub record Graph : Type 0 where
  pub degree : Text → ℤ
  pub dependents : Text → List Text

-- `++` and `--` on an int
abbrev pub up : ℤ → ℤ
up (pos n) = pos (suc n)
up (negsuc zero) = pos 0
up (negsuc (suc n)) = negsuc n

abbrev pub down : ℤ → ℤ
down (pos (suc n)) = pos n
down (pos zero) = negsuc 0
down (negsuc n) = negsuc (suc n)

abbrev pub is_zero : ℤ → Bool
is_zero (pos n) = n == 0
is_zero (negsuc n) = false

abbrev pub connect : Text → Text → Graph → Graph
connect name dependency g = record {
  degree = λ x. if text_eq x name then up (g.degree x) else g.degree x;
  dependents = λ d. if text_eq d dependency then g.dependents d ++ name ∷ [] else g.dependents d;
}

-- The inner loop over the dependencies of an App.
unfoldable pub add_dependencies :
    (Text → Bool) → Text → List Text → List Text → Graph → Result Error Graph
unfolding contains_text text_eq
add_dependencies known name seen [] g = ok g
add_dependencies known name seen (d ∷ ds) g =
    let skip = contains_text seen d in
    let rest =
      add_dependencies known name (if skip then seen else d ∷ seen) ds
        (if skip then g else connect name d g) in
    if not (known d) then err (unknown_app name d) else rest

unfoldable pub add_apps : (Text → Bool) → List LoadedApp → Graph → Result Error Graph
unfolding add_dependencies
add_apps known [] g = ok g
add_apps known (a ∷ rest) g =
    add_dependencies known a.name [] a.dependencies g >>= λ g'. add_apps known rest g'

-- sort.Strings
unfoldable pub insert_text : Text → List Text → List Text
unfolding text_lt
insert_text s [] = s ∷ []
insert_text s (t ∷ ts) = if text_lt t s then t ∷ insert_text s ts else s ∷ t ∷ ts

unfoldable pub sort_texts : List Text → List Text
unfolding insert_text
sort_texts [] = []
sort_texts (s ∷ ss) = insert_text s (sort_texts ss)

abbrev pub empty_graph : Graph
empty_graph = record { degree = λ _. pos 0; dependents = λ _. [] }

-- The variables of the loop.
pub record Run : Type 0 where
  pub degree : Text → ℤ
  pub ready : List Text
  pub ordered : List LoadedApp

abbrev pub lower : Text → Run → Run
lower dependent s =
    let left = down (s.degree dependent) in
    record s {
      degree = λ x. if text_eq x dependent then left else s.degree x;
      ready = (if is_zero left then s.ready ++ dependent ∷ [] else s.ready);
    }

-- The loop over the dependents of an App that was taken.
unfoldable pub release : List Text → Run → Run
unfolding text_eq
release [] s = s
release (d ∷ ds) s = release ds (lower d s)

-- byName[name]
abbrev pub app_named : List LoadedApp → Text → LoadedApp
app_named apps name = elim (find (λ (a : LoadedApp). text_eq a.name name) apps) [
  | none ↦ record { manifest_path = []; name = []; dependencies = [] }
  | some a ↦ a
]

-- One round of the loop, after `name` left the head of `ready`.
unfoldable pub take_app : List LoadedApp → Graph → Text → List Text → Run → Run
unfolding release sort_texts text_eq
take_app apps g name rest s =
    let s' =
      release (sort_texts (g.dependents name))
        (record s { ready = rest; ordered = s.ordered ++ app_named apps name ∷ [] }) in
    record s' { ready = sort_texts s'.ready }

unfoldable pub rounds : ℕ → List LoadedApp → Graph → Run → Result Error Run
unfolding take_app
rounds zero apps g s = elim s.ready [ [] ↦ ok s | _ ∷ _ ↦ err out_of_fuel ]
rounds (suc fuel) apps g s = elim s.ready [
  | [] ↦ ok s
  | name ∷ rest ↦ rounds fuel apps g (take_app apps g name rest s)
]

abbrev pub is_positive : ℤ → Bool
is_positive (pos (suc n)) = true
is_positive (pos zero) = false
is_positive (negsuc n) = false

-- The end of DependencyOrder: a cycle if some App was not reached.
abbrev pub finish : List LoadedApp → Run → Result Error (List LoadedApp)
finish apps s =
    if length s.ordered == length apps
    then ok s.ordered
    else err (cycle (sort_texts (select (λ x. is_positive (s.degree x)) (names apps))))

abbrev pub start : List LoadedApp → Graph → Run
start apps g = record {
  degree = g.degree;
  ready = sort_texts (select (λ x. is_zero (g.degree x)) (names apps));
  ordered = [];
}

-- DependencyOrder; the fuel is the number of Apps.
unfoldable pub dependency_order : List LoadedApp → Result Error (List LoadedApp)
unfolding check_names add_apps rounds sort_texts contains_text
dependency_order apps = do
  check_names [] apps
  g ← add_apps (contains_text (names apps)) apps empty_graph
  s ← rounds (length apps) apps g (start apps g)
  finish apps s
