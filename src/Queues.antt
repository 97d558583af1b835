-- ===== src/Queues.antt =====
-- internal/queues/queues.go: the registry of queues.
pub mod Registry
mod Samples
use dygo.Base.{
  ℕ, suc, Text, codes, List, [], ◌∷◌, ◌++◌, Bool, false, ◌&&◌, ◌||◌, not, if◌then◌else◌, trim_space,
  is_empty, text_eq, contains_text, Result, ok, err, ℤ, pos, ltb_ℤ,
}
use dygo.Names.{is_name}

-- Queue
pub record Queue : Type 0 where
  pub name : Text
  pub concurrency : ℤ

-- Config
pub record Config : Type 0 where
  pub queues : List Queue
  pub retention_days : ℤ

abbrev pub default_name : Text
default_name = codes "default"

pub data Problem : Type 0 where
  bad_retention no_default : Problem
  no_name bad_concurrency : (index : ℕ) → Problem
  not_kebab : (index : ℕ) (name : Text) → Problem
  duplicate : (name : Text) → Problem

abbrev pub when : Bool → Problem → List Problem
when b p = if b then p ∷ [] else []

-- The problems of one queue's name, given the names seen before it.
name_problems : ℕ → List Text → Text → List Problem
unfolding is_name contains_text
name_problems index seen name =
    if is_empty name
    then no_name index ∷ []
    else if not (is_name name)
    then not_kebab index name ∷ []
    else when (contains_text seen name) (duplicate name)

-- The loop of `Validate`: the problems found, and whether the default queue was seen.
queue_problems : ℕ → List Text → List Queue → List Problem × Bool
unfolding name_problems trim_space is_name text_eq
queue_problems index seen [] = ([], false)
queue_problems index seen (q ∷ qs) =
    let name = trim_space q.name in
    let valid = is_name name in
    let (rest, has_default) = queue_problems (suc index) (if valid then name ∷ seen else seen) qs in
    (
      name_problems index seen name
          ++ (when (ltb_ℤ q.concurrency (pos 1)) (bad_concurrency index) ++ rest),
      (valid && text_eq name default_name) || has_default,
    )

problems : Config → List Problem
unfolding queue_problems
problems c =
    let (found, has_default) = queue_problems 0 [] c.queues in
    when (ltb_ℤ c.retention_days (pos 0) || ltb_ℤ (pos 36500) c.retention_days) bad_retention
    ++ (found ++ when (not has_default) no_default)

abbrev reported : List Problem → Result (List Problem) (Unit {0})
reported [] = ok tt
reported (p ∷ ps) = err (p ∷ ps)

-- Config.Validate
unfoldable pub validate : Config → Result (List Problem) (Unit {0})
unfolding problems
validate c = reported (problems c)

registered : List Queue → Text → Bool
unfolding text_eq
registered [] name = false
registered (q ∷ qs) name = text_eq q.name name || registered qs name

-- Config.Has
unfoldable pub has : Config → Text → Bool
unfolding registered trim_space
has c name = registered c.queues (trim_space name)
