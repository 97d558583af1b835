-- ===== src/Queues/Registry.antt =====
-- What a registry of queues that validates has.
use dygo.Base.{
  ℕ, suc, Text, List, [], ◌∷◌, ◌++◌, Bool, true, false, not, ◌&&◌, ◌||◌, trim_space, text_eq,
  is_space, ltb_ℤ, pos, All, ok, ◌≡◌, refl, subst, Bool-cases, inl, inr, arith, if◌then◌else◌,
  and_parts,
}
use dygo.Names.{is_name}
use dygo.Queues.{
  Queue, Config, Problem, no_default, bad_retention, default_name, when, queue_problems, problems,
  validate, reported, registered, has,
}

append-last : (xs ys : List Problem) → xs ++ ys ≡ [] → ys ≡ []
append-last [] ys h = h
append-last (x ∷ xs) ys h = cc

reported-ok : (ps : List Problem) → reported ps ≡ ok tt → ps ≡ []
reported-ok [] h = refl
reported-ok (p ∷ ps) h = cc

no_problem : (b : Bool) → when (not b) no_default ≡ [] → b ≡ true
no_problem true h = refl
no_problem false h = cc

-- A queue whose name has no blanks around it.
abbrev pub IsTight : Queue → Type 0
IsTight q = trim_space q.name ≡ q.name

seen_default :
    (index : ℕ) (seen : List Text) (queues : List Queue)
    → All IsTight queues
    → (queue_problems index seen queues).1 ≡ true
    → registered queues default_name ≡ true
unfolding queue_problems registered
seen_default index seen [] t h = cc
seen_default index seen (q ∷ queues) (tight, t) h =
    let own = is_name (trim_space q.name) && text_eq (trim_space q.name) default_name in
    elim (Bool-cases own) [
      | inl e ↦
          let named : text_eq q.name default_name ≡ true =
            subst (λ n. text_eq n default_name ≡ true) tight
              (and_parts (is_name (trim_space q.name)) (text_eq (trim_space q.name) default_name)
                e).1 in
          rw named refl
      | inr e ↦
          let names = if is_name (trim_space q.name) then trim_space q.name ∷ seen else seen in
          let later = subst (λ b. (b || (queue_problems (suc index) names queues).1) ≡ true) e h in
          rw (seen_default (suc index) names queues t later) (ground arith)
    ]

-- The default queue is registered in a config that validates, if its names have no blanks around them.
pub validate-has_default :
    (c : Config) → validate c ≡ ok tt → All IsTight c.queues → has c default_name ≡ true
unfolding validate problems has registered trim_space is_space
validate-has_default c h t =
    let found = queue_problems 0 [] c.queues in
    let none_left = append-last found.0 (when (not found.1) no_default) (
      append-last
        (when (ltb_ℤ c.retention_days (pos 0) || ltb_ℤ (pos 36500) c.retention_days) bad_retention)
        (found.0 ++ when (not found.1) no_default) (reported-ok (problems c) h)) in
    seen_default 0 [] c.queues t (no_problem found.1 none_left)
