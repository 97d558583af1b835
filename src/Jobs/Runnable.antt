-- ===== src/Jobs/Runnable.antt =====
-- What the store needs of a job that was validated.
use dygo.Base.{
  ℕ, zero, suc, ℤ, pos, negsuc, Text, codes, List, [], ◌∷◌, ◌++◌, Bool, Option, none, some,
  trim_space, is_empty, if◌then◌else◌, ok, ◌≡◌, refl, sym, subst, Bool-cases, inl, inr,
}
use dygo.JobStore.{Retry, Runtime, positive, retry_delay, jittered, capped_delay}
use dygo.Jobs.Defs.{
  Job, Parsers, Problem, required, effective_retry, given_or, default_initial_delay,
  default_max_delay, duration_report, reported, duration_problems, optional_problems,
  retry_problems, name_problems, label_problems, queue_problems, cron_problems, job_problems,
  validate,
}

pub append-parts : (xs ys : List Problem) → xs ++ ys ≡ [] → (xs ≡ []) × (ys ≡ [])
append-parts [] ys h = (refl, h)
append-parts (x ∷ xs) ys h = cc

pub reported-ok : (ps : List Problem) → reported ps ≡ ok tt → ps ≡ []
reported-ok [] h = refl
reported-ok (p ∷ ps) h = cc

-- What a text parses to is positive.
abbrev pub IsPositive : (Text → Option ℤ) → Text → Type 0
IsPositive parse value = (n : ℕ) × (positive (parse value) ≡ some n)

duration_report-none :
    (name : Text) (o : Option ℤ) → duration_report name o ≡ [] → (n : ℕ) × (positive o ≡ some n)
duration_report-none name none h = cc
duration_report-none name (some (pos (suc n))) h = (suc n, refl)
duration_report-none name (some (pos zero)) h = cc
duration_report-none name (some (negsuc n)) h = cc

module _ (parsers : Parsers) where
  duration_problems-none :
      (value name : Text)
      → duration_problems parsers value name ≡ []
      → IsPositive parsers.duration (trim_space value)
  unfolding duration_problems
  duration_problems-none value name h = elim (Bool-cases (is_empty (trim_space value))) [
    | inl e ↦ let bad : required name ∷ [] ≡ [] = rw e at h in cc
    | inr e ↦ duration_report-none name (parsers.duration (trim_space value)) (rw e at h)
  ]

  optional_problems-none :
      (value name fallback : Text)
      → optional_problems parsers value name ≡ []
      → trim_space value ≡ value
      → IsPositive parsers.duration fallback
      → IsPositive parsers.duration (given_or fallback value)
  unfolding optional_problems
  optional_problems-none value name fallback h t default =
      elim (Bool-cases (is_empty (trim_space value))) [
        | inl e ↦
            subst (λ b. IsPositive parsers.duration (if b then fallback else value)) (sym e) default
        | inr e ↦
            let reports =
              subst (λ b. (if b then [] else duration_problems parsers value name) ≡ []) e h in
            let found = duration_problems-none value name reports in
            subst (λ b. IsPositive parsers.duration (if b then fallback else value)) (sym e)
              (subst (IsPositive parsers.duration) t found)
      ]

-- The settings of a retry that the store can use: both delays are positive.
abbrev pub IsUsable : (Text → Option ℤ) → Option Retry → Type 0
IsUsable parse none = Unit
IsUsable parse (some r) = IsPositive parse r.initial_delay × IsPositive parse r.max_delay

-- The delays have no blanks around them.
abbrev pub IsTight : Option Retry → Type 0
IsTight none = Unit
IsTight (some r) =
    (trim_space r.initial_delay ≡ r.initial_delay) × (trim_space r.max_delay ≡ r.max_delay)

module _ (parsers : Parsers) (initial_default : IsPositive parsers.duration default_initial_delay)
    (max_default : IsPositive parsers.duration default_max_delay) where
  retry_problems-IsUsable :
      (r : Option Retry)
      → retry_problems parsers r ≡ []
      → IsTight r
      → IsUsable parsers.duration (effective_retry r)
  unfolding retry_problems effective_retry
  retry_problems-IsUsable none h t = tt
  retry_problems-IsUsable (some r) h (initial_tight, max_tight) =
      let (_, h1) = append-parts _ _ h in
      let (initial, h2) = append-parts _ _ h1 in
      let (longest, _) = append-parts _ _ h2 in
      (
        optional_problems-none parsers r.initial_delay (codes "retry.initial-delay")
            default_initial_delay initial initial_tight initial_default,
        optional_problems-none parsers r.max_delay (codes "retry.max-delay") default_max_delay
            longest max_tight max_default,
      )

usable_delay :
    (rt : Runtime) (int64n : ℕ → ℕ) (r : Option Retry) (attempt : ℕ)
    → IsUsable rt.parse_duration r
    → (d : ℕ) × (retry_delay rt int64n r attempt ≡ ok d)
unfolding retry_delay
usable_delay rt int64n none attempt u = (0, refl)
usable_delay rt int64n (some r) attempt ((n, i), (m, l)) =
    (jittered int64n (capped_delay n m attempt), rw (i, l) refl)

-- A job that validates, and whose timeout and delays have no blanks around them, runs: where the durations
-- that stand for missing delays parse to positive ones, its timeout parses to a positive duration, as the store
-- reads it, and every attempt that fails has a delay before the next.
pub validate-IsRunnable :
    (rt : Runtime) (cron : Text → Bool) (int64n : ℕ → ℕ) (j : Job) (attempt : ℕ)
    → IsPositive rt.parse_duration default_initial_delay
    → IsPositive rt.parse_duration default_max_delay
    → validate (record { duration = rt.parse_duration; cron = cron }) j ≡ ok tt
    → trim_space j.timeout ≡ j.timeout
    → IsTight j.retry
    → IsPositive rt.parse_duration j.timeout
      × ((d : ℕ) × (retry_delay rt int64n (effective_retry j.retry) attempt ≡ ok d))
unfolding validate job_problems
validate-IsRunnable rt cron int64n j attempt initial_default max_default h timeout_tight tight =
    let parsers : Parsers = record { duration = rt.parse_duration; cron = cron } in
    let (_, h1) =
      append-parts (name_problems parsers j.name) _ (reported-ok (job_problems parsers j) h) in
    let (_, h2) = append-parts (label_problems parsers j.label) _ h1 in
    let (_, h3) = append-parts (queue_problems parsers (trim_space j.queue)) _ h2 in
    let (_, h4) = append-parts (cron_problems parsers (trim_space j.cron)) _ h3 in
    let (timeout, retries) = append-parts _ _ h4 in
    (
      subst (IsPositive rt.parse_duration) timeout_tight
          (duration_problems-none parsers j.timeout (codes "timeout") timeout),
      usable_delay rt int64n (effective_retry j.retry) attempt
          (retry_problems-IsUsable parsers initial_default max_default j.retry retries tight),
    )
