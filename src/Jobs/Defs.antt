-- ===== src/Jobs/Defs.antt =====
-- Jobs, their validation, and the settings that the store is given.
use dygo.Base.{
  ℕ, zero, suc, ℤ, pos, negsuc, Text, codes, List, [], ◌∷◌, ◌++◌, Bool, false, not, ◌&&◌, ◌||◌, ltb,
  ◌==◌, Option, none, some, contains_text, trim_space, is_space, is_empty, if◌then◌else◌, Result,
  ok, err,
}
use dygo.Names.{is_name}
use dygo.Queues.{Config, has, default_name}
use dygo.JobStore.{Retry, positive}

-- Job; the attempts of a Retry are a number from 0 on, since those below 2 are all refused.
pub record Job : Type 0 where
  pub name : Text
  pub label : Text
  pub queue : Text
  pub cron : Text
  pub timeout : Text
  pub retry : Option Retry

pub record LoadedJob : Type 0 where
  pub app : Text
  pub path : Text
  pub job : Job

pub data Problem : Type 0 where
  name_not_kebab label_required queue_not_kebab cron_fields cron_invalid : Problem
  required not_a_duration not_positive : Text → Problem
  too_few_attempts max_below_initial : Problem
  duplicate_job unregistered_queue : (path app name : Text) → Problem

-- time.ParseDuration, and whether the parser of cron expressions accepts one.
pub record Parsers : Type 0 where
  pub duration : Text → Option ℤ
  pub cron : Text → Bool

-- EffectiveQueue
unfoldable pub effective_queue : Job → Text
unfolding trim_space
effective_queue j = let queue = trim_space j.queue in if is_empty queue then default_name else queue

-- MaxAttempts
abbrev pub max_attempts : Job → ℕ
max_attempts j = elim j.retry [ none ↦ 1 | some r ↦ r.attempts ]

abbrev pub default_initial_delay : Text
default_initial_delay = codes "10s"

abbrev pub default_max_delay : Text
default_max_delay = codes "5m"

abbrev pub given_or : Text → Text → Text
unfolding trim_space
given_or fallback value = if is_empty (trim_space value) then fallback else value

-- EffectiveRetry
unfoldable pub effective_retry : Option Retry → Option Retry
unfolding trim_space
effective_retry none = none
effective_retry (some r) = some (record r {
  initial_delay = given_or default_initial_delay r.initial_delay;
  max_delay = given_or default_max_delay r.max_delay;
})

abbrev pub problem_if : Bool → Problem → List Problem
problem_if b p = if b then p ∷ [] else []

-- How many words a text has, where the last character was in a word or not: strings.Fields
unfoldable pub count_fields : Bool → Text → ℕ
unfolding is_space
count_fields inside [] = 0
count_fields inside (c ∷ s) =
    let more = count_fields (not (is_space c)) s in if is_space c || inside then more else suc more

-- The rest of positiveDuration, after the text was parsed.
abbrev pub duration_report : Text → Option ℤ → List Problem
duration_report name none = not_a_duration name ∷ []
duration_report name (some (pos (suc n))) = []
duration_report name (some (pos zero)) = not_positive name ∷ []
duration_report name (some (negsuc n)) = not_positive name ∷ []

abbrev pub reported : List Problem → Result (List Problem) (Unit {0})
reported [] = ok tt
reported (p ∷ ps) = err (p ∷ ps)

module _ (parsers : Parsers) where
  -- The duration that a text has, if it has one: positiveDuration
  abbrev pub duration_of : Text → Option ℕ
  unfolding trim_space
  duration_of value = positive (parsers.duration (trim_space value))

  -- What positiveDuration reports of a text.
  unfoldable pub duration_problems : Text → Text → List Problem
  unfolding trim_space
  duration_problems value name =
      if is_empty (trim_space value)
      then required name ∷ []
      else duration_report name (parsers.duration (trim_space value))

  -- optionalPositiveDuration: its problems, and its duration
  unfoldable pub optional_problems : Text → Text → List Problem
  unfolding trim_space duration_problems
  optional_problems value name =
      if is_empty (trim_space value) then [] else duration_problems value name

  abbrev pub optional_duration : Text → Text → Option ℕ
  unfolding trim_space
  optional_duration value fallback =
      if is_empty (trim_space value)
      then positive (parsers.duration fallback)
      else duration_of value

  abbrev pub shorter : Option ℕ → Option ℕ → Bool
  shorter (some m) (some i) = ltb m i
  shorter none _ = false
  shorter (some m) none = false

  -- validateRetry
  unfoldable pub retry_problems : Option Retry → List Problem
  unfolding optional_problems trim_space
  retry_problems none = []
  retry_problems (some r) =
      problem_if (ltb r.attempts 2) too_few_attempts
      ++ (optional_problems r.initial_delay (codes "retry.initial-delay")
          ++ (optional_problems r.max_delay (codes "retry.max-delay")
              ++ problem_if
                  (shorter (optional_duration r.max_delay default_max_delay)
                    (optional_duration r.initial_delay default_initial_delay))
                  max_below_initial))

  unfoldable pub cron_problems : Text → List Problem
  unfolding count_fields
  cron_problems cron =
      if is_empty cron
      then []
      else if not (count_fields false cron == 5)
      then cron_fields ∷ []
      else problem_if (not (parsers.cron cron)) cron_invalid

  abbrev pub name_problems : Text → List Problem
  unfolding trim_space is_name
  name_problems name =
      problem_if (not (is_empty (trim_space name)) && not (is_name name)) name_not_kebab

  abbrev pub label_problems : Text → List Problem
  unfolding trim_space
  label_problems label = problem_if (is_empty (trim_space label)) label_required

  abbrev pub queue_problems : Text → List Problem
  unfolding trim_space is_name
  queue_problems queue = problem_if (not (is_empty queue) && not (is_name queue)) queue_not_kebab

  unfoldable pub job_problems : Job → List Problem
  unfolding trim_space cron_problems duration_problems retry_problems name_problems label_problems
      queue_problems
  job_problems j =
      name_problems j.name
      ++ (label_problems j.label
          ++ (queue_problems (trim_space j.queue)
              ++ (cron_problems (trim_space j.cron)
                  ++ (duration_problems j.timeout (codes "timeout") ++ retry_problems j.retry))))

  -- Job.Validate
  unfoldable pub validate : Job → Result (List Problem) (Unit {0})
  unfolding job_problems
  validate j = reported (job_problems j)

abbrev pub job_key : LoadedJob → Text
job_key l = l.app ++ 0 ∷ l.job.name

-- The loop of validateCatalog, given the keys seen.
unfoldable pub catalog_problems : Config → List Text → List LoadedJob → List Problem
unfolding contains_text has effective_queue
catalog_problems queues seen [] = []
catalog_problems queues seen (l ∷ rest) =
    problem_if (contains_text seen (job_key l)) (duplicate_job l.path l.app l.job.name)
    ++ (problem_if (not (has queues (effective_queue l.job)))
          (unregistered_queue l.path l.app l.job.name)
        ++ catalog_problems queues (job_key l ∷ seen) rest)

-- validateCatalog
unfoldable pub validate_catalog : List LoadedJob → Config → Result (List Problem) (Unit {0})
unfolding catalog_problems
validate_catalog jobs queues = reported (catalog_problems queues [] jobs)
