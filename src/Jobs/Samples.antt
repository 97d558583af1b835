-- ===== src/Jobs/Samples.antt =====
-- Two jobs.
use dygo.Base.{
  ℕ, ℤ, pos, Text, codes, text_eq, contains_text, trim_space, is_space, List, [], ◌∷◌, map, Bool,
  true, Option, none, some, NoRepeat, All, ◌≡◌, refl, if◌then◌else◌, ok, err,
}
use dygo.Queues.{Config, has}
use dygo.JobStore.{Retry, Runtime, positive, retry_delay}
use dygo.Jobs.Defs.{
  Job, LoadedJob, duplicate_job, max_below_initial, not_positive, effective_retry, validate,
  validate_catalog, job_key,
}
use dygo.Jobs.Runnable.{IsPositive, validate-IsRunnable}
use dygo.Jobs.Catalogs.{IsRegistered, validate_catalog-IsRegistered}

abbrev duration : Text → Option ℤ
unfolding text_eq
duration t =
    if text_eq t (codes "10s")
    then some (pos 10000000000)
    else if text_eq t (codes "5m")
    then some (pos 300000000000)
    else if text_eq t (codes "0s")
    then some (pos 0)
    else none

abbrev runtime : Runtime
runtime = record {
  parse_duration = duration;
  json_valid = λ _. true;
  marshal_retry = λ _. [];
  unmarshal_retry = λ _. none;
  queues = none;
}

abbrev any_cron : Text → Bool
any_cron _ = true

abbrev job_of : Text → Text → Option Retry → Job
job_of name timeout retry = record {
  name = name;
  label = codes "Job";
  queue = [];
  cron = codes "0 5 * * 1";
  timeout = timeout;
  retry = retry;
}

abbrev three_times : Option Retry
three_times = some (record { attempts = 3; initial_delay = []; max_delay = codes "5m" })

abbrev send_mail : Job
send_mail = job_of (codes "send-mail") (codes "5m") three_times

send_mail_validates : validate (record { duration = duration; cron = any_cron }) send_mail ≡ ok tt
unfolding validate text_eq trim_space is_space
send_mail_validates = refl

-- A maximum below the initial delay, and no time to run.
refused_job :
    validate
      (record { duration = duration; cron = any_cron })
      (job_of
        (codes "send-mail")
        (codes "0s")
        (some (record { attempts = 3; initial_delay = codes "5m"; max_delay = codes "10s" })))
    ≡ err (not_positive (codes "timeout") ∷ max_below_initial ∷ [])
unfolding validate text_eq trim_space is_space
refused_job = refl

-- A timeout with blanks around it validates, and the store cannot parse it.
blanks_validate :
    validate
      (record { duration = duration; cron = any_cron })
      (job_of (codes "send-mail") (codes " 5m ") none)
    ≡ ok tt
unfolding validate text_eq trim_space is_space
blanks_validate = refl

blanks_do_not_parse : positive (runtime.parse_duration (codes " 5m ")) ≡ none
unfolding text_eq
blanks_do_not_parse = refl

validate-IsRunnable_example :
    IsPositive duration (codes "5m")
    × ((d : ℕ) × (retry_delay runtime (λ _. 0) (effective_retry three_times) 2 ≡ ok d))
unfolding text_eq trim_space
validate-IsRunnable_example =
    validate-IsRunnable runtime any_cron (λ _. 0) send_mail 2 (10000000000, refl)
      (300000000000, refl) send_mail_validates refl (refl, refl)

abbrev queues : Config
queues = record {
  queues = record { name = codes "default"; concurrency = pos 2 } ∷ [];
  retention_days = pos 30;
}

abbrev loaded : Text → LoadedJob
loaded name = record { app = codes "crm"; path = name; job = job_of name (codes "5m") none }

abbrev catalog : List LoadedJob
catalog = loaded (codes "send-mail") ∷ loaded (codes "sync") ∷ []

catalog_validates : validate_catalog catalog queues ≡ ok tt
unfolding validate_catalog contains_text has text_eq trim_space
catalog_validates = refl

twice_is_refused :
    validate_catalog (loaded (codes "sync") ∷ catalog) queues
    ≡ err (duplicate_job (codes "sync") (codes "crm") (codes "sync") ∷ [])
unfolding validate_catalog contains_text has text_eq trim_space
twice_is_refused = refl

validate_catalog-IsRegistered_example :
    NoRepeat (map job_key catalog) × All (IsRegistered queues) catalog
validate_catalog-IsRegistered_example =
    validate_catalog-IsRegistered catalog queues catalog_validates
