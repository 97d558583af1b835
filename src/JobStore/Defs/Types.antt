-- ===== src/JobStore/Defs/Types.antt =====
-- The rows of the tables that internal/jobs/store/store.go reads and writes, and its Go structs.
-- Times and durations are nanoseconds, which the columns round to microseconds; a row's JSON columns are
-- their bytes.
use dygo.Base.{ℕ, Text, List, Option, Bool, ℤ}
use dygo.Queues.{Config}

pub data Status : Type 0 where
  queued running succeeded failed cancelled : Status

-- jobs.Retry. Attempts is an int, which validation keeps positive.
pub record Retry : Type 0 where
  pub attempts : ℕ
  pub initial_delay : Text
  pub max_delay : Text

-- A row of "app"; `active` says that its status is 'active'.
pub record AppRow : Type 0 where
  pub id : ℕ
  pub name : Text
  pub active : Bool

-- A row of "job".
pub record JobRow : Type 0 where
  pub id : ℕ
  pub name : Text
  pub app_id : ℕ
  pub key : Text
  pub queue : Text
  pub timeout : Text
  pub retry : Text
  pub enabled : Bool
  pub retired : Bool

-- jobRecord: a row of "job" with the name of its app. Source, label and description are display
-- texts that no operation reads.
pub record JobRecord : Type 0 where
  pub row : JobRow
  pub app_name : Text

-- Job
pub record Job : Type 0 where
  pub id : ℕ
  pub name : Text
  pub app_name : Text
  pub key : Text
  pub queue : Text
  pub timeout : Text
  pub retry : Option Retry
  pub enabled : Bool
  pub retired : Bool

-- A row of "job_execution".
pub record Row : Type 0 where
  pub id : ℕ
  pub name : Text
  pub job_id : ℕ
  pub app_name : Text
  pub job_name : Text
  pub queue : Text
  pub status : Status
  pub priority : ℤ
  pub payload : Text
  pub result : Text
  pub error : Text
  pub attempts : ℕ
  pub max_attempts : ℕ
  pub retry : Text
  pub run_after : ℕ
  pub started_at : Option ℕ
  pub finished_at : Option ℕ
  pub locked_by : Option Text
  pub locked_until : Option ℕ
  pub idempotency_key : Option Text

-- Execution: a scanned row, with its retry settings decoded and the timeout of its job.
pub record Execution : Type 0 where
  pub id : ℕ
  pub name : Text
  pub job_id : ℕ
  pub app_name : Text
  pub job_name : Text
  pub queue : Text
  pub status : Status
  pub priority : ℤ
  pub payload : Text
  pub result : Text
  pub error : Text
  pub attempts : ℕ
  pub max_attempts : ℕ
  pub retry : Option Retry
  pub run_after : ℕ
  pub started_at : Option ℕ
  pub finished_at : Option ℕ
  pub locked_by : Text
  pub locked_until : Option ℕ
  pub idempotency_key : Text
  pub timeout : ℕ

pub data Error : Type 0 where
  job_required invalid_payload not_registered disabled retired unregistered_queue : Error
  invalid_timeout invalid_retry bad_delay random_failed unique_violation : Error
  reference_required invalid_id not_found not_queued no_longer_queued not_failed : Error
  key_required worker_required claim_lost invalid_result invalid_limit invalid_prune : Error

-- The database, and the payloads that pg_notify sent, the newest first.
pub record Db : Type 0 where
  pub apps : List AppRow
  pub jobs : List JobRow
  pub executions : List Row
  pub next_id : ℕ
  pub notifications : List Text

-- EnqueueOptions; a zero RunAfter is `none`.
pub record EnqueueOptions : Type 0 where
  pub idempotency_key : Text
  pub priority : ℤ
  pub run_after : Option ℕ

-- What the store calls of the packages time and encoding/json, with its queue configuration.
pub record Runtime : Type 0 where
  pub parse_duration : Text → Option ℤ
  pub json_valid : Text → Bool
  pub marshal_retry : Retry → Text
  pub unmarshal_retry : Text → Option Retry
  pub queues : Option Config
