-- ===== src/JobStore/Defs/Lookup.antt =====
-- Reading jobs and executions: loadJob, scanExecution, the find functions and Get.
use dygo.Base.{
  ℕ, suc, Text, List, [], Bool, false, ◌&&◌, ◌||◌, Option, some, none, ◌==◌, if◌then◌else◌, text_eq,
  contains_text, is_empty, trim_space, find, Result, ok, err, reject, ◌>>=◌, ◌>>◌, pos, parse_int,
}
use dygo.JobStore.Defs.Types.{
  AppRow, JobRow, JobRecord, Retry, Job, Row, Execution, Db, Runtime, Error, job_required,
  not_registered, invalid_timeout, reference_required, invalid_id, not_found,
}
use dygo.JobStore.Defs.Rows.{has_id, locked_by_is}
use dygo.JobStore.Defs.Delay.{decode_retry, positive}

abbrev pub app_of : Db → JobRow → Option AppRow
app_of db j = find (λ a. a.id == j.app_id) db.apps

abbrev pub job_of : Db → Row → Option JobRow
job_of db r = find (λ j. j.id == r.job_id) db.jobs

-- AppRuntimePredicate: an active app, or one that the context names as being installed.
abbrev pub visible : List Text → AppRow → Bool
visible installing a = a.active || contains_text installing a.name

-- The join of "job" and "app", with the WHERE of loadJob.
unfoldable pub is_job : Db → List Text → Text → Text → JobRow → Bool
unfolding text_eq contains_text
is_job db installing app key j = elim (app_of db j) [
  | none ↦ false
  | some a ↦ text_eq a.name app && (text_eq j.key key && visible installing a)
]

-- loadJob and loadJobForUpdate
unfoldable pub load_job : Db → List Text → Text → Text → Result Error JobRecord
unfolding is_job trim_space
load_job db installing app_name job_name =
    let app = trim_space app_name in
    let key = trim_space job_name in
    if is_empty app || is_empty key
    then err job_required
    else elim (find (is_job db installing app key) db.jobs) [
      | none ↦ err not_registered
      | some j ↦ ok (record { row = j; app_name = app })
    ]

-- The struct that scanExecution fills, given the decoded retry settings and the parsed timeout.
abbrev pub scanned : Row → Option Retry → Option ℕ → Result Error Execution
scanned r retry none = err invalid_timeout
scanned r retry (some timeout) = ok (record {
  id = r.id;
  name = r.name;
  job_id = r.job_id;
  app_name = r.app_name;
  job_name = r.job_name;
  queue = r.queue;
  status = r.status;
  priority = r.priority;
  payload = r.payload;
  result = r.result;
  error = r.error;
  attempts = r.attempts;
  max_attempts = r.max_attempts;
  retry = retry;
  run_after = r.run_after;
  started_at = r.started_at;
  finished_at = r.finished_at;
  locked_by = elim r.locked_by [ none ↦ [] | some w ↦ w ];
  locked_until = r.locked_until;
  idempotency_key = elim r.idempotency_key [ none ↦ [] | some k ↦ k ];
  timeout = timeout;
})

module _ (rt : Runtime) where
  -- scanExecution
  unfoldable pub scan_execution : JobRow → Row → Result Error Execution
  scan_execution j r =
      decode_retry rt r.retry >>= λ retry. scanned r retry (positive (rt.parse_duration j.timeout))

  -- A SELECT over the join of "job_execution" and "job": the first row that passes the test.
  unfoldable pub select_execution : Db → (Row → Bool) → Result Error (Option Execution)
  unfolding scan_execution
  select_execution db test = elim (find test db.executions) [
    | none ↦ ok none
    | some r ↦ elim (job_of db r) [
      | none ↦ ok none
      | some j ↦ do e ← scan_execution j r; ok (some e)
    ]
  ]

  -- findExecutionByID and findExecutionByName, for a row that has to be there
  abbrev pub require : Error → Result Error (Option Execution) → Result Error Execution
  require missing found = do e ← found; elim e [ none ↦ err missing | some x ↦ ok x ]

  -- findExecutionByReference
  find_by_reference : Db → Text → Result Error Execution
  unfolding select_execution parse_int text_eq
  find_by_reference db reference = elim (parse_int reference) [
    | some (pos (suc n)) ↦ require not_found (select_execution db (has_id (suc n)))
    | some _ ↦ err invalid_id
    | none ↦ require not_found (select_execution db (λ r. text_eq r.name reference))
  ]

  -- Store.Get
  unfoldable pub get : Db → Text → Result Error Execution
  unfolding find_by_reference trim_space
  get db reference = do
    let name = trim_space reference
    reject (is_empty name) reference_required
    find_by_reference db name

  -- findExecutionByIdempotency
  unfoldable pub find_by_idempotency : Db → ℕ → Text → Result Error (Option Execution)
  unfolding select_execution text_eq
  find_by_idempotency db job_id key =
      select_execution db (λ r. r.job_id == job_id && locked_by_is r.idempotency_key key)

  -- jobFromRecord
  unfoldable pub job_from_record : JobRecord → Result Error Job
  unfolding decode_retry
  job_from_record j = do
    retry ← decode_retry rt j.row.retry
    ok (record {
      id = j.row.id;
      name = j.row.name;
      app_name = j.app_name;
      key = j.row.key;
      queue = j.row.queue;
      timeout = j.row.timeout;
      retry = retry;
      enabled = j.row.enabled;
      retired = j.row.retired;
    })
