-- ===== src/JobStore/Defs/Admin.antt =====
-- Retry, List, the operations on jobs, and PruneTerminal.
use dygo.Base.{
  ℕ, zero, suc, Text, List, [], ◌∷◌, Bool, true, false, not, ◌&&◌, ◌||◌, Option, some, none, ltb,
  ◌==◌, if◌then◌else◌, text_eq, text_lt, is_empty, trim_space, contains_text, any, select, take,
  length, Result, ok, err, ◌>>=◌,
}
use dygo.JobStore.Defs.Types.{
  Status, failed, succeeded, cancelled, JobRow, JobRecord, Job, Row, Execution, Db, Runtime, Error,
  key_required, not_failed, retired, invalid_limit, invalid_prune,
}
use dygo.Base.{ℤ, pos, negsuc}
use dygo.JobStore.Defs.Rows.{status_eq, has_id, order_by}
use dygo.JobStore.Defs.Lookup.{app_of, job_of, load_job, scan_execution, get, job_from_record}
use dygo.JobStore.Defs.Enqueue.{enqueue}

abbrev pub is_terminal : Status → Bool
is_terminal succeeded = true
is_terminal failed = true
is_terminal cancelled = true
is_terminal _ = false

abbrev finished_before : Option ℕ → ℕ → Bool
finished_before none cutoff = false
finished_before (some t) cutoff = ltb t cutoff

abbrev has_key : Option Text → Bool
has_key none = false
has_key (some k) = true

-- The WHERE of PruneTerminal's candidates.
abbrev pub is_prunable : (ℕ → Bool) → List Text → ℕ → Row → Bool
is_prunable skip queue_names cutoff r =
    contains_text queue_names r.queue
    && is_terminal r.status
    && finished_before r.finished_at cutoff
    && not (has_key r.idempotency_key)
    && not (skip r.id)

abbrev finish_time : Option ℕ → ℕ
finish_time none = 0
finish_time (some t) = t

abbrev pub finished_first : Row → Row → Bool
finished_first r s =
    ltb (finish_time r.finished_at) (finish_time s.finished_at)
    || (finish_time r.finished_at == finish_time s.finished_at && ltb r.id s.id)

abbrev pub none_given : List Text → Bool
none_given [] = true
none_given (n ∷ ns) = false

-- The rows of the candidates, the oldest first.
unfoldable pub prune_candidates : (ℕ → Bool) → List Text → ℕ → ℕ → Db → List Row
prune_candidates skip queue_names cutoff limit db =
    take limit
      (order_by finished_first (select (is_prunable skip queue_names cutoff) db.executions))

-- Store.PruneTerminal of internal/jobs/store/retention.go; a zero cutoff is 0.
unfoldable pub prune_terminal : (ℕ → Bool) → List Text → ℕ → ℕ → Db → Result Error ℕ × Db
prune_terminal skip queue_names cutoff limit db =
    let candidates = prune_candidates skip queue_names cutoff limit db in
    let doomed = λ (r : Row). any (has_id r.id) candidates in
    if none_given queue_names || (cutoff == 0 || limit == 0) then (err invalid_prune, db) else (
      ok (length (select doomed db.executions)),
      record db { executions = select (λ r. not (doomed r)) db.executions },
    )

abbrev pub set_enabled : Bool → ℕ → List JobRow → List JobRow
set_enabled enabled i [] = []
set_enabled enabled i (j ∷ js) =
    (if j.id == i then record j { enabled = enabled } else j) ∷ set_enabled enabled i js

abbrev job_before : JobRecord → JobRecord → Bool
job_before j k =
    text_lt j.app_name k.app_name || (text_eq j.app_name k.app_name && text_lt j.row.key k.row.key)

insert_job : JobRecord → List JobRecord → List JobRecord
unfolding text_eq text_lt
insert_job j [] = j ∷ []
insert_job j (k ∷ ks) = if job_before k j then k ∷ insert_job j ks else j ∷ k ∷ ks

-- The join of ListJobs, in its order: the jobs of active apps.
active_jobs : Db → List JobRow → List JobRecord
unfolding insert_job
active_jobs db [] = []
active_jobs db (j ∷ js) =
    let rest = active_jobs db js in
    elim (app_of db j) [
      | none ↦ rest
      | some a ↦ if a.active then insert_job (record { row = j; app_name = a.name }) rest else rest
    ]

module _ (rt : Runtime) where
  -- Retry after Get: a failed execution's payload is enqueued once more, for its job.
  abbrev pub retry_execution :
      (Db → Db)
      → List Text
      → Option Text
      → ℕ
      → Text
      → Db
      → Result Error Execution
      → Result Error Execution × Db
  retry_execution others installing name now key db (err e) = (err e, db)
  retry_execution others installing name now key db (ok x) =
      if not (status_eq x.status failed)
      then (err not_failed, db)
      else enqueue rt others installing name now x.app_name x.job_name x.payload
          (record { idempotency_key = key; priority = pos 0; run_after = none }) db

  -- Store.Retry; `others` and the other arguments are those of `enqueue`.
  unfoldable pub retry :
      (Db → Db) → List Text → Option Text → ℕ → Text → Text → Db → Result Error Execution × Db
  retry others installing name now reference idempotency_key db =
      let key = trim_space idempotency_key in
      if is_empty key
      then (err key_required, db)
      else retry_execution others installing name now key db (get rt db (trim_space reference))

  -- setJobEnabled, which DisableJob calls with false and EnableJob with true
  abbrev pub enable_loaded : Bool → Db → Result Error JobRecord → Result Error Job × Db
  enable_loaded enabled db (err e) = (err e, db)
  enable_loaded enabled db (ok j) = if enabled && j.row.retired then (err retired, db) else (
    job_from_record rt
        (record { row = record (j.row) { enabled = enabled }; app_name = j.app_name }),
    record db { jobs = set_enabled enabled j.row.id db.jobs },
  )

  unfoldable pub set_job_enabled : Bool → List Text → Text → Text → Db → Result Error Job × Db
  set_job_enabled enabled installing app_name job_name db =
      enable_loaded enabled db (load_job db installing app_name job_name)

  scan_all : Db → List Row → Result Error (List Execution)
  unfolding scan_execution
  scan_all db [] = ok []
  scan_all db (r ∷ rs) = elim (job_of db r) [
    | none ↦ scan_all db rs
    | some j ↦ do e ← scan_execution rt j r; es ← scan_all db rs; ok (e ∷ es)
  ]

  jobs_of_records : List JobRecord → Result Error (List Job)
  unfolding job_from_record
  jobs_of_records [] = ok []
  jobs_of_records (j ∷ js) = do x ← job_from_record rt j; xs ← jobs_of_records js; ok (x ∷ xs)

  abbrev has_job : Db → Row → Bool
  has_job db r = elim (job_of db r) [ none ↦ false | some j ↦ true ]

  newest_first : Db → List Row
  unfolding order_by
  newest_first db = order_by (λ r s. ltb s.id r.id) (select (has_job db) db.executions)

  -- Store.List; a limit of 0 is 20
  unfoldable pub list : ℤ → Db → Result Error (List Execution)
  unfolding scan_all newest_first
  list (pos zero) db = scan_all db (take 20 (newest_first db))
  list (pos (suc n)) db = scan_all db (take (suc n) (newest_first db))
  list (negsuc n) db = err invalid_limit

  -- Store.ListJobs
  unfoldable pub list_jobs : Db → Result Error (List Job)
  unfolding jobs_of_records active_jobs
  list_jobs db = jobs_of_records (active_jobs db db.jobs)

  -- Store.GetJob
  unfoldable pub get_job : List Text → Text → Text → Db → Result Error Job
  unfolding load_job job_from_record
  get_job installing app_name job_name db =
      load_job db installing app_name job_name >>= job_from_record rt
