-- ===== src/JobStore/Defs/Enqueue.antt =====
-- Enqueue and insertExecution.
use dygo.Base.{
  ℕ, ◌+◌, Text, List, [], ◌∷◌, ◌++◌, Bool, true, not, ◌&&◌, ◌||◌, Option, some, none, if◌then◌else◌,
  is_empty, trim_space, any, text_eq, Result, ok, err, reject, ◌>>=◌, ◌>>◌, ℤ,
}
use dygo.Queues.{Config, has}
use dygo.JobStore.Defs.Types.{
  queued, Retry, JobRecord, Row, Execution, Db, Runtime, EnqueueOptions, Error, job_required,
  invalid_payload, disabled, retired, unregistered_queue, invalid_timeout, random_failed,
  unique_violation,
}
use dygo.JobStore.Defs.Rows.{clashes}
use dygo.JobStore.Defs.Delay.{decode_retry, encode_retry, positive}
use dygo.JobStore.Defs.Lookup.{load_job, scan_execution, find_by_idempotency, require}

abbrev pub null_if_empty : Text → Option Text
null_if_empty key = if is_empty (trim_space key) then none else some key

abbrev pub attempts_of : Option Retry → ℕ
attempts_of none = 1
attempts_of (some r) = r.attempts

-- Whether the queue is one of the configured ones, where a configuration was given.
abbrev pub queue_known : Option Config → Text → Bool
queue_known none queue = true
queue_known (some c) queue = has c queue

-- What Enqueue has worked out before it inserts.
pub record Plan : Type 0 where
  pub job : JobRecord
  pub timeout : ℕ
  pub retry : Option Retry
  pub key : Text

-- The UNIQUE constraint on the names of executions
abbrev pub has_name : Text → Row → Bool
has_name name r = text_eq r.name name

module _ (rt : Runtime) where
  -- Enqueue up to the lookup of its idempotency key.
  unfoldable pub prepare : Db → List Text → Text → Text → Text → EnqueueOptions → Result Error Plan
  unfolding load_job decode_retry trim_space
  prepare db installing app_name job_name payload options = do
    reject (is_empty (trim_space app_name) || is_empty (trim_space job_name)) job_required
    reject (not (is_empty payload) && not (rt.json_valid payload)) invalid_payload
    job ← load_job db installing app_name job_name
    reject (not job.row.enabled) disabled
    reject job.row.retired retired
    reject (not (queue_known rt.queues job.row.queue)) unregistered_queue
    elim (positive (rt.parse_duration job.row.timeout)) [
      | none ↦ err invalid_timeout
      | some timeout ↦ do
        retry ← decode_retry rt job.row.retry
        ok (record {
          job = job;
          timeout = timeout;
          retry = retry;
          key = trim_space options.idempotency_key;
        })
    ]

  -- The row of the INSERT.
  unfoldable pub fresh_row : Db → Plan → Text → Text → ℕ → ℤ → Row
  unfolding trim_space encode_retry
  fresh_row db p name payload run_after priority = record {
    id = db.next_id;
    name = name;
    job_id = p.job.row.id;
    app_name = p.job.app_name;
    job_name = p.job.row.key;
    queue = p.job.row.queue;
    status = queued;
    priority = priority;
    payload = payload;
    result = [];
    error = [];
    attempts = 0;
    max_attempts = attempts_of p.retry;
    retry = encode_retry rt p.retry;
    run_after = run_after;
    started_at = none;
    finished_at = none;
    locked_by = none;
    locked_until = none;
    idempotency_key = null_if_empty p.key;
  }

  -- The rest of insertExecution and Enqueue after the INSERT of `r`: the row is read back, the queue
  -- is notified and the transaction commits, or a failed scan rolls back.
  abbrev pub commit_insert : Db → Plan → Row → Result Error Execution → Result Error Execution × Db
  commit_insert db p r (err e) = (err e, db)
  commit_insert db p r (ok x) = (
    ok (record x { timeout = p.timeout }),
    record db {
      executions = db.executions ++ r ∷ [];
      next_id = db.next_id + 1;
      notifications = p.job.row.queue ∷ db.notifications;
    },
  )

  -- insertExecution. A conflict on the key inserts nothing and returns the row that is there; a name that a
  -- row has already is an error, since names are unique.
  unfoldable pub insert_execution : Db → Plan → Text → Text → ℕ → ℤ → Result Error Execution × Db
  unfolding text_eq
  insert_execution db p name payload run_after priority =
      let r = fresh_row db p name payload run_after priority in
      if any (clashes r) db.executions
      then (require rt unique_violation (find_by_idempotency rt db p.job.row.id p.key), db)
      else if any (has_name name) db.executions
      then (err unique_violation, db)
      else commit_insert db p r (scan_execution rt p.job.row r)

  -- Enqueue after the lookup of its key found nothing. `name` is what namegen.Random returned.
  abbrev pub enqueue_new :
      (Db → Db) → Option Text → ℕ → Text → EnqueueOptions → Db → Plan → Result Error Execution × Db
  enqueue_new others none now payload options db p = (err random_failed, others db)
  enqueue_new others (some name) now payload options db p =
      insert_execution (others db) p name payload
        (elim options.run_after [ none ↦ now | some t ↦ t ]) options.priority

  abbrev pub after_lookup :
      (Db → Db)
      → Option Text
      → ℕ
      → Text
      → EnqueueOptions
      → Db
      → Plan
      → Result Error (Option Execution)
      → Result Error Execution × Db
  after_lookup others name now payload options db p (err e) = (err e, db)
  after_lookup others name now payload options db p (ok (some x)) = (ok x, db)
  after_lookup others name now payload options db p (ok none) =
      enqueue_new others name now payload options db p

  -- The lookup of Enqueue: none without a key.
  abbrev pub lookup_key : Db → Plan → Result Error (Option Execution)
  lookup_key db p = if is_empty p.key then ok none else find_by_idempotency rt db p.job.row.id p.key

  abbrev pub after_prepare :
      (Db → Db)
      → Option Text
      → ℕ
      → Text
      → EnqueueOptions
      → Db
      → Result Error Plan
      → Result Error Execution × Db
  after_prepare others name now payload options db (err e) = (err e, db)
  after_prepare others name now payload options db (ok p) =
      after_lookup others name now payload options db p (lookup_key db p)

  -- Store.Enqueue. `now` is the clock, and `others` what other transactions commit between the
  -- lookup of the key and the insert.
  unfoldable pub enqueue :
      (Db → Db)
      → List Text
      → Option Text
      → ℕ
      → Text
      → Text
      → Text
      → EnqueueOptions
      → Db
      → Result Error Execution × Db
  enqueue others installing name now app_name job_name payload options db =
      after_prepare others name now payload options db
        (prepare db installing app_name job_name payload options)
