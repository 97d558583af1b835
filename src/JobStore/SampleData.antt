-- ===== src/JobStore/SampleData.antt =====
-- A small job store: one app, one job with three attempts, and states of it.
use dygo.Base.{
  ℕ, List, [], ◌∷◌, true, false, Option, some, none, Text, codes, text_eq, trim_space,
  if◌then◌else◌, ℤ, pos,
}
use dygo.JobStore.Defs.{
  Retry, JobRow, Row, Execution, Db, Runtime, EnqueueOptions, Status, queued, running, succeeded,
  enqueue, claim, complete, fail, recover_expired, prepare, load_job, scan_execution,
  find_by_idempotency, select_execution, insert_execution, fresh_row, decode_retry, encode_retry,
  update_where, claim_row, complete_row, fail_row, requeue_row, expire_row, owns, order_by,
  insert_by, claims_before, claimable, normalize_queue_names, timeouts, claim_all, settle,
  settle_all, retry_or_fail, retry_delay, capped_delay, backoff, jittered,
}
use dygo.JobStore.Schedule.{Call, enqueue_call, claim_call, perform, perform_all}

abbrev pub three_times : Retry
three_times = record { attempts = 3; initial_delay = codes "10s"; max_delay = codes "5m" }

abbrev pub seconds : Text → Option ℤ
unfolding text_eq
seconds t =
    if text_eq t (codes "10s")
    then some (pos 10)
    else if text_eq t (codes "5m")
    then some (pos 300)
    else none

abbrev pub rt : Runtime
rt = record {
  parse_duration = seconds;
  json_valid = λ _. true;
  marshal_retry = λ _. codes "{}";
  unmarshal_retry = λ _. some three_times;
  queues = none;
}

abbrev pub mail_job : JobRow
mail_job = record {
  id = 7;
  name = codes "j";
  app_id = 1;
  key = codes "mail";
  queue = codes "default";
  timeout = codes "10s";
  retry = codes "{}";
  enabled = true;
  retired = false;
}

abbrev pub start : Db
start = record {
  apps = record { id = 1; name = codes "crm"; active = true } ∷ [];
  jobs = mail_job ∷ [];
  executions = [];
  next_id = 1;
  notifications = [];
}

abbrev pub keyed : EnqueueOptions
keyed = record { idempotency_key = codes "k"; priority = pos 0; run_after = none }

abbrev pub enqueue_mail : Call
enqueue_mail = enqueue_call [] (some (codes "x")) 100 (codes "crm") (codes "mail") [] keyed

abbrev pub claim_mail : ℕ → Text → Call
claim_mail now worker = claim_call (λ _. false) (codes "default" ∷ []) 5 worker now

-- The store after the job was enqueued, twice with one key, and claimed by worker a.
abbrev pub claimed_once : Db
unfolding perform_all perform
claimed_once = perform_all rt (enqueue_mail ∷ enqueue_mail ∷ claim_mail 100 (codes "a") ∷ []) start

unfoldable pub program : Unit {0}
unfolding perform_all perform enqueue prepare load_job scan_execution find_by_idempotency
    select_execution insert_execution fresh_row decode_retry encode_retry update_where claim_row
    complete_row fail_row requeue_row expire_row owns order_by insert_by claims_before claimable
    normalize_queue_names timeouts claim_all settle settle_all retry_or_fail retry_delay
    capped_delay backoff jittered claim complete fail recover_expired trim_space text_eq
program = tt

abbrev pub statuses : List Row → List (Status × ℕ)
statuses [] = []
statuses (r ∷ rs) = (r.status, r.attempts) ∷ statuses rs

abbrev pub three_calls : List Call
three_calls = enqueue_mail ∷ enqueue_mail ∷ claim_mail 100 (codes "a") ∷ []

-- A row that worker a has claimed for its first attempt at time 100.
abbrev pub running_row : Row
running_row = record {
  id = 1;
  name = codes "x";
  job_id = 7;
  app_name = codes "crm";
  job_name = codes "mail";
  queue = codes "default";
  status = running;
  priority = pos 0;
  payload = [];
  result = [];
  error = [];
  attempts = 1;
  max_attempts = 3;
  retry = codes "{}";
  run_after = 100;
  started_at = some 100;
  finished_at = none;
  locked_by = some (codes "a");
  locked_until = some 110;
  idempotency_key = some (codes "k");
}

abbrev pub done_row : Row
done_row = record running_row {
  status = succeeded;
  finished_at = some 105;
  locked_by = none;
  locked_until = none;
}

abbrev pub with_row : Row → Db
with_row r = record start { executions = r ∷ []; next_id = 2 }

-- The claim of worker a.
abbrev pub claim_of_a : Execution
claim_of_a = record {
  id = 1;
  name = codes "x";
  job_id = 7;
  app_name = codes "crm";
  job_name = codes "mail";
  queue = codes "default";
  status = running;
  priority = pos 0;
  payload = [];
  result = [];
  error = [];
  attempts = 1;
  max_attempts = 3;
  retry = some three_times;
  run_after = 100;
  started_at = some 100;
  finished_at = none;
  locked_by = codes "a";
  locked_until = some 110;
  idempotency_key = codes "k";
  timeout = 10;
}

-- Worker b holds the second attempt.
abbrev pub stolen_row : Row
stolen_row = record running_row { attempts = 2; locked_by = some (codes "b") }

-- RecoverExpired at time 200, when the lease of worker a has run out.
abbrev pub recovered : Db
unfolding recover_expired
recovered =
    (recover_expired rt (λ _. false) (λ _ _. 0) (codes "expired") 200 (with_row running_row)).1

-- A row that worker b has claimed until time 210, after the expired one.
abbrev pub live_row : Row
live_row = record running_row {
  id = 2;
  locked_by = some (codes "b");
  locked_until = some 210;
  idempotency_key = none;
}

abbrev pub two_rows : Db
two_rows = record start { executions = running_row ∷ live_row ∷ []; next_id = 3 }

abbrev pub two_recovered : Db
unfolding recover_expired
two_recovered = (recover_expired rt (λ _. false) (λ _ _. 0) (codes "expired") 200 two_rows).1

-- The claim that worker b is handed at time 300: the retry was due at 205.
abbrev pub second_claim : Execution
second_claim = record claim_of_a {
  error = codes "expired";
  attempts = 2;
  run_after = 205;
  started_at = some 300;
  locked_by = codes "b";
  locked_until = some 310;
}

-- The execution that the first call of Enqueue returns.
abbrev pub queued_mail : Execution
queued_mail = record claim_of_a {
  status = queued;
  attempts = 0;
  started_at = none;
  locked_by = [];
  locked_until = none;
}
