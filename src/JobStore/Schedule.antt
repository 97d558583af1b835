-- ===== src/JobStore/Schedule.antt =====
-- Sequences of calls on the store, as workers, schedulers and administrators interleave them. Each
-- call runs in a transaction of its own, so a schedule of several processes is a list of calls.
use dygo.Base.{ℕ, List, [], ◌∷◌, Bool, Option, Text, Result, ok, err, Bool-cases, inl, inr, ◌&&◌}
use dygo.JobStore.Defs.{
  Db, Runtime, Execution, EnqueueOptions, Error, JobRecord, enqueue, retry, claim, complete, fail,
  fail_final, expire_claim, cancel, cancel_queued, recover_expired, prune_terminal, set_job_enabled,
  load_job, enable_loaded,
}
use dygo.JobStore.Lifecycle.{Evolves-trans, here, IsAscending, IsAscending-Evolves}
use dygo.JobStore.Operations.{
  Moves, complete-Moves, fail-Moves, fail_final-Moves, expire_claim-Moves, cancel-Moves,
  cancel_queued-Moves, claim-Moves, recover_expired-Moves, enqueue-Moves, retry-Moves,
  prune_terminal-Moves,
}

-- The calls that change the database, with what the clock, the random source and the row locks of
-- other transactions answer.
pub data Call : Type 0 where
  enqueue_call :
      (installing : List Text) (name : Option Text) (now : ℕ) (app_name job_name payload : Text)
      (options : EnqueueOptions)
      → Call
  retry_call : (installing : List Text) (name : Option Text) (now : ℕ) (reference key : Text) → Call
  claim_call :
      (skip : ℕ → Bool) (queue_names : List Text) (limit : ℕ) (worker : Text) (now : ℕ) → Call
  complete_call : (e : Execution) (result : Text) (now : ℕ) → Call
  fail_call : (int64n : ℕ → ℕ → ℕ) (e : Execution) (message : Text) (now : ℕ) → Call
  fail_final_call : (e : Execution) (message : Text) (now : ℕ) → Call
  expire_call : (e : Execution) (now : ℕ) → Call
  cancel_call : (id now : ℕ) → Call
  cancel_queued_call : (reference : Text) (now : ℕ) → Call
  recover_call : (skip : ℕ → Bool) (int64n : ℕ → ℕ → ℕ) (message : Text) (now : ℕ) → Call
  prune_call : (skip : ℕ → Bool) (queue_names : List Text) (cutoff limit : ℕ) → Call
  enable_call : (enabled : Bool) (installing : List Text) (app_name job_name : Text) → Call

abbrev pub no_others : Db → Db
no_others db = db

-- The database after a call.
unfoldable pub perform : Runtime → Call → Db → Db
perform rt (enqueue_call installing name now app_name job_name payload options) db =
    (enqueue rt no_others installing name now app_name job_name payload options db).1
perform rt (retry_call installing name now reference key) db =
    (retry rt no_others installing name now reference key db).1
perform rt (claim_call skip queue_names limit worker now) db =
    (claim rt skip queue_names limit worker now db).1
perform rt (complete_call e result now) db = (complete rt e result now db).1
perform rt (fail_call int64n e message now) db = (fail rt int64n e message now db).1
perform rt (fail_final_call e message now) db = (fail_final e message now db).1
perform rt (expire_call e now) db = (expire_claim e now db).1
perform rt (cancel_call id now) db = (cancel id now db).1
perform rt (cancel_queued_call reference now) db = (cancel_queued rt no_others reference now db).1
perform rt (recover_call skip int64n message now) db =
    (recover_expired rt skip int64n message now db).1
perform rt (prune_call skip queue_names cutoff limit) db =
    (prune_terminal skip queue_names cutoff limit db).1
perform rt (enable_call enabled installing app_name job_name) db =
    (set_job_enabled rt enabled installing app_name job_name db).1

unfoldable pub perform_all : Runtime → List Call → Db → Db
perform_all rt [] db = db
perform_all rt (c ∷ cs) db = perform_all rt cs (perform rt c db)

enable_loaded-Moves :
    (rt : Runtime) (enabled : Bool) (db : Db) (m : Result Error JobRecord)
    → Moves db (enable_loaded rt enabled db m).1
enable_loaded-Moves rt enabled db (err e) = here
enable_loaded-Moves rt enabled db (ok j) = elim (Bool-cases (enabled && j.row.retired)) [
  | inl e ↦ rw e here
  | inr e ↦ rw e here
]

set_job_enabled-Moves :
    (rt : Runtime) (enabled : Bool) (installing : List Text) (app_name job_name : Text) (db : Db)
    → Moves db (set_job_enabled rt enabled installing app_name job_name db).1
unfolding set_job_enabled
set_job_enabled-Moves rt enabled installing app_name job_name db =
    enable_loaded-Moves rt enabled db (load_job db installing app_name job_name)

abbrev pub IsOrdered : Db → Type 0
IsOrdered db = IsAscending db.next_id db.executions

pub perform-Moves : (rt : Runtime) (c : Call) (db : Db) → IsOrdered db → Moves db (perform rt c db)
unfolding perform
perform-Moves rt (enqueue_call installing name now app_name job_name payload options) db a =
    enqueue-Moves rt no_others db here installing name now app_name job_name payload options
perform-Moves rt (retry_call installing name now reference key) db a =
    retry-Moves rt no_others db here installing name now reference key
perform-Moves rt (claim_call skip queue_names limit worker now) db a =
    claim-Moves rt skip queue_names limit worker now db a
perform-Moves rt (complete_call e result now) db a = complete-Moves rt e result now db
perform-Moves rt (fail_call int64n e message now) db a = fail-Moves rt int64n e message now db a
perform-Moves rt (fail_final_call e message now) db a = fail_final-Moves e message now db
perform-Moves rt (expire_call e now) db a = expire_claim-Moves e now db
perform-Moves rt (cancel_call id now) db a = cancel-Moves id now db
perform-Moves rt (cancel_queued_call reference now) db a =
    cancel_queued-Moves rt no_others db here reference now
perform-Moves rt (recover_call skip int64n message now) db a =
    recover_expired-Moves rt skip int64n message now db a
perform-Moves rt (prune_call skip queue_names cutoff limit) db a =
    prune_terminal-Moves skip queue_names cutoff limit db a
perform-Moves rt (enable_call enabled installing app_name job_name) db a =
    set_job_enabled-Moves rt enabled installing app_name job_name db

pub perform_all-Moves :
    (rt : Runtime) (cs : List Call) (db : Db) → IsOrdered db → Moves db (perform_all rt cs db)
unfolding perform_all
perform_all-Moves rt [] db a = here
perform_all-Moves rt (c ∷ cs) db a =
    let moved = perform-Moves rt c db a in
    Evolves-trans moved (perform_all-Moves rt cs (perform rt c db) (IsAscending-Evolves moved a))
