-- ===== src/JobStore/Defs/Rows.antt =====
-- The SQL statements that update rows of "job_execution", and ORDER BY.
use dygo.Base.{
  ℕ, ◌+◌, Text, List, [], ◌∷◌, Bool, true, false, ◌&&◌, ◌||◌, Option, some, none, ltb, leb, ◌==◌,
  if◌then◌else◌, text_eq, ltb_ℤ, eq_ℤ,
}
use dygo.JobStore.Defs.Types.{Status, Row, Execution, running, queued, succeeded, failed, cancelled}

abbrev pub status_eq : Status → Status → Bool
status_eq queued queued = true
status_eq running running = true
status_eq succeeded succeeded = true
status_eq failed failed = true
status_eq cancelled cancelled = true
status_eq _ _ = false

-- UPDATE ... WHERE test
unfoldable pub update_where : (Row → Bool) → (Row → Row) → List Row → List Row
update_where test f [] = []
update_where test f (r ∷ rs) = (if test r then f r else r) ∷ update_where test f rs

abbrev pub has_id : ℕ → Row → Bool
has_id i r = r.id == i

-- claimExecutionSQL
unfoldable pub claim_row : ℕ → ℕ → Text → Row → Row
claim_row now until worker r = record r {
  status = running;
  started_at = some now;
  locked_until = some until;
  locked_by = some worker;
  attempts = r.attempts + 1;
}

-- The UPDATE of Complete.
unfoldable pub complete_row : Text → ℕ → Row → Row
complete_row result now r = record r {
  status = succeeded;
  result = result;
  finished_at = some now;
  locked_by = none;
  locked_until = none;
}

-- finalFailureSQL and claimedFinalFailureSQL
unfoldable pub fail_row : Text → ℕ → Row → Row
fail_row message now r = record r {
  status = failed;
  error = message;
  finished_at = some now;
  locked_by = none;
  locked_until = none;
}

-- The UPDATE of retryOrFail.
unfoldable pub requeue_row : Text → ℕ → Row → Row
requeue_row message run_after r = record r {
  status = queued;
  error = message;
  run_after = run_after;
  locked_by = none;
  locked_until = none;
}

-- The UPDATE of ExpireClaim.
unfoldable pub expire_row : ℕ → Row → Row
expire_row now r = record r { locked_until = some now }

-- The UPDATE of Cancel.
unfoldable pub cancel_row : ℕ → Row → Row
cancel_row now r = record r { status = cancelled; finished_at = some now }

abbrev pub locked_by_is : Option Text → Text → Bool
locked_by_is none worker = false
locked_by_is (some w) worker = text_eq w worker

-- `id = $ AND status = 'running' AND locked_by = $ AND attempts = $`: the worker owns the claim.
unfoldable pub owns : Execution → Row → Bool
unfolding text_eq
owns e r =
    has_id e.id r
    && status_eq r.status running
    && locked_by_is r.locked_by e.locked_by
    && (r.attempts == e.attempts)

-- The constraint "job_execution_job_idempotency_key_key": an inserted row and one that is there have
-- one job and one key. NULL keys are distinct.
abbrev pub clashes : Row → Row → Bool
clashes r s = elim r.idempotency_key [
  | none ↦ false
  | some key ↦ s.job_id == r.job_id && locked_by_is s.idempotency_key key
]

abbrev pub at_most : Option ℕ → ℕ → Bool
at_most none now = false
at_most (some t) now = leb t now

-- ORDER BY with LIMIT: an insertion sort, and `take`.
unfoldable pub insert_by : (Row → Row → Bool) → Row → List Row → List Row
insert_by before r [] = r ∷ []
insert_by before r (s ∷ ss) = if before s r then s ∷ insert_by before r ss else r ∷ s ∷ ss

unfoldable pub order_by : (Row → Row → Bool) → List Row → List Row
unfolding insert_by
order_by before [] = []
order_by before (r ∷ rs) = insert_by before r (order_by before rs)

-- priority DESC, run_after ASC, id ASC
unfoldable pub claims_before : Row → Row → Bool
claims_before r s =
    ltb_ℤ s.priority r.priority
    || (eq_ℤ r.priority s.priority
        && (ltb r.run_after s.run_after || (r.run_after == s.run_after && ltb r.id s.id)))
