-- ===== src/JobStore/Defs/Settle.antt =====
-- The end of an attempt: Complete, Fail, FailFinal, ExpireClaim, Cancel, RecoverExpired.
use dygo.Base.{
  ℕ, ◌+◌, Text, List, [], ◌∷◌, Bool, true, false, not, ◌&&◌, Option, some, none, ltb, ◌==◌,
  if◌then◌else◌, is_empty, trim_space, any, find, select, length, Result, ok, err, ◌>>=◌,
}
use dygo.JobStore.Defs.Types.{
  Status, running, queued, Retry, Row, Execution, Db, Runtime, Error, claim_lost, invalid_result,
  not_queued, no_longer_queued,
}
use dygo.JobStore.Defs.Rows.{
  status_eq, update_where, has_id, complete_row, fail_row, requeue_row, expire_row, cancel_row,
  owns, at_most,
}
use dygo.JobStore.Defs.Delay.{decode_retry, retry_delay}
use dygo.JobStore.Defs.Lookup.{get}

-- The rows of the table and the notifications, while a transaction runs.
pub record Work : Type 0 where
  pub rows : List Row
  pub sent : List Text

-- execWithStatus with an UPDATE: whether a row was affected, and the table after it.
abbrev pub update_db : (Row → Bool) → (Row → Row) → Db → Db
update_db test f db = record db { executions = update_where test f db.executions }

abbrev pub update_owned : Execution → (Row → Row) → Db → Result Error (Unit {0}) × Db
update_owned e f db =
    if any (owns e) db.executions then (ok tt, update_db (owns e) f db) else (err claim_lost, db)

-- Store.FailFinal
unfoldable pub fail_final : Execution → Text → ℕ → Db → Result Error (Unit {0}) × Db
unfolding update_where owns fail_row trim_space
fail_final e message now db = update_owned e (fail_row (trim_space message) now) db

-- Store.ExpireClaim
unfoldable pub expire_claim : Execution → ℕ → Db → Result Error (Unit {0}) × Db
unfolding update_where owns expire_row
expire_claim e now db = elim (find (owns e) db.executions) [
  | none ↦ (err claim_lost, db)
  | some r ↦ (
    ok tt,
    record db {
      executions = update_where (owns e) (expire_row now) db.executions;
      notifications = r.queue ∷ db.notifications;
    },
  )
]

abbrev pub is_queued : ℕ → Row → Bool
is_queued i r = r.id == i && status_eq r.status queued

-- Store.Cancel
unfoldable pub cancel : ℕ → ℕ → Db → Bool × Db
unfolding update_where cancel_row
cancel i now db =
    if any (is_queued i) db.executions
    then (true, update_db (is_queued i) (cancel_row now) db)
    else (false, db)

-- The WHERE of RecoverExpired. `skip` tells the rows that another transaction has locked.
abbrev pub is_expired : (ℕ → Bool) → ℕ → Row → Bool
is_expired skip now r = status_eq r.status running && at_most r.locked_until now && not (skip r.id)

module _ (rt : Runtime) where
  -- Store.Complete
  unfoldable pub complete : Execution → Text → ℕ → Db → Result Error (Unit {0}) × Db
  unfolding update_where owns complete_row
  complete e result now db =
      if not (is_empty result) && not (rt.json_valid result)
      then (err invalid_result, db)
      else update_owned e (complete_row result now) db

  -- retryOrFail, for the row that its caller has read and locked
  unfoldable pub retry_or_fail : (ℕ → ℕ) → Row → Option Retry → Text → ℕ → Work → Result Error Work
  unfolding retry_delay update_where requeue_row fail_row trim_space
  retry_or_fail int64n r retry message now w =
      if ltb r.attempts r.max_attempts
      then retry_delay rt int64n retry r.attempts >>= (λ delay. ok (record {
        rows = update_where (has_id r.id) (requeue_row (trim_space message) (now + delay)) w.rows;
        sent = r.queue ∷ w.sent;
      }))
      else ok (record w {
        rows = update_where (has_id r.id) (fail_row (trim_space message) now) w.rows;
      })

  abbrev pub commit {ℓ} : {A : Type ℓ} → A → Result Error Work → Db → Result Error A × Db
  commit a (ok w) db = (ok a, record db { executions = w.rows; notifications = w.sent })
  commit a (err e) db = (err e, db)

  abbrev pub work_of : Db → Work
  work_of db = record { rows = db.executions; sent = db.notifications }

  -- One row of Fail and of RecoverExpired: decode its retry settings, then retryOrFail.
  unfoldable pub settle : (ℕ → ℕ → ℕ) → Text → ℕ → Row → Work → Result Error Work
  unfolding decode_retry retry_or_fail
  settle int64n message now r w = do
    retry ← decode_retry rt r.retry
    retry_or_fail (int64n r.id) r retry message now w

  -- Store.Fail. `int64n i` is what rand.Int64N answers while row i is handled.
  unfoldable pub fail : (ℕ → ℕ → ℕ) → Execution → Text → ℕ → Db → Result Error (Unit {0}) × Db
  unfolding settle owns
  fail int64n e message now db = elim (find (owns e) db.executions) [
    | none ↦ (err claim_lost, db)
    | some r ↦ commit tt (settle int64n message now r (work_of db)) db
  ]

  -- The loop of RecoverExpired over the rows that its query returned.
  unfoldable pub settle_all : (ℕ → ℕ → ℕ) → Text → ℕ → List Row → Work → Result Error Work
  unfolding settle
  settle_all int64n message now [] w = ok w
  settle_all int64n message now (r ∷ rs) w =
      settle int64n message now r w >>= λ w'. settle_all int64n message now rs w'

  -- Store.RecoverExpired; `message` is "worker lease expired".
  unfoldable pub recover_expired : (ℕ → Bool) → (ℕ → ℕ → ℕ) → Text → ℕ → Db → Result Error ℕ × Db
  unfolding settle_all
  recover_expired skip int64n message now db =
      let expired = select (is_expired skip now) db.executions in
      commit (length expired) (settle_all int64n message now expired (work_of db)) db

  -- CancelQueued after Get: the status is checked, and Cancel runs in a transaction of its own.
  abbrev pub after_get : (Db → Db) → ℕ → Db → Result Error Execution → Result Error Execution × Db
  after_get others now db (err e) = (err e, db)
  after_get others now db (ok x) =
      if not (status_eq x.status queued)
      then (err not_queued, db)
      else let (done, db') = cancel x.id now (others db) in
        (
          if done
              then ok (record x { status = Status.cancelled; finished_at = some now })
              else err no_longer_queued,
          db',
        )

  -- Store.CancelQueued; `others` is what other transactions commit between Get and Cancel.
  unfoldable pub cancel_queued : (Db → Db) → Text → ℕ → Db → Result Error Execution × Db
  cancel_queued others reference now db = after_get others now db (get rt db (trim_space reference))
