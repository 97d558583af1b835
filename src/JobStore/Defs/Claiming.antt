-- ===== src/JobStore/Defs/Claiming.antt =====
-- Claim and NextRunAfter.
use dygo.Base.{
  ℕ, ◌+◌, Text, List, [], ◌∷◌, Bool, true, false, not, ◌&&◌, ◌||◌, Option, some, none, ltb, leb,
  ◌==◌, if◌then◌else◌, is_empty, trim_space, contains_text, select, take, all, Result, ok, err,
  ◌>>=◌,
}
use dygo.JobStore.Defs.Types.{
  queued, Row, Execution, Db, Runtime, Error, worker_required, unregistered_queue, invalid_timeout,
}
use dygo.JobStore.Defs.Rows.{status_eq, update_where, has_id, claim_row, order_by, claims_before}
use dygo.JobStore.Defs.Delay.{positive}
use dygo.JobStore.Defs.Lookup.{app_of, job_of, scan_execution}
use dygo.JobStore.Defs.Enqueue.{queue_known}

-- The loop of normalizeQueueNames; `seen` holds the names that it has appended.
normalize_from : List Text → List Text → List Text
unfolding trim_space contains_text
normalize_from seen [] = []
normalize_from seen (raw ∷ names) =
    let name = trim_space raw in
    let skipped = is_empty name || contains_text seen name in
    let rest = normalize_from (if skipped then seen else name ∷ seen) names in
    if skipped then rest else name ∷ rest

-- normalizeQueueNames
unfoldable pub normalize_queue_names : List Text → List Text
unfolding normalize_from
normalize_queue_names names = normalize_from [] names

-- `a.status = 'active'` over the joins of a row with its job and its app.
abbrev pub app_active : Db → Row → Bool
app_active db r = elim (job_of db r) [
  | none ↦ false
  | some j ↦ elim (app_of db j) [ none ↦ false | some a ↦ a.active ]
]

-- The WHERE of Claim. `skip` tells the rows that another transaction has locked.
abbrev pub is_claimable : Db → (ℕ → Bool) → List Text → ℕ → Row → Bool
is_claimable db skip names now r =
    app_active db r
    && status_eq r.status queued
    && leb r.run_after now
    && contains_text names r.queue
    && not (skip r.id)

-- The rows that the query of Claim returns, in its order.
unfoldable pub claimable : Db → (ℕ → Bool) → List Text → ℕ → ℕ → List Row
unfolding contains_text order_by claims_before
claimable db skip names limit now =
    take limit (order_by claims_before (select (is_claimable db skip names now) db.executions))

abbrev pub none_named : List Text → Bool
none_named [] = true
none_named (n ∷ ns) = false

abbrev pub commit_claim :
    Db → Result Error (List Execution × List Row) → Result Error (List Execution) × Db
commit_claim db (ok (es, rows)) = (ok es, record db { executions = rows })
commit_claim db (err e) = (err e, db)

module _ (rt : Runtime) where
  abbrev pub job_timeout : Db → Row → Result Error ℕ
  job_timeout db r = elim (job_of db r) [
    | none ↦ err invalid_timeout
    | some j ↦ elim (positive (rt.parse_duration j.timeout)) [
      | none ↦ err invalid_timeout
      | some t ↦ ok t
    ]
  ]

  -- The first loop of Claim: every timeout is read before any row is claimed.
  unfoldable pub timeouts : Db → List Row → Result Error (List (Row × ℕ))
  timeouts db [] = ok []
  timeouts db (r ∷ rs) = do t ← job_timeout db r; more ← timeouts db rs; ok ((r, t) ∷ more)

  -- The row that claimExecutionSQL returns, scanned.
  abbrev pub scan_claimed : Db → Row → Result Error Execution
  scan_claimed db r = elim (job_of db r) [
    | none ↦ err invalid_timeout
    | some j ↦ scan_execution rt j r
  ]

  -- The second loop of Claim, over the ids and timeouts that the first one collected.
  unfoldable pub claim_all :
      Db → ℕ → Text → List (Row × ℕ) → List Row → Result Error (List Execution × List Row)
  unfolding scan_execution update_where claim_row
  claim_all db now worker [] rows = ok ([], rows)
  claim_all db now worker ((r, timeout) ∷ rest) rows = do
    e ← scan_claimed db (claim_row now (now + timeout) worker r)
    (es, rows') ←
        claim_all db now worker rest
          (update_where (has_id r.id) (claim_row now (now + timeout) worker) rows)
    ok ((record e { timeout = timeout }) ∷ es, rows')

  -- Store.Claim
  unfoldable pub claim :
      (ℕ → Bool) → List Text → ℕ → Text → ℕ → Db → Result Error (List Execution) × Db
  unfolding normalize_queue_names claimable timeouts claim_all
  claim skip queue_names limit worker now db =
      let names = normalize_queue_names queue_names in
      if none_named names || limit == 0
      then (ok [], db)
      else if is_empty (trim_space worker)
      then (err worker_required, db)
      else if not (all (queue_known rt.queues) names)
      then (err unregistered_queue, db)
      else commit_claim db (do
        chosen ← timeouts db (claimable db skip names limit now)
        claim_all db now worker chosen db.executions)

-- The earliest of two optional times.
abbrev earliest : Option ℕ → ℕ → Option ℕ
earliest none t = some t
earliest (some u) t = if ltb t u then some t else some u

min_run_after : (Row → Bool) → List Row → Option ℕ
min_run_after test [] = none
min_run_after test (r ∷ rs) =
    let rest = min_run_after test rs in if test r then earliest rest r.run_after else rest

-- Store.NextRunAfter
unfoldable pub next_run_after : Runtime → List Text → ℕ → Db → Result Error (Option ℕ)
unfolding normalize_queue_names contains_text min_run_after
next_run_after rt queue_names now db =
    let names = normalize_queue_names queue_names in
    if none_named names
    then ok none
    else if not (all (queue_known rt.queues) names)
    then err unregistered_queue
    else ok (
        min_run_after
          (λ r. status_eq r.status queued && contains_text names r.queue && ltb now r.run_after)
          db.executions)
