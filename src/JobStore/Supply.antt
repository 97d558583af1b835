-- ===== src/JobStore/Supply.antt =====
-- When Claim succeeds, and how much it hands out.
use Prim.Native.Nat.{min}
use dygo.Base.{
  ℕ, zero, suc, ◌+◌, ◌≡◌, refl, sym, ap, subst, ◌∙◌, List, [], ◌∷◌, Bool, true, false, Option, some,
  Text, All, All-mem, All-imp, select, take, length, all, Bool-cases, inl, inr, Result, ok, OnOk-ok,
  ◌>>=◌, trim_space, is_empty, arith, ◌==◌,
}
use dygo.JobStore.Defs.{
  Row, JobRow, Retry, Db, Runtime, Error, Execution, claim, claim_all, claim_row, timeouts,
  job_timeout, scan_claimed, scan_execution, decode_retry, positive, job_of, claimable,
  is_claimable, order_by, insert_by, claims_before, normalize_queue_names, none_named, queue_known,
  has_id, update_where, commit_claim,
}
use dygo.JobStore.Operations.{rows_of, rows_of-timeouts, IsChosen, claimable-IsChosen}

-- A row has a job with a timeout that parses to a positive duration, and retry settings that decode.
abbrev pub HasRun : Runtime → Db → Row → Type 0
HasRun rt db r =
    (j : JobRow) × (job_of db r ≡ some j)
    × (t : ℕ) × (positive (rt.parse_duration j.timeout) ≡ some t)
    × (retry : Option Retry) × (decode_retry rt r.retry ≡ ok retry)

length-insert_by :
    (before : Row → Row → Bool) (r : Row) (rs : List Row)
    → length (insert_by before r rs) ≡ suc (length rs)
unfolding insert_by
length-insert_by before r [] = refl
length-insert_by before r (s ∷ ss) = elim (Bool-cases (before s r)) [
  | inl e ↦ rw e (ap (λ (n : ℕ). suc n) (length-insert_by before r ss))
  | inr e ↦ rw e refl
]

length-order_by :
    (before : Row → Row → Bool) (rs : List Row) → length (order_by before rs) ≡ length rs
unfolding order_by
length-order_by before [] = refl
length-order_by before (r ∷ rs) =
    length-insert_by before r (order_by before rs)
    ∙ ap (λ (n : ℕ). suc n) (length-order_by before rs)

length-take : (n : ℕ) (rs : List Row) → length (take n rs) ≡ min n (length rs)
length-take zero rs = ground arith
length-take (suc n) [] = ground arith
length-take (suc n) (r ∷ rs) = ground (arith, length-take n rs)

pub length-rows : (ps : List (Row × ℕ)) → length (rows_of ps) ≡ length ps
length-rows [] = refl
length-rows ((r, t) ∷ ps) = ap (λ (n : ℕ). suc n) (length-rows ps)

module _ (rt : Runtime) (db : Db) where
  timeouts-ok :
      (rs : List Row) → All (HasRun rt db) rs → (ps : List (Row × ℕ)) × (timeouts rt db rs ≡ ok ps)
  unfolding timeouts
  timeouts-ok [] h = ([], refl)
  timeouts-ok (r ∷ rs) h =
      let (j, found, t, parsed, retry, decoded) = h.0 in
      let (ps, e) = timeouts-ok rs h.1 in
      let timed : job_timeout rt db r ≡ ok t = rw (job_timeout, found, parsed) refl in
      rw (timeouts, timed, e) (_, refl)

  scanned_ok :
      (now until : ℕ) (worker : Text) (r : Row)
      → HasRun rt db r
      → (x : Execution) × (scan_claimed rt db (claim_row now until worker r) ≡ ok x)
  unfolding claim_row scan_execution
  scanned_ok now until worker r (j, found, t, parsed, retry, decoded) =
      rw (scan_claimed, found, scan_execution, decoded, parsed) (_, refl)

  claim_all-ok :
      (now : ℕ) (worker : Text) (ps : List (Row × ℕ)) (rows : List Row)
      → All (HasRun rt db) (rows_of ps)
      → (es : List Execution) × (rows' : List Row) × (claim_all rt db now worker ps rows
          ≡ ok (es, rows'))
        × (length es ≡ length ps)
  unfolding claim_all
  claim_all-ok now worker [] rows h = ([], rows, refl, refl)
  claim_all-ok now worker ((r, timeout) ∷ ps) rows h =
      let (x, scan) = scanned_ok now (now + timeout) worker r h.0 in
      let (es, rows', e, n) =
        claim_all-ok now worker ps
          (update_where (has_id r.id) (claim_row now (now + timeout) worker) rows) h.1 in
      rw (claim_all, scan, e) (_, _, refl, ap (λ (k : ℕ). suc k) n)

  module _ (skip : ℕ → Bool) (queue_names : List Text) (limit : ℕ) (worker : Text) (now : ℕ)
      (named : none_named (normalize_queue_names queue_names) ≡ false)
      (by_worker : is_empty (trim_space worker) ≡ false)
      (known : all (queue_known rt.queues) (normalize_queue_names queue_names) ≡ true) where
    names : List Text
    names = normalize_queue_names queue_names

    available : List Row
    available = select (is_claimable db skip names now) db.executions

    batch : List Row
    batch = claimable db skip names limit now

    length-batch : length batch ≡ min limit (length available)
    unfolding batch available claimable
    length-batch =
        length-take limit (order_by claims_before available)
        ∙ ap (λ n. min limit n) (length-order_by claims_before available)

    claim-eq :
        (limit == 0) ≡ false
        → claim rt skip queue_names limit worker now db
          ≡ commit_claim db
              (timeouts rt db batch >>= λ chosen. claim_all rt db now worker chosen db.executions)
    unfolding claim batch names
    claim-eq some_room = rw (named, some_room, by_worker, known) refl

    batch-ok :
        All (HasRun rt db) db.executions
        → (es : List Execution) × (rows : List Row) × ((timeouts rt db batch >>= λ chosen.
              claim_all rt db now worker chosen db.executions)
            ≡ ok (es, rows))
          × (length es ≡ length batch)
    batch-ok h =
        let chosen = claimable-IsChosen db skip names limit now in
        let kept : All (HasRun rt db) batch =
          unfold batch in
          All-imp (IsChosen db skip names now) (HasRun rt db) (claimable db skip names limit now)
            (λ r c. All-mem (HasRun rt db) db.executions h c.0) chosen in
        let (ps, e) = timeouts-ok batch kept in
        let same : rows_of ps ≡ batch =
          OnOk-ok (λ qs. rows_of qs ≡ batch) (timeouts rt db batch) (rows_of-timeouts rt db batch)
            e in
        let (es, rows, f, n) =
          claim_all-ok now worker ps db.executions (subst (All (HasRun rt db)) (sym same) kept) in
        (
          es,
          rows,
          ap
                (λ (m : Result Error (List (Row × ℕ))).
                  m >>= λ chosen. claim_all rt db now worker chosen db.executions)
                e
              ∙ f,
          n ∙ sym (length-rows ps) ∙ ap (λ (rs : List Row). length rs) same,
        )

  -- If every execution has a job with a timeout that parses and retry settings that decode, Claim by
  -- a named worker, for at least one queue and for known queues only, succeeds; it hands out as many
  -- executions as its query may take, up to the limit.
  pub claim_supplies :
      (skip : ℕ → Bool) (queue_names : List Text) (limit : ℕ) (worker : Text) (now : ℕ)
      → none_named (normalize_queue_names queue_names) ≡ false
      → is_empty (trim_space worker) ≡ false
      → all (queue_known rt.queues) (normalize_queue_names queue_names) ≡ true
      → All (HasRun rt db) db.executions
      → (es : List Execution) × (db' : Db) × (claim rt skip queue_names limit worker now db
          ≡ (ok es, db'))
        × (length es
            ≡ min limit (
                length (
                  select
                    (is_claimable db skip (normalize_queue_names queue_names) now)
                    db.executions)))
  unfolding available names
  claim_supplies skip queue_names limit worker now named by_worker known h =
      elim (Bool-cases (limit == 0)) [
        | inl e ↦ ([], db, unfold claim in rw (named, e) refl, ground arith)
        | inr e ↦
            let (es, rows, f, n) =
              batch-ok skip queue_names limit worker now named by_worker known h in
            (
              es,
              record db { executions = rows },
              claim-eq skip queue_names limit worker now named by_worker known e
                  ∙ ap (commit_claim db) f,
              n ∙ length-batch skip queue_names limit worker now named by_worker known,
            )
      ]
