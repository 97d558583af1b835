-- ===== src/JobStore/Operations/Claims.antt =====
-- Claim in terms of single rows.
use dygo.Base.{
  ℕ, ◌+◌, ◌≡◌, refl, sym, ap, subst, List, [], ◌∷◌, Bool, true, not, ◌||◌, Text, Memᴰ, All, All-imp,
  All-of_mem, All-mem, Memᴰ-select, Memᴰ-take, select, take, all, is_empty, trim_space, ◌==◌,
  Bool-cases, inl, inr, arith, Result, ok, err, OnOk, OnOk-bind, OnOk-ok, ◌>>=◌,
}
use dygo.JobStore.Defs.{
  Row, queued, Execution, Db, Runtime, Error, has_id, update_where, claim_row, order_by,
  claims_before, is_claimable, claimable, normalize_queue_names, none_named, queue_known, timeouts,
  job_timeout, claim_all, scan_claimed, claim, commit_claim,
}
use dygo.JobStore.Lifecycle.{
  claimed, Evolves, here, IsAscending, updated_by_id, IsAscending-Evolves,
}
use dygo.JobStore.Operations.Single.{Moves}
use dygo.JobStore.Operations.Batches.{
  IsDistinct, Ascending-IsDistinct, select-IsDistinct, take-IsDistinct, order_by-IsDistinct,
  All-order_by, batch-update_where,
}

abbrev pub rows_of : List (Row × ℕ) → List Row
rows_of [] = []
rows_of ((r, t) ∷ ps) = r ∷ rows_of ps

-- A row of the batch stands in the table and passes the query's test.
abbrev pub IsChosen : Db → (ℕ → Bool) → List Text → ℕ → Row → Type 0
IsChosen db skip names now r = Memᴰ r db.executions × (is_claimable db skip names now r ≡ true)

pub claimable-IsChosen :
    (db : Db) (skip : ℕ → Bool) (names : List Text) (limit now : ℕ)
    → All (IsChosen db skip names now) (claimable db skip names limit now)
unfolding claimable
claimable-IsChosen db skip names limit now =
    let test = is_claimable db skip names now in
    let P = IsChosen db skip names now in
    let found = select test db.executions in
    let sorted =
      All-order_by P claims_before found
        (All-of_mem P found (λ r m. Memᴰ-select test db.executions r m)) in
    All-of_mem P (take limit (order_by claims_before found))
      (λ r m. All-mem P (order_by claims_before found) sorted (Memᴰ-take limit _ m))

pub claimable-IsDistinct :
    (db : Db) (skip : ℕ → Bool) (names : List Text) (limit now : ℕ)
    → IsAscending db.next_id db.executions
    → IsDistinct (claimable db skip names limit now)
unfolding claimable
claimable-IsDistinct db skip names limit now a = take-IsDistinct limit _ (
    order_by-IsDistinct claims_before _ (
      select-IsDistinct (is_claimable db skip names now) db.executions
        (Ascending-IsDistinct db.next_id db.executions a)))

pub is_claimable-queued :
    (db : Db) (skip : ℕ → Bool) (names : List Text) (now : ℕ) (r : Row)
    → is_claimable db skip names now r ≡ true
    → r.status ≡ queued
is_claimable-queued db skip names now r h = ground arith

module _ (rt : Runtime) where
  pub rows_of-timeouts :
      (db : Db) (rs : List Row) → OnOk (λ ps. rows_of ps ≡ rs) (timeouts rt db rs)
  unfolding timeouts
  rows_of-timeouts db [] = refl
  rows_of-timeouts db (r ∷ rs) =
      OnOk-bind (λ ps. rows_of ps ≡ r ∷ rs) (job_timeout rt db r) _
        λ t _.
          OnOk-bind (λ ps. rows_of ps ≡ r ∷ rs) (timeouts rt db rs) _
            λ ps q.
              ap (λ xs. r ∷ xs)
                (OnOk-ok (λ ps'. rows_of ps' ≡ rs) (timeouts rt db rs) (rows_of-timeouts db rs) q)

  -- The second loop of Claim, over a batch of queued rows that stand in the table.
  claim_all-Evolves :
      (db : Db) (now : ℕ) (worker : Text) (n m : ℕ) (rows : List Row) (batch : List (Row × ℕ))
      (xs : List Row)
      → IsAscending n rows
      → Evolves n rows m xs
      → IsDistinct (rows_of batch)
      → All (λ r. Memᴰ r xs) (rows_of batch)
      → All (λ r. r.status ≡ queued) (rows_of batch)
      → OnOk (λ p. Evolves n rows m p.1) (claim_all rt db now worker batch xs)
  unfolding claim_all
  claim_all-Evolves db now worker n m rows [] xs a e d i q = e
  claim_all-Evolves db now worker n m rows ((r, t) ∷ ps) xs a e d i q =
      let f = claim_row now (now + t) worker in
      let xs' = update_where (has_id r.id) f xs in
      let P = λ (p : List Execution × List Row). Evolves n rows m p.1 in
      let e' =
        updated_by_id n m rows xs r f e (IsAscending-Evolves e a) i.0
          (claimed now (now + t) worker q.0) in
      OnOk-bind P (scan_claimed rt db (f r)) _ λ x _.
        OnOk-bind P (claim_all rt db now worker ps xs') _ λ p found.
          OnOk-ok P (claim_all rt db now worker ps xs')
            (claim_all-Evolves db now worker n m rows ps xs' a e' d.1
              (batch-update_where r f (rows_of ps) xs d.0 i.1) q.1)
            found

  commit_claim-Moves :
      (db : Db) (m : Result Error (List Execution × List Row))
      → OnOk (λ p. Evolves db.next_id db.executions db.next_id p.1) m
      → Moves db (commit_claim db m).1
  commit_claim-Moves db (ok (es, rows)) h = h
  commit_claim-Moves db (err e) h = here

  chosen-Evolves :
      (skip : ℕ → Bool) (names : List Text) (limit : ℕ) (worker : Text) (now : ℕ) (db : Db)
      → IsAscending db.next_id db.executions
      → OnOk
          (λ p. Evolves db.next_id db.executions db.next_id p.1)
          (timeouts rt db (claimable db skip names limit now) >>= λ chosen.
            claim_all rt db now worker chosen db.executions)
  chosen-Evolves skip names limit worker now db a =
      let rs = claimable db skip names limit now in
      let c = claimable-IsChosen db skip names limit now in
      let C = IsChosen db skip names now in
      OnOk-bind (λ p. Evolves db.next_id db.executions db.next_id p.1) (timeouts rt db rs) _
        λ ps q.
          let same =
            OnOk-ok (λ ps'. rows_of ps' ≡ rs) (timeouts rt db rs) (rows_of-timeouts db rs) q in
          claim_all-Evolves db now worker db.next_id db.next_id db.executions ps db.executions a
            here (subst IsDistinct (sym same) (claimable-IsDistinct db skip names limit now a))
            (subst (All (λ r. Memᴰ r db.executions)) (sym same)
              (All-imp C (λ r. Memᴰ r db.executions) rs (λ r h. h.0) c))
            (subst (All (λ r. r.status ≡ queued)) (sym same) (
              All-imp C (λ r. r.status ≡ queued) rs
                (λ r h. is_claimable-queued db skip names now r h.1) c))

  pub claim-Moves :
      (skip : ℕ → Bool) (queue_names : List Text) (limit : ℕ) (worker : Text) (now : ℕ) (db : Db)
      → IsAscending db.next_id db.executions
      → Moves db (claim rt skip queue_names limit worker now db).1
  unfolding claim
  claim-Moves skip queue_names limit worker now db a =
      let names = normalize_queue_names queue_names in
      elim (Bool-cases (none_named names || limit == 0)) [
        | inl e ↦ rw e here
        | inr e ↦ rw e (elim (Bool-cases (is_empty (trim_space worker))) [
          | inl f ↦ rw f here
          | inr f ↦ rw f (elim (Bool-cases (not (all (queue_known rt.queues) names))) [
            | inl g ↦ rw g here
            | inr g ↦
                rw g (commit_claim-Moves db _ (chosen-Evolves skip names limit worker now db a))
          ])
        ])
      ]
