-- ===== src/JobStore/Operations/Settling.antt =====
-- Fail and RecoverExpired in terms of single rows.
use dygo.Base.{
  ℕ, ◌≡◌, refl, sym, subst, List, [], ◌∷◌, Bool, true, false, Option, some, none, Text, Memᴰ, All,
  All-of_mem, Memᴰ-select, select, find, length, Bool-cases, inl, inr, arith, ltb, ltb→lt,
  trim_space, ◌+◌, Result, ok, err, OnOk, OnOk-bind, OnOk-ok, OnOk-imp, find-some,
}
use dygo.JobStore.Defs.{
  Row, running, Retry, Execution, Db, Runtime, Error, Work, owns, has_id, update_where, requeue_row,
  fail_row, decode_retry, retry_delay, retry_or_fail, settle, settle_all, fail, recover_expired,
  is_expired, status_eq, commit, work_of,
}
use dygo.JobStore.Lifecycle.{
  Step, requeued, failed_for_good, Evolves, here, IsAscending, updated_by_id, IsAscending-Evolves,
}
use dygo.JobStore.Operations.Single.{Moves, owns-running}
use dygo.JobStore.Operations.Batches.{
  IsDistinct, Ascending-IsDistinct, select-IsDistinct, batch-update_where,
}

-- The table after `r` was settled: one update by its id, whose new row is a step of `r`.
pub record IsSettled (r : Row) (w w' : Work) : Type 0 where
  pub change : Row → Row
  pub is_step : Step r (change r)
  pub stops : status_eq (change r).status running ≡ false
  pub rows_eq : w'.rows ≡ update_where (has_id r.id) change w.rows

module _ (rt : Runtime) where
  retry_or_fail-IsSettled :
      (int64n : ℕ → ℕ) (r : Row) (retry : Option Retry) (message : Text) (now : ℕ) (w : Work)
      → r.status ≡ running
      → OnOk (IsSettled r w) (retry_or_fail rt int64n r retry message now w)
  unfolding retry_or_fail requeue_row fail_row
  retry_or_fail-IsSettled int64n r retry message now w run =
      elim (Bool-cases (ltb r.attempts r.max_attempts)) [
        | inl e ↦ rw e (
            OnOk-bind (IsSettled r w) (retry_delay rt int64n retry r.attempts) _ λ delay _. record {
              change = requeue_row (trim_space message) (now + delay);
              is_step =
                  requeued (trim_space message) (now + delay) run
                    (ltb→lt r.attempts r.max_attempts e);
              stops = refl;
              rows_eq = refl;
            })
        | inr e ↦ rw e (record {
          change = fail_row (trim_space message) now;
          is_step = failed_for_good (trim_space message) now run;
          stops = refl;
          rows_eq = refl;
        })
      ]

  pub settle-IsSettled :
      (int64n : ℕ → ℕ → ℕ) (message : Text) (now : ℕ) (r : Row) (w : Work)
      → r.status ≡ running
      → OnOk (IsSettled r w) (settle rt int64n message now r w)
  unfolding settle
  settle-IsSettled int64n message now r w run =
      OnOk-bind (IsSettled r w) (decode_retry rt r.retry) _
        (λ retry _. retry_or_fail-IsSettled (int64n r.id) r retry message now w run)

  pub settled-Evolves :
      (n m : ℕ) (rows : List Row) (r : Row) (w w' : Work)
      → Evolves n rows m w.rows
      → IsAscending m w.rows
      → Memᴰ r w.rows
      → IsSettled r w w'
      → Evolves n rows m w'.rows
  settled-Evolves n m rows r w w' e a i s =
      subst (Evolves n rows m) (sym s.rows_eq)
        (updated_by_id n m rows w.rows r s.change e a i s.is_step)

  -- The loop over a batch of running rows that stand in the table.
  settle_all-Evolves :
      (int64n : ℕ → ℕ → ℕ) (message : Text) (now n m : ℕ) (rows batch : List Row) (w : Work)
      → IsAscending n rows
      → Evolves n rows m w.rows
      → IsDistinct batch
      → All (λ r. Memᴰ r w.rows) batch
      → All (λ r. r.status ≡ running) batch
      → OnOk (λ w'. Evolves n rows m w'.rows) (settle_all rt int64n message now batch w)
  unfolding settle_all
  settle_all-Evolves int64n message now n m rows [] w a e d i run = e
  settle_all-Evolves int64n message now n m rows (r ∷ rs) w a e d i run =
      OnOk-bind (λ w'. Evolves n rows m w'.rows) (settle rt int64n message now r w) _
        λ w' q.
          let s =
            OnOk-ok (IsSettled r w) (settle rt int64n message now r w)
              (settle-IsSettled int64n message now r w run.0) q in
          settle_all-Evolves int64n message now n m rows rs w' a
            (settled-Evolves n m rows r w w' e (IsAscending-Evolves e a) i.0 s) d.1
            (subst (λ t. All (λ u. Memᴰ u t) rs) (sym s.rows_eq)
              (batch-update_where r s.change rs w.rows d.0 i.1))
            run.1

  commit-Moves :
      {A : Type 0} (a : A) (m : Result Error Work) (db : Db)
      → OnOk (λ w. Evolves db.next_id db.executions db.next_id w.rows) m
      → Moves db (commit rt a m db).1
  commit-Moves a (ok w) db h = h
  commit-Moves a (err e) db h = here

  pub fail-Moves :
      (int64n : ℕ → ℕ → ℕ) (e : Execution) (message : Text) (now : ℕ) (db : Db)
      → IsAscending db.next_id db.executions
      → Moves db (fail rt int64n e message now db).1
  unfolding fail
  fail-Moves int64n e message now db a = go (find (owns e) db.executions) refl
    where
      go :
          (o : Option Row)
          → find (owns e) db.executions ≡ o
          → Moves db (fail rt int64n e message now db).1
      go none h = rw (h, fail) here
      go (some r) h =
          let (m, t) = find-some (owns e) db.executions h in
          let w = work_of rt db in
          rw (h, fail)
            (commit-Moves tt (settle rt int64n message now r w) db (
              OnOk-imp (IsSettled r w) (λ w'. Evolves db.next_id db.executions db.next_id w'.rows)
                (settle rt int64n message now r w)
                (λ w' s. settled-Evolves db.next_id db.next_id db.executions r w w' here a m s)
                (settle-IsSettled int64n message now r w (owns-running e r t))))

  pub recover_expired-Moves :
      (skip : ℕ → Bool) (int64n : ℕ → ℕ → ℕ) (message : Text) (now : ℕ) (db : Db)
      → IsAscending db.next_id db.executions
      → Moves db (recover_expired rt skip int64n message now db).1
  unfolding recover_expired
  recover_expired-Moves skip int64n message now db a =
      let batch = select (is_expired skip now) db.executions in
      let listed =
        λ (r : Row) (m : Memᴰ r batch). Memᴰ-select (is_expired skip now) db.executions r m in
      commit-Moves (length batch) (settle_all rt int64n message now batch (work_of rt db)) db (
        settle_all-Evolves int64n message now db.next_id db.next_id db.executions batch
          (work_of rt db) a here
          (select-IsDistinct (is_expired skip now) db.executions
            (Ascending-IsDistinct db.next_id db.executions a))
          (All-of_mem (λ r. Memᴰ r db.executions) batch (λ r m. (listed r m).0))
          (All-of_mem (λ r. r.status ≡ running) batch
            (λ r m. is_expired-running skip now r (listed r m).1)))
    where
      is_expired-running :
          (skip : ℕ → Bool) (now : ℕ) (r : Row) → is_expired skip now r ≡ true → r.status ≡ running
      is_expired-running skip now r h = ground arith
