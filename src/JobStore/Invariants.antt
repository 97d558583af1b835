-- ===== src/JobStore/Invariants.antt =====
-- What holds of every execution after any calls.
use Prim.Native.Nat.{max}
use dygo.Base.{
  ◌<◌, ◌≤◌, ◌≡◌, sym, ap, ◌∙◌, List, Bool, true, false, Option, some, none, All, All-mem,
  All-of_mem, Memᴰ, arith,
}
use dygo.JobStore.Defs.{
  Row, queued, running, Db, Runtime, claim_row, complete_row, requeue_row, fail_row, expire_row,
  cancel_row, status_eq, is_terminal,
}
use dygo.JobStore.Lifecycle.{
  Step, claimed, completed, requeued, failed_for_good, expired, withdrawn, IsFresh, IsKept,
  All-Evolves, IsAscending-Evolves, row_of_id, Step-id, id-lt,
}
use dygo.JobStore.Schedule.{Call, perform_all, perform_all-Moves, IsOrdered}

abbrev pub is_some {ℓ} : {A : Type ℓ} → Option A → Bool
is_some none = false
is_some (some a) = true

-- A row has an owner and a lease exactly while it runs, and a finish time exactly when it is
-- terminal; its attempts never pass the maximum, and a queued row has one left. A row whose retry
-- settings allow no attempt at all is claimed once.
pub record IsRowOk (r : Row) : Type 0 where
  pub owner : is_some r.locked_by ≡ status_eq r.status running
  pub lease : is_some r.locked_until ≡ status_eq r.status running
  pub finish : is_some r.finished_at ≡ is_terminal r.status
  pub bounded : r.attempts ≤ max 1 r.max_attempts
  pub left : r.status ≡ queued → r.attempts < max 1 r.max_attempts
  pub tried : r.status ≡ running → 1 ≤ r.attempts

Step-IsRowOk : (r s : Row) → Step r s → IsRowOk r → IsRowOk s
unfolding claim_row complete_row requeue_row fail_row expire_row cancel_row
Step-IsRowOk r s (claimed now until worker q) h = ground arith
Step-IsRowOk r s (completed result now q) h = ground arith
Step-IsRowOk r s (requeued message run_after q l) h = ground arith
Step-IsRowOk r s (failed_for_good message now q) h = ground arith
Step-IsRowOk r s (expired now q) h = ground arith
Step-IsRowOk r s (withdrawn now q) h = ground arith

IsFresh-IsRowOk : (r : Row) → IsFresh r → IsRowOk r
IsFresh-IsRowOk r f = ground arith

pub record IsSound (db : Db) : Type 0 where
  pub ordered : IsOrdered db
  pub rows_ok : All IsRowOk db.executions

-- In a database whose ids ascend and whose rows are well formed, any sequence of calls leaves the
-- ids ascending and every row well formed: owner and lease exactly while it runs, a finish time
-- exactly when it is terminal, and its attempts within the maximum (or one, if that is zero).
pub perform_all-IsSound :
    (rt : Runtime) (cs : List Call) (db : Db) → IsSound db → IsSound (perform_all rt cs db)
perform_all-IsSound rt cs db s =
    let moved = perform_all-Moves rt cs db s.ordered in
    record {
      ordered = IsAscending-Evolves moved s.ordered;
      rows_ok =
          All-Evolves IsRowOk
            (record { by_step = Step-IsRowOk; at_first = λ r _ f. IsFresh-IsRowOk r f }) moved
            s.rows_ok;
    }

Step-not_terminal : (r s : Row) → Step r s → is_terminal r.status ≡ false
Step-not_terminal r s (claimed now until worker q) = ground arith
Step-not_terminal r s (completed result now q) = ground arith
Step-not_terminal r s (requeued message run_after q l) = ground arith
Step-not_terminal r s (failed_for_good message now q) = ground arith
Step-not_terminal r s (expired now q) = ground arith
Step-not_terminal r s (withdrawn now q) = ground arith

abbrev IsCopyOf : Row → Row → Type 0
IsCopyOf t r = r.id ≡ t.id → r ≡ t

Step-IsCopyOf : (t r s : Row) → is_terminal t.status ≡ true → Step r s → IsCopyOf t r → IsCopyOf t s
Step-IsCopyOf t r s final st copy e =
    let same : r ≡ t = copy (sym (Step-id st) ∙ e) in
    let no : is_terminal t.status ≡ false =
      ap (λ (u : Row). is_terminal u.status) (sym same) ∙ Step-not_terminal r s st in
    cc

-- In a database whose ids ascend, a row that is succeeded, failed or cancelled is never changed
-- again: after any calls, a row with
-- its id is that row.
pub terminal_final :
    (rt : Runtime) (cs : List Call) (db : Db) (t r : Row)
    → IsOrdered db
    → Memᴰ t db.executions
    → is_terminal t.status ≡ true
    → Memᴰ r (perform_all rt cs db).executions
    → r.id ≡ t.id
    → r ≡ t
terminal_final rt cs db t r a m final listed =
    All-mem (IsCopyOf t) (perform_all rt cs db).executions
      (All-Evolves (IsCopyOf t) kept (perform_all-Moves rt cs db a)
        (All-of_mem (IsCopyOf t) db.executions (λ s k. row_of_id db.next_id db.executions a k m)))
      listed
  where
    known : t.id < db.next_id
    known = id-lt db.next_id db.executions a m

    kept : IsKept db.next_id (IsCopyOf t)
    kept = record {
      by_step = λ s u st c. Step-IsCopyOf t s u final st c;
      at_first = λ s n f e. absurd (omega (arith, known));
    }
