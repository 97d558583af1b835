-- ===== src/JobStore/Operations/Single.antt =====
-- The operations that change one row by one UPDATE.
use dygo.Base.{
  ℕ, ◌≡◌, refl, true, not, ◌&&◌, Option, some, none, Text, Bool-cases, inl, inr, arith, any, find,
  is_empty, trim_space,
}
use dygo.JobStore.Defs.{
  Row, queued, running, Execution, Db, Runtime, owns, complete_row, fail_row, expire_row,
  cancel_row, update_owned, complete, fail_final, expire_claim, cancel, is_queued,
}
use dygo.JobStore.Lifecycle.{
  Step, completed, failed_for_good, expired, withdrawn, Evolves, here, updated,
}

abbrev pub Moves : Db → Db → Type 0
Moves db db' = Evolves db.next_id db.executions db'.next_id db'.executions

pub owns-running : (e : Execution) (r : Row) → owns e r ≡ true → r.status ≡ running
unfolding owns
owns-running e r h = ground arith

is_queued-queued : (i : ℕ) (r : Row) → is_queued i r ≡ true → r.status ≡ queued
is_queued-queued i r h = ground arith

update_owned-Moves :
    (e : Execution) (f : Row → Row) (db : Db)
    → ((r : Row) → r.status ≡ running → Step r (f r))
    → Moves db (update_owned e f db).1
update_owned-Moves e f db s = elim (Bool-cases (any (owns e) db.executions)) [
  | inl h ↦ rw h (updated (owns e) f here (λ r m t. s r (owns-running e r t)))
  | inr h ↦ rw h here
]

pub complete-Moves :
    (rt : Runtime) (e : Execution) (result : Text) (now : ℕ) (db : Db)
    → Moves db (complete rt e result now db).1
unfolding complete
complete-Moves rt e result now db =
    elim (Bool-cases (not (is_empty result) && not (rt.json_valid result))) [
      | inl h ↦ rw h here
      | inr h ↦
          rw h (update_owned-Moves e (complete_row result now) db (λ r q. completed result now q))
    ]

pub fail_final-Moves :
    (e : Execution) (message : Text) (now : ℕ) (db : Db) → Moves db (fail_final e message now db).1
unfolding fail_final
fail_final-Moves e message now db =
    update_owned-Moves e (fail_row (trim_space message) now) db
      (λ r q. failed_for_good (trim_space message) now q)

pub expire_claim-Moves : (e : Execution) (now : ℕ) (db : Db) → Moves db (expire_claim e now db).1
unfolding expire_claim
expire_claim-Moves e now db = go (find (owns e) db.executions) refl
  where
    go : (o : Option Row) → find (owns e) db.executions ≡ o → Moves db (expire_claim e now db).1
    go none h = rw (h, expire_claim) here
    go (some r) h =
        rw (h, expire_claim)
          (updated (owns e) (expire_row now) here (λ r m t. expired now (owns-running e r t)))

pub cancel-Moves : (i now : ℕ) (db : Db) → Moves db (cancel i now db).1
unfolding cancel
cancel-Moves i now db = elim (Bool-cases (any (is_queued i) db.executions)) [
  | inl h ↦ rw h (
      updated (is_queued i) (cancel_row now) here (λ r m t. withdrawn now (is_queued-queued i r t)))
  | inr h ↦ rw h here
]
