-- ===== src/JobStore/Fencing.antt =====
-- Claims: the id of an execution, its worker and the attempt that it was given, and the calls that
-- settle one.
use dygo.Base.{
  ℕ, ◌<◌, ◌≤◌, ◌≡◌, refl, sym, ap, subst, ◌∙◌, List, [], ◌∷◌, Bool, true, false, not, ◌&&◌, none,
  All, All-of_mem, Memᴰ, any, find, Bool-cases, inl, inr, arith, Text, ◌==◌, ==→≡, Result, ok, err,
  is_empty,
}
use dygo.JobStore.Defs.{
  Row, Db, Runtime, Execution, Error, claim_lost, claim_row, complete_row, requeue_row, fail_row,
  expire_row, cancel_row, owns, complete, fail, fail_final, expire_claim, update_owned, update_db,
}
use dygo.JobStore.Lifecycle.{
  Step, claimed, completed, requeued, failed_for_good, expired, withdrawn, IsKept, All-Evolves,
  IsAscending, IsAscending-Evolves, Evolves-le, row_of_id, id-lt, All-update_cases,
}
use dygo.JobStore.Operations.{complete-Moves}
use dygo.JobStore.Schedule.{Call, perform_all, perform_all-Moves, IsOrdered}

-- The row is not the claim's, and if it is the claim's execution, it has had that attempt.
pub record IsLost (e : Execution) (r : Row) : Type 0 where
  pub passed : r.id ≡ e.id → e.attempts ≤ r.attempts
  pub not_owned : owns e r ≡ false

Step-IsLost : (e : Execution) (r s : Row) → Step r s → IsLost e r → IsLost e s
unfolding owns claim_row complete_row requeue_row fail_row expire_row cancel_row
Step-IsLost e r s (claimed now until worker q) h = ground arith
Step-IsLost e r s (completed result now q) h = ground arith
Step-IsLost e r s (requeued message run_after q l) h = ground arith
Step-IsLost e r s (failed_for_good message now q) h = ground arith
Step-IsLost e r s (expired now q) h = record { passed = h.passed; not_owned = h.not_owned }
Step-IsLost e r s (withdrawn now q) h = ground arith

other_id-IsLost : (e : Execution) (r : Row) → e.id < r.id → IsLost e r
unfolding owns
other_id-IsLost e r h = ground arith

All-IsLost :
    (e : Execution) (r : Row) (n : ℕ) (rows : List Row)
    → IsAscending n rows
    → Memᴰ r rows
    → r.id ≡ e.id
    → e.attempts ≤ r.attempts
    → owns e r ≡ false
    → All (IsLost e) rows
unfolding owns
All-IsLost e r n rows a m i h o = All-of_mem (IsLost e) rows λ s k.
    elim (Bool-cases (s.id == e.id)) [
      | inl q ↦
          let same : r ≡ s = row_of_id n rows a m k (i ∙ sym (==→≡ s.id e.id q)) in
          subst (IsLost e) same (record { passed = λ _. h; not_owned = o })
      | inr q ↦ record { passed = λ p. absurd (ground arith); not_owned = ground arith }
    ]

lost_not_any : (e : Execution) (rows : List Row) → All (IsLost e) rows → any (owns e) rows ≡ false
lost_not_any e [] a = refl
lost_not_any e (r ∷ rs) a = rw (a.0.not_owned) (lost_not_any e rs a.1)

lost_not_found : (e : Execution) (rows : List Row) → All (IsLost e) rows → find (owns e) rows ≡ none
lost_not_found e [] a = refl
lost_not_found e (r ∷ rs) a = rw (a.0.not_owned) (lost_not_found e rs a.1)

-- Every way to settle or release a claim answers that it is lost, and changes nothing.
pub record IsRefused (rt : Runtime) (e : Execution) (db : Db) : Type 0 where
  pub completing :
      (result : Text) (now : ℕ)
      → rt.json_valid result ≡ true
      → complete rt e result now db ≡ (err claim_lost, db)
  pub failing :
      (int64n : ℕ → ℕ → ℕ) (message : Text) (now : ℕ)
      → fail rt int64n e message now db ≡ (err claim_lost, db)
  pub failing_for_good :
      (message : Text) (now : ℕ) → fail_final e message now db ≡ (err claim_lost, db)
  pub expiring : (now : ℕ) → expire_claim e now db ≡ (err claim_lost, db)

json_check : (b c : Bool) → c ≡ true → (not b && not c) ≡ false
json_check b c h = ground arith

lost-IsRefused :
    (rt : Runtime) (e : Execution) (db : Db) → All (IsLost e) db.executions → IsRefused rt e db
unfolding complete fail fail_final expire_claim
lost-IsRefused rt e db a = record {
  completing = λ result now v.
      rw (json_check (is_empty result) (rt.json_valid result) v, lost_not_any e db.executions a);
  failing = λ int64n message now. rw (lost_not_found e db.executions a, fail);
  failing_for_good = λ message now. rw (lost_not_any e db.executions a);
  expiring = λ now. rw (lost_not_found e db.executions a, expire_claim);
}

kept-IsLost : (e : Execution) (n : ℕ) → e.id < n → IsKept n (IsLost e)
kept-IsLost e n h = record {
  by_step = Step-IsLost e;
  at_first = λ r k f. other_id-IsLost e r (omega arith);
}

-- If the execution of a claim stands in a database whose ids ascend, is not owned by the claim, and
-- has had at least the claim's attempts, then after any calls Complete with a valid result, Fail,
-- FailFinal and ExpireClaim with that claim answer that it is lost and change nothing.
pub stale_claim-IsRefused :
    (rt : Runtime) (cs : List Call) (db : Db) (e : Execution) (r : Row)
    → IsOrdered db
    → Memᴰ r db.executions
    → r.id ≡ e.id
    → e.attempts ≤ r.attempts
    → owns e r ≡ false
    → IsRefused rt e (perform_all rt cs db)
stale_claim-IsRefused rt cs db e r a m i h o =
    let known : e.id < db.next_id = omega (arith, id-lt db.next_id db.executions a m) in
    lost-IsRefused rt e (perform_all rt cs db) (
      All-Evolves (IsLost e) (kept-IsLost e db.next_id known) (perform_all-Moves rt cs db a)
        (All-IsLost e r db.next_id db.executions a m i h o))

completed-IsLost :
    (e : Execution) (result : Text) (now : ℕ) (r : Row)
    → owns e r ≡ true
    → IsLost e (complete_row result now r)
unfolding owns complete_row
completed-IsLost e result now r h = ground arith

-- The row that an update of the claim's row found.
owned_row :
    (e : Execution) (rows : List Row)
    → any (owns e) rows ≡ true
    → (r : Row) × Memᴰ r rows × (owns e r ≡ true)
owned_row e [] h = cc
owned_row e (r ∷ rs) h = elim (Bool-cases (owns e r)) [
  | inl o ↦ (r, Memᴰ.head refl, o)
  | inr o ↦ let (s, m, t) = owned_row e rs (rw o at h) in (s, Memᴰ.tail m, t)
]

owns-id : (e : Execution) (r : Row) → owns e r ≡ true → r.id ≡ e.id
unfolding owns
owns-id e r h = ground arith

others-IsLost :
    (e : Execution) (n : ℕ) (rows : List Row)
    → IsAscending n rows
    → any (owns e) rows ≡ true
    → All (λ r. owns e r ≡ false → IsLost e r) rows
others-IsLost e n rows a h =
    let (r, m, o) = owned_row e rows h in
    All-of_mem (λ s. owns e s ≡ false → IsLost e s) rows
      λ s k no. record {
        passed = λ q.
            let same : r ≡ s = row_of_id n rows a m k (owns-id e r o ∙ sym q) in
            let bad : owns e s ≡ true = subst (λ t. owns e t ≡ true) same o in cc;
        not_owned = no;
      }

update_owned-IsLost :
    (e : Execution) (f : Row → Row) (db db' : Db)
    → IsOrdered db
    → ((r : Row) → owns e r ≡ true → IsLost e (f r))
    → update_owned e f db ≡ (ok tt, db')
    → All (IsLost e) db'.executions × (e.id < db.next_id)
update_owned-IsLost e f db db' a h done = elim (Bool-cases (any (owns e) db.executions)) [
  | inl o ↦
      let (r, m, t) = owned_row e db.executions o in
      let same : update_db (owns e) f db ≡ db' =
        ap (λ (p : Result Error (Unit {0}) × Db). p.1) (rw o at done) in
      (
        subst (λ (d : Db). All (IsLost e) d.executions) same
            (All-update_cases (λ r. owns e r ≡ false → IsLost e r) (IsLost e) (owns e) f
              db.executions (λ r m t. h r t) (λ r t p. p t)
              (others-IsLost e db.next_id db.executions a o)),
        omega (arith, id-lt db.next_id db.executions a m, owns-id e r t),
      )
  | inr o ↦
      let no : ◌≡◌ {A = Result Error (Unit {0})} (err claim_lost) (ok tt) =
        ap (λ (p : Result Error (Unit {0}) × Db). p.0) (rw o at done) in
      cc
]

complete_ok :
    (rt : Runtime) (e : Execution) (result : Text) (now : ℕ) (db db' : Db)
    → complete rt e result now db ≡ (ok tt, db')
    → update_owned e (complete_row result now) db ≡ (ok tt, db')
unfolding complete
complete_ok rt e result now db db' h =
    elim (Bool-cases (not (is_empty result) && not (rt.json_valid result))) [
      | inl b ↦ let no = ap (λ (p : Result Error (Unit {0}) × Db). p.0) (rw b at h) in cc
      | inr b ↦ rw b at h
    ]

-- A claim is settled once: after a successful Complete in a database whose ids ascend, and any
-- further calls, Complete with a valid result, Fail, FailFinal and ExpireClaim with that claim answer
-- that it is lost and change nothing.
pub complete_settles_once :
    (rt : Runtime) (cs : List Call) (e : Execution) (result : Text) (now : ℕ) (db db' : Db)
    → IsOrdered db
    → complete rt e result now db ≡ (ok tt, db')
    → IsRefused rt e (perform_all rt cs db')
complete_settles_once rt cs e result now db db' a h =
    let moved = complete-Moves rt e result now db in
    let after : IsOrdered db' =
      subst IsOrdered (ap (λ (p : Result Error (Unit {0}) × Db). p.1) h)
        (IsAscending-Evolves moved a) in
    let (lost, known) =
      update_owned-IsLost e (complete_row result now) db db' a (completed-IsLost e result now)
        (complete_ok rt e result now db db' h) in
    let grown : db.next_id ≤ db'.next_id =
      subst (λ (d : Db). db.next_id ≤ d.next_id) (ap (λ (p : Result Error (Unit {0}) × Db). p.1) h)
        (Evolves-le moved) in
    lost-IsRefused rt e (perform_all rt cs db') (
      All-Evolves (IsLost e) (kept-IsLost e db'.next_id (omega (arith, grown, known)))
        (perform_all-Moves rt cs db' after) lost)
