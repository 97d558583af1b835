-- ===== src/JobStore/Recovery.antt =====
-- What RecoverExpired leaves behind.
use dygo.Base.{
  ◌&&◌, true, All-mem, some, ◌<◌, leb, ℕ, ◌≡◌, sym, ap, subst, ◌∙◌, List, [], ◌∷◌, Bool, true,
  false, Text, Memᴰ, All, All-of_mem, All-imp, Memᴰ-select, mem-select_of, select, length,
  Bool-cases, inl, inr, arith, ==→≡, ==-refl, Result, ok, err, OnOk, OnOk-bind, OnOk-ok,
}
use dygo.JobStore.Defs.{
  Row, running, Db, Runtime, Error, Work, has_id, is_expired, settle, settle_all, work_of, commit,
  recover_expired, status_eq,
}
use dygo.JobStore.Lifecycle.{
  Evolves, here, IsAscending, IsAscending-Evolves, row_of_id, All-update_cases,
}
use dygo.JobStore.Operations.{
  IsSettled, settle-IsSettled, settled-Evolves, IsDistinct, Ascending-IsDistinct, select-IsDistinct,
  batch-update_where,
}
use dygo.JobStore.Schedule.{IsOrdered}

abbrev IsPending : (ℕ → Bool) → ℕ → List Row → Row → Type 0
IsPending skip now batch r = is_expired skip now r ≡ true → Memᴰ r batch

not_running :
    (skip : ℕ → Bool) (now : ℕ) (r : Row)
    → status_eq r.status running ≡ false
    → is_expired skip now r ≡ false
not_running skip now r h = ground arith

expired-running :
    (skip : ℕ → Bool) (now : ℕ) (r : Row) → is_expired skip now r ≡ true → r.status ≡ running
expired-running skip now r h = ground arith

drop_head : (r u : Row) (rs : List Row) → has_id r.id u ≡ false → Memᴰ u (r ∷ rs) → Memᴰ u rs
drop_head r u rs h (Memᴰ.head e) = let no : has_id r.id u ≡ true = rw e (==-refl r.id) in cc
drop_head r u rs h (Memᴰ.tail m) = m

-- Settling the first row of the batch leaves the others to be handled.
settled-IsPending :
    (skip : ℕ → Bool) (now n : ℕ) (r : Row) (rs : List Row) (w w' : Work)
    → IsAscending n w.rows
    → Memᴰ r w.rows
    → IsSettled r w w'
    → All (IsPending skip now (r ∷ rs)) w.rows
    → All (IsPending skip now rs) w'.rows
settled-IsPending skip now n r rs w w' a m s h =
    subst (All (IsPending skip now rs)) (sym s.rows_eq) (
      All-update_cases (IsPending skip now (r ∷ rs)) (IsPending skip now rs) (has_id r.id) s.change
        w.rows
        (λ u k t late.
          let same : u ≡ r = row_of_id n w.rows a k m (==→≡ u.id r.id t) in
          let quiet : is_expired skip now (s.change u) ≡ false =
            subst (λ v. is_expired skip now (s.change v) ≡ false) (sym same)
              (not_running skip now (s.change r) s.stops) in
          absurd_bool late quiet)
        (λ u t p late. drop_head r u rs t (p late)) h)
  where
    absurd_bool : {A : Type 0} {b : Bool} → b ≡ true → b ≡ false → A
    absurd_bool p q = let no : true ≡ false = sym p ∙ q in cc

module _ (rt : Runtime) (skip : ℕ → Bool) (int64n : ℕ → ℕ → ℕ) (message : Text) (now : ℕ) where
  settle_all_clears :
      (n m : ℕ) (rows batch : List Row) (w : Work)
      → IsAscending n rows
      → Evolves n rows m w.rows
      → IsDistinct batch
      → All (λ r. Memᴰ r w.rows) batch
      → All (λ r. r.status ≡ running) batch
      → All (IsPending skip now batch) w.rows
      → OnOk (λ w'. All (IsPending skip now []) w'.rows) (settle_all rt int64n message now batch w)
  unfolding settle_all
  settle_all_clears n m rows [] w a e d i run p = p
  settle_all_clears n m rows (r ∷ rs) w a e d i run p =
      OnOk-bind (λ w'. All (IsPending skip now []) w'.rows) (settle rt int64n message now r w) _
        λ w' q.
          let s =
            OnOk-ok (IsSettled r w) (settle rt int64n message now r w)
              (settle-IsSettled rt int64n message now r w run.0) q in
          let asc = IsAscending-Evolves e a in
          settle_all_clears n m rows rs w' a (settled-Evolves rt n m rows r w w' e asc i.0 s) d.1
            (subst (λ t. All (λ u. Memᴰ u t) rs) (sym s.rows_eq)
              (batch-update_where r s.change rs w.rows d.0 i.1))
            run.1 (settled-IsPending skip now m r rs w w' asc i.0 s p)

  cleared :
      (rows : List Row)
      → All (IsPending skip now []) rows
      → All (λ r. is_expired skip now r ≡ false) rows
  cleared rows =
      All-imp (IsPending skip now []) (λ r. is_expired skip now r ≡ false) rows
        λ r h. elim (Bool-cases (is_expired skip now r)) [ inl t ↦ elim (h t) [ ] | inr t ↦ t ]

  commit-ok :
      (n k : ℕ) (m : Result Error Work) (P : List Row → Type 0) (db db' : Db)
      → OnOk (λ w. P w.rows) m
      → commit rt n m db ≡ (ok k, db')
      → P db'.executions
  commit-ok n k (ok w) P db db' h e =
      subst (λ (d : Db). P d.executions) (ap (λ (p : Result Error ℕ × Db). p.1) e) h
  commit-ok n k (err x) P db db' h e = let no = ap (λ (p : Result Error ℕ × Db). p.0) e in cc

  none_expired :
      (count : ℕ) (db db' : Db)
      → IsOrdered db
      → recover_expired rt skip int64n message now db ≡ (ok count, db')
      → All (λ r. is_expired skip now r ≡ false) db'.executions
  unfolding recover_expired
  none_expired count db db' a done =
      let test = is_expired skip now in
      let batch = select test db.executions in
      cleared db'.executions (
        commit-ok (length batch) count (settle_all rt int64n message now batch (work_of rt db))
          (All (IsPending skip now [])) db db'
          (settle_all_clears db.next_id db.next_id db.executions batch (work_of rt db) a here
            (select-IsDistinct test db.executions (Ascending-IsDistinct db.next_id db.executions a))
            (All-of_mem (λ r. Memᴰ r db.executions) batch
              (λ r m. (Memᴰ-select test db.executions r m).0))
            (All-of_mem (λ r. r.status ≡ running) batch
              (λ r m. expired-running skip now r (Memᴰ-select test db.executions r m).1))
            (All-of_mem (IsPending skip now batch) db.executions
              (λ r m t. mem-select_of test db.executions r m t)))
          done)

  live :
      (r : Row) (t : ℕ)
      → is_expired skip now r ≡ false
      → r.status ≡ running
      → skip r.id ≡ false
      → r.locked_until ≡ some t
      → now < t
  live r t past run free lease =
      let late : (leb t now && true) ≡ false = rw (run, free, lease) at past in ground arith

  -- When RecoverExpired succeeds in a database whose ids ascend, a row that is running afterwards with
  -- a lease, and that no other transaction has locked, has a lease that ends in the future.
  pub recover_expired_clears :
      (count : ℕ) (db db' : Db) (r : Row) (t : ℕ)
      → IsOrdered db
      → recover_expired rt skip int64n message now db ≡ (ok count, db')
      → Memᴰ r db'.executions
      → r.status ≡ running
      → skip r.id ≡ false
      → r.locked_until ≡ some t
      → now < t
  recover_expired_clears count db db' r t a done m = live r t (
      All-mem (λ u. is_expired skip now u ≡ false) db'.executions (none_expired count db db' a done)
        m)
