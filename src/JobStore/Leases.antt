-- ===== src/JobStore/Leases.antt =====
-- The leases that the second loop of Claim gives.
use dygo.Base.{
  ℕ, suc, ◌+◌, ◌≡◌, ◌≢◌, refl, sym, ap, ◌∙◌, List, [], ◌∷◌, Bool, true, false, Option, some, none,
  Text, Memᴰ, All, All-imp, length, text_eq_refl, ==-refl, arith, OnOk, OnOk-bind, OnOk-ok,
  ok-injective, Option-cases, inl, inr, Result, ok, err,
}
use dygo.JobStore.Defs.{
  Row, JobRow, Retry, scanned, Execution, Db, Runtime, owns, has_id, update_where, claim_row,
  claim_all, scan_claimed, job_timeout, Error, invalid_timeout, scan_execution, job_of,
  decode_retry, positive,
}
use dygo.JobStore.Operations.{rows_of, IsChosen, IsDistinct, Memᴰ-update_where, batch-update_where}
use dygo.JobStore.Available.{IsAvailable, IsChosen-IsAvailable}

-- `e` is the next attempt of an available row, leased to the worker for the
-- timeout of its job.
pub record IsHandedOut (rt : Runtime) (db : Db) (skip : ℕ → Bool) (names : List Text)
    (worker : Text) (now : ℕ) (e : Execution) : Type 0 where
  pub row : Row
  pub job : JobRow
  pub chosen : IsAvailable db skip names now row
  pub job_eq : job_of db row ≡ some job
  pub timeout_eq : positive (rt.parse_duration job.timeout) ≡ some e.timeout
  pub id_eq : e.id ≡ row.id
  pub attempts_eq : e.attempts ≡ row.attempts + 1
  pub owner_eq : e.locked_by ≡ worker
  pub lease_eq : e.locked_until ≡ some (now + e.timeout)

abbrev pub IsOwned : List Row → Execution → Type 0
IsOwned rows e = (r : Row) × Memᴰ r rows × (owns e r ≡ true)

-- The fields that scanExecution copies.
pub record IsScanOf (r : Row) (e : Execution) : Type 0 where
  pub id_eq : e.id ≡ r.id
  attempts_eq : e.attempts ≡ r.attempts
  owner_eq : e.locked_by ≡ elim r.locked_by [ none ↦ [] | some w ↦ w ]
  lease_eq : e.locked_until ≡ r.locked_until

mem-update_where :
    (test : Row → Bool) (f : Row → Row) (rows : List Row) (r : Row)
    → Memᴰ r rows
    → test r ≡ true
    → Memᴰ (f r) (update_where test f rows)
unfolding update_where
mem-update_where test f [] r m t = elim m [ ]
mem-update_where test f (x ∷ xs) r (Memᴰ.head e) t =
    let t' : test x ≡ true = ap test (sym e) ∙ t in rw t' (Memᴰ.head (ap f e))
mem-update_where test f (x ∷ xs) r (Memᴰ.tail m) t = Memᴰ.tail (mem-update_where test f xs r m t)

not_same_id : (r u : Row) → r.id ≢ u.id → has_id r.id u ≡ false
not_same_id r u h = ground arith

scanned-IsScanOf :
    (r : Row) (retry : Option Retry) (timeout : Option ℕ)
    → OnOk (IsScanOf r) (scanned r retry timeout)
scanned-IsScanOf r retry none = tt
scanned-IsScanOf r retry (some t) = record {
  id_eq = refl;
  attempts_eq = refl;
  owner_eq = refl;
  lease_eq = refl;
}

claimed-IsOwned :
    (now until : ℕ) (worker : Text) (r : Row) (e : Execution)
    → IsScanOf (claim_row now until worker r) e
    → owns e (claim_row now until worker r) ≡ true
unfolding owns claim_row
claimed-IsOwned now until worker r e s =
    rw (s.id_eq, s.attempts_eq, s.owner_eq)
      (ground (arith, text_eq_refl worker, ==-refl r.id, ==-refl (r.attempts + 1)))

-- What the second loop of Claim establishes, for a batch of rows of the database `db`.
pub record IsHandout (rt : Runtime) (db : Db) (skip : ℕ → Bool) (names : List Text) (worker : Text)
    (now size : ℕ) (p : List Execution × List Row) : Type 0 where
  pub handed : All (IsHandedOut rt db skip names worker now) p.0
  pub owned : All (IsOwned p.1) p.0
  pub count : length p.0 ≡ size

module _ (rt : Runtime) (db : Db) (now : ℕ) (worker : Text) where
  pub scan-IsScanOf : (j : JobRow) (r : Row) → OnOk (IsScanOf r) (scan_execution rt j r)
  unfolding scan_execution
  scan-IsScanOf j r =
      OnOk-bind (IsScanOf r) (decode_retry rt r.retry) _
        λ retry _. scanned-IsScanOf r retry (positive (rt.parse_duration j.timeout))

  scan_claimed-IsScanOf : (r : Row) → OnOk (IsScanOf r) (scan_claimed rt db r)
  scan_claimed-IsScanOf r = go (job_of db r) refl
    where
      go : (o : Option JobRow) → job_of db r ≡ o → OnOk (IsScanOf r) (scan_claimed rt db r)
      go none h = rw (h, OnOk) tt
      go (some j) h = rw (h, OnOk) (scan-IsScanOf j r)

  claim_all-keeps :
      (u : Row) (batch : List (Row × ℕ)) (xs : List Row)
      → All (λ r. r.id ≢ u.id) (rows_of batch)
      → Memᴰ u xs
      → OnOk (λ p. Memᴰ u p.1) (claim_all rt db now worker batch xs)
  unfolding claim_all
  claim_all-keeps u [] xs d m = m
  claim_all-keeps u ((r, t) ∷ ps) xs d m =
      let f = claim_row now (now + t) worker in
      let xs' = update_where (has_id r.id) f xs in
      OnOk-bind (λ p. Memᴰ u p.1) (scan_claimed rt db (f r)) _
        λ x _.
          OnOk-bind (λ p. Memᴰ u p.1) (claim_all rt db now worker ps xs') _
            λ p found.
              OnOk-ok (λ q. Memᴰ u q.1) (claim_all rt db now worker ps xs')
                (claim_all-keeps u ps xs' d.1
                  (Memᴰ-update_where (has_id r.id) f u xs (not_same_id r u d.0) m))
                found

  -- A timeout that is read is the duration that the text of the row's job parses to.
  timed_by :
      (r : Row) (t : ℕ)
      → job_timeout rt db r ≡ ok t
      → (j : JobRow) × (job_of db r ≡ some j) × (positive (rt.parse_duration j.timeout) ≡ some t)
  timed_by r t h = elim (Option-cases (job_of db r)) [
    | inl q ↦
        let bad : ◌≡◌ {A = Result Error ℕ} (err invalid_timeout) (ok t) =
          rw (job_timeout, q) at h in
        cc
    | inr (j, q) ↦ (
      j,
      q,
      elim (Option-cases (positive (rt.parse_duration j.timeout))) [
        | inl p ↦
            let bad : ◌≡◌ {A = Result Error ℕ} (err invalid_timeout) (ok t) =
              rw (job_timeout, q, p) at h in
            cc
        | inr (u, p) ↦
            let same : ◌≡◌ {A = Result Error ℕ} (ok u) (ok t) = rw (job_timeout, q, p) at h in
            p ∙ ap some (ok-injective u t same)
      ],
    )
  ]

  handed_out :
      (skip : ℕ → Bool) (names : List Text) (r : Row) (timeout : ℕ) (e : Execution)
      → IsChosen db skip names now r
      → IsScanOf (claim_row now (now + timeout) worker r) e
      → job_timeout rt db r ≡ ok timeout
      → IsHandedOut rt db skip names worker now (record e { timeout = timeout })
  unfolding claim_row
  handed_out skip names r timeout e c s timed =
      let (j, found, parsed) = timed_by r timeout timed in
      record {
        row = r;
        job = j;
        job_eq = found;
        timeout_eq = parsed;
        chosen = IsChosen-IsAvailable db skip names now r c;
        id_eq = s.id_eq;
        attempts_eq = s.attempts_eq;
        owner_eq = s.owner_eq;
        lease_eq = s.lease_eq;
      }

  pub claim_all-IsHandout :
      (skip : ℕ → Bool) (names : List Text) (batch : List (Row × ℕ)) (xs : List Row)
      → IsDistinct (rows_of batch)
      → All (IsChosen db skip names now) (rows_of batch)
      → All (λ r. Memᴰ r xs) (rows_of batch)
      → All (λ p. job_timeout rt db p.0 ≡ ok p.1) batch
      → OnOk
          (IsHandout rt db skip names worker now (length batch))
          (claim_all rt db now worker batch xs)
  unfolding claim_all claim_row owns
  claim_all-IsHandout skip names [] xs d c i h = record { handed = tt; owned = tt; count = refl }
  claim_all-IsHandout skip names ((r, t) ∷ ps) xs d c i h =
      let f = claim_row now (now + t) worker in
      let xs' = update_where (has_id r.id) f xs in
      let P = IsHandout rt db skip names worker now (suc (length ps)) in
      OnOk-bind P (scan_claimed rt db (f r)) _ λ x scan.
        OnOk-bind P (claim_all rt db now worker ps xs') _ λ p found.
          let s =
            OnOk-ok (IsScanOf (f r)) (scan_claimed rt db (f r)) (scan_claimed-IsScanOf (f r))
              scan in
          let rest =
            OnOk-ok (IsHandout rt db skip names worker now (length ps))
              (claim_all rt db now worker ps xs')
              (claim_all-IsHandout skip names ps xs' d.1 c.1
                (batch-update_where r f (rows_of ps) xs d.0 i.1) h.1)
              found in
          let kept =
            OnOk-ok (λ q. Memᴰ (f r) q.1) (claim_all rt db now worker ps xs')
              (claim_all-keeps (f r) ps xs'
                (All-imp (λ u. r.id ≢ u.id) (λ u. u.id ≢ (f r).id) (rows_of ps) (λ u n q. n (sym q))
                  d.0)
                (mem-update_where (has_id r.id) f xs r i.0 (==-refl r.id)))
              found in
          record {
            handed = (handed_out skip names r t x c.0 s h.0, rest.handed);
            owned = ((f r, kept, claimed-IsOwned now (now + t) worker r x s), rest.owned);
            count = ap (λ (n : ℕ). suc n) rest.count;
          }
