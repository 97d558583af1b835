-- ===== src/JobStore/Handout.antt =====
-- What Claim hands out.
use dygo.Base.{
  ℕ, ◌≤◌, ◌≡◌, refl, sym, ap, subst, List, [], ◌∷◌, Bool, not, ◌||◌, Text, Memᴰ, All, All-imp,
  length, length-take-le, Bool-cases, inl, inr, arith, ◌==◌, is_empty, trim_space, all, Result, ok,
  err, OnOk, OnOk-ok, OnOk-bind, ◌>>=◌,
}
use dygo.JobStore.Defs.{
  Row, Execution, Db, Runtime, Error, worker_required, unregistered_queue, claimable,
  normalize_queue_names, none_named, queue_known, job_timeout, timeouts, claim_all, claim,
  commit_claim,
}
use dygo.JobStore.Operations.{
  rows_of, IsChosen, claimable-IsChosen, claimable-IsDistinct, rows_of-timeouts, IsDistinct,
}
use dygo.JobStore.Schedule.{IsOrdered}
use dygo.JobStore.Leases.{IsHandedOut, IsOwned, IsHandout, claim_all-IsHandout}
use dygo.JobStore.Supply.{length-rows}

module _ (rt : Runtime) (db : Db) (now : ℕ) (worker : Text) where
  -- What the theorem below says of the result of Claim.
  HandsOut : (ℕ → Bool) → List Text → ℕ → Result Error (List Execution) × Db → Type 0
  HandsOut skip names limit p =
      OnOk
        (λ es.
          All (IsHandedOut rt db skip names worker now) es
          × All (IsOwned p.1.executions) es
          × (length es ≤ limit))
        p.0

  commit_claim-HandsOut :
      (skip : ℕ → Bool) (names : List Text) (limit size : ℕ)
      (m : Result Error (List Execution × List Row))
      → size ≤ limit
      → OnOk (IsHandout rt db skip names worker now size) m
      → HandsOut skip names limit (commit_claim db m)
  unfolding HandsOut
  commit_claim-HandsOut skip names limit size (err e) l h = tt
  commit_claim-HandsOut skip names limit size (ok (es, rows)) l h =
      (h.handed, h.owned, omega (arith, h.count))

  length-claimable :
      (skip : ℕ → Bool) (names : List Text) (limit : ℕ)
      → length (claimable db skip names limit now) ≤ limit
  unfolding claimable
  length-claimable skip names limit = length-take-le limit _

  timeouts-read :
      (rs : List Row) → OnOk (All (λ p. job_timeout rt db p.0 ≡ ok p.1)) (timeouts rt db rs)
  unfolding timeouts
  timeouts-read [] = tt
  timeouts-read (r ∷ rs) =
      let P = All (λ (p : Row × ℕ). job_timeout rt db p.0 ≡ ok p.1) in
      OnOk-bind P (job_timeout rt db r) _ λ t timed.
        OnOk-bind P (timeouts rt db rs) _
          λ ps q. (timed, OnOk-ok P (timeouts rt db rs) (timeouts-read rs) q)

  chosen-HandsOut :
      (skip : ℕ → Bool) (names : List Text) (limit : ℕ)
      → IsOrdered db
      → HandsOut skip names limit (
          commit_claim db (
            timeouts rt db (claimable db skip names limit now) >>= λ chosen.
            claim_all rt db now worker chosen db.executions))
  chosen-HandsOut skip names limit a = go (timeouts rt db rs) refl
    where
      rs : List Row
      rs = claimable db skip names limit now

      go :
          (m : Result Error (List (Row × ℕ)))
          → timeouts rt db rs ≡ m
          → HandsOut skip names limit (
              commit_claim db
                (timeouts rt db rs >>= λ chosen. claim_all rt db now worker chosen db.executions))
      go (err e) q = rw q (commit_claim-HandsOut skip names limit limit (err e) (omega arith) tt)
      go (ok ps) q =
          let same =
            OnOk-ok (λ ps'. rows_of ps' ≡ rs) (timeouts rt db rs) (rows_of-timeouts rt db rs) q in
          let C = IsChosen db skip names now in
          let c : All C (rows_of ps) =
            subst (All C) (sym same) (claimable-IsChosen db skip names limit now) in
          rw q (
            commit_claim-HandsOut skip names limit (length ps) _
              (omega (
                arith,
                ap (λ (xs : List Row). length xs) same,
                length-rows ps,
                length-claimable skip names limit,
              ))
              (claim_all-IsHandout rt db now worker skip names ps db.executions
                (subst IsDistinct (sym same) (claimable-IsDistinct db skip names limit now a)) c
                (All-imp C (λ r. Memᴰ r db.executions) (rows_of ps) (λ r h. h.0) c)
                (OnOk-ok (All (λ p. job_timeout rt db p.0 ≡ ok p.1)) (timeouts rt db rs)
                  (timeouts-read rs) q)))

  claim-HandsOut :
      (skip : ℕ → Bool) (queue_names : List Text) (limit : ℕ)
      → IsOrdered db
      → HandsOut skip
          (normalize_queue_names queue_names)
          limit
          (claim rt skip queue_names limit worker now db)
  unfolding claim
  claim-HandsOut skip queue_names limit a =
      let names = normalize_queue_names queue_names in
      elim (Bool-cases (none_named names || limit == 0)) [
        | inl e ↦ rw e (nothing limit (omega arith))
        | inr e ↦ rw e (elim (Bool-cases (is_empty (trim_space worker))) [
          | inl f ↦ rw f (refused worker_required)
          | inr f ↦ rw f (elim (Bool-cases (not (all (queue_known rt.queues) names))) [
            | inl g ↦ rw g (refused unregistered_queue)
            | inr g ↦ rw g (chosen-HandsOut skip names limit a)
          ])
        ])
      ]
    where
      nothing :
          (limit : ℕ)
          → 0 ≤ limit
          → HandsOut skip (normalize_queue_names queue_names) limit (ok [], db)
      nothing limit h = unfold HandsOut in (tt, tt, h)

      refused : (e : Error) → HandsOut skip (normalize_queue_names queue_names) limit (err e, db)
      refused e = unfold HandsOut in tt

  -- When Claim succeeds in a database whose ids ascend, it hands out at most `limit` executions.
  -- Each is the next attempt of a row that its query may take (of an active app, queued, due, in one
  -- of the queues, not locked by another transaction), it is leased to the worker from now
  -- on for its timeout, which is the duration that the timeout of its job parses to, and its claim owns a row of the table.
  pub claim_hands_out :
      (skip : ℕ → Bool) (queue_names : List Text) (limit : ℕ) (es : List Execution) (db' : Db)
      → IsOrdered db
      → claim rt skip queue_names limit worker now db ≡ (ok es, db')
      → All (IsHandedOut rt db skip (normalize_queue_names queue_names) worker now) es
        × All (IsOwned db'.executions) es
        × (length es ≤ limit)
  unfolding HandsOut
  claim_hands_out skip queue_names limit es db' a done =
      subst (HandsOut skip (normalize_queue_names queue_names) limit) done
        (claim-HandsOut skip queue_names limit a)
