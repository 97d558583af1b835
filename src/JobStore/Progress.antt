-- ===== src/JobStore/Progress.antt =====
-- When RecoverExpired succeeds.
use dygo.Base.{
  ℕ, ◌≡◌, refl, List, [], ◌∷◌, Bool, Option, some, none, Text, All, All-mem, All-of_mem,
  Memᴰ-select, select, length, Bool-cases, inl, inr, ok, ltb,
}
use dygo.JobStore.Defs.{
  Row, Retry, Db, Runtime, Work, is_expired, settle, settle_all, work_of, recover_expired,
  decode_retry, retry_delay, retry_or_fail, positive,
}

-- The delays of retry settings parse to positive durations.
abbrev pub HasDelays : Runtime → Option Retry → Type 0
HasDelays rt none = Unit
HasDelays rt (some t) =
    (initial : ℕ) × (positive (rt.parse_duration t.initial_delay) ≡ some initial)
    × (longest : ℕ) × (positive (rt.parse_duration t.max_delay) ≡ some longest)

-- The stored retry settings of a row decode, to settings with delays that parse.
abbrev pub HasPolicy : Runtime → Row → Type 0
HasPolicy rt r = (retry : Option Retry) × (decode_retry rt r.retry ≡ ok retry) × HasDelays rt retry

module _ (rt : Runtime) where
  delay_found :
      (int64n : ℕ → ℕ) (retry : Option Retry) (attempt : ℕ)
      → HasDelays rt retry
      → (d : ℕ) × (retry_delay rt int64n retry attempt ≡ ok d)
  unfolding retry_delay
  delay_found int64n none attempt h = (0, refl)
  delay_found int64n (some t) attempt (initial, i, longest, m) = rw (i, m) (_, refl)

  settle-ok :
      (int64n : ℕ → ℕ → ℕ) (message : Text) (now : ℕ) (r : Row) (w : Work)
      → HasPolicy rt r
      → (w' : Work) × (settle rt int64n message now r w ≡ ok w')
  unfolding settle retry_or_fail
  settle-ok int64n message now r w (retry, e, h) =
      let (d, q) = delay_found (int64n r.id) retry r.attempts h in
      elim (Bool-cases (ltb r.attempts r.max_attempts)) [
        | inl b ↦ rw (e, b, q) (_, refl)
        | inr b ↦ rw (e, b) (_, refl)
      ]

  settle_all-ok :
      (int64n : ℕ → ℕ → ℕ) (message : Text) (now : ℕ) (batch : List Row) (w : Work)
      → All (HasPolicy rt) batch
      → (w' : Work) × (settle_all rt int64n message now batch w ≡ ok w')
  unfolding settle_all
  settle_all-ok int64n message now [] w h = (w, refl)
  settle_all-ok int64n message now (r ∷ rs) w h =
      let (w', e) = settle-ok int64n message now r w h.0 in
      let (w'', q) = settle_all-ok int64n message now rs w' h.1 in (w'', rw (e, q) refl)

  -- If the stored retry settings of every execution decode, to settings whose delays parse to
  -- positive durations, RecoverExpired succeeds and counts the executions that had expired.
  pub recover_expired-ok :
      (skip : ℕ → Bool) (int64n : ℕ → ℕ → ℕ) (message : Text) (now : ℕ) (db : Db)
      → All (HasPolicy rt) db.executions
      → (db' : Db) × (recover_expired rt skip int64n message now db
          ≡ (ok (length (select (is_expired skip now) db.executions)), db'))
  unfolding recover_expired
  recover_expired-ok skip int64n message now db h =
      let batch = select (is_expired skip now) db.executions in
      let kept = All-of_mem (HasPolicy rt) batch (λ r m.
        All-mem (HasPolicy rt) db.executions h
          (Memᴰ-select (is_expired skip now) db.executions r m).0) in
      let (w, e) = settle_all-ok int64n message now batch (work_of rt db) kept in rw e (_, refl)
