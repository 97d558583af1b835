-- ===== src/JobStore/Keys.antt =====
-- What Enqueue answers to a call with an idempotency key, whatever other transactions commit meanwhile.
use dygo.Base.{
  ℕ, ◌≡◌, refl, sym, ap, subst, ◌∙◌, List, [], ◌∷◌, ◌++◌, Bool, true, false, not, ◌&&◌, ◌||◌,
  Option, some, none, Text, Memᴰ, find, find-some, any, ==→≡, text_eq→≡, trim_space,
  trim_space_idem, is_empty, Bool-cases, inl, inr, ◌==◌, Result, ok, err, OnOk, OnOk-bind,
  ok-injective, OnOk-reject, OnOk-ok, ◌>>=◌, ℤ, arith,
}
use dygo.JobStore.Defs.{
  has_name, Row, JobRow, JobRecord, Db, Runtime, Execution, EnqueueOptions, Error, Plan, prepare,
  load_job, job_of, decode_retry, positive, lookup_key, find_by_idempotency, select_execution,
  scan_execution, insert_execution, fresh_row, commit_insert, after_lookup, after_prepare, enqueue,
  clashes, null_if_empty, locked_by_is, invalid_timeout, require, unique_violation, job_required,
  invalid_payload, disabled, retired, unregistered_queue, queue_known,
}
use dygo.JobStore.Leases.{scan-IsScanOf, IsScanOf}

-- A row of the job under the key, of which `e` is the execution.
pub record IsKeyRow (job_id : ℕ) (key : Text) (e : Execution) (rows : List Row) : Type 0 where
  pub row : Row
  pub listed : Memᴰ row rows
  pub id_eq : e.id ≡ row.id
  pub job_eq : row.job_id ≡ job_id
  pub key_eq : row.idempotency_key ≡ some key

abbrev pub has_key : ℕ → Text → Row → Bool
has_key job_id key r = r.job_id == job_id && locked_by_is r.idempotency_key key

-- The lookup found the row and nothing changed; or it did not, and other transactions had inserted it before
-- the INSERT, which left their database as it is; or nobody had, and the row is a new one at the end.
pub data Answers (others : Db → Db) (db : Db) (job_id : ℕ) (key : Text) (e : Execution)
    : Db → Type 0 where
  found : IsKeyRow job_id key e db.executions → Answers others db job_id key e db
  raced : IsKeyRow job_id key e (others db).executions → Answers others db job_id key e (others db)
  inserted :
      {db' : Db} (r : Row)
      → any (has_key job_id key) (others db).executions ≡ false
      → db'.executions ≡ (others db).executions ++ r ∷ []
      → IsKeyRow job_id key e (r ∷ [])
      → Answers others db job_id key e db'

key_of : (o : Option Text) (key : Text) → locked_by_is o key ≡ true → o ≡ some key
key_of none key h = cc
key_of (some w) key h = ap some (text_eq→≡ w key h)

module _ (rt : Runtime) where
  -- The row that the lookup by key reads.
  find_by_idempotency-IsKeyRow :
      (db : Db) (job_id : ℕ) (key : Text) (x : Execution)
      → find_by_idempotency rt db job_id key ≡ ok (some x)
      → IsKeyRow job_id key x db.executions
  unfolding find_by_idempotency select_execution
  find_by_idempotency-IsKeyRow db job_id key x h =
      row_found (find (has_key job_id key) db.executions) refl h
    where
      row_of :
          (r : Row) (m : Result Error Execution)
          → Memᴰ r db.executions
          → has_key job_id key r ≡ true
          → OnOk (IsScanOf r) m
          → (m >>= λ y. ok (some y)) ≡ ok (some x)
          → IsKeyRow job_id key x db.executions
      row_of r (err e) l t s k = cc
      row_of r (ok y) l t s k =
          let same : y ≡ x = cc in
          record {
            row = r;
            listed = l;
            id_eq = ap Execution.id (sym same) ∙ s.id_eq;
            job_eq = ==→≡ r.job_id job_id (ground arith);
            key_eq = key_of r.idempotency_key key (ground arith);
          }

      job_found :
          (r : Row) (o : Option JobRow)
          → Memᴰ r db.executions
          → has_key job_id key r ≡ true
          → ◌≡◌ {A = Result Error (Option Execution)}
              (elim o [ none ↦ ok none | some j ↦ scan_execution rt j r >>= λ y. ok (some y) ])
              (ok (some x))
          → IsKeyRow job_id key x db.executions
      job_found r none l t k = cc
      job_found r (some j) l t k =
          row_of r (scan_execution rt j r) l t (scan-IsScanOf rt db 0 [] j r) k

      row_found :
          (o : Option Row)
          → find (has_key job_id key) db.executions ≡ o
          → ◌≡◌ {A = Result Error (Option Execution)}
              (elim o [
                | none ↦ ok none
                | some r ↦ elim (job_of db r) [
                  | none ↦ ok none
                  | some j ↦ scan_execution rt j r >>= λ y. ok (some y)
                ]
              ])
              (ok (some x))
          → IsKeyRow job_id key x db.executions
      row_found none f k = cc
      row_found (some r) f k =
          let (l, t) = find-some (has_key job_id key) db.executions f in
          job_found r (job_of db r) l t k

  required :
      (why : Error) (m : Result Error (Option Execution)) (e : Execution)
      → require rt why m ≡ ok e
      → m ≡ ok (some e)
  required why (err x) e h = cc
  required why (ok none) e h = cc
  required why (ok (some x)) e h = ap (λ y. ok (some y)) (ok-injective x e h)

module _ (rt : Runtime) (installing : List Text) (app_name job_name payload : Text)
    (options : EnqueueOptions) where
  -- The plan is for the job that is registered under the names, and its key is the trimmed one.
  abbrev IsPlanned : Db → Plan → Type 0
  IsPlanned db p =
      (load_job db installing app_name job_name ≡ ok p.job)
      × (p.key ≡ trim_space options.idempotency_key)

  abbrev plan_of : JobRecord → Option ℕ → Result Error Plan
  plan_of j none = err invalid_timeout
  plan_of j (some timeout) = decode_retry rt j.row.retry >>= (λ retry. ok (record {
    job = j;
    timeout = timeout;
    retry = retry;
    key = trim_space options.idempotency_key;
  }))

  plan_of-IsPlanned :
      (db : Db) (j : JobRecord) (t : Option ℕ)
      → load_job db installing app_name job_name ≡ ok j
      → OnOk (IsPlanned db) (plan_of j t)
  plan_of-IsPlanned db j none m = tt
  plan_of-IsPlanned db j (some t) m =
      OnOk-bind (IsPlanned db) (decode_retry rt j.row.retry) _ λ retry _. (m, refl)

  prepare-IsPlanned :
      (db : Db) → OnOk (IsPlanned db) (prepare rt db installing app_name job_name payload options)
  unfolding prepare
  prepare-IsPlanned db =
      let P = IsPlanned db in
      OnOk-reject P (is_empty (trim_space app_name) || is_empty (trim_space job_name)) job_required
        _
        λ _.
          OnOk-reject P (not (is_empty payload) && not (rt.json_valid payload)) invalid_payload _
            λ _. OnOk-bind P (load_job db installing app_name job_name) _ λ j loaded.
              OnOk-reject P (not j.row.enabled) disabled _ λ _.
                OnOk-reject P j.row.retired retired _ λ _.
                  OnOk-reject P (not (queue_known rt.queues j.row.queue)) unregistered_queue
                    (plan_of j (positive (rt.parse_duration j.row.timeout)))
                    λ _. plan_of-IsPlanned db j (positive (rt.parse_duration j.row.timeout)) loaded

  -- What the theorem below says of a result of Enqueue.
  abbrev Answered : (Db → Db) → Db → ℕ → Text → Result Error Execution × Db → Type 0
  Answered others db job_id key (err e, d) = Unit
  Answered others db job_id key (ok e, d) = Answers others db job_id key e d

  module _ (others : Db → Db) (db : Db) (p : Plan) (kept : null_if_empty p.key ≡ some p.key)
      (keyed : is_empty p.key ≡ false) where
    raced-Answered :
        (m : Result Error Execution)
        → require rt unique_violation (find_by_idempotency rt (others db) p.job.row.id p.key) ≡ m
        → Answered others db p.job.row.id p.key (m, others db)
    raced-Answered (err e) h = tt
    raced-Answered (ok e) h = raced (
        find_by_idempotency-IsKeyRow rt (others db) p.job.row.id p.key e
          (required rt unique_violation _ e h))

    commit_insert-Answered :
        (r : Row) (m : Result Error Execution)
        → any (has_key p.job.row.id p.key) (others db).executions ≡ false
        → r.job_id ≡ p.job.row.id
        → r.idempotency_key ≡ some p.key
        → OnOk (IsScanOf r) m
        → Answered others db p.job.row.id p.key (commit_insert rt (others db) p r m)
    commit_insert-Answered r (err e) free j k s = tt
    commit_insert-Answered r (ok x) free j k s =
        inserted r free refl
          (record { row = r; listed = Memᴰ.head refl; id_eq = s.id_eq; job_eq = j; key_eq = k })

    insert_execution-Answered :
        (name : Text) (run_after : ℕ) (priority : ℤ)
        → Answered others db p.job.row.id p.key
            (insert_execution rt (others db) p name payload run_after priority)
    unfolding insert_execution fresh_row
    insert_execution-Answered name run_after priority =
        let r = fresh_row rt (others db) p name payload run_after priority in
        elim (Bool-cases (any (clashes r) (others db).executions)) [
          | inl e ↦ rw e (raced-Answered _ refl)
          | inr e ↦ rw e (elim (Bool-cases (any (has_name name) (others db).executions)) [
            | inl f ↦ rw f tt
            | inr f ↦ rw f (
                commit_insert-Answered r (scan_execution rt p.job.row r) (rw kept at e) refl kept
                  (scan-IsScanOf rt db 0 [] p.job.row r))
          ])
        ]

    after_lookup-Answered :
        (name : Option Text) (now : ℕ) (m : Result Error (Option Execution))
        → lookup_key rt db p ≡ m
        → Answered others db p.job.row.id p.key
            (after_lookup rt others name now payload options db p m)
    after_lookup-Answered name now (err e) l = tt
    after_lookup-Answered name now (ok (some x)) l =
        found (find_by_idempotency-IsKeyRow rt db p.job.row.id p.key x (rw keyed at l))
    after_lookup-Answered none now (ok none) l = tt
    after_lookup-Answered (some n) now (ok none) l =
        insert_execution-Answered n (elim options.run_after [ none ↦ now | some t ↦ t ])
          options.priority

  abbrev AnsweredCall : (Db → Db) → Db → Result Error Execution × Db → Type 0
  AnsweredCall others db (err e, d) = Unit
  AnsweredCall others db (ok e, d) =
      (j : JobRecord) × (load_job db installing app_name job_name ≡ ok j)
      × Answers others db j.row.id (trim_space options.idempotency_key) e d

  planned-AnsweredCall :
      (others : Db → Db) (db : Db) (p : Plan) (r : Result Error Execution × Db)
      → IsPlanned db p
      → Answered others db p.job.row.id p.key r
      → AnsweredCall others db r
  planned-AnsweredCall others db p (err e, d) plan a = tt
  planned-AnsweredCall others db p (ok e, d) plan a =
      (p.job, plan.0, subst (λ key. Answers others db p.job.row.id key e d) plan.1 a)

  after_prepare-AnsweredCall :
      (others : Db → Db) (name : Option Text) (now : ℕ) (db : Db) (m : Result Error Plan)
      → is_empty (trim_space options.idempotency_key) ≡ false
      → prepare rt db installing app_name job_name payload options ≡ m
      → AnsweredCall others db (after_prepare rt others name now payload options db m)
  after_prepare-AnsweredCall others name now db (err e) keyed q = tt
  after_prepare-AnsweredCall others name now db (ok p) keyed q =
      let plan = OnOk-ok (IsPlanned db) _ (prepare-IsPlanned db) q in
      let there : is_empty p.key ≡ false = ap is_empty plan.1 ∙ keyed in
      let trimmed : is_empty (trim_space p.key) ≡ false =
        ap (λ k. is_empty (trim_space k)) plan.1
        ∙ ap is_empty (trim_space_idem options.idempotency_key)
        ∙ keyed in
      planned-AnsweredCall others db p _ plan (
        after_lookup-Answered others db p (rw trimmed refl) there name now (lookup_key rt db p)
          refl)

  -- Enqueue with a key that is not blank, whatever other transactions commit between its lookup and its
  -- INSERT: when it succeeds, its execution is that of a row of the job that the names find, under the
  -- trimmed key. Either that row was there at the lookup and the database is as it was, or another
  -- transaction had inserted it by the INSERT and the database is as that one left it, or no row
  -- of the job had the key and the row is new at the end of the table.
  pub enqueue_keyed :
      (others : Db → Db) (name : Option Text) (now : ℕ) (db db' : Db) (e : Execution)
      → is_empty (trim_space options.idempotency_key) ≡ false
      → enqueue rt others installing name now app_name job_name payload options db ≡ (ok e, db')
      → (j : JobRecord) × (load_job db installing app_name job_name ≡ ok j)
        × Answers others db j.row.id (trim_space options.idempotency_key) e db'
  unfolding enqueue
  enqueue_keyed others name now db db' e keyed done =
      subst (AnsweredCall others db) done
        (after_prepare-AnsweredCall others name now db _ keyed refl)
