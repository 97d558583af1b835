-- ===== src/JobStore/Idempotency.antt =====
-- What Enqueue answers when a key is used again.
use dygo.Base.{
  ℕ, ◌≡◌, refl, sym, ap, subst, ◌∙◌, List, [], ◌∷◌, ◌++◌, Bool, true, false, not, ◌&&◌, ◌||◌,
  Option, some, none, Text, Memᴰ, find, find-some, find-append, any, ==→≡, ==-refl, text_eq_refl,
  trim_space, trim_space_idem, is_empty, Bool-cases, inl, inr, ◌==◌, Result, ok, err, OnOk,
  OnOk-bind, OnOk-reject, OnOk-ok, ◌>>=◌, ◌>>◌, reject, ℤ,
}
use dygo.JobStore.Defs.{
  has_name, Row, JobRow, JobRecord, Retry, Db, Runtime, Execution, EnqueueOptions, Error, Plan,
  prepare, load_job, is_job, job_of, decode_retry, positive, lookup_key, find_by_idempotency,
  select_execution, scan_execution, insert_execution, fresh_row, commit_insert, after_lookup,
  after_prepare, enqueue, clashes, null_if_empty, locked_by_is, not_registered, invalid_timeout,
  job_required, invalid_payload, disabled, retired, unregistered_queue, queue_known,
}
use dygo.JobStore.Schedule.{no_others}

-- The id of a job is its primary key.
abbrev pub HasJobIds : Db → Type 0
HasJobIds db = (i j : JobRow) → Memᴰ i db.jobs → Memᴰ j db.jobs → i.id ≡ j.id → i ≡ j

find-job_id :
    (jobs : List JobRow) (j : JobRow)
    → ((i : JobRow) → Memᴰ i jobs → i.id ≡ j.id → i ≡ j)
    → Memᴰ j jobs
    → find (λ i. i.id == j.id) jobs ≡ some j
find-job_id [] j u m = elim m [ ]
find-job_id (x ∷ xs) j u m = elim (Bool-cases (x.id == j.id)) [
  | inl e ↦ rw e (ap some (u x (Memᴰ.head refl) (==→≡ x.id j.id e)))
  | inr e ↦ rw e (find-job_id xs j (λ i k. u i (Memᴰ.tail k)) (later m e))
]
  where
    later : Memᴰ j (x ∷ xs) → (x.id == j.id) ≡ false → Memᴰ j xs
    later (Memᴰ.head q) e =
        let t : (x.id == j.id) ≡ true =
          subst (λ (y : JobRow). (y.id == j.id) ≡ true) q (==-refl j.id) in
        let bad : true ≡ false = sym t ∙ e in cc
    later (Memᴰ.tail k) e = k

-- The plan is for a registered job, and its key is the trimmed one.
record IsPlanFor (db : Db) (options : EnqueueOptions) (p : Plan) : Type 0 where
  job_listed : Memᴰ p.job.row db.jobs
  key_eq : p.key ≡ trim_space options.idempotency_key

module _ (rt : Runtime) (installing : List Text) (app_name job_name payload : Text)
    (options : EnqueueOptions) where
  load_job-listed :
      (db : Db)
      → OnOk (λ (j : JobRecord). Memᴰ j.row db.jobs) (load_job db installing app_name job_name)
  unfolding load_job
  load_job-listed db =
      elim (Bool-cases (is_empty (trim_space app_name) || is_empty (trim_space job_name))) [
        | inl e ↦ rw e tt
        | inr e ↦ rw e (go (find test db.jobs) refl)
      ]
    where
      test : JobRow → Bool
      test = is_job db installing (trim_space app_name) (trim_space job_name)

      go :
          (o : Option JobRow)
          → find test db.jobs ≡ o
          → OnOk {E = Error}
              (λ (j : JobRecord). Memᴰ j.row db.jobs)
              (elim o [
                | none ↦ err not_registered
                | some j ↦ ok (record { row = j; app_name = trim_space app_name })
              ])
      go none q = tt
      go (some j) q = (find-some test db.jobs q).0

  abbrev plan_of : JobRecord → Option ℕ → Result Error Plan
  plan_of j none = err invalid_timeout
  plan_of j (some timeout) = decode_retry rt j.row.retry >>= (λ retry. ok (record {
    job = j;
    timeout = timeout;
    retry = retry;
    key = trim_space options.idempotency_key;
  }))

  made :
      (db : Db) (i : JobRecord) (t : ℕ) (r : Option Retry)
      → Memᴰ i.row db.jobs
      → IsPlanFor db options
          (record { job = i; timeout = t; retry = r; key = trim_space options.idempotency_key })
  made db i t r k = record { job_listed = k; key_eq = refl }

  plan_of-IsPlanFor :
      (db : Db) (j : JobRecord) (t : Option ℕ)
      → Memᴰ j.row db.jobs
      → OnOk (IsPlanFor db options) (plan_of j t)
  plan_of-IsPlanFor db j none m = tt
  plan_of-IsPlanFor db j (some t) m =
      OnOk-bind (IsPlanFor db options) (decode_retry rt j.row.retry) _
        λ retry _. made db j t retry m

  abbrev checked_job : JobRecord → Result Error Plan
  checked_job j = do
    reject (not j.row.enabled) disabled
    reject j.row.retired retired
    reject (not (queue_known rt.queues j.row.queue)) unregistered_queue
    plan_of j (positive (rt.parse_duration j.row.timeout))

  checked_job-IsPlanFor :
      (db : Db) (j : JobRecord) → Memᴰ j.row db.jobs → OnOk (IsPlanFor db options) (checked_job j)
  checked_job-IsPlanFor db j m =
      let P = IsPlanFor db options in
      let k3 = plan_of j (positive (rt.parse_duration j.row.timeout)) in
      let k2 = reject (not (queue_known rt.queues j.row.queue)) unregistered_queue >> k3 in
      OnOk-reject P (not j.row.enabled) disabled (reject j.row.retired retired >> k2) λ _.
        OnOk-reject P j.row.retired retired k2 λ _.
          OnOk-reject P (not (queue_known rt.queues j.row.queue)) unregistered_queue k3
            λ _. plan_of-IsPlanFor db j (positive (rt.parse_duration j.row.timeout)) m

  prepared :
      (db : Db) (blank bad : Bool)
      → OnOk (IsPlanFor db options) (
          reject blank job_required
          >> (reject bad invalid_payload
              >> (load_job db installing app_name job_name >>= checked_job)))
  prepared db true bad = tt
  prepared db false true = tt
  prepared db false false =
      OnOk-bind (IsPlanFor db options) (load_job db installing app_name job_name) checked_job
        λ j found.
          checked_job-IsPlanFor db j
            (OnOk-ok (λ (i : JobRecord). Memᴰ i.row db.jobs) _ (load_job-listed db) found)

  prepare-eq :
      (db : Db)
      → prepare rt db installing app_name job_name payload options ≡ (
          reject (is_empty (trim_space app_name) || is_empty (trim_space job_name)) job_required
          >> (reject (not (is_empty payload) && not (rt.json_valid payload)) invalid_payload
              >> (load_job db installing app_name job_name >>= checked_job)))
  unfolding prepare
  prepare-eq db = refl

  -- The lookup finds an execution, and Enqueue returns it.
  replay :
      (name : Option Text) (now : ℕ) (db : Db) (p : Plan) (x : Execution)
      → prepare rt db installing app_name job_name payload options ≡ ok p
      → lookup_key rt db p ≡ ok (some x)
      → enqueue rt no_others installing name now app_name job_name payload options db ≡ (ok x, db)
  unfolding enqueue
  replay name now db p x q l =
      ap (after_prepare rt no_others name now payload options db) q
      ∙ ap (after_lookup rt no_others name now payload options db p) l

  find_by_idempotency-some :
      (d : Db) (r : Row) (j : JobRow) (job_id : ℕ) (key : Text) (x : Execution)
      → find (λ s. s.job_id == job_id && locked_by_is s.idempotency_key key) d.executions ≡ some r
      → job_of d r ≡ some j
      → scan_execution rt j r ≡ ok x
      → find_by_idempotency rt d job_id key ≡ ok (some x)
  unfolding find_by_idempotency select_execution
  find_by_idempotency-some d r j job_id key x f g h =
      rw (find_by_idempotency, select_execution, f, g, h) refl

  module _ (db : Db) (p : Plan) (unique : HasJobIds db) (plan : IsPlanFor db options p)
      (keyed : is_empty (trim_space options.idempotency_key) ≡ false) where
    key_kept : null_if_empty p.key ≡ some p.key
    key_kept =
        let e : is_empty (trim_space p.key) ≡ false =
          ap (λ k. is_empty (trim_space k)) plan.key_eq
          ∙ ap is_empty (trim_space_idem options.idempotency_key)
          ∙ keyed in
        rw e refl

    key_there : is_empty p.key ≡ false
    key_there = ap is_empty plan.key_eq ∙ keyed

    -- The lookup by key, in the database with the row that Enqueue inserts.
    lookup_inserted :
        (name payload' : Text) (run_after : ℕ) (priority : ℤ) (x : Execution) (n : ℕ)
        (sent : List Text)
        → any (clashes (fresh_row rt db p name payload' run_after priority)) db.executions ≡ false
        → scan_execution rt p.job.row (fresh_row rt db p name payload' run_after priority) ≡ ok x
        → lookup_key rt
            (record db {
              executions = db.executions ++ fresh_row rt db p name payload' run_after priority ∷ [];
              next_id = n;
              notifications = sent;
            })
            p
          ≡ ok (some x)
    unfolding fresh_row
    lookup_inserted name payload' run_after priority x n sent free scan =
        let r = fresh_row rt db p name payload' run_after priority in
        let test = λ (s : Row). s.job_id == p.job.row.id && locked_by_is s.idempotency_key p.key in
        let own : test r ≡ true = rw (key_kept, ==-refl p.job.row.id, text_eq_refl p.key) refl in
        let found : find test (db.executions ++ r ∷ []) ≡ some r =
          find-append test db.executions r (rw key_kept at free) own in
        let job : find (λ (j : JobRow). j.id == p.job.row.id) db.jobs ≡ some p.job.row =
          find-job_id db.jobs p.job.row (λ i m. unique i p.job.row m plan.job_listed)
            plan.job_listed in
        rw key_there (find_by_idempotency-some _ r p.job.row p.job.row.id p.key x found job scan)

  -- What the same call of Enqueue does with the database that the first one left.
  abbrev Replayed : Option Text → ℕ → Result Error Execution × Db → Type 0
  Replayed name now (err e, db) = Unit
  Replayed name now (ok e, db) =
      (x : Execution) × (enqueue rt no_others installing name now app_name job_name payload options
          db
        ≡ (ok x, db))
      × (x.id ≡ e.id)

  module _ (again : Option Text) (later : ℕ) (db : Db) (p : Plan) (unique : HasJobIds db)
      (plan : IsPlanFor db options p)
      (keyed : is_empty (trim_space options.idempotency_key) ≡ false)
      (planned : prepare rt db installing app_name job_name payload options ≡ ok p) where
    commit_insert-Replayed :
        (name : Text) (run_after : ℕ) (priority : ℤ) (s : Result Error Execution)
        → scan_execution rt p.job.row (fresh_row rt db p name payload run_after priority) ≡ s
        → any (clashes (fresh_row rt db p name payload run_after priority)) db.executions ≡ false
        → Replayed again later
            (commit_insert rt db p (fresh_row rt db p name payload run_after priority) s)
    unfolding prepare load_job is_job
    commit_insert-Replayed name run_after priority (err e) scan free = tt
    commit_insert-Replayed name run_after priority (ok x) scan free = (
      x,
      replay again later _ p x planned
          (lookup_inserted db p unique plan keyed name payload run_after priority x _ _ free scan),
      refl,
    )

    insert_execution-Replayed :
        (name : Text) (run_after : ℕ) (priority : ℤ)
        → lookup_key rt db p ≡ ok none
        → Replayed again later (insert_execution rt db p name payload run_after priority)
    unfolding insert_execution
    insert_execution-Replayed name run_after priority missing =
        let r = fresh_row rt db p name payload run_after priority in
        let absent : find_by_idempotency rt db p.job.row.id p.key ≡ ok none =
          rw (key_there db p unique plan keyed) at missing in
        elim (Bool-cases (any (clashes r) db.executions)) [
          | inl e ↦ rw (e, absent) tt
          | inr e ↦ rw e (elim (Bool-cases (any (has_name name) db.executions)) [
            | inl f ↦ rw f tt
            | inr f ↦ rw f (
                commit_insert-Replayed name run_after priority (scan_execution rt p.job.row r) refl
                  e)
          ])
        ]

    after_lookup-Replayed :
        (name : Option Text) (now : ℕ) (found : Result Error (Option Execution))
        → lookup_key rt db p ≡ found
        → Replayed again later (after_lookup rt no_others name now payload options db p found)
    after_lookup-Replayed name now (err e) l = tt
    after_lookup-Replayed name now (ok (some x)) l = (x, replay again later db p x planned l, refl)
    after_lookup-Replayed none now (ok none) l = tt
    after_lookup-Replayed (some n) now (ok none) l =
        insert_execution-Replayed n (elim options.run_after [ none ↦ now | some t ↦ t ])
          options.priority l

  after_prepare-Replayed :
      (name again : Option Text) (now later : ℕ) (db : Db) (m : Result Error Plan)
      → HasJobIds db
      → is_empty (trim_space options.idempotency_key) ≡ false
      → prepare rt db installing app_name job_name payload options ≡ m
      → Replayed again later (after_prepare rt no_others name now payload options db m)
  after_prepare-Replayed name again now later db (err e) u k q = tt
  after_prepare-Replayed name again now later db (ok p) u k q =
      let plan =
        OnOk-ok (IsPlanFor db options) _
          (subst (OnOk (IsPlanFor db options)) (sym (prepare-eq db)) (prepared db _ _)) q in
      after_lookup-Replayed again later db p u plan k q name now (lookup_key rt db p) refl

  -- Where jobs have distinct ids, an Enqueue with a key that is not blank can be repeated: after it
  -- succeeded, the same call, at any time and with any random name, succeeds with an
  -- execution of the same id and leaves the database as it is.
  pub enqueue_once :
      (name again : Option Text) (now later : ℕ) (db db' : Db) (e : Execution)
      → HasJobIds db
      → is_empty (trim_space options.idempotency_key) ≡ false
      → enqueue rt no_others installing name now app_name job_name payload options db ≡ (ok e, db')
      → (x : Execution) × (enqueue rt no_others installing again later app_name job_name payload
            options db'
          ≡ (ok x, db'))
        × (x.id ≡ e.id)
  unfolding enqueue
  enqueue_once name again now later db db' e u k done =
      subst (Replayed again later) done (after_prepare-Replayed name again now later db _ u k refl)
