-- ===== src/JobStore/Operations/Inserts.antt =====
-- Enqueue, Retry, CancelQueued and PruneTerminal in terms of single rows.
use dygo.Base.{
  ℕ, ◌≡◌, refl, subst, List, [], ◌∷◌, Bool, true, false, not, ◌||◌, Option, some, none, Text, Memᴰ,
  All, All-of_mem, All-mem, Memᴰ-select, Memᴰ-take, select, take, any, is_empty, trim_space, ◌==◌,
  ==→≡, Bool-cases, inl, inr, arith, Result, ok, err, ℤ,
}
use dygo.JobStore.Defs.{
  has_name, Row, queued, failed, Execution, Db, Runtime, Error, EnqueueOptions, Plan, fresh_row,
  clashes, insert_execution, enqueue, prepare, cancel_queued, get, status_eq, retry, prune_terminal,
  is_prunable, has_id, order_by, commit_insert, enqueue_new, after_lookup, after_prepare,
  lookup_key, retry_execution, after_get, prune_candidates, finished_first, none_given,
}
use dygo.JobStore.Lifecycle.{
  Evolves-trans, here, inserted, removed, IsFresh, IsRemovable, IsAscending, row_of_id,
}
use dygo.JobStore.Operations.Single.{Moves, cancel-Moves}
use dygo.JobStore.Operations.Batches.{All-order_by}

module _ (rt : Runtime) where
  fresh_row-IsFresh :
      (db : Db) (p : Plan) (name payload : Text) (run_after : ℕ) (priority : ℤ)
      → IsFresh (fresh_row rt db p name payload run_after priority)
  unfolding fresh_row
  fresh_row-IsFresh db p name payload run_after priority = record {
    is_queued = refl;
    no_attempts = refl;
    unlocked = refl;
    no_lease = refl;
    unfinished = refl;
  }

  fresh_row-id :
      (db : Db) (p : Plan) (name payload : Text) (run_after : ℕ) (priority : ℤ)
      → (fresh_row rt db p name payload run_after priority).id ≡ db.next_id
  unfolding fresh_row
  fresh_row-id db p name payload run_after priority = refl

  commit_insert-Moves :
      (db : Db) (p : Plan) (name payload : Text) (run_after : ℕ) (priority : ℤ)
      (m : Result Error Execution)
      → any (clashes (fresh_row rt db p name payload run_after priority)) db.executions ≡ false
      → Moves db (commit_insert rt db p (fresh_row rt db p name payload run_after priority) m).1
  commit_insert-Moves db p name payload run_after priority (err e) k = here
  commit_insert-Moves db p name payload run_after priority (ok x) k =
      inserted (fresh_row rt db p name payload run_after priority) here
        (fresh_row-id db p name payload run_after priority)
        (fresh_row-IsFresh db p name payload run_after priority) k

  pub insert_execution-Moves :
      (db : Db) (p : Plan) (name payload : Text) (run_after : ℕ) (priority : ℤ)
      → Moves db (insert_execution rt db p name payload run_after priority).1
  unfolding insert_execution
  insert_execution-Moves db p name payload run_after priority =
      let r = fresh_row rt db p name payload run_after priority in
      elim (Bool-cases (any (clashes r) db.executions)) [
        | inl e ↦ rw e here
        | inr e ↦ rw e (elim (Bool-cases (any (has_name name) db.executions)) [
          | inl f ↦ rw f here
          | inr f ↦ rw f (commit_insert-Moves db p name payload run_after priority _ e)
        ])
      ]

  module _ (others : Db → Db) (db : Db) (moved : Moves db (others db)) where
    enqueue_new-Moves :
        (name : Option Text) (now : ℕ) (payload : Text) (options : EnqueueOptions) (p : Plan)
        → Moves db (enqueue_new rt others name now payload options db p).1
    enqueue_new-Moves none now payload options p = moved
    enqueue_new-Moves (some name) now payload options p =
        Evolves-trans moved (insert_execution-Moves (others db) p name payload _ options.priority)

    after_lookup-Moves :
        (name : Option Text) (now : ℕ) (payload : Text) (options : EnqueueOptions) (p : Plan)
        (found : Result Error (Option Execution))
        → Moves db (after_lookup rt others name now payload options db p found).1
    after_lookup-Moves name now payload options p (err e) = here
    after_lookup-Moves name now payload options p (ok (some x)) = here
    after_lookup-Moves name now payload options p (ok none) =
        enqueue_new-Moves name now payload options p

    after_prepare-Moves :
        (name : Option Text) (now : ℕ) (payload : Text) (options : EnqueueOptions)
        (prepared : Result Error Plan)
        → Moves db (after_prepare rt others name now payload options db prepared).1
    after_prepare-Moves name now payload options (err e) = here
    after_prepare-Moves name now payload options (ok p) =
        after_lookup-Moves name now payload options p (lookup_key rt db p)

    pub enqueue-Moves :
        (installing : List Text) (name : Option Text) (now : ℕ) (app_name job_name payload : Text)
        (options : EnqueueOptions)
        → Moves db (enqueue rt others installing name now app_name job_name payload options db).1
    unfolding enqueue
    enqueue-Moves installing name now app_name job_name payload options =
        after_prepare-Moves name now payload options
          (prepare rt db installing app_name job_name payload options)

    retry_execution-Moves :
        (installing : List Text) (name : Option Text) (now : ℕ) (key : Text)
        (got : Result Error Execution)
        → Moves db (retry_execution rt others installing name now key db got).1
    retry_execution-Moves installing name now key (err e) = here
    retry_execution-Moves installing name now key (ok x) =
        elim (Bool-cases (not (status_eq x.status failed))) [
          | inl e ↦ rw e here
          | inr e ↦ rw e (enqueue-Moves installing name now x.app_name x.job_name x.payload _)
        ]

    pub retry-Moves :
        (installing : List Text) (name : Option Text) (now : ℕ) (reference key : Text)
        → Moves db (retry rt others installing name now reference key db).1
    unfolding retry
    retry-Moves installing name now reference key = elim (Bool-cases (is_empty (trim_space key))) [
      | inl e ↦ rw e here
      | inr e ↦ rw e (
          retry_execution-Moves installing name now (trim_space key)
            (get rt db (trim_space reference)))
    ]

    after_get-Moves :
        (now : ℕ) (got : Result Error Execution) → Moves db (after_get rt others now db got).1
    after_get-Moves now (err e) = here
    after_get-Moves now (ok x) = elim (Bool-cases (not (status_eq x.status queued))) [
      | inl e ↦ rw e here
      | inr e ↦ rw e (Evolves-trans moved (cancel-Moves x.id now (others db)))
    ]

    pub cancel_queued-Moves :
        (reference : Text) (now : ℕ) → Moves db (cancel_queued rt others reference now db).1
    unfolding cancel_queued
    cancel_queued-Moves reference now = after_get-Moves now (get rt db (trim_space reference))

-- A row that PruneTerminal deletes is one of its candidates.
any-mem : (p : Row → Bool) (xs : List Row) → any p xs ≡ true → (r : Row) × Memᴰ r xs × (p r ≡ true)
any-mem p [] h = cc
any-mem p (x ∷ xs) h = elim (Bool-cases (p x)) [
  | inl e ↦ (x, Memᴰ.head refl, e)
  | inr e ↦ let (r, m, t) = any-mem p xs (rw e at h) in (r, Memᴰ.tail m, t)
]

is_prunable-IsRemovable :
    (skip : ℕ → Bool) (queue_names : List Text) (cutoff : ℕ) (r : Row)
    → is_prunable skip queue_names cutoff r ≡ true
    → IsRemovable r
is_prunable-IsRemovable skip queue_names cutoff r h = ground arith

abbrev IsCandidate : (ℕ → Bool) → List Text → ℕ → Db → Row → Type 0
IsCandidate skip queue_names cutoff db r = Memᴰ r db.executions × IsRemovable r

candidates-IsCandidate :
    (skip : ℕ → Bool) (queue_names : List Text) (cutoff limit : ℕ) (db : Db)
    → All
        (IsCandidate skip queue_names cutoff db)
        (prune_candidates skip queue_names cutoff limit db)
unfolding prune_candidates
candidates-IsCandidate skip queue_names cutoff limit db =
    let test = is_prunable skip queue_names cutoff in
    let found = select test db.executions in
    let P = IsCandidate skip queue_names cutoff db in
    let sorted = All-order_by P finished_first found (
      All-of_mem P found λ r m.
        let (listed, t) = Memᴰ-select test db.executions r m in
        (listed, is_prunable-IsRemovable skip queue_names cutoff r t)) in
    All-of_mem P (take limit (order_by finished_first found))
      (λ r m. All-mem P (order_by finished_first found) sorted (Memᴰ-take limit _ m))

doomed-IsRemovable :
    (skip : ℕ → Bool) (queue_names : List Text) (cutoff limit : ℕ) (db : Db) (r : Row)
    → IsAscending db.next_id db.executions
    → Memᴰ r db.executions
    → any (has_id r.id) (prune_candidates skip queue_names cutoff limit db) ≡ true
    → IsRemovable r
doomed-IsRemovable skip queue_names cutoff limit db r a m h =
    let candidates = prune_candidates skip queue_names cutoff limit db in
    let (s, listed, t) = any-mem (has_id r.id) candidates h in
    let P = IsCandidate skip queue_names cutoff db in
    let (there, removable) =
      All-mem P candidates (candidates-IsCandidate skip queue_names cutoff limit db) listed in
    subst IsRemovable (row_of_id db.next_id db.executions a there m (==→≡ s.id r.id t)) removable

not-false : (b : Bool) → not b ≡ false → b ≡ true
not-false true h = refl
not-false false h = cc

pub prune_terminal-Moves :
    (skip : ℕ → Bool) (queue_names : List Text) (cutoff limit : ℕ) (db : Db)
    → IsAscending db.next_id db.executions
    → Moves db (prune_terminal skip queue_names cutoff limit db).1
unfolding prune_terminal
prune_terminal-Moves skip queue_names cutoff limit db a =
    let candidates = prune_candidates skip queue_names cutoff limit db in
    elim (Bool-cases (none_given queue_names || (cutoff == 0 || limit == 0))) [
      | inl e ↦ rw e here
      | inr e ↦ rw e (
          removed (λ r. not (any (has_id r.id) candidates)) here
            (λ r m h. doomed-IsRemovable skip queue_names cutoff limit db r a m (not-false _ h)))
    ]
