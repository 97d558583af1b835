-- ===== src/Lib.antt =====
-- dygo: the job store, permissions, Record queries, App order, Record trees, Record names
-- and patches of the server.
--
-- The server keeps its state in a relational database. Apps enqueue executions of their jobs, workers
-- claim, run and settle them, and maintenance recovers, retries and prunes them; each handler checks
-- permissions, and each Record list decodes its query. The parts and their files:
--
--   Base           what all parts use of Go's types and library: texts as lists of code points,
--                  strings.TrimSpace, Split and Cut, strconv.Atoi, int as an integer, and a value
--                  with an error as `Result`.
--   Names          internal/entity/fieldtype/names.go and the names of internal/shape/shape.go. The
--                  regular expression is the automaton that reads it.
--   Queues         internal/queues/queues.go: Validate and Has, with the problems in their order;
--                  a theorem in Registry.
--   JobStore       internal/jobs/store/store.go and retention.go. JobStore/Defs holds the state (`Db`:
--                  the tables app, job and job_execution) and one function for each method:
--                  Types (the rows), Rows (the UPDATE statements, ORDER BY), Delay (retryDelay),
--                  Lookup (the SELECTs), Enqueue, Settle (Complete, Fail, FailFinal, ExpireClaim,
--                  Cancel, RecoverExpired), Claiming (Claim, NextRunAfter) and Admin (Retry,
--                  PruneTerminal, SetJobEnabled, List). An operation takes the database and returns
--                  its result and the database after it; a transaction that fails returns the
--                  database it began with. Lifecycle says which steps a row takes, Operations that
--                  each operation takes only those, and Schedule performs any sequence of calls.
--                  The theorems stand in Backoff, Invariants, Fencing, Keys, Idempotency, Recovery,
--                  Progress, Supply, Available, Leases and Handout, and their instances in Samples.
--   Permissions    internal/permissions/permissions.go and actions.go: Request (normalizeRequest),
--                  Tables (the joined tables), Checker (Check, Can, CheckRole);
--                  theorems in Grants and Normal.
--   RecordFilter   internal/recordfilter/operators.go.
--   RecordQuery    internal/recordquery/query.go: Defs; that the filters of a request have one sorted order
--                  in Unique, the rounds of FromValues as updates in Updates; theorems in Bounds, Sorting
--                  and AnyOrder.
--   AppOrder       internal/app/registry/order.go: Defs (DependencyOrder; its maps are functions of
--                  names); lemmas in Sets, Edges, Rounds and Loop, theorems in Correct and Total.
--   Trees          internal/db/tree_integrity.go, the subtrees of internal/db/tree.go, and what
--                  createRecordWithLayout, updateRecordWithLayout and deleteRecordWithLayout of internal/db/records.go do to the
--                  id, name and parent of a row: Defs; lemmas on the queries in Closure, on moves in
--                  Moves, on each operation in Keep; theorems in Forest, Histories and
--                  Subtree.
--   PatchPlan      internal/db/patch_plan.go, with what it uses of the catalog, the field types and the
--                  storage names. PatchPlan/Defs: Metadata (Entities and their columns), Reader (the
--                  fields of an operation), SqlGuard (validatePatchSQL), Schema (LiveSchema and its
--                  changes), Statements, SqlText (the SQL of each) and Planner
--                  (BuildPatchOperationPlan). Effects says what a statement does to a database; lemmas in Simulation, theorems in Refines, Literals
--                  and Quoting.
--   Naming         internal/naming/strategy.go and the counters of internal/db/naming.go: Defs; digits in
--                  Numbers, theorems in Counters, Distinct and Formats.
--   Jobs           internal/jobs/jobs.go: Defs (Job.Validate, validateCatalog, the defaults of a Retry);
--                  theorems in Runnable and Catalogs.
--
-- Queues and Permissions use the name checks of Names, JobStore the queue registry of Queues,
-- RecordQuery the operators of RecordFilter, and Jobs the names, the registry and the delays of the
-- store.
--
-- Concurrency: a call is one transaction, and calls are performed one after another. Rows that FOR
-- UPDATE SKIP LOCKED leaves out are a parameter (`skip`) of Claim, RecoverExpired and PruneTerminal, so
-- that what other transactions lock at that time is any set of rows. What others commit between the
-- lookup of Enqueue and its INSERT is a parameter (`others`), any function of the database.
--
-- Bounds and fuel: the loop of DependencyOrder has as many rounds as there are Apps, and a recursive
-- query as many as there are rows; that suffices, since each round takes a new App or finds a new row,
-- which the lemmas on the loops count. The digits of a counter have as much fuel as the counter, and
-- one more. The loop of retryDelay is a recursion on the attempts left, as in the source; durations
-- there are 64-bit patterns whose doubling wraps. Ids, attempts, counters and times are natural
-- numbers: the attempts of a Retry are an int in the source, which its validation keeps positive, and
-- the overflow of a column of the database is an error that has no model. Times are exact; PostgreSQL
-- rounds the times of a row to microseconds.
--
-- Parameters: time.ParseDuration, encoding/json and the queue registry (`Runtime`), the
-- cron parser (`Parsers`), rand.Int64N, the
-- reserved query names, and the letters of Unicode. Times come with each call.
--
-- The UNIQUE constraints on the key and on the name of an execution are tests in insertExecution, as
-- PostgreSQL documents ON CONFLICT DO NOTHING for the first and an error for the second. The SQL of a planned
-- patch operation is kept as the format and the texts that are put in; which USING expressions
-- PostgreSQL accepts is a parameter of the theorem on plans. FieldWrite predicates of Record scopes are
-- left out: they can only refuse a write.
--
-- Not modelled: the database driver and its failures, payload contents beyond their validity,
-- notification delivery, and the parts of the repository that are input and output (HTTP, command
-- line, generators, Studio). Hooks, collections and the other fields of a Record are outside Trees; the
-- descriptions and the system-record operations are outside PatchPlan. Record scopes and the schema
-- plan have no model yet.
pub mod Base
pub mod Names
pub mod Queues
pub mod JobStore
pub mod Permissions
pub mod RecordFilter
pub mod RecordQuery
pub mod AppOrder
pub mod Trees
pub mod PatchPlan
pub mod Naming
pub mod Jobs
