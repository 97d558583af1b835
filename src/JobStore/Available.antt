-- ===== src/JobStore/Available.antt =====
-- What the WHERE of Claim asks of a row.
use dygo.Base.{
  ℕ, ◌≤◌, ◌≡◌, refl, sym, List, [], ◌∷◌, Bool, true, false, Option, some, none, Text, Memᴰ,
  find-some, ==→≡, leb→le, text_eq, text_eq→≡, contains_text, Bool-cases, inl, inr, and_parts,
  not-parts, arith, ◌==◌,
}
use dygo.JobStore.Defs.{Row, JobRow, AppRow, Status, queued, Db, status_eq, job_of, app_of}
use dygo.JobStore.Operations.{IsChosen}

-- A row of a job of an active app that is queued, due, in one of the queues, and not locked by
-- another transaction.
pub record IsAvailable (db : Db) (skip : ℕ → Bool) (names : List Text) (now : ℕ) (r : Row)
    : Type 0 where
  pub listed : Memᴰ r db.executions
  pub job : JobRow
  pub job_listed : Memᴰ job db.jobs
  pub job_named : job.id ≡ r.job_id
  pub app : AppRow
  pub app_listed : Memᴰ app db.apps
  pub app_named : app.id ≡ job.app_id
  pub app_on : app.active ≡ true
  pub was_queued : r.status ≡ queued
  pub due : r.run_after ≤ now
  pub queue_listed : Memᴰ r.queue names
  pub unlocked : skip r.id ≡ false

contains_text-Memᴰ : (ts : List Text) (s : Text) → contains_text ts s ≡ true → Memᴰ s ts
unfolding contains_text
contains_text-Memᴰ [] s h = cc
contains_text-Memᴰ (t ∷ ts) s h = elim (Bool-cases (text_eq t s)) [
  | inl e ↦ Memᴰ.head (sym (text_eq→≡ t s e))
  | inr e ↦ Memᴰ.tail (contains_text-Memᴰ ts s (rw e at h))
]

status_queued : (s : Status) → status_eq s queued ≡ true → s ≡ queued
status_queued s h = ground arith

abbrev AppOf : Db → JobRow → Type 0
AppOf db j = (a : AppRow) × Memᴰ a db.apps × (a.id ≡ j.app_id) × (a.active ≡ true)

abbrev JobOf : Db → Row → Type 0
JobOf db r = (j : JobRow) × Memᴰ j db.jobs × (j.id ≡ r.job_id) × AppOf db j

abbrev active_of : Option AppRow → Bool
active_of none = false
active_of (some a) = a.active

app_found :
    (db : Db) (j : JobRow) (o : Option AppRow) → app_of db j ≡ o → active_of o ≡ true → AppOf db j
app_found db j none e h = cc
app_found db j (some a) e h =
    let (m, t) = find-some (λ (b : AppRow). b.id == j.app_id) db.apps e in
    (a, m, ==→≡ a.id j.app_id t, h)

abbrev job_active : Db → Option JobRow → Bool
job_active db none = false
job_active db (some j) = active_of (app_of db j)

job_found :
    (db : Db) (r : Row) (o : Option JobRow) → job_of db r ≡ o → job_active db o ≡ true → JobOf db r
job_found db r none e h = cc
job_found db r (some j) e h =
    let (m, t) = find-some (λ (k : JobRow). k.id == r.job_id) db.jobs e in
    (j, m, ==→≡ j.id r.job_id t, app_found db j (app_of db j) refl h)

pub IsChosen-IsAvailable :
    (db : Db) (skip : ℕ → Bool) (names : List Text) (now : ℕ) (r : Row)
    → IsChosen db skip names now r
    → IsAvailable db skip names now r
IsChosen-IsAvailable db skip names now r (m, h) =
    let (h4, free) = and_parts _ _ h in
    let (h3, named) = and_parts _ _ h4 in
    let (h2, late) = and_parts _ _ h3 in
    let (active, waiting) = and_parts _ _ h2 in
    let (j, j_in, j_id, app) = job_found db r (job_of db r) refl active in
    let (a, a_in, a_id, a_on) = app in
    record {
      listed = m;
      job = j;
      job_listed = j_in;
      job_named = j_id;
      app = a;
      app_listed = a_in;
      app_named = a_id;
      app_on = a_on;
      was_queued = status_queued r.status waiting;
      due = leb→le r.run_after now late;
      queue_listed = contains_text-Memᴰ names r.queue named;
      unlocked = not-parts _ free;
    }
