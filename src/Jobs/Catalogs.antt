-- ===== src/Jobs/Catalogs.antt =====
-- What validateCatalog refuses.
use dygo.Base.{
  Text, List, [], ◌∷◌, map, Bool, true, false, not, text_eq, text_eq_comm, contains_text, NoRepeat,
  All, All-imp, ok, ◌≡◌, refl, ◌∙◌, or_parts,
}
use dygo.Queues.{Config, has}
use dygo.Jobs.Defs.{
  LoadedJob, Problem, duplicate_job, unregistered_queue, problem_if, job_key, effective_queue,
  catalog_problems, validate_catalog,
}
use dygo.Jobs.Runnable.{append-parts, reported-ok}

no_problem : (b : Bool) (p : Problem) → problem_if b p ≡ [] → b ≡ false
no_problem true p h = cc
no_problem false p h = refl

holds : (b : Bool) (p : Problem) → problem_if (not b) p ≡ [] → b ≡ true
holds true p h = refl
holds false p h = cc

-- A job with a queue of the registry.
abbrev pub IsRegistered : Config → LoadedJob → Type 0
IsRegistered queues l = has queues (effective_queue l.job) ≡ true

unseen :
    (xs : List Text) (x : Text)
    → All (λ k. contains_text (x ∷ []) k ≡ false) xs
    → contains_text xs x ≡ false
unfolding contains_text
unseen [] x h = refl
unseen (k ∷ xs) x (h, hs) =
    let (e, _) = or_parts (text_eq x k) false h in rw (text_eq_comm k x ∙ e) (unseen xs x hs)

catalog_problems-none :
    (queues : Config) (seen : List Text) (jobs : List LoadedJob)
    → catalog_problems queues seen jobs ≡ []
    → All (λ k. contains_text seen k ≡ false) (map job_key jobs)
      × NoRepeat (map job_key jobs)
      × All (IsRegistered queues) jobs
unfolding catalog_problems contains_text
catalog_problems-none queues seen [] h = (tt, tt, tt)
catalog_problems-none queues seen (l ∷ rest) h =
    let (first, h1) =
      append-parts
        (problem_if (contains_text seen (job_key l)) (duplicate_job l.path l.app l.job.name)) _ h in
    let (second, h2) =
      append-parts
        (problem_if (not (has queues (effective_queue l.job)))
          (unregistered_queue l.path l.app l.job.name))
        _ h1 in
    let (fresh, distinct, registered) = catalog_problems-none queues (job_key l ∷ seen) rest h2 in
    (
      (
        no_problem (contains_text seen (job_key l)) _ first,
        All-imp _ (λ k. contains_text seen k ≡ false) (map job_key rest)
            (λ k e. (or_parts (text_eq (job_key l) k) (contains_text seen k) e).1) fresh,
      ),
      (
        unseen (map job_key rest) (job_key l) (
            All-imp _ (λ k. contains_text (job_key l ∷ []) k ≡ false) (map job_key rest)
              (λ k e. rw ((or_parts (text_eq (job_key l) k) (contains_text seen k) e).0) refl)
              fresh),
        distinct,
      ),
      (holds (has queues (effective_queue l.job)) _ second, registered),
    )

-- The jobs of a catalog that validates have different identities, and each has a queue of the registry.
pub validate_catalog-IsRegistered :
    (jobs : List LoadedJob) (queues : Config)
    → validate_catalog jobs queues ≡ ok tt
    → NoRepeat (map job_key jobs) × All (IsRegistered queues) jobs
unfolding validate_catalog
validate_catalog-IsRegistered jobs queues h =
    let (_, distinct, registered) =
      catalog_problems-none queues [] jobs (reported-ok (catalog_problems queues [] jobs) h) in
    (distinct, registered)
