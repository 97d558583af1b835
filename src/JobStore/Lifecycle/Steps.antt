-- ===== src/JobStore/Lifecycle/Steps.antt =====
-- The transitions of one execution, and tables that change by them.
use dygo.Base.{
  ℕ, suc, ◌+◌, ◌<◌, ◌≤◌, ◌≡◌, refl, List, [], ◌∷◌, ◌++◌, Bool, true, false, Text, none, Memᴰ, All,
  All-append, All-of_mem, All-mem, any, select, Memᴰ-select, Bool-cases, inl, inr, arith,
}
use dygo.JobStore.Defs.{
  Row, queued, running, update_where, claim_row, complete_row, requeue_row, fail_row, expire_row,
  cancel_row, is_terminal, clashes,
}

pub data Step (r : Row) : Row → Type 0 where
  claimed :
      (now until : ℕ) (worker : Text) → r.status ≡ queued → Step r (claim_row now until worker r)
  completed : (result : Text) (now : ℕ) → r.status ≡ running → Step r (complete_row result now r)
  requeued :
      (message : Text) (run_after : ℕ)
      → r.status ≡ running
      → r.attempts < r.max_attempts
      → Step r (requeue_row message run_after r)
  failed_for_good :
      (message : Text) (now : ℕ) → r.status ≡ running → Step r (fail_row message now r)
  expired : (now : ℕ) → r.status ≡ running → Step r (expire_row now r)
  withdrawn : (now : ℕ) → r.status ≡ queued → Step r (cancel_row now r)

-- A row as Enqueue inserts it.
pub record IsFresh (r : Row) : Type 0 where
  pub is_queued : r.status ≡ queued
  pub no_attempts : r.attempts ≡ 0
  pub unlocked : r.locked_by ≡ none
  pub no_lease : r.locked_until ≡ none
  pub unfinished : r.finished_at ≡ none

-- Rows may be removed when they are terminal and have no idempotency key.
abbrev pub IsRemovable : Row → Type 0
IsRemovable r = (is_terminal r.status ≡ true) × (r.idempotency_key ≡ none)

-- A table with its id counter changes by row steps, insertions with the next id, and removals.
pub data Evolves (n : ℕ) (rows : List Row) : ℕ → List Row → Type 0 where
  here : Evolves n rows n rows
  updated :
      {m : ℕ} {xs : List Row} (test : Row → Bool) (f : Row → Row)
      → Evolves n rows m xs
      → ((r : Row) → Memᴰ r xs → test r ≡ true → Step r (f r))
      → Evolves n rows m (update_where test f xs)
  inserted :
      {m : ℕ} {xs : List Row} (r : Row)
      → Evolves n rows m xs
      → r.id ≡ m
      → IsFresh r
      → any (clashes r) xs ≡ false
      → Evolves n rows (m + 1) (xs ++ r ∷ [])
  removed :
      {m : ℕ} {xs : List Row} (keep : Row → Bool)
      → Evolves n rows m xs
      → ((r : Row) → Memᴰ r xs → keep r ≡ false → IsRemovable r)
      → Evolves n rows m (select keep xs)

pub Evolves-trans :
    {n m : ℕ} {xs ys : List Row} {k : ℕ} {zs : List Row}
    → Evolves n xs m ys
    → Evolves m ys k zs
    → Evolves n xs k zs
Evolves-trans e here = e
Evolves-trans e (updated test f d h) = updated test f (Evolves-trans e d) h
Evolves-trans e (inserted r d i h k) = inserted r (Evolves-trans e d) i h k
Evolves-trans e (removed keep d h) = removed keep (Evolves-trans e d) h

pub Step-id : {r s : Row} → Step r s → s.id ≡ r.id
unfolding claim_row complete_row requeue_row fail_row expire_row cancel_row
Step-id (claimed now until worker h) = refl
Step-id (completed result now h) = refl
Step-id (requeued message run_after h l) = refl
Step-id (failed_for_good message now h) = refl
Step-id (expired now h) = refl
Step-id (withdrawn now h) = refl

pub All-update_where :
    (P : Row → Type 0) (test : Row → Bool) (f : Row → Row) (rows : List Row)
    → ((r : Row) → Memᴰ r rows → test r ≡ true → P r → P (f r))
    → All P rows
    → All P (update_where test f rows)
unfolding update_where
All-update_where P test f [] h a = tt
All-update_where P test f (r ∷ rs) h a = (
  elim (Bool-cases (test r)) [ inl e ↦ rw e (h r (Memᴰ.head refl) e a.0) | inr e ↦ rw e a.0 ],
  All-update_where P test f rs (λ s m. h s (Memᴰ.tail m)) a.1,
)

pub All-select :
    (P : Row → Type 0) (keep : Row → Bool) (rows : List Row) → All P rows → All P (select keep rows)
All-select P keep rows a =
    All-of_mem P (select keep rows) (λ r m. All-mem P rows a (Memᴰ-select keep rows r m).0)

-- A property of rows that every step keeps, and that every fresh row with an id from `n` on has,
-- holds of all rows of a table that evolves from one where it holds.
pub record IsKept (n : ℕ) (P : Row → Type 0) : Type 0 where
  pub by_step : (r s : Row) → Step r s → P r → P s
  pub at_first : (r : Row) → n < suc r.id → IsFresh r → P r

pub Evolves-le : {n : ℕ} {rows : List Row} {m : ℕ} {xs : List Row} → Evolves n rows m xs → n ≤ m
Evolves-le here = omega arith
Evolves-le (updated test f e h) = Evolves-le e
Evolves-le (inserted r e i h k) = omega (arith, Evolves-le e)
Evolves-le (removed keep e h) = Evolves-le e

pub All-Evolves :
    (P : Row → Type 0) {n : ℕ} {rows : List Row} {m : ℕ} {xs : List Row}
    → IsKept n P
    → Evolves n rows m xs
    → All P rows
    → All P xs
All-Evolves P k here a = a
All-Evolves P k (updated {xs = xs} test f e h) a =
    All-update_where P test f xs (λ r m t p. k.by_step r (f r) (h r m t) p) (All-Evolves P k e a)
All-Evolves P k (inserted {xs = xs} r e i fresh free) a =
    All-append P xs (r ∷ []) (All-Evolves P k e a)
      (k.at_first r (omega (arith, Evolves-le e)) fresh, tt)
All-Evolves P k (removed {xs = xs} keep e h) a = All-select P keep xs (All-Evolves P k e a)
