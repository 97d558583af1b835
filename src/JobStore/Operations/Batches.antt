-- ===== src/JobStore/Operations/Batches.antt =====
-- Batches of rows with different ids.
use dygo.Base.{
  ℕ, zero, suc, ◌<◌, ◌≡◌, ◌≢◌, sym, ap, ◌∙◌, List, [], ◌∷◌, Bool, false, Memᴰ, All, All-imp,
  All-of_mem, All-mem, Memᴰ-take, Memᴰ-select, select, take, Bool-cases, inl, inr, arith,
  if◌then◌else◌,
}
use dygo.JobStore.Defs.{Row, update_where, has_id, order_by, insert_by}
use dygo.JobStore.Lifecycle.{IsAscending}

-- No two rows of the batch have one id.
abbrev pub IsDistinct : List Row → Type 0
IsDistinct [] = Unit
IsDistinct (r ∷ rs) = All (λ s. r.id ≢ s.id) rs × IsDistinct rs

pub Ascending-IsDistinct : (n : ℕ) (rows : List Row) → IsAscending n rows → IsDistinct rows
Ascending-IsDistinct n [] a = tt
Ascending-IsDistinct n (r ∷ rs) a = (
  All-imp (λ s. r.id < s.id) (λ s. r.id ≢ s.id) rs (λ s h. omega arith) a.0,
  Ascending-IsDistinct n rs a.2,
)

All-mem_imp :
    (P : Row → Type 0) (xs ys : List Row)
    → ((r : Row) → Memᴰ r ys → Memᴰ r xs)
    → All P xs
    → All P ys
All-mem_imp P xs ys h a = All-of_mem P ys (λ r m. All-mem P xs a (h r m))

pub select-IsDistinct :
    (p : Row → Bool) (rows : List Row) → IsDistinct rows → IsDistinct (select p rows)
select-IsDistinct p [] d = tt
select-IsDistinct p (r ∷ rs) d = elim (Bool-cases (p r)) [
  | inl e ↦ rw e (
    All-mem_imp (λ s. r.id ≢ s.id) rs (select p rs) (λ s m. (Memᴰ-select p rs s m).0) d.0,
    select-IsDistinct p rs d.1,
  )
  | inr e ↦ rw e (select-IsDistinct p rs d.1)
]

pub take-IsDistinct : (k : ℕ) (rows : List Row) → IsDistinct rows → IsDistinct (take k rows)
take-IsDistinct zero rows d = tt
take-IsDistinct (suc k) [] d = tt
take-IsDistinct (suc k) (r ∷ rs) d = (
  All-mem_imp (λ s. r.id ≢ s.id) rs (take k rs) (λ s m. Memᴰ-take k rs m) d.0,
  take-IsDistinct k rs d.1,
)

pub All-insert_by :
    (P : Row → Type 0) (before : Row → Row → Bool) (r : Row) (rows : List Row)
    → P r
    → All P rows
    → All P (insert_by before r rows)
unfolding insert_by
All-insert_by P before r [] p a = (p, tt)
All-insert_by P before r (s ∷ ss) p a = elim (Bool-cases (before s r)) [
  | inl e ↦ rw e (a.0, All-insert_by P before r ss p a.1)
  | inr e ↦ rw e (p, a)
]

pub All-order_by :
    (P : Row → Type 0) (before : Row → Row → Bool) (rows : List Row)
    → All P rows
    → All P (order_by before rows)
unfolding order_by
All-order_by P before [] a = tt
All-order_by P before (r ∷ rs) a =
    All-insert_by P before r (order_by before rs) a.0 (All-order_by P before rs a.1)

insert_by-IsDistinct :
    (before : Row → Row → Bool) (r : Row) (rows : List Row)
    → All (λ s. r.id ≢ s.id) rows
    → IsDistinct rows
    → IsDistinct (insert_by before r rows)
unfolding insert_by
insert_by-IsDistinct before r [] a d = (tt, tt)
insert_by-IsDistinct before r (s ∷ ss) a d = elim (Bool-cases (before s r)) [
  | inl e ↦ rw e (
    All-insert_by (λ t. s.id ≢ t.id) before r ss (λ q. a.0 (sym q)) d.0,
    insert_by-IsDistinct before r ss a.1 d.1,
  )
  | inr e ↦ rw e (a, d)
]

pub order_by-IsDistinct :
    (before : Row → Row → Bool) (rows : List Row)
    → IsDistinct rows
    → IsDistinct (order_by before rows)
unfolding order_by
order_by-IsDistinct before [] d = tt
order_by-IsDistinct before (r ∷ rs) d =
    insert_by-IsDistinct before r (order_by before rs)
      (All-order_by (λ s. r.id ≢ s.id) before rs d.0) (order_by-IsDistinct before rs d.1)

pub Memᴰ-update_where :
    (test : Row → Bool) (f : Row → Row) (s : Row) (rows : List Row)
    → test s ≡ false
    → Memᴰ s rows
    → Memᴰ s (update_where test f rows)
unfolding update_where
Memᴰ-update_where test f s (r ∷ rs) e (Memᴰ.head q) =
    Memᴰ.head (q ∙ sym (ap (λ b. if b then f r else r) (sym (ap test q) ∙ e)))
Memᴰ-update_where test f s (r ∷ rs) e (Memᴰ.tail m) = Memᴰ.tail (Memᴰ-update_where test f s rs e m)
Memᴰ-update_where test f s [] e m = elim m [ ]

other_id : (r s : Row) → r.id ≢ s.id → has_id r.id s ≡ false
other_id r s h = ground arith

-- A batch that stands in the table still stands there after an update by an id outside it.
pub batch-update_where :
    (r : Row) (f : Row → Row) (batch rows : List Row)
    → All (λ s. r.id ≢ s.id) batch
    → All (λ s. Memᴰ s rows) batch
    → All (λ s. Memᴰ s (update_where (has_id r.id) f rows)) batch
batch-update_where r f [] rows d m = tt
batch-update_where r f (s ∷ ss) rows d m = (
  Memᴰ-update_where (has_id r.id) f s rows (other_id r s d.0) m.0,
  batch-update_where r f ss rows d.1 m.1,
)
