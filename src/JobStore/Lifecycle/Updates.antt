-- ===== src/JobStore/Lifecycle/Updates.antt =====
-- Ascending ids, and updates by id.
use dygo.Base.{
  ℕ, ◌+◌, ◌<◌, ◌≡◌, refl, sym, ap, subst, ◌∙◌, List, [], ◌∷◌, ◌++◌, Bool, true, false, Memᴰ, All,
  All-append, All-mem, select, Bool-cases, inl, inr, arith, ==→≡,
}
use dygo.JobStore.Defs.{Row, update_where, has_id}
use dygo.JobStore.Lifecycle.Steps.{
  Step, Evolves, here, updated, inserted, removed, Step-id, All-update_where, All-select,
}

-- The ids grow along the table and lie below the counter.
abbrev pub IsAscending : ℕ → List Row → Type 0
IsAscending n [] = Unit
IsAscending n (r ∷ rs) = All (λ s. r.id < s.id) rs × (r.id < n) × IsAscending n rs

-- Two rows with one id are one row.
pub row_of_id :
    (n : ℕ) (rows : List Row) {r s : Row}
    → IsAscending n rows
    → Memᴰ r rows
    → Memᴰ s rows
    → r.id ≡ s.id
    → r ≡ s
row_of_id n [] a m k e = elim m [ ]
row_of_id n (x ∷ xs) a (Memᴰ.head p) (Memᴰ.head q) e = p ∙ sym q
row_of_id n (x ∷ xs) a (Memᴰ.head p) (Memᴰ.tail k) e =
    absurd (omega (arith, All-mem (λ t. x.id < t.id) xs a.0 k, ap (λ (t : Row). t.id) p))
row_of_id n (x ∷ xs) a (Memᴰ.tail m) (Memᴰ.head q) e =
    absurd (omega (arith, All-mem (λ t. x.id < t.id) xs a.0 m, ap (λ (t : Row). t.id) q))
row_of_id n (x ∷ xs) a (Memᴰ.tail m) (Memᴰ.tail k) e = row_of_id n xs a.2 m k e

-- An update by the id of a row that is there changes that row, if the new row is a step of it.
pub updated_by_id :
    (n m : ℕ) (rows xs : List Row) (r : Row) (f : Row → Row)
    → Evolves n rows m xs
    → IsAscending m xs
    → Memᴰ r xs
    → Step r (f r)
    → Evolves n rows m (update_where (has_id r.id) f xs)
updated_by_id n m rows xs r f e a i s =
    updated (has_id r.id) f e
      (λ t j h. subst (λ u. Step u (f u)) (row_of_id m xs a i j (sym (==→≡ t.id r.id h))) s)

Ascending-update_where :
    (n : ℕ) (test : Row → Bool) (f : Row → Row) (rows : List Row)
    → ((r : Row) → Memᴰ r rows → test r ≡ true → Step r (f r))
    → IsAscending n rows
    → IsAscending n (update_where test f rows)
unfolding update_where
Ascending-update_where n test f [] h a = tt
Ascending-update_where n test f (r ∷ rs) h a =
    let step : (s : Row) → Memᴰ s rs → test s ≡ true → Step s (f s) = λ s m. h s (Memᴰ.tail m) in
    let above = λ (i : ℕ).
      All-update_where (λ s. i < s.id) test f rs (λ s m t p. rw (Step-id (step s m t)) p) in
    elim (Bool-cases (test r)) [
      | inl e ↦ rw e (
          rw (Step-id (h r (Memᴰ.head refl) e))
            (above r.id a.0, a.1, Ascending-update_where n test f rs step a.2))
      | inr e ↦ rw e (above r.id a.0, a.1, Ascending-update_where n test f rs step a.2)
    ]

Ascending-select :
    (n : ℕ) (keep : Row → Bool) (rows : List Row)
    → IsAscending n rows
    → IsAscending n (select keep rows)
Ascending-select n keep [] a = tt
Ascending-select n keep (r ∷ rs) a = elim (Bool-cases (keep r)) [
  | inl e ↦ rw e (All-select (λ s. r.id < s.id) keep rs a.0, a.1, Ascending-select n keep rs a.2)
  | inr e ↦ rw e (Ascending-select n keep rs a.2)
]

Ascending-snoc :
    (n : ℕ) (rows : List Row) (r : Row)
    → r.id ≡ n
    → IsAscending n rows
    → IsAscending (n + 1) (rows ++ r ∷ [])
Ascending-snoc n [] r e a = (tt, omega arith, tt)
Ascending-snoc n (x ∷ xs) r e a = (
  All-append (λ s. x.id < s.id) xs (r ∷ []) a.0 (omega arith, tt),
  omega arith,
  Ascending-snoc n xs r e a.2,
)

-- A table that evolves keeps its ids ascending and below its counter.
pub IsAscending-Evolves :
    {n : ℕ} {rows : List Row} {m : ℕ} {xs : List Row}
    → Evolves n rows m xs
    → IsAscending n rows
    → IsAscending m xs
IsAscending-Evolves here a = a
IsAscending-Evolves {m = m} (updated {xs = xs} test f e h) a =
    Ascending-update_where m test f xs h (IsAscending-Evolves e a)
IsAscending-Evolves (inserted {m = m} {xs = xs} r e i h k) a =
    Ascending-snoc m xs r i (IsAscending-Evolves e a)
IsAscending-Evolves {m = m} (removed {xs = xs} keep e h) a =
    Ascending-select m keep xs (IsAscending-Evolves e a)

pub id-lt : (n : ℕ) (rows : List Row) {r : Row} → IsAscending n rows → Memᴰ r rows → r.id < n
id-lt n [] a m = elim m [ ]
id-lt n (x ∷ xs) a (Memᴰ.head e) = omega (arith, ap (λ (t : Row). t.id) e)
id-lt n (x ∷ xs) a (Memᴰ.tail m) = id-lt n xs a.2 m

-- What holds of a table after an update, from what its updated rows and its other rows satisfy.
pub All-update_cases :
    (P Q : Row → Type 0) (test : Row → Bool) (f : Row → Row) (rows : List Row)
    → ((r : Row) → Memᴰ r rows → test r ≡ true → Q (f r))
    → ((r : Row) → test r ≡ false → P r → Q r)
    → All P rows
    → All Q (update_where test f rows)
unfolding update_where
All-update_cases P Q test f [] h k a = tt
All-update_cases P Q test f (r ∷ rs) h k a =
    let rest = All-update_cases P Q test f rs (λ s m. h s (Memᴰ.tail m)) k a.1 in
    elim (Bool-cases (test r)) [
      | inl t ↦ rw t (h r (Memᴰ.head refl) t, rest)
      | inr t ↦ rw t (k r t a.0, rest)
    ]
