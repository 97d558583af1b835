-- ===== src/Trees/Closure.antt =====
-- The fixed point that a recursive query computes.
use dygo.Base.{
  ℕ, zero, suc, ◌≤◌, List, [], ◌∷◌, ◌++◌, true, false, not, ◌||◌, any→mem, mem→any, tally,
  tally_fewer, Memᴰ, ◌≡◌, refl, sym, subst, ◌∙◌, Bool-cases, List-cases, inl, inr, arith, ◌==◌,
  ==→≡, ==-refl,
}
use dygo.Trees.Defs.{contains_id, new_ids, flat_map, recursive_union}

pub contains_id-append :
    (xs ys : List ℕ) (i : ℕ) → contains_id (xs ++ ys) i ≡ (contains_id xs i || contains_id ys i)
contains_id-append [] ys i = refl
contains_id-append (x ∷ xs) ys i = ground (arith, contains_id-append xs ys i)

pub Memᴰ-contains_id : (xs : List ℕ) (i : ℕ) → contains_id xs i ≡ true → Memᴰ i xs
Memᴰ-contains_id xs i h =
    let (j, m, e) = any→mem (λ (j : ℕ). j == i) xs h in subst (λ k. Memᴰ k xs) (==→≡ j i e) m

pub contains_id_of_mem : (xs : List ℕ) (i : ℕ) → Memᴰ i xs → contains_id xs i ≡ true
contains_id_of_mem xs i m = mem→any (λ (j : ℕ). j == i) xs i m (==-refl i)

-- An id that is found, or stands among the candidates, is found or new.
new_ids_complete :
    (found cs : List ℕ) (i : ℕ)
    → contains_id cs i ≡ true
    → (contains_id found i || contains_id (new_ids found cs) i) ≡ true
unfolding new_ids
new_ids_complete found [] i h = cc
new_ids_complete found (c ∷ cs) i h = elim (Bool-cases (contains_id found c)) [
  | inl e ↦ elim (Bool-cases (c == i)) [
    | inl q ↦ let f = subst (λ k. contains_id found k ≡ true) (==→≡ c i q) e in rw f refl
    | inr q ↦ rw e (new_ids_complete found cs i (rw q at h))
  ]
  | inr e ↦ elim (Bool-cases (c == i)) [
    | inl q ↦ rw (e, q) (ground arith)
    | inr q ↦ let ih = new_ids_complete (c ∷ found) cs i (rw q at h) in rw (e, q) (ground arith)
  ]
]

new_ids_sound :
    (found cs : List ℕ) (i : ℕ)
    → contains_id (new_ids found cs) i ≡ true
    → (contains_id cs i ≡ true) × (contains_id found i ≡ false)
unfolding new_ids
new_ids_sound found [] i h = cc
new_ids_sound found (c ∷ cs) i h = elim (Bool-cases (contains_id found c)) [
  | inl e ↦ let (a, b) = new_ids_sound found cs i (rw e at h) in (rw a (ground arith), b)
  | inr e ↦ elim (Bool-cases (c == i)) [
    | inl q ↦ (rw q refl, subst (λ k. contains_id found k ≡ false) (==→≡ c i q) e)
    | inr q ↦
        let k : contains_id (new_ids (c ∷ found) cs) i ≡ true = rw (e, q) at h in
        let (a, b) = new_ids_sound (c ∷ found) cs i k in (rw a (ground arith), ground arith)
  ]
]

contains_id-flat_map :
    (step : ℕ → List ℕ) (work : List ℕ) (i j : ℕ)
    → contains_id work i ≡ true
    → contains_id (step i) j ≡ true
    → contains_id (flat_map step work) j ≡ true
contains_id-flat_map step [] i j h k = cc
contains_id-flat_map step (w ∷ work) i j h k = elim (Bool-cases (w == i)) [
  | inl e ↦
      let s = subst (λ u. contains_id (step u) j ≡ true) (sym (==→≡ w i e)) k in
      contains_id-append (step w) (flat_map step work) j ∙ rw s refl
  | inr e ↦
      let s = contains_id-flat_map step work i j (rw e at h) k in
      contains_id-append (step w) (flat_map step work) j ∙ rw s (ground arith)
]

flat_map-source :
    (step : ℕ → List ℕ) (work : List ℕ) (j : ℕ)
    → contains_id (flat_map step work) j ≡ true
    → (i : ℕ) × (contains_id work i ≡ true) × (contains_id (step i) j ≡ true)
flat_map-source step [] j h = cc
flat_map-source step (w ∷ work) j h = elim (Bool-cases (contains_id (step w) j)) [
  | inl e ↦ (w, rw (==-refl w) refl, e)
  | inr e ↦
      let k : contains_id (flat_map step work) j ≡ true =
        ground (arith, contains_id-append (step w) (flat_map step work) j) in
      let (i, m, s) = flat_map-source step work j k in (i, rw m (ground arith), s)
]

union-stop :
    (fuel : ℕ) (step : ℕ → List ℕ) (found work : List ℕ)
    → new_ids found (flat_map step work) ≡ []
    → recursive_union (suc fuel) step found work ≡ found
unfolding recursive_union
union-stop fuel step found work e = rw (recursive_union, e) refl

union-next :
    (fuel : ℕ) (step : ℕ → List ℕ) (found work more : List ℕ) (i : ℕ)
    → new_ids found (flat_map step work) ≡ i ∷ more
    → recursive_union (suc fuel) step found work
      ≡ recursive_union fuel step (found ++ i ∷ more) (i ∷ more)
unfolding recursive_union
union-next fuel step found work more i e = rw (recursive_union, e) refl

-- `all` bounds what the steps give.
module _ (step : ℕ → List ℕ) (all : List ℕ)
    (inside : (i j : ℕ) → contains_id (step i) j ≡ true → contains_id all j ≡ true) where
  -- Every row that was worked on has its successors.
  abbrev pub IsWorked : List ℕ → List ℕ → Type 0
  IsWorked found work =
      (i j : ℕ)
      → contains_id found i ≡ true
      → contains_id work i ≡ false
      → contains_id (step i) j ≡ true
      → contains_id found j ≡ true

  abbrev pub IsClosed : List ℕ → Type 0
  IsClosed found =
      (i j : ℕ)
      → contains_id found i ≡ true
      → contains_id (step i) j ≡ true
      → contains_id found j ≡ true

  abbrev lacking : List ℕ → ℕ
  lacking found = tally (λ i. not (contains_id found i)) all

  -- Nothing is lacking when the fuel ends.
  full : (found : List ℕ) → lacking found ≡ 0 → IsClosed found
  full found z i j h k = elim (Bool-cases (contains_id found j)) [
    | inl e ↦ e
    | inr e ↦
        let m = Memᴰ-contains_id all j (inside i j k) in
        let few =
          tally_fewer (λ _. false) (λ i. not (contains_id found i)) all j (λ b. λ q. cc) m refl
            (rw e refl) in
        absurd (omega arith)
  ]

  IsClosed-now :
      (found work : List ℕ)
      → IsWorked found work
      → new_ids found (flat_map step work) ≡ []
      → IsClosed found
  IsClosed-now found work w e i j h k = elim (Bool-cases (contains_id work i)) [
    | inr o ↦ w i j h o k
    | inl o ↦
        let c =
          new_ids_complete found (flat_map step work) j (contains_id-flat_map step work i j o k) in
        let n : contains_id (new_ids found (flat_map step work)) j ≡ false = rw e refl in
        ground arith
  ]

  IsWorked-next :
      (found work new : List ℕ)
      → IsWorked found work
      → new_ids found (flat_map step work) ≡ new
      → IsWorked (found ++ new) new
  IsWorked-next found work new w e i j h o k =
      let f : contains_id found i ≡ true = ground (arith, contains_id-append found new i) in
      contains_id-append found new j ∙ (elim (Bool-cases (contains_id work i)) [
        | inr out ↦ rw (w i j f out k) refl
        | inl here ↦
            subst (λ n. (contains_id found j || contains_id n j) ≡ true) e
              (new_ids_complete found (flat_map step work) j
                (contains_id-flat_map step work i j here k))
      ])

  fewer_lacking :
      (found work more : List ℕ) (i : ℕ)
      → new_ids found (flat_map step work) ≡ i ∷ more
      → suc (lacking (found ++ i ∷ more)) ≤ lacking found
  fewer_lacking found work more i e =
      let h : contains_id (new_ids found (flat_map step work)) i ≡ true = rw (e, ==-refl i) refl in
      let (c, out) = new_ids_sound found (flat_map step work) i h in
      let (u, m, s) = flat_map-source step work i c in
      tally_fewer (λ k. not (contains_id (found ++ i ∷ more) k)) (λ k. not (contains_id found k))
        all i (λ b q. ground (arith, contains_id-append found (i ∷ more) b))
        (Memᴰ-contains_id all i (inside u i s))
        (rw (contains_id-append found (i ∷ more) i, ==-refl i) (ground arith)) (rw out refl)

  -- With as much fuel as there are rows, the query ends at a set that is closed.
  pub recursive_union-IsClosed :
      (fuel : ℕ) (found work : List ℕ)
      → lacking found ≤ fuel
      → IsWorked found work
      → IsClosed (recursive_union fuel step found work)
  unfolding recursive_union
  recursive_union-IsClosed zero found work l w = full found (omega arith)
  recursive_union-IsClosed (suc fuel) found work l w =
      elim (List-cases (new_ids found (flat_map step work))) [
        | inl e ↦
            subst IsClosed (sym (union-stop fuel step found work e)) (IsClosed-now found work w e)
        | inr (i, more, e) ↦ subst IsClosed (sym (union-next fuel step found work more i e)) (
            recursive_union-IsClosed fuel (found ++ i ∷ more) (i ∷ more)
              (omega (arith, fewer_lacking found work more i e))
              (IsWorked-next found work (i ∷ more) w e))
      ]

-- What was found stays found.
pub recursive_union-keeps :
    (fuel : ℕ) (step : ℕ → List ℕ) (found work : List ℕ) (i : ℕ)
    → contains_id found i ≡ true
    → contains_id (recursive_union fuel step found work) i ≡ true
unfolding recursive_union
recursive_union-keeps zero step found work i h = h
recursive_union-keeps (suc fuel) step found work i h =
    elim (List-cases (new_ids found (flat_map step work))) [
      | inl e ↦ subst (λ r. contains_id r i ≡ true) (sym (union-stop fuel step found work e)) h
      | inr (j, more, e) ↦
          subst (λ r. contains_id r i ≡ true) (sym (union-next fuel step found work more j e))
            (recursive_union-keeps fuel step (found ++ j ∷ more) (j ∷ more) i
              (rw (contains_id-append found (j ∷ more) i, h) refl))
    ]

-- What holds of the base and is kept by the steps holds of all that is found.
pub recursive_union_ind :
    (P : ℕ → Type 0) (fuel : ℕ) (step : ℕ → List ℕ) (found work : List ℕ)
    → ((i j : ℕ) → P i → contains_id (step i) j ≡ true → P j)
    → ((i : ℕ) → contains_id found i ≡ true → P i)
    → ((i : ℕ) → contains_id work i ≡ true → P i)
    → (i : ℕ) → contains_id (recursive_union fuel step found work) i ≡ true
    → P i
unfolding recursive_union
recursive_union_ind P zero step found work next f w i h = f i h
recursive_union_ind P (suc fuel) step found work next f w i h =
    elim (List-cases (new_ids found (flat_map step work))) [
      | inl e ↦ f i (subst (λ r. contains_id r i ≡ true) (union-stop fuel step found work e) h)
      | inr (j, more, e) ↦
          let new = λ (k : ℕ) (m : contains_id (j ∷ more) k ≡ true).
            let n = subst (λ xs. contains_id xs k ≡ true) (sym e) m in
            let c = new_ids_sound found (flat_map step work) k n in
            let (u, m', s) = flat_map-source step work k c.0 in next u k (w u m') s in
          recursive_union_ind P fuel step (found ++ j ∷ more) (j ∷ more) next
            (λ k m. elim (Bool-cases (contains_id found k)) [
              | inl q ↦ f k q
              | inr q ↦ new k (ground (arith, contains_id-append found (j ∷ more) k))
            ])
            new i (subst (λ r. contains_id r i ≡ true) (union-next fuel step found work more j e) h)
    ]
