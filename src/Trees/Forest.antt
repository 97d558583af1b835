-- ===== src/Trees/Forest.antt =====
-- The recursive queries against walks along the parent field.
use dygo.Base.{
  ℕ, ◌≤◌, List, [], ◌∷◌, Bool, true, false, not, ◌&&◌, Option, none, some, select, any, any→mem,
  mem→any, length, tally, Memᴰ, All, All-mem, All-of_mem, ◌≡◌, ◌↔◌, refl, sym, ap, ◌∙◌, Bool-cases,
  inl, inr, arith, ◌==◌, ==→≡, ==-refl, Result, ok, err, reject,
}
use dygo.Trees.Defs.{
  Node, Error, broken_hierarchy, contains_id, ids, is_id, is_root, parents_of, children_of,
  ancestors, reachable, recursive_union, validate_tree_data,
}
use dygo.Trees.Closure.{
  recursive_union-IsClosed, recursive_union-keeps, recursive_union_ind, IsClosed,
}

-- The walk from `i` along parents ends at a root.
pub data Rooted (rows : List Node) : ℕ → Type 0 where
  at_root : {i : ℕ} (n : Node) → Memᴰ n rows → n.parent ≡ none → n.id ≡ i → Rooted rows i
  below :
      {i : ℕ} (n : Node) (p : ℕ)
      → Memᴰ n rows
      → n.parent ≡ some p
      → n.id ≡ i
      → Rooted rows p
      → Rooted rows i

abbrev pub IsForest : List Node → Type 0
IsForest rows = All (λ (n : Node). Rooted rows n.id) rows

-- `j` is `i`, or is reached from it along parents.
pub data Above (rows : List Node) (i : ℕ) : ℕ → Type 0 where
  self : {j : ℕ} (n : Node) → Memᴰ n rows → n.id ≡ i → i ≡ j → Above rows i j
  up :
      {k j : ℕ} (n p : Node)
      → Above rows i k
      → Memᴰ n rows
      → n.id ≡ k
      → n.parent ≡ some p.id
      → Memᴰ p rows
      → p.id ≡ j
      → Above rows i j

pub contains_id-ids :
    (p : Node → Bool) (rows : List Node) (i : ℕ)
    → contains_id (ids (select p rows)) i ≡ true
    → (n : Node) × Memᴰ n rows × (p n ≡ true) × (n.id ≡ i)
contains_id-ids p [] i h = cc
contains_id-ids p (x ∷ rows) i h = elim (Bool-cases (p x)) [
  | inr e ↦ let (n, m, t, q) = contains_id-ids p rows i (rw e at h) in (n, Memᴰ.tail m, t, q)
  | inl e ↦ elim (Bool-cases (x.id == i)) [
    | inl q ↦ (x, Memᴰ.head refl, e, ==→≡ x.id i q)
    | inr q ↦ let (n, m, t, s) = contains_id-ids p rows i (rw (e, q) at h) in (n, Memᴰ.tail m, t, s)
  ]
]

pub contains_id_of_row :
    (p : Node → Bool) (rows : List Node) (i : ℕ) (n : Node)
    → Memᴰ n rows
    → p n ≡ true
    → n.id ≡ i
    → contains_id (ids (select p rows)) i ≡ true
contains_id_of_row p [] i n m t e = elim m [ ]
contains_id_of_row p (x ∷ rows) i n (Memᴰ.head q) t e =
    let a : p x ≡ true = ap p (sym q) ∙ t in
    let b : x.id ≡ i = ap Node.id (sym q) ∙ e in rw a (ground arith)
contains_id_of_row p (x ∷ rows) i n (Memᴰ.tail m) t e =
    let ih = contains_id_of_row p rows i n m t e in
    elim (Bool-cases (p x)) [ inl a ↦ rw (a, ih) (ground arith) | inr a ↦ rw a ih ]

all_ids :
    (rows : List Node) (i : ℕ) (n : Node) → Memᴰ n rows → n.id ≡ i → contains_id (ids rows) i ≡ true
all_ids [] i n m e = elim m [ ]
all_ids (x ∷ rows) i n (Memᴰ.head q) e = let b : x.id ≡ i = ap Node.id (sym q) ∙ e in ground arith
all_ids (x ∷ rows) i n (Memᴰ.tail m) e = rw (all_ids rows i n m e) (ground arith)

is_id→≡ : (o : Option ℕ) (i : ℕ) → is_id o i ≡ true → o ≡ some i
is_id→≡ none i h = cc
is_id→≡ (some j) i h = ap some (==→≡ j i h)

pub ≡→is_id : (o : Option ℕ) (i : ℕ) → o ≡ some i → is_id o i ≡ true
≡→is_id o i h = rw h (==-refl i)

tally-le_ids : (p : ℕ → Bool) (rows : List Node) → tally p (ids rows) ≤ length rows
tally-le_ids p [] = omega arith
tally-le_ids p (x ∷ rows) = ground (arith, tally-le_ids p rows)

-- A query from a base over the table ends at a closed set.
module _ (rows : List Node) (step : ℕ → List ℕ)
    (inside : (i j : ℕ) → contains_id (step i) j ≡ true → contains_id (ids rows) j ≡ true)
    (base : List ℕ) where
  pub query-IsClosed :
      IsClosed step (ids rows) inside (recursive_union (length rows) step base base)
  query-IsClosed =
      recursive_union-IsClosed step (ids rows) inside (length rows) base base
        (tally-le_ids (λ i. not (contains_id base i)) rows)
        (λ i j h o k. let bad : true ≡ false = sym h ∙ o in cc)

parents_of-source :
    (rows : List Node) (i j : ℕ)
    → contains_id (parents_of rows i) j ≡ true
    → (p : Node) × Memᴰ p rows
      × (p.id ≡ j)
      × (n : Node) × Memᴰ n rows
      × (n.id ≡ i)
      × (n.parent ≡ some p.id)
parents_of-source rows i j h =
    let (p, m, t, e) =
      contains_id-ids (λ (q : Node). any (λ (a : Node). a.id == i && is_id a.parent q.id) rows) rows
        j h in
    let (n, k, s) = any→mem (λ (a : Node). a.id == i && is_id a.parent p.id) rows t in
    (p, m, e, n, k, ground arith, is_id→≡ n.parent p.id (ground arith))

parents_of_complete :
    (rows : List Node) (n p : Node) (i j : ℕ)
    → Memᴰ n rows
    → n.id ≡ i
    → n.parent ≡ some p.id
    → Memᴰ p rows
    → p.id ≡ j
    → contains_id (parents_of rows i) j ≡ true
parents_of_complete rows n p i j m e q k f =
    contains_id_of_row (λ (r : Node). any (λ (a : Node). a.id == i && is_id a.parent r.id) rows)
      rows j p k
      (mem→any (λ (a : Node). a.id == i && is_id a.parent p.id) rows n m
        (let a = ≡→is_id n.parent p.id q in ground arith))
      f

parents_inside :
    (rows : List Node) (i j : ℕ)
    → contains_id (parents_of rows i) j ≡ true
    → contains_id (ids rows) j ≡ true
parents_inside rows i j h =
    let (p, m, e, n, u, q, s) = parents_of-source rows i j h in all_ids rows j p m e

-- The query of validateTreeParent finds exactly the records that are the given one or stand above it.
pub ancestors_iff :
    (rows : List Node) (i j : ℕ) → (contains_id (ancestors rows i) j ≡ true) ↔ Above rows i j
unfolding ancestors
ancestors_iff rows i j = (there, back)
  where
    base : List ℕ
    base = ids (select (λ (n : Node). n.id == i) rows)

    start : (k : ℕ) → contains_id base k ≡ true → Above rows i k
    start k h =
        let (n, m, t, e) = contains_id-ids (λ (n : Node). n.id == i) rows k h in
        let q = ==→≡ n.id i t in self n m q (sym q ∙ e)

    climb : (k l : ℕ) → Above rows i k → contains_id (parents_of rows k) l ≡ true → Above rows i l
    climb k l a h = let (p, m, e, n, u, q, s) = parents_of-source rows k l h in up n p a u q s m e

    there : contains_id (ancestors rows i) j ≡ true → Above rows i j
    there h =
        recursive_union_ind (Above rows i) (length rows) (parents_of rows) base base climb start
          start j h

    back : Above rows i j → contains_id (ancestors rows i) j ≡ true
    back a = found rows i j a
      where
        found : (t : List Node) (u v : ℕ) → Above t u v → contains_id (ancestors t u) v ≡ true
        found t u v (self n m e q) =
            recursive_union-keeps (length t) (parents_of t)
              (ids (select (λ (x : Node). x.id == u) t)) (ids (select (λ (x : Node). x.id == u) t))
              v (contains_id_of_row (λ (x : Node). x.id == u) t v n m (ground arith) (e ∙ q))
        found t u v (up n p above m e q k f) =
            query-IsClosed t (parents_of t) (parents_inside t)
              (ids (select (λ (x : Node). x.id == u) t)) _ v (found t u _ above)
              (parents_of_complete t n p _ v m e q k f)

pub children_of-source :
    (rows : List Node) (i j : ℕ)
    → contains_id (children_of rows i) j ≡ true
    → (n : Node) × Memᴰ n rows × (n.parent ≡ some i) × (n.id ≡ j)
children_of-source rows i j h =
    let (n, m, t, e) = contains_id-ids (λ (x : Node). is_id x.parent i) rows j h in
    (n, m, is_id→≡ n.parent i t, e)

pub children_inside :
    (rows : List Node) (i j : ℕ)
    → contains_id (children_of rows i) j ≡ true
    → contains_id (ids rows) j ≡ true
children_inside rows i j h =
    let (n, m, t, e) = children_of-source rows i j h in all_ids rows j n m e

abbrev roots : List Node → List ℕ
roots rows = ids (select is_root rows)

root_parent : (n : Node) → is_root n ≡ true → n.parent ≡ none
root_parent n h = ground arith

is_root_of : (n : Node) → n.parent ≡ none → is_root n ≡ true
is_root_of n h = rw h refl

reachable-Rooted :
    (rows : List Node) (i : ℕ) → contains_id (reachable rows) i ≡ true → Rooted rows i
unfolding reachable
reachable-Rooted rows i h =
    recursive_union_ind (Rooted rows) (length rows) (children_of rows) (roots rows) (roots rows)
      down top top i h
  where
    top : (k : ℕ) → contains_id (roots rows) k ≡ true → Rooted rows k
    top k h = let (n, m, t, e) = contains_id-ids is_root rows k h in at_root n m (root_parent n t) e

    down : (k l : ℕ) → Rooted rows k → contains_id (children_of rows k) l ≡ true → Rooted rows l
    down k l r h = let (n, m, q, e) = children_of-source rows k l h in below n k m q e r

Rooted-reachable :
    (rows : List Node) (i : ℕ) → Rooted rows i → contains_id (reachable rows) i ≡ true
unfolding reachable
Rooted-reachable rows i (at_root n m q e) =
    recursive_union-keeps (length rows) (children_of rows) (roots rows) (roots rows) i
      (contains_id_of_row is_root rows i n m (is_root_of n q) e)
Rooted-reachable rows i (below n p m q e r) =
    query-IsClosed rows (children_of rows) (children_inside rows) (roots rows) p i
      (Rooted-reachable rows p r)
      (contains_id_of_row (λ (x : Node). is_id x.parent p) rows i n m (≡→is_id n.parent p q) e)

-- validateTreeData accepts a table exactly when the walk from each record along parents ends at a root.
pub validate_tree_data-ok_iff :
    (rows : List Node) → (validate_tree_data rows ≡ ok tt) ↔ IsForest rows
unfolding validate_tree_data
validate_tree_data-ok_iff rows = (there, back)
  where
    astray : Node → Bool
    astray n = not (contains_id (reachable rows) n.id)

    there : reject (any astray rows) broken_hierarchy ≡ ok tt → IsForest rows
    there h =
        All-of_mem (λ (n : Node). Rooted rows n.id) rows
          λ n m. elim (Bool-cases (contains_id (reachable rows) n.id)) [
            | inl e ↦ reachable-Rooted rows n.id e
            | inr e ↦
                let t : any astray rows ≡ true = mem→any astray rows n m (rw e refl) in
                let bad : ◌≡◌ {A = Result Error (Unit {0})} (err broken_hierarchy) (ok tt) =
                  rw t at h in
                cc
          ]

    back : IsForest rows → reject (any astray rows) broken_hierarchy ≡ ok tt
    back f = elim (Bool-cases (any astray rows)) [
      | inr e ↦ rw e refl
      | inl e ↦
          let (n, m, t) = any→mem astray rows e in
          let r = Rooted-reachable rows n.id (All-mem (λ (x : Node). Rooted rows x.id) rows f m) in
          let bad : true ≡ false = rw r at (sym t) in cc
    ]
