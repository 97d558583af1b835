-- ===== src/Trees/Moves.antt =====
-- The record operations keep a forest a forest.
use dygo.Base.{
  ℕ, List, [], ◌∷◌, true, false, Option, some, Memᴰ, All-mem, All-of_mem, ◌≡◌, refl, sym, ap, subst,
  ◌∙◌, Bool-cases, inl, inr, ◌==◌, ==→≡, if◌then◌else◌,
}
use dygo.Trees.Defs.{Node, contains_id, ancestors, set_parent}
use dygo.Trees.Forest.{Rooted, at_root, below, IsForest, Above, up, ancestors_iff}

-- The rows of an UPDATE of the parent.
Memᴰ-set_parent :
    (i : ℕ) (parent : Option ℕ) (rows : List Node) (n : Node)
    → Memᴰ n rows
    → Memᴰ (if n.id == i then record n { parent = parent } else n) (set_parent i (some parent) rows)
Memᴰ-set_parent i parent [] n m = elim m [ ]
Memᴰ-set_parent i parent (x ∷ rows) n (Memᴰ.head e) =
    Memᴰ.head (ap (λ (y : Node). if y.id == i then record y { parent = parent } else y) e)
Memᴰ-set_parent i parent (x ∷ rows) n (Memᴰ.tail m) = Memᴰ.tail (Memᴰ-set_parent i parent rows n m)

set_parent-source :
    (i : ℕ) (parent : Option ℕ) (rows : List Node) (n' : Node)
    → Memᴰ n' (set_parent i (some parent) rows)
    → (n : Node) × Memᴰ n rows × (n'.id ≡ n.id)
set_parent-source i parent [] n' m = elim m [ ]
set_parent-source i parent (x ∷ rows) n' (Memᴰ.head e) = (
  x,
  Memᴰ.head refl,
  elim (Bool-cases (x.id == i)) [
    | inl q ↦ let f : n' ≡ record x { parent = parent } = rw q at e in ap Node.id f
    | inr q ↦ let f : n' ≡ x = rw q at e in ap Node.id f
  ],
)
set_parent-source i parent (x ∷ rows) n' (Memᴰ.tail m) =
    let (n, k, e) = set_parent-source i parent rows n' m in (n, Memᴰ.tail k, e)

module _ (i : ℕ) (parent : Option ℕ) (rows : List Node) where
  abbrev moved : List Node
  moved = set_parent i (some parent) rows

  kept_row : (n : Node) → Memᴰ n rows → (n.id == i) ≡ false → Memᴰ n moved
  kept_row n m e =
      subst (λ b. Memᴰ (if b then record n { parent = parent } else n) moved) e
        (Memᴰ-set_parent i parent rows n m)

  pub changed_row :
      (n : Node) → Memᴰ n rows → (n.id == i) ≡ true → Memᴰ (record n { parent = parent }) moved
  changed_row n m e =
      subst (λ b. Memᴰ (if b then record n { parent = parent } else n) moved) e
        (Memᴰ-set_parent i parent rows n m)

  -- The row that was changed is rooted, so all rows are.
  spread :
      ((n : Node) → Memᴰ n rows → (n.id == i) ≡ true → Rooted moved n.id)
      → (k : ℕ) → Rooted rows k
      → Rooted moved k
  spread base k (at_root n m q e) = elim (Bool-cases (n.id == i)) [
    | inl t ↦ subst (Rooted moved) e (base n m t)
    | inr t ↦ at_root n (kept_row n m t) q e
  ]
  spread base k (below n p m q e r) = elim (Bool-cases (n.id == i)) [
    | inl t ↦ subst (Rooted moved) e (base n m t)
    | inr t ↦ below n p (kept_row n m t) q e (spread base p r)
  ]

  pub spread-IsForest :
      ((n : Node) → Memᴰ n rows → (n.id == i) ≡ true → Rooted moved n.id)
      → IsForest rows
      → IsForest moved
  spread-IsForest base f =
      All-of_mem (λ (n : Node). Rooted moved n.id) moved
        λ n' m'.
          let (n, m, e) = set_parent-source i parent rows n' m' in
          subst (Rooted moved) (sym e)
            (spread base n.id (All-mem (λ (x : Node). Rooted rows x.id) rows f m))

Rooted-row : (rows : List Node) (k : ℕ) → Rooted rows k → (n : Node) × Memᴰ n rows × (n.id ≡ k)
Rooted-row rows k (at_root n m q e) = (n, m, e)
Rooted-row rows k (below n p m q e r) = (n, m, e)

-- Above a record that does not stand below `i`, the move of `i` changes nothing.
module _ (i : ℕ) (parent : Option ℕ) (rows : List Node) (top : ℕ)
    (free : contains_id (ancestors rows top) i ≡ false) where
  apart : (n : Node) → Above rows top n.id → (n.id == i) ≡ false
  apart n a = elim (Bool-cases (n.id == i)) [
    | inr e ↦ e
    | inl e ↦
        let bad = (ancestors_iff rows top i).1 (subst (Above rows top) (==→≡ n.id i e) a) in cc
  ]

  pub above_kept :
      (k : ℕ) → Above rows top k → Rooted rows k → Rooted (set_parent i (some parent) rows) k
  above_kept k a (at_root n m q e) =
      at_root n (kept_row i parent rows n m (apart n (subst (Above rows top) (sym e) a))) q e
  above_kept k a (below n p m q e r) =
      let (above, m', e') = Rooted-row rows p r in
      below n p (kept_row i parent rows n m (apart n (subst (Above rows top) (sym e) a))) q e
        (above_kept p (up n above a m e (q ∙ ap some (sym e')) m' e') r)
