-- ===== src/Trees/Subtree.antt =====
-- The records below a record, against the records above one.
use dygo.Base.{
  Text, text_eq, none, find, ok, reject, reject-passes, not-parts, ◌>>◌, ◌&&◌, ℕ, List, [], ◌∷◌,
  Bool, true, not, some, select, length, Memᴰ, ◌≡◌, ◌↔◌, refl, sym, ap, subst, ◌∙◌, Bool-cases, inl,
  inr, ◌==◌, ==→≡, ==-refl,
}
use dygo.Trees.Defs.{
  access_denied, would_cycle, named, is_some, in_scope, id_by_name, get_record,
  validate_tree_parent, Node, contains_id, ids, is_id, children_of, ancestors, subtree,
  is_candidate,
}
use dygo.Trees.Closure.{recursive_union-keeps, recursive_union_ind}
use dygo.Trees.Forest.{
  Above, self, up, ancestors_iff, contains_id-ids, contains_id_of_row, query-IsClosed,
  children_of-source, children_inside, ≡→is_id,
}

-- A child of a record stands below all that the record stands below.
Above-child :
    (rows : List Node) (n : Node) (k l i : ℕ)
    → Memᴰ n rows
    → n.parent ≡ some k
    → n.id ≡ l
    → Above rows k i
    → Above rows l i
Above-child rows n k l i m q e (self top m' e' same) =
    up n top (self n m e refl) m e (q ∙ ap some (sym e')) m' (e' ∙ same)
Above-child rows n k l i m q e (up x p above m' e' q' k' f) =
    up x p (Above-child rows n k l _ m q e above) m' e' q' k' f

module _ (rows : List Node) (i : ℕ) where
  abbrev base : List ℕ
  base = ids (select (λ (n : Node). n.id == i) rows)

  subtree-Above : (j : ℕ) → contains_id (subtree rows i) j ≡ true → Above rows j i
  unfolding subtree
  subtree-Above j h =
      recursive_union_ind (λ k. Above rows k i) (length rows) (children_of rows) base base down top
        top j h
    where
      top : (k : ℕ) → contains_id base k ≡ true → Above rows k i
      top k h =
          let (n, m, t, e) = contains_id-ids (λ (n : Node). n.id == i) rows k h in
          self n m e (sym e ∙ ==→≡ n.id i t)

      down : (k l : ℕ) → Above rows k i → contains_id (children_of rows k) l ≡ true → Above rows l i
      down k l a h =
          let (n, m, q, e) = children_of-source rows k l h in Above-child rows n k l i m q e a

  -- What stands below a record of the subtree is in it.
  descend :
      (j k : ℕ)
      → Above rows j k
      → contains_id (subtree rows i) k ≡ true
      → contains_id (subtree rows i) j ≡ true
  unfolding subtree
  descend j k (self n m e same) h = subst (λ x. contains_id (subtree rows i) x ≡ true) (sym same) h
  descend j k (up n p above m e q m' e') h = descend j _ above (
      query-IsClosed rows (children_of rows) (children_inside rows) base k _ h (
        contains_id_of_row (λ (x : Node). is_id x.parent k) rows _ n m
          (≡→is_id n.parent k (q ∙ ap some e')) e))

top_row : (rows : List Node) (j i : ℕ) → Above rows j i → (n : Node) × Memᴰ n rows × (n.id ≡ i)
top_row rows j i (self n m e same) = (n, m, e ∙ same)
top_row rows j i (up n p above m e q m' e') = (p, m', e')

-- The records that a tree search leaves out with a record are exactly those that are refused as its parent
-- because of a cycle: one record is in the subtree of another exactly when that one is found by the query that
-- goes up from it.
pub subtree-ancestors :
    (rows : List Node) (i j : ℕ)
    → (contains_id (subtree rows i) j ≡ true) ↔ (contains_id (ancestors rows j) i ≡ true)
unfolding subtree
subtree-ancestors rows i j = (there, back)
  where
    there : contains_id (subtree rows i) j ≡ true → contains_id (ancestors rows j) i ≡ true
    there h = (ancestors_iff rows j i).1 (subtree-Above rows i j h)

    back : contains_id (ancestors rows j) i ≡ true → contains_id (subtree rows i) j ≡ true
    back h =
        let a = (ancestors_iff rows j i).0 h in
        let (n, m, e) = top_row rows j i a in
        descend rows i j i a (
          recursive_union-keeps (length rows) (children_of rows) (base rows i) (base rows i) i (
            contains_id_of_row (λ (x : Node). x.id == i) rows i n m
              (subst (λ k. (k == i) ≡ true) (sym e) (==-refl i)) e))

found_of_mem :
    (p : Node → Bool) (rows : List Node) (n : Node)
    → Memᴰ n rows
    → p n ≡ true
    → is_some (find p rows) ≡ true
found_of_mem p [] n m t = elim m [ ]
found_of_mem p (x ∷ rows) n (Memᴰ.head e) t =
    let here : p x ≡ true = ap p (sym e) ∙ t in rw here refl
found_of_mem p (x ∷ rows) n (Memᴰ.tail m) t = elim (Bool-cases (p x)) [
  | inl e ↦ rw e refl
  | inr e ↦ rw e (found_of_mem p rows n m t)
]

-- Without scopes, only the query for a cycle decides on a parent that is there.
decided_by_cycle :
    (rows : List Node) (i : ℕ) (n : Node) (name : Text)
    → Memᴰ n rows
    → id_by_name rows name ≡ ok n.id
    → validate_tree_parent rows none none i (named name)
      ≡ reject (contains_id (ancestors rows n.id) i) would_cycle
unfolding validate_tree_parent text_eq
decided_by_cycle rows i n name m e =
    let found : is_some (get_record rows none n.id) ≡ true =
      found_of_mem (λ (x : Node). x.id == n.id && in_scope none x) rows n m
        (rw (==-refl n.id) refl) in
    rw e (
      ap
        (λ b.
          reject (not b) access_denied >> reject (contains_id (ancestors rows n.id) i) would_cycle)
        found)

-- For a caller without scopes, a record may become the parent exactly when the tree search that leaves out the
-- moved record with all below it does not leave that record out.
pub is_candidate-accepted_iff :
    (rows : List Node) (i : ℕ) (n : Node) (name : Text)
    → Memᴰ n rows
    → id_by_name rows name ≡ ok n.id
    → (validate_tree_parent rows none none i (named name) ≡ ok tt) ↔ (is_candidate rows i n ≡ true)
unfolding text_eq
is_candidate-accepted_iff rows i n name m e = (there, back)
  where
    there :
        validate_tree_parent rows none none i (named name) ≡ ok tt → is_candidate rows i n ≡ true
    there h =
        let free =
          reject-passes (contains_id (ancestors rows n.id) i) would_cycle
            (sym (decided_by_cycle rows i n name m e) ∙ h) in
        elim (Bool-cases (contains_id (subtree rows i) n.id)) [
          | inr out ↦ ap not out
          | inl below ↦ let bad = (subtree-ancestors rows i n.id).0 below in cc
        ]

    back : is_candidate rows i n ≡ true → validate_tree_parent rows none none i (named name) ≡ ok tt
    back h =
        decided_by_cycle rows i n name m e
        ∙ elim (Bool-cases (contains_id (ancestors rows n.id) i)) [
          | inr free ↦ ap (λ b. reject b would_cycle) free
          | inl above ↦
              let below = (subtree-ancestors rows i n.id).1 above in
              let out = not-parts (contains_id (subtree rows i) n.id) h in cc
        ]
