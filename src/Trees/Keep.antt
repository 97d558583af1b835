-- ===== src/Trees/Keep.antt =====
-- The record operations on a forest.
use dygo.Base.{
  ℕ, Text, List, [], ◌∷◌, ◌++◌, true, false, not, ◌&&◌, Option, none, some, find, find-some, select,
  Memᴰ-select, mem-select_of, any, mem→any, Memᴰ, All-mem, All-of_mem, All-append, ◌≡◌, refl, sym,
  ap, subst, ◌∙◌, Bool-cases, not-parts, inl, inr, ◌==◌, ok, err, reject, OnOk, OnOk-bind,
  OnOk-reject, bind-ok, reject-passes, text_eq,
}
use dygo.Trees.Defs.{
  Node, Tree, Scope, access_denied, is_written, name_taken, in_scope, target_not_found, would_cycle,
  not_found, has_children, ParentValue, contains_id, is_id, ancestors, id_by_name, set_parent,
  stored_parent, inserted_parent, validate_tree_parent, has_child, create_node, update_node,
  delete_node, absent, null, malformed, named, get_record, is_some,
}
use dygo.Trees.Forest.{Rooted, at_root, below, IsForest, self}
use dygo.Trees.Moves.{changed_row, spread-IsForest, above_kept}

row_of :
    (found : Option Node) (p : ℕ)
    → (elim found [ none ↦ err target_not_found | some n ↦ ok n.id ]) ≡ ok p
    → (n : Node) × (found ≡ some n) × (n.id ≡ p)
row_of none p h = cc
row_of (some n) p h = (n, refl, cc)

named_row :
    (rows : List Node) (name : Text) (p : ℕ)
    → id_by_name rows name ≡ ok p
    → (n : Node) × Memᴰ n rows × (n.id ≡ p)
unfolding text_eq
named_row rows name p h =
    let (n, e, q) = row_of (find (λ (n : Node). text_eq n.name name) rows) p h in
    (n, (find-some (λ (n : Node). text_eq n.name name) rows e).0, q)

mem_more : (rows : List Node) (new n : Node) → Memᴰ n rows → Memᴰ n (rows ++ new ∷ [])
mem_more [] new n m = elim m [ ]
mem_more (x ∷ rows) new n (Memᴰ.head e) = Memᴰ.head e
mem_more (x ∷ rows) new n (Memᴰ.tail m) = Memᴰ.tail (mem_more rows new n m)

mem_last : (rows : List Node) (new : Node) → Memᴰ new (rows ++ new ∷ [])
mem_last [] new = Memᴰ.head refl
mem_last (x ∷ rows) new = Memᴰ.tail (mem_last rows new)

-- A parent that validateTreeParent accepts does not stand below the record.
accepted_parent :
    (rows : List Node) (scope read : Option Scope) (i : ℕ) (name : Text)
    → validate_tree_parent rows scope read i (named name) ≡ ok tt
    → (p : ℕ) × (id_by_name rows name ≡ ok p) × (contains_id (ancestors rows p) i ≡ false)
unfolding validate_tree_parent
accepted_parent rows scope read i name h =
    let (p, e, a) = bind-ok (id_by_name rows name) _ tt h in
    let (u, f, b) = bind-ok (reject (is_some scope && not (is_some read)) access_denied) _ tt a in
    let (v, g, c) =
      bind-ok (reject (not (is_some (get_record rows read p))) access_denied) _ tt b in
    (p, e, reject-passes (contains_id (ancestors rows p) i) would_cycle c)

-- The new parent of the record, after the UPDATE.
module _ (rows : List Node) (f : IsForest rows) (i : ℕ) where
  Rooted-row : (n : Node) → Memᴰ n rows → Rooted rows n.id
  Rooted-row n m = All-mem (λ (x : Node). Rooted rows x.id) rows f m

  cleared-IsForest : IsForest (set_parent i (some none) rows)
  cleared-IsForest =
      spread-IsForest i none rows
        (λ n m e. at_root (record n { parent = none }) (changed_row i none rows n m e) refl refl) f

  moved-IsForest :
      (n : Node)
      → Memᴰ n rows
      → contains_id (ancestors rows n.id) i ≡ false
      → IsForest (set_parent i (some (some n.id)) rows)
  moved-IsForest p k free =
      spread-IsForest i (some p.id) rows
        (λ n m e.
          below (record n { parent = some p.id }) p.id (changed_row i (some p.id) rows n m e) refl
            refl
            (above_kept i (some p.id) rows p.id free p.id (self p k refl refl) (Rooted-row p k)))
        f

stored-IsForest :
    (rows : List Node) (scope read : Option Scope) (i : ℕ) (value : ParentValue)
    (parent : Option (Option ℕ))
    → IsForest rows
    → validate_tree_parent rows scope read i value ≡ ok tt
    → stored_parent rows value ≡ ok parent
    → IsForest (set_parent i parent rows)
unfolding validate_tree_parent
stored-IsForest rows scope read i absent parent f h e =
    let q : none ≡ parent = cc in subst (λ o. IsForest (set_parent i o rows)) q f
stored-IsForest rows scope read i null parent f h e =
    let q : some none ≡ parent = cc in
    subst (λ o. IsForest (set_parent i o rows)) q (cleared-IsForest rows f i)
stored-IsForest rows scope read i malformed parent f h e = cc
stored-IsForest rows scope read i (named name) parent f h e =
    let (p, named_p, free) = accepted_parent rows scope read i name h in
    let (n, m, n_id) = named_row rows name p named_p in
    let stored : ok (some (some p)) ≡ ok parent = rw named_p at e in
    let q : some (some p) ≡ parent = cc in
    let kept =
      moved-IsForest rows f i n m
        (subst (λ k. contains_id (ancestors rows k) i ≡ false) (sym n_id) free) in
    subst (λ o. IsForest (set_parent i o rows)) (ap (λ k. some (some k)) n_id ∙ q) kept

pub update_node-IsForest :
    (scope read : Option Scope) (i : ℕ) (value : ParentValue) (t : Tree)
    → IsForest t.rows
    → OnOk (λ (u : Tree). IsForest u.rows) (update_node scope read i value t)
unfolding update_node
update_node-IsForest scope read i value t f =
    OnOk-reject (λ (u : Tree). IsForest u.rows) (not (is_some (get_record t.rows scope i)))
      not_found _
      λ _.
        OnOk-bind (λ (u : Tree). IsForest u.rows) (validate_tree_parent t.rows scope read i value) _
          λ _ h.
            OnOk-bind (λ (u : Tree). IsForest u.rows) (stored_parent t.rows value) _
              λ parent e.
                OnOk-reject (λ (u : Tree). IsForest u.rows) (not (is_written t.rows scope i parent))
                  not_found (ok (record t { rows = set_parent i parent t.rows }))
                  λ _. stored-IsForest t.rows scope read i value parent f h e

Rooted-more : (rows : List Node) (new : Node) (k : ℕ) → Rooted rows k → Rooted (rows ++ new ∷ []) k
Rooted-more rows new k (at_root n m q e) = at_root n (mem_more rows new n m) q e
Rooted-more rows new k (below n p m q e r) =
    below n p (mem_more rows new n m) q e (Rooted-more rows new p r)

-- A row without children is on no other row's walk.
Rooted-fewer :
    (rows : List Node) (i k : ℕ)
    → has_child rows i ≡ false
    → (k == i) ≡ false
    → Rooted rows k
    → Rooted (select (λ (n : Node). not (n.id == i)) rows) k
Rooted-fewer rows i k h a (at_root n m q e) =
    at_root n (mem-select_of (λ (n : Node). not (n.id == i)) rows n m (rw (e, a) refl)) q e
Rooted-fewer rows i k h a (below n p m q e r) =
    below n p (mem-select_of (λ (n : Node). not (n.id == i)) rows n m (rw (e, a) refl)) q e (
      Rooted-fewer rows i p h
        (elim (Bool-cases (p == i)) [
          | inr b ↦ b
          | inl b ↦
              let child : is_id n.parent i ≡ true = rw (q, b) refl in
              let c = mem→any (λ (n : Node). is_id n.parent i) rows n m child in cc
        ])
        r)

pub delete_node-IsForest :
    (scope : Option Scope) (i : ℕ) (t : Tree)
    → IsForest t.rows
    → OnOk (λ (u : Tree). IsForest u.rows) (delete_node scope i t)
unfolding delete_node
delete_node-IsForest scope i t f =
    OnOk-reject (λ (u : Tree). IsForest u.rows) (not (is_some (get_record t.rows scope i)))
      not_found _
      λ _.
        OnOk-reject (λ (u : Tree). IsForest u.rows) (has_child t.rows i) has_children _
          λ h.
            All-of_mem (λ (n : Node). Rooted _ n.id) _
              λ n m.
                let (m', e) = Memᴰ-select (λ (n : Node). not (n.id == i)) t.rows n m in
                Rooted-fewer t.rows i n.id h (not-parts (n.id == i) e) (Rooted-row t.rows f i n m')

-- The row of a new record.
inserted-Rooted :
    (rows : List Node) (value : ParentValue) (parent : Option (Option ℕ)) (new : Node)
    → IsForest rows
    → stored_parent rows value ≡ ok parent
    → new.parent ≡ inserted_parent parent
    → Rooted (rows ++ new ∷ []) new.id
inserted-Rooted rows absent parent new f e q =
    let s : none ≡ parent = cc in
    at_root new (mem_last rows new) (q ∙ ap inserted_parent (sym s)) refl
inserted-Rooted rows null parent new f e q =
    let s : some none ≡ parent = cc in
    at_root new (mem_last rows new) (q ∙ ap inserted_parent (sym s)) refl
inserted-Rooted rows malformed parent new f e q = cc
inserted-Rooted rows (named name) parent new f e q =
    let (p, named_p, stored) = bind-ok (id_by_name rows name) _ parent e in
    let (n, m, n_id) = named_row rows name p named_p in
    let s : some (some p) ≡ parent = cc in
    below new p (mem_last rows new) (q ∙ ap inserted_parent (sym s)) refl
      (subst (Rooted (rows ++ new ∷ [])) n_id (Rooted-more rows new n.id (Rooted-row rows f 0 n m)))

pub create_node-IsForest :
    (scope read : Option Scope) (name : Text) (value : ParentValue) (t : Tree)
    → IsForest t.rows
    → OnOk (λ (u : Tree). IsForest u.rows) (create_node scope read name value t)
unfolding create_node text_eq
create_node-IsForest scope read name value t f =
    OnOk-bind (λ (u : Tree). IsForest u.rows) (validate_tree_parent t.rows scope read 0 value) _
      λ _ h.
        OnOk-bind (λ (u : Tree). IsForest u.rows) (stored_parent t.rows value) _
          λ parent e.
            let new : Node = record {
              id = t.next_id;
              name = name;
              parent = inserted_parent parent;
            } in
            OnOk-reject (λ (u : Tree). IsForest u.rows) (not (in_scope scope new)) access_denied _
              λ _.
                OnOk-reject (λ (u : Tree). IsForest u.rows)
                  (any (λ (n : Node). text_eq n.name name) t.rows) name_taken _
                  λ _.
                    All-append (λ (n : Node). Rooted (t.rows ++ new ∷ []) n.id) t.rows (new ∷ [])
                      (All-of_mem (λ (n : Node). Rooted (t.rows ++ new ∷ []) n.id) t.rows
                        (λ n m. Rooted-more t.rows new n.id (Rooted-row t.rows f 0 n m)))
                      (inserted-Rooted t.rows value parent new f e refl, tt)
