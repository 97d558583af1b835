-- ===== src/Trees/Histories.antt =====
-- Sequences of record operations on the table of a tree Entity.
use dygo.Base.{ℕ, Text, List, [], ◌∷◌, Option, ◌≡◌, Result, ok, err, OnOk}
use dygo.Trees.Defs.{
  Tree, Scope, Error, ParentValue, create_node, update_node, delete_node, validate_tree_data,
}
use dygo.Trees.Forest.{IsForest, validate_tree_data-ok_iff}
use dygo.Trees.Keep.{create_node-IsForest, update_node-IsForest, delete_node-IsForest}

pub data TreeCall : Type 0 where
  create : Option Scope → Option Scope → Text → ParentValue → TreeCall
  update : Option Scope → Option Scope → ℕ → ParentValue → TreeCall
  delete : Option Scope → ℕ → TreeCall

abbrev pub attempt : TreeCall → Tree → Result Error Tree
attempt (create scope read name value) t = create_node scope read name value t
attempt (update scope read i value) t = update_node scope read i value t
attempt (delete scope i) t = delete_node scope i t

-- An error rolls the transaction back.
abbrev pub committed : Tree → Result Error Tree → Tree
committed t (ok u) = u
committed t (err e) = t

abbrev pub run : List TreeCall → Tree → Tree
run [] t = t
run (call ∷ calls) t = run calls (committed t (attempt call t))

attempt-IsForest :
    (call : TreeCall) (t : Tree)
    → IsForest t.rows
    → OnOk (λ (u : Tree). IsForest u.rows) (attempt call t)
attempt-IsForest (create scope read name value) t f = create_node-IsForest scope read name value t f
attempt-IsForest (update scope read i value) t f = update_node-IsForest scope read i value t f
attempt-IsForest (delete scope i) t f = delete_node-IsForest scope i t f

committed-IsForest :
    (t : Tree) (r : Result Error Tree)
    → IsForest t.rows
    → OnOk (λ (u : Tree). IsForest u.rows) r
    → IsForest (committed t r).rows
committed-IsForest t (ok u) f h = h
committed-IsForest t (err e) f h = f

run-IsForest : (calls : List TreeCall) (t : Tree) → IsForest t.rows → IsForest (run calls t).rows
run-IsForest [] t f = f
run-IsForest (call ∷ calls) t f =
    run-IsForest calls (committed t (attempt call t))
      (committed-IsForest t (attempt call t) f (attempt-IsForest call t f))

-- A table that validateTreeData accepts is accepted after any creations, updates and deletions of records,
-- whoever makes them and whether or not they succeed.
pub run-keeps_hierarchy :
    (calls : List TreeCall) (t : Tree)
    → validate_tree_data t.rows ≡ ok tt
    → validate_tree_data (run calls t).rows ≡ ok tt
run-keeps_hierarchy calls t h =
    (validate_tree_data-ok_iff (run calls t).rows).1
      (run-IsForest calls t ((validate_tree_data-ok_iff t.rows).0 h))
