-- ===== src/Trees/Samples.antt =====
-- A tree of four records.
use dygo.Base.{
  ℕ, Text, codes, List, [], ◌∷◌, true, Option, none, some, ◌≡◌, ◌↔◌, refl, ok, err, text_eq,
}
use dygo.Trees.Defs.{
  Node, Tree, broken_hierarchy, would_cycle, has_children, named, validate_tree_data, contains_id,
  ancestors, update_node, delete_node,
}
use dygo.Trees.Defs.{subtree, is_candidate, id_by_name, validate_tree_parent}
use dygo.Trees.Subtree.{subtree-ancestors, is_candidate-accepted_iff}
use dygo.Base.{Memᴰ}
use dygo.Trees.Forest.{IsForest, Above, ancestors_iff, validate_tree_data-ok_iff}
use dygo.Trees.Histories.{TreeCall, create, update, delete, run, run-keeps_hierarchy}

abbrev node : ℕ → Text → Option ℕ → Node
node i name parent = record { id = i; name = name; parent = parent }

abbrev four : List Node
four =
    node 3 (codes "c") (some 2)
    ∷ node 1 (codes "a") none
    ∷ node 2 (codes "b") (some 1)
    ∷ node 4 (codes "d") none
    ∷ []

abbrev tree : Tree
tree = record { rows = four; next_id = 5 }

four_stands : validate_tree_data four ≡ ok tt
unfolding validate_tree_data
four_stands = refl

ring_is_broken :
    validate_tree_data (node 1 (codes "a") (some 2) ∷ node 2 (codes "b") (some 1) ∷ [])
    ≡ err broken_hierarchy
unfolding validate_tree_data
ring_is_broken = refl

cycle_is_refused : update_node none none 1 (named (codes "c")) tree ≡ err would_cycle
unfolding update_node text_eq
cycle_is_refused = refl

parent_stays : delete_node none 2 tree ≡ err has_children
unfolding delete_node
parent_stays = refl

ancestors_iff_example : (contains_id (ancestors four 3) 1 ≡ true) ↔ Above four 3 1
ancestors_iff_example = ancestors_iff four 3 1

validate_tree_data-ok_iff_example : (validate_tree_data four ≡ ok tt) ↔ IsForest four
validate_tree_data-ok_iff_example = validate_tree_data-ok_iff four

abbrev calls : List TreeCall
calls =
    update none none 1 (named (codes "c"))
    ∷ update none none 3 (named (codes "d"))
    ∷ delete none 2
    ∷ create none none (codes "e") (named (codes "c"))
    ∷ []

run-keeps_hierarchy_example : validate_tree_data (run calls tree).rows ≡ ok tt
run-keeps_hierarchy_example = run-keeps_hierarchy calls tree four_stands

subtree-ancestors_example :
    (contains_id (subtree four 1) 3 ≡ true) ↔ (contains_id (ancestors four 3) 1 ≡ true)
subtree-ancestors_example = subtree-ancestors four 1 3

d_in_four : Memᴰ (node 4 (codes "d") none) four
d_in_four = Memᴰ.tail (Memᴰ.tail (Memᴰ.tail (Memᴰ.head refl)))

d_named : id_by_name four (codes "d") ≡ ok 4
unfolding text_eq
d_named = refl

is_candidate-accepted_iff_example :
    (validate_tree_parent four none none 1 (named (codes "d")) ≡ ok tt)
    ↔ (is_candidate four 1 (node 4 (codes "d") none) ≡ true)
is_candidate-accepted_iff_example =
    is_candidate-accepted_iff four 1 (node 4 (codes "d") none) (codes "d") d_in_four d_named
