-- ===== src/Tests/Grafts.antt =====
-- Sub-trees: the theorems at trees that are mounted.
use fanta.Prelude.{ℕ}
use fanta.Text.{codes, str_eq, split}
use fanta.Map.{get, insert}
use fanta.Middleware.{combine, middleware}
use fanta.Tree.Node.{
  Node, node, vacant, nil, cons, default, default_fields, new_node, find_child, remove_child, push,
}
use fanta.Tree.Match.{get_value_at_path, get_value_at_split_path}
use fanta.Tree.Insert.{
  add_value_at_path, add_non_leaf_value_at_path, add_value_at_split_path, route_pieces,
}
use fanta.Tree.Commit.{commit, commit_inner, enumerate}
use fanta.Tests.Sample.{answer_with}

-- Opens what the runs below compute with.
opened : ℕ
unfolding commit commit_inner get_value_at_path get_value_at_split_path add_value_at_path
    add_non_leaf_value_at_path route_pieces add_value_at_split_path split str_eq find_child
    remove_child push enumerate get insert middleware combine
opened = 0

-- The sub-tree that answers at "d".
abbrev sub_d : Node ℕ
sub_d = add_value_at_path default (codes "/d") (answer_with 2)

-- A tree with the one child "c", which has no children.
abbrev leaf_c : Node ℕ
leaf_c = node default_fields vacant (cons (new_node (codes "c")) nil)
