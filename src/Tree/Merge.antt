-- ===== src/Tree/Merge.antt =====
-- thruster/src/parser/tree.rs: `merge_node`. `none` is the panic of `combine`.
use fanta.Prelude.{Option, none, some, ◌>>=◌}
use fanta.Middleware.{MiddlewareTuple, combine}
use fanta.Tree.Node.{Node, node, Children, nil, cons, piece_of, find_child, push}
use fanta.Tree.Graft.{modify_child}

module _ {ℓ} {T : Type ℓ} where
  -- `self.value.take().map(…)`
  abbrev pub merge_values :
      Option (MiddlewareTuple T) → Option (MiddlewareTuple T) → Option (Option (MiddlewareTuple T))
  merge_values none incoming = some none
  merge_values (some v) none = some (some v)
  merge_values (some v) (some incoming) = do some (some (← combine v incoming))

  -- `self.children.append(&mut missing)`
  unfoldable pub append_children : Children T → Children T → Children T
  append_children nil missing = missing
  append_children (cons c cs) missing = cons c (append_children cs missing)

unfoldable mutual
  unfolding find_child modify_child append_children push

  pub merge_node {ℓ} : {T : Type ℓ} → Node T → Node T → Option (Node T)
  merge_node (node f w cs) (node g v ds) = do
    value ← merge_values f.value g.value
    merged ← merge_children cs nil ds
    some (node (record f { value = value }) w merged)

  pub merge_children {ℓ} : {T : Type ℓ} → Children T → Children T → Children T → Option (Children T)
  merge_children own missing nil = some (append_children own missing)
  merge_children own missing (cons c cs) = elim (find_child (piece_of c) own) [
    | some child ↦ do
      merged ← merge_node child c
      merge_children (modify_child (piece_of c) (λ _. merged) own) missing cs
    | none ↦ merge_children own (push missing c) cs
  ]
