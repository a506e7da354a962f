-- ===== src/Tree/Graft.antt =====
-- thruster/src/parser/tree.rs: `add_node_at_path` and `get_node_at_split_path`.
-- `none` is a panic; a reference into the tree is the node that it points to, with a function
-- that writes a node back to the same place.
pub mod Steps
pub mod Attach
use fanta.Prelude.{Option, none, some, List, [], ◌∷◌, if◌then◌else◌, ◌>>=◌}
use fanta.Text.{Str, str_eq}
use fanta.Middleware.{MiddlewareTuple, combine}
use fanta.Tree.Node.{
  Fields, Node, node, Slot, vacant, boxed, Children, nil, cons, as_ref, new_node, set_piece,
  piece_of, find_child, push,
}
use fanta.Tree.Insert.{param, wildcard, literal, nothing, lead, route_pieces}
use fanta.Tree.Commit.{below}

module _ {ℓ} {T : Type ℓ} where
  -- Writes to the first child with the path piece.
  unfoldable pub modify_child : Str → (Node T → Node T) → Children T → Children T
  modify_child piece g nil = nil
  modify_child piece g (cons c cs) =
      if str_eq (piece_of c) piece then cons (g c) cs else cons c (modify_child piece g cs)

  -- Writes to the child at index 0.
  abbrev pub modify_head : (Node T → Node T) → Children T → Children T
  modify_head g nil = nil
  modify_head g (cons c cs) = cons (g c) cs

  unfoldable pub get_node_at_split_path : Node T → List Str → Option (Node T)
  unfolding lead
  get_node_at_split_path n [] = some n
  get_node_at_split_path (node f w cs) (piece ∷ split) = elim (lead piece) [
    | param ↦ elim (as_ref w) [ none ↦ none | some v ↦ get_node_at_split_path v split ]
    | wildcard ↦ elim (as_ref w) [ none ↦ none | some v ↦ get_node_at_split_path v split ]
    | literal ↦ elim (find_child piece cs) [ none ↦ none | some c ↦ get_node_at_split_path c split ]
    | nothing ↦ none
  ]

  abbrev pub modify_slot : (Node T → Node T) → Slot T → Slot T
  modify_slot g vacant = vacant
  modify_slot g (boxed n) = boxed (g n)

  -- Writes a node to where `get_node_at_split_path` points.
  unfoldable pub write_at_split_path : Node T → Node T → List Str → Node T
  unfolding lead modify_child
  write_at_split_path new n [] = new
  write_at_split_path new (node f w cs) (piece ∷ split) = elim (lead piece) [
    | param ↦ node f (modify_slot (λ v. write_at_split_path new v split) w) cs
    | wildcard ↦ node f (modify_slot (λ v. write_at_split_path new v split) w) cs
    | literal ↦ node f w (modify_child piece (λ c. write_at_split_path new c split) cs)
    | nothing ↦ node f w cs
  ]

  -- The value of a node that is there, with that of the added node.
  abbrev pub join_values :
      Option (MiddlewareTuple T) → Option (MiddlewareTuple T) → Option (Option (MiddlewareTuple T))
  join_values none added = some added
  join_values (some v) none = some (some v)
  join_values (some v) (some added) = do some (some (← combine v added))

  -- Of two wildcard nodes the first is kept, with both values.
  abbrev pub join_wildcards : Slot T → Slot T → Option (Slot T)
  join_wildcards vacant added = some added
  join_wildcards (boxed n) vacant = some (boxed n)
  join_wildcards (boxed (node f w cs)) (boxed (node g v ds)) = do
    value ← join_values f.value g.value
    some (boxed (node (record f { value = value }) w cs))

  -- What `add_node_at_path` does at a node that is there.
  abbrev pub join_at : Node T → Fields T → Slot T → Option (Node T)
  join_at (node f w cs) added_fields added_wildcard = do
    value ← join_values f.value added_fields.value
    w' ← join_wildcards w added_wildcard
    some (node (record f { value = value }) w' cs)

  -- The loop that makes the nodes on the way and hangs the added node below the last of them.
  -- A node that is made is pushed to the end, and the walk goes on at index 0.
  unfoldable pub attach : Node T → Str → List Str → Node T → Node T
  unfolding find_child push modify_child
  attach (node f w cs) piece [] added = node f w (push cs (set_piece piece added))
  attach (node f w cs) piece (next ∷ split) added =
      let go = λ (c : Node T). attach c next split added in
      elim (find_child piece cs) [
        | some _ ↦ node f w (modify_child piece go cs)
        | none ↦ node f w (modify_head go (push cs (new_node piece)))
      ]

  abbrev pub attach_at : Node T → List Str → Node T → Option (Node T)
  attach_at n [] added = none
  attach_at n (piece ∷ split) added = some (attach n piece split added)

unfoldable mutual
  unfolding get_node_at_split_path write_at_split_path attach route_pieces

  pub add_node_at_path {ℓ} : {T : Type ℓ} → Node T → Str → Node T → Option (Node T)
  add_node_at_path n path (node f w cs) = elim (get_node_at_split_path n (route_pieces path)) [
    | some there ↦ do
      joined ← join_at there f w
      add_children_at_path (write_at_split_path joined n (route_pieces path)) path cs
    | none ↦ attach_at n (route_pieces path) (node f w cs)
  ]

  pub add_children_at_path {ℓ} : {T : Type ℓ} → Node T → Str → Children T → Option (Node T)
  add_children_at_path n path nil = some n
  add_children_at_path n path (cons c cs) = do
    n' ← add_node_at_path n (below path (piece_of c)) c
    add_children_at_path n' path cs
