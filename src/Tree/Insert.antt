-- ===== src/Tree/Insert.antt =====
-- thruster/src/parser/tree.rs: `add_value_at_path`, `add_non_leaf_value_at_path` and
-- `add_value_at_split_path`.
pub mod Steps
pub mod Reaches
pub mod Frame
pub mod Twice
pub mod Arities
use fanta.Prelude.{ℕ, Bool, true, false, Option, none, some, List, [], ◌∷◌, ◌==◌, if◌then◌else◌}
use fanta.Text.{Str, split}
use fanta.Middleware.{MiddlewareTuple}
use fanta.Tree.Node.{
  Fields, Node, node, Slot, vacant, boxed, Children, default, new_node, set_piece, find_child,
  remove_child, push, wildcard_route_id,
}

-- `path_piece.chars().next()`, against the two constants.
pub data Lead : Type 0 where
  param wildcard literal nothing : Lead

unfoldable pub lead : Str → Lead
lead [] = nothing
lead (c ∷ s) = if c == b':' then param else if c == b'*' then wildcard else literal

-- `path_piece[1..]`
abbrev pub name_of : Str → Str
name_of [] = []
name_of (c ∷ s) = s

module _ {ℓ} {T : Type ℓ} where
  -- `self.is_leaf = is_leaf`, and the value to where it belongs.
  abbrev pub store : Fields T → MiddlewareTuple T → Bool → Fields T
  store f v true = record f { is_leaf = true; value = some v }
  store f v false = record f { is_leaf = false; non_leaf_value = some v }

  abbrev pub wildcard_or_new : Slot T → Node T
  wildcard_or_new vacant = new_node wildcard_route_id
  wildcard_or_new (boxed n) = n

  abbrev pub or_default : Option (Node T) → Node T
  or_default none = default
  or_default (some c) = c

  abbrev pub child_or_new : Str → Children T → Node T
  child_or_new piece cs = or_default (find_child piece cs)

  -- The child that a literal piece leads to, taken out or made.
  abbrev pub literal_child : Str → Children T → Node T
  literal_child piece cs = set_piece piece (child_or_new piece cs)

  unfoldable pub add_value_at_split_path : Node T → List Str → MiddlewareTuple T → Bool → Node T
  unfolding lead
  add_value_at_split_path (node f w cs) [] v is_leaf = node (store f v is_leaf) w cs
  add_value_at_split_path (node f w cs) (piece ∷ path) v is_leaf = elim (lead piece) [
    | param ↦
        node (record f { param_name = some (name_of piece) })
          (boxed (add_value_at_split_path (wildcard_or_new w) path v is_leaf)) cs
    | wildcard ↦ node f (boxed (add_value_at_split_path (wildcard_or_new w) path v is_leaf)) cs
    | literal ↦
        let child = add_value_at_split_path (literal_child piece cs) path v is_leaf in
        node f w (push (remove_child piece cs) child)
    | nothing ↦ node (store f v is_leaf) w cs
  ]

-- `while chars.next() == Some('/') { let _ = split.next(); }`
unfoldable pub strip : Str → List Str → List Str
strip [] pieces = pieces
strip (c ∷ s) [] = []
strip (c ∷ s) (piece ∷ pieces) =
    let rest = strip s pieces in if c == b'/' then rest else piece ∷ pieces

-- The pieces of a path, without the empty ones that its leading slashes make.
unfoldable pub route_pieces : Str → List Str
unfolding strip
route_pieces path = strip path (split b'/' path)

module _ {ℓ} {T : Type ℓ} where
  unfoldable pub add_value_at_path : Node T → Str → MiddlewareTuple T → Node T
  add_value_at_path n path v = add_value_at_split_path n (route_pieces path) v true

  unfoldable pub add_non_leaf_value_at_path : Node T → Str → MiddlewareTuple T → Node T
  add_non_leaf_value_at_path n path v = add_value_at_split_path n (route_pieces path) v false
