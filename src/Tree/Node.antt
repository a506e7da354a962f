-- ===== src/Tree/Node.antt =====
-- thruster/src/parser/tree.rs: `Node`, its default and its children, and `NodeOutput`.
use fanta.Prelude.{Bool, false, Option, none, some, [], if◌then◌else◌, err}
use fanta.Text.{Str, codes, str_eq}
use fanta.Map.{HashMap}
use fanta.Middleware.{Handler, MiddlewareTuple}
use fanta.Tree.Params.{Params}

abbrev pub root_route_id : Str
root_route_id = codes "__root__"

-- A piece that is the character `WILDCARD_ROUTE_ID`.
abbrev pub wildcard_route_id : Str
wildcard_route_id = codes "*"

pub record NodeOutput {ℓ} (T : Type ℓ) : Type ℓ where
  pub value : Handler T
  pub params : Params
  pub path : Str

-- The fields of a `Node` but for the nodes below it.
pub record Fields {ℓ} (T : Type ℓ) : Type ℓ where
  pub value : Option (MiddlewareTuple T)
  pub path_piece : Str
  pub param_name : Option Str
  pub committed_middleware : Handler T
  pub has_committed_middleware : Bool
  pub committed_value : Option (MiddlewareTuple T)
  pub is_leaf : Bool
  pub non_leaf_value : Option (MiddlewareTuple T)
  pub fastmatch_map : HashMap (Handler T)

-- A node is its fields, its `wildcard_node` and its `children`.
mutual
  pub data Node {ℓ} (T : Type ℓ) : Type ℓ where
    node : Fields T → Slot T → Children T → Node T

  -- `Option<Box<Node<T>>>`
  pub data Slot {ℓ} (T : Type ℓ) : Type ℓ where
    vacant : Slot T
    boxed : Node T → Slot T

  -- `Vec<Node<T>>`
  pub data Children {ℓ} (T : Type ℓ) : Type ℓ where
    nil : Children T
    cons : Node T → Children T → Children T

module _ {ℓ} {T : Type ℓ} where
  -- The committed middleware of a node that has none.
  abbrev pub not_found : Handler T
  not_found c = err (record { context = c; message = codes "Not found"; status = 1; cause = none })

  abbrev pub default_fields : Fields T
  default_fields = record {
    value = none;
    path_piece = root_route_id;
    param_name = none;
    committed_middleware = not_found;
    has_committed_middleware = false;
    committed_value = none;
    is_leaf = false;
    non_leaf_value = none;
    fastmatch_map = [];
  }

  -- `Node::default()`
  abbrev pub default : Node T
  default = node default_fields vacant nil

  -- `Node { path_piece, ..Default::default() }`
  abbrev pub new_node : Str → Node T
  new_node piece = node (record default_fields { path_piece = piece }) vacant nil

  abbrev pub fields : Node T → Fields T
  fields (node f w cs) = f

  abbrev pub wildcard_node : Node T → Slot T
  wildcard_node (node f w cs) = w

  abbrev pub children : Node T → Children T
  children (node f w cs) = cs

  abbrev pub piece_of : Node T → Str
  piece_of n = (fields n).path_piece

  abbrev pub set_piece : Str → Node T → Node T
  set_piece piece (node f w cs) = node (record f { path_piece = piece }) w cs

  abbrev pub as_ref : Slot T → Option (Node T)
  as_ref vacant = none
  as_ref (boxed n) = some n

  -- The first child with the path piece.
  unfoldable pub find_child : Str → Children T → Option (Node T)
  find_child piece nil = none
  find_child piece (cons c cs) = if str_eq (piece_of c) piece then some c else find_child piece cs

  -- `children.remove(i)` at the first child with the path piece.
  unfoldable pub remove_child : Str → Children T → Children T
  remove_child piece nil = nil
  remove_child piece (cons c cs) =
      if str_eq (piece_of c) piece then cs else cons c (remove_child piece cs)

  -- `children.push(n)`
  unfoldable pub push : Children T → Node T → Children T
  push nil n = cons n nil
  push (cons c cs) n = cons c (push cs n)
