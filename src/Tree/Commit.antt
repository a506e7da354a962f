-- ===== src/Tree/Commit.antt =====
-- thruster/src/parser/tree.rs: `commit`, `commit_inner` and `enumerate`. `none` is the panic of
-- `combine` on more than sixteen functions.
pub mod Capacity
pub mod Fastmatch
pub mod Again
use fanta.Prelude.{Option, none, some, List, [], ◌∷◌, ◌++◌, ◌>>=◌, is_some}
use fanta.Text.{Str}
use fanta.Map.{HashMap, insert}
use fanta.Middleware.{Handler, MiddlewareTuple, combine, middleware}
use fanta.Tree.Node.{Fields, Node, node, Slot, vacant, boxed, Children, nil, cons}

module _ {ℓ} {T : Type ℓ} where
  -- `updated_collected_middleware`
  abbrev pub collect :
      Option (MiddlewareTuple T) → Option (MiddlewareTuple T) → Option (Option (MiddlewareTuple T))
  collect collected none = some collected
  collect none (some v) = some (some v)
  collect (some c) (some v) = do some (some (← combine c v))

  -- The tuple of `committed` and `committed_tuple`: the middleware and its clonable form.
  abbrev pub commit_value :
      Handler T
      → Option (MiddlewareTuple T)
      → Option (MiddlewareTuple T)
      → Option (Handler T × Option (MiddlewareTuple T))
  commit_value old none updated = some (old, none)
  commit_value old (some v) none = some (middleware v, some v)
  commit_value old (some v) (some c) = do
    combined ← combine c v
    some (middleware combined, some combined)

  abbrev pub committed_fields : Fields T → Handler T × Option (MiddlewareTuple T) → Fields T
  committed_fields f (committed, committed_tuple) = record {
    value = none;
    path_piece = f.path_piece;
    param_name = f.param_name;
    committed_middleware = committed;
    has_committed_middleware = is_some f.value;
    committed_value = committed_tuple;
    is_leaf = f.is_leaf;
    non_leaf_value = none;
    fastmatch_map = [];
  }

unfoldable mutual
  pub commit_inner {ℓ} : {T : Type ℓ} → Node T → Option (MiddlewareTuple T) → Option (Node T)
  commit_inner (node f w cs) collected = do
    updated ← collect collected f.non_leaf_value
    children ← commit_children cs updated
    committed ← commit_value f.committed_middleware f.value updated
    wildcard ← commit_slot w updated
    some (node (committed_fields f committed) wildcard children)

  pub commit_slot {ℓ} : {T : Type ℓ} → Slot T → Option (MiddlewareTuple T) → Option (Slot T)
  commit_slot vacant collected = some vacant
  commit_slot (boxed n) collected = do some (boxed (← commit_inner n collected))

  pub commit_children {ℓ} :
      {T : Type ℓ} → Children T → Option (MiddlewareTuple T) → Option (Children T)
  commit_children nil collected = some nil
  commit_children (cons c cs) collected = do
    first ← commit_inner c collected
    others ← commit_children cs collected
    some (cons first others)

-- An entry: the path, the committed value and the value.
abbrev pub Enumeration {ℓ} : Type ℓ → Type ℓ
Enumeration T = List (Str × Option (MiddlewareTuple T) × Option (MiddlewareTuple T))

-- `format!("{}/{}", path, piece)`
abbrev pub below : Str → Str → Str
below path piece = path ++ b'/' ∷ piece

unfoldable mutual
  pub enumerate {ℓ} : {T : Type ℓ} → Node T → Str → Enumeration T
  enumerate (node f w cs) path =
      let here = below path f.path_piece in
      (here, f.committed_value, f.value) ∷ enumerate_children cs here

  pub enumerate_children {ℓ} : {T : Type ℓ} → Children T → Str → Enumeration T
  enumerate_children nil path = []
  enumerate_children (cons c cs) path = enumerate c path ++ enumerate_children cs path

module _ {ℓ} {T : Type ℓ} where
  -- The loop of `commit` that fills the map.
  unfoldable pub fill : Enumeration T → HashMap (Handler T) → HashMap (Handler T)
  fill [] m = m
  fill ((path, none, v) ∷ es) m = fill es m
  fill ((path, some c, v) ∷ es) m = fill es (insert path (middleware c) m)

  abbrev pub set_fastmatch : Node T → HashMap (Handler T) → Node T
  set_fastmatch (node f w cs) m = node (record f { fastmatch_map = m }) w cs

  unfoldable pub commit : Node T → Option (Node T)
  unfolding fill
  commit n = do
    committed ← commit_inner n none
    some (set_fastmatch committed (fill (enumerate committed []) []))
