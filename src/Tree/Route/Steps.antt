-- ===== src/Tree/Route/Steps.antt =====
-- One step of `route`, by where it goes.
use fanta.Prelude.{◌≡◌, none, some, List, ◌∷◌, ◌++◌, arith}
use fanta.Text.{Str}
use fanta.Middleware.{MiddlewareFnPointer}
use fanta.Tree.Node.{Fields, Node, node, Slot, as_ref, Children, find_child}
use fanta.Tree.Route.{attached, end_at, bind_param, route}

module _ {ℓ} {T : Type ℓ} (g : List (MiddlewareFnPointer T)) (f : Fields T) (w : Slot T)
    (cs : Children T) (piece : Str) (path : List Str) where
  pub route-child :
      (c : Node T)
      → find_child piece cs ≡ some c
      → route g (node f w cs) (piece ∷ path)
        ≡ bind_param f.param_name piece (route (g ++ attached f.non_leaf_value) c path)
  unfolding route
  route-child c e = ground arith

  pub route-wildcard :
      (v : Node T)
      → find_child piece cs ≡ none
      → as_ref w ≡ some v
      → route g (node f w cs) (piece ∷ path)
        ≡ bind_param f.param_name piece (route (g ++ attached f.non_leaf_value) v path)
  unfolding route
  route-wildcard v e d = ground arith

  pub route-end :
      find_child piece cs ≡ none
      → as_ref w ≡ none
      → route g (node f w cs) (piece ∷ path) ≡ end_at (g ++ attached f.non_leaf_value) f
  unfolding route
  route-end e d = ground arith

-- Only the child with the next piece of the request counts.
pub route-children {ℓ} :
    {T : Type ℓ} (g : List (MiddlewareFnPointer T)) (f : Fields T) (w : Slot T) (cs ds : Children T)
    (piece : Str) (path : List Str)
    → find_child piece ds ≡ find_child piece cs
    → route g (node f w ds) (piece ∷ path) ≡ route g (node f w cs) (piece ∷ path)
unfolding route
route-children g f w cs ds piece path e = ground arith
