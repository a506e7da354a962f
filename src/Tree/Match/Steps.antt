-- ===== src/Tree/Match/Steps.antt =====
-- One step of `get_value_at_split_path`, by where it goes.
use fanta.Prelude.{◌≡◌, none, some, List, ◌∷◌, arith}
use fanta.Text.{Str}
use fanta.Tree.Node.{Fields, Node, node, Slot, as_ref, Children, find_child}
use fanta.Tree.Match.{output, add_param, get_value_at_split_path}

module _ {ℓ} {T : Type ℓ} (f : Fields T) (w : Slot T) (cs : Children T) (piece : Str)
    (path : List Str) where
  pub get-child :
      (c : Node T)
      → find_child piece cs ≡ some c
      → get_value_at_split_path (node f w cs) (piece ∷ path)
        ≡ add_param f.param_name piece (get_value_at_split_path c path)
  unfolding get_value_at_split_path
  get-child c e = ground arith

  pub get-wildcard :
      (v : Node T)
      → find_child piece cs ≡ none
      → as_ref w ≡ some v
      → get_value_at_split_path (node f w cs) (piece ∷ path)
        ≡ add_param f.param_name piece (get_value_at_split_path v path)
  unfolding get_value_at_split_path
  get-wildcard v e d = ground arith

  pub get-end :
      find_child piece cs ≡ none
      → as_ref w ≡ none
      → get_value_at_split_path (node f w cs) (piece ∷ path) ≡ output f.committed_middleware
  unfolding get_value_at_split_path
  get-end e d = ground arith
