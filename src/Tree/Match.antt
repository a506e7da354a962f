-- ===== src/Tree/Match.antt =====
-- thruster/src/parser/tree.rs: `get_value_at_path` and `get_value_at_split_path`.
pub mod Steps
use mathlib.Core.List.{tail}
use fanta.Prelude.{Option, none, some, List, [], ◌∷◌}
use fanta.Text.{Str, split}
use fanta.Map
use fanta.Middleware.{Handler}
use fanta.Tree.Node.{Fields, Node, node, Slot, as_ref, Children, find_child, NodeOutput, fields}
use fanta.Tree.Params.{no_params, add}

module _ {ℓ} {T : Type ℓ} where
  -- The output for a handler, with no parameters and an empty path.
  abbrev pub output : Handler T → NodeOutput T
  output h = record { value = h; params = no_params; path = [] }

  -- `if let Some(param) = &self.param_name { res.params.add(param, path_piece); }`
  abbrev pub add_param : Option Str → Str → NodeOutput T → NodeOutput T
  add_param none piece res = res
  add_param (some name) piece res = record res { params = add res.params name piece }

  unfoldable pub get_value_at_split_path : Node T → List Str → NodeOutput T
  get_value_at_split_path (node f w cs) [] = output f.committed_middleware
  get_value_at_split_path (node f w cs) (piece ∷ path) = elim (find_child piece cs) [
    | some child ↦ add_param f.param_name piece (get_value_at_split_path child path)
    | none ↦ elim (as_ref w) [
      | some n ↦ add_param f.param_name piece (get_value_at_split_path n path)
      | none ↦ output f.committed_middleware
    ]
  ]

  unfoldable pub get_value_at_path : Node T → Str → NodeOutput T
  get_value_at_path n path = elim (Map.get path (fields n).fastmatch_map) [
    | some value ↦ record { value = value; params = no_params; path = path }
    | none ↦ get_value_at_split_path n (tail (split b'/' path))
  ]
