-- ===== src/Tree/Print.antt =====
-- thruster/src/parser/tree.rs: `print` and `print_with_indentation`.
pub mod Rows
use fanta.Prelude.{ℕ, zero, suc, Bool, true, false, [], ◌∷◌, ◌++◌, if◌then◌else◌, is_some}
use fanta.Text.{Str, codes}
use fanta.Tree.Node.{Fields, Node, node, Slot, vacant, boxed, Children, nil, cons}

-- `"    ".repeat(n)`
unfoldable pub indentation : ℕ → Str
indentation zero = []
indentation (suc n) = codes "    " ++ indentation n

abbrev pub show_bool : Bool → Str
show_bool true = codes "true"
show_bool false = codes "false"

-- The line of one node, without its end.
unfoldable pub line {ℓ} : {T : Type ℓ} → Fields T → ℕ → Str
unfolding indentation
line f level =
    indentation level
    ++ (f.path_piece
        ++ (codes ": "
            ++ (show_bool (is_some f.value)
                ++ (codes " ("
                    ++ ((if f.has_committed_middleware
                          then codes "committed"
                          else codes "uncommitted")
                        ++ codes ")")))))

-- `format!("{}\n{}", val, …)`, what is appended to `val`
abbrev next_line : Str → Str
next_line s = b'\n' ∷ s

unfoldable mutual
  pub print_with_indentation {ℓ} : {T : Type ℓ} → Node T → ℕ → Str
  print_with_indentation (node f w cs) level =
      line f level ++ (print_children cs (suc level) ++ print_slot w (suc level))

  pub print_children {ℓ} : {T : Type ℓ} → Children T → ℕ → Str
  print_children nil level = []
  print_children (cons c cs) level =
      next_line (print_with_indentation c level) ++ print_children cs level

  pub print_slot {ℓ} : {T : Type ℓ} → Slot T → ℕ → Str
  print_slot vacant level = []
  print_slot (boxed n) level = next_line (print_with_indentation n level)

unfoldable pub print {ℓ} : {T : Type ℓ} → Node T → Str
print n = print_with_indentation n 0
