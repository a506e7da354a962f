-- ===== src/Tree/Print/Rows.antt =====
-- What `print` of thruster/src/parser/tree.rs comes to.
use mathlib.Core.List.{tail}
use fanta.Prelude.{ℕ, suc, ◌≡◌, refl, ap, ◌∙◌, sym, List, [], ◌∷◌, ◌++◌, append_assoc, append-nil}
use fanta.Text.{Str, codes, join}
use fanta.Tree.Node.{Node, node, Slot, vacant, boxed, Children, nil, cons}
use fanta.Tree.Print.{line, print_with_indentation, print_children, print_slot, print}

-- The lines of a tree: each node before those below it, the children in order and then the wildcard.
abbrev mutual
  rows {ℓ} : {T : Type ℓ} → Node T → ℕ → List Str
  rows (node f w cs) level =
      line f level ∷ (rows_of_children cs (suc level) ++ rows_of_slot w (suc level))

  rows_of_children {ℓ} : {T : Type ℓ} → Children T → ℕ → List Str
  rows_of_children nil level = []
  rows_of_children (cons c cs) level = rows c level ++ rows_of_children cs level

  rows_of_slot {ℓ} : {T : Type ℓ} → Slot T → ℕ → List Str
  rows_of_slot vacant level = []
  rows_of_slot (boxed n) level = rows n level

-- Lines, each behind a line break.
abbrev broken : List Str → Str
broken [] = []
broken (r ∷ rs) = (b'\n' ∷ r) ++ broken rs

broken-append : (a b : List Str) → broken (a ++ b) ≡ broken a ++ broken b
broken-append [] b = refl
broken-append (r ∷ a) b =
    ap (λ s. (b'\n' ∷ r) ++ s) (broken-append a b)
    ∙ sym (append_assoc (b'\n' ∷ r) (broken a) (broken b))

join-broken : (r : Str) (rs : List Str) → join (codes "\n") (r ∷ rs) ≡ r ++ broken rs
unfolding join
join-broken r [] = sym (append-nil r)
join-broken r (s ∷ rs) = ap (λ t. r ++ b'\n' ∷ t) (join-broken s rs)

mutual
  unfolding print_with_indentation

  broken-rows {ℓ} :
      {T : Type ℓ} (n : Node T) (level : ℕ)
      → broken (rows n level) ≡ b'\n' ∷ print_with_indentation n level
  broken-rows (node f w cs) level =
      ap (λ t. b'\n' ∷ line f level ++ t)
        (broken-append (rows_of_children cs (suc level)) (rows_of_slot w (suc level))
          ∙ ap (λ t. t ++ broken (rows_of_slot w (suc level))) (broken-children cs (suc level))
          ∙ ap (λ t. print_children cs (suc level) ++ t) (broken-slot w (suc level)))

  broken-children {ℓ} :
      {T : Type ℓ} (cs : Children T) (level : ℕ)
      → broken (rows_of_children cs level) ≡ print_children cs level
  broken-children nil level = refl
  broken-children (cons c cs) level =
      broken-append (rows c level) (rows_of_children cs level)
      ∙ ap (λ t. t ++ broken (rows_of_children cs level)) (broken-rows c level)
      ∙ ap (λ t. (b'\n' ∷ print_with_indentation c level) ++ t) (broken-children cs level)

  broken-slot {ℓ} :
      {T : Type ℓ} (w : Slot T) (level : ℕ) → broken (rows_of_slot w level) ≡ print_slot w level
  broken-slot vacant level = refl
  broken-slot (boxed n) level = broken-rows n level

-- The text of a tree is its lines, joined by line breaks.
print-rows {ℓ} : {T : Type ℓ} (n : Node T) → print n ≡ join (codes "\n") (rows n 0)
unfolding print
print-rows (node f w cs) = sym (
    join-broken (line f 0) (rows_of_children cs 1 ++ rows_of_slot w 1)
    ∙ ap tail (broken-rows (node f w cs) 0))
