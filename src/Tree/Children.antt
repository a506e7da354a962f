-- ===== src/Tree/Children.antt =====
-- The list of a node's children: what `remove` and `push` do to the search by path piece, and the
-- invariant that no two children of a node share their piece.
use mathlib.Core.Path.{subst}
use fanta.Prelude.{◌≡◌, refl, ◌∙◌, ◌≢◌, inl, inr, none, some, arith, if◌then◌else◌, Bool-cases}
use fanta.Text.{Str, str_eq}
use fanta.Text.Split.{str_eq_iff, ne_of_str_eq}
use fanta.Tree.Node.{
  Node, node, Slot, vacant, boxed, Children, nil, cons, piece_of, find_child, remove_child, push,
}

abbrev mutual
  pub IsWellFormed {ℓ} : {T : Type ℓ} → Node T → Type ℓ
  IsWellFormed (node f w cs) = SlotIsWellFormed w × AreWellFormed cs

  pub SlotIsWellFormed {ℓ} : {T : Type ℓ} → Slot T → Type ℓ
  SlotIsWellFormed vacant = Unit
  SlotIsWellFormed (boxed n) = IsWellFormed n

  -- Every child is well-formed, and none has the piece of a later one.
  pub AreWellFormed {ℓ} : {T : Type ℓ} → Children T → Type ℓ
  AreWellFormed nil = Unit
  AreWellFormed (cons c cs) =
      (find_child (piece_of c) cs ≡ none) × IsWellFormed c × AreWellFormed cs

module _ {ℓ} {T : Type ℓ} where
  pub find_child-push :
      (q : Str) (cs : Children T) (c : Node T)
      → find_child q (push cs c) ≡ (elim (find_child q cs) [
        | some d ↦ some d
        | none ↦ if str_eq (piece_of c) q then some c else none
      ])
  unfolding find_child push
  find_child-push q nil c = refl
  find_child-push q (cons d cs) c = ground (arith, find_child-push q cs c)

  pub find_child-remove_ne :
      (q p : Str) (cs : Children T) → q ≢ p → find_child q (remove_child p cs) ≡ find_child q cs
  unfolding find_child remove_child
  find_child-remove_ne q p nil n = refl
  find_child-remove_ne q p (cons d cs) n =
      ground
        (arith, find_child-remove_ne q p cs n, str_eq_iff (piece_of d) p, str_eq_iff (piece_of d) q)

  pub find_child-remove_self :
      (p : Str) (cs : Children T) → AreWellFormed cs → find_child p (remove_child p cs) ≡ none
  unfolding find_child remove_child
  find_child-remove_self p nil h = refl
  find_child-remove_self p (cons d cs) (new, _, h) =
      ground (arith, find_child-remove_self p cs h, str_eq_iff (piece_of d) p)

  -- A found child is well-formed and has the piece.
  pub find_child-IsWellFormed :
      (p : Str) (cs : Children T) (c : Node T)
      → AreWellFormed cs
      → find_child p cs ≡ some c
      → IsWellFormed c
  unfolding find_child
  find_child-IsWellFormed p nil c h e = cc
  find_child-IsWellFormed p (cons d cs) c (new, hd, h) e =
      elim (Bool-cases (str_eq (piece_of d) p)) [
        | inl same ↦ let eq : d ≡ c = ground arith in subst IsWellFormed eq hd
        | inr other ↦ find_child-IsWellFormed p cs c h (ground arith)
      ]

  pub piece_of-find_child :
      (p : Str) (cs : Children T) (c : Node T) → find_child p cs ≡ some c → piece_of c ≡ p
  unfolding find_child
  piece_of-find_child p nil c e = cc
  piece_of-find_child p (cons d cs) c e =
      ground (arith, piece_of-find_child p cs c, str_eq_iff (piece_of d) p)

  pub remove_child-AreWellFormed :
      (p : Str) (cs : Children T) → AreWellFormed cs → AreWellFormed (remove_child p cs)
  unfolding remove_child
  remove_child-AreWellFormed p nil h = tt
  remove_child-AreWellFormed p (cons d cs) (new, hd, h) =
      elim (Bool-cases (str_eq (piece_of d) p)) [
        | inl same ↦ rw same h
        | inr other ↦ rw other (
          find_child-remove_ne (piece_of d) p cs (ne_of_str_eq _ _ other) ∙ new,
          hd,
          remove_child-AreWellFormed p cs h,
        )
      ]

  pub push-AreWellFormed :
      (cs : Children T) (c : Node T)
      → AreWellFormed cs
      → IsWellFormed c
      → find_child (piece_of c) cs ≡ none
      → AreWellFormed (push cs c)
  unfolding push find_child
  push-AreWellFormed nil c h hc n = (refl, hc, tt)
  push-AreWellFormed (cons d cs) c (new, hd, h) hc n = (
    ground (
      arith,
      find_child-push (piece_of d) cs c,
      str_eq_iff (piece_of d) (piece_of c),
      str_eq_iff (piece_of c) (piece_of d),
    ),
    hd,
    push-AreWellFormed cs c h hc (ground arith),
  )
