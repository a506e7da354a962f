-- ===== src/Tree/Insert/Arities.antt =====
-- Registration keeps the tuples of a tree within the size of their type.
use mathlib.Core.Path.{subst}
use fanta.Prelude.{
  ◌≤◌, ◌≡◌, refl, Bool, true, false, Option, none, some, List, [], ◌∷◌, inl, inr, arith, Bool-cases,
}
use fanta.Text.{Str, str_eq}
use fanta.Middleware.{MiddlewareTuple, max_arity, arity}
use fanta.Tree.Node.{
  Fields, Node, node, Slot, vacant, boxed, Children, nil, cons, set_piece, piece_of, find_child,
  remove_child, push,
}
use fanta.Tree.Insert.{
  lead, store, or_default, wildcard_or_new, literal_child, add_value_at_split_path,
}
use fanta.Tree.Insert.Steps.{add-param, add-wildcard, add-literal, add-nothing, Lead-cases}
use fanta.Tree.Commit.Capacity.{HasArities, SlotHasArities, ChildrenHaveArities}

module _ {ℓ} {T : Type ℓ} where
  find_child-HasArities :
      (p : Str) (cs : Children T) (c : Node T)
      → ChildrenHaveArities cs
      → find_child p cs ≡ some c
      → HasArities c
  unfolding find_child
  find_child-HasArities p nil c h e = cc
  find_child-HasArities p (cons d cs) c (hd, h) e = elim (Bool-cases (str_eq (piece_of d) p)) [
    | inl same ↦ let eq : d ≡ c = ground arith in subst HasArities eq hd
    | inr other ↦ find_child-HasArities p cs c h (ground arith)
  ]

  set_piece-HasArities : (p : Str) (n : Node T) → HasArities n → HasArities (set_piece p n)
  set_piece-HasArities p (node f w cs) h = h

  or_default-HasArities :
      (p : Str) (o : Option (Node T))
      → ((c : Node T) → o ≡ some c → HasArities c)
      → HasArities (set_piece p (or_default o))
  or_default-HasArities p none h = (omega arith, omega arith, tt, tt)
  or_default-HasArities p (some c) h = set_piece-HasArities p c (h c refl)

  literal_child-HasArities :
      (p : Str) (cs : Children T) → ChildrenHaveArities cs → HasArities (literal_child p cs)
  literal_child-HasArities p cs h =
      or_default-HasArities p (find_child p cs) (λ c e. find_child-HasArities p cs c h e)

  wildcard_or_new-HasArities : (w : Slot T) → SlotHasArities w → HasArities (wildcard_or_new w)
  wildcard_or_new-HasArities vacant h = (omega arith, omega arith, tt, tt)
  wildcard_or_new-HasArities (boxed n) h = h

  remove_child-HaveArities :
      (p : Str) (cs : Children T) → ChildrenHaveArities cs → ChildrenHaveArities (remove_child p cs)
  unfolding remove_child
  remove_child-HaveArities p nil h = tt
  remove_child-HaveArities p (cons d cs) (hd, h) = elim (Bool-cases (str_eq (piece_of d) p)) [
    | inl same ↦ rw same h
    | inr other ↦ rw other (hd, remove_child-HaveArities p cs h)
  ]

  push-HaveArities :
      (cs : Children T) (c : Node T)
      → ChildrenHaveArities cs
      → HasArities c
      → ChildrenHaveArities (push cs c)
  unfolding push
  push-HaveArities nil c h hc = (hc, tt)
  push-HaveArities (cons d cs) c (hd, h) hc = (hd, push-HaveArities cs c h hc)

  store-HasArities :
      (f : Fields T) (w : Slot T) (cs : Children T) (v : MiddlewareTuple T) (is_leaf : Bool)
      → arity v ≤ max_arity
      → HasArities (node f w cs)
      → HasArities (node (store f v is_leaf) w cs)
  store-HasArities f w cs v true k (a, b, hw, hs) = (a, k, hw, hs)
  store-HasArities f w cs v false k (a, b, hw, hs) = (k, b, hw, hs)

  pub add_value_at_split_path-HasArities :
      (n : Node T) (ps : List Str) (v : MiddlewareTuple T) (is_leaf : Bool)
      → arity v ≤ max_arity
      → HasArities n
      → HasArities (add_value_at_split_path n ps v is_leaf)
  add_value_at_split_path-HasArities (node f w cs) [] v is_leaf k h =
      unfold add_value_at_split_path in store-HasArities f w cs v is_leaf k h
  add_value_at_split_path-HasArities (node f w cs) (p ∷ ps) v is_leaf k (a, b, hw, hs) =
      let wild =
        add_value_at_split_path-HasArities (wildcard_or_new w) ps v is_leaf k
          (wildcard_or_new-HasArities w hw) in
      elim (Lead-cases (lead p)) [
        | inl e ↦ rw (add-param f w cs p ps v is_leaf e) (a, b, wild, hs)
        | inr (inl e) ↦ rw (add-wildcard f w cs p ps v is_leaf e) (a, b, wild, hs)
        | inr (inr (inl e)) ↦ rw (add-literal f w cs p ps v is_leaf e) (
          a,
          b,
          hw,
          push-HaveArities (remove_child p cs)
              (add_value_at_split_path (literal_child p cs) ps v is_leaf)
              (remove_child-HaveArities p cs hs)
              (add_value_at_split_path-HasArities (literal_child p cs) ps v is_leaf k
                (literal_child-HasArities p cs hs)),
        )
        | inr (inr (inr e)) ↦
            rw (add-nothing f w cs p ps v is_leaf e)
              (store-HasArities f w cs v is_leaf k (a, b, hw, hs))
      ]
