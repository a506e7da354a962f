-- ===== src/Tree/Insert/Steps.antt =====
-- One step of `add_value_at_split_path`, by the kind of the piece, and that the invariant is kept.
use fanta.Prelude.{
  ◌≡◌, refl, Bool, Option, none, some, List, [], ◌∷◌, inl, inr, arith, ◌∙◌, ◌⊎◌, true, false,
}
use fanta.Text.{Str}
use fanta.Text.Split.{str_eq_refl}
use fanta.Middleware.{MiddlewareTuple}
use fanta.Tree.Node.{
  Fields, Node, node, Slot, vacant, boxed, Children, set_piece, piece_of, find_child, remove_child,
  push,
}
use fanta.Tree.Children.{
  IsWellFormed, SlotIsWellFormed, AreWellFormed, find_child-remove_self, find_child-push,
  piece_of-find_child, find_child-IsWellFormed, push-AreWellFormed, remove_child-AreWellFormed,
}
use fanta.Tree.Insert.{
  Lead, param, wildcard, literal, nothing, lead, name_of, store, wildcard_or_new, child_or_new,
  or_default, literal_child, add_value_at_split_path,
}

module _ {ℓ} {T : Type ℓ} (f : Fields T) (w : Slot T) (cs : Children T) (p : Str) (ps : List Str)
    (v : MiddlewareTuple T) (is_leaf : Bool) where
  pub add-param :
      lead p ≡ param
      → add_value_at_split_path (node f w cs) (p ∷ ps) v is_leaf
        ≡ node
            (record f { param_name = some (name_of p) })
            (boxed (add_value_at_split_path (wildcard_or_new w) ps v is_leaf))
            cs
  unfolding add_value_at_split_path
  add-param e = ground arith

  pub add-wildcard :
      lead p ≡ wildcard
      → add_value_at_split_path (node f w cs) (p ∷ ps) v is_leaf
        ≡ node f (boxed (add_value_at_split_path (wildcard_or_new w) ps v is_leaf)) cs
  unfolding add_value_at_split_path
  add-wildcard e = ground arith

  pub add-literal :
      lead p ≡ literal
      → add_value_at_split_path (node f w cs) (p ∷ ps) v is_leaf
        ≡ node f w
            (push (remove_child p cs) (add_value_at_split_path (literal_child p cs) ps v is_leaf))
  unfolding add_value_at_split_path
  add-literal e = ground arith

  pub add-nothing :
      lead p ≡ nothing
      → add_value_at_split_path (node f w cs) (p ∷ ps) v is_leaf ≡ node (store f v is_leaf) w cs
  unfolding add_value_at_split_path
  add-nothing e = ground arith

pub Lead-cases : (l : Lead) → (l ≡ param) ⊎ ((l ≡ wildcard) ⊎ ((l ≡ literal) ⊎ (l ≡ nothing)))
Lead-cases param = inl refl
Lead-cases wildcard = inr (inl refl)
Lead-cases literal = inr (inr (inl refl))
Lead-cases nothing = inr (inr (inr refl))

module _ {ℓ} {T : Type ℓ} where
  pub piece_of-add :
      (n : Node T) (ps : List Str) (v : MiddlewareTuple T) (is_leaf : Bool)
      → piece_of (add_value_at_split_path n ps v is_leaf) ≡ piece_of n
  piece_of-add (node f w cs) [] v true = unfold add_value_at_split_path in refl
  piece_of-add (node f w cs) [] v false = unfold add_value_at_split_path in refl
  piece_of-add (node f w cs) (p ∷ ps) v is_leaf = elim (Lead-cases (lead p)) [
    | inl e ↦ rw (add-param f w cs p ps v is_leaf e)
    | inr (inl e) ↦ rw (add-wildcard f w cs p ps v is_leaf e)
    | inr (inr (inl e)) ↦ rw (add-literal f w cs p ps v is_leaf e)
    | inr (inr (inr e)) ↦ rw (add-nothing f w cs p ps v is_leaf e) (ground arith)
  ]

  set_piece-IsWellFormed : (p : Str) (n : Node T) → IsWellFormed n → IsWellFormed (set_piece p n)
  set_piece-IsWellFormed p (node f w cs) h = h

  or_default-IsWellFormed :
      (p : Str) (o : Option (Node T))
      → ((c : Node T) → o ≡ some c → IsWellFormed c)
      → IsWellFormed (set_piece p (or_default o))
  or_default-IsWellFormed p none h = (tt, tt)
  or_default-IsWellFormed p (some c) h = set_piece-IsWellFormed p c (h c refl)

  pub literal_child-IsWellFormed :
      (p : Str) (cs : Children T) → AreWellFormed cs → IsWellFormed (literal_child p cs)
  literal_child-IsWellFormed p cs h =
      or_default-IsWellFormed p (find_child p cs) (λ c e. find_child-IsWellFormed p cs c h e)

  pub wildcard_or_new-IsWellFormed :
      (w : Slot T) → SlotIsWellFormed w → IsWellFormed (wildcard_or_new w)
  wildcard_or_new-IsWellFormed vacant h = (tt, tt)
  wildcard_or_new-IsWellFormed (boxed n) h = h

  piece_of-set_piece : (p : Str) (n : Node T) → piece_of (set_piece p n) ≡ p
  piece_of-set_piece p (node f w cs) = refl

  pub piece_of-add_literal :
      (p : Str) (cs : Children T) (ps : List Str) (v : MiddlewareTuple T) (is_leaf : Bool)
      → piece_of (add_value_at_split_path (literal_child p cs) ps v is_leaf) ≡ p
  piece_of-add_literal p cs ps v is_leaf =
      piece_of-add (literal_child p cs) ps v is_leaf ∙ piece_of-set_piece p (child_or_new p cs)

  -- Adding a value keeps the path pieces of the children of each node distinct.
  pub add_value_at_split_path-IsWellFormed :
      (n : Node T) (ps : List Str) (v : MiddlewareTuple T) (is_leaf : Bool)
      → IsWellFormed n
      → IsWellFormed (add_value_at_split_path n ps v is_leaf)
  add_value_at_split_path-IsWellFormed (node f w cs) [] v is_leaf h =
      unfold add_value_at_split_path in h
  add_value_at_split_path-IsWellFormed (node f w cs) (p ∷ ps) v is_leaf (hw, hs) =
      let wild =
        add_value_at_split_path-IsWellFormed (wildcard_or_new w) ps v is_leaf
          (wildcard_or_new-IsWellFormed w hw) in
      elim (Lead-cases (lead p)) [
        | inl e ↦ rw (add-param f w cs p ps v is_leaf e) (wild, hs)
        | inr (inl e) ↦ rw (add-wildcard f w cs p ps v is_leaf e) (wild, hs)
        | inr (inr (inl e)) ↦ rw (add-literal f w cs p ps v is_leaf e) (
          hw,
          push-AreWellFormed (remove_child p cs)
              (add_value_at_split_path (literal_child p cs) ps v is_leaf)
              (remove_child-AreWellFormed p cs hs)
              (add_value_at_split_path-IsWellFormed (literal_child p cs) ps v is_leaf
                (literal_child-IsWellFormed p cs hs))
              (rw (piece_of-add_literal p cs ps v is_leaf) (find_child-remove_self p cs hs)),
        )
        | inr (inr (inr e)) ↦ rw (add-nothing f w cs p ps v is_leaf e) (hw, hs)
      ]

  -- The child that a literal piece leads to is found again.
  pub find_child-added :
      (p : Str) (cs : Children T) (ps : List Str) (v : MiddlewareTuple T) (is_leaf : Bool)
      → AreWellFormed cs
      → let child = add_value_at_split_path (literal_child p cs) ps v is_leaf in
        find_child p (push (remove_child p cs) child) ≡ some child
  find_child-added p cs ps v is_leaf h =
      let child = add_value_at_split_path (literal_child p cs) ps v is_leaf in
      rw (find_child-push p (remove_child p cs) child, find_child-remove_self p cs h)
        (rw (piece_of-add_literal p cs ps v is_leaf, str_eq_refl p))

  set_piece_self : (n : Node T) (p : Str) → piece_of n ≡ p → set_piece p n ≡ n
  set_piece_self (node f w cs) p e = ground arith

  pub literal_child-found :
      (p : Str) (cs : Children T) (c : Node T) → find_child p cs ≡ some c → literal_child p cs ≡ c
  literal_child-found p cs c e = rw e (set_piece_self c p (piece_of-find_child p cs c e))
