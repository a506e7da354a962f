-- ===== src/Tree/Insert/Twice.antt =====
-- A pattern that is registered twice.
use fanta.Prelude.{
  ◌≡◌, refl, ap, ◌∙◌, Bool, true, false, none, some, List, [], ◌∷◌, inl, inr, arith,
}
use fanta.Text.{Str}
use fanta.Text.Split.{str_eq_refl}
use fanta.Middleware.{MiddlewareTuple}
use fanta.Tree.Node.{
  Fields, Node, node, boxed, Children, nil, cons, piece_of, find_child, remove_child, push,
}
use fanta.Tree.Children.{IsWellFormed, AreWellFormed, find_child-remove_self}
use fanta.Tree.Insert.{
  lead, name_of, store, wildcard_or_new, literal_child, add_value_at_split_path,
}
use fanta.Tree.Insert.Steps.{
  add-param, add-wildcard, add-literal, add-nothing, Lead-cases, find_child-added,
  piece_of-add_literal, literal_child-found, literal_child-IsWellFormed,
  wildcard_or_new-IsWellFormed,
}

module _ {ℓ} {T : Type ℓ} where
  store-store :
      (f : Fields T) (a b : MiddlewareTuple T) (is_leaf : Bool)
      → store (store f a is_leaf) b is_leaf ≡ store f b is_leaf
  store-store f a b true = refl
  store-store f a b false = refl

  remove_child-push :
      (p : Str) (cs : Children T) (c : Node T)
      → find_child p cs ≡ none
      → piece_of c ≡ p
      → remove_child p (push cs c) ≡ cs
  unfolding find_child remove_child push
  remove_child-push p nil c h e = rw (e, str_eq_refl p)
  remove_child-push p (cons d cs) c h e = ground (arith, remove_child-push p cs c)

  -- Taken out again, the child that was written leaves the other children as they were.
  literal_child-again :
      (p : Str) (cs : Children T) (ps : List Str) (v : MiddlewareTuple T) (is_leaf : Bool)
      → AreWellFormed cs
      → let child = add_value_at_split_path (literal_child p cs) ps v is_leaf in
        let cs' = push (remove_child p cs) child in
        (literal_child p cs' ≡ child) × (remove_child p cs' ≡ remove_child p cs)
  literal_child-again p cs ps v is_leaf h =
      let child = add_value_at_split_path (literal_child p cs) ps v is_leaf in
      (
        literal_child-found p (push (remove_child p cs) child) child
            (find_child-added p cs ps v is_leaf h),
        remove_child-push p (remove_child p cs) child (find_child-remove_self p cs h)
            (piece_of-add_literal p cs ps v is_leaf),
      )

  -- In a well-formed tree, of two values that are added at one pattern, both for requests that end
  -- there or both as middleware, only the later one stays: the tree is as if it alone was added.
  add_twice :
      (n : Node T) (ps : List Str) (a b : MiddlewareTuple T) (is_leaf : Bool)
      → IsWellFormed n
      → add_value_at_split_path (add_value_at_split_path n ps a is_leaf) ps b is_leaf
        ≡ add_value_at_split_path n ps b is_leaf
  add_twice (node f w cs) [] a b true h = unfold add_value_at_split_path in refl
  add_twice (node f w cs) [] a b false h = unfold add_value_at_split_path in refl
  add_twice (node f w cs) (p ∷ ps) a b is_leaf h =
      let wild =
        add_twice (wildcard_or_new w) ps a b is_leaf (wildcard_or_new-IsWellFormed w h.0) in
      let child = literal_child p cs in
      let added = add_value_at_split_path child ps a is_leaf in
      let cs' = push (remove_child p cs) added in
      let (taken, left) = literal_child-again p cs ps a is_leaf h.1 in
      let same = add_twice child ps a b is_leaf (literal_child-IsWellFormed p cs h.1) in
      elim (Lead-cases (lead p)) [
        | inl e ↦
            rw (add-param f w cs p ps a is_leaf e, add-param f w cs p ps b is_leaf e)
              (add-param _ (boxed (add_value_at_split_path (wildcard_or_new w) ps a is_leaf)) cs p
                  ps b is_leaf e
                ∙ ap (λ x. node (record f { param_name = some (name_of p) }) (boxed x) cs) wild)
        | inr (inl e) ↦
            rw (add-wildcard f w cs p ps a is_leaf e, add-wildcard f w cs p ps b is_leaf e)
              (add-wildcard f (boxed (add_value_at_split_path (wildcard_or_new w) ps a is_leaf)) cs
                  p ps b is_leaf e
                ∙ ap (λ x. node f (boxed x) cs) wild)
        | inr (inr (inl e)) ↦
            rw (add-literal f w cs p ps a is_leaf e, add-literal f w cs p ps b is_leaf e)
              (add-literal f w cs' p ps b is_leaf e
                ∙ rw (left, taken) (ap (λ x. node f w (push (remove_child p cs) x)) same))
        | inr (inr (inr e)) ↦
            rw (add-nothing f w cs p ps a is_leaf e, add-nothing f w cs p ps b is_leaf e)
              (add-nothing (store f a is_leaf) w cs p ps b is_leaf e
                ∙ ap (λ x. node x w cs) (store-store f a b is_leaf))
      ]
