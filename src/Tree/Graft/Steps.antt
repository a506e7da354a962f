-- ===== src/Tree/Graft/Steps.antt =====
-- Single steps of `attach`, and what a route ends at below a child.
use fanta.Prelude.{
  ◌≡◌, refl, sym, ap, ◌∙◌, inl, inr, Option, none, some, List, [], ◌∷◌, ◌++◌, arith, append-nil,
  Bool-cases,
}
use fanta.Text.{Str, str_eq}
use fanta.Text.Split.{str_eq_refl}
use fanta.Middleware.{MiddlewareFnPointer}
use fanta.Tree.Node.{
  Fields, Node, node, Slot, Children, nil, cons, new_node, set_piece, piece_of, find_child, push,
}
use fanta.Tree.Children.{find_child-push}
use fanta.Tree.Graft.{modify_child, attach}
use fanta.Tree.Route.{attached, route}
use fanta.Tree.Route.Steps.{route-child}
use fanta.Tree.Route.Gathering.{route-prepend, endpoint-bind_param}

module _ {ℓ} {T : Type ℓ} where
  pub find_child-modify_child :
      (p : Str) (g : Node T → Node T) (cs : Children T) (c : Node T)
      → find_child p cs ≡ some c
      → piece_of (g c) ≡ p
      → find_child p (modify_child p g cs) ≡ some (g c)
  unfolding find_child modify_child
  find_child-modify_child p g nil c e k = cc
  find_child-modify_child p g (cons d cs) c e k = elim (Bool-cases (str_eq (piece_of d) p)) [
    | inl same ↦
        let eq : d ≡ c = ground arith in
        rw (same, rw (← eq) at (ap (λ s. str_eq s p) k), str_eq_refl p)
          (ap {B = Option (Node T)} (λ x. some (g x)) eq)
    | inr other ↦ ground (arith, find_child-modify_child p g cs c)
  ]

  pub attach-there :
      (f : Fields T) (w : Slot T) (cs : Children T) (p q : Str) (ps : List Str) (added c : Node T)
      → find_child p cs ≡ some c
      → attach (node f w cs) p (q ∷ ps) added
        ≡ node f w (modify_child p (λ x. attach x q ps added) cs)
  unfolding attach
  attach-there f w cs p q ps added c e = rw (e, attach)

  pub piece_of-attach :
      (n : Node T) (p : Str) (ps : List Str) (added : Node T)
      → piece_of (attach n p ps added) ≡ piece_of n
  unfolding attach
  piece_of-attach (node f w cs) p [] added = refl
  piece_of-attach (node f w cs) p (q ∷ ps) added = ground arith

  -- The parts of a route that do not depend on what was gathered before.
  endpoint-route :
      (g : List (MiddlewareFnPointer T)) (n : Node T) (path : List Str)
      → (route g n path).endpoint ≡ (route [] n path).endpoint
  endpoint-route g n path =
      ap (λ l. (route l n path).endpoint) (sym (append-nil g))
      ∙ ap (λ r. r.endpoint) (route-prepend g [] n path)

  pub endpoint-child :
      (g : List (MiddlewareFnPointer T)) (f : Fields T) (w : Slot T) (cs : Children T) (p : Str)
      (path : List Str) (c : Node T)
      → find_child p cs ≡ some c
      → (route g (node f w cs) (p ∷ path)).endpoint ≡ (route [] c path).endpoint
  endpoint-child g f w cs p path c e =
      ap (λ r. r.endpoint) (route-child g f w cs p path c e)
      ∙ (endpoint-bind_param f.param_name p (route (g ++ attached f.non_leaf_value) c path)
          ∙ endpoint-route (g ++ attached f.non_leaf_value) c path)

  pub route-set_piece :
      (p : Str) (n : Node T) (path : List Str)
      → (route [] (set_piece p n) path).endpoint ≡ (route [] n path).endpoint
  unfolding route
  route-set_piece p (node f w cs) [] = refl
  route-set_piece p (node f w cs) (q ∷ path) = refl

  pub piece_of-set_piece : (p : Str) (n : Node T) → piece_of (set_piece p n) ≡ p
  piece_of-set_piece p (node f w cs) = refl

  pub find_child-pushed :
      (p : Str) (cs : Children T) (n : Node T)
      → find_child p cs ≡ none
      → piece_of n ≡ p
      → find_child p (push cs n) ≡ some n
  find_child-pushed p cs n e k = rw (find_child-push p cs n, e, k, str_eq_refl p)

  pub find_child-head :
      (p : Str) (c : Node T) (cs : Children T) → piece_of c ≡ p → find_child p (cons c cs) ≡ some c
  unfolding find_child
  find_child-head p c cs e = rw (e, str_eq_refl p)

  pub attach-fresh :
      (f : Fields T) (w : Slot T) (p q : Str) (ps : List Str) (added : Node T)
      → attach (node f w nil) p (q ∷ ps) added
        ≡ node f w (cons (attach (new_node p) q ps added) nil)
  unfolding attach
  attach-fresh f w p q ps added = refl
