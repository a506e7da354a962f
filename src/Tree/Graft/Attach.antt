-- ===== src/Tree/Graft/Attach.antt =====
-- Where `add_node_at_path` hangs a tree below nodes that are there or that it makes.
use fanta.Prelude.{◌≡◌, refl, ap, ◌∙◌, none, some, List, [], ◌∷◌, ◌++◌, arith}
use fanta.Text.{Str, str_eq}
use fanta.Text.Split.{str_eq_refl}
use fanta.Middleware.{MiddlewareFnPointer}
use fanta.Tree.Node.{
  Fields, Node, node, Slot, Children, nil, cons, new_node, set_piece, piece_of, find_child, push,
}
use fanta.Tree.Children.{find_child-push, piece_of-find_child}
use fanta.Tree.Graft.{attach, add_node_at_path, get_node_at_split_path}
use fanta.Tree.Graft.Steps.{
  piece_of-set_piece, find_child-modify_child, attach-there, piece_of-attach, endpoint-child,
  route-set_piece, find_child-pushed, find_child-head, attach-fresh,
}
use fanta.Tree.Insert.{route_pieces}
use fanta.Tree.Route.{route}

-- All nodes on the way are there and the last one is new; or the nodes on the way that are missing
-- are made below nodes that have no children.
pub data Attachable {ℓ} {T : Type ℓ} : Node T → Str → List Str → Type ℓ where
  last :
      {f : Fields T} {w : Slot T} {cs : Children T} {p : Str}
      → find_child p cs ≡ none
      → Attachable (node f w cs) p []
  there :
      {f : Fields T} {w : Slot T} {cs : Children T} {c : Node T} {p q : Str} {ps : List Str}
      → find_child p cs ≡ some c
      → Attachable c q ps
      → Attachable (node f w cs) p (q ∷ ps)
  fresh :
      {f : Fields T} {w : Slot T} {p q : Str} {ps : List Str}
      → Attachable (new_node p) q ps
      → Attachable (node f w nil) p (q ∷ ps)

module _ {ℓ} {T : Type ℓ} where
  -- A tree that is hung below existing nodes answers there as it does by itself: a request for the
  -- prefix and a path ends at the value at which the added tree ends for the path.
  pub route-attach :
      {n : Node T} {p : Str} {ps : List Str} (added : Node T) (path : List Str)
      → Attachable n p ps
      → (route [] (attach n p ps added) (p ∷ (ps ++ path))).endpoint
        ≡ (route [] added path).endpoint
  route-attach added path (last {f} {w} {cs} {p} e) =
      unfold attach in
      (endpoint-child [] f w _ p path (set_piece p added)
          (find_child-pushed p cs (set_piece p added) e (piece_of-set_piece p added))
        ∙ route-set_piece p added path)
  route-attach added path (there {f} {w} {cs} {c} {p} {q} {ps} e t) =
      rw (attach-there f w cs p q ps added c e) (
        endpoint-child [] f w _ p (q ∷ (ps ++ path)) (attach c q ps added) (
          find_child-modify_child p (λ x. attach x q ps added) cs c e
            (piece_of-attach c q ps added ∙ piece_of-find_child p cs c e))
        ∙ route-attach added path t)
  route-attach added path (fresh {f} {w} {p} {q} {ps} t) =
      let child = attach (new_node p) q ps added in
      rw (attach-fresh f w p q ps added) (
        endpoint-child [] f w _ p (q ∷ (ps ++ path)) child
          (find_child-head p child nil (piece_of-attach (new_node p) q ps added))
        ∙ route-attach added path t)

  attach-displaced :
      (f : Fields T) (w : Slot T) (c : Node T) (cs : Children T) (p q : Str) (ps : List Str)
      (added : Node T)
      → find_child p (cons c cs) ≡ none
      → attach (node f w (cons c cs)) p (q ∷ ps) added
        ≡ node f w (cons (attach c q ps added) (push cs (new_node p)))
  unfolding attach
  attach-displaced f w c cs p q ps added e = ground arith

  route-new_node :
      (g : List (MiddlewareFnPointer T)) (p : Str) (path : List Str)
      → (route g (new_node p) path).endpoint ≡ none
  unfolding route find_child
  route-new_node g p [] = refl
  route-new_node g p (q ∷ path) = refl

  find_child-displaced :
      (p : Str) (c d : Node T) (cs : Children T)
      → find_child p (cons c cs) ≡ none
      → piece_of d ≡ piece_of c
      → find_child p (cons d (push cs (new_node p))) ≡ some (new_node p)
  unfolding find_child
  find_child-displaced p c d cs e k =
      ground (arith, find_child-push p cs (new_node p), str_eq_refl p, ap (λ s. str_eq s p) k)

  -- Where the first node on the way is missing and more than one is to be made below a node that
  -- has children, the tree is hung below the first of those children: every request for the
  -- prefix ends at no value, and the tree answers under the piece of that child.
  pub route-attach_displaced :
      (f : Fields T) (w : Slot T) (c : Node T) (cs : Children T) (p q : Str) (ps : List Str)
      (added : Node T) (path : List Str)
      → find_child p (cons c cs) ≡ none
      → Attachable c q ps
      → ((route [] (attach (node f w (cons c cs)) p (q ∷ ps) added) (p ∷ path)).endpoint ≡ none)
        × ((route []
              (attach (node f w (cons c cs)) p (q ∷ ps) added)
              (piece_of c ∷ q ∷ (ps ++ path))).endpoint
            ≡ (route [] added path).endpoint)
  route-attach_displaced f w c cs p q ps added path e t =
      let child = attach c q ps added in
      let kept = piece_of-attach c q ps added in
      rw (attach-displaced f w c cs p q ps added e) (
        endpoint-child [] f w _ p path (new_node p) (find_child-displaced p c child cs e kept)
            ∙ route-new_node [] p path,
        endpoint-child [] f w _ (piece_of c) (q ∷ (ps ++ path)) child
              (find_child-head (piece_of c) child _ kept)
            ∙ route-attach added path t,
      )

  add_node_at_path-attach :
      (n : Node T) (path : Str) (p : Str) (ps : List Str) (added : Node T)
      → route_pieces path ≡ p ∷ ps
      → get_node_at_split_path n (p ∷ ps) ≡ none
      → add_node_at_path n path added ≡ some (attach n p ps added)
  unfolding add_node_at_path
  add_node_at_path-attach n path p ps (node f w cs) e d = ground arith

  -- `add_node_at_path` at a path whose node is not there, but all nodes before it: the tree that
  -- comes out serves a request for the path and a rest as the added tree serves the rest.
  pub add_node_at_path-route :
      (n : Node T) (path : Str) (p : Str) (ps : List Str) (added : Node T) (rest : List Str)
      → route_pieces path ≡ p ∷ ps
      → get_node_at_split_path n (p ∷ ps) ≡ none
      → Attachable n p ps
      → (m : Node T) × (add_node_at_path n path added ≡ some m)
        × ((route [] m (p ∷ (ps ++ rest))).endpoint ≡ (route [] added rest).endpoint)
  add_node_at_path-route n path p ps added rest e d t = (
    attach n p ps added,
    add_node_at_path-attach n path p ps added e d,
    route-attach added rest t,
  )
