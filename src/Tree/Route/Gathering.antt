-- ===== src/Tree/Route/Gathering.antt =====
-- The middleware that a walk gathers: what was gathered before stays in front, and a value that is
-- attached to the root goes around every handler below it.
use fanta.Prelude.{
  ◌≡◌, refl, sym, ap, ◌∙◌, inl, inr, Bool, false, append-nil, Option, none, some, List, [], ◌∷◌,
  ◌++◌, append_assoc, Option-cases,
}
use fanta.Text.{Str, codes, split}
use fanta.Middleware.{MiddlewareFnPointer, MiddlewareTuple, funcs}
use fanta.Middleware.Chain.{run, finish, run-append}
use fanta.Tree.Node.{Fields, Node, node, Slot, Children, as_ref, find_child, fields}
use fanta.Tree.Insert.{add_value_at_split_path, add_non_leaf_value_at_path, route_pieces}
use fanta.Tree.Route.{Route, attached, end_at, bind_param, route, serve}
use fanta.Tree.Route.Steps.{route-child, route-wildcard, route-end}

module _ {ℓ} {T : Type ℓ} where
  abbrev pub prepend : List (MiddlewareFnPointer T) → Route T → Route T
  prepend a r = record r { gathered = a ++ r.gathered }

  bind_param-prepend :
      (a : List (MiddlewareFnPointer T)) (name : Option Str) (piece : Str) (r : Route T)
      → bind_param name piece (prepend a r) ≡ prepend a (bind_param name piece r)
  bind_param-prepend a none piece r = refl
  bind_param-prepend a (some name) piece r = refl

  pub endpoint-bind_param :
      (name : Option Str) (piece : Str) (r : Route T)
      → (bind_param name piece r).endpoint ≡ r.endpoint
  endpoint-bind_param none piece r = refl
  endpoint-bind_param (some name) piece r = refl

  pub route-prepend :
      (a g : List (MiddlewareFnPointer T)) (n : Node T) (path : List Str)
      → route (a ++ g) n path ≡ prepend a (route g n path)
  route-prepend a g (node f w cs) [] =
      unfold route in ap (λ l. end_at l f) (append_assoc a g (attached f.non_leaf_value))
  route-prepend a g (node f w cs) (p ∷ path) =
      let l = attached f.non_leaf_value in
      let step = λ (n : Node T).
        ap (λ k. bind_param f.param_name p (route k n path)) (append_assoc a g l)
        ∙ ap (bind_param f.param_name p) (route-prepend a (g ++ l) n path)
        ∙ bind_param-prepend a f.param_name p (route (g ++ l) n path) in
      elim (Option-cases (find_child p cs)) [
        | inr (c, e) ↦
            route-child (a ++ g) f w cs p path c e
            ∙ step c
            ∙ ap (prepend a) (sym (route-child g f w cs p path c e))
        | inl e ↦ elim (Option-cases (as_ref w)) [
          | inr (n, d) ↦
              route-wildcard (a ++ g) f w cs p path n e d
              ∙ step n
              ∙ ap (prepend a) (sym (route-wildcard g f w cs p path n e d))
          | inl d ↦
              route-end (a ++ g) f w cs p path e d
              ∙ ap (λ k. end_at k f) (append_assoc a g l)
              ∙ ap (prepend a) (sym (route-end g f w cs p path e d))
        ]
      ]

  -- Of what is attached to the first node only the gathered row counts.
  pub route-attached :
      (g h : List (MiddlewareFnPointer T)) (f : Fields T) (x : Option (MiddlewareTuple T))
      (b : Bool) (w : Slot T) (cs : Children T) (path : List Str)
      → g ++ attached x ≡ h ++ attached f.non_leaf_value
      → route g (node (record f { is_leaf = b; non_leaf_value = x }) w cs) path
        ≡ route h (node f w cs) path
  route-attached g h f x b w cs [] e = unfold route in ap (λ k. end_at k f) e
  route-attached g h f x b w cs (p ∷ path) e =
      let f' : Fields T = record f { is_leaf = b; non_leaf_value = x } in
      let step = λ (n : Node T). ap (λ k. bind_param f.param_name p (route k n path)) e in
      elim (Option-cases (find_child p cs)) [
        | inr (c, d) ↦
            route-child g f' w cs p path c d ∙ step c ∙ sym (route-child h f w cs p path c d)
        | inl d ↦ elim (Option-cases (as_ref w)) [
          | inr (n, d') ↦
              route-wildcard g f' w cs p path n d d'
              ∙ step n
              ∙ sym (route-wildcard h f w cs p path n d d')
          | inl d' ↦
              route-end g f' w cs p path d d'
              ∙ ap (λ k. end_at k f) e
              ∙ sym (route-end h f w cs p path d d')
        ]
      ]

  -- A value attached to a root that had none is gathered before all else.
  route-attach :
      (m : MiddlewareTuple T) (n : Node T) (path : List Str)
      → (fields n).non_leaf_value ≡ none
      → route [] (add_non_leaf_value_at_path n (codes "/") m) path
        ≡ prepend (funcs m) (route [] n path)
  unfolding add_non_leaf_value_at_path route_pieces split
  route-attach m (node f w cs) path e =
      let row : funcs m ≡ (funcs m ++ []) ++ attached f.non_leaf_value =
        rw e (sym (append-nil (funcs m ++ []) ∙ append-nil (funcs m))) in
      unfold add_value_at_split_path in
      (route-attached [] (funcs m ++ []) f (some m) false w cs path row
        ∙ route-prepend (funcs m) [] (node f w cs) path)

  serve-prepend :
      (m : MiddlewareTuple T) (r : Route T) (t : MiddlewareTuple T)
      → r.endpoint ≡ some t
      → serve (prepend (funcs m) r) ≡ run (funcs m) (serve r)
  serve-prepend m r t e = rw e (
      ap (λ k. run k finish) (append_assoc (funcs m) r.gathered (funcs t))
      ∙ run-append (funcs m) (r.gathered ++ funcs t) finish)

  -- Middleware attached at "/" to a tree that has none there runs around the handler of every
  -- request that ends at a value, with that handler as its `next`.
  pub serve-add_non_leaf :
      (m t : MiddlewareTuple T) (n : Node T) (path : List Str)
      → (fields n).non_leaf_value ≡ none
      → (route [] n path).endpoint ≡ some t
      → serve (route [] (add_non_leaf_value_at_path n (codes "/") m) path)
        ≡ run (funcs m) (serve (route [] n path))
  serve-add_non_leaf m t n path e d =
      rw (route-attach m n path e) (serve-prepend m (route [] n path) t d)

  -- When middleware is attached at "/" to a tree that has none there, a request that ends at no
  -- value is served as before: the attached middleware does not run.
  pub serve-add_non_leaf_miss :
      (m : MiddlewareTuple T) (n : Node T) (path : List Str)
      → (fields n).non_leaf_value ≡ none
      → (route [] n path).endpoint ≡ none
      → serve (route [] (add_non_leaf_value_at_path n (codes "/") m) path) ≡ serve (route [] n path)
  serve-add_non_leaf_miss m n path e d = rw (route-attach m n path e, d)

  -- Attaching twice at "/" keeps the second value only.
  pub add_non_leaf_twice :
      (a b : MiddlewareTuple T) (n : Node T)
      → add_non_leaf_value_at_path (add_non_leaf_value_at_path n (codes "/") a) (codes "/") b
        ≡ add_non_leaf_value_at_path n (codes "/") b
  unfolding add_non_leaf_value_at_path route_pieces split add_value_at_split_path
  add_non_leaf_twice a b (node f w cs) = refl
