-- ===== src/Tree/Route/Around.antt =====
-- Middleware that is attached at a pattern: `add_non_leaf_value_at_path` seen by the requests that
-- pass the node of the pattern.
use fanta.Prelude.{
  ◌≡◌, refl, sym, ap, ◌∙◌, ◌⊎◌, inl, inr, false, Option, append-nil, none, some, List, [], ◌∷◌,
  ◌++◌, append_assoc,
}
use fanta.Text.{Str}
use fanta.Middleware.{MiddlewareFnPointer, MiddlewareTuple, funcs}
use fanta.Middleware.Chain.{run, finish, run-append}
use fanta.Tree.Node.{Fields, Node, node, Slot, boxed, Children, find_child, remove_child, push}
use fanta.Tree.Children.{IsWellFormed, find_child-IsWellFormed}
use fanta.Tree.Insert.{
  param, wildcard, literal, nothing, lead, name_of, literal_child, add_value_at_split_path,
}
use fanta.Tree.Insert.Frame.{target}
use fanta.Tree.Insert.Steps.{
  add-param, add-wildcard, add-literal, add-nothing, find_child-added, literal_child-found,
}
use fanta.Tree.Route.{Route, attached, bind_param, route, serve}
use fanta.Tree.Route.Gathering.{prepend, route-prepend, route-attached}
use fanta.Tree.Route.Steps.{route-child, route-wildcard}

-- The request passes the node of the pattern: `Passes n ps qs row m rest` says that along the
-- pattern `ps` the request `qs` comes from `n` to `m`, through nodes that are there and to which
-- `row` is attached, and that `rest` of it is left.
pub data Passes {ℓ} {T : Type ℓ}
    : Node T → List Str → List Str → List (MiddlewareFnPointer T) → Node T → List Str → Type ℓ where
  here : {n : Node T} {qs : List Str} → Passes n [] qs [] n qs
  blank :
      {n : Node T} {p : Str} {ps qs : List Str} → lead p ≡ nothing → Passes n (p ∷ ps) qs [] n qs
  by_child :
      {f : Fields T} {w : Slot T} {cs : Children T} {p q : Str} {ps qs : List Str} {c : Node T}
      {row : List (MiddlewareFnPointer T)} {m : Node T} {rest : List Str}
      → lead p ≡ literal
      → q ≡ p
      → find_child p cs ≡ some c
      → Passes c ps qs row m rest
      → Passes (node f w cs) (p ∷ ps) (q ∷ qs) (attached f.non_leaf_value ++ row) m rest
  by_wildcard :
      {f : Fields T} {cs : Children T} {n : Node T} {p q : Str} {ps qs : List Str}
      {row : List (MiddlewareFnPointer T)} {m : Node T} {rest : List Str}
      → (lead p ≡ param) ⊎ (lead p ≡ wildcard)
      → find_child q cs ≡ none
      → Passes n ps qs row m rest
      → Passes (node f (boxed n) cs) (p ∷ ps) (q ∷ qs) (attached f.non_leaf_value ++ row) m rest

module _ {ℓ} {T : Type ℓ} where
  -- The node without what is attached to it.
  abbrev pub detached : Node T → Node T
  detached (node f w cs) = node (record f { non_leaf_value = none }) w cs

  -- Whatever is gathered before is gathered in front.
  pub route-from :
      (g : List (MiddlewareFnPointer T)) (n : Node T) (qs : List Str)
      → route g n qs ≡ prepend g (route [] n qs)
  route-from g n qs = ap (λ k. route k n qs) (sym (append-nil g)) ∙ route-prepend g [] n qs

  attach-end :
      (g : List (MiddlewareFnPointer T)) (n : Node T) (v : MiddlewareTuple T) (qs : List Str)
      → route g (add_value_at_split_path n [] v false) qs
        ≡ prepend (g ++ funcs v) (route [] (detached n) qs)
  attach-end g (node f w cs) v qs =
      unfold add_value_at_split_path in
      (route-attached g (g ++ funcs v) (record f { non_leaf_value = none }) (some v) false w cs qs
          (sym (append-nil (g ++ funcs v)))
        ∙ route-from (g ++ funcs v) (detached (node f w cs)) qs)

  attach-nothing :
      (n : Node T) (p : Str) (ps : List Str) (v : MiddlewareTuple T)
      → lead p ≡ nothing
      → add_value_at_split_path n (p ∷ ps) v false ≡ add_value_at_split_path n [] v false
  attach-nothing (node f w cs) p ps v e =
      add-nothing f w cs p ps v false e ∙ unfold add_value_at_split_path in refl

  target-bind :
      (name : Option Str) (q : Str) (r : Route T) → target (bind_param name q r) ≡ target r
  target-bind none q r = refl
  target-bind (some name) q r = refl

  -- One step of the walk, to a node from which `tail` is gathered.
  step :
      (g l tail : List (MiddlewareFnPointer T)) (name : Option Str) (q : Str) (r s : Route T)
      → target r ≡ target (prepend ((g ++ l) ++ tail) s)
      → target (bind_param name q r) ≡ target (prepend (g ++ (l ++ tail)) s)
  step g l tail name q r s e =
      target-bind name q r ∙ e ∙ ap (λ k. target (prepend k s)) (append_assoc g l tail)

  -- The walk of the request comes to the node.
  pub route-passes :
      (g : List (MiddlewareFnPointer T)) {n : Node T} {ps qs : List Str}
      {row : List (MiddlewareFnPointer T)} {m : Node T} {rest : List Str}
      → Passes n ps qs row m rest
      → target (route g n qs) ≡ target (prepend (g ++ row) (route [] m rest))
  route-passes g (here {n} {qs}) = rw (append-nil g) (ap target (route-from g n qs))
  route-passes g (blank {n} {p} {ps} {qs} e) = rw (append-nil g) (ap target (route-from g n qs))
  route-passes g (by_child {f} {w} {cs} {p} {q} {ps} {qs} {c} {row} {m} {rest} e d k t) =
      let l = attached f.non_leaf_value in
      ap target (route-child g f w cs q qs c (rw d k))
      ∙ step g l row f.param_name q (route (g ++ l) c qs) (route [] m rest)
          (route-passes (g ++ l) t)
  route-passes g (by_wildcard {f} {cs} {n} {p} {q} {ps} {qs} {row} {m} {rest} e k t) =
      let l = attached f.non_leaf_value in
      ap target (route-wildcard g f (boxed n) cs q qs n k refl)
      ∙ step g l row f.param_name q (route (g ++ l) n qs) (route [] m rest)
          (route-passes (g ++ l) t)

module _ {ℓ} {T : Type ℓ} (v : MiddlewareTuple T) where
  -- What is attached at the pattern is gathered after the row, in place of what the node had.
  pub route-attach_at :
      (g : List (MiddlewareFnPointer T)) {n : Node T} {ps qs : List Str}
      {row : List (MiddlewareFnPointer T)} {m : Node T} {rest : List Str}
      → IsWellFormed n
      → Passes n ps qs row m rest
      → target (route g (add_value_at_split_path n ps v false) qs)
        ≡ target (prepend (g ++ (row ++ funcs v)) (route [] (detached m) rest))
  route-attach_at g h (here {n} {qs}) = ap target (attach-end g n v qs)
  route-attach_at g h (blank {n} {p} {ps} {qs} e) =
      ap (λ k. target (route g k qs)) (attach-nothing n p ps v e) ∙ ap target (attach-end g n v qs)
  route-attach_at g h (by_child {f} {w} {cs} {p} {q} {ps} {qs} {c} {row} {m} {rest} e d k t) =
      let l = attached f.non_leaf_value in
      let child = add_value_at_split_path (literal_child p cs) ps v false in
      let found = find_child-added p cs ps v false h.1 in
      ap (λ x. target (route g x (q ∷ qs))) (add-literal f w cs p ps v false e)
      ∙ ap target (route-child g f w (push (remove_child p cs) child) q qs child (rw d found))
      ∙ step g l (row ++ funcs v) f.param_name q (route (g ++ l) child qs)
          (route [] (detached m) rest)
          (rw (literal_child-found p cs c k)
            (route-attach_at (g ++ l) (find_child-IsWellFormed p cs c h.1 k) t))
      ∙ ap (λ k. target (prepend (g ++ k) (route [] (detached m) rest)))
          (sym (append_assoc l row (funcs v)))
  route-attach_at g h (by_wildcard {f} {cs} {n} {p} {q} {ps} {qs} {row} {m} {rest} (inl e) k t) =
      let l = attached f.non_leaf_value in
      let below = add_value_at_split_path n ps v false in
      rw (add-param f (boxed n) cs p ps v false e)
        (ap target (route-wildcard g _ (boxed below) cs q qs below k refl))
      ∙ step g l (row ++ funcs v) (some (name_of p)) q (route (g ++ l) below qs)
          (route [] (detached m) rest) (route-attach_at (g ++ l) h.0 t)
      ∙ ap (λ k. target (prepend (g ++ k) (route [] (detached m) rest)))
          (sym (append_assoc l row (funcs v)))
  route-attach_at g h (by_wildcard {f} {cs} {n} {p} {q} {ps} {qs} {row} {m} {rest} (inr e) k t) =
      let l = attached f.non_leaf_value in
      let below = add_value_at_split_path n ps v false in
      rw (add-wildcard f (boxed n) cs p ps v false e)
        (ap target (route-wildcard g f (boxed below) cs q qs below k refl))
      ∙ step g l (row ++ funcs v) f.param_name q (route (g ++ l) below qs)
          (route [] (detached m) rest) (route-attach_at (g ++ l) h.0 t)
      ∙ ap (λ k. target (prepend (g ++ k) (route [] (detached m) rest)))
          (sym (append_assoc l row (funcs v)))

module _ {ℓ} {T : Type ℓ} where
  endpoint-detached :
      (n : Node T) (qs : List Str) → (route [] (detached n) qs).endpoint ≡ (route [] n qs).endpoint
  endpoint-detached (node f w cs) qs =
      let l = attached f.non_leaf_value in
      sym (ap (λ r. r.endpoint) (route-from l (detached (node f w cs)) qs))
      ∙ ap (λ r. r.endpoint) (route-attached l [] f none f.is_leaf w cs qs (append-nil l))

  serve-target :
      (l : List (MiddlewareFnPointer T)) (r s : Route T) (t : MiddlewareTuple T)
      → target r ≡ target (prepend l s)
      → s.endpoint ≡ some t
      → serve r ≡ run l (serve s)
  serve-target l r s t e d =
      ap serve e
      ∙ rw d (
          ap (λ k. run k finish) (append_assoc l s.gathered (funcs t))
          ∙ run-append l (s.gathered ++ funcs t) finish)

  -- Middleware attached at a pattern, in a well-formed tree, runs for a request that passes the
  -- pattern's node and ends at a value: after what is attached to the nodes before, in place of what
  -- the node had, and around the handler that the node without it has for the rest of the request.
  -- Without it, the row of the nodes before runs around the node's handler.
  pub serve-attach_at :
      (v t : MiddlewareTuple T) (n m : Node T) (ps qs rest : List Str)
      (row : List (MiddlewareFnPointer T))
      → IsWellFormed n
      → Passes n ps qs row m rest
      → (route [] m rest).endpoint ≡ some t
      → (serve (route [] (add_value_at_split_path n ps v false) qs)
          ≡ run row (run (funcs v) (serve (route [] (detached m) rest))))
        × (serve (route [] n qs) ≡ run row (serve (route [] m rest)))
  serve-attach_at v t n m ps qs rest row h passes ends = (
    serve-target (row ++ funcs v) (route [] (add_value_at_split_path n ps v false) qs)
          (route [] (detached m) rest) t (route-attach_at v [] h passes)
          (endpoint-detached m rest ∙ ends)
        ∙ run-append row (funcs v) (serve (route [] (detached m) rest)),
    serve-target row (route [] n qs) (route [] m rest) t (route-passes [] passes) ends,
  )

  serve-target_miss :
      (l : List (MiddlewareFnPointer T)) (r s : Route T)
      → target r ≡ target (prepend l s)
      → s.endpoint ≡ none
      → serve r ≡ s.fallback
  serve-target_miss l r s e d = ap serve e ∙ rw d refl

  fallback-detached :
      (n : Node T) (qs : List Str) → (route [] (detached n) qs).fallback ≡ (route [] n qs).fallback
  fallback-detached (node f w cs) qs =
      let l = attached f.non_leaf_value in
      sym (ap (λ r. r.fallback) (route-from l (detached (node f w cs)) qs))
      ∙ ap (λ r. r.fallback) (route-attached l [] f none f.is_leaf w cs qs (append-nil l))

  -- In a well-formed tree, a request that passes the node of a pattern and ends at no value is
  -- served as before when middleware is attached at the pattern: the middleware does not run.
  pub serve-attach_miss :
      (v : MiddlewareTuple T) (n m : Node T) (ps qs rest : List Str)
      (row : List (MiddlewareFnPointer T))
      → IsWellFormed n
      → Passes n ps qs row m rest
      → (route [] m rest).endpoint ≡ none
      → serve (route [] (add_value_at_split_path n ps v false) qs) ≡ serve (route [] n qs)
  serve-attach_miss v n m ps qs rest row h passes ends =
      serve-target_miss (row ++ funcs v) (route [] (add_value_at_split_path n ps v false) qs)
        (route [] (detached m) rest) (route-attach_at v [] h passes)
        (endpoint-detached m rest ∙ ends)
      ∙ fallback-detached m rest
      ∙ sym (serve-target_miss row (route [] n qs) (route [] m rest) (route-passes [] passes) ends)
