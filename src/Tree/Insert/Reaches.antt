-- ===== src/Tree/Insert/Reaches.antt =====
-- A route that was added is found by the requests that follow its pattern.
use fanta.Prelude.{◌≡◌, refl, true, none, some, List, [], ◌∷◌, ◌++◌, arith}
use fanta.Text.{Str}
use fanta.Middleware.{MiddlewareFnPointer, MiddlewareTuple}
use fanta.Tree.Node.{Fields, Node, node, Slot, Children, find_child, remove_child, push}
use fanta.Tree.Children.{IsWellFormed}
use fanta.Tree.Insert.{
  param, wildcard, literal, nothing, lead, name_of, wildcard_or_new, literal_child,
  add_value_at_split_path,
}
use fanta.Tree.Insert.Steps.{
  add-param, add-wildcard, add-literal, add-nothing, literal_child-IsWellFormed,
  wildcard_or_new-IsWellFormed, find_child-added,
}
use fanta.Tree.Route.{Route, attached, end_at, bind_param, route}
use fanta.Tree.Route.Steps.{route-child, route-wildcard}

-- The request follows the pattern from a node on: it has a piece for each piece of the pattern up
-- to the first that is empty, the same one where the pattern is literal; and where the pattern has
-- a parameter or a wildcard, one that no child of the node takes.
pub data Follows {ℓ} {T : Type ℓ} : Node T → List Str → List Str → Type ℓ where
  arrive : {n : Node T} → Follows n [] []
  stop : {n : Node T} {p : Str} {ps : List Str} → lead p ≡ nothing → Follows n (p ∷ ps) []
  exact :
      {f : Fields T} {w : Slot T} {cs : Children T} {p q : Str} {ps qs : List Str}
      → lead p ≡ literal
      → q ≡ p
      → Follows (literal_child p cs) ps qs
      → Follows (node f w cs) (p ∷ ps) (q ∷ qs)
  named :
      {f : Fields T} {w : Slot T} {cs : Children T} {p q : Str} {ps qs : List Str}
      → lead p ≡ param
      → find_child q cs ≡ none
      → Follows (wildcard_or_new w) ps qs
      → Follows (node f w cs) (p ∷ ps) (q ∷ qs)
  any :
      {f : Fields T} {w : Slot T} {cs : Children T} {p q : Str} {ps qs : List Str}
      → lead p ≡ wildcard
      → find_child q cs ≡ none
      → Follows (wildcard_or_new w) ps qs
      → Follows (node f w cs) (p ∷ ps) (q ∷ qs)

module _ {ℓ} {T : Type ℓ} (v : MiddlewareTuple T) where
  -- The end of a walk at a node whose value is `v`.
  abbrev arrival : List (MiddlewareFnPointer T) → Node T → Route T
  arrival g (node f w cs) = record (end_at (g ++ attached f.non_leaf_value) f) { endpoint = some v }

  -- The route that a request takes along a pattern to an endpoint `v`: the middleware that is
  -- attached on the way, and a parameter for each piece that passes a node with a name.
  unfoldable pub landing : List (MiddlewareFnPointer T) → Node T → List Str → List Str → Route T
  landing g n [] qs = arrival g n
  landing g n (p ∷ ps) [] = arrival g n
  landing g (node f w cs) (p ∷ ps) (q ∷ qs) =
      let g' = g ++ attached f.non_leaf_value in
      elim (lead p) [
        | param ↦ bind_param (some (name_of p)) q (landing g' (wildcard_or_new w) ps qs)
        | wildcard ↦ bind_param f.param_name q (landing g' (wildcard_or_new w) ps qs)
        | literal ↦ bind_param f.param_name q (landing g' (literal_child p cs) ps qs)
        | nothing ↦ arrival g (node f w cs)
      ]

  route-add-end :
      (g : List (MiddlewareFnPointer T)) (n : Node T)
      → route g (add_value_at_split_path n [] v true) [] ≡ arrival g n
  unfolding route add_value_at_split_path
  route-add-end g (node f w cs) = refl

  -- In a well-formed tree, a request that follows a pattern reaches the value added at the pattern.
  pub route-add :
      (g : List (MiddlewareFnPointer T)) {n : Node T} {ps qs : List Str}
      → IsWellFormed n
      → Follows n ps qs
      → route g (add_value_at_split_path n ps v true) qs ≡ landing g n ps qs
  unfolding landing
  route-add g {n} h arrive = route-add-end g n
  route-add g {n = node f w cs} h (stop {p} {ps} e) =
      rw (add-nothing f w cs p ps v true e) (unfold route in refl)
  route-add g h (exact {f} {w} {cs} {p} {q} {ps} {qs} e d t) =
      let child = add_value_at_split_path (literal_child p cs) ps v true in
      let cs' = push (remove_child p cs) child in
      rw (add-literal f w cs p ps v true e) (
        ground (
          arith,
          route-child g f w cs' q qs child (rw d (find_child-added p cs ps v true h.1)),
          route-add (g ++ attached f.non_leaf_value) (literal_child-IsWellFormed p cs h.1) t,
        ))
  route-add g h (named {f} {w} {cs} {p} {q} {ps} {qs} e d t) =
      rw (add-param f w cs p ps v true e, route-wildcard g _ _ cs q qs _ d refl)
        (ground (
          arith,
          route-add (g ++ attached f.non_leaf_value) (wildcard_or_new-IsWellFormed w h.0) t,
        ))
  route-add g h (any {f} {w} {cs} {p} {q} {ps} {qs} e d t) =
      rw (add-wildcard f w cs p ps v true e, route-wildcard g _ _ cs q qs _ d refl)
        (ground (
          arith,
          route-add (g ++ attached f.non_leaf_value) (wildcard_or_new-IsWellFormed w h.0) t,
        ))
