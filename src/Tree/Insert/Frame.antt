-- ===== src/Tree/Insert/Frame.antt =====
-- What adding a route leaves as it was.
use fanta.Prelude.{
  ◌≡◌, refl, sym, ap, ◌∙◌, ◌≢◌, ◌⊎◌, inl, inr, true, Option, none, some, List, [], ◌∷◌, ◌++◌, arith,
}
use fanta.Text.{Str}
use fanta.Text.Split.{str_eq_iff}
use fanta.Middleware.{MiddlewareFnPointer, MiddlewareTuple}
use fanta.Tree.Params.{no_params}
use fanta.Tree.Node.{
  Fields, Node, node, Slot, boxed, Children, as_ref, find_child, remove_child, push,
}
use fanta.Tree.Children.{
  IsWellFormed, find_child-push, find_child-remove_ne, find_child-IsWellFormed,
}
use fanta.Tree.Insert.{
  param, wildcard, literal, nothing, lead, name_of, store, literal_child, add_value_at_split_path,
}
use fanta.Tree.Insert.Steps.{
  add-param, add-wildcard, add-literal, Lead-cases, piece_of-add_literal, find_child-added,
  literal_child-found,
}
use fanta.Tree.Route.{Route, attached, bind_param, route}
use fanta.Tree.Route.Steps.{route-children, route-child, route-wildcard}

-- The walk of the request leaves the pattern: at a literal piece it has another one; it is over
-- before the pattern is, or goes on below the pattern's end; where the pattern has a parameter or
-- a wildcard it goes to a child; or one of these holds further down in a node that is there.
pub data Diverges {ℓ} {T : Type ℓ} : Node T → List Str → List Str → Type ℓ where
  early : {n : Node T} {p : Str} {ps : List Str} → lead p ≢ nothing → Diverges n (p ∷ ps) []
  apart :
      {f : Fields T} {w : Slot T} {cs : Children T} {p q : Str} {ps qs : List Str}
      → lead p ≡ literal
      → q ≢ p
      → Diverges (node f w cs) (p ∷ ps) (q ∷ qs)
  below_child :
      {f : Fields T} {w : Slot T} {cs : Children T} {q : Str} {qs : List Str} {c : Node T}
      → find_child q cs ≡ some c
      → Diverges (node f w cs) [] (q ∷ qs)
  below_wildcard :
      {f : Fields T} {w : Slot T} {cs : Children T} {q : Str} {qs : List Str} {n : Node T}
      → find_child q cs ≡ none
      → as_ref w ≡ some n
      → Diverges (node f w cs) [] (q ∷ qs)
  child_first :
      {f : Fields T} {w : Slot T} {cs : Children T} {p q : Str} {ps qs : List Str} {c : Node T}
      → (lead p ≡ param) ⊎ (lead p ≡ wildcard)
      → find_child q cs ≡ some c
      → Diverges (node f w cs) (p ∷ ps) (q ∷ qs)
  in_child :
      {f : Fields T} {w : Slot T} {cs : Children T} {p q : Str} {ps qs : List Str} {c : Node T}
      → lead p ≡ literal
      → q ≡ p
      → find_child p cs ≡ some c
      → Diverges c ps qs
      → Diverges (node f w cs) (p ∷ ps) (q ∷ qs)
  in_wildcard :
      {f : Fields T} {cs : Children T} {n : Node T} {p q : Str} {ps qs : List Str}
      → (lead p ≡ param) ⊎ (lead p ≡ wildcard)
      → find_child q cs ≡ none
      → Diverges n ps qs
      → Diverges (node f (boxed n) cs) (p ∷ ps) (q ∷ qs)

module _ {ℓ} {T : Type ℓ} where
  -- A route without its parameters.
  abbrev pub target : Route T → Route T
  target r = record r { params = no_params }

  pub target-bind_param :
      (a b : Option Str) (q : Str) (r s : Route T)
      → target r ≡ target s
      → target (bind_param a q r) ≡ target (bind_param b q s)
  target-bind_param none none q r s h = h
  target-bind_param none (some b) q r s h = h
  target-bind_param (some a) none q r s h = h
  target-bind_param (some a) (some b) q r s h = h

module _ {ℓ} {T : Type ℓ} (v : MiddlewareTuple T) where
  -- Another child than the one that was written is found as before.
  find_child-other :
      (q p : Str) (cs : Children T) (ps : List Str)
      → q ≢ p
      → find_child q
          (push (remove_child p cs) (add_value_at_split_path (literal_child p cs) ps v true))
        ≡ find_child q cs
  find_child-other q p cs ps n =
      let child = add_value_at_split_path (literal_child p cs) ps v true in
      ground (
        arith,
        find_child-push q (remove_child p cs) child,
        find_child-remove_ne q p cs n,
        piece_of-add_literal p cs ps v true,
        str_eq_iff p q,
      )

  early_case :
      (g : List (MiddlewareFnPointer T)) (f : Fields T) (w : Slot T) (cs : Children T) (p : Str)
      (ps : List Str)
      → lead p ≢ nothing
      → target (route g (add_value_at_split_path (node f w cs) (p ∷ ps) v true) [])
        ≡ target (route g (node f w cs) [])
  early_case g f w cs p ps n = elim (Lead-cases (lead p)) [
    | inl e ↦ rw (add-param f w cs p ps v true e) (unfold route in refl)
    | inr (inl e) ↦ rw (add-wildcard f w cs p ps v true e) (unfold route in refl)
    | inr (inr (inl e)) ↦ rw (add-literal f w cs p ps v true e) (unfold route in refl)
    | inr (inr (inr e)) ↦ absurd (n e)
  ]

  pub route-add_other :
      (g : List (MiddlewareFnPointer T)) {n : Node T} {ps qs : List Str}
      → IsWellFormed n
      → Diverges n ps qs
      → target (route g (add_value_at_split_path n ps v true) qs) ≡ target (route g n qs)
  route-add_other g {n = node f w cs} h (early {p} {ps} e) = early_case g f w cs p ps e
  route-add_other g h (apart {f} {w} {cs} {p} {q} {ps} {qs} e d) =
      rw (add-literal f w cs p ps v true e)
        (ap target (route-children g f w cs _ q qs (find_child-other q p cs ps d)))
  route-add_other g h (below_child {f} {w} {cs} {q} {qs} {c} e) =
      unfold add_value_at_split_path in
      ap target (route-child g (store f v true) w cs q qs c e ∙ sym (route-child g f w cs q qs c e))
  route-add_other g h (below_wildcard {f} {w} {cs} {q} {qs} {n} e d) =
      unfold add_value_at_split_path in
      ap target (
        route-wildcard g (store f v true) w cs q qs n e d
        ∙ sym (route-wildcard g f w cs q qs n e d))
  route-add_other g h (child_first {f} {w} {cs} {p} {q} {ps} {qs} {c} (inl e) d) =
      rw
        (
          add-param f w cs p ps v true e,
          route-child g f w cs q qs c d,
          route-child g _ _ cs q qs c d,
        )
        (target-bind_param (some (name_of p)) f.param_name q
          (route (g ++ attached f.non_leaf_value) c qs)
          (route (g ++ attached f.non_leaf_value) c qs) refl)
  route-add_other g h (child_first {f} {w} {cs} {p} {q} {ps} {qs} {c} (inr e) d) =
      rw
        (
          add-wildcard f w cs p ps v true e,
          route-child g f w cs q qs c d,
          route-child g _ _ cs q qs c d,
        )
        (target-bind_param f.param_name f.param_name q (route (g ++ attached f.non_leaf_value) c qs)
          (route (g ++ attached f.non_leaf_value) c qs) refl)
  route-add_other g h (in_child {f} {w} {cs} {p} {q} {ps} {qs} {c} e d k t) =
      let g' = g ++ attached f.non_leaf_value in
      let child = add_value_at_split_path (literal_child p cs) ps v true in
      let cs' = push (remove_child p cs) child in
      rw (add-literal f w cs p ps v true e) (
        rw
          (
            route-child g f w cs' q qs child (rw d (find_child-added p cs ps v true h.1)),
            route-child g f w cs q qs c (rw d k),
          )
          (target-bind_param f.param_name f.param_name q (route g' child qs) (route g' c qs) (
            rw (literal_child-found p cs c k)
              (route-add_other g' (find_child-IsWellFormed p cs c h.1 k) t))))
  route-add_other g h (in_wildcard {f} {cs} {n} {p} {q} {ps} {qs} (inl e) d t) =
      rw
        (
          add-param f _ cs p ps v true e,
          route-wildcard g f (boxed n) cs q qs n d refl,
          route-wildcard g _ _ cs q qs _ d refl,
        )
        (target-bind_param (some (name_of p)) f.param_name q
          (route (g ++ attached f.non_leaf_value) (add_value_at_split_path n ps v true) qs)
          (route (g ++ attached f.non_leaf_value) n qs)
          (route-add_other (g ++ attached f.non_leaf_value) h.0 t))
  route-add_other g h (in_wildcard {f} {cs} {n} {p} {q} {ps} {qs} (inr e) d t) =
      rw
        (
          add-wildcard f _ cs p ps v true e,
          route-wildcard g f (boxed n) cs q qs n d refl,
          route-wildcard g _ _ cs q qs _ d refl,
        )
        (target-bind_param f.param_name f.param_name q
          (route (g ++ attached f.non_leaf_value) (add_value_at_split_path n ps v true) qs)
          (route (g ++ attached f.non_leaf_value) n qs)
          (route-add_other (g ++ attached f.non_leaf_value) h.0 t))
