-- ===== src/Tree/Commit/Again.antt =====
-- A tree that is committed twice, as an app is that was committed before its server commits it.
use mathlib.Core.Option.{some-injective}
use mathlib.Core.List.{tail}
use fanta.Prelude.{
  ◌≡◌, refl, sym, ap, ◌∙◌, inl, inr, Option, none, some, List, [], ◌∷◌, ◌++◌, >>=-eq-some,
  Option-cases, Bool-cases, arith,
}
use fanta.Text.{Str, str_eq, split}
use fanta.Map.{HashMap}
use fanta.Middleware.{Handler, MiddlewareTuple, MiddlewareFnPointer}
use fanta.Tree.Node.{
  Node, node, Slot, vacant, boxed, Children, nil, cons, as_ref, piece_of, find_child,
}
use fanta.Tree.Match.{add_param, get_value_at_split_path, get_value_at_path}
use fanta.Tree.Match.Steps.{get-child, get-wildcard, get-end}
use fanta.Tree.Commit.{
  collect, commit_value, commit_inner, commit_slot, commit_children, commit, set_fastmatch, fill,
  enumerate, below,
}
use fanta.Tree.Commit.Capacity.{Fits, SlotFits, ChildrenFit, commit_inner-Fits}
use fanta.Tree.Commit.Fastmatch.{StartsWith, get-set_fastmatch, get_value_at_path-commit}
use fanta.Tree.Route.{attached, route, answer}
use fanta.Tree.Route.Steps.{route-child, route-wildcard, route-end}
use fanta.Tree.Route.Refines.{commit-route, answer-bind_param, piece_of-commit_inner}

abbrev mutual
  -- No node has a value or attached middleware.
  pub IsBare {ℓ} : {T : Type ℓ} → Node T → Type ℓ
  IsBare (node f w cs) =
      (f.value ≡ none) × (f.non_leaf_value ≡ none) × SlotIsBare w × ChildrenAreBare cs

  pub SlotIsBare {ℓ} : {T : Type ℓ} → Slot T → Type ℓ
  SlotIsBare vacant = Unit
  SlotIsBare (boxed n) = IsBare n

  pub ChildrenAreBare {ℓ} : {T : Type ℓ} → Children T → Type ℓ
  ChildrenAreBare nil = Unit
  ChildrenAreBare (cons c cs) = IsBare c × ChildrenAreBare cs

mutual
  unfolding commit_inner commit_slot commit_children

  -- A committed tree has the handlers only.
  pub commit_inner-IsBare {ℓ} :
      {T : Type ℓ} (n m : Node T) (c : Option (MiddlewareTuple T))
      → commit_inner n c ≡ some m
      → IsBare m
  commit_inner-IsBare (node f w cs) m c h =
      let (u, eu, h1) = >>=-eq-some (collect c f.non_leaf_value) _ h in
      let (ds, ed, h2) = >>=-eq-some (commit_children cs u) _ h1 in
      let (p, ep, h3) = >>=-eq-some (commit_value f.committed_middleware f.value u) _ h2 in
      let (v, ev, h4) = >>=-eq-some (commit_slot w u) _ h3 in
      rw (← some-injective _ _ h4)
        (refl, refl, commit_slot-IsBare w v u ev, commit_children-AreBare cs ds u ed)

  commit_slot-IsBare {ℓ} :
      {T : Type ℓ} (w v : Slot T) (c : Option (MiddlewareTuple T))
      → commit_slot w c ≡ some v
      → SlotIsBare v
  commit_slot-IsBare vacant v c h = rw (← some-injective _ _ h) tt
  commit_slot-IsBare (boxed n) v c h =
      let (m, em, h1) = >>=-eq-some (commit_inner n c) _ h in
      rw (← some-injective _ _ h1) (commit_inner-IsBare n m c em)

  commit_children-AreBare {ℓ} :
      {T : Type ℓ} (cs ds : Children T) (c : Option (MiddlewareTuple T))
      → commit_children cs c ≡ some ds
      → ChildrenAreBare ds
  commit_children-AreBare nil ds c h = rw (← some-injective _ _ h) tt
  commit_children-AreBare (cons n cs) ds c h =
      let (m, em, h1) = >>=-eq-some (commit_inner n c) _ h in
      let (ms, ems, h2) = >>=-eq-some (commit_children cs c) _ h1 in
      rw (← some-injective _ _ h2)
        (commit_inner-IsBare n m c em, commit_children-AreBare cs ms c ems)

module _ {ℓ} {T : Type ℓ} where
  find_child-IsBare :
      (piece : Str) (cs : Children T) (c : Node T)
      → ChildrenAreBare cs
      → find_child piece cs ≡ some c
      → IsBare c
  unfolding find_child
  find_child-IsBare piece nil c _ e = cc
  find_child-IsBare piece (cons d cs) c (h, hs) e = elim (Bool-cases (str_eq (piece_of d) piece)) [
    | inl b ↦ rw (← some-injective _ _ (rw b at e)) h
    | inr b ↦ find_child-IsBare piece cs c hs (rw b at e)
  ]

  as_ref-IsBare : (w : Slot T) (n : Node T) → SlotIsBare w → as_ref w ≡ some n → IsBare n
  as_ref-IsBare vacant n _ e = cc
  as_ref-IsBare (boxed m) n h e = rw (← some-injective _ _ e) h

  -- Resolving in a committed tree is looking up in it.
  route-IsBare :
      (g : List (MiddlewareFnPointer T)) (path : List Str) (n : Node T)
      → IsBare n
      → answer (route g n path) ≡ get_value_at_split_path n path
  route-IsBare g [] (node f w cs) (v, _, _, _) = unfold route get_value_at_split_path in rw v refl
  route-IsBare g (piece ∷ path) (node f w cs) (v, a, hw, hs) =
      let deeper = λ (n : Node T) (h : IsBare n).
        answer-bind_param f.param_name piece (route (g ++ attached f.non_leaf_value) n path)
        ∙ ap (add_param f.param_name piece)
            (route-IsBare (g ++ attached f.non_leaf_value) path n h) in
      elim (Option-cases (find_child piece cs)) [
        | inr (n, e) ↦
            rw (route-child g f w cs piece path n e, get-child f w cs piece path n e)
              (deeper n (find_child-IsBare piece cs n hs e))
        | inl e ↦ elim (Option-cases (as_ref w)) [
          | inr (n, d) ↦
              rw (route-wildcard g f w cs piece path n e d, get-wildcard f w cs piece path n e d)
                (deeper n (as_ref-IsBare w n hw d))
          | inl d ↦ rw (route-end g f w cs piece path e d, get-end f w cs piece path e d, v) refl
        ]
      ]

mutual
  -- Nothing is gathered in such a tree.
  IsBare-Fits {ℓ} : {T : Type ℓ} (n : Node T) → IsBare n → Fits 0 n
  IsBare-Fits (node f w cs) (v, a, hw, hs) =
      rw (v, a) (omega arith, SlotIsBare-Fits w hw, ChildrenAreBare-Fit cs hs)

  SlotIsBare-Fits {ℓ} : {T : Type ℓ} (w : Slot T) → SlotIsBare w → SlotFits 0 w
  SlotIsBare-Fits vacant _ = tt
  SlotIsBare-Fits (boxed n) h = IsBare-Fits n h

  ChildrenAreBare-Fit {ℓ} : {T : Type ℓ} (cs : Children T) → ChildrenAreBare cs → ChildrenFit 0 cs
  ChildrenAreBare-Fit nil _ = tt
  ChildrenAreBare-Fit (cons c cs) (h, hs) = (IsBare-Fits c h, ChildrenAreBare-Fit cs hs)

module _ {ℓ} {T : Type ℓ} where
  piece_of-set_fastmatch :
      (n : Node T) (t : HashMap (Handler T)) → piece_of (set_fastmatch n t) ≡ piece_of n
  piece_of-set_fastmatch (node f w cs) t = refl

  set_fastmatch-IsBare :
      (n : Node T) (t : HashMap (Handler T)) → IsBare n → IsBare (set_fastmatch n t)
  set_fastmatch-IsBare (node f w cs) t h = h

  commit-IsBare : (n m : Node T) → commit n ≡ some m → IsBare m
  unfolding commit
  commit-IsBare n m h =
      let (k, e, d) = >>=-eq-some (commit_inner n none) _ h in
      rw (← some-injective _ _ d)
        (set_fastmatch-IsBare k (fill (enumerate k []) []) (commit_inner-IsBare n k none e))

  piece_of-commit : (n m : Node T) → commit n ≡ some m → piece_of m ≡ piece_of n
  unfolding commit
  piece_of-commit n m h =
      let (k, e, d) = >>=-eq-some (commit_inner n none) _ h in
      rw (← some-injective _ _ d)
        (piece_of-set_fastmatch k (fill (enumerate k []) []) ∙ piece_of-commit_inner n k none e)

  get_value_at_split_path-commit :
      (n m : Node T) (path : List Str)
      → commit n ≡ some m
      → get_value_at_split_path m path ≡ answer (route [] n path)
  unfolding commit
  get_value_at_split_path-commit n m path h =
      let (k, e, d) = >>=-eq-some (commit_inner n none) _ h in
      rw (← some-injective _ _ d)
        (get-set_fastmatch k (fill (enumerate k []) []) path ∙ commit-route path n k none e)

  bare-commits : (m : Node T) → IsBare m → (k : Node T) × (commit m ≡ some k)
  unfolding commit
  bare-commits m h =
      let (k, e) = commit_inner-Fits m none (IsBare-Fits m h) in
      (set_fastmatch k (fill (enumerate k []) []), rw e refl)

  -- Committing a committed tree once more does not panic, and the tree that it gives answers each
  -- request path that does not begin with a slash and the root's own piece as before.
  pub commit-again :
      (n m : Node T) (path : Str)
      → commit n ≡ some m
      → ¬ (StartsWith (below [] (piece_of n)) path)
      → (k : Node T) × (commit m ≡ some k) × (get_value_at_path k path ≡ get_value_at_path m path)
  commit-again n m path h away =
      let (k, e) = bare-commits m (commit-IsBare n m h) in
      let pieces = tail (split b'/' path) in
      let away' : ¬ (StartsWith (below [] (piece_of m)) path) = rw (piece_of-commit n m h) away in
      (
        k,
        e,
        get_value_at_path-commit m k path e away'
            ∙ route-IsBare [] pieces m (commit-IsBare n m h)
            ∙ get_value_at_split_path-commit n m pieces h
            ∙ sym (get_value_at_path-commit n m path h away),
      )
