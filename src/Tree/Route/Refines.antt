-- ===== src/Tree/Route/Refines.antt =====
-- The committed tree implements the route resolution.
use mathlib.Core.Path.{subst}
use mathlib.Core.Option.{some-injective}
use fanta.Prelude.{
  ◌≡◌, refl, sym, ap, ◌∙◌, ◌⊎◌, inl, inr, Option, none, some, List, [], ◌∷◌, ◌++◌, append-nil,
  arith, ◌>>=◌, >>=-eq-some,
}
use fanta.Text.{Str}
use fanta.Middleware.{Handler, MiddlewareTuple, funcs, combine}
use fanta.Middleware.Chain.{run, finish, middleware-eq-run, combine-eq-some}
use fanta.Tree.Node.{
  Fields, Node, node, Slot, vacant, boxed, Children, nil, cons, as_ref, piece_of, find_child,
}
use fanta.Tree.Match.{output, add_param, get_value_at_split_path}
use fanta.Tree.Match.Steps.{get-child, get-wildcard, get-end}
use fanta.Tree.Route.Steps.{route-child, route-wildcard, route-end}
use fanta.Tree.Commit.{
  collect, commit_value, committed_fields, commit_inner, commit_slot, commit_children,
}
use fanta.Tree.Route.{Route, attached, end_at, bind_param, route, answer}

module _ {ℓ} {T : Type ℓ} where
  collect-attached :
      (c v u : Option (MiddlewareTuple T))
      → collect c v ≡ some u
      → attached u ≡ attached c ++ attached v
  collect-attached c none u h = ground (arith, append-nil (attached c))
  collect-attached none (some v) u h = ground arith
  collect-attached (some c) (some v) none h = let (t, e, k) = >>=-eq-some (combine c v) _ h in cc
  collect-attached (some c) (some v) (some u) h =
      let (t, e, k) = >>=-eq-some (combine c v) _ h in ground (arith, combine-eq-some c v t e)

  -- The committed fields answer as the route that ends there.
  commit_value-answer :
      (old : Handler T) (v u : Option (MiddlewareTuple T))
      (p : Handler T × Option (MiddlewareTuple T))
      → commit_value old v u ≡ some p
      → p.0 ≡ (elim v [ some t ↦ run (attached u ++ funcs t) finish | none ↦ old ])
  commit_value-answer old none u p h = ground arith
  commit_value-answer old (some v) none p h = ground (arith, middleware-eq-run v)
  commit_value-answer old (some v) (some c) p h =
      let (t, e, k) = >>=-eq-some (combine c v) _ h in
      ground (arith, middleware-eq-run t, combine-eq-some c v t e)

  end_at-answer :
      (f : Fields T) (c u : Option (MiddlewareTuple T)) (p : Handler T × Option (MiddlewareTuple T))
      → collect c f.non_leaf_value ≡ some u
      → commit_value f.committed_middleware f.value u ≡ some p
      → output p.0 ≡ answer (end_at (attached c ++ attached f.non_leaf_value) f)
  end_at-answer f c u p h k =
      subst (λ g. output p.0 ≡ answer (end_at g f)) (collect-attached c f.non_leaf_value u h)
        (ap output (commit_value-answer f.committed_middleware f.value u p k))

  pub answer-bind_param :
      (name : Option Str) (piece : Str) (r : Route T)
      → answer (bind_param name piece r) ≡ add_param name piece (answer r)
  answer-bind_param none piece r = refl
  answer-bind_param (some name) piece r = refl

  -- The parts of a node that was committed.
  record Committed (f : Fields T) (w : Slot T) (cs : Children T) (c : Option (MiddlewareTuple T))
      (n : Node T) : Type ℓ where
    updated : Option (MiddlewareTuple T)
    handler : Handler T × Option (MiddlewareTuple T)
    wildcard : Slot T
    children : Children T
    collected : collect c f.non_leaf_value ≡ some updated
    children_commit : commit_children cs updated ≡ some children
    value_commits : commit_value f.committed_middleware f.value updated ≡ some handler
    wildcard_commits : commit_slot w updated ≡ some wildcard
    same : n ≡ node (committed_fields f handler) wildcard children

  commit_inner-Committed :
      (f : Fields T) (w : Slot T) (cs : Children T) (c : Option (MiddlewareTuple T)) (n : Node T)
      → commit_inner (node f w cs) c ≡ some n
      → Committed f w cs c n
  unfolding commit_inner
  commit_inner-Committed f w cs c n h =
      let (u, hu, h1) = >>=-eq-some (collect c f.non_leaf_value) _ h in
      let (ds, hds, h2) = >>=-eq-some (commit_children cs u) _ h1 in
      let (p, hp, h3) = >>=-eq-some (commit_value f.committed_middleware f.value u) _ h2 in
      let (w', hw, h4) = >>=-eq-some (commit_slot w u) _ h3 in
      record {
        updated = u;
        handler = p;
        wildcard = w';
        children = ds;
        collected = hu;
        children_commit = hds;
        value_commits = hp;
        wildcard_commits = hw;
        same = sym (some-injective _ _ h4);
      }

  pub piece_of-commit_inner :
      (n m : Node T) (c : Option (MiddlewareTuple T))
      → commit_inner n c ≡ some m
      → piece_of m ≡ piece_of n
  piece_of-commit_inner (node f w cs) m c h = rw (commit_inner-Committed f w cs c m h).same

  -- A node that may be missing, committed.
  abbrev commit_option : Option (Node T) → Option (MiddlewareTuple T) → Option (Option (Node T))
  commit_option none u = some none
  commit_option (some n) u = do some (some (← commit_inner n u))

  as_ref-commit :
      (w v : Slot T) (u : Option (MiddlewareTuple T))
      → commit_slot w u ≡ some v
      → commit_option (as_ref w) u ≡ some (as_ref v)
  unfolding commit_inner
  as_ref-commit vacant v u h = ground arith
  as_ref-commit (boxed n) v u h =
      let (m, e, k) = >>=-eq-some (commit_inner n u) _ h in rw (e, ← some-injective _ _ k)

  find_child-commit :
      (piece : Str) (cs ds : Children T) (u : Option (MiddlewareTuple T))
      → commit_children cs u ≡ some ds
      → commit_option (find_child piece cs) u ≡ some (find_child piece ds)
  unfolding commit_inner find_child
  find_child-commit piece nil ds u h = rw (← some-injective _ _ h)
  find_child-commit piece (cons c cs) ds u h =
      let (m, e, k) = >>=-eq-some (commit_inner c u) _ h in
      let (ms, es, ks) = >>=-eq-some (commit_children cs u) _ k in
      ground (arith, find_child-commit piece cs ms u es, piece_of-commit_inner c m u e)

  -- Both are missing, or one is the other committed.
  commit_option_cases :
      (o p : Option (Node T)) (u : Option (MiddlewareTuple T))
      → commit_option o u ≡ some p
      → ((o ≡ none) × (p ≡ none))
        ⊎ ((n : Node T) × (m : Node T) × (o ≡ some n) × (p ≡ some m) × (commit_inner n u ≡ some m))
  commit_option_cases none p u h = inl (refl, sym (some-injective _ _ h))
  commit_option_cases (some n) p u h =
      let (m, e, k) = >>=-eq-some (commit_inner n u) _ h in
      inr (n, m, refl, sym (some-injective _ _ k), e)

  -- When the commit of a node returns, the lookup in the committed node answers each path with the
  -- handler and the parameters that the route resolution of the node gives, with the middleware
  -- collected above it.
  pub commit-route :
      (path : List Str) (n m : Node T) (c : Option (MiddlewareTuple T))
      → commit_inner n c ≡ some m
      → get_value_at_split_path m path ≡ answer (route (attached c) n path)
  commit-route [] (node f w cs) m c h =
      let k = commit_inner-Committed f w cs c m h in
      rw k.same (
        unfold get_value_at_split_path route in
        end_at-answer f c k.updated k.handler k.collected k.value_commits)
  commit-route (piece ∷ path) (node f w cs) m c h =
      let k = commit_inner-Committed f w cs c m h in
      let gathered = collect-attached c f.non_leaf_value k.updated k.collected in
      let below = find_child-commit piece cs k.children k.updated k.children_commit in
      let wild = as_ref-commit w k.wildcard k.updated k.wildcard_commits in
      let ih = λ (n n' : Node T) (e : commit_inner n k.updated ≡ some n').
        ap (add_param f.param_name piece) (commit-route path n n' k.updated e)
        ∙ sym (answer-bind_param f.param_name piece (route (attached k.updated) n path))
        ∙ ap (λ g. answer (bind_param f.param_name piece (route g n path))) gathered in
      rw k.same (elim (commit_option_cases _ _ k.updated below) [
        | inr (n, n', e, e', en) ↦
            rw (get-child _ _ _ piece path n' e', route-child _ f w cs piece path n e) (ih n n' en)
        | inl (e, e') ↦ elim (commit_option_cases _ _ k.updated wild) [
          | inr (n, n', d, d', en) ↦
              rw (get-wildcard _ _ _ piece path n' e' d', route-wildcard _ f w cs piece path n e d)
                (ih n n' en)
          | inl (d, d') ↦
              rw (get-end _ _ _ piece path e' d', route-end _ f w cs piece path e d)
                (end_at-answer f c k.updated k.handler k.collected k.value_commits)
        ]
      ])
