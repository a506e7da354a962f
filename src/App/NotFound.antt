-- ===== src/App/NotFound.antt =====
-- Requests that no route was made for: what `set404` catches and what it does not.
use fanta.Prelude.{◌≡◌, refl, ap, ◌∙◌, true, none, some, List, [], ◌∷◌, ◌++◌, ok}
use fanta.Text.{Str, codes, split}
use fanta.Context.{Context, ThrusterRequest}
use fanta.Middleware.{MiddlewareFnPointer, MiddlewareTuple}
use fanta.Tree.Params.{no_params}
use fanta.Tree.Node.{
  Fields, Node, node, vacant, boxed, Children, nil, find_child, not_found, default_fields,
  wildcard_route_id,
}
use fanta.Tree.Insert.{add_value_at_path, add_value_at_split_path, route_pieces, store}
use fanta.Tree.Route.{Route, attached, end_at, bind_param, route, serve}
use fanta.Tree.Route.Steps.{route-child, route-wildcard, route-end}
use fanta.Tree.Route.Gathering.{endpoint-bind_param}
use fanta.App.{App, commit, match_and_resolve}
use fanta.App.Serving.{respond, request_route, IsExternal, match_and_resolve-route}

module _ {ℓ} {T : Type ℓ} (m : MiddlewareTuple T) where
  wildcard_404 : Fields T
  wildcard_404 = store (record default_fields { path_piece = wildcard_route_id }) m true

  abbrev with_404 : Fields T → Children T → Node T
  with_404 f cs = node f (boxed (node wildcard_404 vacant nil)) cs

  add-404 :
      (f : Fields T) (cs : Children T)
      → add_value_at_path (node f vacant cs) (codes "/*") m ≡ with_404 f cs
  unfolding add_value_at_path route_pieces split add_value_at_split_path wildcard_404
  add-404 f cs = refl

  route-wildcard_404 :
      (g : List (MiddlewareFnPointer T)) (qs : List Str)
      → route g (node wildcard_404 vacant nil) qs ≡ end_at (g ++ []) wildcard_404
  unfolding route find_child wildcard_404
  route-wildcard_404 g [] = refl
  route-wildcard_404 g (q ∷ qs) = refl

  -- After `set404` in a tree without a wildcard at its root, a request with a first piece that no
  -- child of the root has is served by the given middleware, however long it is.
  route-404 :
      (f : Fields T) (cs : Children T) (q : Str) (qs : List Str)
      → find_child q cs ≡ none
      → route [] (add_value_at_path (node f vacant cs) (codes "/*") m) (q ∷ qs)
        ≡ bind_param f.param_name q (record {
          gathered = attached f.non_leaf_value ++ [];
          endpoint = some m;
          fallback = not_found;
          params = no_params;
        })
  unfolding wildcard_404
  route-404 f cs q qs e = rw (add-404 f cs) (
      route-wildcard [] f _ cs q qs (node wildcard_404 vacant nil) e refl
      ∙ ap (bind_param f.param_name q) (route-wildcard_404 (attached f.non_leaf_value) qs))

  -- After `set404` in a tree without a wildcard at its root, a request below a child of the root
  -- that has neither children nor a wildcard ends at the value of that child, and not at the given
  -- middleware.
  route-404_below :
      (f g : Fields T) (cs : Children T) (q p : Str) (qs : List Str)
      → find_child q cs ≡ some (node g vacant nil)
      → (route [] (add_value_at_path (node f vacant cs) (codes "/*") m) (q ∷ p ∷ qs)).endpoint
        ≡ g.value
  unfolding wildcard_404
  route-404_below f g cs q p qs e =
      rw (add-404 f cs, route-child [] f _ cs q (p ∷ qs) (node g vacant nil) e)
        (endpoint-bind_param f.param_name q _
          ∙ ap (λ r. r.endpoint)
              (route-end (attached f.non_leaf_value) g vacant nil p qs (unfold find_child in refl)
                refl))

unmatched-serve {ℓ} :
    {T : Type ℓ} (r : Route T) → r.endpoint ≡ none → r.fallback ≡ not_found → serve r ≡ not_found
unmatched-serve r e d = rw e d

module _ {ρ ℓ σ κ} {R : Type ρ} {T : Type ℓ} {S : Type σ} {Response : Type κ}
    ⦃c : Context T Response⦄ ⦃r : ThrusterRequest R⦄ where
  -- A committed app answers a request whose path is not internal, and whose walk ends at a node
  -- that was never given a value, from the generated context as it is: the status and the message
  -- of the error do not reach the response.
  pub unmatched-response :
      (app ready : App R T S) (request : R)
      → commit app ≡ some ready
      → IsExternal app request
      → (request_route app request).endpoint ≡ none
      → (request_route app request).fallback ≡ not_found
      → match_and_resolve ⦃c = c⦄ ready request
        ≡ ok (c.get_response (app.context_generator request app.state []))
  unmatched-response app ready request h away e d =
      match_and_resolve-route ⦃c = c⦄ app ready request h away
      ∙ ap (λ h. respond ⦃c = c⦄ app request h) (unmatched-serve (request_route app request) e d)
