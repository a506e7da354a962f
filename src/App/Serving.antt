-- ===== src/App/Serving.antt =====
-- What a committed app answers to a request, from registration to response.
use mathlib.Core.List.{tail}
use fanta.Prelude.{◌≡◌, refl, ap, ◌∙◌, some, List, [], Result, ok, IoError}
use fanta.Text.{Str, split}
use fanta.Context.{Context, ThrusterRequest}
use fanta.Middleware.{Handler, MiddlewareTuple}
use fanta.Tree.Node.{Node, piece_of}
use fanta.Tree.Children.{IsWellFormed}
use fanta.Tree.Insert.{add_value_at_path, route_pieces}
use fanta.Tree.Insert.Reaches.{Follows, landing, route-add}
use fanta.Tree.Commit.{below}
use fanta.Tree.Commit.Fastmatch.{StartsWith, get_value_at_path-commit}
use fanta.Tree.Route.{Route, route, serve}
use fanta.App.{App, commit, context_of, resolve_from_method_and_path, resolve, match_and_resolve}
use fanta.App.Methods.{
  Verb, dispatched, root_of, register, resolve-dispatched, root_of-register, commit-root_of,
}

-- The pieces of a request path, as `get_value_at_path` takes them.
abbrev pub request_pieces : Str → List Str
request_pieces path = tail (split b'/' path)

route-add_value_at_path {ℓ} :
    {T : Type ℓ} (m : MiddlewareTuple T) (path : Str) {n : Node T} {qs : List Str}
    → IsWellFormed n
    → Follows n (route_pieces path) qs
    → route [] (add_value_at_path n path m) qs ≡ landing m [] n (route_pieces path) qs
unfolding add_value_at_path
route-add_value_at_path m path wf follows = route-add m [] wf follows

module _ {ρ ℓ σ κ} {R : Type ρ} {T : Type ℓ} {S : Type σ} {Response : Type κ}
    ⦃c : Context T Response⦄ where
  -- The context generated for the request runs through the handler; the response is made from the
  -- context that comes back, out of an error as well.
  abbrev pub respond : App R T S → R → Handler T → Result Response IoError
  respond app request handler =
      ok (c.get_response (context_of (handler (app.context_generator request app.state []))))

  -- The response to a route of a tree.
  abbrev pub respond_at : App R T S → R → Route T → Result Response IoError
  respond_at app request r = respond app request (serve r)

module _ {ρ ℓ σ} {R : Type ρ} {T : Type ℓ} {S : Type σ} ⦃r : ThrusterRequest R⦄ where
  -- The path of the request does not begin with the internal path of the root of its tree.
  abbrev pub IsExternal : App R T S → R → Type 0
  IsExternal app request = ¬ (
      StartsWith (below [] (piece_of (root_of (dispatched (r.method request)) app)))
        (r.path request))

  -- The route of a request in the tree of its method.
  abbrev pub request_route : App R T S → R → Route T
  request_route app request =
      route [] (root_of (dispatched (r.method request)) app) (request_pieces (r.path request))

module _ {ρ ℓ σ κ} {R : Type ρ} {T : Type ℓ} {S : Type σ} {Response : Type κ}
    ⦃c : Context T Response⦄ ⦃r : ThrusterRequest R⦄ where
  -- Matching and resolving in one call is matching by method and path and then resolving.
  pub match_and_resolve_lem :
      (app : App R T S) (request : R)
      → match_and_resolve ⦃c = c⦄ app request
        ≡ resolve ⦃c = c⦄ app request
            (resolve_from_method_and_path app (r.method request) (r.path request))
  unfolding match_and_resolve resolve resolve_from_method_and_path
  match_and_resolve_lem app request = refl

  -- A committed app answers a request whose path is not internal by the route resolution in the
  -- uncommitted tree of the request's method.
  pub match_and_resolve-route :
      (app ready : App R T S) (request : R)
      → commit app ≡ some ready
      → IsExternal app request
      → match_and_resolve ⦃c = c⦄ ready request
        ≡ respond_at ⦃c = c⦄ app request (request_route app request)
  unfolding resolve
  match_and_resolve-route app ready request h away =
      let (trees, gen, st) = commit-root_of app ready h in
      let v = dispatched (r.method request) in
      rw (
        match_and_resolve_lem ready request,
        resolve-dispatched ready (r.method request) (r.path request),
        get_value_at_path-commit (root_of v app) (root_of v ready) (r.path request) (trees v) away,
        gen,
        st,
      )

  -- After a route was registered in a well-formed tree and the app committed, a request of that
  -- method whose path is not internal and follows the route's pattern is answered by the registered
  -- middleware: around it runs what is attached along the pattern, and the context is the generated
  -- one.
  pub match_and_resolve-registered :
      (app ready : App R T S) (path : Str) (m : MiddlewareTuple T) (request : R)
      → IsWellFormed (root_of (dispatched (r.method request)) app)
      → commit (register (dispatched (r.method request)) app path m) ≡ some ready
      → IsExternal (register (dispatched (r.method request)) app path m) request
      → Follows
          (root_of (dispatched (r.method request)) app)
          (route_pieces path)
          (request_pieces (r.path request))
      → match_and_resolve ⦃c = c⦄ ready request
        ≡ respond_at ⦃c = c⦄ (register (dispatched (r.method request)) app path m) request (
            landing m []
              (root_of (dispatched (r.method request)) app)
              (route_pieces path)
              (request_pieces (r.path request)))
  match_and_resolve-registered app ready path m request wf h away follows =
      let v = dispatched (r.method request) in
      let app' = register v app path m in
      match_and_resolve-route app' ready request h away
      ∙ ap (λ n. respond_at ⦃c = c⦄ app' request (route [] n (request_pieces (r.path request))))
          (root_of-register v app path m)
      ∙ ap (respond_at ⦃c = c⦄ app' request) (route-add_value_at_path m path wf follows)

  -- The same with the tree and the pieces of the request's path written out, and the handler of the
  -- route there.
  pub match_and_resolve-ends :
      (app ready : App R T S) (request : R) (v : Verb) (pieces : List Str) (handler : Handler T)
      → commit app ≡ some ready
      → IsExternal app request
      → dispatched (r.method request) ≡ v
      → request_pieces (r.path request) ≡ pieces
      → serve (route [] (root_of v app) pieces) ≡ handler
      → match_and_resolve ⦃c = c⦄ ready request ≡ respond ⦃c = c⦄ app request handler
  match_and_resolve-ends app ready request v pieces handler h away e d k =
      match_and_resolve-route app ready request h away
      ∙ ap
          (λ u.
            respond_at ⦃c = c⦄ app request
              (route [] (root_of u app) (request_pieces (r.path request))))
          e
      ∙ ap (λ p. respond_at ⦃c = c⦄ app request (route [] (root_of v app) p)) d
      ∙ ap (respond ⦃c = c⦄ app request) k
