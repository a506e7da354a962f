-- ===== src/App/Using.antt =====
-- Apps made of others: `use_middleware` and `use_sub_app`, from registration to response.
use mathlib.Core.Option.{some-injective}
use fanta.Tree.Children.{IsWellFormed}
use fanta.Tree.Route.Around.{Passes, detached, serve-attach_at}
use fanta.Prelude.{◌≡◌, refl, sym, ap, ◌∙◌, none, some, List, [], ◌∷◌, ◌++◌, >>=-eq-some}
use fanta.Text.{Str, codes}
use fanta.Context.{Context, ThrusterRequest}
use fanta.Middleware.{MiddlewareFnPointer, MiddlewareTuple, funcs}
use fanta.Middleware.Chain.{run}
use fanta.Tree.Node.{Node, fields}
use fanta.Tree.Insert.{add_non_leaf_value_at_path, route_pieces}
use fanta.Tree.Graft.{add_node_at_path, get_node_at_split_path}
use fanta.Tree.Graft.Attach.{Attachable, add_node_at_path-route}
use fanta.Tree.Route.{route, serve}
use fanta.Tree.Route.Gathering.{serve-add_non_leaf}
use fanta.App.{App, use_middleware, use_sub_app, commit, match_and_resolve}
use fanta.App.Methods.{
  Verb, verb_get, verb_options, verb_post, verb_put, verb_delete, verb_patch, dispatched, root_of,
}
use fanta.App.Serving.{respond, request_route, request_pieces, IsExternal, match_and_resolve-route}

module _ {ρ ℓ σ} {R : Type ρ} {T : Type ℓ} {S : Type σ} where
  pub root_of-use_middleware :
      (v : Verb) (app : App R T S) (path : Str) (m : MiddlewareTuple T)
      → root_of v (use_middleware app path m) ≡ add_non_leaf_value_at_path (root_of v app) path m
  unfolding use_middleware
  root_of-use_middleware verb_get app path m = refl
  root_of-use_middleware verb_options app path m = refl
  root_of-use_middleware verb_post app path m = refl
  root_of-use_middleware verb_put app path m = refl
  root_of-use_middleware verb_delete app path m = refl
  root_of-use_middleware verb_patch app path m = refl

  -- Each tree of the sub-app is mounted in the tree of the same method.
  use_sub_app-root_of :
      (app sub ready : App R T S) (prefix : Str)
      → use_sub_app app prefix sub ≡ some ready
      → (v : Verb)
      → add_node_at_path (root_of v app) prefix (root_of v sub) ≡ some (root_of v ready)
  unfolding use_sub_app
  use_sub_app-root_of app sub ready prefix h =
      let (a, ea, h1) = >>=-eq-some (add_node_at_path app.get_root prefix sub.get_root) _ h in
      let (b, eb, h2) =
        >>=-eq-some (add_node_at_path app.options_root prefix sub.options_root) _ h1 in
      let (c, ec, h3) = >>=-eq-some (add_node_at_path app.post_root prefix sub.post_root) _ h2 in
      let (d, ed, h4) = >>=-eq-some (add_node_at_path app.put_root prefix sub.put_root) _ h3 in
      let (e, ee, h5) =
        >>=-eq-some (add_node_at_path app.delete_root prefix sub.delete_root) _ h4 in
      let (f, ef, h6) = >>=-eq-some (add_node_at_path app.patch_root prefix sub.patch_root) _ h5 in
      rw (← some-injective _ _ h6) (elim [
        | verb_get ↦ ea
        | verb_options ↦ eb
        | verb_post ↦ ec
        | verb_put ↦ ed
        | verb_delete ↦ ee
        | verb_patch ↦ ef
      ])

  -- After a sub-app is mounted where the tree of a method has not the node but all nodes before it,
  -- a request of that method for the prefix and a rest ends at the value at which the sub-app's
  -- tree ends for the rest.
  pub use_sub_app-route :
      (app sub ready : App R T S) (prefix p : Str) (ps rest : List Str) (v : Verb)
      → use_sub_app app prefix sub ≡ some ready
      → route_pieces prefix ≡ p ∷ ps
      → get_node_at_split_path (root_of v app) (p ∷ ps) ≡ none
      → Attachable (root_of v app) p ps
      → (route [] (root_of v ready) (p ∷ (ps ++ rest))).endpoint
        ≡ (route [] (root_of v sub) rest).endpoint
  use_sub_app-route app sub ready prefix p ps rest v h e d a =
      let (m, made, same) =
        add_node_at_path-route (root_of v app) prefix p ps (root_of v sub) rest e d a in
      let mounted = use_sub_app-root_of app sub ready prefix h v in
      rw (some-injective _ _ (sym mounted ∙ made)) same

module _ {ρ ℓ σ κ} {R : Type ρ} {T : Type ℓ} {S : Type σ} {Response : Type κ}
    ⦃c : Context T Response⦄ ⦃r : ThrusterRequest R⦄ where
  -- After `use_middleware` at "/" in an app whose tree for the method of a request has no middleware
  -- there, the committed app answers the request, if its path is not internal and it ends at a
  -- value, by the middleware around the handler that the request had before.
  pub match_and_resolve-use_middleware :
      (app ready : App R T S) (m t : MiddlewareTuple T) (request : R)
      → commit (use_middleware app (codes "/") m) ≡ some ready
      → IsExternal (use_middleware app (codes "/") m) request
      → (fields (root_of (dispatched (r.method request)) app)).non_leaf_value ≡ none
      → (request_route app request).endpoint ≡ some t
      → match_and_resolve ⦃c = c⦄ ready request
        ≡ respond ⦃c = c⦄ app request (run (funcs m) (serve (request_route app request)))
  match_and_resolve-use_middleware app ready m t request h away bare ends =
      let v = dispatched (r.method request) in
      let app' = use_middleware app (codes "/") m in
      let pieces = request_pieces (r.path request) in
      match_and_resolve-route ⦃c = c⦄ app' ready request h away
      ∙ ap (λ n. respond ⦃c = c⦄ app' request (serve (route [] n pieces)))
          (root_of-use_middleware v app (codes "/") m)
      ∙ ap (λ k. respond ⦃c = c⦄ app' request k)
          (serve-add_non_leaf m t (root_of v app) pieces bare ends)
      ∙ unfold use_middleware in refl

  -- After `use_middleware` at any path, a request of an app with a well-formed tree for its method,
  -- whose path is not internal, passes the node of the path and ends at a value, is answered by the
  -- committed app with the middleware after what is attached before the node, in place of what the
  -- node had, and around the handler that the node without it has for the rest of the request.
  pub match_and_resolve-use_middleware_at :
      (app ready : App R T S) (path : Str) (m t : MiddlewareTuple T) (request : R) (k : Node T)
      (row : List (MiddlewareFnPointer T)) (rest : List Str)
      → commit (use_middleware app path m) ≡ some ready
      → IsExternal (use_middleware app path m) request
      → IsWellFormed (root_of (dispatched (r.method request)) app)
      → Passes
          (root_of (dispatched (r.method request)) app)
          (route_pieces path)
          (request_pieces (r.path request))
          row
          k
          rest
      → (route [] k rest).endpoint ≡ some t
      → match_and_resolve ⦃c = c⦄ ready request
        ≡ respond ⦃c = c⦄ app request (run row (run (funcs m) (serve (route [] (detached k) rest))))
  unfolding add_non_leaf_value_at_path
  match_and_resolve-use_middleware_at app ready path m t request k row rest h away wf passes ends =
      let v = dispatched (r.method request) in
      let app' = use_middleware app path m in
      let pieces = request_pieces (r.path request) in
      match_and_resolve-route ⦃c = c⦄ app' ready request h away
      ∙ ap (λ n. respond ⦃c = c⦄ app' request (serve (route [] n pieces)))
          (root_of-use_middleware v app path m)
      ∙ ap (respond ⦃c = c⦄ app' request)
          (serve-attach_at m t (root_of v app) k (route_pieces path) pieces rest row wf passes
            ends).0
      ∙ unfold use_middleware in refl
