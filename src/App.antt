-- ===== src/App.antt =====
-- thruster/src/app/thruster_app.rs: `App`. `none` is a panic of the route tree.
pub mod Methods
pub mod Serving
pub mod NotFound
pub mod Using
pub mod Query
pub mod Built
use fanta.Prelude.{Option, none, some, if◌then◌else◌, ◌>>=◌, Result, ok, err, IoError}
use fanta.Text.{Str, codes, str_eq}
use fanta.Context.{Context, ThrusterRequest}
use fanta.Middleware.{MiddlewareResult, MiddlewareTuple, ThrusterError}
use fanta.Tree.Node.{Node, default, NodeOutput}
use fanta.Tree.Match.{get_value_at_path}
use fanta.Tree.Insert.{add_value_at_path, add_non_leaf_value_at_path}
use fanta.Tree.Commit as TreeCommit
use fanta.Tree.Graft.{add_node_at_path}

pub record App {ρ ℓ σ} (R : Type ρ) (T : Type ℓ) (S : Type σ) : Type (ρ ⊔ ℓ ⊔ σ) where
  pub delete_root : Node T
  pub get_root : Node T
  pub options_root : Node T
  pub post_root : Node T
  pub put_root : Node T
  pub patch_root : Node T
  pub context_generator : R → S → Str → T
  pub state : S

-- `Ok(val) => val, Err(e) => e.context`
abbrev pub context_of {ℓ} : {T : Type ℓ} → MiddlewareResult T → T
context_of (ok val) = val
context_of (err e) = e.context

module _ {ρ ℓ σ} {R : Type ρ} {T : Type ℓ} {S : Type σ} where
  unfoldable pub create : (R → S → Str → T) → S → App R T S
  create generate_context state = record {
    delete_root = default;
    get_root = default;
    options_root = default;
    post_root = default;
    put_root = default;
    patch_root = default;
    context_generator = generate_context;
    state = state;
  }

  -- Writes to each of the six trees.
  abbrev each_root : (Node T → Node T) → App R T S → App R T S
  each_root g app = record app {
    get_root = g app.get_root;
    options_root = g app.options_root;
    post_root = g app.post_root;
    put_root = g app.put_root;
    delete_root = g app.delete_root;
    patch_root = g app.patch_root;
  }

  unfoldable pub use_middleware : App R T S → Str → MiddlewareTuple T → App R T S
  use_middleware app path middlewares =
      each_root (λ root. add_non_leaf_value_at_path root path middlewares) app

  unfoldable pub use_sub_app : App R T S → Str → App R T S → Option (App R T S)
  use_sub_app app prefix sub = do
    get_root ← add_node_at_path app.get_root prefix sub.get_root
    options_root ← add_node_at_path app.options_root prefix sub.options_root
    post_root ← add_node_at_path app.post_root prefix sub.post_root
    put_root ← add_node_at_path app.put_root prefix sub.put_root
    delete_root ← add_node_at_path app.delete_root prefix sub.delete_root
    patch_root ← add_node_at_path app.patch_root prefix sub.patch_root
    some (record app {
      get_root = get_root;
      options_root = options_root;
      post_root = post_root;
      put_root = put_root;
      delete_root = delete_root;
      patch_root = patch_root;
    })

  unfoldable pub get : App R T S → Str → MiddlewareTuple T → App R T S
  get app path middlewares = record app {
    get_root = add_value_at_path app.get_root path middlewares;
  }

  unfoldable pub options : App R T S → Str → MiddlewareTuple T → App R T S
  options app path middlewares = record app {
    options_root = add_value_at_path app.options_root path middlewares;
  }

  unfoldable pub post : App R T S → Str → MiddlewareTuple T → App R T S
  post app path middlewares = record app {
    post_root = add_value_at_path app.post_root path middlewares;
  }

  unfoldable pub put : App R T S → Str → MiddlewareTuple T → App R T S
  put app path middlewares = record app {
    put_root = add_value_at_path app.put_root path middlewares;
  }

  unfoldable pub delete : App R T S → Str → MiddlewareTuple T → App R T S
  delete app path middlewares = record app {
    delete_root = add_value_at_path app.delete_root path middlewares;
  }

  unfoldable pub patch : App R T S → Str → MiddlewareTuple T → App R T S
  patch app path middlewares = record app {
    patch_root = add_value_at_path app.patch_root path middlewares;
  }

  unfoldable pub set404 : App R T S → MiddlewareTuple T → App R T S
  set404 app middlewares = each_root (λ root. add_value_at_path root (codes "/*") middlewares) app

  unfoldable pub commit : App R T S → Option (App R T S)
  commit app = do
    get_root ← TreeCommit.commit app.get_root
    options_root ← TreeCommit.commit app.options_root
    post_root ← TreeCommit.commit app.post_root
    put_root ← TreeCommit.commit app.put_root
    delete_root ← TreeCommit.commit app.delete_root
    patch_root ← TreeCommit.commit app.patch_root
    some (record app {
      get_root = get_root;
      options_root = options_root;
      post_root = post_root;
      put_root = put_root;
      delete_root = delete_root;
      patch_root = patch_root;
    })

  unfoldable pub resolve_from_method_and_path : App R T S → Str → Str → NodeOutput T
  resolve_from_method_and_path app method path =
      if str_eq method (codes "OPTION")
      then get_value_at_path app.options_root path
      else if str_eq method (codes "POST")
      then get_value_at_path app.post_root path
      else if str_eq method (codes "PUT")
      then get_value_at_path app.put_root path
      else if str_eq method (codes "DELETE")
      then get_value_at_path app.delete_root path
      else if str_eq method (codes "PATCH")
      then get_value_at_path app.patch_root path
      else get_value_at_path app.get_root path

module _ {ρ ℓ σ κ} {R : Type ρ} {T : Type ℓ} {S : Type σ} {Response : Type κ}
    ⦃c : Context T Response⦄ where
  -- `resolve` and `_resolve`
  unfoldable pub resolve : App R T S → R → NodeOutput T → Result Response IoError
  resolve app request matched_route =
      let context = app.context_generator request app.state matched_route.path in
      ok (c.get_response (context_of (matched_route.value context)))

module _ {ρ ℓ σ κ} {R : Type ρ} {T : Type ℓ} {S : Type σ} {Response : Type κ}
    ⦃c : Context T Response⦄ ⦃r : ThrusterRequest R⦄ where
  unfoldable pub match_and_resolve : App R T S → R → Result Response IoError
  match_and_resolve app request =
      let method = r.method request in
      let path = r.path request in
      let matched : NodeOutput T =
        if str_eq method (codes "OPTION")
        then get_value_at_path app.options_root path
        else if str_eq method (codes "POST")
        then get_value_at_path app.post_root path
        else if str_eq method (codes "PUT")
        then get_value_at_path app.put_root path
        else if str_eq method (codes "DELETE")
        then get_value_at_path app.delete_root path
        else if str_eq method (codes "PATCH")
        then get_value_at_path app.patch_root path
        else get_value_at_path app.get_root path in
      let context = app.context_generator request app.state matched.path in
      ok (c.get_response (context_of (matched.value context)))
