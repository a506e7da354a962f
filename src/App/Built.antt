-- ===== src/App/Built.antt =====
-- The apps that registrations build, as a step relation: what holds of all their trees.
use fanta.Prelude.{◌≡◌, refl, ◌≤◌, ◌↔◌, some, arith, true, false}
use fanta.Text.{Str, codes}
use fanta.Middleware.{MiddlewareTuple, max_arity, arity}
use fanta.Tree.Node.{Node, default}
use fanta.Tree.Children.{IsWellFormed}
use fanta.Tree.Insert.{add_value_at_path, add_non_leaf_value_at_path, route_pieces}
use fanta.Tree.Insert.Steps.{add_value_at_split_path-IsWellFormed}
use fanta.Tree.Insert.Arities.{add_value_at_split_path-HasArities}
use fanta.Tree.Commit as TreeCommit
use fanta.Tree.Commit.Capacity.{HasArities, Fits, commit-returns_iff}
use fanta.App
use fanta.App.{App, create, use_middleware, set404, commit}
use fanta.App.Methods.{
  Verb, verb_get, verb_options, verb_post, verb_put, verb_delete, verb_patch, root_of, register,
  commit-root_of,
}
use fanta.App.Using.{root_of-use_middleware}

-- The app was made by `create`, the registrations for a method, `use_middleware` and `set404`, with
-- middleware of the sizes that `MiddlewareTuple` has.
pub data Built {ρ ℓ σ} {R : Type ρ} {T : Type ℓ} {S : Type σ} : App R T S → Type (ρ ⊔ ℓ ⊔ σ) where
  created : (gen : R → S → Str → T) (state : S) → Built (create gen state)
  registered :
      (app : App R T S) (v : Verb) (path : Str) (m : MiddlewareTuple T)
      → arity m ≤ max_arity
      → Built app
      → Built (register v app path m)
  with_middleware :
      (app : App R T S) (path : Str) (m : MiddlewareTuple T)
      → arity m ≤ max_arity
      → Built app
      → Built (use_middleware app path m)
  with_404 :
      (app : App R T S) (m : MiddlewareTuple T)
      → arity m ≤ max_arity
      → Built app
      → Built (set404 app m)

-- No two children of a node share their piece, and each tuple is of a size that its type has.
abbrev pub IsSound {ℓ} : {T : Type ℓ} → Node T → Type ℓ
IsSound n = IsWellFormed n × HasArities n

add-IsSound {ℓ} :
    {T : Type ℓ} (n : Node T) (path : Str) (m : MiddlewareTuple T)
    → arity m ≤ max_arity
    → IsSound n
    → IsSound (add_value_at_path n path m) × IsSound (add_non_leaf_value_at_path n path m)
unfolding add_value_at_path add_non_leaf_value_at_path
add-IsSound n path m k (w, a) =
    let ps = route_pieces path in
    (
      (
        add_value_at_split_path-IsWellFormed n ps m true w,
        add_value_at_split_path-HasArities n ps m true k a,
      ),
      (
        add_value_at_split_path-IsWellFormed n ps m false w,
        add_value_at_split_path-HasArities n ps m false k a,
      ),
    )

module _ {ρ ℓ σ} {R : Type ρ} {T : Type ℓ} {S : Type σ} where
  root_of-create :
      (v : Verb) (gen : R → S → Str → T) (state : S) → root_of v (create gen state) ≡ default
  unfolding create
  root_of-create verb_get gen state = refl
  root_of-create verb_options gen state = refl
  root_of-create verb_post gen state = refl
  root_of-create verb_put gen state = refl
  root_of-create verb_delete gen state = refl
  root_of-create verb_patch gen state = refl

  root_of-set404 :
      (v : Verb) (app : App R T S) (m : MiddlewareTuple T)
      → root_of v (set404 app m) ≡ add_value_at_path (root_of v app) (codes "/*") m
  unfolding set404
  root_of-set404 verb_get app m = refl
  root_of-set404 verb_options app m = refl
  root_of-set404 verb_post app m = refl
  root_of-set404 verb_put app m = refl
  root_of-set404 verb_delete app m = refl
  root_of-set404 verb_patch app m = refl

  register-IsSound :
      (u v : Verb) (app : App R T S) (path : Str) (m : MiddlewareTuple T)
      → arity m ≤ max_arity
      → IsSound (root_of v app)
      → IsSound (root_of v (register u app path m))
  unfolding App.get App.options App.post App.put App.delete App.patch
  register-IsSound verb_get verb_get app path m k h = (add-IsSound app.get_root path m k h).0
  register-IsSound verb_options verb_options app path m k h =
      (add-IsSound app.options_root path m k h).0
  register-IsSound verb_post verb_post app path m k h = (add-IsSound app.post_root path m k h).0
  register-IsSound verb_put verb_put app path m k h = (add-IsSound app.put_root path m k h).0
  register-IsSound verb_delete verb_delete app path m k h =
      (add-IsSound app.delete_root path m k h).0
  register-IsSound verb_patch verb_patch app path m k h = (add-IsSound app.patch_root path m k h).0
  register-IsSound _ _ app path m k h = h

  -- Every tree of an app that registrations built is sound: no two children of a node share their
  -- path piece, and no tuple is larger than its type.
  pub Built-IsSound : {app : App R T S} → Built app → (v : Verb) → IsSound (root_of v app)
  Built-IsSound (created gen state) v =
      rw (root_of-create v gen state) ((tt, tt), (omega arith, omega arith, tt, tt))
  Built-IsSound (registered app u path m k b) v =
      register-IsSound u v app path m k (Built-IsSound b v)
  Built-IsSound (with_middleware app path m k b) v =
      rw (root_of-use_middleware v app path m)
        (add-IsSound (root_of v app) path m k (Built-IsSound b v)).1
  Built-IsSound (with_404 app m k b) v =
      rw (root_of-set404 v app m)
        (add-IsSound (root_of v app) (codes "/*") m k (Built-IsSound b v)).0

  commits :
      (app : App R T S)
      → ((v : Verb) → (m : Node T) × (TreeCommit.commit (root_of v app) ≡ some m))
      → (ready : App R T S) × (commit app ≡ some ready)
  unfolding commit
  commits app h =
      let (a, ea) = h verb_get in
      let (b, eb) = h verb_options in
      let (c, ec) = h verb_post in
      let (d, ed) = h verb_put in
      let (e, ee) = h verb_delete in
      let (f, ef) = h verb_patch in
      (
        record app {
          get_root = a;
          options_root = b;
          post_root = c;
          put_root = d;
          delete_root = e;
          patch_root = f;
        },
        rw (ea, eb, ec, ed, ee, ef) refl,
      )

  -- An app that registrations built can be committed exactly when, at each node of its trees, the
  -- middleware attached at the node and above it, with the value of the node if it has one, has at
  -- most sixteen functions. A node without a value counts too: where only the attached middleware of
  -- the nodes along a path has more, with no route there, the commit panics as well.
  pub commit-Built :
      {app : App R T S}
      → Built app
      → ((ready : App R T S) × (commit app ≡ some ready)) ↔ ((v : Verb) → Fits 0 (root_of v app))
  commit-Built {app} b = (
    λ r v.
        let (trees, _, _) = commit-root_of app (r.0) (r.1) in
        (commit-returns_iff (root_of v app) (Built-IsSound b v).1).0 (root_of v (r.0), trees v),
    λ fits.
        commits app (λ v. (commit-returns_iff (root_of v app) (Built-IsSound b v).1).1 (fits v)),
  )
