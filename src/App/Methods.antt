-- ===== src/App/Methods.antt =====
-- Which tree a request method and a registration concern.
use fanta.Prelude.{◌≡◌, refl, ◌≢◌, some, arith, if◌then◌else◌, >>=-eq-some}
use mathlib.Core.Option.{some-injective}
use fanta.Text.{Str, codes, str_eq}
use fanta.Middleware.{MiddlewareTuple}
use fanta.Tree.Node.{Node}
use fanta.Tree.Match.{get_value_at_path}
use fanta.Tree.Insert.{add_value_at_path}
use fanta.Tree.Commit as TreeCommit
use fanta.App
use fanta.App.{App, commit, resolve_from_method_and_path}

-- The six trees of an `App`.
pub data Verb : Type 0 where
  verb_get verb_options verb_post verb_put verb_delete verb_patch : Verb

-- The tree for a request method; every method that is not listed has that of `GET`.
unfoldable pub dispatched : Str → Verb
dispatched method =
    if str_eq method (codes "OPTION")
    then verb_options
    else if str_eq method (codes "POST")
    then verb_post
    else if str_eq method (codes "PUT")
    then verb_put
    else if str_eq method (codes "DELETE")
    then verb_delete
    else if str_eq method (codes "PATCH")
    then verb_patch
    else verb_get

module _ {ρ ℓ σ} {R : Type ρ} {T : Type ℓ} {S : Type σ} where
  abbrev pub root_of : Verb → App R T S → Node T
  root_of verb_get app = app.get_root
  root_of verb_options app = app.options_root
  root_of verb_post app = app.post_root
  root_of verb_put app = app.put_root
  root_of verb_delete app = app.delete_root
  root_of verb_patch app = app.patch_root

  -- `app.get(path, m)`, `app.options(path, m)` and so on.
  abbrev pub register : Verb → App R T S → Str → MiddlewareTuple T → App R T S
  register verb_get = App.get
  register verb_options = App.options
  register verb_post = App.post
  register verb_put = App.put
  register verb_delete = App.delete
  register verb_patch = App.patch

  -- A request is looked up in the tree of its method.
  pub resolve-dispatched :
      (app : App R T S) (method path : Str)
      → resolve_from_method_and_path app method path
        ≡ get_value_at_path (root_of (dispatched method) app) path
  unfolding resolve_from_method_and_path dispatched
  resolve-dispatched app method path = ground arith

  -- A registration adds the value to the tree of its method.
  pub root_of-register :
      (v : Verb) (app : App R T S) (path : Str) (m : MiddlewareTuple T)
      → root_of v (register v app path m) ≡ add_value_at_path (root_of v app) path m
  unfolding App.get App.options App.post App.put App.delete App.patch
  root_of-register verb_get app path m = refl
  root_of-register _ app path m = refl

  pub root_of-register_ne :
      (u v : Verb) (app : App R T S) (path : Str) (m : MiddlewareTuple T)
      → u ≢ v
      → root_of u (register v app path m) ≡ root_of u app
  unfolding App.get App.options App.post App.put App.delete App.patch
  root_of-register_ne verb_get verb_get app path m n = absurd (n refl)
  root_of-register_ne verb_options verb_options app path m n = absurd (n refl)
  root_of-register_ne verb_post verb_post app path m n = absurd (n refl)
  root_of-register_ne verb_put verb_put app path m n = absurd (n refl)
  root_of-register_ne verb_delete verb_delete app path m n = absurd (n refl)
  root_of-register_ne verb_patch verb_patch app path m n = absurd (n refl)
  root_of-register_ne _ _ app path m n = refl

  -- A request whose method has another tree than the registered method is resolved as before.
  pub resolve-register_ne :
      (v : Verb) (app : App R T S) (path : Str) (m : MiddlewareTuple T) (method request : Str)
      → dispatched method ≢ v
      → resolve_from_method_and_path (register v app path m) method request
        ≡ resolve_from_method_and_path app method request
  resolve-register_ne v app path m method request n = rw (
    resolve-dispatched (register v app path m) method request,
    resolve-dispatched app method request,
    root_of-register_ne (dispatched method) v app path m n,
  )

  -- A request with the method `OPTIONS` is looked up among the routes of `GET`, and a registration
  -- by `options` does not change its answer.
  pub options_unreachable :
      (app : App R T S) (path request : Str) (m : MiddlewareTuple T)
      → (resolve_from_method_and_path app (codes "OPTIONS") request
          ≡ resolve_from_method_and_path app (codes "GET") request)
        × (resolve_from_method_and_path (App.options app path m) (codes "OPTIONS") request
            ≡ resolve_from_method_and_path app (codes "OPTIONS") request)
  unfolding resolve_from_method_and_path App.options str_eq
  options_unreachable app path request m = (refl, refl)

  -- A committed app has the committed trees, and the generator and the state that it had.
  pub commit-root_of :
      (app ready : App R T S)
      → commit app ≡ some ready
      → ((v : Verb) → TreeCommit.commit (root_of v app) ≡ some (root_of v ready))
        × (ready.context_generator ≡ app.context_generator)
        × (ready.state ≡ app.state)
  unfolding commit
  commit-root_of app ready h =
      let (a, ea, h1) = >>=-eq-some (TreeCommit.commit app.get_root) _ h in
      let (b, eb, h2) = >>=-eq-some (TreeCommit.commit app.options_root) _ h1 in
      let (c, ec, h3) = >>=-eq-some (TreeCommit.commit app.post_root) _ h2 in
      let (d, ed, h4) = >>=-eq-some (TreeCommit.commit app.put_root) _ h3 in
      let (e, ee, h5) = >>=-eq-some (TreeCommit.commit app.delete_root) _ h4 in
      let (f, ef, h6) = >>=-eq-some (TreeCommit.commit app.patch_root) _ h5 in
      rw (← some-injective _ _ h6) (
        elim [
          | verb_get ↦ ea
          | verb_options ↦ eb
          | verb_post ↦ ec
          | verb_put ↦ ed
          | verb_delete ↦ ee
          | verb_patch ↦ ef
        ],
        refl,
        refl,
      )
