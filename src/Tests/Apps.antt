-- ===== src/Tests/Apps.antt =====
-- `App`: the theorems at an app over a number as the context.
use fanta.Prelude.{ℕ, ◌+◌, ◌∷◌, arith, ◌↔◌, ◌≡◌, refl, [], none, some, ok, Result, IoError}
use fanta.Text.{codes, str_eq, split}
use fanta.Map.{get as map_get, insert}
use fanta.Middleware.{MiddlewareFnPointer, MiddlewareTuple, tuple, combine, middleware}
use fanta.Tree.Node.{find_child, remove_child, push}
use fanta.Tree.Children.{IsWellFormed}
use fanta.Tree.Match.{get_value_at_path, get_value_at_split_path}
use fanta.Tree.Insert.{
  add_value_at_path, add_non_leaf_value_at_path, add_value_at_split_path, route_pieces, lead,
}
use fanta.Tree.Insert.Reaches.{Follows, arrive, exact, named, landing}
use fanta.Tree.Commit as TreeCommit
use fanta.Tree.Commit.{commit_inner, enumerate, below}
use fanta.Tree.Route.{route}
use fanta.App
use fanta.App.{App, commit, match_and_resolve, resolve, resolve_from_method_and_path}
use fanta.App.Methods.{Verb, verb_get, root_of, dispatched, options_unreachable}
use fanta.App.Built.{Built, created, registered, IsSound, Built-IsSound, commit-Built}
use fanta.Tree.Commit.Capacity.{Fits}
use fanta.App.Serving.{
  respond_at, request_route, request_pieces, IsExternal, match_and_resolve-route,
  match_and_resolve-registered,
}
use fanta.Text.Utf8.{from_utf8, decode_from, feed}
use fanta.Http.Slice.{index, take, drop}
use fanta.Http.Request.{text, slice}
use fanta.Basic.{basic_context}
use fanta.Basic.Unmatched.{new_basic, basic_request}
use fanta.Tests.Sample.{answer_with, Call, call_request, number_context, empty_app}

-- Opens what the runs below compute with.
opened : ℕ
unfolding commit TreeCommit.commit commit_inner get_value_at_path get_value_at_split_path
    add_value_at_path add_non_leaf_value_at_path route_pieces add_value_at_split_path split str_eq
    find_child remove_child push enumerate map_get insert middleware combine App.create App.get
    App.post App.set404 match_and_resolve route lead dispatched new_basic text slice index take drop
    from_utf8 decode_from feed
opened = 0

-- `match_and_resolve` with the number as response.
abbrev reply : App Call ℕ ℕ → Call → Result ℕ IoError
reply = match_and_resolve ⦃c = number_context⦄

-- GET /x/:id on an empty app.
abbrev app : App Call ℕ ℕ
app = App.get empty_app (codes "/x/:id") (answer_with 1)

abbrev ready : App Call ℕ ℕ
ready = elim (commit app) [ some a ↦ a | none ↦ empty_app ]

ready_lem : commit app ≡ some ready
unfolding opened
ready_lem = refl

-- Nine functions, at the root and at "/a", with no route: the commit panics.
abbrev nine : MiddlewareTuple ℕ
nine =
    let f : MiddlewareFnPointer ℕ = λ a next. next (a + 1) in
    tuple f (f ∷ f ∷ f ∷ f ∷ f ∷ f ∷ f ∷ f ∷ [])

abbrev crowded : App Call ℕ ℕ
crowded = App.use_middleware (App.use_middleware empty_app (codes "/") nine) (codes "/a") nine

crowded_panics : commit crowded ≡ none
unfolding opened App.use_middleware
crowded_panics = refl

abbrev call : Call
call = (codes "GET", codes "/x/7")

serves_id : reply ready call ≡ ok 1
unfolding opened
serves_id = refl

-- GET / and a handler for what is not found: the request "/" gets the latter.
abbrev root_app : App Call ℕ ℕ
root_app = App.set404 (App.get empty_app (codes "/") (answer_with 1)) (answer_with 404)

root_is_not_found :
    reply (elim (commit root_app) [ some a ↦ a | none ↦ empty_app ]) (codes "GET", codes "/")
    ≡ ok 404
unfolding opened
root_is_not_found = refl

external : IsExternal app call
unfolding opened
external (t, e) = cc

match_and_resolve-route_example :
    reply ready call ≡ respond_at ⦃c = number_context⦄ app call (request_route app call)
match_and_resolve-route_example =
    match_and_resolve-route ⦃c = number_context⦄ app ready call ready_lem external

empty-IsWellFormed : IsWellFormed empty_app.get_root
unfolding opened
empty-IsWellFormed = (tt, tt)

id-Follows :
    Follows empty_app.get_root (route_pieces (codes "/x/:id")) (request_pieces (codes "/x/7"))
unfolding opened
id-Follows = exact refl refl (named refl refl arrive)

match_and_resolve-registered_example :
    reply ready call
    ≡ respond_at ⦃c = number_context⦄ app call (
        landing
          (answer_with 1)
          []
          empty_app.get_root
          (route_pieces (codes "/x/:id"))
          (request_pieces (codes "/x/7")))
unfolding opened
match_and_resolve-registered_example =
    match_and_resolve-registered ⦃c = number_context⦄ empty_app ready (codes "/x/:id")
      (answer_with 1) call empty-IsWellFormed ready_lem external id-Follows

options_unreachable_example :
    (resolve_from_method_and_path app (codes "OPTIONS") (codes "/y")
      ≡ resolve_from_method_and_path app (codes "GET") (codes "/y"))
    × (resolve_from_method_and_path
          (App.options app (codes "/y") (answer_with 9))
          (codes "OPTIONS")
          (codes "/y")
        ≡ resolve_from_method_and_path app (codes "OPTIONS") (codes "/y"))
options_unreachable_example = options_unreachable app (codes "/y") (codes "/y") (answer_with 9)

app-Built : Built app
app-Built =
    registered empty_app verb_get (codes "/x/:id") (answer_with 1) (omega arith)
      (created (λ request state path. state) 0)

Built-IsSound_example : IsSound app.get_root
Built-IsSound_example = Built-IsSound app-Built verb_get

commit-Built_example :
    ((k : App Call ℕ ℕ) × (commit app ≡ some k)) ↔ ((v : Verb) → Fits 0 (root_of v app))
commit-Built_example = commit-Built app-Built
