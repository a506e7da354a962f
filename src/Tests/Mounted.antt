-- ===== src/Tests/Mounted.antt =====
-- Apps that use middleware, mount other apps, and the app of `App::new_basic`.
use fanta.Prelude.{ℕ, ◌≡◌, refl, [], ◌∷◌, none, some, ok, Result, IoError}
use fanta.Text.{codes, str_eq, split}
use fanta.Map.{get as map_get, insert}
use fanta.Middleware.{combine, middleware}
use fanta.Tree.Node.{find_child, remove_child, push}
use fanta.Tree.Match.{get_value_at_path, get_value_at_split_path}
use fanta.Tree.Insert.{
  add_value_at_path, add_non_leaf_value_at_path, add_value_at_split_path, route_pieces, lead,
  literal,
}
use fanta.Tree.Commit as TreeCommit
use fanta.Tree.Commit.{commit_inner, enumerate, below}
use fanta.Tree.Route.{route}
use fanta.App
use fanta.App.{App, commit, match_and_resolve, resolve, resolve_from_method_and_path}
use fanta.App.Methods.{dispatched, root_of}
use fanta.App.Serving.{request_route, request_pieces, IsExternal}
use fanta.Tree.Route.Around.{Passes, here, by_child, detached}
use fanta.Tree.Children.{IsWellFormed}
use fanta.Text.Utf8.{from_utf8, decode_from, feed}
use fanta.Http.Slice.{index, take, drop}
use fanta.Http.Request.{text, slice}
use fanta.Basic.{basic_context}
use fanta.Basic.Unmatched.{new_basic, basic_request}
use fanta.Middleware.{funcs}
use fanta.Middleware.Chain.{run}
use fanta.Tree.Node.{Node, children}
use fanta.Tree.Graft.{
  add_node_at_path, get_node_at_split_path, attach, modify_child, write_at_split_path,
}
use fanta.Tree.Graft.Attach.{Attachable, last, fresh}
use fanta.Tree.Route.{serve}
use fanta.App.Methods.{verb_get}
use fanta.App.Serving.{respond, respond_at}
use fanta.App.Query.{match_and_resolve-query}
use fanta.Text.Split.{Lacks_of_lacks}
use fanta.App.Using.{match_and_resolve-use_middleware_at, use_sub_app-route}
use fanta.Tests.Sample.{around_with, answer_with, Call, call_request, number_context, empty_app}

-- Opens what the runs below compute with.
opened : ℕ
unfolding App.use_middleware App.use_sub_app add_node_at_path get_node_at_split_path attach
    modify_child write_at_split_path commit TreeCommit.commit commit_inner get_value_at_path
    get_value_at_split_path add_value_at_path add_non_leaf_value_at_path route_pieces
    add_value_at_split_path split str_eq find_child remove_child push enumerate map_get insert
    middleware combine App.create App.get App.post App.set404 match_and_resolve route lead
    dispatched new_basic text slice index take drop from_utf8 decode_from feed
opened = 0

-- `match_and_resolve` with the number as response.
abbrev reply : App Call ℕ ℕ → Call → Result ℕ IoError
reply = match_and_resolve ⦃c = number_context⦄

-- GET /x/:id on an empty app.
abbrev app : App Call ℕ ℕ
app = App.get empty_app (codes "/x/:id") (answer_with 1)

abbrev call : Call
call = (codes "GET", codes "/x/7")

-- `app` with a middleware at "/x", around the route that is below.
abbrev used : App Call ℕ ℕ
used = App.use_middleware app (codes "/x") (around_with 2)

abbrev used_ready : App Call ℕ ℕ
used_ready = elim (commit used) [ some a ↦ a | none ↦ empty_app ]

used_ready_lem : commit used ≡ some used_ready
unfolding opened
used_ready_lem = refl

used-IsExternal : IsExternal used call
unfolding opened
used-IsExternal (t, e) = cc

app-IsWellFormed : IsWellFormed (root_of (dispatched (codes "GET")) app)
unfolding opened
app-IsWellFormed = (tt, (refl, ((tt, tt), tt), tt))

-- The node of "x", with a wildcard below.
abbrev node_x : Node ℕ
node_x = elim (find_child (codes "x") (children app.get_root)) [ some n ↦ n | none ↦ app.get_root ]

x-Passes :
    Passes
      (root_of (dispatched (codes "GET")) app)
      (route_pieces (codes "/x"))
      (request_pieces (codes "/x/7"))
      []
      node_x
      (codes "7" ∷ [])
unfolding opened
x-Passes = by_child refl refl refl here

ends_at_id : (route [] node_x (codes "7" ∷ [])).endpoint ≡ some (answer_with 1)
unfolding opened
ends_at_id = refl

match_and_resolve-use_middleware_at_example :
    reply used_ready call
    ≡ respond ⦃c = number_context⦄ app call
        (run (funcs (around_with 2)) (serve (route [] (detached node_x) (codes "7" ∷ []))))
match_and_resolve-use_middleware_at_example =
    match_and_resolve-use_middleware_at ⦃c = number_context⦄ app used_ready (codes "/x")
      (around_with 2) (answer_with 1) call node_x [] (codes "7" ∷ []) used_ready_lem used-IsExternal
      app-IsWellFormed x-Passes ends_at_id

-- An app with one route, mounted at "/x/y".
abbrev sub_app : App Call ℕ ℕ
sub_app = App.get empty_app (codes "/d") (answer_with 2)

abbrev mounted : App Call ℕ ℕ
mounted = elim (App.use_sub_app empty_app (codes "/x/y") sub_app) [ some a ↦ a | none ↦ empty_app ]

mounted_lem : App.use_sub_app empty_app (codes "/x/y") sub_app ≡ some mounted
unfolding opened
mounted_lem = refl

pieces_x_y : route_pieces (codes "/x/y") ≡ codes "x" ∷ codes "y" ∷ []
unfolding opened
pieces_x_y = refl

missing : get_node_at_split_path empty_app.get_root (codes "x" ∷ codes "y" ∷ []) ≡ none
unfolding opened
missing = refl

attachable : Attachable empty_app.get_root (codes "x") (codes "y" ∷ [])
unfolding opened
attachable = fresh (last refl)

use_sub_app-route_example :
    (route [] mounted.get_root (codes "x" ∷ codes "y" ∷ codes "d" ∷ [])).endpoint
    ≡ (route [] sub_app.get_root (codes "d" ∷ [])).endpoint
use_sub_app-route_example =
    use_sub_app-route empty_app sub_app mounted (codes "/x/y") (codes "x") (codes "y" ∷ [])
      (codes "d" ∷ []) verb_get mounted_lem pieces_x_y missing attachable

-- GET /x, asked for with a query.
abbrev queried : App Call ℕ ℕ
queried = App.get empty_app (codes "/x") (answer_with 1)

abbrev queried_ready : App Call ℕ ℕ
queried_ready = elim (commit queried) [ some a ↦ a | none ↦ empty_app ]

queried_ready_lem : commit queried ≡ some queried_ready
unfolding opened
queried_ready_lem = refl

abbrev query_call : Call
query_call = (codes "GET", codes "/x?y=1")

query-IsExternal : IsExternal queried query_call
unfolding opened
query-IsExternal (t, e) = cc

empty-IsWellFormed : IsWellFormed (root_of (dispatched (codes "GET")) empty_app)
unfolding opened
empty-IsWellFormed = (tt, tt)

x_is_literal : lead (codes "x") ≡ literal
unfolding opened
x_is_literal = refl

-- Without the query the route answers 1, and with it the context comes back as it was made.
without_query : reply queried_ready (codes "GET", codes "/x") ≡ ok 1
unfolding opened
without_query = refl

with_query : reply queried_ready query_call ≡ ok 0
unfolding opened
with_query = refl

match_and_resolve-query_example :
    reply queried_ready query_call
    ≡ respond_at ⦃c = number_context⦄ empty_app query_call (request_route empty_app query_call)
unfolding opened
match_and_resolve-query_example =
    match_and_resolve-query ⦃k = number_context⦄ empty_app queried_ready b'x' [] (codes "y=1")
      (answer_with 1) query_call empty-IsWellFormed x_is_literal
      (Lacks_of_lacks b'/' (codes "x") refl) refl queried_ready_lem query-IsExternal
