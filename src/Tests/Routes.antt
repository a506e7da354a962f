-- ===== src/Tests/Routes.antt =====
-- The route tree: the tests of thruster/src/parser/tree.rs, and the theorems at such trees.
use fanta.Prelude.{ℕ, ◌≡◌, refl, [], ◌∷◌, ◌++◌, Option, none, some, ok, ◌>>=◌, true}
use mathlib.Core.List.{tail}
use fanta.Text.{Str, codes, str_eq, split}
use fanta.Map.{get, insert}
use fanta.Middleware.{combine, middleware, MiddlewareResult, MiddlewareTuple}
use fanta.Tree.Node.{
  Node, node, vacant, nil, default, default_fields, find_child, remove_child, push, piece_of,
}
use fanta.Tree.Children.{IsWellFormed}
use fanta.Tree.Match.{get_value_at_path, get_value_at_split_path}
use fanta.Tree.Insert.{
  add_value_at_path, add_non_leaf_value_at_path, add_value_at_split_path, route_pieces, lead,
}
use fanta.Tree.Insert.Reaches.{Follows, arrive, exact, named, landing, route-add}
use fanta.Tree.Commit.{commit, commit_inner, enumerate, below}
use fanta.Tree.Commit.Fastmatch.{get_value_at_path-commit}
use fanta.Tree.Commit.Again.{commit-again}
use fanta.Tree.Route.{route, answer}
use fanta.Tree.Route.Refines.{commit-route}
use fanta.Tree.Print.{print, print_with_indentation, line}
use fanta.Tests.Sample.{answer_with, around_with, tree}

-- What the committed tree answers to a request path, for a context 0.
ask : Node ℕ → Str → Option (MiddlewareResult ℕ)
unfolding commit commit_inner get_value_at_path get_value_at_split_path add_value_at_path
    add_non_leaf_value_at_path route_pieces add_value_at_split_path split str_eq find_child
    remove_child push enumerate get insert middleware combine
ask n path = do m ← commit n; some ((get_value_at_path m path).value 0)

-- What the committed tree prints.
show : Node ℕ → Option Str
unfolding ask print print_with_indentation line
show n = do m ← commit n; some (print m)

pushes_middleware_down : ask tree (codes "/a/b") ≡ some (ok 3)
unfolding ask
pushes_middleware_down = refl

wildcard_path :
    ask (add_value_at_path default (codes "/a/*/c") (answer_with 1)) (codes "/a/b/c") ≡ some (ok 1)
unfolding ask
wildcard_path = refl

prefers_specificity :
    ask
      (add_value_at_path
        (add_value_at_path default (codes "/a/b/:c") (answer_with 1))
        (codes "/a/:d/e")
        (answer_with 2))
      (codes "/a/b/c")
    ≡ some (ok 1)
unfolding ask
prefers_specificity = refl

prints :
    show (
      add_value_at_path
        (add_value_at_path default (codes "a/b/c") (answer_with 1))
        (codes "a/b/d")
        (answer_with 2))
    ≡ some (
        codes "__root__: false (uncommitted)"
        ++ (b'\n' ∷ codes "    a: false (uncommitted)")
        ++ (b'\n' ∷ codes "        b: false (uncommitted)")
        ++ (b'\n' ∷ codes "            c: false (committed)")
        ++ (b'\n' ∷ codes "            d: false (committed)"))
unfolding show
prints = refl

-- The committed form of `tree`.
abbrev committed : Node ℕ
committed = elim (commit_inner tree none) [ some m ↦ m | none ↦ default ]

committed_lem : commit_inner tree none ≡ some committed
unfolding ask
committed_lem = refl

commit-route_example :
    get_value_at_split_path committed (codes "a" ∷ codes "b" ∷ [])
    ≡ answer (route [] tree (codes "a" ∷ codes "b" ∷ []))
commit-route_example = commit-route (codes "a" ∷ codes "b" ∷ []) tree committed none committed_lem

-- `commit` of `tree`, and the request path "/a/b" for it.
abbrev ready : Node ℕ
ready = elim (commit tree) [ some m ↦ m | none ↦ default ]

ready_lem : commit tree ≡ some ready
unfolding ask
ready_lem = refl

external : ¬ ((t : Str) × (codes "/a/b" ≡ below [] (piece_of tree) ++ t))
unfolding ask
external (t, e) = cc

get_value_at_path-commit_example :
    get_value_at_path ready (codes "/a/b")
    ≡ answer (route [] tree (tail (split b'/' (codes "/a/b"))))
get_value_at_path-commit_example =
    get_value_at_path-commit tree ready (codes "/a/b") ready_lem external

default-IsWellFormed : IsWellFormed (default {T = ℕ})
default-IsWellFormed = (tt, tt)

-- The pattern "x/:id" and a request that follows it.
id-Follows : Follows (default {T = ℕ}) (codes "x" ∷ codes ":id" ∷ []) (codes "x" ∷ codes "7" ∷ [])
unfolding ask lead
id-Follows = exact refl refl (named refl refl arrive)

route-add_example :
    route []
      (add_value_at_split_path default (codes "x" ∷ codes ":id" ∷ []) (answer_with 1) true)
      (codes "x" ∷ codes "7" ∷ [])
    ≡ landing (answer_with 1) [] default (codes "x" ∷ codes ":id" ∷ []) (codes "x" ∷ codes "7" ∷ [])
route-add_example = route-add (answer_with 1) [] default-IsWellFormed id-Follows

-- A root with middleware and a value.
abbrev small : Node ℕ
small =
    node
      (record default_fields {
        value = some (answer_with 1);
        non_leaf_value = some (around_with 2);
      })
      vacant nil

abbrev both : MiddlewareTuple ℕ
both = elim (combine (around_with 2) (answer_with 1)) [ some t ↦ t | none ↦ answer_with 0 ]

both_lem : combine (around_with 2) (answer_with 1) ≡ some both
unfolding ask
both_lem = refl

commit-again_example :
    (k : Node ℕ) × (commit ready ≡ some k)
    × (get_value_at_path k (codes "/a/b") ≡ get_value_at_path ready (codes "/a/b"))
commit-again_example = commit-again tree ready (codes "/a/b") ready_lem external
