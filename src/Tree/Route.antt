-- ===== src/Tree/Route.antt =====
-- The route resolution of ROUTE_RESOLUTION.md on the tree as it was built: walk down the pieces of
-- the request, and gather the middleware that is attached on the way. Nothing is committed.
pub mod Steps
pub mod Refines
pub mod Gathering
pub mod Around
use fanta.Prelude.{Option, none, some, List, [], ◌∷◌, ◌++◌}
use fanta.Text.{Str}
use fanta.Middleware.{Handler, MiddlewareFnPointer, MiddlewareTuple, funcs}
use fanta.Middleware.Chain.{run, finish}
use fanta.Tree.Params.{Params, no_params, add}
use fanta.Tree.Node.{Fields, Node, node, Children, as_ref, find_child, NodeOutput}

-- Where the walk ends: the functions gathered, the value of the last node, what the last node
-- answers if it has no value, and the parameters.
pub record Route {ℓ} (T : Type ℓ) : Type ℓ where
  pub gathered : List (MiddlewareFnPointer T)
  pub endpoint : Option (MiddlewareTuple T)
  pub fallback : Handler T
  pub params : Params

module _ {ℓ} {T : Type ℓ} where
  abbrev pub attached : Option (MiddlewareTuple T) → List (MiddlewareFnPointer T)
  attached none = []
  attached (some t) = funcs t

  abbrev pub end_at : List (MiddlewareFnPointer T) → Fields T → Route T
  end_at gathered f = record {
    gathered = gathered;
    endpoint = f.value;
    fallback = f.committed_middleware;
    params = no_params;
  }

  abbrev pub bind_param : Option Str → Str → Route T → Route T
  bind_param none piece r = r
  bind_param (some name) piece r = record r { params = add r.params name piece }

  unfoldable pub route : List (MiddlewareFnPointer T) → Node T → List Str → Route T
  route gathered (node f w cs) [] = end_at (gathered ++ attached f.non_leaf_value) f
  route gathered (node f w cs) (piece ∷ path) =
      let gathered' = gathered ++ attached f.non_leaf_value in
      elim (find_child piece cs) [
        | some child ↦ bind_param f.param_name piece (route gathered' child path)
        | none ↦ elim (as_ref w) [
          | some n ↦ bind_param f.param_name piece (route gathered' n path)
          | none ↦ end_at gathered' f
        ]
      ]

  -- The handler of a route: the gathered functions in order, then those of the endpoint.
  abbrev pub serve : Route T → Handler T
  serve r = elim r.endpoint [ some t ↦ run (r.gathered ++ funcs t) finish | none ↦ r.fallback ]

  abbrev pub answer : Route T → NodeOutput T
  answer r = record { value = serve r; params = r.params; path = [] }
