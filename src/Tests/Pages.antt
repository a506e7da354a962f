-- ===== src/Tests/Pages.antt =====
-- The programs of thruster/examples at concrete requests.
use fanta.Prelude.{zero, suc, length, ◌≡◌, refl, ok, some, none, Option, [], ◌∷◌, ◌++◌}
use fanta.Text.{Str, codes, str_eq, split}
use fanta.Text.Utf8.{from_utf8, decode_from, feed}
use fanta.Http.Slice.{index, take, drop, take-append, drop-append}
use fanta.Http.Request.{Request, new_request, text, slice}
use fanta.Tree.Insert.{
  add_value_at_path, add_non_leaf_value_at_path, add_value_at_split_path, route_pieces, lead,
}
use fanta.Tree.Node.{find_child, remove_child, push}
use fanta.App
use fanta.App.{App, commit, match_and_resolve}
use fanta.App.Methods.{dispatched}
use fanta.App.Serving.{IsExternal}
use fanta.Basic.{BasicContext, basic_context}
use fanta.Basic.Unmatched.{new_basic, basic_request}
use fanta.Examples.ErrorHandling.{
  Error, invalid_id, file_not_found, Downcast, errors_app, json_message,
}
use fanta.Examples.ErrorHandling.Answers.{page, errors_app-answers}

-- Boxes that begin with what they are boxes of, or with the length of the first text.
abbrev boxed : Error → Str
boxed (invalid_id id) = 0 ∷ id
boxed (file_not_found filename source) = suc (length filename) ∷ (filename ++ source)

abbrev unboxed : Str → Option Error
unboxed [] = none
unboxed (zero ∷ s) = some (invalid_id s)
unboxed (suc n ∷ s) = some (file_not_found (take n s) (drop n s))

unboxed-boxed : (e : Error) → unboxed (boxed e) ≡ some e
unboxed-boxed (invalid_id id) = refl
unboxed-boxed (file_not_found filename source) =
    rw (take-append filename source, drop-append filename source) refl

abbrev boxes : Downcast
boxes = record { boxed = boxed; downcast = unboxed; downcast-boxed = unboxed-boxed }

-- GET /error/7
abbrev error_request : Request
error_request = record new_request {
  buffer = codes "GET /error/7";
  method = (0, 3);
  path = (4, 12);
}

opened : App {0, 0, 0} Request BasicContext Unit
unfolding errors_app new_basic App.create App.use_middleware App.get App.set404 add_value_at_path
    add_non_leaf_value_at_path route_pieces add_value_at_split_path lead split str_eq find_child
    remove_child push text slice index take drop from_utf8 decode_from feed dispatched
opened = errors_app boxes

error-IsExternal : IsExternal (errors_app boxes) error_request
unfolding opened
error-IsExternal (t, e) = cc

errors_app-answers_example :
    (ready : App {0, 0, 0} Request BasicContext Unit) × ((commit (errors_app boxes) ≡ some ready)
      × (match_and_resolve ⦃c = basic_context⦄ ready error_request
          ≡ ok (page 400 (json_message (codes "Could not parse id: Hello, world")))))
unfolding opened
errors_app-answers_example =
    errors_app-answers boxes error_request (codes "error") (codes "7" ∷ []) refl error-IsExternal
      refl
