-- ===== src/Tests/Nested.antt =====
-- The program of thruster/examples/nesting.rs at a request for the mounted app.
use fanta.Prelude.{ℕ, ◌≡◌, refl, Option, some, [], ◌∷◌, ok, arith, ap}
use fanta.Text.{Str, codes, str_eq, split}
use fanta.Tree.Node.{find_child, remove_child, push}
use fanta.Tree.Insert.{add_value_at_path, add_value_at_split_path, route_pieces, lead}
use fanta.Tree.Graft.{
  add_node_at_path, attach, get_node_at_split_path, write_at_split_path, modify_child,
}
use fanta.App
use fanta.App.{commit, use_sub_app, match_and_resolve}
use fanta.App.Methods.{dispatched}
use fanta.App.Serving.{IsExternal}
use fanta.Hyper.{HyperRequest, new_hyper_request}
use fanta.Hyper.Service.{Named, hyper_thruster_request}
use fanta.Tests.Hypers.{Headers, list_headers, list_hyper}
use fanta.Examples.Nesting.{nesting_context, nested_app, app, nesting_app, Nesting}
use fanta.Examples.Nesting.Answers.{mounted, page, nesting_app-answers}

-- A request is its URI, by GET.
instance abbrev named : Named Str
named = record { method_of = λ r. codes "GET"; uri_of = λ r. r }

abbrev nested_request : HyperRequest Str Str Str
nested_request = new_hyper_request (codes "/nested/plaintext")

opened : Option (Nesting Str Str Str Headers)
unfolding nesting_app app nested_app App.create App.get use_sub_app add_value_at_path
    add_node_at_path route_pieces add_value_at_split_path lead split str_eq find_child remove_child
    push attach get_node_at_split_path write_at_split_path modify_child dispatched
opened = nesting_app Str Str Str Headers

abbrev second : Str → ℕ
second (_ ∷ c ∷ _) = c
second _ = 0

nested-IsExternal : IsExternal (mounted Str Str Str Headers) nested_request
unfolding opened
nested-IsExternal (t, e) = let d : ◌≡◌ {A = ℕ} 110 95 = ap second e in omega arith

nesting_app-answers_example :
    (nesting_app Str Str Str Headers ≡ some (mounted Str Str Str Headers))
    × ((ready : Nesting Str Str Str Headers) × ((commit (mounted Str Str Str Headers) ≡ some ready)
          × (match_and_resolve ⦃c = nesting_context Str Str Str Headers⦄ ready nested_request
              ≡ ok (
                  some (
                    page list_hyper
                      ((codes "server", codes "thruster") ∷ [])
                      (some (codes "(nested) Hello, World!")))))))
unfolding opened
nesting_app-answers_example =
    nesting_app-answers Str Str Str Headers nested_request ((codes "server", codes "thruster") ∷ [])
      (codes "nested" ∷ codes "plaintext" ∷ []) refl refl nested-IsExternal refl
