-- ===== src/Tests/Stated.antt =====
-- The program of thruster/examples/using_state.rs at a request.
use fanta.Prelude.{ℕ, ◌≡◌, refl, some, [], ◌∷◌, ok, arith, ap, inr}
use fanta.Text.{Str, codes, str_eq, split}
use fanta.Tree.Node.{find_child, remove_child, push}
use fanta.Tree.Insert.{add_value_at_path, add_value_at_split_path, route_pieces, lead}
use fanta.App
use fanta.App.{App, commit, match_and_resolve}
use fanta.App.Methods.{dispatched}
use fanta.App.Serving.{IsExternal}
use fanta.Hyper.{HyperRequest, new_hyper_request}
use fanta.Hyper.Service.{Named, hyper_thruster_request}
use fanta.Tests.Hypers.{Headers, list_headers, list_hyper}
use fanta.Examples.UsingState.{ServerConfig, Ctx, state_context, state_app}
use fanta.Examples.UsingState.Answers.{unplaced, state_app-unplaced}

-- A request is its URI, by GET.
instance abbrev named : Named Str
named = record { method_of = λ r. codes "GET"; uri_of = λ r. r }

abbrev b_request : HyperRequest Str Str Str
b_request = new_hyper_request (codes "/b/7")

abbrev State : Type 0
State = App {0, 0, 0} (HyperRequest Str Str Str) (Ctx Str Str Str Headers) ServerConfig

opened : State
unfolding state_app App.create App.get add_value_at_path route_pieces add_value_at_split_path lead
    split str_eq find_child remove_child push dispatched
opened = state_app Str Str Str Headers

abbrev second : Str → ℕ
second (_ ∷ c ∷ _) = c
second _ = 0

b-IsExternal : IsExternal (state_app Str Str Str Headers) b_request
unfolding opened
b-IsExternal (t, e) = let d : ◌≡◌ {A = ℕ} 98 95 = ap second e in omega arith

state_app-unplaced_example :
    (ready : State) × ((commit (state_app Str Str Str Headers) ≡ some ready)
      × (match_and_resolve ⦃c = state_context Str Str Str Headers⦄ ready b_request
          ≡ ok (some (unplaced list_hyper ((codes "Server", codes "Thruster") ∷ [])))))
unfolding opened
state_app-unplaced_example =
    state_app-unplaced Str Str Str Headers b_request ((codes "Server", codes "Thruster") ∷ [])
      (codes "b") (codes "7") [] refl (inr refl) refl b-IsExternal refl
