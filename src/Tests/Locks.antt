-- ===== src/Tests/Locks.antt =====
-- The program of thruster/examples/mutable_state.rs at three requests.
use fanta.Prelude.{ℕ, arith, ap, ◌≡◌, refl, Option, some, none, inr, [], ◌∷◌}
use fanta.Text.{Str, codes, str_eq, split}
use fanta.Text.Utf8.{Bytes}
use fanta.Tree.Node.{find_child, remove_child, push}
use fanta.Tree.Insert.{
  add_value_at_path, add_non_leaf_value_at_path, add_value_at_split_path, route_pieces, lead,
}
use fanta.App
use fanta.App.{App, commit}
use fanta.App.Methods.{dispatched}
use fanta.Hyper.Service.{Named}
use fanta.Tests.Hypers.{Headers, list_headers, list_hyper}
use fanta.Examples.MutableState.{mutable_app, original, serve_all}
use fanta.Examples.MutableState.Poisoned.{Ready, IsSetter, IsGetter, shows, poisoned, serve_all-set}

-- A request is its URI, by GET.
instance abbrev named : Named Str
named = record { method_of = λ r. codes "GET"; uri_of = λ r. r }

abbrev get_value : Str × Option Bytes
get_value = (codes "/get-value", none)

abbrev set_value : Str × Option Bytes
set_value = (codes "/set-value/7", none)

opened : Ready Str Str Str Headers
unfolding mutable_app App.create App.get add_value_at_path add_non_leaf_value_at_path route_pieces
    add_value_at_split_path lead split str_eq find_child remove_child push dispatched
opened = mutable_app Str Str Str Headers original

abbrev second : Str → ℕ
second (_ ∷ c ∷ _) = c
second _ = 0

get_value-IsGetter : IsGetter Str Str Str Headers get_value
unfolding opened
get_value-IsGetter = ([], (refl, ((λ (t, e). let d : 103 ≡ 95 = ap second e in omega arith), refl)))

set_value-IsSetter : IsSetter Str Str Str Headers set_value
unfolding opened
set_value-IsSetter =
    (codes "7", ([], (refl, ((λ (t, e). let d : 115 ≡ 95 = ap second e in omega arith), refl))))

serve_all-set_example :
    (ready : Ready Str Str Str Headers) × ((commit (mutable_app Str Str Str Headers original)
        ≡ some ready)
      × (serve_all Str Str Str Headers ready original (get_value ∷ set_value ∷ get_value ∷ []) ≡ (
        some (shows list_hyper ((codes "Server", codes "Thruster") ∷ []) (codes "original"))
            ∷ none
            ∷ none
            ∷ [],
        poisoned original,
      )))
serve_all-set_example =
    serve_all-set Str Str Str Headers ((codes "Server", codes "Thruster") ∷ []) (get_value ∷ [])
      (get_value ∷ []) set_value refl (get_value-IsGetter, tt) set_value-IsSetter
      (inr get_value-IsGetter, tt)
