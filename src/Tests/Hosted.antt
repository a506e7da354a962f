-- ===== src/Tests/Hosted.antt =====
-- The app behind hyper.
use fanta.Prelude.{ℕ, ◌≡◌, refl, none, some, [], ◌∷◌, ok, Option}
use fanta.Text.{Str, codes, str_eq, split}
use fanta.Text.Utf8.{Bytes}
use fanta.Context.{Context}
use fanta.Map.{get as map_get, insert}
use fanta.Middleware.{MiddlewareTuple, tuple, combine, middleware}
use fanta.Tree.Node.{find_child, remove_child, push}
use fanta.Tree.Match.{get_value_at_path, get_value_at_split_path}
use fanta.Tree.Insert.{add_value_at_path, add_value_at_split_path, route_pieces, lead}
use fanta.Tree.Commit as TreeCommit
use fanta.Tree.Commit.{commit_inner, enumerate}
use fanta.Tree.Route.{route}
use fanta.App
use fanta.App.{App, commit}
use fanta.App.Methods.{dispatched}
use fanta.App.Serving.{respond_at, request_route, IsExternal}
use fanta.Hyper.{HyperRequest, HyperResponse, http_11}
use fanta.Hyper.Service.{Named, hyper_thruster_request, service_for, with_ip, call, call-route}
use fanta.Server.Start.{Server, new_hyper_server}
use fanta.Tests.Hypers.{Headers}

-- Opens what the runs below compute with.
opened : ℕ
unfolding commit TreeCommit.commit commit_inner get_value_at_path get_value_at_split_path
    add_value_at_path route_pieces add_value_at_split_path split str_eq find_child remove_child push
    enumerate map_get insert middleware combine App.create App.get route lead dispatched
    new_hyper_server
opened = 0

-- A request is its URI, by GET; a context is the bytes of the address and the body.
instance abbrev named : Named Str
named = record { method_of = λ r. codes "GET"; uri_of = λ r. r }

abbrev Request : Type 0
Request = HyperRequest Str Str Str

abbrev Response : Type 0
Response = HyperResponse Bytes Headers

abbrev reply_with : Bytes → Response
reply_with bytes = record {
  response_body = bytes;
  response_status = 200;
  response_headers = (codes "server", codes "thruster") ∷ [];
  response_version = http_11;
}

instance abbrev address_context : Context (Option Bytes × Bytes) Response
address_context = record {
  get_response = λ c. reply_with (c.1);
  set_body = λ c body. (c.0, body);
  set_body_bytes = λ c bytes. (c.0, bytes);
  route = λ c. [];
  set = λ c k v. c;
  remove = λ c k. c;
}

-- Answers the address.
abbrev show_address : MiddlewareTuple (Option Bytes × Bytes)
show_address = tuple (λ c next. ok (c.0, elim c.0 [ some ip ↦ ip | none ↦ codes "?" ])) []

abbrev app : App Request (Option Bytes × Bytes) ℕ
app = App.get (App.create (λ r state path. (r.ip, [])) 0) (codes "/ip") show_address

abbrev server : Server Request (Option Bytes × Bytes) ℕ
server = elim (new_hyper_server app) [ some s ↦ s | none ↦ record { app = app } ]

server_lem : new_hyper_server app ≡ some server
unfolding opened
server_lem = refl

abbrev local : Bytes
local = 127 ∷ 0 ∷ 0 ∷ 1 ∷ []

answers_address :
    call ⦃c = address_context⦄ (service_for server (some local)) (codes "/ip")
    ≡ ok (reply_with local)
unfolding opened call App.match_and_resolve
answers_address = refl

ip-IsExternal : IsExternal app (with_ip (codes "/ip") (some local))
unfolding opened
ip-IsExternal (t, e) = cc

call-route_example :
    call ⦃c = address_context⦄ (service_for server (some local)) (codes "/ip")
    ≡ respond_at ⦃c = address_context⦄ app
        (with_ip (codes "/ip") (some local))
        (request_route app (with_ip (codes "/ip") (some local)))
call-route_example =
    call-route ⦃c = address_context⦄ app server (some local) (codes "/ip") server_lem ip-IsExternal
