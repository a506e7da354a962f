-- ===== src/Hyper/Service.antt =====
-- thruster/src/server/hyper_server.rs and thruster/src/app/testing_hyper_async.rs: the app behind
-- hyper. `none` is a panic.
use fanta.Prelude.{
  ℕ, ◌≡◌, ap, sym, ◌∙◌, Option, none, some, List, [], ◌∷◌, ◌>>=◌, >>=-eq-some, Result, ok, err,
  IoError,
}
use mathlib.Core.Option.{some-injective}
use fanta.Text.{Str}
use fanta.Text.Utf8.{Bytes, from_utf8}
use fanta.Map.{HashMap, insert}
use fanta.Context.{Context, ThrusterRequest}
use fanta.App.{App, commit, match_and_resolve, resolve, resolve_from_method_and_path}
use fanta.App.Serving.{
  respond_at, request_route, IsExternal, match_and_resolve_lem, match_and_resolve-route,
}
use fanta.Hyper.{HyperRequest, HyperResponse, new_hyper_request}
use fanta.Server.Start.{Server, new_hyper_server}

-- `hyper::Request`: its method, and its URI as text, which is the path with the query, or more.
pub record Named (Raw : Type 0) : Type 0 where
  pub method_of : Raw → Str
  pub uri_of : Raw → Str

-- `impl ThrusterRequest for HyperRequest`
instance abbrev pub hyper_thruster_request :
    {Body Parts Raw : Type 0} ⦃n : Named Raw⦄ → ThrusterRequest (HyperRequest Body Parts Raw)
hyper_thruster_request ⦃n⦄ = record {
  method = λ r. n.method_of r.request;
  path = λ r. n.uri_of r.request;
}

pub record HyperService {ρ ℓ σ} (R : Type ρ) (T : Type ℓ) (S : Type σ) : Type (ρ ⊔ ℓ ⊔ σ) where
  pub app : App R T S
  pub ip : Option Bytes

-- The service that `HyperServer` makes for a connection; the other two servers have no address.
abbrev pub service_for {ρ ℓ σ} :
    {R : Type ρ} {T : Type ℓ} {S : Type σ} → Server R T S → Option Bytes → HyperService R T S
service_for server ip = record { app = server.app; ip = ip }

-- The request that `call` makes of what arrives.
abbrev pub with_ip : {Body Parts Raw : Type 0} → Raw → Option Bytes → HyperRequest Body Parts Raw
with_ip req ip = record (new_hyper_request req) { ip = ip }

-- The trailers of a response, after which its body is left, and its bytes.
pub record HttpBody (B E H : Type 0) : Type 0 where
  pub trailers : B → Result (Option H) E × B
  pub to_bytes : B → Result Bytes E
  pub entries : H → List (Str × Option Str)

pub record TestResponse : Type 0 where
  pub body : Bytes
  pub headers : HashMap Str
  pub trailers : Option (HashMap Str)
  pub status : ℕ

-- The loops over the headers and over the trailers; a value that is no text is a panic.
unfoldable pub text_map : List (Str × Option Str) → HashMap Str → Option (HashMap Str)
text_map [] map = some map
text_map ((key, value) ∷ entries) map = do v ← value; text_map entries (insert key v map)

abbrev pub trailer_map :
    {E H : Type 0}
    → (H → List (Str × Option Str))
    → Result (Option H) E
    → Option (Option (HashMap Str))
trailer_map entries (err _) = none
trailer_map entries (ok none) = some none
trailer_map entries (ok (some res)) = do map ← text_map (entries res) []; some (some map)

abbrev pub or_panic {ℓ κ} : {A : Type ℓ} {E : Type κ} → Result A E → Option A
or_panic (ok a) = some a
or_panic (err _) = none

-- `TestResponse::new`
unfoldable pub test_response :
    {B E H : Type 0} → HttpBody B E H → HyperResponse B H → Option TestResponse
test_response hb response = do
  headers ← text_map (hb.entries response.response_headers) []
  trailers ← trailer_map hb.entries (hb.trailers response.response_body).0
  body ← or_panic (hb.to_bytes (hb.trailers response.response_body).1)
  some (record {
    body = body;
    headers = headers;
    trailers = trailers;
    status = response.response_status;
  })

unfoldable pub body_string : TestResponse → Option Str
body_string response = from_utf8 response.body

module _ {ℓ σ} {Body Parts Raw B H : Type 0} {T : Type ℓ} {S : Type σ} ⦃n : Named Raw⦄
    ⦃c : Context T (HyperResponse B H)⦄ where
  -- `HyperService::call`
  unfoldable pub call :
      HyperService (HyperRequest Body Parts Raw) T S → Raw → Result (HyperResponse B H) IoError
  call service req = match_and_resolve service.app (with_ip req service.ip)

  -- The testing helper.
  unfoldable pub request :
      {E : Type 0}
      → HttpBody B E H
      → App (HyperRequest Body Parts Raw) T S
      → Raw
      → Option TestResponse
  request hb app req = do
    let matched_route = resolve_from_method_and_path app (n.method_of req) (n.uri_of req)
    response ← or_panic (resolve ⦃c = c⦄ app (new_hyper_request req) matched_route)
    test_response hb response

  -- The testing helper shows the response that the service of a connection without an address gives.
  pub request-call :
      {E : Type 0} (hb : HttpBody B E H) (app : App (HyperRequest Body Parts Raw) T S) (req : Raw)
      → request hb app req
        ≡ (or_panic (call (record { app = app; ip = none }) req) >>= test_response hb)
  unfolding request call
  request-call hb app req =
      ap (λ r. or_panic r >>= test_response hb)
        (sym (match_and_resolve_lem ⦃c = c⦄ app (new_hyper_request req)))

  -- What a server that is made of an app answers to a request whose URI is not internal: the
  -- response to the route of the app's uncommitted tree, for the request with the address of its
  -- connection.
  pub call-route :
      (app : App (HyperRequest Body Parts Raw) T S)
      (server : Server (HyperRequest Body Parts Raw) T S) (ip : Option Bytes) (req : Raw)
      → new_hyper_server app ≡ some server
      → IsExternal app (with_ip req ip)
      → call (service_for server ip) req
        ≡ respond_at ⦃c = c⦄ app (with_ip req ip) (request_route app (with_ip req ip))
  unfolding call new_hyper_server
  call-route app server ip req h away =
      let (ready, done, made) = >>=-eq-some (commit app) _ h in
      ap (λ s. match_and_resolve ⦃c = c⦄ s.app (with_ip req ip)) (sym (some-injective _ _ made))
      ∙ match_and_resolve-route ⦃c = c⦄ app ready (with_ip req ip) done away
