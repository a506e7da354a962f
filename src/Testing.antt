-- ===== src/Testing.antt =====
-- thruster/src/app/testing_async.rs: requests to an app without a server. `none` is a panic.
use fanta.Prelude.{
  ◌≡◌, refl, ◌≢◌, Option, none, some, List, [], ◌∷◌, ◌++◌, ◌>>=◌, map, length, Result, ok, err,
  IoError,
}
use fanta.Text.{Str, codes, str_eq, join}
use fanta.Text.Decimal.{decimal}
use fanta.Text.Utf8.{as_bytes}
use fanta.Context.{Context}
use fanta.Middleware.{MiddlewareTuple}
use fanta.App
use fanta.App.{App, resolve, resolve_from_method_and_path}
use fanta.App.Methods.{Verb, verb_get, dispatched, register, resolve-register_ne}
use fanta.Tree.Node.{NodeOutput}
use fanta.Http.Request.{Request, Parser}
use fanta.Http.Decode.{decode, Decoded}
use fanta.Http.Response.{Response}
use fanta.Http.Reply.{TestResponse, test_response}

-- `.unwrap().unwrap()` of what `decode` returns.
abbrev pub unwrap_request : Decoded → Option Request
unwrap_request (ok r, rest) = r
unwrap_request (err e, rest) = none

abbrev pub unwrap_response : Result Response IoError → Option Response
unwrap_response (ok r) = some r
unwrap_response (err e) = none

-- `format!("{}: {}", val.0, val.1)` of each header, joined by line feeds.
abbrev pub header_text : List (Str × Str) → Str
header_text headers =
    join (b'\n' ∷ []) (map (λ (val : Str × Str). val.0 ++ (codes ": " ++ val.1)) headers)

-- `format!("{} {} HTTP/1.1\nHost: localhost:8080\n", method, route)`
abbrev pub first_lines : Str → Str → Str
first_lines method route =
    method
    ++ (codes " "
        ++ (route ++ (codes " HTTP/1.1" ++ b'\n' ∷ (codes "Host: localhost:8080" ++ b'\n' ∷ []))))

-- `format!("Content-Length: {}\n\n{}", content.len(), content)`
abbrev pub content_lines : Str → Str
content_lines content =
    codes "Content-Length: " ++ (decimal (length (as_bytes content)) ++ b'\n' ∷ b'\n' ∷ content)

-- Decodes the text, answers the request and reads the response.
unfoldable pub with_request :
    Parser → (Request → Result Response IoError) → Str → Option TestResponse
with_request p answer text = do
  decoded ← decode p (as_bytes text)
  request ← unwrap_request decoded
  response ← unwrap_response (answer request)
  test_response response

get-dispatched : dispatched (codes "GET") ≡ verb_get
unfolding dispatched str_eq
get-dispatched = refl

module _ {ℓ σ} {T : Type ℓ} {S : Type σ} (p : Parser) ⦃c : Context T Response⦄ where
  -- The answer of the route for the method.
  unfoldable pub send_text : App Request T S → Str → Str → Str → Option TestResponse
  send_text app text method route =
      with_request p
        (λ request. resolve app request (resolve_from_method_and_path app method route)) text

  -- `request`, which resolves the route for `GET` whatever the method is.
  unfoldable pub request :
      App Request T S → Str → Str → List (Str × Str) → Str → Option TestResponse
  request app method route headers body =
      send_text app (first_lines method route ++ (header_text headers ++ b'\n' ∷ b'\n' ∷ body))
        (codes "GET") route

  unfoldable pub test_get : App Request T S → Str → Option TestResponse
  test_get app route =
      send_text app (first_lines (codes "GET") route ++ b'\n' ∷ []) (codes "GET") route

  unfoldable pub test_delete : App Request T S → Str → Option TestResponse
  test_delete app route =
      send_text app (first_lines (codes "DELETE") route ++ b'\n' ∷ []) (codes "DELETE") route

  unfoldable pub test_post : App Request T S → Str → Str → Option TestResponse
  test_post app route content =
      send_text app (first_lines (codes "POST") route ++ content_lines content) (codes "POST") route

  unfoldable pub test_put : App Request T S → Str → Str → Option TestResponse
  test_put app route content =
      send_text app (first_lines (codes "PUT") route ++ content_lines content) (codes "PUT") route

  unfoldable pub test_patch : App Request T S → Str → Str → Option TestResponse
  test_patch app route content =
      send_text app (first_lines (codes "PATCH") route ++ content_lines content) (codes "PATCH")
        route

  -- A registration changes neither the generator nor the state.
  resolve-register :
      (v : Verb) (app : App Request T S) (path : Str) (m : MiddlewareTuple T) (r : Request)
      (matched : NodeOutput T)
      → resolve ⦃c = c⦄ (register v app path m) r matched ≡ resolve ⦃c = c⦄ app r matched
  unfolding resolve App.get App.options App.post App.put App.delete App.patch
  resolve-register verb_get app path m r matched = refl
  resolve-register _ app path m r matched = refl

  send_text-register :
      (v : Verb) (app : App Request T S) (path : Str) (m : MiddlewareTuple T)
      (text method route : Str)
      → dispatched method ≢ v
      → send_text (register v app path m) text method route ≡ send_text app text method route
  unfolding send_text
  send_text-register v app path m text method route n =
      rw (resolve-register_ne v app path m method route n) (λ i.
        with_request p
          (λ r. resolve-register v app path m r (resolve_from_method_and_path app method route) i)
          text)

  -- The helper `request` does not see what is registered for another method than `GET`, also when
  -- it is given that method.
  pub request-register_ne :
      (v : Verb) (app : App Request T S) (path : Str) (m : MiddlewareTuple T) (method route : Str)
      (headers : List (Str × Str)) (body : Str)
      → verb_get ≢ v
      → request (register v app path m) method route headers body
        ≡ request app method route headers body
  unfolding request
  request-register_ne v app path m method route headers body n =
      send_text-register v app path m
        (first_lines method route ++ (header_text headers ++ b'\n' ∷ b'\n' ∷ body)) (codes "GET")
        route (rw get-dispatched n)
