-- ===== src/Hyper.antt =====
-- thruster/src/context/typed_hyper_context.rs: `TypedHyperContext`. `none` is a panic. The types of
-- hyper and http are parameters, with the operations that the context calls.
pub mod Cookies
pub mod Twice
pub mod Fast
pub mod Body
pub mod Service
pub mod Basic
use Prim.Native.Nat.{◌^◌}
use fanta.Prelude.{
  ℕ, ◌≡◌, ◌≢◌, ltb, leb, ◌&&◌, if◌then◌else◌, Option, none, some, List, [], ◌∷◌, ◌++◌, ◌>>=◌,
}
use fanta.Text.{Str, codes}
use fanta.Text.Utf8.{Bytes, as_bytes}
use fanta.Map.{HashMap, insert}
use fanta.Http.Request.{to_lowercase}
use fanta.Builtin.Cookies.{Cookie, CookieOptions}

-- `http::header::HeaderMap`: it keeps all the values of a name; `insert` replaces them and `append`
-- adds one. Both panic, in the unwrapping around them, on a name or a value that no header can
-- have. `get_all` has each value's `to_str`, or the empty text. Names are equal whatever their case.
pub record HeaderMap (H : Type 0) : Type 0 where
  pub no_headers : H
  pub append : H → Str → Str → Option H
  pub insert : H → Str → Str → Option H
  pub remove : H → Str → H
  pub get_all : H → Str → List Str
  pub get_all-no_headers : (k : Str) → get_all no_headers k ≡ []
  pub get_all-append :
      (h h' : H) (k v : Str) → append h k v ≡ some h' → get_all h' k ≡ get_all h k ++ v ∷ []
  pub get_all-insert_ne :
      (h h' : H) (k v j : Str)
      → insert h k v ≡ some h'
      → to_lowercase j ≢ to_lowercase k
      → get_all h' j ≡ get_all h j

-- `hyper::Version`
pub data Version : Type 0 where
  http_10 http_11 http_2 : Version

-- `hyper::Body` and `hyper::Request` with its parts.
pub record Hyper (Body Parts Raw H : Type 0) : Type 0 where
  pub empty : Body
  pub from_bytes : Bytes → Body
  pub into_parts : Raw → Parts × Body
  pub path_and_query : Raw → Option Str
  pub uri_path : Raw → Str
  pub request_headers : Raw → H
  pub with_headers : Raw → H → Raw

-- thruster/src/context/hyper_request.rs; the address is its bytes.
pub record HyperRequest (Body Parts Raw : Type 0) : Type 0 where
  pub request : Raw
  pub parts : Option Parts
  pub body : Option Body
  pub params : Option (HashMap Str)
  pub ip : Option Bytes

-- `HyperRequest::new`
abbrev pub new_hyper_request : {Body Parts Raw : Type 0} → Raw → HyperRequest Body Parts Raw
new_hyper_request request = record {
  request = request;
  parts = none;
  body = none;
  params = none;
  ip = none;
}

pub record TypedHyperContext {σ} (Body Parts Raw H : Type 0) (S : Type σ) : Type σ where
  pub body : Body
  pub query_params : HashMap Str
  pub status : ℕ
  pub headers : H
  pub params : Option (HashMap Str)
  pub hyper_request : Option (HyperRequest Body Parts Raw)
  pub extra : S
  pub cookies : HashMap Cookie
  pub http_version : Version
  pub request_body : Option Body
  pub request_parts : Option Parts

-- `hyper::Response`
pub record HyperResponse (Body H : Type 0) : Type 0 where
  pub response_body : Body
  pub response_status : ℕ
  pub response_headers : H
  pub response_version : Version

module _ {σ} {Body Parts Raw H : Type 0} {S : Type σ} ⦃hm : HeaderMap H⦄
    ⦃hy : Hyper Body Parts Raw H⦄ where
  unfoldable pub set :
      TypedHyperContext Body Parts Raw H S
      → Str
      → Str
      → Option (TypedHyperContext Body Parts Raw H S)
  set ctx key value = do
    headers ← hm.append ctx.headers key value
    some (record ctx { headers = headers })

  unfoldable pub unset :
      TypedHyperContext Body Parts Raw H S → Str → TypedHyperContext Body Parts Raw H S
  unset ctx key = record ctx { headers = hm.remove ctx.headers key }

  abbrev pub blank :
      Option (HyperRequest Body Parts Raw)
      → Option (HashMap Str)
      → S
      → TypedHyperContext Body Parts Raw H S
  blank request params extra = record {
    body = hy.empty;
    query_params = [];
    status = 200;
    headers = hm.no_headers;
    params = params;
    hyper_request = request;
    extra = extra;
    cookies = [];
    http_version = http_11;
    request_body = none;
    request_parts = none;
  }

  unfoldable pub new :
      HyperRequest Body Parts Raw → S → Option (TypedHyperContext Body Parts Raw H S)
  new req extra = set (blank (some req) req.params extra) (codes "Server") (codes "Thruster")

  unfoldable pub new_without_request : S → Option (TypedHyperContext Body Parts Raw H S)
  new_without_request extra = set (blank none none extra) (codes "Server") (codes "Thruster")

  unfoldable pub body_text :
      TypedHyperContext Body Parts Raw H S → Str → TypedHyperContext Body Parts Raw H S
  body_text ctx body_string = record ctx { body = hy.from_bytes (as_bytes body_string) }

  -- `set_body` and `set_body_bytes`
  unfoldable pub set_body :
      TypedHyperContext Body Parts Raw H S → Bytes → TypedHyperContext Body Parts Raw H S
  set_body ctx bytes = record ctx { body = hy.from_bytes bytes }

  -- `into_owned_request`
  unfoldable pub into_owned_request :
      TypedHyperContext Body Parts Raw H S → TypedHyperContext Body Parts Raw H S
  into_owned_request ctx = elim ctx.hyper_request [
    | some hyper_request ↦
        let split = hy.into_parts hyper_request.request in
        record ctx {
          params = hyper_request.params;
          hyper_request = none;
          request_body = some (split.1);
          request_parts = some (split.0);
        }
    | none ↦ ctx
  ]

  -- `code.try_into().unwrap()` into 16 bits
  unfoldable pub set_status :
      TypedHyperContext Body Parts Raw H S → ℕ → Option (TypedHyperContext Body Parts Raw H S)
  set_status ctx code = if ltb code (2 ^ 16) then some (record ctx { status = code }) else none

  unfoldable pub content_type :
      TypedHyperContext Body Parts Raw H S → Str → Option (TypedHyperContext Body Parts Raw H S)
  content_type ctx c_type = set ctx (codes "Content-Type") c_type

  unfoldable pub redirect :
      TypedHyperContext Body Parts Raw H S → Str → Option (TypedHyperContext Body Parts Raw H S)
  redirect ctx destination = do ctx' ← set_status ctx 302; set ctx' (codes "Location") destination

  -- `set_http2`, `set_http11` and `set_http10`
  unfoldable pub set_version :
      TypedHyperContext Body Parts Raw H S → Version → TypedHyperContext Body Parts Raw H S
  set_version ctx version = record ctx { http_version = version }

  -- `StatusCode::from_u16` takes 100 to 999.
  unfoldable pub get_response : TypedHyperContext Body Parts Raw H S → Option (HyperResponse Body H)
  get_response ctx =
      if leb 100 ctx.status && ltb ctx.status 1000
      then some (record {
        response_body = ctx.body;
        response_status = ctx.status;
        response_headers = ctx.headers;
        response_version = ctx.http_version;
      })
      else none

  -- `route`
  unfoldable pub route : TypedHyperContext Body Parts Raw H S → Option Str
  route ctx = do
    r ← ctx.hyper_request
    elim (hy.path_and_query r.request) [ some val ↦ some val | none ↦ some (hy.uri_path r.request) ]

  unfoldable pub set_query_params :
      TypedHyperContext Body Parts Raw H S → HashMap Str → TypedHyperContext Body Parts Raw H S
  set_query_params ctx query_params = record ctx { query_params = query_params }

  unfoldable pub get_header : TypedHyperContext Body Parts Raw H S → Str → Option (List Str)
  get_header ctx key = do
    r ← ctx.hyper_request
    some (hm.get_all (hy.request_headers r.request) key)
