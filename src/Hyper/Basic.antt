-- ===== src/Hyper/Basic.antt =====
-- thruster/src/context/basic_hyper_context.rs: `BasicHyperContext`. `none` is a panic.
pub mod Typed
use Prim.Native.Nat.{◌^◌}
use fanta.Prelude.{
  ℕ, ltb, leb, ◌&&◌, if◌then◌else◌, Bool, false, Option, none, some, List, [], ◌∷◌, ◌++◌, ◌>>=◌,
  Result, ok, err,
}
use fanta.Text.{Str, codes, join}
use fanta.Text.Decimal.{decimal}
use fanta.Text.Utf8.{Bytes, as_bytes}
use fanta.Map.{HashMap}
use fanta.Basic.{after_cookies}
use fanta.Hyper.{HeaderMap, Hyper, HyperRequest, HyperResponse, Version, http_11}
use fanta.Hyper.Cookies.{first}
use fanta.Hyper.Body.{Stream, read_chunks}

pub data SameSite : Type 0 where
  strict lax : SameSite

pub record CookieOptions : Type 0 where
  pub domain : Str
  pub path : Str
  pub expires : ℕ
  pub http_only : Bool
  pub max_age : ℕ
  pub secure : Bool
  pub signed : Bool
  pub same_site : SameSite

-- `CookieOptions::default()`
abbrev pub default_options : CookieOptions
default_options = record {
  domain = [];
  path = codes "/";
  expires = 0;
  http_only = false;
  max_age = 0;
  secure = false;
  signed = false;
  same_site = strict;
}

pub record BasicHyperContext (Body Parts Raw H : Type 0) : Type 0 where
  pub body : Body
  pub query_params : HashMap Str
  pub status : ℕ
  pub params : Option (HashMap Str)
  pub hyper_request : Option (HyperRequest Body Parts Raw)
  pub request_body : Option Body
  pub request_parts : Option Parts
  pub http_version : Version
  pub headers : H

abbrev pub same_site_piece : SameSite → Str
same_site_piece strict = codes "SameSite=Strict"
same_site_piece lax = codes "SameSite=Lax"

-- The pieces that `cookify_options` pushes.
unfoldable pub option_pieces : CookieOptions → List Str
option_pieces o =
    (codes "Path=" ++ o.path)
    ∷ ((if ltb 0 o.expires then (codes "Expires=" ++ decimal o.expires) ∷ [] else [])
        ++ ((if ltb 0 o.max_age then (codes "Max-Age=" ++ decimal o.max_age) ∷ [] else [])
            ++ ((elim o.domain [ [] ↦ [] | d ∷ ds ↦ (codes "Domain=" ++ d ∷ ds) ∷ [] ])
                ++ ((if o.secure then codes "Secure" ∷ [] else [])
                    ++ ((if o.http_only then codes "HttpOnly" ∷ [] else [])
                        ++ same_site_piece o.same_site ∷ [])))))

unfoldable pub cookify_options : Str → Str → CookieOptions → Str
cookify_options name value options =
    name ++ (codes "=" ++ (value ++ (codes "; " ++ join (codes "; ") (option_pieces options))))

module _ {Body Parts Raw H : Type 0} ⦃hm : HeaderMap H⦄ ⦃hy : Hyper Body Parts Raw H⦄ where
  -- `BasicHyperContext::default()`, which `clone` returns.
  abbrev pub default_context : BasicHyperContext Body Parts Raw H
  default_context = record {
    body = hy.empty;
    query_params = [];
    status = 0;
    params = none;
    hyper_request = none;
    request_body = none;
    request_parts = none;
    http_version = http_11;
    headers = hm.no_headers;
  }

  abbrev pub clone : BasicHyperContext Body Parts Raw H → BasicHyperContext Body Parts Raw H
  clone ctx = default_context

  -- `BasicHyperContext::new` and `generate_context`
  unfoldable pub new : HyperRequest Body Parts Raw → Option (BasicHyperContext Body Parts Raw H)
  new req = do
    headers ← hm.insert hm.no_headers (codes "server") (codes "thruster")
    some (record {
      body = hy.empty;
      query_params = [];
      status = 200;
      params = req.params;
      hyper_request = some req;
      request_body = none;
      request_parts = none;
      http_version = http_11;
      headers = headers;
    })

  unfoldable pub body_text :
      BasicHyperContext Body Parts Raw H → Str → BasicHyperContext Body Parts Raw H
  body_text ctx body_string = record ctx { body = hy.from_bytes (as_bytes body_string) }

  -- `into_owned_request`, with its expectation.
  unfoldable pub into_owned_request :
      BasicHyperContext Body Parts Raw H → Option (BasicHyperContext Body Parts Raw H)
  into_owned_request ctx = do
    hyper_request ← ctx.hyper_request
    let split = hy.into_parts hyper_request.request
    some (record ctx {
      params = hyper_request.params;
      hyper_request = none;
      request_body = some (split.1);
      request_parts = some (split.0);
    })

  unfoldable pub parts : BasicHyperContext Body Parts Raw H → Option Parts
  parts ctx = ctx.request_parts

  -- `code.try_into().unwrap()` into 16 bits
  unfoldable pub set_status :
      BasicHyperContext Body Parts Raw H → ℕ → Option (BasicHyperContext Body Parts Raw H)
  set_status ctx code = if ltb code (2 ^ 16) then some (record ctx { status = code }) else none

  unfoldable pub set :
      BasicHyperContext Body Parts Raw H → Str → Str → Option (BasicHyperContext Body Parts Raw H)
  set ctx key value = do
    headers ← hm.append ctx.headers key value
    some (record ctx { headers = headers })

  unfoldable pub unset :
      BasicHyperContext Body Parts Raw H → Str → BasicHyperContext Body Parts Raw H
  unset ctx key = record ctx { headers = hm.remove ctx.headers key }

  unfoldable pub content_type :
      BasicHyperContext Body Parts Raw H → Str → Option (BasicHyperContext Body Parts Raw H)
  content_type ctx c_type = set ctx (codes "Content-Type") c_type

  unfoldable pub redirect :
      BasicHyperContext Body Parts Raw H → Str → Option (BasicHyperContext Body Parts Raw H)
  redirect ctx destination = do ctx' ← set_status ctx 302; set ctx' (codes "Location") destination

  unfoldable pub cookie :
      BasicHyperContext Body Parts Raw H
      → Str
      → Str
      → CookieOptions
      → Option (BasicHyperContext Body Parts Raw H)
  cookie ctx name value options = set ctx (codes "Set-Cookie") (
      after_cookies (first (hm.get_all ctx.headers (codes "Set-Cookie")))
        (cookify_options name value options))

  -- `set_http2`, `set_http11` and `set_http10`
  unfoldable pub set_version :
      BasicHyperContext Body Parts Raw H → Version → BasicHyperContext Body Parts Raw H
  set_version ctx version = record ctx { http_version = version }

  -- `StatusCode::from_u16` takes 100 to 999.
  unfoldable pub get_response : BasicHyperContext Body Parts Raw H → Option (HyperResponse Body H)
  get_response ctx =
      if leb 100 ctx.status && ltb ctx.status 1000
      then some (record {
        response_body = ctx.body;
        response_status = ctx.status;
        response_headers = ctx.headers;
        response_version = ctx.http_version;
      })
      else none

  -- `set_body` and `set_body_bytes`
  unfoldable pub set_body :
      BasicHyperContext Body Parts Raw H → Bytes → BasicHyperContext Body Parts Raw H
  set_body ctx bytes = record ctx { body = hy.from_bytes bytes }

  unfoldable pub route : BasicHyperContext Body Parts Raw H → Option Str
  route ctx = do
    r ← ctx.hyper_request
    elim (hy.path_and_query r.request) [ some val ↦ some val | none ↦ some (hy.uri_path r.request) ]

  unfoldable pub set_query_params :
      BasicHyperContext Body Parts Raw H → HashMap Str → BasicHyperContext Body Parts Raw H
  set_query_params ctx query_params = record ctx { query_params = query_params }

  -- What `get_body` reads from: the context itself, or the one that owns its request.
  unfoldable pub owned :
      BasicHyperContext Body Parts Raw H → Option (BasicHyperContext Body Parts Raw H)
  owned ctx = elim ctx.request_body [ some _ ↦ some ctx | none ↦ into_owned_request ctx ]

-- What was read, with the context whose request has no body left; or the error.
abbrev pub with_results :
    {Body E Parts Raw H : Type 0} ⦃hy : Hyper Body Parts Raw H⦄
    → BasicHyperContext Body Parts Raw H
    → Result Str E
    → Result (Str × BasicHyperContext Body Parts Raw H) E
with_results ⦃hy⦄ ctx (ok results) = ok (results, record ctx { request_body = some hy.empty })
with_results ctx (err e) = err e

module _ {Body E Parts Raw H : Type 0} ⦃hm : HeaderMap H⦄ ⦃hy : Hyper Body Parts Raw H⦄
    ⦃st : Stream Body E Parts Raw H hy⦄ where
  unfoldable pub get_body :
      BasicHyperContext Body Parts Raw H
      → Option (Result (Str × BasicHyperContext Body Parts Raw H) E)
  get_body self = do
    ctx ← owned self
    unwrapped_body ← ctx.request_body
    some (with_results ctx (read_chunks [] (st.chunks unwrapped_body)))
