-- ===== src/Basic.antt =====
-- thruster/src/context/basic_context.rs: `BasicContext`. The headers are in the order of the table,
-- which the standard library leaves open; `none` is a panic.
pub mod Reading
pub mod Wire
pub mod Unmatched
use fanta.Prelude.{
  ℕ, ◌<◌, ltb, Bool, true, false, if◌then◌else◌, Option, none, some, List, [], ◌∷◌, ◌++◌, ◌>>=◌,
}
use fanta.Text.{Str, codes, join}
use fanta.Text.Decimal.{decimal}
use fanta.Text.Utf8.{Bytes, as_bytes, from_utf8}
use fanta.Map.{HashMap, get, insert, remove}
use fanta.Context.{Context}
use fanta.Builtin.Query.{HasQueryParams}
use fanta.Builtin.Cookies.{Cookie, CookieOptions, SameSite, strict, lax}
use fanta.Http.Request.{Request, new_request}
use fanta.Http.Request as Req
use fanta.Http.Response.{
  Response, new_response, status_code, header, body_bytes, body_bytes_from_vec,
}

pub record BasicContext : Type 0 where
  pub response : Response
  pub cookies : List Cookie
  pub params : Option (HashMap Str)
  pub query_params : Option (HashMap Str)
  pub request : Request
  pub status : ℕ
  pub headers : HashMap Str

unfoldable pub set : BasicContext → Str → Str → BasicContext
set ctx key value = record ctx { headers = insert key value ctx.headers }

unfoldable pub unset : BasicContext → Str → BasicContext
unset ctx key = record ctx { headers = remove key ctx.headers }

-- `BasicContext::new()`
unfoldable pub new_context : BasicContext
new_context =
    set
      (record {
        response = new_response;
        cookies = [];
        params = none;
        query_params = none;
        request = new_request;
        status = 200;
        headers = [];
      })
      (codes "Server") (codes "Thruster")

unfoldable pub generate_context {σ} : {S : Type σ} → Request → S → Str → BasicContext
generate_context request state path = record new_context {
  params = request.params;
  request = request;
}

unfoldable pub body : BasicContext → Str → BasicContext
body ctx body_string = record ctx {
  response = body_bytes_from_vec ctx.response (as_bytes body_string);
}

-- `json`, with what `serde_json::to_vec` makes of the value; a failure is a panic.
unfoldable pub json : BasicContext → Option Bytes → Option BasicContext
json ctx serialized = do
  bytes ← serialized
  let ctx' = set ctx (codes "Content-Type") (codes "application/json")
  some (record ctx' { response = body_bytes_from_vec ctx'.response bytes })

-- `status` and `set_status`
unfoldable pub set_status : BasicContext → ℕ → BasicContext
set_status ctx code = record ctx { status = code }

abbrev pub or_empty : Option Str → Str
or_empty none = []
or_empty (some s) = s

-- `str::from_utf8(&self.response.response).unwrap_or("")`
unfoldable pub get_body : BasicContext → Str
get_body ctx = or_empty (from_utf8 ctx.response.response)

unfoldable pub content_type : BasicContext → Str → BasicContext
content_type ctx c_type = set ctx (codes "Content-Type") c_type

unfoldable pub redirect : BasicContext → Str → BasicContext
redirect ctx destination = set (set_status ctx 302) (codes "Location") destination

abbrev pub same_site_pieces : Option SameSite → List Str
same_site_pieces none = []
same_site_pieces (some strict) = codes "SameSite=Strict" ∷ []
same_site_pieces (some lax) = codes "SameSite=Lax" ∷ []

-- The pieces that `cookify_options` pushes.
unfoldable pub option_pieces : CookieOptions → List Str
option_pieces o =
    (codes "Path=" ++ o.path)
    ∷ ((if ltb 0 o.expires then (codes "Expires=" ++ decimal o.expires) ∷ [] else [])
        ++ ((if ltb 0 o.max_age then (codes "Max-Age=" ++ decimal o.max_age) ∷ [] else [])
            ++ ((elim o.domain [ [] ↦ [] | d ∷ ds ↦ (codes "Domain=" ++ d ∷ ds) ∷ [] ])
                ++ ((if o.secure then codes "Secure" ∷ [] else [])
                    ++ ((if o.http_only then codes "HttpOnly" ∷ [] else [])
                        ++ same_site_pieces o.same_site)))))

unfoldable pub cookify_options : Str → Str → CookieOptions → Str
cookify_options name value options =
    name ++ (codes "=" ++ (value ++ (codes "; " ++ join (codes "; ") (option_pieces options))))

-- After the cookies that are there, separated by a comma.
abbrev pub after_cookies : Option Str → Str → Str
after_cookies none cookie = cookie
after_cookies (some val) cookie = val ++ (codes ", " ++ cookie)

unfoldable pub cookie : BasicContext → Str → Str → CookieOptions → BasicContext
cookie ctx name value options =
    set ctx (codes "Set-Cookie")
      (after_cookies (get (codes "Set-Cookie") ctx.headers) (cookify_options name value options))

-- The loop of `get_response` over the headers.
unfoldable pub add_headers : HashMap Str → Response → Response
add_headers [] response = response
add_headers ((key, value) ∷ headers) response = add_headers headers (header response key value)

unfoldable pub get_response : BasicContext → Response
get_response ctx = add_headers ctx.headers (status_code ctx.response ctx.status [])

unfoldable pub set_body : BasicContext → Bytes → BasicContext
set_body ctx bytes = record ctx { response = body_bytes_from_vec ctx.response bytes }

unfoldable pub set_body_bytes : BasicContext → Bytes → BasicContext
set_body_bytes ctx bytes = record ctx { response = body_bytes ctx.response bytes }

-- `route`; a path that is no text is a panic, and a request that `decode` made has a path of ASCII.
unfoldable pub route : BasicContext → Option Str
route ctx = Req.path ctx.request

unfoldable pub set_query_params : BasicContext → HashMap Str → BasicContext
set_query_params ctx query_params = record ctx { query_params = some query_params }

unfoldable pub set_cookies : BasicContext → List Cookie → BasicContext
set_cookies ctx cookies = record ctx { cookies = cookies }

abbrev pub or_nothing : Option (List Str) → List Str
or_nothing none = []
or_nothing (some v) = v

-- The values of a header of the request; a header that is no text is a panic.
unfoldable pub get_header : BasicContext → Str → Option (List Str)
get_header ctx key = do headers ← Req.headers ctx.request; some (or_nothing (get key headers))

unfoldable pub get_cookies : BasicContext → Option (List Str)
get_cookies ctx = get_header ctx (codes "cookie")

-- `impl Context for BasicContext`, where the request's path is text.
instance abbrev pub basic_context : Context BasicContext Response
basic_context = record {
  get_response = get_response;
  set_body = set_body;
  set_body_bytes = set_body_bytes;
  route = λ ctx. or_empty (route ctx);
  set = set;
  remove = unset;
}

instance abbrev pub basic_query_params : HasQueryParams BasicContext
basic_query_params = record { set_query_params = set_query_params }
