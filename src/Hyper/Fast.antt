-- ===== src/Hyper/Fast.antt =====
-- thruster/src/context/fast_hyper_context.rs: `FastHyperContext`, which has no headers of its own.
-- `none` is a panic.
use fanta.Prelude.{
  ℕ, ◌≡◌, ◌≢◌, ltb, leb, ◌&&◌, if◌then◌else◌, Option, none, some, ◌>>=◌, >>=-eq-some, Bool-cases,
  inl, inr, ap, sym, ◌∙◌,
}
use mathlib.Core.Option.{some-injective}
use fanta.Text.{Str, codes}
use fanta.Text.Utf8.{Bytes}
use fanta.Http.Request.{to_lowercase}
use fanta.Hyper.{HeaderMap, Hyper, HyperRequest, HyperResponse, Version, http_11}

pub record FastHyperContext (Body Parts Raw : Type 0) : Type 0 where
  pub body : Option Body
  pub status : ℕ
  pub hyper_request : Option (HyperRequest Body Parts Raw)
  pub http_version : Version

-- `FastHyperContext::new`, `generate_context` and `fast_generate_context`
abbrev pub fast_context :
    {Body Parts Raw : Type 0} → HyperRequest Body Parts Raw → FastHyperContext Body Parts Raw
fast_context req = record {
  body = none;
  status = 200;
  hyper_request = some req;
  http_version = http_11;
}

module _ {Body Parts Raw : Type 0} (H : Type 0) ⦃hm : HeaderMap H⦄
    ⦃hy : Hyper Body Parts Raw H⦄ where
  -- `StatusCode::from_u16` takes 100 to 999.
  unfoldable pub build : FastHyperContext Body Parts Raw → Body → H → Option (HyperResponse Body H)
  build ctx body headers =
      if leb 100 ctx.status && ltb ctx.status 1000
      then some (record {
        response_body = body;
        response_status = ctx.status;
        response_headers = headers;
        response_version = ctx.http_version;
      })
      else none

  -- The headers of the response are those of the request, with the server's name.
  unfoldable pub fast_response : FastHyperContext Body Parts Raw → Option (HyperResponse Body H)
  fast_response ctx = do
    body ← ctx.body
    r ← ctx.hyper_request
    headers ← hm.insert (hy.request_headers r.request) (codes "server") (codes "thruster")
    build ctx body headers

  -- `set_body` and `set_body_bytes`
  unfoldable pub fast_body :
      FastHyperContext Body Parts Raw → Bytes → FastHyperContext Body Parts Raw
  fast_body ctx bytes = record ctx { body = some (hy.from_bytes bytes) }

  unfoldable pub fast_route : FastHyperContext Body Parts Raw → Option Str
  fast_route ctx = do
    r ← ctx.hyper_request
    elim (hy.path_and_query r.request) [ some val ↦ some val | none ↦ some (hy.uri_path r.request) ]

  -- Writes to the headers of the request.
  abbrev pub with_request_headers :
      FastHyperContext Body Parts Raw
      → HyperRequest Body Parts Raw
      → H
      → FastHyperContext Body Parts Raw
  with_request_headers ctx r headers = record ctx {
    hyper_request = some (record r { request = hy.with_headers r.request headers });
  }

  unfoldable pub fast_set :
      FastHyperContext Body Parts Raw → Str → Str → Option (FastHyperContext Body Parts Raw)
  fast_set ctx key value = do
    r ← ctx.hyper_request
    headers ← hm.insert (hy.request_headers r.request) key value
    some (with_request_headers ctx r headers)

  unfoldable pub fast_remove :
      FastHyperContext Body Parts Raw → Str → Option (FastHyperContext Body Parts Raw)
  fast_remove ctx key = do
    r ← ctx.hyper_request
    some (with_request_headers ctx r (hm.remove (hy.request_headers r.request) key))

  build-headers :
      (ctx : FastHyperContext Body Parts Raw) (body : Body) (headers : H)
      (response : HyperResponse Body H)
      → build ctx body headers ≡ some response
      → response.response_headers ≡ headers
  unfolding build
  build-headers ctx body headers response h =
      elim (Bool-cases (leb 100 ctx.status && ltb ctx.status 1000)) [
        | inl e ↦ sym (ap (λ p. p.response_headers) (some-injective _ _ (rw e at h)))
        | inr e ↦ cc (rw e at h)
      ]

  -- When the response is made, each header that the request has, other than the server's name, is a
  -- header of the response with the same values.
  fast_response-echoes :
      (ctx : FastHyperContext Body Parts Raw) (r : HyperRequest Body Parts Raw)
      (response : HyperResponse Body H) (name : Str)
      → ctx.hyper_request ≡ some r
      → fast_response ctx ≡ some response
      → to_lowercase name ≢ to_lowercase (codes "server")
      → hm.get_all response.response_headers name ≡ hm.get_all (hy.request_headers r.request) name
  unfolding fast_response
  fast_response-echoes ctx r response name e h n =
      let (body, _, h1) = >>=-eq-some ctx.body _ h in
      let (r', e', h2) = >>=-eq-some ctx.hyper_request _ h1 in
      let (headers, i, h3) =
        >>=-eq-some (hm.insert (hy.request_headers r'.request) (codes "server") (codes "thruster"))
          _ h2 in
      rw (build-headers ctx body headers response h3) (
        hm.get_all-insert_ne (hy.request_headers r'.request) headers (codes "server")
          (codes "thruster") name i n
        ∙ ap (λ q. hm.get_all (hy.request_headers q.request) name)
            (some-injective _ _ (sym e' ∙ e)))
