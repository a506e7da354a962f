-- ===== src/Hyper/Basic/Typed.antt =====
-- `BasicHyperContext` does what `TypedHyperContext` does.
use fanta.Prelude.{◌≡◌, refl, ap, Option, none, some, [], >>=-eq-some, Result, ok, err, arith}
use mathlib.Core.Option.{some-injective}
use fanta.Text.{Str, codes}
use fanta.Hyper as Typed
use fanta.Hyper.{HeaderMap, Hyper, HyperRequest, TypedHyperContext}
use fanta.Hyper.Body as Reading
use fanta.Hyper.Body.{Stream, read_chunks}
use fanta.Hyper.Basic.{
  BasicHyperContext, into_owned_request, set, set_status, redirect, get_response, route, owned,
  with_results, get_body, parts,
}

abbrev pub map_some {ℓ κ} : {A : Type ℓ} {B : Type κ} → (A → B) → Option A → Option B
map_some f none = none
map_some f (some a) = some (f a)

module _ {Body Parts Raw H : Type 0} ⦃hm : HeaderMap H⦄ ⦃hy : Hyper Body Parts Raw H⦄ where
  -- The typed context with the same fields, and with no extra and no cookies.
  abbrev pub as_typed :
      BasicHyperContext Body Parts Raw H → TypedHyperContext Body Parts Raw H (Unit {0})
  as_typed ctx = record {
    body = ctx.body;
    query_params = ctx.query_params;
    status = ctx.status;
    headers = ctx.headers;
    params = ctx.params;
    hyper_request = ctx.hyper_request;
    extra = tt;
    cookies = [];
    http_version = ctx.http_version;
    request_body = ctx.request_body;
    request_parts = ctx.request_parts;
  }

  set-as_typed :
      (ctx : BasicHyperContext Body Parts Raw H) (key value : Str)
      → Typed.set (as_typed ctx) key value ≡ map_some as_typed (set ctx key value)
  unfolding set Typed.set
  set-as_typed ctx key value = ground arith

  redirect-as_typed :
      (ctx : BasicHyperContext Body Parts Raw H) (destination : Str)
      → Typed.redirect (as_typed ctx) destination ≡ map_some as_typed (redirect ctx destination)
  unfolding redirect Typed.redirect set_status Typed.set_status
  redirect-as_typed ctx destination =
      set-as_typed (record ctx { status = 302 }) (codes "Location") destination

  route-as_typed :
      (ctx : BasicHyperContext Body Parts Raw H) → Typed.route (as_typed ctx) ≡ route ctx
  unfolding route Typed.route
  route-as_typed ctx = refl

  get_response-as_typed :
      (ctx : BasicHyperContext Body Parts Raw H)
      → Typed.get_response (as_typed ctx) ≡ get_response ctx
  unfolding get_response Typed.get_response
  get_response-as_typed ctx = refl

  owned-taken :
      (ctx c : BasicHyperContext Body Parts Raw H)
      → ctx.request_body ≡ none
      → owned ctx ≡ some c
      → (c.hyper_request ≡ none)
        × ((p : Parts) × (c.request_parts ≡ some p))
        × (get_response c ≡ get_response ctx)
  unfolding owned into_owned_request get_response
  owned-taken ctx c e h =
      let (r, er, h1) = >>=-eq-some ctx.hyper_request _ (rw e at h) in
      rw (← some-injective _ _ h1) (refl, ((hy.into_parts r.request).0, refl), refl)

  route-none :
      (ctx : BasicHyperContext Body Parts Raw H) → ctx.hyper_request ≡ none → route ctx ≡ none
  unfolding route
  route-none ctx e = rw e refl

module _ {Body E Parts Raw H : Type 0} ⦃hm : HeaderMap H⦄ ⦃hy : Hyper Body Parts Raw H⦄
    ⦃st : Stream Body E Parts Raw H hy⦄ where
  abbrev pub read_typed :
      Result (Str × BasicHyperContext Body Parts Raw H) E
      → Result (Str × TypedHyperContext Body Parts Raw H (Unit {0})) E
  read_typed (ok (s, ctx)) = ok (s, as_typed ctx)
  read_typed (err e) = err e

  with_results-as_typed :
      (ctx : BasicHyperContext Body Parts Raw H) (read : Result Str E)
      → Reading.with_results (as_typed ctx) read ≡ read_typed (with_results ctx read)
  with_results-as_typed ctx (ok s) = refl
  with_results-as_typed ctx (err e) = refl

  get_body-at :
      (ctx : BasicHyperContext Body Parts Raw H) (b : Option Body)
      (r : Option (HyperRequest Body Parts Raw))
      → ctx.request_body ≡ b
      → ctx.hyper_request ≡ r
      → Reading.get_body (as_typed ctx) ≡ map_some read_typed (get_body ctx)
  unfolding get_body Reading.get_body owned into_owned_request Typed.into_owned_request
  get_body-at ctx (some b) r e d =
      rw e (ap (λ x. some x) (with_results-as_typed ctx (read_chunks [] (st.chunks b))))
  get_body-at ctx none (some r) e d =
      let split = hy.into_parts r.request in
      let ctx' : BasicHyperContext Body Parts Raw H = record ctx {
        params = r.params;
        hyper_request = none;
        request_body = some (split.1);
        request_parts = some (split.0);
      } in
      rw (e, d)
        (ap (λ x. some x) (with_results-as_typed ctx' (read_chunks [] (st.chunks (split.1)))))
  get_body-at ctx none none e d = rw (e, d) refl

  -- A `BasicHyperContext` and the `TypedHyperContext` with the same fields read the request's body,
  -- set a header, redirect, tell the route and make the response in the same way, panics included.
  pub as_typed_lem :
      (ctx : BasicHyperContext Body Parts Raw H) (key value destination : Str)
      → (Reading.get_body (as_typed ctx) ≡ map_some read_typed (get_body ctx))
        × (Typed.set (as_typed ctx) key value ≡ map_some as_typed (set ctx key value))
        × (Typed.redirect (as_typed ctx) destination ≡ map_some as_typed (redirect ctx destination))
        × (Typed.route (as_typed ctx) ≡ route ctx)
        × (Typed.get_response (as_typed ctx) ≡ get_response ctx)
  as_typed_lem ctx key value destination = (
    get_body-at ctx ctx.request_body ctx.hyper_request refl refl,
    set-as_typed ctx key value,
    redirect-as_typed ctx destination,
    route-as_typed ctx,
    get_response-as_typed ctx,
  )

  yielded :
      BasicHyperContext Body Parts Raw H
      → Result (Str × BasicHyperContext Body Parts Raw H) E
      → BasicHyperContext Body Parts Raw H
  yielded other (ok (s, ctx)) = ctx
  yielded other (err e) = other

  read-next :
      (ctx next : BasicHyperContext Body Parts Raw H) (read : Result Str E) (s : Str)
      → with_results ctx read ≡ ok (s, next)
      → record ctx { request_body = some hy.empty } ≡ next
  unfolding yielded
  read-next ctx next (ok r) s e = ap (yielded ctx) e
  read-next ctx next (err x) s e = cc

  -- After the body of a request was read, the context has no request any more, so that asking for
  -- the route panics; the parts of the request are there, the response is as before, and reading
  -- the body again does not panic and gives nothing.
  pub get_body-next :
      (ctx next : BasicHyperContext Body Parts Raw H) (s : Str)
      → ctx.request_body ≡ none
      → get_body ⦃st = st⦄ ctx ≡ some (ok (s, next))
      → (route next ≡ none)
        × ((p : Parts) × (parts next ≡ some p))
        × (get_response next ≡ get_response ctx)
        × (get_body ⦃st = st⦄ next ≡ some (ok ([], next)))
  unfolding get_body
  get_body-next ctx next s e h =
      let (c, ec, h1) = >>=-eq-some (owned ctx) _ h in
      let (b, eb, h2) = >>=-eq-some c.request_body _ h1 in
      let same = read-next c next (read_chunks [] (st.chunks b)) s (some-injective _ _ h2) in
      let (gone, (p, has), response) = owned-taken ctx c e ec in
      let c' = record c { request_body = some hy.empty } in
      rw (← same) (
        route-none c' gone,
        (p, unfold parts in has),
        unfold get_response in response,
        unfold owned read_chunks in
            ap (λ x. some (with_results c' (read_chunks [] x))) st.chunks-empty,
      )
