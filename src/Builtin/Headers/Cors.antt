-- ===== src/Builtin/Headers/Cors.antt =====
-- What `cors` of thruster/src/middleware/cors.rs and `json` of json.rs do to a `BasicContext`.
use fanta.Prelude.{◌≡◌, refl, if◌then◌else◌, Option, some, ok, err}
use fanta.Text.{Str, codes, str_eq}
use fanta.Map.{HashMap, get, get-insert}
use fanta.Middleware.{NextFn, MiddlewareResult}
use fanta.Http.Response.{Response}
use fanta.Basic.{BasicContext, basic_context, set}
use fanta.Builtin.Headers.{cors, json_header}

-- The value of a header that `cors` sets, or another value.
abbrev allowed : Str → Option Str → Option Str
allowed key before =
    if str_eq (codes "Access-Control-Allow-Methods") key
    then some (codes "GET, POST, PUT, DELETE, OPTIONS")
    else if str_eq (codes "Access-Control-Allow-Headers") key
    then some (codes "*")
    else if str_eq (codes "Access-Control-Allow-Origin") key
    then some (codes "*")
    else before

-- `cors` answers as its next does from the context with the three headers, in place of what they
-- were; the context is else as it was.
cors-allowed :
    (context : BasicContext) (next : NextFn BasicContext)
    → (headers : HashMap Str) × ((cors Response ⦃c = basic_context⦄ context next
          ≡ next (record context { headers = headers }))
        × ((key : Str) → get key headers ≡ allowed key (get key context.headers)))
unfolding cors set
cors-allowed context next = (
  _,
  (
    refl,
    λ key. rw (get-insert _ key _ _) (rw (get-insert _ key _ _) (rw (get-insert _ key _ _) refl)),
  ),
)

-- `let context = next(context).await?; Ok(context)`
same : (r : MiddlewareResult BasicContext) → elim r [ ok context ↦ ok context | err e ↦ err e ] ≡ r
same (ok context) = refl
same (err e) = refl

-- `json` answers as its next does from the context with the content type.
json_header-typed :
    (context : BasicContext) (next : NextFn BasicContext)
    → (headers : HashMap Str) × ((json_header Response ⦃c = basic_context⦄ context next
          ≡ next (record context { headers = headers }))
        × ((key : Str)
            → get key headers ≡ (
                if str_eq (codes "Content-Type") key
                then some (codes "application/json")
                else get key context.headers)))
unfolding json_header set
json_header-typed context next = (_, (same _, λ key. get-insert _ key _ _))
