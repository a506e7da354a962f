-- ===== src/Builtin/Headers.antt =====
-- The middleware of thruster/src/middleware/cors.rs, json.rs and profiling.rs, and `file` of send.rs.
pub mod Cors
use fanta.Prelude.{ok, err, Option, some, ◌>>=◌}
use fanta.Text.{Str, codes}
use fanta.Text.Utf8.{Bytes}
use fanta.Context.{Context}
use fanta.Middleware.{MiddlewareFnPointer}

module _ {ℓ κ} {T : Type ℓ} (Response : Type κ) ⦃c : Context T Response⦄ where
  unfoldable pub cors : MiddlewareFnPointer T
  cors context next =
      let a = c.set context (codes "Access-Control-Allow-Origin") (codes "*") in
      let b = c.set a (codes "Access-Control-Allow-Headers") (codes "*") in
      next
        (c.set b (codes "Access-Control-Allow-Methods") (codes "GET, POST, PUT, DELETE, OPTIONS"))

  unfoldable pub json_header : MiddlewareFnPointer T
  json_header context next =
      elim (next (c.set context (codes "Content-Type") (codes "application/json"))) [
        | ok context' ↦ ok context'
        | err e ↦ err e
      ]

  -- `json` of profiling.rs: the time that it logs is not kept.
  unfoldable pub profile : MiddlewareFnPointer T
  profile context next = elim (next context) [ ok context' ↦ ok context' | err e ↦ err e ]

  -- `file` of send.rs; `opened` is what `read_to_end` gets of a file that can be opened.
  unfoldable pub send_file : (Str → Option Bytes) → T → Str → Option T
  send_file opened context file_name = do
    contents ← opened file_name
    some (c.set_body context contents)
