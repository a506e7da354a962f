-- ===== src/Examples/ErrorHandling.antt =====
-- thruster/examples/error_handling.rs: a middleware at "/" that turns errors into JSON.
pub mod Answers
use fanta.Prelude.{
  ℕ, ◌+◌, ◌≡◌, refl, ap, ◌∙◌, Bool, true, false, ltb, ◌==◌, if◌then◌else◌, Option, none, some, List,
  [], ◌∷◌, ◌++◌, ◌>>=◌, Result, ok, err, is_some, arith,
}
use Prim.Native.Nat.{◌^◌}
use fanta.Text.{Str, codes, str_eq}
use fanta.Text.Decimal.{decimal}
use fanta.Middleware.{DynError, ThrusterError, MiddlewareResult, MiddlewareFnPointer, NextFn, tuple}
use fanta.App
use fanta.App.{App}
use fanta.Http.Request.{Request, parse_usize}
use fanta.Basic.{BasicContext, body, set_status}
use fanta.Basic.Unmatched.{new_basic}

-- `Error`; what an error of the system prints stands for it.
pub data Error : Type 0 where
  invalid_id : Str → Error
  file_not_found : Str → Str → Error

-- What `snafu` displays.
unfoldable pub display : Error → Str
display (invalid_id id) = codes "Could not parse id: " ++ id
display (file_not_found filename source) =
    codes "Could not open config at " ++ (filename ++ (codes ": " ++ source))

-- `Box<dyn StdError>` made of an `Error`, and its `downcast`.
pub record Downcast : Type 0 where
  pub boxed : Error → DynError
  pub downcast : DynError → Option Error
  pub downcast-boxed : (e : Error) → downcast (boxed e) ≡ some e

-- `s.parse::<u32>()`
unfoldable pub parse_u32 : Str → Option ℕ
parse_u32 s = do n ← parse_usize s; if ltb n (2 ^ 32) then some n else none

-- "{\"message\": \"…\",\"success\":false}"
unfoldable pub json_message : Str → Str
json_message message = codes "{\"message\": \"" ++ (message ++ codes "\",\"success\":false}")

abbrev pub status_of : Error → ℕ
status_of (invalid_id id) = 400
status_of (file_not_found filename source) = 404

-- What `map_try!` makes of a result: the value goes on, the mapped error is returned.
abbrev pub map_try {ℓ} :
    {A : Type ℓ}
    → Option A
    → MiddlewareResult BasicContext
    → (A → MiddlewareResult BasicContext)
    → MiddlewareResult BasicContext
map_try none failed go_on = failed
map_try (some a) failed go_on = go_on a

unfoldable pub four_oh_four : MiddlewareFnPointer BasicContext
four_oh_four context next =
    ok (body (set_status context 404) (codes "Whoops! That route doesn't exist!"))

module _ (dyn : Downcast) where
  -- `ErrorExt::context`
  unfoldable pub in_context : Error → BasicContext → ThrusterError BasicContext
  in_context e context = record {
    context = context;
    message = codes "Failed to handle error";
    status = 500;
    cause = some (dyn.boxed e);
  }

  -- The context that answers for an error, by what its cause is downcast to.
  abbrev pub handled : ThrusterError BasicContext → Option Error → BasicContext
  handled e none = set_status (body e.context (json_message e.message)) e.status
  handled e (some cause) =
      body (set_status e.context (status_of cause)) (json_message (display cause))

  unfoldable pub json_error_handler : MiddlewareFnPointer BasicContext
  json_error_handler context next = elim (next context) [
    | ok c ↦ ok c
    | err e ↦ ok (handled e (e.cause >>= dyn.downcast))
  ]

  unfoldable pub error : MiddlewareFnPointer BasicContext
  error context next =
      let id = codes "Hello, world" in
      map_try (parse_u32 id) (err (in_context (invalid_id id) context))
        (λ non_existent_param. ok (body context (decimal non_existent_param)))

  -- The app of `main`.
  unfoldable pub errors_app : App {0, 0, 0} Request BasicContext Unit
  errors_app =
      let app = App.use_middleware new_basic (codes "/") (tuple json_error_handler []) in
      let app = App.get app (codes "/error") (tuple error []) in
      App.set404 app (tuple four_oh_four [])
