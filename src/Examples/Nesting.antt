-- ===== src/Examples/Nesting.antt =====
-- thruster/examples/nesting.rs: an app with a second app mounted below "/nested". `none` is a panic.
pub mod Answers
use fanta.Prelude.{Option, none, some, [], ◌>>=◌, ok}
use fanta.Text.{Str, codes}
use fanta.Text.Utf8.{as_bytes}
use fanta.Context.{Context}
use fanta.Middleware.{MiddlewareFnPointer, tuple}
use fanta.App
use fanta.App.{App, use_sub_app}
use fanta.Hyper.{HeaderMap, Hyper, HyperRequest, HyperResponse}
use fanta.Hyper.Basic as HyperBasic
use fanta.Hyper.Basic.{BasicHyperContext}

module _ (Body Parts Raw H : Type 0) ⦃hm : HeaderMap H⦄ ⦃hy : Hyper Body Parts Raw H⦄ where
  -- `Ctx`, if nothing has panicked.
  abbrev pub Ctx : Type 0
  Ctx = Option (BasicHyperContext Body Parts Raw H)

  -- The handlers here do not ask for the route.
  instance abbrev pub nesting_context : Context Ctx (Option (HyperResponse Body H))
  nesting_context = record {
    get_response = λ c. c >>= HyperBasic.get_response;
    set_body = λ c bytes. c >>= λ t. some (HyperBasic.set_body t bytes);
    set_body_bytes = λ c bytes. c >>= λ t. some (HyperBasic.set_body t bytes);
    route = λ c. [];
    set = λ c key value. c >>= λ t. HyperBasic.set t key value;
    remove = λ c key. c >>= λ t. some (HyperBasic.unset t key);
  }

  unfoldable pub plaintext : MiddlewareFnPointer Ctx
  plaintext context next =
      ok (
        context >>= λ t.
        some (record t { body = hy.from_bytes (as_bytes (codes "Hello, World!")) }))

  unfoldable pub nested_plaintext : MiddlewareFnPointer Ctx
  nested_plaintext context next = ok (
      context >>= λ t.
      some (record t { body = hy.from_bytes (as_bytes (codes "(nested) Hello, World!")) }))

  -- `generate_context`
  abbrev pub generate_context : HyperRequest Body Parts Raw → Unit {0} → Str → Ctx
  generate_context request state path = HyperBasic.new request

  abbrev pub Nesting : Type 0
  Nesting = App {0, 0, 0} (HyperRequest Body Parts Raw) Ctx Unit

  -- The two apps of `main`, and the one in the other.
  unfoldable pub nested_app : Nesting
  nested_app =
      App.get (App.create generate_context tt) (codes "/plaintext") (tuple nested_plaintext [])

  unfoldable pub app : Nesting
  app = App.get (App.create generate_context tt) (codes "/plaintext") (tuple plaintext [])

  unfoldable pub nesting_app : Option Nesting
  nesting_app = use_sub_app app (codes "/nested") nested_app
