-- ===== src/Examples/UsingState.antt =====
-- thruster/examples/using_state.rs: contexts that are made from the state of the app and from the path
-- that the app gives to their generator. `none` is a panic.
pub mod Answers
use fanta.Prelude.{Option, none, some, [], ◌++◌, ◌>>=◌, ok}
use fanta.Text.{Str, codes}
use fanta.Text.Utf8.{as_bytes}
use fanta.Context.{Context}
use fanta.Middleware.{MiddlewareFnPointer, tuple}
use fanta.App
use fanta.App.{App}
use fanta.Hyper
use fanta.Hyper.{HeaderMap, Hyper, HyperRequest, HyperResponse, TypedHyperContext}

pub record ServerConfig : Type 0 where
  pub server_id : Str

pub record RequestConfig : Type 0 where
  pub server_id : Str
  pub path : Str

module _ (Body Parts Raw H : Type 0) ⦃hm : HeaderMap H⦄ ⦃hy : Hyper Body Parts Raw H⦄ where
  -- `Ctx`, if nothing has panicked.
  abbrev pub Ctx : Type 0
  Ctx = Option (TypedHyperContext Body Parts Raw H RequestConfig)

  -- The handler here does not ask for the route.
  instance abbrev pub state_context : Context Ctx (Option (HyperResponse Body H))
  state_context = record {
    get_response = λ c. c >>= Hyper.get_response;
    set_body = λ c bytes. c >>= λ t. some (Hyper.set_body t bytes);
    set_body_bytes = λ c bytes. c >>= λ t. some (Hyper.set_body t bytes);
    route = λ c. [];
    set = λ c key value. c >>= λ t. Hyper.set t key value;
    remove = λ c key. c >>= λ t. some (Hyper.unset t key);
  }

  abbrev pub generate_context : HyperRequest Body Parts Raw → ServerConfig → Str → Ctx
  generate_context request state path =
      Hyper.new request (record { server_id = state.server_id; path = path })

  -- The text of the handler.
  abbrev pub printed : RequestConfig → Str
  printed extra =
      codes "server id: " ++ (extra.server_id ++ (codes ", requested path: " ++ extra.path))

  unfoldable pub state_printer : MiddlewareFnPointer Ctx
  state_printer context next =
      ok (context >>= λ t. some (record t { body = hy.from_bytes (as_bytes (printed t.extra)) }))

  -- The app of `main`.
  unfoldable pub state_app : App (HyperRequest Body Parts Raw) Ctx ServerConfig
  state_app =
      let app = App.create generate_context (record { server_id = codes "some-test-id" }) in
      let app = App.get app (codes "/a/:key1") (tuple state_printer []) in
      App.get app (codes "/b/:key2") (tuple state_printer [])
