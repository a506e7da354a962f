-- ===== src/Examples/MutableState.antt =====
-- thruster/examples/mutable_state.rs: a text behind an `RwLock` that one route sets and another
-- gets. A panic while the lock is held for writing poisons it, and each unwrapping of a poisoned
-- lock is a panic.
pub mod Poisoned
use fanta.Prelude.{
  ◌≡◌, Bool, true, false, if◌then◌else◌, Option, none, some, List, [], ◌∷◌, ◌++◌, ◌>>=◌, Result, ok,
  err, IoError,
}
use fanta.Text.{Str, codes}
use fanta.Text.Utf8.{Bytes, as_bytes}
use fanta.Map.{get}
use fanta.Context.{Context}
use fanta.Middleware.{MiddlewareFnPointer, tuple}
use fanta.App
use fanta.App.{App, match_and_resolve}
use fanta.Hyper
use fanta.Hyper.{HeaderMap, Hyper, HyperRequest, HyperResponse, TypedHyperContext}
use fanta.Hyper.Service.{Named, hyper_thruster_request, with_ip}

-- `RwLock<String>`
pub record Lock : Type 0 where
  pub value : Str
  pub poisoned : Bool

-- `write().unwrap()` and `read().unwrap()` of the lock, which nobody else holds.
abbrev pub unlocked : Lock → Option Str
unlocked lock = if lock.poisoned then none else some lock.value

abbrev pub original : Lock
original = record { value = codes "original"; poisoned = false }

module _ (Body Parts Raw H : Type 0) ⦃hm : HeaderMap H⦄ ⦃hy : Hyper Body Parts Raw H⦄ where
  -- `Ctx`, whose extra is the lock that `RequestConfig` shares, as it is now.
  abbrev pub Typed : Type 0
  Typed = TypedHyperContext Body Parts Raw H Lock

  -- A context that goes on, or what a panic left of the lock.
  pub data Ctx : Type 0 where
    running : Typed → Ctx
    unwound : Lock → Ctx

  -- What is answered, if the task did not panic, and the lock afterwards.
  abbrev pub Reply : Type 0
  Reply = Option (HyperResponse Body H) × Lock

  abbrev pub reply : Ctx → Reply
  reply (running c) = (Hyper.get_response c, c.extra)
  reply (unwound lock) = (none, lock)

  abbrev pub replied : Lock → Result Reply IoError → Reply
  replied lock (ok r) = r
  replied lock (err _) = (none, lock)

  abbrev pub keep_running : Lock → Option Typed → Ctx
  keep_running lock none = unwound lock
  keep_running lock (some c) = running c

  abbrev pub lifted : (Typed → Option Typed) → Ctx → Ctx
  lifted f (running c) = keep_running c.extra (f c)
  lifted f (unwound lock) = unwound lock

  instance abbrev pub lock_context : Context Ctx Reply
  lock_context = record {
    get_response = reply;
    set_body = λ c bytes. lifted (λ t. some (Hyper.set_body t bytes)) c;
    set_body_bytes = λ c bytes. lifted (λ t. some (Hyper.set_body t bytes)) c;
    route = λ c. [];
    set = λ c key value. lifted (λ t. Hyper.set t key value) c;
    remove = λ c key. lifted (λ t. some (Hyper.unset t key)) c;
  }

  -- `generate_context`
  abbrev pub generate_context : HyperRequest Body Parts Raw → Lock → Str → Ctx
  generate_context request lock path = keep_running lock (Hyper.new request lock)

  -- What the setter does, once it has the lock, with the parameter "val".
  abbrev pub assigned : Typed → Str → Option Str → Ctx
  assigned c latest none = unwound (record c.extra { poisoned = true })
  assigned c latest (some val) = running (record c {
    body = hy.from_bytes (as_bytes (codes "last value: " ++ latest));
    extra = record c.extra { value = val };
  })

  abbrev pub with_lock : Typed → (Str → Ctx) → Option Str → Ctx
  with_lock c f none = unwound c.extra
  with_lock c f (some latest) = f latest

  unfoldable pub state_setter : MiddlewareFnPointer Ctx
  state_setter (unwound lock) next = ok (unwound lock)
  state_setter (running c) next = ok (
      with_lock c (λ latest. assigned c latest (c.params >>= get (codes "val"))) (unlocked c.extra))

  abbrev pub shown : Typed → Str → Ctx
  shown c latest =
      running (record c { body = hy.from_bytes (as_bytes (codes "current value: " ++ latest)) })

  unfoldable pub state_getter : MiddlewareFnPointer Ctx
  state_getter (unwound lock) next = ok (unwound lock)
  state_getter (running c) next = ok (with_lock c (shown c) (unlocked c.extra))

  -- The app of `main`, with the lock as it is now.
  unfoldable pub mutable_app : Lock → App (HyperRequest Body Parts Raw) Ctx Lock
  mutable_app lock =
      let app = App.create generate_context lock in
      let app = App.get app (codes "/set-value/:val") (tuple state_setter []) in
      App.get app (codes "/get-value") (tuple state_getter [])

  module _ ⦃named : Named Raw⦄ where
    -- What the committed app answers to a request from an address, with the lock as it is now.
    unfoldable pub serve :
        App (HyperRequest Body Parts Raw) Ctx Lock → Lock → Raw × Option Bytes → Reply
    serve ready lock (req, ip) =
        replied lock
          (match_and_resolve ⦃c = lock_context⦄ (record ready { state = lock }) (with_ip req ip))

    -- Requests one after the other: what is answered to each, and the lock in the end.
    unfoldable pub serve_all :
        App (HyperRequest Body Parts Raw) Ctx Lock
        → Lock
        → List (Raw × Option Bytes)
        → List (Option (HyperResponse Body H)) × Lock
    serve_all ready lock [] = ([], lock)
    serve_all ready lock (request ∷ requests) =
        let (answer, lock') = serve ready lock request in
        let (answers, last) = serve_all ready lock' requests in (answer ∷ answers, last)
