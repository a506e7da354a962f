-- ===== src/Server.antt =====
-- thruster/src/server/homegrown_server.rs: the loop of `process`, and what it relies on.
pub mod Date
pub mod Accept
pub mod Start
pub mod Secure
pub mod Framed
pub mod Connection
pub mod Wire
use fanta.Prelude.{
  ℕ, ◌≡◌, refl, ap, ◌∙◌, Option, none, some, List, [], ◌∷◌, ◌++◌, ◌>>=◌, map, length, Result, ok,
  err, IoError,
}
use fanta.Text.{Str}
use fanta.Context.{Context}
use fanta.App.{App, resolve, resolve_from_method_and_path}
use fanta.Http.Request.{Request, method, path}
use fanta.Http.Response.{Response}

-- `_Error`
pub record Error : Type 0 where
  pub message : Str

-- What `process` sent, and how it ended.
pub record Served : Type 0 where
  pub sent : List Response
  pub outcome : Result {0, 0} Unit Error

abbrev pub after : Response → Served → Served
after response s = record s { sent = response ∷ s.sent }

module _ {ℓ σ} {T : Type ℓ} {S : Type σ} ⦃c : Context T Response⦄ where
  -- The response to a request; `none` is the panic of a method or a path that is no text.
  unfoldable pub answer_request : App Request T S → Request → Option (Result Response IoError)
  answer_request app request = do
    route ← path request
    verb ← method request
    some (resolve app request (resolve_from_method_and_path app verb route))

  -- `process` on the items that the framed socket yields; `send` is the socket, which takes a
  -- response or fails.
  unfoldable pub process :
      App Request T S
      → (Response → Result {0, 0} Unit IoError)
      → List (Result Request IoError)
      → Option Served
  process app send [] = some (record { sent = []; outcome = ok tt })
  process app send (err e ∷ items) =
      some (record { sent = []; outcome = err (record { message = e.message }) })
  process app send (ok request ∷ items) = do
    answered ← answer_request app request
    elim answered [
      | err e ↦ some (record { sent = []; outcome = err (record { message = e.message }) })
      | ok response ↦ elim (send response) [
        | err e ↦ some (record { sent = []; outcome = err (record { message = e.message }) })
        | ok _ ↦ do some (after response (← process app send items))
      ]
    ]

  -- The responses to some requests, one for each.
  pub data Answers (app : App Request T S) : List Request → List Response → Type 0 where
    no_requests : Answers app [] []
    answered :
        {request : Request} {response : Response} {requests : List Request}
        {responses : List Response}
        → answer_request app request ≡ some (ok response)
        → Answers app requests responses
        → Answers app (request ∷ requests) (response ∷ responses)

  process-answered :
      (app : App Request T S) (send : Response → Result {0, 0} Unit IoError) (request : Request)
      (response : Response) (items : List (Result Request IoError))
      → answer_request app request ≡ some (ok response)
      → send response ≡ ok tt
      → process app send (ok request ∷ items)
        ≡ (process app send items >>= λ s. some (after response s))
  unfolding process
  process-answered app send request response items e d = rw (e, d) refl

  -- While the requests are answered and the socket takes the responses, they are sent in the order
  -- of the requests, one for each; the first error of the stream ends the loop with its message,
  -- and what comes after it is not looked at; the end of the stream ends the loop well.
  pub process-in_order :
      (app : App Request T S) (send : Response → Result {0, 0} Unit IoError)
      {requests : List Request} {responses : List Response}
      → Answers app requests responses
      → ((r : Response) → send r ≡ ok tt)
      → ((e : IoError) (items : List (Result Request IoError))
          → process app send (map (λ r. ok r) requests ++ err e ∷ items)
            ≡ some (record { sent = responses; outcome = err (record { message = e.message }) }))
        × (process app send (map (λ r. ok r) requests)
            ≡ some (record { sent = responses; outcome = ok tt }))
  process-in_order app send no_requests takes =
      (λ e items. unfold process in refl, unfold process in refl)
  process-in_order app send (answered {request = q} {response = r} {requests = qs} h t) takes =
      let both = process-in_order app send t takes in
      (
        λ e items.
            process-answered app send q r (map (λ r. ok r) qs ++ err e ∷ items) h (takes r)
            ∙ ap (λ s. s >>= λ s. some (after r s)) (both.0 e items),
        process-answered app send q r (map (λ r. ok r) qs) h (takes r)
            ∙ ap (λ s. s >>= λ s. some (after r s)) (both.1),
      )
