-- ===== src/Server/Secure.antt =====
-- thruster/src/server/ssl_server.rs: the loop of `process` behind TLS, and that it does what the
-- loop of thruster/src/server/homegrown_server.rs does.
use fanta.Prelude.{
  ◌≡◌, refl, ap, ◌∙◌, Option, none, some, List, [], ◌∷◌, ◌>>=◌, Result, ok, err, IoError,
}
use fanta.Context.{Context}
use fanta.App.{App, resolve, resolve_from_method_and_path}
use fanta.Http.Request.{Request, method, path}
use fanta.Text.{Str}
use fanta.Http.Response.{Response}
use fanta.Server
use fanta.Server.{Error, Served, answer_request, process}

-- What was sent, and the error that ended it.
pub record SecureServed : Type 0 where
  pub sent : List Response
  pub outcome : Result {0, 0} Unit IoError

abbrev pub after : Response → SecureServed → SecureServed
after response s = record s { sent = response ∷ s.sent }

abbrev pub stopped : IoError → SecureServed
stopped e = record { sent = []; outcome = err e }

-- The message of the error is kept.
abbrev pub plainly : SecureServed → Served
plainly s = record {
  sent = s.sent;
  outcome = elim s.outcome [ ok u ↦ ok u | err e ↦ err (record { message = e.message }) ];
}

plainly-after :
    (response : Response) (o : Option SecureServed)
    → ((o >>= λ s. some (after response s)) >>= λ s. some (plainly s))
      ≡ ((o >>= λ s. some (plainly s)) >>= λ s. some (Server.after response s))
plainly-after response none = refl
plainly-after response (some s) = refl

-- The two loops after a response, by what the socket says.
sent-at :
    (response : Response) (taken : Result {0, 0} Unit IoError) (o : Option SecureServed)
    (p : Option Served)
    → (o >>= λ s. some (plainly s)) ≡ p
    → ((elim taken [ err e ↦ some (stopped e) | ok _ ↦ o >>= λ s. some (after response s) ])
        >>= λ s. some (plainly s))
      ≡ (elim taken [
        | err e ↦ some (record { sent = []; outcome = err (record { message = e.message }) })
        | ok _ ↦ p >>= λ s. some (Server.after response s)
      ])
sent-at response (err e) o p h = refl
sent-at response (ok _) o p h =
    plainly-after response o ∙ ap (λ q. q >>= λ s. some (Server.after response s)) h

module _ {ℓ σ} {T : Type ℓ} {S : Type σ} ⦃c : Context T Response⦄ where
  -- The response to a request; the method is taken before the path.
  unfoldable pub secure_answer : App Request T S → Request → Option (Result Response IoError)
  secure_answer app request = do
    verb ← method request
    route ← path request
    some (resolve app request (resolve_from_method_and_path app verb route))

  unfoldable pub secure_loop :
      App Request T S
      → (Response → Result {0, 0} Unit IoError)
      → List (Result Request IoError)
      → Option SecureServed
  secure_loop app send [] = some (record { sent = []; outcome = ok tt })
  secure_loop app send (err e ∷ items) = some (stopped e)
  secure_loop app send (ok request ∷ items) = do
    answered ← secure_answer app request
    elim answered [
      | err e ↦ some (stopped e)
      | ok response ↦ elim (send response) [
        | err e ↦ some (stopped e)
        | ok _ ↦ do some (after response (← secure_loop app send items))
      ]
    ]

  -- `process`: the handshake, then the loop on the items of the framed stream.
  unfoldable pub secure_process :
      App Request T S
      → Result {0, 0} Unit IoError
      → (Response → Result {0, 0} Unit IoError)
      → List (Result Request IoError)
      → Option SecureServed
  secure_process app (err e) send items = some (stopped e)
  secure_process app (ok _) send items = secure_loop app send items

  Agrees :
      App Request T S
      → (Response → Result {0, 0} Unit IoError)
      → List (Result Request IoError)
      → Type 0
  Agrees app send items =
      (secure_loop app send items >>= λ s. some (plainly s)) ≡ process app send items

  answers-at :
      (app : App Request T S) (request : Request) (v r : Option Str)
      → method request ≡ v
      → path request ≡ r
      → secure_answer app request ≡ answer_request app request
  unfolding secure_answer answer_request
  answers-at app request none none em ep = rw (em, ep) refl
  answers-at app request none (some r) em ep = rw (em, ep) refl
  answers-at app request (some v) none em ep = rw (em, ep) refl
  answers-at app request (some v) (some r) em ep = rw (em, ep) refl

  -- Both loops after a request, by what the handler answers and what the socket says.
  request-at :
      (app : App Request T S) (send : Response → Result {0, 0} Unit IoError) (request : Request)
      (items : List (Result Request IoError)) (a : Option (Result Response IoError))
      → secure_answer app request ≡ a
      → answer_request app request ≡ a
      → Agrees app send items
      → Agrees app send (ok request ∷ items)
  unfolding Agrees secure_loop process
  request-at app send request items none e d h = rw (e, d) refl
  request-at app send request items (some (err x)) e d h = rw (e, d) refl
  request-at app send request items (some (ok response)) e d h =
      rw (e, d)
        (sent-at response (send response) (secure_loop app send items) (process app send items) h)

  secure_loop-process :
      (app : App Request T S) (send : Response → Result {0, 0} Unit IoError)
      (items : List (Result Request IoError))
      → (secure_loop app send items >>= λ s. some (plainly s)) ≡ process app send items
  unfolding secure_loop process Agrees
  secure_loop-process app send [] = refl
  secure_loop-process app send (err e ∷ items) = refl
  secure_loop-process app send (ok request ∷ items) =
      request-at app send request items (answer_request app request)
        (answers-at app request (method request) (path request) refl refl) refl
        (secure_loop-process app send items)

  -- After the handshake, the server behind TLS sends the responses that the server without TLS
  -- sends, and ends as it does, panics included, with an error of the same message; when the
  -- handshake fails it sends nothing and ends with that error.
  pub secure_process-process :
      (app : App Request T S) (send : Response → Result {0, 0} Unit IoError)
      (items : List (Result Request IoError)) (e : IoError)
      → ((secure_process app (ok tt) send items >>= λ s. some (plainly s)) ≡ process app send items)
        × (secure_process app (err e) send items ≡ some (stopped e))
  unfolding secure_process
  secure_process-process app send items e = (secure_loop-process app send items, refl)
