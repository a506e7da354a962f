-- ===== src/Server/Accept.antt =====
-- The accept loop of thruster/src/server/homegrown_server.rs, and the tasks that it spawns: each runs
-- `process` on a connection of its own, and the runtime chooses which task runs next. A panic
-- ends the task that it happens in.
pub mod Fates
pub mod Serves
use fanta.Prelude.{
  ℕ, zero, suc, ◌+◌, ◌≡◌, Option, none, some, List, [], ◌∷◌, ◌++◌, map, length, Result, ok, err,
  IoError, ◌>>=◌,
}
use fanta.Context.{Context}
use fanta.App.{App}
use fanta.Http.Request.{Request}
use fanta.Http.Response.{Response}
use fanta.Server.{Error, Served, answer_request, process}

-- A connection: what its framed socket yields, and what becomes of the responses it is given.
pub record Stream : Type 0 where
  pub items : List (Result Request IoError)
  pub send : Response → Result {0, 0} Unit IoError

pub data Ended : Type 0 where
  finished : Result {0, 0} Unit Error → Ended
  panicked : Ended

-- A task that runs `process`: what its loop has before it, and what it sent.
pub record Task : Type 0 where
  pub stream : Stream
  pub waiting : List (Result Request IoError)
  pub sent : List Response
  pub ended : Option Ended

abbrev pub stopped : Task → IoError → Task
stopped task e = record task { ended = some (finished (err (record { message = e.message }))) }

-- `process(app, socket)`, before it is polled.
abbrev pub new_task : Stream → Task
new_task stream = record { stream = stream; waiting = stream.items; sent = []; ended = none }

-- After the socket took a response, or failed.
abbrev pub after_send : Task → Response → Result {0, 0} Unit IoError → Task
after_send task response (err e) = stopped task e
after_send task response (ok _) = record task { sent = task.sent ++ response ∷ [] }

-- A round of the loop after the response, or the panic, that the app gives.
abbrev pub after_answer : Task → Option (Result Response IoError) → Task
after_answer task none = record task { ended = some panicked }
after_answer task (some (err e)) = stopped task e
after_answer task (some (ok response)) = after_send task response (task.stream.send response)

module _ {ℓ σ} {T : Type ℓ} {S : Type σ} ⦃c : Context T Response⦄ where
  -- A round of the loop of `process`.
  unfoldable pub round : App Request T S → Task → List (Result Request IoError) → Task
  round app task [] = record task { ended = some (finished (ok tt)) }
  round app task (err e ∷ items) = stopped (record task { waiting = items }) e
  round app task (ok request ∷ items) =
      after_answer (record task { waiting = items }) (answer_request app request)

-- What an accept loop makes of what the listener yields: the tasks that it spawns; `none` is a panic.
abbrev pub Acceptor : Type 0
Acceptor = Result Stream IoError → Option (List Task)

-- `build`: a connection that failed is passed over.
abbrev pub spawning : Acceptor
spawning (ok stream) = some (new_task stream ∷ [])
spawning (err e) = some []

pub record State : Type 0 where
  pub incoming : List (Result Stream IoError)
  pub tasks : List Task

-- Bound to a listener that will yield some connections.
abbrev pub bound : List (Result Stream IoError) → State
bound incoming = record { incoming = incoming; tasks = [] }

module _ {ℓ σ} {T : Type ℓ} {S : Type σ} ⦃c : Context T Response⦄ (acceptor : Acceptor)
    (app : App Request T S) where
  pub data Step : State → State → Type 0 where
    accepts :
        {s : State} {one : Result Stream IoError} {rest : List (Result Stream IoError)}
        {spawned : List Task}
        → s.incoming ≡ one ∷ rest
        → acceptor one ≡ some spawned
        → Step s (record s { incoming = rest; tasks = s.tasks ++ spawned })
    runs :
        {s : State} (before : List Task) (task : Task) (after : List Task)
        → s.tasks ≡ before ++ task ∷ after
        → task.ended ≡ none
        → Step s (record s { tasks = before ++ round app task task.waiting ∷ after })

  -- Some steps, and how many.
  pub data Run (start : State) : ℕ → State → Type 0 where
    begins : Run start 0 start
    continues : {n : ℕ} {s t : State} → Run start n s → Step s t → Run start (suc n) t
