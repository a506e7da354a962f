-- ===== src/Server/Accept/Fates.antt =====
-- What a task of thruster/src/server/homegrown_server.rs will have come to, and how many rounds it
-- can take.
use fanta.Prelude.{
  ℕ, ◌+◌, ◌≤◌, ◌<◌, ◌≡◌, refl, sym, ap, ◌∙◌, Option, none, some, List, [], ◌∷◌, ◌++◌, append_assoc,
  append-nil, length, Result, ok, err, IoError, ◌>>=◌, arith,
}
use fanta.Context.{Context}
use fanta.App.{App}
use fanta.Http.Request.{Request}
use fanta.Http.Response.{Response}
use fanta.Server.{Served, after, answer_request, process}
use fanta.Server.Accept.{
  Stream, Ended, finished, panicked, Task, stopped, after_send, after_answer, round, State,
}

-- The connections among what a listener yields.
abbrev pub streams : List (Result Stream IoError) → List Stream
streams [] = []
streams (ok stream ∷ incoming) = stream ∷ streams incoming
streams (err e ∷ incoming) = streams incoming

abbrev pub outcome_at : Task → Option Ended → Option Served
outcome_at task none = none
outcome_at task (some panicked) = none
outcome_at task (some (finished r)) = some (record { sent = task.sent; outcome = r })

-- What a task that ended came to; `none` is a panic.
abbrev pub outcome_of : Task → Option Served
outcome_of task = outcome_at task task.ended

abbrev pub IsEnded : Task → Type 0
IsEnded task = (ended : Ended) × (task.ended ≡ some ended)

-- How many steps a task, and what the listener yields, can take.
abbrev pub rounds_at : Task → Option Ended → ℕ
rounds_at task none = 1 + length task.waiting
rounds_at task (some _) = 0

abbrev pub work_of : List Task → ℕ
work_of [] = 0
work_of (task ∷ tasks) = rounds_at task task.ended + work_of tasks

abbrev pub work_ahead : List (Result Stream IoError) → ℕ
work_ahead [] = 0
work_ahead (ok stream ∷ incoming) = 2 + length stream.items + work_ahead incoming
work_ahead (err e ∷ incoming) = 1 + work_ahead incoming

abbrev pub work : State → ℕ
work s = work_of s.tasks + work_ahead s.incoming

-- After what was sent before.
abbrev pub with_sent : List Response → Option Served → Option Served
with_sent sent o = o >>= λ s. some (record s { sent = sent ++ s.sent })

pub with_sent-nil : (o : Option Served) → with_sent [] o ≡ o
with_sent-nil none = refl
with_sent-nil (some s) = refl

with_sent-after :
    (sent : List Response) (response : Response) (o : Option Served)
    → with_sent (sent ++ response ∷ []) o ≡ with_sent sent (o >>= λ s. some (after response s))
with_sent-after sent response none = refl
with_sent-after sent response (some s) =
    ap (λ l. some (record s { sent = l })) (append_assoc sent (response ∷ []) s.sent)

after_send-rounds :
    (task : Task) (response : Response) (r : Result {0, 0} Unit IoError)
    → task.ended ≡ none
    → rounds_at (after_send task response r) (after_send task response r).ended
      ≤ 1 + length task.waiting
after_send-rounds task response (err e) h = omega arith
after_send-rounds task response (ok _) h = rw h (omega arith)

after_answer-rounds :
    (task : Task) (o : Option (Result Response IoError))
    → task.ended ≡ none
    → rounds_at (after_answer task o) (after_answer task o).ended ≤ 1 + length task.waiting
after_answer-rounds task none h = omega arith
after_answer-rounds task (some (err e)) h = omega arith
after_answer-rounds task (some (ok response)) h =
    after_send-rounds task response (task.stream.send response) h

module _ {ℓ σ} {T : Type ℓ} {S : Type σ} ⦃c : Context T Response⦄ (app : App Request T S) where
  -- What `process` comes to on a connection.
  abbrev pub serve : Stream → Option Served
  serve stream = process app stream.send stream.items

  abbrev pub fate_at : Task → Option Ended → Option Served
  fate_at task none = with_sent task.sent (process app task.stream.send task.waiting)
  fate_at task (some ended) = outcome_at task (some ended)

  -- What a task will have come to.
  abbrev pub fate : Task → Option Served
  fate task = fate_at task task.ended

  fate_of_stopped :
      (task : Task) (e : IoError)
      → fate (stopped task e)
        ≡ with_sent task.sent
            (some (record { sent = []; outcome = err (record { message = e.message }) }))
  fate_of_stopped task e =
      ap (λ l. some (record { sent = l; outcome = err (record { message = e.message }) }))
        (sym (append-nil task.sent))

  sent-fate :
      (task : Task) (request : Request) (response : Response) (r : Result {0, 0} Unit IoError)
      → task.ended ≡ none
      → answer_request app request ≡ some (ok response)
      → task.stream.send response ≡ r
      → fate (after_answer task (some (ok response)))
        ≡ with_sent task.sent (process app task.stream.send (ok request ∷ task.waiting))
  unfolding process
  sent-fate task request response (err e) h a d =
      ap (λ r. fate (after_send task response r)) d ∙ fate_of_stopped task e ∙ rw (a, d) refl
  sent-fate task request response (ok _) h a d =
      let next = after_send task response (ok tt) in
      ap (λ r. fate (after_send task response r)) d
      ∙ ap (fate_at next) h
      ∙ with_sent-after task.sent response (process app task.stream.send task.waiting)
      ∙ rw (a, d) refl

  answer-fate :
      (task : Task) (request : Request) (o : Option (Result Response IoError))
      → task.ended ≡ none
      → answer_request app request ≡ o
      → fate (after_answer task o)
        ≡ with_sent task.sent (process app task.stream.send (ok request ∷ task.waiting))
  unfolding process
  answer-fate task request none h a = rw a refl
  answer-fate task request (some (err e)) h a = rw a (fate_of_stopped task e)
  answer-fate task request (some (ok response)) h a =
      sent-fate task request response (task.stream.send response) h a refl

  -- A round of a task does not change what it will have come to.
  pub round-fate :
      (task : Task) (items : List (Result Request IoError))
      → task.ended ≡ none
      → fate (round app task items) ≡ with_sent task.sent (process app task.stream.send items)
  unfolding round
  round-fate task [] h =
      unfold process in
      ap (λ l. some (record { sent = l; outcome = ok tt })) (sym (append-nil task.sent))
  round-fate task (err e ∷ items) h =
      unfold process in fate_of_stopped (record task { waiting = items }) e
  round-fate task (ok request ∷ items) h =
      answer-fate (record task { waiting = items }) request (answer_request app request) h refl

  pub round-lt :
      (task : Task) (items : List (Result Request IoError))
      → task.ended ≡ none
      → rounds_at (round app task items) (round app task items).ended < 1 + length items
  unfolding round
  round-lt task [] h = omega arith
  round-lt task (err e ∷ items) h = omega arith
  round-lt task (ok request ∷ items) h =
      omega (
        arith,
        after_answer-rounds (record task { waiting = items }) (answer_request app request) h,
      )
