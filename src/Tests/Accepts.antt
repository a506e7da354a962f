-- ===== src/Tests/Accepts.antt =====
-- The accept loop at concrete connections.
use fanta.Prelude.{◌+◌, ◌≤◌, ◌≡◌, refl, ◌⊎◌, [], ◌∷◌, List, ok, err, Result, IoError, map, All}
use fanta.Text.{codes}
use fanta.Basic.{basic_context}
use fanta.Http.Request.{new_request}
use fanta.Server.Accept.{
  Stream, new_task, round, spawning, State, bound, Step, accepts, runs, Run, begins, continues,
}
use fanta.Server.Accept.Fates.{outcome_of, IsEnded, work, serve}
use fanta.Server.Accept.Serves.{build-serves}
use fanta.Tests.Services.{app, takes}

-- A connection with a request, one that fails, and one that is closed at once.
abbrev asking : Stream
asking = record { items = ok new_request ∷ []; send = takes }

abbrev closed : Stream
closed = record { items = []; send = takes }

abbrev failed : Result Stream IoError
failed = err (record { message = codes "reset" })

abbrev incoming : List (Result Stream IoError)
incoming = ok asking ∷ failed ∷ ok closed ∷ []

-- The second connection is served before the first.
abbrev served : State
served = record {
  incoming = [];
  tasks =
      round ⦃c = basic_context⦄ app (new_task asking) (ok new_request ∷ [])
      ∷ round ⦃c = basic_context⦄ app (new_task closed) []
      ∷ [];
}

served-Run : Run ⦃c = basic_context⦄ spawning app (bound incoming) 5 served
served-Run =
    continues
      (continues
        (continues
          (continues (continues begins (accepts {spawned = new_task asking ∷ []} refl refl))
            (accepts {spawned = []} refl refl))
          (accepts {spawned = new_task closed ∷ []} refl refl))
        (runs (new_task asking ∷ []) (new_task closed) [] refl refl))
      (runs [] (new_task asking) (round ⦃c = basic_context⦄ app (new_task closed) [] ∷ []) refl
        refl)

build-serves_example :
    (5 + work served ≤ work (bound incoming))
    × (((t : State) × Step ⦃c = basic_context⦄ spawning app served t)
        ⊎ ((served.incoming ≡ [])
            × (All IsEnded served.tasks
                × (map outcome_of served.tasks
                    ≡ map (serve ⦃c = basic_context⦄ app) (asking ∷ closed ∷ [])))))
build-serves_example = build-serves ⦃c = basic_context⦄ app incoming served-Run
