-- ===== src/Server/Accept/Serves.antt =====
-- Whatever the order in which the tasks of thruster/src/server/homegrown_server.rs run, each serves
-- its connection as `process` alone does.
use mathlib.Core.List.{map-append}
use mathlib.Core.Option.{some-injective}
use fanta.Prelude.{
  ℕ, ◌+◌, ◌≤◌, ◌<◌, ◌≡◌, refl, sym, ap, ◌∙◌, ◌⊎◌, inl, inr, Option-cases, Option, none, some, List,
  [], ◌∷◌, ◌++◌, map, append_assoc, append-nil, All, Result, ok, err, IoError, arith,
}
use fanta.Context.{Context}
use fanta.App.{App}
use fanta.Http.Request.{Request}
use fanta.Http.Response.{Response}
use fanta.Server.{Served}
use fanta.Server.Accept.{
  Stream, Task, new_task, round, spawning, State, bound, Step, accepts, runs, Run, begins,
  continues,
}
use fanta.Server.Accept.Fates.{
  streams, outcome_at, outcome_of, IsEnded, rounds_at, work_of, work_ahead, work, with_sent-nil,
  serve, fate_at, fate, round-fate, round-lt,
}

work_of-append : (a b : List Task) → work_of (a ++ b) ≡ work_of a + work_of b
work_of-append [] b = omega arith
work_of-append (task ∷ a) b = omega (arith, work_of-append a b)

-- The first task that did not end.
waiting_or_ended :
    (tasks : List Task)
    → ((before : List Task) × ((task : Task) × ((after : List Task) × ((tasks
                ≡ before ++ task ∷ after)
              × (task.ended ≡ none)))))
      ⊎ All IsEnded tasks
waiting_or_ended [] = inr tt
waiting_or_ended (task ∷ tasks) = elim (Option-cases task.ended) [
  | inl h ↦ inl ([], (task, (tasks, (refl, h))))
  | inr (ended, h) ↦ elim (waiting_or_ended tasks) [
    | inl (before, (t, (after, (e, d)))) ↦
        inl (task ∷ before, (t, (after, (ap (λ l. task ∷ l) e, d))))
    | inr all ↦ inr ((ended, h), all)
  ]
]

-- Connections that are ended are all served.
module _ {ℓ σ} {T : Type ℓ} {S : Type σ} ⦃c : Context T Response⦄ (app : App Request T S) where
  -- What the tasks, and the connections to come, will have come to.
  abbrev fates : State → List (Option Served)
  fates s = map (fate app) s.tasks ++ map (serve app) (streams s.incoming)

  spawned-fates :
      (one : Result Stream IoError) (rest : List (Result Stream IoError)) (spawned : List Task)
      → spawning one ≡ some spawned
      → map (fate app) spawned ++ map (serve app) (streams rest)
        ≡ map (serve app) (streams (one ∷ rest))
  spawned-fates (ok stream) rest spawned e =
      rw (← some-injective _ _ e)
        (ap (λ o. o ∷ map (serve app) (streams rest)) (with_sent-nil (serve app stream)))
  spawned-fates (err _) rest spawned e = rw (← some-injective _ _ e) refl

  spawned-work :
      (one : Result Stream IoError) (rest : List (Result Stream IoError)) (spawned : List Task)
      → spawning one ≡ some spawned
      → work_of spawned + work_ahead rest < work_ahead (one ∷ rest)
  spawned-work (ok stream) rest spawned e = rw (← some-injective _ _ e) (omega arith)
  spawned-work (err _) rest spawned e = rw (← some-injective _ _ e) (omega arith)

  Step-fates : {s t : State} → Step spawning app s t → fates t ≡ fates s
  Step-fates {s} (accepts {one} {rest} {spawned} e d) =
      ap (λ l. l ++ map (serve app) (streams rest)) (map-append (fate app) s.tasks spawned)
      ∙ append_assoc (map (fate app) s.tasks) (map (fate app) spawned)
          (map (serve app) (streams rest))
      ∙ ap (λ l. map (fate app) s.tasks ++ l)
          (spawned-fates one rest spawned d ∙ ap (λ l. map (serve app) (streams l)) (sym e))
  Step-fates {s} (runs before task after e d) =
      let kept : fate app (round app task task.waiting) ≡ fate app task =
        round-fate app task task.waiting d ∙ sym (ap (fate_at app task) d) in
      ap (λ l. l ++ map (serve app) (streams s.incoming))
        (map-append (fate app) before (round app task task.waiting ∷ after)
          ∙ ap (λ o. map (fate app) before ++ o ∷ map (fate app) after) kept
          ∙ sym (map-append (fate app) before (task ∷ after))
          ∙ ap (map (fate app)) (sym e))

  Step-work : {s t : State} → Step spawning app s t → work t < work s
  Step-work {s} (accepts {one} {rest} {spawned} e d) =
      omega
        (arith, work_of-append s.tasks spawned, spawned-work one rest spawned d, ap work_ahead e)
  Step-work {s} (runs before task after e d) = omega (
    arith,
    work_of-append before (task ∷ after),
    work_of-append before (round app task task.waiting ∷ after),
    ap work_of e,
    round-lt app task task.waiting d,
    ap (rounds_at task) d,
  )

  outcome-fate :
      (tasks : List Task) → All IsEnded tasks → map outcome_of tasks ≡ map (fate app) tasks
  outcome-fate [] h = refl
  outcome-fate (task ∷ tasks) ((ended, e), h) =
      ap (λ o. o ∷ map outcome_of tasks) (ap (outcome_at task) e ∙ sym (ap (fate_at app task) e))
      ∙ ap (λ l. fate app task ∷ l) (outcome-fate tasks h)

  Run-fates :
      {start s : State} {n : ℕ}
      → Run spawning app start n s
      → (fates s ≡ fates start) × (n + work s ≤ work start)
  Run-fates begins = (refl, omega arith)
  Run-fates (continues r step) =
      let (same, less) = Run-fates r in
      (Step-fates step ∙ same, omega (arith, less, Step-work step))

  -- A step can be taken, unless everything is done.
  more_or_done :
      (s : State) (incoming : List (Result Stream IoError))
      → s.incoming ≡ incoming
      → ((t : State) × Step spawning app s t) ⊎ ((s.incoming ≡ []) × All IsEnded s.tasks)
  more_or_done s (ok stream ∷ rest) e = inl (_, accepts {spawned = new_task stream ∷ []} e refl)
  more_or_done s (err x ∷ rest) e = inl (_, accepts {spawned = []} e refl)
  more_or_done s [] e = elim (waiting_or_ended s.tasks) [
    | inl (before, (task, (after, (d, h)))) ↦ inl (_, runs before task after d h)
    | inr all ↦ inr (e, all)
  ]

  -- However the runtime orders the rounds of the tasks and the accepting, the loop of `build` takes
  -- at most as many steps as there are connections, items and ends of streams; and a state in which
  -- no step can be taken has accepted every connection, and the task of each has ended as `process`
  -- alone does on it, with the same responses in the same order, panics included.
  pub build-serves :
      {n : ℕ} {s : State} (incoming : List (Result Stream IoError))
      → Run spawning app (bound incoming) n s
      → (n + work s ≤ work (bound incoming))
        × (((t : State) × Step spawning app s t)
            ⊎ ((s.incoming ≡ [])
                × (All IsEnded s.tasks
                    × (map outcome_of s.tasks ≡ map (serve app) (streams incoming)))))
  build-serves {n} {s} incoming r =
      let (same, less) = Run-fates r in
      (
        less,
        elim (more_or_done s s.incoming refl) [
          | inl step ↦ inl step
          | inr (done, all) ↦ inr (
            done,
            (
              all,
              outcome-fate s.tasks all
                  ∙ sym (append-nil (map (fate app) s.tasks))
                  ∙ ap (λ l. map (fate app) s.tasks ++ map (serve app) (streams l)) (sym done)
                  ∙ same,
            ),
          )
        ],
      )
