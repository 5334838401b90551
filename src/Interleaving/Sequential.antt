-- ===== src/Interleaving/Sequential.antt =====
-- A handler that nothing interrupts, and the handlers one after another, as schedules of the pool.
use voip_platform.Base.{List, [], ◌∷◌, ◌++◌}
use voip_platform.Billing.{billing_tick}
use voip_platform.Call.{authorize_call}
use voip_platform.Core.{Env}
use voip_platform.Core.Coroutine.{finished, awaits}
use voip_platform.Core.Monad.{World, Result, M, lift}
use voip_platform.Interleaving.{Handler}
use voip_platform.Interleaving.Schedule.{
  Running, running, Start, Moves, start, resume, session_expiring, account_expiring, stay, move,
  Moves-trans,
}
use voip_platform.System.{Step, Steps, step}

-- A handler with nothing left to do.
abbrev pub ended : {F : Type 0} (env : Env F) {A : Type 0} → Result A → Running F
ended env r = let over : Handler env (lift r) = finished r in running env over

module _ {F : Type 0} where
  -- A handler of the pool that goes on to its end while the others wait leaves the world and the
  -- result that its code gives.
  pub runs_alone :
      (env : Env F) {A : Type 0} (m : M A) (cut : Handler env m) (w : World)
      (before after : List (Running F))
      → Moves
          (record { world = w; handlers = before ++ (running env cut ∷ after) })
          (record { world = (m w).1; handlers = before ++ (ended env (m w).0 ∷ after) })
  runs_alone env _ (finished r) w before after = stay _
  runs_alone env _ (awaits m rest act cut) w before after =
      let (r, w1) = m w in
      move (resume env w before after m rest act cut)
        (runs_alone env (rest r) (cut r) w1 before after)

  started :
      {env : Env F} {A : Type 0} {m : M A} {cut : Handler env m} (w : World) (hs : List (Running F))
      → Start (running env cut)
      → (hs' : List (Running F)) × Moves
          (record { world = w; handlers = hs })
          (record { world = (m w).1; handlers = hs' })
  started {env} {m} {cut} w hs s = (_, move (start w hs s) (runs_alone env m cut w [] hs))

  Step-Moves :
      {w w' : World} (hs : List (Running F))
      → Step F w w'
      → (hs' : List (Running F)) × Moves
          (record { world = w; handlers = hs })
          (record { world = w'; handlers = hs' })
  unfolding authorize_call billing_tick
  Step-Moves hs (Step.authorizing env body w) = started w hs (Start.authorizing env body)
  Step-Moves hs (Step.ticking env body w) = started w hs (Start.ticking env body)
  Step-Moves hs (Step.handling env event w) = started w hs (Start.handling env event)
  Step-Moves hs (Step.recovering env output w) = started w hs (Start.recovering env output)
  Step-Moves hs (Step.session_expiring u w) = (hs, move (session_expiring u w hs) (stay _))
  Step-Moves hs (Step.account_expiring t w) = (hs, move (account_expiring t w hs) (stay _))

  -- Any sequence of whole handlers and expiries, one after the other, is one of the interleavings:
  -- from a pool with any other handlers waiting, there are moves to the same world. So a handler
  -- that nothing interrupts does, action by action, what its code does at once.
  pub Steps-Moves :
      {w w' : World} (hs : List (Running F))
      → Steps F w w'
      → (hs' : List (Running F)) × Moves
          (record { world = w; handlers = hs })
          (record { world = w'; handlers = hs' })
  Steps-Moves hs (Steps.stay w) = (hs, stay _)
  Steps-Moves hs (step {u} {v} {w} s rest) =
      let (hs1, first) = Step-Moves hs s in
      let (hs2, more) = Steps-Moves hs1 rest in (hs2, Moves-trans first more)
