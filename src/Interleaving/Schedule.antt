-- ===== src/Interleaving/Schedule.antt =====
-- The program as a pool of handlers that run side by side on one Redis and one database.
use voip_platform.Base.{List, ◌∷◌, ◌++◌, nat_eq}
use voip_platform.Base.Text.{Text}
use voip_platform.Core.{Env}
use voip_platform.Core.Coroutine.{awaits}
use voip_platform.Core.Monad.{World, Result, M}
use voip_platform.Interleaving.{Action, Handler}
use voip_platform.Interleaving.Api.{authorize_call-cut, tick-cut}
use voip_platform.Interleaving.Worker.{dispatch-cut, reconcile-cut}
use voip_platform.Schemas.{CallAuthorizeRequest, BillingTickRequest}
use voip_platform.System.{expire_session, expire_account}
use voip_platform.Worker.Answer.{Event}

-- A handler that has been started, with its own clock and failures, and what it still has to do.
pub record Running (F : Type 0) : Type 1 where
  pub env : Env F
  pub A : Type 0
  pub code : M A
  pub cut : Handler env code

pub record Pool (F : Type 0) : Type 1 where
  pub world : World
  pub handlers : List (Running F)

abbrev pub running : {F : Type 0} (env : Env F) {A : Type 0} {m : M A} → Handler env m → Running F
running env {A} {m} cut = record { env = env; A = A; code = m; cut = cut }

-- A request or an event that comes in starts a handler.
pub data Start {F : Type 0} : Running F → Type 1 where
  authorizing :
      (env : Env F) (body : CallAuthorizeRequest)
      → Start (running env (authorize_call-cut env body))
  ticking :
      (env : Env F) (body : BillingTickRequest)
      → Start (running env (tick-cut env body.call_uuid body.account_id body.elapsed_seconds))
  handling : (env : Env F) (event : Event) → Start (running env (dispatch-cut env event))
  recovering : (env : Env F) (output : Text) → Start (running env (reconcile-cut env output))

-- One move: a handler starts, any one of them runs its next action, or a key's time to live ends.
pub data Move {F : Type 0} : Pool F → Pool F → Type 1 where
  start :
      {h : Running F} (w : World) (hs : List (Running F))
      → Start h
      → Move (record { world = w; handlers = hs }) (record { world = w; handlers = h ∷ hs })
  resume :
      (env : Env F) {A B : Type 0} (w : World) (before after : List (Running F)) (m : M B)
      (rest : Result B → M A) (act : Action env B m) (cut : (r : Result B) → Handler env (rest r))
      → Move
          (record { world = w; handlers = before ++ (running env (awaits m rest act cut) ∷ after) })
          (record { world = (m w).1; handlers = before ++ (running env (cut (m w).0) ∷ after) })
  session_expiring :
      (call_uuid : Text) (w : World) (hs : List (Running F))
      → Move
          (record { world = w; handlers = hs })
          (record { world = expire_session call_uuid w; handlers = hs })
  account_expiring :
      (token : Text) (w : World) (hs : List (Running F))
      → Move
          (record { world = w; handlers = hs })
          (record { world = expire_account token w; handlers = hs })

pub data Moves {F : Type 0} : Pool F → Pool F → Type 1 where
  stay : (p : Pool F) → Moves p p
  move : {p q r : Pool F} → Move p q → Moves q r → Moves p r

pub Moves-trans : {F : Type 0} {p q r : Pool F} → Moves p q → Moves q r → Moves p r
Moves-trans (stay p) n = n
Moves-trans (move first rest) n = move first (Moves-trans rest n)
