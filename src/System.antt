-- ===== src/System.antt =====
-- The API and the worker together: their handlers run one after another on the same Redis and the
-- same tables, in any order. Each has its own clock and its own failures, so each step has its own
-- environment.
use voip_platform.Base.{ℕ, ◌+◌, ◌≡◌, refl, [], nat_eq}
use voip_platform.Base.Dict.{remove}
use voip_platform.Base.Text.{Text, text_eq}
use voip_platform.Billing.{billing_tick}
use voip_platform.Call.{authorize_call}
use voip_platform.Core.{Env}
use voip_platform.Core.Monad.{World}
use voip_platform.Links.{KeepsLinks, AllLinked, Links-fewer, Links-remove}
use voip_platform.Links.Api.{authorize_call-Links, tick-Links}
use voip_platform.Links.Worker.{dispatch-Links, reconcile-Links}
use voip_platform.Log.{Extends, Extends-refl, Extends-trans, Extends-same, row_ids, ids_from}
use voip_platform.Log.Api.{authorize_call-Extends, tick-Extends}
use voip_platform.Log.Worker.{dispatch-Extends, reconcile-Extends}
use voip_platform.Schemas.{CallAuthorizeRequest, BillingTickRequest}
use voip_platform.Solvency.{IsSolvent, StaysSolvent, dispatch-Solvent, reconcile-Solvent}
use voip_platform.Solvency.Api.{authorize_call-Solvent, tick-Solvent}
use voip_platform.Worker.Answer.{Event}
use voip_platform.Worker.Loop.{dispatch}
use voip_platform.Worker.Reconcile.{reconcile_on_startup}

-- The session of a call, gone two hours after it was last set to expire.
abbrev pub expire_session : Text → World → World
expire_session call_uuid w = record w {
  redis = record w.redis { calls = remove call_uuid w.redis.calls };
}

-- The cache entry of an account, gone after five minutes.
abbrev pub expire_account : Text → World → World
expire_account token w = record w {
  redis = record w.redis { accounts = remove token w.redis.accounts };
}

pub data Step (F : Type 0) : World → World → Type 0 where
  authorizing :
      (env : Env F) (body : CallAuthorizeRequest) (w : World)
      → Step F w (authorize_call env body w).1
  ticking :
      (env : Env F) (body : BillingTickRequest) (w : World) → Step F w (billing_tick env body w).1
  handling : (env : Env F) (event : Event) (w : World) → Step F w (dispatch env event w).1
  recovering :
      (env : Env F) (output : Text) (w : World) → Step F w (reconcile_on_startup env output w).1
  session_expiring : (call_uuid : Text) (w : World) → Step F w (expire_session call_uuid w)
  account_expiring : (token : Text) (w : World) → Step F w (expire_account token w)

pub data Steps (F : Type 0) : World → World → Type 0 where
  stay : (w : World) → Steps F w w
  step : {u v w : World} → Step F u v → Steps F v w → Steps F u w

module _ {F : Type 0} where
  Step-Extends : {w w' : World} → Step F w w' → Extends w w'
  unfolding billing_tick
  Step-Extends (authorizing env body w) = authorize_call-Extends env body w
  Step-Extends (ticking env body w) =
      (tick-Extends env body.call_uuid body.account_id body.elapsed_seconds).run w
  Step-Extends (handling env event w) = (dispatch-Extends env event).run w
  Step-Extends (recovering env output w) = (reconcile-Extends env output).run w
  Step-Extends (session_expiring call_uuid w) = Extends-same w _ refl refl refl
  Step-Extends (account_expiring token w) = Extends-same w _ refl refl refl

  -- Over any sequence of authorizations, ticks, ESL events, recoveries and expiries, each with its
  -- own clock and failures, the tracings are only added to at the end, no row of statistics is
  -- removed or reordered, and the ids of the new rows are those that the sequence gives out, in
  -- order.
  pub Steps-Extends : {w w' : World} → Steps F w w' → Extends w w'
  Steps-Extends (stay w) = Extends-refl w
  Steps-Extends (step {u} {v} {w} s rest) =
      Extends-trans u v w (Step-Extends s) (Steps-Extends rest)

  Step-Solvent : (k : ℕ) {w w' : World} → Step F w w' → StaysSolvent k w w'
  unfolding billing_tick
  Step-Solvent k (authorizing env body w) = authorize_call-Solvent env k body w
  Step-Solvent k (ticking env body w) =
      (tick-Solvent env k body.call_uuid body.account_id body.elapsed_seconds).run w
  Step-Solvent k (handling env event w) = (dispatch-Solvent env k event).run w
  Step-Solvent k (recovering env output w) = (reconcile-Solvent env k output).run w
  Step-Solvent k (session_expiring call_uuid w) = λ s. s
  Step-Solvent k (account_expiring token w) = λ s. s

  -- If Redis holds a balance for an account and it is not below zero, this is still so after any
  -- sequence of authorizations, ticks, ESL events, recoveries and expiries, each with its own clock
  -- and failures.
  pub Steps-Solvent : (k : ℕ) {w w' : World} → Steps F w w' → IsSolvent k w → IsSolvent k w'
  Steps-Solvent k (stay w) s = s
  Steps-Solvent k (step first rest) s = Steps-Solvent k rest (Step-Solvent k first s)

  -- From a table with no row of statistics, any sequence of the program's steps leaves rows whose
  -- ids are the consecutive numbers that the sequence gave out, none twice.
  pub Steps-numbered :
      {w w' : World}
      → Steps F w w'
      → w.db.statistics ≡ []
      → (n : ℕ) × (row_ids w'.db.statistics ≡ ids_from w.db.next_statistics_id n)
        × (w'.db.next_statistics_id ≡ w.db.next_statistics_id + n)
  Steps-numbered steps empty =
      let e = Steps-Extends steps in (e.new_rows, rw empty at e.rows, e.next)

  Step-Links : {w w' : World} → Step F w w' → KeepsLinks w w'
  unfolding billing_tick
  Step-Links (authorizing env body w) = authorize_call-Links env body w
  Step-Links (ticking env body w) =
      (tick-Links env body.call_uuid body.account_id body.elapsed_seconds).run w
  Step-Links (handling env event w) = (dispatch-Links env event).run w
  Step-Links (recovering env output w) = (reconcile-Links env output).run w
  Step-Links (session_expiring call_uuid w) = (Links-remove call_uuid).run w
  Step-Links (account_expiring token w) = Links-fewer w _ (λ id u. refl) (λ u s held. held)

  -- If the row of statistics that any session names is there and has the session's call as its uuid,
  -- this is still so after any sequence of whole authorizations, ticks, ESL events, recoveries and
  -- expiries, each with its own clock and failures, wherever in its writes a handler may break off.
  pub Steps-AllLinked : {w w' : World} → Steps F w w' → AllLinked w → AllLinked w'
  Steps-AllLinked (stay w) linked = linked
  Steps-AllLinked (step first rest) linked = Steps-AllLinked rest ((Step-Links first).linked linked)
