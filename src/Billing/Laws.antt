-- ===== src/Billing/Laws.antt =====
-- The answers of the tick's endpoint.
use voip_platform.Base.{◌≡◌, refl, true, some, arith, nat_eq}
use voip_platform.Base.Dict.{get}
use voip_platform.Base.Int.{ℤ, pos, ◌-ℤ◌, ◌≤ℤ◌}
use voip_platform.Base.Text.{text_eq}
use voip_platform.Billing.{tick_response, billing_tick}
use voip_platform.Core.{Env, session_not_found}
use voip_platform.Core.Monad.{World, Result, ok, err}
use voip_platform.Credit.{TickResult, process_billing_tick, tick_units}
use voip_platform.Credit.Tick.{tick_continues_only_if_paid}
use voip_platform.Decimal.{Decimal}
use voip_platform.Redis.{Session}
use voip_platform.Schemas.{BillingTickRequest, BillingTickData}

module _ {F : Type 0} (env : Env F) where
  response_data :
      (r : Result (TickResult F))
      → (d : BillingTickData F) × ((tick_response env r).payload ≡ some d)
        × ((tick_response env r).status_code ≡ 200)
  response_data (ok t) = (_, refl, refl)
  response_data (err session_not_found) = (_, refl, refl)
  response_data (err _) = (_, refl, refl)

  response_continues :
      (r : Result (TickResult F)) {d : BillingTickData F}
      → (tick_response env r).payload ≡ some d
      → d.continue_call ≡ true
      → (t : TickResult F) × (r ≡ ok t)
        × (t.continue_call ≡ true)
        × (t.remaining_seconds ≡ d.remaining_seconds)
  response_continues (ok t) e c = (t, refl, ground arith, ground arith)
  response_continues (err session_not_found) e c = absurd (ground arith)
  response_continues (err _) e c = absurd (ground arith)

  -- Every tick is answered with status 200 and data, whether it returned or raised.
  pub billing_tick_answers :
      (body : BillingTickRequest) (w : World)
      → (d : BillingTickData F) × ((billing_tick env body w).0.payload ≡ some d)
        × ((billing_tick env body w).0.status_code ≡ 200)
  unfolding billing_tick
  billing_tick_answers body w =
      response_data
        (process_billing_tick env body.call_uuid body.account_id body.elapsed_seconds w).0

  -- If the answer to a tick lets the call go on, then the call had a session with a price, the
  -- account's balance covered the units of the elapsed time at that price and is lower by exactly
  -- these, and the remaining seconds in the answer reach the minimum.
  pub billing_tick_continues_only_if_paid :
      (body : BillingTickRequest) (w : World) {d : BillingTickData F}
      → (billing_tick env body w).0.payload ≡ some d
      → d.continue_call ≡ true
      → (s : Session) × (rate : Decimal) × (b : ℤ) × (get body.call_uuid w.redis.calls ≡ some s)
        × (s.rate_per_second ≡ some rate)
        × (get body.account_id w.redis.credits ≡ some b)
        × (tick_units env rate body.elapsed_seconds ≤ℤ b)
        × (pos env.settings.credit_min_seconds ≤ℤ d.remaining_seconds)
        × (get body.account_id (billing_tick env body w).1.redis.credits
            ≡ some (b -ℤ tick_units env rate body.elapsed_seconds))
  unfolding billing_tick
  billing_tick_continues_only_if_paid body w {d} e c =
      let run = process_billing_tick env body.call_uuid body.account_id body.elapsed_seconds w in
      let (t, returned, continues, same) = response_continues run.0 e c in
      let (s, rate, b, found, has, held, covered, enough, left) =
        tick_continues_only_if_paid env body.call_uuid body.account_id body.elapsed_seconds w
          returned continues in
      (s, rate, b, found, has, held, covered, rw same at enough, left)
