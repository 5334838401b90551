-- ===== src/Billing/Refusal.antt =====
-- A tick that the balance does not cover.
use voip_platform.Base.{◌≡◌, refl, true, false, some, arith, nat_eq}
use voip_platform.Base.Dict.{get}
use voip_platform.Base.Int.{ℤ, pos, ◌<ℤ◌}
use voip_platform.Base.Text.{text_eq}
use voip_platform.Billing.{billing_tick}
use voip_platform.Core.{Env, session_hgetall, deduct_eval, insufficient_credit}
use voip_platform.Core.Monad.{World, ok, err}
use voip_platform.Credit.{
  credit_scale, atomic_deduct_credit, process_billing_tick, tick_reply, tick_outcome, tick_units,
}
use voip_platform.Credit.Deduct.{atomic_deduct_credit_lem}
use voip_platform.Decimal.{Decimal}
use voip_platform.Redis.{Session}
use voip_platform.Schemas.{BillingTickRequest}

module _ {F : Type 0} (env : Env F) (body : BillingTickRequest) (w : World) where
  deduct_refused :
      (units : ℤ) {balance : ℤ}
      → get body.account_id w.redis.credits ≡ some balance
      → balance <ℤ units
      → env.fails deduct_eval ≡ false
      → atomic_deduct_credit env body.account_id units w ≡ (err insufficient_credit, w)
  deduct_refused units held short up =
      ground (arith, atomic_deduct_credit_lem env body.account_id units w)

  tick_refused :
      {session : Session} {rate : Decimal} {balance : ℤ}
      → get body.call_uuid w.redis.calls ≡ some session
      → session.rate_per_second ≡ some rate
      → get body.account_id w.redis.credits ≡ some balance
      → balance <ℤ tick_units env rate body.elapsed_seconds
      → env.fails session_hgetall ≡ false
      → env.fails deduct_eval ≡ false
      → process_billing_tick env body.call_uuid body.account_id body.elapsed_seconds w ≡ (
        ok (record {
          continue_call = false;
          remaining_seconds = pos 0;
          deducted = env.floats.ratio (tick_units env rate body.elapsed_seconds) credit_scale;
        }),
        w,
      )
  unfolding process_billing_tick tick_reply tick_outcome
  tick_refused {session} {rate} {balance} found price held short reachable up =
      ground (arith, deduct_refused (tick_units env rate body.elapsed_seconds) held short up)

  -- A tick of a call with a price, on an account whose balance is below the units of the elapsed
  -- time, is answered as a success that ends the call with no second left and with the units as the
  -- deducted amount, and changes nothing: no unit is deducted. Neither the read of the session nor
  -- the deduction fails.
  pub billing_tick_refuses :
      {session : Session} {rate : Decimal} {balance : ℤ}
      → get body.call_uuid w.redis.calls ≡ some session
      → session.rate_per_second ≡ some rate
      → get body.account_id w.redis.credits ≡ some balance
      → balance <ℤ tick_units env rate body.elapsed_seconds
      → env.fails session_hgetall ≡ false
      → env.fails deduct_eval ≡ false
      → ((billing_tick env body w).0.success ≡ true)
        × ((billing_tick env body w).0.payload
            ≡ some (record {
              continue_call = false;
              remaining_seconds = pos 0;
              deducted_amount =
                  env.floats.ratio (tick_units env rate body.elapsed_seconds) credit_scale;
            }))
        × ((billing_tick env body w).1 ≡ w)
  unfolding billing_tick
  billing_tick_refuses found price held short reachable up =
      rw (tick_refused found price held short reachable up) (refl, refl, refl)
