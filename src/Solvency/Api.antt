-- ===== src/Solvency/Api.antt =====
-- Balances against zero: the API's handlers.
use voip_platform.Base.{ℕ, ◌≡◌, Option, arith, nat_eq}
use voip_platform.Base.Int.{ℤ}
use voip_platform.Base.Text.{Text}
use voip_platform.Call.{Quote, quote_call, insert_stub, open_call, admit_call, authorize_call}
use voip_platform.Call.Quoting.{quote_call-Quiet}
use voip_platform.Core.{Env, key_error, statistics_insert}
use voip_platform.Core.Keeps.{Keeps, Keeps-bind, Keeps-or_raise, keeps_rules}
use voip_platform.Core.Monad.{World, Result, or_raise, ◌>>=◌}
use voip_platform.Credit.{
  atomic_deduct_credit, create_call_session, process_billing_tick, tick_outcome, tick_reply,
  tick_units, get_call_session, charge_tick,
}
use voip_platform.Credit.Deduct.{deduct_step}
use voip_platform.Decimal.{Decimal}
use voip_platform.Schemas.{CallAuthorizeRequest}
use voip_platform.Solvency.{StaysSolvent, solvent_preorder, Solvent-Quiet, at_Solvent}

module _ {F : Type 0} (env : Env F) (k : ℕ) where
  pub deduct-Solvent :
      (id : ℕ) (units : ℤ) → Keeps (StaysSolvent k) (atomic_deduct_credit env id units)
  deduct-Solvent id units = record {
    run = λ w (b, held, p). let (e1, p1) = deduct_step env k id units w held p in (_, e1, p1);
  }

  pub insert-Solvent :
      (body : CallAuthorizeRequest) (q : Quote) → Keeps (StaysSolvent k) (insert_stub env body q)
  unfolding insert_stub
  insert-Solvent body q = at_Solvent env k statistics_insert _ (λ w s. s)

  session_credits :
      (u : Text) (a : ℕ) (m : Decimal) (g : Text) (t n : ℕ) (c st : Option ℕ) (b : Decimal) (i : ℤ)
      (w : World)
      → (create_call_session env u a m g t n c st b i w).1.redis.credits ≡ w.redis.credits
  unfolding create_call_session
  session_credits u a m g t n c st b i w = ground arith

  session-Solvent :
      (u : Text) (a : ℕ) (m : Decimal) (g : Text) (t n : ℕ) (c st : Option ℕ) (b : Decimal) (i : ℤ)
      → Keeps (StaysSolvent k) (create_call_session env u a m g t n c st b i)
  session-Solvent u a m g t n c st b i = record {
    run = λ w s. rw (session_credits u a m g t n c st b i w) s;
  }

  open-Solvent :
      (body : CallAuthorizeRequest) (q : Quote) → Keeps (StaysSolvent k) (open_call env body q)
  unfolding open_call
  open-Solvent body q =
      search (keeps_rules, solvent_preorder k, deduct-Solvent, insert-Solvent, session-Solvent)
        depth 10

  admit-Solvent :
      (body : CallAuthorizeRequest) (q : Quote) → Keeps (StaysSolvent k) (admit_call env body q)
  unfolding admit_call
  admit-Solvent body q = search (keeps_rules, solvent_preorder k, open-Solvent)

  pub authorize_call-Solvent :
      (body : CallAuthorizeRequest) (w : World) → StaysSolvent k w (authorize_call env body w).1
  unfolding authorize_call
  authorize_call-Solvent body w =
      (Keeps-bind ⦃p = solvent_preorder k⦄ (quote_call env body) (admit_call env body)
          (Solvent-Quiet k (quote_call env body) (quote_call-Quiet env body))
          (admit-Solvent body)).run
        w

  reply_credits :
      (u : Text) (rate : Decimal) (units : ℤ) (r : Result ℤ) (w : World)
      → (tick_reply env u rate units r w).1.redis.credits ≡ w.redis.credits
  unfolding tick_reply tick_outcome
  reply_credits u rate units r w = ground arith

  charge-Solvent :
      (u : Text) (rate : Decimal) (id : ℕ) (units : ℤ) (w : World)
      → let (r, w1) = atomic_deduct_credit env id units w in
        StaysSolvent k w (tick_reply env u rate units r w1).1
  charge-Solvent u rate id units w s =
      let (r, w1) = atomic_deduct_credit env id units w in
      rw (reply_credits u rate units r w1) ((deduct-Solvent id units).run w s)

  get_call_session-Solvent : (u : Text) → Keeps (StaysSolvent k) (get_call_session env u)
  unfolding get_call_session
  get_call_session-Solvent u = search (keeps_rules, solvent_preorder k)

  pub tick-Solvent :
      (u : Text) (id elapsed : ℕ) → Keeps (StaysSolvent k) (process_billing_tick env u id elapsed)
  unfolding process_billing_tick
  tick-Solvent u id elapsed =
      Keeps-bind ⦃p = solvent_preorder k⦄ (get_call_session env u)
        (λ session. or_raise session.rate_per_second key_error >>= charge_tick env u id elapsed)
        (get_call_session-Solvent u)
        (λ session.
          Keeps-bind ⦃p = solvent_preorder k⦄ (or_raise session.rate_per_second key_error)
            (charge_tick env u id elapsed)
            (Keeps-or_raise ⦃p = solvent_preorder k⦄ session.rate_per_second key_error)
            (λ rate. record { run = charge-Solvent u rate id (tick_units env rate elapsed) }))
