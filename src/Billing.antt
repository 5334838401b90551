-- ===== src/Billing.antt =====
-- app/routers/billing.py: POST /v1/billing/tick.
pub mod Laws
pub mod Refusal
use voip_platform.Base.{ℕ, Bool, true, false, Option, none, some}
use voip_platform.Base.Int.{ℤ, pos}
use voip_platform.Base.Text.{Text, codes}
use voip_platform.Core.{Error, Env, session_not_found}
use voip_platform.Core.Monad.{World, Result, ok, err}
use voip_platform.Credit.{TickResult, process_billing_tick}
use voip_platform.Decimal.{dec}
use voip_platform.Schemas.{ApiResponse, BillingTickRequest, BillingTickData}

module _ {F : Type 0} (env : Env F) where
  -- `_TICK_FAIL_RESPONSE`
  abbrev fail_data : BillingTickData F
  fail_data = record {
    continue_call = false;
    remaining_seconds = pos 0;
    deducted_amount = env.floats.of_decimal (dec 0 0);
  }

  abbrev failure : Text → ApiResponse (BillingTickData F)
  failure error = record {
    status_code = 200;
    success = false;
    payload = some fail_data;
    error = some error;
    request_id = env.request_id;
  }

  -- The response to a tick that returned, and the `except` clauses.
  abbrev pub tick_response : Result (TickResult F) → ApiResponse (BillingTickData F)
  tick_response (ok t) = record {
    status_code = 200;
    success = true;
    payload = some (record {
      continue_call = t.continue_call;
      remaining_seconds = t.remaining_seconds;
      deducted_amount = t.deducted;
    });
    error = none;
    request_id = env.request_id;
  }
  tick_response (err session_not_found) = failure (codes "SESSION_NOT_FOUND")
  tick_response (err _) = failure (codes "INTERNAL_ERROR")

  unfoldable pub billing_tick : BillingTickRequest → World → ApiResponse (BillingTickData F) × World
  billing_tick body w =
      let (r, w') =
        process_billing_tick env body.call_uuid body.account_id body.elapsed_seconds w in
      (tick_response r, w')
