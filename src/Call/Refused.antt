-- ===== src/Call/Refused.antt =====
-- What a refused call leaves behind.
use voip_platform.Base.{◌≡◌, ◌≢◌, arith, nat_eq}
use voip_platform.Core.{Env}
use voip_platform.Core.Monad.{World, Result, ok, err, lift, ◌>>=◌}
use voip_platform.Core.Quiet.{Reads}
use voip_platform.Credit.{create_call_session}
use voip_platform.Credit.Deduct.{atomic_deduct_credit_lem}
use voip_platform.Call.{
  Quote, quote_call, slot_units_of, open_call, admit_call, answer, authorize_call,
}
use voip_platform.Call.Quoting.{quote_call-Quiet}
use voip_platform.Schemas.{ApiResponse, CallAuthorizeRequest}

-- A response that is neither a success nor an internal error.
abbrev pub IsRefusal : {D : Type 0} → ApiResponse D → Type 0
IsRefusal response = (response.status_code ≢ 200) × (response.status_code ≢ 500)

module _ {F : Type 0} (env : Env F) (body : CallAuthorizeRequest) where
  open_refused :
      (q : Quote) (w : World)
      → IsRefusal (answer env (open_call env body q w).0)
      → (open_call env body q w).1 ≡ w
  unfolding open_call create_call_session
  open_refused q w h = ground (
    arith,
    atomic_deduct_credit_lem env q.customer.id
        (slot_units_of env.settings.credit_block_max_seconds q.rate_per_minute q.avb_time) w,
  )

  admit_refused :
      (q : Quote) (w : World)
      → IsRefusal (answer env (admit_call env body q w).0)
      → (admit_call env body q w).1 ≡ w
  unfolding admit_call
  admit_refused q w h = ground (arith, open_refused q w)

  continue_refused :
      (r : Result Quote) (w w1 : World)
      → Reads w w1
      → let (r', w2) = (lift r >>= admit_call env body) w1 in IsRefusal (answer env r') → Reads w w2
  continue_refused (ok q) w w1 reads h = rw (admit_refused q w1 h) reads
  continue_refused (err e) w w1 reads h = reads

  -- An authorization whose status is neither 200 nor 500 leaves the tables, the calls and the call
  -- counters as they were, and every balance that Redis held.
  pub authorize_refused :
      (w : World) → IsRefusal (authorize_call env body w).0 → Reads w (authorize_call env body w).1
  unfolding authorize_call
  authorize_refused w h =
      let (r, w1) = quote_call env body w in
      continue_refused r w w1 ((quote_call-Quiet env body).run w) h
