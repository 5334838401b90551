-- ===== src/Call/Lost.antt =====
-- A failure between the deduction of the first block and the end of an authorization.
use voip_platform.Base.{◌≡◌, refl, true, false, some, arith, nat_eq, ==-refl}
use voip_platform.Base.Dict.{get, put, get-put}
use voip_platform.Base.Int.{ℤ, pos, ◌-ℤ◌, ◌≤ℤ◌}
use voip_platform.Call.{
  Quote, quote_call, slot_units_of, open_call, admit_call, answer, authorize_call,
}
use voip_platform.Core.{Env, deduct_eval, statistics_insert, io_error}
use voip_platform.Core.Monad.{World, ok, err}
use voip_platform.Credit.Deduct.{with_credit, atomic_deduct_credit_lem}
use voip_platform.Schemas.{CallAuthorizeRequest}

module _ {F : Type 0} (env : Env F) (body : CallAuthorizeRequest) where
  abbrev slot_of : Quote → ℤ
  slot_of q = slot_units_of env.settings.credit_block_max_seconds q.rate_per_minute q.avb_time

  open_lost :
      (q : Quote) (v : World) {balance : ℤ}
      → get q.customer.id v.redis.credits ≡ some balance
      → slot_of q ≤ℤ balance
      → env.fails deduct_eval ≡ false
      → env.fails statistics_insert ≡ true
      → open_call env body q v ≡ (err io_error, with_credit q.customer.id (balance -ℤ slot_of q) v)
  unfolding open_call
  open_lost q v held covered up down =
      ground (arith, atomic_deduct_credit_lem env q.customer.id (slot_of q) v)

  failed_insert_runs :
      (w v : World) (q : Quote) {balance : ℤ}
      → quote_call env body w ≡ (ok q, v)
      → pos env.settings.credit_min_seconds ≤ℤ q.avb_time
      → get q.customer.id v.redis.credits ≡ some balance
      → slot_of q ≤ℤ balance
      → env.fails deduct_eval ≡ false
      → env.fails statistics_insert ≡ true
      → authorize_call env body w
        ≡ (answer env (err io_error), with_credit q.customer.id (balance -ℤ slot_of q) v)
  unfolding authorize_call admit_call
  failed_insert_runs w v q {balance} quoted enough held covered up down =
      ground (arith, quoted, open_lost q v held covered up down)

  -- If the insert of the stub row fails in an authorization that had reached it, with the time
  -- quoted at least the minimum and the first block covered by the balance, then the answer is 500
  -- and the balance is lower by the first block, while no session is opened and no row is written.
  pub failed_insert_keeps_block :
      (w v : World) (q : Quote) {balance : ℤ}
      → quote_call env body w ≡ (ok q, v)
      → pos env.settings.credit_min_seconds ≤ℤ q.avb_time
      → get q.customer.id v.redis.credits ≡ some balance
      → slot_of q ≤ℤ balance
      → env.fails deduct_eval ≡ false
      → env.fails statistics_insert ≡ true
      → let (response, after) = authorize_call env body w in
        (response.status_code ≡ 500)
        × (get q.customer.id after.redis.credits ≡ some (balance -ℤ slot_of q))
        × (after.redis.calls ≡ v.redis.calls)
        × (after.db ≡ v.db)
  failed_insert_keeps_block w v q {balance} quoted enough held covered up down =
      let left : get q.customer.id (put q.customer.id (balance -ℤ slot_of q) v.redis.credits)
          ≡ some (balance -ℤ slot_of q) =
        rw (get-put, ==-refl q.customer.id) refl in
      rw (failed_insert_runs w v q quoted enough held covered up down) (refl, left, refl, refl)
