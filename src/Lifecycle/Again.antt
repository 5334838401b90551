-- ===== src/Lifecycle/Again.antt =====
-- A call that is authorized again while its session is open, as after an answer that got lost:
-- call_authorize of backend/app/routers/call.py, and the hangup.
use voip_platform.Base.{ℕ, ◌≡◌, sym, true, false, some, List, arith, nat_eq}
use voip_platform.Base.Dict.{get}
use voip_platform.Base.Int.{ℤ, ◌-ℤ◌, min_ℤ}
use voip_platform.Base.Text.{Text, text_eq, codes, is_nonempty}
use voip_platform.Call.{slot_units_of, authorize_call}
use voip_platform.Call.Granted.{IsGranted, authorize_call-IsGranted}
use voip_platform.Core.{Env, session_hgetall, tick_hset, tick_hincrby, refund_incrby}
use voip_platform.Core.Monad.{World, ok}
use voip_platform.Core.Quiet.{Reads}
use voip_platform.Decimal.{Decimal}
use voip_platform.Lifecycle.{run_ticks}
use voip_platform.Lifecycle.Charge.{IsCharged, call_charges_cost}
use voip_platform.Redis.{Session}
use voip_platform.Schemas.{CallAuthorizeRequest}
use voip_platform.Worker.Answer.{Event}
use voip_platform.Worker.Hangup.{handle_hangup, actual_cost_units_of, int_field}

-- What became of the account: the units before both authorizations, the first block, which the
-- session of the first held as its total, and the units that the second block and the ticks took.
pub record IsForfeited {F : Type 0} (env : Env F) (first second : Session) (account_id : ℕ)
    (billsec : ℤ) (before running after : World) : Type 0 where
  pub rate_per_second : Decimal
  pub balance : ℤ
  pub block : ℤ
  pub taken : ℤ
  pub held : get account_id before.redis.credits ≡ some balance
  pub total : first.total_deducted_units ≡ some block
  pub price : second.rate_per_second ≡ some rate_per_second
  pub lacking : get account_id running.redis.credits ≡ some (balance -ℤ block -ℤ taken)
  pub charged :
      get account_id after.redis.credits
      ≡ some (balance -ℤ block -ℤ min_ℤ taken (actual_cost_units_of env rate_per_second billsec))

module _ {F : Type 0} (env env' : Env F) {first second : Session} {account_id : ℕ}
    {billsec : ℤ} where
  forfeited :
      (body : CallAuthorizeRequest) {call_uuid : Text}
      → call_uuid ≡ body.call_uuid
      → (start before w middle running after : World) → IsGranted env body start before w
      → get call_uuid w.redis.calls ≡ some first
      → first.account_id ≡ some account_id
      → Reads w middle
      → IsCharged env' second account_id billsec middle running after
      → IsForfeited env' first second account_id billsec before running after
  forfeited body same_call start before w middle running after (q, _, _, o) found account reads c =
      let same_session : first ≡ o.session = ground (arith, o.opened, found, same_call) in
      let same : q.customer.id ≡ account_id = ground (arith, o.account, account, same_session) in
      let block =
        slot_units_of env.settings.credit_block_max_seconds q.rate_per_minute q.avb_time in
      let paid : get account_id w.redis.credits ≡ some (o.balance -ℤ block) =
        rw (sym same) o.paid in
      let left : c.balance ≡ o.balance -ℤ block =
        ground (arith, reads.kept account_id (o.balance -ℤ block) paid, c.held) in
      record {
        rate_per_second = c.rate_per_second;
        balance = o.balance;
        block = block;
        taken = c.taken;
        held = rw (sym same) o.held;
        total = rw same_session o.total;
        price = c.price;
        lacking = rw (sym left) c.lacking;
        charged = rw (sym left) c.charged;
      }

-- A call that was authorized with 200 and is authorized with 200 once more, for the same account,
-- loses the block of the first time: after any ticks and the hangup the balance is the one from
-- before both, less that block, which only the first session's total counted, and less the smaller
-- of the units that the second block and the ticks took and the units that the answered seconds
-- cost. The balance before is that of a world which differs from the first by seeded balances and
-- cached accounts alone. The call's uuid is not empty, the hangup event names it and its seconds are
-- numbers, and the reads of the session, the refund and the ticks' writes of the session do not fail
-- after the first time.
pub second_authorize_forfeits_block :
    {F : Type 0} (env env' : Env F) (body again : CallAuthorizeRequest) (ticks : List ℕ)
    (event : Event) (w : World) {first second : Session} {account_id : ℕ} {billsec duration : ℤ}
    → again.call_uuid ≡ body.call_uuid
    → (authorize_call env body w).0.status_code ≡ 200
    → get again.call_uuid (authorize_call env body w).1.redis.calls ≡ some first
    → first.account_id ≡ some account_id
    → let opened = (authorize_call env body w).1 in
      (authorize_call env' again opened).0.status_code ≡ 200
      → get again.call_uuid (authorize_call env' again opened).1.redis.calls ≡ some second
      → second.account_id ≡ some account_id
      → get (codes "Unique-ID") event ≡ some again.call_uuid
      → is_nonempty again.call_uuid ≡ true
      → int_field (get (codes "variable_billsec") event) ≡ ok billsec
      → int_field (get (codes "variable_duration") event) ≡ ok duration
      → env'.fails session_hgetall ≡ false
      → env'.fails refund_incrby ≡ false
      → env'.fails tick_hset ≡ false
      → env'.fails tick_hincrby ≡ false
      → let running =
          run_ticks env' account_id again.call_uuid ticks (authorize_call env' again opened).1 in
        (before : World) × Reads w before
        × IsForfeited env' first second account_id billsec before running
            (handle_hangup env' event running).1
second_authorize_forfeits_block env env' body again ticks event w {first} {second} {account_id}
      same_call granted found account granted' found' account' named nonempty seconds length
      reachable up f1 f2 =
    let opened = (authorize_call env body w).1 in
    let (before, reads, granted_call) = authorize_call-IsGranted env body w granted in
    let (middle, kept, charge) =
      call_charges_cost env' again ticks event opened granted' found' account' named nonempty
        seconds length reachable up f1 f2 in
    let running =
      run_ticks env' account_id again.call_uuid ticks (authorize_call env' again opened).1 in
    (
      before,
      reads,
      forfeited env env' body same_call w before opened middle running
          (handle_hangup env' event running).1 granted_call found account kept charge,
    )
