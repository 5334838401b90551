-- ===== src/Lifecycle/Charge.antt =====
-- The customer's bill: authorize_call, any ticks, and handle_hangup, one after the other.
use voip_platform.Base.{ℕ, ◌≡◌, true, false, some, List, arith, nat_eq}
use voip_platform.Base.Dict.{get}
use voip_platform.Base.Int.{ℤ, ◌+ℤ◌, ◌-ℤ◌, min_ℤ, int_laws}
use voip_platform.Base.Text.{Text, text_eq, codes, is_nonempty}
use voip_platform.Call.{Quote, slot_units_of, authorize_call}
use voip_platform.Call.Granted.{IsOpen, authorize_call-IsGranted}
use voip_platform.Core.{Env, session_hgetall, tick_hset, tick_hincrby, refund_incrby}
use voip_platform.Core.Monad.{World, ok}
use voip_platform.Core.Quiet.{Reads}
use voip_platform.Decimal.{Decimal, div, dec}
use voip_platform.Lifecycle.{IsRunning, run_ticks, run_ticks-Runs}
use voip_platform.Redis.{Session}
use voip_platform.Schemas.{CallAuthorizeRequest}
use voip_platform.Worker.Answer.{Event}
use voip_platform.Worker.Hangup.{handle_hangup, actual_cost_units_of, int_field}
use voip_platform.Worker.Hangup.Ending.{IsBillable, hangup_charges_cost}

opened_runs :
    {block_max : ℕ} {call_uuid : Text} {q : Quote} {w w' : World}
    → (o : IsOpen block_max call_uuid q w w')
    → IsRunning q.customer.id call_uuid
        (div q.rate_per_minute (dec 60 0))
        q.rate_per_minute
        o.balance
        w'
opened_runs {block_max} {call_uuid} {q} o = record {
  session = o.session;
  taken = slot_units_of block_max q.rate_per_minute q.avb_time;
  found = o.opened;
  account = o.account;
  second_price = o.second_price;
  minute_price = o.price;
  total = o.total;
  held = o.paid;
}

-- What became of a call: the price of a second that its session holds, the units before the call,
-- the units that its first block and its ticks took, and the units after it.
pub record IsCharged {F : Type 0} (env : Env F) (session : Session) (account_id : ℕ) (billsec : ℤ)
    (before running after : World) : Type 0 where
  pub rate_per_second : Decimal
  pub balance : ℤ
  pub taken : ℤ
  pub price : session.rate_per_second ≡ some rate_per_second
  pub held : get account_id before.redis.credits ≡ some balance
  pub lacking : get account_id running.redis.credits ≡ some (balance -ℤ taken)
  pub charged :
      get account_id after.redis.credits
      ≡ some (balance -ℤ min_ℤ taken (actual_cost_units_of env rate_per_second billsec))

refunded :
    (balance taken cost : ℤ)
    → balance -ℤ min_ℤ taken cost ≡ balance -ℤ taken +ℤ taken -ℤ min_ℤ taken cost
refunded balance taken cost = omega int_laws

module _ {F : Type 0} (env : Env F) (event : Event) {call_uuid : Text} {billsec duration : ℤ} where
  hangup_of_running :
      {account_id : ℕ} {rate minute : Decimal} {balance : ℤ} (w : World)
      → (c : IsRunning account_id call_uuid rate minute balance w)
      → get (codes "Unique-ID") event ≡ some call_uuid
      → is_nonempty call_uuid ≡ true
      → int_field (get (codes "variable_billsec") event) ≡ ok billsec
      → int_field (get (codes "variable_duration") event) ≡ ok duration
      → env.fails session_hgetall ≡ false
      → env.fails refund_incrby ≡ false
      → get account_id (handle_hangup env event w).1.redis.credits
        ≡ some (balance -ℤ min_ℤ c.taken (actual_cost_units_of env rate billsec))
  hangup_of_running {account_id} {rate} {minute} {balance} w c named nonempty seconds length
        reachable up =
      let bill : IsBillable env event w = record {
        call_uuid = call_uuid;
        session = c.session;
        account_id = account_id;
        rate_per_second = rate;
        rate_per_minute = minute;
        billsec = billsec;
        duration = duration;
        named = named;
        nonempty = nonempty;
        reachable = reachable;
        found = c.found;
        account = c.account;
        second_price = c.second_price;
        minute_price = c.minute_price;
        seconds = seconds;
        length = length;
      } in
      rw (refunded balance c.taken (actual_cost_units_of env rate billsec))
        (hangup_charges_cost env event w bill c.held c.total up)

  IsCharged-of_running :
      {account_id : ℕ} {session : Session} (ticks : List ℕ) (before opened : World) (q : Quote)
      → IsOpen env.settings.credit_block_max_seconds call_uuid q before opened
      → get call_uuid opened.redis.calls ≡ some session
      → session.account_id ≡ some account_id
      → get (codes "Unique-ID") event ≡ some call_uuid
      → is_nonempty call_uuid ≡ true
      → int_field (get (codes "variable_billsec") event) ≡ ok billsec
      → int_field (get (codes "variable_duration") event) ≡ ok duration
      → env.fails session_hgetall ≡ false
      → env.fails refund_incrby ≡ false
      → env.fails tick_hset ≡ false
      → env.fails tick_hincrby ≡ false
      → let running = run_ticks env account_id call_uuid ticks opened in
        IsCharged env session account_id billsec before running (handle_hangup env event running).1
  IsCharged-of_running {account_id} {session} ticks before opened q o found account named nonempty
        seconds length reachable up f1 f2 =
      let same_session : session ≡ o.session = ground (arith, o.opened, found) in
      let same : account_id ≡ q.customer.id = ground (arith, o.account, account, same_session) in
      let rate = div q.rate_per_minute (dec 60 0) in
      let c =
        run_ticks-Runs env q.customer.id call_uuid rate q.rate_per_minute o.balance ticks opened
          (opened_runs o) f1 f2 in
      rw (same, same_session)
        (record {
          rate_per_second = rate;
          balance = o.balance;
          taken = c.taken;
          price = o.second_price;
          held = o.held;
          lacking = c.held;
          charged =
              hangup_of_running (run_ticks env q.customer.id call_uuid ticks opened) c named
                nonempty seconds length reachable up;
        })

-- A call that was authorized with 200, then ticked any number of times for the account of its
-- session, and then hung up by an event that names the call and whose seconds are numbers, costs the
-- account the smaller of the units that its first block and its ticks took and the units that its
-- answered seconds cost at the session's price: the balance is the one from before the call, less
-- that. The balance before is that of a world which differs from the first by seeded balances and
-- cached accounts alone. The call's uuid is not empty, and the reads of the session, the refund and
-- the ticks' writes of the session do not fail; anything else may.
pub call_charges_cost :
    {F : Type 0} (env : Env F) (body : CallAuthorizeRequest) (ticks : List ℕ) (event : Event)
    (w : World) {session : Session} {account_id : ℕ} {billsec duration : ℤ}
    → (authorize_call env body w).0.status_code ≡ 200
    → get body.call_uuid (authorize_call env body w).1.redis.calls ≡ some session
    → session.account_id ≡ some account_id
    → get (codes "Unique-ID") event ≡ some body.call_uuid
    → is_nonempty body.call_uuid ≡ true
    → int_field (get (codes "variable_billsec") event) ≡ ok billsec
    → int_field (get (codes "variable_duration") event) ≡ ok duration
    → env.fails session_hgetall ≡ false
    → env.fails refund_incrby ≡ false
    → env.fails tick_hset ≡ false
    → env.fails tick_hincrby ≡ false
    → let running = run_ticks env account_id body.call_uuid ticks (authorize_call env body w).1 in
      (before : World) × Reads w before
      × IsCharged env session account_id billsec before running (handle_hangup env event running).1
call_charges_cost env body ticks event w granted found account named nonempty seconds length
      reachable up f1 f2 =
    let (before, reads, (q, _, _, o)) = authorize_call-IsGranted env body w granted in
    (
      before,
      reads,
      IsCharged-of_running env event ticks before (authorize_call env body w).1 q o found account
          named nonempty seconds length reachable up f1 f2,
    )
