-- ===== src/Interleaving/LateTick.antt =====
-- A tick that has read the session of its call when the hangup settles and deletes it.
use voip_platform.Base.{ℕ, ◌≡◌, refl, ◌∙◌, ap, false, true, none, some, [], arith, nat_eq, ==-refl}
use voip_platform.Base.Dict.{get, get-put}
use voip_platform.Base.Int.{ℤ, pos, ◌+ℤ◌, ◌-ℤ◌, ◌≤ℤ◌, min_ℤ}
use voip_platform.Base.Text.{Text, text_eq, codes}
use voip_platform.Core.{
  Env, deduct_eval, tick_hset, tick_hincrby, tick_time, session_hgetall, session_delete,
  refund_incrby,
}
use voip_platform.Core.Coroutine.{Coroutine-bind, Coroutine-act}
use voip_platform.Core.Monad.{World, ok}
use voip_platform.Credit.{atomic_deduct_credit, charge_tick, tick_reply, tick_outcome, tick_units}
use voip_platform.Credit.Deduct.{atomic_deduct_credit_lem, with_credit}
use voip_platform.Decimal.{Decimal}
use voip_platform.Interleaving.Api.{tick-cut, get_call_session-cut}
use voip_platform.Interleaving.Cuts.{fetch-cut}
use voip_platform.Interleaving.Pause.{first_world, left_code, overtaken}
use voip_platform.Interleaving.Schedule.{Pool, Start, Moves}
use voip_platform.Redis.{Session, no_fields}
use voip_platform.Schemas.{BillingTickRequest}
use voip_platform.Worker.Answer.{Event}
use voip_platform.Worker.Hangup.{handle_hangup, hangup_session}
use voip_platform.Worker.Hangup.Ending.{
  IsBillable, cost, hangup_charges_cost, hangup_deletes_session,
}
use voip_platform.Worker.Loop.{is_named, dispatch}

-- A session that no hangup can settle and that never expires: it holds the units of one tick and no
-- account.
pub record IsOrphan (call_uuid : Text) (units : ℤ) (w : World) : Type 0 where
  pub session : Session
  pub held : get call_uuid w.redis.calls ≡ some session
  pub no_account : session.account_id ≡ none
  pub forever : session.ttl ≡ none
  pub taken : session.total_deducted_units ≡ some (pos 0 +ℤ units)

module _ {F : Type 0} (env : Env F) (u : Text) (id elapsed : ℕ) where
  paused-tick :
      (w v : World) {s : Session} {rate : Decimal}
      → get u w.redis.calls ≡ some s
      → s.rate_per_second ≡ some rate
      → env.fails session_hgetall ≡ false
      → (first_world (tick-cut env u id elapsed) w ≡ w)
        × (left_code (tick-cut env u id elapsed) w v ≡ charge_tick env u id elapsed rate v)
  unfolding tick-cut get_call_session-cut Coroutine-bind fetch-cut Coroutine-act
  paused-tick w v found priced up = (ground arith, ground arith)

  covered_deduction :
      (units : ℤ) (v : World) {b : ℤ}
      → get id v.redis.credits ≡ some b
      → units ≤ℤ b
      → env.fails deduct_eval ≡ false
      → atomic_deduct_credit env id units v ≡ (ok (b -ℤ units), with_credit id (b -ℤ units) v)
  covered_deduction units v held covered up = atomic_deduct_credit_lem env id units v ∙ ground arith

  late_outcome :
      (rate : Decimal) (units b : ℤ) (v : World)
      → get u v.redis.calls ≡ none
      → env.fails tick_hset ≡ false
      → env.fails tick_hincrby ≡ false
      → let v' = (tick_outcome env u rate units (some b) v).1 in
        (v'.redis.credits ≡ v.redis.credits) × IsOrphan u units v'
  unfolding tick_outcome
  late_outcome rate units b v missing f2 f3 = (
    ground arith,
    record {
      session = record no_fields {
        last_tick = some (env.clock tick_time);
        total_deducted_units = some (pos 0 +ℤ units);
      };
      held = grind (arith, get-put, ==-refl u);
      no_account = refl;
      forever = refl;
      taken = refl;
    },
  )

  late_charge :
      (rate : Decimal) (v : World) {b : ℤ}
      → get id v.redis.credits ≡ some b
      → tick_units env rate elapsed ≤ℤ b
      → get u v.redis.calls ≡ none
      → env.fails deduct_eval ≡ false
      → env.fails tick_hset ≡ false
      → env.fails tick_hincrby ≡ false
      → let v' = (charge_tick env u id elapsed rate v).1 in
        (get id v'.redis.credits ≡ some (b -ℤ tick_units env rate elapsed))
        × IsOrphan u (tick_units env rate elapsed) v'
  unfolding tick_reply
  late_charge rate v {b} held covered missing f1 f2 f3 =
      let units = tick_units env rate elapsed in
      let v1 = with_credit id (b -ℤ units) v in
      let (same, orphan) = late_outcome rate units (b -ℤ units) v1 missing f2 f3 in
      rw (covered_deduction units v held covered f1) (
        ap (get id) same ∙ ground (arith, get-put id id (b -ℤ units) v.redis.credits, ==-refl id),
        orphan,
      )

dispatch_hangup :
    {F : Type 0} (env : Env F) (event : Event) (w : World)
    → is_named (get (codes "Event-Name") event) (codes "CHANNEL_HANGUP_COMPLETE") ≡ true
    → (dispatch env event w).1 ≡ (handle_hangup env event w).1
unfolding dispatch
dispatch_hangup env event w e = ground arith

-- If an orphan is there, no hangup of its call changes anything: each raises a KeyError.
orphan_stays :
    {F : Type 0} (env : Env F) (event : Event) (w : World) {u : Text} {units : ℤ}
    → IsOrphan u units w
    → get (codes "Unique-ID") event ≡ some u
    → (handle_hangup env event w).1 ≡ w
unfolding handle_hangup hangup_session
orphan_stays env event w o named =
    let held = o.held in let none_there = o.no_account in ground arith

module _ {F : Type 0} (env env' : Env F) (elapsed : ℕ) (event : Event) (w : World)
    (c : IsBillable env event w) where
  -- The units of the tick, and the balance after the hangup.
  abbrev units : ℤ
  units = tick_units env' c.rate_per_second elapsed

  abbrev settled : ℤ → ℤ → ℤ
  settled balance total = balance +ℤ total -ℤ min_ℤ total (cost env event w c)

  -- If a call that can be billed is hung up, and a tick for it has read the session before the
  -- hangup deletes it, then there is an interleaving after which the account has paid the units of
  -- the tick on top of its settled bill, and the session is there again, without an account and
  -- without a time to live, so that no later hangup of the call changes anything. The conditions are
  -- that the event is a hangup, that Redis holds the balance and the session the total, that what is
  -- left after the hangup covers the tick, and that the refund, the deletion and the tick's calls of
  -- Redis do not fail.
  pub late_tick_revives_session :
      {balance total : ℤ}
      → is_named (get (codes "Event-Name") event) (codes "CHANNEL_HANGUP_COMPLETE") ≡ true
      → get c.account_id w.redis.credits ≡ some balance
      → c.session.total_deducted_units ≡ some total
      → units ≤ℤ settled balance total
      → env.fails refund_incrby ≡ false
      → env.fails session_delete ≡ false
      → env'.fails session_hgetall ≡ false
      → env'.fails deduct_eval ≡ false
      → env'.fails tick_hset ≡ false
      → env'.fails tick_hincrby ≡ false
      → (p : Pool F) × Moves (record { world = w; handlers = [] }) p
        × IsOrphan c.call_uuid units p.world
        × (get c.account_id p.world.redis.credits ≡ some (settled balance total -ℤ units))
        × ((later : Env F) (again : Event)
            → get (codes "Unique-ID") again ≡ some c.call_uuid
            → (handle_hangup later again p.world).1 ≡ p.world)
  late_tick_revives_session {balance} {total} is_hangup held taken covered f1 f2 f3 f4 f5 f6 =
      let u = c.call_uuid in
      let id = c.account_id in
      let body : BillingTickRequest = record {
        call_uuid = u;
        account_id = id;
        elapsed_seconds = elapsed;
      } in
      let v = (dispatch env event w).1 in
      let (hs, moves) = overtaken w (Start.ticking env' body) (Start.handling env event) in
      let (same, left) = paused-tick env' u id elapsed w v c.found c.second_price f3 in
      let ended = dispatch_hangup env event w is_hangup in
      let (credit, orphan) =
        late_charge env' u id elapsed c.rate_per_second v
          (rw ended (hangup_charges_cost env event w c held taken f1)) covered
          (rw ended (hangup_deletes_session env event w c f2)) f4 f5 f6 in
      (
        _,
        moves,
        rw (same, left) orphan,
        rw (same, left) credit,
        rw (same, left) (λ later again named. orphan_stays later again _ orphan named),
      )
