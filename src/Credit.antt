-- ===== src/Credit.antt =====
-- app/services/credit_service.py: balances in Redis, the atomic deduction, the session of a call and
-- the billing tick.
pub mod Deduct
pub mod Seed
pub mod Tick
use voip_platform.Base.{
  ℕ, ◌≡◌, Bool, true, false, ◌&&◌, Option, none, some, ◌==◌, nat_eq, if◌then◌else◌,
}
use voip_platform.Base.Dict.{get, put}
use voip_platform.Base.Int.{ℤ, pos, negsuc, ◌-ℤ◌, ltb_ℤ, leb_ℤ}
use voip_platform.Base.Text.{Text, text_eq}
use voip_platform.Core.{
  Error, Env, Site, Reading, insufficient_credit, credit_deduction, session_not_found, key_error,
  credit_seed, credit_get, credit_select, deduct_eval, session_hset, session_expire,
  session_hgetall, tick_hset, tick_hincrby, session_start, tick_time,
}
use voip_platform.Core.Monad.{
  World, Result, ok, err, M, pure, raise, lift, or_raise, from_redis, from_db, modify_redis,
  select_one, at, ◌>>=◌, ◌>>◌,
}
use voip_platform.Decimal
use voip_platform.Decimal.{Decimal, of_ℤ, add, mul, div, is_le, truncate, dec}
use voip_platform.Models.{CreditsCustomer}
use voip_platform.Models.Query.{rows_where}
use voip_platform.Redis.{Redis, Session, update_call, expire_call, add_units}

abbrev pub credit_scale : ℕ
credit_scale = 100000

-- `_DEDUCT_SCRIPT`. Redis runs it in one step. Lua's numbers are doubles, which hold the balances of
-- a numeric(10,5) column exactly.
unfoldable pub deduct_script : ℕ → ℤ → Redis → ℤ × Redis
deduct_script key amount r = elim (get key r.credits) [
  | none ↦ (negsuc 1, r)
  | some balance ↦
      if ltb_ℤ balance amount
      then (negsuc 0, r)
      else (balance -ℤ amount, record r { credits = put key (balance -ℤ amount) r.credits })
]

unfoldable pub effective_rate_per_minute : Decimal → Decimal → Decimal → Decimal
effective_rate_per_minute call_rate vat_rate fx_rate =
    mul (mul call_rate (add (dec 1 0) (div vat_rate (dec 100 0)))) fx_rate

unfoldable pub calculate_available_time : Decimal → Decimal → ℤ
calculate_available_time current_credits rate_per_minute =
    if is_le rate_per_minute (dec 0 0)
    then pos 0
    else truncate (mul (div current_credits rate_per_minute) (dec 60 0))

-- The codes of the script as exceptions: -2, -1, or the new balance.
unfoldable pub deduct_reply : ℤ → Result ℤ
deduct_reply code =
    if leb_ℤ code (negsuc 1) && leb_ℤ (negsuc 1) code
    then err credit_deduction
    else if leb_ℤ code (negsuc 0) && leb_ℤ (negsuc 0) code
    then err insufficient_credit
    else ok code

-- `except (InsufficientCreditError, CreditDeductionError)` around a deduction.
abbrev pub caught : Result ℤ → Result (Option ℤ)
caught (ok balance) = ok (some balance)
caught (err insufficient_credit) = ok none
caught (err credit_deduction) = ok none
caught (err e) = err e

-- What `process_billing_tick` returns.
pub record TickResult (F : Type 0) : Type 0 where
  pub continue_call : Bool
  pub remaining_seconds : ℤ
  pub deducted : F

module _ {F : Type 0} (env : Env F) where
  -- SET NX; the units of the database come back whether or not the key was there.
  unfoldable pub load_credit_to_redis : ℕ → Decimal → M ℤ
  load_credit_to_redis account_id current_credits =
      let units = truncate (mul current_credits (dec credit_scale 0)) in
      do
        at env credit_seed (
            modify_redis (λ r. elim (get account_id r.credits) [
              | none ↦ record r { credits = put account_id units r.credits }
              | some _ ↦ r
            ]))
        pure units

  unfoldable pub seed_from : ℕ → Option CreditsCustomer → M ℤ
  unfolding load_credit_to_redis
  seed_from account_id none = pure (pos 0)
  seed_from account_id (some customer) = load_credit_to_redis account_id customer.current_credits

  -- The customer that is already at hand, or a query.
  unfoldable pub customer_or_select : ℕ → Option CreditsCustomer → M (Option CreditsCustomer)
  customer_or_select account_id (some customer) = pure (some customer)
  customer_or_select account_id none =
      select_one env credit_select (λ db. rows_where (λ c. c.id == account_id) db.customers)

  unfoldable pub balance_or_seed : ℕ → Option CreditsCustomer → Option ℤ → M ℤ
  unfolding seed_from customer_or_select
  balance_or_seed account_id customer (some val) = pure val
  balance_or_seed account_id customer none = do
    found ← customer_or_select account_id customer
    seed_from account_id found

  unfoldable pub get_credit_balance_units : ℕ → Option CreditsCustomer → M ℤ
  unfolding balance_or_seed
  get_credit_balance_units account_id customer = do
    val ← at env credit_get (from_redis (λ r. get account_id r.credits))
    balance_or_seed account_id customer val

  unfoldable pub atomic_deduct_credit : ℕ → ℤ → M ℤ
  unfolding deduct_script deduct_reply
  atomic_deduct_credit account_id deduct_units = do
    result ← at env deduct_eval (λ w.
        let (code, r) = deduct_script account_id deduct_units w.redis in
        (ok code, record w { redis = r }))
    lift (deduct_reply result)

  -- The `mapping` of `create_call_session`, on the fields that the hash has.
  abbrev pub session_fields :
      (account_id : ℕ) (rate_per_minute : Decimal) (gateway : Text)
      (service_type site_ivr_number_id : ℕ) (consultant_id statistics_id : Option ℕ)
      (credit_before : Decimal) (initial_deducted_units : ℤ)
      → Session
      → Session
  session_fields account_id rate_per_minute gateway service_type site_ivr_number_id consultant_id
        statistics_id credit_before initial_deducted_units s =
      record s {
        account_id = some account_id;
        rate_per_second = some (div rate_per_minute (dec 60 0));
        rate_per_minute = some rate_per_minute;
        start_time = some (env.clock session_start);
        last_tick = some (env.clock session_start);
        gateway = some gateway;
        service_type = some service_type;
        site_ivr_number_id = some site_ivr_number_id;
        consultant_id = some consultant_id;
        statistics_id = some statistics_id;
        credit_before = some credit_before;
        total_deducted_units = some initial_deducted_units;
      }

  -- HSET with all fields, then EXPIRE.
  unfoldable pub create_call_session :
      (call_uuid : Text) (account_id : ℕ) (rate_per_minute : Decimal) (gateway : Text)
      (service_type site_ivr_number_id : ℕ) (consultant_id statistics_id : Option ℕ)
      (credit_before : Decimal) (initial_deducted_units : ℤ)
      → M (Unit {0})
  create_call_session call_uuid account_id rate_per_minute gateway service_type site_ivr_number_id
        consultant_id statistics_id credit_before initial_deducted_units =
      do
        at env session_hset (
            modify_redis (
              update_call call_uuid (
                session_fields account_id rate_per_minute gateway service_type site_ivr_number_id
                  consultant_id statistics_id credit_before initial_deducted_units)))
        at env session_expire (modify_redis (expire_call call_uuid 7200))

  unfoldable pub get_call_session : Text → M Session
  get_call_session call_uuid = do
    session ← at env session_hgetall (from_redis (λ r. get call_uuid r.calls))
    or_raise session session_not_found

  unfoldable pub tick_units : Decimal → ℕ → ℤ
  tick_units rate_per_second elapsed_seconds =
      let f = env.floats in
      f.ceil
        (f.times (f.times (f.of_decimal rate_per_second) (pos elapsed_seconds)) (pos credit_scale))

  unfoldable pub tick_outcome : Text → Decimal → ℤ → Option ℤ → M (TickResult F)
  tick_outcome call_uuid rate_per_second deduct_units none = pure (record {
    continue_call = false;
    remaining_seconds = pos 0;
    deducted = env.floats.ratio deduct_units credit_scale;
  })
  tick_outcome call_uuid rate_per_second deduct_units (some new_balance_units) = do
    at env tick_hset (
        modify_redis
          (update_call call_uuid λ s. record s { last_tick = some (env.clock tick_time) }))
    at env tick_hincrby (
        modify_redis (
          update_call call_uuid λ s. record s {
            total_deducted_units = some (add_units s.total_deducted_units deduct_units);
          }))
    let remaining_credits = div (of_ℤ new_balance_units) (dec credit_scale 0)
    let remaining_seconds =
        calculate_available_time remaining_credits (mul rate_per_second (dec 60 0))
    pure (record {
      continue_call = leb_ℤ (pos env.settings.credit_min_seconds) remaining_seconds;
      remaining_seconds = remaining_seconds;
      deducted = env.floats.ratio deduct_units credit_scale;
    })

  -- The `try` and what follows it, with what the deduction gave.
  unfoldable pub tick_reply : Text → Decimal → ℤ → Result ℤ → M (TickResult F)
  tick_reply call_uuid rate_per_second deduct_units r =
      lift (caught r) >>= tick_outcome call_uuid rate_per_second deduct_units

  -- The deduction of a tick, and the rest of it.
  abbrev pub charge_tick : Text → ℕ → ℕ → Decimal → M (TickResult F)
  charge_tick call_uuid account_id elapsed_seconds rate_per_second w =
      let deduct_units = tick_units rate_per_second elapsed_seconds in
      let (r, w1) = atomic_deduct_credit account_id deduct_units w in
      tick_reply call_uuid rate_per_second deduct_units r w1

  unfoldable pub process_billing_tick : Text → ℕ → ℕ → M (TickResult F)
  unfolding get_call_session
  process_billing_tick call_uuid account_id elapsed_seconds = do
    session ← get_call_session call_uuid
    rate_per_second ← or_raise session.rate_per_second key_error
    charge_tick call_uuid account_id elapsed_seconds rate_per_second
