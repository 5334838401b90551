-- ===== src/Worker/Hangup.antt =====
-- billing_worker/handlers/call_hangup.py: CHANNEL_HANGUP_COMPLETE.
pub mod Steps
pub mod Settle
pub mod Ending
pub mod Records
use voip_platform.Base.{
  ℕ, ◌*◌, ◌<◌, Bool, true, false, not, ◌||◌, Option, none, some, List, [], ◌∷◌, ◌++◌, ◌==◌, nat_eq,
  ltb, if◌then◌else◌,
}
use voip_platform.Base.Dict.{Dict, get, put, remove}
use voip_platform.Base.Int.{ℤ, pos, negsuc, ◌+ℤ◌, ◌-ℤ◌, ltb_ℤ}
use voip_platform.Base.Text.{Text, text_eq, codes, is_nonempty}
use voip_platform.Base.Text.Numbers.{parse_int, show_int}
use voip_platform.Core.{
  Env, key_error, value_error, session_hgetall, refund_incrby, finalize_update, hangup_tracing,
  end_tracing, online_update, session_delete, concurrent_get, concurrent_decr, hangup_now,
}
use voip_platform.Core.Monad.{
  World, Result, ok, err, M, pure, lift, or_raise, from_redis, modify_redis, at, ◌>>=◌, ◌>>◌,
}
use voip_platform.Credit.{credit_scale}
use voip_platform.Decimal
use voip_platform.Decimal.{Decimal, of_ℤ, sub, div, dec}
use voip_platform.Models.{TracingStatus}
use voip_platform.Redis.{Redis, Session, add_units}
use voip_platform.Worker.Answer.{Event, id_field}
use voip_platform.Worker.Cdr.{finalize_statistics, append_tracing, update_consultant_status}

-- The microseconds of a datetime: from 1970, since FreeSWITCH sends nothing earlier, to the end of
-- the year 9999, past which `fromtimestamp` raises.
abbrev datetime_of : ℕ → Option ℤ → Option ℕ
datetime_of scale none = none
datetime_of scale (some (negsuc n)) = none
datetime_of scale (some (pos n)) =
    if ltb (n * scale) 253402300800000000 then some (n * scale) else none

parse_epoch : ℕ → Option Text → Option ℕ
parse_epoch scale none = none
parse_epoch scale (some []) = none
parse_epoch scale (some (a ∷ s)) =
    if (a ∷ s) == codes "0" then none else datetime_of scale (parse_int (a ∷ s))

-- `_parse_epoch_us`
unfoldable pub parse_epoch_us : Option Text → Option ℕ
unfolding parse_epoch parse_int
parse_epoch_us = parse_epoch 1

-- `_parse_epoch_s`
unfoldable pub parse_epoch_s : Option Text → Option ℕ
unfolding parse_epoch parse_int
parse_epoch_s = parse_epoch 1000000

abbrev pub or_else : {A : Type 0} → Option A → Option A → Option A
or_else none second = second
or_else (some a) second = some a

abbrev pub get_or : {A : Type 0} → Option A → A → A
get_or none a = a
get_or (some b) a = b

-- `int(event.get(field, 0))`
abbrev int_or_error : Option ℤ → Result ℤ
int_or_error none = err value_error
int_or_error (some n) = ok n

abbrev pub int_field : Option Text → Result ℤ
int_field none = ok (pos 0)
int_field (some s) = int_or_error (parse_int s)

-- A `try` whose `except Exception` only logs.
abbrev pub attempt : M (Unit {0}) → M (Unit {0})
attempt m w = (ok tt, (m w).1)

-- The times of step 2.
abbrev pub end_time_of : ℕ → Event → ℕ
end_time_of now event =
    get_or
      (or_else (parse_epoch_us (get (codes "Caller-Channel-Resurrect-Time") event))
        (parse_epoch_us (get (codes "Event-Date-Timestamp") event)))
      now

abbrev pub answer_time_of : Event → Session → Option ℕ
answer_time_of event session =
    or_else (parse_epoch_us (get (codes "Caller-Channel-Answered-Time") event)) session.answer_time

abbrev pub hangup_time_of : ℕ → Event → ℕ
hangup_time_of now event =
    get_or (parse_epoch_us (get (codes "Caller-Channel-Hangup-Time") event)) (end_time_of now event)

module _ {F : Type 0} (env : Env F) where
  -- Step 3, in units.
  unfoldable pub actual_cost_units_of : Decimal → ℤ → ℤ
  actual_cost_units_of rate_per_second billsec =
      let f = env.floats in
      f.ceil (f.times (f.times (f.of_decimal rate_per_second) billsec) (pos credit_scale))

  -- `max(Decimal("0"), credit_before - credit_cost)`
  unfoldable pub credit_after_of : Decimal → ℤ → Decimal
  credit_after_of credit_before actual_cost_units =
      Decimal.max (dec 0 0) (sub credit_before (div (of_ℤ actual_cost_units) (dec credit_scale 0)))

  -- INCRBY, on a key that counts as 0 where it is missing.
  abbrev pub incrby : ℕ → ℤ → Redis → Redis
  incrby account_id n r = record r {
    credits = put account_id (add_units (get account_id r.credits) n) r.credits;
  }

  -- Step 4.
  unfoldable pub refund : ℕ → ℤ → M (Unit {0})
  refund account_id over_deducted_units =
      if ltb_ℤ (pos 0) over_deducted_units
      then attempt (at env refund_incrby (modify_redis (incrby account_id over_deducted_units)))
      else pure tt

  -- Steps 5 and 6.
  unfoldable pub write_cdr :
      Event → Session → ℤ → ℤ → Text → Decimal → Decimal → Decimal → Option ℕ → M (Unit {0})
  write_cdr event session billsec duration hangup_cause credit_before credit_after rate_per_second
        none =
      pure tt
  write_cdr event session billsec duration hangup_cause credit_before credit_after rate_per_second
        (some statistics_id) =
      let hangup_time = hangup_time_of (env.clock hangup_now) event in
      let end_time = end_time_of (env.clock hangup_now) event in
      attempt do
        finalize_statistics env finalize_update statistics_id hangup_time end_time
            (answer_time_of event session) duration billsec hangup_cause billsec credit_after
            rate_per_second env.settings.short_call_threshold_seconds
        append_tracing env hangup_tracing statistics_id TracingStatus.hangup_time hangup_time
            (some hangup_cause) (some credit_before) (some credit_after)
        append_tracing env end_tracing statistics_id TracingStatus.end_time end_time
            (some (codes "billsec=" ++ show_int billsec)) none none

  -- Step 7.
  unfoldable pub reset_consultant : Option ℕ → M (Unit {0})
  reset_consultant none = pure tt
  reset_consultant (some consultant_id) =
      attempt (update_consultant_status env online_update consultant_id 1)

  abbrev pub decrement : ℕ → Option ℤ → M (Unit {0})
  decrement account_id none = pure tt
  decrement account_id (some current) =
      if ltb_ℤ (pos 0) current
      then at env concurrent_decr (
          modify_redis λ r. record r {
            concurrent =
                put account_id (add_units (get account_id r.concurrent) (negsuc 0)) r.concurrent;
          })
      else pure tt

  -- Step 8.
  unfoldable pub clean_up : Text → ℕ → M (Unit {0})
  clean_up call_uuid account_id = do
    at env session_delete (modify_redis λ r. record r { calls = remove call_uuid r.calls })
    current ← at env concurrent_get (from_redis (λ r. get account_id r.concurrent))
    decrement account_id current

  -- Steps 4 to 8.
  unfoldable pub settle : Text → Event → Session → ℕ → Decimal → ℤ → ℤ → M (Unit {0})
  settle call_uuid event session account_id rate_per_second billsec duration = do
    let hangup_cause = get_or (get (codes "Hangup-Cause") event) (codes "NORMAL_CLEARING")
    let total_deducted_units = get_or session.total_deducted_units (pos 0)
    let credit_before = get_or session.credit_before (dec 0 0)
    let actual_cost_units = actual_cost_units_of rate_per_second billsec
    refund account_id (total_deducted_units -ℤ actual_cost_units)
    write_cdr event session billsec duration hangup_cause credit_before
        (credit_after_of credit_before actual_cost_units) rate_per_second
        (id_field session.statistics_id)
    reset_consultant (id_field session.consultant_id)
    clean_up call_uuid account_id

  -- `_write_best_effort_cdr` writes to the log alone.
  abbrev pub write_best_effort_cdr : Event → M (Unit {0})
  write_best_effort_cdr event = pure tt

  -- Steps 2 and 3, and the rest.
  unfoldable pub hangup_session : Text → Event → Option Session → M (Unit {0})
  hangup_session call_uuid event none = write_best_effort_cdr event
  hangup_session call_uuid event (some session) = do
    account_id ← or_raise session.account_id key_error
    rate_per_second ← or_raise session.rate_per_second key_error
    or_raise session.rate_per_minute key_error
    billsec ← lift (int_field (get (codes "variable_billsec") event))
    duration ← lift (int_field (get (codes "variable_duration") event))
    settle call_uuid event session account_id rate_per_second billsec duration

  unfoldable pub hangup_uuid : Option Text → Event → M (Unit {0})
  unfolding hangup_session
  hangup_uuid none event = pure tt
  hangup_uuid (some call_uuid) event = if not (is_nonempty call_uuid) then pure tt else do
    session ← at env session_hgetall (from_redis (λ r. get call_uuid r.calls))
    hangup_session call_uuid event session

  unfoldable pub handle_hangup : Event → M (Unit {0})
  unfolding hangup_uuid
  handle_hangup event = hangup_uuid (get (codes "Unique-ID") event) event
