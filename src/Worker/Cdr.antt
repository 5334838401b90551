-- ===== src/Worker/Cdr.antt =====
-- billing_worker/services/cdr_service.py: the writes of the call records.
pub mod Status
use voip_platform.Base.{
  ℕ, Bool, true, false, Option, none, some, List, [], ◌∷◌, ◌++◌, ◌==◌, ◌||◌, nat_eq, if◌then◌else◌,
}
use mathlib.Core.Option
use voip_platform.Base.Int.{ℤ, pos, ltb_ℤ, leb_ℤ}
use voip_platform.Base.Text.{Text, text_eq, codes}
use voip_platform.Core.{Env, Site, io_error}
use voip_platform.Core.Monad.{World, Result, err, M, lift, modify_db, at, ◌>>=◌}
use voip_platform.Decimal.{Decimal, of_ℤ, div, dec, numeric}
use voip_platform.Models.{Db, Statistics, Tracing, TracingStatus, tracing_code, Consultant}
use voip_platform.Models.Query.{update_where}

unfoldable pub map_hangup_status : Text → ℤ → ℕ → Text
map_hangup_status hangup_cause billsec short_call_threshold =
    if leb_ℤ (pos short_call_threshold) billsec
    then codes "NORMAL"
    else if ltb_ℤ (pos 0) billsec
    then codes "SHORT CALL"
    else if hangup_cause == codes "NO_ANSWER" || hangup_cause == codes "NO_USER_RESPONSE"
    then codes "NO ANSWER"
    else if hangup_cause == codes "USER_BUSY"
    then codes "REMOTE BUSY"
    else if hangup_cause == codes "ORIGINATOR_CANCEL" || hangup_cause == codes "NORMAL_CLEARING"
    then codes "CUSTOMER_HANGUP_BEFORE_ANSWER"
    else codes "DISCONNECT"

-- The parameter of an Integer column, such as statistics.status: asyncpg encodes integers only, and
-- refuses a text before the statement is sent.
abbrev pub bind_integer : Text → Result ℕ
bind_integer status = err io_error

-- The columns that `finalize_statistics` sets; `hangup_cause` is not among them.
abbrev pub finalized :
    (hangup_time end_time : ℕ) (connected_time : Option ℕ)
    (total_duration conversation_duration : ℤ) (status : ℕ)
    (credit_after consultant_total_earning : Decimal)
    → Statistics
    → Statistics
finalized hangup_time end_time connected_time total_duration conversation_duration status
      credit_after consultant_total_earning row =
    record row {
      connected_time = connected_time;
      hangup_time = some hangup_time;
      end_time = some end_time;
      total_duration = some total_duration;
      conversation_duration = some conversation_duration;
      status = status;
      credit_after = numeric 5 credit_after;
      consultant_total_earning = some (numeric 5 consultant_total_earning);
    }

module _ {F : Type 0} (env : Env F) where
  -- Whole cents, rounded up.
  unfoldable pub total_earning : ℤ → Decimal → Decimal
  total_earning billsec rate_per_second =
      let f = env.floats in
      div (of_ℤ (f.ceil (f.times (f.times (f.of_decimal rate_per_second) billsec) (pos 100))))
        (dec 100 0)

  unfoldable pub finalize_statistics :
      Site
      → (statistics_id hangup_time end_time : ℕ) (connected_time : Option ℕ)
        (total_duration conversation_duration : ℤ) (hangup_cause : Text) (billsec : ℤ)
        (credit_after rate_per_second : Decimal) (short_call_threshold : ℕ)
      → M (Unit {0})
  unfolding map_hangup_status total_earning
  finalize_statistics site statistics_id hangup_time end_time connected_time total_duration
        conversation_duration hangup_cause billsec credit_after rate_per_second
        short_call_threshold =
      at env site (
        lift (bind_integer (map_hangup_status hangup_cause billsec short_call_threshold))
        >>= λ status. modify_db λ db. record db {
          statistics =
              update_where (λ row. row.id == statistics_id)
                (finalized hangup_time end_time connected_time total_duration conversation_duration
                  status credit_after (total_earning billsec rate_per_second))
                db.statistics;
        })

  unfoldable pub append_tracing :
      Site
      → (statistics_id : ℕ) (status : TracingStatus) (timestamp : ℕ) (info : Option Text)
        (credit_before credit_after : Option Decimal)
      → M (Unit {0})
  append_tracing site statistics_id status timestamp info credit_before credit_after = at env site (
      modify_db λ db. record db {
        tracings =
            db.tracings
            ++ (record {
              statistics_id = statistics_id;
              timestamp = timestamp;
              status = tracing_code status;
              info = info;
              credit_before = Option.map (numeric 5) credit_before;
              credit_after = Option.map (numeric 5) credit_after;
            }
                ∷ []);
      })

  unfoldable pub set_connected_time : Site → ℕ → ℕ → M (Unit {0})
  set_connected_time site statistics_id connected_time = at env site (
      modify_db λ db. record db {
        statistics =
            update_where (λ row. row.id == statistics_id)
              (λ row. record row { connected_time = some connected_time }) db.statistics;
      })

  unfoldable pub update_consultant_status : Site → ℕ → ℕ → M (Unit {0})
  update_consultant_status site consultant_id ivr_status = at env site (
      modify_db λ db. record db {
        consultants =
            update_where (λ c. c.id == consultant_id) (λ c. record c { ivr_status = ivr_status })
              db.consultants;
      })
