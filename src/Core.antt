-- ===== src/Core.antt =====
-- app/core and app/config.py: the errors, the settings, and what the program takes from outside.
pub mod Monad
pub mod Keeps
pub mod Quiet
pub mod Ensures
pub mod Blind
pub mod Coroutine
use voip_platform.Base.{ℕ, Bool}
use voip_platform.Base.Int.{ℤ}
use voip_platform.Base.Text.{Text}
use voip_platform.Decimal.{Decimal}

-- app/core/exceptions.py, and the other exceptions that reach an `except Exception`: a key that a
-- dict lacks, a text that is no number, a query with several rows, a failing Redis, database or ESL
-- call.
pub data Error : Type 0 where
  account_not_found account_suspended insufficient_credit did_not_found : Error
  session_not_found credit_deduction : Error
  key_error value_error multiple_results io_error : Error

-- The billing constants of `Settings`.
pub record Settings : Type 0 where
  pub credit_min_seconds : ℕ
  pub credit_block_max_seconds : ℕ
  pub credit_warn_threshold_seconds : ℕ
  pub short_call_threshold_seconds : ℕ

abbrev pub defaults : Settings
defaults = record {
  credit_min_seconds = 30;
  credit_block_max_seconds = 300;
  credit_warn_threshold_seconds = 320;
  short_call_threshold_seconds = 30;
}

-- Each call of Redis, of the database or of ESL that can raise.
pub data Site : Type 0 where
  did_select mapping_select consultant_select phone_select known_user_select : Site
  account_get customer_select user_select account_set credit_seed country_select fx_select : Site
  credit_get credit_select deduct_eval statistics_insert session_hset session_expire : Site
  session_hgetall tick_hset tick_hincrby : Site
  answer_hset connected_update connected_tracing busy_update : Site
  refund_incrby finalize_update hangup_tracing end_tracing online_update : Site
  session_delete concurrent_get concurrent_decr : Site
  session_keys show_calls active_keys active_hgetall stuck_select stuck_update : Site
  database_ping redis_ping : Site

-- Each place where the program reads the clock; a time is in microseconds since the epoch.
pub data Reading : Type 0 where
  statistics_start session_start tick_time answer_time hangup_now : Reading

-- The floats: IEEE doubles, over an unknown type.
pub record Floats (F : Type 0) : Type 0 where
  pub of_decimal : Decimal → F
  pub times : F → ℤ → F
  pub ratio : ℤ → ℕ → F
  pub ceil : F → ℤ

-- What a handler runs in.
pub record Env (F : Type 0) : Type 0 where
  pub floats : Floats F
  pub settings : Settings
  pub clock : Reading → ℕ
  pub fails : Site → Bool
  pub request_id : Text
