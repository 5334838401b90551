-- ===== src/Redis.antt =====
-- What the program keeps in Redis: a credit balance and a call counter for each account, the hash of
-- each call, and the cache of accounts. A key's existence is its being in the dict; keys vanish by
-- DEL or when their time to live ends.
use voip_platform.Base.{ℕ, Bool, Option, none, some}
use voip_platform.Base.Dict.{Dict, get, put}
use voip_platform.Base.Int.{ℤ, pos, ◌+ℤ◌}
use voip_platform.Base.Text.{Text, text_eq}
use voip_platform.Decimal.{Decimal}

-- The hash call:{uuid}, each field there or not. `str` of a number or a time is held as the value
-- that the readers parse back; `some none` is the text "" of a missing id. `ttl` is the key's.
pub record Session : Type 0 where
  pub account_id : Option ℕ
  pub rate_per_second : Option Decimal
  pub rate_per_minute : Option Decimal
  pub start_time : Option ℕ
  pub last_tick : Option ℕ
  pub gateway : Option Text
  pub service_type : Option ℕ
  pub site_ivr_number_id : Option ℕ
  pub consultant_id : Option (Option ℕ)
  pub statistics_id : Option (Option ℕ)
  pub credit_before : Option Decimal
  pub total_deducted_units : Option ℤ
  pub answer_time : Option ℕ
  pub ttl : Option ℕ

-- HSET on a key that is not there begins from this.
abbrev pub no_fields : Session
no_fields = record {
  account_id = none;
  rate_per_second = none;
  rate_per_minute = none;
  start_time = none;
  last_tick = none;
  gateway = none;
  service_type = none;
  site_ivr_number_id = none;
  consultant_id = none;
  statistics_id = none;
  credit_before = none;
  total_deducted_units = none;
  answer_time = none;
  ttl = none;
}

-- The JSON of account:{token}, and its time to live.
pub record AccountMeta : Type 0 where
  pub id : ℕ
  pub credit_code : Text
  pub currency_code : Text
  pub is_blocked : Bool
  pub is_deleted : Bool
  pub ttl : ℕ

pub record Redis : Type 0 where
  pub credits : Dict ℕ ℤ
  pub calls : Dict Text Session
  pub concurrent : Dict ℕ ℤ
  pub accounts : Dict Text AccountMeta

abbrev pub session_or_new : Option Session → Session
session_or_new none = no_fields
session_or_new (some s) = s

-- HSET and HINCRBY on a call's hash: the fields that `f` sets, on what is there.
abbrev pub update_call : Text → (Session → Session) → Redis → Redis
update_call uuid f r = record r { calls = put uuid (f (session_or_new (get uuid r.calls))) r.calls }

-- EXPIRE on a call's hash, which does nothing where the key is not there.
abbrev pub expired : Text → ℕ → Dict Text Session → Dict Text Session
expired uuid seconds calls = elim (get uuid calls) [
  | none ↦ calls
  | some s ↦ put uuid (record s { ttl = some seconds }) calls
]

abbrev pub expire_call : Text → ℕ → Redis → Redis
expire_call uuid seconds r = record r { calls = expired uuid seconds r.calls }

abbrev pub add_units : Option ℤ → ℤ → ℤ
add_units none n = pos 0 +ℤ n
add_units (some m) n = m +ℤ n
