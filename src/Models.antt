-- ===== src/Models.antt =====
-- app/models/db: a record for each table, with the columns that the program reads or writes, and the
-- queries of SQLAlchemy that it makes. Ids are only compared, so they are natural numbers; a
-- tracing's id is its place in the list.
pub mod Query
pub mod Keys
use voip_platform.Base.{ℕ, Bool, Option, List}
use voip_platform.Base.Dict.{Dict}
use voip_platform.Base.Int.{ℤ}
use voip_platform.Base.Text.{Text}
use voip_platform.Decimal.{Decimal}

pub record Consultant : Type 0 where
  pub id : ℕ
  pub user_id : ℕ
  pub ivr_status : ℕ
  pub call_rate : Decimal
  pub currency_code : Text
  pub is_blocked : Bool
  pub is_deleted : Bool
  pub provider_sequence : Option Text

pub record ConsultantIvrNumber : Type 0 where
  pub id : ℕ
  pub consultant_id : ℕ
  pub site_ivr_number_id : ℕ

pub record ConsultantPhoneNumber : Type 0 where
  pub id : ℕ
  pub consultant_id : ℕ
  pub phone_number : Text
  pub is_active : Bool

pub record SiteIvrNumber : Type 0 where
  pub id : ℕ
  pub number : Text
  pub type_id : ℕ
  pub language_id : ℕ
  pub country_id : Option ℕ

pub record IvrKnownUser : Type 0 where
  pub id : ℕ
  pub caller_id : Text
  pub credit_code : Text

pub record CreditsCustomer : Type 0 where
  pub id : ℕ
  pub user_id : ℕ
  pub credit_code : Text
  pub current_credits : Decimal
  pub currency_code : Text
  pub is_blocked : Bool
  pub is_deleted : Bool

pub record User : Type 0 where
  pub id : ℕ
  pub is_deleted : Bool

pub record Country : Type 0 where
  pub id : ℕ
  pub currency_code : Text
  pub effective_vat_rate : Decimal

-- An entry of the `rates` JSON: a number, an object, or null. A number is held as the decimal that
-- `str` prints for it.
pub data Rate : Type 0 where
  null : Rate
  number : Decimal → Rate
  object : Dict Text Decimal → Rate

pub record CurrencyExchangeRate : Type 0 where
  pub id : ℕ
  pub rates : Dict Text Rate

pub record Statistics : Type 0 where
  pub id : ℕ
  pub unique_id : Text
  pub consultant_id : Option ℕ
  pub credit_customer_id : ℕ
  pub site_ivr_number_id : ℕ
  pub provider_id : ℕ
  pub type_id : ℕ
  pub type : Text
  pub src_number : Text
  pub dst_number : Text
  pub extension : ℕ
  pub start_time : ℕ
  pub connected_time : Option ℕ
  pub hangup_time : Option ℕ
  pub end_time : Option ℕ
  pub total_duration : Option ℤ
  pub conversation_duration : Option ℤ
  pub credit_before : Decimal
  pub credit_after : Decimal
  pub coach_rate : Decimal
  pub vat_rate : Decimal
  pub consultant_earning_for_minute : Decimal
  pub consultant_total_earning : Option Decimal
  pub hangup_cause : Option Text
  pub status : ℕ

pub data TracingStatus : Type 0 where
  start_time ringing_start_time connected_time credit_block_updated : TracingStatus
  hangup_time end_time destination_number_invalid invalid_auth_attempt : TracingStatus
  customer_authenticated consultant_authenticated consultant_change_ivr_status : TracingStatus
  enable_direct_dial : TracingStatus

-- `int(status)`
unfoldable pub tracing_code : TracingStatus → ℕ
tracing_code start_time = 1
tracing_code ringing_start_time = 3
tracing_code connected_time = 4
tracing_code credit_block_updated = 5
tracing_code hangup_time = 6
tracing_code end_time = 7
tracing_code destination_number_invalid = 8
tracing_code invalid_auth_attempt = 9
tracing_code customer_authenticated = 10
tracing_code consultant_authenticated = 11
tracing_code consultant_change_ivr_status = 12
tracing_code enable_direct_dial = 13

pub record Tracing : Type 0 where
  pub statistics_id : ℕ
  pub timestamp : ℕ
  pub status : ℕ
  pub info : Option Text
  pub credit_before : Option Decimal
  pub credit_after : Option Decimal

-- The tables. `next_statistics_id` is the sequence behind statistics.id.
pub record Db : Type 0 where
  pub dids : List SiteIvrNumber
  pub mappings : List ConsultantIvrNumber
  pub consultants : List Consultant
  pub phones : List ConsultantPhoneNumber
  pub known_users : List IvrKnownUser
  pub customers : List CreditsCustomer
  pub users : List User
  pub countries : List Country
  pub fx_rates : List CurrencyExchangeRate
  pub statistics : List Statistics
  pub next_statistics_id : ℕ
  pub tracings : List Tracing
