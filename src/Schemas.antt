-- ===== src/Schemas.antt =====
-- app/models/schemas: the bodies of requests and responses. pydantic has checked a request's types
-- before the handler runs, and that `elapsed_seconds` is positive.
use voip_platform.Base.{ℕ, Bool, false, Option, none, some}
use voip_platform.Base.Int.{ℤ}
use voip_platform.Base.Text.{Text}

-- `APIResponse` in a `JSONResponse`; `payload` is its field `data`.
pub record ApiResponse (D : Type 0) : Type 0 where
  pub status_code : ℕ
  pub success : Bool
  pub payload : Option D
  pub error : Option Text
  pub request_id : Text

abbrev pub refusal : {D : Type 0} → ℕ → Text → Text → ApiResponse D
refusal status_code error request_id = record {
  status_code = status_code;
  success = false;
  payload = none;
  error = some error;
  request_id = request_id;
}

pub record CallAuthorizeRequest : Type 0 where
  pub caller_id : Text
  pub dialed_number : Text
  pub inbound_did : Text
  pub account_token : Text
  pub call_uuid : Text

pub record CallAuthorizeData (F : Type 0) : Type 0 where
  pub authorized : Bool
  pub account_id : ℕ
  pub gateway : Text
  pub destination_number : Text
  pub max_duration_seconds : ℤ
  pub rate_per_minute : F
  pub currency : Text
  pub service_type : ℕ
  pub call_uuid : Text

pub record BillingTickRequest : Type 0 where
  pub call_uuid : Text
  pub account_id : ℕ
  pub elapsed_seconds : ℕ

pub record BillingTickData (F : Type 0) : Type 0 where
  pub continue_call : Bool
  pub remaining_seconds : ℤ
  pub deducted_amount : F
