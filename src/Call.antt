-- ===== src/Call.antt =====
-- app/routers/call.py: POST /v1/call/authorize.
pub mod Quoting
pub mod Unmapped
pub mod Granted
pub mod Found
pub mod Priced
pub mod Pricing
pub mod Routed
pub mod Blind
pub mod Restated
pub mod Refused
pub mod Lost
use voip_platform.Base.{
  ℕ, ◌+◌, Bool, true, false, Option, none, some, List, [], ◌∷◌, ◌++◌, if◌then◌else◌,
}
use voip_platform.Base.Int.{ℤ, pos, ltb_ℤ, min_ℤ}
use voip_platform.Base.Text.{Text, codes, lstrip, is_nonempty}
use voip_platform.Core.{
  Error, Env, account_not_found, account_suspended, insufficient_credit, did_not_found,
  statistics_insert, statistics_start,
}
use voip_platform.Core.Monad.{World, Result, ok, err, M, pure, at, ◌>>=◌, ◌>>◌}
use voip_platform.Credit.{
  credit_scale, effective_rate_per_minute, calculate_available_time, get_credit_balance_units,
  atomic_deduct_credit, create_call_session,
}
use voip_platform.Auth.{get_customer_by_credit_code, get_country_vat, get_fx_rate}
use voip_platform.Decimal.{Decimal, of_ℤ, mul, div, truncate, dec, numeric}
use voip_platform.Models.{
  Consultant, ConsultantPhoneNumber, CreditsCustomer, SiteIvrNumber, Statistics, Db,
}
use voip_platform.Routing.{
  lookup_did, get_consultant_for_did, lookup_known_user, get_gateway_from_consultant,
}
use voip_platform.Schemas.{ApiResponse, refusal, CallAuthorizeRequest, CallAuthorizeData}

-- What steps 1 to 7 of the handler have found out.
pub record Quote : Type 0 where
  pub did : SiteIvrNumber
  pub consultant : Option Consultant
  pub phone_number : Option ConsultantPhoneNumber
  pub customer : CreditsCustomer
  pub vat_rate : Decimal
  pub call_rate : Decimal
  pub rate_per_minute : Decimal
  pub current_credits : Decimal
  pub avb_time : ℤ

-- `did.country_id or 0`
abbrev pub id_or_zero : Option ℕ → ℕ
id_or_zero none = 0
id_or_zero (some n) = n

abbrev pub call_rate_of : Option Consultant → Decimal
call_rate_of none = dec 0 0
call_rate_of (some c) = c.call_rate

abbrev pub id_of : Option Consultant → Option ℕ
id_of none = none
id_of (some c) = some c.id

abbrev pub destination : Option ConsultantPhoneNumber → Text → Text
destination none dialed_number = lstrip b'+' dialed_number
destination (some phone) dialed_number = phone.phone_number

-- Step 9: the price of the first block, at most `credit_block_max_seconds` long.
unfoldable pub slot_units_of : ℕ → Decimal → ℤ → ℤ
unfolding min_ℤ
slot_units_of block_max rate_per_minute avb_time =
    let slot_seconds = min_ℤ avb_time (pos block_max) in
    truncate (mul (mul (div rate_per_minute (dec 60 0)) (of_ℤ slot_seconds)) (dec credit_scale 0))

-- Steps 6 and 7 from what the queries gave.
abbrev pub quote_of :
    SiteIvrNumber
    → Option Consultant × Option ConsultantPhoneNumber
    → CreditsCustomer
    → Decimal
    → Decimal
    → ℤ
    → Quote
quote_of did found customer vat_rate fx_rate balance_units =
    let rate_per_minute = effective_rate_per_minute (call_rate_of found.0) vat_rate fx_rate in
    let current_credits = div (of_ℤ balance_units) (dec credit_scale 0) in
    record {
      did = did;
      consultant = found.0;
      phone_number = found.1;
      customer = customer;
      vat_rate = vat_rate;
      call_rate = call_rate_of found.0;
      rate_per_minute = rate_per_minute;
      current_credits = current_credits;
      avb_time = calculate_available_time current_credits rate_per_minute;
    }

module _ {F : Type 0} (env : Env F) where
  unfoldable pub fx_rate_of : Option Consultant → CreditsCustomer → M Decimal
  fx_rate_of none customer = pure (dec 10 1)
  fx_rate_of (some c) customer =
      if is_nonempty c.currency_code
      then get_fx_rate env c.currency_code customer.currency_code
      else pure (dec 10 1)

  -- Steps 3 to 7, up to the test of the balance.
  unfoldable pub quote_customer :
      CallAuthorizeRequest
      → SiteIvrNumber
      → Option Consultant × Option ConsultantPhoneNumber
      → M Quote
  quote_customer body did found = do
    lookup_known_user env body.caller_id
    customer ← get_customer_by_credit_code env body.account_token
    vat_rate ← get_country_vat env (id_or_zero did.country_id)
    fx_rate ← fx_rate_of found.0 customer
    balance_units ← get_credit_balance_units env customer.id (some customer)
    pure (quote_of did found customer vat_rate fx_rate balance_units)

  -- Steps 1 to 7.
  unfoldable pub quote_call : CallAuthorizeRequest → M Quote
  quote_call body = do
    did ← lookup_did env body.inbound_did
    found ← get_consultant_for_did env did.id
    quote_customer body did found

  -- The stub row of step 10.
  abbrev pub stub_row : CallAuthorizeRequest → Quote → ℕ → Statistics
  stub_row body q id = record {
    id = id;
    unique_id = body.call_uuid;
    consultant_id = id_of q.consultant;
    credit_customer_id = q.customer.id;
    site_ivr_number_id = q.did.id;
    provider_id = 1;
    type_id = q.did.type_id;
    type = codes "call";
    src_number = lstrip b'+' body.caller_id;
    dst_number = destination q.phone_number body.dialed_number;
    extension = 0;
    start_time = env.clock statistics_start;
    connected_time = none;
    hangup_time = none;
    end_time = none;
    total_duration = none;
    conversation_duration = none;
    credit_before = numeric 5 q.current_credits;
    credit_after = numeric 5 q.current_credits;
    coach_rate = numeric 5 q.call_rate;
    vat_rate = numeric 2 q.vat_rate;
    consultant_earning_for_minute = numeric 5 q.rate_per_minute;
    consultant_total_earning = none;
    hangup_cause = none;
    status = 0;
  }

  -- The row is added, flushed and committed; its id comes from the sequence.
  unfoldable pub insert_stub : CallAuthorizeRequest → Quote → M ℕ
  insert_stub body q = at env statistics_insert λ w.
      let id = w.db.next_statistics_id in
      (
        ok id,
        record w {
          db = record w.db {
            statistics = w.db.statistics ++ (stub_row body q id ∷ []);
            next_statistics_id = id + 1;
          };
        },
      )

  -- Steps 8 to 11, for a call that has credit.
  unfoldable pub open_call : CallAuthorizeRequest → Quote → M (ApiResponse (CallAuthorizeData F))
  unfolding insert_stub
  open_call body q = do
    let gateway = get_gateway_from_consultant q.consultant
    let slot_units =
        slot_units_of env.settings.credit_block_max_seconds q.rate_per_minute q.avb_time
    atomic_deduct_credit env q.customer.id slot_units
    statistics_id ← insert_stub body q
    create_call_session env body.call_uuid q.customer.id q.rate_per_minute gateway q.did.type_id
        q.did.id (id_of q.consultant) (some statistics_id) q.current_credits slot_units
    pure (record {
      status_code = 200;
      success = true;
      payload = some (record {
        authorized = true;
        account_id = q.customer.id;
        gateway = gateway;
        destination_number = destination q.phone_number body.dialed_number;
        max_duration_seconds = q.avb_time;
        rate_per_minute = env.floats.of_decimal q.rate_per_minute;
        currency = q.customer.currency_code;
        service_type = q.did.type_id;
        call_uuid = body.call_uuid;
      });
      error = none;
      request_id = env.request_id;
    })

  unfoldable pub admit_call : CallAuthorizeRequest → Quote → M (ApiResponse (CallAuthorizeData F))
  admit_call body q =
      if ltb_ℤ q.avb_time (pos env.settings.credit_min_seconds)
      then pure (refusal 402 (codes "INSUFFICIENT_CREDIT") env.request_id)
      else open_call body q

  -- The `except` clauses.
  abbrev on_error : Error → ApiResponse (CallAuthorizeData F)
  on_error did_not_found = refusal 404 (codes "DID_NOT_FOUND") env.request_id
  on_error account_not_found = refusal 401 (codes "ACCOUNT_NOT_FOUND") env.request_id
  on_error account_suspended = refusal 403 (codes "ACCOUNT_SUSPENDED") env.request_id
  on_error insufficient_credit = refusal 402 (codes "INSUFFICIENT_CREDIT") env.request_id
  on_error _ = refusal 500 (codes "INTERNAL_ERROR") env.request_id

  abbrev pub answer : Result (ApiResponse (CallAuthorizeData F)) → ApiResponse (CallAuthorizeData F)
  answer (ok response) = response
  answer (err e) = on_error e

  unfoldable pub authorize_call :
      CallAuthorizeRequest → World → ApiResponse (CallAuthorizeData F) × World
  authorize_call body w = let (r, w') = (quote_call body >>= admit_call body) w in (answer r, w')
