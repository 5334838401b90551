-- ===== src/Tests/Fixtures.antt =====
-- A deployment with one DID, one consultant and one customer, in which floats are decimals.
use voip_platform.Base.{◌%◌, ◌^◌, Bool, false, some, [], ◌∷◌, nat_beq, if◌then◌else◌}
use voip_platform.Base.Int.{ℤ, pos, ◌+ℤ◌}
use voip_platform.Base.Text.{Text, text_eq, codes}
use voip_platform.Core.{Env, Floats, Site, defaults}
use voip_platform.Core.Monad.{World}
use voip_platform.Decimal.{Decimal, of_ℤ, mul, div, truncate, dec}
use voip_platform.Models.{Db, Consultant, CreditsCustomer, SiteIvrNumber}
use voip_platform.Redis.{Redis, Session, no_fields}
use voip_platform.Schemas.{CallAuthorizeRequest, BillingTickRequest}
use voip_platform.Worker.Answer.{Event}

-- Rounded up; the tests need no negative number.
abbrev ceiling : Decimal → ℤ
ceiling d = if nat_beq (d.coefficient % 10 ^ d.scale) 0 then truncate d else truncate d +ℤ pos 1

abbrev pub decimal_floats : Floats Decimal
decimal_floats = record {
  of_decimal = λ d. d;
  times = λ d n. mul d (of_ℤ n);
  ratio = λ n k. div (of_ℤ n) (dec k 0);
  ceil = ceiling;
}

abbrev pub env_of : (Site → Bool) → Env Decimal
env_of fails = record {
  floats = decimal_floats;
  settings = defaults;
  clock = λ _. 1700000000000000;
  fails = fails;
  request_id = codes "r1";
}

abbrev pub env_up : Env Decimal
env_up = env_of (λ _. false)

abbrev pub site : SiteIvrNumber
site = record { id = 1; number = codes "4420"; type_id = 2; language_id = 1; country_id = some 1 }

abbrev pub service_desk : SiteIvrNumber
service_desk = record {
  id = 2;
  number = codes "4421";
  type_id = 3;
  language_id = 1;
  country_id = some 1;
}

abbrev pub coach : Consultant
coach = record {
  id = 5;
  user_id = 3;
  ivr_status = 1;
  call_rate = dec 120 2;
  currency_code = codes "EUR";
  is_blocked = false;
  is_deleted = false;
  provider_sequence = some (codes "2|3");
}

abbrev pub customer : CreditsCustomer
customer = record {
  id = 7;
  user_id = 4;
  credit_code = codes "PIN";
  current_credits = dec 20 0;
  currency_code = codes "EUR";
  is_blocked = false;
  is_deleted = false;
}

abbrev pub tables : Db
tables = record {
  dids = site ∷ service_desk ∷ [];
  mappings = record { id = 1; consultant_id = 5; site_ivr_number_id = 1 } ∷ [];
  consultants = coach ∷ [];
  phones = [];
  known_users = [];
  customers = customer ∷ [];
  users = record { id = 4; is_deleted = false } ∷ [];
  countries = record { id = 1; currency_code = codes "EUR"; effective_vat_rate = dec 20 0 } ∷ [];
  fx_rates = [];
  statistics = [];
  next_statistics_id = 1;
  tracings = [];
}

abbrev pub empty_redis : Redis
empty_redis = record { credits = []; calls = []; concurrent = []; accounts = [] }

abbrev pub start : World
start = record { redis = empty_redis; db = tables }

abbrev pub uuid : Text
uuid = codes "c-1"

abbrev pub request : CallAuthorizeRequest
request = record {
  caller_id = codes "+4471";
  dialed_number = codes "+4420";
  inbound_did = codes "+4420";
  account_token = codes "PIN";
  call_uuid = uuid;
}

abbrev pub tick : BillingTickRequest
tick = record { call_uuid = uuid; account_id = 7; elapsed_seconds = 60 }

abbrev pub hangup : Event
hangup =
    (codes "Event-Name", codes "CHANNEL_HANGUP_COMPLETE")
    ∷ (codes "Unique-ID", uuid)
    ∷ (codes "Hangup-Cause", codes "NORMAL_CLEARING")
    ∷ (codes "variable_billsec", codes "90")
    ∷ (codes "variable_duration", codes "95")
    ∷ []

-- A call in progress: 1.44 a minute, the first block of 300 seconds taken.
abbrev pub open_session : Session
open_session = record no_fields {
  account_id = some 7;
  rate_per_second = some (dec 24 3);
  rate_per_minute = some (dec 144 2);
  consultant_id = some (some 5);
  statistics_id = some (some 1);
  credit_before = some (dec 20 0);
  total_deducted_units = some (pos 720000);
}

abbrev pub in_call : World
in_call = record {
  redis = record empty_redis { credits = (7, pos 1280000) ∷ []; calls = (uuid, open_session) ∷ [] };
  db = tables;
}
