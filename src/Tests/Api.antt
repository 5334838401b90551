-- ===== src/Tests/Api.antt =====
-- The API on the deployment.
use mathlib.Core.Option
use voip_platform.Base.{◌≡◌, refl, true, false, none, some, [], ◌∷◌, arith, nat_eq}
use voip_platform.Base.Dict.{get, put}
use voip_platform.Base.Int.{ℤ, pos, ◌≤ℤ◌, min_ℤ, ◌-ℤ◌, ◌+ℤ◌}
use voip_platform.Base.Text.{
  codes, text_eq, text_beq, lstrip, lower, strip, split_head, isdigit, is_digit,
}
use voip_platform.Auth.Rates.{get_fx_rate_ignores_target}
use voip_platform.Auth.Admission.{IsNamed, get_customer_by_credit_code-admits}
use voip_platform.Auth.{
  get_customer_by_credit_code, get_country_vat, get_fx_rate, check_cached, select_customer,
}
use voip_platform.Billing.{billing_tick}
use voip_platform.Billing.Laws.{billing_tick_continues_only_if_paid}
use voip_platform.Billing.Refusal.{billing_tick_refuses}
use voip_platform.Call.Lost.{failed_insert_keeps_block}
use voip_platform.Call.Routed.{AnswersBy, authorize_call-routes}
use voip_platform.Call.Restated.{authorize_ignores_status}
use voip_platform.Call.Refused.{authorize_refused}
use voip_platform.Core.{Env, statistics_insert}
use voip_platform.Core.Monad.{World}
use voip_platform.Core.Blind.{with_tables}
use voip_platform.Core.Quiet.{Reads}
use voip_platform.Credit.Deduct.{
  with_credit, deduct_spec, deduct_all, atomic_deduct_credit_lem, deduct_all_exact,
}
use voip_platform.Credit.Tick.{stake, tick_conserves}
use voip_platform.Redis.{Session}
use voip_platform.Credit.{
  load_credit_to_redis, get_credit_balance_units, effective_rate_per_minute,
  calculate_available_time, atomic_deduct_credit, deduct_script, deduct_reply, create_call_session,
  process_billing_tick, tick_reply, tick_outcome, tick_units,
}
use voip_platform.Call.{
  Quote, quote_of, authorize_call, quote_call, quote_customer, fx_rate_of, admit_call, open_call,
  slot_units_of, insert_stub,
}
use voip_platform.Schemas.{ApiResponse, CallAuthorizeData}
use voip_platform.Decimal.{
  Decimal, numeric, width, width_upto, half_even, make, fit, of_ℤ, numerator, add, sub, mul, div,
  is_lt, is_le, truncate, dec,
}
use voip_platform.Models.Query.{rows_where, limit_one}
use voip_platform.Routing.{
  lookup_did, get_consultant_for_did, active_phone, lookup_known_user, get_gateway_from_consultant,
  gateway_of_slot,
}
use voip_platform.Routing.Restated.{all_restated}
use voip_platform.Tests.Fixtures.{
  env_up, env_of, site, start, in_call, request, tick, uuid, customer, coach,
}

unfoldable pub authorized : ApiResponse (CallAuthorizeData Decimal) × World
unfolding authorize_call quote_call quote_customer fx_rate_of admit_call open_call slot_units_of
    insert_stub lookup_did get_consultant_for_did active_phone lookup_known_user
    get_gateway_from_consultant gateway_of_slot get_customer_by_credit_code get_country_vat
    get_fx_rate check_cached select_customer load_credit_to_redis get_credit_balance_units
    effective_rate_per_minute calculate_available_time atomic_deduct_credit deduct_script
    deduct_reply create_call_session rows_where limit_one get put min_ℤ ◌-ℤ◌ ◌+ℤ◌ text_beq lstrip
    lower strip split_head isdigit is_digit width width_upto half_even make fit of_ℤ numerator add
    sub mul div is_lt is_le truncate
authorized = authorize_call env_up request start

authorize_test : authorized.0.status_code ≡ 200
unfolding authorized
authorize_test = refl

rate_test :
    calculate_available_time
      (dec 20 0)
      (effective_rate_per_minute (dec 120 2) (dec 20 0) (dec 10 1))
    ≡ pos 833
unfolding authorized
rate_test = refl

numeric_test : (numeric 2 (dec 12345 3) ≡ dec 1235 2) × (numeric 5 (dec 20 0) ≡ dec 20 0)
unfolding numeric
numeric_test = (refl, refl)

-- 300 seconds at 1.44 a minute.
balance_test : get 7 authorized.1.redis.credits ≡ some (pos 1280000)
unfolding authorized
balance_test = refl

-- With no balance left.
abbrev poor : World
poor = record start { redis = record start.redis { credits = (7, pos 1000) ∷ [] } }

authorize_refused_example : Reads poor (authorize_call env_up request poor).1
unfolding authorized
authorize_refused_example =
    authorize_refused env_up request poor ((λ h. omega arith), λ h. omega arith)

atomic_deduct_credit_lem_example :
    atomic_deduct_credit env_up 7 (pos 500) in_call
    ≡ deduct_spec false 7 (pos 500) (some (pos 1280000)) in_call
unfolding get
atomic_deduct_credit_lem_example = atomic_deduct_credit_lem env_up 7 (pos 500) in_call

deduct_all_exact_example :
    let (taken, w') =
      deduct_all env_up 7 ((7, pos 1000000) ∷ (7, pos 500000) ∷ (7, pos 280000) ∷ []) in_call in
    (get 7 w'.redis.credits ≡ some (pos 1280000 -ℤ taken)) × (pos 0 ≤ℤ pos 1280000 -ℤ taken)
unfolding get
deduct_all_exact_example =
    deduct_all_exact env_up 7 ((7, pos 1000000) ∷ (7, pos 500000) ∷ (7, pos 280000) ∷ []) in_call
      refl (omega arith)

-- The second of these deductions is refused, and the third takes the rest.
deduct_all_test :
    deduct_all env_up 7 ((7, pos 1000000) ∷ (7, pos 500000) ∷ (7, pos 280000) ∷ []) in_call
    ≡ (pos 1280000, with_credit 7 (pos 0) in_call)
unfolding authorized deduct_all
deduct_all_test = refl

tick_conserves_example :
    stake 7 uuid (process_billing_tick env_up uuid 7 60 in_call).1.redis
    ≡ stake 7 uuid in_call.redis
tick_conserves_example = tick_conserves env_up uuid 7 60 in_call refl refl

billing_tick_continues_only_if_paid_example :
    (s : Session) × (rate : Decimal) × (b : ℤ) × (get uuid in_call.redis.calls ≡ some s)
    × (s.rate_per_second ≡ some rate)
    × (get 7 in_call.redis.credits ≡ some b)
    × (tick_units env_up rate 60 ≤ℤ b)
    × (pos 30 ≤ℤ pos 473)
    × (get 7 (billing_tick env_up tick in_call).1.redis.credits
        ≡ some (b -ℤ tick_units env_up rate 60))
unfolding authorized billing_tick process_billing_tick tick_reply tick_outcome tick_units
billing_tick_continues_only_if_paid_example =
    billing_tick_continues_only_if_paid env_up tick in_call
      {d = record {
        continue_call = true;
        remaining_seconds = pos 473;
        deducted_amount = dec 1440000000000000000000000000 27;
      }}
      refl refl

-- With three numbers, of which the last is the first active one of the consultant.
abbrev reachable : World
reachable = record start {
  db = record start.db {
    phones =
        record { id = 1; consultant_id = 5; phone_number = codes "4471"; is_active = false }
        ∷ record { id = 2; consultant_id = 6; phone_number = codes "4472"; is_active = true }
        ∷ record { id = 3; consultant_id = 5; phone_number = codes "4473"; is_active = true }
        ∷ [];
  };
}

authorize_call-routes_example :
    let (response, after) = authorize_call env_up request reachable in
    AnswersBy env_up request response reachable.db after
unfolding authorized
authorize_call-routes_example = authorize_call-routes env_up request reachable (omega arith) refl

abbrev busy_and_blocked : World
busy_and_blocked = with_tables (all_restated (λ _. 2) (λ _. true) (λ _. false)) start

authorize_ignores_status_example :
    authorize_call env_up request busy_and_blocked
    ≡ let (response, after) = authorize_call env_up request start in
      (response, with_tables (all_restated (λ _. 2) (λ _. true) (λ _. false)) after)
authorize_ignores_status_example =
    authorize_ignores_status (λ _. 2) (λ _. true) (λ _. false) env_up request start

busy_test : (authorize_call env_up request busy_and_blocked).0.status_code ≡ 200
unfolding authorized
busy_test = refl

number_test :
    Option.map (λ a. a.destination_number) (authorize_call env_up request reachable).0.payload
    ≡ some (codes "4473")
unfolding authorized
number_test = refl

-- An environment in which only the insert of the stub fails.
abbrev insert_down : Env Decimal
insert_down = env_of (λ site. elim site [ statistics_insert ↦ true | _ ↦ false ])

abbrev quote : Quote
quote = quote_of site (some coach, none) customer (dec 20 0) (dec 10 1) (pos 2000000)

abbrev quoted_in : World
quoted_in = (quote_call insert_down request start).1

failed_insert_keeps_block_example :
    let (response, after) = authorize_call insert_down request start in
    (response.status_code ≡ 500)
    × (get 7 after.redis.credits
        ≡ some (pos 2000000 -ℤ slot_units_of 300 quote.rate_per_minute quote.avb_time))
    × (after.redis.calls ≡ quoted_in.redis.calls)
    × (after.db ≡ quoted_in.db)
unfolding authorized
failed_insert_keeps_block_example =
    failed_insert_keeps_block insert_down request start quoted_in quote refl (omega arith) refl
      (omega arith) refl refl

-- 10 units do not pay for a minute.
abbrev low : World
low = record in_call { redis = record in_call.redis { credits = (7, pos 10) ∷ [] } }

billing_tick_refuses_example :
    ((billing_tick env_up tick low).0.success ≡ true)
    × ((billing_tick env_up tick low).0.payload
        ≡ some (record {
          continue_call = false;
          remaining_seconds = pos 0;
          deducted_amount = div (of_ℤ (tick_units env_up (dec 24 3) 60)) (dec 100000 0);
        }))
    × ((billing_tick env_up tick low).1 ≡ low)
unfolding get text_beq tick_units mul of_ℤ truncate
billing_tick_refuses_example =
    billing_tick_refuses env_up tick low {rate = dec 24 3} refl refl refl (omega arith) refl refl

get_customer_by_credit_code-admits_example :
    IsNamed (codes "PIN") customer start × (customer.is_blocked ≡ false)
unfolding authorized
get_customer_by_credit_code-admits_example =
    get_customer_by_credit_code-admits env_up (codes "PIN") start refl

get_fx_rate_ignores_target_example :
    get_fx_rate env_up (codes "EUR") (codes "GBP") start
    ≡ get_fx_rate env_up (codes "EUR") (codes "USD") start
unfolding lower text_beq
get_fx_rate_ignores_target_example =
    get_fx_rate_ignores_target env_up (codes "EUR") (codes "GBP") (codes "USD") start refl refl
