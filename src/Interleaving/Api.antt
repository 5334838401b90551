-- ===== src/Interleaving/Api.antt =====
-- authorize_call and process_billing_tick, cut at their awaits.
pub mod Plain
pub mod Naming
pub mod Owner
pub mod Caching
use voip_platform.Base.{ℕ, Option, none, some, nat_eq}
use voip_platform.Base.Int.{ℤ, pos, leb_ℤ}
use voip_platform.Base.Text.{Text, text_eq}
use voip_platform.Auth.{
  get_customer_by_credit_code, get_country_vat, get_fx_rate, check_cached, select_customer,
}
use voip_platform.Call.{
  Quote, fx_rate_of, quote_customer, quote_call, insert_stub, open_call, admit_call,
}
use voip_platform.Core.{
  Env, key_error, session_not_found, session_hgetall, tick_hset, tick_hincrby, tick_time,
}
use voip_platform.Core.Coroutine.{
  finished, awaits, Coroutine-act, Coroutine-pure, Coroutine-bind, Coroutine-or_raise,
}
use voip_platform.Core.Monad.{Result, ok, lift, ◌>>=◌}
use voip_platform.Credit.{
  get_credit_balance_units, balance_or_seed, seed_from, customer_or_select, load_credit_to_redis,
  atomic_deduct_credit, create_call_session, get_call_session, process_billing_tick, tick_reply,
  tick_outcome, tick_units, charge_tick, caught, calculate_available_time, credit_scale,
}
use voip_platform.Decimal.{Decimal, div, of_ℤ, dec, mul}
use voip_platform.Interleaving.{Action, Handler}
use voip_platform.Base.Dict.{get}
use voip_platform.Interleaving.Cuts.{cut_rules, fetch-cut, on_call-cut}
use voip_platform.Models.{
  Consultant, ConsultantPhoneNumber, CreditsCustomer, SiteIvrNumber, ConsultantIvrNumber,
}
use voip_platform.Redis.{AccountMeta, add_units}
use voip_platform.Routing.{
  lookup_did, get_consultant_for_did, mapped_consultant, consultant_phone, active_phone,
  lookup_known_user,
}
use voip_platform.Schemas.{CallAuthorizeRequest}

module _ {F : Type 0} (env : Env F) where
  pub load_credit-cut : (id : ℕ) (c : Decimal) → Handler env (load_credit_to_redis env id c)
  load_credit-cut id c = Coroutine-act _ (Action.seed id c)

  pub deduct-cut : (id : ℕ) (units : ℤ) → Handler env (atomic_deduct_credit env id units)
  deduct-cut id units = Coroutine-act _ (Action.deduct id units)

  insert-cut : (body : CallAuthorizeRequest) (q : Quote) → Handler env (insert_stub env body q)
  insert-cut body q = Coroutine-act _ (Action.insert body q)

  pub lookup_did-cut : (number : Text) → Handler env (lookup_did env number)
  unfolding lookup_did
  lookup_did-cut number = search cut_rules

  active_phone-cut : (c : Consultant) → Handler env (active_phone env c)
  unfolding active_phone
  active_phone-cut c = search cut_rules

  consultant_phone-cut : (c : Option Consultant) → Handler env (consultant_phone env c)
  unfolding consultant_phone
  consultant_phone-cut none = search cut_rules
  consultant_phone-cut (some c) = active_phone-cut c

  mapped_consultant-cut : (m : Option ConsultantIvrNumber) → Handler env (mapped_consultant env m)
  unfolding mapped_consultant
  mapped_consultant-cut none = search cut_rules
  mapped_consultant-cut (some m) = search (cut_rules, consultant_phone-cut)

  pub consultant-cut : (did : ℕ) → Handler env (get_consultant_for_did env did)
  unfolding get_consultant_for_did
  consultant-cut did = search (cut_rules, mapped_consultant-cut)

  pub known_user-cut : (number : Text) → Handler env (lookup_known_user env number)
  unfolding lookup_known_user
  known_user-cut number = search cut_rules

  pub check_cached-cut : (meta : Option AccountMeta) → Handler env (check_cached env meta)
  unfolding check_cached
  check_cached-cut none = search cut_rules
  check_cached-cut (some meta) = search cut_rules

  pub select_customer-cut :
      (code : Text) (id : Option ℕ) → Handler env (select_customer env code id)
  unfolding select_customer
  select_customer-cut code none = search cut_rules
  select_customer-cut code (some id) = search cut_rules

  pub customer-cut : (code : Text) → Handler env (get_customer_by_credit_code env code)
  unfolding get_customer_by_credit_code
  customer-cut code =
      search (cut_rules, check_cached-cut, select_customer-cut, load_credit-cut) depth 25

  pub country_vat-cut : (id : ℕ) → Handler env (get_country_vat env id)
  unfolding get_country_vat
  country_vat-cut id = search cut_rules

  fx_rate-cut : (a b : Text) → Handler env (get_fx_rate env a b)
  unfolding get_fx_rate
  fx_rate-cut a b = search cut_rules

  pub fx_rate_of-cut :
      (c : Option Consultant) (k : CreditsCustomer) → Handler env (fx_rate_of env c k)
  unfolding fx_rate_of
  fx_rate_of-cut none k = search cut_rules
  fx_rate_of-cut (some c) k = search (cut_rules, fx_rate-cut)

  seed_from-cut : (id : ℕ) (c : Option CreditsCustomer) → Handler env (seed_from env id c)
  unfolding seed_from
  seed_from-cut id none = search cut_rules
  seed_from-cut id (some c) = load_credit-cut id c.current_credits

  customer_or_select-cut :
      (id : ℕ) (c : Option CreditsCustomer) → Handler env (customer_or_select env id c)
  unfolding customer_or_select
  customer_or_select-cut id none = search cut_rules
  customer_or_select-cut id (some c) = search cut_rules

  balance_or_seed-cut :
      (id : ℕ) (c : Option CreditsCustomer) (val : Option ℤ)
      → Handler env (balance_or_seed env id c val)
  unfolding balance_or_seed
  balance_or_seed-cut id c none = search (cut_rules, customer_or_select-cut, seed_from-cut)
  balance_or_seed-cut id c (some val) = search cut_rules

  pub balance-cut :
      (id : ℕ) (c : Option CreditsCustomer) → Handler env (get_credit_balance_units env id c)
  unfolding get_credit_balance_units
  balance-cut id c = search (cut_rules, balance_or_seed-cut)

  quote_customer-cut :
      (body : CallAuthorizeRequest) (did : SiteIvrNumber)
      (found : Option Consultant × Option ConsultantPhoneNumber)
      → Handler env (quote_customer env body did found)
  unfolding quote_customer
  quote_customer-cut body did found =
      search (cut_rules, known_user-cut, customer-cut, country_vat-cut, fx_rate_of-cut, balance-cut)
        depth 25

  quote_call-cut : (body : CallAuthorizeRequest) → Handler env (quote_call env body)
  unfolding quote_call
  quote_call-cut body =
      search (cut_rules, lookup_did-cut, consultant-cut, quote_customer-cut) depth 10

  session-cut :
      (u : Text) (a : ℕ) (m : Decimal) (g : Text) (t n : ℕ) (c st : Option ℕ) (b : Decimal) (i : ℤ)
      → Handler env (create_call_session env u a m g t n c st b i)
  unfolding create_call_session
  session-cut u a m g t n c st b i = search cut_rules

  open-cut : (body : CallAuthorizeRequest) (q : Quote) → Handler env (open_call env body q)
  unfolding open_call
  open-cut body q = search (cut_rules, deduct-cut, insert-cut, session-cut) depth 10

  admit-cut : (body : CallAuthorizeRequest) (q : Quote) → Handler env (admit_call env body q)
  unfolding admit_call
  admit-cut body q = search (cut_rules, open-cut)

  -- authorize_call up to the answer that it makes of what comes out.
  pub authorize_call-cut :
      (body : CallAuthorizeRequest) → Handler env (quote_call env body >>= admit_call env body)
  authorize_call-cut body = Coroutine-bind _ _ (quote_call-cut body) (admit-cut body)

  unfoldable pub get_call_session-cut : (u : Text) → Handler env (get_call_session env u)
  unfolding get_call_session
  get_call_session-cut u =
      Coroutine-bind _ _ (fetch-cut env session_hgetall (λ r. get u r.calls))
        (λ s. Coroutine-or_raise s session_not_found)

  unfoldable pub outcome-cut :
      (u : Text) (rate : Decimal) (units : ℤ) (new : Option ℤ)
      → Handler env (tick_outcome env u rate units new)
  unfolding tick_outcome
  outcome-cut u rate units none = finished (ok _)
  outcome-cut u rate units (some b) =
      let remaining = div (of_ℤ b) (dec credit_scale 0) in
      let seconds = calculate_available_time remaining (mul rate (dec 60 0)) in
      Coroutine-bind _ _
        (on_call-cut env tick_hset u λ s. record s { last_tick = some (env.clock tick_time) })
        (λ _.
          Coroutine-bind _ _
            (on_call-cut env tick_hincrby u λ s. record s {
              total_deducted_units = some (add_units s.total_deducted_units units);
            })
            (λ _. Coroutine-pure (record {
              continue_call = leb_ℤ (pos env.settings.credit_min_seconds) seconds;
              remaining_seconds = seconds;
              deducted = env.floats.ratio units credit_scale;
            })))

  unfoldable pub reply-cut :
      (u : Text) (rate : Decimal) (units : ℤ) (r : Result ℤ)
      → Handler env (tick_reply env u rate units r)
  unfolding tick_reply
  reply-cut u rate units r =
      Coroutine-bind (lift (caught r)) (tick_outcome env u rate units) (finished (caught r))
        (outcome-cut u rate units)

  unfoldable pub charge-cut :
      (u : Text) (id elapsed : ℕ) (rate : Decimal) → Handler env (charge_tick env u id elapsed rate)
  charge-cut u id elapsed rate =
      let units = tick_units env rate elapsed in
      awaits (atomic_deduct_credit env id units) (tick_reply env u rate units)
        (Action.deduct id units) (reply-cut u rate units)

  unfoldable pub tick-cut :
      (u : Text) (id elapsed : ℕ) → Handler env (process_billing_tick env u id elapsed)
  unfolding process_billing_tick
  tick-cut u id elapsed = Coroutine-bind _ _ (get_call_session-cut u) (λ s.
      Coroutine-bind _ _ (Coroutine-or_raise s.rate_per_second key_error) (charge-cut u id elapsed))
