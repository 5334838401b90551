-- ===== src/Interleaving/Api/Plain.antt =====
-- The reads of the API's handlers, and the ticks, are plain.
use voip_platform.Base.{ℕ, refl, Option, none, some, nat_eq}
use voip_platform.Base.Int.{ℤ}
use voip_platform.Base.Text.{Text, text_eq}
use voip_platform.Core.{Env, Site}
use voip_platform.Core.Monad.{Result}
use voip_platform.Credit.{tick_units}
use voip_platform.Decimal.{Decimal}
use voip_platform.Interleaving.Cuts.{on_call-cut}
use voip_platform.Models.{Consultant, CreditsCustomer, ConsultantIvrNumber}
use voip_platform.Redis.{AccountMeta, add_units}
use voip_platform.Interleaving.Api.{
  load_credit-cut, deduct-cut, lookup_did-cut, active_phone-cut, consultant_phone-cut,
  mapped_consultant-cut, consultant-cut, known_user-cut, check_cached-cut, select_customer-cut,
  country_vat-cut, fx_rate-cut, fx_rate_of-cut, seed_from-cut, customer_or_select-cut,
  balance_or_seed-cut, balance-cut, get_call_session-cut, outcome-cut, reply-cut, charge-cut,
  tick-cut,
}
use voip_platform.Interleaving.Plain.{IsPlain, IsPlain-on_call, IsPlain-act, plain_rules}

module _ {F : Type 0} (env : Env F) where
  pub load_credit-IsPlain : (id : ℕ) (c : Decimal) → IsPlain (load_credit-cut env id c)
  unfolding load_credit-cut
  load_credit-IsPlain id c = IsPlain-act _ tt

  pub deduct-IsPlain : (id : ℕ) (units : ℤ) → IsPlain (deduct-cut env id units)
  unfolding deduct-cut
  deduct-IsPlain id units = IsPlain-act _ tt

  pub lookup_did-IsPlain : (number : Text) → IsPlain (lookup_did-cut env number)
  unfolding lookup_did-cut
  lookup_did-IsPlain number = search (plain_rules) depth 10

  active_phone-IsPlain : (c : Consultant) → IsPlain (active_phone-cut env c)
  unfolding active_phone-cut
  active_phone-IsPlain c = search (plain_rules) depth 10

  consultant_phone-IsPlain : (c : Option Consultant) → IsPlain (consultant_phone-cut env c)
  unfolding consultant_phone-cut
  consultant_phone-IsPlain none = search (plain_rules) depth 10
  consultant_phone-IsPlain (some c) = search (plain_rules, active_phone-IsPlain) depth 10

  mapped_consultant-IsPlain :
      (m : Option ConsultantIvrNumber) → IsPlain (mapped_consultant-cut env m)
  unfolding mapped_consultant-cut
  mapped_consultant-IsPlain none = search (plain_rules) depth 10
  mapped_consultant-IsPlain (some m) = search (plain_rules, consultant_phone-IsPlain) depth 10

  pub consultant-IsPlain : (did : ℕ) → IsPlain (consultant-cut env did)
  unfolding consultant-cut
  consultant-IsPlain did = search (plain_rules, mapped_consultant-IsPlain) depth 10

  pub known_user-IsPlain : (number : Text) → IsPlain (known_user-cut env number)
  unfolding known_user-cut
  known_user-IsPlain number = search (plain_rules) depth 10

  pub check_cached-IsPlain : (meta : Option AccountMeta) → IsPlain (check_cached-cut env meta)
  unfolding check_cached-cut
  check_cached-IsPlain none = search (plain_rules) depth 10
  check_cached-IsPlain (some meta) = search (plain_rules) depth 10

  pub select_customer-IsPlain :
      (code : Text) (id : Option ℕ) → IsPlain (select_customer-cut env code id)
  unfolding select_customer-cut
  select_customer-IsPlain code none = search (plain_rules) depth 10
  select_customer-IsPlain code (some id) = search (plain_rules) depth 10

  pub country_vat-IsPlain : (id : ℕ) → IsPlain (country_vat-cut env id)
  unfolding country_vat-cut
  country_vat-IsPlain id = search (plain_rules) depth 10

  fx_rate-IsPlain : (a b : Text) → IsPlain (fx_rate-cut env a b)
  unfolding fx_rate-cut
  fx_rate-IsPlain a b = search (plain_rules) depth 10

  pub fx_rate_of-IsPlain :
      (c : Option Consultant) (k : CreditsCustomer) → IsPlain (fx_rate_of-cut env c k)
  unfolding fx_rate_of-cut
  fx_rate_of-IsPlain none k = search (plain_rules) depth 10
  fx_rate_of-IsPlain (some c) k = search (plain_rules, fx_rate-IsPlain) depth 10

  seed_from-IsPlain : (id : ℕ) (c : Option CreditsCustomer) → IsPlain (seed_from-cut env id c)
  unfolding seed_from-cut
  seed_from-IsPlain id none = search (plain_rules) depth 10
  seed_from-IsPlain id (some c) = search (plain_rules, load_credit-IsPlain) depth 10

  customer_or_select-IsPlain :
      (id : ℕ) (c : Option CreditsCustomer) → IsPlain (customer_or_select-cut env id c)
  unfolding customer_or_select-cut
  customer_or_select-IsPlain id none = search (plain_rules) depth 10
  customer_or_select-IsPlain id (some c) = search (plain_rules) depth 10

  balance_or_seed-IsPlain :
      (id : ℕ) (c : Option CreditsCustomer) (val : Option ℤ)
      → IsPlain (balance_or_seed-cut env id c val)
  unfolding balance_or_seed-cut
  balance_or_seed-IsPlain id c none =
      search (plain_rules, customer_or_select-IsPlain, seed_from-IsPlain) depth 10
  balance_or_seed-IsPlain id c (some val) = search (plain_rules) depth 10

  pub balance-IsPlain : (id : ℕ) (c : Option CreditsCustomer) → IsPlain (balance-cut env id c)
  unfolding balance-cut
  balance-IsPlain id c = search (plain_rules, balance_or_seed-IsPlain) depth 10

  get_call_session-IsPlain : (u : Text) → IsPlain (get_call_session-cut env u)
  unfolding get_call_session-cut
  get_call_session-IsPlain u = search (plain_rules) depth 10

  ticked :
      (site : Site) (u : Text) (t : ℕ)
      → IsPlain (on_call-cut env site u λ s. record s { last_tick = some t })
  ticked site u t = IsPlain-on_call site u (λ s. record s { last_tick = some t }) (λ s. refl)

  counted :
      (site : Site) (u : Text) (units : ℤ)
      → IsPlain (
          on_call-cut env site u
            λ s. record s { total_deducted_units = some (add_units s.total_deducted_units units) })
  counted site u units =
      IsPlain-on_call site u
        (λ s. record s { total_deducted_units = some (add_units s.total_deducted_units units) })
        (λ s. refl)

  outcome-IsPlain :
      (u : Text) (rate : Decimal) (units : ℤ) (new : Option ℤ)
      → IsPlain (outcome-cut env u rate units new)
  unfolding outcome-cut
  outcome-IsPlain u rate units none = search (plain_rules) depth 10
  outcome-IsPlain u rate units (some b) = search (plain_rules, ticked, counted) depth 8

  reply-IsPlain :
      (u : Text) (rate : Decimal) (units : ℤ) (r : Result ℤ)
      → IsPlain (reply-cut env u rate units r)
  unfolding reply-cut
  reply-IsPlain u rate units r = search (plain_rules, outcome-IsPlain) depth 10

  charge-IsPlain :
      (u : Text) (id elapsed : ℕ) (rate : Decimal) → IsPlain (charge-cut env u id elapsed rate)
  unfolding charge-cut
  charge-IsPlain u id elapsed rate = record {
    each = (tt, λ r. (reply-IsPlain u rate (tick_units env rate elapsed) r).each);
  }

  pub tick-IsPlain : (u : Text) (id elapsed : ℕ) → IsPlain (tick-cut env u id elapsed)
  unfolding tick-cut
  tick-IsPlain u id elapsed =
      search (plain_rules, get_call_session-IsPlain, charge-IsPlain) depth 10
