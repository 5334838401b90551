-- ===== src/Auth/Laws.antt =====
-- What the authentication, the VAT and the exchange rate change.
use voip_platform.Base.{ℕ, Option, none, some, nat_eq}
use voip_platform.Base.Text.{Text, text_eq}
use voip_platform.Core.{Env}
use voip_platform.Core.Keeps.{keeps_rules}
use voip_platform.Core.Quiet.{Quiet, reads_preorder}
use voip_platform.Credit.Seed.{load_credit_to_redis-Quiet}
use voip_platform.Auth.{
  check_cached, select_customer, get_customer_by_credit_code, get_country_vat, get_fx_rate,
}
use voip_platform.Redis.{AccountMeta}

module _ {F : Type 0} (env : Env F) where
  check_cached-Quiet : (m : Option AccountMeta) → Quiet (check_cached env m)
  unfolding check_cached
  check_cached-Quiet none = search keeps_rules
  check_cached-Quiet (some m) = search keeps_rules

  select_customer-Quiet : (code : Text) (id : Option ℕ) → Quiet (select_customer env code id)
  unfolding select_customer
  select_customer-Quiet code none = search keeps_rules
  select_customer-Quiet code (some id) = search keeps_rules

  pub get_customer_by_credit_code-Quiet :
      (code : Text) → Quiet (get_customer_by_credit_code env code)
  unfolding get_customer_by_credit_code
  get_customer_by_credit_code-Quiet code =
      search (keeps_rules, check_cached-Quiet, select_customer-Quiet, load_credit_to_redis-Quiet)
        depth 25

  pub get_country_vat-Quiet : (id : ℕ) → Quiet (get_country_vat env id)
  unfolding get_country_vat
  get_country_vat-Quiet id = search keeps_rules

  pub get_fx_rate-Quiet : (a b : Text) → Quiet (get_fx_rate env a b)
  unfolding get_fx_rate
  get_fx_rate-Quiet a b = search keeps_rules
