-- ===== src/Auth.antt =====
-- app/services/auth_service.py: the customer behind a PIN, the VAT and the exchange rate.
pub mod Admission
pub mod Rates
pub mod Laws
use voip_platform.Base.{
  ℕ, Bool, true, false, not, ◌&&◌, Option, none, some, List, [], ◌∷◌, ◌==◌, nat_eq, ltb,
  if◌then◌else◌,
}
use voip_platform.Base.Dict.{Dict, get, put}
use voip_platform.Base.Text.{Text, text_eq, codes, lower, upper}
use voip_platform.Core.{
  Env, account_not_found, account_suspended, account_get, customer_select, user_select, account_set,
  country_select, fx_select,
}
use voip_platform.Core.Monad.{
  World, M, pure, raise, or_raise, from_redis, modify_redis, at, select_one, ◌>>=◌, ◌>>◌,
}
use voip_platform.Credit.{load_credit_to_redis}
use voip_platform.Decimal.{Decimal, dec}
use voip_platform.Models.{
  CreditsCustomer, User, Country, CurrencyExchangeRate, Rate, null, number, object,
}
use voip_platform.Models.Query.{rows_where, limit_one}
use voip_platform.Redis.{Redis, AccountMeta}

-- `rates.get(a) or rates.get(b)`
abbrev is_truthy : Rate → Bool
is_truthy null = false
is_truthy (number d) = not (d.coefficient == 0)
is_truthy (object []) = false
is_truthy (object (_ ∷ _)) = true

abbrev or_else : Option Rate → Option Rate → Option Rate
or_else none second = second
or_else (some r) second = if is_truthy r then some r else second

abbrev rate_field : Option Decimal → Decimal
rate_field none = dec 10 1
rate_field (some d) = d

abbrev rate_value : Option Rate → Decimal
rate_value none = dec 10 1
rate_value (some null) = dec 10 1
rate_value (some (number d)) = d
rate_value (some (object o)) = rate_field (get (codes "rate") o)

-- ORDER BY id DESC LIMIT 1
unfoldable pub latest : List CurrencyExchangeRate → List CurrencyExchangeRate
latest [] = []
latest (r ∷ rows) = elim (latest rows) [
  | [] ↦ r ∷ []
  | s ∷ _ ↦ if ltb r.id s.id then s ∷ [] else r ∷ []
]

abbrev pub rate_in : Text → Option CurrencyExchangeRate → Decimal
rate_in from_currency none = dec 10 1
rate_in from_currency (some row) =
    rate_value (or_else (get (upper from_currency) row.rates) (get (lower from_currency) row.rates))

module _ {F : Type 0} (env : Env F) where
  -- The cached verdict, or the id that the cache gives.
  unfoldable pub check_cached : Option AccountMeta → M (Option ℕ)
  check_cached none = pure none
  check_cached (some meta) =
      if meta.is_blocked
      then raise account_suspended
      else if meta.is_deleted
      then raise account_not_found
      else pure (some meta.id)

  -- By id there is no test of `is_deleted`.
  unfoldable pub select_customer : Text → Option ℕ → M (Option CreditsCustomer)
  select_customer credit_code (some account_id) =
      select_one env customer_select (λ db. rows_where (λ c. c.id == account_id) db.customers)
  select_customer credit_code none =
      select_one env customer_select
        (λ db. rows_where (λ c. c.credit_code == credit_code && not c.is_deleted) db.customers)

  abbrev user_deleted : Option User → Bool
  user_deleted none = false
  user_deleted (some user) = user.is_deleted

  -- The rest, for a customer that was found.
  abbrev pub admit_customer : Text → CreditsCustomer → M CreditsCustomer
  admit_customer credit_code customer = do
    user ← select_one env user_select (λ db. rows_where (λ u. u.id == customer.user_id) db.users)
    if user_deleted user then raise account_not_found else pure tt
    if customer.is_blocked then raise account_suspended else pure tt
    at env account_set (
        modify_redis λ r. record r {
          accounts =
              put credit_code
                (record {
                  id = customer.id;
                  credit_code = customer.credit_code;
                  currency_code = customer.currency_code;
                  is_blocked = customer.is_blocked;
                  is_deleted = customer.is_deleted;
                  ttl = 300;
                })
                r.accounts;
        })
    load_credit_to_redis env customer.id customer.current_credits
    pure customer

  unfoldable pub get_customer_by_credit_code : Text → M CreditsCustomer
  unfolding check_cached select_customer
  get_customer_by_credit_code credit_code = do
    cached ← at env account_get (from_redis (λ r. get credit_code r.accounts))
    account_id ← check_cached cached
    found ← select_customer credit_code account_id
    customer ← or_raise found account_not_found
    admit_customer credit_code customer

  abbrev vat_of : Option Country → Decimal
  vat_of none = dec 20 0
  vat_of (some country) = country.effective_vat_rate

  unfoldable pub get_country_vat : ℕ → M Decimal
  get_country_vat country_id = do
    country ←
        select_one env country_select (λ db. rows_where (λ c. c.id == country_id) db.countries)
    pure (vat_of country)

  unfoldable pub get_fx_rate : Text → Text → M Decimal
  unfolding latest
  get_fx_rate from_currency to_currency =
      if lower from_currency == lower to_currency then pure (dec 10 1) else do
        row ← select_one env fx_select (λ db. latest db.fx_rates)
        pure (rate_in from_currency row)
