-- ===== src/Call/Priced.antt =====
-- The price of a quote against the tables: the customer, the VAT, the exchange rate and the time.
use voip_platform.Base.{
  ℕ, ◌≡◌, refl, ◌⊎◌, inl, inr, true, false, Option, none, some, List, [], ◌∷◌, ◌++◌, ◌==◌, ◌≤◌,
  if◌then◌else◌, nat_eq, Bool-cases,
}
use voip_platform.Base.Int.{ℤ, pos, ◌≤ℤ◌, min_ℤ, ltb_ℤ, int_laws}
use voip_platform.Base.Text.{Text, text_eq, lower, is_nonempty}
use voip_platform.Auth.{rate_in}
use voip_platform.Auth.Admission.{IsNamed}
use voip_platform.Call.{Quote, slot_units_of, id_or_zero}
use voip_platform.Core.Monad.{World}
use voip_platform.Credit.{credit_scale}
use voip_platform.Decimal.{Decimal, add, mul, div, is_le, truncate, dec, of_ℤ}
use voip_platform.Models.{Db, Consultant, Country, CreditsCustomer, CurrencyExchangeRate}
use voip_platform.Models.Query.{rows_where}
use voip_platform.Schemas.{CallAuthorizeRequest}

-- The rate of the only country with the id, or 20 percent where there is none.
abbrev pub IsVat : ℕ → Db → Decimal → Type 0
IsVat country_id db vat_rate =
    ((rows_where (λ c. c.id == country_id) db.countries ≡ []) × (vat_rate ≡ dec 20 0))
    ⊎ ((country : Country) × (rows_where (λ c. c.id == country_id) db.countries ≡ country ∷ [])
        × (vat_rate ≡ country.effective_vat_rate))

abbrev pub AllUpTo : ℕ → List CurrencyExchangeRate → Type 0
AllUpTo id [] = Unit
AllUpTo id (r ∷ rows) = (r.id ≤ id) × AllUpTo id rows

-- The row is one of the rows, and none has a greater id.
pub record IsNewest (row : CurrencyExchangeRate) (rows : List CurrencyExchangeRate) : Type 0 where
  pub before : List CurrencyExchangeRate
  pub after : List CurrencyExchangeRate
  pub listed : rows ≡ before ++ (row ∷ after)
  pub newest : AllUpTo row.id rows

-- 1.0 between equal currencies or with no rates, and else what the newest rates have.
abbrev pub IsRate : Text → Text → Db → Decimal → Type 0
IsRate from_currency to_currency db fx_rate =
    (((lower from_currency == lower to_currency) ≡ true) × (fx_rate ≡ dec 10 1))
    ⊎ (((db.fx_rates ≡ []) × (fx_rate ≡ dec 10 1))
        ⊎ (row : CurrencyExchangeRate) × IsNewest row db.fx_rates
          × (fx_rate ≡ rate_in from_currency (some row)))

-- 1.0 with no consultant, or one with no currency.
abbrev pub IsFx : Option Consultant → CreditsCustomer → Db → Decimal → Type 0
IsFx none customer db fx_rate = fx_rate ≡ dec 10 1
IsFx (some c) customer db fx_rate =
    ((is_nonempty c.currency_code ≡ false) × (fx_rate ≡ dec 10 1))
    ⊎ IsRate c.currency_code customer.currency_code db fx_rate

-- A quote made in the world `w`.
pub record IsPriced (body : CallAuthorizeRequest) (w : World) (q : Quote) : Type 0 where
  pub fx_rate : Decimal
  pub named : IsNamed body.account_token q.customer w
  pub vat : IsVat (id_or_zero q.did.country_id) w.db q.vat_rate
  pub fx : IsFx q.consultant q.customer w.db fx_rate
  pub price :
      q.rate_per_minute ≡ mul (mul q.call_rate (add (dec 1 0) (div q.vat_rate (dec 100 0)))) fx_rate
  pub time : q.avb_time ≡ (
      if is_le q.rate_per_minute (dec 0 0)
      then pos 0
      else truncate (mul (div q.current_credits q.rate_per_minute) (dec 60 0)))

-- The units are the price of so many seconds: of those that the credit buys, or of the longest block
-- where that is shorter.
pub record IsBlock (block_max : ℕ) (q : Quote) (units : ℤ) : Type 0 where
  pub seconds : ℤ
  pub bought : seconds ≤ℤ q.avb_time
  pub limited : seconds ≤ℤ pos block_max
  pub longest : (seconds ≡ q.avb_time) ⊎ (seconds ≡ pos block_max)
  pub units_of :
      units
      ≡ truncate (mul (mul (div q.rate_per_minute (dec 60 0)) (of_ℤ seconds)) (dec credit_scale 0))

min-of : (a b : ℤ) → (min_ℤ a b ≤ℤ a) × (min_ℤ a b ≤ℤ b) × ((min_ℤ a b ≡ a) ⊎ (min_ℤ a b ≡ b))
unfolding min_ℤ
min-of a b = elim (Bool-cases (ltb_ℤ b a)) [
  | inl less ↦ (grind int_laws, grind int_laws, inr (grind int_laws))
  | inr more ↦ (grind int_laws, grind int_laws, inl (grind int_laws))
]

pub slot_units_of-IsBlock :
    (block_max : ℕ) (q : Quote)
    → IsBlock block_max q (slot_units_of block_max q.rate_per_minute q.avb_time)
unfolding slot_units_of
slot_units_of-IsBlock block_max q =
    let (bought, limited, longest) = min-of q.avb_time (pos block_max) in
    record {
      seconds = min_ℤ q.avb_time (pos block_max);
      bought = bought;
      limited = limited;
      longest = longest;
      units_of = refl;
    }
