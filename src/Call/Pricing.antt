-- ===== src/Call/Pricing.antt =====
-- The queries of authorize_call give a quote its price by the tables.
use voip_platform.Base.{
  ℕ, ◌≡◌, refl, ap, ◌∙◌, ◌⊎◌, inl, inr, Option, none, some, List, [], ◌∷◌, ◌==◌, ◌≤◌, ltb, arith,
  nat_eq, Bool-cases,
}
use voip_platform.Base.Int.{ℤ}
use voip_platform.Base.Text.{Text, text_eq, lower, is_nonempty}
use voip_platform.Auth.{get_customer_by_credit_code, get_country_vat, get_fx_rate, latest}
use voip_platform.Auth.Admission.{IsNamed, get_customer_by_credit_code-admits}
use voip_platform.Auth.Laws.{get_customer_by_credit_code-Quiet, get_country_vat-Quiet}
use voip_platform.Call.{Quote, quote_of, id_or_zero, fx_rate_of, quote_customer, quote_call}
use voip_platform.Call.Found.{lookup_same}
use voip_platform.Core.{Env}
use voip_platform.Core.Ensures.{>>=-ok}
use voip_platform.Core.Keeps.{IsPreorder, Keeps, keeps_rules}
use voip_platform.Core.Monad.{World, M, ok, pure, ◌>>=◌}
use voip_platform.Credit.{
  get_credit_balance_units, effective_rate_per_minute, calculate_available_time,
}
use voip_platform.Decimal.{Decimal}
use voip_platform.Models.{
  Consultant, ConsultantIvrNumber, ConsultantPhoneNumber, CreditsCustomer, CurrencyExchangeRate,
  SiteIvrNumber,
}
use voip_platform.Models.Query.{rows_where}
use voip_platform.Routing.{
  lookup_did, get_consultant_for_did, lookup_known_user, active_phone, consultant_phone,
  mapped_consultant,
}
use voip_platform.Schemas.{CallAuthorizeRequest}
use voip_platform.Call.Priced.{IsVat, AllUpTo, IsNewest, IsRate, IsFx, IsPriced}

AllUpTo-trans :
    (m n : ℕ) (rows : List CurrencyExchangeRate) → m ≤ n → AllUpTo m rows → AllUpTo n rows
AllUpTo-trans m n [] h a = tt
AllUpTo-trans m n (r ∷ rows) h a = (omega (arith, a.0), AllUpTo-trans m n rows h a.1)

latest-IsNewest :
    (rows : List CurrencyExchangeRate)
    → ((rows ≡ []) × (latest rows ≡ []))
      ⊎ ((row : CurrencyExchangeRate) × (latest rows ≡ row ∷ []) × IsNewest row rows)
unfolding latest
latest-IsNewest [] = inl (refl, refl)
latest-IsNewest (r ∷ rows) = elim (latest-IsNewest rows) [
  | inl (none_left, e) ↦ inr (
    r,
    rw e refl,
    record { before = []; after = rows; listed = refl; newest = rw none_left (omega arith, tt) },
  )
  | inr (s, e, newest) ↦ elim (Bool-cases (ltb r.id s.id)) [
    | inl older ↦ inr (
      s,
      rw (e, older) refl,
      record {
        before = r ∷ newest.before;
        after = newest.after;
        listed = ap (λ (l : List CurrencyExchangeRate). r ∷ l) newest.listed;
        newest = (ground arith, newest.newest);
      },
    )
    | inr newer ↦ inr (
      r,
      rw (e, newer) refl,
      record {
        before = [];
        after = rows;
        listed = refl;
        newest = (omega arith, AllUpTo-trans s.id r.id rows (ground arith) newest.newest);
      },
    )
  ]
]

few_or_many :
    {A : Type 0} (l : List A)
    → (l ≡ [])
      ⊎ (((a : A) × (l ≡ a ∷ [])) ⊎ (a : A) × (b : A) × (rest : List A) × (l ≡ a ∷ b ∷ rest))
few_or_many [] = inl refl
few_or_many (a ∷ []) = inr (inl (a, refl))
few_or_many (a ∷ b ∷ rest) = inr (inr (a, b, rest, refl))

-- The first query of a call changes nothing at all.
abbrev Same : World → World → Type 0
Same w w' = w' ≡ w

instance abbrev same_preorder : IsPreorder Same
same_preorder = record { same = λ w. refl; trans = λ u v w p q. q ∙ p }

module _ {F : Type 0} (env : Env F) where
  active_phone-Same : (c : Consultant) → Keeps Same (active_phone env c)
  unfolding active_phone
  active_phone-Same c = search keeps_rules

  phone-Same : (o : Option Consultant) → Keeps Same (consultant_phone env o)
  unfolding consultant_phone
  phone-Same none = search keeps_rules
  phone-Same (some c) = search (keeps_rules, active_phone-Same)

  mapped-Same : (m : Option ConsultantIvrNumber) → Keeps Same (mapped_consultant env m)
  unfolding mapped_consultant
  mapped-Same none = search keeps_rules
  mapped-Same (some m) = search (keeps_rules, phone-Same)

  consultant-Same : (id : ℕ) → Keeps Same (get_consultant_for_did env id)
  unfolding get_consultant_for_did
  consultant-Same id = search (keeps_rules, mapped-Same)

  known_user-Same : (t : Text) → Keeps Same (lookup_known_user env t)
  unfolding lookup_known_user
  known_user-Same t = search keeps_rules

  get_country_vat-IsVat :
      (id : ℕ) (w : World) {vat : Decimal}
      → (get_country_vat env id w).0 ≡ ok vat
      → IsVat id w.db vat
  unfolding get_country_vat
  get_country_vat-IsVat id w e = elim (few_or_many (rows_where (λ c. c.id == id) w.db.countries)) [
    | inl nothing ↦ inl (nothing, ground arith)
    | inr (inl (country, only)) ↦ inr (country, only, ground arith)
    | inr (inr (a, b, l, many)) ↦ absurd (ground arith)
  ]

  get_fx_rate-IsRate :
      (from_currency to_currency : Text) (w : World) {fx : Decimal}
      → (get_fx_rate env from_currency to_currency w).0 ≡ ok fx
      → IsRate from_currency to_currency w.db fx
  unfolding get_fx_rate
  get_fx_rate-IsRate from_currency to_currency w e =
      elim (Bool-cases (lower from_currency == lower to_currency)) [
        | inl same ↦ inl (same, ground arith)
        | inr differ ↦ elim (latest-IsNewest w.db.fx_rates) [
          | inl (no_rates, empty) ↦ inr (inl (no_rates, ground arith))
          | inr (row, found, newest) ↦ inr (inr (row, newest, ground arith))
        ]
      ]

  fx_rate_of-IsFx :
      (o : Option Consultant) (k : CreditsCustomer) (w : World) {fx : Decimal}
      → (fx_rate_of env o k w).0 ≡ ok fx
      → IsFx o k w.db fx
  unfolding fx_rate_of
  fx_rate_of-IsFx none k w e = cc
  fx_rate_of-IsFx (some c) k w e = elim (Bool-cases (is_nonempty c.currency_code)) [
    | inl named ↦ inr (get_fx_rate-IsRate c.currency_code k.currency_code w (rw named at e))
    | inr nameless ↦ inl (nameless, ground arith)
  ]

module _ {F : Type 0} (env : Env F) (body : CallAuthorizeRequest) where
  module _ (did : SiteIvrNumber) (found : Option Consultant × Option ConsultantPhoneNumber) where
    abbrev balanced : CreditsCustomer → Decimal → Decimal → M Quote
    balanced customer vat_rate fx_rate =
        get_credit_balance_units env customer.id (some customer) >>= λ n.
        pure (quote_of did found customer vat_rate fx_rate n)

    abbrev exchanged : CreditsCustomer → Decimal → M Quote
    exchanged customer vat_rate = fx_rate_of env found.0 customer >>= balanced customer vat_rate

    abbrev taxed : CreditsCustomer → M Quote
    taxed customer = get_country_vat env (id_or_zero did.country_id) >>= exchanged customer

    IsPriced-quote_of :
        (customer : CreditsCustomer) (vat_rate fx_rate : Decimal) (n : ℤ) (w : World)
        → IsNamed body.account_token customer w
        → IsVat (id_or_zero did.country_id) w.db vat_rate
        → IsFx found.0 customer w.db fx_rate
        → IsPriced body w (quote_of did found customer vat_rate fx_rate n)
    unfolding effective_rate_per_minute calculate_available_time
    IsPriced-quote_of customer vat_rate fx_rate n w named vat fx = record {
      fx_rate = fx_rate;
      named = named;
      vat = vat;
      fx = fx;
      price = refl;
      time = refl;
    }

    quote_customer-IsPriced :
        (w : World) (q : Quote) → (quote_customer env body did found w).0 ≡ ok q → IsPriced body w q
    unfolding quote_customer
    quote_customer-IsPriced w q e =
        let look_up = lookup_known_user env body.caller_id in
        let authenticate = get_customer_by_credit_code env body.account_token in
        let same : (look_up w).1 ≡ w = (known_user-Same env body.caller_id).run w in
        let (_, _, e1) = >>=-ok look_up (λ _. authenticate >>= taxed) w e in
        let (customer, admitted, e2) = >>=-ok authenticate taxed w (rw same at e1) in
        let w2 = (authenticate w).1 in
        let same2 : w2.db ≡ w.db =
          ((get_customer_by_credit_code-Quiet env body.account_token).run w).db in
        let tax = get_country_vat env (id_or_zero did.country_id) in
        let (vat_rate, vat, e3) = >>=-ok tax (exchanged customer) w2 e2 in
        let w3 = (tax w2).1 in
        let same3 : w3.db ≡ w2.db =
          ((get_country_vat-Quiet env (id_or_zero did.country_id)).run w2).db in
        let exchange = fx_rate_of env found.0 customer in
        let (fx_rate, fx, e4) = >>=-ok exchange (balanced customer vat_rate) w3 e3 in
        let (n, _, e5) =
          >>=-ok (get_credit_balance_units env customer.id (some customer))
            (λ n. pure (quote_of did found customer vat_rate fx_rate n)) (exchange w3).1 e4 in
        let made : q ≡ quote_of did found customer vat_rate fx_rate n = cc in
        rw made (
          IsPriced-quote_of customer vat_rate fx_rate n w
            (get_customer_by_credit_code-admits env body.account_token w admitted).0
            (rw same2 at (get_country_vat-IsVat env (id_or_zero did.country_id) w2 vat))
            (rw (same3 ∙ same2) at (fx_rate_of-IsFx env found.0 customer w3 fx)))

  pub quote_call-IsPriced :
      (w : World) (q : Quote) → (quote_call env body w).0 ≡ ok q → IsPriced body w q
  unfolding quote_call
  quote_call-IsPriced w q e =
      let (did, _, e1) =
        >>=-ok (lookup_did env body.inbound_did)
          (λ d. get_consultant_for_did env d.id >>= quote_customer env body d) w e in
      let same : (lookup_did env body.inbound_did w).1 ≡ w = lookup_same env body w in
      let (found, _, e2) =
        >>=-ok (get_consultant_for_did env did.id) (quote_customer env body did) w
          (rw same at e1) in
      quote_customer-IsPriced did found w q (rw ((consultant-Same env did.id).run w) at e2)
