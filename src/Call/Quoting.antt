-- ===== src/Call/Quoting.antt =====
-- Steps 1 to 7 of authorize_call: what they change and what they quote.
use voip_platform.Base.{false, ◌≡◌, refl, Option, none, some, arith, nat_eq}
use voip_platform.Base.Dict.{get}
use voip_platform.Base.Int.{ℤ}
use voip_platform.Core.{Env}
use voip_platform.Core.Monad.{World, M, ok, pure, ◌>>=◌}
use voip_platform.Core.Ensures.{Ensures, Ensures-then, Ensures-bind}
use voip_platform.Core.Keeps.{keeps_rules}
use voip_platform.Core.Quiet.{Quiet, reads_preorder}
use voip_platform.Auth.Admission.{get_customer_by_credit_code-admits}
use voip_platform.Auth.{get_customer_by_credit_code, get_country_vat}
use voip_platform.Routing.{lookup_known_user}
use voip_platform.Credit.Seed.{get_credit_balance_units-Quiet, get_credit_balance_units-held}
use voip_platform.Credit.{
  get_credit_balance_units, credit_scale, calculate_available_time, effective_rate_per_minute,
}
use voip_platform.Auth.Laws.{
  get_customer_by_credit_code-Quiet, get_country_vat-Quiet, get_fx_rate-Quiet,
}
use voip_platform.Routing.Laws.{
  lookup_did-Quiet, get_consultant_for_did-Quiet, lookup_known_user-Quiet,
}
use voip_platform.Call.{
  id_or_zero, Quote, quote_of, fx_rate_of, quote_customer, quote_call, call_rate_of,
}
use voip_platform.Decimal.{Decimal, of_ℤ, div, dec}
use voip_platform.Models.{Consultant, ConsultantPhoneNumber, CreditsCustomer, SiteIvrNumber}
use voip_platform.Schemas.{CallAuthorizeRequest}

-- What a quote says of the world in which it was made.
pub record IsQuote (q : Quote) (w : World) : Type 0 where
  pub unblocked : q.customer.is_blocked ≡ false
  pub balance : ℤ
  pub held : get q.customer.id w.redis.credits ≡ some balance
  pub credits : q.current_credits ≡ div (of_ℤ balance) (dec credit_scale 0)
  pub time : q.avb_time ≡ calculate_available_time q.current_credits q.rate_per_minute
  pub rate : q.call_rate ≡ call_rate_of q.consultant
  pub fx_rate : Decimal
  pub price : q.rate_per_minute ≡ effective_rate_per_minute q.call_rate q.vat_rate fx_rate

module _ {F : Type 0} (env : Env F) where
  fx_rate_of-Quiet : (c : Option Consultant) (k : CreditsCustomer) → Quiet (fx_rate_of env c k)
  unfolding fx_rate_of
  fx_rate_of-Quiet none k = search keeps_rules
  fx_rate_of-Quiet (some c) k = search (keeps_rules, get_fx_rate-Quiet)

  quote_customer-Quiet :
      (body : CallAuthorizeRequest) (did : SiteIvrNumber)
      (found : Option Consultant × Option ConsultantPhoneNumber)
      → Quiet (quote_customer env body did found)
  unfolding quote_customer
  quote_customer-Quiet body did found =
      search
        (
          keeps_rules, lookup_known_user-Quiet, get_customer_by_credit_code-Quiet,
          get_country_vat-Quiet, fx_rate_of-Quiet, get_credit_balance_units-Quiet,
        )
        depth 25

  pub quote_call-Quiet : (body : CallAuthorizeRequest) → Quiet (quote_call env body)
  unfolding quote_call
  quote_call-Quiet body =
      search (keeps_rules, lookup_did-Quiet, get_consultant_for_did-Quiet, quote_customer-Quiet)
        depth 10

  quoted :
      (did : SiteIvrNumber) (found : Option Consultant × Option ConsultantPhoneNumber)
      (customer : CreditsCustomer) (vat_rate fx_rate : Decimal)
      → customer.is_blocked ≡ false
      → Ensures IsQuote (
          get_credit_balance_units env customer.id (some customer) >>= λ n.
          pure (quote_of did found customer vat_rate fx_rate n))
  quoted did found customer vat_rate fx_rate unblocked =
      Ensures-bind (λ n w. get customer.id w.redis.credits ≡ some n)
        (get_credit_balance_units env customer.id (some customer))
        (λ n. pure (quote_of did found customer vat_rate fx_rate n))
        (record { run = λ w n. get_credit_balance_units-held env customer.id customer w })
        (λ n w held q e. rw (made n e) (record {
          unblocked = unblocked;
          balance = n;
          held = held;
          credits = refl;
          time = refl;
          rate = refl;
          fx_rate = fx_rate;
          price = refl;
        }))
    where
      made :
          (n : ℤ) {q : Quote}
          → ok (quote_of did found customer vat_rate fx_rate n) ≡ ok q
          → q ≡ quote_of did found customer vat_rate fx_rate n
      made n e = cc

  quote_customer-IsQuote :
      (body : CallAuthorizeRequest) (did : SiteIvrNumber)
      (found : Option Consultant × Option ConsultantPhoneNumber)
      → Ensures IsQuote (quote_customer env body did found)
  unfolding quote_customer
  quote_customer-IsQuote body did found =
      Ensures-then (lookup_known_user env body.caller_id) (λ _. authenticate >>= rest)
        (λ _.
          Ensures-bind (λ c w. c.is_blocked ≡ false) authenticate rest
            (record {
              run = λ w c e. (get_customer_by_credit_code-admits env body.account_token w e).1;
            })
            (λ c w unblocked. (rest-IsQuote c unblocked).run w))
    where
      authenticate : M CreditsCustomer
      authenticate = get_customer_by_credit_code env body.account_token

      rest : CreditsCustomer → M Quote
      rest customer = do
        vat_rate ← get_country_vat env (id_or_zero did.country_id)
        fx_rate ← fx_rate_of env found.0 customer
        balance_units ← get_credit_balance_units env customer.id (some customer)
        pure (quote_of did found customer vat_rate fx_rate balance_units)

      rest-IsQuote :
          (customer : CreditsCustomer)
          → customer.is_blocked ≡ false
          → Ensures IsQuote (rest customer)
      rest-IsQuote customer unblocked = search (Ensures-then, quoted) depth 12

  pub quote_call-IsQuote : (body : CallAuthorizeRequest) → Ensures IsQuote (quote_call env body)
  unfolding quote_call
  quote_call-IsQuote body = search (Ensures-then, quote_customer-IsQuote) depth 12

  -- The quote is for the DID, the consultant and the number that were found.
  pub quote_customer-found :
      (body : CallAuthorizeRequest) (did : SiteIvrNumber)
      (found : Option Consultant × Option ConsultantPhoneNumber)
      → Ensures
          (λ q w. (q.did ≡ did) × (q.consultant ≡ found.0) × (q.phone_number ≡ found.1))
          (quote_customer env body did found)
  unfolding quote_customer
  quote_customer-found body did found = search (Ensures-then, made) depth 12
    where
      made :
          (customer : CreditsCustomer) (vat_rate fx_rate : Decimal) (n : ℤ)
          → Ensures
              (λ q w. (q.did ≡ did) × (q.consultant ≡ found.0) × (q.phone_number ≡ found.1))
              (pure (quote_of did found customer vat_rate fx_rate n))
      made customer vat_rate fx_rate n = record { run = λ w q e. ground arith }
