-- ===== src/Call/Restated.antt =====
-- authorize_call where the status of the consultants, and the marks that they are blocked or
-- deleted, are others.
use mathlib.Core.Option
use voip_platform.Base.{ℕ, ◌≡◌, refl, ap, Bool, Option, none, some}
use voip_platform.Base.Int.{ℤ}
use voip_platform.Call.{
  Quote, quote_of, fx_rate_of, quote_customer, quote_call, open_call, admit_call, answer,
  authorize_call,
}
use voip_platform.Call.Blind.{
  get_customer_by_credit_code-Blind, get_country_vat-Blind, fx_rate_of-Blind,
  get_credit_balance_units-Blind, admit_call-Blind,
}
use voip_platform.Core.{Env}
use voip_platform.Core.Blind.{
  Blind, Follows, Follows-then, Follows-bind, with_tables, of_Blind, to_Blind,
}
use voip_platform.Core.Monad.{World, Result, pure, ◌>>=◌}
use voip_platform.Decimal.{Decimal}
use voip_platform.Models.{Db, Consultant, ConsultantPhoneNumber, CreditsCustomer, SiteIvrNumber}
use voip_platform.Routing.{lookup_did, get_consultant_for_did, get_gateway_from_consultant}
use voip_platform.Routing.Restated.{
  restated, all_restated, found_restated, lookup_did-Blind, lookup_known_user-Blind,
  get_consultant_for_did-Follows,
}
use voip_platform.Schemas.{ApiResponse, CallAuthorizeRequest, CallAuthorizeData}

module _ (status : Consultant → ℕ) (blocked deleted : Consultant → Bool) where
  abbrev pub g : Db → Db
  g = all_restated status blocked deleted

  abbrev f : Consultant → Consultant
  f = restated status blocked deleted

  abbrev quote_restated : Quote → Quote
  quote_restated q = record q { consultant = Option.map f q.consultant }

  module _ {F : Type 0} (env : Env F) (body : CallAuthorizeRequest) where
    fx_rate_of_same :
        (o : Option Consultant) (k : CreditsCustomer)
        → fx_rate_of env (Option.map f o) k ≡ fx_rate_of env o k
    unfolding fx_rate_of
    fx_rate_of_same none k = refl
    fx_rate_of_same (some c) k = refl

    quote_of-Follows :
        (found : Option Consultant × Option ConsultantPhoneNumber) (did : SiteIvrNumber)
        (customer : CreditsCustomer) (vat_rate fx_rate : Decimal) (n : ℤ)
        → Follows g quote_restated (pure (quote_of did found customer vat_rate fx_rate n)) (
            pure (
              quote_of did
                (found_restated status blocked deleted found)
                customer
                vat_rate
                fx_rate
                n))
    quote_of-Follows (none, phone) did customer vat_rate fx_rate n = record { run = λ w. refl }
    quote_of-Follows (some c, phone) did customer vat_rate fx_rate n = record { run = λ w. refl }

    quote_customer-Follows :
        (did : SiteIvrNumber) (found : Option Consultant × Option ConsultantPhoneNumber)
        → Follows g quote_restated
            (quote_customer env body did found)
            (quote_customer env body did (found_restated status blocked deleted found))
    unfolding quote_customer fx_rate_of
    quote_customer-Follows did (none, phone) =
        search
          (
            Follows-then,
            lookup_known_user-Blind,
            get_customer_by_credit_code-Blind,
            get_country_vat-Blind,
            fx_rate_of-Blind,
            get_credit_balance_units-Blind,
            quote_of-Follows (none, phone),
          )
          depth 20
    quote_customer-Follows did (some c, phone) =
        search
          (
            Follows-then,
            lookup_known_user-Blind,
            get_customer_by_credit_code-Blind,
            get_country_vat-Blind,
            fx_rate_of-Blind,
            get_credit_balance_units-Blind,
            quote_of-Follows (some c, phone),
          )
          depth 20

    open_call_same :
        (q : Quote) (o : Option Consultant)
        → open_call env body (record q { consultant = Option.map f o })
          ≡ open_call env body (record q { consultant = o })
    unfolding open_call get_gateway_from_consultant
    open_call_same q none = refl
    open_call_same q (some c) = refl

    admit_call_same : (q : Quote) → admit_call env body (quote_restated q) ≡ admit_call env body q
    unfolding admit_call
    admit_call_same q = rw (open_call_same q q.consultant) refl

    admit_call-Follows :
        (q : Quote)
        → Follows g (λ r. r) (admit_call env body q) (admit_call env body (quote_restated q))
    admit_call-Follows q =
        rw (admit_call_same q)
          (of_Blind (admit_call env body q) (admit_call-Blind status blocked deleted env body q))

    quote_call-Follows : Follows g quote_restated (quote_call env body) (quote_call env body)
    unfolding quote_call
    quote_call-Follows =
        Follows-then quote_restated (lookup_did env body.inbound_did)
          (λ did. get_consultant_for_did env did.id >>= quote_customer env body did)
          (λ did. get_consultant_for_did env did.id >>= quote_customer env body did)
          (lookup_did-Blind status blocked deleted env body.inbound_did)
          (λ did.
            Follows-bind (found_restated status blocked deleted) quote_restated
              (get_consultant_for_did env did.id) (get_consultant_for_did env did.id)
              (quote_customer env body did) (quote_customer env body did)
              (get_consultant_for_did-Follows status blocked deleted env did.id)
              (quote_customer-Follows did))

    admitted-Blind : Blind g (quote_call env body >>= admit_call env body)
    admitted-Blind = to_Blind (quote_call env body >>= admit_call env body) (
        Follows-bind quote_restated (λ r. r) (quote_call env body) (quote_call env body)
          (admit_call env body) (admit_call env body) quote_call-Follows admit_call-Follows)

    -- The status of the consultants and the marks that they are blocked or deleted have no bearing
    -- on an authorization: with any others in their place the answer is the same, and so is the
    -- world that it leaves but for these three columns. So a consultant who is busy, blocked or
    -- deleted is called all the same.
    pub authorize_ignores_status :
        (w : World)
        → authorize_call env body (with_tables g w)
          ≡ let (response, w') = authorize_call env body w in (response, with_tables g w')
    unfolding authorize_call
    authorize_ignores_status w =
        ap (λ (p : Result (ApiResponse (CallAuthorizeData F)) × World). (answer env p.0, p.1))
          (admitted-Blind.run w)
