-- ===== src/Call/Unmapped.antt =====
-- Calls to a DID with no consultant.
use voip_platform.Base.{ℕ, ◌≡◌, ◌≢◌, ◌<◌, refl, ◌∙◌, Option, none, [], arith, nat_eq, ◌==◌}
use voip_platform.Base.Int.{pos}
use voip_platform.Core.{Env, did_not_found}
use voip_platform.Core.Monad.{World, Result, ok, err, lift, ◌>>=◌}
use voip_platform.Core.Ensures.{>>=-ok}
use voip_platform.Credit.{effective_rate_per_minute, calculate_available_time}
use voip_platform.Call.{Quote, quote_call, quote_customer, admit_call, answer, authorize_call}
use voip_platform.Call.Quoting.{IsQuote, quote_call-IsQuote, quote_customer-found}
use voip_platform.Decimal.{Decimal, add, mul, div, dec}
use voip_platform.Decimal.Sign.{mul_zero_left, is_le-zero}
use voip_platform.Models.{SiteIvrNumber, Consultant, ConsultantPhoneNumber}
use voip_platform.Models.Query.{rows_where}
use voip_platform.Routing.{lookup_did, get_consultant_for_did}
use voip_platform.Schemas.{CallAuthorizeRequest}

-- At a call rate of zero there is no available time.
free_call_time :
    (credits vat_rate fx_rate rate : Decimal)
    → rate.coefficient ≡ 0
    → calculate_available_time credits (effective_rate_per_minute rate vat_rate fx_rate) ≡ pos 0
unfolding calculate_available_time effective_rate_per_minute
free_call_time credits vat_rate fx_rate rate h =
    let base = mul rate (add (dec 1 0) (div vat_rate (dec 100 0))) in
    let inner : base.coefficient ≡ 0 =
      mul_zero_left rate (add (dec 1 0) (div vat_rate (dec 100 0))) h in
    rw (is_le-zero (mul base fx_rate) (mul_zero_left base fx_rate inner))

pub free_quote_time :
    (q : Quote) (w : World) → IsQuote q w → q.consultant ≡ none → q.avb_time ≡ pos 0
free_quote_time q w quoted free =
    let rate : q.call_rate.coefficient ≡ 0 = rw (quoted.rate, free) refl in
    rw (quoted.time, quoted.price)
      (free_call_time q.current_credits q.vat_rate quoted.fx_rate q.call_rate rate)

module _ {F : Type 0} (env : Env F) (body : CallAuthorizeRequest) where
  lookup_same : (w : World) → (lookup_did env body.inbound_did w).1 ≡ w
  unfolding lookup_did
  lookup_same w = ground arith

  no_mapping :
      (id : ℕ) (w : World) {found : Option Consultant × Option ConsultantPhoneNumber}
      → rows_where (λ m. m.site_ivr_number_id == id) w.db.mappings ≡ []
      → (get_consultant_for_did env id w).0 ≡ ok found
      → found.0 ≡ none
  unfolding get_consultant_for_did
  no_mapping id w empty e = ground arith

  quote_unmapped :
      (w : World) {did : SiteIvrNumber} (q : Quote)
      → (lookup_did env body.inbound_did w).0 ≡ ok did
      → rows_where (λ m. m.site_ivr_number_id == did.id) w.db.mappings ≡ []
      → (quote_call env body w).0 ≡ ok q
      → q.consultant ≡ none
  unfolding quote_call
  quote_unmapped w {did} q looked empty e =
      let (d, at_did, after_did) =
        >>=-ok (lookup_did env body.inbound_did)
          (λ d. get_consultant_for_did env d.id >>= quote_customer env body d) w e in
      let v = (lookup_did env body.inbound_did w).1 in
      let (found, at_found, after_found) =
        >>=-ok (get_consultant_for_did env d.id) (quote_customer env body d) v after_did in
      let same : d ≡ did = cc in
      let none_found : found.0 ≡ none = no_mapping d.id v (rw (lookup_same, same) empty) at_found in
      ((quote_customer-found env body d found).run (get_consultant_for_did env d.id v).1 q
        after_found).1
      ∙ none_found

  admit_free :
      (q : Quote) (w : World)
      → q.avb_time ≡ pos 0
      → 0 < env.settings.credit_min_seconds
      → (answer env (admit_call env body q w).0).status_code ≢ 200
  unfolding admit_call
  admit_free q w free least = ground arith

  continue_free :
      (r : Result Quote) (w : World)
      → ((q : Quote) → r ≡ ok q → q.avb_time ≡ pos 0)
      → 0 < env.settings.credit_min_seconds
      → (answer env ((lift r >>= admit_call env body) w).0).status_code ≢ 200
  continue_free (ok q) w free least = admit_free q w (free q refl) least
  continue_free (err did_not_found) w free least = omega arith
  continue_free (err _) w free least = omega arith

  -- A call to a DID that is found and that no consultant is mapped to is never answered with 200,
  -- whatever the credit, where the minimum of seconds is positive: its call rate is zero, and so is
  -- its available time.
  pub unmapped_never_authorized :
      (w : World) {did : SiteIvrNumber}
      → (lookup_did env body.inbound_did w).0 ≡ ok did
      → rows_where (λ m. m.site_ivr_number_id == did.id) w.db.mappings ≡ []
      → 0 < env.settings.credit_min_seconds
      → (authorize_call env body w).0.status_code ≢ 200
  unfolding authorize_call
  unmapped_never_authorized w looked empty least =
      let (r, v) = quote_call env body w in
      continue_free r v
        (λ q e.
          free_quote_time q v ((quote_call-IsQuote env body).run w q e)
            (quote_unmapped w q looked empty e))
        least
