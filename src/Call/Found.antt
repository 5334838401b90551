-- ===== src/Call/Found.antt =====
-- Which rows the queries of authorize_call found for a quote.
use voip_platform.Base.{ℕ, ◌≡◌, sym, Option, some, ◌∙◌, arith}
use voip_platform.Core.{Env}
use voip_platform.Core.Monad.{World, ok, ◌>>=◌}
use voip_platform.Core.Ensures.{>>=-ok}
use voip_platform.Call.{Quote, quote_call, quote_customer}
use voip_platform.Call.Quoting.{quote_customer-found}
use voip_platform.Models.{Db, Consultant, ConsultantPhoneNumber}
use voip_platform.Routing.{lookup_did, get_consultant_for_did}
use voip_platform.Routing.Found.{
  OnlyDid, IsMapped, first_active, lookup_did-found, get_consultant_for_did-found,
}
use voip_platform.Schemas.{CallAuthorizeRequest}

-- What the queries found for a quote.
abbrev pub IsFoundIn : CallAuthorizeRequest → Db → Quote → Type 0
IsFoundIn body db q =
    OnlyDid body.inbound_did db q.did
    × ((c : Consultant)
        → q.consultant ≡ some c
        → IsMapped q.did.id db c × (q.phone_number ≡ first_active c.id db.phones))

module _ {F : Type 0} (env : Env F) (body : CallAuthorizeRequest) where
  pub lookup_same : (w : World) → (lookup_did env body.inbound_did w).1 ≡ w
  unfolding lookup_did
  lookup_same w = ground arith

  consultant_found :
      (id : ℕ) (found : Option Consultant × Option ConsultantPhoneNumber) (w : World)
      → (get_consultant_for_did env id w).0 ≡ ok found
      → (c : Consultant) → found.0 ≡ some c
      → IsMapped id w.db c × (found.1 ≡ first_active c.id w.db.phones)
  consultant_found id (o, phone) w e c same =
      get_consultant_for_did-found env id c phone w (rw same at e)

  pub quote_call-IsFoundIn :
      (w : World) (q : Quote) → (quote_call env body w).0 ≡ ok q → IsFoundIn body w.db q
  unfolding quote_call
  quote_call-IsFoundIn w q e =
      let (did, at_did, after_did) =
        >>=-ok (lookup_did env body.inbound_did)
          (λ d. get_consultant_for_did env d.id >>= quote_customer env body d) w e in
      let v = (lookup_did env body.inbound_did w).1 in
      let (found, at_found, after_found) =
        >>=-ok (get_consultant_for_did env did.id) (quote_customer env body did) v after_did in
      let (same_did, same_consultant, same_phone) =
        (quote_customer-found env body did found).run (get_consultant_for_did env did.id v).1 q
          after_found in
      let only = rw lookup_same at ((lookup_did-found env body.inbound_did).run w did at_did) in
      (
        rw same_did only,
        λ c here.
            rw (same_did, same_phone)
              (rw lookup_same at
                (consultant_found did.id found v at_found c (sym same_consultant ∙ here))),
      )
