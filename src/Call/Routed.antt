-- ===== src/Call/Routed.antt =====
-- Where an authorized call is sent, and what the session and the row say of it.
use voip_platform.Base.{
  ◌≡◌, ◌<◌, refl, some, [], ◌∷◌, ◌++◌, arith, inl, inr, Bool-cases, Option-cases,
}
use voip_platform.Base.Dict.{get}
use voip_platform.Base.Text.{text_eq}
use voip_platform.Base.Int.{pos, ltb_ℤ}
use voip_platform.Core.{Env, did_not_found}
use voip_platform.Core.Monad.{World, Result, ok, err, lift, ◌>>=◌}
use voip_platform.Call.{
  Quote, destination, stub_row, quote_call, open_call, admit_call, answer, authorize_call,
}
use voip_platform.Call.Found.{IsFoundIn, quote_call-IsFoundIn}
use voip_platform.Call.Granted.{granted_data, new_session, new_session_held, open_runs, answered}
use voip_platform.Call.Quoting.{IsQuote, quote_call-IsQuote, quote_call-Quiet}
use voip_platform.Call.Unmapped.{free_quote_time}
use voip_platform.Models.{Db, Consultant, SiteIvrNumber, Statistics}
use voip_platform.Redis.{Session}
use voip_platform.Routing.{get_gateway_from_consultant}
use voip_platform.Routing.Found.{OnlyDid, IsMapped, first_active}
use voip_platform.Routing.Gateway.{sequence_gateway, get_gateway_from_consultant_lem}
use voip_platform.Schemas.{ApiResponse, CallAuthorizeRequest, CallAuthorizeData}

-- The answer sends the call to the only consultant of the only DID, and the session and the row
-- name the same.
pub record IsRouted {F : Type 0} (body : CallAuthorizeRequest) (db : Db)
    (answer : CallAuthorizeData F) (session : Session) (row : Statistics) : Type 0 where
  pub did : SiteIvrNumber
  pub consultant : Consultant
  pub only_did : OnlyDid body.inbound_did db did
  pub mapped : IsMapped did.id db consultant
  pub service_type : answer.service_type ≡ did.type_id
  pub gateway : answer.gateway ≡ sequence_gateway consultant.provider_sequence
  pub number :
      answer.destination_number
      ≡ destination (first_active consultant.id db.phones) body.dialed_number
  pub session_account : session.account_id ≡ some answer.account_id
  pub session_gateway : session.gateway ≡ some answer.gateway
  pub session_type : session.service_type ≡ some answer.service_type
  pub session_did : session.site_ivr_number_id ≡ some did.id
  pub session_consultant : session.consultant_id ≡ some (some consultant.id)
  pub row_account : row.credit_customer_id ≡ answer.account_id
  pub row_type : row.type_id ≡ answer.service_type
  pub row_did : row.site_ivr_number_id ≡ did.id
  pub row_consultant : row.consultant_id ≡ some consultant.id
  pub row_number : row.dst_number ≡ answer.destination_number

module _ {F : Type 0} (env : Env F) (body : CallAuthorizeRequest) where
  routed :
      (q : Quote) (c : Consultant) (w : World)
      → IsFoundIn body w.db q
      → q.consultant ≡ some c
      → IsRouted body w.db
          (granted_data env body q)
          (new_session env body q w)
          (stub_row env body q w.db.next_statistics_id)
  unfolding get_gateway_from_consultant
  routed q c w (only, found) here = record {
    did = q.did;
    consultant = c;
    only_did = only;
    mapped = (found c here).0;
    service_type = refl;
    gateway = rw here (get_gateway_from_consultant_lem c).0;
    number = rw ((found c here).1) refl;
    session_account = refl;
    session_gateway = refl;
    session_type = refl;
    session_did = refl;
    session_consultant = rw here refl;
    row_account = refl;
    row_type = refl;
    row_did = refl;
    row_consultant = rw here refl;
    row_number = refl;
  }

  abbrev pub AnswersBy : ApiResponse (CallAuthorizeData F) → Db → World → Type 0
  AnswersBy response db w' =
      (answer : CallAuthorizeData F) × (response.payload ≡ some answer)
      × (session : Session) × (get body.call_uuid w'.redis.calls ≡ some session)
      × (row : Statistics) × (w'.db.statistics ≡ db.statistics ++ (row ∷ []))
      × IsRouted body db answer session row

  open_call-routes :
      (q : Quote) (c : Consultant) (w : World) {response : ApiResponse (CallAuthorizeData F)}
      → IsFoundIn body w.db q
      → q.consultant ≡ some c
      → (open_call env body q w).0 ≡ ok response
      → AnswersBy response w.db (open_call env body q w).1
  open_call-routes q c w found here e =
      let (balance, _, _, redis, db, payload) = open_runs env body q w e in
      (
        granted_data env body q,
        payload,
        new_session env body q w,
        rw redis (new_session_held env body q balance w),
        stub_row env body q w.db.next_statistics_id,
        rw db refl,
        routed q c w found here,
      )

  admit_call-routes :
      (q : Quote) (w : World)
      → IsQuote q w
      → IsFoundIn body w.db q
      → 0 < env.settings.credit_min_seconds
      → (answer env (admit_call env body q w).0).status_code ≡ 200
      → AnswersBy (answer env (admit_call env body q w).0) w.db (admit_call env body q w).1
  unfolding admit_call
  admit_call-routes q w quoted found least h =
      elim (Bool-cases (ltb_ℤ q.avb_time (pos env.settings.credit_min_seconds))) [
        | inl short ↦ absurd (ground arith)
        | inr enough ↦
            let opens : admit_call env body q w ≡ open_call env body q w = ground arith in
            let (response, e) = answered env body (open_call env body q w).0 (rw opens at h) in
            elim (Option-cases q.consultant) [
              | inl free ↦ absurd (ground (arith, free_quote_time q w quoted free))
              | inr (c, here) ↦ rw (opens, e) (open_call-routes q c w found here e)
            ]
      ]

  continue-routes :
      (r : Result Quote) (w : World)
      → ((q : Quote) → r ≡ ok q → IsQuote q w × IsFoundIn body w.db q)
      → 0 < env.settings.credit_min_seconds
      → let (r', w') = (lift r >>= admit_call env body) w in
        (answer env r').status_code ≡ 200 → AnswersBy (answer env r') w.db w'
  continue-routes (ok q) w known least h =
      admit_call-routes q w (known q refl).0 (known q refl).1 least h
  continue-routes (err did_not_found) w known least h = absurd (omega arith)
  continue-routes (err _) w known least h = absurd (omega arith)

  -- An authorization that is answered with 200 routes the call by the tables as they were. One row
  -- is for the dialled DID without its plus signs, one mapping is for that row, and one consultant
  -- has the id that the mapping names. The answer has the DID's service type, the gateway of the
  -- consultant's sequence (the default one where there is none or its first segment is a number, and
  -- else that segment without blanks around it), and the consultant's first active number, or the
  -- dialled one without its plus signs where there is none. The session of the call and the one row
  -- that is added hold the same account, service type, DID and consultant, the session the same
  -- gateway, and the row the same number. The minimum of seconds is positive.
  pub authorize_call-routes :
      (w : World)
      → 0 < env.settings.credit_min_seconds
      → (authorize_call env body w).0.status_code ≡ 200
      → AnswersBy (authorize_call env body w).0 w.db (authorize_call env body w).1
  unfolding authorize_call
  authorize_call-routes w least h =
      let (r, v) = quote_call env body w in
      let same : v.db ≡ w.db = ((quote_call-Quiet env body).run w).db in
      rw same at (
        continue-routes r v
          (λ q e. (
            (quote_call-IsQuote env body).run w q e,
            rw same (quote_call-IsFoundIn env body w q e),
          ))
          least h)
