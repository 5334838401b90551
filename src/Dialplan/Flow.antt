-- ===== src/Dialplan/Flow.antt =====
-- What auth.lua leads to on every path, together with the API.
use voip_platform.Base.{
  ℕ, ◌≡◌, refl, Bool, true, false, ◌||◌, ◌&&◌, ◌==◌, ==-refl, Option, none, some, List, [], ◌∷◌,
  ◌++◌, arith, nat_eq, inl, inr, Bool-cases,
}
use voip_platform.Base.Int.{pos, ltb_ℤ}
use voip_platform.Base.Text.{Text, text_eq, text_beq, codes}
use voip_platform.Call.{Quote, quote_call, admit_call, open_call, authorize_call, answer}
use voip_platform.Core.{
  Env, did_not_found, account_not_found, account_suspended, insufficient_credit,
}
use voip_platform.Core.Ensures.{Ensures, Ensures-then}
use voip_platform.Core.Monad.{World, Result, ok, err, M, pure, ◌>>=◌}
use voip_platform.Dialplan.{
  Command, hangup, sched_tick, replied, is_json_status, post, Delivery, lost, late, in_time,
}
use voip_platform.Dialplan.Auth.{
  Config, Channel, opening, bridging, warning, beeping, reason_of, token_of, request_of, conclude,
  success, denial, with_token, auth_script,
}
use voip_platform.Schemas.{ApiResponse, refusal, CallAuthorizeRequest, CallAuthorizeData}

-- The causes of FreeSWITCH that a caller's switch can tell apart.
abbrev is_cause : Text → Bool
is_cause cause =
    cause == codes "NORMAL_CLEARING"
    || cause == codes "CALL_REJECTED"
    || cause == codes "UNALLOCATED_NUMBER"
    || cause == codes "SERVICE_UNAVAILABLE"

-- The script ends the call with a cause, or hands it to the ticks, the first in 30 seconds and for
-- these.
abbrev ends_call : Text → Command → Bool
ends_call call_uuid (hangup cause) = is_cause cause
ends_call call_uuid (sched_tick delay uuid elapsed) =
    uuid == call_uuid && delay == 30 && elapsed == 30
ends_call call_uuid _ = false

unfoldable pub ends_well : Text → List Command → Bool
ends_well u [] = false
ends_well u (c ∷ []) = ends_call u c
ends_well u (c ∷ d ∷ commands) = ends_well u (d ∷ commands)

ends_well-++ :
    (u : Text) (before after : List Command)
    → ends_well u after ≡ true
    → ends_well u (before ++ after) ≡ true
unfolding ends_well
ends_well-++ u [] after e = e
ends_well-++ u (c ∷ []) [] e = absurd (ground arith)
ends_well-++ u (c ∷ []) (d ∷ after) e = e
ends_well-++ u (c ∷ d ∷ before) after e = ends_well-++ u (d ∷ before) after e

-- A response that says success has status 200 and data.
unfoldable pub IsCoherent : {F : Type 0} → ApiResponse (CallAuthorizeData F) → Type 0
IsCoherent {F} response =
    response.success ≡ true
    → (response.status_code ≡ 200) × (d : CallAuthorizeData F) × (response.payload ≡ some d)

module _ {F : Type 0} (env : Env F) (body : CallAuthorizeRequest) where
  abbrev Coherent : M (ApiResponse (CallAuthorizeData F)) → Type 0
  Coherent m = Ensures (λ response w. IsCoherent response) m

  refusal-Coherent :
      (status : ℕ) (code : Text) → Coherent (pure (refusal status code env.request_id))
  unfolding IsCoherent
  refusal-Coherent status code = record { run = λ w response e s. absurd (ground arith) }

  open_call-Coherent : (q : Quote) → Coherent (open_call env body q)
  unfolding open_call IsCoherent
  open_call-Coherent q = search (Ensures-then, made) depth 12
    where
      response_is :
          {r response : ApiResponse (CallAuthorizeData F)} → ok r ≡ ok response → response ≡ r
      response_is e = cc

      made :
          (d : CallAuthorizeData F)
          → Coherent (
              pure (record {
                status_code = 200;
                success = true;
                payload = some d;
                error = none;
                request_id = env.request_id;
              }))
      made d = record { run = λ w response e. rw (response_is e) (λ s. (refl, d, refl)) }

  admit_call-Coherent : (q : Quote) → Coherent (admit_call env body q)
  unfolding admit_call
  admit_call-Coherent q = record {
    run = λ w response e.
        elim (Bool-cases (ltb_ℤ q.avb_time (pos env.settings.credit_min_seconds))) [
          | inl short ↦
              (refusal-Coherent 402 (codes "INSUFFICIENT_CREDIT")).run w response (ground arith)
          | inr enough ↦ (open_call-Coherent q).run w response (ground arith)
        ];
  }

  answer-IsCoherent :
      (r : Result (ApiResponse (CallAuthorizeData F)))
      → ((response : ApiResponse (CallAuthorizeData F)) → r ≡ ok response → IsCoherent response)
      → IsCoherent (answer env r)
  unfolding IsCoherent
  answer-IsCoherent (ok response) c s = c response refl s
  answer-IsCoherent (err did_not_found) c s = absurd (ground arith)
  answer-IsCoherent (err account_not_found) c s = absurd (ground arith)
  answer-IsCoherent (err account_suspended) c s = absurd (ground arith)
  answer-IsCoherent (err insufficient_credit) c s = absurd (ground arith)
  answer-IsCoherent (err _) c s = absurd (ground arith)

  pub authorize_call-IsCoherent : (w : World) → IsCoherent (authorize_call env body w).0
  unfolding authorize_call
  authorize_call-IsCoherent w =
      answer-IsCoherent ((quote_call env body >>= admit_call env body) w).0
        ((Ensures-then (quote_call env body) (admit_call env body) admit_call-Coherent).run w)

-- Whether a tick has been scheduled.
unfoldable pub schedules_tick : List Command → Bool
schedules_tick [] = false
schedules_tick (sched_tick delay call_uuid elapsed ∷ commands) = true
schedules_tick (_ ∷ commands) = schedules_tick commands

pub schedules-++ :
    (before after : List Command)
    → schedules_tick (before ++ after) ≡ (schedules_tick before || schedules_tick after)
unfolding schedules_tick
schedules-++ [] after = refl
schedules-++ (sched_tick d u e ∷ before) after = refl
schedules-++ (_ ∷ before) after = schedules-++ before after

pub denial_ends :
    (u reason : Text)
    → (ends_well u (denial reason) ≡ true) × (schedules_tick (denial reason) ≡ false)
unfolding denial ends_well schedules_tick text_beq
denial_ends u reason = (ground arith, ground arith)

module _ {F : Type 0} (tostring : F → Text) (config : Config) where
  success_ends :
      (u : Text) (d : CallAuthorizeData F) → ends_well u (success tostring config u d) ≡ true
  unfolding success
  success_ends u d = ends_well-++ u (bridging tostring config d) _ (
      ends_well-++ u (warning tostring config d) _ (
        ends_well-++ u (beeping tostring config d) (sched_tick 30 u 30 ∷ [])
          (unfold ends_well in ground (arith, ==-refl u))))

  conclude_ends :
      (u : Text) (response : ApiResponse (CallAuthorizeData F))
      → IsCoherent response
      → ends_well u (conclude tostring config u (some response)) ≡ true
  unfolding conclude IsCoherent
  conclude_ends u response coherent = elim (Bool-cases response.success) [
    | inl good ↦ let (_, d, held) = coherent good in rw (good, held) (success_ends u d)
    | inr bad ↦ rw bad (denial_ends u (reason_of response.error)).0
  ]

  no_answer_ends : (u : Text) → ends_well u (conclude tostring config u none) ≡ true
  unfolding conclude ends_well text_beq
  no_answer_ends u = refl

  posted_ends :
      (u : Text) (code : ℕ) (response : ApiResponse (CallAuthorizeData F))
      → IsCoherent response
      → ends_well u (conclude tostring config u (post (replied code (some response)))) ≡ true
  unfolding post
  posted_ends u code response coherent = elim (Bool-cases (is_json_status code)) [
    | inl json ↦ rw json (conclude_ends u response coherent)
    | inr other ↦ rw other (no_answer_ends u)
  ]

  token_ends :
      (env : Env F) (delivery : Delivery) (channel : Channel) (token : Option Text) (w : World)
      → ends_well channel.uuid (with_token tostring config env delivery channel token w).0 ≡ true
  unfolding post text_beq
  token_ends env delivery channel none w = unfold ends_well in refl
  token_ends env lost channel (some token) w = no_answer_ends channel.uuid
  token_ends env late channel (some token) w = no_answer_ends channel.uuid
  token_ends env in_time channel (some token) w =
      let body = request_of channel token in
      let (response, w') = authorize_call env body w in
      posted_ends channel.uuid response.status_code response (authorize_call-IsCoherent env body w)

  -- Whatever the channel holds, the caller enters, the network does to the request and the API
  -- answers, auth.lua ends with a hangup whose cause is one of the four of the script, or with the
  -- first billing tick of this very call scheduled in 30 seconds, for 30 elapsed seconds: no call is
  -- left silent.
  pub auth_script_ends :
      (env : Env F) (delivery : Delivery) (channel : Channel) (w : World)
      → ends_well channel.uuid (auth_script tostring config env delivery channel w).0 ≡ true
  unfolding auth_script
  auth_script_ends env delivery channel w =
      let (token, asked) = token_of config channel in
      ends_well-++ channel.uuid opening _
        (ends_well-++ channel.uuid asked _ (token_ends env delivery channel token w))
