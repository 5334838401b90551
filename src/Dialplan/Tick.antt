-- ===== src/Dialplan/Tick.antt =====
-- freeswitch/lua/billing/tick.lua: the check of the credit during a call, over the API.
use voip_platform.Base.{
  ℕ, true, false, Option, none, some, List, [], ◌∷◌, if◌then◌else◌, ◌≡◌, refl, arith, nat_eq,
}
use voip_platform.Base.Dict.{Dict, get}
use voip_platform.Base.Text.{Text, text_eq, text_beq, codes, is_nonempty}
use voip_platform.Billing.{billing_tick}
use voip_platform.Core.{Env}
use voip_platform.Core.Monad.{World}
use voip_platform.Dialplan.{
  Command, sleep, sched_tick, uuid_broadcast, uuid_kill, Wire, replied, post, Delivery, lost, late,
  in_time, deliver, Field, string, number, validate_tick, is_json_status,
}
use voip_platform.Schemas.{ApiResponse, BillingTickRequest, BillingTickData}

-- What the script does with the answer.
abbrev pub after_tick :
    {F : Type 0} → Text → Option (ApiResponse (BillingTickData F)) → List Command
after_tick call_uuid none = uuid_kill call_uuid ∷ []
after_tick call_uuid (some response) = elim response.payload [
  | none ↦ goodbye
  | some d ↦ if d.continue_call then sched_tick 60 call_uuid 60 ∷ [] else goodbye
]
  where
    goodbye : List Command
    goodbye =
        uuid_broadcast call_uuid (codes "creditsnone.mp3") ∷ sleep 3000 ∷ uuid_kill call_uuid ∷ []

-- The body that the script sends.
abbrev pub tick_body : Text → ℕ → Dict Text Field
tick_body call_uuid elapsed_seconds =
    (codes "call_uuid", string call_uuid) ∷ (codes "elapsed_seconds", number elapsed_seconds) ∷ []

-- The schema wants an account id, which the script does not send.
no_account_id :
    (call_uuid : Text) (elapsed : ℕ) → validate_tick (tick_body call_uuid elapsed) ≡ none
unfolding validate_tick text_beq get
no_account_id call_uuid elapsed = refl

-- `invalid_status` and `detail` are FastAPI's answer to a body that the schema refuses; the handler does
-- not run then.
module _ {F : Type 0} (env : Env F) (invalid_status : ℕ)
    (detail : ApiResponse (BillingTickData F)) where
  abbrev pub serve :
      Option BillingTickRequest → World → Wire (ApiResponse (BillingTickData F)) × World
  serve none w = (replied invalid_status (some detail), w)
  serve (some body) w =
      let (response, w') = billing_tick env body w in
      (replied response.status_code (some response), w')

  -- tick.lua, with its arguments.
  unfoldable pub tick_script : Delivery → Text → ℕ → World → List Command × World
  unfolding post
  tick_script delivery call_uuid elapsed_seconds w =
      if is_nonempty call_uuid
      then (let (wire, w') =
            deliver delivery w (serve (validate_tick (tick_body call_uuid elapsed_seconds)) w) in
          (after_tick call_uuid (post wire), w'))
      else ([], w)

  -- A run of tick.lua for a call ends the call and charges nothing, whether the request is lost,
  -- late or answered in time: the body that it sends lacks the account id that the API's schema asks
  -- for. The condition is that the status with which FastAPI refuses a body is none of those that
  -- http.lua reads.
  pub first_tick_kills :
      (delivery : Delivery) (call_uuid : Text) (elapsed_seconds : ℕ) (w : World)
      → is_json_status invalid_status ≡ false
      → is_nonempty call_uuid ≡ true
      → tick_script delivery call_uuid elapsed_seconds w ≡ (uuid_kill call_uuid ∷ [], w)
  unfolding tick_script post
  first_tick_kills lost call_uuid elapsed_seconds w invalid named = ground arith
  first_tick_kills late call_uuid elapsed_seconds w invalid named =
      ground (arith, no_account_id call_uuid elapsed_seconds)
  first_tick_kills in_time call_uuid elapsed_seconds w invalid named =
      ground (arith, no_account_id call_uuid elapsed_seconds)
