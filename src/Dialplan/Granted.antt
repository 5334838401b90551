-- ===== src/Dialplan/Granted.antt =====
-- When auth.lua hands a call to the billing ticks.
use voip_platform.Base.{
  ◌≡◌, refl, sym, ◌∙◌, true, false, false≢true, Option, none, some, List, ◌++◌, arith, ◌==◌, ◌||◌,
  nat_eq, inl, inr, Bool-cases, Option-cases, ltb, zero, suc, ℕ,
}
use voip_platform.Base.Text.{Text, is_nonempty}
use voip_platform.Call.{authorize_call}
use voip_platform.Call.Granted.{IsGranted, authorize_call-IsGranted}
use voip_platform.Core.{Env}
use voip_platform.Core.Monad.{World}
use voip_platform.Core.Quiet.{Reads}
use voip_platform.Dialplan.{replied, is_json_status, post, Delivery, lost, late, in_time}
use voip_platform.Dialplan.Auth.{
  Config, Channel, opening, reason_of, token_of, request_of, conclude, with_token, auth_script,
}
use voip_platform.Dialplan.Flow.{
  IsCoherent, authorize_call-IsCoherent, schedules_tick, schedules-++, denial_ends,
}
use voip_platform.Dialplan.Pin.{collect_pin, next_entry, is_pin}
use voip_platform.Schemas.{ApiResponse, CallAuthorizeData}

pin_silent :
    (pin_length attempts : ℕ) (entries : List (Option Text))
    → schedules_tick (collect_pin pin_length attempts entries).1 ≡ false
unfolding collect_pin schedules_tick
pin_silent pin_length zero entries = refl
pin_silent pin_length (suc left) entries =
    let (entered, later) = next_entry entries in
    let rest = pin_silent pin_length left later in
    elim (Bool-cases (is_pin pin_length entered)) [
      | inl good ↦ rw good refl
      | inr bad ↦ elim (Bool-cases (ltb 0 left)) [
        | inl some_left ↦ rw (bad, some_left) rest
        | inr none_left ↦ rw (bad, none_left) rest
      ]
    ]

opening_silent : schedules_tick opening ≡ false
unfolding schedules_tick
opening_silent = refl

token_silent :
    (config : Config) (channel : Channel) → schedules_tick (token_of config channel).1 ≡ false
unfolding schedules_tick
token_silent config channel =
    let pin = pin_silent config.pin_length config.auth_attempts channel.entries in
    elim (Option-cases channel.auth_token) [
      | inl missing ↦ rw missing pin
      | inr (token, given) ↦ elim (Bool-cases (is_nonempty token || config.auth_attempts == 0)) [
        | inl stands ↦ rw (given, stands) refl
        | inr empty ↦ rw (given, empty) pin
      ]
    ]

module _ {F : Type 0} (tostring : F → Text) (config : Config) where
  unanswered : (u : Text) → schedules_tick (conclude tostring config u none) ≡ false
  unfolding conclude schedules_tick
  unanswered u = refl

  denied_silent :
      (u : Text) (response : ApiResponse (CallAuthorizeData F))
      → response.success ≡ false
      → schedules_tick (conclude tostring config u (some response)) ≡ false
  unfolding conclude
  denied_silent u response denied = rw denied (denial_ends u (reason_of response.error)).1

  posted_success :
      (u : Text) (code : ℕ) (response : ApiResponse (CallAuthorizeData F))
      → schedules_tick (conclude tostring config u (post (replied code (some response)))) ≡ true
      → response.success ≡ true
  unfolding post
  posted_success u code response e = elim (Bool-cases response.success) [
    | inl good ↦ good
    | inr bad ↦ elim (Bool-cases (is_json_status code)) [
      | inl json ↦ absurd (false≢true (sym (denied_silent u response bad) ∙ (rw json at e)))
      | inr other ↦ absurd (false≢true (sym (unanswered u) ∙ (rw other at e)))
    ]
  ]

  abbrev Granted : Env F → Delivery → Channel → Option Text → World → World → Type 0
  Granted env delivery channel token w w' =
      (t : Text) × (token ≡ some t)
      × (delivery ≡ in_time)
      × (v : World) × Reads w v
      × IsGranted env (request_of channel t) w v w'

  token-Granted :
      (env : Env F) (delivery : Delivery) (channel : Channel) (token : Option Text) (w : World)
      → let (commands, w') = with_token tostring config env delivery channel token w in
        schedules_tick commands ≡ true → Granted env delivery channel token w w'
  unfolding post IsCoherent
  token-Granted env delivery channel none w e = absurd (unfold schedules_tick in ground arith)
  token-Granted env lost channel (some t) w e = absurd (ground (arith, unanswered channel.uuid))
  token-Granted env late channel (some t) w e = absurd (ground (arith, unanswered channel.uuid))
  token-Granted env in_time channel (some t) w e =
      let body = request_of channel t in
      let (response, w') = authorize_call env body w in
      let good = posted_success channel.uuid response.status_code response e in
      let (status, _, _) = authorize_call-IsCoherent env body w good in
      let (v, reads, granted) = authorize_call-IsGranted env body w status in
      (t, refl, refl, v, reads, granted)

  -- If auth.lua schedules a billing tick, then the caller gave a token, the API's answer came in
  -- time, and it granted the call: the quote is one of a world that differs by seeded balances and
  -- cached accounts alone, the time reaches the minimum, the first block is paid, and the session is
  -- open.
  pub schedules_only_after_grant :
      (env : Env F) (delivery : Delivery) (channel : Channel) (w : World)
      → let (commands, w') = auth_script tostring config env delivery channel w in
        schedules_tick commands ≡ true
        → (t : Text) × ((token_of config channel).0 ≡ some t)
          × (delivery ≡ in_time)
          × (v : World) × Reads w v
          × IsGranted env (request_of channel t) w v w'
  unfolding auth_script
  schedules_only_after_grant env delivery channel w e =
      let (token, asked) = token_of config channel in
      let (rest, w') = with_token tostring config env delivery channel token w in
      let in_rest : schedules_tick rest ≡ true = ground (
        arith,
        e,
        schedules-++ opening (asked ++ rest),
        schedules-++ asked rest,
        opening_silent,
        token_silent config channel,
      ) in
      token-Granted env delivery channel token w in_rest
