-- ===== src/Dialplan/Auth.antt =====
-- freeswitch/lua/dialplan/auth.lua: the authorization of a call before it is bridged.
use voip_platform.Base.{
  ℕ, Option, none, some, List, [], ◌∷◌, ◌++◌, ◌==◌, ◌||◌, if◌then◌else◌, nat_eq,
}
use voip_platform.Base.Int.{ℤ, pos, ◌-ℤ◌, ltb_ℤ}
use voip_platform.Base.Text.{Text, text_eq, codes, is_nonempty}
use voip_platform.Base.Text.Numbers.{show_int}
use voip_platform.Call.{authorize_call}
use voip_platform.Core.{Env}
use voip_platform.Core.Monad.{World}
use voip_platform.Dialplan.{
  Command, answer_call, sleep, playback, hangup, set_variable, sched_hangup, sched_broadcast,
  sched_tick, Wire, replied, post, Delivery, deliver,
}
use voip_platform.Dialplan.Pin.{collect_pin}
use voip_platform.Schemas.{ApiResponse, CallAuthorizeRequest, CallAuthorizeData}

-- The settings of lib/config.lua that the script reads.
pub record Config : Type 0 where
  pub auth_attempts : ℕ
  pub pin_length : ℕ
  pub warn_remaining_seconds : ℕ
  pub beep_remaining_seconds : ℕ

abbrev pub default_config : Config
default_config = record {
  auth_attempts = 3;
  pin_length = 8;
  warn_remaining_seconds = 320;
  beep_remaining_seconds = 10;
}

-- The variables of the channel that the script reads, and what the caller enters at each attempt.
pub record Channel : Type 0 where
  pub uuid : Text
  pub caller_id_number : Option Text
  pub destination_number : Option Text
  pub sip_to_user : Option Text
  pub auth_token : Option Text
  pub entries : List (Option Text)

-- `utils.normalize_e164`: one leading plus sign goes.
unfoldable pub normalize_e164 : Option Text → Text
normalize_e164 none = []
normalize_e164 (some []) = []
normalize_e164 (some (c ∷ number)) = if c == b'+' then number else c ∷ number

abbrev or_else : Option Text → Option Text → Option Text
or_else none second = second
or_else (some t) second = some t

abbrev pub request_of : Channel → Text → CallAuthorizeRequest
request_of channel account_token = record {
  caller_id = normalize_e164 channel.caller_id_number;
  dialed_number = normalize_e164 channel.destination_number;
  inbound_did = normalize_e164 (or_else channel.sip_to_user channel.destination_number);
  account_token = account_token;
  call_uuid = channel.uuid;
}

abbrev pub opening : List Command
opening =
    set_variable (codes "hangup_after_bridge") (codes "false")
    ∷ set_variable (codes "continue_on_fail") (codes "true")
    ∷ set_variable (codes "ignore_early_media") (codes "true")
    ∷ answer_call
    ∷ sleep 500
    ∷ []

-- The token of the SIP header, or the PIN. An empty token stands if there is no attempt.
abbrev pub token_of : Config → Channel → Option Text × List Command
token_of config channel = elim channel.auth_token [
  | none ↦ collect_pin config.pin_length config.auth_attempts channel.entries
  | some token ↦
      if is_nonempty token || config.auth_attempts == 0
      then (some token, [])
      else collect_pin config.pin_length config.auth_attempts channel.entries
]

-- The sounds and the cause of a denial.
unfoldable pub denial : Text → List Command
denial reason =
    if reason == codes "INSUFFICIENT_CREDIT"
    then playback (codes "creditsnone.mp3") ∷ hangup (codes "NORMAL_CLEARING") ∷ []
    else if reason == codes "ACCOUNT_NOT_FOUND"
    then playback (codes "creditcodewrong.mp3")
      ∷ sleep 500
      ∷ playback (codes "login_failed.mp3")
      ∷ hangup (codes "CALL_REJECTED")
      ∷ []
    else if reason == codes "ACCOUNT_SUSPENDED"
    then playback (codes "login_failed.mp3") ∷ hangup (codes "CALL_REJECTED") ∷ []
    else if reason == codes "DID_NOT_FOUND"
    then playback (codes "something_wrong.mp3") ∷ hangup (codes "UNALLOCATED_NUMBER") ∷ []
    else playback (codes "something_wrong.mp3") ∷ hangup (codes "SERVICE_UNAVAILABLE") ∷ []

abbrev pub reason_of : Option Text → Text
reason_of none = codes "UNKNOWN"
reason_of (some reason) = reason

-- A broadcast so many seconds before the end, if that is more than 5 seconds away.
abbrev pub before_end : ℤ → ℕ → Text → List Command
before_end max_duration seconds sound =
    let at_seconds = max_duration -ℤ pos seconds in
    if ltb_ℤ (pos 5) at_seconds then sched_broadcast at_seconds sound ∷ [] else []

module _ {F : Type 0} (tostring : F → Text) (config : Config) where
  -- What follows a success: the variables of the bridge and the end of the call, the broadcasts
  -- before it, and the first tick.
  abbrev pub bridging : CallAuthorizeData F → List Command
  bridging d =
      playback (codes "login_success.mp3")
      ∷ set_variable (codes "voip_account_id") (show_int (pos d.account_id))
      ∷ set_variable (codes "voip_gateway") d.gateway
      ∷ set_variable (codes "voip_destination_number") d.destination_number
      ∷ set_variable (codes "voip_rate_per_minute") (tostring d.rate_per_minute)
      ∷ set_variable (codes "voip_max_duration") (show_int d.max_duration_seconds)
      ∷ set_variable (codes "voip_service_type") (show_int (pos d.service_type))
      ∷ sched_hangup d.max_duration_seconds
      ∷ []

  abbrev pub warning : CallAuthorizeData F → List Command
  warning d =
      before_end d.max_duration_seconds config.warn_remaining_seconds (codes "creditslow_8000.mp3")

  abbrev pub beeping : CallAuthorizeData F → List Command
  beeping d =
      before_end d.max_duration_seconds config.beep_remaining_seconds (codes "count-down-beep.mp3")

  unfoldable pub success : Text → CallAuthorizeData F → List Command
  success call_uuid d =
      bridging d ++ (warning d ++ (beeping d ++ (sched_tick 30 call_uuid 30 ∷ [])))

  -- The end of the script by what `http.post` returned. A success without data ends it at once.
  unfoldable pub conclude : Text → Option (ApiResponse (CallAuthorizeData F)) → List Command
  unfolding denial success
  conclude call_uuid none =
      playback (codes "something_wrong.mp3") ∷ hangup (codes "SERVICE_UNAVAILABLE") ∷ []
  conclude call_uuid (some response) =
      if response.success
      then elim response.payload [ none ↦ [] | some d ↦ success call_uuid d ]
      else denial (reason_of response.error)

  abbrev pub ask_api :
      Env F
      → Delivery
      → CallAuthorizeRequest
      → World
      → Wire (ApiResponse (CallAuthorizeData F)) × World
  ask_api env delivery body w =
      let (response, w') = authorize_call env body w in
      deliver delivery w (replied response.status_code (some response), w')

  abbrev pub with_token : Env F → Delivery → Channel → Option Text → World → List Command × World
  with_token env delivery channel none w =
      (playback (codes "login_failed.mp3") ∷ hangup (codes "NORMAL_CLEARING") ∷ [], w)
  with_token env delivery channel (some account_token) w =
      let (wire, w') = ask_api env delivery (request_of channel account_token) w in
      (conclude channel.uuid (post wire), w')

  -- auth.lua
  unfoldable pub auth_script : Env F → Delivery → Channel → World → List Command × World
  unfolding conclude post collect_pin
  auth_script env delivery channel w =
      let (token, asked) = token_of config channel in
      let (rest, w') = with_token env delivery channel token w in (opening ++ (asked ++ rest), w')
