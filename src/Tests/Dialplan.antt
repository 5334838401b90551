-- ===== src/Tests/Dialplan.antt =====
-- The scripts of the dialplan on a call with a PIN in its SIP header.
use voip_platform.Base.{◌≡◌, refl, true, some, none, [], ◌∷◌, nat_eq}
use voip_platform.Base.Text.{Text, text_eq, codes}
use voip_platform.Call.Granted.{IsGranted}
use voip_platform.Core.Monad.{World}
use voip_platform.Core.Quiet.{Reads}
use voip_platform.Decimal.{Decimal}
use voip_platform.Dialplan.{in_time, uuid_kill}
use voip_platform.Dialplan.Auth.{
  Channel, default_config, token_of, request_of, auth_script, normalize_e164,
}
use voip_platform.Dialplan.Flow.{ends_well, schedules_tick, auth_script_ends}
use voip_platform.Dialplan.Granted.{schedules_only_after_grant}
use voip_platform.Dialplan.Tick.{tick_script, first_tick_kills}
use voip_platform.Schemas.{refusal}
use voip_platform.Tests.Api.{authorized}
use voip_platform.Tests.Fixtures.{env_up, start, in_call, uuid}

abbrev channel : Channel
channel = record {
  uuid = uuid;
  caller_id_number = some (codes "+4471");
  destination_number = some (codes "+4420");
  sip_to_user = none;
  auth_token = some (codes "PIN");
  entries = [];
}

-- The text of a rate.
abbrev shown : Decimal → Text
shown rate = []

auth_script_ends_example :
    ends_well channel.uuid (auth_script shown default_config env_up in_time channel start).0 ≡ true
auth_script_ends_example = auth_script_ends shown default_config env_up in_time channel start

schedules_only_after_grant_example :
    (t : Text) × ((token_of default_config channel).0 ≡ some t)
    × (in_time ≡ in_time)
    × (v : World) × Reads start v
    × IsGranted env_up
        (request_of channel t)
        start
        v
        (auth_script shown default_config env_up in_time channel start).1
unfolding authorized auth_script schedules_tick normalize_e164
schedules_only_after_grant_example =
    schedules_only_after_grant shown default_config env_up in_time channel start refl

first_tick_kills_example :
    tick_script env_up 422 (refusal 422 [] []) in_time uuid 30 in_call
    ≡ (uuid_kill uuid ∷ [], in_call)
first_tick_kills_example =
    first_tick_kills env_up 422 (refusal 422 [] []) in_time uuid 30 in_call refl refl
