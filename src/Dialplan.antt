-- ===== src/Dialplan.antt =====
-- freeswitch/lua: what the scripts of the dialplan tell FreeSWITCH to do, and lib/http.lua, through
-- which they call the API.
pub mod Pin
pub mod Auth
pub mod Tick
pub mod Flow
pub mod Granted
use voip_platform.Base.{
  ℕ, Bool, true, false, Option, none, some, ◌==◌, nat_eq, ◌||◌, ◌&&◌, if◌then◌else◌, ltb,
}
use voip_platform.Base.Dict.{Dict, get}
use voip_platform.Base.Int.{ℤ}
use voip_platform.Base.Text.{Text, text_eq, codes}
use voip_platform.Core.Monad.{World}
use voip_platform.Schemas.{BillingTickRequest}

-- The calls of `session` and `freeswitch` that act on a call, in the order in which they are made.
-- Sounds are named by their file, without the directory; logging is left out.
pub data Command : Type 0 where
  answer_call : Command
  sleep : ℕ → Command
  ask_pin : Command
  playback : Text → Command
  hangup : Text → Command
  set_variable : Text → Text → Command
  sched_hangup : ℤ → Command
  sched_broadcast : ℤ → Text → Command
  sched_tick : (delay : ℕ) (call_uuid : Text) (elapsed : ℕ) → Command
  uuid_broadcast : Text → Text → Command
  uuid_kill : Text → Command

-- `JSON_STATUSES`
abbrev pub is_json_status : ℕ → Bool
is_json_status code = code == 200 || code == 401 || code == 402 || code == 403 || code == 404

-- What the request brings: nothing in time, or a status and a body, which may be no JSON.
pub data Wire (A : Type 0) : Type 0 where
  unreachable : Wire A
  replied : ℕ → Option A → Wire A

-- What the network does to a request: it never arrives, or its answer comes too late or in time.
pub data Delivery : Type 0 where
  lost late in_time : Delivery

abbrev pub deliver : {A : Type 0} → Delivery → World → Wire A × World → Wire A × World
deliver lost w (wire, w') = (unreachable, w)
deliver late w (wire, w') = (unreachable, w')
deliver in_time w (wire, w') = (wire, w')

-- `http.post`: none stands for `nil, err`.
unfoldable pub post : {A : Type 0} → Wire A → Option A
post unreachable = none
post (replied code none) = none
post (replied code (some parsed)) = if is_json_status code then some parsed else none

-- A value of a request's JSON.
pub data Field : Type 0 where
  string : Text → Field
  number : ℕ → Field

abbrev as_string : Option Field → Option Text
as_string (some (string t)) = some t
as_string _ = none

abbrev as_number : Option Field → Option ℕ
as_number (some (number n)) = some n
as_number _ = none

abbrev tick_request : Option Text → Option ℕ → Option ℕ → Option BillingTickRequest
tick_request (some call_uuid) (some account_id) (some elapsed_seconds) =
    if ltb 0 elapsed_seconds
    then some (record {
      call_uuid = call_uuid;
      account_id = account_id;
      elapsed_seconds = elapsed_seconds;
    })
    else none
tick_request _ _ _ = none

-- The fields that `BillingTickRequest` asks for; none if one is missing or not of its type.
unfoldable pub validate_tick : Dict Text Field → Option BillingTickRequest
validate_tick body =
    tick_request (as_string (get (codes "call_uuid") body))
      (as_number (get (codes "account_id") body)) (as_number (get (codes "elapsed_seconds") body))
