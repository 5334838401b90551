-- ===== src/Tests/Worker.antt =====
-- The worker on the deployment.
use mathlib.Core.Path.{subst}
use voip_platform.Base.{
  ◌≡◌, refl, true, false, some, none, [], ◌∷◌, arith, nat_eq, ◌==◌, inl, inr, Bool-cases, ◌*◌, ◌^◌,
}
use voip_platform.Base.Dict.{Dict, get, keys, remove}
use voip_platform.Base.Int.{pos, ◌-ℤ◌}
use voip_platform.Base.Text.{
  Text, text_eq, text_beq, text_beq_iff, is_nonempty, codes, first_word, count_char, splitlines,
  strip,
}
use voip_platform.Base.Text.Numbers.{parse_int}
use voip_platform.Core.{Env, refund_incrby}
use voip_platform.Core.Monad.{World, ok}
use voip_platform.Decimal.{Decimal, dec, mul, truncate, of_ℤ}
use voip_platform.Tests.Fixtures.{
  env_up, env_of, in_call, open_session, uuid, hangup, tables, coach,
}
use voip_platform.Worker.Answer.{Event, handle_answer}
use voip_platform.Worker.Answer.Effect.{answered_tables, handle_answer_lem}
use voip_platform.Worker.Reconcile.Live.{live_call_kept}
use voip_platform.Models.Query.{update_where}
use voip_platform.Redis.{Session, update_call}
use voip_platform.Worker.Cdr.{update_consultant_status, finalize_statistics, append_tracing}
use voip_platform.Worker.Hangup.{
  handle_hangup, actual_cost_units_of, refund, write_cdr, reset_consultant, clean_up, settle,
}
use voip_platform.Worker.Hangup.Ending.{IsBillable, hangup_twice}
use voip_platform.Worker.Hangup.Records.{freed, hangup_writes_no_record}
use voip_platform.Worker.Loop.{backoffs}
use voip_platform.Worker.Loop.Waits.{get_elem?, cap, backoffs_lem}
use voip_platform.Worker.Reconcile.{
  reconcile_on_startup, live_uuids_of, live_of_lines, contains, idle_ids, active_ids, orphans,
  finalize_orphans, reset_idle, reconcile_sessions, reset_stuck_consultants,
}
use voip_platform.Worker.Reconcile.Again.{AllComplete, recovery_twice}
use voip_platform.Worker.Reconcile.Orphans.{IsComplete, recovery_ends_orphan}
use voip_platform.Worker.Reconcile.Held.{AreFreed, reset_stuck_exact}

-- An environment in which only the refund fails.
abbrev refund_down : Env Decimal
refund_down = env_of (λ site. elim site [ refund_incrby ↦ true | _ ↦ false ])

unfoldable pub billable : IsBillable env_up hangup in_call
unfolding get text_beq parse_int
billable = record {
  call_uuid = uuid;
  session = open_session;
  account_id = 7;
  rate_per_second = dec 24 3;
  rate_per_minute = dec 144 2;
  billsec = pos 90;
  duration = pos 95;
  named = refl;
  nonempty = refl;
  reachable = refl;
  found = refl;
  account = refl;
  second_price = refl;
  minute_price = refl;
  seconds = refl;
  length = refl;
}

-- 90 seconds at 0.024 a second cost 216000 units.
cost_test : actual_cost_units_of env_up (dec 24 3) (pos 90) ≡ pos 216000
unfolding actual_cost_units_of mul of_ℤ truncate
cost_test = refl

hangup_twice_example :
    (handle_hangup env_up hangup (handle_hangup env_up hangup in_call).1).1
    ≡ (handle_hangup env_up hangup in_call).1
unfolding billable handle_hangup settle refund write_cdr reset_consultant clean_up ◌-ℤ◌
    actual_cost_units_of mul of_ℤ truncate update_consultant_status finalize_statistics
    append_tracing
hangup_twice_example = hangup_twice env_up hangup hangup in_call refl refl

-- The refund fails too, and the consultant is written all the same.
unfoldable billable_down : IsBillable refund_down hangup in_call
unfolding billable
billable_down = record {
  call_uuid = uuid;
  session = open_session;
  account_id = 7;
  rate_per_second = dec 24 3;
  rate_per_minute = dec 144 2;
  billsec = pos 90;
  duration = pos 95;
  named = refl;
  nonempty = refl;
  reachable = refl;
  found = refl;
  account = refl;
  second_price = refl;
  minute_price = refl;
  seconds = refl;
  length = refl;
}

hangup_writes_no_record_example :
    (handle_hangup refund_down hangup in_call).1.db ≡ freed (some 5) in_call.db
unfolding billable_down
hangup_writes_no_record_example =
    hangup_writes_no_record refund_down hangup in_call billable_down refl

-- A second consultant is busy with the call that is left.
abbrev stuck_and_busy : World
stuck_and_busy = record in_call {
  db = record tables {
    consultants = record coach { id = 6; ivr_status = 2 } ∷ record coach { ivr_status = 2 } ∷ [];
  };
}

reset_stuck_exact_example :
    AreFreed stuck_and_busy stuck_and_busy.db.consultants stuck_and_busy.db.consultants
      (reset_stuck_consultants env_up stuck_and_busy).1.db.consultants
unfolding reset_stuck_consultants keys active_ids idle_ids get text_beq
reset_stuck_exact_example = reset_stuck_exact env_up stuck_and_busy refl

-- The third connection was made, and the wait after it is eight seconds all the same.
backoffs_lem_example : get_elem? (backoffs 2 (false ∷ false ∷ true ∷ [])) 2 ≡ some (cap (2 * 2 ^ 2))
backoffs_lem_example = backoffs_lem 2 (false ∷ false ∷ true ∷ []) 2 (omega arith) (omega arith)

abbrev answer : Event
answer = (codes "Event-Name", codes "CHANNEL_ANSWER") ∷ (codes "Unique-ID", uuid) ∷ []

handle_answer_lem_example : handle_answer env_up answer in_call ≡ (
  ok tt,
  record {
    redis = update_call uuid (λ s. record s { answer_time = some 1700000000000000 }) in_call.redis;
    db = answered_tables 1700000000000000 1 5 tables;
  },
)
unfolding get text_beq
handle_answer_lem_example =
    handle_answer_lem env_up answer in_call {call_uuid = uuid} {session = open_session}
      {statistics_id = 1} {consultant_id = 5} refl refl refl refl refl refl refl refl refl refl

-- A call with the uuid that `show calls` lists.
abbrev live_uuid : Text
live_uuid = codes "01234567-0123-0123-0123-0123456789ab"

abbrev two_calls : World
two_calls = record in_call {
  redis = record in_call.redis { calls = (uuid, open_session) ∷ (live_uuid, open_session) ∷ [] };
}

live_call_kept_example :
    get live_uuid
      (reconcile_on_startup env_up
        (codes "01234567-0123-0123-0123-0123456789ab inbound")
        two_calls).1.redis.calls
    ≡ get live_uuid two_calls.redis.calls
unfolding live_uuids_of contains splitlines text_beq
live_call_kept_example =
    live_call_kept env_up live_uuid (codes "01234567-0123-0123-0123-0123456789ab inbound") two_calls
      refl

abbrev open_session_complete : IsComplete open_session
open_session_complete = record {
  account_id = 7;
  rate_per_second = dec 24 3;
  rate_per_minute = dec 144 2;
  account = refl;
  second_price = refl;
  minute_price = refl;
}

-- A uuid under which a table of sessions like the open one holds a session is one of its keys.
sessions_complete :
    (v : Text) (rest : Dict Text Session) (u : Text) (session : Session)
    → is_nonempty v ≡ true
    → ((session : Session)
        → get u rest ≡ some session
        → IsComplete session × (is_nonempty u ≡ true))
    → get u ((v, open_session) ∷ rest) ≡ some session
    → IsComplete session × (is_nonempty u ≡ true)
unfolding get
sessions_complete v rest u session nonempty others found = elim (Bool-cases (v == u)) [
  | inl same ↦
      let e : v ≡ u = (text_beq_iff v u).0 same in
      let whole : open_session ≡ session = ground arith in
      (subst IsComplete whole open_session_complete, rw e at nonempty)
  | inr other ↦ others session (ground arith)
]

two_calls_complete : AllComplete two_calls
unfolding get
two_calls_complete u session =
    sessions_complete uuid ((live_uuid, open_session) ∷ []) u session refl
      (λ s. sessions_complete live_uuid [] u s refl (λ s none_left. cc))

-- One call is live, and the other is settled by the first run; the second cannot write.
recovery_twice_example :
    let output = codes "01234567-0123-0123-0123-0123456789ab inbound" in
    let once = (reconcile_on_startup env_up output two_calls).1 in
    (reconcile_on_startup refund_down output once).1 ≡ once
unfolding billable handle_hangup settle refund write_cdr reset_consultant clean_up ◌-ℤ◌
    actual_cost_units_of mul of_ℤ truncate update_consultant_status finalize_statistics
    append_tracing reconcile_on_startup reconcile_sessions finalize_orphans orphans contains keys
    live_uuids_of live_of_lines first_word strip count_char splitlines text_beq get active_ids
    idle_ids reset_idle reset_stuck_consultants remove update_where
recovery_twice_example =
    recovery_twice env_up refund_down (codes "01234567-0123-0123-0123-0123456789ab inbound")
      two_calls two_calls_complete refl refl refl refl

recovery_ends_orphan_example :
    get uuid (reconcile_on_startup env_up (codes "c-2") in_call).1.redis.calls ≡ none
unfolding get text_beq live_uuids_of live_of_lines first_word strip count_char contains splitlines
recovery_ends_orphan_example =
    recovery_ends_orphan env_up uuid (codes "c-2") in_call {session = open_session} refl refl
      open_session_complete refl refl refl refl
