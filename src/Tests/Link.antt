-- ===== src/Tests/Link.antt =====
-- A connection to FreeSWITCH: the handshake, the recovery and one event.
use voip_platform.Base.{
  ℕ, ◌+◌, ◌≡◌, ◌≢◌, refl, Bool, true, false, some, List, [], ◌∷◌, ◌++◌, arith, nat_eq,
}
use voip_platform.Base.Dict.{get, keys}
use voip_platform.Base.Text.{
  Text, text_eq, text_beq, codes, splitlines, split_lines_from, ends_line, partition_colon, strip,
  first_word, count_char,
}
use voip_platform.Base.Text.Numbers.{parse_int}
use voip_platform.Core.Monad.{ok, ◌>>◌}
use voip_platform.Tests.Fixtures.{env_up, in_call, uuid}
use voip_platform.Worker.Cycle.{out_of_fuel, event_loop, reconcile_on}
use voip_platform.Worker.Cycle.Blind.{recovery_finalizes_all}
use voip_platform.Worker.Cycle.Fuel.{event_loop_ends}
use voip_platform.Worker.Esl.{read_event, event, join_lines}
use voip_platform.Worker.Esl.Blocks.{are_headers, has_no_break, write_block}
use voip_platform.Worker.Esl.Connection.{Client, connect, new_client, contains_text, is_prefix}
use voip_platform.Worker.Esl.Events.{is_line, are_lines, value_in, first_of, read_event-write_block}
use voip_platform.Worker.Answer.{Event}
use voip_platform.Worker.Esl.Handshake.{authed, connect_lem}
use voip_platform.Worker.Reconcile.{
  live_uuids_of, finalize_orphans, live_of_lines, reset_stuck_consultants,
}

abbrev greeting : List Text
greeting = codes "Content-Type: auth/request" ∷ []

abbrev welcome : List Text
welcome = codes "Content-Type: command/reply" ∷ codes "Reply-Text: +OK accepted" ∷ []

abbrev never : Text → Bool
never command = false

connect_lem_example :
    connect
      (some (record {
        incoming = write_block greeting ++ (write_block welcome ++ []);
        breaks_at = never;
      }))
      (new_client (codes "ClueCon"))
    ≡ (ok tt, authed (codes "ClueCon") never [] true)
unfolding are_headers has_no_break contains_text is_prefix join_lines
connect_lem_example = connect_lem (codes "ClueCon") greeting welcome [] never refl refl refl

-- The body of an event: its own headers.
abbrev body : Text
body = codes "Event-Name: CHANNEL_ANSWER\nUnique-ID: c-1\n\n"

read_event-write_block_example :
    (parsed : Event) × (read_event (write_block (codes "Content-Length: 43" ∷ []) ++ (body ++ []))
      ≡ event parsed [])
    × ((k : Text)
        → get k parsed
          ≡ first_of (value_in k (splitlines body)) (value_in k (codes "Content-Length: 43" ∷ [])))
unfolding are_lines is_line ends_line value_in partition_colon strip text_beq parse_int
read_event-write_block_example =
    read_event-write_block (codes "Content-Length: 43") [] body [] refl refl refl

abbrev served : Text → Client
served incoming = record (new_client (codes "ClueCon")) {
  link = some (record { incoming = incoming; breaks_at = never });
  connected = true;
}

event_loop_ends_example :
    ((event_loop 60 (served body)).ending ≢ out_of_fuel)
    × ((extra : ℕ) → event_loop (60 + extra) (served body) ≡ event_loop 60 (served body))
event_loop_ends_example = event_loop_ends 60 (served body) (omega arith)

-- The answer to `show calls` has the live call in its body.
abbrev answered : List Text
answered = codes "Content-Type: api/response" ∷ codes "Content-Length: 9" ∷ []

recovery_finalizes_all_example :
    let client = served (write_block answered ++ codes "c-1,live\n") in
    let ((r, _), w') = reconcile_on env_up client in_call in
    (r, w') ≡ (finalize_orphans env_up (uuid ∷ []) >> reset_stuck_consultants env_up) in_call
unfolding are_headers has_no_break live_uuids_of live_of_lines splitlines split_lines_from ends_line
    join_lines first_word strip count_char keys
recovery_finalizes_all_example =
    recovery_finalizes_all env_up in_call (served (write_block answered ++ codes "c-1,live\n"))
      (record { incoming = write_block answered ++ codes "c-1,live\n"; breaks_at = never }) answered
      (codes "c-1,live\n") refl refl refl refl refl refl refl
