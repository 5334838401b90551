-- ===== src/Worker/Cycle/Fuel.antt =====
-- The loop over the events ends: each event takes something off the stream.
use voip_platform.Base.{
  ℕ, zero, suc, ◌+◌, ◌≤◌, ◌<◌, ◌≡◌, ◌≢◌, refl, true, Option, none, some, List, [], ◌∷◌, arith,
  length, inl, inr, Option-cases, Bool-cases, nat_eq,
}
use mathlib.Core.List.{reverse}
use voip_platform.Base.Int.{ℤ, pos, negsuc}
use voip_platform.Base.Text.{Text, text_eq, codes, drop_breaks, is_nonempty, splitlines}
use voip_platform.Base.Dict.{get}
use voip_platform.Base.Text.Numbers.{parse_int}
use voip_platform.Core.Monad.{Result, ok, err}
use voip_platform.Worker.Answer.{Event}
use voip_platform.Worker.Cycle.{Listened, listen, event_loop, subscribed_events, out_of_fuel}
use voip_platform.Worker.Esl.{
  Read, event, ended, failed, read_lines, read_block, join_lines, read_exactly, read_event,
  read_body, with_body, parse_headers,
}
use voip_platform.Worker.Esl.Connection.{Link, Client, receive_event, subscribe, write}

-- Reading a block takes at least one character off a stream that has one.
lines_shorter :
    (lines : List Text) (line : Text) (c : ℕ) (stream : Text)
    → length (read_lines lines line (c ∷ stream)).1 ≤ length stream
unfolding read_lines
lines_shorter lines line c [] = ground arith
lines_shorter lines line c (d ∷ stream) = ground (
  arith,
  lines_shorter lines (c ∷ line) d stream,
  lines_shorter (reverse (drop_breaks line) ∷ lines) [] d stream,
)

block_shorter :
    (stream : Text)
    → is_nonempty (read_block stream).0 ≡ true
    → length (read_block stream).1 < length stream
unfolding read_block read_lines drop_breaks join_lines
block_shorter [] e = absurd (ground arith)
block_shorter (c ∷ stream) e = ground (arith, lines_shorter [] [] c stream)

block_at_most : (stream : Text) → length (read_block stream).1 ≤ length stream
unfolding read_block read_lines drop_breaks
block_at_most [] = ground arith
block_at_most (c ∷ stream) = ground (arith, lines_shorter [] [] c stream)

exactly_shorter :
    (n : ℕ) (stream : Text) {p : Text × Text}
    → read_exactly n stream ≡ some p
    → length p.1 ≤ length stream
unfolding read_exactly
exactly_shorter zero stream e = ground arith
exactly_shorter (suc n) [] e = absurd (ground arith)
exactly_shorter (suc n) (c ∷ stream) e = elim (Option-cases (read_exactly n stream)) [
  | inl missing ↦ absurd (ground arith)
  | inr (q, read) ↦ ground (arith, exactly_shorter n stream read)
]

body_shorter :
    (content_length : Option ℤ) (headers : Event) (stream : Text) {h : Event} {further : Text}
    → read_body content_length headers stream ≡ event h further
    → length further ≤ length stream
unfolding read_body
body_shorter none headers stream e = absurd (ground arith)
body_shorter (some (negsuc n)) headers stream e = absurd (ground arith)
body_shorter (some (pos n)) headers stream e = elim (Option-cases (read_exactly n stream)) [
  | inl missing ↦ absurd (ground arith)
  | inr (q, read) ↦ ground (arith, exactly_shorter n stream read)
]

with_body_shorter :
    (content_length : Option Text) (headers : Event) (stream : Text) {h : Event} {further : Text}
    → with_body content_length headers stream ≡ event h further
    → length further ≤ length stream
unfolding with_body
with_body_shorter none headers stream e = ground arith
with_body_shorter (some t) headers stream e = body_shorter (parse_int t) headers stream e

pub read_event_shorter :
    (stream : Text) {h : Event} {further : Text}
    → read_event stream ≡ event h further
    → length further < length stream
unfolding read_event
read_event_shorter stream {h} {further} e =
    let (block, rest) = read_block stream in
    let headers = parse_headers (splitlines block) [] in
    let content_length = get (codes "Content-Length") headers in
    elim (Bool-cases (is_nonempty block)) [
      | inl full ↦
          let read : with_body content_length headers rest ≡ event h further = ground arith in
          ground
            (arith, block_shorter stream full, with_body_shorter content_length headers rest read)
      | inr empty ↦ absurd (ground arith)
    ]

abbrev unread_of : Option Link → ℕ
unread_of none = 0
unread_of (some link) = length link.incoming

-- The characters that the client has not read.
abbrev pub unread : Client → ℕ
unread client = unread_of client.link

receive_shorter :
    (client : Client) {h : Event}
    → (receive_event client).0 ≡ ok (some h)
    → unread (receive_event client).1 < unread client
unfolding receive_event
receive_shorter client e = elim (Option-cases client.link) [
  | inl missing ↦ absurd (ground arith)
  | inr (link, opened) ↦ received link opened (read_event link.incoming) refl
]
  where
    received :
        (link : Link)
        → client.link ≡ some link
        → (r : Read) → read_event link.incoming ≡ r
        → unread (receive_event client).1 < unread client
    received link opened (event headers further) read =
        ground (arith, read_event_shorter link.incoming read)
    received link opened ended read = absurd (ground arith)
    received link opened failed read = absurd (ground arith)

-- With this fuel the loop ends, and more fuel makes no difference.
abbrev Suffices : (ℕ → Client → Listened) → ℕ → Client → Type 0
Suffices loop fuel client =
    ((loop fuel client).ending ≢ out_of_fuel)
    × ((extra : ℕ) → loop (fuel + extra) client ≡ loop fuel client)

listen-Suffices : (fuel : ℕ) (client : Client) → unread client < fuel → Suffices listen fuel client
unfolding listen
listen-Suffices zero client enough = absurd (omega arith)
listen-Suffices (suc fuel) client enough =
    heard (receive_event client).0 refl (listen-Suffices fuel (receive_event client).1)
  where
    client' : Client
    client' = (receive_event client).1

    later : (extra : ℕ) → suc fuel + extra ≡ suc (fuel + extra)
    later extra = omega arith

    heard :
        (r : Result (Option Event))
        → (receive_event client).0 ≡ r
        → (unread client' < fuel → Suffices listen fuel client')
        → Suffices listen (suc fuel) client
    heard (err e) read rest = (λ ran_out. ground arith, λ extra. rw (later extra) (ground arith))
    heard (ok none) read rest = (λ ran_out. ground arith, λ extra. rw (later extra) (ground arith))
    heard (ok (some h)) read rest =
        let shorter : unread client' < unread client = receive_shorter client read in
        let (ends, same) = rest (omega (arith, shorter, enough)) in
        (λ ran_out. ground (arith, ends), λ extra. rw (later extra) (ground (arith, same extra)))

unread-subscribe :
    (client : Client) (events : List Text) → unread (subscribe events client).1 ≤ unread client
unfolding subscribe write read_block
unread-subscribe client events = elim (Option-cases client.link) [
  | inl missing ↦ ground arith
  | inr (link, opened) ↦ ground (arith, block_at_most link.incoming)
]

-- The event loop over what a connection brings ends: with more fuel than there are characters to
-- read it does not run out, and more fuel gives the same events, ending and client.
pub event_loop_ends :
    (fuel : ℕ) (client : Client)
    → unread client < fuel
    → ((event_loop fuel client).ending ≢ out_of_fuel)
      × ((extra : ℕ) → event_loop (fuel + extra) client ≡ event_loop fuel client)
unfolding event_loop
event_loop_ends fuel client enough = subscribed (subscribe subscribed_events client).0 refl
  where
    listening : Client
    listening = (subscribe subscribed_events client).1

    subscribed :
        (r : Result (Unit {0}))
        → (subscribe subscribed_events client).0 ≡ r
        → Suffices event_loop fuel client
    subscribed (err e) read = (λ ran_out. ground arith, λ extra. ground arith)
    subscribed (ok _) read =
        let (ends, same) =
          listen-Suffices fuel listening
            (ground (arith, unread-subscribe client subscribed_events)) in
        (λ ran_out. ground (arith, ends), λ extra. ground (arith, same extra))
