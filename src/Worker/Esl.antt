-- ===== src/Worker/Esl.antt =====
-- billing_worker/esl/client.py: blocks, events and API calls over the bytes that FreeSWITCH sends. A
-- stream is the text that has arrived and not been read; an end of the stream ends a read. Headers
-- are ASCII, so a byte is a character.
pub mod Blocks
pub mod Connection
pub mod Events
pub mod Handshake
use voip_platform.Base.{
  ℕ, zero, suc, ◌+◌, ◌≤◌, ◌≡◌, Bool, true, false, Option, none, some, List, [], ◌∷◌, ◌++◌, ◌==◌,
  nat_eq, length, ltb, if◌then◌else◌,
}
use mathlib.Core.List.{reverse}
use voip_platform.Base.Dict.{Dict, get, put}
use voip_platform.Base.Int.{ℤ, pos, negsuc}
use voip_platform.Base.Text.{
  Text, text_eq, codes, strip, splitlines, partition_colon, drop_breaks, is_nonempty,
}
use voip_platform.Base.Text.Numbers.{parse_int}
use voip_platform.Worker.Answer.{Event}

-- `_read_block`, with the lines so far and the line so far, both backwards: the lines up to the first
-- empty one, and the rest of the stream.
unfoldable pub read_lines : List Text → Text → Text → List Text × Text
read_lines lines line [] =
    let last = drop_breaks line in
    (reverse (if is_nonempty last then reverse last ∷ lines else lines), [])
read_lines lines line (c ∷ stream) =
    let last = drop_breaks line in
    let further = read_lines lines (c ∷ line) stream in
    let next = read_lines (reverse last ∷ lines) [] stream in
    if c == 10 then (if is_nonempty last then next else (reverse lines, stream)) else further

-- `"\n".join(lines)`
unfoldable pub join_lines : List Text → Text
join_lines [] = []
join_lines (line ∷ []) = line
join_lines (line ∷ next ∷ lines) = line ++ (10 ∷ join_lines (next ∷ lines))

unfoldable pub read_block : Text → Text × Text
unfolding read_lines drop_breaks
read_block stream = let (lines, rest) = read_lines [] [] stream in (join_lines lines, rest)

-- `headers[key.strip()] = value.strip()` for each line that has ": ".
unfoldable pub parse_headers : List Text → Event → Event
unfolding partition_colon strip
parse_headers [] headers = headers
parse_headers (line ∷ lines) headers = parse_headers lines (elim (partition_colon line) [
  | none ↦ headers
  | some (key, value) ↦ put (strip key) (strip value) headers
])

-- `readexactly(n)`: none for an IncompleteReadError.
unfoldable pub read_exactly : ℕ → Text → Option (Text × Text)
read_exactly zero stream = some ([], stream)
read_exactly (suc n) [] = none
read_exactly (suc n) (c ∷ stream) = elim (read_exactly n stream) [
  | none ↦ none
  | some (body, rest) ↦ some (c ∷ body, rest)
]

-- What `read_event` gives: an event, None at the end of the stream or the connection, or a
-- ValueError, for a Content-Length that is no number or is negative.
pub data Read : Type 0 where
  event : Event → Text → Read
  ended : Read
  failed : Read

unfoldable pub read_body : Option ℤ → Event → Text → Read
unfolding parse_headers splitlines read_exactly
read_body none headers stream = failed
read_body (some (negsuc n)) headers stream = failed
read_body (some (pos n)) headers stream = elim (read_exactly n stream) [
  | none ↦ ended
  | some (body, rest) ↦ event (parse_headers (splitlines body) headers) rest
]

unfoldable pub with_body : Option Text → Event → Text → Read
unfolding read_body parse_int
with_body none headers stream = event headers stream
with_body (some content_length) headers stream = read_body (parse_int content_length) headers stream

unfoldable pub read_event : Text → Read
unfolding read_block with_body
read_event stream =
    let (block, rest) = read_block stream in
    let headers = parse_headers (splitlines block) [] in
    if is_nonempty block
    then with_body (get (codes "Content-Length") headers) headers rest
    else ended

-- `execute_api` returns the block that comes next, and reads no body after it.
unfoldable pub execute_api : Text → Text × Text
unfolding read_block
execute_api stream = read_block stream
