-- ===== src/Worker/Esl/Events.antt =====
-- read_event against the events that FreeSWITCH writes, with a body or without.
use voip_platform.Base.{
  ℕ, ◌≡◌, refl, sym, ap, ◌∙◌, Bool, true, false, ◌==◌, inl, inr, Option, Option-cases, none, some,
  List, if◌then◌else◌, [], ◌∷◌, ◌++◌, arith, length, nat_eq,
}
use mathlib.Core.List.{reverse, reverse_aux, reverse-reverse, append-nil}
use voip_platform.Base.Dict.{get, put, get-put}
use voip_platform.Base.Int.{pos}
use voip_platform.Base.Text.{
  Text, text_eq, codes, is_nonempty, splitlines, split_lines_from, ends_line, partition_colon,
  strip,
}
use voip_platform.Base.Text.Numbers.{parse_int}
use voip_platform.Worker.Answer.{Event}
use voip_platform.Worker.Esl.{
  event, read_block, join_lines, parse_headers, read_exactly, read_event, with_body, read_body,
}
use voip_platform.Worker.Esl.Blocks.{
  has_no_break, are_headers, write_block, read_block-write_block, nonempty_header,
}

-- A line of `str.splitlines`: none of its characters ends a line.
unfoldable pub is_line : Text → Bool
unfolding ends_line
is_line [] = true
is_line (c ∷ s) = if ends_line c then false else is_line s

unfoldable pub are_lines : List Text → Bool
unfolding is_line
are_lines [] = true
are_lines (h ∷ hs) = if is_nonempty h then (if is_line h then are_lines hs else false) else false

is_line-has_no_break : (h : Text) → is_line h ≡ true → has_no_break h ≡ true
unfolding is_line has_no_break ends_line
is_line-has_no_break [] clean = refl
is_line-has_no_break (c ∷ h) clean = ground (arith, is_line-has_no_break h)

are_lines-are_headers : (hs : List Text) → are_lines hs ≡ true → are_headers hs ≡ true
unfolding are_lines are_headers
are_lines-are_headers [] clean = refl
are_lines-are_headers (h ∷ hs) clean =
    ground (arith, is_line-has_no_break h, are_lines-are_headers hs)

split_header :
    (returned : Bool) (line h rest : Text)
    → is_line h ≡ true
    → is_nonempty h ≡ true
    → split_lines_from returned line (h ++ rest) ≡ split_lines_from false (reverse_aux h line) rest
unfolding split_lines_from is_line ends_line
split_header returned line [] rest clean some_text = cc
split_header returned line (c ∷ []) rest clean some_text = ground arith
split_header returned line (c ∷ d ∷ h) rest clean some_text =
    ground (arith, split_header false (c ∷ line) (d ∷ h) rest)

last_header : (h : Text) → is_nonempty h ≡ true → split_lines_from false (reverse h) [] ≡ h ∷ []
unfolding split_lines_from
last_header h some_text = rw (nonempty_header h some_text, reverse-reverse h) refl

header_line :
    (h rest : Text)
    → split_lines_from false (reverse h) (10 ∷ rest) ≡ h ∷ split_lines_from false [] rest
unfolding split_lines_from ends_line
header_line h rest = rw (reverse-reverse h) refl

-- The lines that a block was written from are its lines again.
pub splitlines-join_lines :
    (headers : List Text) → are_lines headers ≡ true → splitlines (join_lines headers) ≡ headers
unfolding splitlines join_lines are_lines
splitlines-join_lines [] clean = unfold split_lines_from in refl
splitlines-join_lines (h ∷ []) clean =
    let some_text : is_nonempty h ≡ true = ground arith in
    let unbroken : is_line h ≡ true = ground arith in
    ap (split_lines_from false []) (sym (append-nil h))
    ∙ split_header false [] h [] unbroken some_text
    ∙ last_header h some_text
splitlines-join_lines (h ∷ next ∷ headers) clean =
    let some_text : is_nonempty h ≡ true = ground arith in
    let unbroken : is_line h ≡ true = ground arith in
    let more : are_lines (next ∷ headers) ≡ true = ground arith in
    let rest = join_lines (next ∷ headers) in
    split_header false [] h (10 ∷ rest) unbroken some_text
    ∙ header_line h rest
    ∙ ap (λ (l : List Text). h ∷ l) (splitlines-join_lines (next ∷ headers) more)

read_exactly-++ : (body rest : Text) → read_exactly (length body) (body ++ rest) ≡ some (body, rest)
unfolding read_exactly
read_exactly-++ [] rest = refl
read_exactly-++ (c ∷ body) rest = rw (read_exactly-++ body rest) refl

join-nonempty :
    (h : Text) (headers : List Text)
    → are_headers (h ∷ headers) ≡ true
    → is_nonempty (join_lines (h ∷ headers)) ≡ true
unfolding join_lines are_headers
join-nonempty [] headers clean = absurd (ground arith)
join-nonempty (c ∷ h) [] clean = refl
join-nonempty (c ∷ h) (next ∷ headers) clean = refl

read_event_of :
    (stream : Text) {block rest : Text} {headers : List Text}
    → read_block stream ≡ (block, rest)
    → splitlines block ≡ headers
    → is_nonempty block ≡ true
    → let parsed = parse_headers headers [] in
      read_event stream ≡ with_body (get (codes "Content-Length") parsed) parsed rest
unfolding read_event
read_event_of stream read split full = ground arith

module _ (h : Text) (headers : List Text) (rest : Text)
    (clean : are_lines (h ∷ headers) ≡ true) where
  read_header_block :
      let parsed = parse_headers (h ∷ headers) [] in
      read_event (write_block (h ∷ headers) ++ rest)
      ≡ with_body (get (codes "Content-Length") parsed) parsed rest
  read_header_block =
      let written = are_lines-are_headers (h ∷ headers) clean in
      read_event_of (write_block (h ∷ headers) ++ rest)
        (read_block-write_block (h ∷ headers) rest written).0
        (splitlines-join_lines (h ∷ headers) clean) (join-nonempty h headers written)

body_of :
    (n : ℕ) (headers : Event) (stream : Text) {body rest : Text}
    → read_exactly n stream ≡ some (body, rest)
    → read_body (some (pos n)) headers stream ≡ event (parse_headers (splitlines body) headers) rest
unfolding read_body
body_of n headers stream read = ground arith

-- What the line says of the key, if it is of the form `key: value`.
abbrev says : Text → Text → Option Text
says k line = elim (partition_colon line) [
  | none ↦ none
  | some (key, value) ↦ if strip key == k then some (strip value) else none
]

-- The first of two values that is there.
abbrev pub first_of : Option Text → Option Text → Option Text
first_of none second = second
first_of (some v) second = some v

-- The last of the lines that says something of the key decides.
unfoldable pub value_in : Text → List Text → Option Text
unfolding partition_colon strip
value_in k [] = none
value_in k (line ∷ lines) = first_of (value_in k lines) (says k line)

first_of-none : (o : Option Text) → first_of o none ≡ o
first_of-none none = refl
first_of-none (some v) = refl

get-parse_headers :
    (k : Text) (lines : List Text) (headers : Event)
    → get k (parse_headers lines headers) ≡ first_of (value_in k lines) (get k headers)
unfolding parse_headers value_in
get-parse_headers k [] headers = refl
get-parse_headers k (line ∷ lines) headers = elim (Option-cases (partition_colon line)) [
  | inl plain ↦ ground (arith, get-parse_headers k lines headers)
  | inr ((key, value), parted) ↦
      let headers' = put (strip key) (strip value) headers in
      ground
        (arith, get-parse_headers k lines headers', get-put (strip key) k (strip value) headers)
]

-- An event that has been written as a block of headers, each with some characters and none that ends
-- a line of str.splitlines, and a body as long as the Content-Length of the block says, is read with
-- one value for each key: the last that a line of the body gives it, or, where none does, the last
-- that a header of the block gives it, without the blanks around both. The stream behind the body is
-- left unread.
pub read_event-write_block :
    (h : Text) (headers : List Text) (body rest : Text) {n : Text}
    → are_lines (h ∷ headers) ≡ true
    → value_in (codes "Content-Length") (h ∷ headers) ≡ some n
    → parse_int n ≡ some (pos (length body))
    → (parsed : Event) × (read_event (write_block (h ∷ headers) ++ (body ++ rest))
        ≡ event parsed rest)
      × ((k : Text)
          → get k parsed ≡ first_of (value_in k (splitlines body)) (value_in k (h ∷ headers)))
unfolding with_body get
read_event-write_block h headers body rest {n} clean has counts =
    let block = parse_headers (h ∷ headers) [] in
    let from_block : (k : Text) → get k block ≡ value_in k (h ∷ headers) =
      λ k. get-parse_headers k (h ∷ headers) [] ∙ first_of-none (value_in k (h ∷ headers)) in
    let counted : get (codes "Content-Length") block ≡ some n =
      from_block (codes "Content-Length") ∙ has in
    (
      parse_headers (splitlines body) block,
      read_header_block h headers (body ++ rest) clean
          ∙ rw (counted, counts)
              (body_of (length body) block (body ++ rest) (read_exactly-++ body rest)),
      λ k.
          get-parse_headers k (splitlines body) block
          ∙ ap (first_of (value_in k (splitlines body))) (from_block k),
    )
