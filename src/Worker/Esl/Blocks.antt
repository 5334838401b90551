-- ===== src/Worker/Esl/Blocks.antt =====
-- read_block against the blocks that FreeSWITCH writes.
use voip_platform.Base.{
  ◌≡◌, refl, ap, ◌∙◌, Bool, true, false, ◌||◌, List, [], ◌∷◌, ◌++◌, arith, ◌==◌, nat_eq,
  if◌then◌else◌,
}
use mathlib.Core.List.{reverse, reverse_aux, reverse-reverse, append_assoc}
use voip_platform.Base.Text.{Text, drop_breaks, is_nonempty}
use voip_platform.Worker.Esl.{read_lines, read_block, join_lines, execute_api}

-- A header: some characters, none of which ends a line.
unfoldable pub has_no_break : Text → Bool
has_no_break [] = true
has_no_break (c ∷ s) = if c == 10 || c == 13 then false else has_no_break s

unfoldable pub are_headers : List Text → Bool
unfolding has_no_break
are_headers [] = true
are_headers (h ∷ hs) =
    if is_nonempty h then (if has_no_break h then are_headers hs else false) else false

-- A block as it is sent: each header with its line feed, and an empty line.
unfoldable pub write_block : List Text → Text
write_block [] = 10 ∷ []
write_block (h ∷ hs) = h ++ (10 ∷ write_block hs)

read_header :
    (lines : List Text) (line h rest : Text)
    → has_no_break h ≡ true
    → read_lines lines line (h ++ rest) ≡ read_lines lines (reverse_aux h line) rest
unfolding read_lines has_no_break
read_header lines line [] rest clean = refl
read_header lines line (c ∷ h) rest clean = ground (arith, read_header lines (c ∷ line) h rest)

has_no_break-reverse :
    (h line : Text)
    → has_no_break h ≡ true
    → has_no_break line ≡ true
    → has_no_break (reverse_aux h line) ≡ true
unfolding has_no_break
has_no_break-reverse [] line p q = q
has_no_break-reverse (c ∷ h) line p q = ground (arith, has_no_break-reverse h (c ∷ line))

drop_breaks_clean : (s : Text) → has_no_break s ≡ true → drop_breaks s ≡ s
unfolding drop_breaks has_no_break
drop_breaks_clean [] p = refl
drop_breaks_clean (c ∷ s) p = ground arith

pub nonempty-reverse :
    (h line : Text) → is_nonempty line ≡ true → is_nonempty (reverse_aux h line) ≡ true
nonempty-reverse [] line p = p
nonempty-reverse (c ∷ h) line p = nonempty-reverse h (c ∷ line) refl

pub nonempty_header : (h : Text) → is_nonempty h ≡ true → is_nonempty (reverse h) ≡ true
nonempty_header [] p = p
nonempty_header (c ∷ h) p = nonempty-reverse h (c ∷ []) refl

pub drop_breaks-reverse : (h : Text) → has_no_break h ≡ true → drop_breaks (reverse h) ≡ reverse h
drop_breaks-reverse h clean =
    drop_breaks_clean (reverse h) (has_no_break-reverse h [] clean (unfold has_no_break in refl))

end_header :
    (lines : List Text) (h rest : Text)
    → is_nonempty h ≡ true
    → has_no_break h ≡ true
    → read_lines lines (reverse h) (10 ∷ rest) ≡ read_lines (h ∷ lines) [] rest
unfolding read_lines
end_header lines h rest some_text clean =
    rw (drop_breaks-reverse h clean, nonempty_header h some_text, reverse-reverse h) refl

read_headers :
    (lines hs : List Text) (rest : Text)
    → are_headers hs ≡ true
    → read_lines lines [] (write_block hs ++ rest) ≡ (reverse_aux lines hs, rest)
unfolding read_lines write_block are_headers drop_breaks
read_headers lines [] rest ok = refl
read_headers lines (h ∷ hs) rest ok =
    let some_text : is_nonempty h ≡ true = ground arith in
    let clean : has_no_break h ≡ true = ground arith in
    let more : are_headers hs ≡ true = ground arith in
    ap (read_lines lines []) (append_assoc h (10 ∷ write_block hs) rest)
    ∙ read_header lines [] h (10 ∷ (write_block hs ++ rest)) clean
    ∙ end_header lines h (write_block hs ++ rest) some_text clean
    ∙ read_headers (h ∷ lines) hs rest more

-- A block of headers that has been written, each header with some characters and no line break, is
-- read back header by header, and the stream behind it is left unread; so is the body behind the
-- headers of an answer to execute_api.
pub read_block-write_block :
    (headers : List Text) (rest : Text)
    → are_headers headers ≡ true
    → (read_block (write_block headers ++ rest) ≡ (join_lines headers, rest))
      × (execute_api (write_block headers ++ rest) ≡ (join_lines headers, rest))
unfolding read_block execute_api
read_block-write_block headers rest clean =
    let read = read_headers [] headers rest clean in (rw read refl, rw read refl)
