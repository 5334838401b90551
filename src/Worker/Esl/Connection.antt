-- ===== src/Worker/Esl/Connection.antt =====
-- billing_worker/esl/client.py: the client itself, over what a connection brings. Reading waits until
-- a block is whole or the stream ends; what is written is kept as a list of commands.
use voip_platform.Base.{
  Bool, true, false, Option, none, some, List, [], ◌∷◌, ◌++◌, ◌==◌, nat_eq, if◌then◌else◌, ◌||◌,
}
use voip_platform.Base.Text.{Text, text_eq, codes, is_nonempty}
use voip_platform.Core.{value_error, io_error}
use voip_platform.Core.Monad.{Result, ok, err}
use voip_platform.Worker.Answer.{Event}
use voip_platform.Worker.Esl.{Read, event, ended, failed, read_block, read_event, execute_api}

-- `prefix.startswith`, and `needle in text`.
unfoldable pub is_prefix : Text → Text → Bool
is_prefix [] text = true
is_prefix (c ∷ needle) [] = false
is_prefix (c ∷ needle) (d ∷ text) = if c == d then is_prefix needle text else false

unfoldable pub contains_text : Text → Text → Bool
unfolding is_prefix
contains_text needle [] = is_prefix needle []
contains_text needle (c ∷ text) = is_prefix needle (c ∷ text) || contains_text needle text

-- What a connection to FreeSWITCH brings: all that it will send, and the commands at which the
-- connection breaks. Outside the program.
pub record Link : Type 0 where
  pub incoming : Text
  pub breaks_at : Text → Bool

-- `_reader` and `_writer` are None until a connection has been opened; `incoming` is what is unread.
pub record Client : Type 0 where
  pub password : Text
  pub link : Option Link
  pub written : List Text
  pub connected : Bool

-- `__init__`
abbrev pub new_client : Text → Client
new_client password = record { password = password; link = none; written = []; connected = false }

-- A method of the client: an OSError or a ValueError, or what it returns.
abbrev pub Method : Type 0 → Type 0
Method A = Client → Result A × Client

-- `_writer.write` and `drain`. Without a writer it is an AttributeError.
unfoldable pub write : Text → Method (Unit {0})
write command client = elim client.link [
  | none ↦ (err value_error, client)
  | some link ↦
      if link.breaks_at command
      then (err io_error, client)
      else (ok tt, record client { written = client.written ++ (command ∷ []) })
]

-- Takes something off the stream.
abbrev pub reading : {A : Type 0} → (Text → A × Text) → Method A
reading read client = elim client.link [
  | none ↦ (err value_error, client)
  | some link ↦
      let (a, rest) = read link.incoming in
      (ok a, record client { link = some (record link { incoming = rest }) })
]

abbrev pub continue : {A B : Type 0} → Result A → (A → Method B) → Method B
continue (ok a) f client = f a client
continue (err e) f client = (err e, client)

infixl 5 ◌>>>=◌
abbrev pub ◌>>>=◌ : {A B : Type 0} → Method A → (A → Method B) → Method B
◌>>>=◌ m f client = let (r, client') = m client in continue r f client'

abbrev pub accepted : Text → Method (Unit {0})
accepted response client =
    if contains_text (codes "+OK accepted") response
    then (ok tt, record client { connected = true })
    else (err io_error, client)

-- `connect`, where `dialed` is the connection that `open_connection` opens, or none if it is refused.
unfoldable pub connect : Option Link → Method (Unit {0})
unfolding write contains_text read_block
connect none client = (err io_error, client)
connect (some link) client =
    (reading read_block >>>= λ _.
    write (codes "auth " ++ (client.password ++ (10 ∷ 10 ∷ []))) >>>= λ _.
    reading read_block >>>= λ response. accepted response)
      (record client { link = some link })

-- `" ".join(events)`
unfoldable pub join_words : List Text → Text
join_words [] = []
join_words (word ∷ []) = word
join_words (word ∷ next ∷ words) = word ++ (32 ∷ join_words (next ∷ words))

unfoldable pub subscribe : List Text → Method (Unit {0})
unfolding write join_words read_block
subscribe events client =
    (write (codes "events plain " ++ (join_words events ++ (10 ∷ 10 ∷ []))) >>>= λ _.
    reading read_block >>>= λ _ c. (ok tt, c))
      client

-- `execute_api`
unfoldable pub send_api : Text → Method Text
unfolding write execute_api
send_api command client =
    (write (codes "api " ++ (command ++ (10 ∷ 10 ∷ []))) >>>= λ _. reading execute_api) client

-- `read_event`. An empty block gives None and leaves `_connected` as it is; a body that the stream
-- does not hold gives None and ends the connection.
abbrev with_read : Bool → Link → Text → Read → Method (Option Event)
with_read starts link rest (event headers further) client =
    (ok (some headers), record client { link = some (record link { incoming = further }) })
with_read starts link rest ended client = (
  ok none,
  record client {
    link = some (record link { incoming = if starts then [] else rest });
    connected = if starts then false else client.connected;
  },
)
with_read starts link rest failed client =
    (err value_error, record client { link = some (record link { incoming = rest }) })

unfoldable pub receive_event : Method (Option Event)
unfolding read_event read_block
receive_event client = elim client.link [
  | none ↦ (err value_error, client)
  | some link ↦
      let (block, rest) = read_block link.incoming in
      with_read (is_nonempty block) link rest (read_event link.incoming) client
]

-- `disconnect`; an error of `wait_closed` is dropped.
unfoldable pub disconnect : Client → Client
disconnect client = record client { connected = false }

-- `is_connected`
abbrev pub is_connected : Client → Bool
is_connected client = client.connected
