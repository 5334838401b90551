-- ===== src/Worker/Esl/Handshake.antt =====
-- connect and subscribe against a server that sends a greeting, a reply to `auth` and a reply to
-- `events`.
use voip_platform.Base.{
  ◌≡◌, refl, ap, ◌∙◌, Bool, true, false, some, List, [], ◌∷◌, ◌++◌, arith, inl, inr, Bool-cases,
  nat_eq, if◌then◌else◌,
}
use voip_platform.Base.Text.{Text, codes}
use voip_platform.Core.{io_error}
use voip_platform.Core.Monad.{Result, ok, err}
use voip_platform.Worker.Esl.{read_block, join_lines}
use voip_platform.Worker.Esl.Blocks.{are_headers, write_block, read_block-write_block}
use voip_platform.Worker.Esl.Connection.{
  Link, Client, Method, ◌>>>=◌, reading, continue, new_client, connect, subscribe, write,
  contains_text, accepted, join_words,
}

abbrev pub auth_command : Text → Text
auth_command password = codes "auth " ++ (password ++ (10 ∷ 10 ∷ []))

abbrev pub events_command : List Text → Text
events_command events = codes "events plain " ++ (join_words events ++ (10 ∷ 10 ∷ []))

-- The client after `auth` has been sent and answered.
abbrev pub authed : Text → (Text → Bool) → Text → Bool → Client
authed password breaks_at rest connected = record {
  password = password;
  link = some (record { incoming = rest; breaks_at = breaks_at });
  written = auth_command password ∷ [];
  connected = connected;
}

accepted_lem :
    (password : Text) (breaks_at : Text → Bool) (rest response : Text)
    → let accepts = contains_text (codes "+OK accepted") response in
      accepted response (authed password breaks_at rest false)
      ≡ (if accepts then ok tt else err io_error, authed password breaks_at rest accepts)
accepted_lem password breaks_at rest response =
    elim (Bool-cases (contains_text (codes "+OK accepted") response)) [
      | inl accepts ↦ rw accepts refl
      | inr rejects ↦ rw rejects refl
    ]

then_ok :
    {A B : Type 0} (m : Method A) (f : A → Method B) (client : Client) {a : A} {after : Client}
    → m client ≡ (ok a, after)
    → (m >>>= f) client ≡ f a after
then_ok {A} m f client returns = ap (λ (p : Result A × Client). continue p.0 f p.1) returns

write_lem :
    (command : Text) (client : Client) {link : Link}
    → client.link ≡ some link
    → link.breaks_at command ≡ false
    → write command client ≡ (ok tt, record client { written = client.written ++ (command ∷ []) })
unfolding write
write_lem command client opened kept = ground arith

reading_lem :
    (client : Client) {link : Link} {block rest : Text}
    → client.link ≡ some link
    → read_block link.incoming ≡ (block, rest)
    → reading read_block client
      ≡ (ok block, record client { link = some (record link { incoming = rest }) })
reading_lem client opened read = ground arith

connect_accepts :
    (password : Text) (breaks_at : Text → Bool) (stream : Text)
    {greeting between response rest : Text}
    → read_block stream ≡ (greeting, between)
    → read_block between ≡ (response, rest)
    → breaks_at (auth_command password) ≡ false
    → connect (some (record { incoming = stream; breaks_at = breaks_at })) (new_client password)
      ≡ accepted response (authed password breaks_at rest false)
unfolding connect
connect_accepts password breaks_at stream {between} greeted replied kept =
    let opened : Client = record (new_client password) {
      link = some (record { incoming = stream; breaks_at = breaks_at });
    } in
    let met : Client = record opened {
      link = some (record { incoming = between; breaks_at = breaks_at });
    } in
    let asked = authed password breaks_at between false in
    let send : Method (Unit {0}) = write (auth_command password) in
    let await : Method Text = reading read_block in
    then_ok await (λ _. send >>>= λ _. await >>>= accepted) opened {after = met}
      (reading_lem opened refl greeted)
    ∙ then_ok send (λ _. await >>>= accepted) met {after = asked} (write_lem _ met refl kept)
    ∙ then_ok await accepted asked (reading_lem asked refl replied)

module _ (password : Text) (greeting reply : List Text) (rest : Text) (breaks_at : Text → Bool)
    (greeted : are_headers greeting ≡ true) (replied : are_headers reply ≡ true)
    (kept : breaks_at (auth_command password) ≡ false) where
  abbrev served : Link
  served = record {
    incoming = write_block greeting ++ (write_block reply ++ rest);
    breaks_at = breaks_at;
  }

  -- Connecting to a server that sends a greeting and answers `auth` sends the password and no other
  -- command, and succeeds exactly if the answer contains "+OK accepted"; the client is connected
  -- exactly then, and the stream behind the answer is left unread. The blocks are well formed and
  -- the connection does not break at the command.
  pub connect_lem :
      let accepts = contains_text (codes "+OK accepted") (join_lines reply) in
      connect (some served) (new_client password)
      ≡ (if accepts then ok tt else err io_error, authed password breaks_at rest accepts)
  connect_lem =
      let (first, _) = read_block-write_block greeting (write_block reply ++ rest) greeted in
      let (second, _) = read_block-write_block reply rest replied in
      connect_accepts password breaks_at served.incoming first second kept
      ∙ accepted_lem password breaks_at rest (join_lines reply)

-- subscribe
pub subscribe_lem :
    (client : Client) (events reply : List Text) (rest : Text) (link : Link)
    → client.link ≡ some link
    → link.incoming ≡ write_block reply ++ rest
    → are_headers reply ≡ true
    → link.breaks_at (events_command events) ≡ false
    → subscribe events client ≡ (
      ok tt,
      record client {
        link = some (record link { incoming = rest });
        written = client.written ++ (events_command events ∷ []);
      },
    )
unfolding subscribe write
subscribe_lem client events reply rest link opened incoming replied kept =
    let (read, _) = read_block-write_block reply rest replied in ground arith
