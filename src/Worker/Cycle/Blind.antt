-- ===== src/Worker/Cycle/Blind.antt =====
-- The recovery over a connection, where the answer to `show calls` has headers and a body.
use voip_platform.Base.{◌≡◌, refl, ap, Bool, true, false, some, List, [], ◌∷◌, ◌++◌, arith, nat_eq}
use voip_platform.Base.Dict.{keys}
use voip_platform.Base.Text.{Text, text_eq, codes}
use voip_platform.Core.{Env, session_keys, show_calls}
use voip_platform.Core.Monad.{World, ok, ◌>>◌}
use voip_platform.Worker.Cycle.{asks, reconcile_on}
use voip_platform.Worker.Esl.{join_lines}
use voip_platform.Worker.Esl.Blocks.{are_headers, write_block, read_block-write_block}
use voip_platform.Worker.Esl.Connection.{Link, Client, send_api, write}
use voip_platform.Worker.Reconcile.{
  live_uuids_of, live_or_none, orphans, contains, finalize_orphans, reset_stuck_consultants,
  reconcile_sessions, reconcile_on_startup,
}

orphans_all : (uuids : List Text) → orphans [] uuids ≡ uuids
unfolding orphans contains
orphans_all [] = refl
orphans_all (u ∷ uuids) = ap (λ (l : List Text). u ∷ l) (orphans_all uuids)

live_none :
    (down : Bool) (output : Text) → live_uuids_of output ≡ [] → live_or_none down output ≡ []
live_none true output none_live = refl
live_none false output none_live = none_live

module _ {F : Type 0} (env : Env F) (w : World) where
  recovers_all :
      (output : Text) {u : Text} {uuids : List Text}
      → live_uuids_of output ≡ []
      → env.fails session_keys ≡ false
      → keys w.redis.calls ≡ u ∷ uuids
      → reconcile_on_startup env output w
        ≡ (finalize_orphans env (u ∷ uuids) >> reset_stuck_consultants env) w
  unfolding reconcile_on_startup reconcile_sessions
  recovers_all output {u} {uuids} none_live up held =
      ground (arith, live_none (env.fails show_calls) output none_live, orphans_all (u ∷ uuids))

  answer_of :
      (client : Client) (link : Link) (headers : List Text) (body : Text)
      → client.link ≡ some link
      → link.incoming ≡ write_block headers ++ body
      → link.breaks_at (codes "api show calls\n\n") ≡ false
      → are_headers headers ≡ true
      → (send_api (codes "show calls") client).0 ≡ ok (join_lines headers)
  unfolding send_api write
  answer_of client link headers body opened incoming kept clean =
      ground (arith, (read_block-write_block headers body clean).1)

  -- A recovery whose `show calls` is answered with headers and a body, where no line of the headers
  -- begins with a UUID, finalizes every session that Redis holds, whatever live calls the body
  -- names: it does what it would do if each session were an orphan. Redis holds a session, and the
  -- read of the keys and the command do not fail.
  pub recovery_finalizes_all :
      (client : Client) (link : Link) (headers : List Text) (body : Text) {u : Text}
      {uuids : List Text}
      → client.link ≡ some link
      → link.incoming ≡ write_block headers ++ body
      → link.breaks_at (codes "api show calls\n\n") ≡ false
      → are_headers headers ≡ true
      → live_uuids_of (join_lines headers) ≡ []
      → env.fails session_keys ≡ false
      → keys w.redis.calls ≡ u ∷ uuids
      → let ((r, _), w') = reconcile_on env client w in
        (r, w') ≡ (finalize_orphans env (u ∷ uuids) >> reset_stuck_consultants env) w
  unfolding reconcile_on asks
  recovery_finalizes_all client link headers body opened incoming kept clean no_uuid up held =
      let answered = answer_of client link headers body opened incoming kept clean in
      rw (answered, up, held) (recovers_all (join_lines headers) no_uuid up held)
