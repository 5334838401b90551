-- ===== src/Worker/Reconcile/Live.antt =====
-- Recovery and the calls that FreeSWITCH still has.
use voip_platform.Base.{
  ℕ, ◌≡◌, refl, ◌∙◌, true, false, Option, none, some, List, [], ◌∷◌, arith, ◌==◌, nat_eq,
}
use voip_platform.Base.Dict.{get, keys, get-remove}
use voip_platform.Base.Int.{ℤ}
use voip_platform.Base.Text.{Text, text_eq, text_beq, codes}
use voip_platform.Core.{Env, show_calls}
use voip_platform.Core.Monad.{World}
use voip_platform.Decimal.{Decimal}
use voip_platform.Redis.{Session}
use voip_platform.Worker.Answer.{Event}
use voip_platform.Worker.Hangup.{handle_hangup, hangup_session, settle, clean_up}
use voip_platform.Worker.Hangup.Settle.{settle_reaches_clean_up, over}
use voip_platform.Worker.Hangup.Steps.{refund_world}
use voip_platform.Worker.Reconcile.{
  contains, orphans, live_or_none, synthetic_event, finalize_orphans, reconcile_sessions,
  reconcile_on_startup,
}
use voip_platform.Worker.Reconcile.Stuck.{orphans_lem, reset_stuck_redis}

module _ {F : Type 0} (env : Env F) (call_uuid other : Text) where
  clean_up_other :
      (account_id : ℕ) (w : World)
      → (call_uuid == other) ≡ false
      → get other (clean_up env call_uuid account_id w).1.redis.calls ≡ get other w.redis.calls
  unfolding clean_up
  clean_up_other account_id w differs = ground (arith, get-remove call_uuid other w.redis.calls)

  settle_other :
      (event : Event) (s : Session) (a : ℕ) (rate : Decimal) (billsec duration : ℤ) (w : World)
      → (call_uuid == other) ≡ false
      → get other (settle env call_uuid event s a rate billsec duration w).1.redis.calls
        ≡ get other w.redis.calls
  settle_other event s a rate billsec duration w differs =
      let (v, same, _, runs) =
        settle_reaches_clean_up env call_uuid event s a rate billsec duration w in
      let (_, _, calls, _) =
        refund_world env a (over env call_uuid event s a rate billsec duration w) w in
      rw runs (clean_up_other a v differs ∙ rw (same, calls) refl)

  session_other :
      (event : Event) (s : Option Session) (w : World)
      → (call_uuid == other) ≡ false
      → get other (hangup_session env call_uuid event s w).1.redis.calls ≡ get other w.redis.calls
  unfolding hangup_session
  session_other event none w differs = refl
  session_other event (some s) w differs = grind (arith, settle_other)

  pub hangup_other :
      (event : Event) (w : World)
      → get (codes "Unique-ID") event ≡ some call_uuid
      → (call_uuid == other) ≡ false
      → get other (handle_hangup env event w).1.redis.calls ≡ get other w.redis.calls
  unfolding handle_hangup
  hangup_other event w named differs =
      ground (arith, session_other event (get call_uuid w.redis.calls) w)

module _ {F : Type 0} (env : Env F) (other : Text) where
  orphans_other :
      (uuids : List Text) (w : World)
      → contains (λ a b. a == b) other uuids ≡ false
      → get other (finalize_orphans env uuids w).1.redis.calls ≡ get other w.redis.calls
  unfolding finalize_orphans text_beq
  orphans_other [] w absent = refl
  orphans_other (u ∷ uuids) w absent =
      let (differs, further) = absent_cons u uuids absent in
      let v = (handle_hangup env (synthetic_event u) w).1 in
      orphans_other uuids v further
      ∙ hangup_other env u other (synthetic_event u) w (unfold get in refl) differs
    where
      absent_cons :
          (u : Text) (uuids : List Text)
          → contains (λ a b. a == b) other (u ∷ uuids) ≡ false
          → ((u == other) ≡ false) × (contains (λ a b. a == b) other uuids ≡ false)
      absent_cons u uuids h = unfold contains in (ground arith, ground arith)

  sessions_other :
      (output : Text) (uuids : List Text) (w : World)
      → contains (λ a b. a == b) other (live_or_none (env.fails show_calls) output) ≡ true
      → get other (reconcile_sessions env output uuids w).1.redis.calls ≡ get other w.redis.calls
  unfolding reconcile_sessions
  sessions_other output [] w live = rw (reset_stuck_redis env w) refl
  sessions_other output (u ∷ uuids) w live =
      let alive = live_or_none (env.fails show_calls) output in
      let listed = orphans_lem alive (u ∷ uuids) other in
      let absent : contains (λ a b. a == b) other (orphans alive (u ∷ uuids)) ≡ false =
        ground (arith, listed, live) in
      let kept = orphans_other (orphans alive (u ∷ uuids)) w absent in
      grind (arith, reset_stuck_redis, kept)

  -- Recovery leaves the session of a call alone whose uuid is among the live ones that the output of
  -- `show calls` names, whatever fails in it; where `show calls` itself fails no call counts as
  -- live.
  pub live_call_kept :
      (output : Text) (w : World)
      → contains (λ a b. a == b) other (live_or_none (env.fails show_calls) output) ≡ true
      → get other (reconcile_on_startup env output w).1.redis.calls ≡ get other w.redis.calls
  unfolding reconcile_on_startup
  live_call_kept output w live = ground (arith, sessions_other output (keys w.redis.calls) w live)
