-- ===== src/Worker/Reconcile/Orphans.antt =====
-- Recovery and the calls that FreeSWITCH no longer has.
use voip_platform.Base.{
  ℕ, ◌≡◌, refl, ◌∙◌, true, false, none, some, List, [], ◌∷◌, arith, ◌==◌, nat_eq, inl, inr,
  Bool-cases,
}
use voip_platform.Base.Dict.{Dict, get, keys}
use voip_platform.Base.Int.{pos}
use voip_platform.Base.Text.{Text, text_eq, text_beq, text_beq_iff, is_nonempty}
use voip_platform.Base.Text.Numbers.{parse_int}
use voip_platform.Core.{Env, show_calls, session_keys, session_hgetall, session_delete}
use voip_platform.Core.Monad.{World}
use voip_platform.Decimal.{Decimal}
use voip_platform.Redis.{Session}
use voip_platform.Worker.Hangup.{handle_hangup}
use voip_platform.Worker.Hangup.Ending.{IsBillable, hangup_deletes_session, hangup_without_session}
use voip_platform.Worker.Reconcile.{
  contains, orphans, live_or_none, synthetic_event, finalize_orphans, reconcile_sessions,
  reconcile_on_startup,
}
use voip_platform.Worker.Reconcile.Live.{hangup_other}
use voip_platform.Worker.Reconcile.Stuck.{orphans_lem, reset_stuck_redis}

-- A session as create_call_session writes it, as far as a hangup needs it.
pub record IsComplete (session : Session) : Type 0 where
  pub account_id : ℕ
  pub rate_per_second : Decimal
  pub rate_per_minute : Decimal
  pub account : session.account_id ≡ some account_id
  pub second_price : session.rate_per_second ≡ some rate_per_second
  pub minute_price : session.rate_per_minute ≡ some rate_per_minute

pub contains-keys :
    {V : Type 0} (k : Text) (d : Dict Text V) {v' : V}
    → get k d ≡ some v'
    → contains (λ a b. a == b) k (keys d) ≡ true
unfolding contains get keys
contains-keys k [] e = absurd (ground arith)
contains-keys k ((j, v) ∷ d) {v'} e = elim (Bool-cases (j == k)) [
  | inl same ↦ rw same refl
  | inr other ↦
      let further : get k d ≡ some v' = ground arith in rw other (contains-keys k d further)
]

module _ {F : Type 0} (env : Env F) (u : Text) where
  pub stays_ended :
      (uuids : List Text) (w : World)
      → get u w.redis.calls ≡ none
      → get u (finalize_orphans env uuids w).1.redis.calls ≡ none
  unfolding finalize_orphans get text_beq
  stays_ended [] w ended = ended
  stays_ended (v ∷ uuids) w ended =
      let event = synthetic_event v in
      stays_ended uuids (handle_hangup env event w).1 (elim (Bool-cases (v == u)) [
        | inl same ↦
            let e : v ≡ u = (text_beq_iff v u).0 same in
            rw (hangup_without_session env event w (rw e refl) ended) ended
        | inr other ↦ hangup_other env v u event w refl other ∙ ended
      ])

  ends_billable :
      (w : World) {session : Session}
      → get u w.redis.calls ≡ some session
      → IsComplete session
      → is_nonempty u ≡ true
      → env.fails session_hgetall ≡ false
      → env.fails session_delete ≡ false
      → get u (handle_hangup env (synthetic_event u) w).1.redis.calls ≡ none
  unfolding get text_beq parse_int
  ends_billable w {session} found complete nonempty reachable up =
      let bill : IsBillable env (synthetic_event u) w = record {
        call_uuid = u;
        session = session;
        account_id = complete.account_id;
        rate_per_second = complete.rate_per_second;
        rate_per_minute = complete.rate_per_minute;
        billsec = pos 0;
        duration = pos 0;
        named = refl;
        nonempty = nonempty;
        reachable = reachable;
        found = found;
        account = complete.account;
        second_price = complete.second_price;
        minute_price = complete.minute_price;
        seconds = refl;
        length = refl;
      } in
      hangup_deletes_session env (synthetic_event u) w bill up

  orphans_ended :
      (uuids : List Text) (w : World) {session : Session}
      → contains (λ a b. a == b) u uuids ≡ true
      → get u w.redis.calls ≡ some session
      → IsComplete session
      → is_nonempty u ≡ true
      → env.fails session_hgetall ≡ false
      → env.fails session_delete ≡ false
      → get u (finalize_orphans env uuids w).1.redis.calls ≡ none
  unfolding finalize_orphans get text_beq
  orphans_ended [] w listed found complete nonempty reachable up =
      absurd (unfold contains in ground arith)
  orphans_ended (v ∷ uuids) w listed found complete nonempty reachable up =
      let event = synthetic_event v in
      let w1 = (handle_hangup env event w).1 in
      elim (Bool-cases (v == u)) [
        | inl same ↦
            let e : v ≡ u = (text_beq_iff v u).0 same in
            stays_ended uuids w1 (rw e (ends_billable w found complete nonempty reachable up))
        | inr other ↦
            let further : contains (λ a b. a == b) u uuids ≡ true =
              unfold contains in ground arith in
            orphans_ended uuids w1 further (hangup_other env v u event w refl other ∙ found)
              complete nonempty reachable up
      ]

  sessions_ended :
      (output : Text) (uuids : List Text) (w : World) {session : Session}
      → contains (λ a b. a == b) u (live_or_none (env.fails show_calls) output) ≡ false
      → contains (λ a b. a == b) u uuids ≡ true
      → get u w.redis.calls ≡ some session
      → IsComplete session
      → is_nonempty u ≡ true
      → env.fails session_hgetall ≡ false
      → env.fails session_delete ≡ false
      → get u (reconcile_sessions env output uuids w).1.redis.calls ≡ none
  unfolding reconcile_sessions
  sessions_ended output [] w dead listed found complete nonempty reachable up =
      absurd (unfold contains in ground arith)
  sessions_ended output (v ∷ uuids) w dead listed found complete nonempty reachable up =
      let alive = live_or_none (env.fails show_calls) output in
      let orphaned : contains (λ a b. a == b) u (orphans alive (v ∷ uuids)) ≡ true =
        ground (arith, orphans_lem alive (v ∷ uuids) u) in
      let ended =
        orphans_ended (orphans alive (v ∷ uuids)) w orphaned found complete nonempty reachable up in
      grind (arith, reset_stuck_redis, ended)

  -- Recovery ends an orphan: a call whose session has an account and both prices, and whose uuid is
  -- not empty and not among the live ones, has no session afterwards, whatever becomes of the other
  -- calls. The reads of the keys and of the sessions and the deletions do not fail; anything else
  -- may.
  pub recovery_ends_orphan :
      (output : Text) (w : World) {session : Session}
      → contains (λ a b. a == b) u (live_or_none (env.fails show_calls) output) ≡ false
      → get u w.redis.calls ≡ some session
      → IsComplete session
      → is_nonempty u ≡ true
      → env.fails session_keys ≡ false
      → env.fails session_hgetall ≡ false
      → env.fails session_delete ≡ false
      → get u (reconcile_on_startup env output w).1.redis.calls ≡ none
  unfolding reconcile_on_startup
  recovery_ends_orphan output w dead found complete nonempty scanned reachable up =
      let listed = contains-keys u w.redis.calls found in
      ground (
        arith,
        sessions_ended output (keys w.redis.calls) w dead listed found complete nonempty reachable
            up,
      )
