-- ===== src/Interleaving/Worker.antt =====
-- The tasks of the worker, cut at their awaits.
pub mod Plain
use voip_platform.Base.{ℕ, Option, none, some, List, [], ◌∷◌, nat_eq, not}
use voip_platform.Base.Dict.{get, put, remove}
use voip_platform.Base.Int.{ℤ}
use voip_platform.Base.Text.{Text, text_eq, codes, is_nonempty}
use voip_platform.Core.{Env, Site, session_hgetall, active_hgetall, stuck_update}
use voip_platform.Core.Coroutine.{
  Coroutine-act, Coroutine-pure, Coroutine-if, Coroutine-bind, finished,
}
use voip_platform.Core.Monad.{Result, ok, lift, at, modify_db, modify_redis}
use voip_platform.Decimal.{Decimal}
use voip_platform.Interleaving.{Action, Handler}
use voip_platform.Interleaving.Cuts.{cut_rules, attempt-cut, fetch-cut}
use voip_platform.Models.{TracingStatus}
use voip_platform.Redis.{Session, add_units}
use voip_platform.Worker.Answer.{
  Event, handle_answer, answer_uuid, answer_session, record_answer, mark_busy,
}
use voip_platform.Worker.Cdr.{
  finalize_statistics, append_tracing, set_connected_time, update_consultant_status,
}
use voip_platform.Worker.Hangup.{
  handle_hangup, hangup_uuid, hangup_session, settle, refund, write_cdr, reset_consultant, clean_up,
  decrement,
}
use voip_platform.Worker.Reconcile.{
  finalize_orphans, active_ids, reset_idle, reset_stuck_consultants, reconcile_sessions,
  reconcile_on_startup, synthetic_event, set_online,
}
use voip_platform.Worker.Loop.{dispatch, is_named}

module _ {F : Type 0} (env : Env F) where
  finalize-cut :
      (site : Site) (id h e : ℕ) (c : Option ℕ) (td cd : ℤ) (cause : Text) (b : ℤ)
      (after rate : Decimal) (t : ℕ)
      → Handler env (finalize_statistics env site id h e c td cd cause b after rate t)
  finalize-cut site id h e c td cd cause b after rate t =
      Coroutine-act _ (Action.finalize site id h e c td cd cause b after rate t)

  tracing-cut :
      (site : Site) (id : ℕ) (s : TracingStatus) (t : ℕ) (i : Option Text) (b a : Option Decimal)
      → Handler env (append_tracing env site id s t i b a)
  tracing-cut site id s t i b a = Coroutine-act _ (Action.tracing site id s t i b a)

  connected-cut : (site : Site) (id t : ℕ) → Handler env (set_connected_time env site id t)
  connected-cut site id t = Coroutine-act _ (Action.connected site id t)

  status-cut : (site : Site) (id s : ℕ) → Handler env (update_consultant_status env site id s)
  status-cut site id s = Coroutine-act _ (Action.status site id s)

  refund-cut : (id : ℕ) (over : ℤ) → Handler env (refund env id over)
  refund-cut id over = Coroutine-act _ (Action.give_back id over)

  delete-cut :
      (site : Site) (u : Text)
      → Handler env (at env site (modify_redis λ r. record r { calls = remove u r.calls }))
  delete-cut site u = Coroutine-act _ (Action.delete site u)

  count-cut :
      (site : Site) (id : ℕ) (n : ℤ)
      → Handler env (
          at env site (
            modify_redis λ r. record r {
              concurrent = put id (add_units (get id r.concurrent) n) r.concurrent;
            }))
  count-cut site id n = Coroutine-act _ (Action.count site id n)

  online-cut :
      (site : Site) (id : ℕ) (l : List ℕ)
      → Handler env (
          at env site
            (modify_db λ db. record db { consultants = set_online (id ∷ l) db.consultants }))
  online-cut site id l = Coroutine-act _ (Action.online site id l)

  ruleset worker_rules = (
    cut_rules, finalize-cut, tracing-cut, connected-cut, status-cut, refund-cut, delete-cut,
    count-cut, online-cut,
  )

  mark_busy-cut : (id : Option ℕ) → Handler env (mark_busy env id)
  unfolding mark_busy
  mark_busy-cut none = search cut_rules
  mark_busy-cut (some id) = search worker_rules

  record_answer-cut : (id c : Option ℕ) → Handler env (record_answer env id c)
  unfolding record_answer
  record_answer-cut none c = search cut_rules
  record_answer-cut (some id) c = search (worker_rules, mark_busy-cut)

  answer_session-cut : (u : Text) (s : Option Session) → Handler env (answer_session env u s)
  unfolding answer_session
  answer_session-cut u none = search cut_rules
  answer_session-cut u (some s) = search (cut_rules, record_answer-cut)

  answer_uuid-cut : (u : Option Text) → Handler env (answer_uuid env u)
  unfolding answer_uuid
  answer_uuid-cut none = search cut_rules
  answer_uuid-cut (some u) = search (cut_rules, answer_session-cut) depth 8

  pub handle_answer-cut : (event : Event) → Handler env (handle_answer env event)
  unfolding handle_answer
  handle_answer-cut event = answer_uuid-cut (get (codes "Unique-ID") event)

  write_cdr-cut :
      (event : Event) (session : Session) (billsec duration : ℤ) (cause : Text)
      (before after rate : Decimal) (id : Option ℕ)
      → Handler env (write_cdr env event session billsec duration cause before after rate id)
  unfolding write_cdr
  write_cdr-cut event session billsec duration cause before after rate none = search cut_rules
  write_cdr-cut event session billsec duration cause before after rate (some id) =
      search worker_rules depth 8

  reset-cut : (id : Option ℕ) → Handler env (reset_consultant env id)
  unfolding reset_consultant
  reset-cut none = search cut_rules
  reset-cut (some id) = search worker_rules

  decrement-cut : (id : ℕ) (current : Option ℤ) → Handler env (decrement env id current)
  decrement-cut id none = search cut_rules
  decrement-cut id (some n) = search worker_rules

  clean_up-cut : (u : Text) (id : ℕ) → Handler env (clean_up env u id)
  unfolding clean_up
  clean_up-cut u id = search (worker_rules, decrement-cut) depth 8

  settle-cut :
      (u : Text) (event : Event) (s : Session) (a : ℕ) (rate : Decimal) (b d : ℤ)
      → Handler env (settle env u event s a rate b d)
  unfolding settle
  settle-cut u event s a rate b d =
      search (worker_rules, write_cdr-cut, reset-cut, clean_up-cut) depth 10

  int_field-cut : {A : Type 0} (r : Result A) → Handler env (lift r)
  int_field-cut r = finished r

  pub hangup_session-cut :
      (u : Text) (event : Event) (s : Option Session) → Handler env (hangup_session env u event s)
  unfolding hangup_session
  hangup_session-cut u event none = search cut_rules
  hangup_session-cut u event (some s) = search (cut_rules, int_field-cut, settle-cut) depth 12

  unfoldable pub hangup_uuid-cut :
      (u : Option Text) (event : Event) → Handler env (hangup_uuid env u event)
  unfolding hangup_uuid
  hangup_uuid-cut none event = Coroutine-pure tt
  hangup_uuid-cut (some u) event = Coroutine-if (not (is_nonempty u)) _ _ (Coroutine-pure tt) (
      Coroutine-bind _ _ (fetch-cut env session_hgetall (λ r. get u r.calls))
        (hangup_session-cut u event))

  unfoldable pub handle_hangup-cut : (event : Event) → Handler env (handle_hangup env event)
  unfolding handle_hangup
  handle_hangup-cut event = hangup_uuid-cut (get (codes "Unique-ID") event) event

  finalize_orphans-cut : (l : List Text) → Handler env (finalize_orphans env l)
  unfolding finalize_orphans
  finalize_orphans-cut [] = search cut_rules
  finalize_orphans-cut (u ∷ l) =
      Coroutine-bind _ _ (attempt-cut env _ (handle_hangup-cut (synthetic_event u)))
        (λ _. finalize_orphans-cut l)

  active_ids-cut : (l : List Text) → Handler env (active_ids env l)
  unfolding active_ids
  active_ids-cut [] = search cut_rules
  active_ids-cut (u ∷ l) =
      Coroutine-bind _ _ (fetch-cut env active_hgetall (λ r. get u r.calls))
        (λ session. Coroutine-bind _ _ (active_ids-cut l) (λ ids. finished (ok _)))

  reset_idle-cut : (l : List ℕ) → Handler env (reset_idle env l)
  unfolding reset_idle
  reset_idle-cut [] = search cut_rules
  reset_idle-cut (id ∷ l) = online-cut stuck_update id l

  reset_stuck-cut : Handler env (reset_stuck_consultants env)
  unfolding reset_stuck_consultants
  reset_stuck-cut = search (cut_rules, active_ids-cut, reset_idle-cut) depth 10

  reconcile_sessions-cut : (o : Text) (l : List Text) → Handler env (reconcile_sessions env o l)
  unfolding reconcile_sessions
  reconcile_sessions-cut o [] = reset_stuck-cut
  reconcile_sessions-cut o (u ∷ l) = search (cut_rules, finalize_orphans-cut, reset_stuck-cut)

  pub reconcile-cut : (output : Text) → Handler env (reconcile_on_startup env output)
  unfolding reconcile_on_startup
  reconcile-cut output = search (cut_rules, reconcile_sessions-cut)

  unfoldable pub dispatch-cut : (event : Event) → Handler env (dispatch env event)
  unfolding dispatch
  dispatch-cut event =
      let name = get (codes "Event-Name") event in
      Coroutine-if (is_named name (codes "CHANNEL_HANGUP_COMPLETE")) _ _
        (attempt-cut env _ (handle_hangup-cut event))
        (Coroutine-if (is_named name (codes "CHANNEL_ANSWER")) _ _
          (attempt-cut env _ (handle_answer-cut event)) (Coroutine-pure tt))
