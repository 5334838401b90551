-- ===== src/Worker/Writes.antt =====
-- The worker's handlers against a relation that their single writes keep.
use voip_platform.Base.{ℕ, Option, none, some, List, [], ◌∷◌, nat_eq}
use voip_platform.Base.Dict.{get, put, remove}
use voip_platform.Base.Int.{ℤ}
use voip_platform.Base.Text.{Text, text_eq, codes}
use voip_platform.Core.{Env, Site, active_hgetall}
use voip_platform.Core.Keeps.{
  IsPreorder, Keeps, keeps_rules, Keeps-at, Keeps-bind, Keeps-from_redis, Keeps-pure,
}
use voip_platform.Core.Monad.{World, M, at, from_redis, modify_db, modify_redis}
use voip_platform.Decimal.{Decimal}
use voip_platform.Models.{TracingStatus}
use voip_platform.Redis.{Session, update_call, add_units}
use voip_platform.Worker.Answer.{
  Event, handle_answer, answer_uuid, answer_session, record_answer, mark_busy,
}
use voip_platform.Worker.Cdr.{
  finalize_statistics, append_tracing, set_connected_time, update_consultant_status,
}
use voip_platform.Worker.Hangup.{
  handle_hangup, hangup_uuid, hangup_session, settle, refund, write_cdr, reset_consultant, clean_up,
  decrement, attempt,
}
use voip_platform.Worker.Reconcile.{
  finalize_orphans, active_ids, reset_idle, reset_stuck_consultants, reconcile_sessions,
  reconcile_on_startup, synthetic_event, set_online,
}
use voip_platform.Worker.Loop.{dispatch}

-- What a relation between worlds has to allow: the four writes of cdr_service.py, the reset of stuck
-- consultants, the refund, and the writes to a call's hash and to the call counter.
pub record AllowsWrites (R : World → World → Type 0) {F : Type 0} (env : Env F) : Type 0 where
  pub finalize :
      (site : Site) (id h e : ℕ) (c : Option ℕ) (td cd : ℤ) (cause : Text) (b : ℤ)
      (after rate : Decimal) (t : ℕ)
      → Keeps R (finalize_statistics env site id h e c td cd cause b after rate t)
  pub tracing :
      (site : Site) (id : ℕ) (s : TracingStatus) (t : ℕ) (i : Option Text) (b a : Option Decimal)
      → Keeps R (append_tracing env site id s t i b a)
  pub connected : (site : Site) (id t : ℕ) → Keeps R (set_connected_time env site id t)
  pub status : (site : Site) (id s : ℕ) → Keeps R (update_consultant_status env site id s)
  pub online :
      (id : ℕ) (l : List ℕ)
      → Keeps R (modify_db λ db. record db { consultants = set_online (id ∷ l) db.consultants })
  pub refund : (id : ℕ) (over : ℤ) → Keeps R (refund env id over)
  pub answered :
      (u : Text) (t : ℕ)
      → Keeps R (modify_redis (update_call u λ s. record s { answer_time = some t }))
  pub deleted : (u : Text) → Keeps R (modify_redis λ r. record r { calls = remove u r.calls })
  pub counted :
      (id : ℕ) (n : ℤ)
      → Keeps R (
          modify_redis
            λ r. record r { concurrent = put id (add_units (get id r.concurrent) n) r.concurrent })

pub Keeps-attempt :
    {R : World → World → Type 0} (m : M (Unit {0})) → Keeps R m → Keeps R (attempt m)
Keeps-attempt m k = record { run = k.run }

module _ {R : World → World → Type 0} ⦃p : IsPreorder R⦄ {F : Type 0} (env : Env F)
    (allows : AllowsWrites R env) where
  ruleset write_rules = (keeps_rules, Keeps-attempt)

  mark_busy-Keeps : (id : Option ℕ) → Keeps R (mark_busy env id)
  unfolding mark_busy
  mark_busy-Keeps none = search write_rules
  mark_busy-Keeps (some id) = search (write_rules, allows.status)

  record_answer-Keeps : (id c : Option ℕ) → Keeps R (record_answer env id c)
  unfolding record_answer
  record_answer-Keeps none c = search write_rules
  record_answer-Keeps (some id) c =
      search (write_rules, allows.connected, allows.tracing, mark_busy-Keeps)

  answer_session-Keeps : (u : Text) (s : Option Session) → Keeps R (answer_session env u s)
  unfolding answer_session
  answer_session-Keeps u none = search write_rules
  answer_session-Keeps u (some s) = search (write_rules, allows.answered, record_answer-Keeps)

  answer_uuid-Keeps : (u : Option Text) → Keeps R (answer_uuid env u)
  unfolding answer_uuid
  answer_uuid-Keeps none = search write_rules
  answer_uuid-Keeps (some u) = search (write_rules, answer_session-Keeps) depth 8

  pub handle_answer-Keeps : (event : Event) → Keeps R (handle_answer env event)
  unfolding handle_answer
  handle_answer-Keeps event = answer_uuid-Keeps (get (codes "Unique-ID") event)

  write_cdr-Keeps :
      (event : Event) (session : Session) (billsec duration : ℤ) (cause : Text)
      (before after rate : Decimal) (id : Option ℕ)
      → Keeps R (write_cdr env event session billsec duration cause before after rate id)
  unfolding write_cdr
  write_cdr-Keeps event session billsec duration cause before after rate none = search write_rules
  write_cdr-Keeps event session billsec duration cause before after rate (some id) =
      search (write_rules, allows.finalize, allows.tracing) depth 8

  reset-Keeps : (id : Option ℕ) → Keeps R (reset_consultant env id)
  unfolding reset_consultant
  reset-Keeps none = search write_rules
  reset-Keeps (some id) = search (write_rules, allows.status)

  decrement-Keeps : (id : ℕ) (current : Option ℤ) → Keeps R (decrement env id current)
  decrement-Keeps id none = search write_rules
  decrement-Keeps id (some n) = search (write_rules, allows.counted)

  clean_up-Keeps : (u : Text) (id : ℕ) → Keeps R (clean_up env u id)
  unfolding clean_up
  clean_up-Keeps u id = search (write_rules, allows.deleted, decrement-Keeps) depth 8

  settle-Keeps :
      (u : Text) (event : Event) (s : Session) (a : ℕ) (rate : Decimal) (b d : ℤ)
      → Keeps R (settle env u event s a rate b d)
  unfolding settle
  settle-Keeps u event s a rate b d =
      search (write_rules, allows.refund, write_cdr-Keeps, reset-Keeps, clean_up-Keeps) depth 10

  hangup_session-Keeps :
      (u : Text) (event : Event) (s : Option Session) → Keeps R (hangup_session env u event s)
  unfolding hangup_session
  hangup_session-Keeps u event none = search write_rules
  hangup_session-Keeps u event (some s) = search (write_rules, settle-Keeps) depth 12

  hangup_uuid-Keeps : (u : Option Text) (event : Event) → Keeps R (hangup_uuid env u event)
  unfolding hangup_uuid
  hangup_uuid-Keeps none event = search write_rules
  hangup_uuid-Keeps (some u) event = search (write_rules, hangup_session-Keeps) depth 8

  pub handle_hangup-Keeps : (event : Event) → Keeps R (handle_hangup env event)
  unfolding handle_hangup
  handle_hangup-Keeps event = hangup_uuid-Keeps (get (codes "Unique-ID") event) event

  finalize_orphans-Keeps : (l : List Text) → Keeps R (finalize_orphans env l)
  unfolding finalize_orphans
  finalize_orphans-Keeps [] = search write_rules
  finalize_orphans-Keeps (u ∷ l) =
      Keeps-bind (attempt (handle_hangup env (synthetic_event u))) (λ _. finalize_orphans env l)
        (Keeps-attempt _ (handle_hangup-Keeps (synthetic_event u))) (λ _. finalize_orphans-Keeps l)

  active_ids-Keeps : (l : List Text) → Keeps R (active_ids env l)
  unfolding active_ids
  active_ids-Keeps [] = search write_rules
  active_ids-Keeps (u ∷ l) =
      Keeps-bind (at env active_hgetall (from_redis (λ r. get u r.calls))) _
        (Keeps-at env active_hgetall _ (Keeps-from_redis (λ r. get u r.calls)))
        (λ session. Keeps-bind (active_ids env l) _ (active_ids-Keeps l) (λ ids. Keeps-pure _))

  reset_idle-Keeps : (l : List ℕ) → Keeps R (reset_idle env l)
  unfolding reset_idle
  reset_idle-Keeps [] = search write_rules
  reset_idle-Keeps (id ∷ l) = search (write_rules, allows.online id l)

  reset_stuck-Keeps : Keeps R (reset_stuck_consultants env)
  unfolding reset_stuck_consultants
  reset_stuck-Keeps = search (write_rules, active_ids-Keeps, reset_idle-Keeps) depth 10

  reconcile_sessions-Keeps : (o : Text) (l : List Text) → Keeps R (reconcile_sessions env o l)
  unfolding reconcile_sessions
  reconcile_sessions-Keeps o [] = reset_stuck-Keeps
  reconcile_sessions-Keeps o (u ∷ l) =
      search (write_rules, finalize_orphans-Keeps, reset_stuck-Keeps)

  pub reconcile-Keeps : (output : Text) → Keeps R (reconcile_on_startup env output)
  unfolding reconcile_on_startup
  reconcile-Keeps output = search (write_rules, reconcile_sessions-Keeps)

  pub dispatch-Keeps : (event : Event) → Keeps R (dispatch env event)
  unfolding dispatch
  dispatch-Keeps event = search (write_rules, handle_answer-Keeps, handle_hangup-Keeps) depth 8
