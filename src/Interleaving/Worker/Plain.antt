-- ===== src/Interleaving/Worker/Plain.antt =====
-- The worker's handlers are plain.
use voip_platform.Base.{ℕ, refl, Option, none, some, List, [], ◌∷◌, nat_eq}
use voip_platform.Base.Int.{ℤ}
use voip_platform.Base.Text.{Text, text_eq}
use voip_platform.Core.{Env, Site, active_hgetall}
use voip_platform.Core.Monad.{Result}
use voip_platform.Decimal.{Decimal}
use voip_platform.Interleaving.Cuts.{on_call-cut}
use voip_platform.Models.{TracingStatus}
use voip_platform.Redis.{Session}
use voip_platform.Worker.Answer.{Event}
use voip_platform.Worker.Reconcile.{synthetic_event}
use voip_platform.Interleaving.Worker.{
  finalize-cut, tracing-cut, connected-cut, status-cut, refund-cut, delete-cut, count-cut,
  online-cut, mark_busy-cut, record_answer-cut, answer_session-cut, answer_uuid-cut,
  handle_answer-cut, write_cdr-cut, reset-cut, decrement-cut, clean_up-cut, settle-cut,
  int_field-cut, hangup_session-cut, hangup_uuid-cut, handle_hangup-cut, finalize_orphans-cut,
  active_ids-cut, reset_idle-cut, reset_stuck-cut, reconcile_sessions-cut, reconcile-cut,
  dispatch-cut,
}
use voip_platform.Core.Coroutine.AllActs.{AllActs-bind, AllActs-finished}
use voip_platform.Interleaving.Plain.{
  IsPlain, IsPlain-attempt, IsPlain-fetch, IsPlain-on_call, IsPlain-act, plain_rules,
}

module _ {F : Type 0} (env : Env F) where
  finalize-IsPlain :
      (site : Site) (id h e : ℕ) (c : Option ℕ) (td cd : ℤ) (cause : Text) (b : ℤ)
      (after rate : Decimal) (t : ℕ)
      → IsPlain (finalize-cut env site id h e c td cd cause b after rate t)
  unfolding finalize-cut
  finalize-IsPlain site id h e c td cd cause b after rate t = IsPlain-act _ tt

  tracing-IsPlain :
      (site : Site) (id : ℕ) (s : TracingStatus) (t : ℕ) (i : Option Text) (b a : Option Decimal)
      → IsPlain (tracing-cut env site id s t i b a)
  unfolding tracing-cut
  tracing-IsPlain site id s t i b a = IsPlain-act _ tt

  connected-IsPlain : (site : Site) (id t : ℕ) → IsPlain (connected-cut env site id t)
  unfolding connected-cut
  connected-IsPlain site id t = IsPlain-act _ tt

  status-IsPlain : (site : Site) (id s : ℕ) → IsPlain (status-cut env site id s)
  unfolding status-cut
  status-IsPlain site id s = IsPlain-act _ tt

  refund-IsPlain : (id : ℕ) (over : ℤ) → IsPlain (refund-cut env id over)
  unfolding refund-cut
  refund-IsPlain id over = IsPlain-act _ tt

  delete-IsPlain : (site : Site) (u : Text) → IsPlain (delete-cut env site u)
  unfolding delete-cut
  delete-IsPlain site u = IsPlain-act _ tt

  count-IsPlain : (site : Site) (id : ℕ) (n : ℤ) → IsPlain (count-cut env site id n)
  unfolding count-cut
  count-IsPlain site id n = IsPlain-act _ tt

  online-IsPlain : (site : Site) (id : ℕ) (l : List ℕ) → IsPlain (online-cut env site id l)
  unfolding online-cut
  online-IsPlain site id l = IsPlain-act _ tt

  ruleset worker_plain = (
    plain_rules, finalize-IsPlain, tracing-IsPlain, connected-IsPlain, status-IsPlain,
    refund-IsPlain, delete-IsPlain, count-IsPlain, online-IsPlain,
  )

  mark_busy-IsPlain : (id : Option ℕ) → IsPlain (mark_busy-cut env id)
  unfolding mark_busy-cut
  mark_busy-IsPlain none = search (plain_rules) depth 10
  mark_busy-IsPlain (some id) = search (worker_plain) depth 10

  record_answer-IsPlain : (id c : Option ℕ) → IsPlain (record_answer-cut env id c)
  unfolding record_answer-cut
  record_answer-IsPlain none c = search (plain_rules) depth 10
  record_answer-IsPlain (some id) c = search (worker_plain, mark_busy-IsPlain) depth 10

  answered :
      (site : Site) (u : Text) (t : ℕ)
      → IsPlain (on_call-cut env site u λ s. record s { answer_time = some t })
  answered site u t = IsPlain-on_call site u (λ s. record s { answer_time = some t }) (λ s. refl)

  answer_session-IsPlain : (u : Text) (s : Option Session) → IsPlain (answer_session-cut env u s)
  unfolding answer_session-cut
  answer_session-IsPlain u none = search (plain_rules) depth 10
  answer_session-IsPlain u (some s) = search (plain_rules, answered, record_answer-IsPlain) depth 8

  answer_uuid-IsPlain : (u : Option Text) → IsPlain (answer_uuid-cut env u)
  unfolding answer_uuid-cut
  answer_uuid-IsPlain none = search (plain_rules) depth 10
  answer_uuid-IsPlain (some u) = search (plain_rules, answer_session-IsPlain) depth 8

  handle_answer-IsPlain : (event : Event) → IsPlain (handle_answer-cut env event)
  unfolding handle_answer-cut
  handle_answer-IsPlain event = search (plain_rules, answer_uuid-IsPlain) depth 10

  write_cdr-IsPlain :
      (event : Event) (session : Session) (billsec duration : ℤ) (cause : Text)
      (before after rate : Decimal) (id : Option ℕ)
      → IsPlain (write_cdr-cut env event session billsec duration cause before after rate id)
  unfolding write_cdr-cut
  write_cdr-IsPlain event session billsec duration cause before after rate none =
      search (plain_rules) depth 10
  write_cdr-IsPlain event session billsec duration cause before after rate (some id) =
      search (worker_plain) depth 8

  reset-IsPlain : (id : Option ℕ) → IsPlain (reset-cut env id)
  unfolding reset-cut
  reset-IsPlain none = search (plain_rules) depth 10
  reset-IsPlain (some id) = search (worker_plain) depth 10

  decrement-IsPlain : (id : ℕ) (current : Option ℤ) → IsPlain (decrement-cut env id current)
  unfolding decrement-cut
  decrement-IsPlain id none = search (plain_rules) depth 10
  decrement-IsPlain id (some n) = search (worker_plain) depth 10

  clean_up-IsPlain : (u : Text) (id : ℕ) → IsPlain (clean_up-cut env u id)
  unfolding clean_up-cut
  clean_up-IsPlain u id = search (worker_plain, decrement-IsPlain) depth 8

  settle-IsPlain :
      (u : Text) (event : Event) (s : Session) (a : ℕ) (rate : Decimal) (b d : ℤ)
      → IsPlain (settle-cut env u event s a rate b d)
  unfolding settle-cut
  settle-IsPlain u event s a rate b d =
      search (worker_plain, write_cdr-IsPlain, reset-IsPlain, clean_up-IsPlain) depth 10

  int_field-IsPlain : {A : Type 0} (r : Result A) → IsPlain (int_field-cut env r)
  unfolding int_field-cut
  int_field-IsPlain r = search (plain_rules) depth 10

  hangup_session-IsPlain :
      (u : Text) (event : Event) (s : Option Session) → IsPlain (hangup_session-cut env u event s)
  unfolding hangup_session-cut
  hangup_session-IsPlain u event none = search (plain_rules) depth 10
  hangup_session-IsPlain u event (some s) =
      search (plain_rules, int_field-IsPlain, settle-IsPlain) depth 12

  hangup_uuid-IsPlain : (u : Option Text) (event : Event) → IsPlain (hangup_uuid-cut env u event)
  unfolding hangup_uuid-cut
  hangup_uuid-IsPlain none event = search (plain_rules) depth 10
  hangup_uuid-IsPlain (some u) event = search (plain_rules, hangup_session-IsPlain) depth 10

  handle_hangup-IsPlain : (event : Event) → IsPlain (handle_hangup-cut env event)
  unfolding handle_hangup-cut
  handle_hangup-IsPlain event = search (plain_rules, hangup_uuid-IsPlain) depth 10

  finalize_orphans-IsPlain : (l : List Text) → IsPlain (finalize_orphans-cut env l)
  unfolding finalize_orphans-cut
  finalize_orphans-IsPlain [] = search (plain_rules) depth 10
  finalize_orphans-IsPlain (u ∷ l) =
      AllActs-bind _ _ (IsPlain-attempt _ (handle_hangup-IsPlain (synthetic_event u)))
        (λ _. finalize_orphans-IsPlain l)

  active_ids-IsPlain : (l : List Text) → IsPlain (active_ids-cut env l)
  unfolding active_ids-cut
  active_ids-IsPlain [] = search (plain_rules) depth 10
  active_ids-IsPlain (u ∷ l) =
      AllActs-bind _ _ (IsPlain-fetch active_hgetall _)
        (λ session. AllActs-bind _ _ (active_ids-IsPlain l) (λ ids. AllActs-finished _))

  reset_idle-IsPlain : (l : List ℕ) → IsPlain (reset_idle-cut env l)
  unfolding reset_idle-cut
  reset_idle-IsPlain [] = search (plain_rules) depth 10
  reset_idle-IsPlain (id ∷ l) = search (plain_rules, online-IsPlain) depth 10

  reset_stuck-IsPlain : IsPlain (reset_stuck-cut env)
  unfolding reset_stuck-cut
  reset_stuck-IsPlain = search (plain_rules, active_ids-IsPlain, reset_idle-IsPlain) depth 10

  reconcile_sessions-IsPlain : (o : Text) (l : List Text) → IsPlain (reconcile_sessions-cut env o l)
  unfolding reconcile_sessions-cut
  reconcile_sessions-IsPlain o [] = search (plain_rules, reset_stuck-IsPlain) depth 10
  reconcile_sessions-IsPlain o (u ∷ l) =
      search (plain_rules, finalize_orphans-IsPlain, reset_stuck-IsPlain) depth 10

  pub reconcile-IsPlain : (output : Text) → IsPlain (reconcile-cut env output)
  unfolding reconcile-cut
  reconcile-IsPlain output = search (plain_rules, reconcile_sessions-IsPlain) depth 10

  pub dispatch-IsPlain : (event : Event) → IsPlain (dispatch-cut env event)
  unfolding dispatch-cut
  dispatch-IsPlain event =
      search (plain_rules, handle_hangup-IsPlain, handle_answer-IsPlain) depth 10
