-- ===== src/Log/Worker.antt =====
-- The worker's handlers and the logs.
use voip_platform.Base.{ℕ, refl, sym, Option, arith, nat_eq}
use mathlib.Core.List.{append-nil}
use voip_platform.Base.Int.{ℤ}
use voip_platform.Base.Text.{Text}
use voip_platform.Core.{Env, Site}
use voip_platform.Core.Keeps.{Keeps, Keeps-gate}
use voip_platform.Decimal.{Decimal}
use voip_platform.Log.{
  Extends, extends_preorder, row_ids, ids_from, Extends-same, row_ids-update, Extends-redis,
  log_rules,
}
use voip_platform.Models.{TracingStatus}
use voip_platform.Worker.Answer.{Event}
use voip_platform.Worker.Cdr.{
  finalize_statistics, append_tracing, set_connected_time, update_consultant_status,
}
use voip_platform.Worker.Hangup.{refund}
use voip_platform.Worker.Reconcile.{reconcile_on_startup}
use voip_platform.Worker.Loop.{dispatch}
use voip_platform.Worker.Writes.{AllowsWrites, Keeps-attempt, dispatch-Keeps, reconcile-Keeps}

module _ {F : Type 0} (env : Env F) where
  finalize-Extends :
      (site : Site) (id h e : ℕ) (c : Option ℕ) (td cd : ℤ) (cause : Text) (b : ℤ)
      (after rate : Decimal) (t : ℕ)
      → Keeps Extends (finalize_statistics env site id h e c td cd cause b after rate t)
  unfolding finalize_statistics
  finalize-Extends site id h e c td cd cause b after rate t =
      Keeps-gate (env.fails site) _ (record { run = λ w. Extends-same w _ refl refl refl })

  tracing-Extends :
      (site : Site) (id : ℕ) (s : TracingStatus) (t : ℕ) (i : Option Text) (b a : Option Decimal)
      → Keeps Extends (append_tracing env site id s t i b a)
  unfolding append_tracing ids_from
  tracing-Extends site id s t i b a = Keeps-gate (env.fails site) _ (record {
    run = λ w. record {
      new_tracings = _;
      tracings = refl;
      new_rows = 0;
      rows = sym (append-nil (row_ids w.db.statistics));
      next = omega arith;
    };
  })

  connected-Extends : (site : Site) (id t : ℕ) → Keeps Extends (set_connected_time env site id t)
  unfolding set_connected_time
  connected-Extends site id t = Keeps-gate (env.fails site) _ (record {
    run = λ w. Extends-same w _ refl (row_ids-update _ _ (λ row. refl) w.db.statistics) refl;
  })

  status-Extends : (site : Site) (id s : ℕ) → Keeps Extends (update_consultant_status env site id s)
  unfolding update_consultant_status
  status-Extends site id s =
      Keeps-gate (env.fails site) _ (record { run = λ w. Extends-same w _ refl refl refl })

  refund-Extends : (id : ℕ) (over : ℤ) → Keeps Extends (refund env id over)
  unfolding refund
  refund-Extends id over = search (log_rules, Keeps-attempt) depth 8

  pub extends_allows : AllowsWrites Extends env
  extends_allows = record {
    finalize = finalize-Extends;
    tracing = tracing-Extends;
    connected = connected-Extends;
    status = status-Extends;
    online = λ id l. record { run = λ w. Extends-same w _ refl refl refl };
    refund = refund-Extends;
    answered = λ u f. Extends-redis _;
    deleted = λ u. Extends-redis _;
    counted = λ id n. Extends-redis _;
  }

  pub dispatch-Extends : (event : Event) → Keeps Extends (dispatch env event)
  dispatch-Extends = dispatch-Keeps env extends_allows

  pub reconcile-Extends : (output : Text) → Keeps Extends (reconcile_on_startup env output)
  reconcile-Extends = reconcile-Keeps env extends_allows
