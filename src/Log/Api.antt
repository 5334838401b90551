-- ===== src/Log/Api.antt =====
-- The API's handlers and the logs.
use voip_platform.Base.{ℕ, ◌≡◌, refl, sym, ap, Option, [], ◌∷◌, arith, nat_eq}
use mathlib.Core.List.{append-nil}
use voip_platform.Base.Int.{ℤ}
use voip_platform.Base.Text.{Text}
use voip_platform.Call.{
  Quote, stub_row, quote_call, insert_stub, open_call, admit_call, authorize_call,
}
use voip_platform.Call.Quoting.{quote_call-Quiet}
use voip_platform.Core.{Env, statistics_insert}
use voip_platform.Core.Keeps.{Keeps, Keeps-gate, Keeps-bind}
use voip_platform.Core.Monad.{World, Result}
use voip_platform.Credit.{
  atomic_deduct_credit, create_call_session, process_billing_tick, tick_outcome, tick_reply,
}
use voip_platform.Decimal.{Decimal}
use voip_platform.Log.{
  Extends, extends_preorder, row_ids, ids_from, Extends-same, Extends-Quiet, row_ids-append,
  log_rules,
}
use voip_platform.Models.{Db}
use voip_platform.Schemas.{CallAuthorizeRequest}

module _ {F : Type 0} (env : Env F) where
  deduct_db : (k : ℕ) (units : ℤ) (w : World) → (atomic_deduct_credit env k units w).1.db ≡ w.db
  unfolding atomic_deduct_credit
  deduct_db k units w = ground arith

  Extends-db : (w w' : World) → w'.db ≡ w.db → Extends w w'
  Extends-db w w' same =
      Extends-same w w' (ap (λ (db : Db). db.tracings) same)
        (ap (λ (db : Db). row_ids db.statistics) same)
        (ap (λ (db : Db). db.next_statistics_id) same)

  pub deduct-Extends : (k : ℕ) (units : ℤ) → Keeps Extends (atomic_deduct_credit env k units)
  deduct-Extends k units = record { run = λ w. Extends-db w _ (deduct_db k units w) }

  pub insert-Extends :
      (body : CallAuthorizeRequest) (q : Quote) → Keeps Extends (insert_stub env body q)
  unfolding insert_stub ids_from
  insert-Extends body q = Keeps-gate (env.fails statistics_insert) _ (record {
    run = λ w. record {
      new_tracings = [];
      tracings = sym (append-nil w.db.tracings);
      new_rows = 1;
      rows = row_ids-append w.db.statistics (stub_row env body q w.db.next_statistics_id ∷ []);
      next = refl;
    };
  })

  session-Extends :
      (u : Text) (a : ℕ) (m : Decimal) (g : Text) (t n : ℕ) (c s : Option ℕ) (b : Decimal) (i : ℤ)
      → Keeps Extends (create_call_session env u a m g t n c s b i)
  unfolding create_call_session
  session-Extends u a m g t n c s b i = search log_rules depth 8

  open-Extends : (body : CallAuthorizeRequest) (q : Quote) → Keeps Extends (open_call env body q)
  unfolding open_call
  open-Extends body q = search (log_rules, deduct-Extends, insert-Extends, session-Extends) depth 10

  admit-Extends : (body : CallAuthorizeRequest) (q : Quote) → Keeps Extends (admit_call env body q)
  unfolding admit_call
  admit-Extends body q = search (log_rules, open-Extends)

  pub authorize_call-Extends :
      (body : CallAuthorizeRequest) (w : World) → Extends w (authorize_call env body w).1
  unfolding authorize_call
  authorize_call-Extends body w =
      (Keeps-bind (quote_call env body) (admit_call env body)
          (Extends-Quiet (quote_call env body) (quote_call-Quiet env body))
          (admit-Extends body)).run
        w

  reply_db :
      (u : Text) (rate : Decimal) (units : ℤ) (r : Result ℤ) (w : World)
      → (tick_reply env u rate units r w).1.db ≡ w.db
  unfolding tick_reply tick_outcome
  reply_db u rate units r w = ground arith

  tick_db :
      (u : Text) (k elapsed : ℕ) (w : World) → (process_billing_tick env u k elapsed w).1.db ≡ w.db
  unfolding process_billing_tick
  tick_db u k elapsed w = grind (arith, deduct_db, reply_db)

  pub tick-Extends :
      (u : Text) (k elapsed : ℕ) → Keeps Extends (process_billing_tick env u k elapsed)
  tick-Extends u k elapsed = record { run = λ w. Extends-db w _ (tick_db u k elapsed w) }
