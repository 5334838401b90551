-- ===== src/Interleaving.antt =====
-- The handlers of app and billing_worker as coroutines that run side by side: each awaits Redis, the
-- database or ESL, and what another coroutine does meanwhile is seen when it goes on. This file has
-- the actions that the program awaits.
pub mod Cuts
pub mod Api
pub mod Worker
pub mod Schedule
pub mod Safety
pub mod Sequential
pub mod Pause
pub mod Races
pub mod LateTick
pub mod Ledger
pub mod Plain
pub mod Naming
pub mod Linked
pub mod Caching
pub mod Coherent
use voip_platform.Base.{ℕ, Option, List, ◌∷◌, nat_eq}
use voip_platform.Base.Dict.{get, put, remove}
use voip_platform.Base.Int.{ℤ}
use voip_platform.Base.Text.{Text, text_eq}
use voip_platform.Call.{Quote, insert_stub}
use voip_platform.Core.{Env, Site}
use voip_platform.Core.Coroutine.{Coroutine, finished, awaits}
use voip_platform.Core.Monad.{
  World, M, Result, ok, pure, at, select_one, from_redis, from_db, modify_redis, modify_db,
}
use voip_platform.Credit.{atomic_deduct_credit, load_credit_to_redis}
use voip_platform.Decimal.{Decimal}
use voip_platform.Models.{Db, TracingStatus}
use voip_platform.Redis.{Redis, Session, AccountMeta, update_call, expire_call, add_units}
use voip_platform.Schemas.{CallAuthorizeRequest}
use voip_platform.Worker.Cdr.{
  finalize_statistics, append_tracing, set_connected_time, update_consultant_status,
}
use voip_platform.Worker.Hangup.{refund, attempt}
use voip_platform.Worker.Reconcile.{set_online}

-- One command of Redis, one statement of the database with its commit, or one script.
pub data Action {F : Type 0} (env : Env F) : (B : Type 0) → M B → Type 1 where
  select :
      {B : Type 0} (site : Site) (f : Db → List B) → Action env (Option B) (select_one env site f)
  fetch : {B : Type 0} (site : Site) (f : Redis → B) → Action env B (at env site (from_redis f))
  query : {B : Type 0} (site : Site) (f : Db → B) → Action env B (at env site (from_db f))
  cache :
      (site : Site) (token : Text) (meta : AccountMeta)
      → Action env
          (Unit {0})
          (at env site (modify_redis λ r. record r { accounts = put token meta r.accounts }))
  seed : (id : ℕ) (credits : Decimal) → Action env ℤ (load_credit_to_redis env id credits)
  deduct : (id : ℕ) (units : ℤ) → Action env ℤ (atomic_deduct_credit env id units)
  insert : (body : CallAuthorizeRequest) (q : Quote) → Action env ℕ (insert_stub env body q)
  on_call :
      (site : Site) (u : Text) (f : Session → Session)
      → Action env (Unit {0}) (at env site (modify_redis (update_call u f)))
  expire :
      (site : Site) (u : Text) (seconds : ℕ)
      → Action env (Unit {0}) (at env site (modify_redis (expire_call u seconds)))
  finalize :
      (site : Site) (id h e : ℕ) (c : Option ℕ) (td cd : ℤ) (cause : Text) (b : ℤ)
      (after rate : Decimal) (t : ℕ)
      → Action env (Unit {0}) (finalize_statistics env site id h e c td cd cause b after rate t)
  tracing :
      (site : Site) (id : ℕ) (s : TracingStatus) (t : ℕ) (i : Option Text) (b a : Option Decimal)
      → Action env (Unit {0}) (append_tracing env site id s t i b a)
  connected : (site : Site) (id t : ℕ) → Action env (Unit {0}) (set_connected_time env site id t)
  status : (site : Site) (id s : ℕ) → Action env (Unit {0}) (update_consultant_status env site id s)
  online :
      (site : Site) (id : ℕ) (l : List ℕ)
      → Action env (Unit {0}) (
          at env site
            (modify_db λ db. record db { consultants = set_online (id ∷ l) db.consultants }))
  give_back : (id : ℕ) (over : ℤ) → Action env (Unit {0}) (refund env id over)
  delete :
      (site : Site) (u : Text)
      → Action env
          (Unit {0})
          (at env site (modify_redis λ r. record r { calls = remove u r.calls }))
  count :
      (site : Site) (id : ℕ) (n : ℤ)
      → Action env (Unit {0}) (
          at env site (
            modify_redis λ r. record r {
              concurrent = put id (add_units (get id r.concurrent) n) r.concurrent;
            }))

-- A handler between two awaits.
abbrev pub Handler : {F : Type 0} → Env F → {A : Type 0} → M A → Type 1
Handler env m = Coroutine (Action env) m
