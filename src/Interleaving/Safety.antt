-- ===== src/Interleaving/Safety.antt =====
-- Relations between worlds that every single action keeps, over any interleaving of the handlers.
use voip_platform.Base.{ℕ, ◌+◌, ◌≡◌, refl, [], nat_eq}
use voip_platform.Base.Dict.{put}
use voip_platform.Base.Int.{ℤ}
use voip_platform.Base.Text.{Text, text_eq}
use voip_platform.Call.{Quote, insert_stub}
use voip_platform.Core.{Env}
use voip_platform.Core.Keeps.{
  IsPreorder, Keeps, Keeps-at, Keeps-select_one, Keeps-from_redis, Keeps-from_db,
}
use voip_platform.Core.Monad.{World, M, modify_redis}
use voip_platform.Credit.{atomic_deduct_credit, load_credit_to_redis}
use voip_platform.Credit.Seed.{load_credit_to_redis-Quiet}
use voip_platform.Decimal.{Decimal}
use voip_platform.Interleaving.{Action}
use voip_platform.Interleaving.Schedule.{
  Pool, Move, Moves, start, resume, session_expiring, account_expiring, stay, move,
}
use voip_platform.Log.{
  Extends, extends_preorder, Extends-refl, Extends-trans, Extends-same, Extends-Quiet,
  Extends-redis, row_ids, ids_from,
}
use voip_platform.Log.Api.{deduct-Extends, insert-Extends}
use voip_platform.Log.Worker.{extends_allows}
use voip_platform.Redis.{AccountMeta, Session, update_call, expire_call}
use voip_platform.Schemas.{CallAuthorizeRequest}
use voip_platform.Solvency.{
  IsSolvent, StaysSolvent, solvent_preorder, Solvent-Quiet, solvent_allows,
}
use voip_platform.Solvency.Api.{deduct-Solvent, insert-Solvent}
use voip_platform.Worker.Writes.{AllowsWrites}

-- What a relation between worlds has to allow besides: the writes of the API.
record AllowsApi (R : World → World → Type 0) {F : Type 0} (env : Env F) : Type 0 where
  cache :
      (token : Text) (meta : AccountMeta)
      → Keeps R (modify_redis λ r. record r { accounts = put token meta r.accounts })
  seed : (id : ℕ) (credits : Decimal) → Keeps R (load_credit_to_redis env id credits)
  deduct : (id : ℕ) (units : ℤ) → Keeps R (atomic_deduct_credit env id units)
  insert : (body : CallAuthorizeRequest) (q : Quote) → Keeps R (insert_stub env body q)
  hset : (u : Text) (f : Session → Session) → Keeps R (modify_redis (update_call u f))
  expire : (u : Text) (n : ℕ) → Keeps R (modify_redis (expire_call u n))

module _ {R : World → World → Type 0} ⦃p : IsPreorder R⦄ {F : Type 0} (env : Env F)
    (writes : AllowsWrites R env) (api : AllowsApi R env) where
  Action-Keeps : {B : Type 0} {m : M B} → Action env B m → Keeps R m
  Action-Keeps (Action.select site f) = Keeps-select_one env site f
  Action-Keeps (Action.fetch site f) = Keeps-at env site _ (Keeps-from_redis f)
  Action-Keeps (Action.query site f) = Keeps-at env site _ (Keeps-from_db f)
  Action-Keeps (Action.cache site token meta) = Keeps-at env site _ (api.cache token meta)
  Action-Keeps (Action.seed id credits) = api.seed id credits
  Action-Keeps (Action.deduct id units) = api.deduct id units
  Action-Keeps (Action.insert body q) = api.insert body q
  Action-Keeps (Action.on_call site u f) = Keeps-at env site _ (api.hset u f)
  Action-Keeps (Action.expire site u n) = Keeps-at env site _ (api.expire u n)
  Action-Keeps (Action.finalize site id h e c td cd cause b after rate t) =
      writes.finalize site id h e c td cd cause b after rate t
  Action-Keeps (Action.tracing site id s t i b a) = writes.tracing site id s t i b a
  Action-Keeps (Action.connected site id t) = writes.connected site id t
  Action-Keeps (Action.status site id s) = writes.status site id s
  Action-Keeps (Action.online site id l) = Keeps-at env site _ (writes.online id l)
  Action-Keeps (Action.give_back id over) = writes.refund id over
  Action-Keeps (Action.delete site u) = Keeps-at env site _ (writes.deleted u)
  Action-Keeps (Action.count site id n) = Keeps-at env site _ (writes.counted id n)

module _ {F : Type 0} (env : Env F) where
  abbrev extends_api : AllowsApi Extends env
  extends_api = record {
    cache = λ token meta. record { run = λ w. Extends-same w _ refl refl refl };
    seed =
        λ id c. Extends-Quiet (load_credit_to_redis env id c) (load_credit_to_redis-Quiet env id c);
    deduct = deduct-Extends env;
    insert = insert-Extends env;
    hset = λ u f. Extends-redis _;
    expire = λ u n. Extends-redis _;
  }

  abbrev solvent_api : (k : ℕ) → AllowsApi (StaysSolvent k) env
  solvent_api k = record {
    cache = λ token meta. record { run = λ w s. s };
    seed = λ id c.
        Solvent-Quiet k (load_credit_to_redis env id c) (load_credit_to_redis-Quiet env id c);
    deduct = deduct-Solvent env k;
    insert = insert-Solvent env k;
    hset = λ u f. record { run = λ w s. s };
    expire = λ u n. record { run = λ w s. s };
  }

module _ {F : Type 0} where
  Move-Extends : {p q : Pool F} → Move p q → Extends p.world q.world
  Move-Extends (start w hs h) = Extends-refl w
  Move-Extends (resume env w before after m rest act cut) =
      (Action-Keeps env (extends_allows env) (extends_api env) act).run w
  Move-Extends (session_expiring u w hs) = Extends-same w _ refl refl refl
  Move-Extends (account_expiring t w hs) = Extends-same w _ refl refl refl

  -- Over any interleaving of authorizations, ticks, ESL events and recoveries at their awaits, each
  -- with its own clock and failures, the tracings are only added to at the end, no row of statistics
  -- is removed or reordered, and the ids of the new rows are those that the sequence gives out, in
  -- order.
  pub Moves-Extends : {p q : Pool F} → Moves p q → Extends p.world q.world
  Moves-Extends (stay p) = Extends-refl p.world
  Moves-Extends (move {p} {q} {r} first rest) =
      Extends-trans p.world q.world r.world (Move-Extends first) (Moves-Extends rest)

  Move-Solvent : (k : ℕ) {p q : Pool F} → Move p q → StaysSolvent k p.world q.world
  Move-Solvent k (start w hs h) = λ s. s
  Move-Solvent k (resume env w before after m rest act cut) =
      (Action-Keeps ⦃p = solvent_preorder k⦄ env (solvent_allows env k) (solvent_api env k) act).run
        w
  Move-Solvent k (session_expiring u w hs) = λ s. s
  Move-Solvent k (account_expiring t w hs) = λ s. s

  -- If Redis holds a balance for an account and it is not below zero, this is still so after any
  -- interleaving of authorizations, ticks, ESL events and recoveries at their awaits, with keys
  -- expiring in between, each handler with its own clock and failures.
  pub Moves-Solvent : (k : ℕ) {p q : Pool F} → Moves p q → IsSolvent k p.world → IsSolvent k q.world
  Moves-Solvent k (stay p) s = s
  Moves-Solvent k (move first rest) s = Moves-Solvent k rest (Move-Solvent k first s)

  -- From a table with no row of statistics, any interleaving of the program's handlers leaves rows
  -- whose ids are the consecutive numbers that the sequence gave out, none twice.
  pub Moves-numbered :
      {p q : Pool F}
      → Moves p q
      → p.world.db.statistics ≡ []
      → (n : ℕ) × (row_ids q.world.db.statistics ≡ ids_from p.world.db.next_statistics_id n)
        × (q.world.db.next_statistics_id ≡ p.world.db.next_statistics_id + n)
  Moves-numbered moves empty =
      let e = Moves-Extends moves in (e.new_rows, rw empty at e.rows, e.next)
