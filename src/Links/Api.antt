-- ===== src/Links/Api.antt =====
-- The API's handlers and the links.
use voip_platform.Base.{
  ℕ, ◌+◌, ◌≡◌, refl, Bool, true, false, Option, none, some, List, [], ◌∷◌, ◌++◌, arith, nat_eq, inl,
  inr, Bool-cases, ◌==◌, ==-refl,
}
use voip_platform.Base.Dict.{get, get-put}
use voip_platform.Base.Int.{ℤ}
use voip_platform.Base.Text.{Text, text_eq, text_beq_iff}
use voip_platform.Call.{
  Quote, stub_row, quote_call, insert_stub, open_call, admit_call, authorize_call,
}
use voip_platform.Call.Quoting.{quote_call-Quiet}
use voip_platform.Core.{
  Env, statistics_insert, session_hset, session_expire, tick_hset, tick_hincrby, tick_time,
  key_error,
}
use voip_platform.Core.Keeps.{
  IsPreorder, Keeps, Keeps-bind, Keeps-at, Keeps-pure, Keeps-lift, Keeps-or_raise, keeps_rules,
}
use voip_platform.Core.Monad.{World, M, Result, ok, ◌>>=◌, modify_redis, gate, lift, or_raise}
use voip_platform.Credit.{
  atomic_deduct_credit, create_call_session, session_fields, process_billing_tick, tick_outcome,
  tick_reply, get_call_session, charge_tick, tick_units, caught,
}
use voip_platform.Decimal.{Decimal}
use voip_platform.Links.{
  has_row, KeepsLinks, Links-refl, Links-trans, links_preorder, has_row-append, Links-fewer,
  Links-Quiet, Links-expire, Links-update,
}
use voip_platform.Models.{Statistics}
use voip_platform.Redis.{Session, update_call, add_units, session_or_new}
use voip_platform.Schemas.{CallAuthorizeRequest}

-- The links are kept where the row is there.
abbrev KeepsNaming : ℕ → Text → World → World → Type 0
KeepsNaming id u w w' = has_row id u w.db.statistics ≡ true → KeepsLinks w w'

abbrev naming_preorder : (id : ℕ) (u : Text) → IsPreorder (KeepsNaming id u)
naming_preorder id u = record {
  same = λ w h. Links-refl w;
  trans = λ v w x p q h. Links-trans v w x (p h) (q ((p h).rows id u h));
}

-- A call's hash is set and names the call's row.
naming_update :
    (id : ℕ) (c : Text) (f : Session → Session)
    → ((s : Session) → (f s).statistics_id ≡ some (some id))
    → Keeps (KeepsNaming id c) (modify_redis (update_call c f))
naming_update id c f names = record {
  run = λ w there. record {
    rows = λ i u h. h;
    linked = λ h u s i found held. elim (Bool-cases (c == u)) [
      | inl here ↦ ground (
        arith,
        get-put c u (f (session_or_new (get c w.redis.calls))) w.redis.calls,
        names (session_or_new (get c w.redis.calls)),
        text_beq_iff c u,
      )
      | inr other ↦
          h u s i
            (ground (arith, get-put c u (f (session_or_new (get c w.redis.calls))) w.redis.calls))
            held
    ];
  };
}

naming_any :
    {A : Type 0} (id : ℕ) (c : Text) (m : M A) → Keeps KeepsLinks m → Keeps (KeepsNaming id c) m
naming_any id c m k = record { run = λ w there. k.run w }

pub has_row-last :
    (r : Statistics) (rows : List Statistics) → has_row r.id r.unique_id (rows ++ (r ∷ [])) ≡ true
unfolding has_row
has_row-last r [] = ground (arith, ==-refl r.id, ==-refl r.unique_id)
has_row-last r (q ∷ rows) = ground (arith, has_row-last r rows)

module _ {F : Type 0} (env : Env F) where
  deduct_same :
      (k : ℕ) (units : ℤ) (w : World)
      → ((atomic_deduct_credit env k units w).1.db ≡ w.db)
        × ((atomic_deduct_credit env k units w).1.redis.calls ≡ w.redis.calls)
  unfolding atomic_deduct_credit
  deduct_same k units w = ground arith

  pub deduct-Links : (k : ℕ) (units : ℤ) → Keeps KeepsLinks (atomic_deduct_credit env k units)
  deduct-Links k units = record {
    run = λ w.
        let (db, calls) = deduct_same k units w in
        Links-fewer w _ (λ id u. rw db refl) (λ u s h. rw calls at h);
  }

  session-Naming :
      (u : Text) (a : ℕ) (m : Decimal) (g : Text) (t n : ℕ) (c : Option ℕ) (id : ℕ) (b : Decimal)
      (i : ℤ)
      → Keeps (KeepsNaming id u) (create_call_session env u a m g t n c (some id) b i)
  unfolding create_call_session
  session-Naming u a m g t n c id b i =
      Keeps-bind ⦃p = naming_preorder id u⦄ _ _
        (Keeps-at ⦃p = naming_preorder id u⦄ env session_hset _
          (naming_update id u (session_fields env a m g t n c (some id) b i) (λ s. refl)))
        (λ _.
          Keeps-at ⦃p = naming_preorder id u⦄ env session_expire _
            (naming_any id u _ (Links-expire u 7200)))

  -- The world after an insert that did not fail.
  abbrev pub with_stub : CallAuthorizeRequest → Quote → World → World
  with_stub body q w = record w {
    db = record w.db {
      statistics = w.db.statistics ++ (stub_row env body q w.db.next_statistics_id ∷ []);
      next_statistics_id = w.db.next_statistics_id + 1;
    };
  }

  pub with_stub-Links :
      (body : CallAuthorizeRequest) (q : Quote) (w : World) → KeepsLinks w (with_stub body q w)
  with_stub-Links body q w = record {
    rows = λ id u h. has_row-append id u w.db.statistics _ h;
    linked = λ h u s id found held. has_row-append id u w.db.statistics _ (h u s id found held);
  }

  stub_then :
      {B : Type 0} (body : CallAuthorizeRequest) (q : Quote) (f : ℕ → M B)
      → ((id : ℕ) → Keeps (KeepsNaming id body.call_uuid) (f id))
      → (down : Bool) (w : World)
      → KeepsLinks w ((gate down (λ v. (ok v.db.next_statistics_id, with_stub body q v)) >>= f) w).1
  stub_then body q f k true w = Links-refl w
  stub_then body q f k false w = Links-trans w (with_stub body q w) _ (with_stub-Links body q w) (
      (k w.db.next_statistics_id).run (with_stub body q w)
        (has_row-last (stub_row env body q w.db.next_statistics_id) w.db.statistics))

  insert_then :
      {B : Type 0} (body : CallAuthorizeRequest) (q : Quote) (f : ℕ → M B)
      → ((id : ℕ) → Keeps (KeepsNaming id body.call_uuid) (f id))
      → Keeps KeepsLinks (insert_stub env body q >>= f)
  unfolding insert_stub
  insert_then body q f k = record { run = stub_then body q f k (env.fails statistics_insert) }

  open-Links : (body : CallAuthorizeRequest) (q : Quote) → Keeps KeepsLinks (open_call env body q)
  unfolding open_call
  open-Links body q = Keeps-bind _ _ (deduct-Links _ _) (λ _. insert_then body q _ (λ id.
      Keeps-bind ⦃p = naming_preorder id body.call_uuid⦄ _ _
        (session-Naming body.call_uuid _ _ _ _ _ _ id _ _)
        (λ _. Keeps-pure ⦃p = naming_preorder id body.call_uuid⦄ _)))

  admit-Links : (body : CallAuthorizeRequest) (q : Quote) → Keeps KeepsLinks (admit_call env body q)
  unfolding admit_call
  admit-Links body q = search (keeps_rules, open-Links)

  pub authorize_call-Links :
      (body : CallAuthorizeRequest) (w : World) → KeepsLinks w (authorize_call env body w).1
  unfolding authorize_call
  authorize_call-Links body w =
      (Keeps-bind (quote_call env body) (admit_call env body)
          (Links-Quiet (quote_call env body) (quote_call-Quiet env body)) (admit-Links body)).run
        w

  outcome-Links :
      (u : Text) (rate : Decimal) (units : ℤ) (balance : Option ℤ)
      → Keeps KeepsLinks (tick_outcome env u rate units balance)
  unfolding tick_outcome
  outcome-Links u rate units none = search keeps_rules
  outcome-Links u rate units (some b) =
      Keeps-bind _ _
        (Keeps-at env tick_hset _
          (Links-update u (λ s. record s { last_tick = some (env.clock tick_time) }) (λ s. refl)))
        (λ _.
          Keeps-bind _ _
            (Keeps-at env tick_hincrby _ (
              Links-update u
                (λ s. record s {
                  total_deducted_units = some (add_units s.total_deducted_units units);
                })
                (λ s. refl)))
            (λ _. Keeps-pure _))

  reply-Links :
      (u : Text) (rate : Decimal) (units : ℤ) (r : Result ℤ)
      → Keeps KeepsLinks (tick_reply env u rate units r)
  unfolding tick_reply
  reply-Links u rate units r =
      Keeps-bind (lift (caught r)) (tick_outcome env u rate units) (Keeps-lift (caught r))
        (outcome-Links u rate units)

  charge-Links :
      (u : Text) (rate : Decimal) (k elapsed : ℕ)
      → Keeps KeepsLinks (charge_tick env u k elapsed rate)
  charge-Links u rate k elapsed = record {
    run = λ w.
        let units = tick_units env rate elapsed in
        let (r, w1) = atomic_deduct_credit env k units w in
        Links-trans w w1 _ ((deduct-Links k units).run w) ((reply-Links u rate units r).run w1);
  }

  get_call_session-Links : (u : Text) → Keeps KeepsLinks (get_call_session env u)
  unfolding get_call_session
  get_call_session-Links u = search keeps_rules

  pub tick-Links :
      (u : Text) (k elapsed : ℕ) → Keeps KeepsLinks (process_billing_tick env u k elapsed)
  unfolding process_billing_tick
  tick-Links u k elapsed =
      Keeps-bind (get_call_session env u)
        (λ session. or_raise session.rate_per_second key_error >>= charge_tick env u k elapsed)
        (get_call_session-Links u)
        (λ session.
          Keeps-bind (or_raise session.rate_per_second key_error) (charge_tick env u k elapsed)
            (Keeps-or_raise session.rate_per_second key_error)
            (λ rate. charge-Links u rate k elapsed))
