-- ===== src/Interleaving/Ledger.antt =====
-- Where the units of an account go, over any interleaving of the handlers.
use voip_platform.Base.{
  ℕ, ◌≡◌, refl, sym, ◌∙◌, ap, Bool, true, false, Option, none, some, arith, ◌==◌, nat_eq,
  nat_beq_iff, not, ◌&&◌, if◌then◌else◌,
}
use voip_platform.Base.Dict.{get, get-put}
use voip_platform.Base.Int.{ℤ, pos, ◌+ℤ◌, ◌-ℤ◌, ltb_ℤ, int_laws}
use voip_platform.Core.{Env, Site, refund_incrby, deduct_eval}
use voip_platform.Core.Keeps.{IsPreorder, Keeps, Keeps-at, Keeps-select_one}
use voip_platform.Core.Monad.{World, M, at}
use voip_platform.Credit.{atomic_deduct_credit}
use voip_platform.Credit.Deduct.{deduct_spec, atomic_deduct_credit_lem, granted}
use voip_platform.Credit.Seed.{load_credit_to_redis-Quiet}
use voip_platform.Interleaving.{Action}
use voip_platform.Interleaving.Schedule.{
  Pool, Move, Moves, start, resume, session_expiring, account_expiring, stay, move,
}
use voip_platform.Redis.{add_units}
use voip_platform.Worker.Hangup.{refund}
use voip_platform.Call.{Quote, insert_stub}
use voip_platform.Schemas.{CallAuthorizeRequest}
use voip_platform.Worker.Cdr.{
  finalize_statistics, append_tracing, set_connected_time, update_consultant_status,
}

-- The balance of the account is what it was.
abbrev Holds : ℕ → World → World → Type 0
Holds k w w' = (b : ℤ) → get k w.redis.credits ≡ some b → get k w'.redis.credits ≡ some b

module _ {F : Type 0} (env : Env F) (k : ℕ) where
  -- The units that an action takes from account `k`: those of a deduction that is granted, and, below
  -- zero, those of a refund that is made.
  unfoldable pub spent_by : {B : Type 0} {m : M B} → Action env B m → World → ℤ
  spent_by (Action.deduct id units) w =
      granted env (id == k) units (atomic_deduct_credit env id units w).0
  spent_by (Action.give_back id over) w =
      if id == k && not (env.fails refund_incrby) && ltb_ℤ (pos 0) over
      then pos 0 -ℤ over
      else pos 0
  spent_by _ w = pos 0

  minus_zero : (b : ℤ) → b -ℤ pos 0 ≡ b
  minus_zero b = omega int_laws

  spec_spent :
      (down : Bool) (id : ℕ) (units : ℤ) (w : World) {b : ℤ} (held : Option ℤ)
      → get id w.redis.credits ≡ held
      → get k w.redis.credits ≡ some b
      → let (r, w1) = deduct_spec down id units held w in
        get k w1.redis.credits ≡ some (b -ℤ granted env (id == k) units r)
  spec_spent true id units w {b} held h e = ground (arith, minus_zero b)
  spec_spent false id units w {b} none h e = ground (arith, minus_zero b)
  spec_spent false id units w {b} (some c) h e =
      ground (arith, minus_zero b, nat_beq_iff id k, get-put id k (c -ℤ units) w.redis.credits)

  deduct_spent :
      (id : ℕ) (units : ℤ) (w : World) {b : ℤ}
      → get k w.redis.credits ≡ some b
      → let (r, w1) = atomic_deduct_credit env id units w in
        get k w1.redis.credits ≡ some (b -ℤ granted env (id == k) units r)
  deduct_spent id units w held =
      rw atomic_deduct_credit_lem
        (spec_spent (env.fails deduct_eval) id units w (get id w.redis.credits) refl held)

  refund_spent :
      (id : ℕ) (over : ℤ) (w : World) {b : ℤ}
      → get k w.redis.credits ≡ some b
      → get k (refund env id over w).1.redis.credits
        ≡ some (b -ℤ spent_by (Action.give_back id over) w)
  unfolding refund spent_by
  refund_spent id over w {b} held =
      let added = get-put id k (add_units (get id w.redis.credits) over) w.redis.credits in
      let back : b -ℤ (pos 0 -ℤ over) ≡ b +ℤ over = omega int_laws in
      ground (arith, minus_zero b, nat_beq_iff id k, added, back)

  abbrev holds_preorder : IsPreorder (Holds k)
  holds_preorder = record { same = λ w b h. h; trans = λ u v w p q b h. q b (p b h) }

  -- An action under a site that leaves the balances alone.
  at_Holds :
      {B : Type 0} (site : Site) (m : M B)
      → ((w : World) → (m w).1.redis.credits ≡ w.redis.credits)
      → Keeps (Holds k) (at env site m)
  at_Holds site m same =
      Keeps-at ⦃p = holds_preorder⦄ env site m
        (record { run = λ w b held. ap (get k) (same w) ∙ held })

  keeps_spent :
      {B : Type 0} {m : M B} (w : World) {b : ℤ}
      → Keeps (Holds k) m
      → get k w.redis.credits ≡ some b
      → get k (m w).1.redis.credits ≡ some (b -ℤ pos 0)
  keeps_spent w {b} keeps held = keeps.run w b held ∙ ap some (sym (minus_zero b))

  insert_credits :
      (body : CallAuthorizeRequest) (q : Quote) (w : World)
      → (insert_stub env body q w).1.redis.credits ≡ w.redis.credits
  unfolding insert_stub
  insert_credits body q w = ground arith

  -- Each action changes the balance by what it spends.
  act_spent :
      {B : Type 0} {m : M B} (act : Action env B m) (w : World) {b : ℤ}
      → get k w.redis.credits ≡ some b
      → get k (m w).1.redis.credits ≡ some (b -ℤ spent_by act w)
  unfolding spent_by finalize_statistics append_tracing set_connected_time update_consultant_status
  act_spent (Action.select site f) w h =
      keeps_spent w (Keeps-select_one ⦃p = holds_preorder⦄ env site f) h
  act_spent (Action.fetch site f) w h = keeps_spent w (at_Holds site _ (λ v. refl)) h
  act_spent (Action.query site f) w h = keeps_spent w (at_Holds site _ (λ v. refl)) h
  act_spent (Action.cache site token meta) w h = keeps_spent w (at_Holds site _ (λ v. refl)) h
  act_spent (Action.seed id c) w {b} h =
      ((load_credit_to_redis-Quiet env id c).run w).kept k b h ∙ ap some (sym (minus_zero b))
  act_spent (Action.deduct id units) w h = deduct_spent id units w h
  act_spent (Action.insert body q) w {b} h =
      ap (get k) (insert_credits body q w) ∙ h ∙ ap some (sym (minus_zero b))
  act_spent (Action.on_call site u f) w h = keeps_spent w (at_Holds site _ (λ v. refl)) h
  act_spent (Action.expire site u n) w h = keeps_spent w (at_Holds site _ (λ v. refl)) h
  act_spent (Action.finalize site id e t c td cd cause x after rate n) w h =
      keeps_spent w (at_Holds site _ (λ v. refl)) h
  act_spent (Action.tracing site id s t i x a) w h = keeps_spent w (at_Holds site _ (λ v. refl)) h
  act_spent (Action.connected site id t) w h = keeps_spent w (at_Holds site _ (λ v. refl)) h
  act_spent (Action.status site id s) w h = keeps_spent w (at_Holds site _ (λ v. refl)) h
  act_spent (Action.online site id l) w h = keeps_spent w (at_Holds site _ (λ v. refl)) h
  act_spent (Action.give_back id over) w h = refund_spent id over w h
  act_spent (Action.delete site u) w h = keeps_spent w (at_Holds site _ (λ v. refl)) h
  act_spent (Action.count site id n) w h = keeps_spent w (at_Holds site _ (λ v. refl)) h

module _ {F : Type 0} (k : ℕ) where
  -- The units that a schedule takes from account `k`.
  unfoldable move_spends : {p q : Pool F} → Move p q → ℤ
  move_spends (start w hs h) = pos 0
  move_spends (resume env w before after m rest act cut) = spent_by env k act w
  move_spends (session_expiring u w hs) = pos 0
  move_spends (account_expiring t w hs) = pos 0

  unfoldable pub moves_spend : {p q : Pool F} → Moves p q → ℤ
  unfolding move_spends
  moves_spend (stay p) = pos 0
  moves_spend (move first rest) = move_spends first +ℤ moves_spend rest

  move_spent :
      {p q : Pool F} (s : Move p q) {b : ℤ}
      → get k p.world.redis.credits ≡ some b
      → get k q.world.redis.credits ≡ some (b -ℤ move_spends s)
  unfolding move_spends
  move_spent (start w hs h) {b} held = held ∙ ap some (omega int_laws)
  move_spent (resume env w before after m rest act cut) held = act_spent env k act w held
  move_spent (session_expiring u w hs) {b} held = held ∙ ap some (omega int_laws)
  move_spent (account_expiring t w hs) {b} held = held ∙ ap some (omega int_laws)

  -- Over any interleaving of authorizations, ticks, ESL events and recoveries at their awaits, with
  -- keys expiring in between, a balance that Redis holds for an account changes by exactly what the
  -- granted deductions on it take, less what the refunds that are made give back: no other action,
  -- be it a seed, a session, a record or an expiry, changes it.
  pub moves_balance :
      {p q : Pool F} (moves : Moves p q) {b : ℤ}
      → get k p.world.redis.credits ≡ some b
      → get k q.world.redis.credits ≡ some (b -ℤ moves_spend moves)
  unfolding moves_spend
  moves_balance (stay p) {b} held = held ∙ ap some (omega int_laws)
  moves_balance (move first rest) {b} held =
      moves_balance rest (move_spent first held) ∙ ap some (omega int_laws)
