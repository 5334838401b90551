-- ===== src/Lifecycle.antt =====
-- A call from its authorization over its ticks to its hangup: what the customer pays in the end.
pub mod Again
pub mod Charge
pub mod Cutoff
use voip_platform.Base.{
  ℕ, ◌≡◌, refl, ◌∙◌, Bool, true, false, Option, none, some, List, [], ◌∷◌, arith, ◌==◌, nat_eq,
  ==-refl, if◌then◌else◌, ◌⊎◌, inl, inr, Bool-cases,
}
use voip_platform.Base.Dict.{get, put, get-put}
use voip_platform.Base.Int.{ℤ, pos, ◌+ℤ◌, ◌-ℤ◌, ◌≤ℤ◌, leb_ℤ, min_ℤ, int_laws}
use voip_platform.Base.Text.{Text, text_eq}
use voip_platform.Core.{Env, deduct_eval, session_hgetall, tick_hset, tick_hincrby, tick_time}
use voip_platform.Core.Monad.{World, Result, ok, err, ◌>>=◌}
use voip_platform.Credit.{
  atomic_deduct_credit, process_billing_tick, tick_outcome, tick_reply, tick_units,
}
use voip_platform.Credit.Deduct.{with_credit, deduct_spec, atomic_deduct_credit_lem}
use voip_platform.Decimal.{Decimal}
use voip_platform.Redis.{Redis, Session, update_call, add_units}

-- A call is open on an account that had `b` units before it: its session has its account and its
-- prices, and the units that it has taken are those that the balance lacks.
pub record IsRunning (account_id : ℕ) (call_uuid : Text) (rate minute : Decimal) (b : ℤ) (w : World)
    : Type 0 where
  pub session : Session
  pub taken : ℤ
  pub found : get call_uuid w.redis.calls ≡ some session
  pub account : session.account_id ≡ some account_id
  pub second_price : session.rate_per_second ≡ some rate
  pub minute_price : session.rate_per_minute ≡ some minute
  pub total : session.total_deducted_units ≡ some taken
  pub held : get account_id w.redis.credits ≡ some (b -ℤ taken)

module _ {F : Type 0} (env : Env F) (account_id : ℕ) (call_uuid : Text) where
  -- The worlds that the dialplan's ticks lead to, whatever each of them answers.
  unfoldable pub run_ticks : List ℕ → World → World
  run_ticks [] w = w
  run_ticks (elapsed ∷ rest) w =
      run_ticks rest (process_billing_tick env call_uuid account_id elapsed w).1

module _ {F : Type 0} (env : Env F) (account_id : ℕ) (call_uuid : Text) (rate minute : Decimal)
    (b : ℤ) where
  abbrev Runs : World → Type 0
  Runs = IsRunning account_id call_uuid rate minute b

  held_after :
      (taken units : ℤ) (w : World)
      → get account_id (put account_id (b -ℤ taken -ℤ units) w.redis.credits)
        ≡ some (b -ℤ (taken +ℤ units))
  held_after taken units w =
      let same : b -ℤ (taken +ℤ units) ≡ b -ℤ taken -ℤ units = omega int_laws in
      rw (get-put, ==-refl account_id, same) refl

  abbrev after_tick : ℤ → World → World
  after_tick units w = record w {
    redis =
        update_call call_uuid
          (λ s. record s { total_deducted_units = some (add_units s.total_deducted_units units) })
          (update_call call_uuid (λ s. record s { last_tick = some (env.clock tick_time) })
            w.redis);
  }

  outcome_world :
      (units n : ℤ) (w : World)
      → env.fails tick_hset ≡ false
      → env.fails tick_hincrby ≡ false
      → (tick_outcome env call_uuid rate units (some n) w).1 ≡ after_tick units w
  unfolding tick_outcome
  outcome_world units n w f1 f2 = ground arith

  tick_outcome-Runs :
      (units : ℤ) (w : World) (c : Runs w)
      → env.fails tick_hset ≡ false
      → env.fails tick_hincrby ≡ false
      → let n = b -ℤ c.taken -ℤ units in
        Runs (tick_outcome env call_uuid rate units (some n) (with_credit account_id n w)).1
  tick_outcome-Runs units w c f1 f2 =
      rw
        (outcome_world units (b -ℤ c.taken -ℤ units)
          (with_credit account_id (b -ℤ c.taken -ℤ units) w) f1 f2)
        (record {
          session = record c.session {
            last_tick = some (env.clock tick_time);
            total_deducted_units = some (c.taken +ℤ units);
          };
          taken = c.taken +ℤ units;
          found = grind (arith, get-put, ==-refl call_uuid, c.found, c.total);
          account = c.account;
          second_price = c.second_price;
          minute_price = c.minute_price;
          total = refl;
          held = held_after c.taken units w;
        })

  tick_spec :
      (down : Bool) (units : ℤ) (w : World) (c : Runs w)
      → env.fails tick_hset ≡ false
      → env.fails tick_hincrby ≡ false
      → let (r, w1) = deduct_spec down account_id units (some (b -ℤ c.taken)) w in
        Runs (tick_reply env call_uuid rate units r w1).1
  unfolding tick_reply
  tick_spec false units w c f1 f2 = elim (Bool-cases (leb_ℤ units (b -ℤ c.taken))) [
    | inr short ↦ rw short (unfold tick_outcome in c)
    | inl enough ↦ rw enough (tick_outcome-Runs units w c f1 f2)
  ]
  tick_spec true units w c f1 f2 = c

  tick_of_running :
      (elapsed : ℕ) (w : World) (c : Runs w)
      → let units = tick_units env rate elapsed in
        let (r, w1) =
          deduct_spec (env.fails deduct_eval) account_id units (some (b -ℤ c.taken)) w in
        (process_billing_tick env call_uuid account_id elapsed w
          ≡ tick_reply env call_uuid rate units r w1)
        ⊎ ((process_billing_tick env call_uuid account_id elapsed w).1 ≡ w)
  unfolding process_billing_tick
  tick_of_running elapsed w c =
      let charged = atomic_deduct_credit_lem env account_id (tick_units env rate elapsed) w in
      elim (Bool-cases (env.fails session_hgetall)) [
        | inl down ↦ inr (ground arith)
        | inr up ↦ inl (ground (arith, charged, c.found, c.second_price, c.held))
      ]

  pub process_billing_tick-Runs :
      (elapsed : ℕ) (w : World)
      → Runs w
      → env.fails tick_hset ≡ false
      → env.fails tick_hincrby ≡ false
      → Runs (process_billing_tick env call_uuid account_id elapsed w).1
  process_billing_tick-Runs elapsed w c f1 f2 = elim (tick_of_running elapsed w c) [
    | inl charged ↦
        rw charged (tick_spec (env.fails deduct_eval) (tick_units env rate elapsed) w c f1 f2)
    | inr idle ↦ rw idle c
  ]

  pub run_ticks-Runs :
      (ticks : List ℕ) (w : World)
      → Runs w
      → env.fails tick_hset ≡ false
      → env.fails tick_hincrby ≡ false
      → Runs (run_ticks env account_id call_uuid ticks w)
  unfolding run_ticks
  run_ticks-Runs [] w c f1 f2 = c
  run_ticks-Runs (elapsed ∷ rest) w c f1 f2 =
      run_ticks-Runs rest (process_billing_tick env call_uuid account_id elapsed w).1
        (process_billing_tick-Runs elapsed w c f1 f2) f1 f2
