-- ===== src/Credit/Tick.antt =====
-- The billing tick of credit_service.py: what it charges, and when it lets a call go on.
use voip_platform.Base.{
  ℕ, ◌≡◌, refl, sym, ◌∙◌, Bool, true, false, Option, none, some, arith, ==-refl, nat_eq, inl, inr,
  Option-cases,
}
use voip_platform.Base.Dict.{get, get-put}
use voip_platform.Base.Int.{ℤ, pos, ◌+ℤ◌, ◌-ℤ◌, ◌≤ℤ◌, int_laws, plus_zero}
use voip_platform.Base.Text.{Text, text_eq}
use voip_platform.Core.{
  Env, deduct_eval, insufficient_credit, credit_deduction, tick_hset, tick_hincrby,
}
use voip_platform.Core.Monad.{World, Result, ok, err}
use voip_platform.Credit.{
  TickResult, atomic_deduct_credit, process_billing_tick, tick_outcome, tick_reply, tick_units,
}
use voip_platform.Credit.Deduct.{deduct_spec, atomic_deduct_credit_lem}
use voip_platform.Decimal.{Decimal}
use voip_platform.Redis.{Redis, Session}

abbrev pub or_zero : Option ℤ → ℤ
or_zero none = pos 0
or_zero (some n) = n

abbrev pub total_units : Option Session → ℤ
total_units none = pos 0
total_units (some s) = or_zero s.total_deducted_units

-- What an account and a call on it hold together: the balance, and the units that the call has
-- taken from it so far. A missing key counts as nothing.
unfoldable pub stake : ℕ → Text → Redis → ℤ
stake account_id call_uuid r =
    or_zero (get account_id r.credits) +ℤ total_units (get call_uuid r.calls)

abbrev paid : Result ℤ → ℤ → ℤ
paid (ok _) units = units
paid (err _) _ = pos 0

module _ {F : Type 0} (env : Env F) (call_uuid : Text) (account_id : ℕ) where
  outcome_stake :
      (rate : Decimal) (units balance : ℤ) (w : World)
      → env.fails tick_hset ≡ false
      → env.fails tick_hincrby ≡ false
      → stake account_id call_uuid (tick_outcome env call_uuid rate units (some balance) w).1.redis
        ≡ stake account_id call_uuid w.redis +ℤ units
  unfolding tick_outcome stake
  outcome_stake rate units balance w f1 f2 = grind (int_laws, get-put, ==-refl call_uuid)

  spec_stake :
      (down : Bool) (units : ℤ) (held : Option ℤ) (w : World)
      → get account_id w.redis.credits ≡ held
      → let (r, w1) = deduct_spec down account_id units held w in
        stake account_id call_uuid w1.redis +ℤ paid r units ≡ stake account_id call_uuid w.redis
  unfolding stake
  spec_stake true units held w h = grind int_laws
  spec_stake false units none w h = grind int_laws
  spec_stake false units (some b) w h = grind (int_laws, get-put, ==-refl account_id)

  reply_stake :
      (rate : Decimal) (units : ℤ) (r : Result ℤ) (w : World) (total : ℤ)
      → env.fails tick_hset ≡ false
      → env.fails tick_hincrby ≡ false
      → stake account_id call_uuid w.redis +ℤ paid r units ≡ total
      → stake account_id call_uuid (tick_reply env call_uuid rate units r w).1.redis ≡ total
  unfolding tick_reply
  reply_stake rate units (ok b) w total f1 f2 h = outcome_stake rate units b w f1 f2 ∙ h
  reply_stake rate units (err insufficient_credit) w total f1 f2 h =
      unfold tick_outcome in sym (plus_zero _) ∙ h
  reply_stake rate units (err credit_deduction) w total f1 f2 h =
      unfold tick_outcome in sym (plus_zero _) ∙ h
  reply_stake rate units (err _) w total f1 f2 h = sym (plus_zero _) ∙ h

  charge_stake :
      (rate : Decimal) (units : ℤ) (w : World)
      → env.fails tick_hset ≡ false
      → env.fails tick_hincrby ≡ false
      → let (r, w1) = atomic_deduct_credit env account_id units w in
        stake account_id call_uuid (tick_reply env call_uuid rate units r w1).1.redis
        ≡ stake account_id call_uuid w.redis
  charge_stake rate units w f1 f2 = rw atomic_deduct_credit_lem (
      let (r, w1) =
        deduct_spec (env.fails deduct_eval) account_id units (get account_id w.redis.credits) w in
      reply_stake rate units r w1 (stake account_id call_uuid w.redis) f1 f2
        (spec_stake (env.fails deduct_eval) units (get account_id w.redis.credits) w refl))

  -- A billing tick leaves the sum of the account's balance and the call's total of taken units as it
  -- was, whether it charges the call, refuses it or raises. The condition is that the two writes of
  -- the session after a deduction do not fail.
  pub tick_conserves :
      (elapsed_seconds : ℕ) (w : World)
      → env.fails tick_hset ≡ false
      → env.fails tick_hincrby ≡ false
      → stake account_id call_uuid
          (process_billing_tick env call_uuid account_id elapsed_seconds w).1.redis
        ≡ stake account_id call_uuid w.redis
  unfolding process_billing_tick
  tick_conserves elapsed_seconds w f1 f2 = grind (int_laws, charge_stake)

  reply_continues :
      (rate : Decimal) (units : ℤ) (r : Result ℤ) (w : World) {t : TickResult F}
      → (tick_reply env call_uuid rate units r w).0 ≡ ok t
      → t.continue_call ≡ true
      → (b : ℤ) × (r ≡ ok b)
        × (pos env.settings.credit_min_seconds ≤ℤ t.remaining_seconds)
        × ((tick_reply env call_uuid rate units r w).1.redis.credits ≡ w.redis.credits)
  unfolding tick_reply tick_outcome
  reply_continues rate units (ok b) w e c = (b, refl, ground arith, ground arith)
  reply_continues rate units (err insufficient_credit) w e c = absurd (ground arith)
  reply_continues rate units (err credit_deduction) w e c = absurd (ground arith)
  reply_continues rate units (err _) w e c = absurd (ground arith)

  spec_ok :
      (down : Bool) (units : ℤ) (held : Option ℤ) (w : World) {b1 : ℤ}
      → (deduct_spec down account_id units held w).0 ≡ ok b1
      → (b : ℤ) × (held ≡ some b)
        × (units ≤ℤ b)
        × (get account_id (deduct_spec down account_id units held w).1.redis.credits
            ≡ some (b -ℤ units))
  spec_ok true units held w e = absurd (ground arith)
  spec_ok false units none w e = absurd (ground arith)
  spec_ok false units (some b) w e = (
    b,
    refl,
    ground arith,
    ground (arith, get-put account_id account_id (b -ℤ units) w.redis.credits, ==-refl account_id),
  )

  tick_runs :
      (elapsed_seconds : ℕ) (w : World) {t : TickResult F}
      → (process_billing_tick env call_uuid account_id elapsed_seconds w).0 ≡ ok t
      → (s : Session) × (rate : Decimal) × (get call_uuid w.redis.calls ≡ some s)
        × (s.rate_per_second ≡ some rate)
        × (process_billing_tick env call_uuid account_id elapsed_seconds w ≡ (
            let units = tick_units env rate elapsed_seconds in
            let (r, w1) =
              deduct_spec
                (env.fails deduct_eval)
                account_id
                units
                (get account_id w.redis.credits)
                w in
            tick_reply env call_uuid rate units r w1))
  unfolding process_billing_tick
  tick_runs elapsed_seconds w e = elim (Option-cases (get call_uuid w.redis.calls)) [
    | inl missing ↦ absurd (ground arith)
    | inr (s, found) ↦ elim (Option-cases s.rate_per_second) [
      | inl missing ↦ absurd (ground arith)
      | inr (rate, has) ↦ (
        s,
        rate,
        found,
        has,
        ground (
          arith,
          atomic_deduct_credit_lem env account_id (tick_units env rate elapsed_seconds) w,
        ),
      )
    ]
  ]

  -- A call that may go on has paid for the tick: the balance covered the units and fell by them, and
  -- what is left lasts for the minimum.
  pub tick_continues_only_if_paid :
      (elapsed_seconds : ℕ) (w : World) {t : TickResult F}
      → (process_billing_tick env call_uuid account_id elapsed_seconds w).0 ≡ ok t
      → t.continue_call ≡ true
      → (s : Session) × (rate : Decimal) × (b : ℤ) × (get call_uuid w.redis.calls ≡ some s)
        × (s.rate_per_second ≡ some rate)
        × (get account_id w.redis.credits ≡ some b)
        × (tick_units env rate elapsed_seconds ≤ℤ b)
        × (pos env.settings.credit_min_seconds ≤ℤ t.remaining_seconds)
        × (get account_id
              (process_billing_tick env call_uuid account_id elapsed_seconds w).1.redis.credits
            ≡ some (b -ℤ tick_units env rate elapsed_seconds))
  tick_continues_only_if_paid elapsed_seconds w e c =
      let (s, rate, found, has, runs) = tick_runs elapsed_seconds w e in
      let units = tick_units env rate elapsed_seconds in
      let held = get account_id w.redis.credits in
      let (r, w1) = deduct_spec (env.fails deduct_eval) account_id units held w in
      let (b1, paid_up, enough, kept) = reply_continues rate units r w1 (rw runs at e) c in
      let (b, has_balance, covered, left) = spec_ok (env.fails deduct_eval) units held w paid_up in
      (s, rate, b, found, has, has_balance, covered, enough, rw (runs, kept) left)
