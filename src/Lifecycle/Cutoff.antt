-- ===== src/Lifecycle/Cutoff.antt =====
-- A call whose ticks go on without end: how long the account lets it.
use voip_platform.Base.{
  ℕ, ◌-◌, ◌<◌, ◌≡◌, ap, ◌∙◌, Bool, true, false, ◌&&◌, Option, none, some, List, [], ◌∷◌, arith,
  length, inl, inr, Bool-cases, Option-cases, nat_eq,
}
use voip_platform.Base.Dict.{get}
use voip_platform.Base.Int.{ℤ, pos, negsuc, ◌-ℤ◌, ◌≤ℤ◌, int_laws}
use voip_platform.Base.Text.{Text, text_eq}
use voip_platform.Billing.{billing_tick}
use voip_platform.Billing.Laws.{billing_tick_continues_only_if_paid}
use voip_platform.Core.{Env, tick_hset, tick_hincrby}
use voip_platform.Core.Monad.{World}
use voip_platform.Credit.{tick_units}
use voip_platform.Decimal.{Decimal}
use voip_platform.Lifecycle.{IsRunning, process_billing_tick-Runs}
use voip_platform.Schemas.{BillingTickRequest, BillingTickData}

abbrev lets_go_on : {F : Type 0} → Option (BillingTickData F) → Bool
lets_go_on none = false
lets_go_on (some d) = d.continue_call

-- What is left of a balance that a tick can pay.
paid_down :
    (n : ℕ) (units : ℤ)
    → pos 1 ≤ℤ units
    → units ≤ℤ pos n
    → (m : ℕ) × (pos n -ℤ units ≡ pos m) × (m < n)
paid_down n (pos k) costs covered = (n - k, omega int_laws, omega int_laws)
paid_down n (negsuc k) costs covered = absurd (omega int_laws)

module _ {F : Type 0} (env : Env F) (account_id : ℕ) (call_uuid : Text) where
  abbrev tick_of : ℕ → BillingTickRequest
  tick_of elapsed = record {
    call_uuid = call_uuid;
    account_id = account_id;
    elapsed_seconds = elapsed;
  }

  -- Whether each of the ticks, one after the other, was answered with `continue`.
  unfoldable pub all_continue : List ℕ → World → Bool
  all_continue [] w = true
  all_continue (elapsed ∷ rest) w =
      let (response, w1) = billing_tick env (tick_of elapsed) w in
      lets_go_on response.payload && all_continue rest w1

  -- Each of the ticks costs a unit or more.
  abbrev pub AllCost : Decimal → List ℕ → Type 0
  AllCost rate [] = Unit {0}
  AllCost rate (elapsed ∷ rest) = (pos 1 ≤ℤ tick_units env rate elapsed) × AllCost rate rest

  billing_tick-Runs :
      {rate minute : Decimal} {b : ℤ} (elapsed : ℕ) (w : World)
      → IsRunning account_id call_uuid rate minute b w
      → env.fails tick_hset ≡ false
      → env.fails tick_hincrby ≡ false
      → IsRunning account_id call_uuid rate minute b (billing_tick env (tick_of elapsed) w).1
  unfolding billing_tick
  billing_tick-Runs {rate} {minute} {b} elapsed w c f1 f2 =
      process_billing_tick-Runs env account_id call_uuid rate minute b elapsed w c f1 f2

  -- A call that is open on an account with n units left is cut off: of more than n ticks in a row
  -- that each cost a unit or more, not every one is answered with `continue`. The ticks' writes of
  -- the session do not fail.
  pub ticks_cut_off :
      {rate minute : Decimal} {b : ℤ} (ticks : List ℕ) (n : ℕ) (w : World)
      → IsRunning account_id call_uuid rate minute b w
      → get account_id w.redis.credits ≡ some (pos n)
      → AllCost rate ticks
      → n < length ticks
      → env.fails tick_hset ≡ false
      → env.fails tick_hincrby ≡ false
      → all_continue ticks w ≡ false
  unfolding all_continue
  ticks_cut_off [] n w c held costs long f1 f2 = absurd (omega arith)
  ticks_cut_off {rate} {minute} {b} (elapsed ∷ rest) n w c held (costs, more) long f1 f2 =
      let run = billing_tick env (tick_of elapsed) w in
      elim (Option-cases run.0.payload) [
        | inl nothing ↦ ground arith
        | inr (d, answered) ↦ elim (Bool-cases d.continue_call) [
          | inr refused ↦ ground arith
          | inl continues ↦
              let (s, rate', b', found, priced, balance, covered, _, left) =
                billing_tick_continues_only_if_paid env (tick_of elapsed) w answered continues in
              let same : rate' ≡ rate = cc in
              let full : b' ≡ pos n = cc in
              let units = tick_units env rate elapsed in
              let (m, paid, less) = paid_down n units costs (rw (same, full) at covered) in
              let rest_held : get account_id run.1.redis.credits ≡ some (pos m) =
                (rw (same, full) at left) ∙ ap some paid in
              let stops =
                ticks_cut_off rest m run.1 (billing_tick-Runs elapsed w c f1 f2) rest_held more
                  (omega arith) f1 f2 in
              ground arith
        ]
      ]
