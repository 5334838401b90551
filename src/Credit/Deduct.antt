-- ===== src/Credit/Deduct.antt =====
-- The deduction of credit_service.py: what `atomic_deduct_credit` does in each case, and what any
-- sequence of deductions can take.
use voip_platform.Base.{
  ℕ, ◌≡◌, refl, Bool, true, false, Option, none, some, List, [], ◌∷◌, arith, ◌==◌, nat_eq,
  if◌then◌else◌, inl, inr, Option-cases,
}
use voip_platform.Base.Dict.{get, put, get-put}
use voip_platform.Base.Int.{ℤ, pos, ◌+ℤ◌, ◌-ℤ◌, ◌≤ℤ◌, leb_ℤ, int_laws, -ℤ_parts}
use voip_platform.Core.{Env, deduct_eval, insufficient_credit, credit_deduction, io_error}
use voip_platform.Core.Monad.{World, Result, ok, err}
use voip_platform.Credit.{atomic_deduct_credit}

-- The world with a balance written.
abbrev pub with_credit : ℕ → ℤ → World → World
with_credit account_id balance w = record w {
  redis = record w.redis { credits = put account_id balance w.redis.credits };
}

-- What a deduction is meant to do, given whether Redis answers and the balance that it holds.
abbrev pub deduct_spec : Bool → ℕ → ℤ → Option ℤ → World → Result ℤ × World
deduct_spec true account_id units balance w = (err io_error, w)
deduct_spec false account_id units none w = (err credit_deduction, w)
deduct_spec false account_id units (some balance) w =
    if leb_ℤ units balance
    then (ok (balance -ℤ units), with_credit account_id (balance -ℤ units) w)
    else (err insufficient_credit, w)

module _ {F : Type 0} (env : Env F) where
  -- atomic_deduct_credit is deduct_spec, for every amount, balance and world: an outage raises the
  -- outage's error, a missing balance raises CreditDeductionError, too low a balance raises
  -- InsufficientCreditError, each with nothing changed, and any other balance falls by the amount
  -- and is returned. The script's codes -1 and -2 are never confused with a balance.
  pub atomic_deduct_credit_lem :
      (account_id : ℕ) (units : ℤ) (w : World)
      → atomic_deduct_credit env account_id units w
        ≡ deduct_spec (env.fails deduct_eval) account_id units (get account_id w.redis.credits) w
  unfolding atomic_deduct_credit
  atomic_deduct_credit_lem account_id units w =
      elim (Option-cases (get account_id w.redis.credits)) [
        | inl e ↦ rw e (ground arith)
        | inr (b, e) ↦ rw e (ground (arith, -ℤ_parts b units))
      ]

  abbrev pub granted : Bool → ℤ → Result ℤ → ℤ
  granted true units (ok _) = units
  granted _ units _ = pos 0

  -- Deductions in the order in which Redis runs them, for any accounts, on behalf of any calls: the
  -- units that account `k` has lost, and the world after them.
  unfoldable pub deduct_all : ℕ → List (ℕ × ℤ) → World → ℤ × World
  deduct_all k [] w = (pos 0, w)
  deduct_all k ((account_id, units) ∷ rest) w =
      let (r, w1) = atomic_deduct_credit env account_id units w in
      let (taken, w2) = deduct_all k rest w1 in (granted (account_id == k) units r +ℤ taken, w2)

  minus_zero : (b : ℤ) → b -ℤ pos 0 ≡ b
  minus_zero b = omega int_laws

  spec_step :
      (down : Bool) (k account_id : ℕ) (units : ℤ) (w : World) {b : ℤ} (held : Option ℤ)
      → get account_id w.redis.credits ≡ held
      → get k w.redis.credits ≡ some b
      → pos 0 ≤ℤ b
      → let (r, w1) = deduct_spec down account_id units held w in
        let b1 = b -ℤ granted (account_id == k) units r in
        (get k w1.redis.credits ≡ some b1) × (pos 0 ≤ℤ b1)
  spec_step true k account_id units w {b} held h e p = ground (arith, minus_zero b)
  spec_step false k account_id units w {b} none h e p = ground (arith, minus_zero b)
  spec_step false k account_id units w {b} (some c) h e p =
      ground
        (arith, minus_zero b, -ℤ_parts b units, get-put account_id k (c -ℤ units) w.redis.credits)

  pub deduct_step :
      (k account_id : ℕ) (units : ℤ) (w : World) {b : ℤ}
      → get k w.redis.credits ≡ some b
      → pos 0 ≤ℤ b
      → let (r, w1) = atomic_deduct_credit env account_id units w in
        let b1 = b -ℤ granted (account_id == k) units r in
        (get k w1.redis.credits ≡ some b1) × (pos 0 ≤ℤ b1)
  deduct_step k account_id units w {b} e p = rw atomic_deduct_credit_lem (
      spec_step (env.fails deduct_eval) k account_id units w (get account_id w.redis.credits) refl e
        p)

  -- For any list of deductions, on any accounts and in the order in which Redis runs them: if Redis
  -- holds a balance for an account and it is not below zero, then afterwards it holds the balance
  -- less exactly the units that were granted on that account, and that is not below zero.
  pub deduct_all_exact :
      (k : ℕ) (requests : List (ℕ × ℤ)) (w : World) {b : ℤ}
      → get k w.redis.credits ≡ some b
      → pos 0 ≤ℤ b
      → let (taken, w') = deduct_all k requests w in
        (get k w'.redis.credits ≡ some (b -ℤ taken)) × (pos 0 ≤ℤ b -ℤ taken)
  unfolding deduct_all
  deduct_all_exact k [] w {b} e p = let same : b -ℤ pos 0 ≡ b = omega int_laws in rw same (e, p)
  deduct_all_exact k ((account_id, units) ∷ rest) w {b} e p =
      let (r, w1) = atomic_deduct_credit env account_id units w in
      let (taken, w2) = deduct_all k rest w1 in
      let g = granted (account_id == k) units r in
      let (e1, p1) = deduct_step k account_id units w e p in
      let (e2, p2) = deduct_all_exact k rest w1 e1 p1 in
      let same : b -ℤ (g +ℤ taken) ≡ b -ℤ g -ℤ taken = omega int_laws in rw same (e2, p2)
