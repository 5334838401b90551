-- ===== src/Credit/Seed.antt =====
-- Seeding: load_credit_to_redis and get_credit_balance_units.
use voip_platform.Base.{
  ℕ, ◌≡◌, Option, none, some, arith, nat_eq, Option-cases, inl, inr, ◌⊎◌, ==-refl,
}
use voip_platform.Base.Dict.{get, get-put}
use voip_platform.Base.Int.{ℤ}
use voip_platform.Core.{Env}
use voip_platform.Core.Monad.{World, ok}
use voip_platform.Core.Keeps.{keeps_rules}
use voip_platform.Core.Quiet.{Reads, Quiet, reads_preorder}
use voip_platform.Credit.{
  load_credit_to_redis, seed_from, customer_or_select, balance_or_seed, get_credit_balance_units,
  credit_scale,
}
use voip_platform.Decimal.{Decimal, truncate, mul, dec}
use voip_platform.Models.{CreditsCustomer}

module _ {F : Type 0} (env : Env F) where
  pub load_credit_to_redis-Quiet : (k : ℕ) (c : Decimal) → Quiet (load_credit_to_redis env k c)
  unfolding load_credit_to_redis
  load_credit_to_redis-Quiet k c = record {
    run = λ w. seed w (Option-cases (get k w.redis.credits));
  }
    where
      seed :
          (w : World)
          → (get k w.redis.credits ≡ none) ⊎ ((b : ℤ) × (get k w.redis.credits ≡ some b))
          → Reads w (load_credit_to_redis env k c w).1
      seed w (inl missing) = record {
        db = ground arith;
        calls = ground arith;
        concurrent = ground arith;
        kept = λ j b h.
            ground (arith, get-put k j (truncate (mul c (dec credit_scale 0))) w.redis.credits);
      }
      seed w (inr (b, held)) = record {
        db = ground arith;
        calls = ground arith;
        concurrent = ground arith;
        kept = λ j b' h. ground arith;
      }

  seed_from-Quiet : (k : ℕ) (c : Option CreditsCustomer) → Quiet (seed_from env k c)
  unfolding seed_from
  seed_from-Quiet k none = search keeps_rules
  seed_from-Quiet k (some c) = search load_credit_to_redis-Quiet

  customer_or_select-Quiet :
      (k : ℕ) (c : Option CreditsCustomer) → Quiet (customer_or_select env k c)
  unfolding customer_or_select
  customer_or_select-Quiet k none = search keeps_rules
  customer_or_select-Quiet k (some c) = search keeps_rules

  balance_or_seed-Quiet :
      (k : ℕ) (c : Option CreditsCustomer) (val : Option ℤ) → Quiet (balance_or_seed env k c val)
  unfolding balance_or_seed
  balance_or_seed-Quiet k c (some val) = search keeps_rules
  balance_or_seed-Quiet k c none = search (keeps_rules, seed_from-Quiet, customer_or_select-Quiet)

  pub get_credit_balance_units-Quiet :
      (k : ℕ) (c : Option CreditsCustomer) → Quiet (get_credit_balance_units env k c)
  unfolding get_credit_balance_units
  get_credit_balance_units-Quiet k c = search (keeps_rules, balance_or_seed-Quiet)

  -- If get_credit_balance_units returns for a customer at hand, Redis holds the returned balance
  -- afterwards, be it seeded or found.
  pub get_credit_balance_units-held :
      (k : ℕ) (c : CreditsCustomer) (w : World) {n : ℤ}
      → (get_credit_balance_units env k (some c) w).0 ≡ ok n
      → get k (get_credit_balance_units env k (some c) w).1.redis.credits ≡ some n
  unfolding get_credit_balance_units seed_from customer_or_select load_credit_to_redis
  get_credit_balance_units-held k c w e = elim (Option-cases (get k w.redis.credits)) [
    | inl missing ↦ ground (
      arith,
      get-put k k (truncate (mul c.current_credits (dec credit_scale 0))) w.redis.credits,
      ==-refl k,
    )
    | inr (b, held) ↦ ground arith
  ]
