-- ===== src/Core/Quiet.antt =====
-- Coroutines that open no call: they leave the tables and the calls alone, and every balance that
-- Redis already holds. They may fill the account cache and seed a missing balance.
use voip_platform.Base.{ℕ, ◌≡◌, refl, ◌∙◌, some, nat_eq}
use voip_platform.Base.Dict.{get}
use voip_platform.Base.Int.{ℤ}
use voip_platform.Core.Keeps.{IsPreorder, Keeps}
use voip_platform.Core.Monad.{World, M}

pub record Reads (w w' : World) : Type 0 where
  pub db : w'.db ≡ w.db
  pub calls : w'.redis.calls ≡ w.redis.calls
  pub concurrent : w'.redis.concurrent ≡ w.redis.concurrent
  pub kept : (k : ℕ) (b : ℤ) → get k w.redis.credits ≡ some b → get k w'.redis.credits ≡ some b

pub Reads-refl : (w : World) → Reads w w
Reads-refl w = record { db = refl; calls = refl; concurrent = refl; kept = λ k b h. h }

pub Reads-trans : (u v w : World) → Reads u v → Reads v w → Reads u w
Reads-trans u v w p q = record {
  db = q.db ∙ p.db;
  calls = q.calls ∙ p.calls;
  concurrent = q.concurrent ∙ p.concurrent;
  kept = λ k b h. q.kept k b (p.kept k b h);
}

instance abbrev pub reads_preorder : IsPreorder Reads
reads_preorder = record { same = Reads-refl; trans = Reads-trans }

abbrev pub Quiet : {A : Type 0} → M A → Type 0
Quiet m = Keeps Reads m
