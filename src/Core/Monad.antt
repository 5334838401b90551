-- ===== src/Core/Monad.antt =====
-- A coroutine of the program, run from one await to the next with nothing in between: it changes
-- Redis and the tables, and returns or raises. What was written before a raise stays written.
use voip_platform.Base.{Bool, true, false, Option, none, some, List, [], ◌∷◌}
use voip_platform.Core.{Error, Site, Env, multiple_results, io_error}
use voip_platform.Models.{Db}
use voip_platform.Redis.{Redis}

pub record World : Type 0 where
  pub redis : Redis
  pub db : Db

pub data Result {ℓ} (A : Type ℓ) : Type ℓ where
  ok : A → Result A
  err : Error → Result A

abbrev pub M : Type 0 → Type 0
M A = World → Result A × World

module _ {A : Type 0} where
  abbrev pub pure : A → M A
  pure a w = (ok a, w)

  abbrev pub raise : Error → M A
  raise e w = (err e, w)

  abbrev pub lift : Result A → M A
  lift r w = (r, w)

  abbrev pub or_raise : Option A → Error → M A
  or_raise none e w = (err e, w)
  or_raise (some a) e w = (ok a, w)

infixl 5 ◌>>=◌ ◌>>◌
abbrev pub ◌>>=◌ : {A B : Type 0} → M A → (A → M B) → M B
◌>>=◌ m f w = let (r, w') = m w in elim r [ ok a ↦ f a w' | err e ↦ (err e, w') ]

abbrev pub ◌>>◌ : {A B : Type 0} → M A → M B → M B
m >> k = m >>= λ _. k

-- Reads and writes of the two stores.
abbrev pub from_redis : {A : Type 0} → (Redis → A) → M A
from_redis f w = (ok (f w.redis), w)

abbrev pub from_db : {A : Type 0} → (Db → A) → M A
from_db f w = (ok (f w.db), w)

abbrev pub modify_redis : (Redis → Redis) → M (Unit {0})
modify_redis f w = (ok tt, record w { redis = f w.redis })

abbrev pub modify_db : (Db → Db) → M (Unit {0})
modify_db f w = (ok tt, record w { db = f w.db })

-- `Result.scalar_one_or_none`
abbrev pub scalar_one_or_none : {A : Type 0} → List A → Result (Option A)
scalar_one_or_none [] = ok none
scalar_one_or_none (a ∷ []) = ok (some a)
scalar_one_or_none (a ∷ b ∷ l) = err multiple_results

-- A call that fails has done nothing.
abbrev pub gate : {A : Type 0} → Bool → M A → M A
gate true m w = (err io_error, w)
gate false m w = m w

abbrev pub at : {F : Type 0} → Env F → {A : Type 0} → Site → M A → M A
at env s m w = gate (env.fails s) m w

-- A query that ends in `scalar_one_or_none`.
abbrev pub select_one : {F : Type 0} → Env F → {A : Type 0} → Site → (Db → List A) → M (Option A)
select_one env s f = at env s (λ w. (scalar_one_or_none (f w.db), w))
