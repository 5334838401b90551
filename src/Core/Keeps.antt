-- ===== src/Core/Keeps.antt =====
-- Coroutines that keep a relation between the world before and the world after, whether they return
-- or raise: one rule for each way to build one. The relation is an instance argument's.
use voip_platform.Base.{◌≡◌, Bool, true, false, Option, none, some, List, if◌then◌else◌}
use voip_platform.Core.{Error, Env, Site}
use voip_platform.Core.Monad.{
  World, Result, ok, err, M, pure, raise, lift, or_raise, from_redis, from_db, gate, at,
  scalar_one_or_none, select_one, ◌>>=◌,
}
use voip_platform.Models.{Db}
use voip_platform.Redis.{Redis}

pub record IsPreorder (R : World → World → Type 0) : Type 0 where
  pub same : (w : World) → R w w
  pub trans : (u v w : World) → R u v → R v w → R u w

pub record Keeps (R : World → World → Type 0) {A : Type 0} (m : M A) : Type 0 where
  pub run : (w : World) → R w (m w).1

module _ {R : World → World → Type 0} ⦃p : IsPreorder R⦄ {A : Type 0} where
  pub Keeps-same : (m : M A) → ((w : World) → (m w).1 ≡ w) → Keeps R m
  Keeps-same m same = record { run = λ w. rw same (p.same w) }

  pub Keeps-pure : (a : A) → Keeps R (pure a)
  Keeps-pure a = record { run = p.same }

  pub Keeps-raise : (e : Error) → Keeps R (raise {A = A} e)
  Keeps-raise e = record { run = p.same }

  pub Keeps-lift : (r : Result A) → Keeps R (lift r)
  Keeps-lift r = record { run = p.same }

  pub Keeps-or_raise : (o : Option A) (e : Error) → Keeps R (or_raise o e)
  Keeps-or_raise none e = record { run = p.same }
  Keeps-or_raise (some a) e = record { run = p.same }

  pub Keeps-if : (b : Bool) (m n : M A) → Keeps R m → Keeps R n → Keeps R (if b then m else n)
  Keeps-if true m n km kn = km
  Keeps-if false m n km kn = kn

  pub Keeps-gate : (down : Bool) (m : M A) → Keeps R m → Keeps R (gate down m)
  Keeps-gate true m k = record { run = p.same }
  Keeps-gate false m k = record { run = k.run }

  pub Keeps-from_redis : (f : Redis → A) → Keeps R (from_redis f)
  Keeps-from_redis f = record { run = p.same }

  pub Keeps-from_db : (f : Db → A) → Keeps R (from_db f)
  Keeps-from_db f = record { run = p.same }

  pub Keeps-at : {F : Type 0} (env : Env F) (s : Site) (m : M A) → Keeps R m → Keeps R (at env s m)
  Keeps-at env s m k = Keeps-gate (env.fails s) m k

  pub Keeps-select_one :
      {F : Type 0} (env : Env F) (s : Site) (f : Db → List A) → Keeps R (select_one env s f)
  Keeps-select_one env s f = record { run = λ w. selected (env.fails s) w }
    where
      selected :
          (down : Bool) (w : World) → R w (gate down (λ v. (scalar_one_or_none (f v.db), v)) w).1
      selected true w = p.same w
      selected false w = p.same w

module _ {R : World → World → Type 0} ⦃p : IsPreorder R⦄ {A B : Type 0} where
  keeps_continue :
      (r : Result A) (f : A → M B) (w : World)
      → ((a : A) → Keeps R (f a))
      → R w ((lift r >>= f) w).1
  keeps_continue (ok a) f w k = (k a).run w
  keeps_continue (err e) f w k = p.same w

  pub Keeps-bind :
      (m : M A) (f : A → M B) → Keeps R m → ((a : A) → Keeps R (f a)) → Keeps R (m >>= f)
  Keeps-bind m f km kf = record {
    run = λ w. let (r, v) = m w in p.trans w v ((m >>= f) w).1 (km.run w) (keeps_continue r f v kf);
  }

pub ruleset keeps_rules = (
  Keeps-pure, Keeps-raise, Keeps-lift, Keeps-or_raise, Keeps-if, Keeps-at, Keeps-select_one,
  Keeps-from_redis, Keeps-from_db, Keeps-bind,
)
