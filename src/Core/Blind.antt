-- ===== src/Core/Blind.antt =====
-- Coroutines that a change of the tables has no bearing on: with the tables changed before, they
-- return the same, and leave the world that the change makes of theirs.
use voip_platform.Base.{◌≡◌, refl, ◌∙◌, Bool, true, false, Option, none, some, List, if◌then◌else◌}
use voip_platform.Core.{Error, Env, Site}
use voip_platform.Core.Monad.{
  World, Result, ok, err, M, pure, raise, lift, or_raise, from_redis, modify_redis, gate, at,
  scalar_one_or_none, select_one, ◌>>=◌,
}
use voip_platform.Core.Ensures.{run_bind}
use voip_platform.Models.{Db}
use voip_platform.Redis.{Redis}

abbrev pub with_tables : (Db → Db) → World → World
with_tables g w = record w { db = g w.db }

abbrev pub map_result : {A B : Type 0} → (A → B) → Result A → Result B
map_result k (ok a) = ok (k a)
map_result k (err e) = err e

pub record Blind (g : Db → Db) {A : Type 0} (m : M A) : Type 0 where
  pub run : (w : World) → m (with_tables g w) ≡ ((m w).0, with_tables g (m w).1)

-- The second coroutine does, with the tables changed, what the first does, and changes its result.
pub record Follows (g : Db → Db) {A B : Type 0} (k : A → B) (m : M A) (m' : M B) : Type 0 where
  pub run : (w : World) → m' (with_tables g w) ≡ (map_result k (m w).0, with_tables g (m w).1)

module _ {g : Db → Db} {A : Type 0} where
  pub Blind-pure : (a : A) → Blind g (pure a)
  Blind-pure a = record { run = λ w. refl }

  pub Blind-raise : (e : Error) → Blind g (raise {A = A} e)
  Blind-raise e = record { run = λ w. refl }

  pub Blind-lift : (r : Result A) → Blind g (lift r)
  Blind-lift r = record { run = λ w. refl }

  pub Blind-or_raise : (o : Option A) (e : Error) → Blind g (or_raise o e)
  Blind-or_raise none e = record { run = λ w. refl }
  Blind-or_raise (some a) e = record { run = λ w. refl }

  pub Blind-if : (b : Bool) (m n : M A) → Blind g m → Blind g n → Blind g (if b then m else n)
  Blind-if true m n km kn = km
  Blind-if false m n km kn = kn

  Blind-gate : (down : Bool) (m : M A) → Blind g m → Blind g (gate down m)
  Blind-gate true m k = record { run = λ w. refl }
  Blind-gate false m k = record { run = k.run }

  pub Blind-at : {F : Type 0} (env : Env F) (s : Site) (m : M A) → Blind g m → Blind g (at env s m)
  Blind-at env s m k = Blind-gate (env.fails s) m k

  pub Blind-from_redis : (f : Redis → A) → Blind g (from_redis f)
  Blind-from_redis f = record { run = λ w. refl }

-- A query of tables that the change leaves alone.
pub Blind-select_one :
    {g : Db → Db} {F A : Type 0} (env : Env F) (s : Site) (f : Db → List A)
    → ((db : Db) → f (g db) ≡ f db)
    → Blind g (select_one env s f)
Blind-select_one env s f same =
    Blind-gate (env.fails s) (λ w. (scalar_one_or_none (f w.db), w))
      (record { run = λ w. rw (same w.db) refl })

pub Blind-modify_redis : {g : Db → Db} (f : Redis → Redis) → Blind g (modify_redis f)
Blind-modify_redis f = record { run = λ w. refl }

map_result_id : {A : Type 0} (r : Result A) → map_result (λ a. a) r ≡ r
map_result_id (ok a) = refl
map_result_id (err e) = refl

module _ {g : Db → Db} {A : Type 0} (m : M A) where
  pub of_Blind : Blind g m → Follows g (λ a. a) m m
  of_Blind blind = record { run = λ w. rw map_result_id (blind.run w) }

  pub to_Blind : Follows g (λ a. a) m m → Blind g m
  to_Blind follows = record { run = λ w. rw map_result_id at (follows.run w) }

module _ {g : Db → Db} {A B C : Type 0} where
  Follows-continue :
      {D : Type 0} (j : A → D) (k : B → C) (r : Result A) (f : A → M B) (f' : D → M C) (w : World)
      → ((a : A) → Follows g k (f a) (f' (j a)))
      → (lift (map_result j r) >>= f') (with_tables g w)
        ≡ (map_result k ((lift r >>= f) w).0, with_tables g ((lift r >>= f) w).1)
  Follows-continue j k (ok a) f f' w follows = (follows a).run w
  Follows-continue j k (err e) f f' w follows = refl

  pub Follows-bind :
      {D : Type 0} (j : A → D) (k : B → C) (m : M A) (m' : M D) (f : A → M B) (f' : D → M C)
      → Follows g j m m'
      → ((a : A) → Follows g k (f a) (f' (j a)))
      → Follows g k (m >>= f) (m' >>= f')
  Follows-bind j k m m' f f' first follows = record {
    run = λ w. run_bind m' f' (first.run w) ∙ Follows-continue j k (m w).0 f f' (m w).1 follows;
  }

  pub Follows-then :
      (k : B → C) (m : M A) (f : A → M B) (f' : A → M C)
      → Blind g m
      → ((a : A) → Follows g k (f a) (f' a))
      → Follows g k (m >>= f) (m >>= f')
  Follows-then k m f f' blind follows = Follows-bind (λ a. a) k m m f f' (of_Blind m blind) follows

module _ {g : Db → Db} {A B : Type 0} where
  pub Blind-bind :
      (m : M A) (f : A → M B) → Blind g m → ((a : A) → Blind g (f a)) → Blind g (m >>= f)
  Blind-bind m f km kf =
      to_Blind (m >>= f) (Follows-then (λ b. b) m f f km (λ a. of_Blind (f a) (kf a)))

pub ruleset blind_rules = (
  Blind-pure, Blind-raise, Blind-lift, Blind-or_raise, Blind-if, Blind-at, Blind-from_redis,
  Blind-select_one, Blind-modify_redis, Blind-bind,
)
