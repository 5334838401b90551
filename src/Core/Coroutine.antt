-- ===== src/Core/Coroutine.antt =====
-- A coroutine cut at its awaits: what runs from one await to the next is one action, and between two
-- actions other coroutines may run. `Act` says which actions there are.
pub mod AllActs
pub mod Obeys
use voip_platform.Base.{Bool, true, false, Option, none, some, if◌then◌else◌}
use voip_platform.Core.{Error}
use voip_platform.Core.Monad.{Result, ok, err, M, pure, raise, lift, or_raise, ◌>>=◌}

-- The cuts of `m`. After an action comes what `rest` says of its result, be it a value or an error.
pub data Coroutine (Act : (B : Type 0) → M B → Type 1) {A : Type 0} : M A → Type 1 where
  finished : (r : Result A) → Coroutine Act (lift r)
  awaits :
      {B : Type 0} (m : M B) (rest : Result B → M A)
      → Act B m
      → ((r : Result B) → Coroutine Act (rest r))
      → Coroutine Act (λ w. let (r, w1) = m w in rest r w1)

module _ {Act : (B : Type 0) → M B → Type 1} {A : Type 0} where
  unfoldable pub Coroutine-act : (m : M A) → Act A m → Coroutine Act m
  Coroutine-act m act = awaits m lift act finished

  unfoldable pub Coroutine-pure : (a : A) → Coroutine Act (pure a)
  Coroutine-pure a = finished (ok a)

  unfoldable pub Coroutine-raise : (e : Error) → Coroutine Act (raise {A = A} e)
  Coroutine-raise e = finished (err e)

  unfoldable pub Coroutine-if :
      (b : Bool) (m n : M A)
      → Coroutine Act m
      → Coroutine Act n
      → Coroutine Act (if b then m else n)
  Coroutine-if true m n cm cn = cm
  Coroutine-if false m n cm cn = cn

  unfoldable pub Coroutine-or_raise : (o : Option A) (e : Error) → Coroutine Act (or_raise o e)
  Coroutine-or_raise none e = finished (err e)
  Coroutine-or_raise (some a) e = finished (ok a)

module _ {Act : (B : Type 0) → M B → Type 1} {A B : Type 0} where
  unfoldable pub bind_result :
      (r : Result A) (f : A → M B)
      → ((a : A) → Coroutine Act (f a))
      → Coroutine Act (λ w. (lift r >>= f) w)
  bind_result (ok a) f k = k a
  bind_result (err e) f k = finished (err e)

  unfoldable pub Coroutine-bind :
      (m : M A) (f : A → M B)
      → Coroutine Act m
      → ((a : A) → Coroutine Act (f a))
      → Coroutine Act (m >>= f)
  unfolding bind_result
  Coroutine-bind _ f (finished r) k = bind_result r f k
  Coroutine-bind _ f (awaits m rest act cut) k =
      awaits m (λ r. rest r >>= f) act (λ r. Coroutine-bind (rest r) f (cut r) k)
