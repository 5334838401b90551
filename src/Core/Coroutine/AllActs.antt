-- ===== src/Core/Coroutine/AllActs.antt =====
-- What every action of a coroutine is like, whatever the actions before it gave.
use voip_platform.Base.{Bool, true, false, Option, none, some}
use voip_platform.Core.{Error}
use voip_platform.Core.Coroutine.{
  Coroutine, finished, awaits, Coroutine-act, Coroutine-pure, Coroutine-raise, Coroutine-if,
  Coroutine-or_raise, Coroutine-bind,
}
use voip_platform.Core.Monad.{M, Result, ok, err, lift}

module _ {Act : (B : Type 0) → M B → Type 1} (P : (B : Type 0) (m : M B) → Act B m → Type 0) where
  abbrev pub Each : {A : Type 0} {m : M A} → Coroutine Act m → Type 0
  Each (finished r) = Unit
  Each (awaits {B} m rest act cut) = P B m act × ((r : Result B) → Each (cut r))

  pub record AllActs {A : Type 0} {m : M A} (c : Coroutine Act m) : Type 0 where
    pub each : Each c

module _ {Act : (B : Type 0) → M B → Type 1} {P : (B : Type 0) (m : M B) → Act B m → Type 0} where
  Each-bind :
      {A B : Type 0} {m : M A} (f : A → M B) (c : Coroutine Act m)
      (k : (a : A) → Coroutine Act (f a))
      → Each P c
      → ((a : A) → AllActs P (k a))
      → Each P (Coroutine-bind m f c k)
  unfolding Coroutine-bind
  Each-bind f (finished (ok a)) k h s = (s a).each
  Each-bind f (finished (err e)) k h s = tt
  Each-bind f (awaits m rest act cut) k h s = (h.0, λ r. Each-bind f (cut r) k (h.1 r) s)

  pub AllActs-bind :
      {A B : Type 0} {m : M A} {f : A → M B} (c : Coroutine Act m)
      (k : (a : A) → Coroutine Act (f a))
      → AllActs P c
      → ((a : A) → AllActs P (k a))
      → AllActs P (Coroutine-bind m f c k)
  AllActs-bind {f} c k h s = record { each = Each-bind f c k h.each s }

  pub AllActs-if :
      {A : Type 0} (b : Bool) (m n : M A) (c : Coroutine Act m) (d : Coroutine Act n)
      → AllActs P c
      → AllActs P d
      → AllActs P (Coroutine-if b m n c d)
  unfolding Coroutine-if
  AllActs-if true m n c d h k = h
  AllActs-if false m n c d h k = k

  pub AllActs-finished :
      {A : Type 0} (r : Result A) → let c : Coroutine Act (lift r) = finished r in AllActs P c
  AllActs-finished r = record { each = tt }

  pub AllActs-pure : {A : Type 0} (a : A) → AllActs P (Coroutine-pure a)
  unfolding Coroutine-pure
  AllActs-pure a = record { each = tt }

  pub AllActs-raise : {A : Type 0} (e : Error) → AllActs P (Coroutine-raise {A = A} e)
  unfolding Coroutine-raise
  AllActs-raise e = record { each = tt }

  pub AllActs-or_raise :
      {A : Type 0} (o : Option A) (e : Error) → AllActs P (Coroutine-or_raise o e)
  unfolding Coroutine-or_raise
  AllActs-or_raise none e = record { each = tt }
  AllActs-or_raise (some a) e = record { each = tt }

  pub AllActs-act :
      {B : Type 0} {m : M B} (act : Act B m) → P B m act → AllActs P (Coroutine-act m act)
  unfolding Coroutine-act
  AllActs-act act p = record { each = (p, λ r. tt) }

pub ruleset acts_rules =
    (AllActs-bind, AllActs-if, AllActs-finished, AllActs-pure, AllActs-raise, AllActs-or_raise)

module _ {Act : (B : Type 0) → M B → Type 1} {P Q : (B : Type 0) (m : M B) → Act B m → Type 0} where
  Each-map :
      ((B : Type 0) (m : M B) (act : Act B m) → P B m act → Q B m act)
      → {A : Type 0} {m : M A} (c : Coroutine Act m) → Each P c
      → Each Q c
  Each-map f (finished r) h = tt
  Each-map f (awaits {B} m rest act cut) h = (f B m act (h.0), λ r. Each-map f (cut r) (h.1 r))

  pub AllActs-map :
      ((B : Type 0) (m : M B) (act : Act B m) → P B m act → Q B m act)
      → {A : Type 0} {m : M A} (c : Coroutine Act m) → AllActs P c
      → AllActs Q c
  AllActs-map f c h = record { each = Each-map f c h.each }
