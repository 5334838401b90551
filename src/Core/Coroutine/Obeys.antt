-- ===== src/Core/Coroutine/Obeys.antt =====
-- Coroutines whose every action keeps an invariant of the world, where others may run in between if
-- they keep it too, and what holds of the value that such a coroutine returns.
use voip_platform.Base.{Bool, true, false, ◌≡◌, refl, Option, none, some}
use voip_platform.Core.{Error}
use voip_platform.Core.Coroutine.{
  Coroutine, finished, awaits, Coroutine-act, Coroutine-pure, Coroutine-raise, Coroutine-if,
  Coroutine-or_raise, Coroutine-bind,
}
use voip_platform.Core.Coroutine.AllActs.{Each, AllActs}
use voip_platform.Core.Monad.{World, M, Result, ok, err}

-- Of a value that is returned.
abbrev pub OnOk : {A : Type 0} → (A → Type 0) → Result A → Type 0
OnOk Q (ok a) = Q a
OnOk Q (err e) = Unit

module _ {Act : (B : Type 0) → M B → Type 1} (I : World → Type 0) where
  abbrev pub Steps : {A : Type 0} {m : M A} → (A → Type 0) → Coroutine Act m → Type 0
  Steps Q (finished r) = OnOk Q r
  Steps Q (awaits m rest act cut) = (w : World) → I w → I (m w).1 × Steps Q (cut (m w).0)

  pub record Obeys {A : Type 0} (Q : A → Type 0) {m : M A} (c : Coroutine Act m) : Type 0 where
    pub steps : Steps Q c

module _ {Act : (B : Type 0) → M B → Type 1} {I : World → Type 0} where
  Steps-bind :
      {A B : Type 0} {m : M A} {Q : A → Type 0} {R : B → Type 0} (f : A → M B) (c : Coroutine Act m)
      (k : (a : A) → Coroutine Act (f a))
      → Steps I Q c
      → ((a : A) → Q a → Obeys I R (k a))
      → Steps I R (Coroutine-bind m f c k)
  unfolding Coroutine-bind
  Steps-bind f (finished (ok a)) k h s = (s a h).steps
  Steps-bind f (finished (err e)) k h s = tt
  Steps-bind {R} f (awaits m rest act cut) k h s =
      λ w i. let (j, next) = h w i in (j, Steps-bind {R = R} f (cut (m w).0) k next s)

  pub Obeys-bind :
      {A B : Type 0} {m : M A} {Q : A → Type 0} {R : B → Type 0} {f : A → M B} (c : Coroutine Act m)
      (k : (a : A) → Coroutine Act (f a))
      → Obeys I Q c
      → ((a : A) → Q a → Obeys I R (k a))
      → Obeys I R (Coroutine-bind m f c k)
  Obeys-bind {R} {f} c k h s = record { steps = Steps-bind {R = R} f c k h.steps s }

  pub Obeys-if :
      {A : Type 0} {Q : A → Type 0} (b : Bool) (m n : M A) (c : Coroutine Act m)
      (d : Coroutine Act n)
      → (b ≡ true → Obeys I Q c)
      → (b ≡ false → Obeys I Q d)
      → Obeys I Q (Coroutine-if b m n c d)
  unfolding Coroutine-if
  Obeys-if true m n c d h k = h refl
  Obeys-if false m n c d h k = k refl

  pub Obeys-pure :
      {A : Type 0} {Q : A → Type 0} (a : A) → Q a → Obeys {Act = Act} I Q (Coroutine-pure a)
  unfolding Coroutine-pure
  Obeys-pure a q = record { steps = q }

  pub Obeys-raise :
      {A : Type 0} {Q : A → Type 0} (e : Error) → Obeys {Act = Act} I Q (Coroutine-raise e)
  unfolding Coroutine-raise
  Obeys-raise e = record { steps = tt }

  -- The value that the option holds.
  pub Obeys-or_raise :
      {A : Type 0} {Q : A → Type 0} (o : Option A) (e : Error)
      → ((a : A) → o ≡ some a → Q a)
      → Obeys {Act = Act} I Q (Coroutine-or_raise o e)
  unfolding Coroutine-or_raise
  Obeys-or_raise none e q = record { steps = tt }
  Obeys-or_raise (some a) e q = record { steps = q a refl }

  pub Obeys-act :
      {B : Type 0} {Q : B → Type 0} {m : M B} (act : Act B m)
      → ((w : World) → I w → I (m w).1 × OnOk Q (m w).0)
      → Obeys {Act = Act} I Q (Coroutine-act m act)
  unfolding Coroutine-act
  Obeys-act act h = record { steps = h }

  -- Where each action keeps the invariant by itself.
  module _ {P : (B : Type 0) (m : M B) → Act B m → Type 0}
      (keep : (B : Type 0) (m : M B) (act : Act B m)
        → P B m act
        → (w : World) → I w
        → I (m w).1) where
    Steps-Each : {A : Type 0} {m : M A} (c : Coroutine Act m) → Each P c → Steps I (λ _. Unit) c
    Steps-Each (finished (ok a)) h = tt
    Steps-Each (finished (err e)) h = tt
    Steps-Each (awaits {B} m rest act cut) h =
        λ w i. (keep B m act (h.0) w i, Steps-Each (cut (m w).0) (h.1 (m w).0))

    pub Obeys-Each :
        {A : Type 0} {m : M A} (c : Coroutine Act m) → AllActs P c → Obeys I (λ _. Unit) c
    Obeys-Each c h = record { steps = Steps-Each c h.each }
