-- ===== src/Core/Ensures.antt =====
-- What holds of the result and of the world when a coroutine returns.
use voip_platform.Base.{◌≡◌, refl, ap}
use voip_platform.Core.Monad.{World, Result, ok, err, M, lift, ◌>>=◌}

-- What a first step does, and then the rest.
pub run_bind :
    {A B : Type 0} (m : M A) (f : A → M B) {w w1 : World} {r : Result A}
    → m w ≡ (r, w1)
    → (m >>= f) w ≡ (lift r >>= f) w1
run_bind m f e = ap (λ (p : Result _ × World). (lift p.0 >>= f) p.1) e

pub record Ensures {A : Type 0} (P : A → World → Type 0) (m : M A) : Type 0 where
  pub run : (w : World) (a : A) → (m w).0 ≡ ok a → P a (m w).1

module _ {A B : Type 0} where
  continue-ok :
      (P : B → World → Type 0) (r : Result A) (f : A → M B) (w : World) (b : B)
      → ((a : A) → r ≡ ok a → (f a w).0 ≡ ok b → P b (f a w).1)
      → ((lift r >>= f) w).0 ≡ ok b
      → P b ((lift r >>= f) w).1
  continue-ok P (ok a) f w b k e = k a refl e
  continue-ok P (err x) f w b k e = cc

module _ {A B : Type 0} {P : B → World → Type 0} where
  -- The rest of a block, whatever the step before it gave.
  pub Ensures-then : (m : M A) (f : A → M B) → ((a : A) → Ensures P (f a)) → Ensures P (m >>= f)
  Ensures-then m f k = record {
    run = λ w b e. let (r, w1) = m w in continue-ok P r f w1 b (λ a _. (k a).run w1 b) e;
  }

  -- The rest of a block, with what the step before it ensures.
  pub Ensures-bind :
      (Q : A → World → Type 0) (m : M A) (f : A → M B)
      → Ensures Q m
      → ((a : A) (w : World) → Q a w → (b : B) → (f a w).0 ≡ ok b → P b (f a w).1)
      → Ensures P (m >>= f)
  Ensures-bind Q m f q k = record {
    run = λ w b e.
        let (r, w1) = m w in continue-ok P r f w1 b (λ a known. k a w1 (q.run w a known) b) e;
  }

module _ {A B : Type 0} where
  lift-ok :
      (r : Result A) (f : A → M B) (w : World) {b : B}
      → ((lift r >>= f) w).0 ≡ ok b
      → (a : A) × (r ≡ ok a) × ((f a w).0 ≡ ok b)
  lift-ok (ok a) f w e = (a, refl, e)
  lift-ok (err x) f w e = cc

  -- A block that returns has a first step that returned.
  pub >>=-ok :
      (m : M A) (f : A → M B) (w : World) {b : B}
      → ((m >>= f) w).0 ≡ ok b
      → (a : A) × ((m w).0 ≡ ok a) × ((f a (m w).1).0 ≡ ok b)
  >>=-ok m f w e = let (r, v) = m w in lift-ok r f v e

  continue-of-ok :
      (r : Result A) (f : A → M B) (w : World) {a : A} → r ≡ ok a → (lift r >>= f) w ≡ f a w
  continue-of-ok r f w e = rw e

  -- A first step that returns hands over to the rest.
  pub >>=-of-ok :
      (m : M A) (f : A → M B) (w : World) {a : A} → (m w).0 ≡ ok a → (m >>= f) w ≡ f a (m w).1
  >>=-of-ok m f w e = let (r, v) = m w in continue-of-ok r f v e
